-- ===== src/Delta.antt =====
-- internal/rendered/rendered.go, Equal, Diff, Delta and Apply: the changes between two versions of a
-- policy. The laws are in the modules below.
pub mod Peers
pub mod Block
pub mod Maps
pub mod Roundtrip
pub mod Minimal
pub mod Replay
use innerwall.Prelude.Tests.{
  ℕ, suc, ◌+◌, ◌≡◌, refl, Bool, true, false, not, ◌&&◌, ◌||◌, Option, none, some, List, [], ◌∷◌,
  ◌++◌, map, ◌==◌, if◌then◌else◌,
}
use innerwall.Prelude.Order.{list_eqb, ◌=?◌}
use innerwall.Prelude.Sorting.{sort, minus}
use innerwall.Prelude.Dict.{get, put, remove, keys, values_at}
use innerwall.Prelude.Text.{Str, str_order}
use innerwall.Prelude.Result.{Result, ok, err, ◌>>=◌}
use innerwall.Netip.{Netip}
use innerwall.Rendered.{
  Mode, PortRange, port_order, port_eqb, ResolvedRule, WorkloadPolicy, normalize_cidr,
  canonical_cidrs, canonical_rule, canonical,
}

pub record PeerChange : Type 0 where
  pub rule_id : Str
  pub peer_cidrs : List Str

-- `unset` is a change with no variant.
pub data DeltaChange : Type 0 where
  upsert_rule : ResolvedRule → DeltaChange
  remove_rule_id : Str → DeltaChange
  add_peers : PeerChange → DeltaChange
  remove_peers : PeerChange → DeltaChange
  set_mode : Mode → DeltaChange
  unset : DeltaChange

pub record PolicyDelta : Type 0 where
  pub from_version : ℕ
  pub to_version : ℕ
  pub changes : List DeltaChange

-- `ErrBaseMismatch`, `ErrUnknownRule` and `ErrMalformedChange`, with what their messages name.
pub data ApplyError : Type 0 where
  base_mismatch : ℕ → ℕ → ApplyError
  unknown_rule : ℕ → Str → ApplyError
  malformed_change : ℕ → ApplyError

abbrev pub RuleMap : Type 0
RuleMap = List (Str × ResolvedRule)

pub index_from : RuleMap → List ResolvedRule → RuleMap
index_from m [] = m
index_from m (r ∷ rs) = index_from (put r.rule_id r m) rs

unfoldable pub index_rules : List ResolvedRule → RuleMap
unfolding index_from
index_rules rules = index_from [] rules

-- `proto.Equal` on two rules: every field.
abbrev pub rule_eqb : ResolvedRule → ResolvedRule → Bool
rule_eqb a b =
    a.rule_id =? b.rule_id
    && list_eqb a.peer_cidrs b.peer_cidrs
    && a.protocol == b.protocol
    && list_eqb a.ports b.ports

abbrev pub rules_eqb : List ResolvedRule → List ResolvedRule → Bool
rules_eqb [] [] = true
rules_eqb [] (b ∷ bs) = false
rules_eqb (a ∷ as') [] = false
rules_eqb (a ∷ as') (b ∷ bs) = rule_eqb a b && rules_eqb as' bs

unfoldable pub ports_equal : List PortRange → List PortRange → Bool
ports_equal [] [] = true
ports_equal [] (b ∷ bs) = false
ports_equal (a ∷ as') [] = false
ports_equal (a ∷ as') (b ∷ bs) = port_eqb a b && ports_equal as' bs

-- What the second set has and the first lacks, and the other way round.
unfoldable pub set_diff : List Str → List Str → List Str × List Str
set_diff old cur = (minus cur old, minus old cur)

abbrev pub is_empty {ℓ} : {A : Type ℓ} → List A → Bool
is_empty [] = true
is_empty (x ∷ xs) = false

-- An add_peers and a remove_peers, each where it has peers.
pub peer_changes : Str → List Str × List Str → List DeltaChange
peer_changes id (added, removed) =
    (if is_empty added then [] else add_peers (record { rule_id = id; peer_cidrs = added }) ∷ [])
    ++ (if is_empty removed
        then []
        else remove_peers (record { rule_id = id; peer_cidrs = removed }) ∷ [])

-- The switch of `Diff` for one id.
unfoldable pub rule_changes : Str → Option ResolvedRule → Option ResolvedRule → List DeltaChange
unfolding ports_equal set_diff peer_changes
rule_changes id none none = []
rule_changes id none (some cur) = upsert_rule cur ∷ []
rule_changes id (some old) none = remove_rule_id id ∷ []
rule_changes id (some old) (some cur) =
    if not (old.protocol == cur.protocol) || not (ports_equal old.ports cur.ports)
    then upsert_rule cur ∷ []
    else peer_changes id (set_diff old.peer_cidrs cur.peer_cidrs)

pub changes_at : RuleMap → RuleMap → List Str → List DeltaChange
changes_at old cur [] = []
changes_at old cur (id ∷ ids) = rule_changes id (get id old) (get id cur) ++ changes_at old cur ids

pub mode_changes : Mode → Mode → List DeltaChange
mode_changes old cur = if old == cur then [] else set_mode cur ∷ []

-- The ids of either map, in order.
pub all_ids : RuleMap → RuleMap → List Str
all_ids old cur = sort (keys old ++ minus (keys cur) (keys old))

-- What `Apply` changes as it goes: the rules by id, and the mode.
pub record Applying : Type 0 where
  pub rules : RuleMap
  pub mode : Mode

-- A rule whose peers a change names, or the error of the change's index.
pub found_rule : ℕ → Str → Option ResolvedRule → Result ApplyError ResolvedRule
found_rule i id none = err (unknown_rule i id)
found_rule i id (some r) = ok r

module _ ⦃ip : Netip⦄ where
  unfoldable pub equal : WorkloadPolicy → WorkloadPolicy → Bool
  equal a b =
      (canonical a).mode == (canonical b).mode
      && rules_eqb (canonical a).inbound_rules (canonical b).inbound_rules

  unfoldable pub diff : WorkloadPolicy → WorkloadPolicy → List DeltaChange
  unfolding mode_changes all_ids changes_at index_rules
  diff from to =
      let old = index_rules (canonical from).inbound_rules in
      let cur = index_rules (canonical to).inbound_rules in
      mode_changes (canonical from).mode (canonical to).mode ++ changes_at old cur (all_ids old cur)

  unfoldable pub delta : WorkloadPolicy → WorkloadPolicy → PolicyDelta
  delta from to = record {
    from_version = from.version;
    to_version = to.version;
    changes = diff from to;
  }

  pub apply_change : ℕ → DeltaChange → Applying → Result ApplyError Applying
  unfolding found_rule
  apply_change i (upsert_rule r) s =
      ok (record s { rules = put r.rule_id (canonical_rule r) s.rules })
  apply_change i (remove_rule_id id) s = ok (record s { rules = remove id s.rules })
  apply_change i (add_peers c) s = do
    r ← found_rule i c.rule_id (get c.rule_id s.rules)
    let r' = record r { peer_cidrs = canonical_cidrs (r.peer_cidrs ++ c.peer_cidrs) }
    ok (record s { rules = put c.rule_id r' s.rules })
  apply_change i (remove_peers c) s = do
    r ← found_rule i c.rule_id (get c.rule_id s.rules)
    let r' = record r { peer_cidrs = minus r.peer_cidrs (map normalize_cidr c.peer_cidrs) }
    ok (record s { rules = put c.rule_id r' s.rules })
  apply_change i (set_mode m) s = ok (record s { mode = m })
  apply_change i unset s = err (malformed_change i)

  pub apply_changes : ℕ → List DeltaChange → Applying → Result ApplyError Applying
  unfolding apply_change
  apply_changes i [] s = ok s
  apply_changes i (c ∷ cs) s = apply_change i c s >>= apply_changes (suc i) cs

  unfoldable pub apply : WorkloadPolicy → PolicyDelta → Result ApplyError WorkloadPolicy
  unfolding apply_changes index_rules
  apply base d =
      let out = canonical base in
      if not (out.version == d.from_version)
      then err (base_mismatch out.version d.from_version)
      else do
        s ←
            apply_changes 0 d.changes
              (record { rules = index_rules out.inbound_rules; mode = out.mode })
        ok (
            canonical (record {
              version = d.to_version;
              mode = s.mode;
              inbound_rules = values_at s.rules (keys s.rules);
            }))
