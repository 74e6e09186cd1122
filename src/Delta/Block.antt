-- ===== src/Delta/Block.antt =====
-- internal/rendered/rendered.go: what `Apply` makes of the changes that `Diff` lists for one id.
use innerwall.Prelude.Tests.{
  ℕ, suc, ◌≡◌, refl, ◌∙◌, ap, inl, inr, true, false, not, ◌||◌, Option, none, some, List, [], ◌∷◌,
  ◌++◌, map, arith, if◌then◌else◌, Bool-cases, ◌==◌,
}
use innerwall.Prelude.Order.{eqb-cases, eqb_refl, ◌=?◌}
use mathlib.Core.Path.{subst}
use innerwall.Prelude.Sorting.{minus}
use innerwall.Prelude.Dict.{get, put, remove, get-put, get-remove}
use innerwall.Prelude.Text.{Str, str_order}
use innerwall.Prelude.Result.{ok}
use innerwall.Netip.{Netip}
use innerwall.Rendered.{PortRange, ResolvedRule, normalize_cidr, canonical_cidrs, canonical_rule}
use innerwall.Rendered.Cidr.{IsAscending-canonical_cidrs, IsNormal-canonical_cidrs}
use innerwall.Delta.{
  Applying, ports_equal, set_diff, peer_changes, rule_changes, found_rule, apply_change,
  apply_changes, PeerChange, add_peers, remove_peers, upsert_rule,
}
use innerwall.Delta.Peers.{IsCanonicalPeers, with_added, with_removed, peers_moved}

ports_equal→≡ : (a b : List PortRange) → ports_equal a b ≡ true → a ≡ b
unfolding ports_equal
ports_equal→≡ [] [] h = refl
ports_equal→≡ [] (b ∷ bs) h = cc
ports_equal→≡ (a ∷ as') [] h = cc
ports_equal→≡ (a ∷ as') (b ∷ bs) h = ground (arith, ports_equal→≡ as' bs)

module _ ⦃ip : Netip⦄ where
  -- The state after the changes of one id: that id holds what it should, and nothing else moved.
  pub record IsMoved (id : Str) (cur : Option ResolvedRule) (s t : Applying) : Type 0 where
    pub moved : (j : Str) → get j t.rules ≡ (if id =? j then cur else get j s.rules)
    pub mode_kept : t.mode ≡ s.mode

  abbrev put_rule : Str → ResolvedRule → Applying → Applying
  put_rule id r s = record s { rules = put id r s.rules }

  IsMoved-put :
      (id : Str) (r : ResolvedRule) (s : Applying) → IsMoved id (some r) s (put_rule id r s)
  IsMoved-put id r s = record { moved = λ j. get-put id j r s.rules; mode_kept = refl }

  IsMoved-remove :
      (id : Str) (s : Applying) → IsMoved id none s (record s { rules = remove id s.rules })
  IsMoved-remove id s = record { moved = λ j. get-remove id j s.rules; mode_kept = refl }

  IsMoved-same :
      (id : Str) (cur : Option ResolvedRule) (s : Applying)
      → get id s.rules ≡ cur
      → IsMoved id cur s s
  IsMoved-same id cur s h = record {
    moved = λ j. elim (eqb-cases id j) [ inl e ↦ rw (← e, eqb_refl id) h | inr ne ↦ rw ne ];
    mode_kept = refl;
  }

  IsMoved-trans :
      (id : Str) (o p : Option ResolvedRule) (s t u : Applying)
      → IsMoved id o s t
      → IsMoved id p t u
      → IsMoved id p s u
  IsMoved-trans id o p s t u h k = record {
    moved = λ j. ground (arith, h.moved j, k.moved j);
    mode_kept = k.mode_kept ∙ h.mode_kept;
  }

  abbrev with_peers : List Str → ResolvedRule → ResolvedRule
  with_peers peers r = record r { peer_cidrs = peers }

  abbrev change_of : Str → List Str → PeerChange
  change_of id peers = record { rule_id = id; peer_cidrs = peers }

  apply_change-add_peers :
      (i : ℕ) (id : Str) (old : ResolvedRule) (added : List Str) (s : Applying)
      → get id s.rules ≡ some old
      → apply_change i (add_peers (change_of id added)) s
        ≡ ok (put_rule id (with_peers (canonical_cidrs (old.peer_cidrs ++ added)) old) s)
  unfolding apply_change
  apply_change-add_peers i id old added s h = rw (h, found_rule)

  apply_change-remove_peers :
      (i : ℕ) (id : Str) (old : ResolvedRule) (removed : List Str) (s : Applying)
      → get id s.rules ≡ some old
      → apply_change i (remove_peers (change_of id removed)) s
        ≡ ok (put_rule id (with_peers (minus old.peer_cidrs (map normalize_cidr removed)) old) s)
  unfolding apply_change
  apply_change-remove_peers i id old removed s h = rw (h, found_rule)

  -- The peer changes of a rule that the state holds.
  apply-peer_changes :
      (i : ℕ) (id : Str) (old : ResolvedRule) (added removed : List Str) (s : Applying)
      → get id s.rules ≡ some old
      → (t : Applying) × (apply_changes i (peer_changes id (added, removed)) s ≡ ok t)
        × IsMoved id
            (some (with_peers (with_removed (with_added old.peer_cidrs added) removed) old))
            s
            t
  unfolding apply_changes peer_changes
  apply-peer_changes i id old [] [] s h = (s, refl, IsMoved-same id (some old) s h)
  apply-peer_changes i id old (x ∷ xs) [] s h =
      let r = with_peers (canonical_cidrs (old.peer_cidrs ++ x ∷ xs)) old in
      (put_rule id r s, rw (apply_change-add_peers i id old (x ∷ xs) s h), IsMoved-put id r s)
  apply-peer_changes i id old [] (y ∷ ys) s h =
      let r = with_peers (minus old.peer_cidrs (map normalize_cidr (y ∷ ys))) old in
      (put_rule id r s, rw (apply_change-remove_peers i id old (y ∷ ys) s h), IsMoved-put id r s)
  apply-peer_changes i id old (x ∷ xs) (y ∷ ys) s h =
      let mid = with_peers (canonical_cidrs (old.peer_cidrs ++ x ∷ xs)) old in
      let r = with_peers (minus mid.peer_cidrs (map normalize_cidr (y ∷ ys))) mid in
      let held : get id (put id mid s.rules) ≡ some mid = rw (get-put, eqb_refl id) in
      (
        put_rule id r (put_rule id mid s),
        rw (apply_change-add_peers i id old (x ∷ xs) s h)
            (rw (apply_change-remove_peers (suc i) id mid (y ∷ ys) (put_rule id mid s) held)),
        IsMoved-trans id (some mid) (some r) s (put_rule id mid s)
            (put_rule id r (put_rule id mid s)) (IsMoved-put id mid s)
            (IsMoved-put id r (put_rule id mid s)),
      )

  -- A rule that is its own canonical form has canonical peers.
  IsCanonicalPeers-rule : (r : ResolvedRule) → canonical_rule r ≡ r → IsCanonicalPeers r.peer_cidrs
  unfolding canonical_rule
  IsCanonicalPeers-rule r h =
      subst IsCanonicalPeers (ap (λ (x : ResolvedRule). x.peer_cidrs) h) (record {
        ascending = IsAscending-canonical_cidrs r.peer_cidrs;
        normal = IsNormal-canonical_cidrs r.peer_cidrs;
      })

  abbrev IsRuleAt : Str → Option ResolvedRule → Type 0
  IsRuleAt id o = (r : ResolvedRule) → o ≡ some r → (canonical_rule r ≡ r) × (r.rule_id ≡ id)

  apply-upsert :
      (i : ℕ) (id : Str) (cur : ResolvedRule) (s : Applying)
      → (canonical_rule cur ≡ cur) × (cur.rule_id ≡ id)
      → (t : Applying) × (apply_changes i (upsert_rule cur ∷ []) s ≡ ok t)
        × IsMoved id (some cur) s t
  unfolding apply_changes
  apply-upsert i id cur s h = (put_rule id cur s, rw (h.0, h.1), IsMoved-put id cur s)

  -- With protocol and ports alike, the new rule is the old one with the new peers.
  with_peers-eq :
      (id : Str) (old cur : ResolvedRule)
      → (canonical_rule old ≡ old) × (old.rule_id ≡ id)
      → (canonical_rule cur ≡ cur) × (cur.rule_id ≡ id)
      → (not (old.protocol == cur.protocol) || not (ports_equal old.ports cur.ports)) ≡ false
      → with_peers
          (with_removed
            (with_added old.peer_cidrs (minus cur.peer_cidrs old.peer_cidrs))
            (minus old.peer_cidrs cur.peer_cidrs))
          old
        ≡ cur
  with_peers-eq id old cur ho hc alike =
      rw
        (peers_moved old.peer_cidrs cur.peer_cidrs (IsCanonicalPeers-rule old ho.0)
          (IsCanonicalPeers-rule cur hc.0))
        (ground (arith, ports_equal→≡ old.ports cur.ports))

  -- The switch, one branch after the other.
  pub apply-rule_changes :
      (i : ℕ) (id : Str) (old cur : Option ResolvedRule) (s : Applying)
      → IsRuleAt id old
      → IsRuleAt id cur
      → get id s.rules ≡ old
      → (t : Applying) × (apply_changes i (rule_changes id old cur) s ≡ ok t) × IsMoved id cur s t
  unfolding rule_changes apply_changes
  apply-rule_changes i id none none s ho hc h = (s, refl, IsMoved-same id none s h)
  apply-rule_changes i id none (some cur) s ho hc h = apply-upsert i id cur s (hc cur refl)
  apply-rule_changes i id (some old) none s ho hc h =
      (record s { rules = remove id s.rules }, refl, IsMoved-remove id s)
  apply-rule_changes i id (some old) (some cur) s ho hc h =
      elim (Bool-cases
        (not (old.protocol == cur.protocol) || not (ports_equal old.ports cur.ports))) [
          | inl e ↦ rw e (apply-upsert i id cur s (hc cur refl))
          | inr e ↦ rw e (
              subst
                (λ r.
                  (t : Applying) × (apply_changes i
                      (peer_changes id (set_diff old.peer_cidrs cur.peer_cidrs)) s
                    ≡ ok t)
                  × IsMoved id (some r) s t)
                (with_peers-eq id old cur (ho old refl) (hc cur refl) e)
                (apply-peer_changes i id old (minus cur.peer_cidrs old.peer_cidrs)
                  (minus old.peer_cidrs cur.peer_cidrs) s h))
        ]
