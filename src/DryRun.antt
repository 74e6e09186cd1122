-- ===== src/DryRun.antt =====
-- internal/compiler/dryrun.go, DryRun: what a render would change on each workload. The laws are in
-- the module below.
pub mod Reported
use innerwall.Prelude.Tests.{
  ℕ, ◌≡◌, Bool, true, false, Option, none, some, List, [], ◌∷◌, ◌++◌, is_some, if◌then◌else◌,
}
use innerwall.Prelude.Sorting.{sort, sort_by}
use innerwall.Prelude.Dict.{get, put, keys}
use innerwall.Prelude.Text.{Str, str_order}
use innerwall.Netip.{Netip}
use innerwall.Rendered.{Mode, ResolvedRule, WorkloadPolicy, canonical}
use innerwall.Delta.{
  DeltaChange, upsert_rule, remove_rule_id, add_peers, remove_peers, set_mode, unset, RuleMap,
  index_rules, is_empty, diff,
}
use innerwall.Policy.{Uuid}
use innerwall.Plan.{Policies, policy_or_empty}

-- A rule that a map lacks is none, as a nil pointer.
pub record RuleChange : Type 0 where
  pub before : Option ResolvedRule
  pub after : Option ResolvedRule

pub record ModeChange : Type 0 where
  pub from : Mode
  pub to : Mode

pub record WorkloadDiff : Type 0 where
  pub id : Uuid
  pub version : ℕ
  pub mode : Option ModeChange
  pub added : List (Option ResolvedRule)
  pub removed : List (Option ResolvedRule)
  pub changed : List RuleChange

abbrev pub diff_key : WorkloadDiff → Uuid
diff_key d = d.id

-- The diff as it is filled, and the map `changed`.
pub record Filling : Type 0 where
  pub diff : WorkloadDiff
  pub marked : List (Str × Bool)

abbrev pub mark : Str → Filling → Filling
mark id f = record f { marked = put id true f.marked }

abbrev pub add_rule : Option ResolvedRule → Filling → Filling
add_rule r f = record f { diff = record f.diff { added = f.diff.added ++ r ∷ [] } }

-- The switch of the loop over the changes.
pub classify : RuleMap → RuleMap → Mode → DeltaChange → Filling → Filling
classify before after from (upsert_rule r) f =
    if is_some (get r.rule_id before) then mark r.rule_id f else add_rule (get r.rule_id after) f
classify before after from (remove_rule_id id) f = record f {
  diff = record f.diff { removed = f.diff.removed ++ get id before ∷ [] };
}
classify before after from (add_peers c) f = mark c.rule_id f
classify before after from (remove_peers c) f = mark c.rule_id f
classify before after from (set_mode m) f = record f {
  diff = record f.diff { mode = some (record { from = from; to = m }) };
}
classify before after from unset f = f

pub classify_all : RuleMap → RuleMap → Mode → List DeltaChange → Filling → Filling
unfolding classify
classify_all before after from [] f = f
classify_all before after from (c ∷ cs) f =
    classify_all before after from cs (classify before after from c f)

pub rule_changes_of : RuleMap → RuleMap → List Str → List RuleChange
rule_changes_of before after [] = []
rule_changes_of before after (id ∷ ids) =
    record { before = get id before; after = get id after } ∷ rule_changes_of before after ids

module _ ⦃ip : Netip⦄ where
  pub workload_diff : Uuid → WorkloadPolicy → WorkloadPolicy → List DeltaChange → WorkloadDiff
  unfolding classify_all rule_changes_of index_rules
  workload_diff id prev cur changes =
      let before = index_rules prev.inbound_rules in
      let after = index_rules cur.inbound_rules in
      let f = classify_all before after prev.mode changes (record {
        diff = record {
          id = id;
          version = prev.version;
          mode = none;
          added = [];
          removed = [];
          changed = [];
        };
        marked = [];
      }) in
      record f.diff { changed = rule_changes_of before after (sort (keys f.marked)) }

  -- The body of the loop over `current`.
  pub dry_one : Uuid → WorkloadPolicy → WorkloadPolicy → List WorkloadDiff
  unfolding workload_diff
  dry_one id prev cur =
      let changes = diff prev cur in
      if is_empty changes
      then []
      else workload_diff id (canonical prev) (canonical cur) changes ∷ []

  pub dry_each : Policies → Policies → List WorkloadDiff
  unfolding dry_one
  dry_each previous [] = []
  dry_each previous ((id, cur) ∷ rest) =
      dry_one id (policy_or_empty (get id previous)) cur ++ dry_each previous rest

  -- `DryRun`.
  unfoldable pub dry_run : Policies → Policies → List WorkloadDiff
  unfolding dry_each
  dry_run previous current = sort_by diff_key (dry_each previous current)
