-- ===== src/DryRun/Reported.antt =====
-- internal/compiler/dryrun.go, DryRun: which workloads it reports.
use innerwall.Prelude.Tests.{
  ℕ, ◌≡◌, refl, sym, ◌∙◌, ap, inl, inr, ◌↔◌, Bool, true, false, not, ◌&&◌, ◌||◌, Option, none, some,
  List, [], ◌∷◌, ◌++◌, is_some, Bool-cases, arith,
}
use innerwall.Prelude.Order.{◌=?◌, eqb-cases, eqb_refl}
use innerwall.Prelude.Sorting.{find_last}
use innerwall.Prelude.Stable.{find_last-sort_by}
use innerwall.Prelude.Dict.{get, keys, IsDict}
use innerwall.Prelude.Text.{str_order}
use innerwall.Netip.{Netip}
use innerwall.Rendered.{WorkloadPolicy, canonical}
use innerwall.Delta.{
  DeltaChange, is_empty, equal, diff, RuleMap, upsert_rule, remove_rule_id, add_peers, remove_peers,
  set_mode, unset,
}
use innerwall.Delta.Minimal.{diff-empty_iff-equal}
use innerwall.Policy.{Uuid}
use innerwall.Plan.{Policies, policy_or_empty}
use innerwall.Plan.Versions.{get_absent}
use innerwall.DryRun.{
  WorkloadDiff, diff_key, Filling, classify, classify_all, workload_diff, dry_one, dry_each,
  dry_run,
}

-- Whether the list reports the workload.
abbrev pub reports : Uuid → List WorkloadDiff → Bool
reports id ds = is_some (find_last diff_key id ds)

unfoldable pub differs : ⦃ip : Netip⦄ → WorkloadPolicy → Option WorkloadPolicy → Bool
differs prev none = false
differs prev (some cur) = not (equal prev cur)

module _ ⦃ip : Netip⦄ where
  classify-id :
      (b a : RuleMap) (m : ℕ) (c : DeltaChange) (f : Filling)
      → (classify b a m c f).diff.id ≡ f.diff.id
  unfolding classify
  classify-id b a m (upsert_rule r) f = elim (Bool-cases (is_some (get r.rule_id b))) [
    | inl e ↦ rw e refl
    | inr e ↦ rw e refl
  ]
  classify-id b a m (remove_rule_id id) f = refl
  classify-id b a m (add_peers c) f = refl
  classify-id b a m (remove_peers c) f = refl
  classify-id b a m (set_mode n) f = refl
  classify-id b a m unset f = refl

  classify_all-id :
      (b a : RuleMap) (m : ℕ) (cs : List DeltaChange) (f : Filling)
      → (classify_all b a m cs f).diff.id ≡ f.diff.id
  unfolding classify_all
  classify_all-id b a m [] f = refl
  classify_all-id b a m (c ∷ cs) f =
      classify_all-id b a m cs (classify b a m c f) ∙ classify-id b a m c f

  is_empty-diff : (prev cur : WorkloadPolicy) → is_empty (diff prev cur) ≡ equal prev cur
  is_empty-diff prev cur = go (diff prev cur) (diff-empty_iff-equal prev cur)
    where
      go :
          (cs : List DeltaChange)
          → (cs ≡ []) ↔ (equal prev cur ≡ true)
          → is_empty cs ≡ equal prev cur
      go [] h = sym (h.0 refl)
      go (c ∷ cs) h = elim (Bool-cases (equal prev cur)) [ inl e ↦ cc (h.1 e) | inr e ↦ sym e ]

  workload_diff-id :
      (id : Uuid) (prev cur : WorkloadPolicy) (cs : List DeltaChange)
      → (workload_diff id prev cur cs).id ≡ id
  unfolding workload_diff
  workload_diff-id id prev cur cs = classify_all-id _ _ prev.mode cs _

  reports-dry_one :
      (id j : Uuid) (prev cur : WorkloadPolicy) (ds : List WorkloadDiff)
      → reports j (dry_one id prev cur ++ ds) ≡ (reports j ds || (id =? j && not (equal prev cur)))
  unfolding dry_one find_last
  reports-dry_one id j prev cur ds = elim (Bool-cases (equal prev cur)) [
    | inl e ↦ ground (arith, is_empty-diff prev cur, e)
    | inr e ↦ rw (is_empty-diff prev cur) (
        ground (
          arith,
          e,
          ap (λ i. i =? j) (workload_diff-id id (canonical prev) (canonical cur) (diff prev cur)),
        ))
  ]

  reports-dry_each :
      (previous current : Policies) (id : Uuid)
      → IsDict current
      → reports id (dry_each previous current)
        ≡ differs (policy_or_empty (get id previous)) (get id current)
  unfolding dry_each differs get keys find_last
  reports-dry_each previous [] id d = refl
  reports-dry_each previous ((j, cur) ∷ rest) id d =
      reports-dry_one j id (policy_or_empty (get j previous)) cur (dry_each previous rest)
      ∙ elim (eqb-cases j id) [
        | inl e ↦ ground (
          arith,
          reports-dry_each previous rest id d.1,
          get_absent j rest d.0,
          e,
          ap (λ i. get i rest) e,
          ap (λ i. get i previous) e,
          ap (λ i. j =? i) e,
          eqb_refl j,
        )
        | inr ne ↦ rw ne (ground (arith, reports-dry_each previous rest id d.1))
      ]

  -- A dry run reports a workload exactly when it has a rendered policy and that is not Equal to the
  -- persisted one, the empty one where none is persisted.
  pub reports-dry_run :
      (previous current : Policies) (id : Uuid)
      → IsDict current
      → reports id (dry_run previous current)
        ≡ differs (policy_or_empty (get id previous)) (get id current)
  unfolding dry_run
  reports-dry_run previous current id d =
      ap is_some (find_last-sort_by diff_key id (dry_each previous current))
      ∙ reports-dry_each previous current id d
