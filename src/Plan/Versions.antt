-- ===== src/Plan/Versions.antt =====
-- internal/compiler/plan.go: when a version advances, and by how much.
use innerwall.Prelude.Tests.{
  ℕ, ◌+◌, ◌^◌, ◌<◌, ◌≡◌, refl, ◌∙◌, ap, inl, inr, ◌↔◌, true, false, not, ◌||◌, Option, none, some,
  List, [], ◌∷◌, arith, if◌then◌else◌, Option-cases, map_option, is_some,
}
use innerwall.Prelude.Order.{eqb_refl, eqb-cases, ◌=?◌}
use innerwall.Prelude.Sorting.{contains, find_last, IsAscending}
use innerwall.Prelude.Stable.{find_last-sort_by, IsDistinct, IsAscending-sort_by}
use innerwall.Prelude.Dict.{get, keys, IsDict, contains-keys}
use innerwall.Prelude.Text.{str_order}
use innerwall.Prelude.Result.{ok}
use innerwall.Netip.{Netip}
use innerwall.Rendered.{WorkloadPolicy, canonical}
use innerwall.Delta.{DeltaChange, is_empty, equal, diff, delta, apply}
use innerwall.Delta.Minimal.{diff-empty_iff-equal, diff_same}
use innerwall.Rendered.Canon.{canonical_rules_idem}
use innerwall.Delta.Roundtrip.{apply-delta}
use innerwall.Policy.{Uuid}
use innerwall.Plan.{Policies, Outcome, outcome_key, policy_or_empty, u64, plan_one, plan_each, plan}

-- What an id holds after the outcomes are saved.
abbrev pub saved : Option Outcome → Option WorkloadPolicy → Option WorkloadPolicy
saved none before = before
saved (some o) before = if o.changed then some o.policy else before

module _ ⦃ip : Netip⦄ where
  pub get_absent : (id : Uuid) (m : Policies) → contains id (keys m) ≡ false → get id m ≡ none
  get_absent id m h = elim (Option-cases (get id m)) [
    | inl e ↦ e
    | inr (p, e) ↦ ground (arith, contains-keys id m, h, ap is_some e)
  ]

  find_last-plan_each :
      (previous : Policies) (id : Uuid) (current : Policies)
      → IsDict current
      → find_last outcome_key id (plan_each previous current)
        ≡ map_option (plan_one id (get id previous)) (get id current)
  unfolding find_last plan_each get keys
  find_last-plan_each previous id [] d = refl
  find_last-plan_each previous id ((j, cur) ∷ rest) d = elim (eqb-cases j id) [
    | inl e ↦ ground (
      arith,
      e,
      eqb_refl j,
      find_last-plan_each previous id rest d.1,
      ap (λ i. get i rest) e,
      get_absent j rest d.0,
      ap (λ i. get i previous) e,
      ap (λ i. j =? i) e,
    )
    | inr ne ↦ rw ne (ground (arith, find_last-plan_each previous id rest d.1))
  ]

  -- `Plan` decides each workload of a map of rendered policies by itself: its outcome is that of its own policies.
  pub find_last-plan :
      (previous current : Policies) (id : Uuid)
      → IsDict current
      → find_last outcome_key id (plan previous current)
        ≡ map_option (plan_one id (get id previous)) (get id current)
  unfolding plan
  find_last-plan previous current id d =
      find_last-sort_by outcome_key id (plan_each previous current)
      ∙ find_last-plan_each previous id current d

  -- Outcomes are in the strict order of the workload ids.
  pub IsAscending-plan :
      (previous current : Policies)
      → IsDict current
      → IsAscending outcome_key (plan previous current)
  unfolding plan keys
  IsAscending-plan previous current d =
      IsAscending-sort_by outcome_key (plan_each previous current) (distinct previous current d)
    where
      distinct :
          (previous current : Policies)
          → IsDict current
          → IsDistinct outcome_key (plan_each previous current)
      distinct previous [] d = tt
      distinct previous ((id, cur) ∷ rest) d = (
        find_last-plan_each previous id rest d.1
            ∙ ap (map_option (plan_one id (get id previous))) (get_absent id rest d.0),
        distinct previous rest d.1,
      )

  is_empty_iff : (xs : List DeltaChange) → (is_empty xs ≡ true) ↔ (xs ≡ [])
  is_empty_iff [] = ground arith
  is_empty_iff (x ∷ xs) = ground arith

  -- A workload's version below 2 ^ 64 - 1 advances, by one, exactly when nothing was persisted for it or what is
  -- persisted differs from what is rendered; otherwise it stays.
  pub plan_one_version :
      (id : Uuid) (previous : Option WorkloadPolicy) (cur : WorkloadPolicy)
      → (policy_or_empty previous).version + 1 < 2 ^ 64
      → (plan_one id previous cur).policy.version ≡ (
          if not (is_some previous) || not (equal (policy_or_empty previous) cur)
          then (policy_or_empty previous).version + 1
          else (policy_or_empty previous).version)
  unfolding plan_one
  plan_one_version id previous cur fits = ground (
    arith,
    is_empty_iff (diff (policy_or_empty previous) cur),
    diff-empty_iff-equal (policy_or_empty previous) cur,
  )

  -- The changes of an outcome lead an agent from the persisted policy to the policy of the outcome,
  -- at the outcome's version.
  pub apply-plan_one :
      (id : Uuid) (previous : Option WorkloadPolicy) (cur : WorkloadPolicy)
      → apply (policy_or_empty previous) (record {
        from_version = (policy_or_empty previous).version;
        to_version = (plan_one id previous cur).policy.version;
        changes = (plan_one id previous cur).changes;
      })
        ≡ ok (plan_one id previous cur).policy
  unfolding plan_one delta diff canonical
  apply-plan_one id previous cur =
      apply-delta (policy_or_empty previous)
        (record cur { version = (plan_one id previous cur).policy.version })

  diff-stored :
      (cur : WorkloadPolicy) (v : ℕ) → diff (record (canonical cur) { version = v }) cur ≡ []
  unfolding canonical
  diff-stored cur v =
      diff_same (record (canonical cur) { version = v }) cur refl
        (canonical_rules_idem cur.inbound_rules)

  -- Planned again from what was saved, a workload does not change.
  pub plan_settled :
      (id : Uuid) (previous : Option WorkloadPolicy) (cur : WorkloadPolicy)
      → (plan_one id (saved (some (plan_one id previous cur)) previous) cur).changed ≡ false
  unfolding plan_one
  plan_settled id previous cur =
      ground (arith, diff-stored cur (u64 ((policy_or_empty previous).version + 1)))
