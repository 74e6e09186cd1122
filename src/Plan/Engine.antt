-- ===== src/Plan/Engine.antt =====
-- internal/compiler/engine.go: what a render transaction persists, and that a second one changes
-- nothing.
use innerwall.Prelude.Tests.{
  ℕ, suc, ◌≡◌, refl, sym, ◌∙◌, ap, inl, inr, false, none, some, List, [], ◌∷◌, ◌++◌, arith,
  Bool-cases, Option-cases, map_option, length, All,
}
use innerwall.Prelude.Order.{eqb_refl, eqb-cases, ◌=?◌}
use innerwall.Prelude.Sorting.{find_last}
use innerwall.Prelude.Stable.{IsDistinct, IsAscending→IsDistinct, All-found}
use innerwall.Prelude.Dict.{get, put, get-put, IsDict}
use innerwall.Prelude.Text.{str_order}
use innerwall.Prelude.Result.{ok, ◌>>=◌, >>=-eq-ok}
use innerwall.Netip.{Netip}
use innerwall.Policy.{Uuid}
use innerwall.Compiler.{render}
use innerwall.Compiler.Lookup.{IsDict-render}
use innerwall.Plan.{
  Policies, Outcome, outcome_key, plan_one, plan, Db, Faults, Report, save_policy, save_outcomes,
  render_in, unless_fault,
}
use innerwall.Plan.Versions.{find_last-plan, IsAscending-plan, saved, plan_settled}

abbrev with_change : Report → Outcome → Report
with_change report o = record {
  workloads = suc report.workloads;
  changed =
      report.changed
      ++ record { id = o.id; version = o.policy.version; changes = length o.changes } ∷ [];
}

module _ ⦃ip : Netip⦄ {E : Type 0} (faults : Faults E) where
  -- The database once an outcome is saved.
  abbrev stored : Outcome → Db ip.Addr → Db ip.Addr
  stored o db = record db {
    policies = put o.id o.policy db.policies;
    announced = db.announced ++ (o.id, o.policy.version) ∷ [];
  }

  save_policy-eq-ok :
      (o : Outcome) (db after : Db ip.Addr)
      → save_policy faults o.id o.policy db ≡ ok after
      → after ≡ stored o db
  unfolding save_policy
  save_policy-eq-ok o db after h = elim (Option-cases (faults.save_policy o.id)) [
    | inl fine ↦ ground (arith, fine)
    | inr (e, bad) ↦ ground (arith, bad)
  ]

  saved-get :
      (report report' : Report) (os : List Outcome) (db db' : Db ip.Addr)
      → IsDistinct outcome_key os
      → save_outcomes faults report os db ≡ ok (report', db')
      → ((id : Uuid)
          → get id db'.policies ≡ saved (find_last outcome_key id os) (get id db.policies))
        × (db'.inputs ≡ db.inputs)
  unfolding save_outcomes find_last
  saved-get report report' [] db db' d h =
      let same : db ≡ db' = cc in
      (
        (λ id. ap (λ (x : Db ip.Addr). get id x.policies) (sym same)),
        ap (λ (x : Db ip.Addr). x.inputs) (sym same),
      )
  saved-get report report' (o ∷ os) db db' d h = elim (Bool-cases o.changed) [
    | inl changed ↦
        let (mid, one, more) =
          >>=-eq-ok (save_policy faults o.id o.policy db)
            (save_outcomes faults (with_change report o) os) (report', db') (rw changed at h) in
        let (gets, same) = saved-get (with_change report o) report' os mid db' d.1 more in
        let stands = save_policy-eq-ok o db mid one in
        (
          (λ id. elim (eqb-cases o.id id) [
            | inl e ↦ ground (
              arith,
              gets id,
              ap (λ (x : Db ip.Addr). get id x.policies) stands,
              d.0,
              changed,
              get-put o.id id o.policy db.policies,
              e,
              ap (λ i. find_last outcome_key i os) e,
              ap (λ i. o.id =? i) e,
              eqb_refl o.id,
            )
            | inr ne ↦ ground (
              arith,
              gets id,
              ap (λ (x : Db ip.Addr). get id x.policies) stands,
              ne,
              get-put o.id id o.policy db.policies,
            )
          ]),
          same ∙ ap (λ (x : Db ip.Addr). x.inputs) stands,
        )
    | inr same ↦
        let (gets, kept) =
          saved-get (record report { workloads = suc report.workloads }) report' os db db' d.1
            (rw same at h) in
        (
          (λ id. elim (eqb-cases o.id id) [
            | inl e ↦ ground (
              arith,
              gets id,
              d.0,
              same,
              e,
              ap (λ i. find_last outcome_key i os) e,
              ap (λ i. o.id =? i) e,
              eqb_refl o.id,
            )
            | inr ne ↦ ground (arith, gets id, ne)
          ]),
          kept,
        )
  ]

  IsDistinct-plan :
      (previous current : Policies)
      → IsDict current
      → IsDistinct outcome_key (plan previous current)
  IsDistinct-plan previous current d =
      IsAscending→IsDistinct outcome_key (plan previous current)
        (IsAscending-plan previous current d)

  -- A render that succeeds ran on the persisted policies, and saved the outcomes of their plan.
  render_in-ran :
      (db db' : Db ip.Addr) (report : Report)
      → render_in faults db ≡ ok (report, db')
      → (faults.load_inputs ≡ none)
        × (faults.load_policies ≡ none)
        × (save_outcomes faults
              (record { workloads = 0; changed = [] })
              (plan db.policies (render db.inputs))
              db
            ≡ ok (report, db'))
  unfolding render_in
  render_in-ran db db' report h = elim (Option-cases faults.load_inputs) [
    | inl a ↦ elim (Option-cases faults.load_policies) [
      | inl b ↦ (a, b, (rw b at (rw a at h)))
      | inr (e, b) ↦ cc ((rw b at (rw a at h)))
    ]
    | inr (e, a) ↦ cc ((rw a at h))
  ]

  -- After a render that succeeds, a workload whose outcome changed holds the outcome's policy, and
  -- any other id, of a workload that is not active too, holds what it held.
  pub get-render_in :
      (db db' : Db ip.Addr) (report : Report)
      → render_in faults db ≡ ok (report, db')
      → (id : Uuid)
      → get id db'.policies
        ≡ saved
            (map_option (plan_one id (get id db.policies)) (get id (render db.inputs)))
            (get id db.policies)
  get-render_in db db' report h id =
      let (a, b, run) = render_in-ran db db' report h in
      let (gets, same) =
        saved-get (record { workloads = 0; changed = [] }) report
          (plan db.policies (render db.inputs)) db db'
          (IsDistinct-plan db.policies (render db.inputs) (IsDict-render db.inputs)) run in
      gets id
      ∙ ap (λ o. saved o (get id db.policies))
          (find_last-plan db.policies (render db.inputs) id (IsDict-render db.inputs))

  save_outcomes-unchanged :
      (report : Report) (os : List Outcome) (db : Db ip.Addr)
      → All (λ (o : Outcome). o.changed ≡ false) os
      → (n : ℕ) × (save_outcomes faults report os db
          ≡ ok (record { workloads = n; changed = report.changed }, db))
  unfolding save_outcomes
  save_outcomes-unchanged report [] db h = (report.workloads, refl)
  save_outcomes-unchanged report (o ∷ os) db h =
      let (n, run) =
        save_outcomes-unchanged (record report { workloads = suc report.workloads }) os db h.1 in
      (n, rw h.0 run)

  -- Every outcome of a plan over what a render saved is without change.
  settled :
      (db db' : Db ip.Addr) (report : Report)
      → render_in faults db ≡ ok (report, db')
      → db'.inputs ≡ db.inputs
      → All (λ (o : Outcome). o.changed ≡ false) (plan db'.policies (render db'.inputs))
  settled db db' report h inputs =
      All-found outcome_key (λ (o : Outcome). o.changed ≡ false)
        (plan db'.policies (render db'.inputs))
        (IsDistinct-plan db'.policies (render db'.inputs) (IsDict-render db'.inputs))
        (λ id o e.
          outcome id o (
            sym (find_last-plan db'.policies (render db'.inputs) id (IsDict-render db'.inputs))
            ∙ e))
    where
      outcome :
          (id : Uuid) (o : Outcome)
          → map_option (plan_one id (get id db'.policies)) (get id (render db'.inputs)) ≡ some o
          → o.changed ≡ false
      outcome id o e = elim (Option-cases (get id (render db'.inputs))) [
        | inl n ↦ cc (ap (map_option (plan_one id (get id db'.policies))) n)
        | inr (cur, c) ↦
            let rendered : get id (render db.inputs) ≡ some cur =
              ap (λ x. get id (render x)) (sym inputs) ∙ c in
            let holds : get id db'.policies
                ≡ saved (some (plan_one id (get id db.policies) cur)) (get id db.policies) =
              get-render_in db db' report h id
              ∙ ap
                  (λ x.
                    saved (map_option (plan_one id (get id db.policies)) x) (get id db.policies))
                  rendered in
            let same : plan_one id (get id db'.policies) cur ≡ o =
              cc (ap (map_option (plan_one id (get id db'.policies))) c) in
            sym (ap (λ (x : Outcome). x.changed) same)
            ∙ ap (λ x. (plan_one id x cur).changed) holds
            ∙ plan_settled id (get id db.policies) cur
      ]

  render_in-runs :
      (db : Db ip.Addr)
      → faults.load_inputs ≡ none
      → faults.load_policies ≡ none
      → render_in faults db
        ≡ save_outcomes faults
            (record { workloads = 0; changed = [] })
            (plan db.policies (render db.inputs))
            db
  unfolding render_in
  render_in-runs db a b =
      ap
        (λ x. unless_fault x db.inputs >>= λ inputs.
          unless_fault faults.load_policies db.policies >>= λ previous.
          save_outcomes faults (record { workloads = 0; changed = [] })
            (plan previous (render inputs)) db)
        a
      ∙ ap
          (λ x. unless_fault x db.policies >>= λ previous.
            save_outcomes faults (record { workloads = 0; changed = [] })
              (plan previous (render db.inputs)) db)
          b

  -- A second render of an unchanged estate succeeds, changes no version and announces nothing.
  pub render_in_twice :
      (db db' : Db ip.Addr) (report : Report)
      → render_in faults db ≡ ok (report, db')
      → (n : ℕ) × (render_in faults db' ≡ ok (record { workloads = n; changed = [] }, db'))
  render_in_twice db db' report h =
      let (a, b, run) = render_in-ran db db' report h in
      let (gets, inputs) =
        saved-get (record { workloads = 0; changed = [] }) report
          (plan db.policies (render db.inputs)) db db'
          (IsDistinct-plan db.policies (render db.inputs) (IsDict-render db.inputs)) run in
      let (n, again) =
        save_outcomes-unchanged (record { workloads = 0; changed = [] })
          (plan db'.policies (render db'.inputs)) db' (settled db db' report h inputs) in
      (n, render_in-runs db' a b ∙ again)
