-- ===== src/Plan.antt =====
-- internal/compiler/plan.go and internal/compiler/engine.go: versions of rendered policies, and the
-- render transaction. The laws are in the modules below.
pub mod Versions
pub mod Engine
use innerwall.Prelude.Tests.{
  ℕ, suc, ◌+◌, ◌%◌, ◌^◌, ◌≡◌, Bool, true, false, not, ◌||◌, Option, none, some, List, [], ◌∷◌, ◌++◌,
  if◌then◌else◌, is_some, length,
}
use innerwall.Prelude.Sorting.{sort_by}
use innerwall.Prelude.Dict.{get, put}
use innerwall.Prelude.Text.{Str, str_order}
use innerwall.Prelude.Result.{Result, ok, err, ◌>>=◌}
use innerwall.Netip.{Netip}
use innerwall.Rendered.{WorkloadPolicy, empty, canonical}
use innerwall.Delta.{DeltaChange, is_empty, diff}
use innerwall.Policy.{Uuid}
use innerwall.Compiler.{Inputs, render}

abbrev pub Policies : Type 0
Policies = List (Uuid × WorkloadPolicy)

pub record Outcome : Type 0 where
  pub id : Uuid
  pub policy : WorkloadPolicy
  pub changes : List DeltaChange
  pub changed : Bool

abbrev pub outcome_key : Outcome → Uuid
outcome_key o = o.id

abbrev pub policy_or_empty : Option WorkloadPolicy → WorkloadPolicy
policy_or_empty none = empty
policy_or_empty (some p) = p

-- uint64 arithmetic wraps.
abbrev pub u64 : ℕ → ℕ
u64 n = n % 2 ^ 64

-- What one run of a collaborator returns, and what a render publishes.
pub record Change : Type 0 where
  pub id : Uuid
  pub version : ℕ
  pub changes : ℕ

pub record Report : Type 0 where
  pub workloads : ℕ
  pub changed : List Change

module _ ⦃ip : Netip⦄ where
  pub plan_one : Uuid → Option WorkloadPolicy → WorkloadPolicy → Outcome
  plan_one id previous cur =
      let prev = policy_or_empty previous in
      let changes = diff prev cur in
      let changed = not (is_empty changes) || not (is_some previous) in
      record {
        id = id;
        policy = record (canonical cur) {
          version = if changed then u64 (prev.version + 1) else prev.version;
        };
        changes = changes;
        changed = changed;
      }

  plan_each : Policies → Policies → List Outcome
  unfolding plan_one
  plan_each previous [] = []
  plan_each previous ((id, cur) ∷ rest) =
      plan_one id (get id previous) cur ∷ plan_each previous rest

  -- `Plan`.
  unfoldable pub plan : Policies → Policies → List Outcome
  unfolding plan_each
  plan previous current = sort_by outcome_key (plan_each previous current)

-- What a render transaction reads and writes: the inputs, the persisted policies, and the
-- announcements that its commit publishes.
pub record Db (Addr : Type 0) : Type 0 where
  pub inputs : Inputs Addr
  pub policies : Policies
  pub announced : List (Uuid × ℕ)

-- Where the database fails: on a load, or on the save of a workload's policy.
pub record Faults (E : Type 0) : Type 0 where
  pub load_inputs : Option E
  pub load_policies : Option E
  pub save_policy : Uuid → Option E

abbrev pub unless_fault : {E A : Type 0} → Option E → A → Result E A
unless_fault none a = ok a
unless_fault (some e) a = err e

module _ ⦃ip : Netip⦄ {E : Type 0} (faults : Faults E) where
  pub save_policy : Uuid → WorkloadPolicy → Db ip.Addr → Result E (Db ip.Addr)
  save_policy id p db = unless_fault (faults.save_policy id) (record db {
    policies = put id p db.policies;
    announced = db.announced ++ (id, p.version) ∷ [];
  })

  pub save_outcomes : Report → List Outcome → Db ip.Addr → Result E (Report × Db ip.Addr)
  unfolding save_policy
  save_outcomes report [] db = ok (report, db)
  save_outcomes report (o ∷ os) db =
      let counted = record report { workloads = suc report.workloads } in
      let change : Change = record {
        id = o.id;
        version = o.policy.version;
        changes = length o.changes;
      } in
      elim o.changed [
        | true ↦
            save_policy o.id o.policy db
            >>= save_outcomes (record counted { changed = report.changed ++ change ∷ [] }) os
        | false ↦ save_outcomes counted os db
      ]

  -- `Engine.RenderIn`.
  unfoldable pub render_in : Db ip.Addr → Result E (Report × Db ip.Addr)
  unfolding save_outcomes
  render_in db = do
    inputs ← unless_fault faults.load_inputs db.inputs
    previous ← unless_fault faults.load_policies db.policies
    save_outcomes (record { workloads = 0; changed = [] }) (plan previous (render inputs)) db

  committed : Db ip.Addr → Result E (Report × Db ip.Addr) → Db ip.Addr × Result E Report
  committed db (ok (report, db')) = (db', ok report)
  committed db (err e) = (db, err e)

  -- `Engine.Render`: the transaction commits on success and rolls back on an error.
  unfoldable pub render_tx : Db ip.Addr → Db ip.Addr × Result E Report
  unfolding committed
  render_tx db = committed db (render_in db)
