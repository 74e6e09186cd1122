-- ===== src/Compiler/Lookup.antt =====
-- internal/compiler/render.go, Render: which workload's policy stands under an id.
use innerwall.Prelude.Tests.{
  ◌≡◌, refl, inl, inr, List, [], ◌∷◌, arith, Bool-cases, or_else, map_option,
}
use innerwall.Prelude.Sorting.{find_last}
use innerwall.Prelude.Dict.{get, put, get-put, IsDict, IsDict-put, keys}
use innerwall.Prelude.Text.{str_order}
use innerwall.Netip.{Netip}
use innerwall.Rendered.{WorkloadPolicy}
use innerwall.Policy.{Uuid, Ruleset}
use innerwall.Compiler.{
  Workload, retired, active, Inputs, Resolver, new_resolver, render_workload, render_all, render,
}

abbrev pub workload_key : {A : Type 0} → Workload A → Uuid
workload_key w = w.id

module _ ⦃ip : Netip⦄ where
  get-render_all :
      (r : Resolver ip.Addr) (rulesets : List Ruleset) (id : Uuid)
      (out : List (Uuid × WorkloadPolicy)) (ws : List (Workload ip.Addr))
      → get id (render_all r rulesets out ws)
        ≡ or_else
            (map_option (render_workload r rulesets) (find_last workload_key id (active ws)))
            (get id out)
  unfolding render_all active find_last
  get-render_all r rulesets id out [] = refl
  get-render_all r rulesets id out (w ∷ ws) = elim (Bool-cases (retired w)) [
    | inl gone ↦ rw gone (get-render_all r rulesets id out ws)
    | inr here ↦ rw here (
        ground (
          arith,
          get-render_all r rulesets id (put w.id (render_workload r rulesets w) out) ws,
          get-put w.id id (render_workload r rulesets w) out,
        ))
  ]

  -- `Render` gives an id the policy of the last active workload of that id, and no id of which no
  -- workload is active has a policy.
  pub get-render :
      (in_ : Inputs ip.Addr) (id : Uuid)
      → get id (render in_)
        ≡ map_option
            (render_workload (new_resolver in_) in_.rulesets)
            (find_last workload_key id (active in_.workloads))
  unfolding render get
  get-render in_ id =
      ground (arith, get-render_all (new_resolver in_) in_.rulesets id [] in_.workloads)

  IsDict-render_all :
      (r : Resolver ip.Addr) (rulesets : List Ruleset) (out : List (Uuid × WorkloadPolicy))
      (ws : List (Workload ip.Addr))
      → IsDict out
      → IsDict (render_all r rulesets out ws)
  unfolding render_all
  IsDict-render_all r rulesets out [] h = h
  IsDict-render_all r rulesets out (w ∷ ws) h = elim (Bool-cases (retired w)) [
    | inl gone ↦ rw gone (IsDict-render_all r rulesets out ws h)
    | inr here ↦ rw here (
        IsDict-render_all r rulesets (put w.id (render_workload r rulesets w) out) ws
          (IsDict-put w.id (render_workload r rulesets w) out h))
  ]

  pub IsDict-render : (in_ : Inputs ip.Addr) → IsDict (render in_)
  unfolding render keys
  IsDict-render in_ = IsDict-render_all (new_resolver in_) in_.rulesets [] in_.workloads tt
