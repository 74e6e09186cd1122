-- ===== src/Enforce/Render/Modes.antt =====
-- The nft scripts of a policy: enforcement and its simulation differ in the terminal rule alone.
use innerwall.Prelude.Tests.{◌≡◌, refl, ap, ◌⊎◌, inl, inr, ◌++◌}
use innerwall.Prelude.Text.{Str}
use innerwall.Prelude.Result.{Result, ok, err, ◌>>=◌}
use innerwall.Netip.{Netip}
use innerwall.Rendered.{Mode, mode_simulation, mode_enforced, WorkloadPolicy, canonical}
use innerwall.Enforce.Marks.{Marks}
use innerwall.Enforce.Render.{
  Options, RenderError, check_marked, carries_sets, render_rules, terminal, closing, render,
}

Result-cases : {E : Type 0} (r : Result E (Unit {0})) → (r ≡ ok tt) ⊎ ((e : E) × (r ≡ err e))
Result-cases (ok t) = inl refl
Result-cases (err e) = inr (e, refl)

module _ ⦃ip : Netip⦄ where
  abbrev pub in_mode : Mode → WorkloadPolicy → WorkloadPolicy
  in_mode m p = record p { mode = m }

  -- A policy is rendered for enforcement exactly where it is for simulation, with the same error where it
  -- is refused; and the two scripts differ only in their terminal rules.
  pub render-in_mode :
      (p : WorkloadPolicy) (marks : Marks) (o : Options)
      → ((text : Str) × (render (in_mode mode_enforced p) marks o
            ≡ ok (text ++ (terminal mode_enforced o ++ closing)))
          × (render (in_mode mode_simulation p) marks o
              ≡ ok (text ++ (terminal mode_simulation o ++ closing))))
        ⊎ ((e : RenderError) × (render (in_mode mode_enforced p) marks o ≡ err e)
            × (render (in_mode mode_simulation p) marks o ≡ err e))
  unfolding render carries_sets canonical
  render-in_mode p marks o =
      let rules = (canonical p).inbound_rules in
      elim (Result-cases (check_marked rules marks)) [
        | inl fine ↦ inl (
          render_rules rules marks o,
          ap
              (λ (r : Result RenderError (Unit {0})).
                r >>= λ u. ok (render_rules rules marks o ++ (terminal mode_enforced o ++ closing)))
              fine,
          ap
              (λ (r : Result RenderError (Unit {0})). r >>= λ u.
                ok (render_rules rules marks o ++ (terminal mode_simulation o ++ closing)))
              fine,
        )
        | inr (e, bad) ↦ inr (
          e,
          ap
              (λ (r : Result RenderError (Unit {0})).
                r >>= λ u. ok (render_rules rules marks o ++ (terminal mode_enforced o ++ closing)))
              bad,
          ap
              (λ (r : Result RenderError (Unit {0})). r >>= λ u.
                ok (render_rules rules marks o ++ (terminal mode_simulation o ++ closing)))
              bad,
        )
      ]
