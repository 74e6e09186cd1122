-- ===== src/Sync/Store.antt =====
-- internal/agent/enforce/store.go: the interface PolicyStore with its documented promises, and the
-- store in memory that keeps them.
use innerwall.Prelude.Tests.{◌≡◌, refl, inl, inr, Option, none, some, Option-cases}
use innerwall.Netip.{Netip}
use innerwall.Rendered.{WorkloadPolicy, canonical}

-- A store has any state; an error of `apply` is what it returns beside the state that it leaves.
pub record PolicyStore ⦃ip : Netip⦄ : Type 1 where
  pub State : Type 0
  pub Error : Type 0
  pub current : State → Option WorkloadPolicy
  pub apply : WorkloadPolicy → State → Option Error × State
  -- On success the policy is the installed state.
  pub apply-installs :
      (p : WorkloadPolicy) (s : State)
      → (apply p s).0 ≡ none
      → current (apply p s).1 ≡ some (canonical p)
  -- On an error the previously installed state is untouched.
  pub apply-keeps :
      (p : WorkloadPolicy) (s : State) (e : Error)
      → (apply p s).0 ≡ some e
      → current (apply p s).1 ≡ current s

module _ ⦃ip : Netip⦄ {E : Type 0} (fail : WorkloadPolicy → Option E) where
  -- `MemoryStore.Apply`, whose state is the field `current`; `fail` is none where the field is nil.
  unfoldable pub memory_outcome :
      Option E → WorkloadPolicy → Option WorkloadPolicy → Option E × Option WorkloadPolicy
  memory_outcome (some e) p s = (some e, s)
  memory_outcome none p s = (none, some (canonical p))

  unfoldable pub memory_apply :
      WorkloadPolicy → Option WorkloadPolicy → Option E × Option WorkloadPolicy
  unfolding memory_outcome
  memory_apply p s = memory_outcome (fail p) p s

  pub memory_apply-installs :
      (p : WorkloadPolicy) (s : Option WorkloadPolicy)
      → (memory_apply p s).0 ≡ none
      → (memory_apply p s).1 ≡ some (canonical p)
  unfolding memory_apply memory_outcome
  memory_apply-installs p s h = elim (Option-cases (fail p)) [
    | inl n ↦ rw n refl
    | inr (e, b) ↦ cc (h, b)
  ]

  pub memory_apply-keeps :
      (p : WorkloadPolicy) (s : Option WorkloadPolicy) (e : E)
      → (memory_apply p s).0 ≡ some e
      → (memory_apply p s).1 ≡ s
  unfolding memory_apply memory_outcome
  memory_apply-keeps p s e h = elim (Option-cases (fail p)) [
    | inl n ↦ cc (h, n)
    | inr (e', b) ↦ rw b refl
  ]

  abbrev pub memory_store : PolicyStore
  memory_store = record {
    State = Option WorkloadPolicy;
    Error = E;
    current = λ s. s;
    apply = memory_apply;
    apply-installs = memory_apply-installs;
    apply-keeps = memory_apply-keeps;
  }
