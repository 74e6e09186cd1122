-- ===== src/Agent/Gaps/Keys.antt =====
-- internal/agent/collect/gaps.go: there are 21 pairs of a kind and a source, so that any longer list
-- of gaps has two that can be merged.
use innerwall.Prelude.Tests.{
  ℕ, zero, suc, ◌+◌, ◌-◌, ◌*◌, ◌≤◌, ◌<◌, ◌≡◌, refl, sym, ◌∙◌, ap, inl, inr, true, false, none, List,
  [], ◌∷◌, ◌++◌, ◌==◌, arith, Bool-cases, length,
}
use mathlib.Core.Path.{subst}
use mathlib.Core.List.{append-nil, append_assoc}
use innerwall.Prelude.Order.{nat_order, eqb-cases}
use innerwall.Prelude.Sorting.{contains, contains-append, IsNodup, minus, contains-minus}
use innerwall.Agent.Gaps.{
  GapKind, source_overrun, source_restart, buffer_overflow, dump_truncated, window_overflow,
  window_rejected, table_removed, GapSource, no_source, conntrack, nflog, kind_code, source_code,
  Gap, same_loss, has_loss, merge_oldest,
}

abbrev loss_key : Gap → ℕ
loss_key p = (kind_code p.kind - 1) * 3 + source_code p.source

abbrev loss_keys : List Gap → List ℕ
loss_keys [] = []
loss_keys (p ∷ ps) = loss_key p ∷ loss_keys ps

kind_code-range : (k : GapKind) → (0 < kind_code k) × (kind_code k < 8)
kind_code-range source_overrun = ground arith
kind_code-range source_restart = ground arith
kind_code-range buffer_overflow = ground arith
kind_code-range dump_truncated = ground arith
kind_code-range window_overflow = ground arith
kind_code-range window_rejected = ground arith
kind_code-range table_removed = ground arith

source_code-range : (s : GapSource) → source_code s < 3
source_code-range no_source = ground arith
source_code-range conntrack = ground arith
source_code-range nflog = ground arith

same_loss-keys : (p q : Gap) → same_loss p q ≡ (loss_key p == loss_key q)
same_loss-keys p q = ground (
  arith,
  kind_code-range p.kind,
  kind_code-range q.kind,
  source_code-range p.source,
  source_code-range q.source,
)

has_loss-keys : (p : Gap) (qs : List Gap) → has_loss p qs ≡ contains (loss_key p) (loss_keys qs)
unfolding has_loss
has_loss-keys p [] = refl
has_loss-keys p (q ∷ qs) = ground (arith, same_loss-keys q p, has_loss-keys p qs)

minus_fresh : (n : ℕ) (xs : List ℕ) → contains n xs ≡ false → minus xs (n ∷ []) ≡ xs
unfolding minus
minus_fresh n [] h = refl
minus_fresh n (x ∷ xs) h = ground (arith, minus_fresh n xs)

length-minus : (n : ℕ) (xs : List ℕ) → IsNodup xs → length xs ≤ suc (length (minus xs (n ∷ [])))
unfolding minus
length-minus n [] d = ground arith
length-minus n (x ∷ xs) d = elim (eqb-cases n x) [
  | inl e ↦
      let same = minus_fresh n xs (ap (λ i. contains i xs) e ∙ d.0) in
      ground (arith, e, ap length same)
  | inr ne ↦ ground (arith, ne, length-minus n xs d.1)
]

IsNodup-minus : (n : ℕ) (xs : List ℕ) → IsNodup xs → IsNodup (minus xs (n ∷ []))
unfolding minus
IsNodup-minus n [] d = tt
IsNodup-minus n (x ∷ xs) d = elim (Bool-cases (n == x)) [
  | inl e ↦ rw e (IsNodup-minus n xs d.1)
  | inr e ↦ rw e ((ground (arith, contains-minus x xs (n ∷ []), d.0), IsNodup-minus n xs d.1))
]

-- The numbers of the list are below the bound.
abbrev IsBelow : ℕ → List ℕ → Type 0
IsBelow n xs = (k : ℕ) → contains k xs ≡ true → k < n

-- A list of distinct numbers below a bound is no longer than the bound.
IsNodup-length : (n : ℕ) (xs : List ℕ) → IsNodup xs → IsBelow n xs → length xs ≤ n
IsNodup-length zero [] d h = ground arith
IsNodup-length zero (x ∷ xs) d h = ground (arith, h x)
IsNodup-length (suc n) xs d h =
    let rest =
      IsNodup-length n (minus xs (n ∷ [])) (IsNodup-minus n xs d)
        (λ k m. ground (arith, contains-minus k xs (n ∷ []), h k, m)) in
    ground (arith, length-minus n xs d, rest)

loss_keys-length : (ps : List Gap) → length (loss_keys ps) ≡ length ps
loss_keys-length [] = refl
loss_keys-length (p ∷ ps) = ap suc (loss_keys-length ps)

loss_keys-append : (ps qs : List Gap) → loss_keys (ps ++ qs) ≡ loss_keys ps ++ loss_keys qs
loss_keys-append [] qs = refl
loss_keys-append (p ∷ ps) qs = ap (λ t. loss_key p ∷ t) (loss_keys-append ps qs)

IsBelow-loss_keys : (ps : List Gap) → IsBelow 21 (loss_keys ps)
IsBelow-loss_keys [] k h = cc
IsBelow-loss_keys (p ∷ ps) k h =
    ground (arith, IsBelow-loss_keys ps k, kind_code-range p.kind, source_code-range p.source)

IsNodup-snoc : (xs : List ℕ) (x : ℕ) → IsNodup xs → contains x xs ≡ false → IsNodup (xs ++ x ∷ [])
IsNodup-snoc [] x d h = (refl, tt)
IsNodup-snoc (y ∷ xs) x d h =
    (ground (arith, contains-append y xs (x ∷ []), d.0, h), IsNodup-snoc xs x d.1 (ground arith))

merge_oldest-none :
    (seen ps : List Gap)
    → IsNodup (loss_keys seen)
    → merge_oldest seen ps ≡ none
    → IsNodup (loss_keys (seen ++ ps))
unfolding merge_oldest
merge_oldest-none seen [] d h = rw append-nil d
merge_oldest-none seen (p ∷ ps) d h = elim (Bool-cases (has_loss p seen)) [
  | inl e ↦ cc ((rw e at h))
  | inr e ↦
      let longer : IsNodup (loss_keys (seen ++ p ∷ [])) =
        rw (loss_keys-append seen (p ∷ []))
          (IsNodup-snoc (loss_keys seen) (loss_key p) d (sym (has_loss-keys p seen) ∙ e)) in
      subst (λ qs. IsNodup (loss_keys qs)) (append_assoc seen (p ∷ []) ps)
        (merge_oldest-none (seen ++ p ∷ []) ps longer (rw e at h))
]

-- Where no two gaps have one kind and source, there are at most 21.
pub merge_oldest-length : (ps : List Gap) → merge_oldest [] ps ≡ none → length ps ≤ 21
merge_oldest-length ps h = ground (
  arith,
  IsNodup-length 21 (loss_keys ps) (merge_oldest-none [] ps tt h) (IsBelow-loss_keys ps),
  loss_keys-length ps,
)
