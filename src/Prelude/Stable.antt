-- ===== src/Prelude/Stable.antt =====
-- Sorting by a key that need not be the whole value: Go's `sort.Slice`, on slices whose keys differ.
use innerwall.Prelude.Tests.{
  ◌≡◌, refl, ◌∙◌, inl, inr, true, none, some, List, [], ◌∷◌, arith, if◌then◌else◌, Bool-cases,
  or_else, All,
}
use innerwall.Prelude.Order.{Order, eqb_refl}
use innerwall.Prelude.Sorting.{
  insert_by, sort_by, find_last, IsAscending, IsAbove-trans, IsAbove-insert_by, find_last-IsAbove,
}

module _ {ℓ κ} {V : Type ℓ} {K : Type κ} ⦃o : Order K⦄ (key : V → K) where
  find_last-insert_by :
      (k : K) (v : V) (xs : List V)
      → find_last key k (insert_by key v xs)
        ≡ or_else (find_last key k xs) (if o.eqb (key v) k then some v else none)
  unfolding find_last insert_by
  find_last-insert_by k v [] = refl
  find_last-insert_by k v (x ∷ xs) = elim (Bool-cases (o.lt (key x) (key v))) [
    | inl less ↦ rw less (
        ground (
          arith,
          find_last-insert_by k v xs,
          o.eqb_iff (key x) k,
          o.eqb_iff (key v) k,
          o.irrefl k,
          less,
        ))
    | inr not_less ↦ rw not_less
  ]

  -- Sorting by key leaves the last element of each key.
  pub find_last-sort_by :
      (k : K) (xs : List V) → find_last key k (sort_by key xs) ≡ find_last key k xs
  unfolding sort_by find_last
  find_last-sort_by k [] = refl
  find_last-sort_by k (x ∷ xs) =
      rw (find_last-insert_by k x (sort_by key xs)) (rw (find_last-sort_by k xs))

  -- No two elements have one key.
  abbrev pub IsDistinct : List V → Type ℓ
  IsDistinct [] = Unit
  IsDistinct (x ∷ xs) = (find_last key (key x) xs ≡ none) × IsDistinct xs

  IsAscending-insert :
      (v : V) (xs : List V)
      → find_last key (key v) xs ≡ none
      → IsAscending key xs
      → IsAscending key (insert_by key v xs)
  unfolding find_last insert_by
  IsAscending-insert v [] fresh h = (tt, tt)
  IsAscending-insert v (x ∷ xs) fresh h = elim (Bool-cases (o.lt (key x) (key v))) [
    | inl less ↦
        rw less
          (IsAbove-insert_by key (key x) v xs less h.0, IsAscending-insert v xs (ground arith) h.1)
    | inr not_less ↦
        let more : o.lt (key v) (key x) ≡ true = ground (
          arith,
          o.connex (key v) (key x),
          o.eqb_iff (key x) (key v),
          Bool-cases (o.lt (key v) (key x)),
        ) in
        rw not_less ((more, IsAbove-trans key (key v) (key x) xs more h.0), h)
  ]

  -- Distinct keys are sorted into strict order.
  pub IsAscending-sort_by : (xs : List V) → IsDistinct xs → IsAscending key (sort_by key xs)
  unfolding sort_by
  IsAscending-sort_by [] h = tt
  IsAscending-sort_by (x ∷ xs) h =
      IsAscending-insert x (sort_by key xs) (find_last-sort_by (key x) xs ∙ h.0)
        (IsAscending-sort_by xs h.1)

  pub IsAscending→IsDistinct : (xs : List V) → IsAscending key xs → IsDistinct xs
  IsAscending→IsDistinct [] h = tt
  IsAscending→IsDistinct (x ∷ xs) h =
      (find_last-IsAbove key (key x) xs h.0, IsAscending→IsDistinct xs h.1)

  -- What holds of every element that a search finds holds of every element, where keys differ.
  pub All-found {κ'} :
      (P : V → Type κ') (xs : List V)
      → IsDistinct xs
      → ((k : K) (x : V) → find_last key k xs ≡ some x → P x)
      → All P xs
  unfolding find_last
  All-found P [] d h = tt
  All-found P (x ∷ xs) d h = (
    h (key x) x (ground (arith, d.0, eqb_refl (key x))),
    All-found P xs d.1 (λ k y e. h k y (rw e)),
  )
