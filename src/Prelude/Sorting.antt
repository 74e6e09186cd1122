-- ===== src/Prelude/Sorting.antt =====
-- Sorting and deduplication over a strict total order: Go's `sort.Strings` and `sort.Slice` on a
-- key, and `slices.Compact`. A list without repetition in strict order is fixed by what it holds.
use innerwall.Prelude.Tests.{
  ◌≡◌, refl, sym, ◌∙◌, ap, inl, inr, Bool, true, false, not, ◌&&◌, ◌||◌, Option, none, some, List,
  [], ◌∷◌, ◌++◌, arith, if◌then◌else◌, Bool-cases, or_else, All, Member, Option-cases,
}
use innerwall.Prelude.Order.{Order, eqb_refl, eqb→≡, lt→neqb_sym, eqb-cases}

-- Lists of values with a key.
module _ {ℓ κ} {V : Type ℓ} {K : Type κ} ⦃o : Order K⦄ (key : V → K) where
  -- Insertion before the first element whose key is not smaller: equal keys keep their order.
  unfoldable pub insert_by : V → List V → List V
  insert_by v [] = v ∷ []
  insert_by v (x ∷ xs) = if o.lt (key x) (key v) then x ∷ insert_by v xs else v ∷ x ∷ xs

  unfoldable pub sort_by : List V → List V
  unfolding insert_by
  sort_by [] = []
  sort_by (x ∷ xs) = insert_by x (sort_by xs)

  -- The last element with the key.
  unfoldable pub find_last : K → List V → Option V
  find_last k [] = none
  find_last k (x ∷ xs) = or_else (find_last k xs) (if o.eqb (key x) k then some x else none)

  -- Every key of the list is above `k`.
  abbrev pub IsAbove : K → List V → Type 0
  IsAbove k xs = All (λ x. o.lt k (key x) ≡ true) xs

  -- The keys strictly ascend.
  abbrev pub IsAscending : List V → Type 0
  IsAscending [] = Unit
  IsAscending (x ∷ xs) = IsAbove (key x) xs × IsAscending xs

  pub find_last-IsAbove : (k : K) (xs : List V) → IsAbove k xs → find_last k xs ≡ none
  unfolding find_last
  find_last-IsAbove k [] h = refl
  find_last-IsAbove k (x ∷ xs) h = rw (find_last-IsAbove k xs h.1, lt→neqb_sym k (key x) h.0)

  pub IsAbove-trans : (j k : K) (xs : List V) → o.lt j k ≡ true → IsAbove k xs → IsAbove j xs
  IsAbove-trans j k [] p h = tt
  IsAbove-trans j k (x ∷ xs) p h = (o.trans j k (key x) p h.0, IsAbove-trans j k xs p h.1)

  find_last_head : (x : V) (xs : List V) → IsAbove (key x) xs → find_last (key x) (x ∷ xs) ≡ some x
  unfolding find_last
  find_last_head x xs h = rw (find_last-IsAbove (key x) xs h, eqb_refl (key x))

  -- Two ascending lists that answer the search for the first key of either alike begin alike.
  heads_eq :
      (x y : V) (xs ys : List V)
      → IsAbove (key x) xs
      → IsAbove (key y) ys
      → find_last (key x) (x ∷ xs) ≡ find_last (key x) (y ∷ ys)
      → find_last (key y) (x ∷ xs) ≡ find_last (key y) (y ∷ ys)
      → x ≡ y
  heads_eq x y xs ys hx hy p q = elim (Bool-cases (o.lt (key x) (key y))) [
    | inl less ↦ ground (
      arith,
      find_last_head x xs hx,
      find_last-IsAbove (key x) (y ∷ ys) (less, IsAbove-trans (key x) (key y) ys less hy),
    )
    | inr not_less ↦ elim (Bool-cases (o.lt (key y) (key x))) [
      | inl less ↦ ground (
        arith,
        find_last_head y ys hy,
        find_last-IsAbove (key y) (x ∷ xs) (less, IsAbove-trans (key y) (key x) xs less hx),
      )
      | inr not_more ↦
          ground (arith, o.connex (key x) (key y), find_last_head y ys hy, find_last_head x xs hx)
    ]
  ]

  tails_same :
      (x : V) (xs ys : List V)
      → IsAbove (key x) xs
      → IsAbove (key x) ys
      → (k : K) → find_last k (x ∷ xs) ≡ find_last k (x ∷ ys)
      → find_last k xs ≡ find_last k ys
  unfolding find_last
  tails_same x xs ys hx hy k same = elim (eqb-cases (key x) k) [
    | inl e ↦ rw (← e) (find_last-IsAbove (key x) xs hx ∙ sym (find_last-IsAbove (key x) ys hy))
    | inr ne ↦ ground arith
  ]

  -- Two ascending lists that answer every search alike are equal.
  pub find_last-ext :
      (xs ys : List V)
      → IsAscending xs
      → IsAscending ys
      → ((k : K) → find_last k xs ≡ find_last k ys)
      → xs ≡ ys
  unfolding find_last
  find_last-ext [] [] hx hy same = refl
  find_last-ext [] (y ∷ ys) hx hy same =
      ground (arith, same (key y), find_last-IsAbove (key y) ys hy.0, eqb_refl (key y))
  find_last-ext (x ∷ xs) [] hx hy same =
      ground (arith, same (key x), find_last-IsAbove (key x) xs hx.0, eqb_refl (key x))
  find_last-ext (x ∷ xs) (y ∷ ys) hx hy same =
      let e : x ≡ y = heads_eq x y xs ys hx.0 hy.0 (same (key x)) (same (key y)) in
      let above : IsAbove (key x) ys = rw e hy.0 in
      let rest : xs ≡ ys =
        find_last-ext xs ys hx.1 hy.1 (λ k.
          tails_same x xs ys hx.0 above k (same k ∙ ap (λ z. find_last k (z ∷ ys)) (sym e))) in
      cc

  -- Insertion below: what `insert_by` and `sort_by` hold, for keys that do not repeat.
  pub IsAbove-insert_by :
      (k : K) (v : V) (xs : List V)
      → o.lt k (key v) ≡ true
      → IsAbove k xs
      → IsAbove k (insert_by v xs)
  unfolding insert_by
  IsAbove-insert_by k v [] p h = (p, tt)
  IsAbove-insert_by k v (x ∷ xs) p h = ground (arith, IsAbove-insert_by k v xs p h.1)

-- Lists of keys themselves: sets of strings, kept as sorted lists.
module _ {κ} {K : Type κ} ⦃o : Order K⦄ where
  abbrev pub contains : K → List K → Bool
  contains k [] = false
  contains k (x ∷ xs) = o.eqb x k || contains k xs

  abbrev pub same_key : K → K
  same_key k = k

  unfoldable pub sort : List K → List K
  unfolding sort_by
  sort xs = sort_by same_key xs

  -- `slices.Compact`: of equal neighbours the first stays.
  unfoldable pub compact_from : K → List K → List K
  compact_from x [] = x ∷ []
  compact_from x (y ∷ ys) =
      let rest = compact_from (if o.eqb x y then x else y) ys in
      if o.eqb x y then rest else x ∷ rest

  unfoldable pub compact : List K → List K
  unfolding compact_from
  compact [] = []
  compact (x ∷ xs) = compact_from x xs

  pub contains-insert_by :
      (k v : K) (xs : List K) → contains k (insert_by same_key v xs) ≡ (o.eqb v k || contains k xs)
  unfolding insert_by
  contains-insert_by k v [] = refl
  contains-insert_by k v (x ∷ xs) = ground (arith, contains-insert_by k v xs)

  pub contains-sort : (k : K) (xs : List K) → contains k (sort xs) ≡ contains k xs
  unfolding sort
  contains-sort k [] = refl
  contains-sort k (x ∷ xs) = ground (arith, contains-insert_by k x (sort xs), contains-sort k xs)

  contains-compact_from :
      (k x : K) (xs : List K) → contains k (compact_from x xs) ≡ (o.eqb x k || contains k xs)
  unfolding compact_from
  contains-compact_from k x [] = refl
  contains-compact_from k x (y ∷ ys) =
      ground (arith, contains-compact_from k x ys, contains-compact_from k y ys, eqb→≡ x y)

  pub contains-compact : (k : K) (xs : List K) → contains k (compact xs) ≡ contains k xs
  unfolding compact
  contains-compact k [] = refl
  contains-compact k (x ∷ xs) = contains-compact_from k x xs

  abbrev pub IsNodup : List K → Type 0
  IsNodup [] = Unit
  IsNodup (x ∷ xs) = (contains x xs ≡ false) × IsNodup xs

  IsAscending-insert_by :
      (v : K) (xs : List K)
      → contains v xs ≡ false
      → IsAscending same_key xs
      → IsAscending same_key (insert_by same_key v xs)
  unfolding insert_by
  IsAscending-insert_by v [] fresh h = (tt, tt)
  IsAscending-insert_by v (x ∷ xs) fresh h = elim (Bool-cases (o.lt x v)) [
    | inl less ↦
        rw less (
          IsAbove-insert_by same_key x v xs less h.0,
          IsAscending-insert_by v xs (ground arith) h.1,
        )
    | inr not_less ↦
        let more : o.lt v x ≡ true =
          ground (arith, o.connex v x, eqb_refl x, Bool-cases (o.lt v x)) in
        rw not_less ((more, IsAbove-trans same_key v x xs more h.0), h)
  ]

  -- Keys that do not repeat are sorted into strict order.
  pub IsAscending-sort : (xs : List K) → IsNodup xs → IsAscending same_key (sort xs)
  unfolding sort
  IsAscending-sort [] h = tt
  IsAscending-sort (x ∷ xs) h =
      IsAscending-insert_by x (sort xs) (contains-sort x xs ∙ h.0) (IsAscending-sort xs h.1)

  -- The keys ascend, and may repeat.
  abbrev IsNotBelow : K → List K → Type 0
  IsNotBelow k xs = All (λ x. o.lt x k ≡ false) xs

  abbrev IsSorted : List K → Type 0
  IsSorted [] = Unit
  IsSorted (x ∷ xs) = IsNotBelow x xs × IsSorted xs

  IsNotBelow-trans : (j k : K) (xs : List K) → o.lt k j ≡ false → IsNotBelow k xs → IsNotBelow j xs
  IsNotBelow-trans j k [] p h = tt
  IsNotBelow-trans j k (x ∷ xs) p h = (
    ground (arith, o.connex x k, o.connex j k, o.trans j k x, o.trans x j k, o.trans k x j, h.0),
    IsNotBelow-trans j k xs p h.1,
  )

  IsNotBelow-insert_by :
      (k v : K) (xs : List K)
      → o.lt v k ≡ false
      → IsNotBelow k xs
      → IsNotBelow k (insert_by same_key v xs)
  unfolding insert_by
  IsNotBelow-insert_by k v [] p h = (p, tt)
  IsNotBelow-insert_by k v (x ∷ xs) p h = ground (arith, IsNotBelow-insert_by k v xs p h.1)

  IsSorted-insert_by : (v : K) (xs : List K) → IsSorted xs → IsSorted (insert_by same_key v xs)
  unfolding insert_by
  IsSorted-insert_by v [] h = (tt, tt)
  IsSorted-insert_by v (x ∷ xs) h = elim (Bool-cases (o.lt x v)) [
    | inl less ↦ rw less (
      IsNotBelow-insert_by x v xs (ground (arith, o.trans x v x, o.irrefl x)) h.0,
      IsSorted-insert_by v xs h.1,
    )
    | inr not_less ↦ rw not_less ((not_less, IsNotBelow-trans v x xs not_less h.0), h)
  ]

  IsSorted-sort : (xs : List K) → IsSorted (sort xs)
  unfolding sort
  IsSorted-sort [] = tt
  IsSorted-sort (x ∷ xs) = IsSorted-insert_by x (sort xs) (IsSorted-sort xs)

  IsAbove-compact_from :
      (k x : K) (xs : List K)
      → o.lt k x ≡ true
      → IsNotBelow x xs
      → IsSorted xs
      → IsAbove same_key k (compact_from x xs)
  unfolding compact_from
  IsAbove-compact_from k x [] p h s = (p, tt)
  IsAbove-compact_from k x (y ∷ ys) p h s = elim (Bool-cases (o.eqb x y)) [
    | inl e ↦ rw e (IsAbove-compact_from k x ys p h.1 s.1)
    | inr ne ↦ rw ne (
      p,
      IsAbove-compact_from k y ys
          (ground (arith, o.trans k x y, o.connex x y, h.0, Bool-cases (o.lt x y))) s.0 s.1,
    )
  ]

  IsAscending-compact_from :
      (x : K) (xs : List K)
      → IsNotBelow x xs
      → IsSorted xs
      → IsAscending same_key (compact_from x xs)
  unfolding compact_from
  IsAscending-compact_from x [] h s = (tt, tt)
  IsAscending-compact_from x (y ∷ ys) h s = elim (Bool-cases (o.eqb x y)) [
    | inl e ↦ rw e (IsAscending-compact_from x ys h.1 s.1)
    | inr ne ↦ rw ne (
      IsAbove-compact_from x y ys
          (ground (arith, o.eqb_iff x y, o.connex x y, h.0, Bool-cases (o.lt x y))) s.0 s.1,
      IsAscending-compact_from y ys s.0 s.1,
    )
  ]

  -- Sorted and compacted, any keys are in strict order.
  pub IsAscending-compact : (xs : List K) → IsAscending same_key (compact (sort xs))
  unfolding compact
  IsAscending-compact xs = from_sorted (sort xs) (IsSorted-sort xs)
    where
      from_sorted : (ys : List K) → IsSorted ys → IsAscending same_key (compact ys)
      from_sorted [] h = tt
      from_sorted (y ∷ ys) h = IsAscending-compact_from y ys h.0 h.1

  pub contains-IsAbove : (k : K) (xs : List K) → IsAbove same_key k xs → contains k xs ≡ false
  contains-IsAbove k [] h = refl
  contains-IsAbove k (x ∷ xs) h = rw (lt→neqb_sym k x h.0, contains-IsAbove k xs h.1)

  find_last-contains :
      (k : K) (xs : List K) → find_last same_key k xs ≡ (if contains k xs then some k else none)
  unfolding find_last
  find_last-contains k [] = refl
  find_last-contains k (x ∷ xs) = ground (arith, find_last-contains k xs, eqb→≡ x k)

  -- Ascending lists with the same elements are equal.
  pub contains-ext :
      (xs ys : List K)
      → IsAscending same_key xs
      → IsAscending same_key ys
      → ((k : K) → contains k xs ≡ contains k ys)
      → xs ≡ ys
  contains-ext xs ys hx hy same = find_last-ext same_key xs ys hx hy (λ k.
      find_last-contains k xs
      ∙ ap (λ b. if b then some k else none) (same k)
      ∙ sym (find_last-contains k ys))

  -- What ascends is already sorted and compacted.
  pub compact-sort-IsAscending : (xs : List K) → IsAscending same_key xs → compact (sort xs) ≡ xs
  compact-sort-IsAscending xs h =
      contains-ext (compact (sort xs)) xs (IsAscending-compact xs) h
        (λ k. contains-compact k (sort xs) ∙ contains-sort k xs)

  pub contains-append :
      (k : K) (xs ys : List K) → contains k (xs ++ ys) ≡ (contains k xs || contains k ys)
  contains-append k [] ys = refl
  contains-append k (x ∷ xs) ys = ground (arith, contains-append k xs ys)

  -- The elements of the first list that the second lacks.
  unfoldable pub minus : List K → List K → List K
  minus [] ys = []
  minus (x ∷ xs) ys = if contains x ys then minus xs ys else x ∷ minus xs ys

  pub contains-minus :
      (k : K) (xs ys : List K) → contains k (minus xs ys) ≡ (contains k xs && not (contains k ys))
  unfolding minus
  contains-minus k [] ys = refl
  contains-minus k (x ∷ xs) ys = ground (arith, contains-minus k xs ys, eqb→≡ x k)

  IsAbove-minus :
      (k : K) (xs ys : List K) → IsAbove same_key k xs → IsAbove same_key k (minus xs ys)
  unfolding minus
  IsAbove-minus k [] ys h = tt
  IsAbove-minus k (x ∷ xs) ys h = ground (arith, IsAbove-minus k xs ys h.1)

  pub IsAscending-minus :
      (xs ys : List K) → IsAscending same_key xs → IsAscending same_key (minus xs ys)
  unfolding minus
  IsAscending-minus [] ys h = tt
  IsAscending-minus (x ∷ xs) ys h =
      ground (arith, IsAscending-minus xs ys h.1, IsAbove-minus x xs ys h.0)

-- Searching and membership.
module _ {κ} {V : Type 0} {K : Type κ} ⦃o : Order K⦄ (key : V → K) where
  pub find_last-Member :
      (k : K) (xs : List V) (x : V) → find_last key k xs ≡ some x → Member x xs × (key x ≡ k)
  unfolding find_last
  find_last-Member k [] x h = cc
  find_last-Member k (y ∷ xs) x h = elim (Option-cases (find_last key k xs)) [
    | inl e ↦ elim (eqb-cases (key y) k) [
      | inl same ↦ (inl (ground (arith, e)), ground (arith, e))
      | inr other ↦ ground (arith, e)
    ]
    | inr (z, e) ↦ let (m, same) = find_last-Member k xs x (ground (arith, e)) in (inr m, same)
  ]

  pub Member-find_last :
      (xs : List V) (x : V) → Member x xs → (y : V) × (find_last key (key x) xs ≡ some y)
  unfolding find_last
  Member-find_last [] x m = absurd m
  Member-find_last (y ∷ xs) x (inl e) = elim (Option-cases (find_last key (key x) xs)) [
    | inl miss ↦ (y, rw (miss, ← e) (rw (eqb_refl (key x))))
    | inr (z, found) ↦ (z, rw found)
  ]
  Member-find_last (y ∷ xs) x (inr m) = let (z, found) = Member-find_last xs x m in (z, rw found)
