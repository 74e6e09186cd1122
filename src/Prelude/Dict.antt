-- ===== src/Prelude/Dict.antt =====
-- A Go map as an association list with at most one entry to a key.
use innerwall.Prelude.Tests.{
  ◌≡◌, refl, inl, inr, ◌&&◌, ◌||◌, not, Option, none, some, List, [], ◌∷◌, arith, if◌then◌else◌,
  is_some, Option-cases,
}
use innerwall.Prelude.Order.{Order}
use innerwall.Prelude.Sorting.{
  contains, IsNodup, sort, find_last, contains-sort, IsAscending, IsAbove, same_key,
}

unfoldable pub push {ℓ} : {V : Type ℓ} → Option V → List V → List V
push none vs = vs
push (some v) vs = v ∷ vs

module _ {ℓ κ} {K : Type κ} {V : Type ℓ} ⦃o : Order K⦄ where
  unfoldable pub get : K → List (K × V) → Option V
  get k [] = none
  get k ((j, v) ∷ m) = if o.eqb j k then some v else get k m

  -- `m[k] = v`.
  unfoldable pub put : K → V → List (K × V) → List (K × V)
  put k v [] = (k, v) ∷ []
  put k v ((j, w) ∷ m) = if o.eqb j k then (k, v) ∷ m else (j, w) ∷ put k v m

  -- `delete(m, k)`.
  unfoldable pub remove : K → List (K × V) → List (K × V)
  remove k [] = []
  remove k ((j, w) ∷ m) = if o.eqb j k then remove k m else (j, w) ∷ remove k m

  unfoldable pub keys : List (K × V) → List K
  keys [] = []
  keys ((j, w) ∷ m) = j ∷ keys m

  -- The values at the keys of a list, in its order.
  unfoldable pub values_at : List (K × V) → List K → List V
  unfolding push
  values_at m [] = []
  values_at m (k ∷ ks) = push (get k m) (values_at m ks)

  pub get-put :
      (k j : K) (v : V) (m : List (K × V))
      → get j (put k v m) ≡ (if o.eqb k j then some v else get j m)
  unfolding get put
  get-put k j v [] = refl
  get-put k j v ((i, w) ∷ m) =
      ground (arith, o.eqb_iff k j, o.eqb_iff i k, o.eqb_iff i j, get-put k j v m)

  pub get-remove :
      (k j : K) (m : List (K × V)) → get j (remove k m) ≡ (if o.eqb k j then none else get j m)
  unfolding get remove
  get-remove k j [] = ground arith
  get-remove k j ((i, w) ∷ m) =
      ground (arith, o.eqb_iff k j, o.eqb_iff i k, o.eqb_iff i j, get-remove k j m)

  pub contains-keys : (k : K) (m : List (K × V)) → contains k (keys m) ≡ is_some (get k m)
  unfolding get keys
  contains-keys k [] = refl
  contains-keys k ((j, w) ∷ m) = ground (arith, contains-keys k m)

  abbrev pub IsDict : List (K × V) → Type 0
  IsDict m = IsNodup (keys m)

  contains-keys-put :
      (j k : K) (v : V) (m : List (K × V))
      → contains j (keys (put k v m)) ≡ (o.eqb k j || contains j (keys m))
  contains-keys-put j k v m =
      ground (arith, contains-keys j (put k v m), contains-keys j m, get-put k j v m)

  pub IsDict-put : (k : K) (v : V) (m : List (K × V)) → IsDict m → IsDict (put k v m)
  unfolding put keys
  IsDict-put k v [] h = (refl, tt)
  IsDict-put k v ((j, w) ∷ m) h =
      ground (arith, IsDict-put k v m h.1, contains-keys-put j k v m, o.eqb_iff j k, o.eqb_iff k j)

  contains-keys-remove :
      (j k : K) (m : List (K × V))
      → contains j (keys (remove k m)) ≡ (not (o.eqb k j) && contains j (keys m))
  contains-keys-remove j k m =
      ground (arith, contains-keys j (remove k m), contains-keys j m, get-remove k j m)

  pub IsDict-remove : (k : K) (m : List (K × V)) → IsDict m → IsDict (remove k m)
  unfolding remove keys
  IsDict-remove k [] h = tt
  IsDict-remove k ((j, w) ∷ m) h = ground (arith, IsDict-remove k m h.1, contains-keys-remove j k m)

  -- Maps whose values know their key: what the values at a list of keys hold.
  module _ (key : V → K) where
    abbrev pub IsKeyed : List (K × V) → Type (ℓ ⊔ κ)
    IsKeyed m = (k : K) (v : V) → get k m ≡ some v → key v ≡ k

    pub find_last-values_at :
        (m : List (K × V))
        → IsKeyed m
        → (k : K) (ks : List K)
        → find_last key k (values_at m ks) ≡ (if contains k ks then get k m else none)
    unfolding find_last values_at
    find_last-values_at m h k [] = refl
    find_last-values_at m h k (j ∷ ks) = elim (Option-cases (get j m)) [
      | inl e ↦ ground (arith, e, find_last-values_at m h k ks, o.eqb_iff j k)
      | inr (v, e) ↦ ground (arith, e, h j v e, find_last-values_at m h k ks, o.eqb_iff j k)
    ]

    IsAbove-values_at :
        (m : List (K × V))
        → IsKeyed m
        → (k : K) (ks : List K) → IsAbove same_key k ks
        → IsAbove key k (values_at m ks)
    unfolding values_at
    IsAbove-values_at m h k [] a = tt
    IsAbove-values_at m h k (j ∷ ks) a = elim (Option-cases (get j m)) [
      | inl e ↦ rw (e, push) (IsAbove-values_at m h k ks a.1)
      | inr (v, e) ↦ rw (e, push) (rw (h j v e) a.0, IsAbove-values_at m h k ks a.1)
    ]

    pub IsAscending-values_at :
        (m : List (K × V))
        → IsKeyed m
        → (ks : List K) → IsAscending same_key ks
        → IsAscending key (values_at m ks)
    unfolding values_at
    IsAscending-values_at m h [] a = tt
    IsAscending-values_at m h (j ∷ ks) a = elim (Option-cases (get j m)) [
      | inl e ↦ rw (e, push) (IsAscending-values_at m h ks a.1)
      | inr (v, e) ↦
          rw (e, push)
            (rw (h j v e) (IsAbove-values_at m h j ks a.0), IsAscending-values_at m h ks a.1)
    ]

    -- The values of a map in the order of its sorted keys: searching them is a lookup.
    pub find_last-sorted_values :
        (m : List (K × V))
        → IsKeyed m
        → (k : K) → find_last key k (values_at m (sort (keys m))) ≡ get k m
    find_last-sorted_values m h k = ground (
      arith,
      find_last-values_at m h k (sort (keys m)),
      contains-sort k (keys m),
      contains-keys k m,
    )
