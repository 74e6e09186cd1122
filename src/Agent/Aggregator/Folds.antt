-- ===== src/Agent/Aggregator/Folds.antt =====
-- internal/agent/collect/collect.go, Add: a key that the window holds has all its observations, and the
-- dropped observations are those of the keys that it does not hold.
use innerwall.Prelude.Tests.{
  ℕ, suc, ◌+◌, ◌%◌, ◌^◌, ◌≤◌, ◌<◌, ◌≡◌, refl, sym, ◌∙◌, ap, inl, inr, true, Option, none, some,
  List, [], ◌∷◌, leb, if◌then◌else◌, length, Option-cases, Bool-cases, is_some, arith,
}
use mathlib.Core.Path.{subst}
use innerwall.Prelude.Order.{Order, nat_order, eqb_refl, eqb→≡, eqb-cases}
use innerwall.Prelude.Dict.{get, put, get-put}
use innerwall.Agent.Aggregator.{
  Observation, Key, key_order, key_of, Tally, Aggregator, folded, drop_observation, fold_in,
  observe_found, observe,
}

module _ {A : Type 0} ⦃order : Order A⦄ where
  -- The observations of the open window, one after the other.
  unfoldable pub observe_all : List (Observation A) → Aggregator A → Aggregator A
  observe_all [] a = a
  observe_all (o ∷ os) a = observe_all os (observe o a)

  -- The observations of one key, folded into what is held for it, with no bound.
  unfoldable pub tally_of : Key A → List (Observation A) → Option Tally → Option Tally
  tally_of k [] r = r
  tally_of k (o ∷ os) r =
      tally_of k os (if key_order.eqb (key_of o) k then some (folded o r) else r)

  -- How many of the observations have a key that the records lack.
  unfoldable pub missed : List (Key A × Tally) → List (Observation A) → ℕ
  missed m [] = 0
  missed m (o ∷ os) = if is_some (get (key_of o) m) then missed m os else suc (missed m os)

  length-put_known :
      (k : Key A) (v r : Tally) (m : List (Key A × Tally))
      → get k m ≡ some r
      → length (put k v m) ≡ length m
  unfolding get put
  length-put_known k v r [] h = cc
  length-put_known k v r ((j, w) ∷ m) h = elim (Bool-cases (key_order.eqb j k)) [
    | inl e ↦ rw e refl
    | inr e ↦ rw e (ap suc (length-put_known k v r m (rw e at h)))
  ]

  length-put_new :
      (k : Key A) (v : Tally) (m : List (Key A × Tally)) → length (put k v m) ≤ suc (length m)
  unfolding put
  length-put_new k v [] = ground arith
  length-put_new k v ((j, w) ∷ m) = elim (Bool-cases (key_order.eqb j k)) [
    | inl e ↦ rw e (ground arith)
    | inr e ↦ rw e (ground (arith, length-put_new k v m))
  ]

  -- The three outcomes of `observe`.
  data IsObserved (o : Observation A) (a : Aggregator A) : Type 0 where
    known :
        (r : Tally)
        → get (key_of o) a.records ≡ some r
        → observe o a ≡ fold_in o (some r) a
        → IsObserved o a
    fresh :
        get (key_of o) a.records ≡ none
        → length a.records < a.max_keys
        → observe o a ≡ fold_in o none a
        → IsObserved o a
    refused :
        get (key_of o) a.records ≡ none
        → a.max_keys ≤ length a.records
        → observe o a ≡ drop_observation o a
        → IsObserved o a

  observe-cases : (o : Observation A) (a : Aggregator A) → IsObserved o a
  unfolding observe observe_found
  observe-cases o a = elim (Option-cases (get (key_of o) a.records)) [
    | inl n ↦ elim (Bool-cases (leb a.max_keys (length a.records))) [
      | inl full ↦ refused n (ground (arith, full)) (rw n (rw full refl))
      | inr room ↦ fresh n (ground (arith, room)) (rw n (rw room refl))
    ]
    | inr (r, e) ↦ known r e (rw e refl)
  ]

  get-fold_in :
      (k : Key A) (o : Observation A) (f : Option Tally) (a : Aggregator A)
      → get k (fold_in o f a).records
        ≡ (if key_order.eqb (key_of o) k then some (folded o f) else get k a.records)
  get-fold_in k o f a = get-put (key_of o) k (folded o f) a.records

  same_key_get :
      (o : Observation A) (k : Key A) (m : List (Key A × Tally))
      → key_order.eqb (key_of o) k ≡ true
      → get (key_of o) m ≡ get k m
  same_key_get o k m h = ap (λ j. get j m) (eqb→≡ (key_of o) k h)

  -- Once the window is full, a key that it lacks stays out.
  absent_when_full :
      (k : Key A) (os : List (Observation A)) (a : Aggregator A)
      → a.max_keys ≤ length a.records
      → get k a.records ≡ none
      → get k (observe_all os a).records ≡ none
  unfolding observe_all drop_observation
  absent_when_full k [] a full h = h
  absent_when_full k (o ∷ os) a full h = elim (observe-cases o a) [
    | known r e s ↦
        subst (λ x. get k (observe_all os x).records ≡ none) (sym s)
          (absent_when_full k os (fold_in o (some r) a)
            (ground (arith, full, length-put_known (key_of o) (folded o (some r)) r a.records e))
            (ground (arith, get-fold_in k o (some r) a, same_key_get o k a.records, e, h)))
    | fresh e room s ↦ ground (arith, full, room)
    | refused e f s ↦
        subst (λ x. get k (observe_all os x).records ≡ none) (sym s)
          (absent_when_full k os (drop_observation o a) full h)
  ]

  -- A key that the window holds stays.
  present_stays :
      (k : Key A) (os : List (Observation A)) (a : Aggregator A)
      → is_some (get k a.records) ≡ true
      → is_some (get k (observe_all os a).records) ≡ true
  unfolding observe_all drop_observation
  present_stays k [] a h = h
  present_stays k (o ∷ os) a h = elim (observe-cases o a) [
    | known r e s ↦
        subst (λ x. is_some (get k (observe_all os x).records) ≡ true) (sym s)
          (present_stays k os (fold_in o (some r) a)
            (ground (arith, ap is_some (get-fold_in k o (some r) a), h)))
    | fresh e room s ↦
        subst (λ x. is_some (get k (observe_all os x).records) ≡ true) (sym s)
          (present_stays k os (fold_in o none a)
            (ground (arith, ap is_some (get-fold_in k o none a), h)))
    | refused e f s ↦
        subst (λ x. is_some (get k (observe_all os x).records) ≡ true) (sym s)
          (present_stays k os (drop_observation o a) h)
  ]

  -- What `observe` leaves for a key, where it folds the observation in.
  get-fold_in_known :
      (k : Key A) (o : Observation A) (f : Option Tally) (a : Aggregator A)
      → get (key_of o) a.records ≡ f
      → get k (fold_in o f a).records ≡ (
          if key_order.eqb (key_of o) k then some (folded o (get k a.records)) else get k a.records)
  get-fold_in_known k o f a e = elim (Bool-cases (key_order.eqb (key_of o) k)) [
    | inl t ↦
        get-fold_in k o f a
        ∙ rw t (ap (λ x. some (folded o x)) (sym e ∙ same_key_get o k a.records t))
    | inr t ↦ get-fold_in k o f a ∙ rw t refl
  ]

  -- The record that an open window holds for a key is the fold of all the observations of the key,
  -- none of them dropped.
  pub get-observe_all :
      (k : Key A) (os : List (Observation A)) (a : Aggregator A) (r : Tally)
      → get k (observe_all os a).records ≡ some r
      → tally_of k os (get k a.records) ≡ some r
  unfolding observe_all tally_of drop_observation
  get-observe_all k [] a r h = h
  get-observe_all k (o ∷ os) a r h = elim (observe-cases o a) [
    | known q e s ↦
        ap (tally_of k os) (sym (get-fold_in_known k o (some q) a e))
        ∙ get-observe_all k os (fold_in o (some q) a) r
            (subst (λ x. get k (observe_all os x).records ≡ some r) s h)
    | fresh e room s ↦
        ap (tally_of k os) (sym (get-fold_in_known k o none a e))
        ∙ get-observe_all k os (fold_in o none a) r
            (subst (λ x. get k (observe_all os x).records ≡ some r) s h)
    | refused e full s ↦
        let after = drop_observation o a in
        let here : get k (observe_all os after).records ≡ some r =
          subst (λ x. get k (observe_all os x).records ≡ some r) s h in
        elim (eqb-cases (key_of o) k) [
          | inl t ↦
              absurd_held (absent_when_full k os after full (ap (λ j. get j a.records) (sym t) ∙ e))
                here
          | inr t ↦ ap (tally_of k os) (rw t refl) ∙ get-observe_all k os after r here
        ]
  ]
    where
      absurd_held : {o : Option Tally} {r : Tally} {P : Type 0} → o ≡ none → o ≡ some r → P
      absurd_held n h = cc (n, h)

  held_after_fold :
      (o : Observation A) (f : Option Tally) (a : Aggregator A)
      → is_some (get (key_of o) (fold_in o f a).records) ≡ true
  held_after_fold o f a = rw (get-fold_in (key_of o) o f a) (rw (eqb_refl (key_of o)) refl)

  -- From a count below 2 ^ 64, the count of the dropped grows, modulo 2 ^ 64, by the observations whose
  -- key the window does not hold in the end.
  pub dropped-observe_all :
      (os : List (Observation A)) (a : Aggregator A)
      → a.dropped < 2 ^ 64
      → (observe_all os a).dropped ≡ (a.dropped + missed (observe_all os a).records os) % 2 ^ 64
  unfolding observe_all missed drop_observation
  dropped-observe_all [] a fits = ground (arith, fits)
  dropped-observe_all (o ∷ os) a fits =
      let counts = λ (x : Aggregator A).
        (observe_all os x).dropped
        ≡ (a.dropped + missed (observe_all os x).records (o ∷ os)) % 2 ^ 64 in
      elim (observe-cases o a) [
        | known q e s ↦
            let b = fold_in o (some q) a in
            subst counts (sym s) (
              rw (present_stays (key_of o) os b (held_after_fold o (some q) a))
                (dropped-observe_all os b fits))
        | fresh e room s ↦
            let b = fold_in o none a in
            subst counts (sym s) (
              rw (present_stays (key_of o) os b (held_after_fold o none a))
                (dropped-observe_all os b fits))
        | refused e full s ↦
            let b = drop_observation o a in
            subst counts (sym s) (
              rw (absent_when_full (key_of o) os b full e)
                (ground (arith, dropped-observe_all os b (ground arith))))
      ]

  -- A window within its bound on the keys stays within it, whatever is observed.
  pub length-observe_all :
      (os : List (Observation A)) (a : Aggregator A)
      → length a.records ≤ a.max_keys
      → length (observe_all os a).records ≤ (observe_all os a).max_keys
  unfolding observe_all drop_observation
  length-observe_all [] a h = h
  length-observe_all (o ∷ os) a h =
      let bounded =
        λ (x : Aggregator A). length (observe_all os x).records ≤ (observe_all os x).max_keys in
      elim (observe-cases o a) [
        | known q e s ↦ subst bounded (sym s) (
            length-observe_all os (fold_in o (some q) a)
              (ground (arith, h, length-put_known (key_of o) (folded o (some q)) q a.records e)))
        | fresh e room s ↦ subst bounded (sym s) (
            length-observe_all os (fold_in o none a)
              (ground (arith, room, length-put_new (key_of o) (folded o none) a.records)))
        | refused e full s ↦ subst bounded (sym s) (length-observe_all os (drop_observation o a) h)
      ]
