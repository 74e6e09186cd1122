-- ===== src/Enforce/Marks/Sorted.antt =====
-- internal/agent/enforce/nft/allocator.go, Save: sorting the rules by their value keeps what they are.
use innerwall.Prelude.Tests.{
  ◌≡◌, refl, sym, ◌∙◌, ap, inl, inr, false, ◌||◌, some, List, [], ◌∷◌, ltb, Bool-cases,
  some_injective, All, Member, is_some, arith,
}
use innerwall.Prelude.Order.{nat_order, eqb_refl, eqb→≡}
use innerwall.Prelude.Sorting.{contains, IsNodup, insert_by, sort_by}
use innerwall.Prelude.Dict.{get, keys, contains-keys, IsDict}
use innerwall.Prelude.Text.{Str, str_order}
use innerwall.Enforce.Marks.{Slot}
use innerwall.Enforce.Marks.Saved.{MarksRule, mark_key, saved_rules}

abbrev pub ids : List MarksRule → List Str
ids [] = []
ids (r ∷ rs) = r.id ∷ ids rs

-- Sorting by the value keeps the ids and the rules.
contains-ids-insert_by :
    (id : Str) (r : MarksRule) (rs : List MarksRule)
    → contains id (ids (insert_by mark_key r rs)) ≡ (str_order.eqb r.id id || contains id (ids rs))
unfolding insert_by
contains-ids-insert_by id r [] = refl
contains-ids-insert_by id r (x ∷ xs) = ground (arith, contains-ids-insert_by id r xs)

contains-ids-sort_by :
    (id : Str) (rs : List MarksRule)
    → contains id (ids (sort_by mark_key rs)) ≡ contains id (ids rs)
unfolding sort_by
contains-ids-sort_by id [] = refl
contains-ids-sort_by id (r ∷ rs) =
    ground (arith, contains-ids-insert_by id r (sort_by mark_key rs), contains-ids-sort_by id rs)

IsNodup-insert_by :
    (r : MarksRule) (rs : List MarksRule)
    → contains r.id (ids rs) ≡ false
    → IsNodup (ids rs)
    → IsNodup (ids (insert_by mark_key r rs))
unfolding insert_by
IsNodup-insert_by r [] new h = (refl, tt)
IsNodup-insert_by r (x ∷ xs) new h = elim (Bool-cases (ltb x.mark r.mark)) [
  | inl less ↦ rw less (
    ground (arith, contains-ids-insert_by x.id r xs, h.0, new, eqb→≡ r.id x.id, eqb_refl r.id),
    IsNodup-insert_by r xs (ground (arith, new)) h.1,
  )
  | inr more ↦ rw more (new, h)
]

pub IsNodup-sort_by : (rs : List MarksRule) → IsNodup (ids rs) → IsNodup (ids (sort_by mark_key rs))
unfolding sort_by
IsNodup-sort_by [] h = tt
IsNodup-sort_by (r ∷ rs) h =
    IsNodup-insert_by r (sort_by mark_key rs) (contains-ids-sort_by r.id rs ∙ h.0)
      (IsNodup-sort_by rs h.1)

module _ (P : MarksRule → Type 0) where
  All-insert_by :
      (r : MarksRule) (rs : List MarksRule) → P r → All P rs → All P (insert_by mark_key r rs)
  unfolding insert_by
  All-insert_by r [] p h = (p, tt)
  All-insert_by r (x ∷ xs) p h = elim (Bool-cases (ltb x.mark r.mark)) [
    | inl less ↦ rw less (h.0, All-insert_by r xs p h.1)
    | inr more ↦ rw more (p, h)
  ]

  pub All-sort_by : (rs : List MarksRule) → All P rs → All P (sort_by mark_key rs)
  unfolding sort_by
  All-sort_by [] h = tt
  All-sort_by (r ∷ rs) h = All-insert_by r (sort_by mark_key rs) h.0 (All-sort_by rs h.1)

Member-insert_by :
    (x r : MarksRule) (rs : List MarksRule) → Member x (r ∷ rs) → Member x (insert_by mark_key r rs)
unfolding insert_by
Member-insert_by x r [] m = m
Member-insert_by x r (y ∷ ys) m = elim (Bool-cases (ltb y.mark r.mark)) [
  | inl less ↦ rw less (elim m [
    | inl e ↦ inr (Member-insert_by x r ys (inl e))
    | inr (inl e) ↦ inl e
    | inr (inr n) ↦ inr (Member-insert_by x r ys (inr n))
  ])
  | inr more ↦ rw more m
]

pub Member-sort_by :
    (x : MarksRule) (rs : List MarksRule) → Member x rs → Member x (sort_by mark_key rs)
unfolding sort_by
Member-sort_by x [] m = m
Member-sort_by x (r ∷ rs) (inl e) = Member-insert_by x r (sort_by mark_key rs) (inl e)
Member-sort_by x (r ∷ rs) (inr m) =
    Member-insert_by x r (sort_by mark_key rs) (inr (Member-sort_by x rs m))

-- The rules that are saved are those that are known.
pub ids-saved_rules : (m : List (Str × Slot)) → ids (saved_rules m) ≡ keys m
unfolding keys
ids-saved_rules [] = refl
ids-saved_rules ((id, s) ∷ m) = ap (λ xs. id ∷ xs) (ids-saved_rules m)

abbrev pub saved : Str → Slot → MarksRule
saved id s = record { id = id; mark = s.mark; generation = s.gen }

pub get-Member-saved :
    (id : Str) (s : Slot) (m : List (Str × Slot))
    → get id m ≡ some s
    → Member (saved id s) (saved_rules m)
unfolding get
get-Member-saved id s [] h = cc
get-Member-saved id s ((j, t) ∷ m) h = elim (Bool-cases (str_order.eqb j id)) [
  | inl e ↦
      let same : t ≡ s = some_injective t s (rw e at h) in
      inl (ap (λ x. saved id x) (sym same) ∙ ap (λ x. saved x t) (sym (eqb→≡ j id e)))
  | inr n ↦ inr (get-Member-saved id s m (rw n at h))
]

pub All-saved_rules :
    (P : MarksRule → Type 0) (m : List (Str × Slot))
    → IsDict m
    → ((id : Str) (s : Slot) → get id m ≡ some s → P (saved id s))
    → All P (saved_rules m)
unfolding get keys
All-saved_rules P [] d h = tt
All-saved_rules P ((id, s) ∷ m) d h = (
  h id s (rw (eqb_refl id) refl),
  All-saved_rules P m d.1 (λ j t e. h j t (elim (Bool-cases (str_order.eqb id j)) [
    | inl same ↦ absurd (not_known id j t m d.0 (eqb→≡ id j same) e)
    | inr other ↦ rw other e
  ])),
)
  where
    not_known :
        (id j : Str) (t : Slot) (m : List (Str × Slot))
        → contains id (keys m) ≡ false
        → id ≡ j
        → get j m ≡ some t
        → ⊥
    not_known id j t m new e h =
        cc (contains-keys id m, new, ap (λ x. get x m) e, h, ap is_some (ap (λ x. get x m) e ∙ h))
