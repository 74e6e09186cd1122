-- ===== src/Enforce/Marks/Carry.antt =====
-- The allocation of connection marks: the first loop of Allocate, in which the rules that are known
-- keep their marks.
use innerwall.Prelude.Tests.{
  ℕ, ◌≡◌, refl, ◌∙◌, ap, inl, inr, Bool, true, false, ◌||◌, Option, none, some, List, [], ◌∷◌,
  if◌then◌else◌, Option-cases, map_option, arith,
}
use innerwall.Prelude.Order.{nat_order, eqb_refl, eqb→≡, eqb-cases}
use innerwall.Prelude.Sorting.{contains, IsNodup}
use innerwall.Prelude.Dict.{get, get-put, IsDict, IsDict-put}
use innerwall.Prelude.Text.{Str, str_order}
use innerwall.Rendered.{ResolvedRule}
use innerwall.Enforce.Marks.{Slot, Allocator, Marks, touched, noted, fresh_of, carry, is_live}

-- A slot of this allocation.
abbrev pub renewed : ℕ → Slot → Slot
renewed gen s = record s { gen = gen }

abbrev pub carried_slot : ℕ → Bool → Slot → Slot
carried_slot gen live s = if live then renewed gen s else s

abbrev pub carried_mark : Bool → Option Slot → Option ℕ → Option ℕ
carried_mark live none old = old
carried_mark live (some s) old = if live then some s.mark else old

get-touched :
    (id j : Str) (a : Allocator)
    → get j (touched id (get id a.by_id) a).by_id
      ≡ map_option (carried_slot a.gen (str_order.eqb id j)) (get j a.by_id)
unfolding touched
get-touched id j a = elim (Option-cases (get id a.by_id)) [
  | inl new ↦ elim (eqb-cases id j) [
    | inl same ↦ rw new (cc (ap (λ x. get x a.by_id) same, new))
    | inr other ↦ rw (new, other) (unmapped (get j a.by_id))
  ]
  | inr (s, known) ↦ elim (eqb-cases id j) [
    | inl same ↦ rw known (
        ground (
          arith,
          get-put id j (record s { gen = a.gen }) a.by_id,
          ap (λ x. str_order.eqb id x) same,
          eqb_refl id,
          ap (λ x. get x a.by_id) same,
          known,
        ))
    | inr other ↦
        rw (known, other)
          (get-put id j (record s { gen = a.gen }) a.by_id ∙ rw other (unmapped (get j a.by_id)))
  ]
]
  where
    unmapped : (o : Option Slot) → o ≡ map_option (λ (s : Slot). s) o
    unmapped none = refl
    unmapped (some s) = refl

touched_rest :
    (id : Str) (o : Option Slot) (a : Allocator)
    → touched id o a ≡ record a { by_id = (touched id o a).by_id }
unfolding touched
touched_rest id none a = refl
touched_rest id (some s) a = refl

get-noted :
    (id j : Str) (o : Option Slot) (out : Marks)
    → get j (noted id o out) ≡ carried_mark (str_order.eqb id j) o (get j out)
unfolding noted
get-noted id j none out = refl
get-noted id j (some s) out = get-put id j s.mark out

-- Only the slots change.
pub carry_rest :
    (rs : List ResolvedRule) (a : Allocator) (out : Marks)
    → (carry rs a out).alloc ≡ record a { by_id = (carry rs a out).alloc.by_id }
unfolding carry
carry_rest [] a out = refl
carry_rest (r ∷ rs) a out =
    let known = get r.rule_id a.by_id in
    carry_rest rs (touched r.rule_id known a) (noted r.rule_id known out)
    ∙ ap
        (λ (b : Allocator). record b {
          by_id = (carry rs (touched r.rule_id known a) (noted r.rule_id known out)).alloc.by_id;
        })
        (touched_rest r.rule_id known a)

twice_carried :
    (gen : ℕ) (p q : Bool) (o : Option Slot)
    → map_option (carried_slot gen p) (map_option (carried_slot gen q) o)
      ≡ map_option (carried_slot gen (q || p)) o
twice_carried gen p q none = refl
twice_carried gen true true (some s) = refl
twice_carried gen true false (some s) = refl
twice_carried gen false true (some s) = refl
twice_carried gen false false (some s) = refl

pub get-carry :
    (rs : List ResolvedRule) (a : Allocator) (out : Marks) (id : Str)
    → get id (carry rs a out).alloc.by_id
      ≡ map_option (carried_slot a.gen (is_live id rs)) (get id a.by_id)
unfolding carry is_live
get-carry [] a out id = elim (get id a.by_id) as (λ o. o ≡ map_option (λ (s : Slot). s) o) [
  | none ↦ refl
  | some s ↦ refl
]
get-carry (r ∷ rs) a out id =
    let known = get r.rule_id a.by_id in
    let b = touched r.rule_id known a in
    get-carry rs b (noted r.rule_id known out) id
    ∙ ap (λ g. map_option (carried_slot g (is_live id rs)) (get id b.by_id))
        (ap (λ (x : Allocator). x.gen) (touched_rest r.rule_id known a))
    ∙ ap (map_option (carried_slot a.gen (is_live id rs))) (get-touched r.rule_id id a)
    ∙ twice_carried a.gen (is_live id rs) (str_order.eqb r.rule_id id) (get id a.by_id)

twice_marked :
    (gen : ℕ) (p q : Bool) (known o : Option Slot) (old : Option ℕ)
    → (q ≡ true → known ≡ o)
    → carried_mark p (map_option (carried_slot gen q) o) (carried_mark q known old)
      ≡ carried_mark (q || p) o old
twice_marked gen p true known none old same = rw (same refl) refl
twice_marked gen true true known (some s) old same = refl
twice_marked gen false true known (some s) old same = rw (same refl) refl
twice_marked gen p false none none old same = refl
twice_marked gen p false (some k) none old same = refl
twice_marked gen p false none (some s) old same = refl
twice_marked gen p false (some k) (some s) old same = refl

pub get-out-carry :
    (rs : List ResolvedRule) (a : Allocator) (out : Marks) (id : Str)
    → get id (carry rs a out).out ≡ carried_mark (is_live id rs) (get id a.by_id) (get id out)
unfolding carry is_live
get-out-carry [] a out id =
    elim (get id a.by_id) as (λ o. get id out ≡ carried_mark false o (get id out)) [
      | none ↦ refl
      | some s ↦ refl
    ]
get-out-carry (r ∷ rs) a out id =
    let known = get r.rule_id a.by_id in
    get-out-carry rs (touched r.rule_id known a) (noted r.rule_id known out) id
    ∙ ap (λ o. carried_mark (is_live id rs) o (get id (noted r.rule_id known out)))
        (get-touched r.rule_id id a)
    ∙ ap
        (carried_mark (is_live id rs)
          (map_option (carried_slot a.gen (str_order.eqb r.rule_id id)) (get id a.by_id)))
        (get-noted r.rule_id id known out)
    ∙ twice_marked a.gen (is_live id rs) (str_order.eqb r.rule_id id) known (get id a.by_id)
        (get id out) (λ e. ap (λ x. get x a.by_id) (eqb→≡ r.rule_id id e))

-- The new rules are those of the policy that are not known.
abbrev pub is_new : Bool → Option Slot → Bool
is_new live none = live
is_new live (some s) = false

new_step :
    (id j : Str) (gen : ℕ) (p : Bool) (known o : Option Slot) (ids : List Str)
    → (str_order.eqb id j ≡ true → known ≡ o)
    → contains j ids ≡ is_new p (map_option (carried_slot gen (str_order.eqb id j)) o)
    → contains j (fresh_of id known ids) ≡ is_new (str_order.eqb id j || p) o
unfolding fresh_of
new_step id j gen p none none ids same h = ground (arith, h)
new_step id j gen p (some k) none ids same h = ground (arith, h, same)
new_step id j gen p none (some s) ids same h = ground (arith, h, same)
new_step id j gen p (some k) (some s) ids same h = h

pub contains-fresh :
    (rs : List ResolvedRule) (a : Allocator) (out : Marks) (id : Str)
    → contains id (carry rs a out).fresh ≡ is_new (is_live id rs) (get id a.by_id)
unfolding carry is_live
contains-fresh [] a out id = elim (get id a.by_id) as (λ o. false ≡ is_new false o) [
  | none ↦ refl
  | some s ↦ refl
]
contains-fresh (r ∷ rs) a out id =
    let known = get r.rule_id a.by_id in
    let b = touched r.rule_id known a in
    new_step r.rule_id id a.gen (is_live id rs) known (get id a.by_id)
      (carry rs b (noted r.rule_id known out)).fresh
      (λ e. ap (λ x. get x a.by_id) (eqb→≡ r.rule_id id e))
      (contains-fresh rs b (noted r.rule_id known out) id
        ∙ ap (is_new (is_live id rs)) (get-touched r.rule_id id a))

-- The rules have ids of their own.
abbrev pub IsApart : List ResolvedRule → Type 0
IsApart [] = Unit
IsApart (r ∷ rs) = (is_live r.rule_id rs ≡ false) × IsApart rs

pub IsNodup-fresh :
    (rs : List ResolvedRule) (a : Allocator) (out : Marks)
    → IsApart rs
    → IsNodup (carry rs a out).fresh
unfolding carry fresh_of
IsNodup-fresh [] a out h = tt
IsNodup-fresh (r ∷ rs) a out h =
    let b = touched r.rule_id (get r.rule_id a.by_id) a in
    let out' = noted r.rule_id (get r.rule_id a.by_id) out in
    elim (Option-cases (get r.rule_id a.by_id)) [
      | inl new ↦ rw new (
        contains-fresh rs (touched r.rule_id none a) (noted r.rule_id none out) r.rule_id
            ∙ rw (h.0) (never (get r.rule_id (touched r.rule_id none a).by_id)),
        IsNodup-fresh rs (touched r.rule_id none a) (noted r.rule_id none out) h.1,
      )
      | inr (s, known) ↦
          rw known
            (IsNodup-fresh rs (touched r.rule_id (some s) a) (noted r.rule_id (some s) out) h.1)
    ]
  where
    never : (o : Option Slot) → is_new false o ≡ false
    never none = refl
    never (some s) = refl

pub IsDict-carry :
    (rs : List ResolvedRule) (a : Allocator) (out : Marks)
    → IsDict a.by_id
    → IsDict (carry rs a out).alloc.by_id
unfolding carry
IsDict-carry [] a out h = h
IsDict-carry (r ∷ rs) a out h =
    IsDict-carry rs (touched r.rule_id (get r.rule_id a.by_id) a)
      (noted r.rule_id (get r.rule_id a.by_id) out) (kept (get r.rule_id a.by_id))
  where
    kept : (o : Option Slot) → IsDict (touched r.rule_id o a).by_id
    kept none = unfold touched in h
    kept (some s) = unfold touched in IsDict-put r.rule_id (record s { gen = a.gen }) a.by_id h
