-- ===== src/Enforce/Marks/Reload.antt =====
-- internal/agent/enforce/nft/allocator.go: what Save writes of a consistent allocation, loadAllocator
-- accepts, and each rule has its value and its allocation number again.
use innerwall.Prelude.Tests.{
  ℕ, suc, ◌≤◌, ◌<◌, ◌≡◌, refl, sym, ◌∙◌, ap, inl, inr, true, false, ◌||◌, none, some, List, [], ◌∷◌,
  ltb, Bool-cases, Option-cases, some_injective, All, Member, is_some, ◌==◌, if◌then◌else◌, arith,
}
use mathlib.Core.Path.{subst}
use innerwall.Prelude.Order.{nat_order, eqb_refl, eqb→≡}
use innerwall.Prelude.Sorting.{contains, IsNodup, sort_by}
use innerwall.Prelude.Dict.{get, get-put}
use innerwall.Prelude.Text.{Str, str_order}
use innerwall.Prelude.Result.{ok, ok_injective}
use innerwall.Enforce.Marks.{Slot, Allocator, new_allocator, record_slot}
use innerwall.Enforce.Marks.Consistent.{IsConsistent}
use innerwall.Enforce.Marks.Saved.{
  MarksRule, mark_key, saved_rules, marks_file, is_bad, load_rules, load_allocator,
}
use innerwall.Enforce.Marks.Sorted.{
  ids, All-sort_by, Member-sort_by, IsNodup-sort_by, ids-saved_rules, saved, get-Member-saved,
  All-saved_rules,
}

-- A rule that `a` has, as a file can hold it.
record IsFine (a : Allocator) (r : MarksRule) : Type 0 where
  low : 0 < r.mark
  high : r.mark < a.upcoming
  past : r.generation ≤ a.gen
  named : get r.mark a.by_mark ≡ some r.id

-- What is loaded of the rules that come before others: it names by each value what `a` does, and has
-- none of the others.
record IsLoading (a : Allocator) (rs : List MarksRule) (c : Allocator) : Type 0 where
  same_upcoming : c.upcoming ≡ a.upcoming
  same_gen : c.gen ≡ a.gen
  absent : (id : Str) → contains id (ids rs) ≡ true → get id c.by_id ≡ none
  marked :
      (m : ℕ) (id : Str)
      → get m c.by_mark ≡ some id
      → (get m a.by_mark ≡ some id) × (contains id (ids rs) ≡ false)

abbrev slot_of : MarksRule → Slot
slot_of r = record { mark = r.mark; gen = r.generation }

abbrev with_rule : MarksRule → Allocator → Allocator
with_rule r c = record_slot r.id (slot_of r) c

module _ (a : Allocator) (r : MarksRule) (rs : List MarksRule) (c : Allocator) (fine : IsFine a r)
    (new : contains r.id (ids rs) ≡ false) (k : IsLoading a (r ∷ rs) c) where
  free : get r.mark c.by_mark ≡ none
  free = elim (Option-cases (get r.mark c.by_mark)) [
    | inl n ↦ n
    | inr (id, e) ↦
        let (was, gone) = k.marked r.mark id e in
        let same : r.id ≡ id = some_injective r.id id (sym fine.named ∙ was) in
        cc (gone, ap (λ x. str_order.eqb r.id x) same, eqb_refl r.id)
  ]

  fine-is_bad : is_bad r c ≡ false
  unfolding is_bad
  fine-is_bad = ground (
    arith,
    fine.low,
    fine.high,
    fine.past,
    k.same_upcoming,
    k.same_gen,
    k.absent r.id (ground (arith, eqb_refl r.id)),
    free,
  )

  IsLoading-record_slot : IsLoading a rs (with_rule r c)
  unfolding record_slot
  IsLoading-record_slot = record {
    same_upcoming = k.same_upcoming;
    same_gen = k.same_gen;
    absent = λ id there. ground (
      arith,
      get-put r.id id (slot_of r) c.by_id,
      k.absent id (ground (arith, there)),
      eqb→≡ r.id id,
      new,
      there,
    );
    marked = λ m id e. elim (Bool-cases (r.mark == m)) [
      | inl same ↦
          let mine : r.id ≡ id =
            some_injective r.id id (cc (get-put r.mark m r.id c.by_mark, same, e)) in
          let is : r.mark ≡ m = ground (arith, same) in
          (
            ap (λ n. get n a.by_mark) (sym is) ∙ fine.named ∙ ap (λ (x : Str). some x) mine,
            subst (λ x. contains x (ids rs) ≡ false) mine new,
          )
      | inr other ↦
          let (was, gone) = k.marked m id (cc (get-put r.mark m r.id c.by_mark, other, e)) in
          (was, ground (arith, gone))
    ];
  }

load_rules-loads :
    (a : Allocator) (rs : List MarksRule) (c : Allocator)
    → All (IsFine a) rs
    → IsNodup (ids rs)
    → IsLoading a rs c
    → (b : Allocator) × (load_rules rs c ≡ ok b) × (b.gen ≡ a.gen)
unfolding load_rules
load_rules-loads a [] c fine d k = (c, refl, k.same_gen)
load_rules-loads a (r ∷ rs) c fine d k =
    let (b, run, gen) =
      load_rules-loads a rs (with_rule r c) fine.1 d.1
        (IsLoading-record_slot a r rs c fine.0 d.0 k) in
    (b, rw (fine-is_bad a r rs c fine.0 d.0 k) run, gen)

other_id :
    (r : MarksRule) (c : Allocator) (id : Str) (s : Slot)
    → is_bad r c ≡ false
    → get id c.by_id ≡ some s
    → str_order.eqb r.id id ≡ false
unfolding is_bad
other_id r c id s fine e = elim (Bool-cases (str_order.eqb r.id id)) [
  | inl same ↦ ground (arith, fine, e, ap (λ x. is_some (get x c.by_id)) (eqb→≡ r.id id same))
  | inr different ↦ different
]

-- A rule that is loaded stays as it is.
load_rules-known :
    (rs : List MarksRule) (c b : Allocator) (id : Str) (s : Slot)
    → load_rules rs c ≡ ok b
    → get id c.by_id ≡ some s
    → get id b.by_id ≡ some s
unfolding load_rules
load_rules-known [] c b id s h e =
    ap (λ (x : Allocator). get id x.by_id) (sym (ok_injective c b h)) ∙ e
load_rules-known (r ∷ rs) c b id s h e = elim (Bool-cases (is_bad r c)) [
  | inl bad ↦ cc (rw bad at h)
  | inr fine ↦ load_rules-known rs (with_rule r c) b id s (rw fine at h) (
      unfold record_slot in
      (get-put r.id id (slot_of r) c.by_id
        ∙ ap (λ b. if b then some (slot_of r) else get id c.by_id) (other_id r c id s fine e)
        ∙ e))
]

load_rules-Member :
    (rs : List MarksRule) (c b : Allocator) (r : MarksRule)
    → load_rules rs c ≡ ok b
    → Member r rs
    → get r.id b.by_id ≡ some (slot_of r)
unfolding load_rules
load_rules-Member [] c b r h m = absurd m
load_rules-Member (x ∷ xs) c b r h m = elim (Bool-cases (is_bad x c)) [
  | inl bad ↦ cc (rw bad at h)
  | inr fine ↦ elim m [
    | inl e ↦
        subst (λ (y : MarksRule). get y.id b.by_id ≡ some (slot_of y)) (sym e)
          (load_rules-known xs (with_rule x c) b x.id (slot_of x) (rw fine at h) (
            unfold record_slot in
            (get-put x.id x.id (slot_of x) c.by_id
              ∙ ap (λ b. if b then some (slot_of x) else get x.id c.by_id) (eqb_refl x.id))))
    | inr n ↦ load_rules-Member xs (with_rule x c) b r (rw fine at h) n
  ]
]

-- What is loaded of the file that a consistent allocation is saved in is accepted, has its allocation
-- number, and each rule's value and number of the allocation that last carried it.
pub load_allocator-marks_file :
    (a : Allocator)
    → IsConsistent a
    → (b : Allocator) × (load_allocator a.limit (marks_file a) ≡ ok b)
      × (b.gen ≡ a.gen)
      × ((id : Str) (s : Slot) → get id a.by_id ≡ some s → get id b.by_id ≡ some s)
unfolding load_allocator marks_file
load_allocator-marks_file a k =
    let rs = saved_rules a.by_id in
    let start = record (new_allocator a.limit) { upcoming = a.upcoming; gen = a.gen } in
    let fine = All-saved_rules (IsFine a) a.by_id k.agree.dict (λ id s h. record {
      low = k.agree.low id s h;
      high = k.agree.high id s h;
      past = k.agree.past id s h;
      named = k.agree.named id s h;
    }) in
    let distinct : IsNodup (ids rs) = subst IsNodup (sym (ids-saved_rules a.by_id)) k.agree.dict in
    let (b, run, gen) =
      load_rules-loads a (sort_by mark_key rs) start (All-sort_by (IsFine a) rs fine)
        (IsNodup-sort_by rs distinct)
        (unfold get in
          record {
            same_upcoming = refl;
            same_gen = refl;
            absent = λ id h. refl;
            marked = λ m id e. cc (e);
          }) in
    let accepted : (ltb a.upcoming 1 || ltb (suc a.limit) a.upcoming) ≡ false =
      ground (arith, k.first, k.last) in
    (
      b,
      rw accepted run,
      gen,
      λ id s h.
          load_rules-Member (sort_by mark_key rs) start b (saved id s) run
            (Member-sort_by (saved id s) rs (get-Member-saved id s a.by_id h)),
    )
