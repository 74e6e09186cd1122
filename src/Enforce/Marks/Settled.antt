-- ===== src/Enforce/Marks/Settled.antt =====
-- The allocation of connection marks: what holds between the two loops of Allocate.
use innerwall.Prelude.Tests.{
  suc, ◌^◌, ◌≤◌, ◌<◌, ◌≡◌, refl, sym, ◌∙◌, ap, inl, inr, Bool, true, false, some, List, Bool-cases,
  Option-cases, map_option, some_injective, arith,
}
use innerwall.Prelude.Order.{nat_order}
use innerwall.Prelude.Dict.{get}
use innerwall.Prelude.Text.{Str, str_order}
use innerwall.Rendered.{ResolvedRule}
use innerwall.Plan.{u64}
use innerwall.Enforce.Marks.{Slot, Allocator, Marks, carry, is_live}
use innerwall.Enforce.Marks.Consistent.{IsConsistent}
use innerwall.Enforce.Marks.Carry.{
  carried_slot, carried_mark, carry_rest, get-carry, get-out-carry, IsDict-carry,
}

-- The returned marks hold those of the rules that the last allocation carried.
abbrev pub IsOut : Allocator → Marks → Type 0
IsOut a out =
    (id : Str) (s : Slot) → get id a.by_id ≡ some s → s.gen ≡ a.gen → get id out ≡ some s.mark

-- A new generation, before the rules are carried over.
abbrev pub bumped : Allocator → Allocator
bumped a = record a { gen = u64 (suc a.gen) }

pub bumped-IsConsistent :
    (a : Allocator) → suc a.gen < 2 ^ 64 → IsConsistent a → IsConsistent (bumped a)
bumped-IsConsistent a small k = record {
  first = k.first;
  last = k.last;
  agree = record {
    dict = k.agree.dict;
    low = k.agree.low;
    high = k.agree.high;
    past = λ id s h. omega (arith, small, k.agree.past id s h);
    unheld = k.agree.unheld;
    named = k.agree.named;
    held = k.agree.held;
  };
  no_zero = k.no_zero;
}

module _ (rs : List ResolvedRule) (a : Allocator) (out : Marks) where
  -- A slot after the loop is one before it, carried or not.
  pub slot_before :
      (id : Str) (s : Slot)
      → get id (carry rs a out).alloc.by_id ≡ some s
      → (t : Slot) × (get id a.by_id ≡ some t) × (carried_slot a.gen (is_live id rs) t ≡ s)
  slot_before id s h = elim (Option-cases (get id a.by_id)) [
    | inl new ↦
        cc (get-carry rs a out id, ap (map_option (carried_slot a.gen (is_live id rs))) new, h)
    | inr (t, known) ↦ (
      t,
      known,
      some_injective (carried_slot a.gen (is_live id rs) t) s (
          sym (get-carry rs a out id ∙ ap (map_option (carried_slot a.gen (is_live id rs))) known)
          ∙ h),
    )
  ]

  pub slot_after :
      (id : Str) (t : Slot)
      → get id a.by_id ≡ some t
      → get id (carry rs a out).alloc.by_id ≡ some (carried_slot a.gen (is_live id rs) t)
  slot_after id t h = get-carry rs a out id ∙ ap (map_option (carried_slot a.gen (is_live id rs))) h

  mark_carried : (live : Bool) (t : Slot) → (carried_slot a.gen live t).mark ≡ t.mark
  mark_carried true t = refl
  mark_carried false t = refl

  gen_carried : (live : Bool) (t : Slot) → t.gen ≤ a.gen → (carried_slot a.gen live t).gen ≤ a.gen
  gen_carried true t h = omega arith
  gen_carried false t h = h

  pub carry-gen : (carry rs a out).alloc.gen ≡ a.gen
  carry-gen = ap (λ (x : Allocator). x.gen) (carry_rest rs a out)

  pub carry-by_mark : (carry rs a out).alloc.by_mark ≡ a.by_mark
  carry-by_mark = ap (λ (x : Allocator). x.by_mark) (carry_rest rs a out)

  carry-upcoming : (carry rs a out).alloc.upcoming ≡ a.upcoming
  carry-upcoming = ap (λ (x : Allocator). x.upcoming) (carry_rest rs a out)

  pub carry-limit : (carry rs a out).alloc.limit ≡ a.limit
  carry-limit = ap (λ (x : Allocator). x.limit) (carry_rest rs a out)

  pub carry-IsConsistent : IsConsistent a → IsConsistent (carry rs a out).alloc
  carry-IsConsistent k = record {
    first = ground (arith, k.first, carry-upcoming);
    last = ground (arith, k.last, carry-upcoming, carry-limit);
    agree = record {
      dict = IsDict-carry rs a out k.agree.dict;
      low = λ id s h.
          let (t, was, e) = slot_before id s h in
          ground (
            arith,
            k.agree.low id t was,
            ap (λ (x : Slot). x.mark) e,
            mark_carried (is_live id rs) t,
          );
      high = λ id s h.
          let (t, was, e) = slot_before id s h in
          ground (
            arith,
            k.agree.high id t was,
            ap (λ (x : Slot). x.mark) e,
            mark_carried (is_live id rs) t,
            carry-upcoming,
          );
      past = λ id s h.
          let (t, was, e) = slot_before id s h in
          ground (
            arith,
            gen_carried (is_live id rs) t (k.agree.past id t was),
            ap (λ (x : Slot). x.gen) e,
            carry-gen,
          );
      unheld = λ id s h.
          let (t, was, e) = slot_before id s h in
          ground (
            arith,
            k.agree.low id t was,
            ap (λ (x : Slot). x.mark) e,
            mark_carried (is_live id rs) t,
          );
      named = λ id s h.
          let (t, was, e) = slot_before id s h in
          ap (get s.mark) carry-by_mark
          ∙ ap (λ m. get m a.by_mark)
              (sym (ap (λ (x : Slot). x.mark) e) ∙ mark_carried (is_live id rs) t)
          ∙ k.agree.named id t was;
      held = λ n id d h.
          let (t, was, e) = k.agree.held n id d (sym (ap (get n) carry-by_mark) ∙ h) in
          (
            carried_slot a.gen (is_live id rs) t,
            slot_after id t was,
            mark_carried (is_live id rs) t ∙ e,
          );
    };
    no_zero = ap (get 0) carry-by_mark ∙ k.no_zero;
  }

  pub carry-IsOut :
      ((id : Str) (t : Slot) → get id a.by_id ≡ some t → t.gen < a.gen)
      → IsOut (carry rs a out).alloc (carry rs a out).out
  carry-IsOut older id s h now =
      let (t, was, e) = slot_before id s h in
      let last : s.gen ≡ a.gen = now ∙ carry-gen in
      elim (Bool-cases (is_live id rs)) [
        | inl live ↦
            get-out-carry rs a out id
            ∙ ap (λ o. carried_mark (is_live id rs) o (get id out)) was
            ∙ rw live
                (ap some (sym (mark_carried true t) ∙ ap (λ (x : Slot). x.mark) (rw live at e)))
        | inr gone ↦ ground (arith, older id t was, last, ap (λ (x : Slot). x.gen) (rw gone at e))
      ]
