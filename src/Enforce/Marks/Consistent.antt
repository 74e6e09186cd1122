-- ===== src/Enforce/Marks/Consistent.antt =====
-- The allocation of connection marks: the rules by id and the ids by mark agree, and handing a mark
-- to a rule keeps them so.
use innerwall.Prelude.Tests.{
  ℕ, suc, ◌≤◌, ◌<◌, ◌≡◌, ◌≢◌, sym, ◌∙◌, ap, ◌⊎◌, inl, inr, false, Option, none, some, List, ◌==◌,
  if◌then◌else◌, Bool-cases, some_injective, arith,
}
use innerwall.Prelude.Order.{nat_order, eqb_refl, eqb→≡, eqb-cases}
use innerwall.Prelude.Dict.{
  get, put, remove, get-put, get-remove, IsDict, IsDict-put, IsDict-remove,
}
use innerwall.Prelude.Text.{Str, str_order}
use innerwall.Enforce.Marks.{Slot, Allocator, record_slot}

-- But for the one mark: a known rule has a mark between 1 and the values handed out, is named
-- by it, and has no later allocation than the last; and a mark names a rule that has it.
pub record IsBut (m : ℕ) (a : Allocator) : Type 0 where
  pub dict : IsDict a.by_id
  pub low : (id : Str) (s : Slot) → get id a.by_id ≡ some s → 0 < s.mark
  pub high : (id : Str) (s : Slot) → get id a.by_id ≡ some s → s.mark < a.upcoming
  pub past : (id : Str) (s : Slot) → get id a.by_id ≡ some s → s.gen ≤ a.gen
  pub unheld : (id : Str) (s : Slot) → get id a.by_id ≡ some s → s.mark ≢ m
  pub named : (id : Str) (s : Slot) → get id a.by_id ≡ some s → get s.mark a.by_mark ≡ some id
  pub held :
      (n : ℕ) (id : Str)
      → n ≢ m
      → get n a.by_mark ≡ some id
      → (s : Slot) × (get id a.by_id ≡ some s) × (s.mark ≡ n)

-- A consistent allocation: that of every mark, where 0 is none.
pub record IsConsistent (a : Allocator) : Type 0 where
  pub first : 0 < a.upcoming
  pub last : a.upcoming ≤ suc a.limit
  pub agree : IsBut 0 a
  pub no_zero : get 0 a.by_mark ≡ none

get_some : {V : Type 0} (o : Option V) (v w : V) → o ≡ some v → o ≡ some w → v ≡ w
get_some o v w p q = some_injective v w (sym p ∙ q)

-- What the rules are after a mark is handed out.
got_put :
    {V : Type 0} (id j : Str) (v w : V) (m : List (Str × V))
    → get j (put id v m) ≡ some w
    → ((id ≡ j) × (v ≡ w)) ⊎ ((str_order.eqb id j ≡ false) × (get j m ≡ some w))
got_put id j v w m h = elim (Bool-cases (str_order.eqb id j)) [
  | inl e ↦ inl (eqb→≡ id j e, cc (get-put id j v m, e, h))
  | inr n ↦ inr (n, cc (get-put id j v m, n, h))
]

pub got_remove :
    {V : Type 0} (id j : Str) (w : V) (m : List (Str × V))
    → get j (remove id m) ≡ some w
    → (str_order.eqb id j ≡ false) × (get j m ≡ some w)
got_remove id j w m h = elim (Bool-cases (str_order.eqb id j)) [
  | inl e ↦ cc (get-remove id j m, e, h)
  | inr n ↦ (n, cc (get-remove id j m, n, h))
]

-- A mark that is handed to a new rule.
module _ (id : Str) (m g : ℕ) (a : Allocator) (k : IsBut m a) (positive : 0 < m)
    (below : m < a.upcoming) (early : g ≤ a.gen) (new : get id a.by_id ≡ none) where
  abbrev after : Allocator
  after = record_slot id (record { mark = m; gen = g }) a

  slots :
      (j : Str) (s : Slot)
      → get j after.by_id ≡ some s
      → ((id ≡ j) × (record { mark = m; gen = g } ≡ s))
        ⊎ ((str_order.eqb id j ≡ false) × (get j a.by_id ≡ some s))
  unfolding record_slot
  slots j s h = got_put id j (record { mark = m; gen = g }) s a.by_id h

  by_mark-hand : (n : ℕ) → get n after.by_mark ≡ (if m == n then some id else get n a.by_mark)
  unfolding record_slot
  by_mark-hand n = get-put m n id a.by_mark

  by_id-hand :
      (j : Str)
      → get j after.by_id
        ≡ (if str_order.eqb id j then some (record { mark = m; gen = g }) else get j a.by_id)
  unfolding record_slot
  by_id-hand j = get-put id j (record { mark = m; gen = g }) a.by_id

  hand-named : (j : Str) (s : Slot) → get j after.by_id ≡ some s → get s.mark after.by_mark ≡ some j
  hand-named j s h = elim (slots j s h) [
    | inl (e, same) ↦
        ground
          (arith, by_mark-hand s.mark, ap (λ (x : Slot). x.mark) same, ap (λ (x : Str). some x) e)
    | inr (other, old) ↦ ground (arith, by_mark-hand s.mark, k.unheld j s old, k.named j s old)
  ]

  hand-held :
      (n : ℕ) (j : Str)
      → n ≢ 0
      → get n after.by_mark ≡ some j
      → (s : Slot) × (get j after.by_id ≡ some s) × (s.mark ≡ n)
  hand-held n j nonzero h = elim (Bool-cases (m == n)) [
    | inl e ↦
        let mine : some id ≡ some j = cc (by_mark-hand n, e, h) in
        (
          record { mark = m; gen = g },
          ground (arith, by_id-hand j, eqb_refl id, some_injective id j mine),
          ground (arith, e),
        )
    | inr d ↦
        let (s, old, marked) = k.held n j (ground (arith, d)) (cc (by_mark-hand n, d, h)) in
        (
          s,
          elim (eqb-cases id j) [
            | inl same ↦ cc (ap (λ x. get x a.by_id) same, new, old)
            | inr other ↦ cc (by_id-hand j, other, old)
          ],
          marked,
        )
  ]

  pub record_slot-IsBut : IsBut 0 after
  record_slot-IsBut = record {
    dict = unfold record_slot in IsDict-put id (record { mark = m; gen = g }) a.by_id k.dict;
    low = λ j s h. elim (slots j s h) [
      | inl (e, same) ↦ ground (arith, positive, ap (λ (x : Slot). x.mark) same)
      | inr (other, old) ↦ k.low j s old
    ];
    high = λ j s h. elim (slots j s h) [
      | inl (e, same) ↦ unfold record_slot in ground (arith, below, ap (λ (x : Slot). x.mark) same)
      | inr (other, old) ↦ unfold record_slot in k.high j s old
    ];
    past = λ j s h. elim (slots j s h) [
      | inl (e, same) ↦ unfold record_slot in ground (arith, early, ap (λ (x : Slot). x.gen) same)
      | inr (other, old) ↦ unfold record_slot in k.past j s old
    ];
    unheld = λ j s h. elim (slots j s h) [
      | inl (e, same) ↦ ground (arith, positive, ap (λ (x : Slot). x.mark) same)
      | inr (other, old) ↦ ground (arith, k.low j s old)
    ];
    named = hand-named;
    held = hand-held;
  }

  pub record_slot-IsConsistent :
      0 < a.upcoming → a.upcoming ≤ suc a.limit → get 0 a.by_mark ≡ none → IsConsistent after
  record_slot-IsConsistent first last no_zero = record {
    first = unfold record_slot in first;
    last = unfold record_slot in last;
    agree = record_slot-IsBut;
    no_zero = ground (arith, by_mark-hand 0, positive, no_zero);
  }

held-nonzero :
    (a : Allocator) (n : ℕ) (id : Str) → IsConsistent a → get n a.by_mark ≡ some id → n ≢ 0
held-nonzero a n id k h z = cc (ap (λ x. get x a.by_mark) z, h, k.no_zero)

-- The next value, before it is handed to a rule.
pub advance-IsBut :
    (a : Allocator) → IsConsistent a → IsBut a.upcoming (record a { upcoming = suc a.upcoming })
advance-IsBut a k = record {
  dict = k.agree.dict;
  low = k.agree.low;
  high = λ j s h. ground (arith, k.agree.high j s h);
  past = k.agree.past;
  unheld = λ j s h. ground (arith, k.agree.high j s h);
  named = k.agree.named;
  held = λ n j d h. k.agree.held n j (held-nonzero a n j k h) h;
}

-- A mark whose rule is forgotten, before it is handed to another rule.
pub forget-IsBut :
    (a : Allocator) (m : ℕ) (old : Str)
    → IsConsistent a
    → get m a.by_mark ≡ some old
    → IsBut m (record a { by_id = remove old a.by_id })
forget-IsBut a m old k holds = record {
  dict = IsDict-remove old a.by_id k.agree.dict;
  low = λ j s h. k.agree.low j s (got_remove old j s a.by_id h).1;
  high = λ j s h. k.agree.high j s (got_remove old j s a.by_id h).1;
  past = λ j s h. k.agree.past j s (got_remove old j s a.by_id h).1;
  unheld = λ j s h e.
      let (other, was) = got_remove old j s a.by_id h in
      let same : some old ≡ some j =
        sym holds ∙ ap (λ x. get x a.by_mark) (sym e) ∙ k.agree.named j s was in
      cc (other, eqb_refl old, same);
  named = λ j s h. k.agree.named j s (got_remove old j s a.by_id h).1;
  held = λ n j d h.
      let (s, was, marked) = k.agree.held n j (held-nonzero a n j k h) h in
      let (s', is, mark) = k.agree.held m old (held-nonzero a m old k holds) holds in
      elim (eqb-cases old j) [
        | inl same ↦
            let one : s ≡ s' =
              get_some (get j a.by_id) s s' was (ap (λ x. get x a.by_id) (sym same) ∙ is) in
            absurd (d (sym marked ∙ ap (λ (x : Slot). x.mark) one ∙ mark))
        | inr other ↦ (s, cc (get-remove old j a.by_id, other, was), marked)
      ];
}
