-- ===== src/Enforce/Marks/Take.antt =====
-- The allocation of connection marks: the value that the second loop of Allocate takes for a new rule.
use innerwall.Prelude.Tests.{
  ℕ, suc, ◌≤◌, ◌<◌, ◌≡◌, refl, sym, ◌∙◌, ap, ◌⊎◌, inl, inr, true, Option, none, some, List, [], ◌∷◌,
  leb, Bool-cases, Option-cases, some_injective, arith,
}
use mathlib.Core.Path.{subst}
use innerwall.Prelude.Order.{nat_order, eqb-cases}
use innerwall.Prelude.Sorting.{contains}
use innerwall.Prelude.Dict.{get, remove, get-remove}
use innerwall.Prelude.Text.{Str, str_order}
use innerwall.Prelude.Result.{ok, ok_injective}
use innerwall.Rendered.{ResolvedRule, WorkloadPolicy}
use innerwall.Plan.{policy_or_empty}
use innerwall.Enforce.Marks.{
  Slot, Allocator, Taken, is_live, reusable, id_or_empty, computed, take_reusable, take_mark,
}
use innerwall.Enforce.Marks.Consistent.{
  IsBut, IsConsistent, got_remove, advance-IsBut, forget-IsBut,
}
use innerwall.Enforce.Marks.Reuse.{IsFreed, IsFree, reusable-IsFree}

abbrev pub IsLeft : List ResolvedRule → Allocator → Option (List ℕ) → Type 0
IsLeft live a none = Unit
IsLeft live a (some ms) = IsFree live a ms

-- The rules of the last allocation and those of the policy keep their slots.
abbrev pub Keeps : List ResolvedRule → Allocator → Allocator → Type 0
Keeps live a b =
    (id : Str) (s : Slot)
    → get id a.by_id ≡ some s
    → (s.gen ≡ a.gen) ⊎ (is_live id live ≡ true)
    → get id b.by_id ≡ some s

-- What holds of a value that is taken.
pub record IsTaken (live : List ResolvedRule) (a : Allocator) (t : Taken) : Type 0 where
  pub agree : IsBut t.mark t.alloc
  pub positive : 0 < t.mark
  pub below : t.mark < t.alloc.upcoming
  pub last : t.alloc.upcoming ≤ suc t.alloc.limit
  pub no_zero : get 0 t.alloc.by_mark ≡ none
  pub gen_same : t.alloc.gen ≡ a.gen
  pub limit_same : t.alloc.limit ≡ a.limit
  pub rest : IsLeft live t.alloc t.left
  pub keeps : Keeps live a t.alloc
  pub before : (id : Str) (s : Slot) → get id t.alloc.by_id ≡ some s → get id a.by_id ≡ some s

pub fewer :
    (live : List ResolvedRule) (a : Allocator) (t : Taken) (id : Str)
    → IsTaken live a t
    → get id a.by_id ≡ none
    → get id t.alloc.by_id ≡ none
fewer live a t id k h = elim (Option-cases (get id t.alloc.by_id)) [
  | inl gone ↦ gone
  | inr (s, there) ↦ cc (k.before id s there, h)
]

take_reusable-IsTaken :
    (live : List ResolvedRule) (ms : List ℕ) (a : Allocator) (t : Taken)
    → IsConsistent a
    → IsFree live a ms
    → take_reusable ms a ≡ ok t
    → IsTaken live a t
unfolding take_reusable
take_reusable-IsTaken live [] a t k free h = cc
take_reusable-IsTaken live (m ∷ ms) a t k free h =
    subst (IsTaken live a) (ok_injective _ t h) (freed_taken (free.freed m (ground (arith))))
  where
    freed_taken :
        (g : ℕ) × IsFreed a.gen live a.by_id (g, m)
        → IsTaken live a (record {
          mark = m;
          left = some ms;
          alloc = record a { by_id = remove (id_or_empty (get m a.by_mark)) a.by_id };
        })
    freed_taken (g, f) =
        let holds : get m a.by_mark ≡ some f.id =
          ap (λ n. get n a.by_mark) (sym f.mark_of) ∙ k.agree.named f.id f.slot f.known in
        rw holds (record {
          agree = forget-IsBut a m f.id k holds;
          positive = ground (arith, k.agree.low f.id f.slot f.known, f.mark_of);
          below = ground (arith, k.agree.high f.id f.slot f.known, f.mark_of);
          last = k.last;
          no_zero = k.no_zero;
          gen_same = refl;
          limit_same = refl;
          rest = record {
            apart = free.apart.1;
            freed = λ n c.
                let (g', f') = free.freed n (ground (arith, c)) in
                (
                  g',
                  record {
                    id = f'.id;
                    slot = f'.slot;
                    known = elim (eqb-cases f.id f'.id) [
                      | inl same ↦
                          let one =
                            some_injective f.slot f'.slot
                              (sym f.known ∙ ap (λ x. get x a.by_id) same ∙ f'.known) in
                          let marks : m ≡ n =
                            sym f.mark_of ∙ ap (λ (x : Slot). x.mark) one ∙ f'.mark_of in
                          cc (free.apart.0, ap (λ x. contains x ms) marks, c)
                      | inr other ↦ ground (arith, get-remove f.id f'.id a.by_id, other, f'.known)
                    ];
                    gen_of = f'.gen_of;
                    mark_of = f'.mark_of;
                    older = f'.older;
                    gone = f'.gone;
                  },
                );
          };
          keeps = λ id s was why. elim (eqb-cases f.id id) [
            | inl same ↦
                let one =
                  some_injective f.slot s (sym f.known ∙ ap (λ x. get x a.by_id) same ∙ was) in
                elim why [
                  | inl now ↦ ground (arith, f.older, ap (λ (x : Slot). x.gen) one, now)
                  | inr lives ↦ cc (f.gone, ap (λ x. is_live x live) same, lives)
                ]
            | inr other ↦ ground (arith, get-remove f.id id a.by_id, other, was)
          ];
          before = λ id s h'. (got_remove f.id id s a.by_id h').1;
        })

-- The reusable values where there are none yet, or those that are left.
computed-IsFree :
    (installed : Option WorkloadPolicy) (left : Option (List ℕ)) (a : Allocator)
    → IsConsistent a
    → IsLeft (policy_or_empty installed).inbound_rules a left
    → IsFree (policy_or_empty installed).inbound_rules a (computed left (reusable installed a))
computed-IsFree installed none a k h = reusable-IsFree installed a k
computed-IsFree installed (some ms) a k h = h

IsLeft-advanced :
    (live : List ResolvedRule) (left : Option (List ℕ)) (a : Allocator)
    → IsLeft live a left
    → IsLeft live (record a { upcoming = suc a.upcoming }) left
IsLeft-advanced live none a h = h
IsLeft-advanced live (some ms) a h = record { apart = h.apart; freed = h.freed }

pub take_mark-IsTaken :
    (installed : Option WorkloadPolicy) (left : Option (List ℕ)) (a : Allocator) (t : Taken)
    → IsConsistent a
    → IsLeft (policy_or_empty installed).inbound_rules a left
    → take_mark installed left a ≡ ok t
    → IsTaken (policy_or_empty installed).inbound_rules a t
unfolding take_mark
take_mark-IsTaken installed left a t k free h = elim (Bool-cases (leb a.upcoming a.limit)) [
  | inl room ↦
      subst (IsTaken (policy_or_empty installed).inbound_rules a) (ok_injective _ t (rw room at h))
        (record {
          agree = advance-IsBut a k;
          positive = k.first;
          below = omega arith;
          last = ground (arith, room);
          no_zero = k.no_zero;
          gen_same = refl;
          limit_same = refl;
          rest = IsLeft-advanced (policy_or_empty installed).inbound_rules left a free;
          keeps = λ id s was why. was;
          before = λ id s h'. h';
        })
  | inr full ↦
      take_reusable-IsTaken (policy_or_empty installed).inbound_rules
        (computed left (reusable installed a)) a t k (computed-IsFree installed left a k free)
        (rw full at h)
]
