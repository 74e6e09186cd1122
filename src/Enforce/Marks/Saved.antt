-- ===== src/Enforce/Marks/Saved.antt =====
-- internal/agent/enforce/nft/allocator.go, Save and loadAllocator between the allocation and the
-- content of its file: what is loaded is a consistent allocation. The file's encoding, JSON under a
-- checksum, is left out.
use innerwall.Prelude.Tests.{
  ℕ, suc, ◌≤◌, ◌<◌, ◌≡◌, refl, sym, ◌∙◌, ap, inl, inr, Bool, false, ◌||◌, Option, none, some, List,
  [], ◌∷◌, ltb, leb, if◌then◌else◌, is_some, Bool-cases, arith,
}
use mathlib.Core.Path.{subst}
use innerwall.Prelude.Order.{nat_order}
use innerwall.Prelude.Sorting.{sort_by}
use innerwall.Prelude.Dict.{get, keys}
use innerwall.Prelude.Text.{Str, str_order}
use innerwall.Prelude.Result.{Result, ok, err, ok_injective}
use innerwall.Enforce.Marks.{
  Slot, Allocator, MarkError, corrupt_marks_file, new_allocator, record_slot,
}
use innerwall.Enforce.Marks.Consistent.{IsBut, IsConsistent, record_slot-IsConsistent}

pub record MarksRule : Type 0 where
  pub id : Str
  pub mark : ℕ
  pub generation : ℕ

pub record MarksFile : Type 0 where
  pub upcoming : ℕ
  pub generation : ℕ
  pub rules : List MarksRule

abbrev pub mark_key : MarksRule → ℕ
mark_key r = r.mark

abbrev pub saved_rules : List (Str × Slot) → List MarksRule
saved_rules [] = []
saved_rules ((id, s) ∷ m) = record { id = id; mark = s.mark; generation = s.gen } ∷ saved_rules m

-- What `Save` writes.
unfoldable pub marks_file : Allocator → MarksFile
marks_file a = record {
  upcoming = a.upcoming;
  generation = a.gen;
  rules = sort_by mark_key (saved_rules a.by_id);
}

unfoldable pub is_bad : MarksRule → Allocator → Bool
is_bad r a =
    ltb r.mark 1
    || leb a.upcoming r.mark
    || ltb a.gen r.generation
    || is_some (get r.id a.by_id)
    || is_some (get r.mark a.by_mark)

unfoldable pub load_rules : List MarksRule → Allocator → Result MarkError Allocator
unfolding is_bad record_slot
load_rules [] a = ok a
load_rules (r ∷ rs) a =
    if is_bad r a
    then err corrupt_marks_file
    else load_rules rs (record_slot r.id (record { mark = r.mark; gen = r.generation }) a)

-- `loadAllocator`, on a file that verified.
unfoldable pub load_allocator : ℕ → MarksFile → Result MarkError Allocator
unfolding load_rules
load_allocator limit f =
    if ltb f.upcoming 1 || ltb (suc limit) f.upcoming
    then err corrupt_marks_file
    else load_rules f.rules
        (record (new_allocator limit) { upcoming = f.upcoming; gen = f.generation })

none_of : {A : Type 0} (o : Option A) → is_some o ≡ false → o ≡ none
none_of none h = refl
none_of (some a) h = cc

-- An allocation is one of a mark that no rule has yet.
unheld-IsBut : (m : ℕ) (a : Allocator) → IsConsistent a → get m a.by_mark ≡ none → IsBut m a
unheld-IsBut m a k free = record {
  dict = k.agree.dict;
  low = k.agree.low;
  high = k.agree.high;
  past = k.agree.past;
  unheld = λ id s h e. cc (ap (λ n. get n a.by_mark) e, k.agree.named id s h, free);
  named = k.agree.named;
  held = λ n id d h. k.agree.held n id (λ z. cc (ap (λ x. get x a.by_mark) z, h, k.no_zero)) h;
}

load_rules-IsConsistent :
    (rs : List MarksRule) (a b : Allocator)
    → IsConsistent a
    → load_rules rs a ≡ ok b
    → IsConsistent b × (b.limit ≡ a.limit)
unfolding load_rules
load_rules-IsConsistent [] a b k h =
    let same = ok_injective a b h in
    (subst IsConsistent same k, sym (ap (λ (x : Allocator). x.limit) same))
load_rules-IsConsistent (r ∷ rs) a b k h = elim (Bool-cases (is_bad r a)) [
  | inl bad ↦ cc (rw bad at h)
  | inr fine ↦
      let (low, high, early, new, free) = good r a fine in
      let (consistent, limits) =
        load_rules-IsConsistent rs
          (record_slot r.id (record { mark = r.mark; gen = r.generation }) a) b
          (record_slot-IsConsistent r.id r.mark r.generation a (unheld-IsBut r.mark a k free) low
            high early new k.first k.last k.no_zero)
          (rw fine at h) in
      (consistent, limits ∙ (unfold record_slot in refl))
]
  where
    good :
        (r : MarksRule) (a : Allocator)
        → is_bad r a ≡ false
        → (0 < r.mark)
          × (r.mark < a.upcoming)
          × (r.generation ≤ a.gen)
          × (get r.id a.by_id ≡ none)
          × (get r.mark a.by_mark ≡ none)
    good r a fine =
        unfold is_bad in
        (
          ground (arith, fine),
          ground (arith, fine),
          ground (arith, fine),
          none_of (get r.id a.by_id) (ground (arith, fine)),
          none_of (get r.mark a.by_mark) (ground (arith, fine)),
        )

-- What is loaded of a marks file is a consistent allocation with the limit that was asked for, whatever the file
-- holds.
pub load_allocator-IsConsistent :
    (limit : ℕ) (f : MarksFile) (a : Allocator)
    → load_allocator limit f ≡ ok a
    → IsConsistent a × (a.limit ≡ limit)
unfolding load_allocator
load_allocator-IsConsistent limit f a h =
    elim (Bool-cases (ltb f.upcoming 1 || ltb (suc limit) f.upcoming)) [
      | inl bad ↦ cc (rw bad at h)
      | inr fine ↦
          load_rules-IsConsistent f.rules
            (record (new_allocator limit) { upcoming = f.upcoming; gen = f.generation }) a
            (seeded f.upcoming f.generation (ground (arith, fine)) (ground (arith, fine)))
            (rw fine at h)
    ]
  where
    seeded :
        (upcoming gen : ℕ)
        → 0 < upcoming
        → upcoming ≤ suc limit
        → IsConsistent (record (new_allocator limit) { upcoming = upcoming; gen = gen })
    seeded upcoming gen low high =
        unfold get keys in
        record {
          first = low;
          last = high;
          agree = record {
            dict = tt;
            low = λ id s h. cc (h);
            high = λ id s h. cc (h);
            past = λ id s h. cc (h);
            unheld = λ id s h. cc (h);
            named = λ id s h. cc (h);
            held = λ n id d h. cc (h);
          };
          no_zero = refl;
        }
