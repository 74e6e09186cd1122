-- ===== src/Enforce/Marks/Reuse.antt =====
-- The allocation of connection marks: the reusable values are distinct, and held by no rule of the
-- last allocation and by none that is installed.
use innerwall.Prelude.Tests.{
  ℕ, ◌<◌, ◌≡◌, ◌≢◌, refl, sym, ◌∙◌, ap, ◌⊎◌, inl, inr, true, false, not, ◌&&◌, Option, none, some,
  List, [], ◌∷◌, map, ltb, ◌==◌, Bool-cases, some_injective, map_option, arith,
}
use innerwall.Prelude.Order.{nat_order, eqb_refl, eqb→≡, eqb-cases}
use innerwall.Prelude.Lex.{pair_order}
use innerwall.Prelude.Sorting.{
  sort, contains, contains-sort, IsNodup, IsAscending, IsAscending-sort, contains-IsAbove, same_key,
}
use innerwall.Prelude.Dict.{get, keys, contains-keys, IsDict}
use innerwall.Prelude.Text.{Str, str_order}
use innerwall.Rendered.{ResolvedRule, WorkloadPolicy}
use innerwall.Plan.{policy_or_empty}
use innerwall.Enforce.Marks.{Slot, Allocator, is_live, free_marks, second, reusable}
use innerwall.Enforce.Marks.Consistent.{IsConsistent}

-- A rule whose value may be taken: it is not of the last allocation and not of the policy.
pub record IsFreed (gen : ℕ) (live : List ResolvedRule) (m : List (Str × Slot)) (p : ℕ × ℕ)
    : Type 0 where
  pub id : Str
  pub slot : Slot
  pub known : get id m ≡ some slot
  pub gen_of : slot.gen ≡ p.0
  pub mark_of : slot.mark ≡ p.1
  pub older : slot.gen < gen
  pub gone : is_live id live ≡ false

pair_of : (p q : ℕ × ℕ) → pair_order.eqb p q ≡ true → (p.0 ≡ q.0) × (p.1 ≡ q.1)
pair_of p q h = let e = eqb→≡ p q h in (ap (λ (x : ℕ × ℕ). x.0) e, ap (λ (x : ℕ × ℕ). x.1) e)

get-tail :
    (k id : Str) (t s : Slot) (m : List (Str × Slot))
    → IsDict ((k, t) ∷ m)
    → get id m ≡ some s
    → get id ((k, t) ∷ m) ≡ some s
unfolding get keys
get-tail k id t s m d h = elim (eqb-cases k id) [
  | inl same ↦ ground (arith, contains-keys id m, h, d.0, ap (λ x. contains x (keys m)) same)
  | inr other ↦ rw other h
]

get_head : (k : Str) (t : Slot) (m : List (Str × Slot)) → get k ((k, t) ∷ m) ≡ some t
unfolding get
get_head k t m = rw (eqb_refl k) refl

head_once :
    (k id : Str) (t s : Slot) (m : List (Str × Slot))
    → IsDict ((k, t) ∷ m)
    → get id m ≡ some s
    → k ≢ id
unfolding keys
head_once k id t s m d h same =
    ground (arith, contains-keys id m, h, d.0, ap (λ x. contains x (keys m)) same)

module _ (gen : ℕ) (live : List ResolvedRule) where
  -- Under a further key.
  IsFreed-tail :
      (k : Str) (t : Slot) (m : List (Str × Slot)) (p : ℕ × ℕ)
      → IsDict ((k, t) ∷ m)
      → IsFreed gen live m p
      → IsFreed gen live ((k, t) ∷ m) p
  IsFreed-tail k t m p d f = record {
    id = f.id;
    slot = f.slot;
    known = get-tail k f.id t f.slot m d f.known;
    gen_of = f.gen_of;
    mark_of = f.mark_of;
    older = f.older;
    gone = f.gone;
  }

  free_marks-IsFreed :
      (m : List (Str × Slot)) (p : ℕ × ℕ)
      → IsDict m
      → contains p (free_marks gen live m) ≡ true
      → IsFreed gen live m p
  unfolding free_marks keys get
  free_marks-IsFreed [] p d h = cc
  free_marks-IsFreed ((k, t) ∷ m) p d h =
      elim (Bool-cases (ltb t.gen gen && not (is_live k live))) [
        | inl free ↦ elim (Bool-cases (pair_order.eqb (t.gen, t.mark) p)) [
          | inl here ↦
              let (g, n) = pair_of (t.gen, t.mark) p here in
              record {
                id = k;
                slot = t;
                known = rw (eqb_refl k) refl;
                gen_of = g;
                mark_of = n;
                older = ground (arith, free);
                gone = ground (arith, free);
              }
          | inr there ↦
              IsFreed-tail k t m p d (free_marks-IsFreed m p d.1 (rw there at (rw free at h)))
        ]
        | inr held ↦ IsFreed-tail k t m p d (free_marks-IsFreed m p d.1 (rw held at h))
      ]

  -- Where a mark has one rule, no candidate stands twice.
  IsNodup-free_marks :
      (m : List (Str × Slot))
      → IsDict m
      → ((i j : Str) (s t : Slot) → get i m ≡ some s → get j m ≡ some t → s.mark ≡ t.mark → i ≡ j)
      → IsNodup (free_marks gen live m)
  unfolding free_marks
  IsNodup-free_marks [] d one = tt
  IsNodup-free_marks ((k, t) ∷ m) d one =
      let rest =
        IsNodup-free_marks m (unfold keys in d.1)
          (λ i j s u hi hj e. one i j s u (get-tail k i t s m d hi) (get-tail k j t u m d hj) e) in
      elim (Bool-cases (ltb t.gen gen && not (is_live k live))) [
        | inl free ↦
            rw free
              (first_new (Bool-cases (contains (t.gen, t.mark) (free_marks gen live m))), rest)
        | inr held ↦ rw held rest
      ]
    where
      first_new :
          (contains (t.gen, t.mark) (free_marks gen live m) ≡ true)
            ⊎ (contains (t.gen, t.mark) (free_marks gen live m) ≡ false)
          → contains (t.gen, t.mark) (free_marks gen live m) ≡ false
      first_new (inr none_) = none_
      first_new (inl again) =
          let f = free_marks-IsFreed m (t.gen, t.mark) (unfold keys in d.1) again in
          let same =
            one k f.id t f.slot (get_head k t m) (get-tail k f.id t f.slot m d f.known)
              (sym f.mark_of) in
          absurd (head_once k f.id t f.slot m d f.known same)

-- A mark has one rule.
pub mark-injective :
    (a : Allocator)
    → IsConsistent a
    → (i j : Str) (s t : Slot) → get i a.by_id ≡ some s
    → get j a.by_id ≡ some t
    → s.mark ≡ t.mark
    → i ≡ j
mark-injective a k i j s t hi hj e =
    some_injective i j
      (sym (k.agree.named i s hi) ∙ ap (λ m. get m a.by_mark) e ∙ k.agree.named j t hj)

-- The allocation of the rule that a value names.
slot_gen : Allocator → Option Str → Option ℕ
slot_gen a none = none
slot_gen a (some id) = map_option (λ (s : Slot). s.gen) (get id a.by_id)

holder_gen : Allocator → ℕ → Option ℕ
unfolding slot_gen
holder_gen a n = slot_gen a (get n a.by_mark)

holder_gen_of :
    (a : Allocator)
    → IsConsistent a
    → (g n : ℕ) (live : List ResolvedRule) → IsFreed a.gen live a.by_id (g, n)
    → holder_gen a n ≡ some g
unfolding holder_gen slot_gen
holder_gen_of a k g n live f =
    ap (slot_gen a) (ap (λ m. get m a.by_mark) (sym f.mark_of) ∙ k.agree.named f.id f.slot f.known)
    ∙ ap (map_option (λ (s : Slot). s.gen)) f.known
    ∙ ap some f.gen_of

-- A list of pairs in order, whose second part fixes the first: no second part stands twice.
contains-second :
    (n : ℕ) (ps : List (ℕ × ℕ))
    → contains n (map second ps) ≡ true
    → (g : ℕ) × (contains (g, n) ps ≡ true)
contains-second n [] h = cc
contains-second n ((g, m) ∷ ps) h = elim (Bool-cases (m == n)) [
  | inl e ↦ (g, ground (arith, e))
  | inr d ↦ let (g', c) = contains-second n ps (rw d at h) in (g', ground (arith, c))
]

IsNodup-second :
    (f : ℕ → Option ℕ) (ps : List (ℕ × ℕ))
    → IsAscending same_key ps
    → ((g n : ℕ) → contains (g, n) ps ≡ true → f n ≡ some g)
    → IsNodup (map second ps)
IsNodup-second f [] a h = tt
IsNodup-second f ((g, m) ∷ ps) a h = (
  first_new (Bool-cases (contains m (map second ps))),
  IsNodup-second f ps a.1 (λ g' n c. h g' n (ground (arith, c))),
)
  where
    first_new :
        (contains m (map second ps) ≡ true) ⊎ (contains m (map second ps) ≡ false)
        → contains m (map second ps) ≡ false
    first_new (inr n) = n
    first_new (inl again) =
        let (g', c) = contains-second m ps again in
        let above = contains-IsAbove (g, m) ps a.0 in
        let at_head = h g m (ground arith) in
        let at_tail = h g' m (ground (arith, c)) in
        let same : some g ≡ some g' = sym at_head ∙ at_tail in
        cc (ap (λ x. contains (x, m) ps) (some_injective g g' same), above, c)

-- Values that may be taken, each once.
pub record IsFree (live : List ResolvedRule) (a : Allocator) (ms : List ℕ) : Type 0 where
  pub apart : IsNodup ms
  pub freed : (n : ℕ) → contains n ms ≡ true → (g : ℕ) × IsFreed a.gen live a.by_id (g, n)

pub reusable-IsFree :
    (installed : Option WorkloadPolicy) (a : Allocator)
    → IsConsistent a
    → IsFree (policy_or_empty installed).inbound_rules a (reusable installed a)
unfolding reusable
reusable-IsFree installed a k =
    let live = (policy_or_empty installed).inbound_rules in
    let cands = free_marks a.gen live a.by_id in
    let from : (p : ℕ × ℕ) → contains p (sort cands) ≡ true → IsFreed a.gen live a.by_id p = λ p h.
      free_marks-IsFreed a.gen live a.by_id p k.agree.dict (sym (contains-sort p cands) ∙ h) in
    record {
      apart =
          IsNodup-second (holder_gen a) (sort cands)
            (IsAscending-sort cands (
              IsNodup-free_marks a.gen live a.by_id k.agree.dict
                (λ i j s t. mark-injective a k i j s t)))
            (λ g n h. holder_gen_of a k g n live (from (g, n) h));
      freed = λ n h. let (g, c) = contains-second n (sort cands) h in (g, from (g, n) c);
    }
