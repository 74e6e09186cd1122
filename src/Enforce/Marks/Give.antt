-- ===== src/Enforce/Marks/Give.antt =====
-- The allocation of connection marks: the second loop of Allocate, in which the new rules are given
-- their marks.
use innerwall.Prelude.Tests.{
  ℕ, ◌≡◌, refl, sym, ◌∙◌, ap, ◌⊎◌, inl, inr, true, Option, none, some, List, [], ◌∷◌, if◌then◌else◌,
  some_injective, arith,
}
use mathlib.Core.Path.{subst}
use innerwall.Prelude.Order.{nat_order, eqb_refl, eqb-cases}
use innerwall.Prelude.Sorting.{contains, IsNodup}
use innerwall.Prelude.Dict.{get, put, get-put}
use innerwall.Prelude.Text.{Str, str_order}
use innerwall.Prelude.Result.{ok, >>=-eq-ok, ok_injective}
use innerwall.Rendered.{ResolvedRule, WorkloadPolicy}
use innerwall.Plan.{policy_or_empty}
use innerwall.Enforce.Marks.{
  Slot, Allocator, Marks, Taken, is_live, take_mark, record_slot, hand, give,
}
use innerwall.Enforce.Marks.Consistent.{IsConsistent, record_slot-IsConsistent}
use innerwall.Enforce.Marks.Settled.{IsOut}
use innerwall.Enforce.Marks.Take.{IsLeft, Keeps, fewer, take_mark-IsTaken}

-- A new rule is given the value that was taken.
module _ (id : Str) (m : ℕ) (a : Allocator) (new : get id a.by_id ≡ none) where
  get-handed :
      (j : Str)
      → get j (hand id m a).by_id
        ≡ (if str_order.eqb id j then some (record { mark = m; gen = a.gen }) else get j a.by_id)
  unfolding record_slot
  get-handed j = get-put id j (record { mark = m; gen = a.gen }) a.by_id

  known_handed : (j : Str) (s : Slot) → get j a.by_id ≡ some s → get j (hand id m a).by_id ≡ some s
  known_handed j s h = elim (eqb-cases id j) [
    | inl same ↦ cc (new, ap (λ x. get x a.by_id) same, h)
    | inr other ↦ ground (arith, get-handed j, other, h)
  ]

  IsLeft-handed :
      (live : List ResolvedRule) (left : Option (List ℕ))
      → IsLeft live a left
      → IsLeft live (hand id m a) left
  IsLeft-handed live none h = h
  IsLeft-handed live (some ms) h = record {
    apart = h.apart;
    freed = λ n c.
        let (g, f) = h.freed n c in
        (
          g,
          record {
            id = f.id;
            slot = f.slot;
            known = known_handed f.id f.slot f.known;
            gen_of = f.gen_of;
            mark_of = f.mark_of;
            older = unfold record_slot in f.older;
            gone = f.gone;
          },
        );
  }

  IsOut-handed : (out : Marks) → IsOut a out → IsOut (hand id m a) (put id m out)
  IsOut-handed out h j s was now = elim (eqb-cases id j) [
    | inl same ↦
        let slot : some (record { mark = m; gen = a.gen }) ≡ some s =
          ground (arith, get-handed j, ap (λ x. str_order.eqb id x) same, eqb_refl id, was) in
        let mark = ap (λ (x : Slot). x.mark) (some_injective _ s slot) in
        ground (arith, get-put id j m out, ap (λ x. str_order.eqb id x) same, eqb_refl id, mark)
    | inr other ↦
        let old : get j a.by_id ≡ some s = cc (get-handed j, other, was) in
        let kept = h j s old (unfold record_slot in now) in cc (get-put id j m out, other, kept)
  ]

-- What holds after the loop.
pub record IsGiven (live : List ResolvedRule) (ids : List Str) (a : Allocator) (out : Marks)
    (b : Allocator) : Type 0 where
  pub consistent : IsConsistent b
  pub marks : IsOut b out
  pub gen_same : b.gen ≡ a.gen
  pub limit_same : b.limit ≡ a.limit
  pub keeps : Keeps live a b
  pub given :
      (id : Str) → contains id ids ≡ true → (s : Slot) × (get id b.by_id ≡ some s) × (s.gen ≡ b.gen)

hand-IsGiven :
    (live : List ResolvedRule) (id : Str) (ids : List Str) (m : ℕ) (a c b : Allocator) (out : Marks)
    → get id c.by_id ≡ none
    → c.gen ≡ a.gen
    → c.limit ≡ a.limit
    → Keeps live a c
    → IsGiven live ids (hand id m c) out b
    → IsGiven live (id ∷ ids) a out b
unfolding record_slot
hand-IsGiven live id ids m a c b out unknown same limits keeps r = record {
  consistent = r.consistent;
  marks = r.marks;
  gen_same = r.gen_same ∙ same;
  limit_same = r.limit_same ∙ limits;
  keeps = λ j s was why.
      r.keeps j s (known_handed id m c unknown j s (keeps j s was why)) (still j s why);
  given = λ j found. elim (eqb-cases id j) [
    | inl is ↦ (
      record { mark = m; gen = c.gen },
      r.keeps j (record { mark = m; gen = c.gen })
          (ground
            (arith, get-handed id m c unknown j, ap (λ x. str_order.eqb id x) is, eqb_refl id))
          (inl refl),
      sym r.gen_same,
    )
    | inr other ↦ r.given j (ground (arith, other, found))
  ];
}
  where
    still :
        (j : Str) (s : Slot)
        → (s.gen ≡ a.gen) ⊎ (is_live j live ≡ true)
        → (s.gen ≡ c.gen) ⊎ (is_live j live ≡ true)
    still j s (inl now) = inl (now ∙ sym same)
    still j s (inr lives) = inr lives

pub give-IsGiven :
    (installed : Option WorkloadPolicy) (ids : List Str) (left : Option (List ℕ)) (a : Allocator)
    (out out' : Marks) (b : Allocator)
    → IsConsistent a
    → IsLeft (policy_or_empty installed).inbound_rules a left
    → IsOut a out
    → IsNodup ids
    → ((id : Str) → contains id ids ≡ true → get id a.by_id ≡ none)
    → give installed ids left a out ≡ ok (out', b)
    → IsGiven (policy_or_empty installed).inbound_rules ids a out' b
unfolding give
give-IsGiven installed [] left a out out' b k free marks apart new h =
    let same = ok_injective (out, a) (out', b) h in
    let sb : a ≡ b = ap (λ (x : Marks × Allocator). x.1) same in
    let so : out ≡ out' = ap (λ (x : Marks × Allocator). x.0) same in
    record {
      consistent = subst IsConsistent sb k;
      marks = subst (λ x. IsOut x out') sb (subst (IsOut a) so marks);
      gen_same = sym (ap (λ (x : Allocator). x.gen) sb);
      limit_same = sym (ap (λ (x : Allocator). x.limit) sb);
      keeps = λ id s was why. ap (λ (x : Allocator). get id x.by_id) (sym sb) ∙ was;
      given = λ id c. cc (c);
    }
give-IsGiven installed (id ∷ ids) left a out out' b k free marks apart new h =
    let (t, took, more) =
      >>=-eq-ok (take_mark installed left a)
        (λ (t : Taken). give installed ids t.left (hand id t.mark t.alloc) (put id t.mark out))
        (out', b) h in
    let live = (policy_or_empty installed).inbound_rules in
    let is = take_mark-IsTaken installed left a t k free took in
    let unknown = fewer live a t id is (new id (ground (arith, eqb_refl id))) in
    let taken_marks : IsOut t.alloc out =
      λ j s was now. marks j s (is.before j s was) (now ∙ is.gen_same) in
    let still_new : (j : Str)
        → contains j ids ≡ true
        → get j (hand id t.mark t.alloc).by_id ≡ none =
      λ j c. elim (eqb-cases id j) [
        | inl same ↦ cc (apart.0, ap (λ x. contains x ids) same, c)
        | inr other ↦ ground (
          arith,
          get-handed id t.mark t.alloc unknown j,
          other,
          fewer live a t j is (new j (ground (arith, c))),
        )
      ] in
    let r =
      give-IsGiven installed ids t.left (hand id t.mark t.alloc) (put id t.mark out) out' b
        (record_slot-IsConsistent id t.mark t.alloc.gen t.alloc is.agree is.positive is.below
          (omega arith) unknown (ground (arith, is.positive, is.below)) is.last is.no_zero)
        (IsLeft-handed id t.mark t.alloc unknown live t.left is.rest)
        (IsOut-handed id t.mark t.alloc unknown out taken_marks) apart.1 still_new more in
    hand-IsGiven live id ids t.mark a t.alloc b out' unknown is.gen_same is.limit_same is.keeps r
