-- ===== src/Enforce/Marks/Allocate.antt =====
-- The allocation of connection marks: what Allocate promises.
use innerwall.Prelude.Tests.{
  ℕ, suc, ◌^◌, ◌≤◌, ◌<◌, ◌≡◌, refl, sym, ◌∙◌, ap, ◌⊎◌, inl, inr, Bool, true, false, Option, none,
  some, List, [], ◌∷◌, Option-cases, some_injective, map_option, arith,
}
use innerwall.Prelude.Order.{nat_order, lt→neqb_sym}
use innerwall.Prelude.Sorting.{contains, IsAscending, IsAbove}
use innerwall.Prelude.Dict.{get}
use innerwall.Prelude.Text.{Str, str_order}
use innerwall.Prelude.Result.{ok}
use innerwall.Netip.{Netip}
use innerwall.Rendered.{ResolvedRule, WorkloadPolicy, canonical}
use innerwall.Rendered.Canon.{rule_key, IsAscending-canonical_rules}
use innerwall.Plan.{policy_or_empty}
use innerwall.Enforce.Marks.{
  Slot, Allocator, Marks, is_live, carry, allocate, rule_of_mark, mark_of_rule,
}
use innerwall.Enforce.Marks.Consistent.{IsConsistent}
use innerwall.Enforce.Marks.Carry.{
  IsApart, carried_slot, is_new, get-carry, contains-fresh, IsNodup-fresh,
}
use innerwall.Enforce.Marks.Settled.{
  bumped, bumped-IsConsistent, slot_after, carry-gen, carry-limit, carry-IsConsistent, carry-IsOut,
}
use innerwall.Enforce.Marks.Give.{IsGiven, give-IsGiven}

is_live-IsAbove : (k : Str) (rs : List ResolvedRule) → IsAbove rule_key k rs → is_live k rs ≡ false
unfolding is_live
is_live-IsAbove k [] h = refl
is_live-IsAbove k (r ∷ rs) h = ground (arith, lt→neqb_sym k r.rule_id h.0, is_live-IsAbove k rs h.1)

IsApart-IsAscending : (rs : List ResolvedRule) → IsAscending rule_key rs → IsApart rs
IsApart-IsAscending [] h = tt
IsApart-IsAscending (r ∷ rs) h = (is_live-IsAbove r.rule_id rs h.0, IsApart-IsAscending rs h.1)

pub mark_known :
    (id : Str) (m : ℕ) (a : Allocator)
    → mark_of_rule id a ≡ some m
    → (s : Slot) × (get id a.by_id ≡ some s) × (s.mark ≡ m)
unfolding mark_of_rule
mark_known id m a h = elim (Option-cases (get id a.by_id)) [
  | inl new ↦ cc (ap (map_option (λ (s : Slot). s.mark)) new, h)
  | inr (s, known) ↦
      (s, known, some_injective s.mark m (sym (ap (map_option (λ (s : Slot). s.mark)) known) ∙ h))
]

known_mark :
    (id : Str) (s : Slot) (a : Allocator)
    → get id a.by_id ≡ some s
    → mark_of_rule id a ≡ some s.mark
unfolding mark_of_rule
known_mark id s a h = ap (map_option (λ (s : Slot). s.mark)) h

module _ ⦃ip : Netip⦄ (policy : WorkloadPolicy) (installed : Option WorkloadPolicy) (a : Allocator)
    (out : Marks) (b : Allocator) (consistent : IsConsistent a) (small : suc a.gen < 2 ^ 64)
    (run : allocate policy installed a ≡ ok (out, b)) where
  abbrev rules : List ResolvedRule
  rules = (canonical policy).inbound_rules

  abbrev live : List ResolvedRule
  live = (policy_or_empty installed).inbound_rules

  older : (id : Str) (t : Slot) → get id a.by_id ≡ some t → t.gen < (bumped a).gen
  older id t h = omega (arith, small, consistent.agree.past id t h)

  is_given : IsGiven live (carry rules (bumped a) []).fresh (carry rules (bumped a) []).alloc out b
  unfolding allocate canonical
  is_given =
      give-IsGiven installed (carry rules (bumped a) []).fresh none
        (carry rules (bumped a) []).alloc (carry rules (bumped a) []).out out b
        (carry-IsConsistent rules (bumped a) [] (bumped-IsConsistent a small consistent)) tt
        (carry-IsOut rules (bumped a) [] older)
        (IsNodup-fresh rules (bumped a) []
          (IsApart-IsAscending rules (IsAscending-canonical_rules policy.inbound_rules)))
        (λ id c. new_gone id (Option-cases (get id a.by_id)) c) run
    where
      new_gone :
          (id : Str)
          → (get id a.by_id ≡ none) ⊎ ((s : Slot) × (get id a.by_id ≡ some s))
          → contains id (carry rules (bumped a) []).fresh ≡ true
          → get id (carry rules (bumped a) []).alloc.by_id ≡ none
      new_gone id (inl new) c =
          get-carry rules (bumped a) [] id
          ∙ ap (map_option (carried_slot (bumped a).gen (is_live id rules))) new
      new_gone id (inr (s, known)) c =
          cc (contains-fresh rules (bumped a) [] id, ap (is_new (is_live id rules)) known, c)

  -- A rule of the policy has a slot of the last allocation.
  current_slot :
      (id : Str)
      → is_live id rules ≡ true
      → (s : Slot) × (get id b.by_id ≡ some s) × (s.gen ≡ b.gen)
  current_slot id lives = elim (Option-cases (get id a.by_id)) [
    | inl new ↦
        is_given.given id
          (contains-fresh rules (bumped a) [] id ∙ ap (is_new (is_live id rules)) new ∙ lives)
    | inr (t, known) ↦ (
      record t { gen = (bumped a).gen },
      is_given.keeps id (record t { gen = (bumped a).gen })
          (slot_after rules (bumped a) [] id t known
            ∙ ap (λ l. some (carried_slot (bumped a).gen l t)) lives)
          (inl (sym (carry-gen rules (bumped a) []))),
      sym (is_given.gen_same ∙ carry-gen rules (bumped a) []),
    )
  ]

  -- Where no allocation number has wrapped, a call of Allocate that succeeds on a consistent
  -- allocation leaves a consistent one, with the same limit.
  pub allocate-IsConsistent : IsConsistent b × (b.limit ≡ a.limit)
  allocate-IsConsistent =
      (is_given.consistent, is_given.limit_same ∙ carry-limit rules (bumped a) [])

  -- Where no allocation number has wrapped and Allocate succeeds on a consistent allocation, every rule
  -- of the policy has a value between 1 and the limit, the returned map and Mark both give it, and
  -- Rule names the rule by it; so that two rules never share a value.
  pub allocate-marks :
      (id : Str)
      → is_live id (canonical policy).inbound_rules ≡ true
      → (m : ℕ) × (0 < m)
        × (m ≤ a.limit)
        × (get id out ≡ some m)
        × (mark_of_rule id b ≡ some m)
        × (rule_of_mark m b ≡ some id)
  unfolding rule_of_mark
  allocate-marks id lives =
      let (s, known, now) = current_slot id lives in
      let k = is_given.consistent in
      let (_, limits) = allocate-IsConsistent in
      (
        s.mark,
        k.agree.low id s known,
        omega (arith, k.agree.high id s known, k.last, limits),
        is_given.marks id s known now,
        known_mark id s b known,
        k.agree.named id s known,
      )

  -- Where no allocation number has wrapped and Allocate succeeds on a consistent allocation, a rule that
  -- had a value and that is of the policy or of the installed one keeps it, and Rule still names the
  -- rule by it: no connection that carries it is attributed to another rule.
  pub allocate-keeps :
      (id : Str) (m : ℕ)
      → mark_of_rule id a ≡ some m
      → (is_live id (canonical policy).inbound_rules ≡ true)
        ⊎ (is_live id (policy_or_empty installed).inbound_rules ≡ true)
      → (mark_of_rule id b ≡ some m) × (rule_of_mark m b ≡ some id)
  unfolding rule_of_mark
  allocate-keeps id m known why =
      let (t, was, marked) = mark_known id m a known in
      let slot = slot_after rules (bumped a) [] id t was in
      let kept =
        is_given.keeps id (carried_slot (bumped a).gen (is_live id rules) t) slot (reason t why) in
      let same : (carried_slot (bumped a).gen (is_live id rules) t).mark ≡ m =
        carried_same (is_live id rules) t ∙ marked in
      (
        known_mark id (carried_slot (bumped a).gen (is_live id rules) t) b kept ∙ ap some same,
        ap (λ n. get n b.by_mark) (sym same)
            ∙ is_given.consistent.agree.named id (carried_slot (bumped a).gen (is_live id rules) t)
                kept,
      )
    where
      reason :
          (t : Slot)
          → (is_live id rules ≡ true) ⊎ (is_live id live ≡ true)
          → ((carried_slot (bumped a).gen (is_live id rules) t).gen
              ≡ (carry rules (bumped a) []).alloc.gen)
            ⊎ (is_live id live ≡ true)
      reason t (inl lives) = inl (rw lives (sym (carry-gen rules (bumped a) [])))
      reason t (inr lives) = inr lives

      carried_same : (l : Bool) (t : Slot) → (carried_slot (bumped a).gen l t).mark ≡ t.mark
      carried_same true t = refl
      carried_same false t = refl
