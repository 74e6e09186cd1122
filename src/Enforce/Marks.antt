-- ===== src/Enforce/Marks.antt =====
-- internal/agent/enforce/nft/allocator.go: the connection marks of resolved rules, Allocator. The
-- laws are in the modules below.
pub mod Consistent
pub mod Carry
pub mod Settled
pub mod Reuse
pub mod Take
pub mod Give
pub mod Allocate
pub mod Saved
pub mod Sorted
pub mod Reload
use innerwall.Prelude.Tests.{
  ℕ, suc, ◌+◌, ◌-◌, ◌%◌, ◌^◌, ◌≡◌, Bool, true, false, not, ◌&&◌, ◌||◌, Option, none, some, List, [],
  ◌∷◌, ◌++◌, map, ltb, leb, ◌==◌, if◌then◌else◌, is_some, map_option,
}
use innerwall.Prelude.Order.{Order, nat_order, ◌=?◌}
use innerwall.Prelude.Lex.{pair_order}
use innerwall.Prelude.Sorting.{sort, sort_by, contains}
use innerwall.Prelude.Dict.{get, put, remove}
use innerwall.Prelude.Text.{Str, str_order}
use innerwall.Prelude.Result.{Result, ok, err, ◌>>=◌}
use innerwall.Netip.{Netip}
use innerwall.Rendered.{ResolvedRule, WorkloadPolicy, canonical}
use innerwall.Plan.{policy_or_empty, u64}

-- A rule's value, and the allocation that last carried the rule.
pub record Slot : Type 0 where
  pub mark : ℕ
  pub gen : ℕ

-- `by_id` and `by_mark` are the fields byID and byMark, and `upcoming` is the field next.
pub record Allocator : Type 0 where
  pub limit : ℕ
  pub upcoming : ℕ
  pub gen : ℕ
  pub by_id : List (Str × Slot)
  pub by_mark : List (ℕ × Str)

abbrev pub Marks : Type 0
Marks = List (Str × ℕ)

pub data MarkError : Type 0 where
  marks_exhausted : MarkError
  corrupt_marks_file : MarkError

abbrev pub max_rules : ℕ
max_rules = 65534

abbrev pub new_allocator : ℕ → Allocator
new_allocator limit = record { limit = limit; upcoming = 1; gen = 0; by_id = []; by_mark = [] }

-- The first loop of `Allocate` leaves the allocator, the values of the known rules and the ids of
-- the new ones.
pub record Carried : Type 0 where
  pub alloc : Allocator
  pub out : Marks
  pub fresh : List Str

unfoldable pub touched : Str → Option Slot → Allocator → Allocator
touched id none a = a
touched id (some s) a = record a { by_id = put id (record s { gen = a.gen }) a.by_id }

unfoldable pub noted : Str → Option Slot → Marks → Marks
noted id none out = out
noted id (some s) out = put id s.mark out

unfoldable pub fresh_of : Str → Option Slot → List Str → List Str
fresh_of id none ids = id ∷ ids
fresh_of id (some s) ids = ids

unfoldable pub carry : List ResolvedRule → Allocator → Marks → Carried
unfolding touched noted fresh_of
carry [] a out = record { alloc = a; out = out; fresh = [] }
carry (r ∷ rs) a out =
    let known = get r.rule_id a.by_id in
    let rest = carry rs (touched r.rule_id known a) (noted r.rule_id known out) in
    record rest { fresh = fresh_of r.rule_id known rest.fresh }

-- Whether a rule of the policy has the id.
unfoldable pub is_live : Str → List ResolvedRule → Bool
is_live id [] = false
is_live id (r ∷ rs) = r.rule_id =? id || is_live id rs

-- The candidates of `reusable`, each with its allocation first.
unfoldable pub free_marks : ℕ → List ResolvedRule → List (Str × Slot) → List (ℕ × ℕ)
free_marks gen live [] = []
free_marks gen live ((id, s) ∷ m) =
    if ltb s.gen gen && not (is_live id live)
    then (s.gen, s.mark) ∷ free_marks gen live m
    else free_marks gen live m

abbrev pub second : ℕ × ℕ → ℕ
second (g, m) = m

unfoldable pub reusable : Option WorkloadPolicy → Allocator → List ℕ
unfolding free_marks
reusable installed a =
    map second (sort (free_marks a.gen (policy_or_empty installed).inbound_rules a.by_id))

-- The id that a Go map gives for a value: the empty one where there is none.
abbrev pub id_or_empty : Option Str → Str
id_or_empty none = []
id_or_empty (some id) = id

-- A value for a new rule, with the reusable values that are left.
pub record Taken : Type 0 where
  pub mark : ℕ
  pub left : Option (List ℕ)
  pub alloc : Allocator

unfoldable pub take_reusable : List ℕ → Allocator → Result MarkError Taken
take_reusable [] a = err marks_exhausted
take_reusable (m ∷ ms) a = ok (record {
  mark = m;
  left = some ms;
  alloc = record a { by_id = remove (id_or_empty (get m a.by_mark)) a.by_id };
})

abbrev pub computed : Option (List ℕ) → List ℕ → List ℕ
computed none ms = ms
computed (some left) ms = left

unfoldable pub take_mark :
    Option WorkloadPolicy → Option (List ℕ) → Allocator → Result MarkError Taken
unfolding take_reusable
take_mark installed left a =
    if leb a.upcoming a.limit
    then ok
        (record { mark = a.upcoming; left = left; alloc = record a { upcoming = suc a.upcoming } })
    else take_reusable (computed left (reusable installed a)) a

-- Both maps, for one rule.
unfoldable pub record_slot : Str → Slot → Allocator → Allocator
record_slot id s a = record a { by_id = put id s a.by_id; by_mark = put s.mark id a.by_mark }

abbrev pub hand : Str → ℕ → Allocator → Allocator
hand id m a = record_slot id (record { mark = m; gen = a.gen }) a

-- The second loop of `Allocate`.
unfoldable pub give :
    Option WorkloadPolicy
    → List Str
    → Option (List ℕ)
    → Allocator
    → Marks
    → Result MarkError (Marks × Allocator)
unfolding take_mark record_slot
give installed [] left a out = ok (out, a)
give installed (id ∷ ids) left a out = do
  t ← take_mark installed left a
  give installed ids t.left (hand id t.mark t.alloc) (put id t.mark out)

module _ ⦃ip : Netip⦄ where
  -- `Allocate`, with the policy that is installed; the store keeps the allocator where it succeeds.
  unfoldable pub allocate :
      WorkloadPolicy → Option WorkloadPolicy → Allocator → Result MarkError (Marks × Allocator)
  unfolding carry give
  allocate policy installed a =
      let c = carry (canonical policy).inbound_rules (record a { gen = u64 (suc a.gen) }) [] in
      give installed c.fresh none c.alloc c.out

-- `Rule`.
unfoldable pub rule_of_mark : ℕ → Allocator → Option Str
rule_of_mark m a = get m a.by_mark

-- `Mark`.
unfoldable pub mark_of_rule : Str → Allocator → Option ℕ
mark_of_rule id a = map_option (λ (s : Slot). s.mark) (get id a.by_id)
