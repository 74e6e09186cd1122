-- ===== src/Enforce/Store/Keeps.antt =====
-- The store of the applied policy: the connections that an installed rule marked are attributed to
-- that rule, whatever later applies do.
use innerwall.Prelude.Tests.{
  ℕ, suc, ◌+◌, ◌^◌, ◌≤◌, ◌<◌, ◌≡◌, sym, ◌∙◌, ap, ◌⊎◌, inl, inr, Bool, true, false, some, [], ◌==◌,
  if◌then◌else◌, some_injective, arith,
}
use mathlib.Core.Path.{subst}
use innerwall.Prelude.Text.{Str}
use innerwall.Netip.{Netip}
use innerwall.Rendered.{WorkloadPolicy, canonical}
use innerwall.Rendered.Canon.{canonical_idem}
use innerwall.Plan.{policy_or_empty}
use innerwall.Enforce.Marks.{Allocator, max_rules, is_live, rule_of_mark, mark_of_rule}
use innerwall.Enforce.Marks.Consistent.{IsConsistent}
use innerwall.Enforce.Marks.Allocate.{allocate-IsConsistent, allocate-marks, allocate-keeps}
use innerwall.Enforce.Render.{Options, would_block_index, rule_mark, rule_index}
use innerwall.Enforce.Store.{Machine, Store, apply, classify, decided, allowed, would_block}
use innerwall.Enforce.Store.Applied.{refused, stopped, installed, apply-IsApplied}

-- A rule is of the policy that the store's kernel holds.
abbrev pub is_installed : {E : Type 0} → Str → Store E → Bool
is_installed id s = is_live id (policy_or_empty s.current).inbound_rules

-- The allocation is consistent over the whole region, and every rule of the installed policy has a value
-- that names it.
pub record IsStored {E : Type 0} (s : Store E) : Type 0 where
  pub consistent : IsConsistent s.alloc
  pub region : s.alloc.limit ≡ max_rules
  pub covered :
      (id : Str)
      → is_installed id s ≡ true
      → (m : ℕ) × (0 < m)
        × (m ≤ max_rules)
        × (mark_of_rule id s.alloc ≡ some m)
        × (rule_of_mark m s.alloc ≡ some id)

rule_index-rule_mark : (m f : ℕ) → m ≤ max_rules → f < 65536 → rule_index (rule_mark m + f) ≡ m
unfolding rule_index rule_mark
rule_index-rule_mark m f h low = omega (arith, h, low)

-- Where the allocation of a store is consistent over the whole region and covers the installed
-- policy, an installed rule has a value, and a connection marked with it is classified as allowed
-- by that rule, whatever the other bits of its mark are.
pub classify-installed :
    {E : Type 0} (s : Store E) (id : Str)
    → IsStored s
    → is_installed id s ≡ true
    → (m : ℕ) × (mark_of_rule id s.alloc ≡ some m)
      × ((foreign : ℕ) → foreign < 65536 → classify s (rule_mark m + foreign) ≡ (allowed, id))
unfolding classify
classify-installed s id k lives =
    let (m, positive, below, known, named) = k.covered id lives in
    (
      m,
      known,
      λ foreign low.
          let same = rule_index-rule_mark m foreign below low in
          rw same (region_value m below named),
    )
  where
    region_value :
        (m : ℕ)
        → m ≤ max_rules
        → rule_of_mark m s.alloc ≡ some id
        → (if m == would_block_index then (would_block, []) else decided (rule_of_mark m s.alloc))
          ≡ (allowed, id)
    region_value m below named =
        let off : (m == would_block_index) ≡ false = ground (arith, below) in
        rw off (ap decided named)

-- Where a store has its policy from before, and the allocation has what it had.
module _ {E : Type 0} (s t : Store E) (k : IsStored s) where
  unchanged :
      t.alloc ≡ s.alloc
      → (id : Str) (m : ℕ) → is_installed id s ≡ true
      → mark_of_rule id s.alloc ≡ some m
      → (mark_of_rule id t.alloc ≡ some m) × (rule_of_mark m t.alloc ≡ some id)
  unchanged same id m lives known =
      let (n, positive, below, got, named) = k.covered id lives in
      let one : n ≡ m = some_injective n m (sym got ∙ known) in
      (
        ap (mark_of_rule id) same ∙ known,
        ap (rule_of_mark m) same ∙ ap (λ x. rule_of_mark x s.alloc) (sym one) ∙ named,
      )

  abbrev Kept : Type 0
  Kept =
      (id : Str) (m : ℕ)
      → is_installed id s ≡ true
      → mark_of_rule id s.alloc ≡ some m
      → (mark_of_rule id t.alloc ≡ some m) × (rule_of_mark m t.alloc ≡ some id)

  abbrev Covered : Type 0
  Covered =
      (id : Str)
      → is_installed id t ≡ true
      → (m : ℕ) × (0 < m)
        × (m ≤ max_rules)
        × (mark_of_rule id t.alloc ≡ some m)
        × (rule_of_mark m t.alloc ≡ some id)

  covered_still : Kept → t.current ≡ s.current → Covered
  covered_still kept same id lives =
      let old = sym (ap (λ o. is_live id (policy_or_empty o).inbound_rules) same) ∙ lives in
      let (m, positive, below, known, named) = k.covered id old in
      let (known', named') = kept id m old known in (m, positive, below, known', named')

  settled :
      Kept
      → IsConsistent t.alloc
      → t.alloc.limit ≡ max_rules
      → (t.current ≡ s.current) ⊎ Covered
      → IsStored t × Kept
  settled kept consistent region (inl same) =
      (record { consistent = consistent; region = region; covered = covered_still kept same }, kept)
  settled kept consistent region (inr covered) =
      (record { consistent = consistent; region = region; covered = covered }, kept)

module _ ⦃ip : Netip⦄ {E : Type 0} (machine : Machine E) (options : Options) where
  -- Where the allocation of a store is consistent over the whole region and covers the installed
  -- policy, and no allocation number has wrapped, so it is and does after an apply, whatever its
  -- outcome; and each rule that was installed before the apply keeps its value, which still names
  -- it.
  pub apply-IsStored :
      (p : WorkloadPolicy) (s : Store E)
      → IsStored s
      → suc s.alloc.gen < 2 ^ 64
      → IsStored (apply machine options p s).1
        × ((id : Str) (m : ℕ)
            → is_installed id s ≡ true
            → mark_of_rule id s.alloc ≡ some m
            → (mark_of_rule id (apply machine options p s).1.alloc ≡ some m)
              × (rule_of_mark m (apply machine options p s).1.alloc ≡ some id))
  apply-IsStored p s k small = elim (apply-IsApplied machine options p s) [
    | refused e bad alloc cur file ker ↦
        settled s (apply machine options p s).1 k
          (λ id m lives known. unchanged s (apply machine options p s).1 k alloc id m lives known)
          (subst IsConsistent (sym alloc) k.consistent)
          (ap (λ (a : Allocator). a.limit) alloc ∙ k.region) (inl cur)
    | stopped e marks bad allocated cur file ker ↦
        let (consistent, limits) =
          allocate-IsConsistent (canonical p) s.current s.alloc marks _ k.consistent small
            allocated in
        settled s (apply machine options p s).1 k
          (λ id m lives known.
            allocate-keeps (canonical p) s.current s.alloc marks _ k.consistent small allocated id m
              known (inr lives))
          consistent (limits ∙ k.region) (inl cur)
    | installed marks full script fine allocated cur mfile pfile rendered ker which ↦
        let (consistent, limits) =
          allocate-IsConsistent (canonical p) s.current s.alloc marks _ k.consistent small
            allocated in
        settled s (apply machine options p s).1 k
          (λ id m lives known.
            allocate-keeps (canonical p) s.current s.alloc marks _ k.consistent small allocated id m
              known (inr lives))
          consistent (limits ∙ k.region)
          (inr (λ id lives.
            let (m, positive, below, got, known, named) =
              allocate-marks (canonical p) s.current s.alloc marks _ k.consistent small allocated id
                (ap (λ (q : WorkloadPolicy). is_live id q.inbound_rules) (canonical_idem p)
                  ∙ sym (ap (λ o. is_live id (policy_or_empty o).inbound_rules) cur)
                  ∙ lives) in
            (m, positive, ground (arith, below, k.region), known, named)))
  ]
