-- ===== src/Agent/Gaps/Bound.antt =====
-- internal/agent/collect/gaps.go, shrink: the loop ends with the held gaps within the capacity.
use innerwall.Prelude.Tests.{
  ℕ, zero, suc, ◌+◌, ◌≤◌, ◌<◌, ◌≡◌, refl, sym, ap, inl, inr, not, ◌&&◌, some, List, [], ◌∷◌, ◌++◌,
  ltb, arith, Bool-cases, Option-cases, length, length-append,
}
use innerwall.Agent.Gaps.{
  Gap, Gaps, same_loss, has_loss, merge_into, merge_oldest, merged_or_dropped, shrink_rounds,
  capacity, shrink, Newest, absent, apart, joined, join_at, join_newest, append_or_join, clamp, add,
}

length-merge_into : (p : Gap) (qs : List Gap) → length (merge_into p qs) ≡ length qs
unfolding merge_into
length-merge_into p [] = refl
length-merge_into p (q ∷ qs) = ground (arith, length-merge_into p qs)

length-merge_oldest :
    (seen ps qs : List Gap)
    → merge_oldest seen ps ≡ some qs
    → suc (length qs) ≡ length seen + length ps
unfolding merge_oldest
length-merge_oldest seen [] qs h = cc
length-merge_oldest seen (p ∷ ps) qs h = elim (Bool-cases (has_loss p seen)) [
  | inl e ↦
      let same : merge_into p seen ++ ps ≡ qs = cc ((rw e at h)) in
      ground (
        arith,
        ap length (sym same),
        length-append (merge_into p seen) ps,
        length-merge_into p seen,
      )
  | inr e ↦
      ground
        (arith, length-merge_oldest (seen ++ p ∷ []) ps qs (rw e at h), length-append seen (p ∷ []))
]

-- A round of the loop shortens a list that is not empty by one.
length-round :
    (ps : List Gap)
    → 0 < length ps
    → suc (length (merged_or_dropped ps (merge_oldest [] ps))) ≡ length ps
length-round [] h = ground arith
length-round (p ∷ ps) h = elim (Option-cases (merge_oldest [] (p ∷ ps))) [
  | inl n ↦ rw n refl
  | inr (qs, e) ↦ rw e (ground (arith, length-merge_oldest [] (p ∷ ps) qs e))
]

length-shrink_rounds :
    (fuel cap : ℕ) (ps : List Gap)
    → length ps ≤ fuel + cap
    → length (shrink_rounds fuel cap ps) ≤ cap
unfolding shrink_rounds
length-shrink_rounds zero cap ps h = ground (arith, h)
length-shrink_rounds (suc fuel) cap ps h = elim (Bool-cases (ltb cap (length ps))) [
  | inl e ↦ rw e (
      length-shrink_rounds fuel cap (merged_or_dropped ps (merge_oldest [] ps))
        (ground (arith, length-round ps, e, h)))
  | inr e ↦ ground (arith, e)
]

-- `shrink` ends within the capacity, however many gaps are held.
pub length-shrink : (g : Gaps) → length (shrink g).pending ≤ capacity g
unfolding shrink
length-shrink g = length-shrink_rounds (length g.pending) (capacity g) g.pending (ground arith)

-- The held gaps are within the capacity.
abbrev pub IsBounded : Gaps → Type 0
IsBounded g = length g.pending ≤ capacity g

-- A list in which the new gap was joined has the length that it had.
abbrev HasLength : ℕ → Newest → Type 0
HasLength n absent = Unit
HasLength n apart = Unit
HasLength n (joined qs) = length qs ≡ n

HasLength-join_at :
    (gap p : Gap) (ps : List Gap) (r : Newest)
    → HasLength (length ps) r
    → HasLength (suc (length ps)) (join_at gap p ps r)
unfolding join_at
HasLength-join_at gap p ps (joined qs) h = ap suc h
HasLength-join_at gap p ps apart h = tt
HasLength-join_at gap p ps absent h = elim (Bool-cases (same_loss p gap)) [
  | inl e ↦ elim (Bool-cases (not (ltb p.to gap.from) && not (ltb gap.to p.from))) [
    | inl t ↦ rw e (rw t refl)
    | inr t ↦ rw e (rw t tt)
  ]
  | inr e ↦ rw e tt
]

HasLength-join_newest : (gap : Gap) (ps : List Gap) → HasLength (length ps) (join_newest gap ps)
unfolding join_newest
HasLength-join_newest gap [] = tt
HasLength-join_newest gap (p ∷ ps) =
    HasLength-join_at gap p ps (join_newest gap ps) (HasLength-join_newest gap ps)

capacity-shrink : (g : Gaps) → capacity (shrink g) ≡ capacity g
unfolding capacity shrink
capacity-shrink g = refl

IsBounded-shrink : (g : Gaps) → IsBounded (shrink g)
IsBounded-shrink g = ground (arith, length-shrink g, capacity-shrink g)

IsBounded-append_or_join :
    (g : Gaps) (gap : Gap) (r : Newest)
    → IsBounded g
    → HasLength (length g.pending) r
    → IsBounded (append_or_join g gap r)
unfolding append_or_join capacity
IsBounded-append_or_join g gap absent b h =
    IsBounded-shrink (record g { pending = g.pending ++ gap ∷ [] })
IsBounded-append_or_join g gap apart b h =
    IsBounded-shrink (record g { pending = g.pending ++ gap ∷ [] })
IsBounded-append_or_join g gap (joined qs) b h = ground (arith, b, h)

-- Recording a gap keeps the held gaps within the capacity.
pub IsBounded-add : (g : Gaps) (gap : Gap) → IsBounded g → IsBounded (add g gap)
unfolding add
IsBounded-add g gap b =
    IsBounded-append_or_join g (clamp gap) (join_newest (clamp gap) g.pending) b
      (HasLength-join_newest (clamp gap) g.pending)
