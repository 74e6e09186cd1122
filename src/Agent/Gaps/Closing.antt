-- ===== src/Agent/Gaps/Closing.antt =====
-- internal/agent/collect/gaps.go, Close and CutOpen: what was lost while an interval was open is
-- recorded when it ends, and piece by piece before that.
use innerwall.Prelude.Tests.{
  ℕ, ◌≤◌, ◌<◌, ◌≡◌, refl, ◌∙◌, ap, inl, inr, true, false, not, ◌||◌, none, some, List, [], ◌∷◌, ltb,
  arith, Bool-cases, Member,
}
use mathlib.Core.Path.{subst}
use innerwall.Prelude.Order.{nat_order, eqb_refl}
use innerwall.Prelude.Dict.{get, remove, get-remove}
use innerwall.Agent.Gaps.{
  GapSource, kind_code, source_code, Gap, Gaps, capacity, shrink, Newest, absent, apart, joined,
  append_or_join, join_newest, clamp, add, close_at, close_gap, cut_while_open, cut_one, cut_each,
  cut_open,
}
use innerwall.Agent.Gaps.Covers.{covers, covered, covered-add}
use innerwall.Agent.Gaps.Runs.{capacity-add, IsKept-IsHeld, kept-cut_each, IsHeld}

open_gaps-append_or_join :
    (g : Gaps) (gap : Gap) (r : Newest) → (append_or_join g gap r).open_gaps ≡ g.open_gaps
unfolding append_or_join shrink
open_gaps-append_or_join g gap absent = refl
open_gaps-append_or_join g gap apart = refl
open_gaps-append_or_join g gap (joined qs) = refl

open_gaps-add : (g : Gaps) (gap : Gap) → (add g gap).open_gaps ≡ g.open_gaps
unfolding add
open_gaps-add g gap = open_gaps-append_or_join g (clamp gap) (join_newest (clamp gap) g.pending)

-- Where the capacity has room for the 21 pairs of a kind and a source, closing a source's open
-- interval records a loss of its kind at each instant from its start and before the close, and
-- leaves no interval open for the source.
pub covered-close_gap :
    (g : Gaps) (source : GapSource) (cur : Gap) (to t : ℕ)
    → 21 ≤ capacity g
    → get (source_code source) g.open_gaps ≡ some cur
    → cur.from ≤ t
    → t < to
    → (covered cur.kind cur.source t (close_gap g source to).pending ≡ true)
      × (get (source_code source) (close_gap g source to).open_gaps ≡ none)
unfolding close_gap close_at capacity
covered-close_gap g source cur to t big here low high =
    let h = record g { open_gaps = remove (source_code source) g.open_gaps } in
    let gap = record cur { to = to } in
    rw here (
      covered-add cur.kind cur.source t h gap big
          (unfold covers in ground (arith, eqb_refl (kind_code cur.kind), low, high)),
      ap (get (source_code source)) (open_gaps-add h gap)
          ∙ get-remove (source_code source) (source_code source) g.open_gaps
          ∙ ground arith,
    )

cut_one-IsHeld :
    (to : ℕ) (source : ℕ) (cur : Gap) (g : Gaps) (t : ℕ)
    → 21 ≤ capacity g
    → cut_while_open cur.kind ≡ true
    → cur.from < to
    → cur.from ≤ t
    → t < to
    → IsHeld cur.kind cur.source t (cut_one to (source, cur) g)
unfolding cut_one capacity
cut_one-IsHeld to source cur g t big kind fresh low high =
    let gap = record cur { to = to } in
    let cuts : (not (cut_while_open cur.kind) || not (ltb cur.from to)) ≡ false =
      ground (arith, kind, fresh) in
    rw cuts (
      ground (arith, capacity-add g gap, big),
      covered-add cur.kind cur.source t g gap big (unfold covers in ground (arith, low, high)),
    )

capacity-cut_one :
    (to : ℕ) (o : ℕ × Gap) (g : Gaps) → 21 ≤ capacity g → 21 ≤ capacity (cut_one to o g)
unfolding cut_one capacity
capacity-cut_one to (source, cur) g big =
    elim (Bool-cases (not (cut_while_open cur.kind) || not (ltb cur.from to))) [
      | inl e ↦ rw e big
      | inr e ↦ rw e (ground (arith, capacity-add g (record cur { to = to }), big))
    ]

cut_each-IsHeld :
    (to : ℕ) (source : ℕ) (cur : Gap) (os : List (ℕ × Gap)) (g : Gaps) (t : ℕ)
    → Member (source, cur) os
    → 21 ≤ capacity g
    → cut_while_open cur.kind ≡ true
    → cur.from < to
    → cur.from ≤ t
    → t < to
    → IsHeld cur.kind cur.source t (cut_each to os g)
unfolding cut_each
cut_each-IsHeld to source cur [] g t m big kind fresh low high = absurd m
cut_each-IsHeld to source cur (o ∷ os) g t (inl e) big kind fresh low high =
    kept-cut_each (IsHeld cur.kind cur.source t) (IsKept-IsHeld cur.kind cur.source t) to os
      (cut_one to o g)
      (subst (λ x. IsHeld cur.kind cur.source t (cut_one to x g)) e
        (cut_one-IsHeld to source cur g t big kind fresh low high))
cut_each-IsHeld to source cur (o ∷ os) g t (inr m) big kind fresh low high =
    cut_each-IsHeld to source cur os (cut_one to o g) t m (capacity-cut_one to o g big) kind fresh
      low high

-- Where the capacity has room for the 21 pairs of a kind and a source, cutting the open intervals
-- records, for each one of a kind that is cut while it is open and that started before the cut, a
-- loss of its kind at each instant from its start and before the cut.
pub covered-cut_open :
    (g : Gaps) (source : ℕ) (cur : Gap) (to t : ℕ)
    → 21 ≤ capacity g
    → Member (source, cur) g.open_gaps
    → cut_while_open cur.kind ≡ true
    → cur.from < to
    → cur.from ≤ t
    → t < to
    → covered cur.kind cur.source t (cut_open g to).pending ≡ true
unfolding cut_open
covered-cut_open g source cur to t big m kind fresh low high =
    (cut_each-IsHeld to source cur g.open_gaps g t m big kind fresh low high).1
