-- ===== src/Agent/Gaps.antt =====
-- internal/agent/collect/gaps.go: the agent's record of the intervals in which its flow evidence is
-- incomplete. An instant is a number of nanoseconds; logging is left out. The laws are in the modules
-- below.
pub mod Covers
pub mod Bound
pub mod Keys
pub mod Runs
pub mod Closing
use innerwall.Prelude.Tests.{
  ℕ, zero, suc, ◌+◌, ◌%◌, ◌^◌, ◌≡◌, Bool, true, false, not, ◌&&◌, ◌||◌, Option, none, some, List,
  [], ◌∷◌, ◌++◌, ltb, ◌==◌, if◌then◌else◌, length,
}
use innerwall.Prelude.Order.{nat_order}
use innerwall.Prelude.Dict.{get, put, remove}

pub data GapKind : Type 0 where
  source_overrun : GapKind
  source_restart : GapKind
  buffer_overflow : GapKind
  dump_truncated : GapKind
  window_overflow : GapKind
  window_rejected : GapKind
  table_removed : GapKind

pub data GapSource : Type 0 where
  no_source : GapSource
  conntrack : GapSource
  nflog : GapSource

-- Equality of the source's string constants, by a number for each.
abbrev pub kind_code : GapKind → ℕ
kind_code source_overrun = 1
kind_code source_restart = 2
kind_code buffer_overflow = 3
kind_code dump_truncated = 4
kind_code window_overflow = 5
kind_code window_rejected = 6
kind_code table_removed = 7

abbrev pub source_code : GapSource → ℕ
source_code no_source = 0
source_code conntrack = 1
source_code nflog = 2

pub record Gap : Type 0 where
  pub kind : GapKind
  pub source : GapSource
  pub from : ℕ
  pub to : ℕ
  pub count : ℕ
  pub has_count : Bool

-- `open_gaps` is the map `open`, keyed by the source's code. `limit` is the Capacity field.
pub record Gaps : Type 0 where
  pub limit : ℕ
  pub pending : List Gap
  pub open_gaps : List (ℕ × Gap)
  pub overruns : ℕ

abbrev pub default_gap_capacity : ℕ
default_gap_capacity = 1024

unfoldable pub capacity : Gaps → ℕ
capacity g = if ltb 0 g.limit then g.limit else default_gap_capacity

abbrev pub same_loss : Gap → Gap → Bool
same_loss p q = kind_code p.kind == kind_code q.kind && source_code p.source == source_code q.source

-- The comparisons test strictly, as Before and After do.
unfoldable pub merge : Gap → Gap → Gap
merge p gap = record p {
  from = if ltb gap.from p.from then gap.from else p.from;
  to = if ltb p.to gap.to then gap.to else p.to;
  has_count = p.has_count && gap.has_count;
  count = if p.has_count && gap.has_count then (p.count + gap.count) % 2 ^ 64 else 0;
}

pub has_loss : Gap → List Gap → Bool
has_loss p [] = false
has_loss p (q ∷ qs) = same_loss q p || has_loss p qs

pub merge_into : Gap → List Gap → List Gap
unfolding merge
merge_into p [] = []
merge_into p (q ∷ qs) = if same_loss q p then merge q p ∷ qs else q ∷ merge_into p qs

-- One round of the loop of `shrink`: the first gap whose kind and source an earlier one has, merged
-- into the earliest of those; nothing where there is no such gap.
pub merge_oldest : List Gap → List Gap → Option (List Gap)
unfolding has_loss merge_into
merge_oldest seen [] = none
merge_oldest seen (p ∷ ps) =
    if has_loss p seen then some (merge_into p seen ++ ps) else merge_oldest (seen ++ p ∷ []) ps

abbrev pub drop_first : List Gap → List Gap
drop_first [] = []
drop_first (p ∷ ps) = ps

abbrev pub merged_or_dropped : List Gap → Option (List Gap) → List Gap
merged_or_dropped ps (some qs) = qs
merged_or_dropped ps none = drop_first ps

-- Each round shortens the list by one, so that its length bounds the rounds.
pub shrink_rounds : ℕ → ℕ → List Gap → List Gap
unfolding merge_oldest
shrink_rounds zero cap ps = ps
shrink_rounds (suc fuel) cap ps =
    let rest = shrink_rounds fuel cap (merged_or_dropped ps (merge_oldest [] ps)) in
    if ltb cap (length ps) then rest else ps

unfoldable pub shrink : Gaps → Gaps
unfolding shrink_rounds capacity
shrink g = record g { pending = shrink_rounds (length g.pending) (capacity g) g.pending }

-- What the loop of `add` finds from the newest gap back: no gap of the kind and source, one that the
-- new gap does not touch, or the list with the two merged.
pub data Newest : Type 0 where
  absent : Newest
  apart : Newest
  joined : List Gap → Newest

pub join_at : Gap → Gap → List Gap → Newest → Newest
unfolding merge
join_at gap p ps (joined qs) = joined (p ∷ qs)
join_at gap p ps apart = apart
join_at gap p ps absent =
    if not (same_loss p gap)
    then absent
    else if not (ltb p.to gap.from) && not (ltb gap.to p.from)
    then joined (merge p gap ∷ ps)
    else apart

pub join_newest : Gap → List Gap → Newest
unfolding join_at
join_newest gap [] = absent
join_newest gap (p ∷ ps) = join_at gap p ps (join_newest gap ps)

pub append_or_join : Gaps → Gap → Newest → Gaps
unfolding shrink
append_or_join g gap (joined ps) = record g { pending = ps }
append_or_join g gap apart = shrink (record g { pending = g.pending ++ gap ∷ [] })
append_or_join g gap absent = shrink (record g { pending = g.pending ++ gap ∷ [] })

-- A gap that ends before it starts is empty at its start.
abbrev pub clamp : Gap → Gap
clamp gap = record gap { to = if ltb gap.to gap.from then gap.from else gap.to }

unfoldable pub add : Gaps → Gap → Gaps
unfolding append_or_join join_newest
add g gap = let c = clamp gap in append_or_join g c (join_newest c g.pending)

-- `Record`.
unfoldable pub record_gap : Gaps → Gap → Gaps
unfolding add
record_gap g gap = add g gap

unfoldable pub overrun : Gaps → Gaps
overrun g = record g { overruns = (g.overruns + 1) % 2 ^ 64 }

abbrev pub opened : GapSource → GapKind → ℕ → Gap
opened source kind from = record {
  kind = kind;
  source = source;
  from = from;
  to = 0;
  count = 0;
  has_count = false;
}

abbrev pub put_open : GapSource → Gap → Gaps → Gaps
put_open source gap g = record g { open_gaps = put (source_code source) gap g.open_gaps }

pub open_over : Gaps → GapSource → GapKind → ℕ → Option Gap → Gaps
unfolding add
open_over g source kind from none = put_open source (opened source kind from) g
open_over g source kind from (some cur) =
    if kind_code cur.kind == kind_code kind
    then g
    else put_open source (opened source kind from) (add g (record cur { to = from }))

-- `Open`.
unfoldable pub open_gap : Gaps → GapSource → GapKind → ℕ → Gaps
unfolding open_over
open_gap g source kind from = open_over g source kind from (get (source_code source) g.open_gaps)

pub close_at : Gaps → GapSource → ℕ → Option Gap → Gaps
unfolding add
close_at g _ to none = g
close_at g source to (some cur) =
    add (record g { open_gaps = remove (source_code source) g.open_gaps }) (record cur { to = to })

-- `Close`.
unfoldable pub close_gap : Gaps → GapSource → ℕ → Gaps
unfolding close_at
close_gap g source to = close_at g source to (get (source_code source) g.open_gaps)

-- The kinds of `cutWhileOpen`.
abbrev pub cut_while_open : GapKind → Bool
cut_while_open kind = kind_code kind == 7

pub cut_one : ℕ → ℕ × Gap → Gaps → Gaps
unfolding add
cut_one to (source, cur) g =
    if not (cut_while_open cur.kind) || not (ltb cur.from to)
    then g
    else let h = add g (record cur { to = to }) in
      record h { open_gaps = put source (record cur { from = to }) h.open_gaps }

pub cut_each : ℕ → List (ℕ × Gap) → Gaps → Gaps
unfolding cut_one
cut_each to [] g = g
cut_each to (o ∷ os) g = cut_each to os (cut_one to o g)

-- `CutOpen`: the loop ranges over the intervals that were open.
unfoldable pub cut_open : Gaps → ℕ → Gaps
unfolding cut_each
cut_open g to = cut_each to g.open_gaps g

-- `Take`.
unfoldable pub take_gaps : Gaps → List Gap × Gaps
take_gaps g = (g.pending, record g { pending = [] })

-- `Restore`; none of it is done for no gaps.
unfoldable pub restore : Gaps → List Gap → Gaps
unfolding shrink
restore g [] = g
restore g (p ∷ ps) = shrink (record g { pending = (p ∷ ps) ++ g.pending })
