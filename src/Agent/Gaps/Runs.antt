-- ===== src/Agent/Gaps/Runs.antt =====
-- internal/agent/collect/gaps.go: whatever sequence of calls the agent makes, the held gaps stay
-- within the capacity and no recorded loss is forgotten before it is taken.
use innerwall.Prelude.Tests.{
  ℕ, ◌+◌, ◌%◌, ◌^◌, ◌≤◌, ◌≡◌, refl, inl, inr, Bool, true, false, not, ◌||◌, Option, none, some,
  List, [], ◌∷◌, ◌++◌, ◌==◌, ltb, arith, Bool-cases, length,
}
use innerwall.Prelude.Order.{nat_order}
use innerwall.Prelude.Dict.{get, put, remove}
use innerwall.Agent.Gaps.{
  GapKind, GapSource, kind_code, source_code, Gap, Gaps, capacity, shrink, Newest, absent, apart,
  joined, append_or_join, join_newest, clamp, add, record_gap, overrun, opened, open_over, open_gap,
  close_at, close_gap, cut_while_open, cut_one, cut_each, cut_open, take_gaps, restore,
}
use innerwall.Agent.Gaps.Bound.{IsBounded, length-shrink, IsBounded-add}
use innerwall.Agent.Gaps.Covers.{covered, covered-append, covered-shrink, covered-add}

-- A call on the record of gaps.
pub data GapCall : Type 0 where
  record_call : Gap → GapCall
  open_call : GapSource → GapKind → ℕ → GapCall
  close_call : GapSource → ℕ → GapCall
  cut_call : ℕ → GapCall
  restore_call : List Gap → GapCall
  overrun_call : GapCall
  take_call : GapCall

unfoldable pub after_call : GapCall → Gaps → Gaps
after_call (record_call gap) g = record_gap g gap
after_call (open_call source kind from) g = open_gap g source kind from
after_call (close_call source to) g = close_gap g source to
after_call (cut_call to) g = cut_open g to
after_call (restore_call ps) g = restore g ps
after_call overrun_call g = overrun g
after_call take_call g = (take_gaps g).1

abbrev pub is_take : GapCall → Bool
is_take (record_call gap) = false
is_take (open_call _ kind from) = false
is_take (close_call _ to) = false
is_take (cut_call to) = false
is_take (restore_call ps) = false
is_take overrun_call = false
is_take take_call = true

-- Some call is a take.
unfoldable pub is_taken : List GapCall → Bool
is_taken [] = false
is_taken (c ∷ cs) = is_take c || is_taken cs

unfoldable pub after_calls : List GapCall → Gaps → Gaps
unfolding after_call
after_calls [] g = g
after_calls (c ∷ cs) g = after_calls cs (after_call c g)

-- A property of the held gaps and the limit that `add` and `shrink` keep, all other calls keep.
pub record IsKept (P : Gaps → Type 0) : Type 0 where
  pub adds : (g : Gaps) (gap : Gap) → P g → P (add g gap)
  pub opens : (g : Gaps) (os : List (ℕ × Gap)) → P g → P (record g { open_gaps = os })
  pub counts : (g : Gaps) (n : ℕ) → P g → P (record g { overruns = n })
  pub restores :
      (g : Gaps) (ps : List Gap) → P g → P (shrink (record g { pending = ps ++ g.pending }))

module _ (P : Gaps → Type 0) (keep : IsKept P) where
  kept-open_over :
      (g : Gaps) (source : GapSource) (kind : GapKind) (from : ℕ) (o : Option Gap)
      → P g
      → P (open_over g source kind from o)
  unfolding open_over
  kept-open_over g source kind from none h =
      keep.opens g (put (source_code source) (opened source kind from) g.open_gaps) h
  kept-open_over g source kind from (some cur) h =
      elim (Bool-cases (kind_code cur.kind == kind_code kind)) [
        | inl e ↦ rw e h
        | inr e ↦ rw e (
            keep.opens (add g (record cur { to = from }))
              (put (source_code source) (opened source kind from)
                (add g (record cur { to = from })).open_gaps)
              (keep.adds g (record cur { to = from }) h))
      ]

  kept-close_at :
      (g : Gaps) (source : GapSource) (to : ℕ) (o : Option Gap) → P g → P (close_at g source to o)
  unfolding close_at
  kept-close_at g _ to none h = h
  kept-close_at g source to (some cur) h =
      keep.adds (record g { open_gaps = remove (source_code source) g.open_gaps })
        (record cur { to = to }) (keep.opens g (remove (source_code source) g.open_gaps) h)

  pub kept-cut_one : (to : ℕ) (o : ℕ × Gap) (g : Gaps) → P g → P (cut_one to o g)
  unfolding cut_one
  kept-cut_one to (source, cur) g h =
      elim (Bool-cases (not (cut_while_open cur.kind) || not (ltb cur.from to))) [
        | inl e ↦ rw e h
        | inr e ↦ rw e (
            keep.opens (add g (record cur { to = to }))
              (put source (record cur { from = to }) (add g (record cur { to = to })).open_gaps)
              (keep.adds g (record cur { to = to }) h))
      ]

  pub kept-cut_each : (to : ℕ) (os : List (ℕ × Gap)) (g : Gaps) → P g → P (cut_each to os g)
  unfolding cut_each
  kept-cut_each to [] g h = h
  kept-cut_each to (o ∷ os) g h = kept-cut_each to os (cut_one to o g) (kept-cut_one to o g h)

  kept-restore : (g : Gaps) (ps : List Gap) → P g → P (restore g ps)
  unfolding restore
  kept-restore g [] h = h
  kept-restore g (p ∷ ps) h = keep.restores g (p ∷ ps) h

  kept-after_call :
      (c : GapCall) (g : Gaps) → (is_take c ≡ true → P (take_gaps g).1) → P g → P (after_call c g)
  unfolding after_call record_gap open_gap close_gap cut_open overrun
  kept-after_call (record_call gap) g t h = keep.adds g gap h
  kept-after_call (open_call source kind from) g t h =
      kept-open_over g source kind from (get (source_code source) g.open_gaps) h
  kept-after_call (close_call source to) g t h =
      kept-close_at g source to (get (source_code source) g.open_gaps) h
  kept-after_call (cut_call to) g t h = kept-cut_each to g.open_gaps g h
  kept-after_call (restore_call ps) g t h = kept-restore g ps h
  kept-after_call overrun_call g t h = keep.counts g ((g.overruns + 1) % 2 ^ 64) h
  kept-after_call take_call g t h = t refl

IsKept-IsBounded : IsKept IsBounded
unfolding capacity shrink
IsKept-IsBounded = record {
  adds = IsBounded-add;
  opens = λ g os h. h;
  counts = λ g n h. h;
  restores = λ g ps h. length-shrink (record g { pending = ps ++ g.pending });
}

-- Whatever calls are made, from gaps within the capacity the held gaps stay within it.
pub IsBounded-after_calls :
    (cs : List GapCall) (g : Gaps)
    → length g.pending ≤ capacity g
    → length (after_calls cs g).pending ≤ capacity (after_calls cs g)
unfolding after_calls
IsBounded-after_calls [] g h = h
IsBounded-after_calls (c ∷ cs) g h =
    IsBounded-after_calls cs (after_call c g)
      (kept-after_call IsBounded IsKept-IsBounded c g (λ t. unfold take_gaps in ground arith) h)

capacity-append_or_join :
    (g : Gaps) (gap : Gap) (r : Newest) → capacity (append_or_join g gap r) ≡ capacity g
unfolding capacity append_or_join shrink
capacity-append_or_join g gap absent = refl
capacity-append_or_join g gap apart = refl
capacity-append_or_join g gap (joined qs) = refl

pub capacity-add : (g : Gaps) (gap : Gap) → capacity (add g gap) ≡ capacity g
unfolding add
capacity-add g gap = capacity-append_or_join g (clamp gap) (join_newest (clamp gap) g.pending)

module _ (kind : GapKind) (source : GapSource) (t : ℕ) where
  -- A loss at the instant is held, in a record with room for every kind and source.
  abbrev pub IsHeld : Gaps → Type 0
  IsHeld g = (21 ≤ capacity g) × (covered kind source t g.pending ≡ true)

  pub IsKept-IsHeld : IsKept IsHeld
  unfolding capacity
  IsKept-IsHeld = record {
    adds = λ g gap h. (
      ground (arith, capacity-add g gap, h.0),
      covered-add kind source t g gap h.0 (ground (arith, h.1)),
    );
    opens = λ g os h. h;
    counts = λ g n h. h;
    restores = λ g ps h. (
      unfold shrink in h.0,
      covered-shrink kind source t (record g { pending = ps ++ g.pending }) h.0
          (ground (arith, covered-append kind source t ps g.pending, h.1)),
    );
  }

  -- A loss that is held stays held, at each of its instants, through any calls but a take, where
  -- the capacity has room for every pair of a kind and a source.
  pub covered-after_calls :
      (cs : List GapCall) (g : Gaps)
      → is_taken cs ≡ false
      → 21 ≤ capacity g
      → covered kind source t g.pending ≡ true
      → covered kind source t (after_calls cs g).pending ≡ true
  unfolding after_calls is_taken
  covered-after_calls [] g n big h = h
  covered-after_calls (c ∷ cs) g n big h =
      let (big', h') =
        kept-after_call IsHeld IsKept-IsHeld c g (λ e. ground (arith, e, n)) (big, h) in
      covered-after_calls cs (after_call c g) (ground (arith, n)) big' h'
