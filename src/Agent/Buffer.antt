-- ===== src/Agent/Buffer.antt =====
-- internal/agent/collect/buffer.go: the bounded buffer of closed windows between the collector and the
-- reporter. The lock and the channel that wakes a waiting reader are left out: each operation is one
-- step, and a Pop that finds nothing is a wait. A record is whatever a window carries. The laws are in
-- the module below.
pub mod Trim
pub mod Newest
use innerwall.Prelude.Tests.{
  ℕ, zero, suc, ◌+◌, ◌-◌, ◌%◌, ◌^◌, Bool, true, false, Option, none, some, List, [], ◌∷◌, ◌++◌, ltb,
  ◌==◌, if◌then◌else◌, length, map_option,
}
use innerwall.Agent.Gaps.{Gap, Gaps, buffer_overflow, no_source, record_gap}

pub record Window (R : Type 0) : Type 0 where
  pub start : ℕ
  pub end : ℕ
  pub records : List R

-- `gaps` is none where the pointer is nil.
pub record Buffer (R : Type 0) : Type 0 where
  pub gaps : Option Gaps
  pub windows : List (Window R)
  pub records : ℕ
  pub capacity : ℕ
  pub dropped : ℕ

abbrev pub default_buffer_records : ℕ
default_buffer_records = 50000

abbrev pub drop {ℓ} : {A : Type ℓ} → ℕ → List A → List A
drop n [] = []
drop zero (x ∷ xs) = x ∷ xs
drop (suc n) (x ∷ xs) = drop n xs

module _ {R : Type 0} where
  -- `NewBuffer`, whose capacity here is 0 where the source's is not positive.
  unfoldable pub new_buffer : Option Gaps → ℕ → Buffer R
  new_buffer gaps capacity = record {
    gaps = gaps;
    windows = [];
    records = 0;
    capacity = if capacity == 0 then default_buffer_records else capacity;
    dropped = 0;
  }

  abbrev pub overflow_gap : Window R → ℕ → Gap
  overflow_gap w n = record {
    kind = buffer_overflow;
    source = no_source;
    from = w.start;
    to = w.end;
    count = n;
    has_count = true;
  }

  pub overflow : Window R → ℕ → Buffer R → Buffer R
  overflow w n b = if n == 0 then b else record b {
    dropped = (b.dropped + n) % 2 ^ 64;
    gaps = map_option (λ g. record_gap g (overflow_gap w n)) b.gaps;
  }

  -- The loop of `trim`, over the windows that are left.
  pub trim_windows : List (Window R) → Buffer R → Buffer R
  unfolding overflow
  trim_windows [] b = record b { windows = [] }
  trim_windows (w ∷ []) b = record b { windows = w ∷ [] }
  trim_windows (w ∷ v ∷ ws) b =
      let n = length w.records in
      let rest = trim_windows (v ∷ ws) (overflow w n (record b { records = b.records - n })) in
      if ltb b.capacity b.records then rest else record b { windows = w ∷ v ∷ ws }

  -- A single window larger than the capacity is cut to fit.
  pub cut_single : List (Window R) → Buffer R → Buffer R
  unfolding overflow
  cut_single [] b = b
  cut_single (w ∷ v ∷ ws) b = b
  cut_single (w ∷ []) b =
      let excess = b.records - b.capacity in
      let cut = record w { records = drop excess w.records } in
      if ltb b.capacity b.records
      then overflow cut excess (record b { windows = cut ∷ []; records = b.records - excess })
      else b

  unfoldable pub trim : Buffer R → Buffer R
  unfolding trim_windows cut_single
  trim b = let c = trim_windows b.windows b in cut_single c.windows c

  -- `Push`; a nil window, like an empty one, changes nothing.
  unfoldable pub push : Window R → Buffer R → Buffer R
  unfolding trim
  push w b =
      if length w.records == 0
      then b
      else trim (record b { windows = b.windows ++ w ∷ []; records = b.records + length w.records })

  -- `Requeue`.
  unfoldable pub requeue : Window R → Buffer R → Buffer R
  unfolding trim
  requeue w b =
      if length w.records == 0
      then b
      else trim (record b { windows = w ∷ b.windows; records = b.records + length w.records })

  carry_onto : Window R → List (Window R) → Buffer R → Buffer R
  carry_onto w [] b = record b { windows = w ∷ [] }
  carry_onto w (v ∷ vs) b = b

  -- `Carry`.
  unfoldable pub carry : Window R → Buffer R → Buffer R
  unfolding carry_onto
  carry w b = carry_onto w b.windows b

  pub popped : List (Window R) → Buffer R → Option (Window R × Buffer R)
  popped [] b = none
  popped (w ∷ ws) b = some (w, record b { windows = ws; records = b.records - length w.records })

  -- `Pop`, where a window is queued.
  unfoldable pub pop : Buffer R → Option (Window R × Buffer R)
  unfolding popped
  pop b = popped b.windows b
