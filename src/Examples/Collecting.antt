-- ===== src/Examples/Collecting.antt =====
-- Runs of the agent's record of gaps and of its buffer of windows.
use innerwall.Prelude.Tests.{
  ℕ, ◌++◌, ◌≤◌, ◌≡◌, refl, true, false, none, some, inl, List, [], ◌∷◌, length, arith,
}
use innerwall.Prelude.Order.{nat_order}
use innerwall.Prelude.Dict.{get}
use innerwall.Agent.Gaps.{
  Gap, Gaps, source_code, conntrack, nflog, source_restart, table_removed, capacity, close_gap,
  cut_open,
}
use innerwall.Agent.Gaps.Covers.{covers, covered}
use innerwall.Agent.Gaps.Runs.{
  GapCall, record_call, open_call, close_call, cut_call, take_call, is_taken, after_calls,
  IsBounded-after_calls, covered-after_calls,
}
use innerwall.Agent.Gaps.Closing.{covered-close_gap, covered-cut_open}
use innerwall.Agent.Buffer.{Window, Buffer, push, pop}
use innerwall.Agent.Buffer.Trim.{records_of, IsTrim}
use innerwall.Agent.Buffer.Newest.{IsSound, push-IsTrim, pop-IsSound}

abbrev restart : Gap
restart = record {
  kind = source_restart;
  source = conntrack;
  from = 10;
  to = 20;
  count = 0;
  has_count = false;
}

abbrev removed : Gap
removed = record restart { kind = table_removed; source = nflog; from = 12; to = 0 }

abbrev gaps : Gaps
gaps = record { limit = 0; pending = restart ∷ []; open_gaps = (2, removed) ∷ []; overruns = 1 }

abbrev calls : List GapCall
calls =
    open_call conntrack source_restart 30
    ∷ record_call restart
    ∷ close_call conntrack 40
    ∷ cut_call 50
    ∷ []

IsBounded-after_calls_example :
    length (after_calls (take_call ∷ calls) gaps).pending
    ≤ capacity (after_calls (take_call ∷ calls) gaps)
unfolding capacity
IsBounded-after_calls_example = IsBounded-after_calls (take_call ∷ calls) gaps (ground arith)

covered-after_calls_example :
    covered source_restart conntrack 15 (after_calls calls gaps).pending ≡ true
unfolding capacity covers covered is_taken
covered-after_calls_example =
    covered-after_calls source_restart conntrack 15 calls gaps refl (ground arith) refl

covered-close_gap_example :
    (covered table_removed nflog 13 (close_gap gaps nflog 15).pending ≡ true)
    × (get (source_code nflog) (close_gap gaps nflog 15).open_gaps ≡ none)
unfolding capacity get
covered-close_gap_example =
    covered-close_gap gaps nflog removed 15 13 (ground arith) refl (ground arith) (ground arith)

covered-cut_open_example : covered table_removed nflog 13 (cut_open gaps 15).pending ≡ true
unfolding capacity
covered-cut_open_example =
    covered-cut_open gaps 2 removed 15 13 (ground arith) (inl refl) refl (ground arith)
      (ground arith) (ground arith)

abbrev two : Window ℕ
two = record { start = 1; end = 2; records = 11 ∷ 12 ∷ [] }

abbrev three : Window ℕ
three = record { start = 2; end = 3; records = 21 ∷ 22 ∷ 23 ∷ [] }

abbrev buffer : Buffer ℕ
buffer = record { gaps = some gaps; windows = two ∷ []; records = 2; capacity = 4; dropped = 7 }

push-IsTrim_example :
    IsTrim (buffer.windows ++ three ∷ []) buffer.dropped buffer.capacity (push three buffer)
unfolding records_of
push-IsTrim_example = push-IsTrim three buffer (refl, ground arith, ground arith)

pop-IsSound_example :
    (two.records ++ records_of (record buffer { windows = []; records = 0 }).windows
      ≡ records_of buffer.windows)
    × ((record buffer { windows = []; records = 0 }).dropped ≡ buffer.dropped)
    × IsSound (record buffer { windows = []; records = 0 })
unfolding records_of pop
pop-IsSound_example =
    pop-IsSound buffer (record buffer { windows = []; records = 0 }) two
      (refl, ground arith, ground arith) refl
