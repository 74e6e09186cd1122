-- ===== src/Examples/Windows.antt =====
-- Runs of the agent's open window, with a bound of one key.
use innerwall.Prelude.Tests.{
  ℕ, ◌≤◌, ◌≡◌, refl, none, some, List, [], ◌∷◌, length, Member, true, arith,
}
use innerwall.Prelude.Order.{nat_order}
use innerwall.Prelude.Dict.{get, put, keys}
use innerwall.Prelude.Text.{Str}
use innerwall.Compiler.{tcp}
use innerwall.Agent.Aggregator.{
  Key, Observation, key_order, key_of, Tally, Aggregator, FlowRecord, observe, close,
}
use innerwall.Agent.Aggregator.Cut.{IsReport, close-IsReport}
use innerwall.Agent.Aggregator.Folds.{observe_all, tally_of, get-observe_all, length-observe_all}

abbrev seen : Observation ℕ
seen = record {
  at = 10;
  src = 300;
  dst = 301;
  dst_port = 443;
  protocol = tcp;
  decision = 1;
  rule_id = [];
  connections = 1;
  bytes = 0;
  process_name = [];
}

abbrev observations : List (Observation ℕ)
observations =
    seen ∷ record seen { src = 299 } ∷ record seen { at = 5; connections = 0; bytes = 80 } ∷ []

abbrev window : Aggregator ℕ
window = record { gaps = none; start = 0; records = []; max_keys = 1; dropped = 0; first_drop = 0 }

held : (r : Tally) × (get (key_of seen) (observe_all observations window).records ≡ some r)
unfolding observe_all observe get put
held = (_, refl)

get-observe_all_example :
    tally_of (key_of seen) observations (get (key_of seen) window.records) ≡ some held.0
get-observe_all_example = get-observe_all (key_of seen) observations window held.0 held.1

length-observe_all_example :
    length (observe_all observations window).records ≤ (observe_all observations window).max_keys
length-observe_all_example = length-observe_all observations window (ground arith)

abbrev text_of : ℕ → Str
text_of n = n ∷ []

-- The window's clock stepped back: it starts after an observation, and the next one starts earlier.
abbrev late_window : Aggregator ℕ
late_window = record (observe_all observations window) { start = 7 }

close-IsReport_example :
    (length (close text_of 20 5 true late_window).0.records ≡ length (keys late_window.records))
    × ((k : Key ℕ) (r : Tally)
        → get k late_window.records ≡ some r
        → (f : FlowRecord) × Member f (close text_of 20 5 true late_window).0.records
          × IsReport text_of 7 20 k r f)
    × ((f : FlowRecord)
        → Member f (close text_of 20 5 true late_window).0.records
        → (k : Key ℕ) × (r : Tally) × (get k late_window.records ≡ some r)
          × IsReport text_of 7 20 k r f)
    × ((close text_of 20 5 true late_window).1.records ≡ [])
    × ((close text_of 20 5 true late_window).1.start ≡ 5)
    × ((close text_of 20 5 true late_window).1.dropped ≡ 0)
close-IsReport_example = close-IsReport text_of 20 5 late_window (ground arith)
