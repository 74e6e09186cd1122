-- ===== src/Examples/Logins.antt =====
-- Runs of the limiter of login attempts, with two attempts in ten instants.
use innerwall.Prelude.Tests.{
  ℕ, ◌+◌, ◌-◌, ◌≡◌, refl, true, List, [], ◌∷◌, length, leb, if◌then◌else◌, arith,
}
use innerwall.Prelude.Text.{codes}
use innerwall.Throttle.{AttemptWindow, Throttle, attempt_limit, find_window, allow}
use innerwall.Throttle.Budget.{allowed, allowed-within, allow-retry}

abbrev attempted : AttemptWindow
attempted = record { key = codes "::1"; start = 5; count = 1 }

abbrev throttle : Throttle
throttle = record { limit = 2; window = 10; order = attempted ∷ [] }

abbrev times : List ℕ
times = 6 ∷ 7 ∷ 8 ∷ []

allowed-within_example : allowed (codes "::1") times throttle ≡ (
    if leb (attempted.count + length times) (attempt_limit throttle)
    then length times
    else attempt_limit throttle - attempted.count)
unfolding find_window
allowed-within_example =
    allowed-within (codes "::1") times throttle attempted refl
      (ground arith, (ground arith, (ground arith, tt)))

abbrev exhausted : Throttle
exhausted = record throttle { order = record attempted { count = 2 } ∷ [] }

allow-retry_example :
    (allow
      (codes "::1")
      (8 + (allow (codes "::1") 8 exhausted).0.1)
      (allow (codes "::1") 8 exhausted).1).0
    ≡ (true, 0)
unfolding find_window allow
allow-retry_example =
    allow-retry (codes "::1") 8 exhausted (record attempted { count = 2 }) refl (ground arith) refl
