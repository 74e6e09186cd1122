-- ===== src/Sync/Backoff.antt =====
-- internal/agent/sync/daemon.go, Backoff and the loop of Run: the wait before a reconnect. A duration
-- is an int64 number of nanoseconds; the random draw is a parameter.
use innerwall.Prelude.Tests.{
  ℕ, zero, suc, ◌*◌, ◌%◌, ◌^◌, ◌≤◌, ◌<◌, ◌≡◌, Bool, ◌||◌, Option, none, some, ltb, leb, ◌==◌,
  if◌then◌else◌, arith,
}
use innerwall.Sync.Daemon.{
  SessionEnd, reconnect_directed, reenroll_required, second_hello_ack, update_carries_nothing,
}

abbrev pub least : ℕ → ℕ → ℕ
least a b = if ltb a b then a else b

-- `base << k`, as a number of 64 bits: from 2 ^ 63 it stands for a negative one.
abbrev pub shifted : ℕ → ℕ → ℕ
shifted base k = (base * 2 ^ k) % 2 ^ 64

unfoldable pub backoff_ceiling : ℕ → ℕ → ℕ → ℕ
backoff_ceiling attempt base limit =
    let x = shifted base (least attempt 20) in
    if leb (2 ^ 63) x || x == 0 || ltb limit x then limit else x

-- `draw n` stands for `rng.Int64N(n)`.
unfoldable pub backoff : (ℕ → ℕ) → ℕ → ℕ → ℕ → ℕ
unfolding backoff_ceiling
backoff draw attempt base limit = draw (backoff_ceiling attempt base limit)

-- What `Run` does when a session has ended: it returns, or dials again as an attempt after a wait.
pub data AfterSession : Type 0 where
  returns : AfterSession
  redials : ℕ → ℕ → AfterSession

-- An end of none is a stream error, or an end by the control plane.
pub after_end : (ℕ → ℕ) → ℕ → ℕ → ℕ → Option SessionEnd → AfterSession
unfolding backoff
after_end draw base limit attempt (some reenroll_required) = returns
after_end draw base limit attempt (some reconnect_directed) = redials 0 0
after_end draw base limit attempt (some second_hello_ack) =
    redials (suc attempt) (backoff draw (suc attempt) base limit)
after_end draw base limit attempt (some update_carries_nothing) =
    redials (suc attempt) (backoff draw (suc attempt) base limit)
after_end draw base limit attempt none =
    redials (suc attempt) (backoff draw (suc attempt) base limit)

-- A session that was established counts its attempts from nothing.
unfoldable pub after_session : (ℕ → ℕ) → ℕ → ℕ → ℕ → Bool → Option SessionEnd → AfterSession
unfolding after_end
after_session draw base limit attempt established end =
    after_end draw base limit (if established then 0 else attempt) end

backoff_ceiling-range :
    (attempt base limit : ℕ)
    → 0 < limit
    → (0 < backoff_ceiling attempt base limit) × (backoff_ceiling attempt base limit ≤ limit)
unfolding backoff_ceiling
backoff_ceiling-range attempt base limit h = (ground (arith, h), ground (arith, h))

power_positive : (k : ℕ) → 0 < 2 ^ k
power_positive zero = ground arith
power_positive (suc k) = grind (arith, power_positive k)

product_positive : (a b : ℕ) → 0 < a → 0 < b → 0 < a * b
product_positive a b h k = grind arith

ceiling_of :
    (y limit : ℕ)
    → 0 < y
    → y < 2 ^ 63
    → (if leb (2 ^ 63) (y % 2 ^ 64) || y % 2 ^ 64 == 0 || ltb limit (y % 2 ^ 64)
        then limit
        else y % 2 ^ 64)
      ≡ least y limit
ceiling_of y limit h fits = ground arith

backoff_ceiling-least :
    (attempt base limit : ℕ)
    → 0 < base
    → base * 2 ^ least attempt 20 < 2 ^ 63
    → backoff_ceiling attempt base limit ≡ least (base * 2 ^ least attempt 20) limit
unfolding backoff_ceiling
backoff_ceiling-least attempt base limit h fits =
    ceiling_of (base * 2 ^ least attempt 20) limit
      (product_positive base (2 ^ least attempt 20) h (power_positive (least attempt 20))) fits

-- Where draws stay below their bound, the wait before a reconnect is below the limit, even where the
-- doubled base overflows.
pub backoff-limit :
    (draw : ℕ → ℕ) (attempt base limit : ℕ)
    → ((n : ℕ) → 0 < n → draw n < n)
    → 0 < limit
    → backoff draw attempt base limit < limit
unfolding backoff
backoff-limit draw attempt base limit below hl =
    let (positive, small) = backoff_ceiling-range attempt base limit hl in
    omega (arith, below (backoff_ceiling attempt base limit) positive, small)

-- Where draws stay below their bound and the doubled base does not overflow, the wait before a
-- reconnect is below the limit and below the base doubled by the number of attempts, of which 20
-- count at most.
pub backoff-least :
    (draw : ℕ → ℕ) (attempt base limit : ℕ)
    → ((n : ℕ) → 0 < n → draw n < n)
    → 0 < base
    → 0 < limit
    → base * 2 ^ least attempt 20 < 2 ^ 63
    → backoff draw attempt base limit < least (base * 2 ^ least attempt 20) limit
unfolding backoff
backoff-least draw attempt base limit below hb hl fits =
    let (positive, small) = backoff_ceiling-range attempt base limit hl in
    ground (
      arith,
      below (backoff_ceiling attempt base limit) positive,
      backoff_ceiling-least attempt base limit hb fits,
    )
