-- ===== src/Throttle.antt =====
-- internal/api/throttle.go: the limiter of login attempts, a fixed window for each source address in a
-- bounded table. The map of the source indexes the list `order` by key; here the list alone is the
-- table. Instants and lengths of time are numbers of nanoseconds. The laws are in the module below.
pub mod Budget
use innerwall.Prelude.Tests.{
  ℕ, suc, ◌+◌, ◌-◌, Bool, true, false, Option, none, some, List, [], ◌∷◌, ◌++◌, ltb, leb, ◌==◌,
  if◌then◌else◌, length,
}
use innerwall.Prelude.Order.{◌=?◌}
use innerwall.Prelude.Text.{Str, str_order}

abbrev pub throttle_max_sources : ℕ
throttle_max_sources = 4096

abbrev pub default_login_attempts : ℕ
default_login_attempts = 10

-- A minute.
abbrev pub default_login_window : ℕ
default_login_window = 60000000000

pub record AttemptWindow : Type 0 where
  pub key : Str
  pub start : ℕ
  pub count : ℕ

pub record Throttle : Type 0 where
  pub limit : ℕ
  pub window : ℕ
  pub order : List AttemptWindow

abbrev pub attempt_limit : Throttle → ℕ
attempt_limit t = if ltb 0 t.limit then t.limit else default_login_attempts

abbrev pub window_length : Throttle → ℕ
window_length t = if ltb 0 t.window then t.window else default_login_window

-- `t.windows[key]`.
unfoldable pub find_window : Str → List AttemptWindow → Option AttemptWindow
find_window key [] = none
find_window key (w ∷ ws) = if w.key =? key then some w else find_window key ws

-- An assignment through the pointer that the list holds.
pub replace_window : AttemptWindow → List AttemptWindow → List AttemptWindow
replace_window v [] = []
replace_window v (w ∷ ws) = if w.key =? v.key then v ∷ ws else w ∷ replace_window v ws

pub without_window : Str → List AttemptWindow → List AttemptWindow
without_window key [] = []
without_window key (w ∷ ws) = if w.key =? key then ws else w ∷ without_window key ws

-- `makeRoom`.
pub make_room : List AttemptWindow → List AttemptWindow
make_room [] = []
make_room (w ∷ ws) =
    let rest = make_room ws in if leb throttle_max_sources (length (w ∷ ws)) then rest else w ∷ ws

-- Whether the attempt is within the budget, and if not the time until the window resets.
abbrev pub verdict : Throttle → ℕ → AttemptWindow → Bool × ℕ
verdict t now w =
    if ltb (attempt_limit t) w.count then (false, w.start + window_length t - now) else (true, 0)

pub allow_found : Str → ℕ → Throttle → Option AttemptWindow → (Bool × ℕ) × Throttle
unfolding replace_window without_window make_room
allow_found key now t none =
    let w : AttemptWindow = record { key = key; start = now; count = 1 } in
    (verdict t now w, record t { order = make_room t.order ++ w ∷ [] })
allow_found key now t (some w) =
    let again : AttemptWindow = record w { start = now; count = 1 } in
    let more : AttemptWindow = record w { count = suc w.count } in
    if leb (w.start + window_length t) now
    then (verdict t now again, record t { order = without_window key t.order ++ again ∷ [] })
    else (verdict t now more, record t { order = replace_window more t.order })

-- `Allow`.
unfoldable pub allow : Str → ℕ → Throttle → (Bool × ℕ) × Throttle
unfolding allow_found
allow key now t = allow_found key now t (find_window key t.order)
