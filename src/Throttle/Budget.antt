-- ===== src/Throttle/Budget.antt =====
-- internal/api/throttle.go: the bound of the table, and the budget of a source's window.
use innerwall.Prelude.Tests.{
  ℕ, suc, ◌+◌, ◌-◌, ◌≤◌, ◌<◌, ◌≡◌, refl, sym, ◌∙◌, ap, inl, inr, Bool, true, false, some, List, [],
  ◌∷◌, ltb, leb, if◌then◌else◌, length, length-append, Bool-cases, Option-cases, All, arith,
}
use mathlib.Core.Path.{subst}
use innerwall.Prelude.Order.{◌=?◌, eqb→≡, eqb_refl}
use innerwall.Prelude.Text.{Str, str_order}
use innerwall.Throttle.{
  throttle_max_sources, AttemptWindow, Throttle, attempt_limit, window_length, find_window,
  replace_window, without_window, make_room, verdict, allow_found, allow,
}

length-make_room : (ws : List AttemptWindow) → suc (length (make_room ws)) ≤ throttle_max_sources
unfolding make_room
length-make_room [] = ground arith
length-make_room (w ∷ ws) = ground (arith, length-make_room ws)

length-replace_window :
    (v : AttemptWindow) (ws : List AttemptWindow) → length (replace_window v ws) ≡ length ws
unfolding replace_window
length-replace_window v [] = refl
length-replace_window v (w ∷ ws) = ground (arith, length-replace_window v ws)

length-without_window :
    (key : Str) (ws : List AttemptWindow) (w : AttemptWindow)
    → find_window key ws ≡ some w
    → suc (length (without_window key ws)) ≡ length ws
unfolding without_window find_window
length-without_window key [] w h = cc
length-without_window key (v ∷ ws) w h = elim (Bool-cases (v.key =? key)) [
  | inl e ↦ rw e refl
  | inr e ↦ rw e (ground (arith, length-without_window key ws w (rw e at h)))
]

-- An attempt of any source leaves a table that is within its bound within it.
pub length-allow :
    (key : Str) (now : ℕ) (t : Throttle)
    → length t.order ≤ throttle_max_sources
    → length (allow key now t).1.order ≤ throttle_max_sources
unfolding allow allow_found
length-allow key now t h = elim (Option-cases (find_window key t.order)) [
  | inl n ↦ rw n (
      ground (
        arith,
        length-make_room t.order,
        length-append (make_room t.order) (record { key = key; start = now; count = 1 } ∷ []),
      ))
  | inr (w, e) ↦ elim (Bool-cases (leb (w.start + window_length t) now)) [
    | inl over ↦ rw e (
        rw over (
          ground (
            arith,
            h,
            length-without_window key t.order w e,
            length-append (without_window key t.order) (record w { start = now; count = 1 } ∷ []),
          )))
    | inr within ↦ rw e (
        rw within
          (ground (arith, h, length-replace_window (record w { count = suc w.count }) t.order)))
  ]
]

found_key :
    (key : Str) (w : AttemptWindow) (ws : List AttemptWindow)
    → find_window key ws ≡ some w
    → w.key ≡ key
unfolding find_window
found_key key w [] h = cc
found_key key w (u ∷ ws) h = elim (Bool-cases (u.key =? key)) [
  | inl e ↦
      let same : u ≡ w = cc ((rw e at h)) in
      ap (λ (x : AttemptWindow). x.key) (sym same) ∙ eqb→≡ u.key key e
  | inr e ↦ found_key key w ws (rw e at h)
]

find-replace_window :
    (v w : AttemptWindow) (ws : List AttemptWindow)
    → find_window v.key ws ≡ some w
    → find_window v.key (replace_window v ws) ≡ some v
unfolding find_window replace_window
find-replace_window v w [] h = cc
find-replace_window v w (u ∷ ws) h = elim (Bool-cases (u.key =? v.key)) [
  | inl e ↦ rw e (rw (eqb_refl v.key) refl)
  | inr e ↦ rw e (rw e (find-replace_window v w ws (rw e at h)))
]

-- The attempts of a source, and how many of them are within the budget.
unfoldable pub allowed : Str → List ℕ → Throttle → ℕ
allowed key [] t = 0
allowed key (now ∷ times) t =
    let rest = allowed key times (allow key now t).1 in
    if (allow key now t).0.0 then suc rest else rest

allow_within :
    (key : Str) (now : ℕ) (t : Throttle) (w : AttemptWindow)
    → find_window key t.order ≡ some w
    → now < w.start + window_length t
    → allow key now t ≡ (
      verdict t now (record w { count = suc w.count }),
      record t { order = replace_window (record w { count = suc w.count }) t.order },
    )
unfolding allow allow_found
allow_within key now t w h within =
    let late : leb (w.start + window_length t) now ≡ false = ground (arith, within) in
    rw h (rw late refl)

-- Of consecutive attempts of one source, with no attempt of another source between them, that come
-- before the source's window ends, as many are let through as the limit leaves.
pub allowed-within :
    (key : Str) (times : List ℕ) (t : Throttle) (w : AttemptWindow)
    → find_window key t.order ≡ some w
    → All (λ now. now < w.start + window_length t) times
    → allowed key times t ≡ (
        if leb (w.count + length times) (attempt_limit t)
        then length times
        else attempt_limit t - w.count)
unfolding allowed
allowed-within key [] t w h all = ground arith
allowed-within key (now ∷ times) t w h all =
    let more = record w { count = suc w.count } in
    let next = record t { order = replace_window more t.order } in
    let same : w.key ≡ key = found_key key w t.order h in
    let rest =
      allowed-within key times next more
        (ap (λ k. find_window k (replace_window more t.order)) (sym same)
          ∙ find-replace_window more w t.order (ap (λ k. find_window k t.order) same ∙ h))
        all.1 in
    rw (allow_within key now t w h all.0) (ground (arith, rest))

allow_late :
    (key : Str) (now : ℕ) (t : Throttle) (w : AttemptWindow)
    → find_window key t.order ≡ some w
    → w.start + window_length t ≤ now
    → (allow key now t).0 ≡ (true, 0)
unfolding allow allow_found
allow_late key now t w h over =
    let late : leb (w.start + window_length t) now ≡ true = ground (arith, over) in
    let fits : ltb (attempt_limit t) 1 ≡ false = ground arith in rw h (rw late (rw fits refl))

-- A refusal before a window ends names the time after which the same source is let through.
pub allow-retry :
    (key : Str) (now : ℕ) (t : Throttle) (w : AttemptWindow)
    → find_window key t.order ≡ some w
    → now < w.start + window_length t
    → (allow key now t).0.0 ≡ false
    → (allow key (now + (allow key now t).0.1) (allow key now t).1).0 ≡ (true, 0)
allow-retry key now t w h within refused =
    let more = record w { count = suc w.count } in
    let next = record t { order = replace_window more t.order } in
    let same = found_key key w t.order h in
    let step = allow_within key now t w h within in
    let here =
      ap (λ k. find_window k (replace_window more t.order)) (sym same)
      ∙ find-replace_window more w t.order (ap (λ k. find_window k t.order) same ∙ h) in
    let wait : w.start + window_length t ≤ now + (allow key now t).0.1 =
      ground (arith, ap (λ (x : (Bool × ℕ) × Throttle). x.0) step, refused) in
    subst
      (λ (x : (Bool × ℕ) × Throttle). (allow key (now + (allow key now t).0.1) x.1).0 ≡ (true, 0))
      (sym step) (allow_late key (now + (allow key now t).0.1) next more here wait)
