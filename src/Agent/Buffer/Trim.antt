-- ===== src/Agent/Buffer/Trim.antt =====
-- internal/agent/collect/buffer.go: what the buffer keeps, what it drops, and its bound.
use innerwall.Prelude.Tests.{
  ℕ, zero, suc, ◌+◌, ◌-◌, ◌%◌, ◌^◌, ◌≤◌, ◌<◌, ◌≡◌, refl, sym, ◌∙◌, ap, ◌⊎◌, inl, inr, List, [], ◌∷◌,
  ◌++◌, ltb, ◌==◌, length, length-append, Bool-cases, arith, Member,
}
use mathlib.Core.Path.{subst}
use mathlib.Core.List.{append-nil, append_assoc}
use innerwall.Agent.Buffer.{Window, Buffer, overflow, trim_windows, cut_single, drop}

module _ {R : Type 0} where
  -- The records of windows, oldest first.
  unfoldable pub records_of : List (Window R) → List R
  records_of [] = []
  records_of (w ∷ ws) = w.records ++ records_of ws

  -- The buffer counts the records that it holds.
  abbrev pub IsCounted : Buffer R → Type 0
  IsCounted b = b.records ≡ length (records_of b.windows)

  abbrev take_first : ℕ → List R → List R
  take_first zero xs = []
  take_first (suc n) [] = []
  take_first (suc n) (x ∷ xs) = x ∷ take_first n xs

  take_first-drop : (n : ℕ) (xs : List R) → take_first n xs ++ drop n xs ≡ xs
  take_first-drop zero [] = refl
  take_first-drop zero (x ∷ xs) = refl
  take_first-drop (suc n) [] = refl
  take_first-drop (suc n) (x ∷ xs) = ap (λ ys. x ∷ ys) (take_first-drop n xs)

  length-take_first : (n : ℕ) (xs : List R) → n ≤ length xs → length (take_first n xs) ≡ n
  length-take_first zero xs h = refl
  length-take_first (suc n) [] h = ground (arith, h)
  length-take_first (suc n) (x ∷ xs) h = ground (arith, length-take_first n xs)

  pub records_of-append :
      (ws vs : List (Window R)) → records_of (ws ++ vs) ≡ records_of ws ++ records_of vs
  unfolding records_of
  records_of-append [] vs = refl
  records_of-append (w ∷ ws) vs =
      ap (λ xs. w.records ++ xs) (records_of-append ws vs)
      ∙ sym (append_assoc w.records (records_of ws) (records_of vs))

  -- No more is lost than the capacity asks for, where `kept` records stay: nothing is lost, or the
  -- buffer is full, or the last loss is one whole window that has no room beside what stays.
  unfoldable pub IsLeast : List (Window R) → ℕ → List R → ℕ → Type 0
  IsLeast ws most lost kept =
      (lost ≡ [])
      ⊎ (kept ≡ most)
      ⊎ (w : Window R) × Member w ws
        × (earlier : List R) × (lost ≡ earlier ++ w.records)
        × (most < length w.records + kept)

  -- From the records of the windows, the buffer holds the newest; the others are lost, no more than
  -- needed, and counted as dropped on top of `before`.
  pub record IsTrimmed (ws : List (Window R)) (before cap : ℕ) (b : Buffer R) : Type 0 where
    pub lost : List R
    pub newest : lost ++ records_of b.windows ≡ records_of ws
    pub least : IsLeast ws cap lost b.records
    pub counted : IsCounted b
    pub dropped : b.dropped ≡ (before + length lost) % 2 ^ 64
    pub same_capacity : b.capacity ≡ cap

  -- A further window is dropped, from a buffer that is over its capacity.
  IsLeast-drop :
      (w : Window R) (ws : List (Window R)) (cap : ℕ) (lost : List R) (kept : ℕ)
      → (lost ≡ [] → cap < length w.records + kept)
      → IsLeast ws cap lost kept
      → IsLeast (w ∷ ws) cap (w.records ++ lost) kept
  unfolding IsLeast
  IsLeast-drop w ws most lost kept over (inl e) =
      inr (inr (w, inl refl, [], ap (λ xs. w.records ++ xs) e ∙ append-nil w.records, over e))
  IsLeast-drop w ws most lost kept over (inr (inl e)) = inr (inl e)
  IsLeast-drop w ws most lost kept over (inr (inr (v, m, earlier, e, more))) = inr (
      inr (
        v,
        inr m,
        w.records ++ earlier,
        ap (λ xs. w.records ++ xs) e ∙ sym (append_assoc w.records earlier v.records),
        more,
      ))

  abbrev left : Window R → Buffer R → Buffer R
  left w b = overflow w (length w.records) (record b { records = b.records - length w.records })

  -- `overflow` counts the drop and touches nothing else but the record of gaps.
  overflow-fields :
      (w : Window R) (n : ℕ) (b : Buffer R)
      → b.dropped < 2 ^ 64
      → ((overflow w n b).windows ≡ b.windows)
        × ((overflow w n b).records ≡ b.records)
        × ((overflow w n b).capacity ≡ b.capacity)
        × ((overflow w n b).dropped ≡ (b.dropped + n) % 2 ^ 64)
  unfolding overflow
  overflow-fields w n b fits = elim (Bool-cases (n == 0)) [
    | inl e ↦ rw e (refl, refl, refl, ground (arith, e, fits))
    | inr e ↦ rw e (refl, refl, refl, refl)
  ]

  pub trim_windows-IsTrimmed :
      (ws : List (Window R)) (b : Buffer R)
      → b.records ≡ length (records_of ws)
      → b.dropped < 2 ^ 64
      → IsTrimmed ws b.dropped b.capacity (trim_windows ws b)
  unfolding trim_windows records_of IsLeast
  trim_windows-IsTrimmed [] b c fits = record {
    lost = [];
    newest = refl;
    least = inl refl;
    counted = c;
    dropped = ground (arith, fits);
    same_capacity = refl;
  }
  trim_windows-IsTrimmed (w ∷ []) b c fits = record {
    lost = [];
    newest = refl;
    least = inl refl;
    counted = c;
    dropped = ground (arith, fits);
    same_capacity = refl;
  }
  trim_windows-IsTrimmed (w ∷ v ∷ ws) b c fits =
      let (held, number, room, gone) =
        overflow-fields w (length w.records) (record b { records = b.records - length w.records })
          fits in
      let h =
        trim_windows-IsTrimmed (v ∷ ws) (left w b)
          (ground (arith, c, number, length-append w.records (records_of (v ∷ ws))))
          (ground (arith, gone)) in
      elim (Bool-cases (ltb b.capacity b.records)) [
        | inl e ↦ rw e (record {
          lost = w.records ++ h.lost;
          newest =
              append_assoc w.records h.lost (records_of (trim_windows (v ∷ ws) (left w b)).windows)
              ∙ ap (λ xs. w.records ++ xs) h.newest;
          least =
              IsLeast-drop w (v ∷ ws) b.capacity h.lost (trim_windows (v ∷ ws) (left w b)).records
                (λ none_lost. ground (
                  arith,
                  e,
                  c,
                  h.counted,
                  length-append w.records (records_of (v ∷ ws)),
                  ap length (
                      ap (λ xs. xs ++ records_of (trim_windows (v ∷ ws) (left w b)).windows)
                        (sym none_lost)
                      ∙ h.newest),
                ))
                (subst (λ n. IsLeast (v ∷ ws) n h.lost (trim_windows (v ∷ ws) (left w b)).records)
                  room h.least);
          counted = h.counted;
          dropped = ground (arith, h.dropped, gone, length-append w.records h.lost);
          same_capacity = h.same_capacity ∙ room;
        })
        | inr e ↦ rw e (record {
          lost = [];
          newest = refl;
          least = inl refl;
          counted = c;
          dropped = ground (arith, fits);
          same_capacity = refl;
        })
      ]

  -- More than one window is left only where they fit.
  abbrev pub FitsUnlessSingle : List (Window R) → Buffer R → Type 0
  FitsUnlessSingle [] b = Unit
  FitsUnlessSingle (w ∷ []) b = Unit
  FitsUnlessSingle (w ∷ v ∷ ws) b = b.records ≤ b.capacity

  pub trim_windows-fits :
      (ws : List (Window R)) (b : Buffer R)
      → FitsUnlessSingle (trim_windows ws b).windows (trim_windows ws b)
  unfolding trim_windows
  trim_windows-fits [] b = tt
  trim_windows-fits (w ∷ []) b = tt
  trim_windows-fits (w ∷ v ∷ ws) b = elim (Bool-cases (ltb b.capacity b.records)) [
    | inl e ↦ rw e (trim_windows-fits (v ∷ ws) (left w b))
    | inr e ↦ rw e (ground (arith, e))
  ]

  length-drop : (n : ℕ) (xs : List R) → n ≤ length xs → length (drop n xs) + n ≡ length xs
  length-drop zero [] h = ground arith
  length-drop zero (x ∷ xs) h = ground arith
  length-drop (suc n) [] h = ground (arith, h)
  length-drop (suc n) (x ∷ xs) h = ground (arith, length-drop n xs, h)

  -- What `trim` promises of the windows it is given.
  unfoldable pub IsTrim : List (Window R) → ℕ → ℕ → Buffer R → Type 0
  IsTrim all before cap b = IsTrimmed all before cap b × (b.records ≤ cap)

  pub cut_single-IsTrim :
      (all : List (Window R)) (before cap : ℕ) (ws : List (Window R)) (b : Buffer R)
      → ws ≡ b.windows
      → b.dropped < 2 ^ 64
      → FitsUnlessSingle ws b
      → IsTrimmed all before cap b
      → IsTrim all before cap (cut_single ws b)
  unfolding cut_single IsTrim IsLeast records_of
  cut_single-IsTrim all before cap [] b e fits few h =
      (h, ground (arith, h.counted, ap (λ ws. length (records_of ws)) e))
  cut_single-IsTrim all before cap (w ∷ v ∷ ws) b e fits few h =
      (h, ground (arith, few, h.same_capacity))
  cut_single-IsTrim all before cap (w ∷ []) b e fits few h =
      let excess = b.records - b.capacity in
      let held : records_of b.windows ≡ w.records = ap records_of (sym e) ∙ append-nil w.records in
      let size : b.records ≡ length w.records = h.counted ∙ ap length held in
      let less : excess ≤ length w.records = ground (arith, size) in
      elim (Bool-cases (ltb b.capacity b.records)) [
        | inl over ↦
            let (windows, number, room, gone) =
              overflow-fields (record w { records = drop excess w.records }) excess
                (record b {
                  windows = record w { records = drop excess w.records } ∷ [];
                  records = b.records - excess;
                })
                fits in
            rw over (
              record {
                lost = h.lost ++ take_first excess w.records;
                newest =
                    append_assoc h.lost (take_first excess w.records) _
                    ∙ ap (λ ws. h.lost ++ (take_first excess w.records ++ records_of ws)) windows
                    ∙ ap (λ xs. h.lost ++ (take_first excess w.records ++ xs))
                        (append-nil (drop excess w.records))
                    ∙ ap (λ xs. h.lost ++ xs) (take_first-drop excess w.records ∙ sym held)
                    ∙ h.newest;
                least = inr (inl (ground (arith, number, over, h.same_capacity)));
                counted = ground (
                  arith,
                  number,
                  size,
                  length-drop excess w.records less,
                  ap (λ ws. length (records_of ws)) windows,
                  ap length (append-nil (drop excess w.records)),
                );
                dropped = ground (
                  arith,
                  gone,
                  h.dropped,
                  length-append h.lost (take_first excess w.records),
                  length-take_first excess w.records less,
                );
                same_capacity = room ∙ h.same_capacity;
              },
              ground (arith, number, h.same_capacity),
            )
        | inr under ↦ rw under (h, ground (arith, under, h.same_capacity))
      ]
