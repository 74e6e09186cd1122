-- ===== src/Agent/Buffer/Newest.antt =====
-- internal/agent/collect/buffer.go: Push and Requeue keep the newest records that fit, and count the
-- others as dropped; Carry and Pop drop nothing.
use innerwall.Prelude.Tests.{
  ◌+◌, ◌-◌, ◌^◌, ◌≤◌, ◌<◌, ◌≡◌, refl, sym, ◌∙◌, ap, inl, inr, true, some, List, [], ◌∷◌, ◌++◌, ◌==◌,
  length, length-append, Bool-cases, arith,
}
use mathlib.Core.Path.{subst}
use mathlib.Core.List.{append-nil}
use innerwall.Agent.Buffer.{Window, Buffer, trim_windows, trim, push, requeue, popped, pop}
use innerwall.Agent.Buffer.Trim.{
  records_of, records_of-append, IsCounted, IsTrim, IsLeast, trim_windows-IsTrimmed,
  trim_windows-fits, cut_single-IsTrim,
}

module _ {R : Type 0} where
  trim-IsTrim :
      (b : Buffer R)
      → IsCounted b
      → b.dropped < 2 ^ 64
      → IsTrim b.windows b.dropped b.capacity (trim b)
  unfolding trim
  trim-IsTrim b c fits =
      let h = trim_windows-IsTrimmed b.windows b c fits in
      cut_single-IsTrim b.windows b.dropped b.capacity (trim_windows b.windows b).windows
        (trim_windows b.windows b) refl (ground (arith, h.dropped)) (trim_windows-fits b.windows b)
        h

  -- A buffer that counts what it holds, within its capacity.
  abbrev pub IsSound : Buffer R → Type 0
  IsSound b = IsCounted b × (b.records ≤ b.capacity) × (b.dropped < 2 ^ 64)

  -- A buffer that is left as it is keeps all records of windows that have the same.
  unchanged :
      (ws : List (Window R)) (b : Buffer R)
      → records_of b.windows ≡ records_of ws
      → IsSound b
      → IsTrim ws b.dropped b.capacity b
  unfolding IsTrim IsLeast
  unchanged ws b same (c, small, fits) = (
    record {
      lost = [];
      newest = same;
      least = inl refl;
      counted = c;
      dropped = ground (arith, fits);
      same_capacity = refl;
    },
    small,
  )

  empty_records : (w : Window R) → (length w.records == 0) ≡ true → w.records ≡ []
  empty_records w h = go w.records h
    where
      go : (xs : List R) → (length xs == 0) ≡ true → xs ≡ []
      go [] h = refl
      go (x ∷ xs) h = ground (arith, h)

  -- Pushing a window onto a sound buffer keeps, of the records held and the window's records after
  -- them, the newest, in order and within the capacity; the oldest are lost, and the drop counter
  -- grows by their number. No more is lost than needed: either nothing is lost, or the buffer is
  -- full, or the last loss is one whole window that has no room beside what is kept.
  pub push-IsTrim :
      (w : Window R) (b : Buffer R)
      → IsSound b
      → IsTrim (b.windows ++ w ∷ []) b.dropped b.capacity (push w b)
  unfolding push records_of
  push-IsTrim w b (c, small, fits) =
      let all : records_of (b.windows ++ w ∷ []) ≡ records_of b.windows ++ w.records =
        records_of-append b.windows (w ∷ [])
        ∙ ap (λ xs. records_of b.windows ++ xs) (append-nil w.records) in
      elim (Bool-cases (length w.records == 0)) [
        | inl e ↦ rw e (
            unchanged (b.windows ++ w ∷ []) b
              (sym (
                all
                ∙ ap (λ xs. records_of b.windows ++ xs) (empty_records w e)
                ∙ append-nil (records_of b.windows)))
              (c, small, fits))
        | inr e ↦ rw e (
            trim-IsTrim
              (record b { windows = b.windows ++ w ∷ []; records = b.records + length w.records })
              (ground (arith, c, ap length all, length-append (records_of b.windows) w.records))
              fits)
      ]

  -- Putting a window back as the oldest of a sound buffer keeps, of its records and the records held
  -- after them, the newest, in order and within the capacity; the oldest are lost, no more than
  -- needed, and counted as dropped.
  pub requeue-IsTrim :
      (w : Window R) (b : Buffer R)
      → IsSound b
      → IsTrim (w ∷ b.windows) b.dropped b.capacity (requeue w b)
  unfolding requeue records_of
  requeue-IsTrim w b (c, small, fits) = elim (Bool-cases (length w.records == 0)) [
    | inl e ↦ rw e (
        unchanged (w ∷ b.windows) b
          (sym (ap (λ xs. xs ++ records_of b.windows) (empty_records w e))) (c, small, fits))
    | inr e ↦ rw e (
        trim-IsTrim (record b { windows = w ∷ b.windows; records = b.records + length w.records })
          (ground (arith, c, length-append w.records (records_of b.windows))) fits)
  ]

  popped-IsSound :
      (b after : Buffer R) (w : Window R) (ws : List (Window R))
      → ws ≡ b.windows
      → IsSound b
      → popped ws b ≡ some (w, after)
      → (w.records ++ records_of after.windows ≡ records_of b.windows)
        × (after.dropped ≡ b.dropped)
        × IsSound after
  unfolding popped records_of
  popped-IsSound b after w [] e s h = cc
  popped-IsSound b after w (v ∷ ws) e (c, small, fits) h =
      let next : Buffer R = record b { windows = ws; records = b.records - length v.records } in
      let same : next ≡ after = cc in
      let first : v ≡ w = cc in
      let held : v.records ++ records_of ws ≡ records_of b.windows = ap records_of e in
      subst
        (λ (x : Buffer R).
          (w.records ++ records_of x.windows ≡ records_of b.windows)
          × (x.dropped ≡ b.dropped)
          × IsSound x)
        same
        (
          ap (λ (x : Window R). x.records ++ records_of ws) (sym first) ∙ held,
          refl,
          (
            ground (arith, c, ap length held, length-append v.records (records_of ws)),
            ground (arith, small),
            fits,
          ),
        )

  -- Popping takes the oldest window whole: its records and then those that stay are the records
  -- that a sound buffer held, nothing is dropped, and the buffer stays sound.
  pub pop-IsSound :
      (b after : Buffer R) (w : Window R)
      → IsSound b
      → pop b ≡ some (w, after)
      → (w.records ++ records_of after.windows ≡ records_of b.windows)
        × (after.dropped ≡ b.dropped)
        × IsSound after
  unfolding pop
  pop-IsSound b after w s h = popped-IsSound b after w b.windows refl s h
