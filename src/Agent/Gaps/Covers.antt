-- ===== src/Agent/Gaps/Covers.antt =====
-- internal/agent/collect/gaps.go: merging costs precision, never the fact of a loss.
use innerwall.Prelude.Tests.{
  ℕ, zero, suc, ◌≤◌, ◌≡◌, refl, sym, ◌∙◌, ap, inl, inr, Bool, true, false, not, ◌&&◌, ◌||◌, some,
  List, [], ◌∷◌, ◌++◌, ◌==◌, ltb, leb, arith, Bool-cases, Option-cases, length,
}
use innerwall.Agent.Gaps.{
  GapKind, GapSource, kind_code, source_code, Gap, Gaps, same_loss, merge, has_loss, merge_into,
  merge_oldest, merged_or_dropped, shrink_rounds, capacity, shrink, Newest, absent, apart, joined,
  join_at, join_newest, append_or_join, clamp, add,
}
use innerwall.Agent.Gaps.Keys.{merge_oldest-length}

-- The gap says that evidence of the kind and source is missing at the instant: the instants from
-- its start, up to its end and without it, as in [From, To) of the source.
unfoldable pub covers : GapKind → GapSource → ℕ → Gap → Bool
covers kind source t p =
    kind_code p.kind == kind_code kind
    && source_code p.source == source_code source
    && leb p.from t
    && ltb t p.to

-- Some held gap does.
unfoldable pub covered : GapKind → GapSource → ℕ → List Gap → Bool
unfolding covers
covered kind _ t [] = false
covered kind source t (p ∷ ps) = covers kind source t p || covered kind source t ps

or_assoc : (a b c : Bool) → (a || (b || c)) ≡ ((a || b) || c)
or_assoc true b c = refl
or_assoc false b c = refl

module _ (kind : GapKind) (source : GapSource) (t : ℕ) where
  abbrev pub has : List Gap → Bool
  has ps = covered kind source t ps

  abbrev pub hit : Gap → Bool
  hit p = covers kind source t p

  pub covered-append : (ps qs : List Gap) → has (ps ++ qs) ≡ (has ps || has qs)
  unfolding covered
  covered-append [] qs = refl
  covered-append (p ∷ ps) qs =
      ap (λ b. hit p || b) (covered-append ps qs) ∙ or_assoc (hit p) (has ps) (has qs)

  covers-merge :
      (p gap : Gap) → same_loss p gap ≡ true → (hit p || hit gap) ≡ true → hit (merge p gap) ≡ true
  unfolding covers merge
  covers-merge p gap same h = ground (arith, same, h)

  covered-merge_into :
      (p : Gap) (qs : List Gap)
      → has_loss p qs ≡ true
      → (hit p || has qs) ≡ true
      → has (merge_into p qs) ≡ true
  unfolding covered has_loss merge_into
  covered-merge_into p [] l h = cc
  covered-merge_into p (q ∷ qs) l h = elim (Bool-cases (same_loss q p)) [
    | inl e ↦ ground (arith, e, covers-merge q p e, h)
    | inr e ↦ ground (arith, e, covered-merge_into p qs, l, h)
  ]

  covered-merge_oldest :
      (seen ps qs : List Gap)
      → merge_oldest seen ps ≡ some qs
      → has (seen ++ ps) ≡ true
      → has qs ≡ true
  unfolding covered merge_oldest
  covered-merge_oldest seen [] qs e h = cc
  covered-merge_oldest seen (p ∷ ps) qs e h = elim (Bool-cases (has_loss p seen)) [
    | inl l ↦
        let same : merge_into p seen ++ ps ≡ qs = cc ((rw l at e)) in
        ground (
          arith,
          ap has (sym same),
          covered-append (merge_into p seen) ps,
          covered-append seen (p ∷ ps),
          covered-merge_into p seen l,
          h,
        )
    | inr l ↦ covered-merge_oldest (seen ++ p ∷ []) ps qs (rw l at e) (
        ground (
          arith,
          covered-append (seen ++ p ∷ []) ps,
          covered-append seen (p ∷ []),
          covered-append seen (p ∷ ps),
          h,
        ))
  ]

  covered-shrink_rounds :
      (fuel cap : ℕ) (ps : List Gap)
      → 21 ≤ cap
      → has ps ≡ true
      → has (shrink_rounds fuel cap ps) ≡ true
  unfolding shrink_rounds
  covered-shrink_rounds zero cap ps big h = h
  covered-shrink_rounds (suc fuel) cap ps big h = elim (Bool-cases (ltb cap (length ps))) [
    | inl e ↦ rw e (
        covered-shrink_rounds fuel cap (merged_or_dropped ps (merge_oldest [] ps)) big
          (elim (Option-cases (merge_oldest [] ps)) [
            | inl n ↦ ground (arith, merge_oldest-length ps n, e, big)
            | inr (qs, m) ↦ rw m (covered-merge_oldest [] ps qs m h)
          ]))
    | inr e ↦ rw e h
  ]

  pub covered-shrink :
      (g : Gaps) → 21 ≤ capacity g → has g.pending ≡ true → has (shrink g).pending ≡ true
  unfolding shrink
  covered-shrink g big h = covered-shrink_rounds (length g.pending) (capacity g) g.pending big h

  -- A list in which the new gap was joined covers what both did.
  abbrev Keeps : Bool → Newest → Type 0
  Keeps b absent = Unit
  Keeps b apart = Unit
  Keeps b (joined qs) = b ≡ true → has qs ≡ true

  Keeps-join_at :
      (gap p : Gap) (ps : List Gap) (r : Newest)
      → Keeps (hit gap || has ps) r
      → Keeps (hit gap || has (p ∷ ps)) (join_at gap p ps r)
  unfolding covered join_at
  Keeps-join_at gap p ps (joined qs) h = λ c. ground (arith, h, c)
  Keeps-join_at gap p ps apart h = tt
  Keeps-join_at gap p ps absent h = elim (Bool-cases (same_loss p gap)) [
    | inl e ↦ elim (Bool-cases (not (ltb p.to gap.from) && not (ltb gap.to p.from))) [
      | inl u ↦ rw e (rw u (λ c. ground (arith, covers-merge p gap e, c)))
      | inr u ↦ rw e (rw u tt)
    ]
    | inr e ↦ rw e tt
  ]

  Keeps-join_newest : (gap : Gap) (ps : List Gap) → Keeps (hit gap || has ps) (join_newest gap ps)
  unfolding join_newest
  Keeps-join_newest gap [] = tt
  Keeps-join_newest gap (p ∷ ps) =
      Keeps-join_at gap p ps (join_newest gap ps) (Keeps-join_newest gap ps)

  covered-append_or_join :
      (g : Gaps) (gap : Gap) (r : Newest)
      → 21 ≤ capacity g
      → Keeps (hit gap || has g.pending) r
      → (hit gap || has g.pending) ≡ true
      → has (append_or_join g gap r).pending ≡ true
  unfolding append_or_join capacity covered
  covered-append_or_join g gap absent big k h =
      covered-shrink (record g { pending = g.pending ++ gap ∷ [] }) big
        (ground (arith, covered-append g.pending (gap ∷ []), h))
  covered-append_or_join g gap apart big k h =
      covered-shrink (record g { pending = g.pending ++ gap ∷ [] }) big
        (ground (arith, covered-append g.pending (gap ∷ []), h))
  covered-append_or_join g gap (joined qs) big k h = k h

  covers-clamp : (gap : Gap) → hit gap ≡ true → hit (clamp gap) ≡ true
  unfolding covers
  covers-clamp gap h = ground (arith, h)

  -- With room for each pair of a kind and a source, an instant that the new gap covers or that a
  -- held gap covers is covered by a held gap once the new one is recorded.
  pub covered-add :
      (g : Gaps) (gap : Gap)
      → 21 ≤ capacity g
      → (covers kind source t gap || covered kind source t g.pending) ≡ true
      → covered kind source t (add g gap).pending ≡ true
  unfolding add
  covered-add g gap big h =
      covered-append_or_join g (clamp gap) (join_newest (clamp gap) g.pending) big
        (Keeps-join_newest (clamp gap) g.pending) (ground (arith, covers-clamp gap, h))
