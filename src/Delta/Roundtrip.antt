-- ===== src/Delta/Roundtrip.antt =====
-- internal/rendered/rendered.go: the contract of the package, that applying the delta between two
-- policies to the first gives the canonical form of the second.
use innerwall.Prelude.Tests.{
  ℕ, suc, ◌+◌, ◌≡◌, refl, sym, ◌∙◌, ap, inl, inr, true, List, [], ◌∷◌, ◌++◌, arith, if◌then◌else◌,
  Bool-cases, ◌==◌, length, map_option,
}
use innerwall.Prelude.Order.{eqb_refl, eqb→≡}
use innerwall.Prelude.Sorting.{contains, IsAscending, same_key, contains-IsAbove}
use innerwall.Prelude.Dict.{get, keys, values_at, contains-keys, find_last-values_at}
use innerwall.Prelude.Text.{Str, str_order}
use innerwall.Prelude.Result.{ok, ◌>>=◌, >>=_assoc, >>=_cong}
use innerwall.Netip.{Netip}
use innerwall.Rendered.{
  Mode, ResolvedRule, WorkloadPolicy, canonical_rule, canonical_rules, canonical,
}
use innerwall.Rendered.Canon.{
  rule_key, rule_of, canonical_rules-ext, canonical_rules_idem, rule_of-canonical_fixed,
}
use innerwall.Delta.{
  RuleMap, DeltaChange, Applying, index_rules, rule_changes, changes_at, mode_changes, all_ids,
  diff, delta, apply_change, apply_changes, apply,
}
use innerwall.Delta.Maps.{
  get-index_rules, IsDict-index_rules, IsCanonicalMap, IsCanonicalMap-index_rules,
  IsAscending-all_ids, contains-all_ids,
}
use innerwall.Delta.Block.{apply-rule_changes}

module _ ⦃ip : Netip⦄ where
  apply_changes-append :
      (i : ℕ) (xs ys : List DeltaChange) (s : Applying)
      → apply_changes i (xs ++ ys) s
        ≡ (apply_changes i xs s >>= λ t. apply_changes (i + length xs) ys t)
  unfolding apply_changes
  apply_changes-append i [] ys s = ap (λ j. apply_changes j ys s) (omega arith)
  apply_changes-append i (x ∷ xs) ys s =
      >>=_cong (apply_change i x s) (apply_changes (suc i) (xs ++ ys))
        (λ t. apply_changes (suc i) xs t >>= λ u. apply_changes (i + length (x ∷ xs)) ys u)
        (λ t.
          apply_changes-append (suc i) xs ys t
          ∙ ap (λ j. apply_changes (suc i) xs t >>= λ u. apply_changes j ys u) (omega arith))
      ∙ sym (
          >>=_assoc (apply_change i x s) (apply_changes (suc i) xs)
            (apply_changes (i + length (x ∷ xs)) ys))

  -- The changes of ascending ids, each made from what the state still holds for it.
  apply-changes_at :
      (i : ℕ) (old cur : RuleMap) (ids : List Str) (s : Applying)
      → IsCanonicalMap old
      → IsCanonicalMap cur
      → IsAscending same_key ids
      → ((id : Str) → contains id ids ≡ true → get id s.rules ≡ get id old)
      → (t : Applying) × (apply_changes i (changes_at old cur ids) s ≡ ok t)
        × ((j : Str) → get j t.rules ≡ (if contains j ids then get j cur else get j s.rules))
        × (t.mode ≡ s.mode)
  unfolding changes_at apply_changes
  apply-changes_at i old cur [] s ho hc asc held = (s, refl, λ j. refl, refl)
  apply-changes_at i old cur (id ∷ ids) s ho hc asc held =
      let (t, run, move) =
        apply-rule_changes i id (get id old) (get id cur) s (ho id) (hc id)
          (held id (ground (arith, eqb_refl id))) in
      let (u, runs, moves, mode) =
        apply-changes_at (i + length (rule_changes id (get id old) (get id cur))) old cur ids t ho
          hc asc.1
          (λ k c.
            ground (arith, c, move.moved k, contains-IsAbove id ids asc.0, held k, eqb→≡ id k)) in
      (
        u,
        rw apply_changes-append (rw run runs),
        λ j. ground (arith, moves j, move.moved j, contains-IsAbove id ids asc.0, eqb→≡ id j),
        rw mode move.mode_kept,
      )

  unfoldable pub start_of : WorkloadPolicy → Applying
  start_of from = record {
    rules = index_rules (canonical_rules from.inbound_rules);
    mode = from.mode;
  }

  apply-mode_changes :
      (m : Mode) (s : Applying)
      → apply_changes 0 (mode_changes s.mode m) s ≡ ok (record s { mode = m })
  unfolding apply_changes mode_changes
  apply-mode_changes m s = elim (Bool-cases (s.mode == m)) [
    | inl e ↦ rw e (ground arith)
    | inr e ↦ rw e
  ]

  -- The whole of `Diff`, applied: every id holds what the new policy holds, and so does the mode.
  pub apply-diff :
      (from to : WorkloadPolicy)
      → (t : Applying) × (apply_changes 0 (diff from to) (start_of from) ≡ ok t)
        × ((id : Str) → get id t.rules ≡ rule_of id (canonical_rules to.inbound_rules))
        × (t.mode ≡ to.mode)
  unfolding diff canonical start_of
  apply-diff from to =
      let old = index_rules (canonical_rules from.inbound_rules) in
      let cur = index_rules (canonical_rules to.inbound_rules) in
      let s : Applying = record { rules = old; mode = from.mode } in
      let (t, run, moves, mode) =
        apply-changes_at (0 + length (mode_changes from.mode to.mode)) old cur (all_ids old cur)
          (record s { mode = to.mode }) (IsCanonicalMap-index_rules from.inbound_rules)
          (IsCanonicalMap-index_rules to.inbound_rules)
          (IsAscending-all_ids old cur (IsDict-index_rules (canonical_rules from.inbound_rules))
            (IsDict-index_rules (canonical_rules to.inbound_rules)))
          (λ k c. refl) in
      (
        t,
        rw apply_changes-append (rw (apply-mode_changes to.mode s) run),
        λ id. ground (
          arith,
          moves id,
          contains-all_ids id old cur,
          get-index_rules id (canonical_rules to.inbound_rules),
        ),
        mode,
      )

  -- A rule map that answers as canonical rules do has them as its canonical form, in any order.
  canonical_rules-values_at :
      (m : RuleMap) (rules : List ResolvedRule)
      → ((id : Str) → get id m ≡ rule_of id (canonical_rules rules))
      → canonical_rules (values_at m (keys m)) ≡ canonical_rules rules
  canonical_rules-values_at m rules same =
      canonical_rules-ext (values_at m (keys m)) (canonical_rules rules) (λ id.
        ap (map_option canonical_rule) (
          find_last-values_at rule_key m
            (λ k r h. (rule_of-canonical_fixed k rules r (sym (same k) ∙ h)).1) id (keys m)
          ∙ ground (arith, contains-keys id m, same id)))
      ∙ canonical_rules_idem rules

  -- Applying the delta between two policies to the first, whatever they are, succeeds and gives the
  -- canonical form of the second, with its version.
  pub apply-delta : (from to : WorkloadPolicy) → apply from (delta from to) ≡ ok (canonical to)
  unfolding apply delta canonical start_of
  apply-delta from to =
      let (t, run, lookups, mode) = apply-diff from to in
      let here : (from.version == from.version) ≡ true = ground arith in
      rw here (rw run (cc (mode, canonical_rules-values_at t.rules to.inbound_rules lookups)))
