-- ===== src/Delta/Minimal.antt =====
-- internal/rendered/rendered.go, Diff and Equal: no change exactly when nothing differs.
use innerwall.Prelude.Tests.{
  ◌≡◌, refl, sym, ◌∙◌, ap, true, ◌↔◌, Option, none, some, List, [], ◌∷◌, arith, ◌==◌,
}
use innerwall.Prelude.Order.{list_eqb_iff, eqb_refl}
use innerwall.Prelude.Sorting.{contains, minus, find_last-ext}
use innerwall.Prelude.Dict.{get}
use innerwall.Prelude.Text.{Str, str_order}
use innerwall.Prelude.Result.{ok}
use innerwall.Netip.{Netip}
use innerwall.Rendered.{
  PortRange, port_order, ResolvedRule, WorkloadPolicy, canonical_rules, canonical,
}
use innerwall.Rendered.Canon.{rule_key, IsAscending-canonical_rules}
use innerwall.Delta.{
  RuleMap, Applying, index_rules, rule_eqb, rules_eqb, ports_equal, rule_changes, changes_at,
  all_ids, equal, diff, apply_changes,
}
use innerwall.Delta.Maps.{get-index_rules}
use innerwall.Delta.Roundtrip.{start_of, apply-diff}

rule_eqb_iff : (a b : ResolvedRule) → (rule_eqb a b ≡ true) ↔ (a ≡ b)
rule_eqb_iff a b = ground (
  arith,
  str_order.eqb_iff a.rule_id b.rule_id,
  list_eqb_iff a.peer_cidrs b.peer_cidrs,
  list_eqb_iff a.ports b.ports,
)

rules_eqb_iff : (a b : List ResolvedRule) → (rules_eqb a b ≡ true) ↔ (a ≡ b)
rules_eqb_iff [] [] = ground arith
rules_eqb_iff [] (b ∷ bs) = ground arith
rules_eqb_iff (a ∷ as') [] = ground arith
rules_eqb_iff (a ∷ as') (b ∷ bs) = ground (arith, rule_eqb_iff a b, rules_eqb_iff as' bs)

ports_equal_refl : (ports : List PortRange) → ports_equal ports ports ≡ true
unfolding ports_equal
ports_equal_refl [] = refl
ports_equal_refl (p ∷ ports) = ground (arith, ports_equal_refl ports)

minus-subset :
    (xs ys : List Str)
    → ((k : Str) → contains k xs ≡ true → contains k ys ≡ true)
    → minus xs ys ≡ []
unfolding minus
minus-subset [] ys h = refl
minus-subset (x ∷ xs) ys h =
    rw (h x (ground (arith, eqb_refl x))) (minus-subset xs ys (λ k c. h k (ground (arith, c))))

rule_changes_same : (id : Str) (o : Option ResolvedRule) → rule_changes id o o ≡ []
unfolding rule_changes
rule_changes_same id none = refl
rule_changes_same id (some r) =
    let p : (r.protocol == r.protocol) ≡ true = ground arith in
    rw (p, ports_equal_refl r.ports, minus-subset r.peer_cidrs r.peer_cidrs (λ k c. c))

changes_at_same : (m : RuleMap) (ids : List Str) → changes_at m m ids ≡ []
unfolding changes_at
changes_at_same m [] = refl
changes_at_same m (id ∷ ids) = rw (rule_changes_same id (get id m)) (changes_at_same m ids)

module _ ⦃ip : Netip⦄ where
  equal→canonical :
      (from to : WorkloadPolicy)
      → equal from to ≡ true
      → (from.mode ≡ to.mode)
        × (canonical_rules from.inbound_rules ≡ canonical_rules to.inbound_rules)
  unfolding equal canonical
  equal→canonical from to h =
      ground (
        arith,
        rules_eqb_iff (canonical_rules from.inbound_rules) (canonical_rules to.inbound_rules),
      )

  canonical→equal :
      (from to : WorkloadPolicy)
      → from.mode ≡ to.mode
      → canonical_rules from.inbound_rules ≡ canonical_rules to.inbound_rules
      → equal from to ≡ true
  unfolding equal canonical
  canonical→equal from to m h =
      ground (
        arith,
        rules_eqb_iff (canonical_rules from.inbound_rules) (canonical_rules to.inbound_rules),
      )

  pub diff_same :
      (from to : WorkloadPolicy)
      → from.mode ≡ to.mode
      → canonical_rules from.inbound_rules ≡ canonical_rules to.inbound_rules
      → diff from to ≡ []
  unfolding diff canonical
  diff_same from to m h =
      let e : (from.mode == to.mode) ≡ true = ground arith in
      rw (e, h)
        (changes_at_same (index_rules (canonical_rules to.inbound_rules)) (
          all_ids (index_rules (canonical_rules to.inbound_rules))
            (index_rules (canonical_rules to.inbound_rules))))

  diff_empty→ :
      (from to : WorkloadPolicy)
      → diff from to ≡ []
      → (from.mode ≡ to.mode)
        × (canonical_rules from.inbound_rules ≡ canonical_rules to.inbound_rules)
  unfolding apply_changes start_of
  diff_empty→ from to h =
      let (t, run, lookups, mode) = apply-diff from to in
      let stayed : ok (start_of from) ≡ ok t = (rw h at run) in
      let same : start_of from ≡ t = cc in
      (
        ap (λ (s : Applying). s.mode) same ∙ mode,
        find_last-ext rule_key (canonical_rules from.inbound_rules)
            (canonical_rules to.inbound_rules) (IsAscending-canonical_rules from.inbound_rules)
            (IsAscending-canonical_rules to.inbound_rules)
            (λ id.
              sym (get-index_rules id (canonical_rules from.inbound_rules))
              ∙ ap (λ (s : Applying). get id s.rules) same
              ∙ lookups id),
      )

  -- `Diff` is empty exactly when `Equal` holds of the two policies.
  pub diff-empty_iff-equal :
      (from to : WorkloadPolicy) → (diff from to ≡ []) ↔ (equal from to ≡ true)
  diff-empty_iff-equal from to = (
    λ h. let (m, same) = diff_empty→ from to h in canonical→equal from to m same,
    λ h. let (m, same) = equal→canonical from to h in diff_same from to m same,
  )
