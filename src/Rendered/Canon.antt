-- ===== src/Rendered/Canon.antt =====
-- internal/rendered/rendered.go, Canonical: what the canonical form of a rule list holds, and that
-- the form is fixed by it.
use innerwall.Prelude.Tests.{
  ◌≡◌, refl, sym, ◌∙◌, ap, inl, inr, Option, none, some, List, [], ◌∷◌, arith, Option-cases,
  or_else, map_option,
}
use innerwall.Prelude.Order.{eqb→≡}
use innerwall.Prelude.Sorting.{
  sort, compact, IsAscending, IsAscending-compact, compact-sort-IsAscending, find_last,
  find_last-ext, IsAscending-sort,
}
use innerwall.Prelude.Dict.{
  get, put, keys, get-put, IsDict, IsDict-put, IsKeyed, find_last-sorted_values,
  IsAscending-values_at,
}
use innerwall.Prelude.Text.{Str, str_order}
use innerwall.Netip.{Netip}
use innerwall.Rendered.{
  PortRange, port_order, ResolvedRule, WorkloadPolicy, canonical_ports, canonical_rule, by_id,
  canonical_rules, canonical,
}
use innerwall.Rendered.Cidr.{canonical_cidrs_idem}

abbrev pub rule_key : ResolvedRule → Str
rule_key r = r.rule_id

-- The last rule of an id, the one that counts.
abbrev pub rule_of : Str → List ResolvedRule → Option ResolvedRule
rule_of id rules = find_last rule_key id rules

module _ ⦃ip : Netip⦄ where
  canonical_ports_idem :
      (ports : List PortRange) → canonical_ports (canonical_ports ports) ≡ canonical_ports ports
  unfolding canonical_ports
  canonical_ports_idem ports =
      compact-sort-IsAscending (compact (sort ports)) (IsAscending-compact ports)

  pub canonical_rule_idem :
      (r : ResolvedRule) → canonical_rule (canonical_rule r) ≡ canonical_rule r
  unfolding canonical_rule
  canonical_rule_idem r = cc (canonical_cidrs_idem r.peer_cidrs, canonical_ports_idem r.ports)

  get-by_id :
      (id : Str) (m : List (Str × ResolvedRule)) (rules : List ResolvedRule)
      → get id (by_id m rules) ≡ or_else (map_option canonical_rule (rule_of id rules)) (get id m)
  unfolding by_id find_last
  get-by_id id m [] = refl
  get-by_id id m (r ∷ rules) = ground (
    arith,
    get-by_id id (put r.rule_id (canonical_rule r) m) rules,
    get-put r.rule_id id (canonical_rule r) m,
  )

  IsDict-by_id :
      (m : List (Str × ResolvedRule)) (rules : List ResolvedRule)
      → IsDict m
      → IsDict (by_id m rules)
  unfolding by_id
  IsDict-by_id m [] h = h
  IsDict-by_id m (r ∷ rules) h =
      IsDict-by_id (put r.rule_id (canonical_rule r) m) rules
        (IsDict-put r.rule_id (canonical_rule r) m h)

  rule_of-keyed :
      (id : Str) (rules : List ResolvedRule) (r : ResolvedRule)
      → rule_of id rules ≡ some r
      → r.rule_id ≡ id
  unfolding find_last
  rule_of-keyed id [] r h = cc
  rule_of-keyed id (x ∷ rules) r h = ground (arith, rule_of-keyed id rules r, eqb→≡ x.rule_id id)

  IsKeyed-by_id : (rules : List ResolvedRule) → IsKeyed rule_key (by_id [] rules)
  unfolding canonical_rule get
  IsKeyed-by_id rules k v h = elim (Option-cases (rule_of k rules)) [
    | inl e ↦ ground (arith, get-by_id k [] rules, e, h)
    | inr (r, e) ↦ ground (arith, get-by_id k [] rules, e, h, rule_of-keyed k rules r e)
  ]

  -- The rule of an id in the canonical form is the canonical form of the last rule of that id.
  pub rule_of-canonical_rules :
      (id : Str) (rules : List ResolvedRule)
      → rule_of id (canonical_rules rules) ≡ map_option canonical_rule (rule_of id rules)
  unfolding canonical_rules get
  rule_of-canonical_rules id rules =
      find_last-sorted_values rule_key (by_id [] rules) (IsKeyed-by_id rules) id
      ∙ ground (arith, get-by_id id [] rules)

  -- The ids of the canonical form strictly ascend.
  pub IsAscending-canonical_rules :
      (rules : List ResolvedRule) → IsAscending rule_key (canonical_rules rules)
  unfolding canonical_rules keys
  IsAscending-canonical_rules rules =
      IsAscending-values_at rule_key (by_id [] rules) (IsKeyed-by_id rules)
        (sort (keys (by_id [] rules)))
        (IsAscending-sort (keys (by_id [] rules)) (IsDict-by_id [] rules tt))

  -- Rule lists whose last rules of each id have equal canonical forms have one canonical form.
  pub canonical_rules-ext :
      (xs ys : List ResolvedRule)
      → ((id : Str)
          → map_option canonical_rule (rule_of id xs) ≡ map_option canonical_rule (rule_of id ys))
      → canonical_rules xs ≡ canonical_rules ys
  canonical_rules-ext xs ys same =
      find_last-ext rule_key (canonical_rules xs) (canonical_rules ys)
        (IsAscending-canonical_rules xs) (IsAscending-canonical_rules ys)
        (λ id. rule_of-canonical_rules id xs ∙ same id ∙ sym (rule_of-canonical_rules id ys))

  map_canonical_rule_idem :
      (o : Option ResolvedRule)
      → map_option canonical_rule (map_option canonical_rule o) ≡ map_option canonical_rule o
  map_canonical_rule_idem none = refl
  map_canonical_rule_idem (some r) = ap some (canonical_rule_idem r)

  pub canonical_rules_idem :
      (rules : List ResolvedRule) → canonical_rules (canonical_rules rules) ≡ canonical_rules rules
  canonical_rules_idem rules =
      canonical_rules-ext (canonical_rules rules) rules
        (λ id. rw (rule_of-canonical_rules id rules) (map_canonical_rule_idem (rule_of id rules)))

  -- The canonical form of a policy is its own canonical form.
  pub canonical_idem : (p : WorkloadPolicy) → canonical (canonical p) ≡ canonical p
  unfolding canonical
  canonical_idem p =
      ap (λ rules. record (canonical p) { inbound_rules = rules })
        (canonical_rules_idem p.inbound_rules)

  -- A rule of the canonical form is canonical, and is found under its own id.
  pub rule_of-canonical_fixed :
      (id : Str) (rules : List ResolvedRule) (r : ResolvedRule)
      → rule_of id (canonical_rules rules) ≡ some r
      → (canonical_rule r ≡ r) × (r.rule_id ≡ id)
  rule_of-canonical_fixed id rules r h = elim (Option-cases (rule_of id rules)) [
    | inl e ↦ cc (rule_of-canonical_rules id rules, ap (map_option canonical_rule) e)
    | inr (x, e) ↦ (
      ground (
        arith,
        rule_of-canonical_rules id rules,
        ap (map_option canonical_rule) e,
        canonical_rule_idem x,
      ),
      rule_of-keyed id (canonical_rules rules) r h,
    )
  ]
