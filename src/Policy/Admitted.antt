-- ===== src/Policy/Admitted.antt =====
-- The admission of authored objects: a ruleset has no findings exactly where it is admissible.
use innerwall.Prelude.Tests.{
  ℕ, suc, ◌≡◌, ◌≢◌, ◌↔◌, refl, ◌∙◌, ap, ◌⊎◌, inl, inr, true, false, not, ◌||◌, List, [], ◌∷◌, ◌++◌,
  is_some, Bool-cases, arith,
}
use innerwall.Prelude.Order.{eqb→≡, eqb_refl}
use innerwall.Prelude.Sorting.{contains}
use innerwall.Prelude.Dict.{get, get-put}
use innerwall.Prelude.Text.{Str, str_order, codes}
use innerwall.Netip.{Netip}
use innerwall.Delta.{is_empty}
use innerwall.Policy.{Uuid, Rule, Ruleset}
use innerwall.Policy.Validate.{
  Finding, no_findings, carry_faults, nil_uuid, indexed, duplicate_rule, first_index, References,
  seen_after, validate_rules, validate_ruleset,
}
use innerwall.Policy.Admission.{
  Checks, checks_nothing, checks_then, checks_iff, checks_unless, checks_carry, some_list,
  list_some, checks-IsSelector, IsSelector,
}
use innerwall.Policy.Rules.{IsRule, checks-IsRule}

module _ (quoted : Str → Str) where
  module _ ⦃ip : Netip⦄ where
    -- The id of a rule is nil, or no earlier rule has it; and the rules are admissible.
    abbrev pub AreRules : (Rule → List Finding) → References → List Uuid → List Rule → Type 0
    AreRules faults refs ids [] = Unit
    AreRules faults refs ids (r ∷ rs) =
        ((r.id ≡ nil_uuid) ⊎ (contains r.id ids ≡ false))
        × IsRule quoted faults refs r
        × AreRules faults refs (r.id ∷ ids) rs

    -- The ids that were seen are those of the earlier rules.
    abbrev HaveSeen : List (Uuid × ℕ) → List Uuid → Type 0
    HaveSeen seen ids =
        (id : Uuid) → str_order.eqb id nil_uuid ≡ false → is_some (get id seen) ≡ contains id ids

    HaveSeen-seen_after :
        (id : Uuid) (i : ℕ) (seen : List (Uuid × ℕ)) (ids : List Uuid)
        → HaveSeen seen ids
        → HaveSeen (seen_after id i seen) (id ∷ ids)
    unfolding seen_after
    HaveSeen-seen_after id i seen ids h j some_ = elim (Bool-cases (str_order.eqb id j)) [
      | inl same ↦
          let e = eqb→≡ id j same in
          let there = ap (λ x. str_order.eqb x nil_uuid) e ∙ some_ in
          ground
            (arith, there, get-put id j i seen, same, h j some_, ap (λ x. is_some (get x seen)) e)
      | inr other ↦ ground (arith, get-put id j i seen, other, h j some_)
    ]

    own_id :
        (r : Rule) (seen : List (Uuid × ℕ)) (ids : List Uuid)
        → HaveSeen seen ids
        → ((str_order.eqb r.id nil_uuid || not (is_some (get r.id seen))) ≡ true)
          ↔ ((r.id ≡ nil_uuid) ⊎ (contains r.id ids ≡ false))
    own_id r seen ids h = (
      λ ok_. elim (Bool-cases (str_order.eqb r.id nil_uuid)) [
        | inl none_ ↦ inl (eqb→≡ r.id nil_uuid none_)
        | inr some_ ↦ inr (ground (arith, h r.id some_, some_, ok_))
      ],
      λ own. elim own [
        | inl e ↦ ground (arith, ap (λ x. str_order.eqb x nil_uuid) e, eqb_refl nil_uuid)
        | inr new ↦ elim (Bool-cases (str_order.eqb r.id nil_uuid)) [
          | inl none_ ↦ ground (arith, none_)
          | inr some_ ↦ ground (arith, h r.id some_, some_, new)
        ]
      ],
    )

    checks_rules :
        (faults : Rule → List Finding) (refs : References) (i : ℕ) (seen : List (Uuid × ℕ))
        (ids : List Uuid) (rs : List Rule)
        → HaveSeen seen ids
        → Checks (validate_rules quoted faults refs i seen rs) (AreRules faults refs ids rs)
    unfolding validate_rules
    checks_rules faults refs i seen ids [] h = checks_nothing
    checks_rules faults refs i seen ids (r ∷ rs) h =
        checks_iff _ _ (AreRules faults refs ids (r ∷ rs))
          (λ (k : ((((str_order.eqb r.id nil_uuid || not (is_some (get r.id seen))) ≡ true)
                × IsRule quoted faults refs r)
              × AreRules faults refs (r.id ∷ ids) rs)).
            ((own_id r seen ids h).0 k.0.0, k.0.1, k.1))
          (λ k. (((own_id r seen ids h).1 k.0, k.1), k.2))
          (checks_then _ _ _ _
            (checks_then _ _ _ _
              (checks_unless (str_order.eqb r.id nil_uuid || not (is_some (get r.id seen)))
                (indexed (codes "rules") i ++ codes ".id") duplicate_rule
                (first_index (get r.id seen)))
              (checks-IsRule quoted faults refs (indexed (codes "rules") i) r))
            (checks_rules faults refs (suc i) (seen_after r.id i seen) (r.id ∷ ids) rs
              (HaveSeen-seen_after r.id i seen ids h)))

    -- A ruleset with a name, a scope that selects, and admissible rules under ids of their own,
    -- converted without a fault.
    pub record IsAdmissible (faults : Rule → List Finding) (own_faults : Ruleset → List Finding)
        (rs : Ruleset) (refs : References) : Type 0 where
      pub faultless : own_faults rs ≡ []
      pub named : rs.name ≢ []
      pub scope : IsSelector rs.scope
      pub rules : AreRules faults refs [] rs.rules

    -- A ruleset is validated without a finding exactly where it is admissible: it and its rules were converted
    -- without a fault, it has a name and a scope that selects, no rule shares an id, and every rule is inbound, with
    -- peers and services that exist and are well formed.
    pub validate_ruleset-IsAdmissible :
        (faults : Rule → List Finding) (own_faults : Ruleset → List Finding) (rs : Ruleset)
        (refs : References)
        → (validate_ruleset quoted faults own_faults rs refs ≡ [])
          ↔ IsAdmissible faults own_faults rs refs
    unfolding validate_ruleset get
    validate_ruleset-IsAdmissible faults own_faults rs refs =
        let (sound, from, to) =
          checks_then _ _ _ _
            (checks_then _ _ _ _
              (checks_then (carry_faults [] (own_faults rs)) _ _ _ (checks_carry [] (own_faults rs))
                (checks_unless (not (is_empty rs.name)) _ _ _))
              (checks-IsSelector quoted _ rs.scope))
            (checks_rules faults refs 0 [] [] rs.rules (λ id some_. refl)) no_findings
            (λ e. refl) in
        (
          λ none_.
              let (_, h) = from none_ in
              record {
                faultless = h.0.0.0;
                named = some_list rs.name h.0.0.1;
                scope = h.0.1;
                rules = h.1;
              },
          λ k. to refl (((k.faultless, list_some rs.name k.named), k.scope), k.rules),
        )
