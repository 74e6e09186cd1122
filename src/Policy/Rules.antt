-- ===== src/Policy/Rules.antt =====
-- The admission of authored objects: a peer and a rule are validated without a finding exactly where
-- they are admissible.
use innerwall.Prelude.Tests.{
  ℕ, suc, ◌≡◌, ◌≢◌, ap, ◌⊎◌, inl, inr, true, false, not, ◌&&◌, List, [], ◌∷◌, ◌==◌, is_some, All,
  Bool-cases, arith,
}
use innerwall.Prelude.Order.{eqb→≡, eqb_refl}
use innerwall.Prelude.Sorting.{contains}
use innerwall.Prelude.Text.{Str, str_order}
use innerwall.Netip.{Netip}
use innerwall.Delta.{is_empty}
use innerwall.Policy.{
  direction_inbound, direction_outbound, peer_workloads, peer_address_group, peer_cidr, Peer, Rule,
}
use innerwall.Policy.Validate.{
  Finding, carry_faults, nil_uuid, References, kinds_set, validate_peer, validate_peers,
  validate_direction, validate_rule,
}
use innerwall.Policy.Admission.{
  Checks, checks_nothing, checks_then, checks_iff, checks_add, checks_unless, checks_carry,
  checks_if, empty_list, some_list, list_some, checks_entries, checks_service_ids,
  checks-IsSelector, IsKnownIn, IsSelector, IsEntry,
}

module _ (quoted : Str → Str) where
  module _ ⦃ip : Netip⦄ where
    -- Exactly one of a selector, an address group that exists, or a CIDR.
    abbrev pub IsPeer : References → Peer → Type 0
    IsPeer refs p =
        ((p.kind ≡ peer_workloads)
          × IsSelector p.workloads
          × (p.address_group_id ≡ nil_uuid)
          × (p.cidr ≡ []))
        ⊎ ((p.kind ≡ peer_address_group)
            × IsKnownIn refs.address_groups p.address_group_id
            × (p.workloads ≡ [])
            × (p.cidr ≡ []))
        ⊎ ((p.kind ≡ peer_cidr)
            × (is_some (ip.parse_prefix p.cidr) ≡ true)
            × (p.workloads ≡ [])
            × (p.address_group_id ≡ nil_uuid))

    abbrev PeerSeen : References → Peer → Type 0
    PeerSeen refs p =
        ((not (kinds_set quoted p == 1) ≡ true) × ⊥)
        ⊎ ((not (kinds_set quoted p == 1) ≡ false)
            × ((((p.kind == peer_workloads) ≡ true) × IsSelector p.workloads)
                ⊎ (((p.kind == peer_workloads) ≡ false)
                    × ((((p.kind == peer_address_group) ≡ true)
                          × IsKnownIn refs.address_groups p.address_group_id)
                        ⊎ (((p.kind == peer_address_group) ≡ false)
                            × ((((p.kind == peer_cidr) ≡ true)
                                  × (is_some (ip.parse_prefix p.cidr) ≡ true))
                                ⊎ (((p.kind == peer_cidr) ≡ false) × ⊥)))))))

    peer_seen : (refs : References) (p : Peer) → PeerSeen refs p → IsPeer refs p
    unfolding kinds_set
    peer_seen refs p (inl (h, no_)) = absurd no_
    peer_seen refs p (inr (h, inl (k, s))) = inl (
      ground (arith, k),
      s,
      eqb→≡ p.address_group_id nil_uuid (ground (arith, h, k)),
      empty_list p.cidr (ground (arith, h, k)),
    )
    peer_seen refs p (inr (h, inr (k, inl (g, s)))) = inr (
        inl (
          ground (arith, g),
          s,
          empty_list p.workloads (ground (arith, h, g)),
          empty_list p.cidr (ground (arith, h, g)),
        ))
    peer_seen refs p (inr (h, inr (k, inr (g, inl (c, s))))) = inr (
        inr (
          ground (arith, c),
          s,
          empty_list p.workloads (ground (arith, h, c)),
          eqb→≡ p.address_group_id nil_uuid (ground (arith, h, c)),
        ))
    peer_seen refs p (inr (h, inr (k, inr (g, inr (c, no_))))) = absurd no_

    seen_peer : (refs : References) (p : Peer) → IsPeer refs p → PeerSeen refs p
    unfolding kinds_set
    seen_peer refs p (inl (k, s, g, c)) = inr (
      ground (arith, k, ap (λ x. str_order.eqb x nil_uuid) g, eqb_refl nil_uuid, ap is_empty c),
      inl (ground (arith, k), s),
    )
    seen_peer refs p (inr (inl (k, s, w, c))) = inr (
      ground (arith, k, ap is_empty w, ap is_empty c),
      inr (ground (arith, k), inl (ground (arith, k), s)),
    )
    seen_peer refs p (inr (inr (k, s, w, g))) = inr (
      ground (arith, k, ap is_empty w, ap (λ x. str_order.eqb x nil_uuid) g, eqb_refl nil_uuid),
      inr (ground (arith, k), inr (ground (arith, k), inl (ground (arith, k), s))),
    )

    checks-IsPeer :
        (refs : References) (path : Str) (p : Peer)
        → Checks (validate_peer quoted refs path p) (IsPeer refs p)
    unfolding validate_peer
    checks-IsPeer refs path p =
        checks_iff _ (PeerSeen refs p) (IsPeer refs p) (peer_seen refs p) (seen_peer refs p) (
          checks_if (not (kinds_set quoted p == 1)) _ _ ⊥ _ (checks_add _ _ _) (
            checks_if (p.kind == peer_workloads) _ _ (IsSelector p.workloads) _
              (checks-IsSelector quoted _ p.workloads)
              (checks_if (p.kind == peer_address_group) _ _
                (IsKnownIn refs.address_groups p.address_group_id) _
                (checks_unless (contains p.address_group_id refs.address_groups) _ _ _)
                (checks_if (p.kind == peer_cidr) _ _ (is_some (ip.parse_prefix p.cidr) ≡ true) ⊥
                  (checks_unless (is_some (ip.parse_prefix p.cidr)) _ _ _) (checks_add _ _ _)))))

    checks_peers :
        (refs : References) (path : Str) (i : ℕ) (ps : List Peer)
        → Checks (validate_peers quoted refs path i ps) (All (IsPeer refs) ps)
    unfolding validate_peers
    checks_peers refs path i [] = checks_nothing
    checks_peers refs path i (p ∷ ps) =
        checks_then _ (validate_peers quoted refs path (suc i) ps) (IsPeer refs p)
          (All (IsPeer refs) ps) (checks-IsPeer refs _ p) (checks_peers refs path (suc i) ps)

    checks_direction :
        (path : Str) (r : Rule)
        → Checks (validate_direction quoted path r) (r.direction ≡ direction_inbound)
    unfolding validate_direction
    checks_direction path r =
        checks_iff _ _ (r.direction ≡ direction_inbound)
          (λ h. elim h [
            | inl k ↦ ground (arith, k.0)
            | inr k ↦ elim k.1 [ inl n ↦ absurd n.1 | inr n ↦ absurd n.1 ]
          ])
          (λ h. inl (ground (arith, h), tt))
          (checks_if (r.direction == direction_inbound) (λ f. f) _ (Unit {0}) _ checks_nothing
            (checks_if (r.direction == direction_outbound) _ _ ⊥ ⊥ (checks_add _ _ _)
              (checks_add _ _ _)))

    -- An inbound rule with peers and services that are all admissible, converted without a fault.
    pub record IsRule (faults : Rule → List Finding) (refs : References) (r : Rule) : Type 0 where
      pub faultless : faults r ≡ []
      pub inbound : r.direction ≡ direction_inbound
      pub some_peers : r.peers ≢ []
      pub peers : All (IsPeer refs) r.peers
      pub some_services : (r.service_ids ≢ []) ⊎ (r.entries ≢ [])
      pub services : All (IsKnownIn refs.services) r.service_ids
      pub entries : All IsEntry r.entries

    served :
        (r : Rule)
        → not (is_empty r.service_ids && is_empty r.entries) ≡ true
        → (r.service_ids ≢ []) ⊎ (r.entries ≢ [])
    served r h = elim (Bool-cases (is_empty r.service_ids)) [
      | inl none_ ↦ inr (some_list r.entries (ground (arith, none_, h)))
      | inr some_ ↦ inl (some_list r.service_ids (ground (arith, some_)))
    ]

    serves :
        (r : Rule)
        → (r.service_ids ≢ []) ⊎ (r.entries ≢ [])
        → not (is_empty r.service_ids && is_empty r.entries) ≡ true
    serves r (inl h) = ground (arith, list_some r.service_ids h)
    serves r (inr h) = ground (arith, list_some r.entries h)

    pub checks-IsRule :
        (faults : Rule → List Finding) (refs : References) (path : Str) (r : Rule)
        → Checks (validate_rule quoted faults refs path r) (IsRule faults refs r)
    unfolding validate_rule
    checks-IsRule faults refs path r =
        checks_iff _ _ (IsRule faults refs r)
          (λ (h : ((((((faults r ≡ []) × (r.direction ≡ direction_inbound))
                      × (not (is_empty r.peers) ≡ true))
                    × All (IsPeer refs) r.peers)
                  × (not (is_empty r.service_ids && is_empty r.entries) ≡ true))
                × All (IsKnownIn refs.services) r.service_ids)
              × All IsEntry r.entries).
            record {
              faultless = h.0.0.0.0.0.0;
              inbound = h.0.0.0.0.0.1;
              some_peers = some_list r.peers h.0.0.0.0.1;
              peers = h.0.0.0.1;
              some_services = served r h.0.0.1;
              services = h.0.1;
              entries = h.1;
            })
          (λ k. (
            (
              (
                (((k.faultless, k.inbound), list_some r.peers k.some_peers), k.peers),
                serves r k.some_services,
              ),
              k.services,
            ),
            k.entries,
          ))
          (checks_then _ _ _ _
            (checks_then _ _ _ _
              (checks_then _ _ _ _
                (checks_then _ _ _ _
                  (checks_then _ _ _ _
                    (checks_then (carry_faults path (faults r)) _ _ _ (checks_carry path (faults r))
                      (checks_direction path r))
                    (checks_unless (not (is_empty r.peers)) _ _ _))
                  (checks_peers refs _ 0 r.peers))
                (checks_unless (not (is_empty r.service_ids && is_empty r.entries)) _ _ _))
              (checks_service_ids refs _ 0 r.service_ids))
            (checks_entries _ 0 r.entries))
