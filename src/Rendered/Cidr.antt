-- ===== src/Rendered/Cidr.antt =====
-- internal/rendered/rendered.go, NormalizeCIDR and canonicalCIDRs: normal forms of peer lists.
use innerwall.Prelude.Tests.{
  ◌≡◌, refl, ◌∙◌, ap, inl, inr, true, none, some, List, [], ◌∷◌, map, arith, Option-cases, All,
}
use innerwall.Prelude.Order.{eqb_refl, eqb-cases}
use innerwall.Prelude.Sorting.{
  contains, sort, compact, IsAscending, same_key, IsAscending-compact, compact-sort-IsAscending,
  contains-sort, contains-compact,
}
use innerwall.Prelude.Text.{Str, str_order, trim_space, trim_space_idem}
use innerwall.Netip.{Netip}
use innerwall.Rendered.{
  host_route, address_or_text, prefix_or_else, normalize_cidr, canonical_cidrs,
}

module _ ⦃ip : Netip⦄ where
  normalize-prefix_string :
      (p : ip.Prefix)
      → ip.parse_prefix (ip.prefix_string p) ≡ some p
      → ip.masked p ≡ p
      → normalize_cidr (ip.prefix_string p) ≡ ip.prefix_string p
  unfolding normalize_cidr
  normalize-prefix_string p parses same =
      rw (ip.trim-prefix_string p, parses) (ap ip.prefix_string same)

  -- A valid address's host route is normal.
  pub normalize-host_route :
      (a : ip.Addr) → ip.is_valid a ≡ true → normalize_cidr (host_route a) ≡ host_route a
  unfolding host_route
  normalize-host_route a v =
      normalize-prefix_string (ip.prefix_from (ip.unmap a) (ip.bit_len (ip.unmap a)))
        (ip.parse-host a v) (ip.masked-host a v)

  normalize-text :
      (s : Str)
      → trim_space s ≡ s
      → ip.parse_prefix s ≡ none
      → ip.parse_addr s ≡ none
      → normalize_cidr s ≡ s
  unfolding normalize_cidr
  normalize-text s trimmed no_prefix no_addr = rw (trimmed, no_prefix) (rw no_addr)

  normalize-address_or_text :
      (s : Str)
      → trim_space s ≡ s
      → ip.parse_prefix s ≡ none
      → normalize_cidr (address_or_text s (ip.parse_addr s)) ≡ address_or_text s (ip.parse_addr s)
  unfolding address_or_text
  normalize-address_or_text s trimmed no_prefix = elim (Option-cases (ip.parse_addr s)) [
    | inl e ↦ rw e (normalize-text s trimmed no_prefix e)
    | inr (a, e) ↦ rw e (normalize-host_route a (ip.parse_addr_valid s a e))
  ]

  normalize-prefix_or_else :
      (s : Str)
      → trim_space s ≡ s
      → normalize_cidr (prefix_or_else s (ip.parse_prefix s)) ≡ prefix_or_else s (ip.parse_prefix s)
  unfolding prefix_or_else
  normalize-prefix_or_else s trimmed = elim (Option-cases (ip.parse_prefix s)) [
    | inl e ↦ rw e (normalize-address_or_text s trimmed e)
    | inr (p, e) ↦
        rw e (normalize-prefix_string (ip.masked p) (ip.parse-masked s p e) (ip.masked_idem p))
  ]

  -- Normalizing the text of a peer a second time changes nothing.
  pub normalize_cidr_idem : (s : Str) → normalize_cidr (normalize_cidr s) ≡ normalize_cidr s
  normalize_cidr_idem s =
      let fixed = normalize-prefix_or_else (trim_space s) (trim_space_idem s) in
      unfold normalize_cidr in fixed

  -- Every peer of the list is in normal form.
  abbrev pub IsNormal : List Str → Type 0
  IsNormal xs = All (λ s. normalize_cidr s ≡ s) xs

  pub map-normalize : (xs : List Str) → IsNormal xs → map normalize_cidr xs ≡ xs
  map-normalize [] h = refl
  map-normalize (x ∷ xs) h = cc (h.0, map-normalize xs h.1)

  -- A sorted list of normal peers is its own canonical form.
  pub canonical_cidrs_fixed :
      (xs : List Str) → IsAscending same_key xs → IsNormal xs → canonical_cidrs xs ≡ xs
  unfolding canonical_cidrs
  canonical_cidrs_fixed xs a n = rw (map-normalize xs n) (compact-sort-IsAscending xs a)

  pub IsAscending-canonical_cidrs : (xs : List Str) → IsAscending same_key (canonical_cidrs xs)
  unfolding canonical_cidrs
  IsAscending-canonical_cidrs xs = IsAscending-compact (map normalize_cidr xs)

  contains-map-normalize :
      (k : Str) (xs : List Str) → contains k (map normalize_cidr xs) ≡ true → normalize_cidr k ≡ k
  contains-map-normalize k [] h = cc
  contains-map-normalize k (x ∷ xs) h = elim (eqb-cases (normalize_cidr x) k) [
    | inl e ↦ cc (normalize_cidr_idem x)
    | inr ne ↦ contains-map-normalize k xs (ground (arith, ne))
  ]

  All-of_contains :
      {P : Str → Type 0} (xs : List Str) → ((k : Str) → contains k xs ≡ true → P k) → All P xs
  All-of_contains [] h = tt
  All-of_contains (x ∷ xs) h =
      (h x (ground (arith, eqb_refl x)), All-of_contains xs (λ k c. h k (ground (arith, c))))

  pub IsNormal-canonical_cidrs : (xs : List Str) → IsNormal (canonical_cidrs xs)
  unfolding canonical_cidrs
  IsNormal-canonical_cidrs xs = All-of_contains (compact (sort (map normalize_cidr xs))) (λ k c.
      contains-map-normalize k xs (
        ground (
          arith,
          contains-compact k (sort (map normalize_cidr xs)),
          contains-sort k (map normalize_cidr xs),
        )))

  pub canonical_cidrs_idem :
      (xs : List Str) → canonical_cidrs (canonical_cidrs xs) ≡ canonical_cidrs xs
  canonical_cidrs_idem xs =
      canonical_cidrs_fixed (canonical_cidrs xs) (IsAscending-canonical_cidrs xs)
        (IsNormal-canonical_cidrs xs)

  -- Canonical form keeps the members of a normal list.
  pub contains-canonical_cidrs :
      (k : Str) (xs : List Str) → IsNormal xs → contains k (canonical_cidrs xs) ≡ contains k xs
  unfolding canonical_cidrs
  contains-canonical_cidrs k xs n =
      contains-compact k (sort (map normalize_cidr xs))
      ∙ contains-sort k (map normalize_cidr xs)
      ∙ ap (contains k) (map-normalize xs n)
