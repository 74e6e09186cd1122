-- ===== src/Delta/Peers.antt =====
-- internal/rendered/rendered.go: the peer changes of `Diff`, applied one after the other, lead from
-- the old peers of a rule to the new.
use innerwall.Prelude.Tests.{
  ◌≡◌, ◌∙◌, not, ◌&&◌, ◌||◌, List, [], ◌∷◌, ◌++◌, map, arith, if◌then◌else◌,
}
use innerwall.Prelude.Sorting.{
  contains, IsAscending, same_key, contains-ext, minus, contains-minus, IsAscending-minus,
  contains-append,
}
use innerwall.Prelude.Text.{Str, str_order}
use innerwall.Netip.{Netip}
use innerwall.Rendered.{normalize_cidr, canonical_cidrs}
use innerwall.Rendered.Cidr.{
  IsNormal, map-normalize, contains-canonical_cidrs, IsAscending-canonical_cidrs,
}
use innerwall.Delta.{is_empty}

module _ ⦃ip : Netip⦄ where
  -- A peer list of a canonical rule.
  pub record IsCanonicalPeers (xs : List Str) : Type 0 where
    pub ascending : IsAscending same_key xs
    pub normal : IsNormal xs

  IsNormal-append : (xs ys : List Str) → IsNormal xs → IsNormal ys → IsNormal (xs ++ ys)
  IsNormal-append [] ys hx hy = hy
  IsNormal-append (x ∷ xs) ys hx hy = (hx.0, IsNormal-append xs ys hx.1 hy)

  IsNormal-minus : (xs ys : List Str) → IsNormal xs → IsNormal (minus xs ys)
  unfolding minus
  IsNormal-minus [] ys h = tt
  IsNormal-minus (x ∷ xs) ys h = ground (arith, IsNormal-minus xs ys h.1)

  abbrev pub with_added : List Str → List Str → List Str
  with_added old added = if is_empty added then old else canonical_cidrs (old ++ added)

  abbrev pub with_removed : List Str → List Str → List Str
  with_removed mid removed =
      if is_empty removed then mid else minus mid (map normalize_cidr removed)

  contains-with_added :
      (k : Str) (old added : List Str)
      → IsNormal old
      → IsNormal added
      → contains k (with_added old added) ≡ (contains k old || contains k added)
  contains-with_added k old [] ho ha = ground arith
  contains-with_added k old (x ∷ added) ho ha =
      contains-canonical_cidrs k (old ++ x ∷ added) (IsNormal-append old (x ∷ added) ho ha)
      ∙ contains-append k old (x ∷ added)

  contains-with_removed :
      (k : Str) (mid removed : List Str)
      → IsNormal removed
      → contains k (with_removed mid removed) ≡ (contains k mid && not (contains k removed))
  contains-with_removed k mid [] hr = ground arith
  contains-with_removed k mid (x ∷ removed) hr =
      rw (map-normalize (x ∷ removed) hr) (contains-minus k mid (x ∷ removed))

  IsAscending-with_added :
      (old added : List Str)
      → IsAscending same_key old
      → IsAscending same_key (with_added old added)
  IsAscending-with_added old [] h = h
  IsAscending-with_added old (x ∷ added) h = IsAscending-canonical_cidrs (old ++ x ∷ added)

  IsAscending-with_removed :
      (mid removed : List Str)
      → IsAscending same_key mid
      → IsAscending same_key (with_removed mid removed)
  IsAscending-with_removed mid [] h = h
  IsAscending-with_removed mid (x ∷ removed) h =
      IsAscending-minus mid (map normalize_cidr (x ∷ removed)) h

  -- Adding what is new and then removing what is gone gives the new peers.
  pub peers_moved :
      (old cur : List Str)
      → IsCanonicalPeers old
      → IsCanonicalPeers cur
      → with_removed (with_added old (minus cur old)) (minus old cur) ≡ cur
  peers_moved old cur ho hc =
      contains-ext (with_removed (with_added old (minus cur old)) (minus old cur)) cur
        (IsAscending-with_removed (with_added old (minus cur old)) (minus old cur)
          (IsAscending-with_added old (minus cur old) ho.ascending))
        hc.ascending
        (λ k.
          contains-with_removed k (with_added old (minus cur old)) (minus old cur)
            (IsNormal-minus old cur ho.normal)
          ∙ ground (
            arith,
            contains-with_added k old (minus cur old) ho.normal (IsNormal-minus cur old hc.normal),
            contains-minus k cur old,
            contains-minus k old cur,
          ))
