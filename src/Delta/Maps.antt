-- ===== src/Delta/Maps.antt =====
-- internal/rendered/rendered.go, indexRules: the rules of a canonical policy as a map.
use innerwall.Prelude.Tests.{
  ◌≡◌, refl, sym, ◌∙◌, true, false, ◌||◌, some, List, [], ◌∷◌, ◌++◌, arith, or_else, is_some,
}
use innerwall.Prelude.Order.{eqb_refl}
use innerwall.Prelude.Sorting.{
  contains, IsNodup, IsAscending, same_key, find_last, minus, contains-minus, contains-append,
  contains-sort, IsAscending-sort,
}
use innerwall.Prelude.Dict.{get, put, keys, get-put, IsDict, IsDict-put, contains-keys}
use innerwall.Prelude.Text.{Str, str_order}
use innerwall.Netip.{Netip}
use innerwall.Rendered.{ResolvedRule, canonical_rule, canonical_rules}
use innerwall.Rendered.Canon.{rule_of, rule_of-canonical_fixed}
use innerwall.Delta.{RuleMap, index_from, index_rules, all_ids}

get-index_from :
    (id : Str) (m : RuleMap) (rules : List ResolvedRule)
    → get id (index_from m rules) ≡ or_else (rule_of id rules) (get id m)
unfolding index_from find_last
get-index_from id m [] = refl
get-index_from id m (r ∷ rules) =
    ground (arith, get-index_from id (put r.rule_id r m) rules, get-put r.rule_id id r m)

-- A lookup in the index finds the last rule of the id.
pub get-index_rules :
    (id : Str) (rules : List ResolvedRule) → get id (index_rules rules) ≡ rule_of id rules
unfolding index_rules get
get-index_rules id rules = ground (arith, get-index_from id [] rules)

IsDict-index_from :
    (m : RuleMap) (rules : List ResolvedRule) → IsDict m → IsDict (index_from m rules)
unfolding index_from
IsDict-index_from m [] h = h
IsDict-index_from m (r ∷ rules) h =
    IsDict-index_from (put r.rule_id r m) rules (IsDict-put r.rule_id r m h)

pub IsDict-index_rules : (rules : List ResolvedRule) → IsDict (index_rules rules)
unfolding index_rules keys
IsDict-index_rules rules = IsDict-index_from [] rules tt

-- Every rule of a map is canonical and stands under its own id.
abbrev pub IsCanonicalMap : ⦃ip : Netip⦄ → RuleMap → Type 0
IsCanonicalMap m =
    (id : Str) (r : ResolvedRule) → get id m ≡ some r → (canonical_rule r ≡ r) × (r.rule_id ≡ id)

pub IsCanonicalMap-index_rules :
    ⦃ip : Netip⦄ (rules : List ResolvedRule) → IsCanonicalMap (index_rules (canonical_rules rules))
IsCanonicalMap-index_rules rules id r h =
    rule_of-canonical_fixed id rules r (sym (get-index_rules id (canonical_rules rules)) ∙ h)

IsNodup-minus : (xs ys : List Str) → IsNodup xs → IsNodup (minus xs ys)
unfolding minus
IsNodup-minus [] ys h = tt
IsNodup-minus (x ∷ xs) ys h = ground (arith, IsNodup-minus xs ys h.1, contains-minus x xs ys)

IsNodup-append :
    (xs ys : List Str)
    → IsNodup xs
    → IsNodup ys
    → ((k : Str) → contains k xs ≡ true → contains k ys ≡ false)
    → IsNodup (xs ++ ys)
IsNodup-append [] ys hx hy apart = hy
IsNodup-append (x ∷ xs) ys hx hy apart = (
  ground (arith, contains-append x xs ys, hx.0, apart x, eqb_refl x),
  IsNodup-append xs ys hx.1 hy (λ k c. apart k (ground (arith, c))),
)

pub IsAscending-all_ids :
    (old cur : RuleMap) → IsDict old → IsDict cur → IsAscending same_key (all_ids old cur)
unfolding all_ids
IsAscending-all_ids old cur ho hc = IsAscending-sort (keys old ++ minus (keys cur) (keys old)) (
    IsNodup-append (keys old) (minus (keys cur) (keys old)) ho
      (IsNodup-minus (keys cur) (keys old) hc)
      (λ k c. ground (arith, contains-minus k (keys cur) (keys old), c)))

-- The ids of either map are those that one of the maps has.
pub contains-all_ids :
    (id : Str) (old cur : RuleMap)
    → contains id (all_ids old cur) ≡ (is_some (get id old) || is_some (get id cur))
unfolding all_ids
contains-all_ids id old cur = ground (
  arith,
  contains-sort id (keys old ++ minus (keys cur) (keys old)),
  contains-append id (keys old) (minus (keys cur) (keys old)),
  contains-minus id (keys cur) (keys old),
  contains-keys id old,
  contains-keys id cur,
)
