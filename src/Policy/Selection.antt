-- ===== src/Policy/Selection.antt =====
-- internal/policy/model.go, Selector.Matches and MatchWorkloads: what a selector selects.
use innerwall.Prelude.Tests.{
  ◌≡◌, refl, sym, ◌∙◌, ap, inl, inr, ◌↔◌, ◌≢◌, true, some, List, [], ◌∷◌, arith, is_some,
  Option-cases,
}
use innerwall.Prelude.Order.{eqb→≡, eqb_refl, eqb-cases, ◌=?◌}
use innerwall.Prelude.Sorting.{contains}
use innerwall.Prelude.Dict.{get, keys, IsDict, contains-keys}
use innerwall.Prelude.Text.{Str, str_order}
use innerwall.Policy.{Selector, Labels, value_listed, value_matches, all_match, matches}

value_listed-contains : (have : Str) (vs : List Str) → value_listed have vs ≡ contains have vs
unfolding value_listed
value_listed-contains have [] = refl
value_listed-contains have (v ∷ vs) = rw (value_listed-contains have vs)

-- The labels give the key one of the values.
abbrev pub IsMet : Labels → Str → List Str → Type 0
IsMet labels key values =
    (have : Str) × (get key labels ≡ some have) × (contains have values ≡ true)

-- Every requirement of the selector is met.
abbrev pub AllMet : Selector → Labels → Type 0
AllMet s labels =
    (key : Str) (values : List Str) → get key s ≡ some values → IsMet labels key values

all_match→ : (s : Selector) (labels : Labels) → all_match s labels ≡ true → AllMet s labels
unfolding all_match get value_matches
all_match→ [] labels h key values g = cc
all_match→ ((k, vs) ∷ s) labels h key values g = elim (eqb-cases k key) [
  | inl e ↦ elim (Option-cases (get k labels)) [
    | inl n ↦ ground (arith, ap (value_matches vs) n)
    | inr (have, m) ↦ (
      have,
      ap (λ j. get j labels) (sym e) ∙ m,
      ground (
        arith,
        ap (value_matches vs) m,
        value_listed-contains have vs,
        eqb_refl k,
        ap (λ j. k =? j) e,
      ),
    )
  ]
  | inr ne ↦ all_match→ s labels (ground arith) key values (ground arith)
]

all_match← :
    (s : Selector) (labels : Labels) → IsDict s → AllMet s labels → all_match s labels ≡ true
unfolding all_match keys get value_matches
all_match← [] labels d h = refl
all_match← ((k, vs) ∷ s) labels d h =
    let (have, g, c) = h k vs (ground (arith, eqb_refl k)) in
    rw (g, value_matches)
      (ground (
        arith,
        value_listed-contains have vs,
        c,
        all_match← s labels d.1 (λ key values e.
            h key values (ground (arith, eqb→≡ k key, contains-keys k s, ap is_some e, e, d.0))),
      ))

-- A selector of distinct keys matches labels exactly when it is not empty and, for each of its keys, the labels have
-- the key with one of the values listed for it.
pub matches_iff :
    (s : Selector) (labels : Labels)
    → IsDict s
    → (matches s labels ≡ true) ↔ ((s ≢ []) × AllMet s labels)
unfolding matches
matches_iff [] labels d = (λ h. cc, λ h. absurd (h.0 refl))
matches_iff ((k, vs) ∷ s) labels d =
    (λ h. (λ e. cc, all_match→ ((k, vs) ∷ s) labels h), λ h. all_match← ((k, vs) ∷ s) labels d h.1)
