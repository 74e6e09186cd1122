-- ===== src/Policy/Labels.antt =====
-- internal/policy/labels.go: the label grammar.
use innerwall.Prelude.Tests.{
  ℕ, suc, ◌+◌, ◌-◌, ◌≡◌, refl, Bool, true, false, not, ◌&&◌, ◌||◌, Option, none, some, [], ◌∷◌, ltb,
  leb, ◌==◌, if◌then◌else◌, length, arith,
}
use innerwall.Prelude.Text.{Str}

abbrev pub max_label_length : ℕ
max_label_length = 63

unfoldable pub is_alnum : ℕ → Bool
is_alnum c = (leb b'a' c && leb c b'z') || (leb b'A' c && leb c b'Z') || (leb b'0' c && leb c b'9')

unfoldable pub is_inner : Bool → ℕ → Bool
is_inner key c = c == b'.' || c == b'_' || c == b'-' || (c == b'/' && key)

-- The loop of `inGrammar` from the index `i` of a text of length `n`.
unfoldable pub grammar_from : Bool → ℕ → ℕ → Str → Bool
grammar_from key i n [] = true
grammar_from key i n (c ∷ cs) =
    let rest = grammar_from key (suc i) n cs in
    if is_alnum c
    then rest
    else if i == 0 || i == n - 1
    then false
    else if is_inner key c
    then rest
    else false

-- A byte outside ASCII is refused as its code point is, so that code points stand for bytes.
unfoldable pub in_grammar : Str → Bool → Bool
unfolding grammar_from
in_grammar s key =
    if length s == 0 || ltb max_label_length (length s)
    then false
    else grammar_from key 0 (length s) s

pub data LabelError : Type 0 where
  empty_label_key : LabelError
  bad_label_key : LabelError
  bad_label_value : LabelError

unfoldable pub check_label_key : Str → Option LabelError
check_label_key key =
    if length key == 0
    then some empty_label_key
    else if not (in_grammar key true)
    then some bad_label_key
    else none

unfoldable pub check_label_value : Str → Option LabelError
check_label_value value = if not (in_grammar value false) then some bad_label_value else none

-- The grammar as a text is read: letters, digits and inner characters, that end with a letter or digit.
abbrev pub ends_well : Bool → Str → Bool
ends_well key [] = true
ends_well key (c ∷ []) = is_alnum c
ends_well key (c ∷ d ∷ cs) = (is_alnum c || is_inner key c) && ends_well key (d ∷ cs)

-- A label: its first character is a letter or digit too, and there are 1 to 63.
abbrev pub is_label : Bool → Str → Bool
is_label key [] = false
is_label key (c ∷ cs) =
    is_alnum c && ends_well key (c ∷ cs) && leb (length (c ∷ cs)) max_label_length

grammar_from-ends_well :
    (key : Bool) (i n : ℕ) (s : Str)
    → n ≡ suc i + length s
    → grammar_from key (suc i) n s ≡ ends_well key s
unfolding grammar_from
grammar_from-ends_well key i n [] e = refl
grammar_from-ends_well key i n (c ∷ []) e = ground (arith, e)
grammar_from-ends_well key i n (c ∷ d ∷ cs) e =
    let rest = grammar_from-ends_well key (suc i) n (d ∷ cs) (omega (arith, e)) in
    let inside : (suc i == n - 1) ≡ false = ground (arith, e) in ground (arith, rest, inside)

-- The grammar's loop accepts a text exactly where it is a label: 1 to 63 characters that are letters,
-- digits or inner ones, of which the first and the last are letters or digits.
pub in_grammar-is_label : (key : Bool) (s : Str) → in_grammar s key ≡ is_label key s
unfolding in_grammar grammar_from
in_grammar-is_label key [] = refl
in_grammar-is_label key (c ∷ []) = ground arith
in_grammar-is_label key (c ∷ d ∷ cs) =
    ground (arith, grammar_from-ends_well key 0 (length (c ∷ d ∷ cs)) (d ∷ cs) (omega arith))
