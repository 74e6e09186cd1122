-- ===== src/Prelude/Text.antt =====
-- Go strings as lists of code points. UTF-8 orders strings by bytes as by code points, so Go's `<`
-- is the lexicographic order of the lists.
use Prim.Native.Char.{code}
use Prim.Native.String.{String}
use innerwall.Prelude.Tests.{
  ℕ, zero, suc, ◌+◌, ◌/◌, ◌%◌, ltb, ◌≡◌, refl, inl, inr, Bool, false, ◌&&◌, ◌||◌, List, [], ◌∷◌,
  leb, ◌==◌, if◌then◌else◌, Bool-cases,
}
use innerwall.Prelude.Order.{Order, nat_order, list_order}

abbrev pub Str : Type 0
Str = List ℕ

instance abbrev pub str_order : Order Str
str_order = list_order

-- The code points of a literal.
abbrev pub codes : String → Str
codes String.[] = []
codes (String.◌∷◌ c s) = code c ∷ codes s

-- `unicode.IsSpace`.
unfoldable pub is_space : ℕ → Bool
is_space c =
    (leb 9 c && leb c 13)
    || c == 32
    || c == 0x85
    || c == 0xa0
    || c == 0x1680
    || (leb 0x2000 c && leb c 0x200a)
    || c == 0x2028
    || c == 0x2029
    || c == 0x202f
    || c == 0x205f
    || c == 0x3000

unfoldable pub trim_left : Str → Str
trim_left [] = []
trim_left (c ∷ cs) = if is_space c then trim_left cs else c ∷ cs

drop_if : Bool → ℕ → Str → Str
drop_if b c [] = if b then [] else c ∷ []
drop_if b c (d ∷ ds) = c ∷ d ∷ ds

unfoldable pub trim_right : Str → Str
unfolding drop_if
trim_right [] = []
trim_right (c ∷ cs) = drop_if (is_space c) c (trim_right cs)

-- `strings.TrimSpace`.
unfoldable pub trim_space : Str → Str
unfolding trim_left trim_right
trim_space s = trim_right (trim_left s)

trim_right-drop_if :
    (c : ℕ) (s : Str)
    → trim_right s ≡ s
    → trim_right (drop_if (is_space c) c s) ≡ drop_if (is_space c) c s
unfolding trim_right
trim_right-drop_if c [] h = elim (Bool-cases (is_space c)) [ inl e ↦ rw e | inr e ↦ simp e ]
trim_right-drop_if c (d ∷ ds) h = simp h

trim_right_idem : (s : Str) → trim_right (trim_right s) ≡ trim_right s
unfolding trim_right
trim_right_idem [] = refl
trim_right_idem (c ∷ cs) = trim_right-drop_if c (trim_right cs) (trim_right_idem cs)

trim_left-drop_if :
    (c : ℕ) (s : Str) → is_space c ≡ false → trim_left (drop_if false c s) ≡ drop_if false c s
unfolding trim_left drop_if
trim_left-drop_if c [] h = rw h
trim_left-drop_if c (d ∷ ds) h = rw h

trim_left-trim_right : (s : Str) → trim_left (trim_right (trim_left s)) ≡ trim_right (trim_left s)
unfolding trim_left trim_right
trim_left-trim_right [] = refl
trim_left-trim_right (c ∷ cs) = elim (Bool-cases (is_space c)) [
  | inl e ↦ rw e (trim_left-trim_right cs)
  | inr e ↦ rw e (rw (e, trim_right) (trim_left-drop_if c (trim_right cs) e))
]

pub trim_space_idem : (s : Str) → trim_space (trim_space s) ≡ trim_space s
unfolding trim_space
trim_space_idem s = rw trim_left-trim_right (trim_right_idem (trim_left s))

unfoldable pub decimal_from : ℕ → ℕ → Str → Str
decimal_from zero n acc = acc
decimal_from (suc fuel) n acc =
    let rest = decimal_from fuel (n / 10) ((b'0' + n % 10) ∷ acc) in
    if ltb n 10 then (b'0' + n) ∷ acc else rest

-- `strconv.Itoa` of a number that is not negative; `n + 1` rounds are more than it has digits.
unfoldable pub decimal : ℕ → Str
unfolding decimal_from
decimal n = decimal_from (n + 1) n []
