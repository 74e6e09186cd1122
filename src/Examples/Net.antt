-- ===== src/Examples/Net.antt =====
-- A small network in place of net/netip: an address is a number of 32 bits, written `@` and its one
-- code; a prefix is written `@`, its address, `/`, its length and a full stop. Lengths are 24, 32 and,
-- for every other number, 0.
use innerwall.Prelude.Tests.{
  ℕ, ◌*◌, ◌/◌, ◌≡◌, refl, true, ◌&&◌, Option, none, some, [], ◌∷◌, arith, ◌==◌, if◌then◌else◌,
}
use innerwall.Prelude.Text.{Str, is_space, trim_space, trim_left, trim_right}
use innerwall.Netip.{Netip}

pub record Block : Type 0 where
  pub first : ℕ
  pub bits : ℕ

abbrev pub parse_addr : Str → Option ℕ
parse_addr [] = none
parse_addr (a ∷ []) = none
parse_addr (a ∷ n ∷ []) = if a == 64 then some n else none
parse_addr (a ∷ n ∷ x ∷ s) = none

abbrev pub parse_prefix : Str → Option Block
parse_prefix [] = none
parse_prefix (a ∷ []) = none
parse_prefix (a ∷ n ∷ []) = none
parse_prefix (a ∷ n ∷ s ∷ []) = none
parse_prefix (a ∷ n ∷ s ∷ b ∷ []) = none
parse_prefix (a ∷ n ∷ s ∷ b ∷ e ∷ []) =
    if a == 64 && s == 47 && e == 46 then some (record { first = n; bits = b }) else none
parse_prefix (a ∷ n ∷ s ∷ b ∷ e ∷ x ∷ t) = none

abbrev pub masked : Block → Block
masked p = record p {
  first = if p.bits == 32 then p.first else if p.bits == 24 then p.first / 256 * 256 else 0;
}

abbrev pub text : Block → Str
text p = 64 ∷ p.first ∷ 47 ∷ p.bits ∷ 46 ∷ []

pub parse-text : (p : Block) → parse_prefix (text p) ≡ some p
parse-text p = refl

pub masked_twice : (p : Block) → masked (masked p) ≡ masked p
masked_twice p = ground arith

pub trim-text : (p : Block) → trim_space (text p) ≡ text p
unfolding trim_space trim_left trim_right is_space
trim-text p = refl

pub masked_host :
    (a : ℕ) → masked (record { first = a; bits = 32 }) ≡ record { first = a; bits = 32 }
masked_host a = refl

instance abbrev pub net : Netip
net = record {
  Addr = ℕ;
  Prefix = Block;
  parse_addr = parse_addr;
  parse_prefix = parse_prefix;
  is_valid = λ a. true;
  unmap = λ a. a;
  bit_len = λ a. 32;
  prefix_from = λ a n. record { first = a; bits = n };
  masked = masked;
  prefix_string = text;
  parse-masked = λ s p h. parse-text (masked p);
  masked_idem = masked_twice;
  parse_addr_valid = λ s a h. refl;
  parse-host = λ a h. parse-text (record { first = a; bits = 32 });
  masked-host = λ a h. masked_host a;
  trim-prefix_string = trim-text;
}
