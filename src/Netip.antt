-- ===== src/Netip.antt =====
-- What the program uses of Go's package net/netip, with the documented behaviour that it relies on.
-- internal/rendered/rendered.go parses, masks and prints prefixes through it.
use innerwall.Prelude.Tests.{ℕ, ◌≡◌, Bool, true, Option, some}
use innerwall.Prelude.Text.{Str, trim_space}

pub record Netip : Type 1 where
  pub Addr : Type 0
  pub Prefix : Type 0
  pub parse_addr : Str → Option Addr
  pub parse_prefix : Str → Option Prefix
  pub is_valid : Addr → Bool
  pub unmap : Addr → Addr
  pub bit_len : Addr → ℕ
  pub prefix_from : Addr → ℕ → Prefix
  pub masked : Prefix → Prefix
  pub prefix_string : Prefix → Str
  -- A prefix that was parsed prints, once masked, as text that parses to it.
  pub parse-masked :
      (s : Str) (p : Prefix)
      → parse_prefix s ≡ some p
      → parse_prefix (prefix_string (masked p)) ≡ some (masked p)
  pub masked_idem : (p : Prefix) → masked (masked p) ≡ masked p
  -- What parses is a valid address.
  pub parse_addr_valid : (s : Str) (a : Addr) → parse_addr s ≡ some a → is_valid a ≡ true
  -- The prefix of a valid address's full length prints as text that parses to it, and is masked.
  pub parse-host :
      (a : Addr)
      → is_valid a ≡ true
      → parse_prefix (prefix_string (prefix_from (unmap a) (bit_len (unmap a))))
        ≡ some (prefix_from (unmap a) (bit_len (unmap a)))
  pub masked-host :
      (a : Addr)
      → is_valid a ≡ true
      → masked (prefix_from (unmap a) (bit_len (unmap a)))
        ≡ prefix_from (unmap a) (bit_len (unmap a))
  -- The printed form has no space around it.
  pub trim-prefix_string : (p : Prefix) → trim_space (prefix_string p) ≡ prefix_string p
