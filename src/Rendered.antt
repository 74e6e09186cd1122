-- ===== src/Rendered.antt =====
-- internal/rendered/rendered.go: the rendered policy model and its canonical form. The laws are in
-- the modules below.
pub mod Cidr
pub mod Canon
use innerwall.Prelude.Tests.{
  ℕ, suc, ◌≡◌, refl, Bool, true, false, ◌&&◌, ◌||◌, Option, none, some, List, [], ◌∷◌, map, ltb,
  ◌==◌, if◌then◌else◌, ◌↔◌, arith,
}
use innerwall.Prelude.Order.{Order}
use innerwall.Prelude.Sorting.{sort, compact}
use innerwall.Prelude.Dict.{get, put, keys, values_at}
use innerwall.Prelude.Text.{Str, str_order, codes, trim_space}
use innerwall.Netip.{Netip}

-- Protobuf enums are open numbers.
abbrev pub Protocol : Type 0
Protocol = ℕ

abbrev pub Mode : Type 0
Mode = ℕ

abbrev pub mode_unspecified : Mode
mode_unspecified = 0

abbrev pub mode_visibility : Mode
mode_visibility = 1

abbrev pub mode_simulation : Mode
mode_simulation = 2

abbrev pub mode_enforced : Mode
mode_enforced = 3

pub record PortRange : Type 0 where
  pub start : ℕ
  pub end : ℕ

pub record ResolvedRule : Type 0 where
  pub rule_id : Str
  pub peer_cidrs : List Str
  pub protocol : Protocol
  pub ports : List PortRange

pub record WorkloadPolicy : Type 0 where
  pub version : ℕ
  pub mode : Mode
  pub inbound_rules : List ResolvedRule

-- The order of `canonicalPorts`: by start, then by end.
abbrev pub port_lt : PortRange → PortRange → Bool
port_lt a b = if a.start == b.start then ltb a.end b.end else ltb a.start b.start

abbrev pub port_eqb : PortRange → PortRange → Bool
port_eqb a b = a.start == b.start && a.end == b.end

pub port_eqb_iff : (a b : PortRange) → (port_eqb a b ≡ true) ↔ (a ≡ b)
port_eqb_iff a b = ground arith

pub port_irrefl : (a : PortRange) → port_lt a a ≡ false
port_irrefl a = ground arith

pub port_trans : (a b c : PortRange) → port_lt a b ≡ true → port_lt b c ≡ true → port_lt a c ≡ true
port_trans a b c p q = ground arith

pub port_connex : (a b : PortRange) → port_lt a b ≡ false → port_lt b a ≡ false → a ≡ b
port_connex a b p q = ground arith

instance abbrev pub port_order : Order PortRange
port_order = record {
  lt = port_lt;
  eqb = port_eqb;
  eqb_iff = port_eqb_iff;
  irrefl = port_irrefl;
  trans = port_trans;
  connex = port_connex;
}

-- `Empty`.
unfoldable pub empty : WorkloadPolicy
empty = record { version = 0; mode = mode_visibility; inbound_rules = [] }

module _ ⦃ip : Netip⦄ where
  unfoldable pub host_route : ip.Addr → Str
  host_route addr = let a = ip.unmap addr in ip.prefix_string (ip.prefix_from a (ip.bit_len a))

  unfoldable pub address_or_text : Str → Option ip.Addr → Str
  unfolding host_route
  address_or_text s none = s
  address_or_text s (some addr) = host_route addr

  unfoldable pub prefix_or_else : Str → Option ip.Prefix → Str
  unfolding address_or_text
  prefix_or_else s none = address_or_text s (ip.parse_addr s)
  prefix_or_else s (some pfx) = ip.prefix_string (ip.masked pfx)

  unfoldable pub normalize_cidr : Str → Str
  unfolding prefix_or_else
  normalize_cidr text = let s = trim_space text in prefix_or_else s (ip.parse_prefix s)

  unfoldable pub canonical_cidrs : List Str → List Str
  canonical_cidrs cidrs = compact (sort (map normalize_cidr cidrs))

  unfoldable pub canonical_ports : List PortRange → List PortRange
  canonical_ports ports = compact (sort ports)

  unfoldable pub canonical_rule : ResolvedRule → ResolvedRule
  canonical_rule r = record {
    rule_id = r.rule_id;
    peer_cidrs = canonical_cidrs r.peer_cidrs;
    protocol = r.protocol;
    ports = canonical_ports r.ports;
  }

  -- The loop that fills `byID`: a later rule replaces an earlier one of its id.
  unfoldable pub by_id : List (Str × ResolvedRule) → List ResolvedRule → List (Str × ResolvedRule)
  by_id m [] = m
  by_id m (r ∷ rs) = by_id (put r.rule_id (canonical_rule r) m) rs

  unfoldable pub canonical_rules : List ResolvedRule → List ResolvedRule
  unfolding by_id
  canonical_rules rules = let m = by_id [] rules in values_at m (sort (keys m))

  unfoldable pub canonical : WorkloadPolicy → WorkloadPolicy
  canonical p = record {
    version = p.version;
    mode = p.mode;
    inbound_rules = canonical_rules p.inbound_rules;
  }
