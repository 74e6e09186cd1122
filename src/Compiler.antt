-- ===== src/Compiler.antt =====
-- internal/compiler/render.go and internal/rendered/ruleid.go: rendering the authored model and the
-- registry into each workload's policy. The laws are in the modules below.
pub mod Services
pub mod Retired
pub mod Authored
pub mod Lookup
use innerwall.Prelude.Tests.{
  ℕ, ◌≡◌, Bool, true, false, not, ◌&&◌, ◌||◌, Option, none, some, List, [], ◌∷◌, ◌++◌, map, ◌==◌,
  if◌then◌else◌, is_some,
}
use innerwall.Prelude.Order.{nat_order}
use innerwall.Prelude.Dict.{get, put}
use innerwall.Prelude.Text.{Str, str_order, codes, decimal}
use innerwall.Netip.{Netip}
use innerwall.Rendered.{
  Protocol, Mode, mode_unspecified, mode_visibility, PortRange, ResolvedRule, WorkloadPolicy,
  host_route, normalize_cidr, canonical,
}
use innerwall.Policy.{
  Uuid, direction_inbound, ServiceEntry, Service, AddressGroup, peer_workloads, peer_address_group,
  peer_cidr, Peer, Rule, Ruleset, Labels, matches, Label, label_map,
}

abbrev pub tcp : Protocol
tcp = 1

abbrev pub udp : Protocol
udp = 2

abbrev pub icmp : Protocol
icmp = 3

-- The lower-case name of an enum value without its prefix; a value with no name prints as a number.
unfoldable pub proto_name : Protocol → Str
proto_name p =
    if p == 0
    then codes "unspecified"
    else if p == tcp
    then codes "tcp"
    else if p == udp
    then codes "udp"
    else if p == icmp
    then codes "icmp"
    else decimal p

-- `RuleID`.
unfoldable pub rule_id : Str → Protocol → Str
rule_id authored_id p = authored_id ++ (b'/' ∷ proto_name p)

-- What the compiler reads of the registry's record of a workload (internal/registry/registry.go).
pub record Workload (Addr : Type 0) : Type 0 where
  pub id : Uuid
  pub labels : List Label
  pub mode : Mode
  pub addresses : List Addr
  pub retired_at : Option ℕ

abbrev pub retired : {A : Type 0} → Workload A → Bool
retired w = is_some w.retired_at

unfoldable pub active : {A : Type 0} → List (Workload A) → List (Workload A)
active [] = []
active (w ∷ ws) = if retired w then active ws else w ∷ active ws

pub record Inputs (Addr : Type 0) : Type 0 where
  pub workloads : List (Workload Addr)
  pub rulesets : List Ruleset
  pub services : List Service
  pub address_groups : List AddressGroup

service_map : List (Uuid × Service) → List Service → List (Uuid × Service)
service_map m [] = m
service_map m (s ∷ ss) = service_map (put s.id s m) ss

group_map : List (Uuid × AddressGroup) → List AddressGroup → List (Uuid × AddressGroup)
group_map m [] = m
group_map m (g ∷ gs) = group_map (put g.id g m) gs

-- `newResolver`. The labels stay beside their workload, as the parallel slice keeps them.
pub record Resolver (Addr : Type 0) : Type 0 where
  pub workloads : List (Workload Addr × Labels)
  pub services : List (Uuid × Service)
  pub groups : List (Uuid × AddressGroup)

with_labels : {A : Type 0} → List (Workload A) → List (Workload A × Labels)
with_labels [] = []
with_labels (w ∷ ws) = (w, label_map w.labels) ∷ with_labels ws

unfoldable pub new_resolver : {A : Type 0} → Inputs A → Resolver A
unfolding with_labels service_map group_map
new_resolver in_ = record {
  workloads = with_labels in_.workloads;
  services = service_map [] in_.services;
  groups = group_map [] in_.address_groups;
}

-- The two maps that `expandServices` fills: the ports of a protocol, none of them meaning all, and
-- the protocols whose every port is permitted.
pub record Expanded : Type 0 where
  pub ports : List (Protocol × List PortRange)
  pub all_ports : List (Protocol × Bool)

abbrev pub ports_of : Option (List PortRange) → List PortRange
ports_of none = []
ports_of (some ps) = ps

abbrev pub flag_of : Option Bool → Bool
flag_of none = false
flag_of (some b) = b

add_ports : Protocol → List PortRange → Expanded → Expanded
add_ports p [] e = record { ports = put p [] e.ports; all_ports = put p true e.all_ports }
add_ports p (r ∷ rs) e =
    if flag_of (get p e.all_ports)
    then e
    else record e { ports = put p (ports_of (get p e.ports) ++ (r ∷ rs)) e.ports }

add_entries : Expanded → List ServiceEntry → Expanded
unfolding add_ports
add_entries e [] = e
add_entries e (s ∷ ss) = add_entries (add_ports s.protocol s.ports e) ss

abbrev entries_of : Option Service → List ServiceEntry
entries_of none = []
entries_of (some s) = s.entries

add_services : List (Uuid × Service) → Expanded → List Uuid → Expanded
add_services services e [] = e
add_services services e (id ∷ ids) =
    add_services services (add_entries e (entries_of (get id services))) ids

unfoldable pub expand_services : List (Uuid × Service) → Rule → List (Protocol × List PortRange)
unfolding add_entries add_services
expand_services services rule =
    (add_entries (add_services services (record { ports = []; all_ports = [] }) rule.service_ids)
      rule.entries).ports

module _ ⦃ip : Netip⦄ where
  -- The inner loop of `resolvePeers`: host routes of the active workloads that a selector matches.
  workload_peers : Peer → List (Workload ip.Addr × Labels) → List Str
  workload_peers peer [] = []
  workload_peers peer ((w, labels) ∷ ws) =
      if retired w || not (matches peer.workloads labels)
      then workload_peers peer ws
      else map host_route w.addresses ++ workload_peers peer ws

  group_peers : Option AddressGroup → List Str
  group_peers none = []
  group_peers (some g) = g.cidrs

  peers_of : Resolver ip.Addr → Peer → List Str
  unfolding workload_peers group_peers
  peers_of r peer =
      if peer.kind == peer_workloads
      then workload_peers peer r.workloads
      else if peer.kind == peer_address_group
      then group_peers (get peer.address_group_id r.groups)
      else if peer.kind == peer_cidr
      then normalize_cidr peer.cidr ∷ []
      else []

  unfoldable pub resolve_peers : Resolver ip.Addr → List Peer → List Str
  unfolding peers_of
  resolve_peers r [] = []
  resolve_peers r (p ∷ ps) = peers_of r p ++ resolve_peers r ps

  resolved : Rule → List Str → Protocol → Option (List PortRange) → List ResolvedRule
  resolved rule peers p none = []
  resolved rule peers p (some ports) =
      record { rule_id = rule_id rule.id p; peer_cidrs = peers; protocol = p; ports = ports } ∷ []

  unfoldable pub render_rule : Resolver ip.Addr → Rule → List ResolvedRule
  unfolding resolved
  render_rule r rule =
      let peers = resolve_peers r rule.peers in
      let entries = expand_services r.services rule in
      resolved rule peers tcp (get tcp entries)
      ++ (resolved rule peers udp (get udp entries) ++ resolved rule peers icmp (get icmp entries))

  render_rules : Resolver ip.Addr → List Rule → List ResolvedRule
  render_rules r [] = []
  render_rules r (rule ∷ rules) =
      if not rule.enabled || not (rule.direction == direction_inbound)
      then render_rules r rules
      else render_rule r rule ++ render_rules r rules

  render_rulesets : Resolver ip.Addr → Labels → List Ruleset → List ResolvedRule
  unfolding render_rules
  render_rulesets r labels [] = []
  render_rulesets r labels (rs ∷ rest) =
      if not rs.enabled || not (matches rs.scope labels)
      then render_rulesets r labels rest
      else render_rules r rs.rules ++ render_rulesets r labels rest

  unfoldable pub render_workload :
      Resolver ip.Addr → List Ruleset → Workload ip.Addr → WorkloadPolicy
  unfolding render_rulesets
  render_workload r rulesets w = canonical (record {
    version = 0;
    mode = if w.mode == mode_unspecified then mode_visibility else w.mode;
    inbound_rules = render_rulesets r (label_map w.labels) rulesets;
  })

  render_all :
      Resolver ip.Addr
      → List Ruleset
      → List (Uuid × WorkloadPolicy)
      → List (Workload ip.Addr)
      → List (Uuid × WorkloadPolicy)
  render_all r rulesets out [] = out
  render_all r rulesets out (w ∷ ws) =
      render_all r rulesets (if retired w then out else put w.id (render_workload r rulesets w) out)
        ws

  -- `Render`.
  unfoldable pub render : Inputs ip.Addr → List (Uuid × WorkloadPolicy)
  unfolding render_all new_resolver
  render in_ = render_all (new_resolver in_) in_.rulesets [] in_.workloads
