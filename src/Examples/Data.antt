-- ===== src/Examples/Data.antt =====
-- A small estate: two workloads and a retired one, a ruleset for web servers, and the policies that
-- they lead to.
use innerwall.Prelude.Tests.{ℕ, true, none, some, [], ◌∷◌}
use innerwall.Prelude.Text.{Str, codes}
use innerwall.Rendered.{
  PortRange, ResolvedRule, WorkloadPolicy, mode_unspecified, mode_enforced, mode_simulation,
}
use innerwall.Policy.{Service, Rule, Ruleset, Label, peer_workloads, peer_cidr, direction_inbound}
use innerwall.Policy.Validate.{nil_uuid}
use innerwall.Compiler.{tcp, udp, Workload, Inputs}

-- An address and prefixes of the example network.
abbrev pub web_address : ℕ
web_address = 2571

abbrev pub office : Str
office = codes " @zx."

abbrev pub https : PortRange
https = record { start = 443; end = 443 }

abbrev pub high : PortRange
high = record { start = 8000; end = 8080 }

abbrev pub role : Str → Label
role value = record { key = codes "role"; value = value }

abbrev pub web_server : Workload ℕ
web_server = record {
  id = codes "w1";
  labels = role (codes "web") ∷ [];
  mode = mode_unspecified;
  addresses = web_address ∷ [];
  retired_at = none;
}

abbrev pub client : Workload ℕ
client = record {
  id = codes "w2";
  labels = role (codes "client") ∷ [];
  mode = mode_enforced;
  addresses = 300 ∷ 301 ∷ [];
  retired_at = none;
}

abbrev pub gone : Workload ℕ
gone = record client { id = codes "w3"; addresses = 302 ∷ []; retired_at = some 5 }

abbrev pub web_service : Service
web_service = record {
  id = codes "s1";
  name = codes "https";
  entries = record { protocol = tcp; ports = https ∷ [] } ∷ [];
  version = 1;
}

abbrev pub web_rule : Rule
web_rule = record {
  id = codes "r1";
  direction = direction_inbound;
  enabled = true;
  description = [];
  peers =
      record {
        kind = peer_workloads;
        workloads = (codes "role", codes "client" ∷ codes "web" ∷ []) ∷ [];
        address_group_id = nil_uuid;
        cidr = [];
      }
      ∷ record { kind = peer_cidr; workloads = []; address_group_id = nil_uuid; cidr = office }
      ∷ [];
  service_ids = codes "s1" ∷ [];
  entries =
      record { protocol = tcp; ports = high ∷ [] } ∷ record { protocol = udp; ports = [] } ∷ [];
  version = 1;
}

abbrev pub web_ruleset : Ruleset
web_ruleset = record {
  id = codes "rs1";
  name = codes "web";
  description = [];
  enabled = true;
  scope = (codes "role", codes "web" ∷ []) ∷ [];
  rules = web_rule ∷ [];
  version = 1;
}

abbrev pub estate : Inputs ℕ
estate = record {
  workloads = web_server ∷ gone ∷ client ∷ [];
  rulesets = web_ruleset ∷ [];
  services = web_service ∷ [];
  address_groups = [];
}

abbrev pub rule_a : ResolvedRule
rule_a = record {
  rule_id = codes "a/tcp";
  peer_cidrs = codes "@b" ∷ codes "@a" ∷ codes "@b" ∷ [];
  protocol = tcp;
  ports = https ∷ high ∷ https ∷ [];
}

abbrev pub rule_b : ResolvedRule
rule_b = record {
  rule_id = codes "b/udp";
  peer_cidrs = codes "@c" ∷ [];
  protocol = udp;
  ports = [];
}

abbrev pub policy_one : WorkloadPolicy
policy_one = record { version = 3; mode = mode_simulation; inbound_rules = rule_b ∷ rule_a ∷ [] }

abbrev pub policy_two : WorkloadPolicy
policy_two = record {
  version = 4;
  mode = mode_enforced;
  inbound_rules = record rule_a { peer_cidrs = codes "@a" ∷ codes "@d" ∷ [] } ∷ [];
}
