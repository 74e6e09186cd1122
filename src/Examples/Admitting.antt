-- ===== src/Examples/Admitting.antt =====
-- Runs of the admission of rulesets.
use innerwall.Prelude.Tests.{◌≡◌, ◌↔◌, [], ◌∷◌, List}
use innerwall.Prelude.Text.{Str, codes}
use innerwall.Policy.{Ruleset, Rule, peer_cidr}
use innerwall.Policy.Validate.{References, Finding, nil_uuid, validate_ruleset}
use innerwall.Policy.Admitted.{IsAdmissible, validate_ruleset-IsAdmissible}
use innerwall.Examples.Net.{net}
use innerwall.Examples.Data.{web_rule, web_ruleset}

-- The web ruleset whose one CIDR is written without a space.
abbrev admitted : Ruleset
admitted = record web_ruleset {
  rules =
      record web_rule {
        peers =
            record {
              kind = peer_cidr;
              workloads = [];
              address_group_id = nil_uuid;
              cidr = codes "@zx.";
            }
            ∷ [];
      }
      ∷ [];
}

abbrev existing : References
existing = record { services = codes "s1" ∷ []; address_groups = [] }

abbrev no_faults : Rule → List Finding
no_faults r = []

abbrev no_own_faults : Ruleset → List Finding
no_own_faults r = []

abbrev as_written : Str → Str
as_written s = s

validate_ruleset-IsAdmissible_example :
    (validate_ruleset as_written no_faults no_own_faults admitted existing ≡ [])
    ↔ IsAdmissible as_written no_faults no_own_faults admitted existing
validate_ruleset-IsAdmissible_example =
    validate_ruleset-IsAdmissible as_written no_faults no_own_faults admitted existing
