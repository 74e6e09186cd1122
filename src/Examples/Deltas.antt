-- ===== src/Examples/Deltas.antt =====
-- Runs of the rendered policies, their deltas and their versions.
use innerwall.Prelude.Tests.{◌≡◌, ◌↔◌, ◌≢◌, true, [], ◌∷◌, map_option}
use innerwall.Prelude.Text.{codes, str_order}
use innerwall.Prelude.Result.{ok, err}
use innerwall.Rendered.{WorkloadPolicy, canonical_rule, canonical_rules, canonical}
use innerwall.Rendered.Canon.{rule_of, rule_of-canonical_rules}
use innerwall.Delta.{PolicyDelta, base_mismatch, equal, diff, delta, apply, set_mode}
use innerwall.Delta.Roundtrip.{apply-delta}
use innerwall.Delta.Minimal.{diff-empty_iff-equal}
use innerwall.Delta.Replay.{apply_all, deltas_of, apply_all-deltas_of, apply_outcome}
use innerwall.Examples.Net.{net}
use innerwall.Examples.Data.{rule_a, rule_b, policy_one, policy_two}

rule_of-canonical_rules_example :
    rule_of (codes "a/tcp") (canonical_rules (rule_b ∷ rule_a ∷ []))
    ≡ map_option canonical_rule (rule_of (codes "a/tcp") (rule_b ∷ rule_a ∷ []))
rule_of-canonical_rules_example = rule_of-canonical_rules (codes "a/tcp") (rule_b ∷ rule_a ∷ [])

apply-delta_example : apply policy_one (delta policy_one policy_two) ≡ ok (canonical policy_two)
apply-delta_example = apply-delta policy_one policy_two

diff-empty_iff-equal_example :
    (diff policy_one policy_two ≡ []) ↔ (equal policy_one policy_two ≡ true)
diff-empty_iff-equal_example = diff-empty_iff-equal policy_one policy_two

apply_all-deltas_of_example :
    apply_all policy_one (deltas_of policy_one (policy_two ∷ policy_one ∷ []))
    ≡ ok (canonical policy_one)
apply_all-deltas_of_example = apply_all-deltas_of policy_one (policy_two ∷ policy_one ∷ [])

-- A delta from a version that the agent does not hold.
abbrev stale : PolicyDelta
stale = record { from_version = 2; to_version = 3; changes = set_mode 3 ∷ [] }

apply_outcome_example :
    (policy_one.version ≢ stale.from_version
      → apply policy_one stale ≡ err (base_mismatch policy_one.version stale.from_version))
    × ((p : WorkloadPolicy)
        → apply policy_one stale ≡ ok p
        → (policy_one.version ≡ stale.from_version)
          × (p.version ≡ stale.to_version)
          × (canonical p ≡ p))
apply_outcome_example = apply_outcome policy_one stale
