-- ===== src/Examples/Rendering.antt =====
-- Runs of the compiler: selection, rendering, planning and the render transaction.
use innerwall.Prelude.Tests.{
  ℕ, ◌≡◌, refl, ◌↔◌, ◌≢◌, true, none, some, [], map_option, if◌then◌else◌, ◌+◌, not, ◌||◌, is_some,
  arith,
}
use innerwall.Prelude.Order.{nat_order}
use innerwall.Prelude.Sorting.{find_last, sort_by, sort, minus, compact, insert_by}
use innerwall.Prelude.Dict.{get, keys, put, values_at}
use innerwall.Prelude.Text.{codes, str_order, decimal, is_space, trim_left, trim_right, trim_space}
use innerwall.Prelude.Result.{ok}
use innerwall.Rendered.{
  ResolvedRule, canonical_rule, canonical, empty, canonical_rules, canonical_cidrs, canonical_ports,
  host_route, normalize_cidr,
}
use innerwall.Rendered.Canon.{rule_of}
use innerwall.Delta.{rule_changes, equal, apply, diff, index_rules}
use innerwall.Policy.{matches, label_map, value_listed}
use innerwall.Policy.Selection.{AllMet, matches_iff}
use innerwall.Compiler.{
  udp, active, render, render_workload, expand_services, new_resolver, render_rule, proto_name,
  resolve_peers, rule_id,
}
use innerwall.Compiler.Services.{rule_entries, declared_ports, expand_services-declared}
use innerwall.Compiler.Retired.{render-active}
use innerwall.Compiler.Authored.{IsAuthored, render_workload-IsAuthored, IsAuthored-render_workload}
use innerwall.Compiler.Lookup.{IsDict-render}
use innerwall.Plan.{policy_or_empty, Db, Faults, Report, plan_one, plan, render_in}
use innerwall.Plan.Versions.{saved, plan_one_version, apply-plan_one}
use innerwall.Plan.Engine.{get-render_in, render_in_twice}
use innerwall.DryRun.{dry_run}
use innerwall.DryRun.Reported.{reports, differs, reports-dry_run}
use innerwall.Examples.Net.{net}
use innerwall.Examples.Data.{web_server, web_rule, web_ruleset, estate, policy_one, policy_two}

matches_iff_example :
    (matches web_ruleset.scope (label_map web_server.labels) ≡ true)
    ↔ ((web_ruleset.scope ≢ []) × AllMet web_ruleset.scope (label_map web_server.labels))
unfolding keys
matches_iff_example = matches_iff web_ruleset.scope (label_map web_server.labels) (refl, tt)

expand_services-declared_example :
    get udp (expand_services (new_resolver estate).services web_rule)
    ≡ declared_ports udp (rule_entries (new_resolver estate).services web_rule)
expand_services-declared_example =
    expand_services-declared udp (new_resolver estate).services web_rule

render-active_example :
    render estate ≡ render (record estate { workloads = active estate.workloads })
render-active_example = render-active estate

plan_one_version_example : (plan_one (codes "w1") (some policy_one) policy_two).policy.version ≡ (
    if not (is_some (some policy_one)) || not (equal policy_one policy_two)
    then policy_one.version + 1
    else policy_one.version)
plan_one_version_example = plan_one_version (codes "w1") (some policy_one) policy_two (ground arith)

apply-plan_one_example :
    apply policy_one (record {
      from_version = policy_one.version;
      to_version = (plan_one (codes "w1") (some policy_one) policy_two).policy.version;
      changes = (plan_one (codes "w1") (some policy_one) policy_two).changes;
    })
    ≡ ok (plan_one (codes "w1") (some policy_one) policy_two).policy
apply-plan_one_example = apply-plan_one (codes "w1") (some policy_one) policy_two

rendered_rule :
    (y : ResolvedRule) × (rule_of
        (codes "r1/tcp")
        (render_workload (new_resolver estate) estate.rulesets web_server).inbound_rules
      ≡ some y)
unfolding find_last sort_by render put diff canonical get empty render_workload sort keys
    canonical_rules values_at minus matches label_map render_rule expand_services new_resolver
    proto_name resolve_peers rule_id index_rules value_listed compact insert_by decimal is_space
    trim_left trim_right trim_space canonical_cidrs canonical_ports canonical_rule host_route
    normalize_cidr rule_changes
rendered_rule = (_, refl)

render_workload-IsAuthored_example :
    (x : ResolvedRule) × IsAuthored
      (new_resolver estate)
      estate.rulesets
      (label_map web_server.labels)
      x
    × (rendered_rule.0 ≡ canonical_rule x)
    × (x.rule_id ≡ codes "r1/tcp")
render_workload-IsAuthored_example =
    render_workload-IsAuthored (new_resolver estate) estate.rulesets web_server (codes "r1/tcp")
      rendered_rule.0 rendered_rule.1

-- An authored rule that the web server's policy carries.
authored :
    (x : ResolvedRule) × IsAuthored
      (new_resolver estate)
      estate.rulesets
      (label_map web_server.labels)
      x
    × (rendered_rule.0 ≡ canonical_rule x)
    × (x.rule_id ≡ codes "r1/tcp")
authored =
    render_workload-IsAuthored (new_resolver estate) estate.rulesets web_server (codes "r1/tcp")
      rendered_rule.0 rendered_rule.1

IsAuthored-render_workload_example :
    (y : ResolvedRule) × (rule_of authored.0.rule_id
        (render_workload (new_resolver estate) estate.rulesets web_server).inbound_rules
      ≡ some y)
IsAuthored-render_workload_example =
    IsAuthored-render_workload (new_resolver estate) estate.rulesets web_server authored.0
      authored.1

abbrev fine : Faults ℕ
fine = record { load_inputs = none; load_policies = none; save_policy = λ id. none }

abbrev fresh : Db ℕ
fresh = record { inputs = estate; policies = []; announced = [] }

first_run : (out : Report × Db ℕ) × (render_in fine fresh ≡ ok out)
unfolding render_in plan sort_by render put diff canonical get empty render_workload sort keys
    canonical_rules values_at minus matches label_map render_rule expand_services new_resolver
    proto_name resolve_peers rule_id index_rules value_listed compact insert_by decimal is_space
    trim_left trim_right trim_space canonical_cidrs canonical_ports canonical_rule host_route
    normalize_cidr rule_changes
first_run = (_, refl)

get-render_in_example :
    get (codes "w1") first_run.0.1.policies
    ≡ saved
        (map_option
          (plan_one (codes "w1") (get (codes "w1") fresh.policies))
          (get (codes "w1") (render fresh.inputs)))
        (get (codes "w1") fresh.policies)
get-render_in_example =
    get-render_in fine fresh first_run.0.1 first_run.0.0 first_run.1 (codes "w1")

render_in_twice_example :
    (n : ℕ) × (render_in fine first_run.0.1
      ≡ ok (record { workloads = n; changed = [] }, first_run.0.1))
render_in_twice_example = render_in_twice fine fresh first_run.0.1 first_run.0.0 first_run.1

reports-dry_run_example :
    reports (codes "w1") (dry_run [] (render estate))
    ≡ differs (policy_or_empty (get (codes "w1") [])) (get (codes "w1") (render estate))
reports-dry_run_example = reports-dry_run [] (render estate) (codes "w1") (IsDict-render estate)
