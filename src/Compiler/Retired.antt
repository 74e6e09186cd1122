-- ===== src/Compiler/Retired.antt =====
-- internal/compiler/render.go: a retired workload is no input to policy.
use innerwall.Prelude.Tests.{◌≡◌, refl, sym, ◌∙◌, ap, inl, inr, false, List, [], ◌∷◌, Bool-cases}
use innerwall.Prelude.Dict.{put}
use innerwall.Prelude.Text.{str_order}
use innerwall.Netip.{Netip}
use innerwall.Rendered.{WorkloadPolicy}
use innerwall.Policy.{Uuid, Peer, Rule, Ruleset, Labels, label_map}
use innerwall.Compiler.{
  Workload, retired, active, Inputs, Resolver, with_labels, new_resolver, workload_peers, peers_of,
  resolve_peers, render_rule, render_rules, render_rulesets, render_workload, render_all, render,
}

module _ ⦃ip : Netip⦄ where
  workload_peers-active :
      (peer : Peer) (ws : List (Workload ip.Addr))
      → workload_peers peer (with_labels ws) ≡ workload_peers peer (with_labels (active ws))
  unfolding workload_peers with_labels active
  workload_peers-active peer [] = refl
  workload_peers-active peer (w ∷ ws) = elim (Bool-cases (retired w)) [
    | inl gone ↦ rw gone (workload_peers-active peer ws)
    | inr here ↦ rw here (rw (here, workload_peers-active peer ws))
  ]

  active-keep :
      (w : Workload ip.Addr) (ws : List (Workload ip.Addr))
      → retired w ≡ false
      → active (w ∷ ws) ≡ w ∷ active ws
  unfolding active
  active-keep w ws here = rw here

  render_all-keep :
      (r : Resolver ip.Addr) (rulesets : List Ruleset) (out : List (Uuid × WorkloadPolicy))
      (w : Workload ip.Addr) (ws : List (Workload ip.Addr))
      → retired w ≡ false
      → render_all r rulesets out (w ∷ ws)
        ≡ render_all r rulesets (put w.id (render_workload r rulesets w) out) ws
  unfolding render_all
  render_all-keep r rulesets out w ws here = rw here

  -- Two resolvers that answer each peer alike.
  module _ (r s : Resolver ip.Addr) (services : r.services ≡ s.services)
      (peers : (p : Peer) → peers_of r p ≡ peers_of s p) where
    resolve_peers-same : (ps : List Peer) → resolve_peers r ps ≡ resolve_peers s ps
    unfolding resolve_peers
    resolve_peers-same [] = refl
    resolve_peers-same (p ∷ ps) = cc (peers p, resolve_peers-same ps)

    render_rule-same : (rule : Rule) → render_rule r rule ≡ render_rule s rule
    unfolding render_rule
    render_rule-same rule = rw (resolve_peers-same rule.peers, services)

    render_rules-same : (rules : List Rule) → render_rules r rules ≡ render_rules s rules
    unfolding render_rules
    render_rules-same [] = refl
    render_rules-same (rule ∷ rules) = rw (render_rule-same rule, render_rules-same rules)

    render_rulesets-same :
        (labels : Labels) (rest : List Ruleset)
        → render_rulesets r labels rest ≡ render_rulesets s labels rest
    unfolding render_rulesets
    render_rulesets-same labels [] = refl
    render_rulesets-same labels (rs ∷ rest) =
        rw (render_rules-same rs.rules, render_rulesets-same labels rest)

    render_workload-same :
        (rulesets : List Ruleset) (w : Workload ip.Addr)
        → render_workload r rulesets w ≡ render_workload s rulesets w
    unfolding render_workload
    render_workload-same rulesets w = rw (render_rulesets-same (label_map w.labels) rulesets)

    render_all-active :
        (rulesets : List Ruleset) (out : List (Uuid × WorkloadPolicy))
        (ws : List (Workload ip.Addr))
        → render_all r rulesets out ws ≡ render_all s rulesets out (active ws)
    unfolding render_all active
    render_all-active rulesets out [] = refl
    render_all-active rulesets out (w ∷ ws) = elim (Bool-cases (retired w)) [
      | inl gone ↦ rw gone (render_all-active rulesets out ws)
      | inr here ↦
          render_all-keep r rulesets out w ws here
          ∙ ap (λ p. render_all r rulesets (put w.id p out) ws) (render_workload-same rulesets w)
          ∙ render_all-active rulesets (put w.id (render_workload s rulesets w) out) ws
          ∙ sym (render_all-keep s rulesets out w (active ws) here)
          ∙ ap (render_all s rulesets out) (sym (active-keep w ws here))
    ]

  -- A retired workload is no input to policy: without the retired workloads, the render is the same
  -- in every policy and every peer.
  pub render-active :
      (in_ : Inputs ip.Addr) → render in_ ≡ render (record in_ { workloads = active in_.workloads })
  unfolding render
  render-active in_ =
      render_all-active (new_resolver in_)
        (new_resolver (record in_ { workloads = active in_.workloads })) refl
        (λ p. unfold peers_of in rw (workload_peers-active p in_.workloads)) in_.rulesets []
        in_.workloads
