-- ===== src/Compiler/Authored.antt =====
-- internal/compiler/render.go: every rule of a rendered policy stands for an authored rule, and every
-- authored rule that applies to a workload is rendered for it.
use innerwall.Prelude.Tests.{
  ◌≡◌, refl, sym, ◌∙◌, ap, inl, inr, true, false, not, ◌||◌, Option, none, some, List, [], ◌∷◌,
  ◌++◌, arith, ◌==◌, Bool-cases, Option-cases, Member, Member-append_left, Member-append_right,
  Member-append, map_option,
}
use mathlib.Core.Path.{subst}
use innerwall.Prelude.Order.{nat_order}
use innerwall.Prelude.Sorting.{find_last-Member, Member-find_last}
use innerwall.Prelude.Dict.{get}
use innerwall.Prelude.Text.{Str, str_order}
use innerwall.Netip.{Netip}
use innerwall.Rendered.{Protocol, PortRange, ResolvedRule, canonical, canonical_rule}
use innerwall.Rendered.Canon.{rule_key, rule_of, rule_of-canonical_rules}
use innerwall.Policy.{direction_inbound, Rule, Ruleset, Labels, matches, label_map}
use innerwall.Compiler.{
  tcp, udp, icmp, rule_id, Workload, Resolver, expand_services, resolve_peers, resolved,
  render_rule, render_rules, render_rulesets, render_workload,
}

module _ ⦃ip : Netip⦄ where
  abbrev resolved_rule : Resolver ip.Addr → Rule → Protocol → List PortRange → ResolvedRule
  resolved_rule r rule p ports = record {
    rule_id = rule_id rule.id p;
    peer_cidrs = resolve_peers r rule.peers;
    protocol = p;
    ports = ports;
  }

  -- `x` is what a rule resolves to for one protocol.
  pub record IsResolved (r : Resolver ip.Addr) (rule : Rule) (x : ResolvedRule) : Type 0 where
    pub protocol : Protocol
    pub ports : List PortRange
    pub known : Member protocol (tcp ∷ udp ∷ icmp ∷ [])
    pub declared : get protocol (expand_services r.services rule) ≡ some ports
    pub resolves : x ≡ resolved_rule r rule protocol ports

  -- `x` comes from an enabled inbound rule of an enabled ruleset whose scope matches the labels.
  pub record IsAuthored (r : Resolver ip.Addr) (rulesets : List Ruleset) (labels : Labels)
      (x : ResolvedRule) : Type 0 where
    pub owner : Ruleset
    pub rule : Rule
    pub listed : Member owner rulesets
    pub ruleset_enabled : owner.enabled ≡ true
    pub in_scope : matches owner.scope labels ≡ true
    pub holds : Member rule owner.rules
    pub rule_enabled : rule.enabled ≡ true
    pub inbound : rule.direction ≡ direction_inbound
    pub resolution : IsResolved r rule x

  resolved→ :
      (r : Resolver ip.Addr) (rule : Rule) (p : Protocol) (o : Option (List PortRange))
      (x : ResolvedRule)
      → Member p (tcp ∷ udp ∷ icmp ∷ [])
      → get p (expand_services r.services rule) ≡ o
      → Member x (resolved rule (resolve_peers r rule.peers) p o)
      → IsResolved r rule x
  unfolding resolved
  resolved→ r rule p none x known e m = absurd m
  resolved→ r rule p (some ports) x known e (inl same) = record {
    protocol = p;
    ports = ports;
    known = known;
    declared = e;
    resolves = same;
  }
  resolved→ r rule p (some ports) x known e (inr m) = absurd m

  render_rule→ :
      (r : Resolver ip.Addr) (rule : Rule) (x : ResolvedRule)
      → Member x (render_rule r rule)
      → IsResolved r rule x
  unfolding render_rule
  render_rule→ r rule x m =
      let at = λ (p : Protocol).
        resolved rule (resolve_peers r rule.peers) p (get p (expand_services r.services rule)) in
      let back = λ (p : Protocol) (known : Member p (tcp ∷ udp ∷ icmp ∷ [])) (h : Member x (at p)).
        resolved→ r rule p (get p (expand_services r.services rule)) x known refl h in
      elim (Member-append x (at tcp) (at udp ++ at icmp) m) [
        | inl h ↦ back tcp (inl refl) h
        | inr h ↦ elim (Member-append x (at udp) (at icmp) h) [
          | inl k ↦ back udp (inr (inl refl)) k
          | inr k ↦ back icmp (inr (inr (inl refl))) k
        ]
      ]

  -- The rule of a list that an entry of `render_rules` comes from.
  record IsFrom (r : Resolver ip.Addr) (rules : List Rule) (x : ResolvedRule) : Type 0 where
    rule : Rule
    holds : Member rule rules
    rule_enabled : rule.enabled ≡ true
    inbound : rule.direction ≡ direction_inbound
    resolution : IsResolved r rule x

  IsFrom-later :
      (r : Resolver ip.Addr) (first : Rule) (rules : List Rule) (x : ResolvedRule)
      → IsFrom r rules x
      → IsFrom r (first ∷ rules) x
  IsFrom-later r first rules x h = record {
    rule = h.rule;
    holds = inr h.holds;
    rule_enabled = h.rule_enabled;
    inbound = h.inbound;
    resolution = h.resolution;
  }

  render_rules→ :
      (r : Resolver ip.Addr) (rules : List Rule) (x : ResolvedRule)
      → Member x (render_rules r rules)
      → IsFrom r rules x
  unfolding render_rules
  render_rules→ r [] x m = absurd m
  render_rules→ r (rule ∷ rules) x m =
      elim (Bool-cases (not rule.enabled || not (rule.direction == direction_inbound))) [
        | inl skipped ↦ IsFrom-later r rule rules x (render_rules→ r rules x (rw skipped at m))
        | inr applies ↦
            elim (Member-append x (render_rule r rule) (render_rules r rules) (rw applies at m)) [
              | inl h ↦ record {
                rule = rule;
                holds = inl refl;
                rule_enabled = ground (arith, applies);
                inbound = ground (arith, applies);
                resolution = render_rule→ r rule x h;
              }
              | inr h ↦ IsFrom-later r rule rules x (render_rules→ r rules x h)
            ]
      ]

  IsAuthored-later :
      (r : Resolver ip.Addr) (first : Ruleset) (rest : List Ruleset) (labels : Labels)
      (x : ResolvedRule)
      → IsAuthored r rest labels x
      → IsAuthored r (first ∷ rest) labels x
  IsAuthored-later r first rest labels x h = record {
    owner = h.owner;
    rule = h.rule;
    listed = inr h.listed;
    ruleset_enabled = h.ruleset_enabled;
    in_scope = h.in_scope;
    holds = h.holds;
    rule_enabled = h.rule_enabled;
    inbound = h.inbound;
    resolution = h.resolution;
  }

  render_rulesets→ :
      (r : Resolver ip.Addr) (labels : Labels) (rulesets : List Ruleset) (x : ResolvedRule)
      → Member x (render_rulesets r labels rulesets)
      → IsAuthored r rulesets labels x
  unfolding render_rulesets
  render_rulesets→ r labels [] x m = absurd m
  render_rulesets→ r labels (rs ∷ rest) x m =
      elim (Bool-cases (not rs.enabled || not (matches rs.scope labels))) [
        | inl skipped ↦
            IsAuthored-later r rs rest labels x (render_rulesets→ r labels rest x (rw skipped at m))
        | inr applies ↦
            elim (Member-append x (render_rules r rs.rules) (render_rulesets r labels rest)
              (rw applies at m)) [
                | inl h ↦
                    let f = render_rules→ r rs.rules x h in
                    record {
                      owner = rs;
                      rule = f.rule;
                      listed = inl refl;
                      ruleset_enabled = ground (arith, applies);
                      in_scope = ground (arith, applies);
                      holds = f.holds;
                      rule_enabled = f.rule_enabled;
                      inbound = f.inbound;
                      resolution = f.resolution;
                    }
                | inr h ↦ IsAuthored-later r rs rest labels x (render_rulesets→ r labels rest x h)
              ]
      ]

  -- Every rule of a workload's policy is the canonical form of what an authored rule resolves to:
  -- one that is enabled and inbound, in an enabled ruleset whose scope matches the workload.
  pub render_workload-IsAuthored :
      (r : Resolver ip.Addr) (rulesets : List Ruleset) (w : Workload ip.Addr) (id : Str)
      (y : ResolvedRule)
      → rule_of id (render_workload r rulesets w).inbound_rules ≡ some y
      → (x : ResolvedRule) × IsAuthored r rulesets (label_map w.labels) x
        × (y ≡ canonical_rule x)
        × (x.rule_id ≡ id)
  unfolding render_workload canonical
  render_workload-IsAuthored r rulesets w id y h =
      let raw = render_rulesets r (label_map w.labels) rulesets in
      let found = sym (rule_of-canonical_rules id raw) ∙ h in
      elim (Option-cases (rule_of id raw)) [
        | inl e ↦ cc (ap (map_option canonical_rule) e)
        | inr (x, e) ↦
            let (m, same) = find_last-Member rule_key id raw x e in
            (
              x,
              render_rulesets→ r (label_map w.labels) rulesets x m,
              cc (ap (map_option canonical_rule) e),
              same,
            )
      ]

  resolved← :
      (r : Resolver ip.Addr) (rule : Rule) (p : Protocol) (ports : List PortRange)
      (o : Option (List PortRange))
      → o ≡ some ports
      → Member (resolved_rule r rule p ports) (resolved rule (resolve_peers r rule.peers) p o)
  unfolding resolved
  resolved← r rule p ports none e = cc
  resolved← r rule p ports (some qs) e = inl (ground (arith, e))

  render_rule← :
      (r : Resolver ip.Addr) (rule : Rule) (p : Protocol) (ports : List PortRange)
      → Member p (tcp ∷ udp ∷ icmp ∷ [])
      → get p (expand_services r.services rule) ≡ some ports
      → Member (resolved_rule r rule p ports) (render_rule r rule)
  unfolding render_rule
  render_rule← r rule p ports known e =
      let at = λ (q : Protocol).
        resolved rule (resolve_peers r rule.peers) q (get q (expand_services r.services rule)) in
      let x = resolved_rule r rule p ports in
      let there : Member x (at p) =
        resolved← r rule p ports (get p (expand_services r.services rule)) e in
      let as_ = λ (q : Protocol) (same : p ≡ q). subst (λ k. Member x (at k)) same there in
      elim known [
        | inl same ↦ Member-append_left x (at tcp) (at udp ++ at icmp) (as_ tcp same)
        | inr (inl same) ↦
            Member-append_right x (at tcp) (at udp ++ at icmp)
              (Member-append_left x (at udp) (at icmp) (as_ udp same))
        | inr (inr (inl same)) ↦
            Member-append_right x (at tcp) (at udp ++ at icmp)
              (Member-append_right x (at udp) (at icmp) (as_ icmp same))
        | inr (inr (inr none_left)) ↦ absurd none_left
      ]

  render_rules← :
      (r : Resolver ip.Addr) (rule : Rule) (rules : List Rule) (x : ResolvedRule)
      → Member rule rules
      → rule.enabled ≡ true
      → rule.direction ≡ direction_inbound
      → Member x (render_rule r rule)
      → Member x (render_rules r rules)
  unfolding render_rules
  render_rules← r rule [] x m en dir h = absurd m
  render_rules← r rule (first ∷ rules) x (inl e) en dir h =
      let applies : (not first.enabled || not (first.direction == direction_inbound)) ≡ false =
        ground (arith, ap (λ (q : Rule). q.enabled) e, ap (λ (q : Rule). q.direction) e) in
      rw applies (
        Member-append_left x (render_rule r first) (render_rules r rules)
          (subst (λ q. Member x (render_rule r q)) e h))
  render_rules← r rule (first ∷ rules) x (inr m) en dir h =
      elim (Bool-cases (not first.enabled || not (first.direction == direction_inbound))) [
        | inl skipped ↦ rw skipped (render_rules← r rule rules x m en dir h)
        | inr applies ↦ rw applies (
            Member-append_right x (render_rule r first) (render_rules r rules)
              (render_rules← r rule rules x m en dir h))
      ]

  render_rulesets← :
      (r : Resolver ip.Addr) (labels : Labels) (rs : Ruleset) (rulesets : List Ruleset)
      (x : ResolvedRule)
      → Member rs rulesets
      → rs.enabled ≡ true
      → matches rs.scope labels ≡ true
      → Member x (render_rules r rs.rules)
      → Member x (render_rulesets r labels rulesets)
  unfolding render_rulesets
  render_rulesets← r labels rs [] x m en scope h = absurd m
  render_rulesets← r labels rs (first ∷ rest) x (inl e) en scope h =
      let applies : (not first.enabled || not (matches first.scope labels)) ≡ false = ground (
        arith,
        ap (λ (q : Ruleset). q.enabled) e,
        ap (λ (q : Ruleset). matches q.scope labels) e,
      ) in
      rw applies (
        Member-append_left x (render_rules r first.rules) (render_rulesets r labels rest)
          (subst (λ (q : Ruleset). Member x (render_rules r q.rules)) e h))
  render_rulesets← r labels rs (first ∷ rest) x (inr m) en scope h =
      elim (Bool-cases (not first.enabled || not (matches first.scope labels))) [
        | inl skipped ↦ rw skipped (render_rulesets← r labels rs rest x m en scope h)
        | inr applies ↦ rw applies (
            Member-append_right x (render_rules r first.rules) (render_rulesets r labels rest)
              (render_rulesets← r labels rs rest x m en scope h))
      ]

  -- Whatever an authored rule that applies to the workload resolves to, the workload's policy has a
  -- rule of its id.
  pub IsAuthored-render_workload :
      (r : Resolver ip.Addr) (rulesets : List Ruleset) (w : Workload ip.Addr) (x : ResolvedRule)
      → IsAuthored r rulesets (label_map w.labels) x
      → (y : ResolvedRule) × (rule_of x.rule_id (render_workload r rulesets w).inbound_rules
          ≡ some y)
  unfolding render_workload canonical
  IsAuthored-render_workload r rulesets w x h =
      let z = resolved_rule r h.rule h.resolution.protocol h.resolution.ports in
      let listed : Member z (render_rulesets r (label_map w.labels) rulesets) =
        render_rulesets← r (label_map w.labels) h.owner rulesets z h.listed h.ruleset_enabled
          h.in_scope
          (render_rules← r h.rule h.owner.rules z h.holds h.rule_enabled h.inbound (
            render_rule← r h.rule h.resolution.protocol h.resolution.ports h.resolution.known
              h.resolution.declared)) in
      let (y, found) =
        Member-find_last rule_key (render_rulesets r (label_map w.labels) rulesets) z listed in
      (
        canonical_rule y,
        rw h.resolution.resolves (
            rule_of-canonical_rules z.rule_id (render_rulesets r (label_map w.labels) rulesets)
            ∙ ap (map_option canonical_rule) found),
      )
