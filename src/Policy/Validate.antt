-- ===== src/Policy/Validate.antt =====
-- internal/policy/validate.go: the admission of authored objects. The faults with which a document
-- was converted are functions of the object, and quoting a text is a parameter.
use innerwall.Prelude.Tests.{
  ℕ, suc, ◌+◌, Bool, not, ◌&&◌, ◌||◌, Option, none, some, List, [], ◌∷◌, ◌++◌, leb, ◌==◌,
  if◌then◌else◌, is_some,
}
use innerwall.Prelude.Order.{◌=?◌}
use innerwall.Prelude.Sorting.{contains, sort}
use innerwall.Prelude.Dict.{get, put, keys}
use innerwall.Prelude.Text.{Str, str_order, codes, decimal}
use innerwall.Netip.{Netip}
use innerwall.Rendered.{PortRange}
use innerwall.Delta.{is_empty}
use innerwall.Compiler.{tcp, udp, icmp}
use innerwall.Policy.{
  Uuid, direction_unspecified, direction_inbound, direction_outbound, ServiceEntry, Service,
  AddressGroup, Selector, peer_workloads, peer_address_group, peer_cidr, Peer, Rule, Ruleset,
}
use innerwall.Policy.Labels.{LabelError, check_label_key, check_label_value}

pub data AdmissionError : Type 0 where
  direction_outbound_refused : AdmissionError
  direction_required : AdmissionError
  selector_empty : AdmissionError
  label_refused : LabelError → AdmissionError
  label_values_required : AdmissionError
  bad_port_range : AdmissionError
  ports_on_portless : AdmissionError
  bad_protocol : AdmissionError
  bad_cidr : AdmissionError
  service_unknown : AdmissionError
  address_group_unknown : AdmissionError
  bad_peer : AdmissionError
  peers_required : AdmissionError
  services_required : AdmissionError
  entries_required : AdmissionError
  cidrs_required : AdmissionError
  name_required : AdmissionError
  duplicate_rule : AdmissionError
  -- What a conversion could not read; the text stands for its error.
  document_fault : Str → AdmissionError

pub record Finding : Type 0 where
  pub path : Str
  pub error : AdmissionError
  pub detail : Str

pub record Findings : Type 0 where
  pub errors : List Finding
  pub faulted : List Str

abbrev pub no_findings : Findings
no_findings = record { errors = []; faulted = [] }

unfoldable pub add_finding : Str → AdmissionError → Str → Findings → Findings
add_finding path e detail f =
    if contains path f.faulted
    then f
    else record f { errors = f.errors ++ record { path = path; error = e; detail = detail } ∷ [] }

unfoldable pub join_path : Str → Str → Str
join_path path field = if is_empty path then field else path ++ (codes "." ++ field)

-- `carry`.
unfoldable pub carry_faults : Str → List Finding → Findings → Findings
unfolding join_path
carry_faults path [] f = f
carry_faults path (e ∷ es) f = carry_faults path es (record {
  errors = f.errors ++ record e { path = join_path path e.path } ∷ [];
  faulted = join_path path e.path ∷ f.faulted;
})

abbrev pub nil_uuid : Uuid
nil_uuid = codes "00000000-0000-0000-0000-000000000000"

abbrev pub indexed : Str → ℕ → Str
indexed path i = path ++ (codes "[" ++ (decimal i ++ codes "]"))

abbrev pub add_unless : Bool → Str → AdmissionError → Str → Findings → Findings
add_unless b path e detail f = if b then f else add_finding path e detail f

unfoldable pub validate_ports : Str → ℕ → List PortRange → Findings → Findings
validate_ports path i [] f = f
validate_ports path i (p ∷ ps) f = validate_ports path (suc i) ps (
    add_unless (leb p.start p.end && leb p.end 65535) (indexed (path ++ codes ".ports") i)
      bad_port_range (decimal p.start ++ (codes "-" ++ decimal p.end)) f)

unfoldable pub validate_protocol : Str → ServiceEntry → Findings → Findings
validate_protocol path e f =
    if e.protocol == tcp || e.protocol == udp
    then f
    else if e.protocol == icmp
    then add_unless (is_empty e.ports) (path ++ codes ".ports") ports_on_portless (codes "icmp") f
    else add_finding (path ++ codes ".protocol") bad_protocol
        (if e.protocol == 0 then [] else codes "unknown protocol " ++ decimal e.protocol) f

unfoldable pub validate_entry : Str → ServiceEntry → Findings → Findings
unfolding validate_ports validate_protocol
validate_entry path e f = validate_ports path 0 e.ports (validate_protocol path e f)

unfoldable pub validate_entries : Str → ℕ → List ServiceEntry → Findings → Findings
unfolding validate_entry
validate_entries path i [] f = f
validate_entries path i (e ∷ es) f =
    validate_entries path (suc i) es (validate_entry (indexed path i) e f)

-- The services and the address groups that exist.
pub record References : Type 0 where
  pub services : List Uuid
  pub address_groups : List Uuid

unfoldable pub validate_service_ids : References → Str → ℕ → List Uuid → Findings → Findings
validate_service_ids refs path i [] f = f
validate_service_ids refs path i (id ∷ ids) f =
    validate_service_ids refs path (suc i) ids
      (add_unless (contains id refs.services) (indexed path i) service_unknown id f)

unfoldable pub add_label : Option LabelError → Str → Str → Findings → Findings
add_label none path detail f = f
add_label (some e) path detail f = add_finding path (label_refused e) detail f

abbrev pub values_of : Option (List Str) → List Str
values_of none = []
values_of (some vs) = vs

-- `seen` holds the first index of each id; an id that is nil is not looked up.
unfoldable pub seen_after : Uuid → ℕ → List (Uuid × ℕ) → List (Uuid × ℕ)
seen_after id i seen = if id =? nil_uuid || is_some (get id seen) then seen else put id i seen

abbrev pub first_index : Option ℕ → Str
first_index none = []
first_index (some i) = codes "also rules[" ++ (decimal i ++ codes "]")

module _ (quoted : Str → Str) where
  unfoldable pub validate_values : Str → Str → List Str → Findings → Findings
  unfolding add_label
  validate_values path key [] f = f
  validate_values path key (v ∷ vs) f = validate_values path key vs (
      add_label (check_label_value v) (path ++ (codes "[" ++ (key ++ codes "]")))
        (quoted key ++ (codes " = " ++ quoted v)) f)

  -- One key of a selector, with what the check of it returned.
  unfoldable pub validate_key : Str → Str → List Str → Option LabelError → Findings → Findings
  unfolding validate_values
  validate_key path key values (some e) f = add_finding path (label_refused e) (quoted key) f
  validate_key path key values none f = validate_values path key values (
      add_unless (not (is_empty values)) (path ++ (codes "[" ++ (key ++ codes "]")))
        label_values_required [] f)

  unfoldable pub validate_keys : Str → Selector → List Str → Findings → Findings
  unfolding validate_key
  validate_keys path s [] f = f
  validate_keys path s (key ∷ ks) f =
      validate_keys path s ks
        (validate_key path key (values_of (get key s)) (check_label_key key) f)

  -- `validateSelector`.
  unfoldable pub validate_selector : Str → Selector → Findings → Findings
  unfolding validate_keys
  validate_selector path s f =
      if is_empty s
      then add_finding path selector_empty [] f
      else validate_keys path s (sort (keys s)) f

  module _ ⦃ip : Netip⦄ where
    unfoldable pub validate_cidrs : ℕ → List Str → Findings → Findings
    validate_cidrs i [] f = f
    validate_cidrs i (c ∷ cs) f =
        validate_cidrs (suc i) cs
          (add_unless (is_some (ip.parse_prefix c)) (indexed (codes "cidrs") i) bad_cidr c f)

    -- The kinds of which a peer shows something.
    unfoldable pub kinds_set : Peer → ℕ
    kinds_set p =
        (if not (is_empty p.workloads) || p.kind == peer_workloads then 1 else 0)
        + (if not (p.address_group_id =? nil_uuid) || p.kind == peer_address_group then 1 else 0)
        + (if not (is_empty p.cidr) || p.kind == peer_cidr then 1 else 0)

    unfoldable pub validate_peer : References → Str → Peer → Findings → Findings
    unfolding validate_selector kinds_set
    validate_peer refs path p f =
        if not (kinds_set p == 1)
        then add_finding path bad_peer [] f
        else if p.kind == peer_workloads
        then validate_selector (path ++ codes ".workloads") p.workloads f
        else if p.kind == peer_address_group
        then add_unless (contains p.address_group_id refs.address_groups)
            (path ++ codes ".address_group") address_group_unknown p.address_group_id f
        else if p.kind == peer_cidr
        then add_unless (is_some (ip.parse_prefix p.cidr)) (path ++ codes ".cidr") bad_cidr p.cidr f
        else add_finding path bad_peer
            (if p.kind == 0 then [] else codes "unknown peer kind " ++ decimal p.kind) f

    unfoldable pub validate_peers : References → Str → ℕ → List Peer → Findings → Findings
    unfolding validate_peer
    validate_peers refs path i [] f = f
    validate_peers refs path i (p ∷ ps) f =
        validate_peers refs path (suc i) ps (validate_peer refs (indexed path i) p f)

    unfoldable pub validate_direction : Str → Rule → Findings → Findings
    validate_direction path r f =
        if r.direction == direction_inbound
        then f
        else if r.direction == direction_outbound
        then add_finding (join_path path (codes "direction")) direction_outbound_refused [] f
        else add_finding (join_path path (codes "direction")) direction_required
            (if r.direction == direction_unspecified
              then []
              else codes "unknown direction " ++ decimal r.direction)
            f

    -- `validateRule`.
    unfoldable pub validate_rule :
        (Rule → List Finding) → References → Str → Rule → Findings → Findings
    unfolding carry_faults validate_direction validate_peers validate_service_ids validate_entries
    validate_rule faults refs path r f =
        let carried = carry_faults path (faults r) f in
        let directed = validate_direction path r carried in
        let peered = validate_peers refs (join_path path (codes "peers")) 0 r.peers (
          add_unless (not (is_empty r.peers)) (join_path path (codes "peers")) peers_required []
            directed) in
        let served = validate_service_ids refs (join_path path (codes "services")) 0 r.service_ids (
          add_unless (not (is_empty r.service_ids && is_empty r.entries))
            (join_path path (codes "services")) services_required [] peered) in
        validate_entries (join_path path (codes "entries")) 0 r.entries served

    unfoldable pub validate_rules :
        (Rule → List Finding) → References → ℕ → List (Uuid × ℕ) → List Rule → Findings → Findings
    unfolding validate_rule seen_after
    validate_rules faults refs i seen [] f = f
    validate_rules faults refs i seen (r ∷ rs) f =
        validate_rules faults refs (suc i) (seen_after r.id i seen) rs (
          validate_rule faults refs (indexed (codes "rules") i) r (
            add_unless (r.id =? nil_uuid || not (is_some (get r.id seen)))
              (indexed (codes "rules") i ++ codes ".id") duplicate_rule
              (first_index (get r.id seen)) f))

    -- `ValidateRuleset`, whose error is nil where there are no findings.
    unfoldable pub validate_ruleset :
        (Rule → List Finding) → (Ruleset → List Finding) → Ruleset → References → List Finding
    unfolding carry_faults validate_selector validate_rules
    validate_ruleset faults own_faults rs refs =
        (validate_rules faults refs 0 [] rs.rules (
          validate_selector (codes "scope") rs.scope (
            add_unless (not (is_empty rs.name)) (codes "name") name_required []
              (carry_faults [] (own_faults rs) no_findings)))).errors

    -- `ValidateService`.
    unfoldable pub validate_service : (Service → List Finding) → Service → List Finding
    unfolding carry_faults validate_entries
    validate_service faults s =
        (validate_entries (codes "entries") 0 s.entries (
          add_unless (not (is_empty s.entries)) (codes "entries") entries_required [] (
            add_unless (not (is_empty s.name)) (codes "name") name_required []
              (carry_faults [] (faults s) no_findings)))).errors

    -- `ValidateAddressGroup`.
    unfoldable pub validate_address_group : AddressGroup → List Finding
    unfolding validate_cidrs
    validate_address_group g =
        (validate_cidrs 0 g.cidrs (
          add_unless (not (is_empty g.cidrs)) (codes "cidrs") cidrs_required [] (
            add_unless (not (is_empty g.name)) (codes "name") name_required [] no_findings))).errors
