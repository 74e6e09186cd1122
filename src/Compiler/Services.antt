-- ===== src/Compiler/Services.antt =====
-- internal/compiler/render.go, expandServices: the ports that a rule's services declare.
use innerwall.Prelude.Tests.{
  ◌≡◌, refl, sym, ◌∙◌, ap, inl, inr, Bool, true, false, ◌&&◌, ◌||◌, Option, none, some, List, [],
  ◌∷◌, ◌++◌, arith, ◌==◌, if◌then◌else◌,
}
use mathlib.Core.List.{append-nil, append_assoc}
use innerwall.Prelude.Order.{nat_order, eqb-cases, eqb_refl}
use innerwall.Prelude.Dict.{get, get-put}
use innerwall.Prelude.Text.{str_order}
use innerwall.Rendered.{Protocol, PortRange}
use innerwall.Policy.{Uuid, ServiceEntry, Service, Rule}
use innerwall.Delta.{is_empty}
use innerwall.Compiler.{
  Expanded, ports_of, flag_of, add_ports, add_entries, entries_of, add_services, expand_services,
}

-- The entries of the services that a rule names, those that exist, and then its own.
named_entries : List (Uuid × Service) → List Uuid → List ServiceEntry
named_entries services [] = []
named_entries services (id ∷ ids) = entries_of (get id services) ++ named_entries services ids

unfoldable pub rule_entries : List (Uuid × Service) → Rule → List ServiceEntry
unfolding named_entries
rule_entries services rule = named_entries services rule.service_ids ++ rule.entries

-- Some entry of the protocol lists no ports.
unfoldable pub permits_all : Protocol → List ServiceEntry → Bool
permits_all p [] = false
permits_all p (e ∷ es) = (e.protocol == p && is_empty e.ports) || permits_all p es

-- The ports of the protocol's entries together, or nothing where the protocol has no entry.
unfoldable pub listed_ports : Protocol → List ServiceEntry → Option (List PortRange)
listed_ports p [] = none
listed_ports p (e ∷ es) =
    if e.protocol == p then some (e.ports ++ ports_of (listed_ports p es)) else listed_ports p es

unfoldable pub declared_ports : Protocol → List ServiceEntry → Option (List PortRange)
declared_ports p es = if permits_all p es then some [] else listed_ports p es

-- What the maps hold for one protocol.
abbrev flag_at : Protocol → Expanded → Bool
flag_at p e = flag_of (get p e.all_ports)

ports_after : Option (List PortRange) → Option (List PortRange) → Option (List PortRange)
ports_after o none = o
ports_after o (some ps) = some (ports_of o ++ ps)

-- A permitted protocol lists no ports.
abbrev IsPermitted : Protocol → Expanded → Type 0
IsPermitted p e = flag_at p e ≡ true → get p e.ports ≡ some []

flag_at-add_ports :
    (p q : Protocol) (rs : List PortRange) (e : Expanded)
    → flag_at p (add_ports q rs e) ≡ ((q == p && is_empty rs) || flag_at p e)
unfolding add_ports
flag_at-add_ports p q [] e = ground (arith, get-put q p true e.all_ports)
flag_at-add_ports p q (r ∷ rs) e = ground arith

get-add_ports :
    (p q : Protocol) (rs : List PortRange) (e : Expanded)
    → get p (add_ports q rs e).ports ≡ (
        if q == p
        then (if is_empty rs
            then some []
            else if flag_at p e
            then get p e.ports
            else some (ports_of (get p e.ports) ++ rs))
        else get p e.ports)
unfolding add_ports
get-add_ports p q [] e = ground (arith, get-put q p [] e.ports)
get-add_ports p q (r ∷ rs) e = elim (eqb-cases q p) [
  | inl same ↦
      rw same (ground (arith, get-put p p (ports_of (get p e.ports) ++ r ∷ rs) e.ports, eqb_refl p))
  | inr other ↦ ground (arith, get-put q p (ports_of (get q e.ports) ++ r ∷ rs) e.ports, other)
]

IsPermitted-add_ports :
    (p q : Protocol) (rs : List PortRange) (e : Expanded)
    → IsPermitted p e
    → IsPermitted p (add_ports q rs e)
IsPermitted-add_ports p q rs e h =
    ground (arith, flag_at-add_ports p q rs e, get-add_ports p q rs e, h)

ports_after-append :
    (o : Option (List PortRange)) (rs : List PortRange) (m : Option (List PortRange))
    → ports_after (some (ports_of o ++ rs)) m ≡ ports_after o (some (rs ++ ports_of m))
unfolding ports_after
ports_after-append o rs none = rw append-nil
ports_after-append o rs (some ms) = rw append_assoc

-- From such maps, the entries add what they declare.
add_entries-get :
    (p : Protocol) (e : Expanded) (es : List ServiceEntry)
    → IsPermitted p e
    → get p (add_entries e es).ports ≡ (
        if flag_at p e || permits_all p es
        then some []
        else ports_after (get p e.ports) (listed_ports p es))
unfolding add_entries permits_all listed_ports
add_entries-get p e [] h = unfold ports_after in ground (arith, h)
add_entries-get p e (s ∷ ss) h =
    add_entries-get p (add_ports s.protocol s.ports e) ss
      (IsPermitted-add_ports p s.protocol s.ports e h)
    ∙ ground (
      arith,
      flag_at-add_ports p s.protocol s.ports e,
      get-add_ports p s.protocol s.ports e,
      ports_after-append (get p e.ports) s.ports (listed_ports p ss),
    )

add_entries-append :
    (e : Expanded) (xs ys : List ServiceEntry)
    → add_entries e (xs ++ ys) ≡ add_entries (add_entries e xs) ys
unfolding add_entries
add_entries-append e [] ys = refl
add_entries-append e (x ∷ xs) ys = add_entries-append (add_ports x.protocol x.ports e) xs ys

add_services-named :
    (services : List (Uuid × Service)) (e : Expanded) (ids : List Uuid)
    → add_services services e ids ≡ add_entries e (named_entries services ids)
unfolding add_services named_entries add_entries
add_services-named services e [] = refl
add_services-named services e (id ∷ ids) =
    add_services-named services (add_entries e (entries_of (get id services))) ids
    ∙ sym (add_entries-append e (entries_of (get id services)) (named_entries services ids))

ports_after_start :
    (b : Bool) (o : Option (List PortRange))
    → (if b then some [] else ports_after none o) ≡ (if b then some [] else o)
unfolding ports_after
ports_after_start b none = refl
ports_after_start b (some ps) = refl

-- What `expandServices` yields for a protocol: nothing where no entry of the rule, named or inline,
-- is of the protocol; every port where one of those entries lists no ports; and else the ports that
-- those entries list, in order.
pub expand_services-declared :
    (p : Protocol) (services : List (Uuid × Service)) (rule : Rule)
    → get p (expand_services services rule) ≡ declared_ports p (rule_entries services rule)
unfolding expand_services rule_entries declared_ports get
expand_services-declared p services rule =
    let start : Expanded = record { ports = []; all_ports = [] } in
    let named = named_entries services rule.service_ids in
    ap (λ (e : Expanded). get p (add_entries e rule.entries).ports)
      (add_services-named services start rule.service_ids)
    ∙ ap (λ (e : Expanded). get p e.ports) (sym (add_entries-append start named rule.entries))
    ∙ add_entries-get p start (named ++ rule.entries) (λ h. cc)
    ∙ ports_after_start (permits_all p (named ++ rule.entries))
        (listed_ports p (named ++ rule.entries))
