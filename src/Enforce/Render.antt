-- ===== src/Enforce/Render.antt =====
-- internal/agent/enforce/nft/render.go and delta.go: the nft scripts that install a policy, text by
-- text. The laws are in the modules below.
pub mod Modes
use innerwall.Prelude.Tests.{
  ℕ, zero, suc, ◌+◌, ◌-◌, ◌*◌, ◌/◌, ◌%◌, ◌≡◌, Bool, true, false, not, ◌&&◌, ◌||◌, Option, none,
  some, List, [], ◌∷◌, ◌++◌, map, ltb, leb, ◌==◌, if◌then◌else◌,
}
use innerwall.Prelude.Sorting.{sort}
use innerwall.Prelude.Dict.{get}
use innerwall.Prelude.Text.{Str, str_order, codes, decimal}
use innerwall.Prelude.Result.{Result, ok, err, ◌>>=◌}
use innerwall.Netip.{Netip}
use innerwall.Rendered.{
  Mode, mode_simulation, mode_enforced, Protocol, PortRange, ResolvedRule, WorkloadPolicy,
  canonical,
}
use innerwall.Delta.{
  PeerChange, DeltaChange, upsert_rule, remove_rule_id, add_peers, remove_peers, set_mode, unset,
  diff, is_empty,
}
use innerwall.Compiler.{tcp, udp, icmp}
use innerwall.Enforce.Marks.{Marks}

abbrev pub would_block_index : ℕ
would_block_index = 65535

-- `index << 16` and `(mark & 0xffff0000) >> 16` on 32 bits.
unfoldable pub rule_mark : ℕ → ℕ
rule_mark index = (index * 65536) % 4294967296

unfoldable pub rule_index : ℕ → ℕ
rule_index mark = mark % 4294967296 / 65536

-- The table's name and the log group; empty and 0 stand for the defaults.
pub record Options : Type 0 where
  pub table : Str
  pub nflog_group : ℕ

unfoldable pub table_of : Options → Str
table_of o = if is_empty o.table then codes "innerwall" else o.table

unfoldable pub group_of : Options → ℕ
group_of o = if o.nflog_group == 0 then 200 else o.nflog_group

unfoldable pub hex_digit : ℕ → ℕ
hex_digit d = if ltb d 10 then b'0' + d else b'a' + d - 10

unfoldable pub hex_from : ℕ → ℕ → Str → Str
unfolding hex_digit
hex_from zero n acc = acc
hex_from (suc k) n acc = hex_from k (n / 16) (hex_digit (n % 16) ∷ acc)

-- `%08x` of 32 bits.
unfoldable pub hex : ℕ → Str
unfolding hex_from
hex n = hex_from 8 n []

unfoldable pub name_code : ℕ → ℕ
name_code c =
    if (leb b'a' c && leb c b'z')
      || (leb b'A' c && leb c b'Z')
      || (leb b'0' c && leb c b'9')
      || c == b'_'
    then c
    else b'_'

unfoldable pub set_name : Str → Bool → Str
unfolding name_code
set_name id v6 = codes "r_" ++ (map name_code id ++ (if v6 then codes "_v6" else codes "_v4"))

unfoldable pub carries_sets : Mode → Bool
carries_sets m = m == mode_enforced || m == mode_simulation

abbrev pub has : ℕ → Str → Bool
has c [] = false
has c (x ∷ xs) = x == c || has c xs

-- The IPv4 and the IPv6 prefixes, sorted.
unfoldable pub v6_peers : List Str → List Str
v6_peers [] = []
v6_peers (c ∷ cs) = if has b':' c then c ∷ v6_peers cs else v6_peers cs

unfoldable pub v4_peers : List Str → List Str
v4_peers [] = []
v4_peers (c ∷ cs) = if not (has b':' c) && has b'.' c then c ∷ v4_peers cs else v4_peers cs

-- `strings.Join(parts, ", ")`.
abbrev pub join : List Str → Str
join [] = []
join (x ∷ []) = x
join (x ∷ y ∷ ys) = x ++ (codes ", " ++ join (y ∷ ys))

unfoldable pub write_set : Str → Str → List Str → Str
write_set name kind elements =
    codes "\tset "
    ++ (name
        ++ (codes " {\n\t\ttype "
            ++ (kind
                ++ (codes "\n\t\tflags interval\n"
                    ++ ((if is_empty elements
                          then []
                          else codes "\t\telements = { " ++ (join elements ++ codes " }\n"))
                        ++ codes "\t}\n")))))

unfoldable pub port_text : PortRange → Str
port_text p =
    if p.start == p.end then decimal p.start else decimal p.start ++ (codes "-" ++ decimal p.end)

unfoldable pub ports_text : Str → List PortRange → Str
unfolding port_text
ports_text proto ranges =
    if is_empty ranges
    then codes "meta l4proto " ++ proto
    else proto ++ (codes " dport { " ++ (join (map port_text ranges) ++ codes " }"))

-- `l4Match` for one of the two families.
unfoldable pub l4_match : Bool → Protocol → List PortRange → Str
unfolding ports_text
l4_match v6 protocol ports =
    if protocol == tcp
    then ports_text (codes "tcp") ports
    else if protocol == udp
    then ports_text (codes "udp") ports
    else if protocol == icmp
    then (if v6 then codes "meta l4proto ipv6-icmp" else codes "meta l4proto icmp")
    else codes "meta l4proto 255"

abbrev pub mark_set : ℕ → Str
mark_set value = codes " ct mark set (ct mark & 0x0000ffff) | 0x" ++ hex value

unfoldable pub write_admit : Str → Str → Str → Str → ℕ → Str
unfolding rule_mark
write_admit family set match_ id index =
    codes "\t\t"
    ++ (family
        ++ (codes " saddr @"
            ++ (set
                ++ (codes " "
                    ++ (match_
                        ++ (codes " ct state untracked accept comment \"innerwall rule "
                            ++ (id
                                ++ (codes " untracked\"\n"
                                    ++ (codes "\t\t"
                                        ++ (family
                                            ++ (codes " saddr @"
                                                ++ (set
                                                    ++ (codes " "
                                                        ++ (match_
                                                            ++ (mark_set (rule_mark index)
                                                            ++ (codes
                                                            " accept comment \"innerwall rule "
                                                            ++ (id
                                                            ++ (codes " mark "
                                                            ++ (decimal index
                                                            ++ codes "\"\n")))))))))))))))))))

abbrev pub or_zero : Option ℕ → ℕ
or_zero none = 0
or_zero (some n) = n

-- A rule without a value is refused.
pub data RenderError : Type 0 where
  unallocated_rule : Str → RenderError

unfoldable pub is_marked : Option ℕ → Bool
is_marked none = false
is_marked (some m) = not (m == 0 || leb would_block_index m)

unfoldable pub check_marked : List ResolvedRule → Marks → Result RenderError (Unit {0})
unfolding is_marked
check_marked [] marks = ok tt
check_marked (r ∷ rs) marks =
    if is_marked (get r.rule_id marks)
    then check_marked rs marks
    else err (unallocated_rule r.rule_id)

unfoldable pub write_sets : List ResolvedRule → Str
unfolding write_set v4_peers v6_peers set_name
write_sets [] = []
write_sets (r ∷ rs) =
    write_set (set_name r.rule_id false) (codes "ipv4_addr") (sort (v4_peers r.peer_cidrs))
    ++ (write_set (set_name r.rule_id true) (codes "ipv6_addr") (sort (v6_peers r.peer_cidrs))
        ++ write_sets rs)

unfoldable pub write_admits : List ResolvedRule → Marks → Str
unfolding write_admit l4_match set_name
write_admits [] marks = []
write_admits (r ∷ rs) marks =
    let index = or_zero (get r.rule_id marks) in
    write_admit (codes "ip") (set_name r.rule_id false) (l4_match false r.protocol r.ports)
      r.rule_id index
    ++ (write_admit (codes "ip6") (set_name r.rule_id true) (l4_match true r.protocol r.ports)
          r.rule_id index
        ++ write_admits rs marks)

-- The terminal rule of a mode that carries sets.
unfoldable pub terminal : Mode → Options → Str
unfolding rule_mark
terminal mode o =
    if mode == mode_enforced
    then codes "\t\tlog prefix \"innerwall \" group "
      ++ (decimal (group_of o) ++ codes " drop comment \"innerwall terminal enforced\"\n")
    else if mode == mode_simulation
    then codes "\t\tlog prefix \"innerwall \" group "
      ++ (decimal (group_of o)
          ++ (codes " counter"
              ++ (mark_set (rule_mark would_block_index)
                  ++ codes " accept comment \"innerwall terminal simulation\"\n")))
    else []

unfoldable pub chain_head : Str → Str
chain_head name =
    codes "\tchain "
    ++ (name ++ codes " {\n\t\ttype filter hook input priority filter + 10; policy accept;\n")

abbrev pub closing : Str
closing = codes "\t}\n}\n"

-- `RenderTeardown`.
unfoldable pub render_teardown : Options → Str
render_teardown o =
    codes "table inet "
    ++ (table_of o ++ (codes " {}\ndelete table inet " ++ (table_of o ++ codes "\n")))

unfoldable pub prologue : Options → Str
unfolding render_teardown
prologue o = render_teardown o ++ (codes "table inet " ++ (table_of o ++ codes " {\n"))

unfoldable pub render_observe : Options → Str
unfolding prologue chain_head
render_observe o =
    prologue o
    ++ (chain_head (codes "observe")
        ++ (codes "\t\tct state new counter accept comment \"innerwall observation visibility\"\n"
            ++ closing))

-- What the table holds before its terminal rule.
unfoldable pub render_rules : List ResolvedRule → Marks → Options → Str
unfolding prologue write_sets chain_head write_admits
render_rules rules marks o =
    prologue o
    ++ (write_sets rules
        ++ (chain_head (codes "inbound")
            ++ (codes "\t\tiif \"lo\" accept\n\t\tct state established,related accept\n"
                ++ write_admits rules marks)))

-- `writeElements`.
unfoldable pub write_family : Str → Str → Str → List Str → Str
write_family verb table set peers =
    if is_empty peers
    then []
    else verb
      ++ (codes " element inet "
          ++ (table ++ (codes " " ++ (set ++ (codes " { " ++ (join peers ++ codes " }\n"))))))

unfoldable pub write_elements : Str → Str → PeerChange → Str
unfolding write_family set_name v4_peers v6_peers
write_elements verb table pc =
    write_family verb table (set_name pc.rule_id false) (sort (v4_peers pc.peer_cidrs))
    ++ write_family verb table (set_name pc.rule_id true) (sort (v6_peers pc.peer_cidrs))

unfoldable pub write_change : Str → DeltaChange → Option Str
unfolding write_elements
write_change table (add_peers c) = some (write_elements (codes "add") table c)
write_change table (remove_peers c) = some (write_elements (codes "delete") table c)
write_change table (upsert_rule r) = none
write_change table (remove_rule_id id) = none
write_change table (set_mode m) = none
write_change table unset = none

abbrev pub both : Option Str → Option Str → Option Str
both none b = none
both (some a) none = none
both (some a) (some b) = some (a ++ b)

unfoldable pub write_changes : Str → List DeltaChange → Option Str
unfolding write_change
write_changes table [] = some []
write_changes table (c ∷ cs) = both (write_change table c) (write_changes table cs)

module _ ⦃ip : Netip⦄ where
  -- `Render`.
  unfoldable pub render : WorkloadPolicy → Marks → Options → Result RenderError Str
  unfolding carries_sets render_observe check_marked render_rules terminal
  render policy marks o =
      let p = canonical policy in
      if not (carries_sets p.mode)
      then ok (render_observe o)
      else (check_marked p.inbound_rules marks >>= λ (u : Unit {0}).
          ok (render_rules p.inbound_rules marks o ++ (terminal p.mode o ++ closing)))

  -- `RenderDelta`, none where it reports false.
  unfoldable pub render_delta : WorkloadPolicy → WorkloadPolicy → Options → Option Str
  unfolding carries_sets write_changes
  render_delta from to o =
      if not (carries_sets from.mode) || not (carries_sets to.mode)
      then none
      else if is_empty (diff from to)
      then none
      else write_changes (table_of o) (diff from to)
