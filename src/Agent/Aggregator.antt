-- ===== src/Agent/Aggregator.antt =====
-- internal/agent/collect/collect.go: the open window, which folds observations into one record for
-- each key, up to a bound on the keys. An address is any type with an order; its text is a parameter,
-- as it is net/netip's. An instant is a wall-clock number of nanoseconds. The laws are in the module
-- below.
pub mod Folds
pub mod Cut
use innerwall.Prelude.Tests.{
  ℕ, suc, ◌+◌, ◌%◌, ◌^◌, ◌≡◌, refl, ap, Bool, true, false, not, ◌&&◌, Option, none, some, List, [],
  ◌∷◌, ◌++◌, ltb, leb, ◌==◌, if◌then◌else◌, length, map_option,
}
use innerwall.Prelude.Order.{Order, nat_order}
use innerwall.Prelude.Lex.{pair_order, order_by}
use innerwall.Prelude.Sorting.{sort}
use innerwall.Prelude.Dict.{get, put, keys, values_at}
use innerwall.Prelude.Text.{Str, str_order}
use innerwall.Rendered.{Protocol}
use innerwall.Policy.{Direction, direction_inbound}
use innerwall.Agent.Gaps.{Gap, Gaps, window_overflow, no_source, record_gap}
use innerwall.Agent.Buffer.{Window, default_buffer_records}

-- A PolicyDecision of the wire, an open enum.
abbrev pub Decision : Type 0
Decision = ℕ

pub record Observation (A : Type 0) : Type 0 where
  pub at : ℕ
  pub src : A
  pub dst : A
  pub dst_port : ℕ
  pub protocol : Protocol
  pub decision : Decision
  pub rule_id : Str
  pub connections : ℕ
  pub bytes : ℕ
  pub process_name : Str

pub record Key (A : Type 0) : Type 0 where
  pub src : A
  pub dst : A
  pub dst_port : ℕ
  pub protocol : Protocol
  pub decision : Decision
  pub rule_id : Str

pub record Tally : Type 0 where
  pub connections : ℕ
  pub bytes : ℕ
  pub first : ℕ
  pub last : ℕ
  pub process : Str

pub record FlowRecord : Type 0 where
  pub src_address : Str
  pub dst_address : Str
  pub dst_port : ℕ
  pub protocol : Protocol
  pub direction : Direction
  pub decision : Decision
  pub matched_rule_id : Str
  pub connection_count : ℕ
  pub byte_count : ℕ
  pub first_seen : ℕ
  pub last_seen : ℕ
  pub process_name : Str

pub record Aggregator (A : Type 0) : Type 0 where
  pub gaps : Option Gaps
  pub start : ℕ
  pub records : List (Key A × Tally)
  pub max_keys : ℕ
  pub dropped : ℕ
  pub first_drop : ℕ

abbrev pub default_window_keys : ℕ
default_window_keys = default_buffer_records

abbrev pub is_named : Str → Bool
is_named [] = false
is_named (c ∷ cs) = true

module _ {A : Type 0} where
  -- The fields in the order in which `lessKey` compares them.
  abbrev pub key_fields : Key A → A × (A × (ℕ × (ℕ × (ℕ × Str))))
  key_fields k = (k.src, (k.dst, (k.dst_port, (k.protocol, (k.decision, k.rule_id)))))

  abbrev of_fields : A × (A × (ℕ × (ℕ × (ℕ × Str)))) → Key A
  of_fields (src, (dst, (dst_port, (protocol, (decision, rule_id))))) = record {
    src = src;
    dst = dst;
    dst_port = dst_port;
    protocol = protocol;
    decision = decision;
    rule_id = rule_id;
  }

  pub key_fields-injective : (a b : Key A) → key_fields a ≡ key_fields b → a ≡ b
  key_fields-injective a b h = ap of_fields h

  -- `lessKey`.
  instance abbrev pub key_order : ⦃o : Order A⦄ → Order (Key A)
  key_order = order_by key_fields key_fields-injective

  abbrev pub key_of : Observation A → Key A
  key_of o = record {
    src = o.src;
    dst = o.dst;
    dst_port = o.dst_port;
    protocol = o.protocol;
    decision = o.decision;
    rule_id = o.rule_id;
  }

  -- A record with an observation folded in; none is a key that is new.
  pub folded : Observation A → Option Tally → Tally
  folded o none = record {
    connections = o.connections % 2 ^ 64;
    bytes = o.bytes % 2 ^ 64;
    first = o.at;
    last = o.at;
    process = o.process_name;
  }
  folded o (some r) = record {
    connections = (r.connections + o.connections) % 2 ^ 64;
    bytes = (r.bytes + o.bytes) % 2 ^ 64;
    first = if ltb o.at r.first then o.at else r.first;
    last = if ltb r.last o.at then o.at else r.last;
    process = if is_named o.process_name then o.process_name else r.process;
  }

  -- `NewBoundedAggregator`, whose bound here is 0 where the source's is not positive.
  unfoldable pub new_bounded_aggregator : Option Gaps → ℕ → ℕ → Aggregator A
  new_bounded_aggregator gaps start max_keys = record {
    gaps = gaps;
    start = start;
    records = [];
    max_keys = if max_keys == 0 then default_window_keys else max_keys;
    dropped = 0;
    first_drop = 0;
  }

module _ {A : Type 0} ⦃order : Order A⦄ where
  pub drop_observation : Observation A → Aggregator A → Aggregator A
  drop_observation o a = record a {
    first_drop =
        if a.dropped == 0 then o.at else if ltb o.at a.first_drop then o.at else a.first_drop;
    dropped = (a.dropped + 1) % 2 ^ 64;
  }

  abbrev pub fold_in : Observation A → Option Tally → Aggregator A → Aggregator A
  fold_in o found a = record a { records = put (key_of o) (folded o found) a.records }

  pub observe_found : Observation A → Option Tally → Aggregator A → Aggregator A
  unfolding folded drop_observation
  observe_found o (some r) a = fold_in o (some r) a
  observe_found o none a =
      if leb a.max_keys (length a.records) then drop_observation o a else fold_in o none a

  -- `Add`.
  unfoldable pub observe : Observation A → Aggregator A → Aggregator A
  unfolding observe_found
  observe o a = observe_found o (get (key_of o) a.records) a

  module _ (address_text : A → Str) where
    -- The local function `hold` of `close`.
    abbrev pub hold : Bool → ℕ → ℕ → ℕ → ℕ
    hold within start end t =
        if not within then t else if ltb t start then start else if ltb end t then end else t

    abbrev pub flow_record : Bool → ℕ → ℕ → Key A × Tally → FlowRecord
    flow_record within start end (k, r) = record {
      src_address = address_text k.src;
      dst_address = address_text k.dst;
      dst_port = k.dst_port;
      protocol = k.protocol;
      direction = direction_inbound;
      decision = k.decision;
      matched_rule_id = k.rule_id;
      connection_count = r.connections;
      byte_count = r.bytes;
      first_seen = hold within start end r.first;
      last_seen = hold within start end r.last;
      process_name = r.process;
    }

    pub found_record : Bool → ℕ → ℕ → Key A → Option Tally → List FlowRecord → List FlowRecord
    found_record within start end k none rest = rest
    found_record within start end k (some r) rest = flow_record within start end (k, r) ∷ rest

    pub flow_records : Bool → ℕ → ℕ → List (Key A × Tally) → List (Key A) → List FlowRecord
    unfolding found_record
    flow_records within start end m [] = []
    flow_records within start end m (k ∷ ks) =
        found_record within start end k (get k m) (flow_records within start end m ks)

    abbrev pub overflow_recorded : Bool → ℕ → Aggregator A → Option Gaps
    overflow_recorded within end a =
        if ltb 0 a.dropped
        then map_option
            (λ g. record_gap g (record {
              kind = window_overflow;
              source = no_source;
              from = hold within a.start end a.first_drop;
              to = end;
              count = a.dropped;
              has_count = true;
            }))
            a.gaps
        else a.gaps

    -- `close`, whose callers are `Close`, with one instant and no bounds held, and `Cut`.
    unfoldable pub close : ℕ → ℕ → Bool → Aggregator A → Window FlowRecord × Aggregator A
    unfolding flow_records
    close end next within a = (
      record {
        start = a.start;
        end = end;
        records = flow_records within a.start end a.records (sort (keys a.records));
      },
      record a { gaps = overflow_recorded within end a; dropped = 0; start = next; records = [] },
    )
