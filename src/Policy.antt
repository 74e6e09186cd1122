-- ===== src/Policy.antt =====
-- internal/policy/model.go and the labels of internal/registry/registry.go: the authored model that
-- the compiler renders, and label selection. The write times that the store keeps beside each object
-- are left out: nothing here reads them.
pub mod Selection
pub mod Labels
pub mod Validate
pub mod Admission
pub mod Rules
pub mod Admitted
use innerwall.Prelude.Tests.{
  ℕ, ◌≡◌, Bool, true, false, ◌&&◌, ◌||◌, Option, none, some, List, [], ◌∷◌, if◌then◌else◌,
}
use innerwall.Prelude.Order.{◌=?◌}
use innerwall.Prelude.Sorting.{contains, sort}
use innerwall.Prelude.Dict.{get, put}
use innerwall.Prelude.Text.{Str, str_order}
use innerwall.Rendered.{Protocol, PortRange}

-- A uuid.UUID as its canonical text.
abbrev pub Uuid : Type 0
Uuid = Str

abbrev pub Direction : Type 0
Direction = ℕ

abbrev pub direction_unspecified : Direction
direction_unspecified = 0

abbrev pub direction_inbound : Direction
direction_inbound = 1

abbrev pub direction_outbound : Direction
direction_outbound = 2

pub record ServiceEntry : Type 0 where
  pub protocol : Protocol
  pub ports : List PortRange

pub record Service : Type 0 where
  pub id : Uuid
  pub name : Str
  pub entries : List ServiceEntry
  pub version : ℕ

pub record AddressGroup : Type 0 where
  pub id : Uuid
  pub name : Str
  pub cidrs : List Str
  pub version : ℕ

-- The map of a key to its values.
abbrev pub Selector : Type 0
Selector = List (Str × List Str)

abbrev pub PeerKind : Type 0
PeerKind = ℕ

abbrev pub peer_unspecified : PeerKind
peer_unspecified = 0

abbrev pub peer_workloads : PeerKind
peer_workloads = 1

abbrev pub peer_address_group : PeerKind
peer_address_group = 2

abbrev pub peer_cidr : PeerKind
peer_cidr = 3

pub record Peer : Type 0 where
  pub kind : PeerKind
  pub workloads : Selector
  pub address_group_id : Uuid
  pub cidr : Str

pub record Rule : Type 0 where
  pub id : Uuid
  pub direction : Direction
  pub enabled : Bool
  pub description : Str
  pub peers : List Peer
  pub service_ids : List Uuid
  pub entries : List ServiceEntry
  pub version : ℕ

pub record Ruleset : Type 0 where
  pub id : Uuid
  pub name : Str
  pub description : Str
  pub enabled : Bool
  pub scope : Selector
  pub rules : List Rule
  pub version : ℕ

abbrev pub Labels : Type 0
Labels = List (Str × Str)

-- The loop over a key's values.
unfoldable pub value_listed : Str → List Str → Bool
value_listed have [] = false
value_listed have (v ∷ vs) = v =? have || value_listed have vs

value_matches : List Str → Option Str → Bool
unfolding value_listed
value_matches values none = false
value_matches values (some have) = value_listed have values

all_match : Selector → Labels → Bool
unfolding value_matches
all_match [] labels = true
all_match ((key, values) ∷ s) labels = value_matches values (get key labels) && all_match s labels

-- `Selector.Matches`.
unfoldable pub matches : Selector → Labels → Bool
unfolding all_match
matches [] labels = false
matches ((key, values) ∷ s) labels = all_match ((key, values) ∷ s) labels

matching_ids : Selector → List (Str × Labels) → List Str
matching_ids s [] = []
matching_ids s ((id, labels) ∷ index) =
    if matches s labels then id ∷ matching_ids s index else matching_ids s index

-- `MatchWorkloads`.
unfoldable pub match_workloads : Selector → List (Str × Labels) → List Str
unfolding matching_ids
match_workloads s index = sort (matching_ids s index)

pub record Label : Type 0 where
  pub key : Str
  pub value : Str

label_map_from : Labels → List Label → Labels
label_map_from m [] = m
label_map_from m (l ∷ ls) = label_map_from (put l.key l.value m) ls

-- `Workload.LabelMap`.
unfoldable pub label_map : List Label → Labels
unfolding label_map_from
label_map labels = label_map_from [] labels
