-- ===== src/Registry.antt =====
-- nodeinnet-p2p/src/lib.rs: the tables of known keys and names, the peer store and the endpoints.
-- The process-wide tables are a record that an update returns anew; a lock is never poisoned, since
-- nothing panics while it holds one.
pub mod Laws
pub mod Endpoints
mod Examples
use p2p_common.Common.{
  ℕ, String, Bool, true, false, Option, none, some, List, [], ◌∷◌, ◌&&◌, str_eq, if◌then◌else◌, map,
}
use p2p_common.Common.Dict.{Dict, get, insert, empty}
use p2p_common.Protocol.Types.{
  ResourceType, filesystem, terminal, remote_desktop, shared_network, registry, system_info,
  sync_folder, NodeInfo, SharedResource,
}

pub resource_id_base : ResourceType → Option String
resource_id_base filesystem = some "fs"
resource_id_base terminal = some "terminal"
resource_id_base remote_desktop = some "desktop"
resource_id_base shared_network = some "network"
resource_id_base registry = some "registry"
resource_id_base system_info = some "sysinfo"
resource_id_base sync_folder = none

pub record PeerConfig : Type 0 where
  pub name : String
  pub public_key : String
  pub os : String
  pub last_known_addresses : List String

-- `PeerConfig::default()`
abbrev pub default_config : PeerConfig
default_config = record { name = ""; public_key = ""; os = ""; last_known_addresses = [] }

abbrev pub PeerMap : Type 0
PeerMap = Dict PeerConfig

abbrev pub or_default : Option PeerConfig → PeerConfig
or_default none = default_config
or_default (some c) = c

-- `map.entry(id).or_default()` and a change of that entry
abbrev pub update_entry : PeerMap → String → (PeerConfig → PeerConfig) → PeerMap
update_entry peers id f = insert peers id (f (or_default (get peers id)))

-- KNOWN_PUBLIC_KEYS, KNOWN_PEER_NAMES and KNOWN_RESOURCE_NAMES; the last is keyed by two texts.
pub record Known : Type 0 where
  pub public_keys : Dict String
  pub peer_names : Dict String
  pub resource_names : Dict (Dict String)

abbrev pub no_known : Known
no_known = record { public_keys = empty; peer_names = empty; resource_names = empty }

unfoldable pub get_known_public_key : Known → String → Option String
get_known_public_key k node_id = get k.public_keys node_id

unfoldable pub get_known_peer_name : Known → String → Option String
get_known_peer_name k node_id = get k.peer_names node_id

abbrev pub inner : Option (Dict String) → Dict String
inner none = empty
inner (some d) = d

unfoldable pub get_known_resource_name : Known → String → String → Option String
get_known_resource_name k peer_id resource_id =
    get (inner (get k.resource_names peer_id)) resource_id

-- The three loops over `nodes`
pub insert_keys : Dict String → List NodeInfo → Dict String
insert_keys keys [] = keys
insert_keys keys (n ∷ nodes) = insert_keys (insert keys n.id n.public_key) nodes

pub insert_names : Dict String → List NodeInfo → Dict String
insert_names names [] = names
insert_names names (n ∷ nodes) = insert_names (insert names n.id n.name) nodes

pub insert_of_node : Dict (Dict String) → String → List SharedResource → Dict (Dict String)
insert_of_node names id [] = names
insert_of_node names id (r ∷ resources) =
    insert_of_node (insert names id (insert (inner (get names id)) r.id r.name)) id resources

pub insert_resources : Dict (Dict String) → List NodeInfo → Dict (Dict String)
unfolding insert_of_node
insert_resources names [] = names
insert_resources names (n ∷ nodes) = insert_resources (insert_of_node names n.id n.resources) nodes

unfoldable pub update_known_public_keys : Known → List NodeInfo → Known
unfolding insert_keys insert_names insert_resources
update_known_public_keys k nodes = record {
  public_keys = insert_keys k.public_keys nodes;
  peer_names = insert_names k.peer_names nodes;
  resource_names = insert_resources k.resource_names nodes;
}
