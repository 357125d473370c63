-- ===== src/Discovery.antt =====
-- The scanner of p2p-node/src/mdns_discovery.rs: what it does with a resolved service. The properties of
-- the service are the fields of an advert; a connection that is spawned is an entry of `dials`. The check
-- for an open tunnel is an argument, since other tasks open and close tunnels meanwhile.
pub mod Laws
mod Examples
use Prim.Native.Char.{code}
use p2p_common.Common.{
  ℕ, ◌+◌, ◌-◌, ◌*◌, String, Bool, true, false, Option, none, some, List, [], ◌∷◌, ◌++◌, ◌&&◌, ◌==◌,
  leb, str_eq, if◌then◌else◌, any,
}
use p2p_common.Common.Int.{pos}
use p2p_common.Common.Bytes.{as_bytes, decimal}
use p2p_common.Common.Result.{Result, ok, err}
use p2p_common.Crypto.{Primitives, verify_message}
use p2p_common.Protocol.Types.{NodeInfo}
use p2p_common.Registry.{Known, PeerMap, PeerConfig, update_entry, update_known_public_keys}
use p2p_common.Mesh.Messages.{LocalMeshSignal, peer_discovered}

pub record Advert : Type 0 where
  pub node_id : Option String
  pub port : Option String
  pub signature : Option String
  pub public_key : Option String
  pub name : Option String
  pub os : Option String
  pub addresses : List String

pub record Discovery : Type 0 where
  pub known : Known
  pub peers : PeerMap
  pub signals : List LocalMeshSignal
  -- the address and the node of each `connect_to_peer_signaling` that is spawned
  pub dials : List (String × String)

-- What the scanner reads beside an advert
pub record Scanner : Type 0 where
  pub crypto : Primitives
  pub my_id : String
  -- SIGNAL_TX is set
  pub has_signal_tx : Bool
  -- a tunnel of the node is open when this address is looked at
  pub connected : String → Bool
  -- `format!("{}:{}", ip, port)`
  pub address : String → ℕ → String

-- `str::parse::<u16>`: digits, at least one, after an optional plus sign
unfoldable pub digits : ℕ → String → Option ℕ
digits n String.[] = some n
digits n (String.◌∷◌ c s) =
    let rest = digits (n * 10 + (code c - 48)) s in
    if leb 48 (code c) && leb (code c) 57 then rest else none

abbrev pub some_digits : String → Option ℕ
some_digits String.[] = none
some_digits (String.◌∷◌ c s) = digits 0 (String.◌∷◌ c s)

abbrev pub without_plus : String → String
without_plus String.[] = String.[]
without_plus (String.◌∷◌ c s) = if code c == 43 then s else String.◌∷◌ c s

unfoldable pub parse_port : String → Option ℕ
unfolding digits
parse_port s = elim (some_digits (without_plus s)) [
  | none ↦ none
  | some n ↦ if leb n 65535 then some n else none
]

abbrev pub advertised : String → ℕ → List ℕ
advertised peer_id port = as_bytes peer_id ++ (58 ∷ decimal port)

abbrev pub unwrap_or : Option String → String → String
unwrap_or none default = default
unwrap_or (some s) default = s

abbrev pub node_of : Advert → String → String → NodeInfo
node_of a peer_id pub_key = record {
  id = peer_id;
  name = unwrap_or a.name peer_id;
  os = unwrap_or a.os "unknown";
  version = "0.1.0";
  app_type = "desktop";
  build_type = "debug";
  public_key = pub_key;
  resources = [];
  is_online = true;
  last_used = pos 0;
  is_temporary = false;
}

abbrev pub push_new : String → PeerConfig → PeerConfig
push_new addr c =
    if any (str_eq addr) c.last_known_addresses
    then c
    else record c { last_known_addresses = c.last_known_addresses ++ addr ∷ [] }

abbrev pub try_address : Scanner → String → String → Discovery → Discovery
try_address z peer_id addr d = record d {
  peers = update_entry d.peers peer_id (push_new addr);
  dials = if z.connected addr then d.dials else d.dials ++ (addr, peer_id) ∷ [];
}

unfoldable pub try_addresses : Scanner → String → ℕ → List String → Discovery → Discovery
try_addresses z peer_id port [] d = d
try_addresses z peer_id port (ip ∷ ips) d =
    try_addresses z peer_id port ips (try_address z peer_id (z.address ip port) d)

abbrev pub store_node : Scanner → NodeInfo → Discovery → Discovery
store_node z node d = record d {
  known = update_known_public_keys d.known (node ∷ []);
  peers =
      update_entry d.peers node.id
        (λ c. record c { public_key = node.public_key; name = node.name; os = node.os });
  signals = if z.has_signal_tx then d.signals ++ peer_discovered node ∷ [] else d.signals;
}

abbrev pub check_advert :
    Scanner → Advert → String → String → String → Option ℕ → Discovery → Discovery
check_advert z a peer_id sig pub_key none d = d
check_advert z a peer_id sig pub_key (some port) d =
    elim (verify_message z.crypto sig pub_key (advertised peer_id port)) [
      | err e ↦ d
      | ok u ↦ try_addresses z peer_id port a.addresses (store_node z (node_of a peer_id pub_key) d)
    ]

abbrev pub with_fields :
    Scanner
    → Advert
    → Option String
    → Option String
    → Option String
    → Option String
    → Discovery
    → Discovery
with_fields z a (some peer_id) (some port) (some sig) (some pub_key) d =
    if str_eq peer_id z.my_id then d else check_advert z a peer_id sig pub_key (parse_port port) d
with_fields z a _ _ _ _ d = d

unfoldable pub handle_advert : Scanner → Advert → Discovery → Discovery
unfolding parse_port try_addresses
handle_advert z a d = with_fields z a a.node_id a.port a.signature a.public_key d
