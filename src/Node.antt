-- ===== src/Node.antt =====
-- p2p-node/src/lib.rs: the context of one peer session and the access check on its messages.
-- Asynchronous sends into the outgoing channel append to `outgoing`. Log lines are not modelled.
pub mod Access
pub mod Handshake
mod Examples
use p2p_common.Common.{
  ℕ, zero, suc, ◌+◌, String, Bool, true, false, not, ◌&&◌, ◌||◌, Option, none, some, List, [], ◌∷◌,
  ◌++◌, str_eq, ◌==◌, if◌then◌else◌, keep, any, find,
}
use p2p_common.Common.Dict.{Dict, get, insert, empty}
use p2p_common.Common.Result.{Result, ok, err}
use p2p_common.Crypto.{Primitives, compute_hmac_sha256}
use p2p_common.Protocol.Types.{
  Uuid, ResourceType, filesystem, system_info, terminal, registry, shared_network, sync_folder,
  remote_desktop, SharedResource, NodeInfo,
}
use p2p_common.Protocol.Message.{
  P2pMessage, SecuredP2pEnvelope, OutboundP2pPayload, message, binary, entries_response,
  metadata_response, create_directory_response, delete_entry_response, rename_entry_response,
  set_permissions_response, system_info_response, registry_keys_response,
  create_registry_key_response, delete_registry_entry_response, set_registry_value_response,
  http_response_start, http_response_chunk, http_response_complete, socks_connect_response,
  socks_data, socks_close, file_transfer_response, file_chunk, file_transfer_complete,
  terminal_output, sync_state_response, remote_desktop_response, handshake_response,
  app_list_response, app_action_response, handshake, remote_desktop_request,
}
use p2p_common.Protocol.Access.{allowed_resource_types, resource_id}
use p2p_common.Registry.{PeerMap}

-- `==` of `ResourceType`, by the place of a variant.
abbrev pub rank : ResourceType → ℕ
rank filesystem = 0
rank system_info = 1
rank terminal = 2
rank registry = 3
rank shared_network = 4
rank sync_folder = 5
rank remote_desktop = 6

abbrev pub type_eq : ResourceType → ResourceType → Bool
type_eq a b = rank a == rank b

-- The maps that only the installed handlers read are left out.
pub record NodeContext : Type 0 where
  pub my_info : NodeInfo
  pub peer_id : String
  pub is_authenticated : Bool
  pub remote_resources : ResourceType → Option String
  pub active_terminals : Dict Uuid
  pub active_socks_streams : List Uuid
  pub session_keys : Dict String
  pub peer_max_chunk_size : ℕ
  pub discovered_ips : List String
  -- the map that the store of the host holds
  pub peer_store : PeerMap
  -- what went into `outgoing_tx`, and what the installed handler was given
  pub outgoing : List OutboundP2pPayload
  pub handled : List P2pMessage
  -- how many random tokens were drawn
  pub drawn : ℕ

-- `NodeContext::new`
pub new_context : NodeInfo → String → PeerMap → NodeContext
new_context info peer peer_store = record {
  my_info = info;
  peer_id = peer;
  is_authenticated = false;
  remote_resources = λ t. none;
  active_terminals = empty;
  active_socks_streams = [];
  session_keys = empty;
  peer_max_chunk_size = 10240;
  discovered_ips = [];
  peer_store = peer_store;
  outgoing = [];
  handled = [];
  drawn = 0;
}

-- What the context uses of its surroundings: `to_bson_vec`, the random tokens in the order in which
-- they are drawn, and whether a message handler is installed.
pub record Env : Type 0 where
  pub crypto : Primitives
  pub to_bson : P2pMessage → Result (List ℕ)
  pub token : ℕ → String
  pub installed : Bool

abbrev pub send : NodeContext → OutboundP2pPayload → NodeContext
send c payload = record c { outgoing = c.outgoing ++ payload ∷ [] }

abbrev pub mac_with : Primitives → String → Result (List ℕ) → Option String
mac_with p key_hex (ok bytes) = some (compute_hmac_sha256 p bytes key_hex)
mac_with p key_hex (err e) = none

abbrev pub mac_under : Env → P2pMessage → Option String → Option String
mac_under env msg none = none
mac_under env msg (some key_hex) = mac_with env.crypto key_hex (env.to_bson msg)

abbrev pub mac_for : Env → NodeContext → P2pMessage → Option String → Option String
mac_for env c msg none = none
mac_for env c msg (some res_id) = mac_under env msg (get c.session_keys res_id)

unfoldable pub send_msg : Env → NodeContext → P2pMessage → NodeContext
send_msg env c msg =
    send c (message (record { mac = mac_for env c msg (resource_id msg); message = msg }))

unfoldable pub send_binary : NodeContext → List ℕ → NodeContext
send_binary c bytes = send c (binary bytes)

unfoldable pub shutdown : NodeContext → NodeContext
shutdown c = record c { active_terminals = empty; active_socks_streams = []; session_keys = empty }

-- The messages that pass without the access check.
unfoldable pub is_response : P2pMessage → Bool
is_response (entries_response _ _ _ _ _ _ _ _ _) = true
is_response (metadata_response _ _ _ _) = true
is_response (create_directory_response _ _ _ _) = true
is_response (delete_entry_response _ _ _ _) = true
is_response (rename_entry_response _ _ _ _) = true
is_response (set_permissions_response _ _ _ _) = true
is_response (system_info_response _ _) = true
is_response (registry_keys_response _ _ _ _ _ _) = true
is_response (create_registry_key_response _ _ _ _) = true
is_response (delete_registry_entry_response _ _ _ _) = true
is_response (set_registry_value_response _ _ _ _) = true
is_response (http_response_start _ _ _ _) = true
is_response (http_response_chunk _ _ _) = true
is_response (http_response_complete _ _) = true
is_response (socks_connect_response _ _ _ _) = true
is_response (socks_data _ _ _) = true
is_response (socks_close _ _) = true
is_response (file_transfer_response _ _) = true
is_response (file_chunk _ _ _) = true
is_response (file_transfer_complete _ _) = true
is_response (terminal_output _ _) = true
is_response (sync_state_response _ _ _) = true
is_response (remote_desktop_response _ _ _ _ _) = true
is_response (handshake_response _) = true
is_response (app_list_response _ _ _ _ _ _) = true
is_response (app_action_response _ _ _ _ _) = true
is_response _ = false

abbrev pub has_type : List ResourceType → ResourceType → Bool
has_type types t = any (λ a. type_eq a t) types

abbrev pub is_empty {ℓ} : {A : Type ℓ} → List A → Bool
is_empty [] = true
is_empty (x ∷ xs) = false

abbrev pub type_allowed : List ResourceType → Option SharedResource → Bool
type_allowed allowed none = false
type_allowed allowed (some r) = is_empty allowed || has_type allowed r.resource_type

abbrev pub resource_allowed : List SharedResource → List ResourceType → Option String → Bool
resource_allowed resources allowed none = true
resource_allowed resources allowed (some res_id) =
    type_allowed allowed (find (λ r. str_eq r.id res_id) resources)

-- The guard of `process_message`
unfoldable pub access_allowed : NodeContext → P2pMessage → Bool
access_allowed c msg =
    if is_response msg
    then true
    else resource_allowed c.my_info.resources (allowed_resource_types msg) (resource_id msg)

abbrev pub requested : Option (List ResourceType) → List SharedResource → List SharedResource
requested none resources = resources
requested (some types) resources = keep (λ r. has_type types r.resource_type) resources

-- The loop over `my_resources`: each gets a fresh token, which becomes its session key.
unfoldable pub issue_tokens :
    (ℕ → String) → ℕ → Dict String → List SharedResource → Dict String × ℕ × List SharedResource
issue_tokens token drawn keys [] = (keys, drawn, [])
issue_tokens token drawn keys (r ∷ resources) =
    let (keys', drawn', rest) =
      issue_tokens token (drawn + 1) (insert keys r.id (token drawn)) resources in
    (keys', drawn', record r { session_token = some (token drawn); config = none } ∷ rest)

pub on_handshake : Env → NodeContext → Option (List ResourceType) → NodeContext
on_handshake env c types =
    let (keys, drawn, shared) =
      issue_tokens env.token c.drawn c.session_keys (requested types c.my_info.resources) in
    send_msg env (record c { session_keys = keys; drawn = drawn }) (handshake_response shared)

abbrev pub serves_desktop : NodeContext → String → Bool
serves_desktop c id =
    any (λ r. str_eq r.id id && (r.is_active && type_eq r.resource_type remote_desktop))
      c.my_info.resources

pub on_remote_desktop_request : Env → NodeContext → String → NodeContext
on_remote_desktop_request env c id =
    if serves_desktop c id
    then send_msg env c (remote_desktop_response id true none none none)
    else send_msg env c (
        remote_desktop_response id false (some "Remote desktop service is inactive or unavailable")
          none none)

-- `handler.handle(other, self.clone())`
abbrev pub hand_over : Env → NodeContext → P2pMessage → NodeContext
hand_over env c msg = if env.installed then record c { handled = c.handled ++ msg ∷ [] } else c

unfoldable pub dispatch : Env → NodeContext → P2pMessage → NodeContext
dispatch env c (handshake _ _ _ types _ _ _) = on_handshake env c types
dispatch env c (remote_desktop_request id _ _ _ _) = on_remote_desktop_request env c id
dispatch env c msg = hand_over env c msg

unfoldable pub process_message : Env → NodeContext → P2pMessage → NodeContext
unfolding dispatch on_handshake on_remote_desktop_request
process_message env c msg = if access_allowed c msg then dispatch env c msg else c
