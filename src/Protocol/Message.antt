-- ===== src/Protocol/Message.antt =====
-- `P2pMessage` of nodeinnet-p2p/src/p2p.rs, one constructor for each variant with its fields in
-- order; a `Result<(), String>` is the `Result` of the shared helpers, and a `BTreeMap` the list of
-- its entries.
use p2p_common.Common.{ℕ, String, Bool, Option, List}
use p2p_common.Common.Dict.{Dict}
use p2p_common.Common.Result.{Result}
use p2p_common.Protocol.Types.{
  Uuid, ResourceType, SharedResource, NodeInfo, NodeTopologyInfo, DesktopInputEvent, SyncFileInfo,
  LaunchableApp, RemoteAppSession, EntryInfo, FileTransferStatus, SysInfo, RegistryValueData,
  RegistryValueInfo,
}

pub data P2pMessage : Type 0 where
  ping : (value : ℕ) → P2pMessage
  pong : (value : ℕ) → P2pMessage
  goodbye : P2pMessage
  text_message : (text : String) → P2pMessage
  handshake :
      (node_version : String) (timestamp_ms : ℕ) (signature : String)
      (requested_resources : Option (List ResourceType)) (max_chunk_size : Option ℕ)
      (local_tcp_port : Option ℕ) (from_node_id : Option String)
      → P2pMessage
  handshake_response : (resources : List SharedResource) → P2pMessage
  peers_sync : (nodes : List NodeInfo) (addresses : Dict (List String)) → P2pMessage
  request_entries : (request_id : Uuid) (resource_id : String) (path : String) → P2pMessage
  entries_response :
      (request_id : Uuid) (resource_id : String) (path : String) (directories : List String)
      (files : List (String × ℕ)) (directories_with_dates : Option (List (String × String)))
      (files_with_dates : Option (List (String × ℕ × String)))
      (directories_permissions : Option (List (Option ℕ)))
      (files_permissions : Option (List (Option ℕ)))
      → P2pMessage
  request_metadata : (request_id : Uuid) (resource_id : String) (path : String) → P2pMessage
  metadata_response :
      (request_id : Uuid) (resource_id : String) (path : String) (metadata : Option EntryInfo)
      → P2pMessage
  create_directory_request :
      (request_id : Uuid) (resource_id : String) (parent_path : String) (dir_name : String)
      (permissions : Option ℕ)
      → P2pMessage
  create_directory_response :
      (request_id : Uuid) (resource_id : String) (parent_path : String) (result : Result (Unit {0}))
      → P2pMessage
  delete_entry_request : (request_id : Uuid) (resource_id : String) (path : String) → P2pMessage
  delete_entry_response :
      (request_id : Uuid) (resource_id : String) (parent_path : String) (result : Result (Unit {0}))
      → P2pMessage
  rename_entry_request :
      (request_id : Uuid) (resource_id : String) (path : String) (new_path : String) → P2pMessage
  rename_entry_response :
      (request_id : Uuid) (resource_id : String) (parent_path : String) (result : Result (Unit {0}))
      → P2pMessage
  set_permissions_request :
      (request_id : Uuid) (resource_id : String) (path : String) (permissions : ℕ) → P2pMessage
  set_permissions_response :
      (request_id : Uuid) (resource_id : String) (parent_path : String) (result : Result (Unit {0}))
      → P2pMessage
  request_system_info : (resource_id : String) → P2pMessage
  system_info_response : (resource_id : String) (info : SysInfo) → P2pMessage
  start_terminal : (resource_id : String) → P2pMessage
  stop_terminal : (resource_id : String) → P2pMessage
  terminal_input : (resource_id : String) (bytes : List ℕ) → P2pMessage
  terminal_output : (resource_id : String) (bytes : List ℕ) → P2pMessage
  terminal_resize : (resource_id : String) (rows : ℕ) (cols : ℕ) → P2pMessage
  file_download_request :
      (resource_id : String) (file_path : String) (transfer_id : Uuid) (offset : ℕ)
      (length : Option ℕ)
      → P2pMessage
  file_upload_request :
      (resource_id : String) (target_path : String) (file_name : String) (total_size : ℕ)
      (transfer_id : Uuid) (permissions : Option ℕ)
      → P2pMessage
  file_transfer_response : (transfer_id : Uuid) (status : FileTransferStatus) → P2pMessage
  file_chunk : (transfer_id : Uuid) (offset : ℕ) (bytes : List ℕ) → P2pMessage
  file_transfer_complete : (transfer_id : Uuid) (checksum : Option String) → P2pMessage
  request_registry_keys : (request_id : Uuid) (resource_id : String) (path : String) → P2pMessage
  registry_keys_response :
      (request_id : Uuid) (resource_id : String) (path : String) (subkeys : List String)
      (values : List RegistryValueInfo) (error : Option String)
      → P2pMessage
  create_registry_key_request :
      (request_id : Uuid) (resource_id : String) (parent_path : String) (key_name : String)
      → P2pMessage
  create_registry_key_response :
      (request_id : Uuid) (resource_id : String) (parent_path : String) (result : Result (Unit {0}))
      → P2pMessage
  delete_registry_entry_request :
      (request_id : Uuid) (resource_id : String) (path : String) (value_name : Option String)
      (is_key : Bool)
      → P2pMessage
  delete_registry_entry_response :
      (request_id : Uuid) (resource_id : String) (parent_path : String) (result : Result (Unit {0}))
      → P2pMessage
  set_registry_value_request :
      (request_id : Uuid) (resource_id : String) (path : String) (value_name : String)
      (value_data : RegistryValueData)
      → P2pMessage
  set_registry_value_response :
      (request_id : Uuid) (resource_id : String) (path : String) (result : Result (Unit {0}))
      → P2pMessage
  socks_connect_request :
      (resource_id : String) (stream_id : Uuid) (host : String) (port : ℕ) → P2pMessage
  socks_connect_response :
      (resource_id : String) (stream_id : Uuid) (is_success : Bool) (error_msg : Option String)
      → P2pMessage
  socks_data : (resource_id : String) (stream_id : Uuid) (bytes : List ℕ) → P2pMessage
  socks_close : (resource_id : String) (stream_id : Uuid) → P2pMessage
  app_list_request : (resource_id : String) (request_id : Uuid) → P2pMessage
  app_list_response :
      (resource_id : String) (request_id : Option Uuid) (apps : List LaunchableApp)
      (sessions : List RemoteAppSession) (refused : Option String) (event : Option String)
      → P2pMessage
  app_launch_request :
      (resource_id : String) (request_id : Uuid) (session_id : Uuid) (app_id : String) → P2pMessage
  app_stop_request : (resource_id : String) (request_id : Uuid) (session_id : Uuid) → P2pMessage
  app_action_response :
      (resource_id : String) (request_id : Uuid) (session_id : Option Uuid) (error : Option String)
      (detail : Option String)
      → P2pMessage
  http_request :
      (resource_id : String) (request_id : Uuid) (method : String) (url : String)
      (headers : List (String × String)) (body : Option (List ℕ))
      → P2pMessage
  http_response_start :
      (resource_id : String) (request_id : Uuid) (status : ℕ) (headers : List (String × String))
      → P2pMessage
  http_response_chunk : (resource_id : String) (request_id : Uuid) (chunk : List ℕ) → P2pMessage
  http_response_complete : (resource_id : String) (request_id : Uuid) → P2pMessage
  sync_state_request : (resource_id : String) (target_folder_names : List String) → P2pMessage
  sync_state_response :
      (resource_id : String) (available_folders : List String)
      (folder_states : List (String × List SyncFileInfo))
      → P2pMessage
  remote_desktop_request :
      (resource_id : String) (start : Bool) (original_size : Bool) (bitrate_bps : Option ℕ)
      (force_select : Bool)
      → P2pMessage
  remote_desktop_response :
      (resource_id : String) (success : Bool) (error_msg : Option String) (width : Option ℕ)
      (height : Option ℕ)
      → P2pMessage
  remote_desktop_sdp_offer : (resource_id : String) (sdp : String) → P2pMessage
  remote_desktop_sdp_answer : (resource_id : String) (sdp : String) → P2pMessage
  remote_desktop_input : (resource_id : String) (event : DesktopInputEvent) → P2pMessage
  rtc_signal :
      (target_node_id : String) (signal_type : String) (sdp_or_candidate : String)
      (sdp_mid : Option String) (sdp_mline_index : Option ℕ)
      → P2pMessage
  request_topology : P2pMessage
  response_topology : (peers : List NodeTopologyInfo) → P2pMessage

pub record SecuredP2pEnvelope : Type 0 where
  pub mac : Option String
  pub message : P2pMessage

pub data OutboundP2pPayload : Type 0 where
  message : SecuredP2pEnvelope → OutboundP2pPayload
  unsigned_message : P2pMessage → OutboundP2pPayload
  binary : List ℕ → OutboundP2pPayload
