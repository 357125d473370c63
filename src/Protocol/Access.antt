-- ===== src/Protocol/Access.antt =====
-- `allowed_resource_types`, `resource_id` and `set_resource_id` of nodeinnet-p2p/src/p2p.rs.
pub mod Laws
use p2p_common.Common.{String, Option, none, some, List, [], ◌∷◌}
use p2p_common.Protocol.Types.{
  ResourceType, filesystem, system_info, terminal, registry, shared_network, sync_folder,
  remote_desktop,
}
use p2p_common.Protocol.Message.{
  P2pMessage, ping, pong, goodbye, text_message, handshake, handshake_response, peers_sync,
  request_entries, entries_response, request_metadata, metadata_response, create_directory_request,
  create_directory_response, delete_entry_request, delete_entry_response, rename_entry_request,
  rename_entry_response, set_permissions_request, set_permissions_response, request_system_info,
  system_info_response, start_terminal, stop_terminal, terminal_input, terminal_output,
  terminal_resize, file_download_request, file_upload_request, file_transfer_response, file_chunk,
  file_transfer_complete, request_registry_keys, registry_keys_response,
  create_registry_key_request, create_registry_key_response, delete_registry_entry_request,
  delete_registry_entry_response, set_registry_value_request, set_registry_value_response,
  socks_connect_request, socks_connect_response, socks_data, socks_close, app_list_request,
  app_list_response, app_launch_request, app_stop_request, app_action_response, http_request,
  http_response_start, http_response_chunk, http_response_complete, sync_state_request,
  sync_state_response, remote_desktop_request, remote_desktop_response, remote_desktop_sdp_offer,
  remote_desktop_sdp_answer, remote_desktop_input, rtc_signal, request_topology, response_topology,
}

-- The types of resource that a message may address; `[]` stands for no restriction.
unfoldable pub allowed_resource_types : P2pMessage → List ResourceType
allowed_resource_types (ping _) = []
allowed_resource_types (pong _) = []
allowed_resource_types goodbye = []
allowed_resource_types (text_message _) = []
allowed_resource_types (handshake _ _ _ _ _ _ _) = []
allowed_resource_types (handshake_response _) = []
allowed_resource_types (peers_sync _ _) = []
allowed_resource_types (request_entries _ _ _) = filesystem ∷ sync_folder ∷ []
allowed_resource_types (entries_response _ _ _ _ _ _ _ _ _) = filesystem ∷ sync_folder ∷ []
allowed_resource_types (request_metadata _ _ _) = filesystem ∷ sync_folder ∷ []
allowed_resource_types (metadata_response _ _ _ _) = filesystem ∷ sync_folder ∷ []
allowed_resource_types (create_directory_request _ _ _ _ _) = filesystem ∷ sync_folder ∷ []
allowed_resource_types (create_directory_response _ _ _ _) = filesystem ∷ sync_folder ∷ []
allowed_resource_types (delete_entry_request _ _ _) = filesystem ∷ sync_folder ∷ []
allowed_resource_types (delete_entry_response _ _ _ _) = filesystem ∷ sync_folder ∷ []
allowed_resource_types (rename_entry_request _ _ _ _) = filesystem ∷ sync_folder ∷ []
allowed_resource_types (rename_entry_response _ _ _ _) = filesystem ∷ sync_folder ∷ []
allowed_resource_types (set_permissions_request _ _ _ _) = filesystem ∷ sync_folder ∷ []
allowed_resource_types (set_permissions_response _ _ _ _) = filesystem ∷ sync_folder ∷ []
allowed_resource_types (request_system_info _) = system_info ∷ []
allowed_resource_types (system_info_response _ _) = system_info ∷ []
allowed_resource_types (start_terminal _) = terminal ∷ []
allowed_resource_types (stop_terminal _) = terminal ∷ []
allowed_resource_types (terminal_input _ _) = terminal ∷ []
allowed_resource_types (terminal_output _ _) = terminal ∷ []
allowed_resource_types (terminal_resize _ _ _) = terminal ∷ []
allowed_resource_types (file_download_request _ _ _ _ _) = filesystem ∷ sync_folder ∷ []
allowed_resource_types (file_upload_request _ _ _ _ _ _) = filesystem ∷ sync_folder ∷ []
allowed_resource_types (file_transfer_response _ _) = []
allowed_resource_types (file_chunk _ _ _) = []
allowed_resource_types (file_transfer_complete _ _) = []
allowed_resource_types (request_registry_keys _ _ _) = registry ∷ []
allowed_resource_types (registry_keys_response _ _ _ _ _ _) = registry ∷ []
allowed_resource_types (create_registry_key_request _ _ _ _) = registry ∷ []
allowed_resource_types (create_registry_key_response _ _ _ _) = registry ∷ []
allowed_resource_types (delete_registry_entry_request _ _ _ _ _) = registry ∷ []
allowed_resource_types (delete_registry_entry_response _ _ _ _) = registry ∷ []
allowed_resource_types (set_registry_value_request _ _ _ _ _) = registry ∷ []
allowed_resource_types (set_registry_value_response _ _ _ _) = registry ∷ []
allowed_resource_types (socks_connect_request _ _ _ _) = shared_network ∷ []
allowed_resource_types (socks_connect_response _ _ _ _) = shared_network ∷ []
allowed_resource_types (socks_data _ _ _) = shared_network ∷ []
allowed_resource_types (socks_close _ _) = shared_network ∷ []
allowed_resource_types (app_list_request _ _) = shared_network ∷ []
allowed_resource_types (app_list_response _ _ _ _ _ _) = shared_network ∷ []
allowed_resource_types (app_launch_request _ _ _ _) = shared_network ∷ []
allowed_resource_types (app_stop_request _ _ _) = shared_network ∷ []
allowed_resource_types (app_action_response _ _ _ _ _) = shared_network ∷ []
allowed_resource_types (http_request _ _ _ _ _ _) = shared_network ∷ []
allowed_resource_types (http_response_start _ _ _ _) = shared_network ∷ []
allowed_resource_types (http_response_chunk _ _ _) = shared_network ∷ []
allowed_resource_types (http_response_complete _ _) = shared_network ∷ []
allowed_resource_types (sync_state_request _ _) = sync_folder ∷ []
allowed_resource_types (sync_state_response _ _ _) = sync_folder ∷ []
allowed_resource_types (remote_desktop_request _ _ _ _ _) = remote_desktop ∷ []
allowed_resource_types (remote_desktop_response _ _ _ _ _) = remote_desktop ∷ []
allowed_resource_types (remote_desktop_sdp_offer _ _) = remote_desktop ∷ []
allowed_resource_types (remote_desktop_sdp_answer _ _) = remote_desktop ∷ []
allowed_resource_types (remote_desktop_input _ _) = remote_desktop ∷ []
allowed_resource_types (rtc_signal _ _ _ _ _) = []
allowed_resource_types request_topology = []
allowed_resource_types (response_topology _) = []

unfoldable pub resource_id : P2pMessage → Option String
resource_id (ping _) = none
resource_id (pong _) = none
resource_id goodbye = none
resource_id (text_message _) = none
resource_id (handshake _ _ _ _ _ _ _) = none
resource_id (handshake_response _) = none
resource_id (peers_sync _ _) = none
resource_id (request_entries _ r _) = some r
resource_id (entries_response _ r _ _ _ _ _ _ _) = some r
resource_id (request_metadata _ r _) = some r
resource_id (metadata_response _ r _ _) = some r
resource_id (create_directory_request _ r _ _ _) = some r
resource_id (create_directory_response _ r _ _) = some r
resource_id (delete_entry_request _ r _) = some r
resource_id (delete_entry_response _ r _ _) = some r
resource_id (rename_entry_request _ r _ _) = some r
resource_id (rename_entry_response _ r _ _) = some r
resource_id (set_permissions_request _ r _ _) = some r
resource_id (set_permissions_response _ r _ _) = some r
resource_id (request_system_info r) = some r
resource_id (system_info_response r _) = some r
resource_id (start_terminal r) = some r
resource_id (stop_terminal r) = some r
resource_id (terminal_input r _) = some r
resource_id (terminal_output r _) = some r
resource_id (terminal_resize r _ _) = some r
resource_id (file_download_request r _ _ _ _) = some r
resource_id (file_upload_request r _ _ _ _ _) = some r
resource_id (file_transfer_response _ _) = none
resource_id (file_chunk _ _ _) = none
resource_id (file_transfer_complete _ _) = none
resource_id (request_registry_keys _ r _) = some r
resource_id (registry_keys_response _ r _ _ _ _) = some r
resource_id (create_registry_key_request _ r _ _) = some r
resource_id (create_registry_key_response _ r _ _) = some r
resource_id (delete_registry_entry_request _ r _ _ _) = some r
resource_id (delete_registry_entry_response _ r _ _) = some r
resource_id (set_registry_value_request _ r _ _ _) = some r
resource_id (set_registry_value_response _ r _ _) = some r
resource_id (socks_connect_request r _ _ _) = some r
resource_id (socks_connect_response r _ _ _) = some r
resource_id (socks_data r _ _) = some r
resource_id (socks_close r _) = some r
resource_id (app_list_request r _) = some r
resource_id (app_list_response r _ _ _ _ _) = some r
resource_id (app_launch_request r _ _ _) = some r
resource_id (app_stop_request r _ _) = some r
resource_id (app_action_response r _ _ _ _) = some r
resource_id (http_request r _ _ _ _ _) = some r
resource_id (http_response_start r _ _ _) = some r
resource_id (http_response_chunk r _ _) = some r
resource_id (http_response_complete r _) = some r
resource_id (sync_state_request r _) = some r
resource_id (sync_state_response r _ _) = some r
resource_id (remote_desktop_request r _ _ _ _) = some r
resource_id (remote_desktop_response r _ _ _ _) = some r
resource_id (remote_desktop_sdp_offer r _) = some r
resource_id (remote_desktop_sdp_answer r _) = some r
resource_id (remote_desktop_input r _) = some r
resource_id (rtc_signal _ _ _ _ _) = none
resource_id request_topology = none
resource_id (response_topology _) = none

unfoldable pub set_resource_id : P2pMessage → String → P2pMessage
set_resource_id (request_entries a0 _ a2) new_id = request_entries a0 new_id a2
set_resource_id (entries_response a0 _ a2 a3 a4 a5 a6 a7 a8) new_id =
    entries_response a0 new_id a2 a3 a4 a5 a6 a7 a8
set_resource_id (request_metadata a0 _ a2) new_id = request_metadata a0 new_id a2
set_resource_id (metadata_response a0 _ a2 a3) new_id = metadata_response a0 new_id a2 a3
set_resource_id (create_directory_request a0 _ a2 a3 a4) new_id =
    create_directory_request a0 new_id a2 a3 a4
set_resource_id (create_directory_response a0 _ a2 a3) new_id =
    create_directory_response a0 new_id a2 a3
set_resource_id (delete_entry_request a0 _ a2) new_id = delete_entry_request a0 new_id a2
set_resource_id (delete_entry_response a0 _ a2 a3) new_id = delete_entry_response a0 new_id a2 a3
set_resource_id (rename_entry_request a0 _ a2 a3) new_id = rename_entry_request a0 new_id a2 a3
set_resource_id (rename_entry_response a0 _ a2 a3) new_id = rename_entry_response a0 new_id a2 a3
set_resource_id (set_permissions_request a0 _ a2 a3) new_id =
    set_permissions_request a0 new_id a2 a3
set_resource_id (set_permissions_response a0 _ a2 a3) new_id =
    set_permissions_response a0 new_id a2 a3
set_resource_id (request_system_info _) new_id = request_system_info new_id
set_resource_id (system_info_response _ a1) new_id = system_info_response new_id a1
set_resource_id (start_terminal _) new_id = start_terminal new_id
set_resource_id (stop_terminal _) new_id = stop_terminal new_id
set_resource_id (terminal_input _ a1) new_id = terminal_input new_id a1
set_resource_id (terminal_output _ a1) new_id = terminal_output new_id a1
set_resource_id (terminal_resize _ a1 a2) new_id = terminal_resize new_id a1 a2
set_resource_id (file_download_request _ a1 a2 a3 a4) new_id =
    file_download_request new_id a1 a2 a3 a4
set_resource_id (file_upload_request _ a1 a2 a3 a4 a5) new_id =
    file_upload_request new_id a1 a2 a3 a4 a5
set_resource_id (request_registry_keys a0 _ a2) new_id = request_registry_keys a0 new_id a2
set_resource_id (registry_keys_response a0 _ a2 a3 a4 a5) new_id =
    registry_keys_response a0 new_id a2 a3 a4 a5
set_resource_id (create_registry_key_request a0 _ a2 a3) new_id =
    create_registry_key_request a0 new_id a2 a3
set_resource_id (create_registry_key_response a0 _ a2 a3) new_id =
    create_registry_key_response a0 new_id a2 a3
set_resource_id (delete_registry_entry_request a0 _ a2 a3 a4) new_id =
    delete_registry_entry_request a0 new_id a2 a3 a4
set_resource_id (delete_registry_entry_response a0 _ a2 a3) new_id =
    delete_registry_entry_response a0 new_id a2 a3
set_resource_id (set_registry_value_request a0 _ a2 a3 a4) new_id =
    set_registry_value_request a0 new_id a2 a3 a4
set_resource_id (set_registry_value_response a0 _ a2 a3) new_id =
    set_registry_value_response a0 new_id a2 a3
set_resource_id (socks_connect_request _ a1 a2 a3) new_id = socks_connect_request new_id a1 a2 a3
set_resource_id (socks_connect_response _ a1 a2 a3) new_id = socks_connect_response new_id a1 a2 a3
set_resource_id (socks_data _ a1 a2) new_id = socks_data new_id a1 a2
set_resource_id (socks_close _ a1) new_id = socks_close new_id a1
set_resource_id (app_list_request _ a1) new_id = app_list_request new_id a1
set_resource_id (app_list_response _ a1 a2 a3 a4 a5) new_id =
    app_list_response new_id a1 a2 a3 a4 a5
set_resource_id (app_launch_request _ a1 a2 a3) new_id = app_launch_request new_id a1 a2 a3
set_resource_id (app_stop_request _ a1 a2) new_id = app_stop_request new_id a1 a2
set_resource_id (app_action_response _ a1 a2 a3 a4) new_id = app_action_response new_id a1 a2 a3 a4
set_resource_id (http_request _ a1 a2 a3 a4 a5) new_id = http_request new_id a1 a2 a3 a4 a5
set_resource_id (http_response_start _ a1 a2 a3) new_id = http_response_start new_id a1 a2 a3
set_resource_id (http_response_chunk _ a1 a2) new_id = http_response_chunk new_id a1 a2
set_resource_id (http_response_complete _ a1) new_id = http_response_complete new_id a1
set_resource_id (sync_state_request _ a1) new_id = sync_state_request new_id a1
set_resource_id (sync_state_response _ a1 a2) new_id = sync_state_response new_id a1 a2
set_resource_id (remote_desktop_request _ a1 a2 a3 a4) new_id =
    remote_desktop_request new_id a1 a2 a3 a4
set_resource_id (remote_desktop_response _ a1 a2 a3 a4) new_id =
    remote_desktop_response new_id a1 a2 a3 a4
set_resource_id (remote_desktop_sdp_offer _ a1) new_id = remote_desktop_sdp_offer new_id a1
set_resource_id (remote_desktop_sdp_answer _ a1) new_id = remote_desktop_sdp_answer new_id a1
set_resource_id (remote_desktop_input _ a1) new_id = remote_desktop_input new_id a1
set_resource_id m new_id = m
