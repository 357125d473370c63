-- ===== src/Network/Commands/Limit.antt =====
-- The limit on the number of peers, over all commands.
use p2p_common.Common.{
  ℕ, ◌≡◌, refl, ◌∙◌, ◌≤◌, ◌<◌, max, String, Bool, List, [], ◌∷◌, arith, inl, inr, Bool-cases,
  Option-cases,
}
use native.Mathlib.Nat.{le_trans}
use p2p_common.Common.Dict.{get, keys, values, empty, count-remove}
use p2p_common.Protocol.Types.{NodeInfo, SharedResource}
use p2p_common.Protocol.Message.{text_message}
use p2p_common.Network.Types.{NetCmd}
use p2p_common.Network.State.{
  NetworkManager, Effect, taken, takes_slot, drop_peer, on_p2p_disconnected,
}
use p2p_common.Network.Peers.{
  merge_nodes_list, merge_all, merge_node, peer_connected, disconnect_peer, disconnect_peer_session,
}
use p2p_common.Network.Peers.Laws.{disconnect_peer_session_lem}
use p2p_common.Network.Dial.Limit.{auto_connect-limit, call-limit}
use p2p_common.Network.Dial.Inbound.{handle_inbound-limit, HoldsSlot}
use p2p_common.Network.Server.{
  connect_to, update_name, transition_to_local_mesh_fallback, apply_turn_credentials, is_listed,
  close_unlisted, close_all_unlisted, refreshed, process_nodes, process_nodes_list,
  reload_resources,
}
use p2p_common.Network.Server.Laws.{lose-active, dial_later-active}
use p2p_common.Network.Commands.{
  send_ws, send_to_focused, send_to_peer, register_upload, set_local_discovery, Env, handle_net_cmd,
}

pub drop_peer-taken :
    (m : NetworkManager) (id : String) (told : List Effect)
    → taken (drop_peer m id told).active_peers ≤ taken m.active_peers
drop_peer-taken m id told = elim (Option-cases (get m.active_peers id)) [
  | inl gone ↦ rw (gone, drop_peer) (omega arith)
  | inr (c, there) ↦ rw (there, drop_peer) (count-remove takes_slot m.active_peers id)
]

disconnect_peer-taken :
    (m : NetworkManager) (now : ℕ) (id : String)
    → taken (disconnect_peer m now id).active_peers ≤ taken m.active_peers
unfolding disconnect_peer
disconnect_peer-taken m now id =
    rw (lose-active (drop_peer m id (on_p2p_disconnected id ∷ [])) now id)
      (drop_peer-taken m id (on_p2p_disconnected id ∷ []))

disconnect_peer_session-taken :
    (m : NetworkManager) (now : ℕ) (id : String) (conn : ℕ)
    → taken (disconnect_peer_session m now id conn).active_peers ≤ taken m.active_peers
disconnect_peer_session-taken m now id conn = elim (disconnect_peer_session_lem m now id conn) [
  | inl same ↦ rw same (omega arith)
  | inr (c, there, is, same) ↦ rw same (disconnect_peer-taken m now id)
]

close_all_unlisted-taken :
    (m : NetworkManager) (now : ℕ) (nodes : List NodeInfo) (ids : List String)
    → taken (close_all_unlisted m now nodes ids).active_peers ≤ taken m.active_peers
unfolding close_all_unlisted
close_all_unlisted-taken m now nodes [] = omega arith
close_all_unlisted-taken m now nodes (id ∷ ids) =
    le_trans (close_all_unlisted-taken (close_unlisted m now nodes id) now nodes ids)
      (elim (Bool-cases (is_listed nodes id)) [
        | inl listed ↦ rw listed (omega arith)
        | inr unlisted ↦
            rw (unlisted, lose-active (drop_peer m id []) now id) (drop_peer-taken m id [])
      ])

refreshed-taken :
    (same_json : List SharedResource → List SharedResource → Bool) (m : NetworkManager)
    (node : NodeInfo)
    → taken (refreshed same_json m node).active_peers ≤ taken m.active_peers
refreshed-taken same_json m node =
    let fewer = count-remove takes_slot m.active_peers node.id in ground (arith, fewer)

process_nodes-taken :
    (same_json : List SharedResource → List SharedResource → Bool) (nodes targets : List NodeInfo)
    (m : NetworkManager)
    → taken (process_nodes same_json m targets nodes).active_peers ≤ taken m.active_peers
unfolding process_nodes
process_nodes-taken same_json [] targets m = omega arith
process_nodes-taken same_json (node ∷ nodes) targets m =
    le_trans (process_nodes-taken same_json nodes targets _) (
      rw (dial_later-active (refreshed same_json m node) targets node)
        (refreshed-taken same_json m node))

process_nodes_list-taken :
    (same_json : List SharedResource → List SharedResource → Bool) (m : NetworkManager) (now : ℕ)
    (nodes : List NodeInfo)
    → taken (process_nodes_list same_json m now nodes).active_peers ≤ taken m.active_peers
unfolding process_nodes_list
process_nodes_list-taken same_json m now nodes =
    le_trans (process_nodes-taken same_json nodes _ _)
      (close_all_unlisted-taken _ now nodes (keys m.active_peers))

reload_resources-taken :
    (m : NetworkManager) (resources : List SharedResource)
    → taken (reload_resources m resources).active_peers ≡ 0
unfolding reload_resources values empty
reload_resources-taken m resources = refl

merge_all-active :
    (m : NetworkManager) (nodes : List NodeInfo) → (merge_all m nodes).active_peers ≡ m.active_peers
unfolding merge_all merge_node
merge_all-active m [] = refl
merge_all-active m (node ∷ nodes) = merge_all-active (merge_node m node) nodes ∙ ground arith

-- The one condition: a signal comes from a node without a session or with one that holds a slot.
abbrev pub FromLive : NetworkManager → NetCmd → Type 0
FromLive m (NetCmd.handle_inbound_signal inbound) = HoldsSlot m inbound.from_node_id
FromLive m _ = Unit

unchanged :
    (m n : NetworkManager)
    → n.active_peers ≡ m.active_peers
    → taken n.active_peers ≤ max (taken m.active_peers) m.limits.max_peers
unchanged m n e = rw e (omega arith)

-- No command takes the sessions that are up or coming up beyond the limit on peers, where one is set:
-- they number at most the limit afterwards, or at most what they were before. A signal of a node
-- whose session in the table holds no slot is excepted.
pub handle_net_cmd-limit :
    (w : Env) (m : NetworkManager) (cmd : NetCmd)
    → 0 < m.limits.max_peers
    → FromLive m cmd
    → taken (handle_net_cmd w m cmd).active_peers ≤ max (taken m.active_peers) m.limits.max_peers
unfolding handle_net_cmd connect_to reload_resources update_name transition_to_local_mesh_fallback
    apply_turn_credentials peer_connected merge_nodes_list process_nodes_list
handle_net_cmd-limit w m (NetCmd.connect url info turn) h live =
    unchanged m (connect_to m w.reached url info turn) (ground arith)
handle_net_cmd-limit w m NetCmd.disconnect h live = omega arith
handle_net_cmd-limit w m (NetCmd.apply_turn_credentials turn) h live = omega arith
handle_net_cmd-limit w m (NetCmd.disconnect_peer id) h live =
    let fewer = disconnect_peer-taken m w.now id in omega arith
handle_net_cmd-limit w m (NetCmd.disconnect_peer_session id conn) h live =
    let fewer = disconnect_peer_session-taken m w.now id conn in omega arith
handle_net_cmd-limit w m (NetCmd.send msg) h live = unchanged m (send_ws m msg) (ground arith)
handle_net_cmd-limit w m (NetCmd.send_p2p text) h live =
    unchanged m (send_to_focused m (text_message text)) (ground arith)
handle_net_cmd-limit w m (NetCmd.send_p2p_message msg) h live =
    unchanged m (send_to_focused m msg) (ground arith)
handle_net_cmd-limit w m (NetCmd.send_to_peer id msg) h live =
    unchanged m (send_to_peer m id msg) (ground arith)
handle_net_cmd-limit w m (NetCmd.broadcast_p2p_message target template) h live = omega arith
handle_net_cmd-limit w m (NetCmd.handle_inbound_signal inbound) h live =
    handle_inbound-limit m w.rtc inbound h live
handle_net_cmd-limit w m (NetCmd.register_upload id transfer path) h live =
    unchanged m (register_upload m id transfer path) (ground arith)
handle_net_cmd-limit w m (NetCmd.call id) h live = call-limit m w.now w.rtc id h
handle_net_cmd-limit w m (NetCmd.auto_connect id) h live = auto_connect-limit m w.now w.rtc id h
handle_net_cmd-limit w m (NetCmd.peer_connected id resources) h live =
    unchanged m (peer_connected m w.now id resources) (ground arith)
handle_net_cmd-limit w m (NetCmd.reload_resources resources) h live =
    let none_left = reload_resources-taken m resources in omega arith
handle_net_cmd-limit w m (NetCmd.update_name name) h live =
    unchanged m (update_name m name) (ground arith)
handle_net_cmd-limit w m (NetCmd.process_nodes_list nodes) h live =
    let fewer = process_nodes_list-taken w.same_json m w.now nodes in omega arith
handle_net_cmd-limit w m (NetCmd.merge_nodes_list nodes) h live =
    unchanged m (merge_nodes_list m nodes) (merge_all-active m nodes)
handle_net_cmd-limit w m (NetCmd.set_local_discovery enabled) h live =
    unchanged m (set_local_discovery m enabled) (ground arith)
