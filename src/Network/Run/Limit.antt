-- ===== src/Network/Run/Limit.antt =====
-- The limit on the number of peers, over a whole run of the manager.
use p2p_common.Common.{ℕ, ◌≡◌, ◌≤◌, ◌<◌, String, Bool, false, some, List, [], ◌∷◌, if◌then◌else◌}
use p2p_common.Common.Dict.{get}
use p2p_common.Network.Types.{ConnectionState}
use p2p_common.Network.State.{NetworkManager, WebRtcClient, takes_slot}
use p2p_common.Network.Peers.{handle_tick}
use p2p_common.Network.Route.{handle_peer_signal}
use p2p_common.Network.Commands.{handle_net_cmd}
use p2p_common.Network.Commands.Limit.{FromLive}
use p2p_common.Network.Run.{
  ManagerEvent, ticked, commanded, ended, signalled, mesh_ended, state_changed, set_state,
}

-- The limits that the process holds when a command is handled are set, and at most so large.
abbrev pub Within : ℕ → ManagerEvent → Type 0
Within bound (commanded w limits cmd) = (0 < limits.max_peers) × (limits.max_peers ≤ bound)
Within bound _ = Unit

-- The session of a node, if it holds no slot, does not get one back.
abbrev pub StaysOut : NetworkManager → String → ConnectionState → Type 0
StaysOut m id state =
    (c : WebRtcClient)
    → get m.active_peers id ≡ some c
    → takes_slot c ≡ false
    → takes_slot (record c { connection_state = state }) ≡ false

-- No signal comes from a node whose session in the table holds no slot, and no such session recovers.
abbrev pub AllFromLive : Bool → NetworkManager → List ManagerEvent → Type 0
AllFromLive local_mesh_open m [] = Unit
AllFromLive local_mesh_open m (ticked now limits ∷ events) =
    AllFromLive local_mesh_open (handle_tick (record m { limits = limits }) now) events
AllFromLive local_mesh_open m (commanded w limits cmd ∷ events) =
    FromLive m cmd
    × AllFromLive local_mesh_open (handle_net_cmd w (record m { limits = limits }) cmd) events
AllFromLive local_mesh_open m (ended ∷ events) = Unit
AllFromLive local_mesh_open m (signalled signal ∷ events) =
    AllFromLive local_mesh_open (if local_mesh_open then handle_peer_signal m signal else m) events
AllFromLive local_mesh_open m (mesh_ended ∷ events) = AllFromLive false m events
AllFromLive local_mesh_open m (state_changed id state ∷ events) =
    StaysOut m id state × AllFromLive local_mesh_open (set_state m id state) events
