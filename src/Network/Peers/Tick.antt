-- ===== src/Network/Peers/Tick.antt =====
-- The tick of client-core/src/network/peer_orchestrator.rs.
use p2p_common.Common.{
  sym, str_eq_ne, Option, none, some, ap, ◌∙◌, ◌≤◌, ◌-◌, ◌⊎◌, Option-cases, leb→le, le→leb, eq_iff,
  ℕ, ◌≡◌, refl, String, Bool, true, false, not, ◌||◌, str_eq, str_lt, arith, inl, inr, List, [],
  ◌∷◌, Bool-cases, keep, map, All, any, str_eq_refl, ◌≢◌, if◌then◌else◌,
}
use p2p_common.Common.Dict.{get, values, contains_key}
use p2p_common.Protocol.Types.{NodeInfo}
use p2p_common.Network.Types.{
  PeerBackoff, NetworkMode, auto_connect, web_socket_connecting, web_socket_connected,
  local_mesh_fallback,
}
use p2p_common.Network.State.{NetworkManager, queued, perform, is_focused, get_cooldown_duration}
use p2p_common.Network.Peers.{handle_tick, should_retry, is_target}

-- The wait since the last attempt is over, or there was none.
abbrev pub Waited : NetworkManager → ℕ → Option PeerBackoff → Type 0
Waited m now none = Unit
Waited m now (some b) = get_cooldown_duration m.limits b.attempt_count ≤ now - b.last_attempt

-- Why a tick dials a node: it is no web client, the client is the one of the two that dials or the user
-- asked for the peer, a server, where there is one, says that the node is online, there is no session,
-- and the wait is over.
abbrev pub Due : NetworkManager → ℕ → NodeInfo → Type 0
Due m now node =
    (node.app_type ≢ "web")
    × ((str_lt m.my_info.id node.id ≡ true) ⊎ (m.focused_peer ≡ some node.id))
    × (m.mode ≡ web_socket_connected → node.is_online ≡ true)
    × (get m.active_peers node.id ≡ none)
    × Waited m now (get m.backoff_states node.id)

-- The mode says whether a server's word on who is online counts.
abbrev pub checks_online : NetworkMode → Bool
checks_online local_mesh_fallback = false
checks_online _ = true

-- The ids that a tick in one of the two modes dials
abbrev targets : Bool → NetworkManager → ℕ → List NodeInfo → List String
targets check_online m now nodes =
    keep (should_retry m now)
      (map (λ (node : NodeInfo). node.id) (keep (is_target check_online m) nodes))

waited :
    (m : NetworkManager) (now : ℕ) (id : String)
    → should_retry m now id ≡ true
    → Waited m now (get m.backoff_states id)
unfolding should_retry
waited m now id retry = elim (Option-cases (get m.backoff_states id)) [
  | inl new_one ↦ rw new_one tt
  | inr (b, known) ↦ rw known (leb→le _ _ (rw (should_retry, known) at retry))
]

retries :
    (m : NetworkManager) (now : ℕ) (id : String)
    → Waited m now (get m.backoff_states id)
    → should_retry m now id ≡ true
unfolding should_retry
retries m now id over = elim (Option-cases (get m.backoff_states id)) [
  | inl new_one ↦ rw (should_retry, new_one) refl
  | inr (b, known) ↦ rw (should_retry, known) (le→leb _ _ (rw known at over))
]

no_session :
    (m : NetworkManager) (id : String)
    → contains_key m.active_peers id ≡ false
    → get m.active_peers id ≡ none
no_session m id missing = elim (Option-cases (get m.active_peers id)) [
  | inl gone ↦ gone
  | inr (c, there) ↦ cc (rw (contains_key, there) at missing)
]

asked_for : (m : NetworkManager) (id : String) → is_focused m id ≡ true → m.focused_peer ≡ some id
asked_for m id focused = elim (Option-cases m.focused_peer) [
  | inl nobody ↦ cc (rw (nobody, is_focused) at focused)
  | inr (other, there) ↦ there ∙ ap some ((eq_iff other id).0 (rw (is_focused, there) at focused))
]

chosen :
    (m : NetworkManager) (id : String)
    → (str_lt m.my_info.id id || is_focused m id) ≡ true
    → (str_lt m.my_info.id id ≡ true) ⊎ (m.focused_peer ≡ some id)
chosen m id either = elim (Bool-cases (str_lt m.my_info.id id)) [
  | inl less ↦ inl less
  | inr more ↦ inr (asked_for m id (rw more at either))
]

focused_on : (m : NetworkManager) (id : String) → m.focused_peer ≡ some id → is_focused m id ≡ true
focused_on m id there = rw (is_focused, there) (str_eq_refl id)

online_needed :
    (mode : NetworkMode) (on : Bool)
    → (not (checks_online mode) || on) ≡ true
    → mode ≡ web_socket_connected
    → on ≡ true
online_needed web_socket_connected on e h = e
online_needed web_socket_connecting on e h = cc
online_needed local_mesh_fallback on e h = cc

online_enough :
    (mode : NetworkMode) (on : Bool)
    → mode ≢ web_socket_connecting
    → (mode ≡ web_socket_connected → on ≡ true)
    → (not (checks_online mode) || on) ≡ true
online_enough web_socket_connected on other h = h refl
online_enough web_socket_connecting on other h = absurd (other refl)
online_enough local_mesh_fallback on other h = refl

module _ (m : NetworkManager) (now : ℕ) (running : m.mode ≢ web_socket_connecting) where
  is_target-Due :
      (node : NodeInfo)
      → is_target (checks_online m.mode) m node ≡ true
      → should_retry m now node.id ≡ true
      → Due m now node
  is_target-Due node is retry =
      let other : str_eq node.app_type "web" ≡ false = ground (arith, is) in
      let either : (str_lt m.my_info.id node.id || is_focused m node.id) ≡ true =
        ground (arith, is) in
      let online : (not (checks_online m.mode) || node.is_online) ≡ true = ground (arith, is) in
      let missing : contains_key m.active_peers node.id ≡ false = ground (arith, is) in
      (
        (λ web. cc (sym (str_eq_refl "web") ∙ ap (λ t. str_eq t "web") (sym web) ∙ other)),
        chosen m node.id either,
        online_needed m.mode node.is_online online,
        no_session m node.id missing,
        waited m now node.id retry,
      )

  Due-is_target :
      (node : NodeInfo)
      → Due m now node
      → (is_target (checks_online m.mode) m node ≡ true) × (should_retry m now node.id ≡ true)
  Due-is_target node (web, which, online, missing, over) =
      let other : str_eq node.app_type "web" ≡ false = str_eq_ne node.app_type "web" web in
      let up = online_enough m.mode node.is_online running online in
      let gone : contains_key m.active_peers node.id ≡ false = rw (contains_key, missing) refl in
      let either : (str_lt m.my_info.id node.id || is_focused m node.id) ≡ true = elim which [
        | inl less ↦ rw less refl
        | inr there ↦ ground (arith, focused_on m node.id there)
      ] in
      (ground (arith, other, up, gone, either), retries m now node.id over)

-- A node is one of the nodes.
abbrev pub Among : NodeInfo → List NodeInfo → Type 0
Among node [] = ⊥
Among node (x ∷ nodes) = (x ≡ node) ⊎ Among node nodes

-- An id that is dialled is that of a known node which is due.
abbrev pub OfDueNode : NetworkManager → ℕ → List NodeInfo → String → Type 0
OfDueNode m now nodes id = (node : NodeInfo) × (node.id ≡ id) × Among node nodes × Due m now node

-- `id` is among the ids.
abbrev pub has : List String → String → Bool
has ids id = any (λ t. str_eq t id) ids

later-OfDueNode :
    (m : NetworkManager) (now : ℕ) (node : NodeInfo) (nodes : List NodeInfo) (ids : List String)
    → All (OfDueNode m now nodes) ids
    → All (OfDueNode m now (node ∷ nodes)) ids
later-OfDueNode m now node nodes [] all = tt
later-OfDueNode m now node nodes (id ∷ ids) ((n, same, among, due), all) =
    ((n, same, inr among, due), later-OfDueNode m now node nodes ids all)

or_true : (b x : Bool) → x ≡ true → (if b then true else x) ≡ true
or_true true x is = refl
or_true false x is = is

module _ (m : NetworkManager) (now : ℕ) (running : m.mode ≢ web_socket_connecting) where
  targets-OfDueNode :
      (nodes : List NodeInfo)
      → All (OfDueNode m now nodes) (targets (checks_online m.mode) m now nodes)
  targets-OfDueNode [] = tt
  targets-OfDueNode (node ∷ nodes) =
      let rest = later-OfDueNode m now node nodes _ (targets-OfDueNode nodes) in
      elim (Bool-cases (is_target (checks_online m.mode) m node)) [
        | inr isnt ↦ rw (isnt, keep) rest
        | inl is ↦ elim (Bool-cases (should_retry m now node.id)) [
          | inr early ↦ rw (is, keep, early) rest
          | inl retry ↦
              rw (is, keep, retry)
                ((node, refl, inl refl, is_target-Due m now running node is retry), rest)
        ]
      ]

  -- A node that is due is dialled.
  targets-has :
      (nodes : List NodeInfo) (all : List String)
      → ((id : String)
          → has (targets (checks_online m.mode) m now nodes) id ≡ true
          → has all id ≡ true)
      → All (λ node. Due m now node → has all node.id ≡ true) nodes
  targets-has [] all sub = tt
  targets-has (node ∷ nodes) all sub = (
    (λ due.
        let (is, retry) = Due-is_target m now running node due in
        sub node.id (rw (keep, is, keep, retry) (ground (arith, str_eq_refl node.id)))),
    targets-has nodes all (λ id there. sub id (more node nodes id there)),
  )
    where
      more :
          (node : NodeInfo) (nodes : List NodeInfo) (id : String)
          → has (targets (checks_online m.mode) m now nodes) id ≡ true
          → has (targets (checks_online m.mode) m now (node ∷ nodes)) id ≡ true
      more node nodes id there = elim (Bool-cases (is_target (checks_online m.mode) m node)) [
        | inr isnt ↦ rw (isnt, keep) there
        | inl is ↦ elim (Bool-cases (should_retry m now node.id)) [
          | inr early ↦ rw (is, keep, early) there
          | inl retry ↦ rw (is, keep, retry) (or_true (str_eq node.id id) _ there)
        ]
      ]

-- Once the client is connected or has fallen back to the local mesh, a tick sends an `AutoConnect` for
-- exactly the known nodes that are due: each id that it sends for is that of a known node which is due,
-- every known node which is due is among them, and nothing else changes.
pub handle_tick-Due :
    (m : NetworkManager) (now : ℕ)
    → m.mode ≢ web_socket_connecting
    → (ids : List String) × (handle_tick m now
        ≡ perform m (map (λ id. queued (auto_connect id)) ids))
      × All (OfDueNode m now (values m.last_known_nodes)) ids
      × All (λ node. Due m now node → has ids node.id ≡ true) (values m.last_known_nodes)
unfolding handle_tick
handle_tick-Due m now h =
    let ids = targets (checks_online m.mode) m now (values m.last_known_nodes) in
    (
      ids,
      by_mode m.mode refl h,
      targets-OfDueNode m now h (values m.last_known_nodes),
      targets-has m now h (values m.last_known_nodes) ids (λ id there. there),
    )
  where
    by_mode :
        (mode : NetworkMode)
        → m.mode ≡ mode
        → mode ≢ web_socket_connecting
        → handle_tick m now
          ≡ perform m (
              map
                (λ id. queued (auto_connect id))
                (targets (checks_online m.mode) m now (values m.last_known_nodes)))
    by_mode web_socket_connecting e other = absurd (other refl)
    by_mode web_socket_connected e other = ground (arith, e)
    by_mode local_mesh_fallback e other = ground (arith, e)
