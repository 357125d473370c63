-- ===== src/Network/Dial/Limit.antt =====
-- The limit on the number of peers, over the commands that open sessions.
use p2p_common.Common.{
  ℕ, ◌≡◌, ◌⊎◌, refl, ◌≤◌, ◌<◌, max, String, Bool, true, false, ◌||◌, none, some, List, [], ◌∷◌,
  str_eq_refl, arith, inl, inr, Bool-cases, Option-cases,
}
use native.Mathlib.Nat.{le_trans}
use p2p_common.Common.Dict.{Dict, get, insert, remove, get-remove, count-insert, count-remove}
use p2p_common.Common.Result.{Result-cases}
use p2p_common.Network.Types.{PeerBackoff}
use p2p_common.Network.State.{
  closed_connection, perform, NetworkManager, WebRtcClient, Effect, taken, takes_slot, is_dead,
  peer_slot_available, drop_peer, set_backoff, backoff_or, is_stuck,
}
use p2p_common.Network.Dial.{
  cools_down, lacks_signaling, attempted, noticed, Rtc, dial, auto_connect, auto_dial, call,
  call_free,
}

-- What a handler may do to the table of sessions without taking a slot beyond the limit: nothing,
-- or open one session for a node that has none, where a slot is free.
abbrev pub Opens : NetworkManager → String → Dict WebRtcClient → Type 0
Opens m id after =
    (after ≡ m.active_peers)
    ⊎ ((c : WebRtcClient) × (get m.active_peers id ≡ none)
        × (peer_slot_available m.limits m.active_peers id ≡ true)
        × (after ≡ insert m.active_peers id c))

pub slot-room :
    (m : NetworkManager) (id : String)
    → 0 < m.limits.max_peers
    → get m.active_peers id ≡ none
    → peer_slot_available m.limits m.active_peers id ≡ true
    → taken m.active_peers < m.limits.max_peers
unfolding peer_slot_available
slot-room m id h fresh free = ground arith

Opens-limit :
    (m : NetworkManager) (id : String) (after : Dict WebRtcClient)
    → 0 < m.limits.max_peers
    → Opens m id after
    → taken after ≤ max (taken m.active_peers) m.limits.max_peers
Opens-limit m id after h (inl same) = rw same (omega arith)
Opens-limit m id after h (inr (c, fresh, free, e)) =
    let room = slot-room m id h fresh free in
    rw (e, count-insert takes_slot m.active_peers id c fresh) (ground (arith, room))

dial-active :
    (told : Bool) (m : NetworkManager) (rtc : Rtc) (id : String)
    → ((dial told m rtc id).active_peers ≡ m.active_peers)
      ⊎ ((c : WebRtcClient) × ((dial told m rtc id).active_peers ≡ insert m.active_peers id c))
dial-active told m rtc id = elim (Result-cases rtc.new_client) [
  | inl (e, failed) ↦ inl (ground (arith, failed))
  | inr (c, made) ↦ elim (Result-cases rtc.create_offer) [
    | inl (e, failed) ↦ inl (ground (arith, made, failed))
    | inr (sdp, offered) ↦ inr (c, ground (arith, made, offered))
  ]
]

auto_dial-active :
    (m : NetworkManager) (now : ℕ) (rtc : Rtc) (id : String) (b : PeerBackoff)
    → ((auto_dial m now rtc id b).active_peers ≡ m.active_peers)
      ⊎ ((c : WebRtcClient) × ((auto_dial m now rtc id b).active_peers
            ≡ insert m.active_peers id c))
auto_dial-active m now rtc id b = elim (Bool-cases (cools_down m now b)) [
  | inl cooling ↦ inl (ground (arith, cooling))
  | inr cool ↦ elim (Bool-cases (lacks_signaling m id)) [
    | inl lacks ↦ inl (rw (cool, lacks) refl)
    | inr has ↦ rw (cool, has) (dial-active true (set_backoff m id (attempted b now)) rtc id)
  ]
]

pub auto_connect-free :
    (m : NetworkManager) (now : ℕ) (rtc : Rtc) (id : String)
    → get m.active_peers id ≡ none
    → peer_slot_available m.limits m.active_peers id ≡ true
    → auto_connect m now rtc id
      ≡ auto_dial m now rtc id (noticed (backoff_or (get m.backoff_states id) now false) now)
unfolding auto_connect
auto_connect-free m now rtc id fresh free = rw (fresh, auto_connect, free) refl

auto_connect-Opens :
    (m : NetworkManager) (now : ℕ) (rtc : Rtc) (id : String)
    → Opens m id (auto_connect m now rtc id).active_peers
unfolding auto_connect
auto_connect-Opens m now rtc id = elim (Option-cases (get m.active_peers id)) [
  | inr (c, there) ↦ inl (ground (arith, there))
  | inl fresh ↦ elim (Bool-cases (peer_slot_available m.limits m.active_peers id)) [
    | inr full ↦ inl (ground (arith, fresh, full))
    | inl free ↦
        let b = noticed (backoff_or (get m.backoff_states id) now false) now in
        let opened = auto_connect-free m now rtc id fresh free in
        elim (auto_dial-active m now rtc id b) [
          | inl same ↦ inl (rw opened same)
          | inr (c, e) ↦ inr (c, fresh, free, rw opened e)
        ]
  ]
]

call_free-Opens :
    (m : NetworkManager) (now : ℕ) (rtc : Rtc) (id : String)
    → get m.active_peers id ≡ none
    → Opens m id (call_free m now rtc id).active_peers
call_free-Opens m now rtc id fresh =
    elim (Bool-cases (peer_slot_available m.limits m.active_peers id)) [
      | inr full ↦ inl (rw full refl)
      | inl free ↦
          let m1 =
            set_backoff (record m { focused_peer = some id }) id
              (record { attempt_count = 1; last_attempt = now; is_connected = false }) in
          elim (Bool-cases (lacks_signaling m id)) [
            | inl lacks ↦ inl (rw (free, lacks) refl)
            | inr has ↦ elim (dial-active false m1 rtc id) [
              | inl same ↦ inl (rw (free, has) same)
              | inr (c, e) ↦ inr (c, fresh, free, rw (free, has) e)
            ]
          ]
    ]

drop_peer-some :
    (m : NetworkManager) (id : String) (told : List Effect) (c : WebRtcClient)
    → get m.active_peers id ≡ some c
    → drop_peer m id told
      ≡ perform
          (record m { active_peers = remove m.active_peers id })
          (closed_connection c.connection_id ∷ told)
drop_peer-some m id told c there = rw (there, drop_peer) refl

-- `Call` after it has dropped a session that is stuck or dead
call_dropped-limit :
    (m : NetworkManager) (now : ℕ) (rtc : Rtc) (id : String) (c : WebRtcClient)
    → get m.active_peers id ≡ some c
    → 0 < m.limits.max_peers
    → taken (call_free (drop_peer m id []) now rtc id).active_peers
      ≤ max (taken m.active_peers) m.limits.max_peers
call_dropped-limit m now rtc id c there h =
    let dropped =
      perform (record m { active_peers = remove m.active_peers id })
        (closed_connection c.connection_id ∷ []) in
    let gone : get dropped.active_peers id ≡ none =
      rw (get-remove m.active_peers id id, str_eq_refl id) refl in
    let fewer = count-remove takes_slot m.active_peers id in
    let opened = Opens-limit dropped id _ h (call_free-Opens dropped now rtc id gone) in
    rw (drop_peer-some m id [] c there) (le_trans opened (omega arith))

-- A dial by the client itself, by `AutoConnect` or by `Call`, keeps the limit on peers: where a
-- limit is set, the sessions that are up or coming up number afterwards at most the limit, or at
-- most what they were before, where a limit was set below that.
pub auto_connect-limit :
    (m : NetworkManager) (now : ℕ) (rtc : Rtc) (id : String)
    → 0 < m.limits.max_peers
    → taken (auto_connect m now rtc id).active_peers ≤ max (taken m.active_peers) m.limits.max_peers
auto_connect-limit m now rtc id h = Opens-limit m id _ h (auto_connect-Opens m now rtc id)

pub call-limit :
    (m : NetworkManager) (now : ℕ) (rtc : Rtc) (id : String)
    → 0 < m.limits.max_peers
    → taken (call m now rtc id).active_peers ≤ max (taken m.active_peers) m.limits.max_peers
unfolding call
call-limit m now rtc id h = elim (Option-cases (get m.active_peers id)) [
  | inl fresh ↦ rw (fresh, call) (Opens-limit m id _ h (call_free-Opens m now rtc id fresh))
  | inr (c, there) ↦ elim (Bool-cases (is_stuck c now 5 || is_dead c.connection_state)) [
    | inr alive ↦ rw (there, call, alive) (omega arith)
    | inl reaped ↦ rw (there, call, reaped) (call_dropped-limit m now rtc id c there h)
  ]
]
