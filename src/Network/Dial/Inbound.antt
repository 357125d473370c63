-- ===== src/Network/Dial/Inbound.antt =====
-- Offers of other nodes, and the limit on the number of peers.
use p2p_common.Common.{
  ◌≡◌, ◌⊎◌, refl, ap, ◌+◌, ◌≤◌, ◌<◌, max, String, true, false, none, some, List, [], ◌∷◌,
  str_eq_refl, arith, inl, inr, Bool-cases, Option-cases,
}
use p2p_common.Common.Dict.{
  Dict, get, insert, remove, get-remove, count-insert, count-replace, count-remove_one,
}
use p2p_common.Common.Result.{ok, Result-cases}
use p2p_common.Network.Types.{
  InboundRtcSignal, offer, answer, ice_candidate, connecting_transport, RtcSignal,
}
use p2p_common.Network.State.{
  NetworkManager, WebRtcClient, Effect, taken, takes_slot, peer_slot_available, drop_peer, perform,
  on_p2p_connecting, on_peer_state_changed,
}
use p2p_common.Network.Dial.{
  Rtc, accept, inbound_offer, inbound_answer, is_duplicate, restart, describe, handle_inbound,
}
use p2p_common.Network.Dial.Limit.{slot-room}

-- The table after an old session, if any, is dropped
dropped-active :
    (m : NetworkManager) (id : String) (told : List Effect)
    → ((get m.active_peers id ≡ none) × ((drop_peer m id told).active_peers ≡ m.active_peers))
      ⊎ ((drop_peer m id told).active_peers ≡ remove m.active_peers id)
dropped-active m id told = elim (Option-cases (get m.active_peers id)) [
  | inl gone ↦ inl (gone, ground (arith, gone))
  | inr (c, there) ↦ inr (ground (arith, there))
]

abbrev told_connecting : NetworkManager → String → NetworkManager
told_connecting m id =
    perform m (on_p2p_connecting id ∷ on_peer_state_changed id connecting_transport ∷ [])

accept-active :
    (m : NetworkManager) (rtc : Rtc) (id sdp : String)
    → let dropped = (drop_peer (told_connecting m id) id []).active_peers in
      ((accept m rtc id sdp).active_peers ≡ dropped)
      ⊎ ((c : WebRtcClient) × ((accept m rtc id sdp).active_peers ≡ insert dropped id c))
accept-active m rtc id sdp = elim (Result-cases rtc.new_client) [
  | inl (e, failed) ↦ inl (rw (failed, accept) refl)
  | inr (c, made) ↦ elim (Result-cases (rtc.accept_offer_and_answer sdp)) [
    | inl (e, failed) ↦ inl (rw (made, accept, failed) refl)
    | inr (a, answered) ↦ inr (describe c sdp, rw (made, accept, answered) refl)
  ]
]

-- There is no session of `id`, or there is one that holds a slot.
abbrev pub HoldsSlot : NetworkManager → String → Type 0
HoldsSlot m id =
    (get m.active_peers id ≡ none)
    ⊎ ((c : WebRtcClient) × (get m.active_peers id ≡ some c) × (takes_slot c ≡ true))

-- What is left after the drop, with room for one more
HasRoom : NetworkManager → String → Dict WebRtcClient → Type 0
HasRoom m id d = (get d id ≡ none) × (taken d + 1 ≤ max (taken m.active_peers) m.limits.max_peers)

dropped-HasRoom :
    (m : NetworkManager) (id : String) (told : List Effect)
    → 0 < m.limits.max_peers
    → HoldsSlot m id
    → peer_slot_available m.limits m.active_peers id ≡ true
    → HasRoom m id (drop_peer m id told).active_peers
unfolding HasRoom
dropped-HasRoom m id told h (inl gone) free =
    let same : (drop_peer m id told).active_peers ≡ m.active_peers = ground (arith, gone) in
    let room = slot-room m id h gone free in rw same (gone, omega arith)
dropped-HasRoom m id told h (inr (c, there, holds)) free =
    let removed : (drop_peer m id told).active_peers ≡ remove m.active_peers id =
      ground (arith, there) in
    let one = count-remove_one takes_slot m.active_peers id c there holds in
    rw removed (rw (get-remove m.active_peers id id, str_eq_refl id) refl, omega arith)

accept-limit :
    (m : NetworkManager) (rtc : Rtc) (id sdp : String)
    → 0 < m.limits.max_peers
    → HoldsSlot m id
    → peer_slot_available m.limits m.active_peers id ≡ true
    → taken (accept m rtc id sdp).active_peers ≤ max (taken m.active_peers) m.limits.max_peers
unfolding HasRoom
accept-limit m rtc id sdp h holds free =
    let (gone, room) = dropped-HasRoom (told_connecting m id) id [] h holds free in
    elim (accept-active m rtc id sdp) [
      | inl same ↦ rw same (omega arith)
      | inr (c, e) ↦
          rw
            (
              e,
              count-insert takes_slot (drop_peer (told_connecting m id) id []).active_peers id c
                  gone,
            )
            (ground (arith, room))
    ]

inbound_offer-limit :
    (m : NetworkManager) (rtc : Rtc) (id sdp : String)
    → 0 < m.limits.max_peers
    → HoldsSlot m id
    → taken (inbound_offer m rtc id sdp).active_peers
      ≤ max (taken m.active_peers) m.limits.max_peers
inbound_offer-limit m rtc id sdp h holds =
    elim (Bool-cases (is_duplicate (get m.active_peers id) sdp)) [
      | inl again ↦ rw again (omega arith)
      | inr new ↦ elim (Bool-cases (peer_slot_available m.limits m.active_peers id)) [
        | inr full ↦ rw (new, full) (omega arith)
        | inl free ↦ rw (new, free) (accept-limit m rtc id sdp h holds free)
      ]
    ]

restart-taken :
    (m : NetworkManager) (rtc : Rtc) (id sdp : String) (c : WebRtcClient)
    → get m.active_peers id ≡ some c
    → taken (restart m rtc id sdp c).active_peers ≡ taken m.active_peers
restart-taken m rtc id sdp c there = elim (Result-cases (rtc.accept_offer_and_answer sdp)) [
  | inl (e, failed) ↦ rw (failed, restart) refl
  | inr (a, answered) ↦
      rw (answered, restart)
        (count-replace takes_slot m.active_peers id (describe c sdp) c there refl)
]

inbound_answer-taken :
    (m : NetworkManager) (rtc : Rtc) (id sdp : String)
    → taken (inbound_answer m rtc id sdp).active_peers ≡ taken m.active_peers
inbound_answer-taken m rtc id sdp = elim (Option-cases (get m.active_peers id)) [
  | inl gone ↦ rw (gone, inbound_answer) refl
  | inr (c, there) ↦ elim (Result-cases (rtc.apply_answer sdp)) [
    | inl (e, failed) ↦ rw (there, inbound_answer, failed) refl
    | inr (u, applied) ↦
        rw (there, inbound_answer, applied)
          (count-replace takes_slot m.active_peers id (describe c sdp) c there refl)
  ]
]

-- No signal of a node takes the sessions beyond the limit, where the client has no session of that
-- node or one that is up or coming up: they number at most the limit, or what they were before.
pub handle_inbound-limit :
    (m : NetworkManager) (rtc : Rtc) (inbound : InboundRtcSignal)
    → 0 < m.limits.max_peers
    → HoldsSlot m inbound.from_node_id
    → taken (handle_inbound m rtc inbound).active_peers
      ≤ max (taken m.active_peers) m.limits.max_peers
unfolding handle_inbound
handle_inbound-limit m rtc inbound h holds = go inbound.signal inbound.from_node_id holds
  where
    go :
        (s : RtcSignal) (id : String)
        → HoldsSlot m id
        → taken (handle_inbound m rtc (record { from_node_id = id; signal = s })).active_peers
          ≤ max (taken m.active_peers) m.limits.max_peers
    go (offer sdp false) id holds = inbound_offer-limit m rtc id sdp h holds
    go (offer sdp true) id holds = elim (Option-cases (get m.active_peers id)) [
      | inl gone ↦ rw (gone, handle_inbound) (inbound_offer-limit m rtc id sdp h holds)
      | inr (c, there) ↦
          rw (there, handle_inbound, restart-taken m rtc id sdp c there) (omega arith)
    ]
    go (answer sdp) id holds = rw (inbound_answer-taken m rtc id sdp) (omega arith)
    go (ice_candidate c mid index) id holds = omega arith

available-known :
    (m : NetworkManager) (id : String) (c : WebRtcClient)
    → get m.active_peers id ≡ some c
    → peer_slot_available m.limits m.active_peers id ≡ true
unfolding peer_slot_available
available-known m id c there = ground (arith, there)

accept-answered :
    (m : NetworkManager) (rtc : Rtc) (id sdp answer_sdp : String) (old client : WebRtcClient)
    → get m.active_peers id ≡ some old
    → rtc.new_client ≡ ok client
    → rtc.accept_offer_and_answer sdp ≡ ok answer_sdp
    → (accept m rtc id sdp).active_peers
      ≡ insert (remove m.active_peers id) id (describe client sdp)
accept-answered m rtc id sdp answer_sdp old client there made answered =
    let removed : (drop_peer (told_connecting m id) id []).active_peers ≡ remove m.active_peers id =
      ground (arith, there) in
    rw (made, accept, answered) (ap (λ d. insert d id (describe client sdp)) removed)

-- Without that condition the limit does not hold. Where the table still has a session of the node,
-- in whatever state, and the sessions of the other nodes fill the limit, an offer of the node that is
-- answered makes one session more than the limit.
pub offer-over_limit :
    (m : NetworkManager) (rtc : Rtc) (id sdp answer_sdp : String) (old client : WebRtcClient)
    → get m.active_peers id ≡ some old
    → is_duplicate (some old) sdp ≡ false
    → taken (remove m.active_peers id) ≡ m.limits.max_peers
    → rtc.new_client ≡ ok client
    → takes_slot client ≡ true
    → rtc.accept_offer_and_answer sdp ≡ ok answer_sdp
    → taken
        (handle_inbound m rtc (record { from_node_id = id; signal = offer sdp false })).active_peers
      ≡ m.limits.max_peers + 1
unfolding handle_inbound
offer-over_limit m rtc id sdp answer_sdp old client there new full made holds answered =
    let free : peer_slot_available m.limits m.active_peers id ≡ true =
      available-known m id old there in
    let gone : get (remove m.active_peers id) id ≡ none =
      rw (get-remove m.active_peers id id, str_eq_refl id) refl in
    let counted =
      count-insert takes_slot (remove m.active_peers id) id (describe client sdp) gone in
    let e = accept-answered m rtc id sdp answer_sdp old client there made answered in
    rw (there, inbound_offer, new, free, e, counted, full, holds) refl
