-- ===== src/Network/Dial/Backoff.antt =====
-- The pace of dials by `AutoConnect`.
use p2p_common.Common.{
  ℕ, ◌≡◌, refl, ◌+◌, ◌-◌, ◌<◌, String, true, false, none, some, lt→ltb, arith, [], ◌∷◌, ◌∙◌, ◌⊎◌,
  inl, inr,
}
use p2p_common.Common.Dict.{get, get-insert_self}
use p2p_common.Common.Result.{ok, err}
use p2p_common.Network.Types.{
  PeerBackoff, P2pFailure, connecting_transport, client_init_failed, offer_failed,
}
use p2p_common.Network.State.{
  NetworkManager, WebRtcClient, backoff_or, get_cooldown_duration, peer_slot_available, set_backoff,
  perform, on_p2p_connecting, on_peer_state_changed,
}
use p2p_common.Network.Dial.{
  Rtc, auto_connect, auto_dial, dial, noticed, attempted, cools_down, lacks_signaling, failed_dial,
}
use p2p_common.Network.Dial.Limit.{auto_connect-free}

-- While a peer cools down after an attempt, `AutoConnect` does nothing: no session is opened and
-- nothing is sent, whatever the network would have answered.
pub auto_connect-cools_down :
    (m : NetworkManager) (now : ℕ) (rtc : Rtc) (id : String) (b : PeerBackoff)
    → get m.active_peers id ≡ none
    → peer_slot_available m.limits m.active_peers id ≡ true
    → get m.backoff_states id ≡ some b
    → b.is_connected ≡ false
    → 0 < b.attempt_count
    → now - b.last_attempt < get_cooldown_duration m.limits b.attempt_count
    → auto_connect m now rtc id ≡ set_backoff m id b
auto_connect-cools_down m now rtc id b fresh free known down tried soon =
    rw
      (
        auto_connect-free m now rtc id fresh free,
        known,
        down,
        lt→ltb 0 b.attempt_count tried,
        lt→ltb (now - b.last_attempt) (get_cooldown_duration m.limits b.attempt_count) soon,
      )
      refl

-- The dial fails: its client cannot be made, or the client cannot make its offer.
abbrev pub Fails : Rtc → Type 0
Fails rtc =
    ((e : String) × (rtc.new_client ≡ err e))
    ⊎ ((e : String) × (c : WebRtcClient) × (rtc.new_client ≡ ok c) × (rtc.create_offer ≡ err e))

abbrev dialling : NetworkManager → String → NetworkManager
dialling m id =
    perform m (on_p2p_connecting id ∷ on_peer_state_changed id connecting_transport ∷ [])

dial-Fails :
    (m : NetworkManager) (rtc : Rtc) (id : String)
    → Fails rtc
    → (why : P2pFailure) × (dial true m rtc id ≡ failed_dial (dialling m id) id why)
dial-Fails m rtc id (inl (e, failed)) = (client_init_failed e, rw (dial, failed) refl)
dial-Fails m rtc id (inr (e, c, made, failed)) = (offer_failed e, rw (dial, made, failed) refl)

-- The backoff that an `AutoConnect` starts from: the one that is there, or a new one for a first dial
abbrev pub found_backoff : NetworkManager → ℕ → String → PeerBackoff
found_backoff m now id = noticed (backoff_or (get m.backoff_states id) now false) now

-- A dial that fails, at its client or at its offer, and the first one of a peer like any other, is counted,
-- so that a second `AutoConnect` that comes before the wait for one more attempt is over does nothing at
-- all.
pub auto_connect-retries :
    (m : NetworkManager) (now later : ℕ) (rtc rtc' : Rtc) (id : String)
    → let b = found_backoff m now id in
      get m.active_peers id ≡ none
      → peer_slot_available m.limits m.active_peers id ≡ true
      → cools_down m now b ≡ false
      → lacks_signaling m id ≡ false
      → Fails rtc
      → later - now < get_cooldown_duration m.limits (b.attempt_count + 1)
      → let m1 = auto_connect m now rtc id in
        (get m1.backoff_states id ≡ some (attempted b now))
        × (auto_connect m1 later rtc' id ≡ set_backoff m1 id (attempted b now))
auto_connect-retries m now later rtc rtc' id fresh free cool has failed soon =
    let b = found_backoff m now id in
    let counting = set_backoff m id (attempted b now) in
    let (why, ends) = dial-Fails counting rtc id failed in
    let dialled = failed_dial (dialling counting id) id why in
    let dials : auto_dial m now rtc id b ≡ dial true counting rtc id =
      rw (auto_dial, cool, has) refl in
    let first : auto_connect m now rtc id ≡ dialled =
      auto_connect-free m now rtc id fresh free ∙ dials ∙ ends in
    let counted : get dialled.backoff_states id ≡ some (attempted b now) =
      get-insert_self m.backoff_states id (attempted b now) in
    rw first (
      counted,
      auto_connect-cools_down dialled later rtc' id (attempted b now) fresh free counted refl
          (omega arith) soon,
    )
