-- ===== src/Client/Transport/Laws.antt =====
-- Which changes of the transport end a session.
use mathlib.Core.List.{append-nil}
use p2p_common.Common.TextOrder.{one_smaller}
use p2p_common.Common.{
  String, arith, ◌+◌, ◌≢◌, length, ◌≡◌, refl, sym, ap, ◌∙◌, Bool, true, false, Option, none, some,
  List, [], ◌∷◌, ◌++◌, ◌&&◌, ◌||◌, keep, if◌then◌else◌, Bool-cases, inl, inr, str_lt,
}
use p2p_common.Common.Result.{Result, ok, err}
use p2p_common.Node.{NodeContext, shutdown}
use p2p_common.Network.Types.{
  disconnect_peer_session, ConnectionState, unspecified, new, connecting, connected, disconnected,
  failed, closed,
}
use p2p_common.Client.Transport.{
  Transport, TransportEvent, command, Recovery, is_disconnected, is_failed, tell, report, recover,
  ice_restart, restart_offer, described, offered, tear_down, on_peer_connection_state_change,
}

-- The transport is still down after the two waits.
abbrev pub still_down : Recovery → Bool
still_down r =
    is_disconnected r.after_grace && (is_disconnected r.after_window || is_failed r.after_window)

abbrev pub ends : Recovery → ConnectionState → Bool
ends r failed = true
ends r closed = true
ends r disconnected = still_down r
ends r _ = false

abbrev pub is_disconnect : TransportEvent → Bool
is_disconnect (command (disconnect_peer_session _ _)) = true
is_disconnect _ = false

keep-append :
    (p : TransportEvent → Bool) (xs ys : List TransportEvent)
    → keep p (xs ++ ys) ≡ keep p xs ++ keep p ys
keep-append p [] ys = refl
keep-append p (x ∷ xs) ys = elim (Bool-cases (p x)) [
  | inl yes_it ↦ rw yes_it (ap (λ r. x ∷ r) (keep-append p xs ys))
  | inr no_it ↦ rw no_it (keep-append p xs ys)
]

keep-ice_restart : (r : Recovery) → keep is_disconnect (ice_restart r) ≡ []
unfolding ice_restart
keep-ice_restart r = elim (Bool-cases (str_lt r.my_id r.target)) [
  | inl mine ↦ rw mine (create r.create_offer)
  | inr theirs ↦ rw theirs refl
]
  where
    told : (sdp : Option _) → keep is_disconnect (restart_offer r sdp) ≡ []
    told none = refl
    told (some sdp) = refl

    set : (u : Result (Unit {0})) → keep is_disconnect (described r u) ≡ []
    set (err e) = refl
    set (ok u) = told r.local_description

    create : (u : Result (Unit {0})) → keep is_disconnect (offered r u) ≡ []
    create (err e) = refl
    create (ok u) = set r.set_local_description

abbrev pub ending : Recovery → Bool → List TransportEvent
ending r b = if b then command (disconnect_peer_session r.target r.connection_id) ∷ [] else []

abbrev pub node_after : Bool → NodeContext → NodeContext
node_after b c = if b then shutdown c else c

-- What a handler adds to a transport that it is given
abbrev Ends : Recovery → Transport → Bool → Transport → Type 0
Ends r t b after =
    (keep is_disconnect after.events ≡ keep is_disconnect t.events ++ ending r b)
    × (after.node ≡ node_after b t.node)

-- A list of events that ends nothing, and one that ends with the teardown
told-Ends :
    (r : Recovery) (t : Transport) (es : List TransportEvent)
    → keep is_disconnect es ≡ []
    → Ends r t false (tell t es)
told-Ends r t es none_there = (
  keep-append is_disconnect t.events es ∙ ap (λ k. keep is_disconnect t.events ++ k) none_there,
  refl,
)

torn-Ends :
    (r : Recovery) (t : Transport) (es : List TransportEvent)
    → keep is_disconnect es ≡ []
    → Ends r t true (tear_down r (tell t es))
torn-Ends r t es none_there = (
  keep-append is_disconnect (t.events ++ es)
        (command (disconnect_peer_session r.target r.connection_id) ∷ [])
      ∙ ap (λ k. k ++ ending r true)
          ((told-Ends r t es none_there).0 ∙ append-nil (keep is_disconnect t.events)),
  refl,
)

recover-Ends : (r : Recovery) (t : Transport) → Ends r t (still_down r) (recover r t)
unfolding recover
recover-Ends r t =
    go (is_disconnected r.after_grace) (is_disconnected r.after_window || is_failed r.after_window)
  where
    go :
        (early late : Bool)
        → Ends r t (early && late) (
            if early
            then (let t1 = tell t (ice_restart r) in if late then tear_down r t1 else t1)
            else t)
    go true true = torn-Ends r t (ice_restart r) (keep-ice_restart r)
    go true false = told-Ends r t (ice_restart r) (keep-ice_restart r)
    go false true = (sym (append-nil (keep is_disconnect t.events)), refl)
    go false false = (sym (append-nil (keep is_disconnect t.events)), refl)

-- The session is ended, by one `DisconnectPeerSession` of its own connection and a cleared context, if the
-- transport fails or is closed, or is disconnected and still down after both waits; on every other change
-- no session is ended and the context is kept.
pub on_peer_connection_state_change-ends :
    (r : Recovery) (t : Transport) (s : ConnectionState)
    → let after = on_peer_connection_state_change r t s in
      (keep is_disconnect after.events ≡ keep is_disconnect t.events ++ ending r (ends r s))
      × (after.node ≡ node_after (ends r s) t.node)
unfolding on_peer_connection_state_change
on_peer_connection_state_change-ends r t new =
    (sym (append-nil (keep is_disconnect t.events)), refl)
on_peer_connection_state_change-ends r t unspecified = told-Ends r t (report r unspecified) refl
on_peer_connection_state_change-ends r t connecting = told-Ends r t (report r connecting) refl
on_peer_connection_state_change-ends r t connected = told-Ends r t (report r connected) refl
on_peer_connection_state_change-ends r t failed = torn-Ends r t (report r failed) refl
on_peer_connection_state_change-ends r t closed = torn-Ends r t (report r closed) refl
on_peer_connection_state_change-ends r t disconnected =
    let t1 = tell t (report r disconnected) in
    let (events, node) = recover-Ends r t1 in
    let kept =
      (told-Ends r t (report r disconnected) refl).0 ∙ append-nil (keep is_disconnect t.events) in
    (events ∙ ap (λ k. k ++ ending r (still_down r)) kept, node)

-- The library makes and keeps the offer of a restart.
abbrev pub CanOffer : Recovery → Type 0
CanOffer r =
    (sdp : String) × (r.create_offer ≡ ok tt)
    × (r.set_local_description ≡ ok tt)
    × (r.local_description ≡ some sdp)

offers : (r : Recovery) → CanOffer r → str_lt r.my_id r.target ≡ true → length (ice_restart r) ≡ 1
unfolding ice_restart
offers r (sdp, made, kept, there) mine = rw (mine, made, offered, kept, described, there) refl

waits : (r : Recovery) → str_lt r.my_id r.target ≡ false → length (ice_restart r) ≡ 0
unfolding ice_restart
waits r theirs = rw theirs refl

-- When both sides of a session find it disconnected, exactly one of them offers a restart.
pub ice_restart-one_side :
    (a b : Recovery)
    → b.my_id ≡ a.target
    → b.target ≡ a.my_id
    → a.my_id ≢ a.target
    → CanOffer a
    → CanOffer b
    → length (ice_restart a) + length (ice_restart b) ≡ 1
ice_restart-one_side a b facing back other can_a can_b = elim (one_smaller a.my_id a.target other) [
  | inl (less, more) ↦ omega (arith, offers a can_a less, waits b (rw (facing, back) more))
  | inr (more, less) ↦ omega (arith, waits a more, offers b can_b (rw (facing, back) less))
]
