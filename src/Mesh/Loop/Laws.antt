-- ===== src/Mesh/Loop/Laws.antt =====
-- What the loop of a tunnel leaves in the table of tunnels.
use mathlib.Core.List.{append_assoc}
use p2p_common.Common.{
  ◌≡◌, ◌≢◌, ◌⊎◌, refl, sym, ap, ◌∙◌, String, true, false, Option, none, some, List, [], ◌∷◌, ◌++◌,
  str_eq, str_eq_refl, ◌==◌, ==_iff, str_eq_ne, arith, inl, inr, Bool-cases, Option-cases,
}
use p2p_common.Common.Dict.{get, get-insert, get-insert_self, get-remove}
use p2p_common.Protocol.Types.{Uuid}
use p2p_common.Protocol.Message.{P2pMessage}
use p2p_common.Mesh.Messages.{Mesh, TunnelSession, handle_tunnel_message}
use p2p_common.Mesh.Messages.Laws.{Extends, Extends-refl, handle_tunnel_message-Extends}
use p2p_common.Mesh.Loop.{
  Event, outgoing, senders_gone, packet, read_failed, popped, received, cleanup, run_tunnel_loop,
}

Extends-trans : (a b c : Option TunnelSession) → Extends a b → Extends b c → Extends a c
Extends-trans none none c h k = k
Extends-trans none (some u) c h k = cc h
Extends-trans (some t) none c (extra, e) k = cc e
Extends-trans (some t) (some u) c (extra, e) (more, k) =
    (extra ++ more, rw (k, ap connection_of e, ap queue_of e, append_assoc t.queue extra more) refl)
  where
    connection_of : Option TunnelSession → Uuid
    connection_of none = 0
    connection_of (some t) = t.connection_id

    queue_of : Option TunnelSession → List P2pMessage
    queue_of none = []
    queue_of (some t) = t.queue

-- The entry of the node `j` is not the one of the loop that runs for `remote` on `connection`.
abbrev pub Foreign : Mesh → String → Uuid → String → Type 0
Foreign m remote connection j =
    (j ≢ remote)
    ⊎ ((t : TunnelSession) × (get m.tunnels j ≡ some t) × (t.connection_id ≢ connection))

-- The entry of `remote` is the one of `connection`.
abbrev pub Own : Mesh → String → Uuid → Type 0
Own m remote connection =
    (t : TunnelSession) × (get m.tunnels remote ≡ some t) × (t.connection_id ≡ connection)

Foreign-Extends :
    (m n : Mesh) (remote : String) (connection : Uuid) (j : String)
    → Extends (get m.tunnels j) (get n.tunnels j)
    → Foreign m remote connection j
    → Foreign n remote connection j
Foreign-Extends m n remote connection j x (inl other) = inl other
Foreign-Extends m n remote connection j x (inr (t, e, h)) =
    let (extra, k) = rw e at x in inr (_, k, h)

Own-Extends :
    (m n : Mesh) (remote : String) (connection : Uuid)
    → Extends (get m.tunnels remote) (get n.tunnels remote)
    → Own m remote connection
    → Own n remote connection
Own-Extends m n remote connection x (t, e, h) = let (extra, k) = rw e at x in (_, k, h)

Foreign-ne :
    (m : Mesh) (remote : String) (connection : Uuid) (j : String) (t : TunnelSession)
    → get m.tunnels remote ≡ some t
    → (t.connection_id == connection) ≡ true
    → Foreign m remote connection j
    → str_eq remote j ≡ false
Foreign-ne m remote connection j t e own (inl other) = str_eq_ne remote j (λ same. other (sym same))
Foreign-ne m remote connection j t e own (inr (u, eu, hu)) =
    str_eq_ne remote j (λ (same : remote ≡ j).
      let at_j : get m.tunnels j ≡ some t = rw same at e in
      hu (cc (eu, at_j, (==_iff t.connection_id connection).0 own)))

received-Foreign :
    (m : Mesh) (remote : String) (connection : Uuid) (j : String)
    → Foreign m remote connection j
    → get (received m remote connection).tunnels j ≡ get m.tunnels j
unfolding received
received-Foreign m remote connection j h = elim (Option-cases (get m.tunnels remote)) [
  | inl missing ↦ rw (missing, received) refl
  | inr (t, e) ↦ elim (Bool-cases (t.connection_id == connection)) [
    | inr other ↦ rw (e, received, other) refl
    | inl own ↦
        rw
          (
            e,
            received,
            own,
            get-insert m.tunnels remote j (popped t),
            Foreign-ne m remote connection j t e own h,
          )
          refl
  ]
]

cleanup-Foreign :
    (m : Mesh) (remote : String) (connection : Uuid) (j : String)
    → Foreign m remote connection j
    → get (cleanup m remote connection).tunnels j ≡ get m.tunnels j
unfolding cleanup
cleanup-Foreign m remote connection j h = elim (Option-cases (get m.tunnels remote)) [
  | inl missing ↦ rw (missing, cleanup) refl
  | inr (t, e) ↦ elim (Bool-cases (t.connection_id == connection)) [
    | inr other ↦ rw (e, cleanup, other) refl
    | inl own ↦
        rw
          (
            e,
            cleanup,
            own,
            get-remove m.tunnels remote j,
            Foreign-ne m remote connection j t e own h,
          )
          refl
  ]
]

received-Own :
    (m : Mesh) (remote : String) (connection : Uuid)
    → Own m remote connection
    → Own (received m remote connection) remote connection
unfolding received
received-Own m remote connection (t, e, h) = (
  popped t,
  rw (e, received, (==_iff t.connection_id connection).1 h)
      (get-insert_self m.tunnels remote (popped t)),
  popped-connection t ∙ h,
)
  where
    popped-connection : (t : TunnelSession) → (popped t).connection_id ≡ t.connection_id
    popped-connection t = ground arith

cleanup-Own :
    (m : Mesh) (remote : String) (connection : Uuid)
    → Own m remote connection
    → get (cleanup m remote connection).tunnels remote ≡ none
unfolding cleanup
cleanup-Own m remote connection (t, e, h) =
    rw
      (
        e,
        cleanup,
        (==_iff t.connection_id connection).1 h,
        get-remove m.tunnels remote remote,
        str_eq_refl remote,
      )
      refl

-- A loop leaves every tunnel alone that is not its own: whatever events it takes, for a node id
-- other than the remote's, and for the remote's id too where the table holds a newer connection,
-- there is a tunnel after the events exactly when there was one before, of the same connection, and
-- its queue holds what it held, with what the loop added behind. In particular a loop that ends late
-- does not close the connection that replaced its own.
pub run_tunnel_loop-Extends :
    (events : List Event) (m : Mesh) (remote my_id : String) (connection : Uuid) (j : String)
    → Foreign m remote connection j
    → Extends (get m.tunnels j) (get (run_tunnel_loop events m remote my_id connection).0.tunnels j)
unfolding run_tunnel_loop
run_tunnel_loop-Extends [] m remote my_id connection j h = Extends-refl (get m.tunnels j)
run_tunnel_loop-Extends (outgoing true ∷ es) m remote my_id connection j h =
    let same = received-Foreign m remote connection j h in
    let next =
      Foreign-Extends m (received m remote connection) remote connection j
        (rw same (Extends-refl (get m.tunnels j))) h in
    rw same at
      (run_tunnel_loop-Extends es (received m remote connection) remote my_id connection j next)
run_tunnel_loop-Extends (outgoing false ∷ es) m remote my_id connection j h =
    let same = received-Foreign m remote connection j h in
    let next =
      Foreign-Extends m (received m remote connection) remote connection j
        (rw same (Extends-refl (get m.tunnels j))) h in
    rw (cleanup-Foreign (received m remote connection) remote connection j next, same)
      (Extends-refl (get m.tunnels j))
run_tunnel_loop-Extends (senders_gone ∷ es) m remote my_id connection j h =
    rw (cleanup-Foreign m remote connection j h) (Extends-refl (get m.tunnels j))
run_tunnel_loop-Extends (packet none ∷ es) m remote my_id connection j h =
    run_tunnel_loop-Extends es m remote my_id connection j h
run_tunnel_loop-Extends (packet (some msg) ∷ es) m remote my_id connection j h =
    let n = handle_tunnel_message m msg remote my_id in
    let x = handle_tunnel_message-Extends m msg remote my_id j in
    Extends-trans (get m.tunnels j) (get n.tunnels j) _ x (
      run_tunnel_loop-Extends es n remote my_id connection j
        (Foreign-Extends m n remote connection j x h))
run_tunnel_loop-Extends (read_failed ∷ es) m remote my_id connection j h =
    rw (cleanup-Foreign m remote connection j h) (Extends-refl (get m.tunnels j))

-- A loop whose connection is the one in the table takes it out of the table when it ends, whichever
-- event ends it.
pub run_tunnel_loop-closes :
    (events rest : List Event) (m : Mesh) (remote my_id : String) (connection : Uuid)
    → Own m remote connection
    → (run_tunnel_loop events m remote my_id connection).1 ≡ some rest
    → get (run_tunnel_loop events m remote my_id connection).0.tunnels remote ≡ none
unfolding run_tunnel_loop
run_tunnel_loop-closes [] rest m remote my_id connection h ended = cc ended
run_tunnel_loop-closes (outgoing true ∷ es) rest m remote my_id connection h ended =
    run_tunnel_loop-closes es rest (received m remote connection) remote my_id connection
      (received-Own m remote connection h) ended
run_tunnel_loop-closes (outgoing false ∷ es) rest m remote my_id connection h ended =
    cleanup-Own (received m remote connection) remote connection
      (received-Own m remote connection h)
run_tunnel_loop-closes (senders_gone ∷ es) rest m remote my_id connection h ended =
    cleanup-Own m remote connection h
run_tunnel_loop-closes (packet none ∷ es) rest m remote my_id connection h ended =
    run_tunnel_loop-closes es rest m remote my_id connection h ended
run_tunnel_loop-closes (packet (some msg) ∷ es) rest m remote my_id connection h ended =
    run_tunnel_loop-closes es rest (handle_tunnel_message m msg remote my_id) remote my_id
      connection
      (Own-Extends m (handle_tunnel_message m msg remote my_id) remote connection
        (handle_tunnel_message-Extends m msg remote my_id remote) h)
      ended
run_tunnel_loop-closes (read_failed ∷ es) rest m remote my_id connection h ended =
    cleanup-Own m remote connection h
