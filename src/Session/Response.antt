-- ===== src/Session/Response.antt =====
-- What a `HandshakeResponse` of a peer makes the session do.
use p2p_common.Common.{
  ℕ, ◌≡◌, ◌≢◌, refl, ap, ◌∙◌, ◌+◌, String, Bool, true, false, Option, none, List, [], ◌∷◌, ◌++◌,
  map, All, if◌then◌else◌,
}
use p2p_common.Common.Dict.{Dict, insert}
use p2p_common.Common.Result.{ok}
use p2p_common.Protocol.Types.{SharedResource}
use p2p_common.Protocol.Message.{P2pMessage, handshake_response}
use p2p_common.Network.Types.{peer_connected, P2pPeerState}
use p2p_common.Node.{NodeContext}
use p2p_common.Session.Types.{Session, World, told, on_peer_state_changed, command, written}
use p2p_common.Session.Resources.{
  learn_resources, own_tokens, write_response, respond, connect, on_handshake_response,
}
use p2p_common.Session.Incoming.{handle_incoming_p2p_message}

abbrev pub HasToken : SharedResource → Type 0
HasToken r = r.session_token ≢ none

learn_resources-my_info :
    (resources : List SharedResource) (c : NodeContext)
    → (learn_resources c resources).my_info ≡ c.my_info
unfolding learn_resources
learn_resources-my_info [] c = refl
learn_resources-my_info (r ∷ resources) c = learn_resources-my_info resources _

own_tokens-id :
    (token : ℕ → String) (drawn : ℕ) (keys : Dict String) (resources : List SharedResource)
    → map (λ r. r.id) (own_tokens token drawn keys resources).2 ≡ map (λ r. r.id) resources
unfolding own_tokens
own_tokens-id token drawn keys [] = refl
own_tokens-id token drawn keys (r ∷ resources) =
    ap (λ rest. r.id ∷ rest)
      (own_tokens-id token (drawn + 1) (insert keys r.id (token drawn)) resources)

own_tokens-HasToken :
    (token : ℕ → String) (drawn : ℕ) (keys : Dict String) (resources : List SharedResource)
    → All HasToken (own_tokens token drawn keys resources).2
unfolding own_tokens
own_tokens-HasToken token drawn keys [] = tt
own_tokens-HasToken token drawn keys (r ∷ resources) =
    ((λ h. cc h), own_tokens-HasToken token (drawn + 1) (insert keys r.id (token drawn)) resources)

write_response-written :
    (w : World) (s : Session) (shared : List SharedResource)
    → ((m : P2pMessage) → (bytes : List ℕ) × (w.env.to_bson m ≡ ok bytes))
    → write_response w s shared
      ≡ told s (written (record { mac = none; message = handshake_response shared }) ∷ [])
write_response-written w s shared serialises =
    let (bytes, fits) = serialises (handshake_response shared) in rw (fits, write_response) refl

respond-HasToken :
    (w : World) (s : Session)
    → ((m : P2pMessage) → (bytes : List ℕ) × (w.env.to_bson m ≡ ok bytes))
    → (shared : List SharedResource) × ((respond w s).node.is_authenticated
        ≡ s.node.is_authenticated)
      × (map (λ r. r.id) shared ≡ map (λ r. r.id) s.node.my_info.resources)
      × All HasToken shared
      × ((respond w s).events
          ≡ s.events ++ (written (record { mac = none; message = handshake_response shared }) ∷ []))
unfolding respond
respond-HasToken w s serialises =
    let c = s.node in
    let made = own_tokens w.env.token c.drawn c.session_keys c.my_info.resources in
    let done =
      write_response-written w
        (record s { node = record c { session_keys = made.0; drawn = made.1 } }) made.2
        serialises in
    (
      made.2,
      ap (λ t. t.node.is_authenticated) done,
      own_tokens-id w.env.token _ _ _,
      own_tokens-HasToken w.env.token _ _ _,
      ap (λ t. t.events) done,
    )

if_false : {A : Type 0} → (b : Bool) (x y : A) → b ≡ false → (if b then x else y) ≡ y
if_false b x y h = rw h refl

-- A session that is not authenticated takes a `HandshakeResponse`, whatever its MAC and without any
-- signature, as the proof of the peer's identity: it becomes authenticated, reports the peer as
-- connected and, if the answer can be serialised, writes one that holds every own resource with a
-- session token.
pub handle_incoming_p2p_message-HasToken :
    (w : World) (s : Session) (mac : Option String) (resources : List SharedResource)
    → s.node.is_authenticated ≡ false
    → ((m : P2pMessage) → (bytes : List ℕ) × (w.env.to_bson m ≡ ok bytes))
    → let after =
        handle_incoming_p2p_message w s
          (record { mac = mac; message = handshake_response resources }) in
      (shared : List SharedResource) × (after.node.is_authenticated ≡ true)
      × (map (λ r. r.id) shared ≡ map (λ r. r.id) s.node.my_info.resources)
      × All HasToken shared
      × (after.events
          ≡ (s.events
              ++ (on_peer_state_changed P2pPeerState.connected
                  ∷ command (peer_connected s.target_node_id resources)
                  ∷ []))
            ++ (written (record { mac = none; message = handshake_response shared }) ∷ []))
unfolding handle_incoming_p2p_message on_handshake_response connect
handle_incoming_p2p_message-HasToken w s mac resources unknown serialises =
    let c = connect s resources in
    let branch = if_false s.node.is_authenticated c (respond w c) unknown in
    let (shared, same, ids, tokens, sent) = respond-HasToken w c serialises in
    (
      shared,
      ap (λ t. t.node.is_authenticated) branch ∙ same,
      ids ∙ ap (λ i. map (λ r. r.id) i.resources) (learn_resources-my_info resources s.node),
      tokens,
      ap (λ t. t.events) branch ∙ sent,
    )
