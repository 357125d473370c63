-- ===== src/Node/Access.antt =====
-- The access check in front of the dispatch.
use p2p_common.Common.{
  ℕ, ◌≡◌, ◌≢◌, refl, sym, ap, ◌∙◌, String, true, false, some, List, [], ◌∷◌, str_eq, find, arith,
  eq_iff, inl, inr, Bool-cases, Option-cases, ◌||◌, ◌++◌,
}
use p2p_common.Common.Dict.{get}
use p2p_common.Common.Result.{ok}
use p2p_common.Crypto.{IsSound, compute_hmac_sha256, verify_hmac_sha256}
use p2p_common.Crypto.Mac.{verify-compute_hmac}
use p2p_common.Protocol.Types.{ResourceType, SharedResource}
use p2p_common.Protocol.Message.{P2pMessage, message}
use p2p_common.Protocol.Access.{allowed_resource_types, resource_id}
use p2p_common.Protocol.Access.Laws.{allowed-empty_iff}
use p2p_common.Node.{
  NodeContext, Env, access_allowed, process_message, is_response, has_type, is_empty,
  resource_allowed, send_msg,
}

-- The context shares a resource with this id, and the first such has one of the types.
abbrev pub Shares : NodeContext → String → List ResourceType → Type 0
Shares c id types =
    (r : SharedResource) × (find (λ r. str_eq r.id id) c.my_info.resources ≡ some r)
    × (r.id ≡ id)
    × (has_type types r.resource_type ≡ true)

find-id :
    (resources : List SharedResource) (id : String) (r : SharedResource)
    → find (λ r. str_eq r.id id) resources ≡ some r
    → r.id ≡ id
find-id [] id r e = cc
find-id (x ∷ resources) id r e = elim (Bool-cases (str_eq x.id id)) [
  | inl hit ↦
      let same : x ≡ r = ground (arith) in
      ap (λ (s : SharedResource). s.id) (sym same) ∙ (eq_iff x.id id).0 hit
  | inr miss ↦ find-id resources id r (ground arith)
]

has_type_of_allowed :
    (types : List ResourceType) (t : ResourceType)
    → types ≢ []
    → (is_empty types || has_type types t) ≡ true
    → has_type types t ≡ true
has_type_of_allowed [] t h e = absurd (h refl)
has_type_of_allowed (x ∷ types) t h e = e

allowed-Shares :
    (c : NodeContext) (types : List ResourceType) (id : String)
    → types ≢ []
    → resource_allowed c.my_info.resources types (some id) ≡ true
    → Shares c id types
allowed-Shares c types id h e =
    elim (Option-cases (find (λ r. str_eq r.id id) c.my_info.resources)) [
      | inl missing ↦ absurd (ground arith)
      | inr (r, found) ↦ (
        r,
        found,
        find-id c.my_info.resources id r found,
        has_type_of_allowed types r.resource_type h (ground arith),
      )
    ]

-- A message that is no response and names a resource changes nothing, sends nothing and reaches no
-- handler, unless the node shares a resource with that id and the first one has a type that the
-- message may address. There is no message that names a resource and may address any type.
pub process_message-Shares :
    (env : Env) (c : NodeContext) (msg : P2pMessage) (id : String)
    → is_response msg ≡ false
    → resource_id msg ≡ some id
    → process_message env c msg ≢ c
    → Shares c id (allowed_resource_types msg)
unfolding process_message access_allowed
process_message-Shares env c msg id command named acts = elim (Bool-cases (access_allowed c msg)) [
  | inr refused ↦ absurd (acts (rw refused))
  | inl passed ↦
      allowed-Shares c (allowed_resource_types msg) id (λ e. cc ((allowed-empty_iff msg).0 e))
        (rw (command, named) at passed)
]

-- A message on a resource with a session key goes out with a MAC that a receiver with the same key
-- accepts, whenever the message can be serialised, and nothing else of the context changes.
pub send_msg-verifies :
    (env : Env) (sound : IsSound env.crypto) (c : NodeContext) (msg : P2pMessage) (id key : String)
    (bytes : List ℕ)
    → resource_id msg ≡ some id
    → get c.session_keys id ≡ some key
    → env.to_bson msg ≡ ok bytes
    → (mac : String) × (send_msg env c msg ≡ record c {
      outgoing = c.outgoing ++ message (record { mac = some mac; message = msg }) ∷ [];
    })
      × (verify_hmac_sha256 env.crypto bytes key mac ≡ true)
unfolding send_msg
send_msg-verifies env sound c msg id key bytes named keyed written = (
  compute_hmac_sha256 env.crypto bytes key,
  rw (named, keyed, written),
  verify-compute_hmac env.crypto sound bytes key,
)
