-- ===== src/Node/Handshake.antt =====
-- The answer to a handshake: which resources it announces, and which session keys it leaves.
use p2p_common.Common.{
  ℕ, ◌+◌, ◌≡◌, ◌≢◌, refl, sym, ap, ◌∙◌, String, true, Option, none, some, List, [], ◌∷◌, ◌++◌, map,
  All, inl, inr, Bool-cases,
}
use p2p_common.Common.Dict.{Dict, get, insert, get-insert_self, get-insert_ne}
use p2p_common.Protocol.Types.{ResourceType, SharedResource}
use p2p_common.Protocol.Message.{message, handshake, handshake_response}
use p2p_common.Protocol.Access.{resource_id}
use p2p_common.Node.{
  NodeContext, Env, issue_tokens, requested, has_type, process_message, access_allowed, is_response,
  send_msg,
}

-- No resource of the list has this id.
abbrev pub Fresh : String → List SharedResource → Type 0
Fresh id resources = All (λ r. r.id ≢ id) resources

abbrev pub DistinctIds : List SharedResource → Type 0
DistinctIds [] = Unit {0}
DistinctIds (r ∷ resources) = Fresh r.id resources × DistinctIds resources

-- The announced form of a resource under a token.
abbrev pub Announces : Dict String → SharedResource → Type 0
Announces keys r = (r.config ≡ none) × (r.session_token ≡ get keys r.id) × (r.session_token ≢ none)

module _ (token : ℕ → String) where
  get-issue_tokens :
      (resources : List SharedResource) (drawn : ℕ) (keys : Dict String) (id : String)
      → Fresh id resources
      → get (issue_tokens token drawn keys resources).0 id ≡ get keys id
  unfolding issue_tokens
  get-issue_tokens [] drawn keys id h = refl
  get-issue_tokens (r ∷ resources) drawn keys id h =
      get-issue_tokens resources (drawn + 1) (insert keys r.id (token drawn)) id h.1
      ∙ get-insert_ne keys r.id id (token drawn) h.0

  ids-issue_tokens :
      (resources : List SharedResource) (drawn : ℕ) (keys : Dict String)
      → map (λ r. r.id) (issue_tokens token drawn keys resources).2 ≡ map (λ r. r.id) resources
  unfolding issue_tokens
  ids-issue_tokens [] drawn keys = refl
  ids-issue_tokens (r ∷ resources) drawn keys =
      ap (λ l. r.id ∷ l) (ids-issue_tokens resources (drawn + 1) (insert keys r.id (token drawn)))

  issue_tokens-Announces :
      (resources : List SharedResource) (drawn : ℕ) (keys : Dict String)
      → DistinctIds resources
      → All
          (Announces (issue_tokens token drawn keys resources).0)
          (issue_tokens token drawn keys resources).2
  unfolding issue_tokens
  issue_tokens-Announces [] drawn keys h = tt
  issue_tokens-Announces (r ∷ resources) drawn keys h = (
    (
      refl,
      sym (
          get-issue_tokens resources (drawn + 1) (insert keys r.id (token drawn)) r.id h.0
          ∙ get-insert_self keys r.id (token drawn)),
      λ e. cc,
    ),
    issue_tokens-Announces resources (drawn + 1) (insert keys r.id (token drawn)) h.1,
  )

-- A handshake from a peer, on a node whose resources have distinct ids, sends one message: a
-- handshake response without MAC that names the requested resources alone, in order. Each of them
-- comes without its configuration and with a session token, and that token is the session key that
-- the context now holds for it.
pub process_message-handshake :
    (env : Env) (c : NodeContext) (v sig : String) (t : ℕ) (types : Option (List ResourceType))
    (size port : Option ℕ) (from : Option String)
    → DistinctIds (requested types c.my_info.resources)
    → (shared : List SharedResource) × ((process_message env c
          (handshake v t sig types size port from)).outgoing
        ≡ c.outgoing ++ message (record { mac = none; message = handshake_response shared }) ∷ [])
      × (map (λ r. r.id) shared ≡ map (λ r. r.id) (requested types c.my_info.resources))
      × All
          (Announces (process_message env c (handshake v t sig types size port from)).session_keys)
          shared
unfolding process_message access_allowed is_response resource_id send_msg
process_message-handshake env c v sig t types size port from distinct =
    let resources = requested types c.my_info.resources in
    (
      (issue_tokens env.token c.drawn c.session_keys resources).2,
      refl,
      ids-issue_tokens env.token resources c.drawn c.session_keys,
      issue_tokens-Announces env.token resources c.drawn c.session_keys distinct,
    )

-- A handshake leaves the session key of every id that it does not announce.
pub process_message-handshake_other :
    (env : Env) (c : NodeContext) (v sig : String) (t : ℕ) (types : Option (List ResourceType))
    (size port : Option ℕ) (from : Option String) (id : String)
    → Fresh id (requested types c.my_info.resources)
    → get (process_message env c (handshake v t sig types size port from)).session_keys id
      ≡ get c.session_keys id
unfolding process_message access_allowed is_response resource_id send_msg
process_message-handshake_other env c v sig t types size port from id fresh =
    get-issue_tokens env.token (requested types c.my_info.resources) c.drawn c.session_keys id fresh

-- Every resource that a handshake response names is of a requested type, where the peer asked for
-- types.
requested-has_type :
    (types : List ResourceType) (resources : List SharedResource)
    → All (λ r. has_type types r.resource_type ≡ true) (requested (some types) resources)
requested-has_type types [] = tt
requested-has_type types (r ∷ resources) = elim (Bool-cases (has_type types r.resource_type)) [
  | inl fits ↦ rw fits (fits, requested-has_type types resources)
  | inr other ↦ rw other (requested-has_type types resources)
]
