-- ===== src/Registry/Laws.antt =====
-- What a look-up finds after an update of the known tables.
use p2p_common.Common.{
  ◌≡◌, refl, String, Option, none, some, List, [], ◌∷◌, str_eq, if◌then◌else◌, arith,
}
use p2p_common.Common.Dict.{Dict, get, insert, get-insert}
use p2p_common.Protocol.Types.{NodeInfo}
use p2p_common.Registry.{
  Known, insert_keys, insert_names, get_known_public_key, get_known_peer_name,
  update_known_public_keys,
}

-- The last node of the list with an id.
unfoldable pub last_with : String → List NodeInfo → Option NodeInfo
last_with id [] = none
last_with id (n ∷ nodes) = elim (last_with id nodes) [
  | some found ↦ some found
  | none ↦ if str_eq n.id id then some n else none
]

abbrev pub or_else {ℓ} : {A : Type ℓ} → Option NodeInfo → (NodeInfo → A) → Option A → Option A
or_else none f old = old
or_else (some n) f old = some (f n)

get-insert_keys :
    (nodes : List NodeInfo) (keys : Dict String) (id : String)
    → get (insert_keys keys nodes) id
      ≡ or_else (last_with id nodes) (λ n. n.public_key) (get keys id)
unfolding insert_keys last_with
get-insert_keys [] keys id = refl
get-insert_keys (n ∷ nodes) keys id = ground (
  arith,
  get-insert_keys nodes (insert keys n.id n.public_key) id,
  get-insert keys n.id id n.public_key,
)

get-insert_names :
    (nodes : List NodeInfo) (names : Dict String) (id : String)
    → get (insert_names names nodes) id ≡ or_else (last_with id nodes) (λ n. n.name) (get names id)
unfolding insert_names last_with
get-insert_names [] names id = refl
get-insert_names (n ∷ nodes) names id =
    ground
      (arith, get-insert_names nodes (insert names n.id n.name) id, get-insert names n.id id n.name)

-- After an update with any list of nodes, the key and the name known for an id are those of the
-- last node of the list with that id; for an id that is not in the list they are the old ones.
pub known-update :
    (k : Known) (nodes : List NodeInfo) (id : String)
    → (get_known_public_key (update_known_public_keys k nodes) id
        ≡ or_else (last_with id nodes) (λ n. n.public_key) (get_known_public_key k id))
      × (get_known_peer_name (update_known_public_keys k nodes) id
          ≡ or_else (last_with id nodes) (λ n. n.name) (get_known_peer_name k id))
unfolding get_known_public_key get_known_peer_name update_known_public_keys
known-update k nodes id =
    (get-insert_keys nodes k.public_keys id, get-insert_names nodes k.peer_names id)

pub known-update_one :
    (k : Known) (n : NodeInfo) (id : String)
    → get_known_public_key (update_known_public_keys k (n ∷ [])) id
      ≡ (if str_eq n.id id then some n.public_key else get_known_public_key k id)
unfolding last_with
known-update_one k n id = ground (arith, (known-update k (n ∷ []) id).0)
