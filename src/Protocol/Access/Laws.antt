-- ===== src/Protocol/Access/Laws.antt =====
-- How the resource id of a message and the types that it may address fit together.
use p2p_common.Common.{String, ◌≡◌, ◌↔◌, refl, Option, none, some, []}
use p2p_common.Protocol.Message.{P2pMessage, ping}
use p2p_common.Protocol.Access.{allowed_resource_types, resource_id, set_resource_id}

abbrev readdressed : Option String → String → Option String
readdressed none new_id = none
readdressed (some old) new_id = some new_id

-- For every message and every new id: setting the id gives a message with that id where the message
-- had one, and one without an id where it had none; the allowed resource types stay; a second
-- setting wins over the first.
pub set_resource_id_lem :
    (m : P2pMessage) (a b : String)
    → (resource_id (set_resource_id m a) ≡ readdressed (resource_id m) a)
      × (allowed_resource_types (set_resource_id m a) ≡ allowed_resource_types m)
      × (set_resource_id (set_resource_id m a) b ≡ set_resource_id m b)
unfolding resource_id set_resource_id allowed_resource_types
set_resource_id_lem (ping n) a b = (refl, refl, refl)
set_resource_id_lem _ a b = (refl, refl, refl)

-- A message addresses no resource exactly when its list of allowed types is empty, so every message
-- that names a resource is restricted to some types.
pub allowed-empty_iff : (m : P2pMessage) → (allowed_resource_types m ≡ []) ↔ (resource_id m ≡ none)
unfolding resource_id allowed_resource_types
allowed-empty_iff (ping n) = ((λ e. refl), (λ e. refl))
allowed-empty_iff _ = ((λ e. cc), (λ e. cc))
