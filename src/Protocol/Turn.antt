-- ===== src/Protocol/Turn.antt =====
-- nodeinnet-api/src/rtc.rs: the regions of relays, and the credentials that a server gives for them.
use Prim.Native.String.{◌++◌ as text_append}
use p2p_common.Common.{
  ℕ, ◌≡◌, refl, String, Bool, true, false, Option, none, some, List, [], ◌∷◌, ◌++◌, map, str_eq,
  if◌then◌else◌,
}
use p2p_common.Common.Bytes.{as_bytes}
use p2p_common.Common.Trim.{is_empty, trim_start, trim_end, trim, split}
use p2p_common.Network.Types.{TurnCredentials}

pub data TurnRegion : Type 0 where
  auto eu us main custom : TurnRegion

unfoldable pub region_str : TurnRegion → String
region_str auto = "auto"
region_str eu = "eu"
region_str us = "us"
region_str main = "main"
region_str custom = "custom"

unfoldable pub parse_region : String → Option TurnRegion
parse_region s =
    if str_eq s "auto"
    then some auto
    else if str_eq s "eu"
    then some eu
    else if str_eq s "us"
    then some us
    else if str_eq s "main"
    then some main
    else if str_eq s "custom"
    then some custom
    else none

abbrev pub central_relay : String
central_relay = "turn:node.in.net:3478"

abbrev pub eu_relays : List String
eu_relays = "turn:eu.node.in.net:3478" ∷ "turns:eu.node.in.net:443?transport=tcp" ∷ []

abbrev pub us_relays : List String
us_relays = []

-- `Hmac<Sha1>`, whose key may have any length by its documentation, and base64
pub record TurnCrypto : Type 0 where
  pub hmac_sha1 : (key message : List ℕ) → Option (List ℕ)
  pub encode : List ℕ → String

abbrev pub regional : TurnRegion → List String
regional eu = eu_relays
regional us = us_relays
regional _ = eu_relays ++ us_relays

abbrev pub or_all : List String → List String
or_all [] = eu_relays ++ us_relays
or_all (relay ∷ relays) = relay ∷ relays

abbrev pub is_central : TurnRegion → Bool
is_central main = true
is_central custom = true
is_central _ = false

-- `servers` is `TURN_SERVERS`, empty where it is not set.
unfoldable pub uris_for : (servers : String) → TurnRegion → List String
uris_for servers region =
    if is_empty (trim servers)
    then (if is_central region
        then central_relay ∷ []
        else central_relay ∷ or_all (regional region))
    else map trim (split 44 servers)

abbrev pub credentials :
    TurnCrypto → String → List String → Option (List ℕ) → Option TurnCredentials
credentials p username uris none = none
credentials p username uris (some mac) =
    some (record { username = username; credential = p.encode mac; uris = uris })

-- `timestamp` is the decimal text of the time in 24 hours.
unfoldable pub get_turn_credentials :
    TurnCrypto → (timestamp login secret servers : String) → TurnRegion → Option TurnCredentials
unfolding uris_for
get_turn_credentials p timestamp login secret servers region =
    let username = text_append timestamp (text_append ":" login) in
    credentials p username (uris_for servers region)
      (p.hmac_sha1 (as_bytes secret) (as_bytes username))

-- A region is read back from its text.
pub parse_region-region_str : (r : TurnRegion) → parse_region (region_str r) ≡ some r
unfolding parse_region region_str
parse_region-region_str auto = refl
parse_region-region_str eu = refl
parse_region-region_str us = refl
parse_region-region_str main = refl
parse_region-region_str custom = refl

-- Without servers of the environment, a client of any region but the two central ones is given the central
-- relay and a relay of a region, also where its own region has none.
pub uris_for-regional :
    (r : TurnRegion) → is_central r ≡ false → (uris_for "" r ≡ central_relay ∷ eu_relays)
unfolding uris_for trim trim_start trim_end
uris_for-regional auto h = refl
uris_for-regional eu h = refl
uris_for-regional us h = refl
uris_for-regional main h = cc h
uris_for-regional custom h = cc h
