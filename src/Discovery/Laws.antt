-- ===== src/Discovery/Laws.antt =====
-- Which adverts the scanner takes, and what it does with them.
use mathlib.Core.List.{append_assoc, append-nil}
use p2p_common.Common.{
  ℕ, ◌≡◌, ◌⊎◌, refl, sym, ap, ◌∙◌, String, false, not, Option, none, some, List, [], ◌∷◌, ◌++◌, map,
  keep, inl, inr, subst, str_eq, str_eq_refl, Bool-cases,
}
use p2p_common.Common.Result.{ok, Result-cases}
use p2p_common.Crypto.{verify_message}
use p2p_common.Registry.{get_known_public_key}
use p2p_common.Registry.Laws.{known-update_one}
use p2p_common.Discovery.{
  Advert, Discovery, Scanner, parse_port, advertised, node_of, try_address, try_addresses,
  store_node, check_advert, with_fields, handle_advert,
}

-- The advert is of another node, has a port and is signed with the key that it holds itself.
abbrev pub Signed : Scanner → Advert → String → ℕ → String → Type 0
Signed z a id port key =
    (sig : String) × (text : String) × (u : Unit) × (a.node_id ≡ some id)
    × (str_eq id z.my_id ≡ false)
    × (a.port ≡ some text)
    × (parse_port text ≡ some port)
    × (a.signature ≡ some sig)
    × (a.public_key ≡ some key)
    × (verify_message z.crypto sig key (advertised id port) ≡ ok u)

-- The dials of the addresses at which no tunnel of the node was seen
abbrev pub dials_of : Scanner → Advert → String → ℕ → List (String × String)
dials_of z a id port =
    map (λ addr. (addr, id))
      (keep (λ addr. not (z.connected addr)) (map (λ ip. z.address ip port) a.addresses))

try_addresses-known :
    (z : Scanner) (id : String) (port : ℕ) (ips : List String) (d : Discovery)
    → (try_addresses z id port ips d).known ≡ d.known
unfolding try_addresses
try_addresses-known z id port [] d = refl
try_addresses-known z id port (ip ∷ ips) d =
    try_addresses-known z id port ips (try_address z id (z.address ip port) d)

-- The key of the advert is known for its node, and its addresses are dialled.
abbrev pub Taken : Scanner → Advert → String → ℕ → String → Discovery → Discovery → Type 0
Taken z a id port key before after =
    (get_known_public_key after.known id ≡ some key)
    × (after.dials ≡ before.dials ++ dials_of z a id port)

try_addresses-dials_of :
    (z : Scanner) (id : String) (port : ℕ) (ips : List String) (d : Discovery)
    → (try_addresses z id port ips d).dials
      ≡ d.dials
        ++ map
            (λ addr. (addr, id))
            (keep (λ addr. not (z.connected addr)) (map (λ ip. z.address ip port) ips))
unfolding try_addresses
try_addresses-dials_of z id port [] d = sym (append-nil d.dials)
try_addresses-dials_of z id port (ip ∷ ips) d =
    let rest = try_addresses-dials_of z id port ips (try_address z id (z.address ip port) d) in
    elim (Bool-cases (z.connected (z.address ip port))) [
      | inl there ↦ rest ∙ rw there refl
      | inr missing ↦ rest ∙ rw missing (append_assoc d.dials ((z.address ip port, id) ∷ []) _)
    ]

check_advert-Signed :
    (z : Scanner) (a : Advert) (d : Discovery) (id sig key text : String) (port : Option ℕ)
    → a.node_id ≡ some id
    → str_eq id z.my_id ≡ false
    → a.port ≡ some text
    → parse_port text ≡ port
    → a.signature ≡ some sig
    → a.public_key ≡ some key
    → (check_advert z a id sig key port d ≡ d) ⊎ ((n : ℕ) × Signed z a id n key)
check_advert-Signed z a d id sig key text none ids other ports parsed sigs keys = inl refl
check_advert-Signed z a d id sig key text (some n) ids other ports parsed sigs keys =
    elim (Result-cases (verify_message z.crypto sig key (advertised id n))) [
      | inl (e, bad) ↦ inl (rw (bad, check_advert) refl)
      | inr (u, good) ↦ inr (n, (sig, text, u, ids, other, ports, parsed, sigs, keys, good))
    ]

with_fields-Signed :
    (z : Scanner) (a : Advert) (d : Discovery) (node_id port signature public_key : Option String)
    → a.node_id ≡ node_id
    → a.port ≡ port
    → a.signature ≡ signature
    → a.public_key ≡ public_key
    → let after = with_fields z a node_id port signature public_key d in
      (after ≡ d) ⊎ ((id : String) × (n : ℕ) × (key : String) × Signed z a id n key)
with_fields-Signed z a d (some id) (some text) (some sig) (some key) ids ports sigs keys =
    elim (Bool-cases (str_eq id z.my_id)) [
      | inl own ↦ inl (rw own refl)
      | inr other ↦
          elim (check_advert-Signed z a d id sig key text _ ids other ports refl sigs keys) [
            | inl same ↦ inl (rw other same)
            | inr (n, signed) ↦ inr (id, n, key, signed)
          ]
    ]
with_fields-Signed z a d node_id port signature public_key ids ports sigs keys = inl refl

taken_path :
    (z : Scanner) (a : Advert) (d : Discovery) (id key sig text : String) (n : ℕ) {u : Unit}
    → a.node_id ≡ some id
    → str_eq id z.my_id ≡ false
    → a.port ≡ some text
    → parse_port text ≡ some n
    → a.signature ≡ some sig
    → a.public_key ≡ some key
    → verify_message z.crypto sig key (advertised id n) ≡ ok u
    → handle_advert z a d ≡ try_addresses z id n a.addresses (store_node z (node_of a id key) d)
unfolding handle_advert
taken_path z a d id key sig text n ids other ports parsed sigs keys good =
    rw (ids, ports, sigs, keys, with_fields, other, parsed, check_advert, good) refl

Signed-Taken :
    (z : Scanner) (a : Advert) (d : Discovery) (id key : String) (n : ℕ)
    → Signed z a id n key
    → Taken z a id n key d (handle_advert z a d)
unfolding handle_advert
Signed-Taken z a d id key n (sig, text, u, ids, other, ports, parsed, sigs, keys, good) =
    let stored = store_node z (node_of a id key) d in
    let is_key =
      ap (λ k. get_known_public_key k id) (try_addresses-known z id n a.addresses stored)
      ∙ known-update_one d.known (node_of a id key) id
      ∙ rw (str_eq_refl id) refl in
    subst (Taken z a id n key d)
      (sym (taken_path z a d id key sig text n ids other ports parsed sigs keys good))
      (is_key, try_addresses-dials_of z id n a.addresses stored)

-- An advert leaves everything as it was, unless it is of another node and signed with the key that it
-- holds itself. And one that is has its effect: that key is the one known for its node from now on, and
-- each of its addresses at which no tunnel of the node was seen is dialled, in order and nothing else.
pub handle_advert-Signed :
    (z : Scanner) (a : Advert) (d : Discovery)
    → ((handle_advert z a d ≡ d) ⊎ ((id : String) × (n : ℕ) × (key : String) × Signed z a id n key))
      × ((id key : String) (n : ℕ)
          → Signed z a id n key
          → Taken z a id n key d (handle_advert z a d))
unfolding handle_advert
handle_advert-Signed z a d = (
  with_fields-Signed z a d a.node_id a.port a.signature a.public_key refl refl refl refl,
  Signed-Taken z a d,
)
