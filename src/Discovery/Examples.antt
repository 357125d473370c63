-- ===== src/Discovery/Examples.antt =====
-- The theorem on the scanner at an advert of two addresses, and tests of the port's parser.
use p2p_common.Common.{
  ◌≡◌, refl, String, true, none, some, [], ◌∷◌, str_eq, replicate, if◌then◌else◌,
}
use p2p_common.Common.Dict.{empty}
use p2p_common.Crypto.{Primitives, verify_message}
use p2p_common.Common.Result.{ok}
use p2p_common.Crypto.Toy.{toy}
use p2p_common.Registry.{no_known}
use p2p_common.Discovery.{Advert, Discovery, Scanner, parse_port, digits, handle_advert}
use p2p_common.Discovery.Laws.{Signed, Taken, handle_advert-Signed}

parsed : parse_port "8443" ≡ some 8443
unfolding parse_port digits
parsed = refl

signed : parse_port "+1" ≡ some 1
unfolding parse_port digits
signed = refl

too_large : parse_port "65536" ≡ none
unfolding parse_port digits
too_large = refl

no_digits : parse_port "+" ≡ none
unfolding parse_port digits
no_digits = refl

-- A library that accepts one signature
abbrev library : Primitives
library = record toy {
  b64_decode = λ s. ok (if str_eq s "k" then replicate 32 7 else replicate 64 0);
  verify = λ key message signature. ok tt;
}

abbrev scanner : Scanner
scanner = record {
  crypto = library;
  my_id = "b";
  has_signal_tx = true;
  connected = λ addr. str_eq addr "10.0.0.1";
  address = λ ip port. ip;
}

abbrev advert : Advert
advert = record {
  node_id = some "a";
  port = some "7";
  signature = some "s";
  public_key = some "k";
  name = none;
  os = some "linux";
  addresses = "10.0.0.1" ∷ "10.0.0.2" ∷ [];
}

abbrev nothing : Discovery
nothing = record { known = no_known; peers = empty; signals = []; dials = [] }

abbrev own_key : String
own_key = "k"

own_key_fits : Signed scanner advert "a" 7 own_key
unfolding parse_port digits verify_message replicate
own_key_fits = ("s", "7", tt, refl, refl, refl, refl, refl, refl, refl)

-- The key is known, and the one address without a tunnel is dialled.
handle_advert-Signed_example :
    Taken scanner advert "a" 7 own_key nothing (handle_advert scanner advert nothing)
handle_advert-Signed_example =
    (handle_advert-Signed scanner advert nothing).1 "a" own_key 7 own_key_fits
