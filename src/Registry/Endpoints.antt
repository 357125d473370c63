-- ===== src/Registry/Endpoints.antt =====
-- nodeinnet-p2p/src/lib.rs: the bases of the API and of the WebSocket, which a host may set and the
-- environment may give.
use p2p_common.Common.{
  ◌≡◌, refl, String, Bool, true, false, Option, none, some, List, [], ◌∷◌, if◌then◌else◌,
  Bool-cases, inl, inr,
}
use p2p_common.Common.Trim.{is_empty, trim_start, trim_end, trim}
use p2p_common.Common.Trim.Laws.{trim_idem}

pub record Endpoint : Type 0 where
  pub api : Option String
  pub ws : Option String

abbrev pub unset : Endpoint
unset = record { api = none; ws = none }

unfoldable pub non_empty : String → Option String
non_empty s = if is_empty (trim s) then none else some (trim s)

-- `API_BASE` of a debug build and of a release build
abbrev pub built_in : Bool → String
built_in true = "http://127.0.0.1:8030"
built_in false = "https://node.in.net"

pub data Setting : Type 0 where
  api_set ws_set : (url : String) → Setting

unfoldable pub set_base : Endpoint → Setting → Endpoint
unfolding non_empty
set_base e (api_set url) = record e { api = non_empty url }
set_base e (ws_set url) = record e { ws = non_empty url }

unfoldable pub set_bases : Endpoint → List Setting → Endpoint
unfolding set_base
set_bases e [] = e
set_bases e (s ∷ settings) = set_bases (set_base e s) settings

abbrev pub from_env : Option String → Option String
from_env none = none
from_env (some v) = non_empty v

abbrev pub or_text : Option String → String → String
or_text none s = s
or_text (some t) s = t

-- `variable` is `NODEINNET_API`, and `NODEINNET_WS`.
unfoldable pub api_base : Endpoint → (variable : Option String) (debug : Bool) → String
unfolding non_empty
api_base e variable debug = or_text e.api (or_text (from_env variable) (built_in debug))

unfoldable pub ws_base : Endpoint → (variable : Option String) (advertised : String) → String
unfolding non_empty
ws_base e variable advertised = or_text e.ws (or_text (from_env variable) advertised)

-- A text with no space around it, and not the empty one
abbrev pub IsTrimmed : String → Type 0
IsTrimmed s = (trim s ≡ s) × (is_empty s ≡ false)

abbrev pub IfTrimmed : Option String → Type 0
IfTrimmed none = Unit
IfTrimmed (some s) = IsTrimmed s

non_empty-IfTrimmed : (s : String) → IfTrimmed (non_empty s)
unfolding non_empty
non_empty-IfTrimmed s = elim (Bool-cases (is_empty (trim s))) [
  | inl blank ↦ rw blank tt
  | inr some_left ↦ rw some_left (trim_idem s, some_left)
]

from_env-IfTrimmed : (variable : Option String) → IfTrimmed (from_env variable)
from_env-IfTrimmed none = tt
from_env-IfTrimmed (some v) = non_empty-IfTrimmed v

or_text-IsTrimmed :
    (o : Option String) (s : String) → IfTrimmed o → IsTrimmed s → IsTrimmed (or_text o s)
or_text-IsTrimmed none s o_is s_is = s_is
or_text-IsTrimmed (some t) s o_is s_is = o_is

built_in-IsTrimmed : (debug : Bool) → IsTrimmed (built_in debug)
unfolding trim trim_start trim_end
built_in-IsTrimmed true = (refl, refl)
built_in-IsTrimmed false = (refl, refl)

set_bases-IfTrimmed :
    (settings : List Setting) (e : Endpoint)
    → IfTrimmed e.api
    → IfTrimmed e.ws
    → IfTrimmed (set_bases e settings).api × IfTrimmed (set_bases e settings).ws
unfolding set_bases
set_bases-IfTrimmed [] e a w = (a, w)
set_bases-IfTrimmed (api_set url ∷ settings) e a w =
    set_bases-IfTrimmed settings (set_base e (api_set url)) (non_empty-IfTrimmed url) w
set_bases-IfTrimmed (ws_set url ∷ settings) e a w =
    set_bases-IfTrimmed settings (set_base e (ws_set url)) a (non_empty-IfTrimmed url)

-- Whatever a host has set and the environment holds, the base of the API is a text with no space around it,
-- and never the empty one; the base of the WebSocket is such a text if the advertised one is.
pub bases-IsTrimmed :
    (settings : List Setting) (api_variable ws_variable : Option String) (debug : Bool)
    (advertised : String)
    → IsTrimmed advertised
    → let e = set_bases unset settings in
      IsTrimmed (api_base e api_variable debug) × IsTrimmed (ws_base e ws_variable advertised)
unfolding api_base ws_base
bases-IsTrimmed settings api_variable ws_variable debug advertised fine =
    let e = set_bases unset settings in
    let (a, w) = set_bases-IfTrimmed settings unset tt tt in
    (
      or_text-IsTrimmed e.api _ a (
          or_text-IsTrimmed (from_env api_variable) _ (from_env-IfTrimmed api_variable)
            (built_in-IsTrimmed debug)),
      or_text-IsTrimmed e.ws _ w (
          or_text-IsTrimmed (from_env ws_variable) advertised (from_env-IfTrimmed ws_variable)
            fine),
    )
