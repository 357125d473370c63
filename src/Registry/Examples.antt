-- ===== src/Registry/Examples.antt =====
-- The theorems on the endpoints at a host that sets one base.
use p2p_common.Common.{refl, false, none, some, List, [], ◌∷◌}
use p2p_common.Common.Trim.{trim, trim_start, trim_end}
use p2p_common.Registry.Endpoints.{
  Setting, api_set, ws_set, unset, set_bases, api_base, ws_base, IsTrimmed, bases-IsTrimmed,
}

abbrev settings : List Setting
settings = api_set " http://host " ∷ ws_set "  " ∷ []

bases-IsTrimmed_example :
    let e = set_bases unset settings in
    IsTrimmed (api_base e none false) × IsTrimmed (ws_base e (some " ") "ws://host")
unfolding trim trim_start trim_end
bases-IsTrimmed_example = bases-IsTrimmed settings none (some " ") false "ws://host" (refl, refl)
