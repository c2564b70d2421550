-- ===== src/Signing/Config.antt =====
-- signature/jws/plugin.go: `mergeConfig`, and maps as association lists without a repeated key.
pub mod Laws
use notation_go.Prelude.{String, Option, none, some, List, [], ◌∷◌, str_eq, if◌then◌else◌}
use notation_go.Verification.Names.{StringMap, put}

-- `v, ok := m[k]`
unfoldable pub lookup : StringMap → String → Option String
lookup [] k = none
lookup ((j, v) ∷ m) k = if str_eq j k then some v else lookup m k

-- `for k, v := range config { c[k] = v }`, in one order of the entries.
unfoldable pub put_all : StringMap → StringMap → StringMap
put_all c [] = c
put_all c ((k, v) ∷ config) = put_all (put c k v) config

-- `mergeConfig`, for the configuration of the signer and the one of the call.
unfoldable pub merge_config : StringMap → StringMap → StringMap
unfolding put_all
merge_config plugin_config config = put_all (put_all [] plugin_config) config
