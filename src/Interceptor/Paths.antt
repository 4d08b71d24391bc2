-- ===== src/Interceptor/Paths.antt =====
-- packages/core/src/core/routing/cacheInterceptor.ts: the path of a request as it is looked up.
use Prim.Native.String
use Prim.Native.Char.{code}
use adapters_api.Common.{String, Bool, true, none, some, List, [], ◌∷◌, ◌==◌, str_eq, if◌then◌else◌}
use adapters_api.CacheService.Decode.{strip}
use adapters_api.Interceptor.{Env}

-- `text.includes(part)`
unfoldable pub includes_text : String → String → Bool
includes_text String.[] part = str_eq part ""
includes_text (String.◌∷◌ c text) part =
    let later = includes_text text part in
    elim (strip part (String.◌∷◌ c text)) [ none ↦ later | some rest ↦ true ]

-- `text.replace(part, "")`, the first occurrence
unfoldable pub without_first : String → String → String
without_first String.[] part = ""
without_first (String.◌∷◌ c text) part =
    let later = String.◌∷◌ c (without_first text part) in
    elim (strip part (String.◌∷◌ c text)) [ none ↦ later | some rest ↦ rest ]

-- `text.replace(/\/$/, "")`
unfoldable pub without_slash : String → String
without_slash String.[] = ""
without_slash (String.◌∷◌ c text) =
    let rest = without_slash text in
    if str_eq (String.◌∷◌ c text) "/" then "" else String.◌∷◌ c rest

-- `text.split("/")`: the first part, and the parts after it
unfoldable pub parts_of : String → String × List String
parts_of String.[] = ("", [])
parts_of (String.◌∷◌ c text) =
    let (part, parts) = parts_of text in
    if code c == 47 then ("", part ∷ parts) else (String.◌∷◌ c part, parts)

-- what follows the first part in `join("/")`
unfoldable pub joined_parts : List String → String
joined_parts [] = ""
joined_parts (part ∷ parts) = String.◌++◌ "/" (String.◌++◌ part (joined_parts parts))

module _ (env : Env) where
  unfoldable pub decode_segment : String → String
  decode_segment segment = elim (env.decode segment) [ none ↦ segment | some t ↦ env.escape t ]

  unfoldable pub decode_all : List String → List String
  decode_all [] = []
  decode_all (part ∷ parts) = decode_segment part ∷ decode_all parts

  -- `decodePathParams`
  unfoldable pub decode_path_params : String → String
  decode_path_params path =
      let (part, parts) = parts_of path in
      String.◌++◌ (decode_segment part) (joined_parts (decode_all parts))

  -- the path in `cacheInterceptor`, from `localizePath(event)` on
  unfoldable pub lookup_path : String → String
  lookup_path localized =
      let path =
        if str_eq env.base_path "" then localized else without_first localized env.base_path in
      decode_path_params (without_slash path)
