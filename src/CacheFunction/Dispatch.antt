-- ===== src/CacheFunction/Dispatch.antt =====
-- packages/core/src/adapters/cache-handler.ts: the routes of the cache function.
use adapters_api.Common.{ℕ, String, ◌&&◌, Option, none, some, List, [], str_eq, if◌then◌else◌}
use adapters_api.CacheService.{Script}
use adapters_api.CacheService.Decode.{strip}
use adapters_api.CacheFunction.{Kind, cache, fetch, Backend, Reply, error_reply, done}
use adapters_api.CacheFunction.Handler.{Payload, is_empty, handle_get, set_value, handle_delete}
use adapters_api.CacheFunction.Revalidate.{revalidate_tags}

-- What the handler reads from the event: the body is empty if there is none.
pub record Event : Type 0 where
  pub method : String
  pub raw_path : String
  pub query_type : Option String
  pub query_tags : Option String
  pub body : String

-- `cacheType`
unfoldable pub cache_type : Option String → Kind
cache_type none = cache
cache_type (some t) =
    if str_eq t "fetch" then fetch else if str_eq t "composable" then Kind.composable else cache

module _ (js : Script) (be : Backend js) (payload : Payload js) where
  open be use {State}

  -- `query?.tags ? query.tags.split(",") : []`
  unfoldable pub additional_tags : Option String → List String
  additional_tags none = []
  additional_tags (some text) = if str_eq text "" then [] else be.split_commas text

  -- `handleSet`; `none` where it throws
  unfoldable pub handle_set : String → Kind → List String → String → State → Option (State × Reply)
  handle_set key kind additional body s =
      if str_eq body ""
      then some (s, error_reply 400 "Missing 'value' in request body")
      else elim (js.parse body) [
        | none ↦ some (s, error_reply 400 "Invalid JSON body")
        | some j ↦ if payload.is_null j then none else elim (payload.value j) [
          | none ↦ some (s, error_reply 400 "Missing 'value' in request body")
          | some v ↦ some (set_value js be key kind additional v s)
        ]
      ]

  -- `handleRevalidateTags`
  unfoldable pub handle_revalidate_tags : String → State → State × Reply
  handle_revalidate_tags body s =
      if str_eq body "" then (s, error_reply 400 "Missing request body") else elim (js.parse body) [
        | none ↦ (s, error_reply 400 "Invalid JSON body")
        | some j ↦
            if payload.is_null j
            then (s, error_reply 400 "Invalid JSON body")
            else elim (payload.tags j) [
              | none ↦ (s, error_reply 400 "Missing 'tags' array in request body")
              | some tags ↦
                  if is_empty tags
                  then (s, error_reply 400 "Missing 'tags' array in request body")
                  else let (left, succeeds) = revalidate_tags js be tags s in
                    (left, if succeeds then done else error_reply 500 "Failed to revalidate tags")
            ]
      ]

  -- the `switch` over the method of an operation on a key
  unfoldable pub operate : ℕ → Event → String → State → State × Reply
  operate now e key s =
      let kind = cache_type e.query_type in
      let additional = additional_tags e.query_tags in
      if str_eq e.method "GET"
      then (s, handle_get js be now key kind additional s)
      else if str_eq e.method "PUT"
      then elim (handle_set key kind additional e.body s) [
        | none ↦ (s, error_reply 500 "Internal server error")
        | some result ↦ result
      ]
      else if str_eq e.method "DELETE"
      then handle_delete js be key s
      else (s, error_reply 405 "Method Not Allowed")

  -- `handler`, given `decodeURIComponent`, `none` where it throws
  unfoldable pub handler : (String → Option String) → ℕ → Event → State → State × Reply
  handler decode now e s =
      if str_eq e.method "POST" && str_eq e.raw_path "/cache/revalidate-tags"
      then handle_revalidate_tags e.body s
      else elim (strip "/cache/" e.raw_path) [
        | none ↦ (s, error_reply 404 "Not Found")
        | some rest ↦ elim (decode rest) [
          | none ↦ (s, error_reply 500 "Internal server error")
          | some key ↦
              if str_eq key ""
              then (s, error_reply 400 "Missing cache key")
              else operate now e key s
        ]
      ]
