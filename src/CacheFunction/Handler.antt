-- ===== src/CacheFunction/Handler.antt =====
-- packages/core/src/adapters/cache-handler.ts: the handler of a request and its four operations.
use adapters_api.Common.{
  ℕ, String, Bool, true, false, not, ◌||◌, Option, none, some, List, [], ◌∷◌, ◌++◌, map, filter,
  any, ◌>>=◌, str_eq, if◌then◌else◌,
}
use adapters_api.CacheService.{Script, Value, file, fetched, composable}
use adapters_api.CacheService.Encode.{build_cache_get_response}
use adapters_api.CacheService.Decode.{strip}
use adapters_api.CacheFunction.{
  Kind, cache, fetch, next_mode, original, tag_of_path, Lookup, Backend, Reply, error_reply,
  not_found, found, done,
}
use adapters_api.CacheFunction.Tags.{get_tags_from_value, write_tags}

abbrev pub soft_tag_prefix : String
soft_tag_prefix = "_N_T_/"

-- `tag.startsWith(SOFT_TAG_PREFIX)`
unfoldable pub is_soft : String → Bool
is_soft t = elim (strip soft_tag_prefix t) [ none ↦ false | some rest ↦ true ]

-- `text.endsWith(end)`
unfoldable pub ends_with : String → String → Bool
ends_with String.[] end = str_eq String.[] end
ends_with (String.◌∷◌ c text) end = str_eq (String.◌∷◌ c text) end || ends_with text end

-- the soft tag of a path in `handleGet`, without the prefix
unfoldable pub soft_path : List String → Option String
soft_path [] = none
soft_path (t ∷ tags) =
    let later = soft_path tags in
    elim (strip soft_tag_prefix t) [
      | none ↦ later
      | some rest ↦ if ends_with t "layout" || ends_with t "page" then later else some rest
    ]

abbrev pub is_empty {ℓ} : {A : Type ℓ} → List A → Bool
is_empty [] = true
is_empty (_ ∷ _) = false

-- what the handler reads from a payload: whether it is `null`, `payload.value as CacheValue` (`none` if
-- it is falsy), and the texts of `parsed.tags` (`none` unless it is an array of texts)
pub record Payload (js : Script) : Type 0 where
  pub is_null : js.Json → Bool
  pub value : js.Json → Option (Value js)
  pub tags : js.Json → Option (List String)

module _ (js : Script) (be : Backend js) where
  open be use {State}

  abbrev pub texts_or_none : Option js.Json → List String
  texts_or_none none = []
  texts_or_none (some j) = be.texts j

  -- the member `tags` of a value, and that of its `data`
  abbrev pub value_tags : Value js → Option js.Json
  value_tags (file content meta r) = none
  value_tags (fetched d tags r) = tags
  value_tags (composable text tags stale expire timestamp revalidate) = some tags

  abbrev pub data_tags : Value js → Option js.Json
  data_tags (fetched d tags r) = d.tags
  data_tags _ = none

  -- the tags of a hit in `handleGet`, and the value without their header
  unfoldable pub tags_of_hit : Kind → List String → Value js → List String × Value js
  tags_of_hit cache additional v =
      let (tags, kept) = get_tags_from_value js be v in (additional ++ tags, kept)
  tags_of_hit fetch additional v =
      (additional ++ texts_or_none (value_tags v) ++ texts_or_none (data_tags v), v)
  tags_of_hit Kind.composable additional v = (additional ++ texts_or_none (value_tags v), v)

  abbrev pub time_or : ℕ → Option ℕ → ℕ
  time_or now none = now
  time_or now (some t) = t

  -- `checkTagRevalidation`
  unfoldable pub check_tag_revalidation : ℕ → String → List String → Option ℕ → State → Option Bool
  check_tag_revalidation now key tags last_modified s =
      if be.disable_tag_cache then some false else elim be.mode [
        | next_mode ↦
            if is_empty tags
            then some false
            else be.has_been_revalidated tags (time_or now last_modified) s
        | original ↦ do
          time ← be.get_last_modified key (time_or now last_modified) s
          some (elim time [ none ↦ true | some t ↦ false ])
      ]

  -- `hasBeenRevalidated` of utils/cache.ts, which the servers call; `is_page` is `cacheEntry.type === "page"`
  unfoldable pub has_been_revalidated :
      ℕ → String → List String → Lookup js → (is_page : Bool) → State → Option Bool
  has_been_revalidated now key tags l is_page s =
      let last_modified = time_or now l.last_modified in
      if be.disable_tag_cache then some false else elim l.value [
        | none ↦ some true
        | some v ↦ if is_page then some false else elim be.mode [
          | next_mode ↦
              if is_empty tags then some false else be.has_been_revalidated tags last_modified s
          | original ↦ do
            time ← be.get_last_modified key last_modified s
            some (elim time [ none ↦ true | some t ↦ false ])
        ]
      ]

  -- the second check of `handleGet`, for a fetch with the soft tag of a path
  unfoldable pub check_path : ℕ → Kind → List String → Option ℕ → State → Bool → Option Bool
  check_path now fetch additional last_modified s revalidated = elim be.mode [
    | next_mode ↦ some revalidated
    | original ↦ elim (soft_path additional) [
      | none ↦ some revalidated
      | some path ↦
          if revalidated || any (λ t. not (is_soft t)) additional
          then some revalidated
          else check_tag_revalidation now path [] last_modified s
    ]
  ]
  check_path now _ additional last_modified s revalidated = some revalidated

  -- `handleGet` from a hit on; `none` where a call throws
  unfoldable pub serve_hit :
      ℕ → String → Kind → List String → Lookup js → Value js → State → Option Reply
  serve_hit now key kind additional l v s =
      let (tags, kept) = tags_of_hit kind additional v in
      let reply = found (
        build_cache_get_response js (record {
          value = kept;
          last_modified = l.last_modified;
          should_bypass_tag_cache = l.should_bypass_tag_cache;
        })) in
      if l.should_bypass_tag_cache then some reply else do
        first ← check_tag_revalidation now key tags l.last_modified s
        revalidated ← check_path now kind additional l.last_modified s first
        some (if revalidated then not_found true else reply)

  unfoldable pub or_error : ℕ → String → Option Reply → Reply
  or_error status message none = error_reply status message
  or_error status message (some r) = r

  -- `handleGet`
  unfoldable pub handle_get : ℕ → String → Kind → List String → State → Reply
  handle_get now key kind additional s = or_error 500 "Failed to get cache entry" (do
    result ← be.get key kind s
    elim result [
      | none ↦ some (not_found false)
      | some l ↦ elim l.value [
        | none ↦ some (not_found false)
        | some v ↦ serve_hit now key kind additional l v s
      ]
    ])

  -- `fetchValue.tags ?? data?.tags ?? []`
  abbrev pub first_tags : Option js.Json → Option js.Json → List String
  first_tags none other = texts_or_none other
  first_tags (some j) other = be.texts j

  -- the tags that `handleSet` derives
  unfoldable pub derived_tags : Kind → List String → Value js → List String
  derived_tags cache additional v = additional ++ (get_tags_from_value js be v).0
  derived_tags fetch additional v = additional ++ first_tags (value_tags v) (data_tags v)
  derived_tags Kind.composable additional v = additional ++ texts_or_none (value_tags v)

  -- the tags of a stored value; `none` where a call throws
  unfoldable pub store_tags : String → Kind → List String → Value js → State → Option State
  store_tags key kind additional v s =
      let tags = derived_tags kind additional v in
      elim be.mode [
        | next_mode ↦ some s
        | original ↦ if be.disable_tag_cache || is_empty tags then some s else do
          stored ← be.get_by_path key s
          let new = filter (λ t. not (any (str_eq t) stored)) tags
          if is_empty new then some s else do
            c ←
                write_tags js be (map (λ t. tag_of_path key t (some 1)) new)
                  (record { state = s; written_tags = [] })
            some c.state
      ]

  -- `handleSet` from a value on
  unfoldable pub set_value : String → Kind → List String → Value js → State → State × Reply
  set_value key kind additional v s = elim (be.set key v kind s) [
    | none ↦ (s, error_reply 500 "Failed to set cache entry")
    | some stored ↦ elim (store_tags key kind additional v stored) [
      | none ↦ (stored, error_reply 500 "Failed to set cache entry")
      | some tagged ↦ (tagged, done)
    ]
  ]

  -- `handleDelete`
  unfoldable pub handle_delete : String → State → State × Reply
  handle_delete key s = elim (be.delete key s) [
    | none ↦ (s, error_reply 500 "Failed to delete cache entry")
    | some left ↦ (left, done)
  ]
