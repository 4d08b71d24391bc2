-- ===== src/CacheService/Decode.antt =====
-- packages/core/src/utils/cache-get.ts: `parseCacheGetResponse` and the functions that it calls.
use Prim.Native.Char.{code}
use adapters_api.Common.{
  ℕ, String, Bool, true, false, Option, none, some, [], ◌∷◌, ◌==◌, str_eq, if◌then◌else◌,
}
use adapters_api.Common.Assoc.{lookup, insert}
use adapters_api.CacheService.{
  Script, one, many, HeaderMap, Revalidate, never, every, Meta, Content, route, page, app, redirect,
  Value, file, fetched, composable, Entry, prefix,
}

-- `getHeaderValue`
unfoldable pub get_header_value : HeaderMap → String → Option String
get_header_value headers name = elim (lookup name headers) [
  | none ↦ none
  | some (one v) ↦ some v
  | some (many []) ↦ none
  | some (many (v ∷ vs)) ↦ some v
]

-- `key.startsWith(prefix)` with `key.slice(prefix.length)`
unfoldable pub strip : String → String → Option String
strip String.[] key = some key
strip (String.◌∷◌ c p) String.[] = none
strip (String.◌∷◌ c p) (String.◌∷◌ d key) =
    let rest = strip p key in if code c == code d then rest else none

-- `collectPrefixedHeaders`
unfoldable pub collect_from : HeaderMap → HeaderMap → HeaderMap
collect_from result [] = result
collect_from result ((key, value) ∷ headers) = elim (strip prefix key) [
  | none ↦ collect_from result headers
  | some name ↦ collect_from (insert name value result) headers
]

unfoldable pub collect_prefixed_headers : HeaderMap → HeaderMap
collect_prefixed_headers headers = collect_from [] headers

-- the result of parsing: an entry, `null`, or an exception of `JSON.parse`
pub data Parsed {ℓ} (A : Type ℓ) : Type ℓ where
  entry : A → Parsed A
  missing thrown : Parsed A

-- A text that is an empty string or undefined is falsy.
abbrev pub is_falsy : Option String → Bool
is_falsy none = true
is_falsy (some String.[]) = true
is_falsy (some _) = false

abbrev pub is_value : String → Option String → Bool
is_value wanted none = false
is_value wanted (some v) = str_eq v wanted

module _ (js : Script) where
  open js use {Json}

  -- `getHeaderNumber`
  unfoldable pub get_header_number : HeaderMap → String → Option ℕ
  get_header_number headers name = elim (get_header_value headers name) [
    | none ↦ none
    | some v ↦ js.to_number v
  ]

  -- `getHeaderRevalidate`
  unfoldable pub get_header_revalidate : HeaderMap → String → Option Revalidate
  get_header_revalidate headers name =
      if is_value "false" (get_header_value headers name)
      then some never
      else elim (get_header_number headers name) [ none ↦ none | some n ↦ some (every n) ]

  -- `text ? JSON.parse(text) : undefined`; `none` where it throws
  unfoldable pub parse_optional : Option String → Option (Option Json)
  parse_optional none = some none
  parse_optional (some text) =
      if is_falsy (some text)
      then some none
      else elim (js.parse text) [ none ↦ none | some j ↦ some (some j) ]

  -- `tagsStr ? JSON.parse(tagsStr) : []`; the empty array is given
  unfoldable pub or_array : Json → Option Json → Json
  or_array empty none = empty
  or_array empty (some j) = j

  -- the object `base`, and a value
  abbrev pub with_base : HeaderMap → Value js → Parsed (Entry js)
  with_base headers value = entry (record {
    value = value;
    last_modified = get_header_number headers "x-opennext-cache-last-modified";
    should_bypass_tag_cache =
        is_value "true" (get_header_value headers "x-opennext-cache-should-bypass");
  })

  -- `reconstructComposable`, given the empty array
  unfoldable pub reconstruct_composable : Json → HeaderMap → String → Parsed (Entry js)
  reconstruct_composable empty headers body =
      elim (parse_optional (get_header_value headers "x-opennext-cache-composable-tags")) [
        | none ↦ thrown
        | some tags ↦ elim (get_header_number headers "x-opennext-cache-composable-stale") [
          | none ↦ missing
          | some stale ↦ elim (get_header_number headers "x-opennext-cache-composable-expire") [
            | none ↦ missing
            | some expire ↦
                elim (get_header_number headers "x-opennext-cache-composable-timestamp") [
                  | none ↦ missing
                  | some timestamp ↦
                      elim (get_header_number headers "x-opennext-cache-composable-revalidate") [
                        | none ↦ missing
                        | some revalidate ↦ with_base headers (
                            composable body (or_array empty tags) stale expire timestamp revalidate)
                      ]
                ]
          ]
        ]
      ]

  abbrev pub text_or_empty : Option String → String
  text_or_empty none = ""
  text_or_empty (some t) = t

  -- `reconstructFetch`
  unfoldable pub reconstruct_fetch : HeaderMap → String → Parsed (Entry js)
  reconstruct_fetch headers body =
      if is_value "FETCH" (get_header_value headers "x-opennext-cache-fetch-kind")
      then elim (parse_optional (get_header_value headers "x-opennext-cache-fetch-data-tags")) [
        | none ↦ thrown
        | some data_tags ↦
            elim (parse_optional (get_header_value headers "x-opennext-cache-fetch-tags")) [
              | none ↦ thrown
              | some fetch_tags ↦ with_base headers (
                  fetched
                    (record {
                      headers = collect_prefixed_headers headers;
                      body = body;
                      url =
                          text_or_empty
                            (get_header_value headers "x-opennext-cache-fetch-data-url");
                      status = get_header_number headers "x-opennext-cache-fetch-data-status";
                      tags = data_tags;
                    })
                    fetch_tags (get_header_revalidate headers "x-opennext-cache-revalidate"))
            ]
      ]
      else missing

  -- `hasMetaHeaders ? metaHeaders : undefined`
  abbrev pub present : HeaderMap → Option HeaderMap
  present [] = none
  present (h ∷ hs) = some (h ∷ hs)

  -- `hasMeta ? meta : undefined`
  abbrev pub make_meta : Option ℕ → Option String → Option HeaderMap → Option Meta
  make_meta none none none = none
  make_meta status postponed headers =
      some (record { status = status; postponed = postponed; headers = headers })

  -- `parsed.segmentData ? { segmentData } : {}`
  abbrev pub when_truthy : Option Json → Option Json
  when_truthy none = none
  when_truthy (some j) = if js.is_truthy j then some j else none

  -- the `switch` of `reconstructCachedFile`: the content, or how it ends
  unfoldable pub content_of : Option String → String → Parsed (Content js)
  content_of none body = missing
  content_of (some kind) body =
      if str_eq kind "route"
      then entry (route body)
      else if str_eq kind "page"
      then elim (js.parse body) [
        | none ↦ thrown
        | some j ↦ entry (page (js.member j "json") (js.member j "html"))
      ]
      else if str_eq kind "app"
      then elim (js.parse body) [
        | none ↦ thrown
        | some j ↦
            entry (
              app (js.member j "html") (js.member j "rsc")
                (when_truthy (js.member j "segmentData")))
      ]
      else if str_eq kind "redirect"
      then elim (js.parse body) [ none ↦ thrown | some j ↦ entry (redirect (some j)) ]
      else missing

  -- `reconstructCachedFile`
  unfoldable pub reconstruct_cached_file : HeaderMap → String → Parsed (Entry js)
  reconstruct_cached_file headers body =
      elim (content_of (get_header_value headers "x-opennext-cache-sub-type") body) [
        | missing ↦ missing
        | thrown ↦ thrown
        | entry content ↦ with_base headers (
            file content
              (make_meta (get_header_number headers "x-opennext-cache-meta-status")
                (get_header_value headers "x-opennext-cache-meta-postponed")
                (present (collect_prefixed_headers headers)))
              (get_header_revalidate headers "x-opennext-cache-revalidate"))
      ]

  -- `parseCacheGetResponse`
  unfoldable pub parse_cache_get_response : Json → HeaderMap → String → Parsed (Entry js)
  parse_cache_get_response empty headers body =
      let kind = get_header_value headers "x-opennext-cache-type" in
      if is_value "true" (get_header_value headers "x-opennext-cache-found")
      then if is_value "composable" kind
        then reconstruct_composable empty headers body
        else if is_value "fetch" kind
        then reconstruct_fetch headers body
        else reconstruct_cached_file headers body
      else missing
