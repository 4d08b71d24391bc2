-- ===== src/CacheService/Encode.antt =====
-- packages/core/src/adapters/cache-handler.ts: `buildCacheGetResponse` and the builders that it calls.
use Prim.Native.String
use adapters_api.Common.{ℕ, String, Bool, true, false, Option, none, some, List, [], ◌∷◌}
use adapters_api.Common.Assoc.{insert}
use adapters_api.CacheService.{
  Script, HeaderValue, one, HeaderMap, Revalidate, never, every, Meta, Content, route, page, app,
  redirect, FetchData, file, fetched, composable, Entry, Response, put_if, prefix,
}

-- the loops over `Object.entries` of headers
unfoldable pub put_prefixed : HeaderMap → HeaderMap → HeaderMap
put_prefixed [] headers = headers
put_prefixed ((name, value) ∷ entries) headers =
    put_prefixed entries (insert (String.◌++◌ prefix name) value headers)

module _ (js : Script) where
  open js use {Json}

  -- `String(n)` of a number that may be undefined
  abbrev pub number_header : Option ℕ → Option HeaderValue
  number_header none = none
  number_header (some n) = some (one (js.number_text n))

  abbrev pub text_header : Option String → Option HeaderValue
  text_header none = none
  text_header (some t) = some (one t)

  abbrev pub json_header : Option Json → Option HeaderValue
  json_header none = none
  json_header (some j) = some (one (js.stringify j))

  -- `String(revalidate)`
  abbrev pub revalidate_header : Option Revalidate → Option HeaderValue
  revalidate_header none = none
  revalidate_header (some never) = some (one "false")
  revalidate_header (some (every n)) = some (one (js.number_text n))

  abbrev pub bypass_header : Bool → Option HeaderValue
  bypass_header true = some (one "true")
  bypass_header false = none

  -- the members of an object literal that are not undefined
  unfoldable pub members : List (String × Option Json) → List (String × Json)
  members [] = []
  members ((name, none) ∷ fields) = members fields
  members ((name, some j) ∷ fields) = (name, j) ∷ members fields

  -- the headers that `buildCacheGetResponse` starts with
  unfoldable pub base_headers : Option ℕ → Bool → HeaderMap
  base_headers last_modified bypass =
      put_if "x-opennext-cache-should-bypass" (bypass_header bypass) (
        put_if "x-opennext-cache-last-modified" (number_header last_modified)
          (("x-opennext-cache-found", one "true") ∷ ("Cache-Control", one "no-store") ∷ []))

  -- `buildFetchResponse`, its headers before the loop
  unfoldable pub fetch_headers :
      FetchData js → Option Json → Option Revalidate → HeaderMap → HeaderMap
  fetch_headers d tags revalidate headers =
      put_if "x-opennext-cache-fetch-tags" (json_header tags) (
        put_if "x-opennext-cache-fetch-data-tags" (json_header d.tags) (
          put_if "x-opennext-cache-fetch-data-status" (number_header d.status) (
            put_if "x-opennext-cache-revalidate" (revalidate_header revalidate) (
              insert "x-opennext-cache-fetch-data-url" (one d.url) (
                insert "x-opennext-cache-fetch-kind" (one "FETCH")
                  (insert "x-opennext-cache-type" (one "fetch") headers))))))

  -- `buildFetchResponse`
  unfoldable pub build_fetch_response :
      FetchData js → Option Json → Option Revalidate → HeaderMap → Response
  build_fetch_response d tags revalidate headers = record {
    status = 200;
    headers =
        insert "Content-Type" (one "text/plain")
          (put_prefixed d.headers (fetch_headers d tags revalidate headers));
    body = d.body;
  }

  abbrev pub sub_type : Content js → String
  sub_type (route body) = "route"
  sub_type (page json html) = "page"
  sub_type (app html rsc segment_data) = "app"
  sub_type (redirect props) = "redirect"

  abbrev pub meta_status : Option Meta → Option ℕ
  meta_status none = none
  meta_status (some m) = m.status

  abbrev pub meta_postponed : Option Meta → Option String
  meta_postponed none = none
  meta_postponed (some m) = m.postponed

  -- the entries of `value.meta?.headers`, none if it is not there
  abbrev pub headers_or_none : Option HeaderMap → HeaderMap
  headers_or_none none = []
  headers_or_none (some headers) = headers

  abbrev pub meta_headers : Option Meta → HeaderMap
  meta_headers none = []
  meta_headers (some m) = headers_or_none m.headers

  -- `buildCachedFileResponse`, its headers before the loop
  unfoldable pub file_headers : Content js → Option Meta → Option Revalidate → HeaderMap → HeaderMap
  file_headers content meta revalidate headers =
      put_if "x-opennext-cache-meta-postponed" (text_header (meta_postponed meta)) (
        put_if "x-opennext-cache-meta-status" (number_header (meta_status meta)) (
          put_if "x-opennext-cache-revalidate" (revalidate_header revalidate) (
            insert "x-opennext-cache-sub-type" (one (sub_type content))
              (insert "x-opennext-cache-type" (one "cache") headers))))

  -- the object that the text of a cached file is made of
  abbrev pub file_fields : Content js → List (String × Option Json)
  file_fields (route body) = []
  file_fields (page json html) = ("json", json) ∷ ("html", html) ∷ []
  file_fields (app html rsc segment_data) =
      ("html", html) ∷ ("rsc", rsc) ∷ ("segmentData", segment_data) ∷ []
  file_fields (redirect props) = []

  -- `value.props ?? {}`
  abbrev pub or_empty_object : Option Json → Json
  or_empty_object none = js.object []
  or_empty_object (some j) = j

  unfoldable pub file_body : Content js → String
  file_body (route body) = body
  file_body (redirect props) = js.stringify (or_empty_object props)
  file_body content = js.stringify (js.object (members (file_fields content)))

  abbrev pub file_type : Content js → String
  file_type (route body) = "text/plain"
  file_type _ = "application/json"

  -- `buildCachedFileResponse`
  unfoldable pub build_cached_file_response :
      Content js → Option Meta → Option Revalidate → HeaderMap → Response
  build_cached_file_response content meta revalidate headers = record {
    status = 200;
    headers =
        insert "Content-Type" (one (file_type content))
          (put_prefixed (meta_headers meta) (file_headers content meta revalidate headers));
    body = file_body content;
  }

  -- `buildComposableResponse`
  unfoldable pub composable_headers : Json → ℕ → ℕ → ℕ → ℕ → HeaderMap → HeaderMap
  composable_headers tags stale expire timestamp revalidate headers =
      insert "x-opennext-cache-composable-tags" (one (js.stringify tags)) (
        insert "x-opennext-cache-composable-revalidate" (one (js.number_text revalidate)) (
          insert "x-opennext-cache-composable-timestamp" (one (js.number_text timestamp)) (
            insert "x-opennext-cache-composable-expire" (one (js.number_text expire)) (
              insert "x-opennext-cache-composable-stale" (one (js.number_text stale))
                (insert "x-opennext-cache-type" (one "composable") headers)))))

  -- `buildCacheGetResponse`
  unfoldable pub build_cache_get_response : Entry js → Response
  build_cache_get_response e =
      let headers = base_headers e.last_modified e.should_bypass_tag_cache in
      elim e.value [
        | fetched d tags revalidate ↦ build_fetch_response d tags revalidate headers
        | file content meta revalidate ↦ build_cached_file_response content meta revalidate headers
        | composable text tags stale expire timestamp revalidate ↦ record {
          status = 200;
          headers =
              insert "Content-Type" (one "text/plain")
                (composable_headers tags stale expire timestamp revalidate headers);
          body = text;
        }
      ]
