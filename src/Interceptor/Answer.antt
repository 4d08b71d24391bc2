-- ===== src/Interceptor/Answer.antt =====
-- packages/core/src/core/routing/cacheInterceptor.ts: the answers for the types of cached values.
use Prim.Native.String
use adapters_api.Common.{
  ℕ, String, Bool, true, false, Option, none, some, List, [], ◌∷◌, str_eq, if◌then◌else◌,
}
use adapters_api.Common.Assoc.{lookup, insert, spread}
use adapters_api.Message.{QueueMessage}
use adapters_api.CacheService.{one, HeaderMap, Meta}
use adapters_api.CacheService.Decode.{get_header_value, is_falsy}
use adapters_api.Interceptor.{
  Content, route, page, app, redirect, other, Cached, Env, Event, Result, Outcome, passed_on,
  rejected, answered, resumed,
}
use adapters_api.Interceptor.Control.{compute_cache_control}

abbrev pub vary_header : String
vary_header =
    "RSC, Next-Router-State-Tree, Next-Router-Prefetch, Next-Router-Segment-Prefetch, Next-Url"

abbrev pub segment_header : String
segment_header = "next-router-segment-prefetch"

-- a header that is missing or empty is falsy
abbrev pub text_or : String → Option String → String
text_or default none = default
text_or default (some t) = t

-- `meta?.status`, `meta?.postponed` and the entries of `meta?.headers`
abbrev pub meta_status : Option Meta → Option ℕ
meta_status none = none
meta_status (some m) = m.status

abbrev pub meta_postponed : Option Meta → Option String
meta_postponed none = none
meta_postponed (some m) = m.postponed

abbrev pub headers_or_none : Option HeaderMap → HeaderMap
headers_or_none none = []
headers_or_none (some headers) = headers

abbrev pub meta_headers : Option Meta → HeaderMap
meta_headers none = []
meta_headers (some m) = headers_or_none m.headers

unfoldable pub is_set : String → Event → Bool
is_set name e = if is_falsy (lookup name e.headers) then false else true

abbrev pub prerendered : HeaderMap
prerendered = ("x-nextjs-prerender", one "1") ∷ ("x-nextjs-postponed", one "2") ∷ []

-- `event.rewriteStatusCode ?? cachedValue.meta?.status ?? default`
unfoldable pub status_of : Option ℕ → Option Meta → ℕ → ℕ
status_of (some status) meta default = status
status_of none meta default = elim (meta_status meta) [ none ↦ default | some status ↦ status ]

-- `getBodyForAppRouter`: an absent header makes the name `undefined`
unfoldable pub get_body_for_app_router :
    Event → String → List (String × String) → String × HeaderMap
get_body_for_app_router e rsc segment_data =
    let name = text_or "undefined" (lookup segment_header e.headers) in
    if str_eq name "" then (rsc, []) else elim (lookup name segment_data) [
      | none ↦ (rsc, [])
      | some segment ↦ (segment, prerendered)
    ]

-- the segment of a prefetch request, if there is one that is not empty
unfoldable pub find_segment :
    Event → List (String × String) → String × HeaderMap → String × HeaderMap
find_segment e segment_data found = elim (lookup segment_header e.headers) [
  | none ↦ found
  | some name ↦ if str_eq name "" then found else elim (lookup name segment_data) [
    | none ↦ found
    | some segment ↦ if str_eq segment "" then found else (segment, prerendered)
  ]
]

-- what follows a control: the failure of `send`, or the answer with the headers
unfoldable pub with_control :
    List QueueMessage × Option HeaderMap
    → Outcome
    → (HeaderMap → Result)
    → List QueueMessage × Outcome
with_control (messages, none) failed reply = (messages, failed)
with_control (messages, some headers) failed reply = (messages, answered (reply headers))

module _ (env : Env) where
  -- `createPprPartialResult`
  unfoldable pub create_ppr_partial_result :
      Event → String → Option Meta → (body content_type : String) → Outcome
  create_ppr_partial_result e path meta body content_type =
      let root = if str_eq path "" then "/" else path in
      resumed
        (record {
          method = "POST";
          url = String.◌++◌ "http://" (String.◌++◌ e.host (String.◌++◌ env.base_path root));
          headers = insert "next-resume" "1" e.headers;
          raw_path = path;
          body = text_or "" (meta_postponed meta);
        })
        (record {
          status_code = status_of e.rewrite_status_code meta 200;
          headers = insert "vary" (one vary_header) (
              spread (("content-type", one content_type) ∷ ("x-opennext-ppr", one "1") ∷ [])
                (meta_headers meta));
          body = body;
          is_base64_encoded = false;
        })

  -- the end of `generateResult`; it throws where `send` throws
  unfoldable pub finish_result :
      ℕ
      → Event
      → String
      → Cached
      → (body content_type : String) → HeaderMap
      → List QueueMessage × Outcome
  finish_result now e path cached body content_type additional =
      with_control
        (compute_cache_control env now path body e.host cached.revalidate cached.last_modified)
        rejected
        (λ headers. record {
          status_code = status_of e.rewrite_status_code cached.meta 200;
          headers =
              spread
                (insert "vary" (one vary_header) (
                  spread (insert "content-type" (one content_type) headers)
                    (meta_headers cached.meta)))
                additional;
          body = body;
          is_base64_encoded = false;
        })

  -- `generateResult` of a value of the app router
  unfoldable pub generate_app :
      ℕ
      → Event
      → String
      → Cached
      → (html rsc : String) → List (String × String)
      → List QueueMessage × Outcome
  generate_app now e path cached html rsc segment_data =
      let is_postponed = if is_falsy (meta_postponed cached.meta) then false else true in
      let data_body = get_body_for_app_router e rsc segment_data in
      let (segment, additional) = find_segment e segment_data data_body in
      let html_type : String = "text/html; charset=utf-8" in
      let rsc_type : String = "text/x-component" in
      if is_set "rsc" e
      then if is_postponed
        then if str_eq (text_or "" (lookup "next-router-prefetch" e.headers)) "1"
          then finish_result now e path cached segment rsc_type additional
          else ([], create_ppr_partial_result e path cached.meta "" rsc_type)
        else finish_result now e path cached data_body.0 rsc_type data_body.1
      else if is_postponed
      then ([], create_ppr_partial_result e path cached.meta html html_type)
      else finish_result now e path cached html html_type []

  -- `generateResult` of a page
  unfoldable pub generate_page :
      ℕ → Event → String → Cached → (html json_text : String) → List QueueMessage × Outcome
  generate_page now e path cached html json_text =
      if e.next_data_req
      then finish_result now e path cached json_text "application/json" []
      else finish_result now e path cached html "text/html; charset=utf-8" []

  -- the answer for a `redirect`; where `send` throws, the request goes on
  unfoldable pub answer_redirect : ℕ → Event → String → Cached → List QueueMessage × Outcome
  answer_redirect now e path cached =
      with_control
        (compute_cache_control env now path "" e.host cached.revalidate cached.last_modified)
        passed_on
        (λ headers. record {
          status_code = status_of none cached.meta 307;
          headers = spread (meta_headers cached.meta) headers;
          body = "";
          is_base64_encoded = false;
        })

  -- the answer for a `route`
  unfoldable pub answer_route : ℕ → Event → String → Cached → String → List QueueMessage × Outcome
  answer_route now e path cached body =
      let content_type =
        text_or "undefined" (get_header_value (meta_headers cached.meta) "content-type") in
      with_control
        (compute_cache_control env now path body e.host cached.revalidate cached.last_modified)
        passed_on
        (λ headers. record {
          status_code = status_of e.rewrite_status_code cached.meta 200;
          headers = insert "vary" (one vary_header) (spread headers (meta_headers cached.meta));
          body = body;
          is_base64_encoded = env.is_binary_content_type content_type;
        })

  -- the `switch` over the type of the value
  unfoldable pub answer_of : ℕ → Event → String → Cached → Content → List QueueMessage × Outcome
  answer_of now e path cached (app html rsc segment_data) =
      generate_app now e path cached html rsc segment_data
  answer_of now e path cached (page html json_text) = generate_page now e path cached html json_text
  answer_of now e path cached redirect = answer_redirect now e path cached
  answer_of now e path cached (route body) = answer_route now e path cached body
  answer_of now e path cached other = ([], passed_on)

  unfoldable pub answer : ℕ → Event → String → Cached → List QueueMessage × Outcome
  answer now e path cached = answer_of now e path cached cached.content
