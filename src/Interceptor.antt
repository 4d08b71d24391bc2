-- ===== src/Interceptor.antt =====
-- packages/core/src/core/routing/cacheInterceptor.ts: the routing layer answers from the cache.
pub mod Control
pub mod Answer
pub mod Paths
pub mod Route
pub mod Freshness
pub mod Failure
pub mod Root
mod Tests
use adapters_api.Common.{ℕ, String, Bool, Option, List}
use adapters_api.Message.{QueueMessage}
use adapters_api.CacheService.{Revalidate, Meta, HeaderMap}

-- the cached value: `CachedFile`, with `JSON.stringify(value.json)` of a page
pub data Content : Type 0 where
  route : (body : String) → Content
  page : (html json_text : String) → Content
  app : (html rsc : String) (segment_data : List (String × String)) → Content
  redirect other : Content

-- `WithLastModified<CacheValue<"cache">>`
pub record Cached : Type 0 where
  pub content : Content
  pub meta : Option Meta
  pub revalidate : Option Revalidate
  pub last_modified : Option ℕ

-- a dynamic route of the manifest: `fallback` is `none` unless it is a text
pub record DynamicRoute : Type 0 where
  pub route_regex : String
  pub fallback : Option String

-- What the code reads from the configuration, the cache (`none` where `get` throws, then none if there is
-- no value) and the queue (false where `send` throws), and what it takes from JavaScript: md5, the test
-- of a regular expression, `decodeURIComponent` (`none` where it throws), the replacement of
-- `escapePathDelimiters`, and `isBinaryContentType`.
pub record Env : Type 0 where
  pub routes : List (String × Revalidate)
  pub dynamic_routes : List DynamicRoute
  pub trailing_slash : Bool
  pub base_path : String
  pub max_concurrency : ℕ
  pub cache_get : String → Option (Option Cached)
  pub send : QueueMessage → Bool
  pub hash : String → String
  pub matches : (regex path : String) → Bool
  pub decode : String → Option String
  pub escape : String → String
  pub is_binary_content_type : String → Bool

-- the event of the request, which has a host: the names of its headers are in lower case
pub record Event : Type 0 where
  pub method : String
  pub headers : List (String × String)
  pub host : String
  pub next_data_req : Bool
  pub rewrite_status_code : Option ℕ

-- an `InternalResult`; the code turns the body into a stream
pub record Result : Type 0 where
  pub status_code : ℕ
  pub headers : HeaderMap
  pub body : String
  pub is_base64_encoded : Bool

-- `resumeRequest`, without what it copies from the event
pub record Resume : Type 0 where
  pub method : String
  pub url : String
  pub headers : List (String × String)
  pub raw_path : String
  pub body : String

-- What becomes of the request: it goes on to the server, it is answered, in part or in full, or the
-- interceptor throws.
pub data Outcome : Type 0 where
  passed_on rejected : Outcome
  answered : Result → Outcome
  resumed : Resume → Result → Outcome
