-- ===== src/CacheService.antt =====
-- packages/core/src/adapters/cache-handler.ts and packages/core/src/utils/cache-get.ts: the values that
-- the cache service hands out, and the headers that carry them.
pub mod Encode
pub mod Decode
pub mod Headers
pub mod Fields
pub mod FileTrip
pub mod FetchTrip
pub mod ComposableTrip
pub mod RoundTrip
mod Tests
use adapters_api.Common.{ℕ, String, Bool, Option, none, some, List, [], ◌∷◌, if◌then◌else◌}
use adapters_api.Common.Assoc.{lookup, insert}

-- What the code takes from JavaScript: JSON values with `JSON.stringify`, `JSON.parse` (`none` where it
-- throws), an object literal, a member (`none` for `undefined`) and truthiness; `String(n)` and
-- `Number(text)` (`none` for `NaN`) of natural numbers.
pub record Script : Type 1 where
  pub Json : Type 0
  pub stringify : Json → String
  pub parse : String → Option Json
  pub object : List (String × Json) → Json
  pub member : Json → String → Option Json
  pub is_truthy : Json → Bool
  pub number_text : ℕ → String
  pub to_number : String → Option ℕ

-- A header: `string | string[]`.
pub data HeaderValue : Type 0 where
  one : String → HeaderValue
  many : List String → HeaderValue

abbrev pub HeaderMap : Type 0
HeaderMap = List (String × HeaderValue)

-- `number | false`
pub data Revalidate : Type 0 where
  never : Revalidate
  every : ℕ → Revalidate

pub record Meta : Type 0 where
  pub status : Option ℕ
  pub postponed : Option String
  pub headers : Option HeaderMap

module _ (js : Script) where
  open js use {Json}

  -- `CachedFile`, without the members that all of its types have
  pub data Content : Type 0 where
    route : (body : String) → Content
    page : (json html : Option Json) → Content
    app : (html rsc segment_data : Option Json) → Content
    redirect : (props : Option Json) → Content

  -- `CachedFetchValue.data`
  pub record FetchData : Type 0 where
    pub headers : List (String × HeaderValue)
    pub body : String
    pub url : String
    pub status : Option ℕ
    pub tags : Option Json

  -- `CacheValue`
  pub data Value : Type 0 where
    file : (content : Content) (meta : Option Meta) (revalidate : Option Revalidate) → Value
    fetched : (data' : FetchData) (tags : Option Json) (revalidate : Option Revalidate) → Value
    composable : (value : String) (tags : Json) (stale expire timestamp revalidate : ℕ) → Value

  -- `WithLastModified`, with a value
  pub record Entry : Type 0 where
    pub value : Value
    pub last_modified : Option ℕ
    pub should_bypass_tag_cache : Bool

-- the `InternalResult` of the handler: its status, its headers and its text
pub record Response : Type 0 where
  pub status : ℕ
  pub headers : HeaderMap
  pub body : String

-- `if (value !== undefined) headers[name] = value`
unfoldable pub put_if : String → Option HeaderValue → HeaderMap → HeaderMap
put_if name none headers = headers
put_if name (some value) headers = insert name value headers

abbrev pub prefix : String
prefix = "x-opennext-cache-header-"
