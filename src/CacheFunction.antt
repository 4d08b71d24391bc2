-- ===== src/CacheFunction.antt =====
-- packages/core/src/adapters/cache-handler.ts and packages/core/src/utils/cache.ts: the handler of the
-- cache function, over an incremental cache, a tag cache and a CDN.
pub mod Tags
pub mod Handler
pub mod Revalidate
pub mod Dispatch
pub mod Written
pub mod Sent
pub mod Fresh
pub mod Served
mod Tests
use adapters_api.Common.{ℕ, String, Bool, Option, List}
use adapters_api.CacheService.{Script, Value, Response}

-- `CacheEntryType`
pub data Kind : Type 0 where
  cache fetch composable : Kind

-- `tagCache.mode`
pub data Mode : Type 0 where
  next_mode original : Mode

-- what `writeTags` is given: a tag, or a tag of a path with its time
pub data TagInput : Type 0 where
  tag : String → TagInput
  tag_of_path : (path tag : String) (revalidated_at : Option ℕ) → TagInput

module _ (js : Script) where
  -- `WithLastModified`, as the incremental cache returns it
  pub record Lookup : Type 0 where
    pub value : Option (Value js)
    pub last_modified : Option ℕ
    pub should_bypass_tag_cache : Bool

  -- The incremental cache, the tag cache and the CDN with their state, the settings, and what the code
  -- takes from JavaScript; `none` where a call throws. A last modification of -1 is `none` within.
  pub record Backend : Type 1 where
    pub State : Type 0
    pub mode : Mode
    pub disable_tag_cache : Bool
    pub get : String → Kind → State → Option (Option Lookup)
    pub set : String → Value js → Kind → State → Option State
    pub delete : String → State → Option State
    pub has_been_revalidated : List String → ℕ → State → Option Bool
    pub get_last_modified : String → ℕ → State → Option (Option ℕ)
    pub get_by_path : String → State → Option (List String)
    pub get_by_tag : String → State → Option (List String)
    pub get_paths_by_tags : Option (List String → State → Option (List String))
    pub write_tags : List TagInput → State → Option State
    pub invalidate_paths : List String → State → Option State
    -- the texts of an array, `JSON.stringify({ tag, path })`, and `text.split(",")`
    pub texts : js.Json → List String
    pub pair_key : String → String → String
    pub split_commas : String → List String

-- The result of the handler: an error with its message, a miss (by a revalidated tag or not), an entry,
-- or the acknowledgement of a change.
pub data Reply : Type 0 where
  error_reply : (status : ℕ) (message : String) → Reply
  not_found : (revalidated : Bool) → Reply
  found : Response → Reply
  done : Reply
