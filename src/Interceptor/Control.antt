-- ===== src/Interceptor/Control.antt =====
-- packages/core/src/core/routing/cacheInterceptor.ts: `computeCacheControl`.
use Prim.Native.String
use adapters_api.Common.{
  ℕ, ◌+◌, ◌-◌, ◌/◌, max, String, Bool, false, Option, none, some, List, [], ◌∷◌, ◌==◌, leb,
  if◌then◌else◌,
}
use adapters_api.Common.Assoc.{lookup}
use adapters_api.Message.{QueueMessage}
use adapters_api.ShardId.{decimal, generate_message_group_id}
use adapters_api.CacheService.{one, HeaderMap, Revalidate, never, every}
use adapters_api.Interceptor.{Env}

abbrev pub cache_one_year : ℕ
cache_one_year = 31536000

abbrev pub cache_one_month : ℕ
cache_one_month = 2592000

abbrev pub seconds : Revalidate → ℕ
seconds never = cache_one_year
seconds (every n) = n

-- `existingRoute`, if there is one
unfoldable pub seconds_or_year : Option Revalidate → ℕ
seconds_or_year none = cache_one_year
seconds_or_year (some r) = seconds r

abbrev pub or_zero : Option ℕ → ℕ
or_zero none = 0
or_zero (some n) = n

abbrev pub or_now : ℕ → Option ℕ → ℕ
or_now now none = now
or_now now (some n) = n

-- a template with a number that may be undefined
abbrev pub text_of : Option ℕ → String
text_of none = "undefined"
text_of (some n) = decimal n

-- `Math.max(finalRevalidate - age, 1)`; `age` is rounded, a half up, and negative for an entry of the
-- future
unfoldable pub s_max_age : (now last final : ℕ) → ℕ
s_max_age now last final =
    if leb last now
    then max (final - (now - last + 500) / 1000) 1
    else max (final + (last - now + 499) / 1000) 1

unfoldable pub is_never_cached : Option Revalidate → Bool
is_never_cached none = false
is_never_cached (some never) = false
is_never_cached (some (every n)) = n == 0

abbrev pub control : (cache_control state etag : String) → HeaderMap
control cache_control state etag =
    ("cache-control", one cache_control) ∷ ("x-opennext-cache", one state) ∷ ("etag", one etag) ∷ []

-- `s-maxage=${n}, stale-while-revalidate=${CACHE_ONE_MONTH}`
abbrev pub shared : ℕ → String
shared n =
    String.◌++◌ "s-maxage="
      (String.◌++◌ (decimal n) (String.◌++◌ ", stale-while-revalidate=" (decimal cache_one_month)))

module _ (env : Env) where
  -- `finalRevalidate`
  unfoldable pub final_revalidate : String → Option Revalidate → ℕ
  final_revalidate path (some r) = seconds r
  final_revalidate path none = seconds_or_year (lookup path env.routes)

  -- the `url` of the message; an empty base path is none
  unfoldable pub message_url : String → String
  message_url path =
      let url = if env.trailing_slash then String.◌++◌ path "/" else path in
      String.◌++◌ env.base_path url

  -- the message that is sent for a stale entry
  unfoldable pub message_for :
      (now : ℕ) (path etag host : String) (last_modified : Option ℕ) → QueueMessage
  message_for now path etag host last_modified = record {
    message_deduplication_id = env.hash (
        String.◌++◌ path
          (String.◌++◌ "-" (String.◌++◌ (text_of last_modified) (String.◌++◌ "-" etag))));
    message_body = record {
      host = host;
      url = message_url path;
      last_modified = or_now now last_modified;
      e_tag = etag;
    };
    message_group_id = generate_message_group_id env.max_concurrency path;
  }

  -- `computeCacheControl`: the messages that it sends, and its headers unless `send` throws
  unfoldable pub compute_cache_control :
      ℕ
      → (path body host : String) → Option Revalidate
      → Option ℕ
      → List QueueMessage × Option HeaderMap
  compute_cache_control now path body host revalidate last_modified =
      let final = final_revalidate path revalidate in
      let etag = env.hash body in
      let age = s_max_age now (or_zero last_modified) final in
      let message = message_for now path etag host last_modified in
      if is_never_cached revalidate
      then (
        [],
        some (control "private, no-cache, no-store, max-age=0, must-revalidate" "ERROR" etag),
      )
      else if final == cache_one_year
      then ([], some (control (shared cache_one_year) "HIT" etag))
      else if age == 1
      then (
        message ∷ [],
        if env.send message then some (control (shared age) "STALE" etag) else none,
      )
      else ([], some (control (shared age) "HIT" etag))
