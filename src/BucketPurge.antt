-- ===== src/BucketPurge.antt =====
-- packages/cloudflare/src/api/durable-objects/bucket-cache-purge.ts, and `internalPurgeCacheByTags` of
-- packages/cloudflare/src/api/overrides/internal.ts: tags are collected in a table, and an alarm
-- purges them in batches.
pub mod Batches
pub mod Alarm
mod Tests
use adapters_api.Common.{
  ℕ, zero, suc, ◌+◌, ◌*◌, String, Bool, true, false, not, Option, none, some, List, [], ◌∷◌, ◌++◌,
  ltb, ◌==◌, str_eq, if◌then◌else◌, length, take, filter, any,
}

-- The table `cache_purge`, whose tags are unique, in the order in which a `SELECT` returns them; the
-- stored alarm; and the batches for which the purge API was called.
pub record Purger : Type 0 where
  pub cache_purge : List String
  pub stored_alarm : Option ℕ
  pub calls : List (List String)

-- `MAX_NUMBER_OF_TAGS_PER_PURGE`
abbrev pub max_number_of_tags_per_purge : ℕ
max_number_of_tags_per_purge = 100

abbrev pub contains : String → List String → Bool
contains tag tags = any (λ t. str_eq t tag) tags

-- `INSERT OR REPLACE INTO cache_purge`
unfoldable pub insert_tag : String → List String → List String
insert_tag tag tags = if contains tag tags then tags else tags ++ tag ∷ []

unfoldable pub insert_tags : List String → List String → List String
insert_tags [] table = table
insert_tags (tag ∷ tags) table = insert_tags tags (insert_tag tag table)

-- `if (!nextAlarm)`
abbrev pub is_set : Option ℕ → Bool
is_set none = false
is_set (some zero) = false
is_set (some (suc _)) = true

-- `purgeCacheByTags`
unfoldable pub purge_cache_by_tags : ℕ → ℕ → List String → Purger → Purger
purge_cache_by_tags buffer_time_in_seconds now tags p = record p {
  cache_purge = insert_tags tags p.cache_purge;
  stored_alarm =
      if is_set p.stored_alarm then p.stored_alarm else some (now + buffer_time_in_seconds * 1000);
}

-- The answer of the purge API: the fetch or the reading of its body rejects, or there is a status and
-- the `success` of the body.
pub data Answer : Type 0 where
  failed : Answer
  answered : (status : ℕ) (success : Bool) → Answer

pub data PurgeResult : Type 0 where
  missing_credentials rate_limit_exceeded purge_failed purge_success : PurgeResult

-- `internalPurgeCacheByTags`
unfoldable pub internal_purge_cache_by_tags : Bool → Answer → PurgeResult
internal_purge_cache_by_tags false answer = missing_credentials
internal_purge_cache_by_tags true failed = purge_failed
internal_purge_cache_by_tags true (answered status success) =
    if status == 429
    then rate_limit_exceeded
    else if not success
    then purge_failed
    else purge_success

abbrev pub is_rate_limited : PurgeResult → Bool
is_rate_limited rate_limit_exceeded = true
is_rate_limited _ = false

-- `DELETE FROM cache_purge WHERE tag IN (…)`
unfoldable pub delete_tags : List String → List String → List String
delete_tags tags table = filter (λ t. not (contains t tags)) table

-- `SELECT * FROM cache_purge LIMIT 100`
abbrev pub select_batch : List String → List String
select_batch = take max_number_of_tags_per_purge

pub data Outcome : Type 0 where
  done : Purger → Outcome
  -- `throw new Error("Rate limit exceeded")`: the runtime runs the alarm again
  rate_limited : Purger → Outcome
  out_of_fuel : Outcome

-- The `do … while` loop of `alarm`. The result of the n-th call of the purge API is given.
unfoldable pub alarm_loop : ℕ → (ℕ → PurgeResult) → ℕ → List String → Purger → Outcome
alarm_loop zero result n tags p = out_of_fuel
alarm_loop (suc fuel) result n [] p = done p
alarm_loop (suc fuel) result n (tag ∷ tags) p =
    let batch = tag ∷ tags in
    let called : Purger = record p { calls = p.calls ++ batch ∷ [] } in
    let deleted : Purger = record called { cache_purge = delete_tags batch p.cache_purge } in
    let next =
      alarm_loop fuel result (suc n)
        (if ltb (length batch) max_number_of_tags_per_purge
          then []
          else select_batch deleted.cache_purge)
        deleted in
    if is_rate_limited (result n) then rate_limited called else next

-- `alarm`, with a fuel that is enough: each round but the last deletes a tag. It runs on its own: a call of
-- `purgeCacheByTags` that comes in while the purge API is awaited is left out here.
unfoldable pub alarm : (ℕ → PurgeResult) → Purger → Outcome
alarm result p =
    alarm_loop (length p.cache_purge + 2) result 0 (select_batch p.cache_purge)
      (record p { stored_alarm = none })
