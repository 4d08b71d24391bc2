-- ===== src/BucketPurge/Tests.antt =====
-- Runs of the purge buffer, and the theorems at concrete inputs.
use adapters_api.Common.{◌≡◌, refl, true, false, ◌||◌, none, some, [], ◌∷◌}
use adapters_api.BucketPurge.{
  Purger, contains, insert_tag, insert_tags, purge_cache_by_tags, answered,
  internal_purge_cache_by_tags, rate_limit_exceeded, purge_success, delete_tags, done, alarm_loop,
  alarm,
}
use adapters_api.BucketPurge.Batches.{IsDistinct, IsScheduled, purge_cache_by_tags-collects}
use adapters_api.BucketPurge.Alarm.{Achieves, alarm-Achieves}

program : Unit {0}
unfolding insert_tag insert_tags purge_cache_by_tags internal_purge_cache_by_tags delete_tags
    alarm_loop alarm
program = tt

abbrev empty : Purger
empty = record { cache_purge = []; stored_alarm = none; calls = [] }

abbrev two : Purger
two = record { cache_purge = "a" ∷ "b" ∷ []; stored_alarm = some 6000; calls = [] }

collected : purge_cache_by_tags 5 1000 ("a" ∷ "b" ∷ "a" ∷ []) empty ≡ two
unfolding program
collected = refl

purged :
    alarm (λ n. purge_success) two
    ≡ done (record { cache_purge = []; stored_alarm = none; calls = ("a" ∷ "b" ∷ []) ∷ [] })
unfolding program
purged = refl

limited : internal_purge_cache_by_tags true (answered 429 false) ≡ rate_limit_exceeded
unfolding program
limited = refl

purge_cache_by_tags-collects_example :
    (contains "b" (purge_cache_by_tags 5 1000 ("b" ∷ []) two).cache_purge
      ≡ (contains "b" ("b" ∷ []) || contains "b" two.cache_purge))
    × IsDistinct (purge_cache_by_tags 5 1000 ("b" ∷ []) two).cache_purge
    × IsScheduled two.stored_alarm (purge_cache_by_tags 5 1000 ("b" ∷ []) two).stored_alarm 6000
purge_cache_by_tags-collects_example =
    purge_cache_by_tags-collects 5 1000 ("b" ∷ []) two "b" (refl, (refl, tt))

alarm-Achieves_example :
    Achieves (λ n. rate_limit_exceeded) 0 two (alarm (λ n. rate_limit_exceeded) two)
alarm-Achieves_example = alarm-Achieves (λ n. rate_limit_exceeded) two (refl, (refl, tt)) tt
