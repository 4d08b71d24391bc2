-- ===== src/ShardId/Bounds.antt =====
-- packages/core/src/core/routing/queue.ts: the shard number lies in its range.
use adapters_api.Common.{ℕ, ◌*◌, ◌/◌, ◌<◌, arith, List}
use adapters_api.ShardId.{word, random_numerator, random_int}

random_numerator-lt : (ks : List ℕ) → random_numerator ks < word
unfolding random_numerator
random_numerator-lt ks = omega arith

div-lt : (x n : ℕ) → x < word → 0 < n → x * n / word < n
div-lt x n h p = let below : x * n < word * n = grind arith in omega arith

-- The shard number of any path is below the number of shards, if there is a shard.
random_int-lt : (ks : List ℕ) (n : ℕ) → 0 < n → random_int ks n < n
unfolding random_int
random_int-lt ks n p = div-lt (random_numerator ks) n (random_numerator-lt ks) p
