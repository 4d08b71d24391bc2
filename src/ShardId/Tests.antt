-- ===== src/ShardId/Tests.antt =====
-- Shard ids at concrete paths.
use adapters_api.Common.{◌≡◌, refl}
use adapters_api.ShardId.{
  imul, shr, xor32, or32, mix, cyrb128, random_numerator, random_int, char_codes, digit,
  decimal_from, decimal, generate_shard_id, generate_message_group_id,
}

program : Unit {0}
unfolding imul shr xor32 or32 mix cyrb128 random_numerator random_int char_codes digit decimal_from
    decimal generate_shard_id generate_message_group_id
program = tt

-- the ids that do-sharded-tag-cache.spec.ts expects
shards :
    (generate_shard_id "tag1" 4 "shard" ≡ "shard-1")
    × (generate_shard_id "tag2" 4 "shard" ≡ "shard-2")
    × (generate_shard_id "tag6" 4 "shard" ≡ "shard-1")
    × (generate_shard_id "_N_T_/tag1" 4 "shard" ≡ "shard-3")
unfolding program
shards = (refl, refl, refl, refl)

groups : (generate_message_group_id 10 "/path1" ≡ "revalidate-9") × (decimal 1203 ≡ "1203")
unfolding program
groups = (refl, refl)
