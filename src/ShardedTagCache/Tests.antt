-- ===== src/ShardedTagCache/Tests.antt =====
-- Runs of the sharded tag cache, and the theorems at concrete inputs.
use mathlib.Core.Option.{some-injective}
use mathlib.Core.Path.{subst}
use adapters_api.ShardedTagCache.Addresses.{elem, is_address}
use adapters_api.ShardedTagCache.{available_regions}
use adapters_api.Common.{
  zero, suc, ◌^◌, ◌≤◌, ◌≡◌, refl, arith, true, false, none, some, List, [], ◌∷◌, String,
  if◌then◌else◌,
}
use adapters_api.Common.Assoc.{lookup, insert, remove, has, IsUnique}
use adapters_api.ShardId.{
  imul, shr, xor32, or32, mix, cyrb128, random_numerator, random_int, char_codes, digit,
  decimal_from, decimal, generate_shard_id,
}
use adapters_api.TagTable
use adapters_api.TagTable.{Table}
use adapters_api.ShardedTagCache.{
  Options, Replication, Request, DoId, ShardType, soft, hard, key, shard_type_name, new_do_id,
  random_between, is_of, indexes_from, replicas_of, num_replicas, replica_indexes, tag_id,
  replica_ids, regional_replicas, in_regions, in_all_regions, closest_region, set_region,
  generate_do_id_array, add_to_groups, group_ids, collect_ids, group_tags_by_do,
}
use adapters_api.ShardedTagCache.Operations.{
  missing_tags, World, Env, table_of, cache_url_key, match_all, get_from_regional_cache, put_all,
  put_to_regional_cache, delete_all, delete_regional_cache, write_object, write_once, give_up,
  perform_write, write_groups, write_tags, group_revalidated, any_revalidated, has_been_revalidated,
}
use adapters_api.ShardedTagCache.LastRevalidated.{
  deduplicate, max_time, group_last_revalidated, max_last_revalidated, get_last_revalidated,
}
use adapters_api.ShardedTagCache.Groups.{
  IsKeyed, tags_for, tags_or_none, group_tags_by_do-partition,
}
use adapters_api.ShardedTagCache.Writes.{perform_write_eventually}
use adapters_api.ShardedTagCache.Drawn.{IsConfigured, IsRandom}
use adapters_api.ShardedTagCache.Refinement.{
  Represents, IsUp, Represents-write_tags, has_been_revalidated-eq-table,
}

program : Unit {0}
unfolding lookup insert remove has imul shr xor32 or32 mix cyrb128 random_numerator random_int
    char_codes digit decimal_from decimal generate_shard_id TagTable.get_last_revalidated
    TagTable.has_been_revalidated TagTable.write_tags TagTable.get_revalidation_times key
    shard_type_name new_do_id random_between is_of indexes_from replicas_of num_replicas
    replica_indexes tag_id replica_ids regional_replicas in_regions in_all_regions closest_region
    set_region generate_do_id_array add_to_groups group_ids collect_ids group_tags_by_do table_of
    cache_url_key match_all get_from_regional_cache missing_tags put_all put_to_regional_cache
    delete_all delete_regional_cache write_object write_once give_up perform_write write_groups
    write_tags group_revalidated any_revalidated has_been_revalidated deduplicate max_time
    group_last_revalidated max_last_revalidated get_last_revalidated
program = tt

-- four shards, two replicas of the hard ones, in every region
abbrev opts : Options
opts = record {
  base_shard_size = 4;
  regional_cache = false;
  dangerously_persist_missing_tags = false;
  shard_replication = some (record {
    number_of_soft_replicas = 1;
    number_of_hard_replicas = 2;
    default_region = some "enam";
  });
  max_write_retries = 3;
}

-- the defaults
abbrev plain : Options
plain = record opts { shard_replication = none }

abbrev env : Env
env = record {
  encode = λ t. t;
  write_succeeds = λ k n. true;
  read_succeeds = λ k. true;
  is_disabled = false;
  is_purge_enabled = false;
}

abbrev req : Request
req = record { continent = some "EU"; draw = λ type i. 2 ^ 51 }

abbrev empty : World
empty = record { objects = []; regional = []; dead_letters = []; purged = [] }

-- the groups that do-sharded-tag-cache.spec.ts expects
grouped :
    (tags_or_none (
        lookup "tag-hard;shard-1;replica-1"
          (group_tags_by_do plain req ("tag1" ∷ "tag2" ∷ "tag6" ∷ []) false))
      ≡ "tag1" ∷ "tag6" ∷ [])
    × (tags_or_none (
          lookup "tag-soft;shard-3;replica-1"
            (group_tags_by_do plain req ("tag1" ∷ "_N_T_/tag1" ∷ []) false))
        ≡ "_N_T_/tag1" ∷ [])
unfolding program
grouped = (refl, refl)

-- a written tag is seen, and an older write is not newer
seen :
    (has_been_revalidated opts env req
        ("tag1" ∷ [])
        5
        (write_tags opts env req ("tag1" ∷ []) 9 empty)
      ≡ true)
    × (has_been_revalidated opts env req
          ("tag1" ∷ [])
          9
          (write_tags opts env req ("tag1" ∷ []) 9 empty)
        ≡ false)
    × (get_last_revalidated opts env req
          ("tag1" ∷ "tag2" ∷ "tag1" ∷ [])
          (write_tags opts env req ("tag1" ∷ []) 9 empty)
        ≡ 9)
unfolding program
seen = (refl, refl, refl)

group_tags_by_do-partition_example :
    IsUnique (group_tags_by_do opts req ("tag1" ∷ []) true)
    × IsKeyed (group_tags_by_do opts req ("tag1" ∷ []) true)
    × (tags_or_none (lookup "k" (group_tags_by_do opts req ("tag1" ∷ []) true))
        ≡ tags_for "k" (collect_ids opts req ("tag1" ∷ []) true))
group_tags_by_do-partition_example = group_tags_by_do-partition opts req ("tag1" ∷ []) true "k"

abbrev shard_1 : DoId
shard_1 = new_do_id 0 (record {
  base_shard_id = "shard-1";
  number_of_replicas = 1;
  shard_type = hard;
  replica_id = some 1;
  region = none;
})

-- the first attempt fails
abbrev flaky : Env
flaky = record env { write_succeeds = λ k n. elim n [ zero ↦ false | suc m ↦ true ] }

perform_write_eventually_example :
    perform_write opts flaky 3 0 shard_1 ("tag1" ∷ []) 9 empty
    ≡ write_once opts flaky shard_1 ("tag1" ∷ []) 9 empty
perform_write_eventually_example =
    perform_write_eventually opts flaky 3 0 1 shard_1 ("tag1" ∷ []) 9 empty (omega arith) refl

abbrev dead : Env
dead = record env { write_succeeds = λ k n. false }

up : IsUp opts env
up = record { reads = λ k. refl; writes = λ k. (0, omega arith, refl); enabled = refl }

configured : IsConfigured opts
unfolding replicas_of
configured = record {
  replicated = λ type r e. at_least_one type r e;
  located = λ region e. subst (λ r. elem r available_regions ≡ true) (some-injective _ _ e) refl;
}
  where
    at_least_one :
        (type : ShardType) (r : Replication)
        → opts.shard_replication ≡ some r
        → 1 ≤ replicas_of type r
    at_least_one soft r e =
        subst (λ (x : Replication). 1 ≤ x.number_of_soft_replicas) (some-injective _ _ e)
          (omega arith)
    at_least_one hard r e =
        subst (λ (x : Replication). 1 ≤ x.number_of_hard_replicas) (some-injective _ _ e)
          (omega arith)

random : IsRandom req
random = record { below = λ type i. omega arith }

Represents-empty : Represents opts env empty []
unfolding table_of lookup
Represents-empty t k = ground arith

abbrev write : List String
write = "tag1" ∷ "_N_T_/a" ∷ []

-- the object of the second replica in Western Europe
abbrev shard : String
shard = "tag-hard;shard-1;replica-2;region-weur"

-- the tables after the write stand for the one table
written-Represents :
    Represents opts env (write_tags opts env req write 9 empty) (TagTable.write_tags write 9 [])
written-Represents = Represents-write_tags opts env req write 9 empty [] up Represents-empty

Represents-write_tags_example :
    lookup "tag1" (table_of shard (write_tags opts env req write 9 empty)) ≡ (
      if is_address opts "tag1" shard then lookup "tag1" (TagTable.write_tags write 9 []) else none)
Represents-write_tags_example =
    Represents-write_tags opts env req write 9 empty [] up Represents-empty "tag1" shard

has_been_revalidated-eq-table_example :
    has_been_revalidated opts env req ("tag1" ∷ []) 5 (write_tags opts env req write 9 empty)
    ≡ TagTable.has_been_revalidated ("tag1" ∷ []) 5 (TagTable.write_tags write 9 [])
has_been_revalidated-eq-table_example =
    has_been_revalidated-eq-table opts env req ("tag1" ∷ []) 5
      (write_tags opts env req write 9 empty) (TagTable.write_tags write 9 []) refl up configured
      random written-Represents
