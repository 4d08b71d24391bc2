-- ===== src/ShardedTagCache.antt =====
-- packages/cloudflare/src/api/overrides/tag-cache/do-sharded-tag-cache.ts: the tag cache that
-- spreads its tags over durable objects, with replicas and regions.
pub mod Operations
pub mod Groups
pub mod Writes
pub mod Addresses
pub mod Drawn
pub mod Reads
pub mod ReadTags
pub mod LastRevalidated
pub mod Refinement
mod Tests
use Prim.Native.String
use text.Mathlib.Text.{starts_with}
use adapters_api.Common.{
  ℕ, zero, suc, ◌+◌, ◌-◌, ◌*◌, ◌/◌, ◌^◌, String, Bool, not, Option, none, some, List, [], ◌∷◌, ◌++◌,
  map, str_eq, if◌then◌else◌, filter,
}
use adapters_api.ShardId.{generate_shard_id, decimal}

-- `regionalReplication`
pub record Replication : Type 0 where
  pub number_of_soft_replicas : ℕ
  pub number_of_hard_replicas : ℕ
  pub default_region : Option String

-- `ShardedDOTagCacheOptions`, with the defaults of the constructor applied
pub record Options : Type 0 where
  pub base_shard_size : ℕ
  pub regional_cache : Bool
  pub dangerously_persist_missing_tags : Bool
  pub shard_replication : Option Replication
  pub max_write_retries : ℕ

pub data ShardType : Type 0 where
  soft hard : ShardType

-- `DOIdOptions`
pub record DoIdOptions : Type 0 where
  pub base_shard_id : String
  pub number_of_replicas : ℕ
  pub shard_type : ShardType
  pub replica_id : Option ℕ
  pub region : Option String

-- `DOId`
pub record DoId : Type 0 where
  pub options : DoIdOptions
  pub shard_id : String
  pub replica_id : ℕ
  pub region : Option String

infixr 65 ◌&◌
abbrev ◌&◌ : String → String → String
s & t = String.◌++◌ s t

-- `generateRandomNumberBetween`, where `Math.random()` is `draw / 2 ^ 52`
unfoldable pub random_between : ℕ → ℕ → ℕ → ℕ
random_between draw lo hi = draw * (hi + 1 - lo) / 2 ^ 52 + lo

unfoldable pub shard_type_name : ShardType → String
shard_type_name soft = "soft"
shard_type_name hard = "hard"

abbrev pub replica_or {ℓ} : {A : Type ℓ} → A → Option A → A
replica_or d none = d
replica_or d (some a) = a

-- the constructor of `DOId`
unfoldable pub new_do_id : ℕ → DoIdOptions → DoId
new_do_id draw o = record {
  options = o;
  shard_id = "tag-" & shard_type_name o.shard_type & ";" & o.base_shard_id;
  replica_id = replica_or (random_between draw 1 o.number_of_replicas) o.replica_id;
  region = o.region;
}

-- the getter `key`
unfoldable pub key : DoId → String
key d =
    d.shard_id
    & ";replica-"
    & decimal d.replica_id
    & elim d.region [ none ↦ "" | some region ↦ ";region-" & region ]

abbrev pub soft_tag_prefix : String
soft_tag_prefix = "_N_T_/"

abbrev pub available_regions : List String
available_regions = "enam" ∷ "weur" ∷ "apac" ∷ "sam" ∷ "afr" ∷ "oc" ∷ []

-- the filter of `generateDOIdArray`
unfoldable pub is_of : ShardType → String → Bool
is_of soft tag = starts_with tag soft_tag_prefix
is_of hard tag = not (starts_with tag soft_tag_prefix)

-- `Array.from({ length: n }, (_, i) => i + 1)`, counted from `start`
unfoldable pub indexes_from : ℕ → ℕ → List (Option ℕ)
indexes_from start zero = []
indexes_from start (suc n) = some start ∷ indexes_from (suc start) n

unfoldable pub replicas_of : ShardType → Replication → ℕ
replicas_of soft r = r.number_of_soft_replicas
replicas_of hard r = r.number_of_hard_replicas

-- `numReplicas`
unfoldable pub num_replicas : Options → ShardType → ℕ
num_replicas opts type = elim opts.shard_replication [ none ↦ 1 | some r ↦ replicas_of type r ]

-- `replicaIndexes`
unfoldable pub replica_indexes : Options → ShardType → Bool → List (Option ℕ)
replica_indexes opts type all_replicas = elim opts.shard_replication [
  | none ↦ some 1 ∷ []
  | some r ↦ if all_replicas then indexes_from 1 (replicas_of type r) else none ∷ []
]

-- the id of a tag in one replica; the draws are counted by `i`
unfoldable pub tag_id : Options → ShardType → (ℕ → ℕ) → Option ℕ → ℕ → String → DoId
tag_id opts type draw replica i tag = new_do_id (draw i) (record {
  base_shard_id = generate_shard_id tag opts.base_shard_size "shard";
  number_of_replicas = num_replicas opts type;
  shard_type = type;
  replica_id = replica;
  region = none;
})

-- the `map` of `generateDOIdArray` over the filtered tags
unfoldable pub replica_ids :
    Options → ShardType → (ℕ → ℕ) → Option ℕ → ℕ → List String → List (DoId × String)
replica_ids opts type draw replica i [] = []
replica_ids opts type draw replica i (tag ∷ tags) =
    (tag_id opts type draw replica i tag, tag) ∷ replica_ids opts type draw replica (suc i) tags

-- `regionalReplicas`
unfoldable pub regional_replicas :
    Options → ShardType → (ℕ → ℕ) → List (Option ℕ) → List String → List (DoId × String)
regional_replicas opts type draw [] tags = []
regional_replicas opts type draw (replica ∷ replicas) tags =
    replica_ids opts type draw replica 0 (filter (is_of type) tags)
    ++ regional_replicas opts type draw replicas tags

-- the copies of one id in the regions
unfoldable pub in_regions : Options → ShardType → List String → DoId × String → List (DoId × String)
in_regions opts type [] e = []
in_regions opts type (region ∷ regions) (d, tag) =
    (
      new_do_id 0 (record {
        base_shard_id = d.options.base_shard_id;
        number_of_replicas = num_replicas opts type;
        shard_type = type;
        replica_id = some d.replica_id;
        region = some region;
      }),
      tag,
    )
    ∷ in_regions opts type regions (d, tag)

-- the `flatMap` over the regions
unfoldable pub in_all_regions : Options → ShardType → List (DoId × String) → List (DoId × String)
in_all_regions opts type [] = []
in_all_regions opts type (e ∷ es) =
    in_regions opts type available_regions e ++ in_all_regions opts type es

-- `getClosestRegion`, from the continent of the request
unfoldable pub closest_region : Option String → String → String
closest_region none default_region = default_region
closest_region (some continent) default_region =
    if str_eq continent ""
    then default_region
    else if str_eq continent "AF"
    then "afr"
    else if str_eq continent "AS"
    then "apac"
    else if str_eq continent "EU"
    then "weur"
    else if str_eq continent "NA"
    then "enam"
    else if str_eq continent "OC"
    then "oc"
    else if str_eq continent "SA"
    then "sam"
    else default_region

-- `doId.region = this.getClosestRegion()`
unfoldable pub set_region : String → DoId × String → DoId × String
set_region region (d, tag) = (record d { region = some region }, tag)

-- `enableRegionalReplication` with `defaultRegion`
abbrev pub region_of : Options → Option String
region_of opts = elim opts.shard_replication [ none ↦ none | some r ↦ r.default_region ]

-- The request and the isolate: `cf.continent`, and the draws for the soft and for the hard tags.
pub record Request : Type 0 where
  pub continent : Option String
  pub draw : ShardType → ℕ → ℕ

-- `generateDOIdArray`
unfoldable pub generate_do_id_array :
    Options → Request → List String → ShardType → Bool → List (DoId × String)
generate_do_id_array opts req tags type all_replicas =
    let ids =
      regional_replicas opts type (req.draw type) (replica_indexes opts type all_replicas) tags in
    elim (region_of opts) [
      | none ↦ ids
      | some default_region ↦
          if all_replicas
          then in_all_regions opts type ids
          else map (set_region (closest_region req.continent default_region)) ids
    ]

-- a group of `groupTagsByDO`
pub record Group : Type 0 where
  pub do_id : DoId
  pub tags : List String

-- one round of the loop of `groupTagsByDO`; the groups are the values of a map under their keys
unfoldable pub add_to_groups : DoId → String → List (String × Group) → List (String × Group)
add_to_groups d tag [] = (key d, record { do_id = d; tags = tag ∷ [] }) ∷ []
add_to_groups d tag ((k, g) ∷ gs) =
    if str_eq k (key d)
    then (k, record { do_id = d; tags = g.tags ++ tag ∷ [] }) ∷ gs
    else (k, g) ∷ add_to_groups d tag gs

unfoldable pub group_ids : List (DoId × String) → List (String × Group) → List (String × Group)
group_ids [] gs = gs
group_ids ((d, tag) ∷ ids) gs = group_ids ids (add_to_groups d tag gs)

-- `tagIdCollection` of `groupTagsByDO`
unfoldable pub collect_ids : Options → Request → List String → Bool → List (DoId × String)
collect_ids opts req tags all_replicas =
    generate_do_id_array opts req tags soft all_replicas
    ++ generate_do_id_array opts req tags hard all_replicas

-- `groupTagsByDO`
unfoldable pub group_tags_by_do : Options → Request → List String → Bool → List (String × Group)
group_tags_by_do opts req tags all_replicas = group_ids (collect_ids opts req tags all_replicas) []
