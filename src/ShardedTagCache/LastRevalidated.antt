-- ===== src/ShardedTagCache/LastRevalidated.antt =====
-- packages/cloudflare/src/api/overrides/tag-cache/do-sharded-tag-cache.ts: `getLastRevalidated`.
use adapters_api.Common.{
  ℕ, String, false, Option, none, some, List, [], ◌∷◌, max, str_eq, if◌then◌else◌, any, ◌==◌,
  length,
}
use adapters_api.TagTable
use adapters_api.TagTable.{Table, is_newer}
use adapters_api.ShardedTagCache.{Options, Request, Group, key, group_tags_by_do}
use adapters_api.ShardedTagCache.Operations.{
  World, Env, table_of, get_from_regional_cache, missing_tags, put_to_regional_cache,
}

module _ (opts : Options) (env : Env) where
  -- `Array.from(new Set(tags))`
  unfoldable pub deduplicate : List String → List String → List String
  deduplicate seen [] = []
  deduplicate seen (tag ∷ tags) =
      let rest = deduplicate (tag ∷ seen) tags in
      if any (λ t. str_eq t tag) seen then deduplicate seen tags else tag ∷ rest

  unfoldable pub max_time : List (String × ℕ) → ℕ
  max_time [] = 0
  max_time ((_, time) ∷ es) = max time (max_time es)

  -- the answer for one group in `getLastRevalidated`
  unfoldable pub group_last_revalidated : List String → Group → World → Option ℕ
  group_last_revalidated all_tags g w =
      let cached = get_from_regional_cache opts env g.do_id g.tags w in
      if length cached == length g.tags
      then some (max_time cached)
      else if env.read_succeeds (key g.do_id)
      then some (
          max (max_time cached) (
            TagTable.get_last_revalidated (missing_tags opts env cached all_tags)
              (table_of (key g.do_id) w)))
      else none

  unfoldable pub max_last_revalidated : List String → List (String × Group) → World → Option ℕ
  max_last_revalidated all_tags [] w = some 0
  max_last_revalidated all_tags ((_, g) ∷ gs) w =
      let rest = max_last_revalidated all_tags gs w in
      elim (group_last_revalidated all_tags g w) [
        | none ↦ none
        | some a ↦ elim rest [ none ↦ none | some b ↦ some (max a b) ]
      ]

  -- `getLastRevalidated`
  unfoldable pub get_last_revalidated : Request → List String → World → ℕ
  get_last_revalidated req [] w = 0
  get_last_revalidated req (tag ∷ tags) w =
      let distinct = deduplicate [] (tag ∷ tags) in
      if env.is_disabled
      then 0
      else elim (max_last_revalidated distinct (group_tags_by_do opts req distinct false) w) [
        | none ↦ 0
        | some time ↦ time
      ]

  -- what the `waitUntil` calls of `getLastRevalidated` do, if no call throws
  unfoldable pub fill_all_groups : List (String × Group) → World → World → World
  fill_all_groups [] seen w = w
  fill_all_groups ((_, g) ∷ gs) seen w = fill_all_groups gs seen (
      if length (get_from_regional_cache opts env g.do_id g.tags seen) == length g.tags
      then w
      else put_to_regional_cache opts env g.do_id g.tags w)
