-- ===== src/ShardedTagCache/Operations.antt =====
-- packages/cloudflare/src/api/overrides/tag-cache/do-sharded-tag-cache.ts: the three operations of
-- the cache and its regional cache. Calls that the code makes in parallel are made in list order,
-- and `waitUntil` work is done at the end.
use Prim.Native.String
use adapters_api.Common.{
  ℕ, zero, suc, String, Bool, true, false, not, ◌||◌, Option, none, some, List, [], ◌∷◌, ◌++◌,
  str_eq, if◌then◌else◌, filter, any, ltb,
}
use adapters_api.Common.Assoc.{lookup, insert, remove}
use adapters_api.TagTable
use adapters_api.TagTable.{Table, is_newer}
use adapters_api.ShardedTagCache.{Options, Request, DoId, Group, key, group_tags_by_do}

-- A message of the dead letter queue.
pub record FailedWrite : Type 0 where
  pub failing_shard_id : String
  pub failing_tags : List String
  pub last_modified : ℕ

-- The durable objects by name, the regional cache by url, what the dead letter queue has received
-- and what `purgeCacheByTags` was called with.
pub record World : Type 0 where
  pub objects : List (String × Table)
  pub regional : List (String × ℕ)
  pub dead_letters : List FailedWrite
  pub purged : List (List String)

-- What the calls rely on: `encodeURIComponent`, whether the n-th write to an object and whether a
-- read of it succeeds, whether the cache is disabled and whether purging is enabled.
pub record Env : Type 0 where
  pub encode : String → String
  pub write_succeeds : String → ℕ → Bool
  pub read_succeeds : String → Bool
  pub is_disabled : Bool
  pub is_purge_enabled : Bool

-- the table of an object; an object that was never written to has an empty one
unfoldable pub table_of : String → World → Table
table_of k w = elim (lookup k w.objects) [ none ↦ [] | some table ↦ table ]

-- `getCacheUrlKey`
unfoldable pub cache_url_key : Env → DoId → String → String
cache_url_key env d tag =
    String.◌++◌ "http://local.cache/shard/"
      (String.◌++◌ d.shard_id (String.◌++◌ "?tag=" (env.encode tag)))

module _ (opts : Options) (env : Env) where
  -- the `match` of each tag, without those that are not found
  unfoldable pub match_all : DoId → List String → World → List (String × ℕ)
  match_all d [] w = []
  match_all d (tag ∷ tags) w =
      let rest = match_all d tags w in
      elim (lookup (cache_url_key env d tag) w.regional) [
        | none ↦ rest
        | some time ↦ (tag, time) ∷ rest
      ]

  -- `getFromRegionalCache`
  unfoldable pub get_from_regional_cache : DoId → List String → World → List (String × ℕ)
  get_from_regional_cache d tags w = if opts.regional_cache then match_all d tags w else []

  -- the loop of `putToRegionalCache`
  unfoldable pub put_all : DoId → List (String × ℕ) → List String → World → World
  put_all d times [] w = w
  put_all d times (tag ∷ tags) w =
      let put =
        λ (time : ℕ). record w { regional = insert (cache_url_key env d tag) time w.regional } in
      let missing = if opts.dangerously_persist_missing_tags then put 0 else w in
      let w' : World = elim (lookup tag times) [ none ↦ missing | some time ↦ put time ] in
      put_all d times tags w'

  -- `putToRegionalCache`
  unfoldable pub put_to_regional_cache : DoId → List String → World → World
  put_to_regional_cache d tags w =
      if opts.regional_cache
      then put_all d (TagTable.get_revalidation_times tags (table_of (key d) w)) tags w
      else w

  -- the loop of `deleteRegionalCache`
  unfoldable pub delete_all : DoId → List String → World → World
  delete_all d [] w = w
  delete_all d (tag ∷ tags) w =
      delete_all d tags (record w { regional = remove (cache_url_key env d tag) w.regional })

  -- `deleteRegionalCache`
  unfoldable pub delete_regional_cache : DoId → List String → World → World
  delete_regional_cache d tags w = if opts.regional_cache then delete_all d tags w else w

  -- `stub.writeTags`
  unfoldable pub write_object : String → List String → ℕ → World → World
  write_object k tags time w = record w {
    objects = insert k (TagTable.write_tags tags time (table_of k w)) w.objects;
  }

  -- the `try` block of `performWriteTagsWithRetry`, where the write succeeds
  unfoldable pub write_once : DoId → List String → ℕ → World → World
  write_once d tags time w = delete_regional_cache d tags (write_object (key d) tags time w)

  -- the message to the dead letter queue
  unfoldable pub give_up : DoId → List String → ℕ → World → World
  give_up d tags time w =
      let letter : FailedWrite = record {
        failing_shard_id = key d;
        failing_tags = tags;
        last_modified = time;
      } in
      record w { dead_letters = w.dead_letters ++ letter ∷ [] }

  -- `performWriteTagsWithRetry` at attempt `n`, where `retryNumber` is `n` and `left` retries are
  -- left before `maxWriteRetries`
  unfoldable pub perform_write : ℕ → ℕ → DoId → List String → ℕ → World → World
  perform_write zero n d tags time w =
      if env.write_succeeds (key d) n then write_once d tags time w else give_up d tags time w
  perform_write (suc left) n d tags time w =
      let retry = perform_write left (suc n) d tags time w in
      if env.write_succeeds (key d) n then write_once d tags time w else retry

  -- the writes of the groups in `writeTags`
  unfoldable pub write_groups : List (String × Group) → ℕ → World → World
  write_groups [] time w = w
  write_groups ((_, g) ∷ gs) time w =
      write_groups gs time (perform_write opts.max_write_retries 0 g.do_id g.tags time w)

  -- `writeTags`
  unfoldable pub write_tags : Request → List String → ℕ → World → World
  write_tags req tags now w =
      let written = write_groups (group_tags_by_do opts req tags true) now w in
      if env.is_disabled
      then w
      else if env.is_purge_enabled
      then record written { purged = written.purged ++ tags ∷ [] }
      else written

  -- the answer for one group in `hasBeenRevalidated`; `none` where the call of the object throws
  unfoldable pub group_revalidated : Group → ℕ → World → Option Bool
  group_revalidated g last_modified w =
      if any (λ (e : String × ℕ). ltb last_modified e.1) (get_from_regional_cache g.do_id g.tags w)
      then some true
      else if env.read_succeeds (key g.do_id)
      then some (TagTable.has_been_revalidated g.tags last_modified (table_of (key g.do_id) w))
      else none

  -- `Promise.all` and `some`
  unfoldable pub any_revalidated : List (String × Group) → ℕ → World → Option Bool
  any_revalidated [] last_modified w = some false
  any_revalidated ((_, g) ∷ gs) last_modified w =
      let rest = any_revalidated gs last_modified w in
      elim (group_revalidated g last_modified w) [
        | none ↦ none
        | some b ↦ elim rest [ none ↦ none | some c ↦ some (b || c) ]
      ]

  -- `hasBeenRevalidated`: its result, where `lastModified ?? Date.now()` is given
  unfoldable pub has_been_revalidated : Request → List String → ℕ → World → Bool
  has_been_revalidated req [] last_modified w = false
  has_been_revalidated req (tag ∷ tags) last_modified w =
      if env.is_disabled
      then false
      else elim (any_revalidated (group_tags_by_do opts req (tag ∷ tags) false) last_modified w) [
        | none ↦ false
        | some b ↦ b
      ]

  -- the tags of a group that the regional cache does not have
  unfoldable pub missing_tags : List (String × ℕ) → List String → List String
  missing_tags cached = filter (λ tag. not (any (λ (e : String × ℕ). str_eq e.0 tag) cached))

  -- what the `waitUntil` calls of `hasBeenRevalidated` do, if no call throws
  unfoldable pub fill_groups : List (String × Group) → ℕ → World → World → World
  fill_groups [] last_modified seen w = w
  fill_groups ((_, g) ∷ gs) last_modified seen w =
      let cached = get_from_regional_cache g.do_id g.tags seen in
      fill_groups gs last_modified seen (
        if any (λ (e : String × ℕ). ltb last_modified e.1) cached
        then w
        else put_to_regional_cache g.do_id (missing_tags cached g.tags) w)

  unfoldable pub fill_regional_cache : Request → List String → ℕ → World → World
  fill_regional_cache req tags last_modified w =
      fill_groups (group_tags_by_do opts req tags false) last_modified w w
