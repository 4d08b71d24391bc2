-- ===== src/NextTagCache.antt =====
-- packages/cloudflare/src/api/overrides/tag-cache/d1-next-tag-cache.ts and kv-next-tag-cache.ts: the
-- tag caches over a D1 database and over a KV namespace.
pub mod Agreement
mod Tests
use Prim.Native.Char.{code}
use Prim.Native.String
use adapters_api.Common.{
  ℕ, String, Bool, true, false, not, ◌&&◌, ◌||◌, Option, none, some, List, [], ◌∷◌, ◌++◌, max, ltb,
  ◌==◌, any, all, map, filter, str_eq, if◌then◌else◌,
}
use adapters_api.Common.Assoc.{lookup, insert, remove}

-- What a call of one of the caches finds: whether its own binding is there, the settings, and which calls
-- of the binding succeed.
pub record Env : Type 0 where
  pub build_id : String
  pub is_bound : Bool
  pub is_disabled : Bool
  pub is_purge_enabled : Bool
  pub query_succeeds : Bool
  pub put_succeeds : String → Bool

-- The table, or the namespace as a read sees it, which shows a write only after a while; and the lists of tags that `purgeCacheByTags` was called with.
pub record Store : Type 0 where
  pub rows : List (String × ℕ)
  pub purged : List (List String)

-- `text.replaceAll("//", "/")`
unfoldable pub single_slashes : String → String
single_slashes String.[] = ""
single_slashes (String.◌∷◌ c String.[]) = String.◌∷◌ c ""
single_slashes (String.◌∷◌ c (String.◌∷◌ d text)) =
    let behind = single_slashes text in
    let next = single_slashes (String.◌∷◌ d text) in
    if code c == b'/' && code d == b'/' then String.◌∷◌ c behind else String.◌∷◌ c next

-- the largest time, 0 if there is none
unfoldable pub largest : List ℕ → ℕ
largest [] = 0
largest (t ∷ ts) = max t (largest ts)

-- `tag IN (…)`
unfoldable pub rows_in : List String → List (String × ℕ) → List ℕ
rows_in keys [] = []
rows_in keys ((key, time) ∷ rows) =
    let rest = rows_in keys rows in if any (str_eq key) keys then time ∷ rest else rest

-- `kv.get(keys)` without the keys that are not there
unfoldable pub values_of : List String → List (String × ℕ) → List ℕ
values_of [] rows = []
values_of (key ∷ keys) rows = elim (lookup key rows) [
  | none ↦ values_of keys rows
  | some time ↦ time ∷ values_of keys rows
]

abbrev pub is_empty {ℓ} : {A : Type ℓ} → List A → Bool
is_empty [] = true
is_empty (_ ∷ _) = false

module _ (env : Env) where
  -- `getCacheKey`
  unfoldable pub get_cache_key : String → String
  get_cache_key key = single_slashes (String.◌++◌ env.build_id (String.◌++◌ "/" key))

  -- the guard of each operation
  abbrev pub is_off : List String → Bool
  is_off tags = not env.is_bound || env.is_disabled || is_empty tags

  -- `purgeCacheByTags`, if it is enabled
  unfoldable pub purge : List String → Store → Store
  purge tags s = if env.is_purge_enabled then record s { purged = s.purged ++ tags ∷ [] } else s

  -- `D1NextModeTagCache.getLastRevalidated`
  unfoldable pub d1_get_last_revalidated : List String → Store → ℕ
  d1_get_last_revalidated tags s =
      if is_off tags
      then 0
      else if env.query_succeeds
      then largest (rows_in (map get_cache_key tags) s.rows)
      else 0

  -- `D1NextModeTagCache.hasBeenRevalidated`, with `lastModified ?? Date.now()`
  unfoldable pub d1_has_been_revalidated : List String → ℕ → Store → Bool
  d1_has_been_revalidated tags last_modified s =
      if is_off tags
      then false
      else if env.query_succeeds
      then not (is_empty (filter (ltb last_modified) (rows_in (map get_cache_key tags) s.rows)))
      else false

  -- the batch of `INSERT`s; the table has `UNIQUE(tag) ON CONFLICT REPLACE`
  unfoldable pub insert_rows : List String → ℕ → List (String × ℕ) → List (String × ℕ)
  insert_rows [] now rows = rows
  insert_rows (tag ∷ tags) now rows =
      let key = get_cache_key tag in insert_rows tags now ((key, now) ∷ remove key rows)

  -- `D1NextModeTagCache.writeTags`; a batch that fails throws and changes nothing
  unfoldable pub d1_write_tags : List String → ℕ → Store → Option Store
  d1_write_tags tags now s =
      if is_off tags
      then some s
      else if env.query_succeeds
      then some (purge tags (record s { rows = insert_rows tags now s.rows }))
      else none

  -- `KVNextModeTagCache.getLastRevalidated`
  unfoldable pub kv_get_last_revalidated : List String → Store → ℕ
  kv_get_last_revalidated tags s =
      if is_off tags
      then 0
      else if env.query_succeeds
      then largest (values_of (map get_cache_key tags) s.rows)
      else 0

  -- `KVNextModeTagCache.hasBeenRevalidated`
  unfoldable pub kv_has_been_revalidated : List String → ℕ → Store → Bool
  kv_has_been_revalidated tags last_modified s = ltb last_modified (kv_get_last_revalidated tags s)

  -- the `kv.put`s of `writeTags`, those that succeed
  unfoldable pub put_values : List String → ℕ → List (String × ℕ) → List (String × ℕ)
  put_values [] now rows = rows
  put_values (tag ∷ tags) now rows =
      let key = get_cache_key tag in
      let put = if env.put_succeeds key then insert key now rows else rows in
      put_values tags now put

  -- `KVNextModeTagCache.writeTags`: the new state, and whether it ends without throwing
  unfoldable pub kv_write_tags : List String → ℕ → Store → Store × Bool
  kv_write_tags tags now s =
      let put : Store = record s { rows = put_values tags now s.rows } in
      if is_off tags
      then (s, true)
      else if all (λ tag. env.put_succeeds (get_cache_key tag)) tags
      then (purge tags put, true)
      else (put, false)
