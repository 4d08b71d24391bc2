-- ===== src/TagTable.antt =====
-- packages/cloudflare/src/api/durable-objects/sharded-tag-cache.ts: the durable object that holds
-- the revalidation times of one shard, in the SQL table `revalidations` under the primary key `tag`.
use adapters_api.Common.{
  ℕ, String, Bool, true, false, Option, none, some, List, [], ◌∷◌, max, ltb, any, str_eq,
}
use adapters_api.Common.Assoc.{lookup, insert}

abbrev pub Table : Type 0
Table = List (String × ℕ)

-- `revalidatedAt > ?`, false where there is no row
abbrev pub is_newer : ℕ → Option ℕ → Bool
is_newer time none = false
is_newer time (some at) = ltb time at

abbrev pub time_or_zero : Option ℕ → ℕ
time_or_zero none = 0
time_or_zero (some at) = at

-- `getLastRevalidated`: `SELECT MAX(revalidatedAt)`, 0 where no row is selected
unfoldable pub get_last_revalidated : List String → Table → ℕ
get_last_revalidated [] table = 0
get_last_revalidated (tag ∷ tags) table =
    max (time_or_zero (lookup tag table)) (get_last_revalidated tags table)

-- `hasBeenRevalidated`, with `lastModified ?? Date.now()` computed by the caller
unfoldable pub has_been_revalidated : List String → ℕ → Table → Bool
has_been_revalidated tags last_modified table =
    any (λ tag. is_newer last_modified (lookup tag table)) tags

-- `writeTags`
unfoldable pub write_tags : List String → ℕ → Table → Table
write_tags [] time table = table
write_tags (tag ∷ tags) time table = write_tags tags time (insert tag time table)

-- `getRevalidationTimes`: the time of each of the tags that has a row
unfoldable pub get_revalidation_times : List String → Table → List (String × ℕ)
get_revalidation_times tags [] = []
get_revalidation_times tags ((tag, at) ∷ table) =
    let rest = get_revalidation_times tags table in
    elim (any (λ t. str_eq t tag) tags) [ true ↦ (tag, at) ∷ rest | false ↦ rest ]
