-- ===== src/NextTagCache/Tests.antt =====
-- Runs of the two tag caches, and the theorems at concrete inputs.
use adapters_api.Common.{◌≡◌, refl, String, true, false, some, [], ◌∷◌}
use adapters_api.Common.Assoc.{lookup, insert, remove}
use adapters_api.NextTagCache.{
  Env, Store, single_slashes, largest, rows_in, values_of, get_cache_key, purge,
  d1_get_last_revalidated, d1_has_been_revalidated, insert_rows, d1_write_tags,
  kv_get_last_revalidated, kv_has_been_revalidated, put_values, kv_write_tags,
}
use adapters_api.NextTagCache.Agreement.{Agree, AreAlike, Agree-write_tags, Agree-reads}

program : Unit {0}
unfolding lookup insert remove single_slashes largest rows_in values_of get_cache_key purge
    d1_get_last_revalidated d1_has_been_revalidated insert_rows d1_write_tags
    kv_get_last_revalidated kv_has_been_revalidated put_values kv_write_tags
program = tt

abbrev env : Env
env = record {
  build_id = "b";
  is_bound = true;
  is_disabled = false;
  is_purge_enabled = false;
  query_succeeds = true;
  put_succeeds = λ key. true;
}

abbrev empty : Store
empty = record { rows = []; purged = [] }

abbrev written : Store
written = record { rows = ("b/y", 7) ∷ ("b/x", 7) ∷ []; purged = [] }

-- a tag with a slash in front has the same key
slashes : get_cache_key env "/x" ≡ get_cache_key env "x"
unfolding program
slashes = refl

write_succeeds : d1_write_tags env ("x" ∷ "y" ∷ []) 7 empty ≡ some written
unfolding program
write_succeeds = refl

empty-Agree : Agree empty empty
empty-Agree = record { unique = tt; same = λ k. refl }

-- the environment of the KV cache, with purges
abbrev kv_env : Env
kv_env = record env { is_purge_enabled = true }

alike : (x y : String) → AreAlike env kv_env (x ∷ y ∷ [])
alike x y = record { build_id = refl; switched = refl }

abbrev seen : Store
seen = (kv_write_tags kv_env ("x" ∷ "y" ∷ []) 7 empty).0

Agree-write_tags_example : Agree written seen
Agree-write_tags_example =
    Agree-write_tags env kv_env ("x" ∷ "y" ∷ []) 7 empty empty written seen (alike "x" "y")
      empty-Agree (λ key. refl) write_succeeds (record { same = λ k. refl })

Agree-reads_example :
    (d1_get_last_revalidated env ("x" ∷ "z" ∷ []) written
      ≡ kv_get_last_revalidated kv_env ("x" ∷ "z" ∷ []) seen)
    × (d1_has_been_revalidated env ("x" ∷ "z" ∷ []) 5 written
        ≡ kv_has_been_revalidated kv_env ("x" ∷ "z" ∷ []) 5 seen)
Agree-reads_example = Agree-reads env kv_env ("x" ∷ "z" ∷ []) 5 written seen (alike "x" "z") refl (
    Agree-write_tags env kv_env ("x" ∷ "y" ∷ []) 7 empty empty written seen (alike "x" "y")
      empty-Agree (λ key. refl) write_succeeds (record { same = λ k. refl }))
