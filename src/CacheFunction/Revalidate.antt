-- ===== src/CacheFunction/Revalidate.antt =====
-- packages/core/src/adapters/cache-handler.ts: the revalidation of tags.
use Prim.Native.String
use adapters_api.Common.{
  String, Bool, true, false, not, Option, none, some, List, [], ◌∷◌, ◌++◌, map, filter, any, ◌>>=◌,
  str_eq, if◌then◌else◌,
}
use adapters_api.CacheService.{Script}
use adapters_api.CacheFunction.{next_mode, original, TagInput, tag, tag_of_path, Backend}
use adapters_api.CacheFunction.Tags.{Context, write_tags}
use adapters_api.CacheFunction.Handler.{is_soft, is_empty}

-- `Array.from(new Set(texts))`
unfoldable pub distinct : List String → List String → List String
distinct seen [] = []
distinct seen (t ∷ ts) =
    let known = distinct seen ts in
    let new = distinct (t ∷ seen) ts in if any (str_eq t) seen then known else t ∷ new

module _ (js : Script) (be : Backend js) where
  open be use {State}

  -- `invalidatePaths`, if there are paths
  unfoldable pub invalidate : List String → State → Option State
  invalidate paths s = if is_empty paths then some s else be.invalidate_paths paths s

  -- `handleRevalidateTags` in the mode `nextMode`: the state that it leaves, and whether all calls succeed
  unfoldable pub revalidate_next : List String → State → State × Bool
  revalidate_next tags s =
      let found : Option (List String) = elim be.get_paths_by_tags [
        | none ↦ some []
        | some get ↦ get tags s
      ] in
      let fresh : Context js be = record { state = s; written_tags = [] } in
      elim found [
        | none ↦ (s, false)
        | some paths ↦ elim (write_tags js be (map (λ t. tag t) tags) fresh) [
          | none ↦ (s, false)
          | some c ↦ elim (invalidate paths c.state) [
            | none ↦ (c.state, false)
            | some left ↦ (left, true)
          ]
        ]
      ]

  -- `paths.map((path) => ({ path, tag }))`
  abbrev pub inputs : String → List String → List TagInput
  inputs t paths = map (λ path. tag_of_path path t none) paths

  -- the entries of the hard tags of a path
  unfoldable pub inputs_of_tags : List String → State → Option (List TagInput)
  inputs_of_tags [] s = some []
  inputs_of_tags (t ∷ tags) s = do
    paths ← be.get_by_tag t s
    rest ← inputs_of_tags tags s
    some (inputs t paths ++ rest)

  -- those of all paths of a soft tag
  unfoldable pub inputs_of_paths : List String → State → Option (List TagInput)
  inputs_of_paths [] s = some []
  inputs_of_paths (path ∷ paths) s = do
    tags ← be.get_by_path path s
    here ← inputs_of_tags (filter (λ t. not (is_soft t)) tags) s
    rest ← inputs_of_paths paths s
    some (here ++ rest)

  -- `/${path}` of the entries with a soft tag
  unfoldable pub soft_paths : List TagInput → List String
  soft_paths [] = []
  soft_paths (tag t ∷ ts) = soft_paths ts
  soft_paths (tag_of_path path t at ∷ ts) =
      let rest = soft_paths ts in if is_soft t then String.◌++◌ "/" path ∷ rest else rest

  -- `toInsert` of a tag
  unfoldable pub to_insert : String → State → Option (List TagInput)
  to_insert t s = do
    paths ← be.get_by_tag t s
    more ← if is_soft t then inputs_of_paths paths s else some []
    some (inputs t paths ++ more)

  -- the loop of `handleRevalidateTags` in the mode `original`, which the first failure ends
  unfoldable pub revalidate_original : List String → Context js be → State × Bool
  revalidate_original [] c = (c.state, true)
  revalidate_original (t ∷ tags) c = elim (to_insert t c.state) [
    | none ↦ (c.state, false)
    | some all_inputs ↦ elim (write_tags js be all_inputs c) [
      | none ↦ (c.state, false)
      | some written ↦ elim (invalidate (distinct [] (soft_paths all_inputs)) written.state) [
        | none ↦ (written.state, false)
        | some left ↦ revalidate_original tags (record written { state = left })
      ]
    ]
  ]

  unfoldable pub revalidate_tags : List String → State → State × Bool
  revalidate_tags tags s = elim be.mode [
    | next_mode ↦ revalidate_next tags s
    | original ↦ revalidate_original tags (record { state = s; written_tags = [] })
  ]
