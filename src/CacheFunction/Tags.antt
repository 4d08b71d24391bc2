-- ===== src/CacheFunction/Tags.antt =====
-- packages/core/src/utils/cache.ts: the tags of a value, and the writes that a request makes once.
use adapters_api.Common.{String, Option, none, some, List, [], ◌∷◌, any, str_eq, if◌then◌else◌}
use adapters_api.Common.Assoc.{lookup, remove}
use adapters_api.CacheService.{Script, one, many, Meta, Value, file}
use adapters_api.CacheFunction.{TagInput, tag, tag_of_path, Backend}

module _ (js : Script) (be : Backend js) where
  open be use {State}

  -- `getTagsFromValue`: the tags, and the value without their header; an array has no `split`, and the
  -- exception leaves the value as it is
  unfoldable pub tags_from_meta : Option Meta → List String × Option Meta
  tags_from_meta none = ([], none)
  tags_from_meta (some m) = elim m.headers [
    | none ↦ ([], some m)
    | some headers ↦
        let without : Option Meta =
          some (record m { headers = some (remove "x-next-cache-tags" headers) }) in
        elim (lookup "x-next-cache-tags" headers) [
          | none ↦ ([], without)
          | some (one text) ↦ (be.split_commas text, without)
          | some (many texts) ↦ ([], some m)
        ]
  ]

  -- `getTagsFromValue` of a cached file; any other value has no `meta`
  unfoldable pub get_tags_from_value : Value js → List String × Value js
  get_tags_from_value (file content meta r) =
      let (tags, kept) = tags_from_meta meta in (tags, file content kept r)
  get_tags_from_value v = ([], v)

  -- `getTagKey`
  unfoldable pub get_tag_key : TagInput → String
  get_tag_key (tag t) = t
  get_tag_key (tag_of_path path t at) = be.pair_key t path

  -- the filter of `writeTags`, with the set `writtenTags`
  unfoldable pub tags_to_write : List TagInput → List String → List TagInput × List String
  tags_to_write [] written = ([], written)
  tags_to_write (t ∷ ts) written =
      let known = tags_to_write ts written in
      let (new, all_written) = tags_to_write ts (get_tag_key t ∷ written) in
      if any (str_eq (get_tag_key t)) written then known else (t ∷ new, all_written)

  -- The state of a request: that of the backends, and `writtenTags`.
  pub record Context : Type 0 where
    pub state : State
    pub written_tags : List String

  -- `writeTags`, within a request; `none` where the tag cache throws
  unfoldable pub write_tags : List TagInput → Context → Option Context
  write_tags tags c =
      if be.disable_tag_cache
      then some c
      else let (new, written) = tags_to_write tags c.written_tags in
        elim new [
          | [] ↦ some (record c { written_tags = written })
          | t ∷ ts ↦ elim (be.write_tags (t ∷ ts) c.state) [
            | none ↦ none
            | some state ↦ some (record { state = state; written_tags = written })
          ]
        ]
