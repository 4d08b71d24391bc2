-- ===== src/CacheFunction/Written.antt =====
-- packages/core/src/utils/cache.ts: which tags `writeTags` hands on.
use adapters_api.Common.{
  ℕ, suc, ◌≡◌, ap, arith, inl, inr, String, Bool, true, false, ◌||◌, List, [], ◌∷◌, any, str_eq,
  eq_iff, Bool-cases, if◌then◌else◌,
}
use adapters_api.CacheService.{Script}
use adapters_api.CacheFunction.{TagInput, Backend}
use adapters_api.CacheFunction.Tags.{get_tag_key, tags_to_write}

module _ (js : Script) (be : Backend js) where
  -- how many of the inputs have the key
  unfoldable pub count : String → List TagInput → ℕ
  count key [] = 0
  count key (t ∷ ts) =
      let rest = count key ts in if str_eq (get_tag_key js be t) key then suc rest else rest

  -- whether an input has the key
  unfoldable pub asks : String → List TagInput → Bool
  asks key [] = false
  asks key (t ∷ ts) = str_eq (get_tag_key js be t) key || asks key ts

  -- Of the inputs with a key, `writeTags` hands on one, if the request has not written the key yet, and
  -- none otherwise; and it keeps the key in `writtenTags`, so that no call of the request writes it
  -- again.
  pub tags_to_write-once :
      (key : String) (tags : List TagInput) (written : List String)
      → (count key (tags_to_write js be tags written).0
          ≡ (if any (str_eq key) written then 0 else if asks key tags then 1 else 0))
        × (any (str_eq key) (tags_to_write js be tags written).1
            ≡ (any (str_eq key) written || asks key tags))
  unfolding tags_to_write count asks
  tags_to_write-once key [] written = ground arith
  tags_to_write-once key (t ∷ ts) written =
      let own = get_tag_key js be t in
      let same =
        λ (h : str_eq own key ≡ true). ap (λ k. any (str_eq k) written) ((eq_iff own key).0 h) in
      elim (Bool-cases (any (str_eq own) written)) [
        | inl e ↦ rw e (ground (arith, tags_to_write-once key ts written, same, e))
        | inr e ↦ rw e (
            ground (
              arith,
              tags_to_write-once key ts (own ∷ written),
              same,
              eq_iff own key,
              eq_iff key own,
              e,
            ))
      ]
