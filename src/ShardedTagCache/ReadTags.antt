-- ===== src/ShardedTagCache/ReadTags.antt =====
-- packages/cloudflare/src/api/overrides/tag-cache/do-sharded-tag-cache.ts: a read asks for each
-- of its tags, and for no other.
use adapters_api.Common.{
  ℕ, suc, String, ◌≡◌, refl, ap, ◌∙◌, arith, Bool, false, ◌||◌, Option, none, some, List, [], ◌∷◌,
  ◌++◌, map, filter, any, any-append, inl, inr, Option-cases,
}
use adapters_api.ShardedTagCache.{
  Options, Request, DoId, ShardType, soft, hard, is_of, replica_ids, regional_replicas,
  replica_indexes, set_region, region_of, generate_do_id_array, collect_ids, closest_region,
}
use adapters_api.ShardedTagCache.Groups.{Ids}

module _ (opts : Options) (f : String → Bool) where
  abbrev pub any_tag : Ids → Bool
  any_tag ids = any (λ (e : DoId × String). f e.1) ids

  any_tag-replica_ids :
      (type : ShardType) (draw : ℕ → ℕ) (replica : Option ℕ) (i : ℕ) (tags : List String)
      → any_tag (replica_ids opts type draw replica i tags) ≡ any f tags
  unfolding replica_ids
  any_tag-replica_ids type draw replica i [] = refl
  any_tag-replica_ids type draw replica i (t ∷ tags) =
      ground (arith, any_tag-replica_ids type draw replica (suc i) tags)

  any_tag-pass :
      (type : ShardType) (draw : ℕ → ℕ) (tags : List String)
      → any_tag (regional_replicas opts type draw (replica_indexes opts type false) tags)
        ≡ any f (filter (is_of type) tags)
  unfolding regional_replicas replica_indexes
  any_tag-pass type draw tags =
      let mine = filter (is_of type) tags in
      let one : (replica : Option ℕ)
          → any_tag (replica_ids opts type draw replica 0 mine ++ []) ≡ any f mine =
        λ replica.
          any-append _ (replica_ids opts type draw replica 0 mine) []
          ∙ ground (arith, any_tag-replica_ids type draw replica 0 mine) in
      elim (Option-cases opts.shard_replication) [
        | inl single ↦
            let e : replica_indexes opts type false ≡ some 1 ∷ [] = rw (single, replica_indexes) in
            ap (λ rs. any_tag (regional_replicas opts type draw rs tags)) e ∙ one (some 1)
        | inr (r, on) ↦
            let e : replica_indexes opts type false ≡ none ∷ [] = rw (on, replica_indexes) in
            ap (λ rs. any_tag (regional_replicas opts type draw rs tags)) e ∙ one none
      ]

  any_tag-set_region :
      (region : String) (ids : Ids) → any_tag (map (set_region region) ids) ≡ any_tag ids
  unfolding set_region
  any_tag-set_region region [] = refl
  any_tag-set_region region ((d, t) ∷ ids) = ground (arith, any_tag-set_region region ids)

  any_tag-generate :
      (req : Request) (type : ShardType) (tags : List String)
      → any_tag (generate_do_id_array opts req tags type false) ≡ any f (filter (is_of type) tags)
  unfolding generate_do_id_array
  any_tag-generate req type tags =
      let ids =
        regional_replicas opts type (req.draw type) (replica_indexes opts type false) tags in
      elim (Option-cases (region_of opts)) [
        | inl off ↦
            let e : generate_do_id_array opts req tags type false ≡ ids =
              rw (off, generate_do_id_array) in
            ap any_tag e ∙ any_tag-pass type (req.draw type) tags
        | inr (region, on) ↦
            let here = closest_region req.continent region in
            let e : generate_do_id_array opts req tags type false ≡ map (set_region here) ids =
              rw (on, generate_do_id_array) in
            ap any_tag e ∙ (any_tag-set_region here ids ∙ any_tag-pass type (req.draw type) tags)
      ]

  any-soft_or_hard :
      (tags : List String)
      → (any f (filter (is_of soft) tags) || any f (filter (is_of hard) tags)) ≡ any f tags
  unfolding is_of
  any-soft_or_hard [] = refl
  any-soft_or_hard (t ∷ tags) = ground (arith, any-soft_or_hard tags)

  pub any_tag-collect_ids :
      (req : Request) (tags : List String) → any_tag (collect_ids opts req tags false) ≡ any f tags
  unfolding collect_ids
  any_tag-collect_ids req tags =
      any-append _ (generate_do_id_array opts req tags soft false)
        (generate_do_id_array opts req tags hard false)
      ∙ ground (
        arith,
        any_tag-generate req soft tags,
        any_tag-generate req hard tags,
        any-soft_or_hard tags,
      )
