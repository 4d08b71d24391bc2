-- ===== src/ShardedTagCache/Reads.antt =====
-- packages/cloudflare/src/api/overrides/tag-cache/do-sharded-tag-cache.ts: the object that a read of a
-- tag asks is one that every write of the tag reaches, whatever the draws and the region.
use mathlib.Core.Path.{subst⁻¹}
use adapters_api.Common.{
  String, ◌≡◌, refl, sym, arith, true, false, none, some, List, [], ◌∷◌, map, All, All-append,
  All-map, str_eq, eq_refl, inl, inr, Option-cases,
}
use adapters_api.ShardedTagCache.{
  Options, Request, DoId, ShardType, soft, hard, key, new_do_id, available_regions, is_of,
  replica_indexes, tag_id, regional_replicas, closest_region, set_region, region_of,
  generate_do_id_array, collect_ids,
}
use adapters_api.ShardedTagCache.Addresses.{
  elem, hits, is_address, id_at, region_id, in_region_hits, any_of_elem,
}
use adapters_api.ShardedTagCache.Drawn.{
  IsConfigured, IsRandom, closest_region-elem, IsDrawn, regional_replicas-IsDrawn,
}

module _ (opts : Options) where
  abbrev IsHit : ShardType → DoId × String → Type 0
  IsHit type (d, t) =
      (is_of type t ≡ true) × (hits opts type (λ x. str_eq (key x) (key d)) t ≡ true)

  key_eq :
      (d e : DoId)
      → d.shard_id ≡ e.shard_id
      → d.replica_id ≡ e.replica_id
      → d.region ≡ e.region
      → key d ≡ key e
  unfolding key
  key_eq d e p q r = rw (p, q, r)

  -- without regions: a drawn id is an address
  hits_unlocated :
      (type : ShardType) (e : DoId × String)
      → region_of opts ≡ none
      → IsDrawn opts type e
      → hits opts type (λ x. str_eq (key x) (key e.0)) e.1 ≡ true
  unfolding hits tag_id new_do_id
  hits_unlocated type (d, t) off (_, (r, written, id, shard, region)) = written _ (
      rw (off, in_region_hits)
        (rw (key_eq (id_at opts type (some r) t) d (sym shard) (sym id) (sym region))
          (eq_refl (key d))))

  -- with regions: so is its copy in a region
  hits_located :
      (type : ShardType) (e : DoId × String) (default_region here : String)
      → region_of opts ≡ some default_region
      → elem here available_regions ≡ true
      → IsDrawn opts type e
      → hits opts type (λ x. str_eq (key x) (key (set_region here e).0)) e.1 ≡ true
  unfolding hits tag_id new_do_id set_region
  hits_located type (d, t) default_region here on known (_, (r, written, id, shard, region)) =
      let at = id_at opts type (some r) t in
      let copy = region_id opts type at here in
      let moved = (set_region here (d, t)).0 in
      let same : key copy ≡ key moved = key_eq copy moved (sym shard) (sym id) refl in
      written _ (
        rw (on, in_region_hits)
          (any_of_elem (λ region. str_eq (key (region_id opts type at region)) (key moved)) here
            available_regions known (rw same (eq_refl (key moved)))))

  All-map-set_region :
      (type : ShardType) (here : String) (ids : List (DoId × String))
      → All
          (λ (e : DoId × String).
            (is_of type e.1 ≡ true)
            × (hits opts type (λ x. str_eq (key x) (key (set_region here e).0)) e.1 ≡ true))
          ids
      → All (IsHit type) (map (set_region here) ids)
  unfolding set_region
  All-map-set_region type here [] _ = tt
  All-map-set_region type here ((d, t) ∷ ids) (p, h) = (p, All-map-set_region type here ids h)

  generate-IsHit :
      (req : Request) (type : ShardType) (tags : List String)
      → IsConfigured opts
      → IsRandom req
      → All (IsHit type) (generate_do_id_array opts req tags type false)
  unfolding generate_do_id_array
  generate-IsHit req type tags c random =
      let drawn = regional_replicas-IsDrawn opts req type tags c random in
      let ids =
        regional_replicas opts type (req.draw type) (replica_indexes opts type false) tags in
      elim (Option-cases (region_of opts)) [
        | inl off ↦
            let e : generate_do_id_array opts req tags type false ≡ ids =
              rw (off, generate_do_id_array) in
            subst⁻¹ (All (IsHit type)) e
              (All-map (λ x h. (h.0, hits_unlocated type x off h)) ids drawn)
        | inr (default_region, on) ↦
            let here = closest_region req.continent default_region in
            let e : generate_do_id_array opts req tags type false ≡ map (set_region here) ids =
              rw (on, generate_do_id_array) in
            subst⁻¹ (All (IsHit type)) e (
              All-map-set_region type here ids (
                All-map
                  (λ x h. (
                    h.0,
                    hits_located type x default_region here on
                        (closest_region-elem req.continent default_region
                          (c.located default_region on))
                        h,
                  ))
                  ids drawn))
      ]

  -- Each tag that is read is asked of an object that every write of the tag reaches, whatever the
  -- replicas that are drawn and the region of the request.
  pub collect_ids-is_address :
      (req : Request) (tags : List String)
      → IsConfigured opts
      → IsRandom req
      → All
          (λ (e : DoId × String). is_address opts e.1 (key e.0) ≡ true)
          (collect_ids opts req tags false)
  unfolding collect_ids is_address
  collect_ids-is_address req tags c random =
      let one = λ (type : ShardType). generate-IsHit req type tags c random in
      All-append _ (generate_do_id_array opts req tags soft false)
        (generate_do_id_array opts req tags hard false) (All-map (λ x h. ground arith) _ (one soft))
        (All-map (λ x h. ground arith) _ (one hard))
