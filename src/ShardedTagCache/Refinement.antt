-- ===== src/ShardedTagCache/Refinement.antt =====
-- packages/cloudflare/src/api/overrides/tag-cache/do-sharded-tag-cache.ts: without the regional cache
-- the shards, replicas and regions together behave as one table of revalidation times.
use adapters_api.Common.{
  ℕ, String, ◌≡◌, refl, ◌∙◌, arith, Bool, true, false, ◌||◌, none, some, List, [], ◌∷◌, any,
  any-append, All, str_eq, eq_iff, if◌then◌else◌, Bool-cases, inl, inr,
}
use adapters_api.Common.Assoc.{lookup, insert, lookup-insert}
use adapters_api.TagTable
use adapters_api.TagTable.{Table, is_newer}
use adapters_api.ShardedTagCache.{
  Options, Request, DoId, Group, key, collect_ids, add_to_groups, group_ids, group_tags_by_do,
}
use adapters_api.ShardedTagCache.Operations.{
  World, Env, table_of, get_from_regional_cache, write_tags, group_revalidated, any_revalidated,
  has_been_revalidated,
}
use adapters_api.ShardedTagCache.Groups.{
  Ids, Groups, tags_for, IsKeyed, group_tags_by_do-partition, group_ids-IsKeyed,
}
use adapters_api.ShardedTagCache.Writes.{WritesSucceed, table_of-write_groups}
use adapters_api.ShardedTagCache.Addresses.{elem, is_address, elem-tags_for, sel-collect_ids}
use adapters_api.ShardedTagCache.ReadTags.{any_tag-collect_ids}
use adapters_api.ShardedTagCache.Drawn.{IsConfigured, IsRandom}
use adapters_api.ShardedTagCache.Reads.{collect_ids-is_address}

lookup-write_tags :
    (tags : List String) (time : ℕ) (table : Table) (t : String)
    → lookup t (TagTable.write_tags tags time table)
      ≡ (if elem t tags then some time else lookup t table)
unfolding TagTable.write_tags
lookup-write_tags [] time table t = refl
lookup-write_tags (u ∷ tags) time table t =
    ground
      (arith, lookup-write_tags tags time (insert u time table) t, lookup-insert u t time table)

module _ (opts : Options) (env : Env) where
  -- Each object holds, for the tags that have it for an address, what the one table holds, and no
  -- other tag.
  abbrev pub Represents : World → Table → Type 0
  Represents w table =
      (t k : String)
      → lookup t (table_of k w) ≡ (if is_address opts t k then lookup t table else none)

  -- Every read of an object succeeds, on every object some write attempt does, and the cache is
  -- enabled.
  pub record IsUp : Type 0 where
    pub reads : (k : String) → env.read_succeeds k ≡ true
    pub writes : WritesSucceed opts env
    pub enabled : env.is_disabled ≡ false

  table_of-write :
      (req : Request) (tags : List String) (now : ℕ) (w : World) (k : String)
      → IsUp
      → table_of k (write_tags opts env req tags now w)
        ≡ TagTable.write_tags (tags_for k (collect_ids opts req tags true)) now (table_of k w)
  unfolding write_tags table_of
  table_of-write req tags now w k up =
      let (unique, keyed, same) = group_tags_by_do-partition opts req tags true k in
      let written =
        table_of-write_groups opts env (group_tags_by_do opts req tags true) now w k up.writes
          unique keyed in
      let off = up.enabled in ground (arith, written, same)

  -- When the cache is enabled and one of the attempts succeeds on every object, `writeTags` on objects
  -- that hold what the one table holds is the write of the same tags at the same time on that table.
  pub Represents-write_tags :
      (req : Request) (tags : List String) (now : ℕ) (w : World) (table : Table)
      → IsUp
      → Represents w table
      → Represents (write_tags opts env req tags now w) (TagTable.write_tags tags now table)
  Represents-write_tags req tags now w table up r t k =
      let ids = collect_ids opts req tags true in
      rw (table_of-write req tags now w k up) (
        ground (
          arith,
          lookup-write_tags (tags_for k ids) now (table_of k w) t,
          elem-tags_for k t ids,
          sel-collect_ids opts req k t tags,
          lookup-write_tags tags now table t,
          r t k,
        ))

  -- the answer of the objects to each id
  abbrev newer : ℕ → World → DoId × String → Bool
  newer time w (d, t) = is_newer time (lookup t (table_of (key d) w))

  abbrev any_group : ℕ → World → Groups → Bool
  any_group time w gs =
      any
        (λ (e : String × Group).
          TagTable.has_been_revalidated e.1.tags time (table_of (key e.1.do_id) w))
        gs

  any_group-add :
      (time : ℕ) (w : World) (d : DoId) (tag : String) (gs : Groups)
      → IsKeyed gs
      → any_group time w (add_to_groups d tag gs) ≡ (any_group time w gs || newer time w (d, tag))
  unfolding add_to_groups TagTable.has_been_revalidated
  any_group-add time w d tag [] _ = ground arith
  any_group-add time w d tag ((j, g) ∷ gs) (own, keyed) = elim (Bool-cases (str_eq j (key d))) [
    | inl same ↦
        let q : key g.do_id ≡ key d = own ∙ (eq_iff j (key d)).0 same in
        rw (same, q)
          (ground (
            arith,
            any-append (λ t. is_newer time (lookup t (table_of (key d) w))) g.tags (tag ∷ []),
          ))
    | inr other ↦ rw other (ground (arith, any_group-add time w d tag gs keyed))
  ]

  add_to_groups-IsKeyed' :
      (d : DoId) (tag : String) (gs : Groups) → IsKeyed gs → IsKeyed (add_to_groups d tag gs)
  unfolding group_ids
  add_to_groups-IsKeyed' d tag gs keyed = group_ids-IsKeyed ((d, tag) ∷ []) gs keyed

  any_group-group_ids :
      (time : ℕ) (w : World) (ids : Ids) (gs : Groups)
      → IsKeyed gs
      → any_group time w (group_ids ids gs) ≡ (any_group time w gs || any (newer time w) ids)
  unfolding group_ids
  any_group-group_ids time w [] gs _ = ground arith
  any_group-group_ids time w ((d, tag) ∷ ids) gs keyed =
      any_group-group_ids time w ids (add_to_groups d tag gs)
        (add_to_groups-IsKeyed' d tag gs keyed)
      ∙ ground (arith, any_group-add time w d tag gs keyed)

  any_revalidated-group :
      (time : ℕ) (w : World) (gs : Groups)
      → opts.regional_cache ≡ false
      → IsUp
      → any_revalidated opts env gs time w ≡ some (any_group time w gs)
  unfolding any_revalidated group_revalidated get_from_regional_cache
  any_revalidated-group time w [] off up = refl
  any_revalidated-group time w ((j, g) ∷ gs) off up =
      ground (arith, any_revalidated-group time w gs off up, up.reads (key g.do_id))

  any-represented :
      (time : ℕ) (w : World) (table : Table) (ids : Ids)
      → Represents w table
      → All (λ (e : DoId × String). is_address opts e.1 (key e.0) ≡ true) ids
      → any (newer time w) ids ≡ any (λ (e : DoId × String). is_newer time (lookup e.1 table)) ids
  any-represented time w table [] r _ = refl
  any-represented time w table ((d, t) ∷ ids) r (here, rest) =
      ground (arith, r t (key d), any-represented time w table ids r rest)

  -- Without the regional cache, when the settings are valid, the cache is enabled, the objects hold what
  -- the one table holds, and reading them succeeds, `hasBeenRevalidated` answers as the one table does:
  -- true exactly if one of the tags has a time after the given one, for every draw of the replicas and
  -- every region of the request.
  pub has_been_revalidated-eq-table :
      (req : Request) (tags : List String) (time : ℕ) (w : World) (table : Table)
      → opts.regional_cache ≡ false
      → IsUp
      → IsConfigured opts
      → IsRandom req
      → Represents w table
      → has_been_revalidated opts env req tags time w
        ≡ TagTable.has_been_revalidated tags time table
  unfolding has_been_revalidated TagTable.has_been_revalidated group_tags_by_do
  has_been_revalidated-eq-table req [] time w table off up c random r = refl
  has_been_revalidated-eq-table req (t ∷ tags) time w table off up c random r =
      let all_tags = t ∷ tags in
      let ids = collect_ids opts req all_tags false in
      let answer : any_group time w (group_ids ids [])
          ≡ any (λ u. is_newer time (lookup u table)) all_tags =
        any_group-group_ids time w ids [] tt
        ∙ (any-represented time w table ids r (collect_ids-is_address opts req all_tags c random)
            ∙ any_tag-collect_ids opts (λ u. is_newer time (lookup u table)) req all_tags) in
      ground (arith, up.enabled, any_revalidated-group time w (group_ids ids []) off up, answer)
