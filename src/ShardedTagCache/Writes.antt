-- ===== src/ShardedTagCache/Writes.antt =====
-- packages/cloudflare/src/api/overrides/tag-cache/do-sharded-tag-cache.ts: what a write leaves in the
-- objects, and what its retries do.
use adapters_api.Common.{
  ℕ, zero, suc, ◌+◌, ◌≤◌, String, ◌≡◌, refl, arith, true, false, List, [], ◌∷◌, str_eq, eq_iff,
  eq_refl, if◌then◌else◌, Bool-cases, inl, inr,
}
use adapters_api.Common.Assoc.{lookup, IsUnique, lookup-insert, lookup_absent}
use adapters_api.TagTable
use adapters_api.TagTable.{Table}
use adapters_api.ShardedTagCache.{Options, DoId, key}
use adapters_api.ShardedTagCache.Operations.{
  World, Env, table_of, delete_all, delete_regional_cache, write_object, write_once, give_up,
  perform_write, write_groups,
}
use adapters_api.ShardedTagCache.Groups.{Groups, tags_or_none, IsKeyed}

module _ (opts : Options) (env : Env) where
  -- If one of the attempts that are left succeeds, the tags are written once, whatever the attempts
  -- before it did, and no letter is sent.
  pub perform_write_eventually :
      (left n i : ℕ) (d : DoId) (tags : List String) (time : ℕ) (w : World)
      → i ≤ left
      → env.write_succeeds (key d) (n + i) ≡ true
      → perform_write opts env left n d tags time w ≡ write_once opts env d tags time w
  unfolding perform_write
  perform_write_eventually zero n i d tags time w le e =
      let q : n + i ≡ n = omega arith in
      let now : env.write_succeeds (key d) n ≡ true = rw q at e in rw now
  perform_write_eventually (suc left) n zero d tags time w le e =
      let q : n + 0 ≡ n = omega arith in
      let now : env.write_succeeds (key d) n ≡ true = rw q at e in rw now
  perform_write_eventually (suc left) n (suc i) d tags time w le e =
      let q : n + suc i ≡ suc n + i = omega arith in
      let later : env.write_succeeds (key d) (suc n + i) ≡ true = rw q at e in
      ground (arith, perform_write_eventually left (suc n) i d tags time w (omega arith) later)

  -- If all of the attempts that are left fail, the objects and the regional cache are unchanged, and
  -- one letter with the object, the tags and the time is sent.
  perform_write_never :
      (left n : ℕ) (d : DoId) (tags : List String) (time : ℕ) (w : World)
      → ((i : ℕ) → i ≤ left → env.write_succeeds (key d) (n + i) ≡ false)
      → perform_write opts env left n d tags time w ≡ give_up opts env d tags time w
  unfolding perform_write
  perform_write_never zero n d tags time w fails =
      let q : n + 0 ≡ n = omega arith in
      let now : env.write_succeeds (key d) n ≡ false = rw q at (fails 0 (omega arith)) in rw now
  perform_write_never (suc left) n d tags time w fails =
      let q : n + 0 ≡ n = omega arith in
      let now : env.write_succeeds (key d) n ≡ false = rw q at (fails 0 (omega arith)) in
      let rest : (i : ℕ) → i ≤ left → env.write_succeeds (key d) (suc n + i) ≡ false = λ i le.
        let e : n + suc i ≡ suc n + i = omega arith in rw e at (fails (suc i) (omega arith)) in
      rw now (perform_write_never left (suc n) d tags time w rest)

  -- some attempt on each object succeeds
  abbrev pub WritesSucceed : Type 0
  WritesSucceed =
      (k : String) → (i : ℕ) × (i ≤ opts.max_write_retries) × (env.write_succeeds k i ≡ true)

  delete_all_objects :
      (d : DoId) (tags : List String) (w : World)
      → (delete_all opts env d tags w).objects ≡ w.objects
  unfolding delete_all
  delete_all_objects d [] w = refl
  delete_all_objects d (tag ∷ tags) w = delete_all_objects d tags _

  table_of-write_once :
      (d : DoId) (tags : List String) (time : ℕ) (w : World) (k : String)
      → table_of k (write_once opts env d tags time w)
        ≡ (if str_eq (key d) k then TagTable.write_tags tags time (table_of k w) else table_of k w)
  unfolding write_once delete_regional_cache write_object table_of
  table_of-write_once d tags time w k = ground (
    arith,
    eq_iff (key d) k,
    delete_all_objects d tags (write_object opts env (key d) tags time w),
    lookup-insert (key d) k (TagTable.write_tags tags time (table_of (key d) w)) w.objects,
  )

  pub table_of-write_groups :
      (gs : Groups) (time : ℕ) (w : World) (k : String)
      → WritesSucceed
      → IsUnique gs
      → IsKeyed gs
      → table_of k (write_groups opts env gs time w)
        ≡ TagTable.write_tags (tags_or_none (lookup k gs)) time (table_of k w)
  unfolding write_groups lookup TagTable.write_tags
  table_of-write_groups [] time w k ok _ _ = refl
  table_of-write_groups ((j, g) ∷ gs) time w k ok (fresh, u) (own, keyed) =
      let (i, le, e) = ok (key g.do_id) in
      let w' = write_once opts env g.do_id g.tags time w in
      let q : 0 + i ≡ i = omega arith in
      let once =
        perform_write_eventually opts.max_write_retries 0 i g.do_id g.tags time w le (rw q e) in
      let rest = table_of-write_groups gs time w' k ok u keyed in
      rw once (elim (Bool-cases (str_eq j k)) [
        | inl same ↦ ground (
          arith,
          eq_iff j k,
          eq_refl k,
          rest,
          table_of-write_once g.do_id g.tags time w k,
          lookup_absent k gs,
        )
        | inr other ↦ ground (arith, rest, table_of-write_once g.do_id g.tags time w k)
      ])
