-- ===== src/NextTagCache/Agreement.antt =====
-- packages/cloudflare/src/api/overrides/tag-cache/d1-next-tag-cache.ts and kv-next-tag-cache.ts: the two
-- caches compared.
use adapters_api.Common.{
  ℕ, ◌≡◌, refl, ap, sym, ◌∙◌, arith, inl, inr, String, true, false, not, none, some, List, [], ◌∷◌,
  max, ltb, any, all, map, filter, str_eq, eq_iff, Bool-cases, Option-cases, if◌then◌else◌,
}
use mathlib.Core.Path.{subst, subst⁻¹}
use adapters_api.TagTable.{time_or_zero}
use adapters_api.Common.Assoc.{
  lookup, insert, remove, has, IsUnique, lookup-insert, lookup-remove, has-remove_self,
  has-remove_ne, lookup_absent,
}
use adapters_api.NextTagCache.{
  Env, Store, largest, rows_in, values_of, is_empty, get_cache_key, is_off, purge,
  d1_get_last_revalidated, d1_has_been_revalidated, insert_rows, d1_write_tags,
  kv_get_last_revalidated, kv_has_been_revalidated, put_values, kv_write_tags,
}

filter-largest :
    (time : ℕ) (ts : List ℕ) → not (is_empty (filter (ltb time) ts)) ≡ ltb time (largest ts)
unfolding largest
filter-largest time [] = ground arith
filter-largest time (t ∷ ts) = ground (arith, filter-largest time ts)

-- The two queries of the D1 cache agree, on every branch: a list of tags counts as revalidated since a
-- time exactly when its last revalidation is later.
d1_has_been_revalidated-eq-last :
    (env : Env) (tags : List String) (time : ℕ) (s : Store)
    → d1_has_been_revalidated env tags time s ≡ ltb time (d1_get_last_revalidated env tags s)
unfolding d1_has_been_revalidated d1_get_last_revalidated
d1_has_been_revalidated-eq-last env tags time s =
    ground (arith, filter-largest time (rows_in (map (get_cache_key env) tags) s.rows))

largest-values_of :
    (k : String) (keys : List String) (rows : List (String × ℕ))
    → largest (values_of (k ∷ keys) rows)
      ≡ max (time_or_zero (lookup k rows)) (largest (values_of keys rows))
unfolding largest values_of
largest-values_of k keys rows = elim (Option-cases (lookup k rows)) [
  | inl e ↦ rw (e, values_of) (omega arith)
  | inr (t, e) ↦ rw (e, values_of) refl
]

lookup-row :
    (key k : String) (time : ℕ) (rows : List (String × ℕ))
    → lookup k ((key, time) ∷ rows) ≡ (if str_eq key k then some time else lookup k rows)
unfolding lookup
lookup-row key k time rows = refl

values_of_none : (rows : List (String × ℕ)) → values_of [] rows ≡ []
unfolding values_of
values_of_none rows = refl

-- one row more, whose key is not in the others
largest-row :
    (key : String) (time : ℕ) (keys : List String) (rows : List (String × ℕ))
    → has key rows ≡ false
    → largest (values_of keys ((key, time) ∷ rows)) ≡ (
        if any (str_eq key) keys
        then max time (largest (values_of keys rows))
        else largest (values_of keys rows))
largest-row key time [] rows h = rw (values_of_none, values_of_none) refl
largest-row key time (k ∷ keys) rows h =
    let all_rows = (key, time) ∷ rows in
    let gone = lookup_absent key rows h in
    let lhs = largest-values_of k keys all_rows in
    let rhs = largest-values_of k keys rows in
    let earlier = largest-row key time keys rows h in
    elim (Bool-cases (str_eq key k)) [
      | inl e ↦
          let same : key ≡ k = (eq_iff key k).0 e in
          let found : lookup k all_rows ≡ some time = lookup-row key k time rows ∙ rw e refl in
          let none_else : lookup k rows ≡ none = subst (λ j. lookup j rows ≡ none) same gone in
          rw (lhs, rhs, found, none_else) (ground (arith, earlier, e))
      | inr e ↦
          let found : lookup k all_rows ≡ lookup k rows = lookup-row key k time rows ∙ rw e refl in
          rw (lhs, rhs, found) (ground (arith, earlier, e))
    ]

values_of_empty : (keys : List String) → largest (values_of keys []) ≡ 0
unfolding largest values_of lookup
values_of_empty [] = refl
values_of_empty (key ∷ keys) = values_of_empty keys

largest-rows_in :
    (keys : List String) (rows : List (String × ℕ))
    → IsUnique rows
    → largest (rows_in keys rows) ≡ largest (values_of keys rows)
unfolding largest rows_in
largest-rows_in keys [] u = sym (values_of_empty keys)
largest-rows_in keys ((key, time) ∷ rows) (absent, u) =
    ground (arith, largest-row key time keys rows absent, largest-rows_in keys rows u)

-- the keys that are asked for have the same times in both
values_of-same :
    (keys : List String) (rows others : List (String × ℕ))
    → ((k : String) → lookup k rows ≡ lookup k others)
    → values_of keys rows ≡ values_of keys others
unfolding values_of
values_of-same [] rows others same = refl
values_of-same (key ∷ keys) rows others same =
    let earlier = values_of-same keys rows others same in
    elim (Option-cases (lookup key others)) [
      | inl e ↦ rw (same key ∙ e, e, values_of) earlier
      | inr (time, e) ↦ rw (same key ∙ e, e, values_of) (ap (λ ts. time ∷ ts) earlier)
    ]

remove-IsUnique : (k : String) (m : List (String × ℕ)) → IsUnique m → IsUnique (remove k m)
unfolding remove has
remove-IsUnique k [] u = tt
remove-IsUnique k ((j, v) ∷ m) (p, u) = elim (Bool-cases (str_eq j k)) [
  | inl e ↦ rw e (remove-IsUnique k m u)
  | inr e ↦ rw e (has-remove_ne k j m (ground (arith, eq_iff j k)) ∙ p, remove-IsUnique k m u)
]

insert_rows-IsUnique :
    (env : Env) (tags : List String) (now : ℕ) (rows : List (String × ℕ))
    → IsUnique rows
    → IsUnique (insert_rows env tags now rows)
unfolding insert_rows
insert_rows-IsUnique env [] now rows u = u
insert_rows-IsUnique env (tag ∷ tags) now rows u =
    let key = get_cache_key env tag in
    insert_rows-IsUnique env tags now ((key, now) ∷ remove key rows)
      (has-remove_self key rows, remove-IsUnique key rows u)

same_key :
    (d k : Env) (tag : String) → d.build_id ≡ k.build_id → get_cache_key d tag ≡ get_cache_key k tag
unfolding get_cache_key
same_key d k tag e = rw e refl

same_keys :
    (d k : Env) (tags : List String)
    → d.build_id ≡ k.build_id
    → map (get_cache_key d) tags ≡ map (get_cache_key k) tags
same_keys d k [] e = refl
same_keys d k (tag ∷ tags) e = rw (same_key d k tag e, same_keys d k tags e) refl

-- one write, in the table and in the namespace
lookup-insert_rows :
    (d k : Env) (tags : List String) (now : ℕ) (rows others : List (String × ℕ))
    → d.build_id ≡ k.build_id
    → ((key : String) → k.put_succeeds key ≡ true)
    → ((j : String) → lookup j rows ≡ lookup j others)
    → (j : String)
    → lookup j (insert_rows d tags now rows) ≡ lookup j (put_values k tags now others)
unfolding insert_rows put_values
lookup-insert_rows d k [] now rows others e puts same j = same j
lookup-insert_rows d k (tag ∷ tags) now rows others e puts same j =
    let key = get_cache_key k tag in
    let row : List (String × ℕ) = (key, now) ∷ remove key rows in
    rw (same_key d k tag e, puts key)
      (lookup-insert_rows d k tags now row (insert key now others) e puts
        (λ i. ground (
          arith,
          lookup-row key i now (remove key rows),
          lookup-remove key i rows,
          lookup-insert key i now others,
          same i,
        ))
        j)

-- The table of the D1 cache has one row for a key at most, and the same time as a view of the namespace.
pub record Agree (s t : Store) : Type 0 where
  pub unique : IsUnique s.rows
  pub same : (k : String) → lookup k s.rows ≡ lookup k t.rows

-- Reads of the namespace see all that was written. KV is eventually consistent, so that this takes up to
-- a minute.
pub record HasSpread (written seen : Store) : Type 0 where
  pub same : (k : String) → lookup k seen.rows ≡ lookup k written.rows

-- The two caches are set up alike: the same build, and both on or both off for the tags.
pub record AreAlike (d k : Env) (tags : List String) : Type 0 where
  pub build_id : d.build_id ≡ k.build_id
  pub switched : is_off d tags ≡ is_off k tags

purge-rows : (env : Env) (tags : List String) (s : Store) → (purge env tags s).rows ≡ s.rows
unfolding purge
purge-rows env tags s = elim (Bool-cases env.is_purge_enabled) [
  | inl e ↦ ground (arith, e)
  | inr e ↦ ground (arith, e)
]

all_puts :
    (env : Env) (tags : List String)
    → ((key : String) → env.put_succeeds key ≡ true)
    → all (λ tag. env.put_succeeds (get_cache_key env tag)) tags ≡ true
all_puts env [] puts = refl
all_puts env (tag ∷ tags) puts =
    ground (arith, puts (get_cache_key env tag), all_puts env tags puts)

-- `writeTags` of both caches at the same time, if they have the same times before, the same build, are
-- both on or both off, and their calls succeed, leaves the same times in the table and in the namespace,
-- as it is seen once the writes have spread; and the table has at most one row for a key.
pub Agree-write_tags :
    (d k : Env) (tags : List String) (now : ℕ) (s t written seen : Store)
    → AreAlike d k tags
    → Agree s t
    → ((key : String) → k.put_succeeds key ≡ true)
    → d1_write_tags d tags now s ≡ some written
    → HasSpread (kv_write_tags k tags now t).0 seen
    → Agree written seen
unfolding d1_write_tags kv_write_tags
Agree-write_tags d k tags now s t written seen alike a puts e spread =
    elim (Bool-cases (is_off k tags)) [
      | inl off ↦
          let left : s ≡ written = ground (arith, e, off, alike.switched) in
          let right : (kv_write_tags k tags now t).0 ≡ t = ground (arith, off) in
          record {
            unique = subst (λ w. IsUnique w.rows) left a.unique;
            same = λ j.
                sym (ap (λ w. lookup j w.rows) left)
                ∙ a.same j
                ∙ sym (ap (λ w. lookup j w.rows) right)
                ∙ sym (spread.same j);
          }
      | inr on ↦
          let left : written.rows ≡ insert_rows d tags now s.rows = ground (
            arith,
            e,
            on,
            alike.switched,
            purge-rows d tags (record s { rows = insert_rows d tags now s.rows }),
          ) in
          let right : (kv_write_tags k tags now t).0.rows ≡ put_values k tags now t.rows = ground (
            arith,
            on,
            all_puts k tags puts,
            purge-rows k tags (record t { rows = put_values k tags now t.rows }),
          ) in
          record {
            unique = subst⁻¹ IsUnique left (insert_rows-IsUnique d tags now s.rows a.unique);
            same = λ j.
                ap (lookup j) left
                ∙ lookup-insert_rows d k tags now s.rows t.rows alike.build_id puts a.same j
                ∙ ap (lookup j) (sym right)
                ∙ sym (spread.same j);
          }
    ]

-- Two caches with the same build, both on or both off, whose queries both succeed or both fail, and with
-- the same times in the table and in what is seen of the namespace, give every list of tags the same
-- last revalidation, and the same answer to whether it has been revalidated.
pub Agree-reads :
    (d k : Env) (tags : List String) (time : ℕ) (s t : Store)
    → AreAlike d k tags
    → d.query_succeeds ≡ k.query_succeeds
    → Agree s t
    → (d1_get_last_revalidated d tags s ≡ kv_get_last_revalidated k tags t)
      × (d1_has_been_revalidated d tags time s ≡ kv_has_been_revalidated k tags time t)
unfolding d1_get_last_revalidated kv_get_last_revalidated kv_has_been_revalidated
Agree-reads d k tags time s t alike queries a =
    let keys = map (get_cache_key k) tags in
    let table : largest (rows_in keys s.rows) ≡ largest (values_of keys t.rows) =
      largest-rows_in keys s.rows a.unique
      ∙ ap largest (values_of-same keys s.rows t.rows a.same) in
    let last : d1_get_last_revalidated d tags s ≡ kv_get_last_revalidated k tags t =
      ground (arith, table, same_keys d k tags alike.build_id, alike.switched, queries) in
    (last, d1_has_been_revalidated-eq-last d tags time s ∙ ap (ltb time) last)
