-- ===== src/BucketPurge/Batches.antt =====
-- packages/cloudflare/src/api/durable-objects/bucket-cache-purge.ts: the table of tags that
-- `purgeCacheByTags` fills, and the batches that are deleted from it.
use mathlib.Core.Path.{subst}
use adapters_api.Common.{
  ℕ, Option, none, some, if◌then◌else◌, zero, suc, ◌+◌, ◌*◌, ◌≤◌, ◌<◌, ◌≡◌, refl, ap, ◌∙◌, arith,
  String, true, false, ◌||◌, List, [], ◌∷◌, ◌++◌, str_eq, eq_iff, eq_refl, length, take, drop,
  any-append, Bool-cases, inl, inr, ◌⊎◌,
}
use adapters_api.BucketPurge.{
  Purger, contains, insert_tag, insert_tags, is_set, purge_cache_by_tags, delete_tags,
}

-- what the unique index on `tag` gives
abbrev pub IsDistinct : List String → Type 0
IsDistinct [] = Unit
IsDistinct (t ∷ ts) = (contains t ts ≡ false) × IsDistinct ts

contains-insert_tag :
    (t tag : String) (table : List String)
    → contains t (insert_tag tag table) ≡ (str_eq tag t || contains t table)
unfolding insert_tag
contains-insert_tag t tag table = elim (Bool-cases (contains tag table)) [
  | inl old ↦ rw old (absorbed (Bool-cases (str_eq tag t)) old)
  | inr new ↦ rw new (ground (arith, any-append (λ u. str_eq u t) table (tag ∷ [])))
]
  where
    absorbed :
        ((str_eq tag t ≡ true) ⊎ (str_eq tag t ≡ false))
        → contains tag table ≡ true
        → contains t table ≡ (str_eq tag t || contains t table)
    absorbed (inl same) old =
        rw same (subst (λ u. contains u table ≡ true) ((eq_iff tag t).0 same) old)
    absorbed (inr other) old = rw other refl

IsDistinct-append :
    (ts : List String) (tag : String)
    → IsDistinct ts
    → contains tag ts ≡ false
    → IsDistinct (ts ++ tag ∷ [])
IsDistinct-append [] tag _ _ = (refl, tt)
IsDistinct-append (t ∷ ts) tag (p, d) e = (
  ground (arith, any-append (λ u. str_eq u t) ts (tag ∷ []), eq_iff t tag, eq_iff tag t),
  IsDistinct-append ts tag d (ground arith),
)

insert_tag-IsDistinct :
    (tag : String) (table : List String) → IsDistinct table → IsDistinct (insert_tag tag table)
unfolding insert_tag
insert_tag-IsDistinct tag table d = elim (Bool-cases (contains tag table)) [
  | inl old ↦ rw old d
  | inr new ↦ rw new (IsDistinct-append table tag d new)
]

pub contains-insert_tags :
    (t : String) (tags table : List String)
    → contains t (insert_tags tags table) ≡ (contains t tags || contains t table)
unfolding insert_tags
contains-insert_tags t [] table = refl
contains-insert_tags t (tag ∷ tags) table =
    ground
      (arith, contains-insert_tags t tags (insert_tag tag table), contains-insert_tag t tag table)

insert_tags-IsDistinct :
    (tags table : List String) → IsDistinct table → IsDistinct (insert_tags tags table)
unfolding insert_tags
insert_tags-IsDistinct [] table d = d
insert_tags-IsDistinct (tag ∷ tags) table d =
    insert_tags-IsDistinct tags (insert_tag tag table) (insert_tag-IsDistinct tag table d)

-- The alarm of the object, before and after: one that was set is kept, else it is set at `wanted`.
abbrev pub IsScheduled : Option ℕ → Option ℕ → ℕ → Type 0
IsScheduled old new wanted =
    ((at : ℕ) × (0 < at) × (old ≡ some at) × (new ≡ some at))
    ⊎ (((old ≡ none) ⊎ (old ≡ some 0)) × (new ≡ some wanted))

-- After `purgeCacheByTags` on a table that has no tag twice, the table holds a tag exactly if it was in
-- the call or in the table, and none twice. An alarm that was set is kept as it was; if there was none (or
-- one at the time 0), the alarm is set at the end of the buffer time, in seconds, from now.
pub purge_cache_by_tags-collects :
    (buffer now : ℕ) (tags : List String) (p : Purger) (t : String)
    → IsDistinct p.cache_purge
    → (contains t (purge_cache_by_tags buffer now tags p).cache_purge
        ≡ (contains t tags || contains t p.cache_purge))
      × IsDistinct (purge_cache_by_tags buffer now tags p).cache_purge
      × IsScheduled p.stored_alarm
          (purge_cache_by_tags buffer now tags p).stored_alarm
          (now + buffer * 1000)
unfolding purge_cache_by_tags
purge_cache_by_tags-collects buffer now tags p t d = (
  contains-insert_tags t tags p.cache_purge,
  insert_tags-IsDistinct tags p.cache_purge d,
  scheduled p.stored_alarm,
)
  where
    scheduled :
        (old : Option ℕ)
        → IsScheduled old
            (if is_set old then old else some (now + buffer * 1000))
            (now + buffer * 1000)
    scheduled none = inr (inl refl, refl)
    scheduled (some zero) = inr (inr refl, refl)
    scheduled (some (suc n)) = inl (suc n, omega arith, refl, refl)

delete_tags-cons_absent :
    (x : String) (batch xs : List String)
    → contains x xs ≡ false
    → delete_tags (x ∷ batch) xs ≡ delete_tags batch xs
unfolding delete_tags
delete_tags-cons_absent x batch [] e = refl
delete_tags-cons_absent x batch (y ∷ xs) e =
    ground (arith, eq_iff x y, eq_iff y x, delete_tags-cons_absent x batch xs)

delete_nothing : (xs : List String) → delete_tags [] xs ≡ xs
unfolding delete_tags
delete_nothing [] = refl
delete_nothing (x ∷ xs) = ap (◌∷◌ x) (delete_nothing xs)

-- Deleting the selected batch leaves the rest of the table.
pub delete_tags-take :
    (n : ℕ) (xs : List String) → IsDistinct xs → delete_tags (take n xs) xs ≡ drop n xs
unfolding delete_tags
delete_tags-take zero xs d = delete_nothing xs
delete_tags-take (suc n) [] d = refl
delete_tags-take (suc n) (x ∷ xs) (p, d) =
    rw (eq_refl x) (delete_tags-cons_absent x (take n xs) xs p ∙ delete_tags-take n xs d)

contains-drop :
    (t : String) (n : ℕ) (xs : List String) → contains t xs ≡ false → contains t (drop n xs) ≡ false
contains-drop t zero xs e = e
contains-drop t (suc n) [] e = refl
contains-drop t (suc n) (x ∷ xs) e = contains-drop t n xs (ground arith)

pub IsDistinct-drop : (n : ℕ) (xs : List String) → IsDistinct xs → IsDistinct (drop n xs)
IsDistinct-drop zero xs d = d
IsDistinct-drop (suc n) [] d = tt
IsDistinct-drop (suc n) (x ∷ xs) (_, d) = IsDistinct-drop n xs d

pub drop_short : (n : ℕ) (xs : List String) → length xs ≤ n → drop n xs ≡ []
drop_short zero [] h = refl
drop_short zero (x ∷ xs) h = absurd (omega arith)
drop_short (suc n) [] h = refl
drop_short (suc n) (x ∷ xs) h = drop_short n xs (omega arith)
