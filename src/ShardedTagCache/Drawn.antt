-- ===== src/ShardedTagCache/Drawn.antt =====
-- packages/cloudflare/src/api/overrides/tag-cache/do-sharded-tag-cache.ts: the replica and the region
-- that a read takes.
use mathlib.Core.Path.{subst⁻¹}
use adapters_api.Common.{
  ℕ, suc, ◌+◌, ◌-◌, ◌*◌, ◌^◌, ◌≤◌, ◌<◌, String, ◌≡◌, refl, arith, Bool, true, false, Option, none,
  some, List, [], ◌∷◌, filter, any, All, All-append, str_eq, if◌then◌else◌, Bool-cases, inl, inr,
  Option-cases,
}
use adapters_api.ShardedTagCache.{
  Options, Replication, Request, DoId, ShardType, new_do_id, random_between, available_regions,
  is_of, replicas_of, num_replicas, replica_indexes, tag_id, replica_ids, regional_replicas,
  closest_region, region_of,
}
use adapters_api.ShardedTagCache.Addresses.{elem, id_at, any-indexes}

-- The replicas are at least one, and the default region is one of the regions.
pub record IsConfigured (opts : Options) : Type 0 where
  pub replicated :
      (type : ShardType) (r : Replication)
      → opts.shard_replication ≡ some r
      → 1 ≤ replicas_of type r
  pub located :
      (region : String) → region_of opts ≡ some region → elem region available_regions ≡ true

-- `Math.random()` is below 1.
pub record IsRandom (req : Request) : Type 0 where
  pub below : (type : ShardType) (i : ℕ) → req.draw type i < 2 ^ 52

pub closest_region-elem :
    (continent : Option String) (region : String)
    → elem region available_regions ≡ true
    → elem (closest_region continent region) available_regions ≡ true
unfolding closest_region
closest_region-elem none region e = e
closest_region-elem (some c) region e = step (str_eq c "") region _ e (
    step (str_eq c "AF") "afr" _ refl (
      step (str_eq c "AS") "apac" _ refl (
        step (str_eq c "EU") "weur" _ refl (
          step (str_eq c "NA") "enam" _ refl
            (step (str_eq c "OC") "oc" _ refl (step (str_eq c "SA") "sam" _ refl e))))))
  where
    step :
        (b : Bool) (x y : String)
        → elem x available_regions ≡ true
        → elem y available_regions ≡ true
        → elem (if b then x else y) available_regions ≡ true
    step true x y p q = p
    step false x y p q = q

-- A random replica is one of those that are written.
pub random_between_range :
    (draw n : ℕ)
    → draw < 2 ^ 52
    → 1 ≤ n
    → (1 ≤ random_between draw 1 n) × (random_between draw 1 n ≤ n)
unfolding random_between
random_between_range draw n h p =
    let m : n + 1 - 1 ≡ n = omega arith in
    let below : draw * n < 2 ^ 52 * n = grind arith in rw m (omega arith, omega arith)

module _ (opts : Options) where
  -- the id that a read draws, before its region is set
  abbrev pub IsDrawn : ShardType → DoId × String → Type 0
  IsDrawn type (d, t) =
      (is_of type t ≡ true)
      × ((r : ℕ) × ((p : Option ℕ → Bool)
            → p (some r) ≡ true
            → any p (replica_indexes opts type true) ≡ true)
          × (d.replica_id ≡ r)
          × (d.shard_id ≡ (id_at opts type (some r) t).shard_id)
          × (d.region ≡ none))

  -- The replica that a read takes: the first one without replication, else a random one.
  abbrev drawn_replica : ShardType → (ℕ → ℕ) → ℕ → Option ℕ → ℕ
  drawn_replica type draw i none = random_between (draw i) 1 (num_replicas opts type)
  drawn_replica type draw i (some r) = r

  abbrev pub IsWritten : ShardType → ℕ → Type 0
  IsWritten type r =
      (p : Option ℕ → Bool) → p (some r) ≡ true → any p (replica_indexes opts type true) ≡ true

  replica_ids-IsDrawn :
      (type : ShardType) (draw : ℕ → ℕ) (replica : Option ℕ) (i : ℕ) (tags : List String)
      → ((j : ℕ) → IsWritten type (drawn_replica type draw j replica))
      → All (λ t. is_of type t ≡ true) tags
      → All (IsDrawn type) (replica_ids opts type draw replica i tags)
  unfolding replica_ids tag_id new_do_id
  replica_ids-IsDrawn type draw replica i [] w _ = tt
  replica_ids-IsDrawn type draw none i (t ∷ tags) w (p, h) = (
    (p, (drawn_replica type draw i none, w i, refl, refl, refl)),
    replica_ids-IsDrawn type draw none (suc i) tags w h,
  )
  replica_ids-IsDrawn type draw (some r) i (t ∷ tags) w (p, h) =
      ((p, (r, w i, refl, refl, refl)), replica_ids-IsDrawn type draw (some r) (suc i) tags w h)

  All-filter_self : (p : String → Bool) (tags : List String) → All (λ t. p t ≡ true) (filter p tags)
  All-filter_self p [] = tt
  All-filter_self p (t ∷ tags) = elim (Bool-cases (p t)) [
    | inl e ↦ rw e (e, All-filter_self p tags)
    | inr e ↦ rw e (All-filter_self p tags)
  ]

  IsWritten-single : (type : ShardType) → opts.shard_replication ≡ none → IsWritten type 1
  unfolding replica_indexes
  IsWritten-single type single p h = rw (single, replica_indexes) (ground arith)

  IsWritten-several :
      (type : ShardType) (r : Replication) (draw : ℕ)
      → opts.shard_replication ≡ some r
      → 1 ≤ replicas_of type r
      → draw < 2 ^ 52
      → IsWritten type (random_between draw 1 (num_replicas opts type))
  unfolding replica_indexes num_replicas
  IsWritten-several type r draw e pos below p h =
      let n = replicas_of type r in
      let same : num_replicas opts type ≡ n = rw (e, num_replicas) in
      let (low, high) = random_between_range draw n below pos in
      let h' : p (some (random_between draw 1 n)) ≡ true = rw same at h in
      rw (e, replica_indexes) (any-indexes p 1 n (random_between draw 1 n) low (omega arith) h')

  one_pass-IsDrawn :
      (type : ShardType) (draw : ℕ → ℕ) (replica : Option ℕ) (tags : List String)
      → ((j : ℕ) → IsWritten type (drawn_replica type draw j replica))
      → All (IsDrawn type) (regional_replicas opts type draw (replica ∷ []) tags)
  unfolding regional_replicas
  one_pass-IsDrawn type draw replica tags w =
      let mine = filter (is_of type) tags in
      All-append (IsDrawn type) (replica_ids opts type draw replica 0 mine) []
        (replica_ids-IsDrawn type draw replica 0 mine w (All-filter_self (is_of type) tags)) tt

  pub regional_replicas-IsDrawn :
      (req : Request) (type : ShardType) (tags : List String)
      → IsConfigured opts
      → IsRandom req
      → All
          (IsDrawn type)
          (regional_replicas opts type (req.draw type) (replica_indexes opts type false) tags)
  unfolding replica_indexes
  regional_replicas-IsDrawn req type tags c random =
      let draw = req.draw type in
      let P : List (Option ℕ) → Type 0 =
        λ rs. All (IsDrawn type) (regional_replicas opts type draw rs tags) in
      elim (Option-cases opts.shard_replication) [
        | inl single ↦
            let e : replica_indexes opts type false ≡ some 1 ∷ [] = rw (single, replica_indexes) in
            subst⁻¹ P e
              (one_pass-IsDrawn type draw (some 1) tags (λ j. IsWritten-single type single))
        | inr (r, on) ↦
            let e : replica_indexes opts type false ≡ none ∷ [] = rw (on, replica_indexes) in
            subst⁻¹ P e (
              one_pass-IsDrawn type draw none tags (λ j.
                IsWritten-several type r (draw j) on (c.replicated type r on)
                  (random.below type j)))
      ]
