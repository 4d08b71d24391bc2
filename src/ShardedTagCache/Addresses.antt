-- ===== src/ShardedTagCache/Addresses.antt =====
-- packages/cloudflare/src/api/overrides/tag-cache/do-sharded-tag-cache.ts: the objects that a tag is
-- written to, and that one of them is the object that a read of the tag asks.
use native.Mathlib.Decide.{ℕ_discrete}
use adapters_api.Common.{
  Option-cases, ℕ, zero, suc, ◌+◌, ◌≤◌, ◌<◌, String, ◌≡◌, ◌≢◌, refl, ◌∙◌, arith, Bool, true, ◌&&◌,
  ◌||◌, Option, none, some, List, [], ◌∷◌, filter, any, any-append, All, str_eq, eq_iff, eq_refl,
  Bool-cases, inl, inr,
}
use adapters_api.ShardedTagCache.{
  Options, Request, DoId, ShardType, soft, hard, key, new_do_id, available_regions, is_of,
  indexes_from, replicas_of, num_replicas, replica_indexes, tag_id, replica_ids, regional_replicas,
  in_regions, in_all_regions, region_of, generate_do_id_array, collect_ids,
}
use adapters_api.ShardedTagCache.Groups.{Ids, tags_for}

abbrev pub elem : String → List String → Bool
elem t tags = any (λ u. str_eq u t) tags

-- some id of the tag passes the test
abbrev pub sel : (DoId → Bool) → String → Ids → Bool
sel G t ids = any (λ (e : DoId × String). G e.0 && str_eq e.1 t) ids

elem-filter :
    (p : String → Bool) (t : String) (tags : List String)
    → elem t (filter p tags) ≡ (p t && elem t tags)
elem-filter p t [] = ground arith
elem-filter p t (u ∷ tags) = elim (Bool-cases (str_eq u t)) [
  | inl same ↦ let q = (eq_iff u t).0 same in rw q (ground (arith, eq_refl t, elem-filter p t tags))
  | inr other ↦ ground (arith, elem-filter p t tags)
]

pub any_of_elem :
    (p : String → Bool) (t : String) (tags : List String)
    → elem t tags ≡ true
    → p t ≡ true
    → any p tags ≡ true
any_of_elem p t [] e h = e
any_of_elem p t (u ∷ tags) e h = elim (Bool-cases (str_eq u t)) [
  | inl same ↦ let q : p u ≡ true = rw ((eq_iff u t).0 same) h in ground arith
  | inr other ↦ ground (arith, any_of_elem p t tags)
]

pub any-indexes :
    (p : Option ℕ → Bool) (start n x : ℕ)
    → start ≤ x
    → x < start + n
    → p (some x) ≡ true
    → any p (indexes_from start n) ≡ true
unfolding indexes_from
any-indexes p start zero x low high h = absurd (omega arith)
any-indexes p start (suc n) x low high h = elim (ℕ_discrete start x) [
  | yes q ↦ let here : p (some start) ≡ true = rw q h in ground arith
  | no d ↦ let there = any-indexes p (suc start) n x (omega arith) (omega arith) h in ground arith
]

pub elem-tags_for :
    (k t : String) (ids : Ids) → elem t (tags_for k ids) ≡ sel (λ d. str_eq (key d) k) t ids
elem-tags_for k t [] = refl
elem-tags_for k t ((d, tag) ∷ ids) = ground (arith, elem-tags_for k t ids)

module _ (opts : Options) where
  -- the id of a tag in a replica, and its copy in a region
  abbrev pub id_at : ShardType → Option ℕ → String → DoId
  id_at type replica t = tag_id opts type (λ _. 0) replica 0 t

  abbrev pub region_id : ShardType → DoId → String → DoId
  region_id type d region = new_do_id 0 (record {
    base_shard_id = d.options.base_shard_id;
    number_of_replicas = num_replicas opts type;
    shard_type = type;
    replica_id = some d.replica_id;
    region = some region;
  })

  -- some copy of the id in the regions that are enabled passes the test
  abbrev pub in_region_hits : ShardType → (DoId → Bool) → Option String → DoId → Bool
  in_region_hits type G none d = G d
  in_region_hits type G (some _) d = any (λ region. G (region_id type d region)) available_regions

  -- some id that a write of the tag makes passes the test
  unfoldable pub hits : ShardType → (DoId → Bool) → String → Bool
  hits type G t =
      any (λ replica. in_region_hits type G (region_of opts) (id_at type replica t))
        (replica_indexes opts type true)

  -- A write of the tag reaches the object with the key.
  unfoldable pub is_address : String → String → Bool
  is_address t k =
      (is_of soft t && hits soft (λ d. str_eq (key d) k) t)
      || (is_of hard t && hits hard (λ d. str_eq (key d) k) t)

  IsFixed : List (Option ℕ) → Type 0
  IsFixed rs = All (λ (r : Option ℕ). r ≢ none) rs

  indexes_from-IsFixed : (start n : ℕ) → IsFixed (indexes_from start n)
  unfolding indexes_from IsFixed
  indexes_from-IsFixed start zero = tt
  indexes_from-IsFixed start (suc n) = ((λ e. cc), indexes_from-IsFixed (suc start) n)

  replica_indexes-IsFixed : (type : ShardType) → IsFixed (replica_indexes opts type true)
  unfolding replica_indexes IsFixed
  replica_indexes-IsFixed type =
      elim opts.shard_replication
        as (λ o.
          IsFixed (elim o [ none ↦ some 1 ∷ [] | some r ↦ indexes_from 1 (replicas_of type r) ])) [
            | none ↦ ((λ e. cc), tt)
            | some r ↦ indexes_from-IsFixed 1 (replicas_of type r)
          ]

  sel-replica_ids :
      (type : ShardType) (draw : ℕ → ℕ) (G : DoId → Bool) (t : String) (r : ℕ) (i : ℕ)
      (tags : List String)
      → sel G t (replica_ids opts type draw (some r) i tags)
        ≡ (elem t tags && G (id_at type (some r) t))
  unfolding replica_ids tag_id new_do_id
  sel-replica_ids type draw G t r i [] = refl
  sel-replica_ids type draw G t r i (u ∷ tags) = elim (Bool-cases (str_eq u t)) [
    | inl same ↦
        let q = (eq_iff u t).0 same in
        rw q (ground (arith, eq_refl t, sel-replica_ids type draw G t r (suc i) tags))
    | inr other ↦ ground (arith, sel-replica_ids type draw G t r (suc i) tags)
  ]

  sel-regional_replicas :
      (type : ShardType) (draw : ℕ → ℕ) (G : DoId → Bool) (t : String) (tags : List String)
      (rs : List (Option ℕ))
      → IsFixed rs
      → sel G t (regional_replicas opts type draw rs tags)
        ≡ ((is_of type t && elem t tags) && any (λ r. G (id_at type r t)) rs)
  unfolding regional_replicas IsFixed
  sel-regional_replicas type draw G t tags [] _ = ground arith
  sel-regional_replicas type draw G t tags (none ∷ rs) (d, _) = absurd (d refl)
  sel-regional_replicas type draw G t tags (some r ∷ rs) (_, fixed) =
      let mine = replica_ids opts type draw (some r) 0 (filter (is_of type) tags) in
      any-append (λ (e : DoId × String). G e.0 && str_eq e.1 t) mine
        (regional_replicas opts type draw rs tags)
      ∙ ground (
        arith,
        sel-replica_ids type draw G t r 0 (filter (is_of type) tags),
        elem-filter (is_of type) t tags,
        sel-regional_replicas type draw G t tags rs fixed,
      )

  sel-in_regions :
      (type : ShardType) (G : DoId → Bool) (t : String) (d : DoId) (tag : String)
      (regions : List String)
      → sel G t (in_regions opts type regions (d, tag))
        ≡ (any (λ region. G (region_id type d region)) regions && str_eq tag t)
  unfolding in_regions
  sel-in_regions type G t d tag [] = refl
  sel-in_regions type G t d tag (region ∷ regions) =
      ground (arith, sel-in_regions type G t d tag regions)

  sel-in_all_regions :
      (type : ShardType) (G : DoId → Bool) (t : String) (ids : Ids)
      → sel G t (in_all_regions opts type ids)
        ≡ sel (λ d. any (λ region. G (region_id type d region)) available_regions) t ids
  unfolding in_all_regions
  sel-in_all_regions type G t [] = refl
  sel-in_all_regions type G t ((d, tag) ∷ ids) =
      any-append (λ (e : DoId × String). G e.0 && str_eq e.1 t)
        (in_regions opts type available_regions (d, tag)) (in_all_regions opts type ids)
      ∙ rw (sel-in_regions type G t d tag available_regions, sel-in_all_regions type G t ids) refl

  sel-generate :
      (req : Request) (type : ShardType) (G : DoId → Bool) (t : String) (tags : List String)
      → sel G t (generate_do_id_array opts req tags type true)
        ≡ ((is_of type t && elem t tags) && hits type G t)
  unfolding generate_do_id_array hits
  sel-generate req type G t tags =
      let rs = replica_indexes opts type true in
      let fixed = replica_indexes-IsFixed type in
      elim (Option-cases (region_of opts)) [
        | inl off ↦
            rw (off, generate_do_id_array, in_region_hits)
              (sel-regional_replicas type (req.draw type) G t tags rs fixed)
        | inr (region, on) ↦
            rw (on, generate_do_id_array, in_region_hits)
              (sel-in_all_regions type G t _
                ∙ sel-regional_replicas type (req.draw type) _ t tags rs fixed)
      ]

  -- A write of some tags reaches an object with a tag exactly if the tag is among them and the object
  -- is one of the tag's addresses.
  pub sel-collect_ids :
      (req : Request) (k t : String) (tags : List String)
      → sel (λ d. str_eq (key d) k) t (collect_ids opts req tags true)
        ≡ (elem t tags && is_address t k)
  unfolding collect_ids is_address
  sel-collect_ids req k t tags =
      any-append (λ (e : DoId × String). str_eq (key e.0) k && str_eq e.1 t)
        (generate_do_id_array opts req tags soft true)
        (generate_do_id_array opts req tags hard true)
      ∙ ground (
        arith,
        sel-generate req soft (λ d. str_eq (key d) k) t tags,
        sel-generate req hard (λ d. str_eq (key d) k) t tags,
      )
