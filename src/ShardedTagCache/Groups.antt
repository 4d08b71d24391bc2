-- ===== src/ShardedTagCache/Groups.antt =====
-- packages/cloudflare/src/api/overrides/tag-cache/do-sharded-tag-cache.ts: `groupTagsByDO` splits
-- the tags by object, and nothing is lost or mixed.
use mathlib.Core.List.{append-nil, append_assoc}
use adapters_api.Common.{
  String, ◌≡◌, refl, sym, ◌∙◌, arith, Bool, ◌||◌, Option, none, some, List, [], ◌∷◌, ◌++◌, All,
  str_eq, eq_iff, if◌then◌else◌, Bool-cases, inl, inr,
}
use adapters_api.Common.Assoc.{lookup, has, IsUnique}
use adapters_api.ShardedTagCache.{
  Options, Request, DoId, Group, key, add_to_groups, group_ids, collect_ids, group_tags_by_do,
}

abbrev pub Ids : Type 0
Ids = List (DoId × String)

abbrev pub Groups : Type 0
Groups = List (String × Group)

-- the tags whose id has the key, in order
abbrev pub tags_for : String → Ids → List String
tags_for k [] = []
tags_for k ((d, tag) ∷ ids) = if str_eq (key d) k then tag ∷ tags_for k ids else tags_for k ids

abbrev pub tags_or_none : Option Group → List String
tags_or_none none = []
tags_or_none (some g) = g.tags

-- each group stands under the key of its id
abbrev pub IsKeyed : Groups → Type 0
IsKeyed = All (λ (e : String × Group). key e.1.do_id ≡ e.0)

has-add_to_groups :
    (d : DoId) (tag k : String) (gs : Groups)
    → has k (add_to_groups d tag gs) ≡ (str_eq (key d) k || has k gs)
unfolding add_to_groups has
has-add_to_groups d tag k [] = refl
has-add_to_groups d tag k ((j, g) ∷ gs) =
    ground (arith, eq_iff j (key d), eq_iff j k, eq_iff (key d) k, has-add_to_groups d tag k gs)

add_to_groups-IsUnique :
    (d : DoId) (tag : String) (gs : Groups) → IsUnique gs → IsUnique (add_to_groups d tag gs)
unfolding add_to_groups has
add_to_groups-IsUnique d tag [] _ = (refl, tt)
add_to_groups-IsUnique d tag ((j, g) ∷ gs) (p, u) = ground (
  arith,
  eq_iff j (key d),
  eq_iff (key d) j,
  has-add_to_groups d tag j gs,
  add_to_groups-IsUnique d tag gs u,
)

add_to_groups-IsKeyed :
    (d : DoId) (tag : String) (gs : Groups) → IsKeyed gs → IsKeyed (add_to_groups d tag gs)
unfolding add_to_groups
add_to_groups-IsKeyed d tag [] _ = (refl, tt)
add_to_groups-IsKeyed d tag ((j, g) ∷ gs) (p, u) =
    ground (arith, eq_iff j (key d), add_to_groups-IsKeyed d tag gs u)

lookup-add_to_groups :
    (d : DoId) (tag k : String) (gs : Groups)
    → tags_or_none (lookup k (add_to_groups d tag gs)) ≡ (
        if str_eq (key d) k
        then tags_or_none (lookup k gs) ++ tag ∷ []
        else tags_or_none (lookup k gs))
unfolding add_to_groups lookup
lookup-add_to_groups d tag k [] = ground arith
lookup-add_to_groups d tag k ((j, g) ∷ gs) =
    ground (arith, eq_iff j (key d), eq_iff j k, eq_iff (key d) k, lookup-add_to_groups d tag k gs)

pub group_ids-IsUnique : (ids : Ids) (gs : Groups) → IsUnique gs → IsUnique (group_ids ids gs)
unfolding group_ids
group_ids-IsUnique [] gs u = u
group_ids-IsUnique ((d, tag) ∷ ids) gs u =
    group_ids-IsUnique ids (add_to_groups d tag gs) (add_to_groups-IsUnique d tag gs u)

pub group_ids-IsKeyed : (ids : Ids) (gs : Groups) → IsKeyed gs → IsKeyed (group_ids ids gs)
unfolding group_ids
group_ids-IsKeyed [] gs u = u
group_ids-IsKeyed ((d, tag) ∷ ids) gs u =
    group_ids-IsKeyed ids (add_to_groups d tag gs) (add_to_groups-IsKeyed d tag gs u)

pub lookup-group_ids :
    (k : String) (ids : Ids) (gs : Groups)
    → tags_or_none (lookup k (group_ids ids gs)) ≡ tags_or_none (lookup k gs) ++ tags_for k ids
unfolding group_ids
lookup-group_ids k [] gs = sym (append-nil _)
lookup-group_ids k ((d, tag) ∷ ids) gs = elim (Bool-cases (str_eq (key d) k)) [
  | inl same ↦
      lookup-group_ids k ids (add_to_groups d tag gs)
      ∙ rw (lookup-add_to_groups d tag k gs, same) (append_assoc _ (tag ∷ []) (tags_for k ids))
  | inr other ↦
      lookup-group_ids k ids (add_to_groups d tag gs)
      ∙ rw (lookup-add_to_groups d tag k gs, other) refl
]

-- The groups partition the ids by object: no key stands twice, each group stands under the key of its
-- id, and under each key stand exactly the tags whose id has that key, in their order.
pub group_tags_by_do-partition :
    (opts : Options) (req : Request) (tags : List String) (all_replicas : Bool) (k : String)
    → IsUnique (group_tags_by_do opts req tags all_replicas)
      × IsKeyed (group_tags_by_do opts req tags all_replicas)
      × (tags_or_none (lookup k (group_tags_by_do opts req tags all_replicas))
          ≡ tags_for k (collect_ids opts req tags all_replicas))
unfolding group_tags_by_do lookup
group_tags_by_do-partition opts req tags all_replicas k =
    let ids = collect_ids opts req tags all_replicas in
    (group_ids-IsUnique ids [] tt, group_ids-IsKeyed ids [] tt, lookup-group_ids k ids [])
