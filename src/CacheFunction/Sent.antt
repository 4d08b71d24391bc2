-- ===== src/CacheFunction/Sent.antt =====
-- packages/core/src/adapters/cache-handler.ts and packages/core/src/utils/cache.ts: the tags of a stored
-- value, and what is sent of it.
use mathlib.Core.List.{append-nil, append_assoc}
use adapters_api.Common.{
  ℕ, ◌≡◌, ◌≢◌, ◌⊎◌, [], ◌++◌, ap, eq_iff, refl, arith, inl, inr, String, Option, none, some, List,
  Option-cases,
}
use adapters_api.CacheService.{
  Script, HeaderValue, one, many, HeaderMap, Revalidate, Meta, Content, Value, file, fetched,
  composable,
}
use adapters_api.Common.Assoc.{lookup, remove, lookup-remove}
use adapters_api.CacheFunction.Tags.{tags_from_meta, get_tags_from_value}
use adapters_api.CacheFunction.{Kind, cache, fetch, Backend}
use adapters_api.CacheFunction.Handler.{texts_or_none, tags_of_hit}

abbrev pub tags_name : String
tags_name = "x-next-cache-tags"

-- the headers of a file
abbrev pub headers_of : Option Meta → HeaderMap
headers_of none = []
headers_of (some m) = elim m.headers [ none ↦ [] | some headers ↦ headers ]

module _ (js : Script) where
  abbrev pub tags_header : Value js → Option HeaderValue
  tags_header (file content m r) = lookup tags_name (headers_of m)
  tags_header v = none

  -- What is sent of a value that is stored. In a file of the kind `cache` the header of the tags is gone
  -- and all else is as it was, unless the header is an array, or is not there.
  pub data IsSent : Kind → Value js → Value js → Type 0 where
    as_fetch : {v : Value js} → IsSent fetch v v
    as_composable : {v : Value js} → IsSent Kind.composable v v
    unchanged :
        {v : Value js}
        → (tags_header v ≡ none) ⊎ ((texts : List String) × (tags_header v ≡ some (many texts)))
        → IsSent cache v v
    headerless :
        {content : Content js} {r : Option Revalidate} (m : Meta) (headers kept : HeaderMap)
        → m.headers ≡ some headers
        → ((texts : List String) → lookup tags_name headers ≢ some (many texts))
        → lookup tags_name kept ≡ none
        → ((name : String) → tags_name ≢ name → lookup name kept ≡ lookup name headers)
        → IsSent cache
            (file content (some m) r)
            (file content (some (record m { headers = some kept })) r)

module _ (js : Script) (be : Backend js) where
  -- the tags that a stored value has of its own
  abbrev pub own_tags : Kind → Value js → List String
  own_tags cache v = elim (tags_header js v) [
    | none ↦ []
    | some (one text) ↦ be.split_commas text
    | some (many texts) ↦ []
  ]
  own_tags fetch (fetched d tags r) = texts_or_none js be tags ++ texts_or_none js be d.tags
  own_tags _ (composable text tags stale expire timestamp revalidate) = be.texts tags
  own_tags Kind.composable (fetched d tags r) = texts_or_none js be tags
  own_tags _ (file content m r) = []

  abbrev meta_of : Option ℕ → Option String → Option HeaderMap → Meta
  meta_of status postponed headers = record {
    status = status;
    postponed = postponed;
    headers = headers;
  }

  meta-IsSent :
      (content : Content js) (r : Option Revalidate) (status : Option ℕ) (postponed : Option String)
      (headers : Option HeaderMap)
      → IsSent js cache
          (file content (some (meta_of status postponed headers)) r)
          (file content (tags_from_meta js be (some (meta_of status postponed headers))).1 r)
  unfolding tags_from_meta lookup
  meta-IsSent content r status postponed none = unchanged (inl refl)
  meta-IsSent content r status postponed (some headers) =
      let m = meta_of status postponed (some headers) in
      let without = remove tags_name headers in
      let gone : lookup tags_name without ≡ none =
        ground (arith, lookup-remove tags_name tags_name headers) in
      let others : (name : String) → tags_name ≢ name → lookup name without ≡ lookup name headers =
        λ name h. ground (arith, eq_iff tags_name name, lookup-remove tags_name name headers) in
      elim (Option-cases (lookup tags_name headers)) [
        | inl e ↦
            rw (e, tags_from_meta)
              (headerless m headers without refl (λ texts h. ground arith) gone others)
        | inr (one text, e) ↦
            rw (e, tags_from_meta)
              (headerless m headers without refl (λ texts h. ground arith) gone others)
        | inr (many texts, e) ↦ rw (e, tags_from_meta) (unchanged (inr (texts, e)))
      ]

  file-IsSent :
      (content : Content js) (m : Option Meta) (r : Option Revalidate)
      → IsSent js cache (file content m r) (file content (tags_from_meta js be m).1 r)
  unfolding tags_from_meta lookup
  file-IsSent content none r = unchanged (inl refl)
  file-IsSent content (some m) r = meta-IsSent content r m.status m.postponed m.headers

  pub kept-IsSent :
      (kind : Kind) (additional : List String) (v : Value js)
      → IsSent js kind v (tags_of_hit js be kind additional v).1
  unfolding tags_of_hit get_tags_from_value
  kept-IsSent cache additional (file content m r) = file-IsSent content m r
  kept-IsSent cache additional (fetched d tags r) = unchanged (inl refl)
  kept-IsSent cache additional (composable text tags stale expire timestamp revalidate) =
      unchanged (inl refl)
  kept-IsSent fetch additional v = as_fetch
  kept-IsSent Kind.composable additional v = as_composable

  file-own_tags :
      (m : Option Meta)
      → (tags_from_meta js be m).0 ≡ (elim (lookup tags_name (headers_of m)) [
        | none ↦ []
        | some (one text) ↦ be.split_commas text
        | some (many texts) ↦ []
      ])
  unfolding tags_from_meta lookup
  file-own_tags none = refl
  file-own_tags (some m) = elim (Option-cases m.headers) [
    | inl e ↦ simp e refl
    | inr (headers, e) ↦ elim (Option-cases (lookup tags_name headers)) [
      | inl f ↦ simp (e, f) refl
      | inr (one text, f) ↦ simp (e, f) refl
      | inr (many texts, f) ↦ simp (e, f) refl
    ]
  ]

  pub tags_of_hit-own_tags :
      (kind : Kind) (additional : List String) (v : Value js)
      → (tags_of_hit js be kind additional v).0 ≡ additional ++ own_tags kind v
  unfolding tags_of_hit get_tags_from_value
  tags_of_hit-own_tags cache additional (file content m r) = ap (◌++◌ additional) (file-own_tags m)
  tags_of_hit-own_tags cache additional (fetched d tags r) = refl
  tags_of_hit-own_tags cache additional (composable t tags a b c d) = refl
  tags_of_hit-own_tags fetch additional (file content m r) = append-nil (additional ++ [])
  tags_of_hit-own_tags fetch additional (fetched d tags r) =
      append_assoc additional (texts_or_none js be tags) (texts_or_none js be d.tags)
  tags_of_hit-own_tags fetch additional (composable t tags a b c d) =
      append-nil (additional ++ be.texts tags)
  tags_of_hit-own_tags Kind.composable additional (file content m r) = refl
  tags_of_hit-own_tags Kind.composable additional (fetched d tags r) = refl
  tags_of_hit-own_tags Kind.composable additional (composable t tags a b c d) = refl
