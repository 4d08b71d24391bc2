-- ===== src/CacheService/FileTrip.antt =====
-- packages/core/src/adapters/cache-handler.ts and packages/core/src/utils/cache-get.ts: a cached file,
-- there and back.
use adapters_api.Common.{ℕ, ◌≡◌, refl, ◌∙◌, String, Bool, false, Option, none, some, All, str_eq}
use adapters_api.Common.Assoc.{lookup, insert, IsUnique, All-insert}
use adapters_api.CacheService.{
  Script, one, HeaderMap, Revalidate, Meta, Content, route, page, app, redirect, file, put_if,
  prefix,
}
use adapters_api.CacheService.Encode.{
  put_prefixed, number_header, text_header, revalidate_header, bypass_header, members, base_headers,
  meta_status, meta_postponed, meta_headers, sub_type, file_headers, file_fields, or_empty_object,
  file_body, file_type,
}
use adapters_api.CacheService.Decode.{
  get_header_value, strip, collect_prefixed_headers, entry, is_value, get_header_number,
  get_header_revalidate, make_meta, present, when_truthy, content_of, reconstruct_cached_file,
}
use adapters_api.CacheService.Headers.{IsPlain, header_lookups, collect-put, put_if-IsPlain}
use adapters_api.CacheService.Fields.{
  IsFaithful, base-IsPlain, text_back, number_back, revalidate_back, bypass_back, lookup-final,
}

module _ (js : Script) where
  -- what the service keeps of a value: an object for missing props, no segment data that is falsy, no
  -- `meta` and no `meta.headers` without anything in it
  abbrev pub normal_content : Content js → Content js
  normal_content (app html rsc segment_data) = app html rsc (when_truthy js segment_data)
  normal_content (redirect props) = redirect (some (or_empty_object js props))
  normal_content content = content

  abbrev pub normal_meta : Option Meta → Option Meta
  normal_meta meta =
      make_meta js (meta_status js meta) (meta_postponed js meta)
        (present js (meta_headers js meta))

  -- the members that the object of a cached file is read for
  abbrev pub HasMembers : Content js → Type 0
  HasMembers content =
      All
        (λ (f : String × Option js.Json).
          js.member (js.object (members js (file_fields js content))) f.0 ≡ f.1)
        (file_fields js content)

  reconstruct_file :
      (m : HeaderMap) (body : String) (kind : Option String) (c : Content js) (status : Option ℕ)
      (postponed : Option String) (headers : HeaderMap) (r : Option Revalidate) (o : Option ℕ)
      (b : Bool)
      → get_header_value m "x-opennext-cache-sub-type" ≡ kind
      → content_of js kind body ≡ entry c
      → get_header_number js m "x-opennext-cache-meta-status" ≡ status
      → get_header_value m "x-opennext-cache-meta-postponed" ≡ postponed
      → collect_prefixed_headers m ≡ headers
      → get_header_revalidate js m "x-opennext-cache-revalidate" ≡ r
      → get_header_number js m "x-opennext-cache-last-modified" ≡ o
      → is_value "true" (get_header_value m "x-opennext-cache-should-bypass") ≡ b
      → reconstruct_cached_file js m body
        ≡ entry (record {
          value = file c (make_meta js status postponed (present js headers)) r;
          last_modified = o;
          should_bypass_tag_cache = b;
        })
  unfolding reconstruct_cached_file
  reconstruct_file m body kind c status postponed headers r o b e1 e2 e3 e4 e5 e6 e7 e8 =
      rw (e1, e2, e3, e4, e5, e6, e7, e8, reconstruct_cached_file) refl

  content_back :
      IsFaithful js
      → (c : Content js) → HasMembers c
      → content_of js (some (sub_type js c)) (file_body js c) ≡ entry (normal_content c)
  unfolding content_of file_body
  content_back laws (route body) h = refl
  content_back laws (page json html) (e1, (e2, _)) =
      let j = js.object (members js (file_fields js (page json html))) in
      simp (laws.parse-stringify j, e1, e2) refl
  content_back laws (app html rsc segment_data) (e1, (e2, (e3, _))) =
      let j = js.object (members js (file_fields js (app html rsc segment_data))) in
      simp (laws.parse-stringify j, e1, e2, e3) refl
  content_back laws (redirect props) h = simp (laws.parse-stringify (or_empty_object js props)) refl

  module _ (laws : IsFaithful js) (o : Option ℕ) (b : Bool) where
    module _ (c : Content js) (meta : Option Meta) (r : Option Revalidate) where
      abbrev file_map : HeaderMap
      file_map = file_headers js c meta r (base_headers js o b)

      abbrev pub file_final : HeaderMap
      file_final =
          insert "Content-Type" (one (file_type js c))
            (put_prefixed (meta_headers js meta) file_map)

      at :
          (name : String)
          → strip prefix name ≡ none
          → str_eq "Content-Type" name ≡ false
          → lookup name file_final ≡ lookup name file_map
      at name = lookup-final js name (one (file_type js c)) (meta_headers js meta) file_map

      file-IsPlain : All IsPlain file_map
      unfolding file_headers strip
      file-IsPlain =
          let m = base_headers js o b in
          let m1 = insert "x-opennext-cache-type" (one "cache") m in
          let m2 = insert "x-opennext-cache-sub-type" (one (sub_type js c)) m1 in
          let h1 =
            All-insert IsPlain "x-opennext-cache-type" (one "cache") m (base-IsPlain js o b) refl in
          let h2 =
            All-insert IsPlain "x-opennext-cache-sub-type" (one (sub_type js c)) m1 h1 refl in
          let m3 = put_if "x-opennext-cache-revalidate" (revalidate_header js r) m2 in
          let h3 =
            put_if-IsPlain "x-opennext-cache-revalidate" (revalidate_header js r) m2 refl h2 in
          let status = number_header js (meta_status js meta) in
          let h4 = put_if-IsPlain "x-opennext-cache-meta-status" status m3 refl h3 in
          put_if-IsPlain "x-opennext-cache-meta-postponed" (text_header js (meta_postponed js meta))
            (put_if "x-opennext-cache-meta-status" status m3) refl h4

      lookup-fields :
          (lookup "x-opennext-cache-sub-type" file_map ≡ some (one (sub_type js c)))
          × (lookup "x-opennext-cache-meta-status" file_map
              ≡ number_header js (meta_status js meta))
          × (lookup "x-opennext-cache-meta-postponed" file_map
              ≡ text_header js (meta_postponed js meta))
          × (lookup "x-opennext-cache-revalidate" file_map ≡ revalidate_header js r)
          × (lookup "x-opennext-cache-last-modified" file_map ≡ number_header js o)
          × (lookup "x-opennext-cache-should-bypass" file_map ≡ bypass_header js b)
          × (lookup "x-opennext-cache-found" file_map ≡ some (one "true"))
          × (lookup "x-opennext-cache-type" file_map ≡ some (one "cache"))
      unfolding file_headers base_headers lookup
      lookup-fields = (
        simp header_lookups refl,
        simp header_lookups refl,
        simp header_lookups refl,
        simp header_lookups refl,
        simp header_lookups refl,
        simp header_lookups refl,
        simp header_lookups refl,
        simp header_lookups refl,
      )

      pub header_texts :
          (get_header_value file_final "x-opennext-cache-found" ≡ some "true")
          × (get_header_value file_final "x-opennext-cache-type" ≡ some "cache")
      unfolding strip
      header_texts =
          let (_, _, _, _, _, _, found, kind) = lookup-fields in
          (
            text_back js laws file_final "x-opennext-cache-found" (some "true")
                (at "x-opennext-cache-found" refl refl ∙ found),
            text_back js laws file_final "x-opennext-cache-type" (some "cache")
                (at "x-opennext-cache-type" refl refl ∙ kind),
          )

      pub file_back :
          HasMembers c
          → IsUnique (meta_headers js meta)
          → reconstruct_cached_file js file_final (file_body js c)
            ≡ entry (record {
              value = file (normal_content c) (normal_meta meta) r;
              last_modified = o;
              should_bypass_tag_cache = b;
            })
      unfolding strip
      file_back h u =
          let (kind, status, postponed, revalidate, last, bypass, _, _) = lookup-fields in
          reconstruct_file file_final (file_body js c) (some (sub_type js c)) (normal_content c)
            (meta_status js meta) (meta_postponed js meta) (meta_headers js meta) r o b
            (text_back js laws file_final "x-opennext-cache-sub-type" (some (sub_type js c))
              (at "x-opennext-cache-sub-type" refl refl ∙ kind))
            (content_back laws c h)
            (number_back js laws file_final "x-opennext-cache-meta-status" (meta_status js meta)
              (at "x-opennext-cache-meta-status" refl refl ∙ status))
            (text_back js laws file_final "x-opennext-cache-meta-postponed" (meta_postponed js meta)
              (at "x-opennext-cache-meta-postponed" refl refl ∙ postponed))
            (collect-put "Content-Type" (one (file_type js c)) (meta_headers js meta) file_map refl
              file-IsPlain u)
            (revalidate_back js laws file_final "x-opennext-cache-revalidate" r
              (at "x-opennext-cache-revalidate" refl refl ∙ revalidate))
            (number_back js laws file_final "x-opennext-cache-last-modified" o
              (at "x-opennext-cache-last-modified" refl refl ∙ last))
            (bypass_back js laws file_final "x-opennext-cache-should-bypass" b
              (at "x-opennext-cache-should-bypass" refl refl ∙ bypass))
