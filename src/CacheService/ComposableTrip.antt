-- ===== src/CacheService/ComposableTrip.antt =====
-- packages/core/src/adapters/cache-handler.ts and packages/core/src/utils/cache-get.ts: a composable
-- value, there and back.
use adapters_api.Common.{ℕ, ◌≡◌, refl, String, Bool, Option, some}
use adapters_api.Common.Assoc.{lookup, insert}
use adapters_api.CacheService.{Script, one, HeaderMap, composable}
use adapters_api.CacheService.Encode.{
  number_header, json_header, bypass_header, base_headers, composable_headers,
}
use adapters_api.CacheService.Decode.{
  get_header_value, entry, is_value, get_header_number, parse_optional, or_array,
  reconstruct_composable,
}
use adapters_api.CacheService.Headers.{header_lookups}
use adapters_api.CacheService.Fields.{IsFaithful, text_back, number_back, json_back, bypass_back}

module _ (js : Script) where
  reconstructed :
      (empty : js.Json) (m : HeaderMap) (body : String) (tags : js.Json)
      (stale expire timestamp revalidate : ℕ) (o : Option ℕ) (b : Bool)
      → parse_optional js (get_header_value m "x-opennext-cache-composable-tags") ≡ some (some tags)
      → get_header_number js m "x-opennext-cache-composable-stale" ≡ some stale
      → get_header_number js m "x-opennext-cache-composable-expire" ≡ some expire
      → get_header_number js m "x-opennext-cache-composable-timestamp" ≡ some timestamp
      → get_header_number js m "x-opennext-cache-composable-revalidate" ≡ some revalidate
      → get_header_number js m "x-opennext-cache-last-modified" ≡ o
      → is_value "true" (get_header_value m "x-opennext-cache-should-bypass") ≡ b
      → reconstruct_composable js empty m body
        ≡ entry (record {
          value = composable body tags stale expire timestamp revalidate;
          last_modified = o;
          should_bypass_tag_cache = b;
        })
  unfolding reconstruct_composable or_array
  reconstructed empty m body tags stale expire timestamp revalidate o b e1 e2 e3 e4 e5 e6 e7 =
      rw (e1, e2, e3, e4, e5, e6, e7, reconstruct_composable) refl

  module _ (laws : IsFaithful js) (o : Option ℕ) (b : Bool) where
    module _ (tags : js.Json) (stale expire timestamp revalidate : ℕ) where
      abbrev pub composable_final : HeaderMap
      composable_final =
          insert "Content-Type" (one "text/plain")
            (composable_headers js tags stale expire timestamp revalidate (base_headers js o b))

      lookup-fields :
          (lookup "x-opennext-cache-composable-tags" composable_final ≡ json_header js (some tags))
          × (lookup "x-opennext-cache-composable-stale" composable_final
              ≡ number_header js (some stale))
          × (lookup "x-opennext-cache-composable-expire" composable_final
              ≡ number_header js (some expire))
          × (lookup "x-opennext-cache-composable-timestamp" composable_final
              ≡ number_header js (some timestamp))
          × (lookup "x-opennext-cache-composable-revalidate" composable_final
              ≡ number_header js (some revalidate))
          × (lookup "x-opennext-cache-last-modified" composable_final ≡ number_header js o)
          × (lookup "x-opennext-cache-should-bypass" composable_final ≡ bypass_header js b)
          × (lookup "x-opennext-cache-found" composable_final ≡ some (one "true"))
          × (lookup "x-opennext-cache-type" composable_final ≡ some (one "composable"))
      unfolding composable_headers base_headers lookup
      lookup-fields = (
        simp header_lookups refl,
        simp header_lookups refl,
        simp header_lookups refl,
        simp header_lookups refl,
        simp header_lookups refl,
        simp header_lookups refl,
        simp header_lookups refl,
        simp header_lookups refl,
        simp header_lookups refl,
      )

      pub composable_texts :
          (get_header_value composable_final "x-opennext-cache-found" ≡ some "true")
          × (get_header_value composable_final "x-opennext-cache-type" ≡ some "composable")
      composable_texts =
          let (_, _, _, _, _, _, _, found, kind) = lookup-fields in
          (
            text_back js laws composable_final "x-opennext-cache-found" (some "true") found,
            text_back js laws composable_final "x-opennext-cache-type" (some "composable") kind,
          )

      pub composable_back :
          (empty : js.Json) (body : String)
          → reconstruct_composable js empty composable_final body
            ≡ entry (record {
              value = composable body tags stale expire timestamp revalidate;
              last_modified = o;
              should_bypass_tag_cache = b;
            })
      composable_back empty body =
          let (t, e1, e2, e3, e4, last, bypass, _, _) = lookup-fields in
          reconstructed empty composable_final body tags stale expire timestamp revalidate o b
            (json_back js laws composable_final "x-opennext-cache-composable-tags" (some tags) t)
            (number_back js laws composable_final "x-opennext-cache-composable-stale" (some stale)
              e1)
            (number_back js laws composable_final "x-opennext-cache-composable-expire" (some expire)
              e2)
            (number_back js laws composable_final "x-opennext-cache-composable-timestamp"
              (some timestamp) e3)
            (number_back js laws composable_final "x-opennext-cache-composable-revalidate"
              (some revalidate) e4)
            (number_back js laws composable_final "x-opennext-cache-last-modified" o last)
            (bypass_back js laws composable_final "x-opennext-cache-should-bypass" b bypass)
