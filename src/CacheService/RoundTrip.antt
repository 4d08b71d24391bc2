-- ===== src/CacheService/RoundTrip.antt =====
-- packages/core/src/adapters/cache-handler.ts and packages/core/src/utils/cache-get.ts: what comes back
-- from the cache service.
use adapters_api.Common.{ℕ, ◌≡◌, refl, ◌∙◌, String, Bool, Option, some, []}
use adapters_api.Common.Assoc.{IsUnique}
use adapters_api.CacheService.{Script, HeaderMap, Value, file, fetched, composable, Entry}
use adapters_api.CacheService.Encode.{
  build_fetch_response, meta_headers, file_body, build_cached_file_response,
  build_cache_get_response,
}
use adapters_api.CacheService.Decode.{
  get_header_value, entry, reconstruct_composable, reconstruct_fetch, reconstruct_cached_file,
  parse_cache_get_response,
}
use adapters_api.CacheService.Fields.{IsFaithful}
use adapters_api.CacheService.FileTrip.{
  normal_content, normal_meta, HasMembers, file_final, header_texts, file_back,
}
use adapters_api.CacheService.FetchTrip.{fetch_final, fetch_texts, fetch_back}
use adapters_api.CacheService.ComposableTrip.{composable_final, composable_texts, composable_back}

module _ (js : Script) where
  -- what the service keeps of a value: see `normal_content` and `normal_meta`
  abbrev pub normal_value : Value js → Value js
  normal_value (file content meta revalidate) =
      file (normal_content js content) (normal_meta js meta) revalidate
  normal_value value = value

  abbrev pub normal : Entry js → Entry js
  normal e = record e { value = normal_value e.value }

  -- the headers whose names get the prefix
  abbrev pub entry_headers : Value js → HeaderMap
  entry_headers (file content meta revalidate) = meta_headers js meta
  entry_headers (fetched d tags revalidate) = d.headers
  entry_headers (composable text tags stale expire timestamp revalidate) = []

  abbrev pub HasContent : Value js → Type 0
  HasContent (file content meta revalidate) = HasMembers js content
  HasContent value = Unit

  as_file :
      (empty : js.Json) (m : HeaderMap) (body : String)
      → get_header_value m "x-opennext-cache-found" ≡ some "true"
      → get_header_value m "x-opennext-cache-type" ≡ some "cache"
      → parse_cache_get_response js empty m body ≡ reconstruct_cached_file js m body
  unfolding parse_cache_get_response
  as_file empty m body f k = rw (f, k, parse_cache_get_response) refl

  as_fetch :
      (empty : js.Json) (m : HeaderMap) (body : String)
      → get_header_value m "x-opennext-cache-found" ≡ some "true"
      → get_header_value m "x-opennext-cache-type" ≡ some "fetch"
      → parse_cache_get_response js empty m body ≡ reconstruct_fetch js m body
  unfolding parse_cache_get_response
  as_fetch empty m body f k = rw (f, k, parse_cache_get_response) refl

  as_composable :
      (empty : js.Json) (m : HeaderMap) (body : String)
      → get_header_value m "x-opennext-cache-found" ≡ some "true"
      → get_header_value m "x-opennext-cache-type" ≡ some "composable"
      → parse_cache_get_response js empty m body ≡ reconstruct_composable js empty m body
  unfolding parse_cache_get_response
  as_composable empty m body f k = rw (f, k, parse_cache_get_response) refl

  module _ (laws : IsFaithful js) (empty : js.Json) (o : Option ℕ) (b : Bool) where
    abbrev carried : Value js → Entry js
    carried v = record { value = v; last_modified = o; should_bypass_tag_cache = b }

    carried_back :
        (v : Value js)
        → IsUnique (entry_headers v)
        → HasContent v
        → parse_cache_get_response js empty
            (build_cache_get_response js (carried v)).headers
            (build_cache_get_response js (carried v)).body
          ≡ entry (normal (carried v))
    unfolding build_cache_get_response build_fetch_response build_cached_file_response
    carried_back (file c meta r) u h =
        let (found, kind) = header_texts js laws o b c meta r in
        as_file empty (file_final js laws o b c meta r) (file_body js c) found kind
        ∙ file_back js laws o b c meta r h u
    carried_back (fetched d tags r) u h =
        let (found, kind) = fetch_texts js laws o b d tags r in
        as_fetch empty (fetch_final js laws o b d tags r) d.body found kind
        ∙ fetch_back js laws o b d tags r u
    carried_back (composable text tags stale expire timestamp revalidate) u h =
        let m = composable_final js laws o b tags stale expire timestamp revalidate in
        let (found, kind) = composable_texts js laws o b tags stale expire timestamp revalidate in
        as_composable empty m text found kind
        ∙ composable_back js laws o b tags stale expire timestamp revalidate empty text

  -- An entry that the cache handler writes into headers and a text is read back by its client, whatever
  -- its type: with its value, its time and its flag, but without a `meta`, `meta.headers` or segment
  -- data that hold nothing, and with an object for missing props. The names of the headers that the
  -- entry has for itself differ, and the members of the written object are those that it was made of.
  pub parse_cache_get_response-build :
      (empty : js.Json) (e : Entry js)
      → IsFaithful js
      → IsUnique (entry_headers e.value)
      → HasContent e.value
      → parse_cache_get_response js empty
          (build_cache_get_response js e).headers
          (build_cache_get_response js e).body
        ≡ entry (normal e)
  parse_cache_get_response-build empty e laws u h =
      carried_back laws empty e.last_modified e.should_bypass_tag_cache e.value u h
