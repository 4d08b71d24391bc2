-- ===== src/CacheService/FetchTrip.antt =====
-- packages/core/src/adapters/cache-handler.ts and packages/core/src/utils/cache-get.ts: a fetch value,
-- there and back.
use adapters_api.Common.{ℕ, ◌≡◌, refl, ◌∙◌, String, Bool, false, Option, none, some, All, str_eq}
use adapters_api.Common.Assoc.{lookup, insert, IsUnique, All-insert}
use adapters_api.CacheService.{
  Script, one, HeaderMap, Revalidate, FetchData, fetched, put_if, prefix,
}
use adapters_api.CacheService.Encode.{
  put_prefixed, number_header, json_header, revalidate_header, bypass_header, base_headers,
  fetch_headers,
}
use adapters_api.CacheService.Decode.{
  get_header_value, strip, collect_prefixed_headers, entry, is_value, get_header_number,
  get_header_revalidate, parse_optional, reconstruct_fetch,
}
use adapters_api.CacheService.Headers.{IsPlain, header_lookups, collect-put, put_if-IsPlain}
use adapters_api.CacheService.Fields.{
  IsFaithful, base-IsPlain, text_back, number_back, revalidate_back, json_back, bypass_back,
  lookup-final,
}

module _ (js : Script) where
  reconstruct_fetched :
      (m : HeaderMap) (body url : String) (status : Option ℕ)
      (data_tags fetch_tags : Option js.Json) (headers : HeaderMap) (r : Option Revalidate)
      (o : Option ℕ) (b : Bool)
      → get_header_value m "x-opennext-cache-fetch-kind" ≡ some "FETCH"
      → parse_optional js (get_header_value m "x-opennext-cache-fetch-data-tags") ≡ some data_tags
      → parse_optional js (get_header_value m "x-opennext-cache-fetch-tags") ≡ some fetch_tags
      → get_header_value m "x-opennext-cache-fetch-data-url" ≡ some url
      → get_header_number js m "x-opennext-cache-fetch-data-status" ≡ status
      → collect_prefixed_headers m ≡ headers
      → get_header_revalidate js m "x-opennext-cache-revalidate" ≡ r
      → get_header_number js m "x-opennext-cache-last-modified" ≡ o
      → is_value "true" (get_header_value m "x-opennext-cache-should-bypass") ≡ b
      → reconstruct_fetch js m body
        ≡ entry (record {
          value =
              fetched
                (record {
                  headers = headers;
                  body = body;
                  url = url;
                  status = status;
                  tags = data_tags;
                })
                fetch_tags
                r;
          last_modified = o;
          should_bypass_tag_cache = b;
        })
  unfolding reconstruct_fetch
  reconstruct_fetched m body url status data_tags fetch_tags headers r o b e1 e2 e3 e4 e5 e6 e7 e8
        e9 =
      rw (e1, e2, e3, e4, e5, e6, e7, e8, e9, reconstruct_fetch) refl

  module _ (laws : IsFaithful js) (o : Option ℕ) (b : Bool) where
    module _ (d : FetchData js) (tags : Option js.Json) (r : Option Revalidate) where
      abbrev fetch_map : HeaderMap
      fetch_map = fetch_headers js d tags r (base_headers js o b)

      abbrev pub fetch_final : HeaderMap
      fetch_final = insert "Content-Type" (one "text/plain") (put_prefixed d.headers fetch_map)

      at :
          (name : String)
          → strip prefix name ≡ none
          → str_eq "Content-Type" name ≡ false
          → lookup name fetch_final ≡ lookup name fetch_map
      at name = lookup-final js name (one "text/plain") d.headers fetch_map

      fetch-IsPlain : All IsPlain fetch_map
      unfolding fetch_headers strip
      fetch-IsPlain =
          let m = base_headers js o b in
          let m1 = insert "x-opennext-cache-type" (one "fetch") m in
          let m2 = insert "x-opennext-cache-fetch-kind" (one "FETCH") m1 in
          let m3 = insert "x-opennext-cache-fetch-data-url" (one d.url) m2 in
          let h1 =
            All-insert IsPlain "x-opennext-cache-type" (one "fetch") m (base-IsPlain js o b) refl in
          let h2 = All-insert IsPlain "x-opennext-cache-fetch-kind" (one "FETCH") m1 h1 refl in
          let h3 = All-insert IsPlain "x-opennext-cache-fetch-data-url" (one d.url) m2 h2 refl in
          let m4 = put_if "x-opennext-cache-revalidate" (revalidate_header js r) m3 in
          let h4 =
            put_if-IsPlain "x-opennext-cache-revalidate" (revalidate_header js r) m3 refl h3 in
          let status = number_header js d.status in
          let m5 = put_if "x-opennext-cache-fetch-data-status" status m4 in
          let h5 = put_if-IsPlain "x-opennext-cache-fetch-data-status" status m4 refl h4 in
          let own = json_header js d.tags in
          let m6 = put_if "x-opennext-cache-fetch-data-tags" own m5 in
          let h6 = put_if-IsPlain "x-opennext-cache-fetch-data-tags" own m5 refl h5 in
          put_if-IsPlain "x-opennext-cache-fetch-tags" (json_header js tags) m6 refl h6

      lookup-fields :
          (lookup "x-opennext-cache-fetch-kind" fetch_map ≡ some (one "FETCH"))
          × (lookup "x-opennext-cache-fetch-data-tags" fetch_map ≡ json_header js d.tags)
          × (lookup "x-opennext-cache-fetch-tags" fetch_map ≡ json_header js tags)
          × (lookup "x-opennext-cache-fetch-data-url" fetch_map ≡ some (one d.url))
          × (lookup "x-opennext-cache-fetch-data-status" fetch_map ≡ number_header js d.status)
          × (lookup "x-opennext-cache-revalidate" fetch_map ≡ revalidate_header js r)
          × (lookup "x-opennext-cache-last-modified" fetch_map ≡ number_header js o)
          × (lookup "x-opennext-cache-should-bypass" fetch_map ≡ bypass_header js b)
          × (lookup "x-opennext-cache-found" fetch_map ≡ some (one "true"))
          × (lookup "x-opennext-cache-type" fetch_map ≡ some (one "fetch"))
      unfolding fetch_headers base_headers lookup
      lookup-fields = (
        simp header_lookups refl,
        simp header_lookups refl,
        simp header_lookups refl,
        simp header_lookups refl,
        simp header_lookups refl,
        simp header_lookups refl,
        simp header_lookups refl,
        simp header_lookups refl,
        simp header_lookups refl,
        simp header_lookups refl,
      )

      pub fetch_texts :
          (get_header_value fetch_final "x-opennext-cache-found" ≡ some "true")
          × (get_header_value fetch_final "x-opennext-cache-type" ≡ some "fetch")
      unfolding strip
      fetch_texts =
          let (_, _, _, _, _, _, _, _, found, kind) = lookup-fields in
          (
            text_back js laws fetch_final "x-opennext-cache-found" (some "true")
                (at "x-opennext-cache-found" refl refl ∙ found),
            text_back js laws fetch_final "x-opennext-cache-type" (some "fetch")
                (at "x-opennext-cache-type" refl refl ∙ kind),
          )

      pub fetch_back :
          IsUnique d.headers
          → reconstruct_fetch js fetch_final d.body
            ≡ entry (record {
              value = fetched d tags r;
              last_modified = o;
              should_bypass_tag_cache = b;
            })
      unfolding strip
      fetch_back u =
          let (kind, own, others, url, status, revalidate, last, bypass, _, _) = lookup-fields in
          reconstruct_fetched fetch_final d.body d.url d.status d.tags tags d.headers r o b
            (text_back js laws fetch_final "x-opennext-cache-fetch-kind" (some "FETCH")
              (at "x-opennext-cache-fetch-kind" refl refl ∙ kind))
            (json_back js laws fetch_final "x-opennext-cache-fetch-data-tags" d.tags
              (at "x-opennext-cache-fetch-data-tags" refl refl ∙ own))
            (json_back js laws fetch_final "x-opennext-cache-fetch-tags" tags
              (at "x-opennext-cache-fetch-tags" refl refl ∙ others))
            (text_back js laws fetch_final "x-opennext-cache-fetch-data-url" (some d.url)
              (at "x-opennext-cache-fetch-data-url" refl refl ∙ url))
            (number_back js laws fetch_final "x-opennext-cache-fetch-data-status" d.status
              (at "x-opennext-cache-fetch-data-status" refl refl ∙ status))
            (collect-put "Content-Type" (one "text/plain") d.headers fetch_map refl fetch-IsPlain u)
            (revalidate_back js laws fetch_final "x-opennext-cache-revalidate" r
              (at "x-opennext-cache-revalidate" refl refl ∙ revalidate))
            (number_back js laws fetch_final "x-opennext-cache-last-modified" o
              (at "x-opennext-cache-last-modified" refl refl ∙ last))
            (bypass_back js laws fetch_final "x-opennext-cache-should-bypass" b
              (at "x-opennext-cache-should-bypass" refl refl ∙ bypass))
