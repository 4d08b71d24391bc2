-- ===== src/CacheService/Fields.antt =====
-- packages/core/src/adapters/cache-handler.ts and packages/core/src/utils/cache-get.ts: one header
-- at a time.
use adapters_api.Common.{
  ℕ, ◌≡◌, refl, String, Bool, true, false, Option, none, some, [], ◌∷◌, All, str_eq,
}
use adapters_api.Common.Assoc.{lookup, insert, lookup-insert}
use adapters_api.CacheService.{
  Script, HeaderValue, one, HeaderMap, Revalidate, never, every, put_if, prefix,
}
use adapters_api.CacheService.Encode.{
  put_prefixed, number_header, text_header, json_header, revalidate_header, bypass_header,
  base_headers,
}
use adapters_api.CacheService.Decode.{
  get_header_value, strip, is_falsy, is_value, get_header_number, get_header_revalidate,
  parse_optional,
}
use adapters_api.CacheService.Headers.{IsPlain, lookup-put_prefixed, put_if-IsPlain}

-- What the code relies on: parsing undoes writing, and a written number is not the text `false`.
pub record IsFaithful (js : Script) : Type 0 where
  pub parse-stringify : (j : js.Json) → js.parse (js.stringify j) ≡ some j
  pub stringify_nonempty : (j : js.Json) → is_falsy (some (js.stringify j)) ≡ false
  pub to_number-number_text : (n : ℕ) → js.to_number (js.number_text n) ≡ some n
  pub number_not_false : (n : ℕ) → str_eq (js.number_text n) "false" ≡ false

module _ (js : Script) where
  pub base-IsPlain : (o : Option ℕ) (b : Bool) → All IsPlain (base_headers js o b)
  unfolding base_headers strip
  base-IsPlain o b =
      put_if-IsPlain "x-opennext-cache-should-bypass" (bypass_header js b)
        (put_if "x-opennext-cache-last-modified" (number_header js o)
          (("x-opennext-cache-found", one "true") ∷ ("Cache-Control", one "no-store") ∷ []))
        refl
        (put_if-IsPlain "x-opennext-cache-last-modified" (number_header js o)
          (("x-opennext-cache-found", one "true") ∷ ("Cache-Control", one "no-store") ∷ []) refl
          (refl, (refl, tt)))

  module _ (laws : IsFaithful js) where
    pub text_back :
        (m : HeaderMap) (name : String) (o : Option String)
        → lookup name m ≡ text_header js o
        → get_header_value m name ≡ o
    unfolding get_header_value
    text_back m name none e = rw (e, get_header_value) refl
    text_back m name (some t) e = rw (e, get_header_value) refl

    pub number_back :
        (m : HeaderMap) (name : String) (o : Option ℕ)
        → lookup name m ≡ number_header js o
        → get_header_number js m name ≡ o
    unfolding get_header_number get_header_value
    number_back m name none e = rw (e, get_header_value, get_header_number) refl
    number_back m name (some n) e =
        rw (e, get_header_value, get_header_number) (laws.to_number-number_text n)

    pub revalidate_back :
        (m : HeaderMap) (name : String) (o : Option Revalidate)
        → lookup name m ≡ revalidate_header js o
        → get_header_revalidate js m name ≡ o
    unfolding get_header_revalidate get_header_number get_header_value
    revalidate_back m name none e = simp (e, get_header_value, get_header_number) refl
    revalidate_back m name (some never) e = simp (e, get_header_value) refl
    revalidate_back m name (some (every n)) e =
        simp (e, get_header_value, laws.number_not_false n, number_back m name (some n) e) refl

    pub json_back :
        (m : HeaderMap) (name : String) (o : Option js.Json)
        → lookup name m ≡ json_header js o
        → parse_optional js (get_header_value m name) ≡ some o
    unfolding parse_optional get_header_value
    json_back m name none e = simp (e, get_header_value) refl
    json_back m name (some j) e =
        simp (e, get_header_value, laws.stringify_nonempty j, laws.parse-stringify j) refl

    pub bypass_back :
        (m : HeaderMap) (name : String) (b : Bool)
        → lookup name m ≡ bypass_header js b
        → is_value "true" (get_header_value m name) ≡ b
    unfolding get_header_value
    bypass_back m name true e = rw (e, get_header_value) refl
    bypass_back m name false e = rw (e, get_header_value) refl

  -- the lookup of a header that has no prefix
  pub lookup-final :
      (name : String) (kind : HeaderValue) (es m : HeaderMap)
      → strip prefix name ≡ none
      → str_eq "Content-Type" name ≡ false
      → lookup name (insert "Content-Type" kind (put_prefixed es m)) ≡ lookup name m
  lookup-final name kind es m h ne = simp (lookup-insert, ne, lookup-put_prefixed name es m h) refl
