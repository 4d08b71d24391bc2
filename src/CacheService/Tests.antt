-- ===== src/CacheService/Tests.antt =====
-- A run through the cache service, and the theorem at a concrete entry.
use Prim.Native.Char.{code}
use adapters_api.Common.{
  ℕ, zero, suc, ◌≡◌, refl, String, true, false, Option, none, some, [], ◌∷◌, str_eq, eq_iff, ap,
  arith, inl, inr, Bool-cases,
}
use adapters_api.Common.Assoc.{has, IsUnique}
use adapters_api.CacheService.{Script, one, every, page, file, Entry}
use adapters_api.CacheService.Encode.{build_cache_get_response}
use adapters_api.CacheService.Decode.{entry, parse_cache_get_response}
use adapters_api.CacheService.Fields.{IsFaithful}
use adapters_api.CacheService.RoundTrip.{parse_cache_get_response-build}

-- numbers in strokes
count : ℕ → String
count zero = ""
count (suc n) = String.◌∷◌ "|" (count n)

strokes : String → Option ℕ
strokes String.[] = some 0
strokes (String.◌∷◌ c s) = elim (strokes s) [ none ↦ none | some n ↦ some (suc n) ]

-- A JSON value stands for itself in this script: a text, with a mark in front when it is written.
abbrev script : Script
script = record {
  Json = String;
  stringify = λ j. String.◌∷◌ "#" j;
  parse = λ t. elim t [ String.[] ↦ none | String.◌∷◌ c j ↦ some j ];
  object = λ fields. "object";
  member = λ j name. some name;
  is_truthy = λ j. true;
  number_text = count;
  to_number = strokes;
}

strokes-count : (n : ℕ) → strokes (count n) ≡ some n
unfolding strokes count
strokes-count zero = refl
strokes-count (suc n) = rw (strokes-count n, strokes) refl

first : String → ℕ
first String.[] = 0
first (String.◌∷◌ c s) = code c

not_false : (n : ℕ) → str_eq (count n) "false" ≡ false
unfolding count first
not_false zero = refl
not_false (suc n) = elim (Bool-cases (str_eq (count (suc n)) "false")) [
  | inr e ↦ e
  | inl e ↦ ground (arith, ap first ((eq_iff (count (suc n)) "false").0 e))
]

faithful : IsFaithful script
faithful = record {
  parse-stringify = λ j. refl;
  stringify_nonempty = λ j. refl;
  to_number-number_text = strokes-count;
  number_not_false = not_false;
}

abbrev cached : Entry script
cached = record {
  value =
      file (page (some "json") (some "html"))
        (some
          (record { status = some 2; postponed = none; headers = some (("etag", one "x") ∷ []) }))
        (some (every 3));
  last_modified = some 4;
  should_bypass_tag_cache = true;
}

names_differ : IsUnique (("etag", one "x") ∷ [])
unfolding has
names_differ = (refl, tt)

parse_cache_get_response-build_example :
    parse_cache_get_response script "[]"
      (build_cache_get_response script cached).headers
      (build_cache_get_response script cached).body
    ≡ entry cached
parse_cache_get_response-build_example =
    parse_cache_get_response-build script "[]" cached faithful names_differ (refl, (refl, tt))
