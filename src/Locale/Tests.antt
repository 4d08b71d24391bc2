-- ===== src/Locale/Tests.antt =====
-- Requests with locales, and the theorems at concrete paths.
use Prim.Native.String
use adapters_api.Common.{
  ◌≡◌, arith, eq_iff, Bool-cases, inl, inr, refl, sym, ap, String, Bool, true, false, Option, none,
  some, [], ◌∷◌, any, str_eq, if◌then◌else◌,
}
use adapters_api.CacheService.{one, many}
use adapters_api.Interceptor.Paths.{parts_of}
use adapters_api.Locale.{
  Config, Env, Event, or_else, before_colon, is_text, construct_next_url, query_strings,
  joined_pairs, convert_to_query_string, is_localized_path, find_locale, get_locale_from_cookie,
  find_domain, detect_domain_locale, detect_locale, localize_as, localize_path, to_domain,
  to_locale, handle_locale_redirect,
}
use adapters_api.Locale.Localized.{no_slash, IsPlain, localize_path-settles, localize_path_repeats}

program : Unit {0}
unfolding parts_of before_colon is_text construct_next_url query_strings joined_pairs
    convert_to_query_string is_localized_path find_locale get_locale_from_cookie find_domain
    detect_domain_locale detect_locale localize_as localize_path to_domain to_locale
    handle_locale_redirect no_slash
program = tt

abbrev config : Config
config = record {
  locales = "en" ∷ "fr" ∷ [];
  default_locale = "en";
  domains =
      record { domain = "example.fr:443"; default_locale = "fr"; locales = []; http = false } ∷ [];
  locale_detection = true;
}

-- a language header that is taken for French, or for nothing
abbrev env : Env
env = record {
  i18n = some config;
  trailing_slash = false;
  base_path = "";
  lower = λ t. if str_eq t "en-US" then "en-us" else t;
  accept_language = λ header locales. elim header [
    | none ↦ none
    | some t ↦ if str_eq t "fr" then some "fr" else none
  ];
  resolve = λ base path. String.◌++◌ base path;
}

abbrev on : (host path : String) → (language cookie : Option String) → Event
on host path language cookie = record {
  raw_path = path;
  url = "https://example.com";
  host = some host;
  accept_language = language;
  next_locale = cookie;
  query = ("a", many ("1" ∷ "2" ∷ [])) ∷ ("b", one "3") ∷ [];
}

cookie_first : localize_path env (on "example.com" "/about" none (some "fr")) ≡ "/fr/about"
unfolding program
cookie_first = refl

domain_first : localize_path env (on "example.fr" "/about" (some "en") none) ≡ "/fr/about"
unfolding program
domain_first = refl

kept : localize_path env (on "example.com" "/fr/about" none none) ≡ "/fr/about"
unfolding program
kept = refl

sent_to_locale :
    handle_locale_redirect env (on "example.com" "/" (some "fr") none)
    ≡ some "https://example.com/fr?a=1&a=2&b=3"
unfolding program
sent_to_locale = refl

stays : handle_locale_redirect env (on "example.com" "/" (some "en") none) ≡ none
unfolding program
stays = refl

french :
    (b : Bool) (locale : String)
    → (if b then some "fr" else none) ≡ some locale
    → any (str_eq locale) config.locales ≡ true
french true locale e = rw (sym (ap (λ o. or_else o "") e)) refl
french false locale e = cc

accepted :
    (header : Option String) (locale : String)
    → env.accept_language header config.locales ≡ some locale
    → any (str_eq locale) config.locales ≡ true
accepted none locale e = cc
accepted (some t) locale e = french (str_eq t "fr") locale e

plain : IsPlain env config
unfolding program
plain = record {
  default_listed = refl;
  domains_listed = (refl, tt);
  accepted_listed = accepted;
  lower_case = (refl, (refl, tt));
  clean = (refl, (refl, tt));
}

localize_path-settles_example :
    (is_localized_path env config (localize_path env (on "example.com" "/about" none none)) ≡ true)
    × (localize_path env (record (on "example.com" "/about" none none) {
      raw_path = localize_path env (on "example.com" "/about" none none);
    })
        ≡ localize_path env (on "example.com" "/about" none none))
unfolding program
localize_path-settles_example =
    localize_path-settles env config (on "example.com" "/about" none none) refl plain refl

-- locales with a region
abbrev with_region : Config
with_region = record {
  locales = "en-US" ∷ "fr-FR" ∷ [];
  default_locale = "en-US";
  domains = [];
  locale_detection = true;
}

abbrev lower_region : String → String
lower_region t = if str_eq t "en-US" then "en-us" else if str_eq t "fr-FR" then "fr-fr" else t

abbrev region_env : Env
region_env = record env { i18n = some with_region; lower = lower_region }

lower_region_twice : (t : String) → lower_region (lower_region t) ≡ lower_region t
lower_region_twice t = elim (Bool-cases (str_eq t "en-US")) [
  | inl e ↦ simp e refl
  | inr e ↦ elim (Bool-cases (str_eq t "fr-FR")) [
    | inl f ↦ simp (e, f) refl
    | inr f ↦ simp (e, f) refl
  ]
]

localize_path_repeats_example :
    (localize_path region_env (on "example.com" "/en-US/about" none none) ≡ "/en-US/en-US/about")
    × (localize_path region_env (record (on "example.com" "/en-US/about" none none) {
      raw_path = localize_path region_env (on "example.com" "/en-US/about" none none);
    })
        ≡ "/en-US/en-US/en-US/about")
unfolding program
localize_path_repeats_example =
    localize_path_repeats region_env with_region lower_region_twice
      (ground (arith, eq_iff "en-us" "en-US"), (ground (arith, eq_iff "fr-fr" "fr-FR"), tt))
      (on "example.com" "/en-US/about" none none) refl
