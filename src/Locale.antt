-- ===== src/Locale.antt =====
-- packages/core/src/core/routing/i18n/index.ts: the locale of a request, its localized path, and the
-- redirect to another locale.
pub mod Localized
mod Tests
use Prim.Native.String
use Prim.Native.Char.{code}
use adapters_api.Common.{
  ℕ, String, Bool, true, false, not, ◌&&◌, ◌||◌, Option, none, some, List, [], ◌∷◌, ◌++◌, map, any,
  ◌==◌, str_eq, if◌then◌else◌,
}
use adapters_api.Common.Assoc.{lookup}
use adapters_api.CacheService.{one, many, HeaderMap, HeaderValue}
use adapters_api.Interceptor.Paths.{parts_of}

-- `DomainLocale`
pub record DomainLocale : Type 0 where
  pub domain : String
  pub default_locale : String
  pub locales : List String
  pub http : Bool

-- `i18nConfig`; `locale_detection` is true unless it is set to false
pub record Config : Type 0 where
  pub locales : List String
  pub default_locale : String
  pub domains : List DomainLocale
  pub locale_detection : Bool

-- The configuration, and what the code takes from elsewhere: `toLowerCase`, `acceptLanguage` of Next.js,
-- and `new URL(path, base).href`.
pub record Env : Type 0 where
  pub i18n : Option Config
  pub trailing_slash : Bool
  pub base_path : String
  pub lower : String → String
  pub accept_language : Option String → List String → Option String
  pub resolve : (base path : String) → String

-- what is read from the event
pub record Event : Type 0 where
  pub raw_path : String
  pub url : String
  pub host : Option String
  pub accept_language : Option String
  pub next_locale : Option String
  pub query : List (String × HeaderValue)

-- `first ?? second`
abbrev pub or_else {ℓ} : {A : Type ℓ} → Option A → A → A
or_else none a = a
or_else (some b) a = b

-- `text.split(":", 1)[0]`
unfoldable pub before_colon : String → String
before_colon String.[] = ""
before_colon (String.◌∷◌ c text) =
    let rest = before_colon text in if code c == 58 then "" else String.◌∷◌ c rest

-- whether a text that may be undefined is this one
unfoldable pub is_text : String → Option String → Bool
is_text t none = false
is_text t (some u) = str_eq u t

-- `constructNextUrl` of routing/util.ts
unfoldable pub construct_next_url : Env → (base path : String) → String
construct_next_url env base path = env.resolve base (String.◌++◌ env.base_path path)

-- the pairs of `convertToQueryString`
unfoldable pub query_strings : List (String × HeaderValue) → List String
query_strings [] = []
query_strings ((key, one v) ∷ query) = String.◌++◌ key (String.◌++◌ "=" v) ∷ query_strings query
query_strings ((key, many vs) ∷ query) =
    map (λ v. String.◌++◌ key (String.◌++◌ "=" v)) vs ++ query_strings query

unfoldable pub joined_pairs : List String → String
joined_pairs [] = ""
joined_pairs (pair ∷ pairs) = String.◌++◌ "&" (String.◌++◌ pair (joined_pairs pairs))

-- `convertToQueryString` of routing/util.ts
unfoldable pub convert_to_query_string : List (String × HeaderValue) → String
convert_to_query_string query = elim (query_strings query) [
  | [] ↦ ""
  | pair ∷ pairs ↦ String.◌++◌ "?" (String.◌++◌ pair (joined_pairs pairs))
]

module _ (env : Env) where
  -- `isLocalizedPath`; a raw path begins with a slash, so that there is a second part
  unfoldable pub is_localized_path : Config → String → Bool
  is_localized_path config path = elim (parts_of path).1 [
    | [] ↦ false
    | part ∷ parts ↦ any (str_eq (env.lower part)) config.locales
  ]

  -- the first locale that is the text but for its case
  unfoldable pub find_locale : String → List String → Option String
  find_locale text [] = none
  find_locale text (locale ∷ locales) =
      let later = find_locale text locales in
      if str_eq text (env.lower locale) then some locale else later

  -- `getLocaleFromCookie`; an empty cookie is none
  unfoldable pub get_locale_from_cookie : Config → Option String → Option String
  get_locale_from_cookie config none = none
  get_locale_from_cookie config (some cookie) =
      let text = env.lower cookie in
      if str_eq text "" then none else find_locale text config.locales

  -- `detectDomainLocale`, of the host name and a locale in lower case
  unfoldable pub find_domain :
      (hostname locale : Option String) → List DomainLocale → Option DomainLocale
  find_domain hostname locale [] = none
  find_domain hostname locale (d ∷ domains) =
      let later = find_domain hostname locale domains in
      if is_text (env.lower (before_colon d.domain)) hostname
        || (is_text (env.lower d.default_locale) locale
            || any (λ l. is_text (env.lower l) locale) d.locales)
      then some d
      else later

  abbrev pub lower_or_none : Option String → Option String
  lower_or_none none = none
  lower_or_none (some t) = some (env.lower t)

  unfoldable pub detect_domain_locale :
      (hostname detected_locale : Option String) → Config → Option DomainLocale
  detect_domain_locale hostname detected_locale config =
      find_domain hostname (lower_or_none detected_locale) config.domains

  abbrev pub default_of : Option DomainLocale → Option String
  default_of none = none
  default_of (some d) = some d.default_locale

  -- `detectLocale`
  unfoldable pub detect_locale : Event → Config → String
  detect_locale e config =
      let domain = default_of (detect_domain_locale e.host none config) in
      let cookies = get_locale_from_cookie config e.next_locale in
      let preferred = env.accept_language e.accept_language config.locales in
      if config.locale_detection
      then or_else domain (or_else cookies (or_else preferred config.default_locale))
      else or_else domain config.default_locale

  -- `localizePath`, of a configuration
  unfoldable pub localize_as : Option Config → Event → String
  localize_as none e = e.raw_path
  localize_as (some config) e =
      if is_localized_path config e.raw_path
      then e.raw_path
      else String.◌∷◌ "/" (String.◌++◌ (detect_locale e config) e.raw_path)

  -- `localizePath`
  unfoldable pub localize_path : Event → String
  localize_path e = localize_as env.i18n e

  -- the redirect to the domain of the preferred locale
  unfoldable pub to_domain : DomainLocale → DomainLocale → Option String → Option String
  to_domain domain preferred locale =
      let is_p_domain = str_eq preferred.domain domain.domain in
      let is_p_locale = is_text preferred.default_locale locale in
      let rlocale = if is_p_locale then "" else or_else locale "undefined" in
      let scheme = if preferred.http then "http" else "https" in
      if is_p_domain && is_p_locale
      then none
      else some (
          String.◌++◌ scheme
            (String.◌++◌ "://" (String.◌++◌ preferred.domain (String.◌++◌ "/" rlocale))))

  -- the redirect to the detected locale on the same domain
  unfoldable pub to_locale : Event → Config → Option String
  to_locale e config =
      let detected = detect_locale e config in
      let default =
        or_else (default_of (detect_domain_locale e.host none config)) config.default_locale in
      let slash = if env.trailing_slash then "/" else "" in
      if str_eq (env.lower detected) (env.lower default)
      then none
      else some (
          String.◌++◌ (construct_next_url env e.url (String.◌∷◌ "/" (String.◌++◌ detected slash)))
            (convert_to_query_string e.query))

  -- `handleLocaleRedirect`: the `Location` of the redirect, if there is one
  unfoldable pub handle_locale_redirect : Event → Option String
  handle_locale_redirect e = elim env.i18n [
    | none ↦ none
    | some config ↦
        if not config.locale_detection || not (str_eq e.raw_path "/")
        then none
        else let preferred = env.accept_language e.accept_language config.locales in
          elim (detect_domain_locale e.host none config) [
            | none ↦ to_locale e config
            | some domain ↦ elim (detect_domain_locale none preferred config) [
              | none ↦ to_locale e config
              | some wanted ↦ elim (to_domain domain wanted preferred) [
                | none ↦ to_locale e config
                | some location ↦ some location
              ]
            ]
          ]
  ]
