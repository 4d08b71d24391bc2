-- ===== src/Locale/Localized.antt =====
-- packages/core/src/core/routing/i18n/index.ts: which paths count as localized.
use Prim.Native.String
use Prim.Native.Char.{code}
use text.Mathlib.TextLemmas.{nil-append, cons-append}
use adapters_api.Common.{
  ◌≡◌, ◌≢◌, refl, sym, ap, ◌∙◌, arith, inl, inr, String, Bool, true, false, not, ◌&&◌, ◌||◌, Option,
  none, some, List, [], ◌∷◌, All, any, ◌==◌, str_eq, eq_iff, Bool-cases, if◌then◌else◌,
}
use adapters_api.Interceptor.Paths.{parts_of}
use adapters_api.Locale.{
  DomainLocale, Config, Env, Event, or_else, is_localized_path, find_locale, get_locale_from_cookie,
  find_domain, detect_domain_locale, default_of, detect_locale, localize_as, localize_path,
  before_colon, is_text,
}

unfoldable pub no_slash : String → Bool
no_slash String.[] = true
no_slash (String.◌∷◌ c text) = not (code c == 47) && no_slash text

parts_of-append :
    (part text : String)
    → no_slash part ≡ true
    → (parts_of text).0 ≡ ""
    → (parts_of (String.◌++◌ part text)).0 ≡ part
unfolding no_slash parts_of
parts_of-append String.[] text clean e = ap (λ t. (parts_of t).0) (nil-append text) ∙ e
parts_of-append (String.◌∷◌ c part) text clean e = elim (Bool-cases (code c == 47)) [
  | inl f ↦ cc
  | inr f ↦
      rw (cons-append c part text, f, parts_of-append part text (sym (simp f refl) ∙ clean) e) refl
]

module _ (env : Env) (config : Config) where
  abbrev pub IsListed : String → Type 0
  IsListed locale = any (str_eq locale) config.locales ≡ true

  -- A configuration whose locales are in lower case, without slashes, and have all default locales among
  -- them; `acceptLanguage` chooses one of the locales that it is given.
  pub record IsPlain : Type 0 where
    pub default_listed : IsListed config.default_locale
    pub domains_listed : All (λ d. IsListed d.default_locale) config.domains
    pub accepted_listed :
        (header : Option String) (locale : String)
        → env.accept_language header config.locales ≡ some locale
        → IsListed locale
    pub lower_case : All (λ l. env.lower l ≡ l) config.locales
    pub clean : All (λ l. no_slash l ≡ true) config.locales

  find_locale-IsListed :
      (text : String) (locales : List String) (locale : String)
      → find_locale env text locales ≡ some locale
      → any (str_eq locale) locales ≡ true
  unfolding find_locale
  find_locale-IsListed text [] locale e = cc
  find_locale-IsListed text (l ∷ locales) locale e =
      ground (arith, find_locale-IsListed text locales locale, eq_iff locale l, e)

  chosen :
      (b : Bool) (first d : DomainLocale) (later : Option DomainLocale)
      → (if b then some first else later) ≡ some d
      → IsListed first.default_locale
      → (later ≡ some d → IsListed d.default_locale)
      → IsListed d.default_locale
  chosen true first d later e p h = cc
  chosen false first d later e p h = h e

  find_domain-IsListed :
      (hostname locale : Option String) (domains : List DomainLocale) (d : DomainLocale)
      → All (λ d. IsListed d.default_locale) domains
      → find_domain env hostname locale domains ≡ some d
      → IsListed d.default_locale
  unfolding find_domain
  find_domain-IsListed hostname locale [] d _ e = cc
  find_domain-IsListed hostname locale (first ∷ domains) d (p, listed) e =
      chosen
        (is_text (env.lower (before_colon first.domain)) hostname
          || (is_text (env.lower first.default_locale) locale
              || any (λ l. is_text (env.lower l) locale) first.locales))
        first d (find_domain env hostname locale domains) e p
        (find_domain-IsListed hostname locale domains d listed)

  or_else-IsListed :
      (o : Option String) (a : String)
      → ((b : String) → o ≡ some b → IsListed b)
      → IsListed a
      → IsListed (or_else o a)
  or_else-IsListed none a h p = p
  or_else-IsListed (some b) a h p = h b refl

  default_of-IsListed :
      (o : Option DomainLocale)
      → ((d : DomainLocale) → o ≡ some d → IsListed d.default_locale)
      → (b : String) → default_of env o ≡ some b
      → IsListed b
  default_of-IsListed none h b e = cc
  default_of-IsListed (some d) h b e = let p = h d refl in cc

  get_locale_from_cookie-IsListed :
      (cookie : Option String) (locale : String)
      → get_locale_from_cookie env config cookie ≡ some locale
      → IsListed locale
  unfolding get_locale_from_cookie
  get_locale_from_cookie-IsListed none locale e = cc
  get_locale_from_cookie-IsListed (some cookie) locale e =
      ground (arith, find_locale-IsListed (env.lower cookie) config.locales locale, e)

  detect_locale-IsListed : IsPlain → (e : Event) → IsListed (detect_locale env e config)
  unfolding detect_locale detect_domain_locale
  detect_locale-IsListed plain e =
      let of_domain =
        default_of-IsListed (find_domain env e.host none config.domains)
          (λ d. find_domain-IsListed e.host none config.domains d plain.domains_listed) in
      elim (Bool-cases config.locale_detection) [
        | inl f ↦ simp f (
            or_else-IsListed _ _ of_domain (
              or_else-IsListed _ _ (get_locale_from_cookie-IsListed e.next_locale) (
                or_else-IsListed _ _ (plain.accepted_listed e.accept_language)
                  plain.default_listed)))
        | inr f ↦ simp f (or_else-IsListed _ _ of_domain plain.default_listed)
      ]

  listed-All :
      (P : String → Type 0) (locale : String) (locales : List String)
      → any (str_eq locale) locales ≡ true
      → All P locales
      → P locale
  listed-All P locale [] h _ = cc
  listed-All P locale (l ∷ locales) h (p, ps) = elim (Bool-cases (str_eq locale l)) [
    | inl e ↦ rw ((eq_iff locale l).0 e) p
    | inr e ↦ listed-All P locale locales (sym (simp e refl) ∙ h) ps
  ]

  second_part :
      (locale path : String)
      → no_slash locale ≡ true
      → (parts_of path).0 ≡ ""
      → is_localized_path env config (String.◌∷◌ "/" (String.◌++◌ locale path))
        ≡ any (str_eq (env.lower locale)) config.locales
  unfolding is_localized_path parts_of
  second_part locale path clean e =
      ap (λ part. any (str_eq (env.lower part)) config.locales)
        (parts_of-append locale path clean e)

  localize_path_kept :
      (e : Event)
      → env.i18n ≡ some config
      → is_localized_path env config e.raw_path ≡ true
      → localize_path env e ≡ e.raw_path
  unfolding localize_path localize_as
  localize_path_kept e i18n h = ap (λ o. localize_as env o e) i18n ∙ simp h refl

  localize_path_prefixed :
      (e : Event)
      → env.i18n ≡ some config
      → is_localized_path env config e.raw_path ≡ false
      → localize_path env e ≡ String.◌∷◌ "/" (String.◌++◌ (detect_locale env e config) e.raw_path)
  unfolding localize_path localize_as
  localize_path_prefixed e i18n h = ap (λ o. localize_as env o e) i18n ∙ simp h refl

  localize_path-is_localized :
      (e : Event)
      → env.i18n ≡ some config
      → IsPlain
      → (parts_of e.raw_path).0 ≡ ""
      → is_localized_path env config (localize_path env e) ≡ true
  localize_path-is_localized e i18n plain slash =
      elim (Bool-cases (is_localized_path env config e.raw_path)) [
        | inl f ↦ ap (is_localized_path env config) (localize_path_kept e i18n f) ∙ f
        | inr f ↦
            let locale = detect_locale env e config in
            let listed = detect_locale-IsListed plain e in
            let clean =
              listed-All (λ l. no_slash l ≡ true) locale config.locales listed plain.clean in
            let same =
              listed-All (λ l. env.lower l ≡ l) locale config.locales listed plain.lower_case in
            ap (is_localized_path env config) (localize_path_prefixed e i18n f)
            ∙ (second_part locale e.raw_path clean slash
                ∙ (ap (λ t. any (str_eq t) config.locales) same ∙ listed))
      ]

  -- With a plain configuration, `localizePath` gives a localized path for every path that begins with a
  -- slash: localizing it once more changes nothing.
  pub localize_path-settles :
      (e : Event)
      → env.i18n ≡ some config
      → IsPlain
      → (parts_of e.raw_path).0 ≡ ""
      → (is_localized_path env config (localize_path env e) ≡ true)
        × (localize_path env (record e { raw_path = localize_path env e }) ≡ localize_path env e)
  localize_path-settles e i18n plain slash =
      let localized = localize_path-is_localized e i18n plain slash in
      (localized, localize_path_kept (record e { raw_path = localize_path env e }) i18n localized)

  module _ (twice : (t : String) → env.lower (env.lower t) ≡ env.lower t)
      (cased : All (λ l. env.lower l ≢ l) config.locales) where
    lower-is_unlisted : (part : String) → any (str_eq (env.lower part)) config.locales ≡ false
    lower-is_unlisted part = elim (Bool-cases (any (str_eq (env.lower part)) config.locales)) [
      | inl h ↦
          absurd
            (listed-All (λ l. env.lower l ≢ l) (env.lower part) config.locales h cased (twice part))
      | inr h ↦ h
    ]

    is_localized_path_never : (path : String) → is_localized_path env config path ≡ false
    unfolding is_localized_path
    is_localized_path_never path = unlisted ((parts_of path).1)
      where
        unlisted :
            (parts : List String)
            → elim parts [
              | [] ↦ false
              | part ∷ parts ↦ any (str_eq (env.lower part)) config.locales
            ]
              ≡ false
        unlisted [] = refl
        unlisted (part ∷ parts) = lower-is_unlisted part

    -- If no locale of the configuration is in lower case, as with `en-US` and `fr-FR`, and lower case is
    -- idempotent, no path counts as localized: `localizePath` puts the detected locale in front of every
    -- path, and once more in front of what it has localized itself.
    pub localize_path_repeats :
        (e : Event)
        → env.i18n ≡ some config
        → let detected = detect_locale env e config in
          (localize_path env e ≡ String.◌∷◌ "/" (String.◌++◌ detected e.raw_path))
          × (localize_path env (record e { raw_path = localize_path env e })
              ≡ String.◌∷◌ "/"
                  (String.◌++◌ detected (String.◌∷◌ "/" (String.◌++◌ detected e.raw_path))))
    unfolding detect_locale
    localize_path_repeats e i18n =
        let detected = detect_locale env e config in
        let first = localize_path_prefixed e i18n (is_localized_path_never e.raw_path) in
        let again : Event = record e { raw_path = localize_path env e } in
        let second = localize_path_prefixed again i18n (is_localized_path_never again.raw_path) in
        (first, second ∙ ap (λ path. String.◌∷◌ "/" (String.◌++◌ detected path)) first)
