-- ===== src/Images/Allowed.antt =====
-- packages/cloudflare/src/cli/templates/images.ts: what a request has that `parseImageRequest` accepts.
use adapters_api.Common.{
  ℕ, ◌≤◌, ◌<◌, ◌≡◌, ◌⊎◌, inl, inr, arith, Bool, true, false, not, ◌&&◌, ◌||◌, some, List, [], ◌∷◌,
  refl, ◌++◌, length, ltb, Bool-cases, Option-cases,
}
use mathlib.Core.Path.{subst}
use adapters_api.Common.Text.{Text, starts_with, same_text}
use adapters_api.ShardId.{char_codes}
use adapters_api.Images.{
  Settings, Platform, Url, ImageRequest, Result, ok, error, thrown, Result-cases,
}
use adapters_api.Images.Matches.{
  HasLocal, HasRemote, has_local_match-HasLocal, has_remote_match-HasRemote,
}
use adapters_api.Images.Params.{
  has_number, pathname_from_relative_url, parse_relative_url, is_recursive, has_local_match,
  has_remote_match, static_prefix, validate_relative, validate_absolute, validate_url,
  validate_width, validate_quality, ParsedRequest, parse_image_request,
}

module _ {A : Type 0} where
  -- the value of a result, if there is one, satisfies the predicate
  abbrev WhenOk : (A → Type 0) → Result A → Type 0
  WhenOk P (ok a) = P a
  WhenOk P (error m) = Unit
  WhenOk P thrown = Unit

module _ (p : Platform) (s : Settings) where
  -- where an accepted image may come from
  pub data IsSource : Text → Bool → Type 0 where
    -- a path of the site: not protocol-relative, not the image handler itself, and a static file, which
    -- is one under `/_next/static/media` of the base path, or matched by a local pattern
    local :
        {url decoded : Text} {is_static : Bool}
        → is_static ≡ starts_with url (s.base_path ++ char_codes "/_next/static/media")
        → starts_with url (b'/' ∷ []) ≡ true
        → starts_with url (b'/' ∷ b'/' ∷ []) ≡ false
        → p.decode_uri_component (pathname_from_relative_url url) ≡ some decoded
        → is_recursive decoded ≡ false
        → (is_static ≡ true) ⊎ HasLocal p s.local_patterns (parse_relative_url url)
        → IsSource url is_static
    -- a URL of another site, with the protocol http or https, matched by a remote pattern
    remote :
        {asked : Text} {url : Url}
        → p.parse_url asked ≡ some url
        → (same_text url.protocol (char_codes "http:")
            || same_text url.protocol (char_codes "https:"))
          ≡ true
        → HasRemote p s.remote_patterns url
        → IsSource url.href false

  pub record IsAllowed (r : ParsedRequest p s) : Type 0 where
    pub source : IsSource r.url r.is_static
    pub width_positive : 0 < r.width
    pub width_listed :
        (has_number r.width s.device_sizes || has_number r.width s.image_sizes) ≡ true
    pub quality_least : 1 ≤ r.quality
    pub quality_most : r.quality ≤ 100
    pub quality_listed : has_number r.quality s.qualities ≡ true

  abbrev IsLocal : Text × Bool → Type 0
  IsLocal found = IsSource found.0 found.1

  where_from :
      (url : Text)
      → (not (starts_with url (static_prefix p s)) && not (has_local_match p s.local_patterns url))
        ≡ false
      → (starts_with url (static_prefix p s) ≡ true)
        ⊎ HasLocal p s.local_patterns (parse_relative_url url)
  where_from url h = elim (Bool-cases (starts_with url (static_prefix p s))) [
    | inl e ↦ inl e
    | inr e ↦ inr (has_local_match-HasLocal p s.local_patterns url (ground arith))
  ]

  validate_relative-IsSource :
      (url : Text)
      → starts_with url (b'/' ∷ []) ≡ true
      → starts_with url (b'/' ∷ b'/' ∷ []) ≡ false
      → WhenOk IsLocal (validate_relative p s url)
  unfolding validate_relative
  validate_relative-IsSource url one two =
      let is_static = starts_with url (static_prefix p s) in
      let matched = has_local_match p s.local_patterns url in
      elim (Option-cases (p.decode_uri_component (pathname_from_relative_url url))) [
        | inl e ↦ rw (e, validate_relative) tt
        | inr (d, e) ↦ elim (Bool-cases (is_recursive d)) [
          | inl r ↦ rw (e, r, validate_relative) tt
          | inr r ↦ elim (Bool-cases (not is_static && not matched)) [
            | inl m ↦ rw (e, r, m, validate_relative) tt
            | inr m ↦ rw (e, r, m, validate_relative) (local refl one two e r (where_from url m))
          ]
        ]
      ]

  validate_absolute-IsSource : (url : Text) → WhenOk IsLocal (validate_absolute p s url)
  unfolding validate_absolute
  validate_absolute-IsSource url = elim (Option-cases (p.parse_url url)) [
    | inl e ↦ rw (e, validate_absolute) tt
    | inr (u, e) ↦
        elim (Bool-cases (
          same_text u.protocol (char_codes "http:")
          || same_text u.protocol (char_codes "https:"))) [
            | inr h ↦ rw (e, h, validate_absolute) tt
            | inl h ↦ elim (Bool-cases (has_remote_match p s.remote_patterns u)) [
              | inr m ↦ rw (e, h, m, validate_absolute) tt
              | inl m ↦
                  rw (e, h, m, validate_absolute)
                    (remote e h (has_remote_match-HasRemote p s.remote_patterns u m))
            ]
          ]
  ]

  validate_url-IsSource : (urls : List Text) → WhenOk IsLocal (validate_url p s urls)
  unfolding validate_url
  validate_url-IsSource [] = tt
  validate_url-IsSource (url ∷ next ∷ urls) = tt
  validate_url-IsSource (url ∷ []) = elim (Bool-cases (ltb 3072 (length url))) [
    | inl long ↦ rw long tt
    | inr long ↦ elim (Bool-cases (starts_with url (b'/' ∷ b'/' ∷ []))) [
      | inl two ↦ rw (long, two) tt
      | inr two ↦ elim (Bool-cases (starts_with url (b'/' ∷ []))) [
        | inl one ↦ rw (long, two, one) (validate_relative-IsSource url one two)
        | inr one ↦ rw (long, two, one) (validate_absolute-IsSource url)
      ]
    ]
  ]

  validate_width-ok :
      (values : List Text) (n : ℕ)
      → validate_width p s values ≡ ok n
      → (0 < n) × ((has_number n s.device_sizes || has_number n s.image_sizes) ≡ true)
  unfolding validate_width
  validate_width-ok [] n h = ground arith
  validate_width-ok (value ∷ next ∷ values) n h = ground arith
  validate_width-ok (value ∷ []) n h = ground arith

  validate_quality-ok :
      (values : List Text) (n : ℕ)
      → validate_quality p s values ≡ ok n
      → (1 ≤ n) × (n ≤ 100) × (has_number n s.qualities ≡ true)
  unfolding validate_quality
  validate_quality-ok [] n h = ground arith
  validate_quality-ok (value ∷ next ∷ values) n h = ground arith
  validate_quality-ok (value ∷ []) n h = ground arith

  parse-IsAllowed : (request : ImageRequest) → WhenOk IsAllowed (parse_image_request p s request)
  unfolding parse_image_request
  parse-IsAllowed request = elim (Result-cases (validate_url p s request.urls)) [
    | inr (inr e) ↦ rw (e, parse_image_request) tt
    | inr (inl (m, e)) ↦ rw (e, parse_image_request) tt
    | inl (u, e) ↦ elim (Result-cases (validate_width p s request.widths)) [
      | inr (inr f) ↦ rw (e, f, parse_image_request) tt
      | inr (inl (m, f)) ↦ rw (e, f, parse_image_request) tt
      | inl (w, f) ↦ elim (Result-cases (validate_quality p s request.qualities)) [
        | inr (inr g) ↦ rw (e, f, g, parse_image_request) tt
        | inr (inl (m, g)) ↦ rw (e, f, g, parse_image_request) tt
        | inl (q, g) ↦
            let (positive, size) = validate_width-ok request.widths w f in
            let (least, most, listed) = validate_quality-ok request.qualities q g in
            rw (e, f, g, parse_image_request)
              (record {
                source = subst (WhenOk IsLocal) e (validate_url-IsSource request.urls);
                width_positive = positive;
                width_listed = size;
                quality_least = least;
                quality_most = most;
                quality_listed = listed;
              })
      ]
    ]
  ]

  -- A request that is accepted has a width and a quality that the settings list, the quality from 1 to
  -- 100, and an image from an allowed source: a path of the site that is not protocol-relative, not the
  -- image handler itself, and a static file (under `/_next/static/media` of the base path) or matched
  -- by a local pattern; or an http(s) URL that a remote pattern matches.
  pub parse_image_request-IsAllowed :
      (request : ImageRequest) (r : ParsedRequest p s)
      → parse_image_request p s request ≡ ok r
      → IsAllowed r
  parse_image_request-IsAllowed request r h = subst (WhenOk IsAllowed) h (parse-IsAllowed request)
