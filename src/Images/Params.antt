-- ===== src/Images/Params.antt =====
-- packages/cloudflare/src/cli/templates/images.ts: the checks of the query parameters, and the
-- patterns of local and remote URLs.
use adapters_api.Common.{
  ℕ, ◌+◌, ◌-◌, ◌*◌, Bool, true, false, not, ◌&&◌, ◌||◌, Option, none, some, List, [], ◌∷◌, ◌++◌,
  length, ltb, leb, ◌==◌, if◌then◌else◌,
}
use adapters_api.Common.Text.{Text, starts_with, includes, same_text, split, join, has_char}
use adapters_api.ShardId.{char_codes, decimal}
use adapters_api.Images.{
  Settings, Platform, RemotePattern, LocalPattern, Url, ImageRequest, OptimizedImageFormat, to_avif,
  to_webp, Result, ok, error, thrown,
}
use Prim.Native.String

-- `list.includes(n)`
unfoldable pub has_number : ℕ → List ℕ → Bool
has_number n [] = false
has_number n (x ∷ xs) = x == n || has_number n xs

unfoldable pub mime_of : OptimizedImageFormat → Text
mime_of to_avif = char_codes "image/avif"
mime_of to_webp = char_codes "image/webp"

-- `getPathnameFromRelativeURL`
unfoldable pub pathname_from_relative_url : Text → Text
pathname_from_relative_url url = (split b'?' url).0

-- `ParseRelativeURLResult`
pub record RelativeUrl : Type 0 where
  pub pathname : Text
  pub search : Text

-- `parseRelativeURL`
unfoldable pub parse_relative_url : Text → RelativeUrl
parse_relative_url url =
    if not (has_char b'?' url)
    then record { pathname = url; search = [] }
    else record { pathname = (split b'?' url).0; search = b'?' ∷ join b'?' (split b'?' url).1 }

-- the regular expression `/\/_next\/image($|\/)/` at the start of a text, and anywhere in it
unfoldable pub ends_or_slash : Text → Text → Bool
ends_or_slash [] [] = true
ends_or_slash (a ∷ text) [] = a == b'/'
ends_or_slash [] (c ∷ prefix) = false
ends_or_slash (a ∷ text) (c ∷ prefix) = a == c && ends_or_slash text prefix

abbrev pub image_path : Text
image_path = char_codes "/_next/image"

unfoldable pub is_recursive : Text → Bool
is_recursive [] = ends_or_slash [] image_path
is_recursive (a ∷ text) = ends_or_slash (a ∷ text) image_path || is_recursive text

-- `/^[0-9]+$/`
unfoldable pub all_digits : Text → Bool
all_digits [] = true
all_digits (c ∷ text) = leb b'0' c && leb c b'9' && all_digits text

unfoldable pub is_numeral : Text → Bool
is_numeral [] = false
is_numeral (c ∷ text) = all_digits (c ∷ text)

-- `parseInt(text, 10)` of digits, exact below 2 ^ 53
unfoldable pub digits_from : ℕ → Text → ℕ
digits_from n [] = n
digits_from n (c ∷ text) = digits_from (n * 10 + (c - b'0')) text

unfoldable pub parse_int : Text → ℕ
parse_int text = digits_from 0 text

-- `text.replace(/:$/, "")`
unfoldable pub without_colon : Text → Text
without_colon [] = []
without_colon (c ∷ []) = if c == b':' then [] else c ∷ []
without_colon (c ∷ d ∷ text) = c ∷ without_colon (d ∷ text)

-- `value === undefined || value === other`
unfoldable pub unset_or_same : Option Text → Text → Bool
unset_or_same none other = true
unset_or_same (some value) other = same_text value other

module _ (p : Platform) where
  -- `matchLocalPattern`
  unfoldable pub match_local_pattern : LocalPattern → RelativeUrl → Bool
  match_local_pattern pattern url =
      if not (unset_or_same pattern.search url.search)
      then false
      else p.regex_test pattern.pathname url.pathname

  -- the loop of `hasLocalMatch`
  unfoldable pub any_local_match : List LocalPattern → RelativeUrl → Bool
  any_local_match [] url = false
  any_local_match (pattern ∷ patterns) url =
      if match_local_pattern pattern url then true else any_local_match patterns url

  -- `hasLocalMatch`
  unfoldable pub has_local_match : List LocalPattern → Text → Bool
  has_local_match patterns url = any_local_match patterns (parse_relative_url url)

  unfoldable pub same_protocol : Option Text → Text → Bool
  same_protocol none protocol = true
  same_protocol (some wanted) protocol = same_text (without_colon wanted) (without_colon protocol)

  unfoldable pub hostname_matches : Option Text → Text → Bool
  hostname_matches none hostname = false
  hostname_matches (some source) hostname = p.regex_test source hostname

  -- `matchRemotePattern`
  unfoldable pub match_remote_pattern : RemotePattern → Url → Bool
  match_remote_pattern pattern url =
      if not (same_protocol pattern.protocol url.protocol)
      then false
      else if not (unset_or_same pattern.port url.port)
      then false
      else if not (hostname_matches pattern.hostname url.hostname)
      then false
      else if not (unset_or_same pattern.search url.search)
      then false
      else p.regex_test pattern.pathname url.pathname

  -- `hasRemoteMatch`
  unfoldable pub has_remote_match : List RemotePattern → Url → Bool
  has_remote_match [] url = false
  has_remote_match (pattern ∷ patterns) url =
      if match_remote_pattern pattern url then true else has_remote_match patterns url

  module _ (s : Settings) where
    abbrev pub static_prefix : Text
    static_prefix = s.base_path ++ char_codes "/_next/static/media"

    -- the branch of `validateUrlQueryParameter` for a relative URL
    unfoldable pub validate_relative : Text → Result (Text × Bool)
    validate_relative url =
        let static_asset = starts_with url static_prefix in
        elim (p.decode_uri_component (pathname_from_relative_url url)) [
          | none ↦ thrown
          | some pathname ↦
              if is_recursive pathname
              then error "\"url\" parameter cannot be recursive"
              else if not static_asset && not (has_local_match s.local_patterns url)
              then error "\"url\" parameter is not allowed"
              else ok (url, static_asset)
        ]

    -- its branch for an absolute URL
    unfoldable pub validate_absolute : Text → Result (Text × Bool)
    validate_absolute url = elim (p.parse_url url) [
      | none ↦ error "\"url\" parameter is invalid"
      | some parsed ↦
          if not (
            same_text parsed.protocol (char_codes "http:")
            || same_text parsed.protocol (char_codes "https:"))
          then error "\"url\" parameter is invalid"
          else if not (has_remote_match s.remote_patterns parsed)
          then error "\"url\" parameter is not allowed"
          else ok (parsed.href, false)
    ]

    -- `validateUrlQueryParameter`
    unfoldable pub validate_url : List Text → Result (Text × Bool)
    validate_url [] = error "\"url\" parameter is required"
    validate_url (url ∷ next ∷ urls) = error "\"url\" parameter cannot be an array"
    validate_url (url ∷ []) =
        if ltb 3072 (length url)
        then error "\"url\" parameter is too long"
        else if starts_with url (b'/' ∷ b'/' ∷ [])
        then error "\"url\" parameter cannot be a protocol-relative URL (//)"
        else if starts_with url (b'/' ∷ [])
        then validate_relative url
        else validate_absolute url

    -- `validateWidthQueryParameter`
    unfoldable pub validate_width : List Text → Result ℕ
    validate_width [] = error "\"w\" parameter (width) is required"
    validate_width (value ∷ next ∷ values) = error "\"w\" parameter (width) cannot be an array"
    validate_width (value ∷ []) =
        let width = parse_int value in
        if not (is_numeral value)
        then error "\"w\" parameter (width) must be an integer greater than 0"
        else if leb width 0
        then error "\"w\" parameter (width) must be an integer greater than 0"
        else if not (has_number width s.device_sizes || has_number width s.image_sizes)
        then error (
            String.◌++◌ "\"w\" parameter (width) of "
              (String.◌++◌ (decimal width) " is not allowed"))
        else ok width

    -- `validateQualityQueryParameter`
    unfoldable pub validate_quality : List Text → Result ℕ
    validate_quality [] = error "\"q\" parameter (quality) is required"
    validate_quality (value ∷ next ∷ values) = error "\"q\" parameter (quality) cannot be an array"
    validate_quality (value ∷ []) =
        let quality = parse_int value in
        if not (is_numeral value)
        then error "\"q\" parameter (quality) must be an integer between 1 and 100"
        else if ltb quality 1 || ltb 100 quality
        then error "\"q\" parameter (quality) must be an integer between 1 and 100"
        else if not (has_number quality s.qualities)
        then error (
            String.◌++◌ "\"q\" parameter (quality) of "
              (String.◌++◌ (decimal quality) " is not allowed"))
        else ok quality

    -- the loop over the formats in `parseImageRequest`
    unfoldable pub accepted_format : Text → List OptimizedImageFormat → Option OptimizedImageFormat
    accepted_format accept [] = none
    accepted_format accept (allowed ∷ formats) =
        if includes accept (mime_of allowed) then some allowed else accepted_format accept formats

    -- `ParseImageRequestURLSuccessResult`
    pub record ParsedRequest : Type 0 where
      pub url : Text
      pub width : ℕ
      pub quality : ℕ
      pub format : Option OptimizedImageFormat
      pub is_static : Bool

    -- `acceptHeader ?? ""`
    unfoldable pub text_or_empty : Option Text → Text
    text_or_empty none = []
    text_or_empty (some text) = text

    -- `parseImageRequest`
    unfoldable pub parse_image_request : ImageRequest → Result ParsedRequest
    parse_image_request request = elim (validate_url request.urls) [
      | thrown ↦ thrown
      | error m ↦ error m
      | ok found ↦ elim (validate_width request.widths) [
        | thrown ↦ thrown
        | error m ↦ error m
        | ok width ↦ elim (validate_quality request.qualities) [
          | thrown ↦ thrown
          | error m ↦ error m
          | ok quality ↦ ok (record {
            url = found.0;
            width = width;
            quality = quality;
            format = accepted_format (text_or_empty request.accept) s.formats;
            is_static = found.1;
          })
        ]
      ]
    ]
