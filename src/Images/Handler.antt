-- ===== src/Images/Handler.antt =====
-- packages/cloudflare/src/cli/templates/images.ts: the handler of `/_next/image`.
use adapters_api.Common.{
  ℕ, String, Bool, true, false, not, ◌&&◌, ◌||◌, Option, none, some, List, [], ◌∷◌, ltb, leb, ◌==◌,
  if◌then◌else◌,
}
use adapters_api.Common.Text.{starts_with, includes}
use adapters_api.ShardId.{char_codes}
use adapters_api.Images.{
  Bytes, Settings, Platform, Response, ImageRequest, OptimizedImageFormat, to_avif, to_webp,
  ImageContentType, avif, webp, png, jpeg, gif, svg, Result, ok, error, thrown,
}
use adapters_api.Images.Params.{ParsedRequest, parse_image_request}
use adapters_api.Images.ContentType.{detect_image_content_type, mime}
use adapters_api.Images.Redirects.{
  FetchResult, fetched, fetch_timed_out, too_many_redirects, fetch_thrown, fetch_with_redirects,
}

-- A response of the handler: a text with its status, or an image with its headers and the status 200.
pub data Reply : Type 0 where
  text_reply : (status : ℕ) (text : String) → Reply
  image_reply : (image : Bytes) (headers : List (String × String)) → Reply

-- `new Response(text, { status })`, which throws on a status that allows no body and on one that is
-- out of range
unfoldable pub new_response : ℕ → String → Option Reply
new_response status text =
    if ltb status 200 || ltb 599 status || status == 204 || status == 205 || status == 304
    then none
    else some (text_reply status text)

-- `response.ok`
unfoldable pub is_ok : Response → Bool
is_ok r = leb 200 r.status && leb r.status 299

unfoldable pub type_of_format : OptimizedImageFormat → ImageContentType
type_of_format to_avif = avif
type_of_format to_webp = webp

-- `parseResult.format ?? contentType`
unfoldable pub output_format : Option OptimizedImageFormat → ImageContentType → ImageContentType
output_format none t = t
output_format (some f) t = type_of_format f

-- What a content type has done with it: GIF is resized, four types are converted, SVG is guarded.
pub data Treatment : Type 0 where
  guarded resized converted passed : Treatment

-- the tests on `contentType`
unfoldable pub treatment : ImageContentType → Treatment
treatment svg = guarded
treatment gif = resized
treatment avif = converted
treatment webp = converted
treatment jpeg = converted
treatment png = converted
treatment _ = passed

abbrev pub upstream_invalid : String
upstream_invalid = "\"url\" parameter is valid but upstream response is invalid"

abbrev pub type_not_allowed : String
type_not_allowed = "\"url\" parameter is valid but image type is not allowed"

module _ (p : Platform) (s : Settings) where
  -- `createImageResponse`
  unfoldable pub create_image_response : Bytes → ImageContentType → Bool → Reply
  create_image_response image content_type immutable = image_reply image (
      ("Vary", "Accept")
      ∷ ("Content-Type", mime content_type)
      ∷ ("Content-Disposition", s.content_disposition)
      ∷ ("Content-Security-Policy", s.content_security_policy)
      ∷ (if immutable then ("Cache-Control", "public, max-age=315360000, immutable") ∷ [] else []))

  -- the branch of a type that `env.IMAGES` works on
  unfoldable pub transform :
      ParsedRequest p s → Bytes → ImageContentType → ImageContentType → Bool → Option Reply
  transform parsed image content_type output immutable = elim p.images [
    | none ↦ some (create_image_response image content_type immutable)
    | some binding ↦ elim (binding image parsed.width parsed.quality output) [
      | none ↦ none
      | some transformed ↦ some (create_image_response transformed output immutable)
    ]
  ]

  -- `handleImageRequest` from the content type on
  unfoldable pub encode : ParsedRequest p s → Bytes → ImageContentType → Bool → Option Reply
  encode parsed image content_type immutable = elim (treatment content_type) [
    | guarded ↦
        if not s.allow_svg
        then new_response 400 type_not_allowed
        else some (create_image_response image content_type immutable)
    | resized ↦ transform parsed image content_type gif immutable
    | converted ↦
        transform parsed image content_type (output_format parsed.format content_type) immutable
    | passed ↦ some (create_image_response image content_type immutable)
  ]

  -- `readImageHeader`: the content type, or the response of the error
  unfoldable pub read_image_header : Bytes → Result (Option ImageContentType)
  read_image_header body = elim (p.read_at_least body) [
    | none ↦ error upstream_invalid
    | some bytes ↦ ok (detect_image_content_type bytes)
  ]

  unfoldable pub is_immutable : Bool → Response → Bool
  is_immutable true r = true
  is_immutable false r = elim r.cache_control [
    | none ↦ false
    | some header ↦ includes header (char_codes "immutable")
  ]

  -- `handleImageRequest` from the upstream response on
  unfoldable pub serve : ParsedRequest p s → Response → Option Reply
  serve parsed response =
      if not (is_ok response)
      then new_response response.status upstream_invalid
      else elim response.body [
        | none ↦ new_response response.status upstream_invalid
        | some body ↦ elim (read_image_header body) [
          | thrown ↦ none
          | error text ↦ new_response 400 text
          | ok none ↦ new_response 400 type_not_allowed
          | ok (some content_type) ↦
              encode parsed body content_type (is_immutable parsed.is_static response)
        ]
      ]

  -- its branch for a relative URL, from `env.ASSETS`
  unfoldable pub serve_asset : ImageRequest → ParsedRequest p s → Option Reply
  serve_asset request parsed = elim p.assets [
    | none ↦ new_response 404 upstream_invalid
    | some fetch_asset ↦ elim (p.resolve parsed.url request.href) [
      | none ↦ none
      | some url ↦ serve parsed (fetch_asset url)
    ]
  ]

  -- its branch for an absolute URL, from the result of the fetch on
  unfoldable pub reply_to_fetch : ParsedRequest p s → FetchResult → Option Reply
  reply_to_fetch parsed fetch_timed_out =
      new_response 504 "\"url\" parameter is valid but upstream response timed out"
  reply_to_fetch parsed too_many_redirects = new_response 508 upstream_invalid
  reply_to_fetch parsed fetch_thrown = none
  reply_to_fetch parsed (fetched response) = serve parsed response

  unfoldable pub serve_remote : ParsedRequest p s → Option Reply
  serve_remote parsed =
      reply_to_fetch parsed ((fetch_with_redirects p s.max_redirects parsed.url).1)

  -- `handleImageRequest`, `none` where it throws
  unfoldable pub handle_image_request : ImageRequest → Option Reply
  handle_image_request request = elim (parse_image_request p s request) [
    | thrown ↦ none
    | error message ↦ new_response 400 message
    | ok parsed ↦
        if starts_with parsed.url (b'/' ∷ [])
        then serve_asset request parsed
        else serve_remote parsed
  ]
