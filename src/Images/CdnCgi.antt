-- ===== src/Images/CdnCgi.antt =====
-- packages/cloudflare/src/cli/templates/images.ts: the handler of `/cdn-cgi/image/`.
use adapters_api.Common.{
  ℕ, Bool, true, false, not, ◌&&◌, ◌||◌, Option, none, some, [], ◌∷◌, drop, length, ltb, ◌==◌,
  if◌then◌else◌,
}
use adapters_api.Common.Text.{Text, starts_with}
use adapters_api.ShardId.{char_codes}
use adapters_api.Images.{
  Settings, Platform, Response, ImageRequest, ImageContentType, svg, webp, jpeg, png, gif, heic,
  Result, ok, error, thrown,
}
use adapters_api.Images.ContentType.{mime}
use adapters_api.Images.Handler.{
  Reply, image_reply, new_response, is_ok, upstream_invalid, type_not_allowed, read_image_header,
}

-- `SUPPORTED_CDN_CGI_INPUT_TYPES.has(contentType)`
unfoldable pub is_supported_input : ImageContentType → Bool
is_supported_input jpeg = true
is_supported_input png = true
is_supported_input gif = true
is_supported_input webp = true
is_supported_input svg = true
is_supported_input heic = true
is_supported_input _ = false

-- the result of `match` with `/^\/cdn-cgi\/image\/(?<options>[^/]+)\/(?<url>.+)$/`: the group `url`
unfoldable pub is_line_terminator : ℕ → Bool
is_line_terminator c = c == 10 || c == 13 || c == 0x2028 || c == 0x2029

unfoldable pub no_line_terminator : Text → Bool
no_line_terminator [] = true
no_line_terminator (c ∷ text) = not (is_line_terminator c) && no_line_terminator text

-- the text behind the first slash
unfoldable pub after_slash : Text → Option Text
after_slash [] = none
after_slash (c ∷ text) = if c == b'/' then some text else after_slash text

unfoldable pub url_group : Text → Option Text
url_group [] = none
url_group (c ∷ text) = if c == b'/' then none else elim (after_slash text) [
  | none ↦ none
  | some url ↦ if ltb 0 (length url) && no_line_terminator url then some url else none
]

abbrev pub cdn_cgi_prefix : Text
cdn_cgi_prefix = char_codes "/cdn-cgi/image/"

-- `parseCdnCgiImageRequest`: the URL; its flag `static` is always false
unfoldable pub parse_cdn_cgi_image_request : Text → Result Text
parse_cdn_cgi_image_request pathname =
    elim (if starts_with pathname cdn_cgi_prefix then url_group (drop 15 pathname) else none) [
      | none ↦ error "Invalid /cdn-cgi/image/ URL format"
      | some url ↦
          if starts_with url (b'/' ∷ [])
          then error "\"url\" parameter cannot be a protocol-relative URL (//)"
          else if starts_with url (char_codes "http://") || starts_with url (char_codes "https://")
          then ok url
          else ok (b'/' ∷ url)
    ]

unfoldable pub is_svg : ImageContentType → Bool
is_svg svg = true
is_svg _ = false

module _ (p : Platform) (s : Settings) where
  -- `handleCdnCgiImageRequest` from the upstream response on
  unfoldable pub serve_input : Response → Option Reply
  serve_input response =
      if not (is_ok response)
      then new_response response.status upstream_invalid
      else elim response.body [
        | none ↦ new_response response.status upstream_invalid
        | some body ↦ elim (read_image_header p s body) [
          | thrown ↦ none
          | error text ↦ new_response 400 text
          | ok none ↦ new_response 400 type_not_allowed
          | ok (some content_type) ↦
              if not (is_supported_input content_type)
              then new_response 400 type_not_allowed
              else if is_svg content_type && not s.allow_svg
              then new_response 400 type_not_allowed
              else some (image_reply body (("Content-Type", mime content_type) ∷ []))
        ]
      ]

  -- `handleCdnCgiImageRequest`
  unfoldable pub handle_cdn_cgi_image_request : ImageRequest → Option Reply
  handle_cdn_cgi_image_request request = elim (parse_cdn_cgi_image_request request.pathname) [
    | thrown ↦ none
    | error message ↦ new_response 400 message
    | ok url ↦
        if starts_with url (b'/' ∷ [])
        then elim p.assets [
          | none ↦ new_response 404 "env.ASSETS binding is not defined"
          | some fetch_asset ↦ elim (p.resolve url request.href) [
            | none ↦ none
            | some target ↦ serve_input (fetch_asset target)
          ]
        ]
        else elim (p.fetch_following url) [ none ↦ none | some response ↦ serve_input response ]
  ]
