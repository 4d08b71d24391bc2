-- ===== src/Images/Inputs.antt =====
-- packages/cloudflare/src/cli/templates/images.ts: what the handler of `/cdn-cgi/image/` replies with,
-- and where the handlers throw.
use adapters_api.Common.{
  ℕ, ◌≡◌, ◌⊎◌, inl, inr, refl, ap, arith, Bool, true, false, not, ◌&&◌, ◌||◌, Option, none, some,
  [], ◌∷◌, ltb, ◌==◌, Bool-cases, Option-cases, String,
}
use adapters_api.Common.Text.{starts_with}
use adapters_api.Images.{
  Bytes, Settings, Platform, Response, ImageRequest, ImageContentType, jpeg, png, gif, webp, svg,
  heic, avif, jxl, jp2, ico, icns, tiff, bmp, ok, Result-cases,
}
use adapters_api.Images.Params.{ParsedRequest, parse_image_request}
use adapters_api.Images.ContentType.{detect_image_content_type, mime}
use adapters_api.Images.Redirects.{fetched, fetch_with_redirects}
use adapters_api.Images.Handler.{
  Reply, text_reply, image_reply, new_response, is_ok, read_image_header, serve, reply_to_fetch,
  serve_remote, handle_image_request, upstream_invalid, type_not_allowed,
}
use adapters_api.Images.CdnCgi.{
  is_supported_input, is_svg, parse_cdn_cgi_image_request, serve_input,
  handle_cdn_cgi_image_request,
}

-- the types that the handler passes on
abbrev pub IsSupported : ImageContentType → Type 0
IsSupported t = (t ≡ jpeg) ⊎ (t ≡ png) ⊎ (t ≡ gif) ⊎ (t ≡ webp) ⊎ (t ≡ svg) ⊎ (t ≡ heic)

supported : (t : ImageContentType) → is_supported_input t ≡ true → IsSupported t
unfolding is_supported_input
supported jpeg h = inl refl
supported png h = inr (inl refl)
supported gif h = inr (inr (inl refl))
supported webp h = inr (inr (inr (inl refl)))
supported svg h = inr (inr (inr (inr (inl refl))))
supported heic h = inr (inr (inr (inr (inr refl))))
supported avif h = ground arith
supported jxl h = ground arith
supported jp2 h = ground arith
supported ico h = ground arith
supported icns h = ground arith
supported tiff h = ground arith
supported bmp h = ground arith

svg_allowed :
    (t : ImageContentType) (allow : Bool) → (is_svg t && not allow) ≡ false → t ≡ svg → allow ≡ true
unfolding is_svg
svg_allowed t true h e = refl
svg_allowed t false h e = ground (arith, h, ap (λ u. is_svg u && not false) e)

module _ (p : Platform) (s : Settings) where
  -- A reply of the handler: the type that is detected in an image is supported, is not SVG unless SVG is
  -- allowed, and is in its header.
  pub data IsInput : Option Reply → Type 0 where
    throws : IsInput none
    text : {status : ℕ} {message : String} → IsInput (some (text_reply status message))
    image :
        (body bytes : Bytes) (content_type : ImageContentType)
        → p.read_at_least body ≡ some bytes
        → detect_image_content_type bytes ≡ some content_type
        → IsSupported content_type
        → (content_type ≡ svg → s.allow_svg ≡ true)
        → IsInput (some (image_reply body (("Content-Type", mime content_type) ∷ [])))

  new_response-IsInput : (status : ℕ) (message : String) → IsInput (new_response status message)
  unfolding new_response
  new_response-IsInput status message =
      elim (Bool-cases
        (ltb status 200 || ltb 599 status || status == 204 || status == 205 || status == 304)) [
          | inl e ↦ rw e throws
          | inr e ↦ rw e text
        ]

  serve_input-IsInput : (r : Response) → IsInput (serve_input p s r)
  unfolding serve_input read_image_header
  serve_input-IsInput r = elim (Bool-cases (is_ok r)) [
    | inr e ↦ rw (e, serve_input) (new_response-IsInput r.status upstream_invalid)
    | inl e ↦ elim (Option-cases r.body) [
      | inl b ↦ rw (e, b, serve_input) (new_response-IsInput r.status upstream_invalid)
      | inr (body, b) ↦ elim (Option-cases (p.read_at_least body)) [
        | inl h ↦ rw (e, b, h, serve_input) (new_response-IsInput 400 upstream_invalid)
        | inr (bytes, h) ↦ elim (Option-cases (detect_image_content_type bytes)) [
          | inl d ↦ rw (e, b, h, d, serve_input) (new_response-IsInput 400 type_not_allowed)
          | inr (t, d) ↦ elim (Bool-cases (is_supported_input t)) [
            | inr u ↦ rw (e, b, h, d, u, serve_input) (new_response-IsInput 400 type_not_allowed)
            | inl u ↦ elim (Bool-cases (is_svg t && not s.allow_svg)) [
              | inl v ↦
                  rw (e, b, h, d, u, v, serve_input) (new_response-IsInput 400 type_not_allowed)
              | inr v ↦
                  rw (e, b, h, d, u, v, serve_input)
                    (image body bytes t h d (supported t u) (svg_allowed t s.allow_svg v))
            ]
          ]
        ]
      ]
    ]
  ]

  -- Whatever is asked for and whatever comes back from upstream: an image that the handler of
  -- `/cdn-cgi/image/` replies with has in its first bytes one of the supported types, which is not SVG
  -- unless the settings allow it, and it is sent with that type.
  pub handle_cdn_cgi_image_request-IsInput :
      (request : ImageRequest) → IsInput (handle_cdn_cgi_image_request p s request)
  unfolding handle_cdn_cgi_image_request
  handle_cdn_cgi_image_request-IsInput request =
      elim (Result-cases (parse_cdn_cgi_image_request request.pathname)) [
        | inr (inr e) ↦ simp (e, handle_cdn_cgi_image_request) throws
        | inr (inl (m, e)) ↦ simp (e, handle_cdn_cgi_image_request) (new_response-IsInput 400 m)
        | inl (url, e) ↦ elim (Bool-cases (starts_with url (b'/' ∷ []))) [
          | inl h ↦ elim (Option-cases p.assets) [
            | inl a ↦
                simp (e, h, a, handle_cdn_cgi_image_request)
                  (new_response-IsInput 404 "env.ASSETS binding is not defined")
            | inr (fetch_asset, a) ↦ elim (Option-cases (p.resolve url request.href)) [
              | inl u ↦ simp (e, h, a, u, handle_cdn_cgi_image_request) throws
              | inr (target, u) ↦
                  simp (e, h, a, u, handle_cdn_cgi_image_request)
                    (serve_input-IsInput (fetch_asset target))
            ]
          ]
          | inr h ↦ elim (Option-cases (p.fetch_following url)) [
            | inl u ↦ simp (e, h, u, handle_cdn_cgi_image_request) throws
            | inr (r, u) ↦ simp (e, h, u, handle_cdn_cgi_image_request) (serve_input-IsInput r)
          ]
        ]
      ]

  -- When the upstream of an accepted remote image answers with 204 and no body, or with 304, the image
  -- handler throws in place of a reply: it builds a response with a text and that status.
  pub handle_image_request-no_content :
      (request : ImageRequest) (parsed : ParsedRequest p s) (r : Response)
      → parse_image_request p s request ≡ ok parsed
      → starts_with parsed.url (b'/' ∷ []) ≡ false
      → (fetch_with_redirects p s.max_redirects parsed.url).1 ≡ fetched r
      → ((r.status ≡ 204) × (r.body ≡ none)) ⊎ (r.status ≡ 304)
      → handle_image_request p s request ≡ none
  unfolding handle_image_request serve_remote reply_to_fetch serve new_response is_ok
  handle_image_request-no_content request parsed r e h f (inl (status, b)) =
      simp (e, h, f, status, b, handle_image_request, serve_remote, reply_to_fetch, serve) refl
  handle_image_request-no_content request parsed r e h f (inr status) =
      simp (e, h, f, status, handle_image_request, serve_remote, reply_to_fetch, serve) refl
