-- ===== src/Images/Served.antt =====
-- packages/cloudflare/src/cli/templates/images.ts: which images the two handlers reply with.
use adapters_api.Common.{
  ℕ, ◌≡◌, ◌≢◌, ap, arith, true, List, inl, inr, refl, String, Bool, false, ◌||◌, Option, none, some,
  [], ◌∷◌, ltb, ◌==◌, Bool-cases, Option-cases,
}
use adapters_api.Common.Text.{starts_with}
use adapters_api.Images.{
  Bytes, Settings, Platform, Response, ImageRequest, ImageContentType, Result-cases,
  OptimizedImageFormat, to_avif, to_webp, avif, webp, png, jpeg, jxl, jp2, heic, gif, svg, ico,
  icns, tiff, bmp,
}
use adapters_api.Images.Params.{ParsedRequest, parse_image_request}
use adapters_api.Images.ContentType.{detect_image_content_type, mime}
use adapters_api.Common.Assoc.{lookup}
use adapters_api.Images.Redirects.{
  FetchResult, fetched, fetch_timed_out, too_many_redirects, fetch_thrown, fetch_with_redirects,
}
use adapters_api.Images.Handler.{
  Reply, text_reply, image_reply, new_response, is_ok, type_of_format, output_format, treatment,
  create_image_response, transform, encode, read_image_header, is_immutable, serve, serve_asset,
  reply_to_fetch, serve_remote, handle_image_request, upstream_invalid, type_not_allowed,
}
use adapters_api.Images.CdnCgi.{is_svg}

is_not_svg : (t : ImageContentType) → is_svg t ≡ false → t ≢ svg
unfolding is_svg
is_not_svg t h e = ground (arith, h, ap is_svg e)

module _ (p : Platform) (s : Settings) where
  -- the type that is detected in the first bytes of a body
  abbrev pub IsDetected : Bytes → ImageContentType → Type 0
  IsDetected body t =
      (bytes : Bytes) × (p.read_at_least body ≡ some bytes)
      × (detect_image_content_type bytes ≡ some t)

  -- An image of a type: one in which that type is detected, which is SVG only if SVG is allowed, or what
  -- `env.IMAGES` has made of one in which another type than SVG is detected.
  pub data IsOrigin (body : Bytes) (t : ImageContentType) : Type 0 where
    as_detected : IsDetected body t → (t ≡ svg → s.allow_svg ≡ true) → IsOrigin body t
    transformed :
        (image : Bytes) (from : ImageContentType) (width quality : ℕ)
        (binding : Bytes → ℕ → ℕ → ImageContentType → Option Bytes)
        → IsDetected image from
        → from ≢ svg
        → t ≢ svg
        → p.images ≡ some binding
        → binding image width quality t ≡ some body
        → IsOrigin body t

  -- the headers that guard an image, with the policy of the settings
  pub record HasPolicy (headers : List (String × String)) (t : ImageContentType) : Type 0 where
    pub content_type : lookup "Content-Type" headers ≡ some (mime t)
    pub disposition : lookup "Content-Disposition" headers ≡ some s.content_disposition
    pub policy : lookup "Content-Security-Policy" headers ≡ some s.content_security_policy

  -- A reply of the image handler: an image comes from where it may, with the headers that guard it.
  pub data IsGuarded : Option Reply → Type 0 where
    throws : IsGuarded none
    text : {status : ℕ} {message : String} → IsGuarded (some (text_reply status message))
    image :
        (body : Bytes) (content_type : ImageContentType) (headers : List (String × String))
        → IsOrigin body content_type
        → HasPolicy headers content_type
        → IsGuarded (some (image_reply body headers))

  response-IsGuarded :
      (body : Bytes) (t : ImageContentType) (immutable : Bool)
      → IsOrigin body t
      → IsGuarded (some (create_image_response p s body t immutable))
  unfolding create_image_response lookup
  response-IsGuarded body t immutable o =
      image body t _ o (record { content_type = refl; disposition = refl; policy = refl })

  new_response-IsGuarded : (status : ℕ) (message : String) → IsGuarded (new_response status message)
  unfolding new_response
  new_response-IsGuarded status message =
      elim (Bool-cases
        (ltb status 200 || ltb 599 status || status == 204 || status == 205 || status == 304)) [
          | inl e ↦ rw e throws
          | inr e ↦ rw e text
        ]

  transform-IsGuarded :
      (parsed : ParsedRequest p s) (body : Bytes) (t u : ImageContentType) (m : Bool)
      → IsDetected body t
      → is_svg t ≡ false
      → is_svg u ≡ false
      → IsGuarded (transform p s parsed body t u m)
  unfolding transform
  transform-IsGuarded parsed body t u m d h k =
      let raster = is_not_svg t h in
      elim (Option-cases p.images) [
        | inl e ↦
            simp (e, transform)
              (response-IsGuarded body t m (as_detected d (λ same. absurd (raster same))))
        | inr (binding, e) ↦ elim (Option-cases (binding body parsed.width parsed.quality u)) [
          | inl f ↦ simp (e, f, transform) throws
          | inr (o, f) ↦
              simp (e, f, transform)
                (response-IsGuarded o u m (
                  transformed body t parsed.width parsed.quality binding d raster (is_not_svg u k) e
                    f))
        ]
      ]

  output_format-svg :
      (f : Option OptimizedImageFormat) (t : ImageContentType)
      → is_svg t ≡ false
      → is_svg (output_format f t) ≡ false
  unfolding output_format type_of_format is_svg
  output_format-svg none t h = h
  output_format-svg (some to_avif) t h = refl
  output_format-svg (some to_webp) t h = refl

  module _ (parsed : ParsedRequest p s) (body : Bytes) (m : Bool) where
    converted-IsGuarded :
        (t : ImageContentType)
        → IsDetected body t
        → is_svg t ≡ false
        → IsGuarded (transform p s parsed body t (output_format parsed.format t) m)
    converted-IsGuarded t d h =
        transform-IsGuarded parsed body t (output_format parsed.format t) m d h
          (output_format-svg parsed.format t h)

    passed-IsGuarded :
        (t : ImageContentType)
        → IsDetected body t
        → is_svg t ≡ false
        → IsGuarded (some (create_image_response p s body t m))
    passed-IsGuarded t d h =
        response-IsGuarded body t m (as_detected d (λ same. absurd (is_not_svg t h same)))

    encode-IsGuarded :
        (t : ImageContentType) → IsDetected body t → IsGuarded (encode p s parsed body t m)
    unfolding encode treatment is_svg
    encode-IsGuarded svg d = elim (Bool-cases s.allow_svg) [
      | inl e ↦ simp e (response-IsGuarded body svg m (as_detected d (λ _. e)))
      | inr e ↦ simp e (new_response-IsGuarded 400 type_not_allowed)
    ]
    encode-IsGuarded gif d = transform-IsGuarded parsed body gif gif m d refl refl
    encode-IsGuarded avif d = converted-IsGuarded avif d refl
    encode-IsGuarded webp d = converted-IsGuarded webp d refl
    encode-IsGuarded jpeg d = converted-IsGuarded jpeg d refl
    encode-IsGuarded png d = converted-IsGuarded png d refl
    encode-IsGuarded jxl d = passed-IsGuarded jxl d refl
    encode-IsGuarded jp2 d = passed-IsGuarded jp2 d refl
    encode-IsGuarded heic d = passed-IsGuarded heic d refl
    encode-IsGuarded ico d = passed-IsGuarded ico d refl
    encode-IsGuarded icns d = passed-IsGuarded icns d refl
    encode-IsGuarded tiff d = passed-IsGuarded tiff d refl
    encode-IsGuarded bmp d = passed-IsGuarded bmp d refl

  serve-IsGuarded : (parsed : ParsedRequest p s) (r : Response) → IsGuarded (serve p s parsed r)
  unfolding serve read_image_header
  serve-IsGuarded parsed r = elim (Bool-cases (is_ok r)) [
    | inr e ↦ rw (e, serve) (new_response-IsGuarded r.status upstream_invalid)
    | inl e ↦ elim (Option-cases r.body) [
      | inl b ↦ rw (e, b, serve) (new_response-IsGuarded r.status upstream_invalid)
      | inr (body, b) ↦ elim (Option-cases (p.read_at_least body)) [
        | inl h ↦ rw (e, b, h, serve) (new_response-IsGuarded 400 upstream_invalid)
        | inr (bytes, h) ↦ elim (Option-cases (detect_image_content_type bytes)) [
          | inl d ↦ rw (e, b, h, d, serve) (new_response-IsGuarded 400 type_not_allowed)
          | inr (t, d) ↦
              rw (e, b, h, d, serve)
                (encode-IsGuarded parsed body (is_immutable p s parsed.is_static r) t (bytes, h, d))
        ]
      ]
    ]
  ]

  serve_asset-IsGuarded :
      (request : ImageRequest) (parsed : ParsedRequest p s)
      → IsGuarded (serve_asset p s request parsed)
  unfolding serve_asset
  serve_asset-IsGuarded request parsed = elim (Option-cases p.assets) [
    | inl e ↦ simp (e, serve_asset) (new_response-IsGuarded 404 upstream_invalid)
    | inr (fetch_asset, e) ↦ elim (Option-cases (p.resolve parsed.url request.href)) [
      | inl u ↦ simp (e, u, serve_asset) throws
      | inr (url, u) ↦ simp (e, u, serve_asset) (serve-IsGuarded parsed (fetch_asset url))
    ]
  ]

  reply_to_fetch-IsGuarded :
      (parsed : ParsedRequest p s) (r : FetchResult) → IsGuarded (reply_to_fetch p s parsed r)
  unfolding reply_to_fetch
  reply_to_fetch-IsGuarded parsed (fetched response) = serve-IsGuarded parsed response
  reply_to_fetch-IsGuarded parsed fetch_timed_out =
      new_response-IsGuarded 504 "\"url\" parameter is valid but upstream response timed out"
  reply_to_fetch-IsGuarded parsed too_many_redirects = new_response-IsGuarded 508 upstream_invalid
  reply_to_fetch-IsGuarded parsed fetch_thrown = throws

  -- Whatever is asked for and whatever comes back from upstream: an image that the handler replies with
  -- has the content disposition and the content security policy of the settings, and the content type of
  -- the image. Either its first bytes have that type, which is SVG only if the settings allow it; or it is
  -- what `env.IMAGES` made, of a type other than SVG, of an image whose first bytes have a type other than
  -- SVG.
  pub handle_image_request-IsGuarded :
      (request : ImageRequest) → IsGuarded (handle_image_request p s request)
  unfolding handle_image_request serve_remote
  handle_image_request-IsGuarded request = elim (Result-cases (parse_image_request p s request)) [
    | inr (inr e) ↦ rw (e, handle_image_request) throws
    | inr (inl (m, e)) ↦ rw (e, handle_image_request) (new_response-IsGuarded 400 m)
    | inl (parsed, e) ↦ elim (Bool-cases (starts_with parsed.url (b'/' ∷ []))) [
      | inl h ↦ rw (e, h, handle_image_request) (serve_asset-IsGuarded request parsed)
      | inr h ↦
          rw (e, h, handle_image_request)
            (reply_to_fetch-IsGuarded parsed
              ((fetch_with_redirects p s.max_redirects parsed.url).1))
    ]
  ]
