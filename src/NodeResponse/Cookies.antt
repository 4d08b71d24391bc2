-- ===== src/NodeResponse/Cookies.antt =====
-- packages/core/src/http/openNextResponse.ts: what `writeHeaders` is given.
use adapters_api.Common.{
  ℕ, ◌≡◌, refl, ap, ◌∙◌, arith, String, true, false, not, ◌&&◌, Option, none, some, List, [], ◌∷◌,
  All, str_eq, eq_iff, Bool-cases, inl, inr,
}
use adapters_api.Common.Assoc.{
  spread, has, lookup, insert, remove, lookup-insert, lookup-remove, All-insert, insert-IsUnique,
  IsUnique,
}
use adapters_api.NodeResponse.{
  Header, one, many, Headers, Env, Response, set_cookie, parsed_value, parse_from, parse_headers,
  convert_header,
}
use adapters_api.NodeResponse.Flush.{
  is_error, or_200, not_cached, merge_headers, merge_cookies, fix_headers, fix_headers_for_error,
  store_cookies, get_fixed_headers, write_headers, flush_headers, write_head,
}
use adapters_api.NodeResponse.Lookups.{IsLowering}

module _ (env : Env) where
  get_fixed_headers-keeps :
      (r : Response)
      → ((get_fixed_headers env r).cookies ≡ r.cookies)
        × ((get_fixed_headers env r).sent ≡ r.sent)
        × ((get_fixed_headers env r).status_code ≡ r.status_code)
  unfolding get_fixed_headers fix_headers fix_headers_for_error store_cookies
  get_fixed_headers-keeps r = elim (Bool-cases r.headers_already_fixed) [
    | inl e ↦ elim (Bool-cases (not env.set_error_headers && is_error r.status_code)) [
      | inl f ↦ simp (e, f) (refl, refl, refl)
      | inr f ↦ simp (e, f) (refl, refl, refl)
    ]
    | inr e ↦ elim (Bool-cases (not env.set_error_headers && is_error r.status_code)) [
      | inl f ↦ simp (e, f) (refl, refl, refl)
      | inr f ↦ simp (e, f) (refl, refl, refl)
    ]
  ]

  -- the headers as they are fixed when they are flushed
  abbrev pub merged : Response → Response
  merged r = record r {
    headers_sent = true;
    headers = merge_headers env env.initial_headers r.headers;
    cookies = merge_cookies env r.cookies;
  }

  abbrev pub sent_headers : Response → List (String × Option String)
  sent_headers r = remove set_cookie (parse_headers env (get_fixed_headers env (merged r)).headers)

  -- what `flushHeaders` sends
  pub flush_headers-sends :
      (r : Response)
      → env.has_stream_creator ≡ true
      → (flush_headers env r).sent
        ≡ record {
          status = or_200 r.status_code;
          cookies = merge_cookies env r.cookies;
          headers = sent_headers r;
        }
          ∷ r.sent
  unfolding flush_headers write_headers
  flush_headers-sends r e =
      let (c, s, k) = get_fixed_headers-keeps (merged r) in simp (e, c, s, k) refl

  -- `writeHead` sends the cookies that `setHeader` has collected and the initial ones, whatever headers it
  -- is given: a `Set-Cookie` among these is in none of what is sent.
  pub write_head_loses :
      (status : ℕ) (given : Headers) (r : Response)
      → env.has_stream_creator ≡ true
      → (headers : List (String × Option String)) × ((write_head env status given r).sent
          ≡ record { status = status; cookies = merge_cookies env r.cookies; headers = headers }
            ∷ r.sent)
        × (lookup set_cookie headers ≡ none)
  unfolding write_head
  write_head_loses status given r e =
      let ready = record r { headers = spread r.headers given; status_code = some status } in
      (
        sent_headers ready,
        flush_headers-sends ready e,
        lookup-remove set_cookie set_cookie
            (parse_headers env (get_fixed_headers env (merged ready)).headers),
      )

  abbrev pub IsLower : String × Header → Type 0
  IsLower e = env.lower e.0 ≡ e.0

  parse_from-absent :
      (key : String) (headers : Headers) (result : List (String × Option String))
      → All IsLower headers
      → has key headers ≡ false
      → lookup key (parse_from env result headers) ≡ lookup key result
  unfolding parse_from has
  parse_from-absent key [] result _ h = refl
  parse_from-absent key ((name, value) ∷ headers) result (low, lows) h =
      let v = parsed_value env (env.lower name) value in
      let later = parse_from-absent key headers (insert (env.lower name) v result) lows in
      let put = lookup-insert (env.lower name) key v result in
      ground (arith, later, low, put, eq_iff name key)

  parse_from-found :
      (key : String) (value : Header) (headers : Headers) (result : List (String × Option String))
      → All IsLower headers
      → IsUnique headers
      → lookup key headers ≡ some value
      → lookup key (parse_from env result headers) ≡ some (parsed_value env key value)
  unfolding parse_from lookup
  parse_from-found key value [] result _ _ e = cc
  parse_from-found key value ((name, other) ∷ headers) result (low, lows) (new, unique) e =
      let v = parsed_value env (env.lower name) other in
      let later =
        parse_from-found key value headers (insert (env.lower name) v result) lows unique in
      let absent = parse_from-absent key headers (insert (env.lower name) v result) lows in
      let put = lookup-insert (env.lower name) key v result in
      elim (Bool-cases (str_eq name key)) [
        | inl same ↦ ground (arith, absent, low, put, eq_iff name key, new, e, same)
        | inr differs ↦ later (ground (arith, e, differs))
      ]

  fixed_for_error :
      (r : Response)
      → env.set_error_headers ≡ false
      → is_error r.status_code ≡ true
      → (get_fixed_headers env r).headers
        ≡ insert set_cookie
            (many r.cookies)
            (insert "cache-control" (one not_cached) (fix_headers env r).headers)
  unfolding get_fixed_headers fix_headers fix_headers_for_error store_cookies
  fixed_for_error r off failed = elim (Bool-cases r.headers_already_fixed) [
    | inl e ↦ simp (e, off, failed) refl
    | inr e ↦ simp (e, off, failed) refl
  ]

  parsed_error :
      (cookies : List String) (headers : Headers)
      → IsLowering env.lower
      → env.lower "cache-control" ≡ "cache-control"
      → All IsLower headers
      → IsUnique headers
      → lookup "cache-control" (
          remove set_cookie (
            parse_headers env
              (insert set_cookie (many cookies) (insert "cache-control" (one not_cached) headers))))
        ≡ some (some not_cached)
  unfolding parse_headers parsed_value convert_header
  parsed_error cookies headers low cc_low lows unique =
      let first = insert "cache-control" (one not_cached) headers in
      let both = insert set_cookie (many cookies) first in
      let kept = All-insert IsLower "cache-control" (one not_cached) headers lows cc_low in
      lookup-remove set_cookie "cache-control" (parse_from env [] both)
      ∙ parse_from-found "cache-control" (one not_cached) both []
          (All-insert IsLower set_cookie (many cookies) first kept low.set_cookie_lower)
          (insert-IsUnique set_cookie (many cookies) first
            (insert-IsUnique "cache-control" (one not_cached) headers unique))
          (lookup-insert set_cookie "cache-control" (many cookies) first
            ∙ lookup-insert "cache-control" "cache-control" (one not_cached) headers)

  -- A response with the status 404 or 500 is sent with a `cache-control` that forbids to store it,
  -- unless the environment wants it otherwise.  The headers, once fixed, have names in lower case, each
  -- of them once.
  pub flush_headers_error :
      (r : Response)
      → IsLowering env.lower
      → env.lower "cache-control" ≡ "cache-control"
      → env.has_stream_creator ≡ true
      → env.set_error_headers ≡ false
      → is_error r.status_code ≡ true
      → All IsLower (fix_headers env (merged r)).headers
      → IsUnique (fix_headers env (merged r)).headers
      → (headers : List (String × Option String)) × ((flush_headers env r).sent
          ≡ record {
            status = or_200 r.status_code;
            cookies = merge_cookies env r.cookies;
            headers = headers;
          }
            ∷ r.sent)
        × (lookup "cache-control" headers ≡ some (some not_cached))
  flush_headers_error r low cc_low creator off failed lows unique = (
    sent_headers r,
    flush_headers-sends r creator,
    ap (λ headers. lookup "cache-control" (remove set_cookie (parse_headers env headers)))
          (fixed_for_error (merged r) off failed)
        ∙ parsed_error _ _ low cc_low lows unique,
  )
