-- ===== src/NodeResponse/Flush.antt =====
-- packages/core/src/http/openNextResponse.ts: the headers are sent, and the body after them.
use adapters_api.Common.{
  ℕ, ◌+◌, String, Bool, true, false, not, ◌&&◌, ◌||◌, Option, none, some, List, [], ◌∷◌, ◌++◌,
  length, ◌==◌, if◌then◌else◌,
}
use adapters_api.Common.Assoc.{spread, lookup, insert, remove}
use adapters_api.NodeResponse.{
  one, many, Headers, Env, Response, set_cookie, parse_headers, parse_set_cookie_header,
}

-- the `cache-control` of an error
abbrev pub not_cached : String
not_cached = "private, no-cache, no-store, max-age=0, must-revalidate"

abbrev pub or_200 : Option ℕ → ℕ
or_200 none = 200
or_200 (some status) = status

-- `this.statusCode === 404 || this.statusCode === 500`
unfoldable pub is_error : Option ℕ → Bool
is_error none = false
is_error (some status) = status == 404 || status == 500

abbrev pub push : List ℕ → Response → Response
push chunk r = record r { pushed = chunk ∷ r.pushed }

-- the bytes of `SOMETHING`
abbrev pub something : List ℕ
something = 83 ∷ 79 ∷ 77 ∷ 69 ∷ 84 ∷ 72 ∷ 73 ∷ 78 ∷ 71 ∷ []

module _ (env : Env) where
  -- the merge of the initial headers in `flushHeaders`
  unfoldable pub merge_headers : Option Headers → Headers → Headers
  merge_headers none headers = headers
  merge_headers (some initial) headers =
      if env.middleware_first then spread headers initial else spread initial headers

  -- the cookies of the initial headers
  unfoldable pub initial_cookies : Option Headers → List String
  initial_cookies none = []
  initial_cookies (some initial) = parse_set_cookie_header env (lookup set_cookie initial)

  unfoldable pub merge_cookies : List String → List String
  merge_cookies cookies =
      let initial = initial_cookies env.initial_headers in
      if env.middleware_first then cookies ++ initial else initial ++ cookies

  -- `fixHeaders` of `this.headers`
  unfoldable pub fix_headers : Response → Response
  fix_headers r =
      if r.headers_already_fixed
      then r
      else record r { headers = env.fix_headers_fn r.headers; headers_already_fixed = true }

  -- `fixHeadersForError`
  unfoldable pub fix_headers_for_error : Response → Response
  fix_headers_for_error r =
      if not env.set_error_headers && is_error r.status_code
      then record r { headers = insert "cache-control" (one not_cached) r.headers }
      else r

  -- `this.headers[SET_COOKIE_HEADER] = this._cookies`
  unfoldable pub store_cookies : Response → Response
  store_cookies r = record r { headers = insert set_cookie (many r.cookies) r.headers }

  -- `getFixedHeaders`, which returns the headers of this state
  unfoldable pub get_fixed_headers : Response → Response
  get_fixed_headers r = store_cookies (fix_headers_for_error (fix_headers r))

  -- the call of `writeHeaders`
  unfoldable pub write_headers : Response → Response
  write_headers r =
      if env.has_stream_creator
      then record r {
        sent =
            record {
              status = or_200 r.status_code;
              cookies = r.cookies;
              headers = remove set_cookie (parse_headers env r.headers);
            }
            ∷ r.sent;
      }
      else r

  -- `flushHeaders`
  unfoldable pub flush_headers : Response → Response
  flush_headers r = write_headers (
      get_fixed_headers (record r {
        headers_sent = true;
        headers = merge_headers env.initial_headers r.headers;
        cookies = merge_cookies r.cookies;
      }))

  -- `writeHead`: the given headers, as pairs, go into `this.headers`
  unfoldable pub write_head : ℕ → Headers → Response → Response
  write_head status given r =
      flush_headers (record r { headers = spread r.headers given; status_code = some status })

  unfoldable pub ensure_headers : Response → Response
  ensure_headers r = if r.headers_sent then r else flush_headers r

  -- `_transform` of the bytes of a chunk, with `_internalWrite`
  unfoldable pub transform : List ℕ → Response → Response
  transform chunk r =
      let ready = ensure_headers r in
      push chunk (record ready { body_length = ready.body_length + length chunk })

  -- `_flush`
  unfoldable pub finish : Response → Response
  finish r =
      let ready = ensure_headers r in
      if ready.body_length == 0 && env.force_non_empty then push something ready else ready
