-- ===== src/NodeResponse/Steps.antt =====
-- packages/core/src/http/openNextResponse.ts: the calls that a response gets.
use adapters_api.Common.{
  ℕ, suc, max, ◌≡◌, refl, String, Bool, true, false, ◌&&◌, Option, some, List, [], ◌∷◌, ◌==◌,
  str_eq, ◌∙◌, not, if◌then◌else◌,
}
use adapters_api.NodeResponse.{
  Header, one, set_cookie, has_header, Headers, Env, Response, new_response, set_header,
  remove_header, append_header, redirect,
}
use adapters_api.NodeResponse.Flush.{
  is_error, fix_headers, fix_headers_for_error, store_cookies, get_fixed_headers, flush_headers,
  write_head, transform,
}

-- how often the headers have been sent, after one more call
abbrev pub calls_after : Bool → ℕ → ℕ
calls_after true n = suc n
calls_after false n = n

module _ (env : Env) where
  -- One call of a method, and whether it sends the headers, by hand.
  pub data Step (r : Response) : Bool → Response → Type 0 where
    set : (name : String) (value : Header) → Step r false (set_header env name value r)
    append : (name : String) (value : Header) → Step r false (append_header env name value r)
    delete : (name : String) → Step r false (remove_header env name r)
    go_to : (destination : String) (status : ℕ) → Step r false (redirect env destination status r)
    fix : Step r false (get_fixed_headers env r)
    flush : Step r true (flush_headers env r)
    head : (status : ℕ) (given : Headers) → Step r true (write_head env status given r)

  -- What a response reaches, with the chunks that have been written to it, the latest first, and how often
  -- its headers have been sent: at each flush by hand, and for a chunk if they have not been.
  pub data Reachable : List (List ℕ) → ℕ → Response → Type 0 where
    created : (status : Option ℕ) → Reachable [] 0 (new_response status)
    called :
        {chunks : List (List ℕ)} {n : ℕ} {by_hand : Bool} {r t : Response}
        → Reachable chunks n r
        → Step r by_hand t
        → Reachable chunks (calls_after by_hand n) t
    written :
        (chunk : List ℕ) {chunks : List (List ℕ)} {n : ℕ} {r : Response}
        → Reachable chunks n r
        → Reachable (chunk ∷ chunks) (max n 1) (transform env chunk r)

  -- what a change of the headers leaves
  pub record IsSame (r t : Response) : Type 0 where
    pub headers_sent : t.headers_sent ≡ r.headers_sent
    pub sent : t.sent ≡ r.sent
    pub pushed : t.pushed ≡ r.pushed
    pub body_length : t.body_length ≡ r.body_length

  pub IsSame-trans : {r s t : Response} → IsSame r s → IsSame s t → IsSame r t
  IsSame-trans p q = record {
    headers_sent = q.headers_sent ∙ p.headers_sent;
    sent = q.sent ∙ p.sent;
    pushed = q.pushed ∙ p.pushed;
    body_length = q.body_length ∙ p.body_length;
  }

  abbrev unchanged : {r : Response} → IsSame r r
  unchanged = record { headers_sent = refl; sent = refl; pushed = refl; body_length = refl }

  if-IsSame :
      (b : Bool) {r s t : Response} → IsSame r s → IsSame r t → IsSame r (if b then s else t)
  if-IsSame true p q = p
  if-IsSame false p q = q

  pub set_header-IsSame :
      (name : String) (value : Header) (r : Response) → IsSame r (set_header env name value r)
  unfolding set_header
  set_header-IsSame name value r =
      if-IsSame (str_eq (env.lower name) set_cookie)
        (record { headers_sent = refl; sent = refl; pushed = refl; body_length = refl })
        (record { headers_sent = refl; sent = refl; pushed = refl; body_length = refl })

  pub remove_header-IsSame : (name : String) (r : Response) → IsSame r (remove_header env name r)
  unfolding remove_header
  remove_header-IsSame name r =
      if-IsSame (str_eq (env.lower name) set_cookie)
        (record { headers_sent = refl; sent = refl; pushed = refl; body_length = refl })
        (record { headers_sent = refl; sent = refl; pushed = refl; body_length = refl })

  pub append_header-IsSame :
      (name : String) (value : Header) (r : Response) → IsSame r (append_header env name value r)
  unfolding append_header
  append_header-IsSame name value r =
      if-IsSame (has_header env (env.lower name) r) (set_header-IsSame (env.lower name) _ r)
        (set_header-IsSame (env.lower name) _ r)

  pub redirect-IsSame :
      (destination : String) (status : ℕ) (r : Response)
      → IsSame r (redirect env destination status r)
  unfolding redirect
  redirect-IsSame destination status r =
      let there : IsSame r
          (record (set_header env "Location" (one destination) r) { status_code = some status }) =
        IsSame-trans (set_header-IsSame "Location" (one destination) r)
          (record { headers_sent = refl; sent = refl; pushed = refl; body_length = refl }) in
      if-IsSame (status == 308) (IsSame-trans there (set_header-IsSame "Refresh" _ _)) there

  pub get_fixed_headers-IsSame : (r : Response) → IsSame r (get_fixed_headers env r)
  unfolding get_fixed_headers fix_headers fix_headers_for_error store_cookies
  get_fixed_headers-IsSame r =
      let fixed = fix_headers env r in
      let same : IsSame r fixed =
        if-IsSame r.headers_already_fixed unchanged
          (record { headers_sent = refl; sent = refl; pushed = refl; body_length = refl }) in
      let for_error : IsSame fixed (fix_headers_for_error env fixed) =
        if-IsSame (not env.set_error_headers && is_error fixed.status_code)
          (record { headers_sent = refl; sent = refl; pushed = refl; body_length = refl })
          unchanged in
      IsSame-trans (IsSame-trans same for_error)
        (record { headers_sent = refl; sent = refl; pushed = refl; body_length = refl })
