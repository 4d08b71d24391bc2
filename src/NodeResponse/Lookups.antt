-- ===== src/NodeResponse/Lookups.antt =====
-- packages/core/src/http/openNextResponse.ts: what a header holds after a call.
use adapters_api.Common.{
  ◌≡◌, ◌≢◌, refl, sym, ap, ◌∙◌, String, Bool, true, false, not, Option, none, some, List, [], ◌∷◌,
  ◌++◌, str_eq, append_nil, append_assoc, eq_iff, Bool-cases, inl, inr, if◌then◌else◌,
}
use adapters_api.Common.Assoc.{lookup, lookup-insert}
use adapters_api.NodeResponse.{
  Header, many, Env, Response, set_cookie, values_of, is_empty, set_header, remove_header,
  get_header, has_header, joined, append_header,
}

-- `name.toLowerCase()`: lower case stays as it is
pub record IsLowering (lower : String → String) : Type 0 where
  pub twice : (name : String) → lower (lower name) ≡ lower name
  pub set_cookie_lower : lower set_cookie ≡ set_cookie

module _ (env : Env) where
  -- the cookies are the values of the header `set-cookie`
  abbrev pub IsSynced : Response → Type 0
  IsSynced r = joined env (lookup set_cookie r.headers) [] ≡ r.cookies

  unfoldable pub values : String → Response → List String
  values name r = joined env (get_header env name r) []

  lookup-set_header :
      (key name : String) (value : Header) (r : Response)
      → lookup key (set_header env name value r).headers
        ≡ (if str_eq (env.lower name) key then some value else lookup key r.headers)
  unfolding set_header
  lookup-set_header key name value r = elim (Bool-cases (str_eq (env.lower name) set_cookie)) [
    | inl e ↦ simp e (lookup-insert (env.lower name) key value r.headers)
    | inr e ↦ simp e (lookup-insert (env.lower name) key value r.headers)
  ]

  joined-append :
      (o : Option Header) (new : List String) → joined env o new ≡ joined env o [] ++ new
  unfolding joined
  joined-append none new = refl
  joined-append (some v) new = sym (append_assoc (values_of env.number_text v) [] new)

  -- `setHeader` keeps the cookies in step
  pub set_header-IsSynced :
      (name : String) (value : Header) (r : Response)
      → IsSynced r
      → IsSynced (set_header env name value r)
  unfolding set_header joined
  set_header-IsSynced name value r h = elim (Bool-cases (str_eq (env.lower name) set_cookie)) [
    | inl e ↦
        simp (e, lookup-insert (env.lower name) set_cookie value r.headers)
          (append_nil (values_of env.number_text value))
    | inr e ↦ simp (e, lookup-insert (env.lower name) set_cookie value r.headers) h
  ]

  absent_from :
      (b : Bool) (cookies : List String) (o : Option Header)
      → (if b then not (is_empty cookies) else elim o [ none ↦ false | some v ↦ true ]) ≡ false
      → (b ≡ true → joined env o [] ≡ cookies)
      → joined env o [] ≡ []
  unfolding joined
  absent_from true [] o h synced = synced refl
  absent_from true (c ∷ cookies) o h synced = cc
  absent_from false cookies none h synced = refl
  absent_from false cookies (some v) h synced = cc

  absent :
      (name : String) (r : Response)
      → IsSynced r
      → has_header env name r ≡ false
      → values name r ≡ []
  unfolding has_header values get_header
  absent name r synced h =
      absent_from (str_eq (env.lower name) set_cookie) r.cookies (lookup (env.lower name) r.headers)
        h
        (λ e.
          ap (λ k. joined env (lookup k r.headers) []) ((eq_iff (env.lower name) set_cookie).0 e)
          ∙ synced)

  -- what `appendHeader` sets, and where
  appended :
      (name : String) (value : Header) (r : Response)
      → IsLowering env.lower
      → IsSynced r
      → (new : Header) × (append_header env name value r ≡ set_header env (env.lower name) new r)
        × (values_of env.number_text new ≡ values name r ++ values_of env.number_text value)
  unfolding append_header values get_header values_of
  appended name value r low synced =
      let key = env.lower name in
      let more = values_of env.number_text value in
      let at_key : values key r ≡ values name r =
        ap (λ k. joined env (lookup k r.headers) []) (low.twice name) in
      elim (Bool-cases (has_header env key r)) [
        | inl e ↦ (
          many (joined env (get_header env key r) more),
          simp e refl,
          joined-append (get_header env key r) more ∙ ap (λ old. old ++ more) at_key,
        )
        | inr e ↦
            (value, simp e refl, sym (ap (λ old. old ++ more) (sym at_key ∙ absent key r synced e)))
      ]

  values-set_header :
      (key name : String) (value : Header) (r : Response)
      → env.lower name ≡ env.lower key
      → values key (set_header env name value r) ≡ values_of env.number_text value
  unfolding values get_header joined
  values-set_header key name value r e =
      ap (λ o. joined env o []) (lookup-set_header (env.lower key) name value r)
      ∙ rw ((eq_iff (env.lower name) (env.lower key)).1 e)
          (append_nil (values_of env.number_text value))

  other-set_header :
      (key name : String) (value : Header) (r : Response)
      → env.lower key ≢ env.lower name
      → get_header env key (set_header env name value r) ≡ get_header env key r
  unfolding get_header
  other-set_header key name value r ne =
      lookup-set_header (env.lower key) name value r
      ∙ elim (Bool-cases (str_eq (env.lower name) (env.lower key))) [
        | inl e ↦ elim (ne (sym ((eq_iff (env.lower name) (env.lower key)).0 e))) [ ]
        | inr e ↦ rw e refl
      ]

  -- A header that is appended to has its old values, if there are any, and then the new ones; every
  -- other header stays as it is.  The cookies are in step with their header, before and after.
  pub values-append_header :
      (name : String) (value : Header) (r : Response)
      → IsLowering env.lower
      → IsSynced r
      → (values name (append_header env name value r)
          ≡ values name r ++ values_of env.number_text value)
        × ((other : String)
            → env.lower other ≢ env.lower name
            → get_header env other (append_header env name value r) ≡ get_header env other r)
        × IsSynced (append_header env name value r)
  values-append_header name value r low synced =
      let (new, e, v) = appended name value r low synced in
      (
        ap (values name) e ∙ (values-set_header name (env.lower name) new r (low.twice name) ∙ v),
        λ other ne.
            ap (get_header env other) e
            ∙ other-set_header other (env.lower name) new r (λ q. ne (q ∙ low.twice name)),
        rw e (set_header-IsSynced (env.lower name) new r synced),
      )

  -- After `removeHeader` of `set-cookie`, in whatever case, `hasHeader` says that there is none, and
  -- `getHeader` returns what it returned before.
  remove_header_stays :
      (name : String) (r : Response)
      → env.lower name ≡ set_cookie
      → (has_header env name (remove_header env name r) ≡ false)
        × (get_header env name (remove_header env name r) ≡ get_header env name r)
  unfolding remove_header has_header get_header
  remove_header_stays name r e =
      let same = (eq_iff (env.lower name) set_cookie).1 e in (simp same refl, simp same refl)
