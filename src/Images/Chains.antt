-- ===== src/Images/Chains.antt =====
-- packages/cloudflare/src/cli/templates/images.ts: what counts as a redirect, and where it leads.
use mathlib.Core.Path.{subst}
use adapters_api.Common.{
  ℕ, ◌≡◌, ◌≢◌, ◌⊎◌, inl, inr, refl, ap, ◌∙◌, arith, true, none, some, [], ◌∷◌, ◌==◌, ==_iff,
  Bool-cases, Option-cases,
}
use adapters_api.Common.Text.{Text, starts_with}
use adapters_api.Images.{Platform, Response, Fetched, timed_out, rejected, answered}
use adapters_api.Images.Redirects.{
  fetched, fetch_timed_out, fetch_thrown, is_redirect_status, ends, redirects, hop_of, request,
  redirect_target,
}

-- the statuses of a redirect
abbrev pub IsRedirect : ℕ → Type 0
IsRedirect n = (n ≡ 301) ⊎ (n ≡ 302) ⊎ (n ≡ 303) ⊎ (n ≡ 307) ⊎ (n ≡ 308)

is_redirect_status-IsRedirect : (n : ℕ) → is_redirect_status n ≡ true → IsRedirect n
unfolding is_redirect_status
is_redirect_status-IsRedirect n h = ground arith

IsRedirect-status : (n : ℕ) → IsRedirect n → is_redirect_status n ≡ true
unfolding is_redirect_status
IsRedirect-status n h = ground arith

-- a response that is no redirect: it has another status, or no `Location`
abbrev pub IsLast : Response → Type 0
IsLast r = (IsRedirect r.status → ⊥) ⊎ (r.location ≡ none)

pub hop_of-last : (r : Response) → IsLast r → hop_of r ≡ ends (fetched r)
unfolding hop_of
hop_of-last r (inl other) = elim (Bool-cases (is_redirect_status r.status)) [
  | inl e ↦ absurd (other (is_redirect_status-IsRedirect r.status e))
  | inr e ↦ rw e refl
]
hop_of-last r (inr e) = elim (Bool-cases (is_redirect_status r.status)) [
  | inl f ↦ simp (f, e) refl
  | inr f ↦ rw f refl
]

pub hop_of-redirect :
    (r : Response) (location : Text)
    → IsRedirect r.status
    → r.location ≡ some location
    → hop_of r ≡ redirects location
unfolding hop_of
hop_of-redirect r location h e = rw (IsRedirect-status r.status h, e) refl

-- a response is the last one, or a redirect to its location
pub hop_of-cases :
    (r : Response)
    → (IsLast r × (hop_of r ≡ ends (fetched r)))
      ⊎ ((location : Text) × IsRedirect r.status
          × (r.location ≡ some location)
          × (hop_of r ≡ redirects location))
hop_of-cases r = elim (Bool-cases (is_redirect_status r.status)) [
  | inr e ↦
      let other : IsRedirect r.status → ⊥ = λ h. ground (arith, IsRedirect-status r.status h, e) in
      inl (inl other, hop_of-last r (inl other))
  | inl e ↦ elim (Option-cases r.location) [
    | inl none_there ↦ inl (inr none_there, hop_of-last r (inr none_there))
    | inr (location, there) ↦
        let redirect = is_redirect_status-IsRedirect r.status e in
        inr (location, redirect, there, hop_of-redirect r location redirect there)
  ]
]

module _ (p : Platform) where
  -- Where a `Location` leads from a URL: a relative one is resolved, any other is taken as it is.
  abbrev pub IsTarget : (url location target : Text) → Type 0
  IsTarget url [] target = target ≡ []
  IsTarget url (c ∷ location) target =
      ((c ≡ b'/') × (p.resolve (c ∷ location) url ≡ some target))
      ⊎ ((c ≢ b'/') × (target ≡ c ∷ location))

  pub redirect_target-IsTarget :
      (url location target : Text)
      → redirect_target p url location ≡ some target
      → IsTarget url location target
  unfolding redirect_target starts_with
  redirect_target-IsTarget url [] target h = ground arith
  redirect_target-IsTarget url (c ∷ location) target h = elim (Bool-cases (c == b'/')) [
    | inl e ↦ inl ((==_iff c b'/').0 e, ground (arith, h, e))
    | inr e ↦ inr ((λ f. ground (arith, ==_iff c b'/')), ground (arith, h, e))
  ]

  pub IsTarget-redirect_target :
      (url location target : Text)
      → IsTarget url location target
      → redirect_target p url location ≡ some target
  unfolding redirect_target starts_with
  IsTarget-redirect_target url [] target h = ground arith
  IsTarget-redirect_target url (c ∷ location) target (inl (e, f)) = ground (arith, ==_iff c b'/')
  IsTarget-redirect_target url (c ∷ location) target (inr (e, f)) = ground (arith, ==_iff c b'/')

  Fetched-cases :
      (f : Fetched) → (f ≡ timed_out) ⊎ (f ≡ rejected) ⊎ ((r : Response) × (f ≡ answered r))
  Fetched-cases timed_out = inl refl
  Fetched-cases rejected = inr (inl refl)
  Fetched-cases (answered r) = inr (inr (r, refl))

  pub request-answered :
      (n : ℕ) (url : Text) (r : Response) → p.fetch n url ≡ answered r → request p n url ≡ hop_of r
  unfolding request
  request-answered n url r e = rw (e, request) refl

  pub request-cases :
      (n : ℕ) (url : Text)
      → (request p n url ≡ ends fetch_timed_out)
        ⊎ (request p n url ≡ ends fetch_thrown)
        ⊎ ((r : Response) × (p.fetch n url ≡ answered r))
  unfolding request
  request-cases n url = elim (Fetched-cases (p.fetch n url)) [
    | inl e ↦ inl (rw (e, request) refl)
    | inr (inl e) ↦ inr (inl (rw (e, request) refl))
    | inr (inr (r, e)) ↦ inr (inr (r, e))
  ]

  pub request-IsLast :
      (n : ℕ) (url : Text) (r : Response)
      → request p n url ≡ ends (fetched r)
      → (p.fetch n url ≡ answered r) × IsLast r
  request-IsLast n url r h = elim (request-cases n url) [
    | inl e ↦ ground (arith, e, h)
    | inr (inl e) ↦ ground (arith, e, h)
    | inr (inr (t, e)) ↦ elim (hop_of-cases t) [
      | inl (last, f) ↦
          let same : t ≡ r = ground (arith, request-answered n url t e, f, h) in
          (e ∙ ap answered same, subst IsLast same last)
      | inr (location, redirect, there, f) ↦ ground (arith, request-answered n url t e, f, h)
    ]
  ]

  pub request-redirects :
      (n : ℕ) (url location : Text)
      → request p n url ≡ redirects location
      → (r : Response) × (p.fetch n url ≡ answered r)
        × IsRedirect r.status
        × (r.location ≡ some location)
  request-redirects n url location h = elim (request-cases n url) [
    | inl e ↦ ground (arith, e, h)
    | inr (inl e) ↦ ground (arith, e, h)
    | inr (inr (t, e)) ↦ elim (hop_of-cases t) [
      | inl (last, f) ↦ ground (arith, request-answered n url t e, f, h)
      | inr (found, redirect, there, f) ↦
          let same : found ≡ location = ground (arith, request-answered n url t e, f, h) in
          (t, e, redirect, there ∙ ap some same)
    ]
  ]
