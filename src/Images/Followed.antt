-- ===== src/Images/Followed.antt =====
-- packages/cloudflare/src/cli/templates/images.ts: what `fetchWithRedirects` requests and returns.
use adapters_api.Common.{
  ℕ, zero, suc, ◌≤◌, ◌≡◌, ◌↔◌, ◌⊎◌, refl, ap, ◌∙◌, arith, none, some, [], ◌∷◌, length, Option-cases,
  inl, inr,
}
use adapters_api.Common.Text.{Text}
use adapters_api.Images.{Platform, Response, answered}
use adapters_api.Images.Chains.{
  IsRedirect, IsLast, IsTarget, hop_of-last, hop_of-redirect, redirect_target-IsTarget,
  IsTarget-redirect_target, request-answered, request-IsLast, request-redirects,
}
use adapters_api.Images.Redirects.{
  FetchResult, fetched, too_many_redirects, fetch_thrown, ends, redirects, Hop, request,
  redirect_target, fetch_with_redirects,
}

hop-cases : (h : Hop) → ((r : FetchResult) × (h ≡ ends r)) ⊎ ((l : Text) × (h ≡ redirects l))
hop-cases (ends r) = inl (r, refl)
hop-cases (redirects l) = inr (l, refl)

module _ (p : Platform) where
  -- A chain of at most `n` redirects leads from the URL to the response: each URL but the last is answered
  -- with the status and the `Location` of a redirect, and leads to the next; the last one is not.
  pub data Leads : ℕ → Text → Response → Type 0 where
    arrives :
        {n : ℕ} {url : Text} {r : Response} → p.fetch n url ≡ answered r → IsLast r → Leads n url r
    follows :
        {n : ℕ} {url location target : Text} {r : Response} (hop : Response)
        → p.fetch (suc n) url ≡ answered hop
        → IsRedirect hop.status
        → hop.location ≡ some location
        → IsTarget p url location target
        → Leads n target r
        → Leads (suc n) url r

  -- the same, of any result, as the code tells the redirects
  data Runs : ℕ → Text → FetchResult → Type 0 where
    stops : {n : ℕ} {url : Text} {r : FetchResult} → request p n url ≡ ends r → Runs n url r
    goes_on :
        {n : ℕ} {url location target : Text} {r : FetchResult}
        → request p (suc n) url ≡ redirects location
        → redirect_target p url location ≡ some target
        → Runs n target r
        → Runs (suc n) url r

  fetch-ends :
      (n : ℕ) (url : Text) (r : FetchResult)
      → request p n url ≡ ends r
      → fetch_with_redirects p n url ≡ (url ∷ [], r)
  unfolding fetch_with_redirects
  fetch-ends zero url r e = rw (e, fetch_with_redirects) refl
  fetch-ends (suc n) url r e = rw (e, fetch_with_redirects) refl

  fetch-exhausted :
      (url location : Text)
      → request p 0 url ≡ redirects location
      → fetch_with_redirects p 0 url ≡ (url ∷ [], too_many_redirects)
  unfolding fetch_with_redirects
  fetch-exhausted url location e = rw (e, fetch_with_redirects) refl

  fetch-lost :
      (n : ℕ) (url location : Text)
      → request p (suc n) url ≡ redirects location
      → redirect_target p url location ≡ none
      → fetch_with_redirects p (suc n) url ≡ (url ∷ [], fetch_thrown)
  unfolding fetch_with_redirects
  fetch-lost n url location e t = rw (e, t, fetch_with_redirects) refl

  fetch-follows :
      (n : ℕ) (url location target : Text)
      → request p (suc n) url ≡ redirects location
      → redirect_target p url location ≡ some target
      → fetch_with_redirects p (suc n) url
        ≡ (url ∷ (fetch_with_redirects p n target).0, (fetch_with_redirects p n target).1)
  unfolding fetch_with_redirects
  fetch-follows n url location target e t = rw (e, t, fetch_with_redirects) refl

  Runs-fetch :
      {n : ℕ} {url : Text} {r : FetchResult} → Runs n url r → (fetch_with_redirects p n url).1 ≡ r
  Runs-fetch {n = n} {url = url} {r = r} (stops e) = rw (fetch-ends n url r e) refl
  Runs-fetch (goes_on {n = n} {url = url} {location = l} {target = target} e t chain) =
      rw (fetch-follows n url l target e t) (Runs-fetch chain)

  fetch-Runs :
      (n : ℕ) (url : Text) (response : Response)
      → (fetch_with_redirects p n url).1 ≡ fetched response
      → Runs n url (fetched response)
  fetch-Runs zero url response h = elim (hop-cases (request p zero url)) [
    | inl (r, e) ↦
        let same : r ≡ fetched response = ground (arith, fetch-ends zero url r e, h) in
        stops (e ∙ ap ends same)
    | inr (l, e) ↦ ground (arith, fetch-exhausted url l e)
  ]
  fetch-Runs (suc n) url response h = elim (hop-cases (request p (suc n) url)) [
    | inl (r, e) ↦
        let same : r ≡ fetched response = ground (arith, fetch-ends (suc n) url r e, h) in
        stops (e ∙ ap ends same)
    | inr (l, e) ↦ elim (Option-cases (redirect_target p url l)) [
      | inl t ↦ ground (arith, fetch-lost n url l e t)
      | inr (target, t) ↦
          goes_on e t
            (fetch-Runs n target response (ground (arith, fetch-follows n url l target e t)))
    ]
  ]

  Leads-Runs : {n : ℕ} {url : Text} {r : Response} → Leads n url r → Runs n url (fetched r)
  Leads-Runs (arrives {n} {url} {r} e last) =
      stops (request-answered p n url r e ∙ hop_of-last r last)
  Leads-Runs (follows {n} {url} {location} {target} hop e redirect there to chain) =
      goes_on (request-answered p (suc n) url hop e ∙ hop_of-redirect hop location redirect there)
        (IsTarget-redirect_target p url location target to) (Leads-Runs chain)

  Runs-Leads :
      {n : ℕ} {url : Text} {o : FetchResult} (r : Response)
      → Runs n url o
      → o ≡ fetched r
      → Leads n url r
  Runs-Leads r (stops {n} {url} e) same =
      let (answer, last) = request-IsLast p n url r (e ∙ ap ends same) in arrives answer last
  Runs-Leads r (goes_on {n} {url} {location} {target} e t chain) same =
      let (hop, answer, redirect, there) = request-redirects p (suc n) url location e in
      follows hop answer redirect there (redirect_target-IsTarget p url location target t)
        (Runs-Leads r chain same)

  -- `fetchWithRedirects` returns a response exactly when a chain of at most as many redirects as are
  -- allowed leads from the URL to it: a redirect has the status 301, 302, 303, 307 or 308 and a
  -- `Location`, which is resolved against the URL if it begins with a slash.
  pub fetch_with_redirects-Leads :
      (n : ℕ) (url : Text) (response : Response)
      → ((fetch_with_redirects p n url).1 ≡ fetched response) ↔ Leads n url response
  fetch_with_redirects-Leads n url response = (
    (λ e. Runs-Leads response (fetch-Runs n url response e) refl),
    (λ chain. Runs-fetch (Leads-Runs chain)),
  )

  -- `fetch` is called at least once, and at most once more than redirects are allowed.
  fetch_with_redirects-length :
      (n : ℕ) (url : Text)
      → (1 ≤ length (fetch_with_redirects p n url).0)
        × (length (fetch_with_redirects p n url).0 ≤ suc n)
  fetch_with_redirects-length zero url = elim (hop-cases (request p zero url)) [
    | inl (r, e) ↦ rw (fetch-ends zero url r e) (omega arith, omega arith)
    | inr (l, e) ↦ rw (fetch-exhausted url l e) (omega arith, omega arith)
  ]
  fetch_with_redirects-length (suc n) url = elim (hop-cases (request p (suc n) url)) [
    | inl (r, e) ↦ rw (fetch-ends (suc n) url r e) (omega arith, omega arith)
    | inr (l, e) ↦ elim (Option-cases (redirect_target p url l)) [
      | inl t ↦ rw (fetch-lost n url l e t) (omega arith, omega arith)
      | inr (target, t) ↦
          let (_, most) = fetch_with_redirects-length n target in
          rw (fetch-follows n url l target e t) (omega arith, omega arith)
    ]
  ]
