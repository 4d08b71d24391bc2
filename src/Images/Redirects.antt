-- ===== src/Images/Redirects.antt =====
-- packages/cloudflare/src/cli/templates/images.ts: the fetch of a remote image.
use adapters_api.Common.{
  ℕ, zero, suc, Bool, ◌||◌, Option, none, some, List, [], ◌∷◌, ◌==◌, if◌then◌else◌,
}
use adapters_api.Common.Text.{Text, starts_with}
use adapters_api.Images.{Platform, Response, timed_out, rejected, answered}

-- `FetchWithRedirectsResult`, its two errors, and an exception that is thrown on
pub data FetchResult : Type 0 where
  fetched : Response → FetchResult
  fetch_timed_out too_many_redirects fetch_thrown : FetchResult

-- `redirectResponseStatuses.includes(status)`
unfoldable pub is_redirect_status : ℕ → Bool
is_redirect_status n = n == 301 || n == 302 || n == 303 || n == 307 || n == 308

-- One call of `fetch`: the end of the function, or the `Location` of a redirect.
pub data Hop : Type 0 where
  ends : FetchResult → Hop
  redirects : Text → Hop

-- the tests on the response
unfoldable pub hop_of : Response → Hop
hop_of response =
    if is_redirect_status response.status
    then elim response.location [
      | none ↦ ends (fetched response)
      | some location ↦ redirects location
    ]
    else ends (fetched response)

module _ (p : Platform) where
  unfoldable pub request : ℕ → Text → Hop
  request max_redirect_count url = elim (p.fetch max_redirect_count url) [
    | timed_out ↦ ends fetch_timed_out
    | rejected ↦ ends fetch_thrown
    | answered response ↦ hop_of response
  ]

  -- `redirectTarget`, `none` where `new URL` throws
  unfoldable pub redirect_target : Text → Text → Option Text
  redirect_target url location =
      if starts_with location (b'/' ∷ []) then p.resolve location url else some location

  -- `fetchWithRedirects`: the URLs that `fetch` is called with, and the result
  unfoldable pub fetch_with_redirects : ℕ → Text → List Text × FetchResult
  fetch_with_redirects zero url = elim (request zero url) [
    | ends r ↦ (url ∷ [], r)
    | redirects location ↦ (url ∷ [], too_many_redirects)
  ]
  fetch_with_redirects (suc count) url = elim (request (suc count) url) [
    | ends r ↦ (url ∷ [], r)
    | redirects location ↦ elim (redirect_target url location) [
      | none ↦ (url ∷ [], fetch_thrown)
      | some target ↦ let (urls, r) = fetch_with_redirects count target in (url ∷ urls, r)
    ]
  ]
