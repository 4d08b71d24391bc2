-- ===== src/Interceptor/Root.antt =====
-- packages/core/src/core/routing/cacheInterceptor.ts: the entry of the root, whose path is empty when
-- its route is looked up.
use adapters_api.Common.{
  ℕ, ◌≡◌, refl, ap, inl, inr, String, true, false, Option, none, some, List, [], Bool-cases,
  if_both, str_eq, if◌then◌else◌,
}
use adapters_api.Common.Assoc.{has, lookup}
use adapters_api.Message.{QueueMessage}
use adapters_api.CacheService.{HeaderMap, Revalidate}
use adapters_api.CacheService.Decode.{is_falsy}
use adapters_api.Interceptor.{
  Content, route, page, app, redirect, other, Cached, Env, Event, Outcome, Result,
}
use adapters_api.Interceptor.Control.{
  cache_one_year, seconds_or_year, is_never_cached, final_revalidate, compute_cache_control,
}
use adapters_api.Interceptor.Answer.{
  text_or, is_set, meta_postponed, with_control, finish_result, generate_app, generate_page,
  answer_redirect, answer_route, answer_of, answer,
}
use adapters_api.Interceptor.Paths.{lookup_path}
use adapters_api.Interceptor.Route.{is_excluded, is_static_route, path_to_use, cache_interceptor}

module _ (env : Env) (absent : lookup "" env.routes ≡ none) where
  final_revalidate_root : final_revalidate env "" none ≡ cache_one_year
  unfolding final_revalidate seconds_or_year
  final_revalidate_root = ap seconds_or_year absent

  control_root :
      (now : ℕ) (body host : String) (revalidate : Option Revalidate) (last_modified : Option ℕ)
      → revalidate ≡ none
      → (compute_cache_control env now "" body host revalidate last_modified).0 ≡ []
  unfolding compute_cache_control is_never_cached
  control_root now body host revalidate last_modified e = simp (e, final_revalidate_root) refl

  with_control-messages :
      (control : List QueueMessage × Option HeaderMap) (failed : Outcome)
      (reply : HeaderMap → Result)
      → control.0 ≡ []
      → (with_control control failed reply).0 ≡ []
  unfolding with_control
  with_control-messages (messages, none) failed reply e = e
  with_control-messages (messages, some headers) failed reply e = e

  abbrev IsSilent : List QueueMessage × Outcome → Type 0
  IsSilent result = result.0 ≡ []

  module _ (now : ℕ) (e : Event) (cached : Cached) (own : cached.revalidate ≡ none) where
    finish_root :
        (body content_type : String) (additional : HeaderMap)
        → (finish_result env now e "" cached body content_type additional).0 ≡ []
    unfolding finish_result
    finish_root body content_type additional =
        with_control-messages _ _ _ (control_root now body e.host _ _ own)

    answer_of_root : (content : Content) → (answer_of env now e "" cached content).0 ≡ []
    unfolding answer_of generate_app generate_page answer_redirect answer_route
    answer_of_root (app html rsc segment_data) =
        let is_postponed = if is_falsy (meta_postponed cached.meta) then false else true in
        if_both IsSilent (is_set "rsc" e) _ _
          (if_both IsSilent is_postponed _ _
            (if_both IsSilent (str_eq (text_or "" (lookup "next-router-prefetch" e.headers)) "1") _
              _ (finish_root _ _ _) refl)
            (finish_root _ _ _))
          (if_both IsSilent is_postponed _ _ refl (finish_root _ _ _))
    answer_of_root (page html json_text) =
        if_both IsSilent e.next_data_req _ _ (finish_root _ _ _) (finish_root _ _ _)
    answer_of_root redirect = with_control-messages _ _ _ (control_root now "" e.host _ _ own)
    answer_of_root (route body) = with_control-messages _ _ _ (control_root now body e.host _ _ own)
    answer_of_root other = refl

  -- A request for the root never makes the interceptor ask the queue for a revalidation, at whatever time,
  -- if the entry of `/index` has no revalidation time of its own: the time that the manifest has for the
  -- route `/` is not found under the empty path, and no route has the empty name.
  pub cache_interceptor_root :
      (now : ℕ) (e : Event) (localized : String) (cached : Cached)
      → lookup_path env localized ≡ ""
      → has "/" env.routes ≡ true
      → env.cache_get "/index" ≡ some (some cached)
      → cached.revalidate ≡ none
      → (cache_interceptor env now e localized).0 ≡ []
  unfolding cache_interceptor path_to_use is_static_route answer
  cache_interceptor_root now e localized cached root static found own =
      elim (Bool-cases (is_excluded e)) [
        | inl x ↦ simp x refl
        | inr x ↦ simp (x, root, static, found) (answer_of_root now e cached own cached.content)
      ]
