-- ===== src/Interceptor/Route.antt =====
-- packages/core/src/core/routing/cacheInterceptor.ts: `cacheInterceptor`.
use adapters_api.Common.{
  ℕ, String, Bool, not, ◌||◌, Option, none, some, List, [], ◌∷◌, str_eq, if◌then◌else◌,
}
use adapters_api.Common.Assoc.{has, lookup}
use adapters_api.Message.{QueueMessage}
use adapters_api.Interceptor.{Env, DynamicRoute, Event, Outcome, passed_on}
use adapters_api.Interceptor.Answer.{text_or, is_set, answer}
use adapters_api.Interceptor.Paths.{includes_text, lookup_path}

-- the requests that are not looked up: actions, revalidations, resumed ones, and those in preview mode
unfoldable pub is_excluded : Event → Bool
is_excluded e =
    let cookies = text_or "" (lookup "cookie" e.headers) in
    is_set "next-action" e
    || (is_set "x-prerender-revalidate" e
        || (is_set "next-resume" e
            || (not (str_eq e.method "GET")
                || (includes_text cookies "__prerender_bypass"
                    || includes_text cookies "__next_preview_data"))))

module _ (env : Env) where
  -- the first dynamic route that matches
  unfoldable pub find_dynamic : String → List DynamicRoute → Option DynamicRoute
  find_dynamic path [] = none
  find_dynamic path (r ∷ routes) =
      let later = find_dynamic path routes in
      if env.matches r.route_regex path then some r else later

  -- `isStaticRoute`
  unfoldable pub is_static_route : String → Bool
  is_static_route path = has (if str_eq path "" then "/" else path) env.routes

  -- `pathToUse`, if the path is one of ISR; a dynamic route may have a fallback
  unfoldable pub path_to_use : String → Option String
  path_to_use path =
      if is_static_route path
      then some (if str_eq path "" then "/index" else path)
      else elim (find_dynamic path env.dynamic_routes) [
        | none ↦ none
        | some r ↦ some (text_or path r.fallback)
      ]

  -- `cacheInterceptor`, given `localizePath(event)`: the messages to the queue, and the outcome
  unfoldable pub cache_interceptor : ℕ → Event → String → List QueueMessage × Outcome
  cache_interceptor now e localized =
      let path = lookup_path env localized in
      if is_excluded e then ([], passed_on) else elim (path_to_use path) [
        | none ↦ ([], passed_on)
        | some key ↦ elim (env.cache_get key) [
          | none ↦ ([], passed_on)
          | some none ↦ ([], passed_on)
          | some (some cached) ↦ answer env now e path cached
        ]
      ]
