-- ===== src/Interceptor/Failure.antt =====
-- packages/core/src/core/routing/cacheInterceptor.ts: what happens when the queue is out of order.
use adapters_api.Common.{
  ℕ, ◌≡◌, refl, String, Bool, true, false, Option, none, some, List, ◌==◌, if_both, if◌then◌else◌,
}
use adapters_api.Message.{QueueMessage}
use adapters_api.CacheService.{HeaderMap}
use adapters_api.CacheService.Decode.{is_falsy}
use adapters_api.Interceptor.{
  Content, route, page, app, redirect, other, Cached, Env, Event, Outcome, passed_on, rejected,
  Result,
}
use adapters_api.Interceptor.Control.{
  cache_one_year, or_zero, s_max_age, is_never_cached, final_revalidate, message_for,
  compute_cache_control,
}
use adapters_api.Interceptor.Answer.{
  is_set, meta_postponed, with_control, finish_result, generate_app, generate_page, answer_redirect,
  answer_route, answer_of, answer,
}

-- what a request for a stale entry gets when `send` throws
unfoldable pub without_queue : Content → Outcome
without_queue (route body) = passed_on
without_queue (page html json_text) = rejected
without_queue (app html rsc segment_data) = rejected
without_queue redirect = passed_on
without_queue other = passed_on

-- the three conditions of the control, and the outcome of `send`
abbrev pub three {ℓ} : {C : Type ℓ} → (is_never is_year is_one : Bool) → (w x y z : C) → C
three is_never is_year is_one w x y z =
    if is_never then w else if is_year then x else if is_one then y else z

falls {ℓ κ} :
    {A : Type ℓ} {B : Type κ} (is_never is_year is_one sends : Bool) (w x z : A × Option B)
    (asked : A) (b : B)
    → three is_never is_year is_one false false true false ≡ true
    → sends ≡ false
    → (three is_never is_year is_one w x (asked, if sends then some b else none) z).1 ≡ none
falls true is_year is_one sends w x z asked b due down = cc
falls false true is_one sends w x z asked b due down = cc
falls false false true sends w x z asked b due down = simp down refl
falls false false false sends w x z asked b due down = cc

with_control-none :
    (control : List QueueMessage × Option HeaderMap) (failed : Outcome) (reply : HeaderMap → Result)
    → control.1 ≡ none
    → (with_control control failed reply).1 ≡ failed
unfolding with_control
with_control-none (messages, none) failed reply e = refl
with_control-none (messages, some headers) failed reply e = cc

module _ (env : Env) (now : ℕ) (e : Event) (path : String) where
  -- the revalidation time of the entry has passed
  abbrev pub is_due : Cached → Bool
  is_due cached =
      let final = final_revalidate env path cached.revalidate in
      three (is_never_cached cached.revalidate) (final == cache_one_year)
        (s_max_age now (or_zero cached.last_modified) final == 1) false false true false

  control_fails :
      (body : String) (cached : Cached)
      → ((message : QueueMessage) → env.send message ≡ false)
      → is_due cached ≡ true
      → (compute_cache_control env now path body e.host cached.revalidate cached.last_modified).1
        ≡ none
  unfolding compute_cache_control
  control_fails body cached down due =
      falls (is_never_cached cached.revalidate)
        (final_revalidate env path cached.revalidate == cache_one_year)
        (s_max_age now (or_zero cached.last_modified) (final_revalidate env path cached.revalidate)
          == 1)
        (env.send (message_for env now path (env.hash body) e.host cached.last_modified)) _ _ _ _ _
        due (down (message_for env now path (env.hash body) e.host cached.last_modified))

  finish_fails :
      (cached : Cached) (body content_type : String) (additional : HeaderMap)
      → ((message : QueueMessage) → env.send message ≡ false)
      → is_due cached ≡ true
      → (finish_result env now e path cached body content_type additional).1 ≡ rejected
  unfolding finish_result
  finish_fails cached body content_type additional down due =
      with_control-none _ _ _ (control_fails body cached down due)

  abbrev IsRejected : List QueueMessage × Outcome → Type 0
  IsRejected result = result.1 ≡ rejected

  answer_of-without_queue :
      (cached : Cached) (content : Content)
      → ((message : QueueMessage) → env.send message ≡ false)
      → is_due cached ≡ true
      → is_falsy (meta_postponed cached.meta) ≡ true
      → (answer_of env now e path cached content).1 ≡ without_queue content
  unfolding answer_of generate_app generate_page answer_redirect answer_route without_queue
  answer_of-without_queue cached (app html rsc segment_data) down due whole = simp whole (
      if_both IsRejected (is_set "rsc" e) _ _ (finish_fails cached _ _ _ down due)
        (finish_fails cached _ _ _ down due))
  answer_of-without_queue cached (page html json_text) down due whole =
      if_both IsRejected e.next_data_req _ _ (finish_fails cached _ _ _ down due)
        (finish_fails cached _ _ _ down due)
  answer_of-without_queue cached redirect down due whole =
      with_control-none _ _ _ (control_fails "" cached down due)
  answer_of-without_queue cached (route body) down due whole =
      with_control-none _ _ _ (control_fails body cached down due)
  answer_of-without_queue cached other down due whole = refl

  -- When a stale entry is requested and the queue does not take the message, the request goes on to the
  -- server if the entry is a route or a redirect; if it is a page, or of the app router with nothing
  -- postponed, the interceptor throws.
  pub answer-without_queue :
      (cached : Cached)
      → ((message : QueueMessage) → env.send message ≡ false)
      → is_due cached ≡ true
      → is_falsy (meta_postponed cached.meta) ≡ true
      → (answer env now e path cached).1 ≡ without_queue cached.content
  unfolding answer
  answer-without_queue cached down due whole =
      answer_of-without_queue cached cached.content down due whole
