-- ===== src/DurableQueue/Backoff.antt =====
-- packages/cloudflare/src/api/durable-objects/queue.ts: how often a failing route is tried again,
-- and when.
use adapters_api.Common.{
  ℕ, suc, ◌+◌, ◌*◌, ◌^◌, ◌≤◌, ◌<◌, ◌≡◌, refl, arith, true, Option, none, some, List, [], ◌++◌, min,
  inl, inr, ◌⊎◌, Bool-cases, eq_refl, String, ◌∷◌, max, length, All,
}
use adapters_api.Common.Assoc.{lookup, insert, lookup-insert}
use adapters_api.Message.{QueueMessage}
use adapters_api.DurableQueue.{
  Config, Handler, FailedState, Reply, next_failed_state, earliest, is_truthy, alarm_time,
  set_alarm, add_alarm, store_failed_state, add_to_failed_state, execute_revalidation,
}
use adapters_api.DurableQueue.Failures.{again, verdict, kept, execute_revalidation-verdict}

-- The route is tried once for each answer, with nothing in between that touches it.
unfoldable pub replay : Config → QueueMessage → List (ℕ × Reply) → Handler → Handler
replay cfg msg [] h = h
replay cfg msg ((now, reply) ∷ answers) h =
    replay cfg msg answers (execute_revalidation cfg now msg reply h)

abbrev pub AllFail : List (ℕ × Reply) → Type 0
AllFail = All (λ (a : ℕ × Reply). verdict a.1 ≡ again)

-- the failed state of the message after it was tried `n` times
abbrev pub CountIs : QueueMessage → ℕ → Handler → Type 0
CountIs msg n h =
    (f : FailedState) × (lookup msg.message_deduplication_id h.route_in_failed_state ≡ some f)
    × (f.retry_count ≡ n)

module _ (cfg : Config) (msg : QueueMessage) where
  fails_once :
      (now : ℕ) (reply : Reply) (h : Handler)
      → verdict reply ≡ again
      → lookup msg.message_deduplication_id
          (execute_revalidation cfg now msg reply h).route_in_failed_state
        ≡ next_failed_state cfg now msg
            (lookup msg.message_deduplication_id h.route_in_failed_state)
  unfolding kept
  fails_once now reply h e = ground (arith, execute_revalidation-verdict cfg now msg reply h)

  CountIs-suc :
      (now : ℕ) (reply : Reply) (h : Handler) (n : ℕ)
      → verdict reply ≡ again
      → n < cfg.max_retries
      → CountIs msg n h
      → CountIs msg (suc n) (execute_revalidation cfg now msg reply h)
  unfolding next_failed_state
  CountIs-suc now reply h n e lt (f, found, count) = (
    record f {
      retry_count = f.retry_count + 1;
      next_alarm_ms = now + 2 ^ (f.retry_count + 1) * cfg.revalidation_retry_interval;
    },
    ground (arith, fails_once now reply h e),
    omega arith,
  )

  CountIs-replay :
      (answers : List (ℕ × Reply)) (h : Handler) (n : ℕ)
      → AllFail answers
      → n + length answers ≤ cfg.max_retries
      → CountIs msg n h
      → CountIs msg (n + length answers) (replay cfg msg answers h)
  unfolding replay
  CountIs-replay [] h n _ le (f, found, count) = (f, found, omega arith)
  CountIs-replay ((now, reply) ∷ answers) h n (e, es) le c =
      let (f, found, count) =
        CountIs-replay answers (execute_revalidation cfg now msg reply h) (suc n) es (omega arith)
          (CountIs-suc now reply h n e (omega arith) c) in
      (f, found, omega arith)

  -- A route that is not in the failed state and then fails as often as there are retries, or less,
  -- is kept in the failed state with that number of failures as its retry count.
  pub replay-counts :
      (answers : List (ℕ × Reply)) (h : Handler)
      → lookup msg.message_deduplication_id h.route_in_failed_state ≡ none
      → AllFail answers
      → 0 < length answers
      → length answers ≤ max 1 cfg.max_retries
      → CountIs msg (length answers) (replay cfg msg answers h)
  unfolding replay next_failed_state
  replay-counts [] h new es pos le = absurd (omega arith)
  replay-counts ((now, reply) ∷ []) h new (e, es) pos le = (
    record { msg = msg; retry_count = 1; next_alarm_ms = now + 2000 },
    ground (arith, fails_once now reply h e),
    refl,
  )
  replay-counts ((now, reply) ∷ a ∷ answers) h new (e, es) pos le =
      let (f, found, count) =
        CountIs-replay (a ∷ answers) (execute_revalidation cfg now msg reply h) 1 es (omega arith) (
          record { msg = msg; retry_count = 1; next_alarm_ms = now + 2000 },
          ground (arith, fails_once now reply h e),
          refl,
        ) in
      (f, found, omega arith)

  replay-append :
      (xs ys : List (ℕ × Reply)) (h : Handler)
      → replay cfg msg (xs ++ ys) h ≡ replay cfg msg ys (replay cfg msg xs h)
  unfolding replay
  replay-append [] ys h = refl
  replay-append ((now, reply) ∷ xs) ys h =
      replay-append xs ys (execute_revalidation cfg now msg reply h)

  -- After the last of its retries has failed too, the route has left the failed state, so that a
  -- later message can start a revalidation of it again.
  pub replay-gives_up :
      (answers : List (ℕ × Reply)) (now : ℕ) (reply : Reply) (h : Handler)
      → lookup msg.message_deduplication_id h.route_in_failed_state ≡ none
      → AllFail answers
      → length answers ≡ max 1 cfg.max_retries
      → verdict reply ≡ again
      → lookup msg.message_deduplication_id
          (replay cfg msg (answers ++ (now, reply) ∷ []) h).route_in_failed_state
        ≡ none
  unfolding replay next_failed_state
  replay-gives_up answers now reply h new es full e =
      let before = replay cfg msg answers h in
      let (f, found, count) = replay-counts answers h new es (omega arith) (omega arith) in
      rw (replay-append answers ((now, reply) ∷ []) h)
        (ground (arith, fails_once now reply before e))

  earliest-le : (t : ℕ) (m : List (String × FailedState)) → earliest t m ≤ t
  unfolding earliest
  earliest-le t [] = omega arith
  earliest-le t ((_, f) ∷ m) = omega (arith, earliest-le (min t f.next_alarm_ms) m)

  earliest-lookup :
      (t : ℕ) (k : String) (f : FailedState) (m : List (String × FailedState))
      → lookup k m ≡ some f
      → earliest t m ≤ f.next_alarm_ms
  unfolding earliest lookup
  earliest-lookup t k f [] e = cc
  earliest-lookup t k f ((j, g) ∷ m) e =
      ground (
        arith,
        earliest-le (min t g.next_alarm_ms) m,
        earliest-lookup (min t g.next_alarm_ms) k f m,
      )

  set_alarm_bounds :
      (now : ℕ) (k : String) (f : FailedState) (m : List (String × FailedState)) (old : Option ℕ)
      → lookup k m ≡ some f
      → (t : ℕ) × (set_alarm cfg now m old ≡ some t)
        × (now ≤ t)
        × (t ≤ max f.next_alarm_ms (now + cfg.revalidation_retry_interval))
  unfolding lookup alarm_time
  set_alarm_bounds now k f [] old e = cc
  set_alarm_bounds now k f ((j, g) ∷ m) old e =
      let first = earliest g.next_alarm_ms m in
      (
        alarm_time cfg now first,
        refl,
        ground arith,
        ground (arith, earliest-le g.next_alarm_ms m, earliest-lookup g.next_alarm_ms k f m),
      )

  -- A failure that keeps the route in the failed state leaves an alarm: the one that was set before,
  -- or one that lies neither in the past nor after both the route's retry time and one retry
  -- interval from now.
  pub add_to_failed_state-schedules :
      (now : ℕ) (h : Handler) (f : FailedState)
      → next_failed_state cfg now msg (lookup msg.message_deduplication_id h.route_in_failed_state)
        ≡ some f
      → ((is_truthy h.stored_alarm ≡ true)
          × ((add_to_failed_state cfg now msg h).stored_alarm ≡ h.stored_alarm))
        ⊎ ((t : ℕ) × ((add_to_failed_state cfg now msg h).stored_alarm ≡ some t)
            × (now ≤ t)
            × (t ≤ max f.next_alarm_ms (now + cfg.revalidation_retry_interval)))
  unfolding add_to_failed_state store_failed_state add_alarm
  add_to_failed_state-schedules now h f e =
      let id = msg.message_deduplication_id in
      let m = insert id f h.route_in_failed_state in
      let found : lookup id m ≡ some f =
        rw (lookup-insert id id f h.route_in_failed_state, eq_refl id) in
      elim (Bool-cases (is_truthy h.stored_alarm)) [
        | inl set ↦ inl (set, ground arith)
        | inr unset ↦
            let (t, at, low, high) = set_alarm_bounds now id f m h.stored_alarm found in
            inr (t, ground arith, low, high)
      ]
