-- ===== src/DurableQueue/Reachable.antt =====
-- packages/cloudflare/src/api/durable-objects/queue.ts: the invariant of every state that the object
-- reaches, under every interleaving of its calls.
use adapters_api.Common.{
  ℕ, ◌≤◌, ◌≡◌, arith, Bool, true, false, List, [], ◌∷◌, String, length, any, All, All-map,
  any-append_cons, str_eq, eq_iff, eq_refl, Bool-cases, inl, inr,
}
use adapters_api.Common.Assoc.{
  remove, length-insert-le, length-remove-le, All-insert, All-remove, All-remove_ne,
}
use adapters_api.Message.{QueueMessage}
use adapters_api.DurableQueue.{
  Config, Handler, Reply, rejected, response, forget, add_alarm, record_success, try_block,
  catch_block, is_open_next_error, execute_revalidation, init_state, restart,
}
use adapters_api.DurableQueue.System.{
  System, is_full, is_skipped, start, wait_or_start, revalidate, Step, receive, wake, settle, fire,
  retry, evict, Reachable, created, step,
}
use adapters_api.DurableQueue.Failures.{add_to_failed_state_frame}
use adapters_api.DurableQueue.Retries.{
  HasBoundedRetries, execute_revalidation-HasBoundedRetries, restart-HasBoundedRetries,
}

abbrev pub is_awaited : List QueueMessage → String → Bool
is_awaited ms k = any (λ (m : QueueMessage). str_eq m.message_deduplication_id k) ms

pub record IsValid (cfg : Config) (s : System) : Type 0 where
  pub bounded : length s.handler.ongoing_revalidations ≤ cfg.max_revalidations
  pub owned :
      All
        (λ (e : String × QueueMessage). is_awaited s.in_flight e.0 ≡ true)
        s.handler.ongoing_revalidations
  pub retries : HasBoundedRetries cfg s.handler

module _ (cfg : Config) where
  restart_ongoing : (now : ℕ) (h : Handler) → (restart cfg now h).ongoing_revalidations ≡ []
  unfolding restart init_state add_alarm
  restart_ongoing now h = ground arith

  pub execute_revalidation_ongoing :
      (now : ℕ) (msg : QueueMessage) (reply : Reply) (h : Handler)
      → (execute_revalidation cfg now msg reply h).ongoing_revalidations
        ≡ remove msg.message_deduplication_id h.ongoing_revalidations
  unfolding execute_revalidation try_block catch_block is_open_next_error forget record_success
  execute_revalidation_ongoing now msg rejected h =
      ground (arith, add_to_failed_state_frame cfg now msg h)
  execute_revalidation_ongoing now msg (response status cache) h =
      ground (arith, add_to_failed_state_frame cfg now msg h)

  start-IsValid :
      (msg : QueueMessage) (s : System)
      → IsValid cfg s
      → is_full cfg s.handler ≡ false
      → IsValid cfg (start msg s)
  unfolding start is_full
  start-IsValid msg s v free =
      let id = msg.message_deduplication_id in
      let m = s.handler.ongoing_revalidations in
      record {
        bounded = ground (arith, length-insert-le id msg m);
        owned =
            All-insert (λ (e : String × QueueMessage). is_awaited (msg ∷ s.in_flight) e.0 ≡ true) id
              msg m (All-map (λ e p. ground arith) m v.owned) (ground (arith, eq_refl id));
        retries = record { failed = v.retries.failed; rows = v.retries.rows };
      }

  wait_or_start-IsValid :
      (msg : QueueMessage) (s : System) → IsValid cfg s → IsValid cfg (wait_or_start cfg msg s)
  unfolding wait_or_start
  wait_or_start-IsValid msg s v = elim (Bool-cases (is_full cfg s.handler)) [
    | inl full ↦ rw full (record { bounded = v.bounded; owned = v.owned; retries = v.retries })
    | inr free ↦ rw free (start-IsValid msg s v free)
  ]

  -- Every step keeps the invariant.
  pub Step-IsValid : {s t : System} → Step cfg s t → IsValid cfg s → IsValid cfg t
  unfolding revalidate
  Step-IsValid {s} (receive msg) v = elim (Bool-cases (is_skipped cfg msg s.handler)) [
    | inl skip ↦ rw skip v
    | inr go ↦ rw go (wait_or_start-IsValid msg s v)
  ]
  Step-IsValid (wake before after msg e) v =
      wait_or_start-IsValid msg _
        (record { bounded = v.bounded; owned = v.owned; retries = v.retries })
  Step-IsValid {s} (settle before after msg now reply e) v =
      let id = msg.message_deduplication_id in
      let m = s.handler.ongoing_revalidations in
      record {
        bounded =
            ground
              (arith, execute_revalidation_ongoing now msg reply s.handler, length-remove-le id m);
        owned = rw (execute_revalidation_ongoing now msg reply s.handler) (
            All-remove_ne id m
              (λ k p d.
                any-append_cons _ before msg after (rw e at p) (ground (arith, eq_iff id k.0)))
              v.owned);
        retries = execute_revalidation-HasBoundedRetries cfg now msg reply s.handler v.retries;
      }
  Step-IsValid (fire now e) v = record {
    bounded = v.bounded;
    owned = v.owned;
    retries = record { failed = v.retries.failed; rows = v.retries.rows };
  }
  Step-IsValid {s} (retry msg rest now reply e) v =
      let id = msg.message_deduplication_id in
      let m = s.handler.ongoing_revalidations in
      record {
        bounded =
            ground
              (arith, execute_revalidation_ongoing now msg reply s.handler, length-remove-le id m);
        owned =
            rw (execute_revalidation_ongoing now msg reply s.handler) (All-remove _ id m v.owned);
        retries = execute_revalidation-HasBoundedRetries cfg now msg reply s.handler v.retries;
      }
  Step-IsValid {s} (evict now) v = record {
    bounded = rw (restart_ongoing now s.handler) (omega arith);
    owned = rw (restart_ongoing now s.handler) tt;
    retries = restart-HasBoundedRetries cfg now s.handler v.retries;
  }

  -- In every state that the object reaches, whatever the order in which messages, answers, alarms
  -- and evictions come: the ongoing map is within its limit; each of its entries belongs to a fetch
  -- that is in flight, so none is left behind; and each failed state, in memory or stored, stands
  -- under its own id with a retry count between 1 and the limit.
  pub Reachable-IsValid : {s : System} → Reachable cfg s → IsValid cfg s
  Reachable-IsValid (created now) = record {
    bounded = rw (restart_ongoing now _) (omega arith);
    owned = rw (restart_ongoing now _) tt;
    retries = restart-HasBoundedRetries cfg now _ (record { failed = tt; rows = tt });
  }
  Reachable-IsValid (step r st) = Step-IsValid st (Reachable-IsValid r)
