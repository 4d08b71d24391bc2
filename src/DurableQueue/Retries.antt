-- ===== src/DurableQueue/Retries.antt =====
-- packages/cloudflare/src/api/durable-objects/queue.ts: the retry counts stay within their limit, in
-- memory and in the table, through failures and restarts.
use adapters_api.Common.{
  ℕ, ◌≤◌, ◌≡◌, refl, arith, Option, none, some, List, [], ◌∷◌, String, max, All, All-filter, str_eq,
  Option-cases, Bool-cases, inl, inr,
}
use adapters_api.Common.Assoc.{lookup, insert, All-insert, All-remove, All-lookup}
use adapters_api.Message.{QueueMessage}
use adapters_api.DurableQueue.{
  Config, Handler, FailedState, FailedRow, Reply, rejected, response, next_failed_state,
  store_failed_state, forget, add_alarm, add_to_failed_state, record_success, try_block,
  catch_block, is_open_next_error, execute_revalidation, of_build, restore, init_state, restart,
}

-- a failed state under its own id, with a retry count within the limit
abbrev pub IsBounded : Config → String → FailedState → Type 0
IsBounded cfg k f =
    (k ≡ f.msg.message_deduplication_id)
    × (1 ≤ f.retry_count)
    × (f.retry_count ≤ max 1 cfg.max_retries)

pub record HasBoundedRetries (cfg : Config) (h : Handler) : Type 0 where
  pub failed : All (λ (e : String × FailedState). IsBounded cfg e.0 e.1) h.route_in_failed_state
  pub rows : All (λ (e : String × FailedRow). IsBounded cfg e.0 e.1.state) h.failed_state_table

module _ (cfg : Config) where
  abbrev Failed : String × FailedState → Type 0
  Failed e = IsBounded cfg e.0 e.1

  abbrev Row : String × FailedRow → Type 0
  Row e = IsBounded cfg e.0 e.1.state

  next_failed_state-IsBounded :
      (now : ℕ) (msg : QueueMessage) (old : Option FailedState) (f : FailedState)
      → ((g : FailedState) → old ≡ some g → IsBounded cfg msg.message_deduplication_id g)
      → next_failed_state cfg now msg old ≡ some f
      → IsBounded cfg msg.message_deduplication_id f
  unfolding next_failed_state
  next_failed_state-IsBounded now msg none f h e = ground arith
  next_failed_state-IsBounded now msg (some g) f h e = let b = h g refl in ground arith

  add_to_failed_state-HasBoundedRetries :
      (now : ℕ) (msg : QueueMessage) (h : Handler)
      → HasBoundedRetries cfg h
      → HasBoundedRetries cfg (add_to_failed_state cfg now msg h)
  unfolding add_to_failed_state store_failed_state forget add_alarm
  add_to_failed_state-HasBoundedRetries now msg h b =
      let id = msg.message_deduplication_id in
      let old = lookup id h.route_in_failed_state in
      elim (Option-cases (next_failed_state cfg now msg old)) [
        | inl e ↦
            rw (e, add_to_failed_state)
              (record {
                failed = All-remove Failed id h.route_in_failed_state b.failed;
                rows = b.rows;
              })
        | inr (f, e) ↦
            let ok =
              next_failed_state-IsBounded now msg old f
                (λ g q. All-lookup Failed id g h.route_in_failed_state b.failed q) e in
            rw (e, add_to_failed_state)
              (record {
                failed = All-insert Failed id f h.route_in_failed_state b.failed ok;
                rows = ground (
                  arith,
                  All-insert Row id (record { state = f; build_id = cfg.build_id })
                      h.failed_state_table b.rows ok,
                );
              })
      ]

  pub execute_revalidation-HasBoundedRetries :
      (now : ℕ) (msg : QueueMessage) (reply : Reply) (h : Handler)
      → HasBoundedRetries cfg h
      → HasBoundedRetries cfg (execute_revalidation cfg now msg reply h)
  unfolding execute_revalidation try_block catch_block forget record_success is_open_next_error
  execute_revalidation-HasBoundedRetries now msg rejected h b =
      let a = add_to_failed_state-HasBoundedRetries now msg h b in
      record { failed = a.failed; rows = a.rows }
  execute_revalidation-HasBoundedRetries now msg (response status cache) h b =
      let a = add_to_failed_state-HasBoundedRetries now msg h b in
      let r = All-remove Failed msg.message_deduplication_id h.route_in_failed_state b.failed in
      record { failed = ground arith; rows = ground arith }

  restore-IsBounded :
      (rows : List (String × FailedRow)) (m : List (String × FailedState))
      → All Row rows
      → All Failed m
      → All Failed (restore rows m)
  unfolding restore
  restore-IsBounded [] m _ k = k
  restore-IsBounded ((id, row) ∷ rows) m (p, h) k =
      restore-IsBounded rows (insert id row.state m) h (All-insert Failed id row.state m k p)

  pub restart-HasBoundedRetries :
      (now : ℕ) (h : Handler) → HasBoundedRetries cfg h → HasBoundedRetries cfg (restart cfg now h)
  unfolding restart init_state add_alarm of_build
  restart-HasBoundedRetries now h b =
      let kept =
        All-filter Row (λ (e : String × FailedRow). str_eq e.1.build_id cfg.build_id)
          h.failed_state_table b.rows in
      elim (Bool-cases cfg.disable_sqlite) [
        | inl off ↦ rw off (record { failed = tt; rows = b.rows })
        | inr on ↦ rw on (record { failed = restore-IsBounded _ [] kept tt; rows = kept })
      ]
