-- ===== src/DurableQueue/Failures.antt =====
-- packages/cloudflare/src/api/durable-objects/queue.ts: what the end of one revalidation does to the
-- maps and to the table `sync`.
use adapters_api.Common.{
  ℕ, ◌/◌, ◌≡◌, ◌≢◌, arith, false, Option, none, some, String, if◌then◌else◌, ◌==◌, eq_iff, eq_refl,
}
use adapters_api.Common.Assoc.{
  lookup, has, lookup-insert, lookup-remove, has-remove_self, has-remove_ne,
}
use adapters_api.Message.{QueueMessage, route_of}
use adapters_api.DurableQueue.{
  Config, Handler, FailedState, SyncRow, Reply, rejected, response, is_revalidated,
  is_open_next_error, next_failed_state, store_failed_state, forget, add_alarm, add_to_failed_state,
  record_success, try_block, catch_block, execute_revalidation,
}

-- The three ways in which a revalidation ends, read off the answer alone.
pub data Verdict : Type 0 where
  done gone again : Verdict

unfoldable pub verdict : Reply → Verdict
verdict rejected = again
verdict (response status cache) =
    if status == 404
    then gone
    else if status == 200
    then (if is_revalidated cache then done else gone)
    else again

-- the failed state that is kept
unfoldable pub kept : Verdict → Option FailedState → Option FailedState
kept again f = f
kept _ f = none

-- the row of `sync` that is there afterwards
unfoldable pub synced : Verdict → Config → ℕ → Option SyncRow → Option SyncRow
synced done cfg now row =
    if cfg.disable_sqlite
    then row
    else some (record { last_success = now / 1000; build_id = cfg.build_id })
synced _ cfg now row = row

module _ (cfg : Config) (now : ℕ) (msg : QueueMessage) where
  abbrev id : String
  id = msg.message_deduplication_id

  pub lookup-add_to_failed_state :
      (h : Handler)
      → lookup id (add_to_failed_state cfg now msg h).route_in_failed_state
        ≡ next_failed_state cfg now msg (lookup id h.route_in_failed_state)
  unfolding add_to_failed_state forget store_failed_state add_alarm
  lookup-add_to_failed_state h = grind (
    arith,
    lookup-insert {V = FailedState} id id,
    lookup-remove {V = FailedState} id id,
    eq_refl id,
  )

  pub lookup-add_to_failed_state_ne :
      (h : Handler) (j : String)
      → id ≢ j
      → lookup j (add_to_failed_state cfg now msg h).route_in_failed_state
        ≡ lookup j h.route_in_failed_state
  unfolding add_to_failed_state forget store_failed_state add_alarm
  lookup-add_to_failed_state_ne h j d = grind (
    arith,
    lookup-insert {V = FailedState} id j,
    lookup-remove {V = FailedState} id j,
    eq_iff id j,
  )

  pub add_to_failed_state_frame :
      (h : Handler)
      → ((add_to_failed_state cfg now msg h).ongoing_revalidations ≡ h.ongoing_revalidations)
        × ((add_to_failed_state cfg now msg h).sync_table ≡ h.sync_table)
  unfolding add_to_failed_state forget store_failed_state add_alarm
  add_to_failed_state_frame h = ground arith

  -- When a revalidation ends, its id has left the ongoing map; its route is in the failed map exactly
  -- if the answer asks for another try and the retries are not used up, in the next failed state; and
  -- its row of `sync` is renewed exactly on success, unless SQLite is disabled.
  pub execute_revalidation-verdict :
      (reply : Reply) (h : Handler)
      → (has id (execute_revalidation cfg now msg reply h).ongoing_revalidations ≡ false)
        × (lookup id (execute_revalidation cfg now msg reply h).route_in_failed_state
            ≡ kept
                (verdict reply)
                (next_failed_state cfg now msg (lookup id h.route_in_failed_state)))
        × (lookup (route_of msg) (execute_revalidation cfg now msg reply h).sync_table
            ≡ synced (verdict reply) cfg now (lookup (route_of msg) h.sync_table))
  unfolding execute_revalidation try_block catch_block is_open_next_error forget record_success
      verdict kept synced
  execute_revalidation-verdict rejected h = (
    has-remove_self id _,
    lookup-add_to_failed_state h,
    ground (arith, add_to_failed_state_frame h),
  )
  execute_revalidation-verdict (response status cache) h = (
    has-remove_self id _,
    ground (
      arith,
      lookup-add_to_failed_state h,
      lookup-remove id id h.route_in_failed_state,
      eq_refl id,
    ),
    ground (
      arith,
      add_to_failed_state_frame h,
      lookup-insert (route_of msg) (route_of msg)
          (record { last_success = now / 1000; build_id = cfg.build_id }) h.sync_table,
      eq_refl (route_of msg),
    ),
  )

  -- The end of a revalidation touches no other route: not its ongoing entry, not its failed state.
  pub execute_revalidation-ne :
      (reply : Reply) (h : Handler) (j : String)
      → id ≢ j
      → (has j (execute_revalidation cfg now msg reply h).ongoing_revalidations
          ≡ has j h.ongoing_revalidations)
        × (lookup j (execute_revalidation cfg now msg reply h).route_in_failed_state
            ≡ lookup j h.route_in_failed_state)
  unfolding execute_revalidation try_block catch_block is_open_next_error forget record_success
  execute_revalidation-ne rejected h j d = ground (
    arith,
    has-remove_ne id j h.ongoing_revalidations d,
    add_to_failed_state_frame h,
    lookup-add_to_failed_state_ne h j d,
  )
  execute_revalidation-ne (response status cache) h j d = ground (
    arith,
    has-remove_ne id j h.ongoing_revalidations d,
    add_to_failed_state_frame h,
    lookup-add_to_failed_state_ne h j d,
    lookup-remove id j h.route_in_failed_state,
    eq_iff id j,
  )
