-- ===== src/DurableQueue/Tests.antt =====
-- Runs of the durable queue, and the theorems at concrete inputs.
use adapters_api.Common.{
  ℕ, ◌+◌, ◌≤◌, ◌≡◌, refl, arith, true, false, none, some, List, [], ◌∷◌, ◌++◌, String, max, ◌⊎◌,
  eq_iff,
}
use adapters_api.Common.Assoc.{lookup, insert, remove, has}
use adapters_api.Message.{QueueMessage, route_of}
use adapters_api.DurableQueue.{
  Config, Handler, FailedState, FailedRow, Reply, rejected, response, is_revalidated, earliest,
  alarm_time, add_alarm, next_failed_state, store_failed_state, forget, add_to_failed_state,
  record_success, try_block, catch_block, is_open_next_error, execute_revalidation, insert_by_alarm,
  sort_by_alarm, events_to_retry, retry_all, alarm, is_truthy, synced_after, check_sync_table,
  of_build, restore, init_state, restart,
}
use adapters_api.DurableQueue.System.{
  System, is_full, start, is_skipped, wait_or_start, revalidate, receive, Reachable, created, step,
}
use adapters_api.DurableQueue.Failures.{
  verdict, kept, synced, execute_revalidation-verdict, execute_revalidation-ne,
}
use adapters_api.DurableQueue.Backoff.{
  replay, CountIs, replay-counts, replay-gives_up, add_to_failed_state-schedules,
}
use adapters_api.DurableQueue.Reachable.{IsValid, Reachable-IsValid}
use adapters_api.DurableQueue.Unblocked.{IsUnblockable, Reachable-full}
use adapters_api.DurableQueue.Alarms.{alarm_expired, alarm_strands}
use adapters_api.DurableQueue.Restart.{lookup-restart, restart-add_to_failed_state, restart-success}

program : Unit {0}
unfolding lookup insert remove has is_revalidated earliest alarm_time add_alarm next_failed_state
    store_failed_state forget add_to_failed_state record_success try_block catch_block
    is_open_next_error execute_revalidation insert_by_alarm sort_by_alarm events_to_retry retry_all
    alarm synced_after check_sync_table of_build restore init_state restart is_full start is_skipped
    wait_or_start revalidate verdict kept synced replay
program = tt

abbrev cfg : Config
cfg = record {
  max_revalidations = 1;
  revalidation_retry_interval = 2000;
  max_retries = 2;
  disable_sqlite = false;
  build_id = "b1";
}

abbrev ask : String → QueueMessage
ask id = record {
  message_deduplication_id = id;
  message_body = record { host = "h"; url = id; last_modified = 5000; e_tag = "" };
  message_group_id = "g";
}

abbrev empty : Handler
empty = record {
  ongoing_revalidations = [];
  route_in_failed_state = [];
  failed_state_table = [];
  sync_table = [];
  stored_alarm = none;
}

abbrev failing : String → ℕ → String × FailedState
failing id at = (id, record { msg = ask id; retry_count = 1; next_alarm_ms = at })

-- three routes wait for their retry
abbrev three : Handler
three = record empty {
  route_in_failed_state = failing "/a" 10 ∷ failing "/b" 20 ∷ failing "/c" 30 ∷ [];
}

abbrev success : Reply
success = response 200 (some "REVALIDATED")

abbrev answers : QueueMessage → ℕ × Reply
answers msg = (15, success)

abbrev idle : System
idle = record { handler = empty; waiting = []; in_flight = []; retrying = [] }

-- one route is started; a second message for it is skipped; another route waits
received :
    ((revalidate cfg (ask "/a") (revalidate cfg (ask "/a") idle)).in_flight ≡ ask "/a" ∷ [])
    × ((revalidate cfg (ask "/b") (revalidate cfg (ask "/a") idle)).waiting ≡ ask "/b" ∷ [])
unfolding program
received = (refl, refl)

-- after the first failure the alarm is set to its retry time
failed_once : (execute_revalidation cfg 100 (ask "/a") rejected empty).stored_alarm ≡ some 2100
unfolding program
failed_once = refl

-- a newer success makes a message be skipped
synced_route :
    check_sync_table cfg (ask "/a") (execute_revalidation cfg 9000 (ask "/a") success empty) ≡ true
unfolding program
synced_route = refl

-- the alarm takes the expired route and the next one
taken : events_to_retry 15 three ≡ (failing "/b" 20).1 ∷ (failing "/a" 10).1 ∷ []
unfolding program
taken = refl

execute_revalidation-verdict_example :
    (has "/a"
        (execute_revalidation cfg 100 (ask "/a") (response 500 none) empty).ongoing_revalidations
      ≡ false)
    × (lookup "/a"
          (execute_revalidation cfg 100 (ask "/a") (response 500 none) empty).route_in_failed_state
        ≡ kept
            (verdict (response 500 none))
            (next_failed_state cfg 100 (ask "/a") (lookup "/a" [])))
    × (lookup
          (route_of (ask "/a"))
          (execute_revalidation cfg 100 (ask "/a") (response 500 none) empty).sync_table
        ≡ synced (verdict (response 500 none)) cfg 100 (lookup (route_of (ask "/a")) []))
execute_revalidation-verdict_example =
    execute_revalidation-verdict cfg 100 (ask "/a") (response 500 none) empty

execute_revalidation-ne_example :
    (has "/b" (execute_revalidation cfg 15 (ask "/a") success three).ongoing_revalidations
      ≡ has "/b" three.ongoing_revalidations)
    × (lookup "/b" (execute_revalidation cfg 15 (ask "/a") success three).route_in_failed_state
        ≡ lookup "/b" three.route_in_failed_state)
execute_revalidation-ne_example =
    execute_revalidation-ne cfg 15 (ask "/a") success three "/b" (ground (arith, eq_iff "/a" "/b"))

abbrev two_failures : List (ℕ × Reply)
two_failures = (100, rejected) ∷ (5000, response 500 none) ∷ []

replay-counts_example : CountIs (ask "/a") 2 (replay cfg (ask "/a") two_failures empty)
unfolding program
replay-counts_example =
    replay-counts cfg (ask "/a") two_failures empty refl (refl, (refl, tt)) (omega arith)
      (omega arith)

replay-gives_up_example :
    lookup "/a"
      (replay cfg (ask "/a") (two_failures ++ (9000, rejected) ∷ []) empty).route_in_failed_state
    ≡ none
unfolding program
replay-gives_up_example =
    replay-gives_up cfg (ask "/a") two_failures 9000 rejected empty refl (refl, (refl, tt)) refl
      refl

abbrev first_failure : FailedState
first_failure = record { msg = ask "/a"; retry_count = 1; next_alarm_ms = 2100 }

add_to_failed_state-schedules_example :
    ((is_truthy none ≡ true) × ((add_to_failed_state cfg 100 (ask "/a") empty).stored_alarm ≡ none))
    ⊎ ((t : ℕ) × ((add_to_failed_state cfg 100 (ask "/a") empty).stored_alarm ≡ some t)
        × (100 ≤ t)
        × (t ≤ max 2100 (100 + 2000)))
unfolding program
add_to_failed_state-schedules_example =
    add_to_failed_state-schedules cfg (ask "/a") 100 empty first_failure refl

abbrev created_at : ℕ → System
created_at now = record idle { handler = restart cfg now empty }

reached : Reachable cfg (revalidate cfg (ask "/a") (created_at 7))
reached = step (created 7) (receive (ask "/a"))

Reachable-IsValid_example : IsValid cfg (revalidate cfg (ask "/a") (created_at 7))
Reachable-IsValid_example = Reachable-IsValid cfg reached

-- "/a" is fetched, and "/b" waits
abbrev blocked : System
blocked = revalidate cfg (ask "/b") (revalidate cfg (ask "/a") (created_at 7))

Reachable-full_example : IsUnblockable cfg [] [] (ask "/b") blocked
unfolding program
Reachable-full_example =
    Reachable-full cfg [] [] (ask "/b") (step reached (receive (ask "/b"))) (omega arith) refl refl

alarm_expired_example : lookup "/a" (alarm cfg 15 answers three).route_in_failed_state ≡ none
unfolding program
alarm_expired_example =
    alarm_expired cfg answers "/a" 15 three (failing "/a" 10).1 refl refl (omega arith)
      (λ msg e. refl)

alarm_strands_example :
    (lookup "/c" (alarm cfg 15 answers three).route_in_failed_state ≡ some (failing "/c" 30).1)
    × ((alarm cfg 15 answers three).stored_alarm ≡ none)
    × (is_skipped cfg (ask "/c") (alarm cfg 15 answers three) ≡ true)
unfolding program
alarm_strands_example =
    alarm_strands cfg answers "/c" 15 three (failing "/c" 30).1 (ask "/c") refl
      (ground (arith, eq_iff "/b" "/c"), (ground (arith, eq_iff "/a" "/c"), tt)) (refl, (refl, tt))
      refl

abbrev row : FailedRow
row = record { state = first_failure; build_id = "b1" }

abbrev stored : Handler
stored = record empty { failed_state_table = ("/a", row) ∷ [] }

lookup-restart_example :
    lookup "/a" (restart cfg 7 stored).route_in_failed_state ≡ some first_failure
unfolding program
lookup-restart_example = lookup-restart cfg 7 stored "/a" row refl (refl, tt) refl refl

restart-add_to_failed_state_example :
    lookup "/a"
      (restart cfg 200 (add_to_failed_state cfg 100 (ask "/a") empty)).route_in_failed_state
    ≡ some first_failure
unfolding program
restart-add_to_failed_state_example =
    restart-add_to_failed_state cfg 100 200 (ask "/a") empty first_failure refl tt refl

restart-success_example :
    lookup "/a"
      (restart cfg 200
        (execute_revalidation cfg 100 (ask "/a") success stored)).route_in_failed_state
    ≡ some first_failure
unfolding program
restart-success_example =
    restart-success cfg 100 200 (ask "/a") success stored row refl (refl, tt) refl refl refl
