-- ===== src/DurableQueue/Restart.antt =====
-- packages/cloudflare/src/api/durable-objects/queue.ts: what survives the eviction of the object.
use adapters_api.Common.{
  ℕ, ◌≡◌, refl, arith, false, some, List, [], ◌∷◌, String, inl, inr, Bool-cases, ◌||◌, str_eq,
  eq_iff, eq_refl,
}
use adapters_api.Common.Assoc.{
  lookup, insert, has, IsUnique, insert-IsUnique, has-insert, lookup-insert,
}
use adapters_api.Message.{QueueMessage}
use adapters_api.DurableQueue.{
  Config, Handler, FailedState, FailedRow, Reply, rejected, response, next_failed_state,
  store_failed_state, add_alarm, add_to_failed_state, forget, record_success, is_open_next_error,
  try_block, catch_block, execute_revalidation, of_build, restore, init_state, restart,
}
use adapters_api.DurableQueue.Failures.{done, verdict}

abbrev pub Rows : Type 0
Rows = List (String × FailedRow)

has-restore :
    (k : String) (rows : Rows) (m : List (String × FailedState))
    → has k (restore rows m) ≡ (has k rows || has k m)
unfolding restore has
has-restore k [] m = refl
has-restore k ((j, row) ∷ rows) m =
    ground (arith, has-restore k rows (insert j row.state m), has-insert j k row.state m)

lookup-restore_absent :
    (k : String) (rows : Rows) (m : List (String × FailedState))
    → has k rows ≡ false
    → lookup k (restore rows m) ≡ lookup k m
unfolding restore has
lookup-restore_absent k [] m e = refl
lookup-restore_absent k ((j, row) ∷ rows) m e =
    ground
      (arith, lookup-restore_absent k rows (insert j row.state m), lookup-insert j k row.state m)

lookup-restore :
    (k : String) (row : FailedRow) (rows : Rows) (m : List (String × FailedState))
    → IsUnique rows
    → lookup k rows ≡ some row
    → lookup k (restore rows m) ≡ some row.state
unfolding restore lookup
lookup-restore k row [] m u e = cc
lookup-restore k row ((j, r) ∷ rows) m (fresh, u) e = elim (Bool-cases (str_eq j k)) [
  | inl same ↦
      let q = (eq_iff j k).0 same in
      let gone : has k rows ≡ false = rw (← q) fresh in
      ground
        (arith, lookup-restore_absent k rows (insert j r.state m) gone, lookup-insert j k r.state m)
  | inr other ↦ lookup-restore k row rows (insert j r.state m) u (ground arith)
]

has-of_build_le :
    (build k : String) (rows : Rows)
    → has k rows ≡ false
    → has k (of_build (λ r. r.build_id) build rows) ≡ false
unfolding of_build has
has-of_build_le build k [] e = refl
has-of_build_le build k ((j, r) ∷ rows) e = ground (arith, has-of_build_le build k rows)

of_build-IsUnique :
    (build : String) (rows : Rows)
    → IsUnique rows
    → IsUnique (of_build (λ r. r.build_id) build rows)
unfolding of_build
of_build-IsUnique build [] _ = tt
of_build-IsUnique build ((j, r) ∷ rows) (fresh, u) =
    ground (arith, has-of_build_le build j rows fresh, of_build-IsUnique build rows u)

lookup-of_build :
    (build k : String) (row : FailedRow) (rows : Rows)
    → lookup k rows ≡ some row
    → row.build_id ≡ build
    → lookup k (of_build (λ r. r.build_id) build rows) ≡ some row
unfolding of_build lookup
lookup-of_build build k row [] e b = cc
lookup-of_build build k row ((j, r) ∷ rows) e b =
    ground (arith, eq_refl build, lookup-of_build build k row rows)

module _ (cfg : Config) where
  -- After an eviction the object holds the failed state that its table holds under the id, if the row
  -- is of the running build.
  pub lookup-restart :
      (now : ℕ) (h : Handler) (k : String) (row : FailedRow)
      → cfg.disable_sqlite ≡ false
      → IsUnique h.failed_state_table
      → lookup k h.failed_state_table ≡ some row
      → row.build_id ≡ cfg.build_id
      → lookup k (restart cfg now h).route_in_failed_state ≡ some row.state
  unfolding restart init_state add_alarm
  lookup-restart now h k row on u e b = rw on (
      lookup-restore k row _ [] (of_build-IsUnique cfg.build_id h.failed_state_table u)
        (lookup-of_build cfg.build_id k row h.failed_state_table e b))

  -- A failure that was stored survives an eviction: the restored state is the stored one.
  pub restart-add_to_failed_state :
      (now later : ℕ) (msg : QueueMessage) (h : Handler) (f : FailedState)
      → cfg.disable_sqlite ≡ false
      → IsUnique h.failed_state_table
      → next_failed_state cfg now msg (lookup msg.message_deduplication_id h.route_in_failed_state)
        ≡ some f
      → lookup msg.message_deduplication_id
          (restart cfg later (add_to_failed_state cfg now msg h)).route_in_failed_state
        ≡ some f
  unfolding add_to_failed_state store_failed_state add_alarm
  restart-add_to_failed_state now later msg h f on u e =
      let id = msg.message_deduplication_id in
      let row : FailedRow = record { state = f; build_id = cfg.build_id } in
      rw (e, add_to_failed_state)
        (lookup-restart later _ id row on (rw on (insert-IsUnique id row h.failed_state_table u))
          (rw (on, lookup-insert id id row h.failed_state_table, eq_refl id)) refl)

  success_table :
      (now : ℕ) (msg : QueueMessage) (reply : Reply) (h : Handler)
      → verdict reply ≡ done
      → (execute_revalidation cfg now msg reply h).failed_state_table ≡ h.failed_state_table
  unfolding execute_revalidation try_block catch_block forget record_success is_open_next_error
      verdict
  success_table now msg rejected h e = cc
  success_table now msg (response status cache) h e = ground arith

  -- A success takes the route out of the map and not out of the table: if the table has a row of the
  -- running build for it, the next eviction puts the route back into the failed state.
  pub restart-success :
      (now later : ℕ) (msg : QueueMessage) (reply : Reply) (h : Handler) (row : FailedRow)
      → cfg.disable_sqlite ≡ false
      → IsUnique h.failed_state_table
      → lookup msg.message_deduplication_id h.failed_state_table ≡ some row
      → row.build_id ≡ cfg.build_id
      → verdict reply ≡ done
      → lookup msg.message_deduplication_id
          (restart cfg later (execute_revalidation cfg now msg reply h)).route_in_failed_state
        ≡ some row.state
  restart-success now later msg reply h row on u e b ok =
      lookup-restart later _ msg.message_deduplication_id row on
        (rw (success_table now msg reply h ok) u) (rw (success_table now msg reply h ok) e) b
