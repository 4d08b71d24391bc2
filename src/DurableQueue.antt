-- ===== src/DurableQueue.antt =====
-- packages/cloudflare/src/api/durable-objects/queue.ts: the durable object that revalidates ISR
-- routes, with its in-memory maps, its two SQL tables and its alarm.
pub mod System
pub mod Failures
pub mod Backoff
pub mod Retries
pub mod Reachable
pub mod Unblocked
pub mod Alarms
pub mod Restart
mod Tests
use adapters_api.Common.{
  ℕ, zero, suc, ◌+◌, ◌*◌, ◌/◌, ◌^◌, String, Bool, true, false, ◌&&◌, Option, none, some, List, [],
  ◌∷◌, map, min, ltb, leb, ◌==◌, str_eq, if◌then◌else◌, filter, head?,
}
use adapters_api.Common.Assoc.{lookup, insert, remove}
use adapters_api.Message.{QueueMessage, route_of}

-- `FailedState`
pub record FailedState : Type 0 where
  pub msg : QueueMessage
  pub retry_count : ℕ
  pub next_alarm_ms : ℕ

-- A row of the table `failed_state`: `data` is the JSON text of the state.
pub record FailedRow : Type 0 where
  pub state : FailedState
  pub build_id : String

-- A row of the table `sync`.
pub record SyncRow : Type 0 where
  pub last_success : ℕ
  pub build_id : String

-- The configurable parameters, and `process.env.__NEXT_BUILD_ID`.
pub record Config : Type 0 where
  pub max_revalidations : ℕ
  pub revalidation_retry_interval : ℕ
  pub max_retries : ℕ
  pub disable_sqlite : Bool
  pub build_id : String

-- The state of `DOQueueHandler`. A promise of `ongoingRevalidations` is named by its message, and
-- `stored_alarm` is what `ctx.storage` holds.
pub record Handler : Type 0 where
  pub ongoing_revalidations : List (String × QueueMessage)
  pub route_in_failed_state : List (String × FailedState)
  pub failed_state_table : List (String × FailedRow)
  pub sync_table : List (String × SyncRow)
  pub stored_alarm : Option ℕ

-- How the `fetch` of the service binding ends: it rejects, or answers with a status and the header
-- `x-nextjs-cache`.
pub data Reply : Type 0 where
  rejected : Reply
  response : (status : ℕ) (nextjs_cache : Option String) → Reply

-- What the `try` block of `executeRevalidation` throws.
pub data Thrown : Type 0 where
  fatal ignorable recoverable other : Thrown

-- `isOpenNextError`
pub is_open_next_error : Thrown → Bool
is_open_next_error other = false
is_open_next_error _ = true

-- `headers.get("x-nextjs-cache") === "REVALIDATED"`
pub is_revalidated : Option String → Bool
is_revalidated none = false
is_revalidated (some value) = str_eq value "REVALIDATED"

-- `Math.min` of the alarm times, started at the first.
pub earliest : ℕ → List (String × FailedState) → ℕ
earliest t [] = t
earliest t ((_, f) ∷ m) = earliest (min t f.next_alarm_ms) m

-- `if (existingAlarm)`: null and 0 are falsy
abbrev pub is_truthy : Option ℕ → Bool
is_truthy none = false
is_truthy (some zero) = false
is_truthy (some (suc _)) = true

-- the alarm time that `addAlarm` sets
pub alarm_time : Config → ℕ → ℕ → ℕ
alarm_time cfg now t = if ltb t now then now + cfg.revalidation_retry_interval else t

-- the body of `addAlarm` past its first guard
abbrev pub set_alarm : Config → ℕ → List (String × FailedState) → Option ℕ → Option ℕ
set_alarm cfg now [] old = old
set_alarm cfg now ((_, f) ∷ m) old = some (alarm_time cfg now (earliest f.next_alarm_ms m))

-- `addAlarm`
pub add_alarm : Config → ℕ → Handler → Handler
add_alarm cfg now h = record h {
  stored_alarm =
      if is_truthy h.stored_alarm
      then h.stored_alarm
      else set_alarm cfg now h.route_in_failed_state h.stored_alarm;
}

-- the state that `addToFailedState` stores, or `none` where it gives up
pub next_failed_state : Config → ℕ → QueueMessage → Option FailedState → Option FailedState
next_failed_state cfg now msg none =
    some (record { msg = msg; retry_count = 1; next_alarm_ms = now + 2000 })
next_failed_state cfg now msg (some f) =
    if leb cfg.max_retries f.retry_count
    then none
    else some (record f {
      retry_count = f.retry_count + 1;
      next_alarm_ms = now + 2 ^ (f.retry_count + 1) * cfg.revalidation_retry_interval;
    })

-- `routeInFailedState.set`, and the row that goes with it
pub store_failed_state : Config → String → FailedState → Handler → Handler
store_failed_state cfg id f h = record h {
  route_in_failed_state = insert id f h.route_in_failed_state;
  failed_state_table =
      if cfg.disable_sqlite
      then h.failed_state_table
      else insert id (record { state = f; build_id = cfg.build_id }) h.failed_state_table;
}

-- `routeInFailedState.delete`
pub forget : String → Handler → Handler
forget id h = record h { route_in_failed_state = remove id h.route_in_failed_state }

-- `addToFailedState`
pub add_to_failed_state : Config → ℕ → QueueMessage → Handler → Handler
add_to_failed_state cfg now msg h =
    let id = msg.message_deduplication_id in
    elim (next_failed_state cfg now msg (lookup id h.route_in_failed_state)) [
      | none ↦ forget id h
      | some f ↦ add_alarm cfg now (store_failed_state cfg id f h)
    ]

-- `INSERT OR REPLACE INTO sync`, with `unixepoch()`
pub record_success : Config → ℕ → QueueMessage → Handler → Handler
record_success cfg now msg h = record h {
  sync_table =
      if cfg.disable_sqlite
      then h.sync_table
      else insert (route_of msg) (record { last_success = now / 1000; build_id = cfg.build_id })
          h.sync_table;
}

-- the `try` block of `executeRevalidation`, from the answer of the fetch on
pub try_block : Config → ℕ → QueueMessage → Reply → Handler → Handler × Option Thrown
try_block cfg now msg rejected h = (h, some other)
try_block cfg now msg (response status cache) h =
    let id = msg.message_deduplication_id in
    if status == 200 && (if is_revalidated cache then false else true)
    then (forget id h, some fatal)
    else if status == 404
    then (forget id h, some ignorable)
    else if status == 500
    then (add_to_failed_state cfg now msg h, some ignorable)
    else if status == 200
    then (forget id (record_success cfg now msg h), none)
    else (add_to_failed_state cfg now msg h, some recoverable)

-- the `catch` block
pub catch_block : Config → ℕ → QueueMessage → Option Thrown → Handler → Handler
catch_block cfg now msg none h = h
catch_block cfg now msg (some e) h =
    if is_open_next_error e then h else add_to_failed_state cfg now msg h

-- `executeRevalidation`, from the answer of the fetch to the `finally` block
pub execute_revalidation : Config → ℕ → QueueMessage → Reply → Handler → Handler
execute_revalidation cfg now msg reply h =
    let (tried, thrown) = try_block cfg now msg reply h in
    let caught = catch_block cfg now msg thrown tried in
    record caught {
      ongoing_revalidations = remove msg.message_deduplication_id caught.ongoing_revalidations;
    }

-- the `sort` of `alarm`, by insertion: stable, by `nextAlarmMs`
pub insert_by_alarm : FailedState → List FailedState → List FailedState
insert_by_alarm f [] = f ∷ []
insert_by_alarm f (g ∷ gs) =
    if leb f.next_alarm_ms g.next_alarm_ms then f ∷ g ∷ gs else g ∷ insert_by_alarm f gs

pub sort_by_alarm : List FailedState → List FailedState
sort_by_alarm [] = []
sort_by_alarm (f ∷ fs) = insert_by_alarm f (sort_by_alarm fs)

abbrev pub values {ℓ} : {V : Type ℓ} → List (String × V) → List V
values = map (λ e. e.1)

-- `allEventsToRetry` of `alarm`
pub events_to_retry : ℕ → Handler → List FailedState
events_to_retry now h =
    let failed = values h.route_in_failed_state in
    let expired = filter (λ f. leb f.next_alarm_ms now) failed in
    elim (head? (sort_by_alarm (filter (λ f. ltb now f.next_alarm_ms) failed))) [
      | none ↦ expired
      | some next ↦ next ∷ expired
    ]

-- the loop of `alarm`: `fetch` gives the answer to each retry and the time at which it comes
pub retry_all : Config → (QueueMessage → ℕ × Reply) → List FailedState → Handler → Handler
retry_all cfg fetch [] h = h
retry_all cfg fetch (f ∷ fs) h =
    let (now, reply) = fetch f.msg in
    retry_all cfg fetch fs (execute_revalidation cfg now f.msg reply h)

-- `alarm`; the runtime clears the stored alarm as it runs the handler. The run is on its own here: what
-- comes in while a retry is awaited is in the step relation of System.antt.
pub alarm : Config → ℕ → (QueueMessage → ℕ × Reply) → Handler → Handler
alarm cfg now fetch h =
    retry_all cfg fetch (events_to_retry now h) (record h { stored_alarm = none })

-- `SELECT 1 FROM sync WHERE id = ? AND lastSuccess > ?`, with `Math.round`
pub synced_after : String → ℕ → List (String × SyncRow) → Bool
synced_after id time table = elim (lookup id table) [
  | none ↦ false
  | some row ↦ ltb time row.last_success
]

-- `checkSyncTable`
pub check_sync_table : Config → QueueMessage → Handler → Bool
check_sync_table cfg msg h =
    if cfg.disable_sqlite
    then false
    else synced_after (route_of msg) ((msg.message_body.last_modified + 500) / 1000) h.sync_table

-- `DELETE FROM … WHERE buildId != ?`
pub of_build {ℓ} : {V : Type ℓ} → (V → String) → String → List (String × V) → List (String × V)
of_build build_of id = filter (λ e. str_eq (build_of e.1) id)

-- the loop of `initState` over the rows of `failed_state`
pub restore : List (String × FailedRow) → List (String × FailedState) → List (String × FailedState)
restore [] failed = failed
restore ((id, row) ∷ rows) failed = restore rows (insert id row.state failed)

-- `initState`
pub init_state : Config → ℕ → Handler → Handler
init_state cfg now h =
    if cfg.disable_sqlite
    then h
    else (let rows = of_build (λ r. r.build_id) cfg.build_id h.failed_state_table in
        add_alarm cfg now (record h {
          failed_state_table = rows;
          sync_table = of_build (λ r. r.build_id) cfg.build_id h.sync_table;
          route_in_failed_state = restore rows h.route_in_failed_state;
        }))

-- The object is evicted and created again: the two maps are empty, the storage stays.
pub restart : Config → ℕ → Handler → Handler
restart cfg now h =
    init_state cfg now (record h { ongoing_revalidations = []; route_in_failed_state = [] })
