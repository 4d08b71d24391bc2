-- ===== src/DurableQueue/System.antt =====
-- packages/cloudflare/src/api/durable-objects/queue.ts: `revalidate` and the interleavings of the
-- event loop. The code between two awaits of a fetch or of the capacity loop is one step.
use adapters_api.Common.{
  ℕ, ◌≡◌, Bool, ◌||◌, List, [], ◌∷◌, ◌++◌, none, leb, if◌then◌else◌, length, map,
}
use adapters_api.Common.Assoc.{has, insert}
use adapters_api.Message.{QueueMessage}
use adapters_api.DurableQueue.{
  Config, Handler, Reply, execute_revalidation, check_sync_table, events_to_retry, restart,
}

-- The object with the calls that are suspended: those in the capacity loop of `revalidate`, the
-- revalidations whose fetch is not answered, and the retries that `alarm` has left.
pub record System : Type 0 where
  pub handler : Handler
  pub waiting : List QueueMessage
  pub in_flight : List QueueMessage
  pub retrying : List QueueMessage

-- `this.ongoingRevalidations.size >= this.maxRevalidations`
unfoldable pub is_full : Config → Handler → Bool
is_full cfg h = leb cfg.max_revalidations (length h.ongoing_revalidations)

-- the end of `revalidate`: the fetch is sent and its promise stored
unfoldable pub start : QueueMessage → System → System
start msg s = record s {
  handler =
      let h = s.handler in
      record h {
        ongoing_revalidations = insert msg.message_deduplication_id msg h.ongoing_revalidations;
      };
  in_flight = msg ∷ s.in_flight;
}

-- the three early returns of `revalidate`
unfoldable pub is_skipped : Config → QueueMessage → Handler → Bool
is_skipped cfg msg h =
    has msg.message_deduplication_id h.ongoing_revalidations
    || (has msg.message_deduplication_id h.route_in_failed_state || check_sync_table cfg msg h)

-- the capacity loop: it waits, or goes on
unfoldable pub wait_or_start : Config → QueueMessage → System → System
wait_or_start cfg msg s =
    if is_full cfg s.handler then record s { waiting = msg ∷ s.waiting } else start msg s

-- `revalidate`
unfoldable pub revalidate : Config → QueueMessage → System → System
revalidate cfg msg s = if is_skipped cfg msg s.handler then s else wait_or_start cfg msg s

-- The step relation: the runtime chooses which suspended call goes on.
pub data Step (cfg : Config) (s : System) : System → Type 0 where
  -- a message comes in
  receive : (msg : QueueMessage) → Step cfg s (revalidate cfg msg s)
  -- a call in the capacity loop looks again
  wake :
      (before after : List QueueMessage) (msg : QueueMessage)
      → s.waiting ≡ before ++ msg ∷ after
      → Step cfg s (wait_or_start cfg msg (record s { waiting = before ++ after }))
  -- a fetch of `revalidate` ends
  settle :
      (before after : List QueueMessage) (msg : QueueMessage) (now : ℕ) (reply : Reply)
      → s.in_flight ≡ before ++ msg ∷ after
      → Step cfg s (record s {
        handler = execute_revalidation cfg now msg reply s.handler;
        in_flight = before ++ after;
      })
  -- the alarm fires: its list of events is made
  fire :
      (now : ℕ)
      → s.retrying ≡ []
      → Step cfg s (record s {
        handler = let h = s.handler in record h { stored_alarm = none };
        retrying = map (λ f. f.msg) (events_to_retry now s.handler);
      })
  -- the fetch of the first event that is left ends
  retry :
      (msg : QueueMessage) (rest : List QueueMessage) (now : ℕ) (reply : Reply)
      → s.retrying ≡ msg ∷ rest
      → Step cfg s
          (record s { handler = execute_revalidation cfg now msg reply s.handler; retrying = rest })
  -- the object is evicted, and created again on the next call
  evict :
      (now : ℕ)
      → Step cfg s (record {
        handler = restart cfg now s.handler;
        waiting = [];
        in_flight = [];
        retrying = [];
      })

-- What a fresh object reaches.
pub data Reachable (cfg : Config) : System → Type 0 where
  created :
      (now : ℕ)
      → Reachable cfg (record {
        handler = restart cfg now (record {
          ongoing_revalidations = [];
          route_in_failed_state = [];
          failed_state_table = [];
          sync_table = [];
          stored_alarm = none;
        });
        waiting = [];
        in_flight = [];
        retrying = [];
      })
  step : {s t : System} → Reachable cfg s → Step cfg s t → Reachable cfg t
