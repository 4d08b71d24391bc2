-- ===== src/MemoryQueue.antt =====
-- packages/cloudflare/src/api/overrides/queue/memory-queue.ts: the queue of one isolate.
pub mod Pending
mod Tests
use Prim.Native.String
use adapters_api.Common.{
  ℕ, String, Bool, true, false, Option, none, some, List, [], ◌∷◌, ◌++◌, ◌≡◌, if◌then◌else◌,
}
use adapters_api.Common.Assoc.{has, insert, remove}
use adapters_api.Message.{QueueMessage}

-- The set `revalidatedPaths`, and the calls of `send` that wait for their fetch.
pub record Queue : Type 0 where
  pub revalidated_paths : List (String × Unit {0})
  pub pending : List QueueMessage

-- The start of `send`: an exception, a return, or a fetch that is sent.
pub data Started : Type 0 where
  no_service : Started
  duplicate : Started
  fetching : Queue → Started

-- `send` up to the fetch, given whether the service is bound
unfoldable pub send : Bool → QueueMessage → Queue → Started
send has_service msg q =
    let id = msg.message_deduplication_id in
    if has_service
    then if has id q.revalidated_paths
      then duplicate
      else fetching (record {
        revalidated_paths = insert id tt q.revalidated_paths;
        pending = msg ∷ q.pending;
      })
    else no_service

-- the state after the start
unfoldable pub after_start : Queue → Started → Queue
after_start q (fetching sent) = sent
after_start q _ = q

-- The `finally` block, which runs whatever the fetch ends with; the call is no longer pending.
unfoldable pub finish : QueueMessage → List QueueMessage → Queue → Queue
finish msg left q = record {
  revalidated_paths = remove msg.message_deduplication_id q.revalidated_paths;
  pending = left;
}

-- The step relation: a message comes in, or some pending fetch ends.
pub data Step (q : Queue) : Queue → Type 0 where
  receive :
      (has_service : Bool) (msg : QueueMessage) → Step q (after_start q (send has_service msg q))
  settle :
      (before after : List QueueMessage) (msg : QueueMessage)
      → q.pending ≡ before ++ msg ∷ after
      → Step q (finish msg (before ++ after) q)

-- What a new queue reaches.
pub data Reachable : Queue → Type 0 where
  created : Reachable (record { revalidated_paths = []; pending = [] })
  step : {q r : Queue} → Reachable q → Step q r → Reachable r
