-- ===== src/MemoryQueue/Tests.antt =====
-- Runs of the in-memory queue, and the theorem at a concrete state.
use adapters_api.Common.{◌≡◌, refl, true, [], ◌∷◌, if◌then◌else◌}
use adapters_api.Common.Assoc.{has, insert, remove}
use adapters_api.Message.{QueueMessage}
use adapters_api.MemoryQueue.{Queue, duplicate, send, after_start, finish, created, step, receive}
use adapters_api.MemoryQueue.Pending.{count, Reachable-IsCounted}

program : Unit {0}
unfolding has insert remove send after_start finish count
program = tt

abbrev ask : QueueMessage
ask = record {
  message_deduplication_id = "d";
  message_body = record { host = "h"; url = "/a"; last_modified = 5000; e_tag = "" };
  message_group_id = "g";
}

abbrev empty : Queue
empty = record { revalidated_paths = []; pending = [] }

abbrev asked : Queue
asked = after_start empty (send true ask empty)

-- the second message is dropped, until the first is done
dropped :
    (send true ask asked ≡ duplicate) × (asked.pending ≡ ask ∷ []) × (finish ask [] asked ≡ empty)
unfolding program
dropped = (refl, refl, refl)

Reachable-IsCounted_example :
    count "d" asked.pending ≡ (if has "d" asked.revalidated_paths then 1 else 0)
Reachable-IsCounted_example = Reachable-IsCounted asked "d" (step created (receive true ask))
