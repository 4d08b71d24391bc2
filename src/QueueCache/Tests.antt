-- ===== src/QueueCache/Tests.antt =====
-- Runs of the queue cache, and the theorems at concrete inputs.
use adapters_api.Common.{
  ℕ, Bool, ◌≡◌, refl, arith, String, true, false, none, some, List, [], ◌∷◌, ◌++◌,
}
use adapters_api.Common.Assoc.{lookup, insert, remove, has}
use adapters_api.Message.{QueueMessage}
use adapters_api.QueueCache.{
  Options, CacheApi, Queue, put_to_cache, send_to_queue, is_in_cache, fresh_entries,
  clear_local_cache, put_and_send, try_send, send,
}
use adapters_api.QueueCache.Sending.{id, resend, send-twice, send_lost}

program : Unit {0}
unfolding lookup insert remove has put_to_cache send_to_queue is_in_cache fresh_entries
    clear_local_cache put_and_send try_send send
program = tt

-- a regional cache whose entries do not expire, and one that refuses every entry
abbrev keeps : CacheApi
keeps = record {
  Store = List (String × ℕ);
  match = λ s t k. some (has k s);
  put = λ s t k age. some (insert k age s);
}

abbrev refuses : CacheApi
refuses = record keeps { put = λ s t k age. none }

abbrev opts : Options
opts = record { regional_cache_ttl_sec = 5; wait_for_queue_ack = false }

abbrev acked : Options
acked = record opts { wait_for_queue_ack = true }

abbrev ask : QueueMessage
ask = record {
  message_deduplication_id = "d";
  message_body = record { host = "h"; url = "/a"; last_modified = 5000; e_tag = "" };
  message_group_id = "g";
}

abbrev empty : Queue keeps opts
empty = record { local_cache = []; regional = []; sent = [] }

abbrev empty_acked : Queue keeps acked
empty_acked = record { local_cache = []; regional = []; sent = [] }

abbrev empty_refuses : Queue refuses opts
empty_refuses = record { local_cache = []; regional = []; sent = [] }

stored : (send keeps opts 100 true ask empty).local_cache ≡ ("queue/g/d", 100) ∷ []
unfolding program
stored = refl

expired :
    (send keeps opts 9000 true ask
      (record (send keeps opts 100 true ask empty) { regional = [] })).sent
    ≡ ask ∷ ask ∷ []
unfolding program
expired = refl

abbrev twice_more : List (ℕ × Bool)
twice_more = (200, false) ∷ (5099, true) ∷ []

send-twice_example :
    (resend keeps opts ask twice_more (send keeps opts 100 true ask empty)).sent ≡ [] ++ ask ∷ []
unfolding program
send-twice_example =
    send-twice keeps opts ask 100 twice_more empty refl (λ s t e. cc)
      (omega arith, (omega arith, tt))

send_lost_example :
    ((send refuses opts 100 true ask empty_refuses).sent ≡ [])
    × (lookup (id refuses opts ask) (send refuses opts 100 true ask empty_refuses).local_cache
        ≡ some 100)
    × ((resend refuses opts ask twice_more (send refuses opts 100 true ask empty_refuses)).sent
        ≡ [])
unfolding program
send_lost_example =
    send_lost refuses opts ask 100 true twice_more empty_refuses refl refl refl
      (omega arith, (omega arith, tt))
