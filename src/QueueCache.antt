-- ===== src/QueueCache.antt =====
-- packages/cloudflare/src/api/overrides/queue/queue-cache.ts: a cache in front of a queue, which
-- drops the messages that were sent within its time to live.
pub mod Sending
mod Tests
use Prim.Native.String
use adapters_api.Common.{
  ℕ, suc, ◌+◌, ◌*◌, String, Bool, true, false, Option, none, some, List, [], ◌∷◌, ◌++◌, ltb,
  if◌then◌else◌,
}
use adapters_api.Common.Assoc.{lookup, insert, remove}
use adapters_api.Message.{QueueMessage}

-- `QueueCachingOptions`, with the defaults of the constructor applied
pub record Options : Type 0 where
  pub regional_cache_ttl_sec : ℕ
  pub wait_for_queue_ack : Bool

-- The Cache API: `match` and `put` under a key with a `max-age`; `none` where the call rejects. The
-- time of a call is an argument, since an entry expires.
pub record CacheApi : Type 1 where
  pub Store : Type 0
  pub match : Store → ℕ → String → Option Bool
  pub put : Store → ℕ → String → ℕ → Option Store

module _ (api : CacheApi) (opts : Options) where
  open api use {Store}

  -- The local cache, the regional cache, and the messages that `originalQueue.send` was called with.
  pub record Queue : Type 0 where
    pub local_cache : List (String × ℕ)
    pub regional : Store
    pub sent : List QueueMessage

  -- `getCacheUrlString`
  abbrev pub cache_url_string : QueueMessage → String
  cache_url_string msg =
      String.◌++◌ "queue/"
        (String.◌++◌ msg.message_group_id (String.◌++◌ "/" msg.message_deduplication_id))

  -- `getCacheKey`
  abbrev pub cache_key : QueueMessage → String
  cache_key msg = String.◌++◌ "http://local.cache" (cache_url_string msg)

  abbrev pub ttl_ms : ℕ
  ttl_ms = opts.regional_cache_ttl_sec * 1000

  -- `putToCache`: the new state, and whether it ends without throwing
  unfoldable pub put_to_cache : ℕ → QueueMessage → Queue → Queue × Bool
  put_to_cache now msg q =
      let q' : Queue = record q { local_cache = insert (cache_url_string msg) now q.local_cache } in
      elim (api.put q.regional now (cache_key msg) opts.regional_cache_ttl_sec) [
        | none ↦ (q', false)
        | some store ↦ (record q' { regional = store }, true)
      ]

  -- `originalQueue.send`, which is given to succeed or not
  unfoldable pub send_to_queue : Bool → QueueMessage → Queue → Queue × Bool
  send_to_queue succeeds msg q = (record q { sent = q.sent ++ msg ∷ [] }, succeeds)

  -- `isInCache`: the new state, and `none` where it throws; `Date.now() - insertedAt < ttl` is written
  -- without the difference
  unfoldable pub is_in_cache : ℕ → QueueMessage → Queue → Queue × Option Bool
  is_in_cache now msg q = elim (lookup (cache_url_string msg) q.local_cache) [
    | none ↦ (q, api.match q.regional now (cache_key msg))
    | some inserted_at ↦
        if ltb now (inserted_at + ttl_ms)
        then (q, some true)
        else (record q { local_cache = remove (cache_url_string msg) q.local_cache }, some false)
  ]

  -- `clearLocalCache`; `insertAtSec < Date.now() - ttl` is written without the difference
  unfoldable pub fresh_entries : ℕ → List (String × ℕ) → List (String × ℕ)
  fresh_entries now [] = []
  fresh_entries now ((k, at) ∷ m) =
      if ltb (at + ttl_ms) now then fresh_entries now m else (k, at) ∷ fresh_entries now m

  unfoldable pub clear_local_cache : ℕ → Queue → Queue
  clear_local_cache now q = record q { local_cache = fresh_entries now q.local_cache }

  -- a step that is made if the one before it did not throw
  abbrev pub then_step : (Queue → Queue × Bool) → Queue × Bool → Queue × Bool
  then_step f (q, true) = f q
  then_step f (q, false) = (q, false)

  -- the body of the `try` block past `isInCache`
  unfoldable pub put_and_send : ℕ → Bool → QueueMessage → Queue → Queue × Bool
  put_and_send now succeeds msg q =
      if opts.wait_for_queue_ack
      then then_step (put_to_cache now msg) (send_to_queue succeeds msg q)
      else then_step (send_to_queue succeeds msg) (put_to_cache now msg q)

  -- the `try` block of `send`; what it throws is logged
  unfoldable pub try_send : ℕ → Bool → QueueMessage → Queue → Queue
  try_send now succeeds msg q =
      let (q', cached) = is_in_cache now msg q in
      elim cached [ none ↦ q' | some true ↦ q' | some false ↦ (put_and_send now succeeds msg q').0 ]

  -- `send`, at one time. The call runs on its own: another call may begin in its awaits, which is left out
  -- here.
  unfoldable pub send : ℕ → Bool → QueueMessage → Queue → Queue
  send now succeeds msg q = clear_local_cache now (try_send now succeeds msg q)
