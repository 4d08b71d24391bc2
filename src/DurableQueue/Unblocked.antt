-- ===== src/DurableQueue/Unblocked.antt =====
-- packages/cloudflare/src/api/durable-objects/queue.ts: a call that is blocked in the capacity loop of
-- `revalidate`, and the fetches that it waits for.
use mathlib.Core.Path.{subst}
use adapters_api.Common.{
  ℕ, suc, ◌≤◌, ◌<◌, ◌≡◌, refl, arith, true, false, List, [], ◌∷◌, ◌++◌, String, length, All, str_eq,
  eq_iff, any-split,
}
use adapters_api.Common.Assoc.{remove, length-remove-le}
use adapters_api.Message.{QueueMessage}
use adapters_api.DurableQueue.{Config, Reply, execute_revalidation}
use adapters_api.DurableQueue.System.{
  System, is_full, start, wait_or_start, Step, wake, settle, Reachable,
}
use adapters_api.DurableQueue.Reachable.{
  is_awaited, execute_revalidation_ongoing, Reachable-IsValid,
}

module _ (cfg : Config) where
  -- the state after the fetch of a message has ended
  abbrev pub ended :
      (before after : List QueueMessage) (msg : QueueMessage) (now : ℕ) (reply : Reply)
      → System
      → System
  ended before after msg now reply s = record s {
    handler = execute_revalidation cfg now msg reply s.handler;
    in_flight = before ++ after;
  }

  -- the one fetch whose end makes room
  abbrev Frees : System → QueueMessage → Type 0
  Frees s msg =
      (now : ℕ) (reply : Reply)
      → is_full cfg (execute_revalidation cfg now msg reply s.handler) ≡ false

  room :
      (asked id : String) (first : QueueMessage) (rest : List (String × QueueMessage))
      → str_eq asked id ≡ true
      → length (remove asked ((id, first) ∷ rest)) ≤ length rest
  unfolding remove
  room asked id first rest same =
      ground (arith, eq_iff asked id, eq_iff id asked, length-remove-le asked rest)

  makes_room :
      (id : String) (first : QueueMessage) (rest : List (String × QueueMessage))
      (msg : QueueMessage) (s : System)
      → s.handler.ongoing_revalidations ≡ (id, first) ∷ rest
      → suc (length rest) ≤ cfg.max_revalidations
      → str_eq msg.message_deduplication_id id ≡ true
      → Frees s msg
  unfolding is_full
  makes_room id first rest msg s e bounded same now reply =
      rw (execute_revalidation_ongoing cfg now msg reply s.handler, e)
        (ground (arith, room msg.message_deduplication_id id first rest same))

  -- A fetch is in flight such that, however it ends, a blocked call starts its own fetch when it looks
  -- again right after that end. The lists are the calls that wait with it.
  abbrev pub IsUnblockable : (earlier later : List QueueMessage) → QueueMessage → System → Type 0
  IsUnblockable earlier later blocked s =
      (before after : List QueueMessage) × (msg : QueueMessage) × (s.in_flight
        ≡ before ++ msg ∷ after)
      × ((now : ℕ) (reply : Reply)
          → Step cfg s (ended before after msg now reply s)
            × Step cfg (ended before after msg now reply s) (
                start blocked
                  (record (ended before after msg now reply s) { waiting = earlier ++ later })))

  module _ (s : System) (earlier later : List QueueMessage) (blocked : QueueMessage) where
    goes_on :
        (t : System)
        → t.waiting ≡ earlier ++ blocked ∷ later
        → is_full cfg t.handler ≡ false
        → Step cfg t (start blocked (record t { waiting = earlier ++ later }))
    unfolding wait_or_start
    goes_on t w free =
        let after = record t { waiting = earlier ++ later } in
        let started : wait_or_start cfg blocked after ≡ start blocked after = rw free refl in
        subst (Step cfg t) started (wake earlier later blocked w)

    owner :
        s.waiting ≡ earlier ++ blocked ∷ later
        → (m : List (String × QueueMessage)) → s.handler.ongoing_revalidations ≡ m
        → All (λ (e : String × QueueMessage). is_awaited s.in_flight e.0 ≡ true) m
        → length m ≤ cfg.max_revalidations
        → 0 < length m
        → IsUnblockable earlier later blocked s
    owner w [] _ _ _ h = absurd (omega arith)
    owner w ((id, first) ∷ rest) e (p, _) bounded _ =
        let (before, after, msg, split, same) = any-split _ s.in_flight p in
        let free = makes_room id first rest msg s e bounded same in
        (
          before,
          after,
          msg,
          split,
          λ now reply. (
            settle before after msg now reply split,
            goes_on (ended before after msg now reply s) w (free now reply),
          ),
        )

  -- If a call is blocked in the capacity loop and the map is at its limit, which is positive, then a
  -- fetch is in flight such that, however it ends, the blocked call starts its own fetch when it looks
  -- again right after that end.
  pub Reachable-full :
      {s : System} (earlier later : List QueueMessage) (blocked : QueueMessage)
      → Reachable cfg s
      → 0 < cfg.max_revalidations
      → is_full cfg s.handler ≡ true
      → s.waiting ≡ earlier ++ blocked ∷ later
      → IsUnblockable earlier later blocked s
  unfolding is_full
  Reachable-full {s} earlier later blocked r pos full w =
      let v = Reachable-IsValid cfg r in
      owner s earlier later blocked w s.handler.ongoing_revalidations refl v.owned v.bounded
        (ground arith)
