-- ===== src/MemoryQueue/Pending.antt =====
-- packages/cloudflare/src/api/overrides/queue/memory-queue.ts: the set `revalidatedPaths` of ids and the
-- pending calls.
use adapters_api.Common.{
  ℕ, suc, ◌≡◌, refl, ap, ◌∙◌, arith, inl, inr, String, Bool, true, false, List, [], ◌∷◌, ◌++◌,
  str_eq, eq_iff, Bool-cases, if◌then◌else◌,
}
use adapters_api.Common.Assoc.{has, has-insert, has-remove_self, has-remove_ne}
use adapters_api.Message.{QueueMessage}
use adapters_api.MemoryQueue.{
  Queue, send, after_start, finish, Step, receive, settle, Reachable, created, step,
}

-- how many of the calls have the id
unfoldable pub count : String → List QueueMessage → ℕ
count id [] = 0
count id (msg ∷ msgs) =
    let rest = count id msgs in if str_eq msg.message_deduplication_id id then suc rest else rest

count-append_cons :
    (id : String) (before after : List QueueMessage) (msg : QueueMessage)
    → count id (before ++ msg ∷ after) ≡ (
        if str_eq msg.message_deduplication_id id
        then suc (count id (before ++ after))
        else count id (before ++ after))
unfolding count
count-append_cons id [] after msg = refl
count-append_cons id (m ∷ before) after msg = ground (arith, count-append_cons id before after msg)

abbrev IsCounted : Queue → Type 0
IsCounted q = (id : String) → count id q.pending ≡ (if has id q.revalidated_paths then 1 else 0)

receive-IsCounted :
    (has_service : Bool) (msg : QueueMessage) (q : Queue)
    → IsCounted q
    → IsCounted (after_start q (send has_service msg q))
unfolding send after_start count
receive-IsCounted false msg q h id = h id
receive-IsCounted true msg q h id =
    let own = msg.message_deduplication_id in
    elim (Bool-cases (has own q.revalidated_paths)) [
      | inl e ↦ rw e (h id)
      | inr e ↦
          rw e (
            ground (arith, h id, h own, e, eq_iff own id, has-insert own id tt q.revalidated_paths))
    ]

finish-IsCounted :
    (before after : List QueueMessage) (msg : QueueMessage) (q : Queue)
    → q.pending ≡ before ++ msg ∷ after
    → IsCounted q
    → IsCounted (finish msg (before ++ after) q)
unfolding finish
finish-IsCounted before after msg q p h id =
    let own = msg.message_deduplication_id in
    let split = ap (count id) p ∙ count-append_cons id before after msg in
    ground (
      arith,
      h id,
      split,
      eq_iff own id,
      has-remove_self own q.revalidated_paths,
      has-remove_ne own id q.revalidated_paths,
    )

Step-IsCounted : {q r : Queue} → Step q r → IsCounted q → IsCounted r
Step-IsCounted {q = q} (receive s msg) h = receive-IsCounted s msg q h
Step-IsCounted {q = q} (settle before after msg p) h = finish-IsCounted before after msg q p h

created-IsCounted : IsCounted (record { revalidated_paths = []; pending = [] })
unfolding count has
created-IsCounted id = refl

all-IsCounted : {q : Queue} → Reachable q → IsCounted q
all-IsCounted created = created-IsCounted
all-IsCounted (step r s) = Step-IsCounted s (all-IsCounted r)

-- In every state that the queue reaches, one call is pending for each id in `revalidatedPaths`, and
-- none for any other id: an id is not fetched twice at a time, and no id is left behind.
pub Reachable-IsCounted :
    (q : Queue) (id : String)
    → Reachable q
    → count id q.pending ≡ (if has id q.revalidated_paths then 1 else 0)
Reachable-IsCounted q id r = all-IsCounted r id
