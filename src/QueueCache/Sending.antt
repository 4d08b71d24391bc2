-- ===== src/QueueCache/Sending.antt =====
-- packages/cloudflare/src/api/overrides/queue/queue-cache.ts: which messages reach the queue.
use adapters_api.Common.{
  ℕ, ◌+◌, ◌≤◌, ◌<◌, ◌≡◌, ◌≢◌, ◌∙◌, refl, arith, String, Bool, true, false, none, some, List, [],
  ◌∷◌, ◌++◌, ltb, eq_refl, All, Bool-cases, inl, inr,
}
use adapters_api.Common.Assoc.{lookup, insert, remove, lookup-insert, lookup-remove}
use adapters_api.Message.{QueueMessage}
use adapters_api.QueueCache.{
  Options, CacheApi, Queue, cache_url_string, cache_key, ttl_ms, put_to_cache, send_to_queue,
  is_in_cache, fresh_entries, clear_local_cache, put_and_send, try_send, send,
}

module _ (api : CacheApi) (opts : Options) where
  fresh_entries-All :
      (now : ℕ) (m : List (String × ℕ))
      → All (λ (e : String × ℕ). now ≤ e.1 + ttl_ms api opts) (fresh_entries api opts now m)
  unfolding fresh_entries
  fresh_entries-All now [] = tt
  fresh_entries-All now ((k, at) ∷ m) = elim (Bool-cases (ltb (at + ttl_ms api opts) now)) [
    | inl old ↦ rw old (fresh_entries-All now m)
    | inr new ↦ rw new (ground arith, fresh_entries-All now m)
  ]

  lookup-fresh_entries :
      (now at : ℕ) (k : String) (m : List (String × ℕ))
      → lookup k m ≡ some at
      → now ≤ at + ttl_ms api opts
      → lookup k (fresh_entries api opts now m) ≡ some at
  unfolding fresh_entries lookup
  lookup-fresh_entries now at k [] e h = cc
  lookup-fresh_entries now at k ((j, t) ∷ m) e h = ground (arith, lookup-fresh_entries now at k m)

  lookup-fresh_entries_absent :
      (now : ℕ) (k : String) (m : List (String × ℕ))
      → lookup k m ≡ none
      → lookup k (fresh_entries api opts now m) ≡ none
  unfolding fresh_entries lookup
  lookup-fresh_entries_absent now k [] e = refl
  lookup-fresh_entries_absent now k ((j, t) ∷ m) e =
      ground (arith, lookup-fresh_entries_absent now k m)

  -- After a call of `send`, whatever happened in it, no entry of the local cache is older than the
  -- time to live.
  send-clears :
      (now : ℕ) (ok : Bool) (msg : QueueMessage) (q : Queue api opts)
      → All
          (λ (e : String × ℕ). now ≤ e.1 + ttl_ms api opts)
          (send api opts now ok msg q).local_cache
  unfolding send clear_local_cache
  send-clears now ok msg q = fresh_entries-All now (try_send api opts now ok msg q).local_cache

  module _ (msg : QueueMessage) where
    abbrev pub id : String
    id = cache_url_string api opts msg

    -- A message that is found in neither cache, and whose send succeeds, reaches the queue once and
    -- is in the local cache, if the cache API takes it.
    sent_and_cached :
        (now : ℕ) (q : Queue api opts)
        → (is_in_cache api opts now msg q).1 ≡ some false
        → ((s : api.Store) (t : ℕ)
            → api.put s t (cache_key api opts msg) opts.regional_cache_ttl_sec ≢ none)
        → ((send api opts now true msg q).sent ≡ q.sent ++ msg ∷ [])
          × (lookup id (send api opts now true msg q).local_cache ≡ some now)
    unfolding send clear_local_cache try_send put_and_send put_to_cache send_to_queue is_in_cache
    sent_and_cached now q miss takes =
        let put = takes q.regional now in
        let m = insert id now q.local_cache in
        let m' = insert id now (remove id q.local_cache) in
        let kept = λ (l : List (String × ℕ)).
          lookup-fresh_entries now now id (insert id now l)
            (lookup-insert id id now l ∙ rw (eq_refl id)) (omega arith) in
        ground (arith, put, kept q.local_cache, kept (remove id q.local_cache))

    still_cached :
        (now at : ℕ) (ok : Bool) (q : Queue api opts)
        → lookup id q.local_cache ≡ some at
        → now < at + ttl_ms api opts
        → ((send api opts now ok msg q).sent ≡ q.sent)
          × (lookup id (send api opts now ok msg q).local_cache ≡ some at)
    unfolding send clear_local_cache try_send is_in_cache
    still_cached now at ok q e h =
        ground (arith, lookup-fresh_entries now at id q.local_cache e (omega arith))

    -- more calls for the message, each at its time and with the outcome of its send, one after the other
    abbrev pub resend : List (ℕ × Bool) → Queue api opts → Queue api opts
    resend [] q = q
    resend ((later, ok) ∷ calls) q = resend calls (send api opts later ok msg q)

    -- each of the calls is before the time to live is over
    abbrev pub AreSoon : ℕ → List (ℕ × Bool) → Type 0
    AreSoon at calls = All (λ (c : ℕ × Bool). c.0 < at + ttl_ms api opts) calls

    resend-sent :
        (at : ℕ) (calls : List (ℕ × Bool)) (q : Queue api opts)
        → lookup id q.local_cache ≡ some at
        → AreSoon at calls
        → (resend calls q).sent ≡ q.sent
    resend-sent at [] q e soon = refl
    resend-sent at ((later, ok) ∷ calls) q e (h, soon) =
        let (unsent, cached) = still_cached later at ok q e h in
        resend-sent at calls (send api opts later ok msg q) cached soon ∙ unsent

    -- If the calls come one after the other, each after the end of the one before, and the cache API
    -- takes every entry, a message that neither cache has, and whose send succeeds, reaches the queue
    -- exactly once: the later calls for it before the time to live is over send nothing.
    pub send-twice :
        (now : ℕ) (calls : List (ℕ × Bool)) (q : Queue api opts)
        → (is_in_cache api opts now msg q).1 ≡ some false
        → ((s : api.Store) (t : ℕ)
            → api.put s t (cache_key api opts msg) opts.regional_cache_ttl_sec ≢ none)
        → AreSoon now calls
        → (resend calls (send api opts now true msg q)).sent ≡ q.sent ++ msg ∷ []
    send-twice now calls q miss takes soon =
        let (once, cached) = sent_and_cached now q miss takes in
        resend-sent now calls (send api opts now true msg q) cached soon ∙ once

    -- If the acknowledgement is awaited, a message that the queue refuses leaves no trace: it is not
    -- in the local cache and the regional cache is unchanged, so that the next call tries again.
    send_refused :
        (now : ℕ) (q : Queue api opts)
        → opts.wait_for_queue_ack ≡ true
        → (is_in_cache api opts now msg q).1 ≡ some false
        → (lookup id (send api opts now false msg q).local_cache ≡ none)
          × ((send api opts now false msg q).regional ≡ q.regional)
          × ((send api opts now false msg q).sent ≡ q.sent ++ msg ∷ [])
    unfolding send clear_local_cache try_send put_and_send put_to_cache send_to_queue is_in_cache
    send_refused now q wait miss = ground (
      arith,
      lookup-fresh_entries_absent now id q.local_cache,
      lookup-fresh_entries_absent now id (remove id q.local_cache),
      lookup-remove id id q.local_cache,
      eq_refl id,
    )

    cached_unsent :
        (now : ℕ) (ok : Bool) (q : Queue api opts)
        → opts.wait_for_queue_ack ≡ false
        → (is_in_cache api opts now msg q).1 ≡ some false
        → api.put q.regional now (cache_key api opts msg) opts.regional_cache_ttl_sec ≡ none
        → ((send api opts now ok msg q).sent ≡ q.sent)
          × (lookup id (send api opts now ok msg q).local_cache ≡ some now)
    unfolding send clear_local_cache try_send put_and_send put_to_cache is_in_cache
    cached_unsent now ok q async miss refused =
        let kept = λ (l : List (String × ℕ)).
          lookup-fresh_entries now now id (insert id now l)
            (lookup-insert id id now l ∙ rw (eq_refl id)) (omega arith) in
        ground (arith, kept q.local_cache, kept (remove id q.local_cache))

    -- If the acknowledgement is not awaited, and the cache API refuses the entry of a message that
    -- neither cache has, the call does not reach the queue, and leaves the message in the local cache
    -- all the same: the later calls for it, one after the other, send nothing either before the time to
    -- live is over.
    pub send_lost :
        (now : ℕ) (ok : Bool) (calls : List (ℕ × Bool)) (q : Queue api opts)
        → opts.wait_for_queue_ack ≡ false
        → (is_in_cache api opts now msg q).1 ≡ some false
        → api.put q.regional now (cache_key api opts msg) opts.regional_cache_ttl_sec ≡ none
        → AreSoon now calls
        → ((send api opts now ok msg q).sent ≡ q.sent)
          × (lookup id (send api opts now ok msg q).local_cache ≡ some now)
          × ((resend calls (send api opts now ok msg q)).sent ≡ q.sent)
    send_lost now ok calls q async miss refused soon =
        let (unsent, cached) = cached_unsent now ok q async miss refused in
        (unsent, cached, resend-sent now calls (send api opts now ok msg q) cached soon ∙ unsent)
