-- ===== src/DurableQueue/Alarms.antt =====
-- packages/cloudflare/src/api/durable-objects/queue.ts: which routes `alarm` tries again, and which
-- it leaves behind.
use mathlib.Core.List.{Memᴰ}
use adapters_api.Common.{
  ℕ, ◌≤◌, ◌≡◌, ◌≢◌, ◌∙◌, refl, sym, ap, arith, Bool, true, none, some, List, [], ◌∷◌, String, inl,
  inr, Bool-cases, Option-cases, leb, ltb, filter, All, head?, str_eq, eq_iff,
}
use adapters_api.Common.Assoc.{lookup, has-eq_lookup}
use adapters_api.Message.{QueueMessage}
use adapters_api.DurableQueue.{
  Config, Handler, FailedState, Reply, rejected, response, record_success, forget,
  is_open_next_error, try_block, catch_block, execute_revalidation, values, sort_by_alarm,
  events_to_retry, retry_all, alarm,
}
use adapters_api.DurableQueue.System.{is_skipped}
use adapters_api.DurableQueue.Failures.{
  done, verdict, kept, execute_revalidation-verdict, execute_revalidation-ne,
}

Memᴰ-filter :
    (p : FailedState → Bool) (f : FailedState) (fs : List FailedState)
    → Memᴰ f fs
    → p f ≡ true
    → Memᴰ f (filter p fs)
Memᴰ-filter p f [] m t = elim m [ ]
Memᴰ-filter p f (g ∷ fs) (Memᴰ.head e) t = rw (ap p (sym e) ∙ t) (Memᴰ.head e)
Memᴰ-filter p f (g ∷ fs) (Memᴰ.tail m) t = elim (Bool-cases (p g)) [
  | inl keep ↦ rw keep (Memᴰ.tail (Memᴰ-filter p f fs m t))
  | inr drop ↦ rw drop (Memᴰ-filter p f fs m t)
]

Memᴰ-values :
    (k : String) (f : FailedState) (m : List (String × FailedState))
    → lookup k m ≡ some f
    → Memᴰ f (values m)
unfolding lookup
Memᴰ-values k f [] e = cc
Memᴰ-values k f ((j, g) ∷ m) e = elim (Bool-cases (str_eq j k)) [
  | inl same ↦ Memᴰ.head (ground arith)
  | inr other ↦ Memᴰ.tail (Memᴰ-values k f m (ground arith))
]

-- An expired route is among the events that `alarm` retries.
pub Memᴰ-events_to_retry :
    (now : ℕ) (h : Handler) (k : String) (f : FailedState)
    → lookup k h.route_in_failed_state ≡ some f
    → f.next_alarm_ms ≤ now
    → Memᴰ f (events_to_retry now h)
unfolding events_to_retry
Memᴰ-events_to_retry now h k f e due =
    let failed = values h.route_in_failed_state in
    let expired =
      Memᴰ-filter (λ g. leb g.next_alarm_ms now) f failed (Memᴰ-values k f _ e) (ground arith) in
    elim (Option-cases (head? (sort_by_alarm (filter (λ g. ltb now g.next_alarm_ms) failed)))) [
      | inl nothing ↦ rw (nothing, events_to_retry) expired
      | inr (next, found) ↦ rw (found, events_to_retry) (Memᴰ.tail expired)
    ]

module _ (cfg : Config) where
  success_alarm :
      (now : ℕ) (msg : QueueMessage) (reply : Reply) (h : Handler)
      → verdict reply ≡ done
      → (execute_revalidation cfg now msg reply h).stored_alarm ≡ h.stored_alarm
  unfolding execute_revalidation try_block catch_block forget record_success is_open_next_error
      verdict
  success_alarm now msg rejected h e = cc
  success_alarm now msg (response status cache) h e = ground arith

  module _ (fetch : QueueMessage → ℕ × Reply) (k : String) where
    abbrev Succeeds : Type 0
    Succeeds =
        (msg : QueueMessage) → msg.message_deduplication_id ≡ k → verdict (fetch msg).1 ≡ done

    success_lookup :
        (msg : QueueMessage) (h : Handler)
        → verdict (fetch msg).1 ≡ done
        → lookup msg.message_deduplication_id
            (execute_revalidation cfg (fetch msg).0 msg (fetch msg).1 h).route_in_failed_state
          ≡ none
    unfolding kept
    success_lookup msg h e =
        ground (arith, execute_revalidation-verdict cfg (fetch msg).0 msg (fetch msg).1 h)

    stays_out :
        (f : FailedState) (h : Handler)
        → Succeeds
        → lookup k h.route_in_failed_state ≡ none
        → lookup k
            (execute_revalidation cfg (fetch f.msg).0 f.msg (fetch f.msg).1 h).route_in_failed_state
          ≡ none
    stays_out f h ok e = elim (Bool-cases (str_eq f.msg.message_deduplication_id k)) [
      | inl same ↦
          let q = (eq_iff f.msg.message_deduplication_id k).0 same in
          rw (← q) (success_lookup f.msg h (ok f.msg q))
      | inr other ↦
          (execute_revalidation-ne cfg (fetch f.msg).0 f.msg (fetch f.msg).1 h k
            (λ q. ground (arith, eq_iff f.msg.message_deduplication_id k))).1
          ∙ e
    ]

    retry_all_out :
        (fs : List FailedState) (h : Handler)
        → Succeeds
        → lookup k h.route_in_failed_state ≡ none
        → lookup k (retry_all cfg fetch fs h).route_in_failed_state ≡ none
    unfolding retry_all
    retry_all_out [] h ok e = e
    retry_all_out (f ∷ fs) h ok e = retry_all_out fs _ ok (stays_out f h ok e)

    retry_all-Memᴰ :
        (f : FailedState) (fs : List FailedState) (h : Handler)
        → Succeeds
        → f.msg.message_deduplication_id ≡ k
        → Memᴰ f fs
        → lookup k (retry_all cfg fetch fs h).route_in_failed_state ≡ none
    unfolding retry_all
    retry_all-Memᴰ f [] h ok e m = elim m [ ]
    retry_all-Memᴰ f (g ∷ fs) h ok e (Memᴰ.head q) =
        let e' = ap (λ (x : FailedState). x.msg.message_deduplication_id) (sym q) ∙ e in
        retry_all_out fs _ ok (rw (← e') (success_lookup g.msg h (ok g.msg e')))
    retry_all-Memᴰ f (g ∷ fs) h ok e (Memᴰ.tail m) = retry_all-Memᴰ f fs _ ok e m

    -- An expired route leaves the failed state in the run of `alarm`, if its retry succeeds,
    -- whatever the other retries do.
    pub alarm_expired :
        (now : ℕ) (h : Handler) (f : FailedState)
        → lookup k h.route_in_failed_state ≡ some f
        → f.msg.message_deduplication_id ≡ k
        → f.next_alarm_ms ≤ now
        → Succeeds
        → lookup k (alarm cfg now fetch h).route_in_failed_state ≡ none
    unfolding alarm
    alarm_expired now h f e own due ok =
        retry_all-Memᴰ f _ _ ok own (Memᴰ-events_to_retry now h k f e due)

    retry_all_strands :
        (fs : List FailedState) (h : Handler) (f : FailedState)
        → lookup k h.route_in_failed_state ≡ some f
        → h.stored_alarm ≡ none
        → All (λ (g : FailedState). g.msg.message_deduplication_id ≢ k) fs
        → All (λ (g : FailedState). verdict (fetch g.msg).1 ≡ done) fs
        → (lookup k (retry_all cfg fetch fs h).route_in_failed_state ≡ some f)
          × ((retry_all cfg fetch fs h).stored_alarm ≡ none)
    unfolding retry_all
    retry_all_strands [] h f e a _ _ = (e, a)
    retry_all_strands (g ∷ fs) h f e a (d, ds) (ok, oks) =
        let (now, reply) = fetch g.msg in
        retry_all_strands fs (execute_revalidation cfg now g.msg reply h) f
          ((execute_revalidation-ne cfg now g.msg reply h k d).1 ∙ e)
          (success_alarm now g.msg reply h ok ∙ a) ds oks

    -- If every retry of a run of `alarm` succeeds, no alarm is set when it ends, and a route in the
    -- failed state that was not among its events stays there: a message for it is still skipped, and
    -- nothing is scheduled that would try it again.
    pub alarm_strands :
        (now : ℕ) (h : Handler) (f : FailedState) (msg : QueueMessage)
        → lookup k h.route_in_failed_state ≡ some f
        → All (λ (g : FailedState). g.msg.message_deduplication_id ≢ k) (events_to_retry now h)
        → All (λ (g : FailedState). verdict (fetch g.msg).1 ≡ done) (events_to_retry now h)
        → msg.message_deduplication_id ≡ k
        → (lookup k (alarm cfg now fetch h).route_in_failed_state ≡ some f)
          × ((alarm cfg now fetch h).stored_alarm ≡ none)
          × (is_skipped cfg msg (alarm cfg now fetch h) ≡ true)
    unfolding alarm is_skipped
    alarm_strands now h f msg e other ok own =
        let (stays, unset) =
          retry_all_strands (events_to_retry now h) (record h { stored_alarm = none }) f e refl
            other ok in
        (
          stays,
          unset,
          ground (arith, has-eq_lookup k (alarm cfg now fetch h).route_in_failed_state),
        )
