-- ===== src/BucketPurge/Alarm.antt =====
-- packages/cloudflare/src/api/durable-objects/bucket-cache-purge.ts: the loop of `alarm` ends, and
-- what it leaves.
use mathlib.Core.List.{append-nil, append_assoc}
use mathlib.Core.Path.{subst⁻¹}
use adapters_api.Common.{
  ℕ, zero, suc, ◌+◌, ◌≤◌, ◌<◌, ◌≡◌, refl, sym, ap, ◌∙◌, arith, String, true, Option, none, List, [],
  ◌∷◌, ◌++◌, ltb, if◌then◌else◌, length, drop, All, All-append, length-take, length-drop,
  take-append-drop, Bool-cases, inl, inr,
}
use adapters_api.BucketPurge.{
  Purger, max_number_of_tags_per_purge, PurgeResult, is_rate_limited, select_batch, Outcome, done,
  rate_limited, out_of_fuel, alarm_loop, alarm,
}
use adapters_api.BucketPurge.Batches.{IsDistinct, delete_tags-take, IsDistinct-drop, drop_short}

-- all tags of the calls, in order
abbrev pub sent : List (List String) → List String
sent [] = []
sent (batch ∷ batches) = batch ++ sent batches

sent-append :
    (xs : List (List String)) (batch : List String) → sent (xs ++ batch ∷ []) ≡ sent xs ++ batch
sent-append [] batch = append-nil batch
sent-append (x ∷ xs) batch = rw (sent-append xs batch) (sym (append_assoc x (sent xs) batch))

abbrev pub HasSmallBatches : Purger → Type 0
HasSmallBatches p = All (λ (b : List String). length b ≤ max_number_of_tags_per_purge) p.calls

-- What a run of the loop achieves, from the state before it and the number of its first call. If it
-- is done, the table is empty and all of its tags were sent, in order. If the rate limit stopped it,
-- its calls were some earlier ones and a last one, which is the one that met the limit: the tags of
-- the earlier calls have left the table, and those of the last call, at least one, are at its front.
abbrev pub Achieves : (ℕ → PurgeResult) → ℕ → Purger → Outcome → Type 0
Achieves result n p (done q) =
    (q.cache_purge ≡ []) × (sent q.calls ≡ sent p.calls ++ p.cache_purge) × HasSmallBatches q
Achieves result n p (rate_limited q) =
    (earlier : List (List String)) × (batch after : List String) × (q.calls
      ≡ p.calls ++ (earlier ++ batch ∷ []))
    × (p.cache_purge ≡ sent earlier ++ q.cache_purge)
    × (q.cache_purge ≡ batch ++ after)
    × (0 < length batch)
    × HasSmallBatches q
    × (is_rate_limited (result (n + length earlier)) ≡ true)
Achieves result n p out_of_fuel = ⊥

module _ (result : ℕ → PurgeResult) where
  -- one more batch before a run that achieves its goal
  Achieves-cons :
      (n : ℕ) (p q : Purger) (batch : List String) (o : Outcome)
      → p.cache_purge ≡ batch ++ q.cache_purge
      → q.calls ≡ p.calls ++ batch ∷ []
      → Achieves result (suc n) q o
      → Achieves result n p o
  Achieves-cons n p q batch (done r) split called (empty, all, small) = (
    empty,
    all
        ∙ (rw (called, sent-append p.calls batch) (append_assoc (sent p.calls) batch q.cache_purge)
            ∙ ap (◌++◌ (sent p.calls)) (sym split)),
    small,
  )
  Achieves-cons n p q batch (rate_limited r) split called
        (earlier, b, after, calls, s, t, some_tag, small, why) =
      (
        batch ∷ earlier,
        b,
        after,
        calls ∙ (rw called (append_assoc p.calls (batch ∷ []) (earlier ++ b ∷ []))),
        split ∙ (ap (◌++◌ batch) s ∙ sym (append_assoc batch (sent earlier) r.cache_purge)),
        t,
        some_tag,
        small,
        let e : n + suc (length earlier) ≡ suc n + length earlier = omega arith in rw e why,
      )
  Achieves-cons n p q batch out_of_fuel split called never = absurd never

  abbrev state : List String → Option ℕ → List (List String) → Purger
  state table at calls = record { cache_purge = table; stored_alarm = at; calls = calls }

  -- the rest of a round, once its batch is deleted
  abbrev rest_of_round : ℕ → ℕ → List String → Purger → Outcome
  rest_of_round fuel n batch p =
      alarm_loop fuel result n
        (if ltb (length batch) max_number_of_tags_per_purge then [] else select_batch p.cache_purge)
        p

  loop-Achieves :
      (fuel n : ℕ) (table : List String) (at : Option ℕ) (calls : List (List String))
      → IsDistinct table
      → HasSmallBatches (state table at calls)
      → length table + 2 ≤ fuel
      → Achieves result n
          (state table at calls)
          (alarm_loop fuel result n (select_batch table) (state table at calls))
  unfolding alarm_loop
  loop-Achieves zero n table at calls d small enough = absurd (omega arith)
  loop-Achieves (suc f) n [] at calls d small enough = (refl, sym (append-nil (sent calls)), small)
  loop-Achieves (suc zero) n (x ∷ xs) at calls d small enough = absurd (omega arith)
  loop-Achieves (suc (suc f)) n (x ∷ xs) at calls d small enough =
      let table = x ∷ xs in
      let batch = select_batch table in
      let rest = drop max_number_of_tags_per_purge table in
      let calls' = calls ++ batch ∷ [] in
      let start = state table at calls in
      let split : table ≡ batch ++ rest =
        sym (take-append-drop max_number_of_tags_per_purge table) in
      let size = length-take max_number_of_tags_per_purge table in
      let left = length-drop max_number_of_tags_per_purge table in
      let small' : HasSmallBatches (state rest at calls') =
        All-append _ calls (batch ∷ []) small (omega (arith, size), tt) in
      let deleted = delete_tags-take max_number_of_tags_per_purge table d in
      elim (Bool-cases (is_rate_limited (result n))) [
        | inl limited ↦ rw limited (
          [],
          batch,
          rest,
          refl,
          refl,
          split,
          omega (arith, size),
          small',
          let e : n + 0 ≡ n = omega arith in rw e limited,
        )
        | inr sent_it ↦
            let next =
              λ (t : List String). rest_of_round (suc f) (suc n) batch (state t at calls') in
            let P : List String → Type 0 = λ t. Achieves result n start (next t) in
            let goal : P rest =
              Achieves-cons n start (state rest at calls') batch (next rest) split refl
                (elim (Bool-cases (ltb (length batch) max_number_of_tags_per_purge)) [
                  | inl short ↦
                      let empty : rest ≡ [] =
                        drop_short max_number_of_tags_per_purge table (ground (arith, size)) in
                      rw short (empty, last empty calls', small')
                  | inr full ↦ rw full (
                      loop-Achieves (suc f) (suc n) rest at calls'
                        (IsDistinct-drop max_number_of_tags_per_purge table d) small'
                        (ground (arith, size, left)))
                ]) in
            rw sent_it (subst⁻¹ P deleted goal)
      ]
    where
      last : {rest : List String} → rest ≡ [] → (c : List (List String)) → sent c ≡ sent c ++ rest
      last e c = rw e (sym (append-nil (sent c)))

  -- An alarm always ends, if no call of `purgeCacheByTags` comes in during it and the table has no tag
  -- twice. If it is not stopped by the rate limit, every tag of the table was sent to the purge API, once
  -- and in order, and the table is empty. If it is stopped, then by its last call, whose tags, at least
  -- one, are still in the table; the tags that left the table are those of its earlier calls. No call has
  -- more tags than the API takes, if none had before.
  pub alarm-Achieves :
      (p : Purger)
      → IsDistinct p.cache_purge
      → HasSmallBatches p
      → Achieves result 0 p (alarm result p)
  unfolding alarm
  alarm-Achieves p d small =
      loop-Achieves (length p.cache_purge + 2) 0 p.cache_purge none p.calls d small (omega arith)
