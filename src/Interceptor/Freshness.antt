-- ===== src/Interceptor/Freshness.antt =====
-- packages/core/src/core/routing/cacheInterceptor.ts: how long an answer may be kept, and when the queue
-- is asked to revalidate.
use mathlib.Core.Path.{subst}
use adapters_api.Common.Assoc.{lookup}
use adapters_api.Common.{
  sym, ◌∙◌, Option-cases, ℕ, ◌+◌, ◌*◌, ◌≤◌, ◌<◌, ◌≡◌, ◌≢◌, refl, ap, arith, inl, inr, String, true,
  false, Option, none, some, List, [], ◌∷◌, ◌==◌, ==_iff, Bool-cases, if◌then◌else◌,
}
use adapters_api.Message.{QueueMessage}
use adapters_api.CacheService.{HeaderMap, Revalidate, never, every}
use adapters_api.Interceptor.{Env}
use adapters_api.Interceptor.Control.{
  seconds_or_year, cache_one_year, or_zero, s_max_age, is_never_cached, control, shared,
  final_revalidate, message_for, compute_cache_control,
}

s_max_age-bounds :
    (now last final : ℕ)
    → (1 ≤ s_max_age now last final)
      × (s_max_age now last final ≡ 1 → last + 1000 * final ≤ now + 1500)
      × (1 < s_max_age now last final
          → now + 1000 * s_max_age now last final ≤ last + 1000 * final + 500)
unfolding s_max_age
s_max_age-bounds now last final = ground arith

above : {n : ℕ} → 1 ≤ n → (n == 1) ≡ false → 1 < n
above p e = ground arith

-- the revalidation time of an entry: its own, or that of its route, or a year
abbrev pub revalidated_after : (own route : Option Revalidate) → ℕ
revalidated_after (some (every n)) route = n
revalidated_after none (some (every n)) = n
revalidated_after _ _ = 31536000

final_revalidate-after :
    (env : Env) (path : String) (own : Option Revalidate)
    → final_revalidate env path own ≡ revalidated_after own (lookup path env.routes)
unfolding final_revalidate seconds_or_year
final_revalidate-after env path (some (every n)) = refl
final_revalidate-after env path (some never) = refl
final_revalidate-after env path none = elim (Option-cases (lookup path env.routes)) [
  | inl e ↦ rw (e, seconds_or_year) refl
  | inr (never, e) ↦ rw (e, seconds_or_year) refl
  | inr (every n, e) ↦ rw (e, seconds_or_year) refl
]

module _ (env : Env) (now : ℕ) (path body host : String) (revalidate : Option Revalidate) where
  -- the message of a stale entry
  abbrev pub asked : Option ℕ → QueueMessage
  asked last_modified = message_for env now path (env.hash body) host last_modified

  -- the revalidation time, in seconds
  abbrev pub due : ℕ
  due = revalidated_after revalidate (lookup path env.routes)

  -- What becomes of an entry: with a time of 0 of its own it must never be stored, with the time of a year
  -- it is kept for a year, else it is fresh, or it is stale and the queue gets a message.
  pub data IsControlled (last_modified : Option ℕ)
      : List QueueMessage × Option HeaderMap → Type 0 where
    never_stored :
        revalidate ≡ some (every 0)
        → IsControlled last_modified (
          [],
          some (
              control "private, no-cache, no-store, max-age=0, must-revalidate" "ERROR"
                (env.hash body)),
        )
    forever :
        revalidate ≢ some (every 0)
        → due ≡ 31536000
        → IsControlled last_modified
            ([], some (control (shared cache_one_year) "HIT" (env.hash body)))
    fresh :
        (seconds : ℕ)
        → revalidate ≢ some (every 0)
        → due ≢ 31536000
        → 1 < seconds
        → now + 1000 * seconds ≤ or_zero last_modified + 1000 * due + 500
        → IsControlled last_modified ([], some (control (shared seconds) "HIT" (env.hash body)))
    stale :
        revalidate ≢ some (every 0)
        → due ≢ 31536000
        → or_zero last_modified + 1000 * due ≤ now + 1500
        → IsControlled last_modified (
          asked last_modified ∷ [],
          if env.send (asked last_modified)
              then some (control (shared 1) "STALE" (env.hash body))
              else none,
        )

  never_cached : (r : Option Revalidate) → is_never_cached r ≡ true → r ≡ some (every 0)
  unfolding is_never_cached
  never_cached none h = ground arith
  never_cached (some never) h = ground arith
  never_cached (some (every n)) h = let e : n ≡ 0 = ground arith in rw e refl

  may_be_cached : (r : Option Revalidate) → is_never_cached r ≡ false → r ≢ some (every 0)
  unfolding is_never_cached
  may_be_cached r h zero = ground (arith, h, ap is_never_cached zero)

  is_other : (m n : ℕ) → (m == n) ≡ false → m ≢ n
  is_other m n h e = ground arith

  -- An entry whose own revalidation time is 0 is never stored, and one with the time of a year is kept
  -- for a year; the time is its own, else that of its route, else a year. Any other answer is kept for one
  -- second, or no longer than half a second after that time has passed since it was stored; the queue is asked for a revalidation exactly when the
  -- answer is marked as stale, and then at most one and a half seconds before that time.
  pub compute_cache_control-IsControlled :
      (last_modified : Option ℕ)
      → IsControlled last_modified
          (compute_cache_control env now path body host revalidate last_modified)
  unfolding compute_cache_control
  compute_cache_control-IsControlled last_modified =
      let final = final_revalidate env path revalidate in
      let same : final ≡ due = final_revalidate-after env path revalidate in
      let other = λ (f : (final == cache_one_year) ≡ false).
        subst (λ d. d ≢ 31536000) same (is_other final cache_one_year f) in
      let age = s_max_age now (or_zero last_modified) final in
      let (positive, when_stale, when_fresh) = s_max_age-bounds now (or_zero last_modified) final in
      elim (Bool-cases (is_never_cached revalidate)) [
        | inl e ↦ simp e (never_stored (never_cached revalidate e))
        | inr e ↦ elim (Bool-cases (final == cache_one_year)) [
          | inl f ↦
              simp (e, f)
                (forever (may_be_cached revalidate e)
                  (sym same ∙ (==_iff final cache_one_year).0 f))
          | inr f ↦ elim (Bool-cases (age == 1)) [
            | inl g ↦
                let one_left = (==_iff age 1).0 g in
                simp (e, f, one_left)
                  (stale (may_be_cached revalidate e) (other f) (
                    subst (λ d. or_zero last_modified + 1000 * d ≤ now + 1500) same
                      (when_stale one_left)))
            | inr g ↦
                simp (e, f, g)
                  (fresh age (may_be_cached revalidate e) (other f) (above positive g) (
                    subst (λ d. now + 1000 * age ≤ or_zero last_modified + 1000 * d + 500) same
                      (when_fresh (above positive g))))
          ]
        ]
      ]
