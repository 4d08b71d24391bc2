-- ===== src/CacheFunction/Served.antt =====
-- packages/core/src/adapters/cache-handler.ts: which entries the handler hands out.
use adapters_api.Common.{
  ℕ, ◌≡◌, ◌⊎◌, ◌++◌, refl, sym, arith, inl, inr, String, Bool, true, false, Option, none, some,
  List, ◌>>=◌, Option-cases, if◌then◌else◌,
}
use adapters_api.CacheService.{Script, Value}
use adapters_api.CacheService.Encode.{build_cache_get_response}
use adapters_api.CacheFunction.{Kind, Lookup, Backend, Reply, error_reply, not_found, found}
use adapters_api.CacheFunction.Handler.{
  tags_of_hit, check_tag_revalidation, check_path, serve_hit, or_error, handle_get,
}
use adapters_api.CacheFunction.Sent.{own_tags, IsSent, kept-IsSent, tags_of_hit-own_tags}
use adapters_api.CacheFunction.Fresh.{IsFresh, check-IsFresh}

module _ (js : Script) (be : Backend js) where
  open be use {State}

  -- What an entry is handed out for: it is in the incremental cache, and it bypasses the tag cache or is
  -- fresh by the tags of the request and its own.
  pub data IsServed (now : ℕ) (key : String) (kind : Kind) (additional : List String) (s : State)
      : Reply → Type 0 where
    error :
        (status : ℕ) (message : String)
        → IsServed now key kind additional s (error_reply status message)
    miss : (revalidated : Bool) → IsServed now key kind additional s (not_found revalidated)
    hit :
        (l : Lookup js) (v kept : Value js)
        → be.get key kind s ≡ some (some l)
        → l.value ≡ some v
        → (l.should_bypass_tag_cache ≡ true)
          ⊎ IsFresh js be now key (additional ++ own_tags js be kind v) l.last_modified s
        → IsSent js kind v kept
        → IsServed now key kind additional s (
            found (
              build_cache_get_response js (record {
                value = kept;
                last_modified = l.last_modified;
                should_bypass_tag_cache = l.should_bypass_tag_cache;
              })))

  module _ (now : ℕ) (key : String) (kind : Kind) (additional : List String) (s : State) where
    check_path-keeps :
        (last_modified : Option ℕ)
        → check_path js be now kind additional last_modified s true ≡ some true
    unfolding check_path
    check_path-keeps o = ground arith

    -- the outcome of the checks, over their results
    checks-IsServed :
        (bypass : Bool) (first : Option Bool) (path : Bool → Option Bool) (reply : Reply)
        → ((bypass ≡ true) ⊎ (first ≡ some false) → IsServed now key kind additional s reply)
        → path true ≡ some true
        → IsServed now key kind additional s (
            or_error js be 500 "Failed to get cache entry" (
              if bypass then some reply else do
                b ← first
                revalidated ← path b
                some (if revalidated then not_found true else reply)))
    unfolding or_error
    checks-IsServed true first path reply h keeps = h (inl refl)
    checks-IsServed false none path reply h keeps = error 500 "Failed to get cache entry"
    checks-IsServed false (some true) path reply h keeps = simp (keeps, ◌>>=◌) (miss true)
    checks-IsServed false (some false) path reply h keeps = elim (Option-cases (path false)) [
      | inl e ↦ simp (e, ◌>>=◌) (error 500 "Failed to get cache entry")
      | inr (true, e) ↦ simp (e, ◌>>=◌) (miss true)
      | inr (false, e) ↦ simp (e, ◌>>=◌) (h (inr refl))
    ]

    is_allowed :
        (l : Lookup js) (v : Value js)
        → (l.should_bypass_tag_cache ≡ true)
          ⊎ (check_tag_revalidation js be now key
                (tags_of_hit js be kind additional v).0
                l.last_modified
                s
              ≡ some false)
        → (l.should_bypass_tag_cache ≡ true)
          ⊎ IsFresh js be now key (additional ++ own_tags js be kind v) l.last_modified s
    is_allowed l v (inl bypass) = inl bypass
    is_allowed l v (inr h) = inr (
        check-IsFresh js be now key s (additional ++ own_tags js be kind v) l.last_modified
          (rw (sym (tags_of_hit-own_tags js be kind additional v)) h))

    serve_hit-IsServed :
        (l : Lookup js) (v : Value js)
        → be.get key kind s ≡ some (some l)
        → l.value ≡ some v
        → IsServed now key kind additional s (
            or_error js be 500 "Failed to get cache entry"
              (serve_hit js be now key kind additional l v s))
    unfolding serve_hit
    serve_hit-IsServed l v e f =
        checks-IsServed l.should_bypass_tag_cache
          (check_tag_revalidation js be now key (tags_of_hit js be kind additional v).0
            l.last_modified s)
          (check_path js be now kind additional l.last_modified s) _
          (λ fresh.
            hit l v ((tags_of_hit js be kind additional v).1) e f (is_allowed l v fresh)
              (kept-IsSent js be kind additional v))
          (check_path-keeps l.last_modified)

    -- The handler answers a `GET` with an entry only if it is in the incremental cache, and only if it
    -- bypasses the tag cache, or there is none, or the tag cache says that the entry is not revalidated:
    -- in the mode of Next by the tags of the request and of the entry, of which there are none or none
    -- is revalidated since the entry was stored; in the original mode by the key, whose last modification
    -- is not -1. What is sent is that entry; a file of the kind `cache` goes without the header of its
    -- tags, unless that header is an array.
    pub handle_get-IsServed :
        IsServed now key kind additional s (handle_get js be now key kind additional s)
    unfolding handle_get or_error
    handle_get-IsServed = elim (Option-cases (be.get key kind s)) [
      | inl e ↦ simp (e, ◌>>=◌) (error 500 "Failed to get cache entry")
      | inr (none, e) ↦ simp (e, ◌>>=◌) (miss false)
      | inr (some l, e) ↦ elim (Option-cases l.value) [
        | inl f ↦ simp (e, f, ◌>>=◌) (miss false)
        | inr (v, f) ↦ simp (e, f, ◌>>=◌) (serve_hit-IsServed l v e f)
      ]
    ]
