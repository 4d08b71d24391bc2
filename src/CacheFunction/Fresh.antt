-- ===== src/CacheFunction/Fresh.antt =====
-- packages/core/src/adapters/cache-handler.ts: which entries the tag cache says to be fresh.
use adapters_api.Common.{
  ℕ, ◌≡◌, ◌⊎◌, [], ◌∷◌, ap, ◌∙◌, Bool-cases, refl, sym, arith, inl, inr, String, Bool, true, false,
  Option, none, some, List, ◌>>=◌, Option-cases,
}
use adapters_api.CacheService.{Script}
use adapters_api.CacheFunction.{Mode, next_mode, original, Backend}
use adapters_api.CacheFunction.Handler.{time_or, check_tag_revalidation}

module _ (js : Script) (be : Backend js) where
  open be use {State}

  -- the time at which an entry was stored, or now
  abbrev pub IsStoredAt : ℕ → Option ℕ → ℕ → Type 0
  IsStoredAt now last_modified t = (last_modified ≡ some t) ⊎ ((last_modified ≡ none) × (t ≡ now))

  -- An entry is fresh if there is no tag cache, or if the tag cache says so: in the mode of Next, none of
  -- its tags has been revalidated since it was stored; in the original mode, the last modification of
  -- its key is not -1.
  pub data IsFresh (now : ℕ) (key : String) (tags : List String) (last_modified : Option ℕ)
      (s : State) : Type 0 where
    disabled : be.disable_tag_cache ≡ true → IsFresh now key tags last_modified s
    untagged : be.mode ≡ next_mode → tags ≡ [] → IsFresh now key tags last_modified s
    not_revalidated :
        (t : ℕ)
        → be.mode ≡ next_mode
        → IsStoredAt now last_modified t
        → be.has_been_revalidated tags t s ≡ some false
        → IsFresh now key tags last_modified s
    still_modified :
        (t time : ℕ)
        → be.mode ≡ original
        → IsStoredAt now last_modified t
        → be.get_last_modified key t s ≡ some (some time)
        → IsFresh now key tags last_modified s

  module _ (now : ℕ) (key : String) (s : State) where
    time-IsStoredAt : (o : Option ℕ) → IsStoredAt now o (time_or js be now o)
    time-IsStoredAt none = inr (refl, refl)
    time-IsStoredAt (some t) = inl refl

    mode-IsFresh :
        (mode : Mode) (tags : List String) (o : Option ℕ)
        → be.mode ≡ mode
        → be.disable_tag_cache ≡ false
        → check_tag_revalidation js be now key tags o s ≡ some false
        → IsFresh now key tags o s
    unfolding check_tag_revalidation
    mode-IsFresh next_mode [] o m e h = untagged m refl
    mode-IsFresh next_mode (t ∷ tags) o m e h =
        let asked : check_tag_revalidation js be now key (t ∷ tags) o s
            ≡ be.has_been_revalidated (t ∷ tags) (time_or js be now o) s =
          simp (e, m) refl in
        not_revalidated (time_or js be now o) m (time-IsStoredAt o) (sym asked ∙ h)
    mode-IsFresh original tags o m e h =
        let t = time_or js be now o in
        let outcome : Option (Option ℕ) → Option Bool =
          λ found. found >>= (λ time. some (elim time [ none ↦ true | some t ↦ false ])) in
        let asked : check_tag_revalidation js be now key tags o s
            ≡ outcome (be.get_last_modified key t s) =
          simp (e, m) refl in
        let known = sym asked ∙ h in
        elim (Option-cases (be.get_last_modified key t s)) [
          | inl f ↦ absurd (ground (arith, ap outcome f, known))
          | inr (none, f) ↦ absurd (ground (arith, ap outcome f, known))
          | inr (some time, f) ↦ still_modified t time m (time-IsStoredAt o) f
        ]

    pub check-IsFresh :
        (tags : List String) (o : Option ℕ)
        → check_tag_revalidation js be now key tags o s ≡ some false
        → IsFresh now key tags o s
    unfolding check_tag_revalidation
    check-IsFresh tags o h = elim (Bool-cases be.disable_tag_cache) [
      | inl e ↦ disabled e
      | inr e ↦ mode-IsFresh be.mode tags o refl e h
    ]
