-- ===== src/Assets/Rules.antt =====
-- packages/cloudflare/src/api/overrides/asset-resolver/index.ts: what the loop over the rules decides.
use adapters_api.Common.{◌≡◌, arith, Bool, true, false, not, ◌&&◌, ◌||◌, List, [], ◌∷◌, any, ◌==◌}
use adapters_api.Common.Text.{Text}
use adapters_api.Assets.{rules, matches, look_through, is_user_worker_first}

-- a rule without `!` that matches, and one with `!` that does
unfoldable pub is_positive : Text → Text → Bool
is_positive path [] = matches [] path
is_positive path (c ∷ rule) = not (c == 33) && matches (c ∷ rule) path

unfoldable pub is_negative : Text → Text → Bool
is_negative path [] = false
is_negative path (c ∷ rule) = c == 33 && matches rule path

look_through-eq_any :
    (rs : List Text) (path : Text) (found : Bool)
    → look_through rs path found
      ≡ ((found || any (is_positive path) rs) && not (any (is_negative path) rs))
unfolding look_through is_positive is_negative
look_through-eq_any [] path found = ground arith
look_through-eq_any ([] ∷ rest) path found =
    ground (arith, look_through-eq_any rest path found, look_through-eq_any rest path true)
look_through-eq_any ((c ∷ rule) ∷ rest) path found =
    ground (arith, look_through-eq_any rest path found, look_through-eq_any rest path true)

-- With rules, the worker runs first for a path exactly when a rule without `!` matches it and none with
-- `!` does, in whatever order they stand.
pub is_user_worker_first-eq_any :
    (rs : List Text) (path : Text)
    → is_user_worker_first (rules rs) path
      ≡ (any (is_positive path) rs && not (any (is_negative path) rs))
unfolding is_user_worker_first
is_user_worker_first-eq_any rs path = look_through-eq_any rs path false
