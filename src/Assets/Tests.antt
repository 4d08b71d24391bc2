-- ===== src/Assets/Tests.antt =====
-- Rules and assets at concrete paths.
use adapters_api.Common.{◌≡◌, refl, String, true, false, not, ◌&&◌, none, some, List, [], ◌∷◌, any}
use adapters_api.Common.Text.{Text, same_text}
use adapters_api.ShardId.{char_codes}
use adapters_api.Assets.{
  flag, rules, is_line_end, ends_as, matches, look_through, is_user_worker_first, get_response_body,
  maybe_get_asset_result,
}
use adapters_api.Assets.Rules.{is_positive, is_negative, is_user_worker_first-eq_any}

program : Unit {0}
unfolding same_text char_codes is_line_end ends_as matches look_through is_user_worker_first
    get_response_body maybe_get_asset_result is_positive is_negative
program = tt

abbrev text : String → Text
unfolding char_codes
text s = char_codes s

abbrev some_rules : List Text
some_rules = text "!/api/public/*" ∷ text "/api/*" ∷ []

in_api : is_user_worker_first (rules some_rules) (text "/api/a") ≡ true
unfolding program
in_api = refl

excluded : is_user_worker_first (rules some_rules) (text "/api/public/a") ≡ false
unfolding program
excluded = refl

-- the second star is a star
two_stars :
    (matches (text "/*/b/*") (text "/a/b/c") ≡ false)
    × (matches (text "/*/b/*") (text "/a/b/*") ≡ true)
unfolding program
two_stars = (refl, refl)

head_has_no_body :
    maybe_get_asset_result
      (some (record { status = 200; headers = []; body = some [] }))
      (flag true)
      "HEAD"
      (text "/a")
    ≡ some (record { status = 200; headers = []; body = none })
unfolding program
head_has_no_body = refl

is_user_worker_first-eq_any_example : is_user_worker_first (rules some_rules) (text "/api/a") ≡ (
    any (is_positive (text "/api/a")) some_rules
    && not (any (is_negative (text "/api/a")) some_rules))
is_user_worker_first-eq_any_example = is_user_worker_first-eq_any some_rules (text "/api/a")
