-- ===== src/Assets.antt =====
-- packages/cloudflare/src/api/overrides/asset-resolver/index.ts: which assets the worker serves itself.
pub mod Rules
mod Tests
use adapters_api.Common.{
  ℕ, String, Bool, true, false, not, ◌&&◌, ◌||◌, Option, none, some, List, [], ◌∷◌, any, ◌==◌,
  str_eq, if◌then◌else◌,
}
use adapters_api.Common.Text.{Text, same_text}

-- `run_worker_first`: a flag, false if it is not set, or rules
pub data RunWorkerFirst : Type 0 where
  flag : Bool → RunWorkerFirst
  rules : List Text → RunWorkerFirst

-- a response of the binding `ASSETS`, and the result: the body is none for `null`
pub record Asset : Type 0 where
  pub status : ℕ
  pub headers : List (String × String)
  pub body : Option Text

-- what `.` of a regular expression does not match
unfoldable pub is_line_end : ℕ → Bool
is_line_end c = c == 10 || (c == 13 || (c == 8232 || c == 8233))

-- `.*` and then the text, up to the end of the path
unfoldable pub ends_as : Text → Text → Bool
ends_as after [] = same_text [] after
ends_as after (c ∷ path) =
    let later = ends_as after path in same_text (c ∷ path) after || (not (is_line_end c) && later)

-- The regular expression of a rule: all characters stand for themselves but the first star, since
-- `replace` with a text replaces one occurrence.
unfoldable pub matches : (rule path : Text) → Bool
matches [] path = same_text path []
matches (r ∷ rule) [] = if r == 42 then ends_as rule [] else false
matches (r ∷ rule) (c ∷ path) =
    let rest = matches rule path in if r == 42 then ends_as rule (c ∷ path) else r == c && rest

-- the loop of `isUserWorkerFirst`, with `hasPositiveMatch`
unfoldable pub look_through : List Text → Text → Bool → Bool
look_through [] path found = found
look_through ([] ∷ rest) path found =
    let same = look_through rest path found in
    let hit = look_through rest path true in
    if found then same else if matches [] path then hit else same
look_through ((c ∷ rule) ∷ rest) path found =
    let same = look_through rest path found in
    let hit = look_through rest path true in
    if c == 33
    then if matches rule path then false else same
    else if found
    then same
    else if matches (c ∷ rule) path
    then hit
    else same

-- `isUserWorkerFirst`
unfoldable pub is_user_worker_first : RunWorkerFirst → Text → Bool
is_user_worker_first (flag b) path = b
is_user_worker_first (rules rs) path = look_through rs path false

-- `getResponseBody`; a missing body is an empty stream
unfoldable pub get_response_body : String → Option Text → Option Text
get_response_body method body =
    if str_eq method "HEAD" then none else elim body [ none ↦ some [] | some text ↦ some text ]

-- `maybeGetAssetResult`, given what `ASSETS.fetch` answers to the request, if the binding is there
unfoldable pub maybe_get_asset_result :
    Option Asset → RunWorkerFirst → (method : String) → (raw_path : Text) → Option Asset
maybe_get_asset_result none run_worker_first method raw_path = none
maybe_get_asset_result (some response) run_worker_first method raw_path =
    if not (is_user_worker_first run_worker_first raw_path)
    then none
    else if not (str_eq method "GET" || str_eq method "HEAD")
    then none
    else if response.status == 404
    then none
    else some (record response { body = get_response_body method response.body })
