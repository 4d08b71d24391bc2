-- ===== src/NodeResponse.antt =====
-- packages/core/src/http/openNextResponse.ts: `OpenNextNodeResponse`, its state and the methods that
-- change its headers; packages/core/src/http/util.ts: `parseHeaders` and `parseSetCookieHeader`. A
-- header with the value `undefined` is absent, and a number within an array is its text.
pub mod Flush
pub mod Lookups
pub mod Cookies
pub mod Steps
pub mod Once
mod Tests
use Prim.Native.String
use adapters_api.Common.{
  ℕ, ◌+◌, String, Bool, true, false, not, ◌&&◌, ◌||◌, Option, none, some, List, [], ◌∷◌, ◌++◌, map,
  leb, ◌==◌, str_eq, if◌then◌else◌,
}
use adapters_api.Common.Assoc.{lookup, insert, remove}

-- `OutgoingHttpHeader`
pub data Header : Type 0 where
  one : String → Header
  many : List String → Header
  number : ℕ → Header

abbrev pub Headers : Type 0
Headers = List (String × Header)

-- What the constructor is given, the settings of the environment, and what the code takes from
-- JavaScript: `name.toLowerCase()`, `String(n)`, `values.join(",")`, and `split` at the commas between
-- cookies with `trim`.
pub record Env : Type 0 where
  pub fix_headers_fn : Headers → Headers
  pub initial_headers : Option Headers
  pub has_stream_creator : Bool
  pub middleware_first : Bool
  pub set_error_headers : Bool
  pub force_non_empty : Bool
  pub lower : String → String
  pub number_text : ℕ → String
  pub join_commas : List String → String
  pub split_cookies : String → List String

-- what `streamCreator.writeHeaders` is called with
pub record Sent : Type 0 where
  pub status : ℕ
  pub cookies : List String
  pub headers : List (String × Option String)

-- The state: what is sent and pushed is kept, the latest first; `status_code` is `none` until it is set.
pub record Response : Type 0 where
  pub status_code : Option ℕ
  pub headers : Headers
  pub headers_sent : Bool
  pub headers_already_fixed : Bool
  pub cookies : List String
  pub body_length : ℕ
  pub sent : List Sent
  pub pushed : List (List ℕ)

-- the constructor; a status is an integer
unfoldable pub new_response : Option ℕ → Response
new_response status = record {
  status_code = elim status [
    | none ↦ none
    | some n ↦ if leb 100 n && leb n 599 then some n else none
  ];
  headers = [];
  headers_sent = false;
  headers_already_fixed = false;
  cookies = [];
  body_length = 0;
  sent = [];
  pushed = [];
}

abbrev pub set_cookie : String
set_cookie = "set-cookie"

-- `Array.isArray(value) ? value : [value]`
unfoldable pub values_of : (ℕ → String) → Header → List String
values_of text (one v) = v ∷ []
values_of text (many vs) = vs
values_of text (number n) = text n ∷ []

abbrev pub is_empty {ℓ} : {A : Type ℓ} → List A → Bool
is_empty [] = true
is_empty (_ ∷ _) = false

module _ (env : Env) where
  -- `setHeader`
  unfoldable pub set_header : String → Header → Response → Response
  set_header name value r =
      let key = env.lower name in
      let kept = record r { headers = insert key value r.headers } in
      if str_eq key set_cookie
      then record kept { cookies = values_of env.number_text value }
      else kept

  -- `removeHeader`
  unfoldable pub remove_header : String → Response → Response
  remove_header name r =
      let key = env.lower name in
      if str_eq key set_cookie
      then record r { cookies = [] }
      else record r { headers = remove key r.headers }

  -- `getHeader`
  unfoldable pub get_header : String → Response → Option Header
  get_header name r = lookup (env.lower name) r.headers

  -- `hasHeader`
  unfoldable pub has_header : String → Response → Bool
  has_header name r =
      if str_eq (env.lower name) set_cookie
      then not (is_empty r.cookies)
      else elim (get_header name r) [ none ↦ false | some v ↦ true ]

  -- `getHeaderValues`
  unfoldable pub get_header_values : String → Response → Option (List String)
  get_header_values name r = elim (get_header name r) [
    | none ↦ none
    | some v ↦ some (values_of env.number_text v)
  ]

  -- the old values and the new ones of `appendHeader`; there are old ones unless the header is absent
  unfoldable pub joined : Option Header → List String → List String
  joined none new = new
  joined (some old) new = values_of env.number_text old ++ new

  -- `appendHeader`
  unfoldable pub append_header : String → Header → Response → Response
  append_header name value r =
      let key = env.lower name in
      if has_header key r
      then set_header key (many (joined (get_header key r) (values_of env.number_text value))) r
      else set_header key value r

  -- `setHeaders`, given what `forEach` iterates over
  unfoldable pub set_headers : Headers → Response → Response
  set_headers [] r = r
  set_headers ((name, value) ∷ headers) r = set_headers headers (set_header name value r)

  -- `redirect`
  unfoldable pub redirect : String → ℕ → Response → Response
  redirect destination status r =
      let there = record (set_header "Location" (one destination) r) {
        status_code = some status;
      } in
      if status == 308
      then set_header "Refresh" (one (String.◌++◌ "0;url=" destination)) there
      else there

  -- `convertHeader`
  unfoldable pub convert_header : Header → String
  convert_header (one v) = v
  convert_header (many vs) = env.join_commas vs
  convert_header (number n) = env.number_text n

  abbrev pub last : String → List String → String
  last v [] = v
  last v (w ∷ vs) = last w vs

  -- the value of a `Location` header that is an array; `none` for `undefined`, of an empty one
  unfoldable pub location_of : List String → Option String
  location_of [] = none
  location_of (v ∷ []) = some v
  location_of (v ∷ w ∷ vs) = some (if str_eq v w then v else last w vs)

  -- the value of a header in `parseHeaders`
  unfoldable pub parsed_value : String → Header → Option String
  parsed_value key (many vs) =
      if str_eq key "location" then location_of vs else some (env.join_commas vs)
  parsed_value key value = some (convert_header value)

  -- `parseHeaders`, with its `result`
  unfoldable pub parse_from :
      List (String × Option String) → Headers → List (String × Option String)
  parse_from result [] = result
  parse_from result ((name, value) ∷ headers) =
      let key = env.lower name in parse_from (insert key (parsed_value key value) result) headers

  unfoldable pub parse_headers : Headers → List (String × Option String)
  parse_headers headers = parse_from [] headers

  -- `parseSetCookieHeader(header?.toString())`
  unfoldable pub parse_set_cookie_header : Option Header → List String
  parse_set_cookie_header none = []
  parse_set_cookie_header (some value) =
      let text = convert_header value in if str_eq text "" then [] else env.split_cookies text
