-- ===== src/NodeResponse/Tests.antt =====
-- A response that is written, and the theorems at concrete responses.
use adapters_api.Common.{
  ◌≡◌, ◌≢◌, refl, String, true, false, Option, none, some, List, [], ◌∷◌, ◌++◌, length, str_eq,
  if◌then◌else◌, Bool-cases, inl, inr,
}
use adapters_api.Common.Assoc.{spread, has, lookup, insert, remove}
use adapters_api.NodeResponse.{
  one, Env, Response, new_response, values_of, set_header, remove_header, get_header, has_header,
  get_header_values, joined, append_header, set_headers, redirect, convert_header, location_of,
  parsed_value, parse_from, parse_headers, parse_set_cookie_header,
}
use adapters_api.NodeResponse.Flush.{
  is_error, not_cached, merge_headers, initial_cookies, merge_cookies, fix_headers,
  fix_headers_for_error, store_cookies, get_fixed_headers, write_headers, flush_headers, write_head,
  ensure_headers, transform, finish,
}
use adapters_api.NodeResponse.Lookups.{IsLowering, values, values-append_header}
use adapters_api.NodeResponse.Cookies.{write_head_loses, flush_headers_error}
use adapters_api.NodeResponse.Steps.{Reachable, created, called, written, head, flush}
use adapters_api.NodeResponse.Once.{total, body_of, finish_once}

program : Unit {0}
unfolding has lookup insert remove new_response values_of set_header remove_header get_header
    has_header get_header_values joined append_header set_headers redirect convert_header
    location_of parsed_value parse_from parse_headers parse_set_cookie_header spread is_error
    merge_headers initial_cookies merge_cookies fix_headers fix_headers_for_error store_cookies
    get_fixed_headers write_headers flush_headers write_head ensure_headers transform finish values
    total body_of
program = tt

-- two names in capitals, and all others as they are
abbrev lower : String → String
lower name =
    if str_eq name "Set-Cookie"
    then "set-cookie"
    else if str_eq name "Location"
    then "location"
    else name

abbrev env : Env
env = record {
  fix_headers_fn = λ headers. headers;
  initial_headers = some (("set-cookie", one "first=1") ∷ ("x", one "early") ∷ []);
  has_stream_creator = true;
  middleware_first = true;
  set_error_headers = false;
  force_non_empty = true;
  lower = lower;
  number_text = λ n. "1";
  join_commas = λ values. "joined";
  split_cookies = λ text. text ∷ [];
}

abbrev fresh : Response
unfolding program
fresh = new_response (some 500)

abbrev with_cookie : Response
unfolding program
with_cookie = set_header env "Set-Cookie" (one "a=1") fresh

lower_twice : (name : String) → lower (lower name) ≡ lower name
lower_twice name = elim (Bool-cases (str_eq name "Set-Cookie")) [
  | inl e ↦ simp e refl
  | inr e ↦ elim (Bool-cases (str_eq name "Location")) [
    | inl f ↦ simp (e, f) refl
    | inr f ↦ simp (e, f) refl
  ]
]

lowering : IsLowering lower
lowering = record { twice = lower_twice; set_cookie_lower = refl }

-- what is sent, with the cookie of the middleware behind
sent_to_client :
    (flush_headers env with_cookie).sent
    ≡ record {
      status = 500;
      cookies = "a=1" ∷ "first=1" ∷ [];
      headers = ("x", some "early") ∷ ("cache-control", some not_cached) ∷ [];
    }
      ∷ []
unfolding program
sent_to_client = refl

flushed_twice :
    (flush_headers env (flush_headers env with_cookie)).cookies ≡ "a=1" ∷ "first=1" ∷ "first=1" ∷ []
unfolding program
flushed_twice = refl

location_twice : location_of env ("/a" ∷ "/a" ∷ "/b" ∷ []) ≡ some "/a"
unfolding program
location_twice = refl

location_last : location_of env ("/a" ∷ "/b" ∷ "/c" ∷ []) ≡ some "/c"
unfolding program
location_last = refl

values-append_header_example :
    (values env "Set-Cookie" (append_header env "Set-Cookie" (one "b=2") with_cookie)
      ≡ values env "Set-Cookie" with_cookie ++ values_of env.number_text (one "b=2"))
    × ((other : String)
        → env.lower other ≢ env.lower "Set-Cookie"
        → get_header env other (append_header env "Set-Cookie" (one "b=2") with_cookie)
          ≡ get_header env other with_cookie)
    × (joined env
          (lookup "set-cookie" (append_header env "Set-Cookie" (one "b=2") with_cookie).headers)
          []
        ≡ (append_header env "Set-Cookie" (one "b=2") with_cookie).cookies)
unfolding program
values-append_header_example =
    values-append_header env "Set-Cookie" (one "b=2") with_cookie lowering refl

write_head_loses_example :
    (headers : List (String × Option String)) × ((write_head env 200
        (("Set-Cookie", one "lost=1") ∷ [])
        with_cookie).sent
      ≡ record { status = 200; cookies = merge_cookies env with_cookie.cookies; headers = headers }
        ∷ with_cookie.sent)
    × (lookup "set-cookie" headers ≡ none)
write_head_loses_example =
    write_head_loses env 200 (("Set-Cookie", one "lost=1") ∷ []) with_cookie refl

flush_headers_error_example :
    (headers : List (String × Option String)) × ((flush_headers env with_cookie).sent
      ≡ record { status = 500; cookies = merge_cookies env with_cookie.cookies; headers = headers }
        ∷ with_cookie.sent)
    × (lookup "cache-control" headers ≡ some (some not_cached))
unfolding program
flush_headers_error_example =
    flush_headers_error env with_cookie lowering refl refl refl refl (refl, (refl, tt))
      (refl, (refl, tt))

-- a chunk after the head, which is flushed again
abbrev last : Response
unfolding program
last = flush_headers env (transform env (104 ∷ 105 ∷ []) (write_head env 200 [] fresh))

run : Reachable env ((104 ∷ 105 ∷ []) ∷ []) 2 last
unfolding program
run = called (written (104 ∷ 105 ∷ []) (called (created (some 500)) (head 200 []))) flush

finish_once_example :
    ((finish env last).headers_sent ≡ true)
    × (length (finish env last).sent ≡ (if env.has_stream_creator then 2 else 0))
    × ((finish env last).pushed ≡ body_of env ((104 ∷ 105 ∷ []) ∷ []))
finish_once_example = finish_once env ((104 ∷ 105 ∷ []) ∷ []) 2 last run
