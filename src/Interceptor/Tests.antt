-- ===== src/Interceptor/Tests.antt =====
-- Requests that the interceptor sees, and the theorems at concrete entries.
use adapters_api.Common.{◌≡◌, refl, String, false, none, some, List, [], ◌∷◌, str_eq, if◌then◌else◌}
use adapters_api.Common.Assoc.{has, lookup, insert, spread}
use adapters_api.ShardId.{
  imul, shr, xor32, or32, mix, cyrb128, random_numerator, random_int, char_codes, digit,
  decimal_from, decimal, generate_shard_id, generate_message_group_id,
}
use adapters_api.CacheService.{every, one}
use adapters_api.CacheService.Decode.{strip, get_header_value}
use adapters_api.Interceptor.{
  Content, route, page, redirect, Cached, Env, Event, passed_on, rejected, answered,
}
use adapters_api.Interceptor.Control.{
  seconds_or_year, s_max_age, is_never_cached, final_revalidate, message_url, message_for,
  compute_cache_control,
}
use adapters_api.Interceptor.Answer.{
  is_set, status_of, get_body_for_app_router, find_segment, with_control, create_ppr_partial_result,
  finish_result, generate_app, generate_page, answer_redirect, answer_route, answer_of, answer,
  vary_header,
}
use adapters_api.Interceptor.Paths.{
  includes_text, without_first, without_slash, parts_of, joined_parts, decode_segment, decode_all,
  decode_path_params, lookup_path,
}
use adapters_api.Interceptor.Route.{
  is_excluded, find_dynamic, is_static_route, path_to_use, cache_interceptor,
}
use adapters_api.Interceptor.Freshness.{IsControlled, compute_cache_control-IsControlled}
use adapters_api.Interceptor.Root.{cache_interceptor_root}
use adapters_api.Interceptor.Failure.{without_queue, answer-without_queue}

program : Unit {0}
unfolding has lookup insert spread imul shr xor32 or32 mix cyrb128 random_numerator random_int
    char_codes digit decimal_from decimal generate_shard_id generate_message_group_id strip
    get_header_value seconds_or_year s_max_age is_never_cached final_revalidate message_url
    message_for compute_cache_control is_set status_of get_body_for_app_router find_segment
    with_control create_ppr_partial_result finish_result generate_app generate_page answer_redirect
    answer_route answer_of answer includes_text without_first without_slash parts_of joined_parts
    decode_segment decode_all decode_path_params lookup_path is_excluded find_dynamic
    is_static_route path_to_use cache_interceptor without_queue
program = tt

abbrev entry : Content → Cached
entry content = record {
  content = content;
  meta = none;
  revalidate = some (every 60);
  last_modified = some 1000;
}

-- a page at `/docs/a`, a redirect at `/docs/b`, and a queue that is out of order
abbrev env : Env
env = record {
  routes = ("/a", every 10) ∷ ("/b", every 10) ∷ ("/", every 10) ∷ [];
  dynamic_routes = record { route_regex = "^/blog"; fallback = some "/blog/[slug]" } ∷ [];
  trailing_slash = false;
  base_path = "/docs";
  max_concurrency = 10;
  cache_get = λ key.
      if str_eq key "/a"
      then some (some (entry (page "html" "json")))
      else if str_eq key "/b"
      then some (some (entry redirect))
      else if str_eq key "/blog/[slug]"
      then some (some (entry (route "text")))
      else if str_eq key "/index"
      then none
      else some none;
  send = λ message. false;
  hash = λ text. "hash";
  matches = λ regex path. str_eq path "/blog/x";
  decode = λ text. some text;
  escape = λ text. text;
  is_binary_content_type = λ text. false;
}

abbrev get : List (String × String) → Event
get headers = record {
  method = "GET";
  headers = headers;
  host = "example.com";
  next_data_req = false;
  rewrite_status_code = none;
}

-- within the minute the page is answered, with what is left of it
page_fresh : cache_interceptor env 31000 (get []) "/docs/a/" ≡ (
  [],
  answered (record {
    status_code = 200;
    headers =
        ("cache-control", one "s-maxage=30, stale-while-revalidate=2592000")
        ∷ ("x-opennext-cache", one "HIT")
        ∷ ("etag", one "hash")
        ∷ ("content-type", one "text/html; charset=utf-8")
        ∷ ("vary", one vary_header)
        ∷ [];
    body = "html";
    is_base64_encoded = false;
  }),
)
unfolding program
page_fresh = refl

page_stale : (cache_interceptor env 91000 (get []) "/docs/a").1 ≡ rejected
unfolding program
page_stale = refl

redirect_stale : (cache_interceptor env 91000 (get []) "/docs/b").1 ≡ passed_on
unfolding program
redirect_stale = refl

preview :
    cache_interceptor env 31000 (get (("cookie", "a=1; __prerender_bypass=1") ∷ [])) "/docs/a"
    ≡ ([], passed_on)
unfolding program
preview = refl

no_page : cache_interceptor env 31000 (get []) "/docs/c" ≡ ([], passed_on)
unfolding program
no_page = refl

root : path_to_use env (lookup_path env "/docs/") ≡ some "/index"
unfolding program
root = refl

dynamic : path_to_use env (lookup_path env "/docs/blog/x") ≡ some "/blog/[slug]"
unfolding program
dynamic = refl

compute_cache_control-IsControlled_example :
    IsControlled env 31000 "/a" "html" "example.com"
      (some (every 60))
      (some 1000)
      (compute_cache_control env 31000 "/a" "html" "example.com" (some (every 60)) (some 1000))
compute_cache_control-IsControlled_example =
    compute_cache_control-IsControlled env 31000 "/a" "html" "example.com" (some (every 60))
      (some 1000)

-- an entry of the root, long after the ten seconds of the manifest
abbrev root_entry : Cached
root_entry = record {
  content = page "html" "json";
  meta = none;
  revalidate = none;
  last_modified = some 1000;
}

abbrev root_env : Env
root_env = record env {
  cache_get = λ key. if str_eq key "/index" then some (some root_entry) else none;
}

cache_interceptor_root_example : (cache_interceptor root_env 999000 (get []) "/docs/").0 ≡ []
unfolding program
cache_interceptor_root_example =
    cache_interceptor_root root_env refl 999000 (get []) "/docs/" root_entry refl refl refl refl

answer-without_queue_example :
    (answer env 91000 (get []) "/a" (entry (page "html" "json"))).1
    ≡ without_queue (page "html" "json")
unfolding program
answer-without_queue_example =
    answer-without_queue env 91000 (get []) "/a" (entry (page "html" "json")) (λ message. refl) refl
      refl
