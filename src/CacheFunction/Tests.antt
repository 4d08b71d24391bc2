-- ===== src/CacheFunction/Tests.antt =====
-- A run through the cache function, and the theorems at concrete requests.
use Prim.Native.String
use adapters_api.Common.{
  ◌≡◌, refl, String, true, false, none, some, List, [], ◌∷◌, any, str_eq, if◌then◌else◌, ◌||◌,
}
use adapters_api.Common.Assoc.{has, lookup, insert, remove}
use adapters_api.CacheService.{Script, Value, composable, put_if}
use adapters_api.CacheService.Encode.{build_cache_get_response, base_headers, composable_headers}
use adapters_api.CacheService.Decode.{strip}
use adapters_api.CacheFunction.{
  cache, next_mode, TagInput, tag, Backend, Reply, error_reply, not_found, done,
}
use adapters_api.CacheFunction.Tags.{
  tags_to_write, get_tag_key, tags_from_meta, get_tags_from_value, write_tags,
}
use adapters_api.CacheFunction.Handler.{
  Payload, handle_get, tags_of_hit, soft_path, is_soft, ends_with, check_tag_revalidation,
  check_path, serve_hit, or_error, derived_tags, store_tags, set_value, handle_delete,
}
use adapters_api.CacheFunction.Revalidate.{distinct, invalidate, revalidate_next, revalidate_tags}
use adapters_api.CacheFunction.Dispatch.{
  Event, handler, cache_type, additional_tags, handle_set, handle_revalidate_tags, operate,
}
use adapters_api.CacheFunction.Written.{count, asks, tags_to_write-once}
use adapters_api.CacheFunction.Served.{IsServed, handle_get-IsServed}

program : Unit {0}
unfolding lookup insert remove has strip tags_from_meta get_tags_from_value get_tag_key
    tags_to_write write_tags check_tag_revalidation check_path serve_hit or_error handle_get
    derived_tags store_tags set_value handle_delete invalidate revalidate_next revalidate_tags
    cache_type additional_tags handle_set handle_revalidate_tags operate handler tags_of_hit
    soft_path is_soft ends_with distinct build_cache_get_response base_headers put_if
    composable_headers
program = tt

-- a script with texts for JSON values
abbrev script : Script
script = record {
  Json = String;
  stringify = λ j. j;
  parse = λ t. if str_eq t "{" then none else some t;
  object = λ fields. "object";
  member = λ j name. some name;
  is_truthy = λ j. true;
  number_text = λ n. "1";
  to_number = λ t. some 1;
}

-- a cache of entries stored at time 5, with a tag cache in which nothing is revalidated
abbrev backend : Backend script
backend = record {
  State = List (String × Value script);
  mode = next_mode;
  disable_tag_cache = false;
  get = λ key kind s. elim (lookup key s) [
    | none ↦ some none
    | some v ↦
        some (
          some (record { value = some v; last_modified = some 5; should_bypass_tag_cache = false }))
  ];
  set = λ key v kind s. some (insert key v s);
  delete = λ key s. if str_eq key "locked" then none else some (remove key s);
  has_been_revalidated = λ tags t s. some (any (str_eq "old") tags);
  get_last_modified = λ key t s. some (some t);
  get_by_path = λ path s. some [];
  get_by_tag = λ t s. some [];
  get_paths_by_tags = none;
  write_tags = λ tags s. some s;
  invalidate_paths = λ paths s. some s;
  texts = λ j. j ∷ [];
  pair_key = λ t path. String.◌++◌ t path;
  split_commas = λ t. t ∷ [];
}

abbrev payload : Payload script
payload = record {
  is_null = λ j. str_eq j "null";
  value = λ j. some (composable j "blog" 1 1 1 1);
  tags = λ j. some (j ∷ []);
}

abbrev event : String → String → String → Event
event method path body = record {
  method = method;
  raw_path = path;
  query_type = none;
  query_tags = none;
  body = body;
}

abbrev step : Event → List (String × Value script) → List (String × Value script) × Reply
step e s = handler script backend payload (λ t. some t) 9 e s

abbrev stored : List (String × Value script)
stored = ("page", composable "text" "blog" 1 1 1 1) ∷ []

abbrev two_tags : List TagInput
two_tags = tag "blog" ∷ tag "shop" ∷ tag "blog" ∷ []

tags_to_write-once_example :
    (count script backend "blog" (tags_to_write script backend two_tags ("shop" ∷ [])).0 ≡ (
      if any (str_eq "blog") ("shop" ∷ [])
      then 0
      else if asks script backend "blog" two_tags
      then 1
      else 0))
    × (any (str_eq "blog") (tags_to_write script backend two_tags ("shop" ∷ [])).1
        ≡ (any (str_eq "blog") ("shop" ∷ []) || asks script backend "blog" two_tags))
tags_to_write-once_example = tags_to_write-once script backend "blog" two_tags ("shop" ∷ [])

handle_get-IsServed_example :
    IsServed script backend 9 "page" cache [] stored
      (handle_get script backend 9 "page" cache [] stored)
handle_get-IsServed_example = handle_get-IsServed script backend 9 "page" cache [] stored

put : step (event "PUT" "/cache/page" "text") [] ≡ (stored, done)
unfolding program
put = refl

put_nothing :
    step (event "PUT" "/cache/page" "") [] ≡ ([], error_reply 400 "Missing 'value' in request body")
unfolding program
put_nothing = refl

put_null :
    step (event "PUT" "/cache/page" "null") [] ≡ ([], error_reply 500 "Internal server error")
unfolding program
put_null = refl

get_missing : step (event "GET" "/cache/other" "") stored ≡ (stored, not_found false)
unfolding program
get_missing = refl

delete_stored : step (event "DELETE" "/cache/page" "") stored ≡ ([], done)
unfolding program
delete_stored = refl

delete_fails :
    step (event "DELETE" "/cache/locked" "") stored
    ≡ (stored, error_reply 500 "Failed to delete cache entry")
unfolding program
delete_fails = refl

revalidate_blog : step (event "POST" "/cache/revalidate-tags" "blog") stored ≡ (stored, done)
unfolding program
revalidate_blog = refl

no_route : step (event "GET" "/other" "") stored ≡ (stored, error_reply 404 "Not Found")
unfolding program
no_route = refl
