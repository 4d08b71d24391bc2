-- ===== src/Images/Tests.antt =====
-- Runs of the image handlers, and the theorems at concrete inputs.
use mathlib.Core.Logic.{inl}
use adapters_api.Common.{◌≡◌, ◌↔◌, refl, true, false, ◌||◌, none, some, [], ◌∷◌, if◌then◌else◌}
use adapters_api.Common.Text.{Text, starts_with, includes, same_text, split, join, has_char}
use adapters_api.ShardId.{char_codes, digit, decimal_from, decimal}
use adapters_api.Images.{Bytes, Settings, Platform, Response, ImageRequest, answered, ok, to_webp}
use adapters_api.Images.Params.{
  has_number, mime_of, pathname_from_relative_url, parse_relative_url, ends_or_slash, is_recursive,
  all_digits, is_numeral, digits_from, parse_int, without_colon, unset_or_same, match_local_pattern,
  any_local_match, has_local_match, same_protocol, hostname_matches, match_remote_pattern,
  has_remote_match, validate_relative, validate_absolute, validate_url, validate_width,
  validate_quality, accepted_format, text_or_empty, parse_image_request, ParsedRequest,
}
use adapters_api.Images.ContentType.{has_bytes, has_bytes_masked, detect_image_content_type, mime}
use adapters_api.Images.Redirects.{
  fetched, is_redirect_status, hop_of, request, redirect_target, fetch_with_redirects,
}
use adapters_api.Images.Handler.{
  text_reply, image_reply, new_response, is_ok, type_of_format, output_format, treatment,
  create_image_response, transform, encode, read_image_header, is_immutable, serve, serve_asset,
  reply_to_fetch, serve_remote, handle_image_request, type_not_allowed,
}
use adapters_api.Images.CdnCgi.{
  is_supported_input, is_line_terminator, no_line_terminator, after_slash, url_group,
  parse_cdn_cgi_image_request, is_svg, serve_input, handle_cdn_cgi_image_request,
}
use adapters_api.Images.Accepted.{numeral_from, numeral}
use adapters_api.Images.Allowed.{IsAllowed, parse_image_request-IsAllowed}
use adapters_api.Images.Followed.{Leads, fetch_with_redirects-Leads}
use adapters_api.Images.Signatures.{svg_bytes}
use adapters_api.Images.Served.{IsGuarded, handle_image_request-IsGuarded}
use adapters_api.Images.Inputs.{
  IsInput, handle_cdn_cgi_image_request-IsInput, handle_image_request-no_content,
}

program : Unit {0}
unfolding starts_with includes same_text split join has_char char_codes digit decimal_from decimal
    has_number mime_of pathname_from_relative_url parse_relative_url ends_or_slash is_recursive
    all_digits is_numeral digits_from parse_int without_colon unset_or_same match_local_pattern
    any_local_match has_local_match same_protocol hostname_matches match_remote_pattern
    has_remote_match validate_relative validate_absolute validate_url validate_width
    validate_quality accepted_format text_or_empty parse_image_request has_bytes has_bytes_masked
    detect_image_content_type mime is_redirect_status hop_of request redirect_target
    fetch_with_redirects new_response is_ok type_of_format output_format treatment
    create_image_response transform encode read_image_header is_immutable serve serve_asset
    reply_to_fetch serve_remote handle_image_request is_supported_input is_line_terminator
    no_line_terminator after_slash url_group parse_cdn_cgi_image_request is_svg serve_input
    handle_cdn_cgi_image_request numeral_from numeral
program = tt

abbrev file : Text
unfolding char_codes
file = char_codes "https://a.b/c"

abbrev moved : Text
unfolding char_codes
moved = char_codes "https://a.b/d"

abbrev gone : Text
unfolding char_codes
gone = char_codes "https://a.b/e"

-- a GIF file with nothing in it
abbrev gif_file : Bytes
gif_file = 0x47 ∷ 0x49 ∷ 0x46 ∷ 0x38 ∷ 0x39 ∷ []

-- `file` redirects to `moved`, which is a GIF; `gone` has no content
abbrev platform : Platform
unfolding same_text char_codes
platform = record {
  parse_url = λ url. some (record {
    href = url;
    protocol = char_codes "https:";
    hostname = char_codes "a.b";
    port = [];
    pathname = char_codes "/c";
    search = [];
  });
  resolve = λ location base. some location;
  decode_uri_component = λ t. some t;
  regex_test = λ source t. true;
  fetch = λ left url.
      if same_text url file
      then answered
          (record { status = 302; location = some moved; cache_control = none; body = none })
      else if same_text url moved
      then answered
          (record { status = 200; location = none; cache_control = none; body = some gif_file })
      else answered (record { status = 204; location = none; cache_control = none; body = none });
  fetch_following = λ url.
      some (record { status = 200; location = none; cache_control = none; body = some svg_bytes });
  read_at_least = λ body. some body;
  assets = none;
  images = none;
}

abbrev settings : Settings
settings = record {
  base_path = [];
  remote_patterns =
      record { protocol = none; hostname = some []; port = none; pathname = []; search = none }
      ∷ [];
  local_patterns = record { pathname = []; search = none } ∷ [];
  device_sizes = 640 ∷ [];
  image_sizes = 16 ∷ [];
  qualities = 75 ∷ [];
  formats = to_webp ∷ [];
  allow_svg = false;
  content_security_policy = "sandbox;";
  content_disposition = "attachment";
  max_redirects = 3;
}

abbrev ask : Text → ImageRequest
unfolding char_codes
ask url = record {
  href = char_codes "https://site/_next/image";
  pathname = char_codes "/cdn-cgi/image/w=1/https://a.b/c";
  urls = url ∷ [];
  widths = char_codes "640" ∷ [];
  qualities = char_codes "75" ∷ [];
  accept = some (char_codes "image/webp,*/*");
}

abbrev parsed : Text → ParsedRequest platform settings
parsed u = record { url = u; width = 640; quality = 75; format = some to_webp; is_static = false }

-- the redirect is followed, and the GIF is passed on with the policy of the settings
gif_served :
    handle_image_request platform settings (ask file)
    ≡ some (
        image_reply gif_file (
          ("Vary", "Accept")
          ∷ ("Content-Type", "image/gif")
          ∷ ("Content-Disposition", "attachment")
          ∷ ("Content-Security-Policy", "sandbox;")
          ∷ []))
unfolding program
gif_served = refl

svg_refused :
    handle_cdn_cgi_image_request platform settings (ask file)
    ≡ some (text_reply 400 type_not_allowed)
unfolding program
svg_refused = refl

file_accepted : parse_image_request platform settings (ask file) ≡ ok (parsed file)
unfolding program
file_accepted = refl

gone_accepted : parse_image_request platform settings (ask gone) ≡ ok (parsed gone)
unfolding program
gone_accepted = refl

abbrev no_content : Response
no_content = record { status = 204; location = none; cache_control = none; body = none }

absolute : starts_with gone (b'/' ∷ []) ≡ false
unfolding program
absolute = refl

gone_fetched : (fetch_with_redirects platform 3 gone).1 ≡ fetched no_content
unfolding program
gone_fetched = refl

listed : (has_number 640 settings.device_sizes || has_number 640 settings.image_sizes) ≡ true
unfolding program
listed = refl

quality_listed : has_number 75 settings.qualities ≡ true
unfolding program
quality_listed = refl

parse_image_request-IsAllowed_example : IsAllowed platform settings (parsed file)
parse_image_request-IsAllowed_example =
    parse_image_request-IsAllowed platform settings (ask file) (parsed file) file_accepted

fetch_with_redirects-Leads_example :
    ((fetch_with_redirects platform 3 gone).1 ≡ fetched no_content)
    ↔ Leads platform 3 gone no_content
fetch_with_redirects-Leads_example = fetch_with_redirects-Leads platform 3 gone no_content

handle_image_request-IsGuarded_example :
    IsGuarded platform settings (handle_image_request platform settings (ask file))
handle_image_request-IsGuarded_example = handle_image_request-IsGuarded platform settings (ask file)

handle_cdn_cgi_image_request-IsInput_example :
    IsInput platform settings (handle_cdn_cgi_image_request platform settings (ask file))
handle_cdn_cgi_image_request-IsInput_example =
    handle_cdn_cgi_image_request-IsInput platform settings (ask file)

handle_image_request-no_content_example : handle_image_request platform settings (ask gone) ≡ none
handle_image_request-no_content_example =
    handle_image_request-no_content platform settings (ask gone) (parsed gone) no_content
      gone_accepted absolute gone_fetched (inl (refl, refl))
