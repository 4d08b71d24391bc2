-- ===== src/Images.antt =====
-- packages/cloudflare/src/cli/templates/images.ts: the settings that the build writes into the
-- handler of `/_next/image`, and what it takes from its platform.
pub mod Params
pub mod ContentType
pub mod Redirects
pub mod Handler
pub mod CdnCgi
pub mod Accepted
pub mod Matches
pub mod Allowed
pub mod Chains
pub mod Followed
pub mod Signatures
pub mod Served
pub mod Inputs
mod Tests
use adapters_api.Common.{ℕ, ◌≡◌, ◌⊎◌, inl, inr, refl, String, Bool, Option, List}
use adapters_api.Common.Text.{Text}

abbrev pub Bytes : Type 0
Bytes = List ℕ

-- `ImageContentType`
pub data ImageContentType : Type 0 where
  avif webp png jpeg jxl jp2 heic gif svg ico icns tiff bmp : ImageContentType

-- `OptimizedImageFormat`
pub data OptimizedImageFormat : Type 0 where
  to_avif to_webp : OptimizedImageFormat

pub record RemotePattern : Type 0 where
  pub protocol : Option Text
  pub hostname : Option Text
  pub port : Option Text
  pub pathname : Text
  pub search : Option Text

pub record LocalPattern : Type 0 where
  pub pathname : Text
  pub search : Option Text

-- the globals `__IMAGES_…__` and `__NEXT_BASE_PATH__`
pub record Settings : Type 0 where
  pub base_path : Text
  pub remote_patterns : List RemotePattern
  pub local_patterns : List LocalPattern
  pub device_sizes : List ℕ
  pub image_sizes : List ℕ
  pub qualities : List ℕ
  pub formats : List OptimizedImageFormat
  pub allow_svg : Bool
  pub content_security_policy : String
  pub content_disposition : String
  pub max_redirects : ℕ

-- The members of a `URL` that the code reads.
pub record Url : Type 0 where
  pub href : Text
  pub protocol : Text
  pub hostname : Text
  pub port : Text
  pub pathname : Text
  pub search : Text

-- A `Response` of `fetch`: its status, two of its headers, and its body.
pub record Response : Type 0 where
  pub status : ℕ
  pub location : Option Text
  pub cache_control : Option Text
  pub body : Option Bytes

-- What a call of `fetch` ends with: the timeout, another exception, or a response.
pub data Fetched : Type 0 where
  timed_out rejected : Fetched
  answered : Response → Fetched

-- The code that the handler calls, `none` where it throws: `new URL(text)`, the `href` of
-- `new URL(text, base)`, `decodeURIComponent`, `new RegExp(source).test(text)`, `fetch` with the
-- number of redirects that are left at the call, `fetch` that follows redirects itself,
-- `readAtLeast(32)` on the stream of a body (`none` for
-- a value of `undefined`), the bindings `ASSETS` and `IMAGES` with a width, a quality and an output
-- format.
pub record Platform : Type 0 where
  pub parse_url : Text → Option Url
  pub resolve : Text → Text → Option Text
  pub decode_uri_component : Text → Option Text
  pub regex_test : Text → Text → Bool
  pub fetch : ℕ → Text → Fetched
  pub fetch_following : Text → Option Response
  pub read_at_least : Bytes → Option Bytes
  pub assets : Option (Text → Response)
  pub images : Option (Bytes → ℕ → ℕ → ImageContentType → Option Bytes)

-- A request: its URL with the values of three query parameters, and its `Accept` header.
pub record ImageRequest : Type 0 where
  pub href : Text
  pub pathname : Text
  pub urls : List Text
  pub widths : List Text
  pub qualities : List Text
  pub accept : Option Text

-- A checked value, an `ErrorResult` with its message, or an exception.
pub data Result {ℓ} (A : Type ℓ) : Type ℓ where
  ok : A → Result A
  error : String → Result A
  thrown : Result A

pub Result-cases {ℓ} :
    {A : Type ℓ} (r : Result A)
    → ((a : A) × (r ≡ ok a)) ⊎ (((m : String) × (r ≡ error m)) ⊎ (r ≡ thrown))
Result-cases (ok a) = inl (a, refl)
Result-cases (error m) = inr (inl (m, refl))
Result-cases thrown = inr (inr refl)
