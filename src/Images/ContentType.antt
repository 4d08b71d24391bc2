-- ===== src/Images/ContentType.antt =====
-- packages/cloudflare/src/cli/templates/images.ts: the content type by the first bytes of a file, and
-- the check of an upstream image.
use adapters_api.Common.{
  ℕ, String, Bool, true, false, ◌&&◌, ◌||◌, Option, none, some, List, [], ◌∷◌, ◌==◌, if◌then◌else◌,
}
use adapters_api.Images.{
  Bytes, ImageContentType, avif, webp, png, jpeg, jxl, jp2, heic, gif, svg, ico, icns, tiff, bmp,
}

-- `signature.every((b, i) => buffer[i] === b)`; a byte out of range is `undefined`
unfoldable pub has_bytes : List ℕ → Bytes → Bool
has_bytes [] buffer = true
has_bytes (b ∷ signature) [] = false
has_bytes (b ∷ signature) (x ∷ buffer) = x == b && has_bytes signature buffer

-- `signature.every((b, i) => !b || buffer[i] === b)`
unfoldable pub has_bytes_masked : List ℕ → Bytes → Bool
has_bytes_masked [] buffer = true
has_bytes_masked (b ∷ signature) [] = b == 0 && has_bytes_masked signature []
has_bytes_masked (b ∷ signature) (x ∷ buffer) =
    (b == 0 || x == b) && has_bytes_masked signature buffer

-- `detectImageContentType`
unfoldable pub detect_image_content_type : Bytes → Option ImageContentType
detect_image_content_type buffer =
    if has_bytes (0xff ∷ 0xd8 ∷ 0xff ∷ []) buffer
    then some jpeg
    else if has_bytes (0x89 ∷ 0x50 ∷ 0x4e ∷ 0x47 ∷ 0x0d ∷ 0x0a ∷ 0x1a ∷ 0x0a ∷ []) buffer
    then some png
    else if has_bytes (0x47 ∷ 0x49 ∷ 0x46 ∷ 0x38 ∷ []) buffer
    then some gif
    else if has_bytes_masked
        (0x52 ∷ 0x49 ∷ 0x46 ∷ 0x46 ∷ 0 ∷ 0 ∷ 0 ∷ 0 ∷ 0x57 ∷ 0x45 ∷ 0x42 ∷ 0x50 ∷ []) buffer
    then some webp
    else if has_bytes (0x3c ∷ 0x3f ∷ 0x78 ∷ 0x6d ∷ 0x6c ∷ []) buffer
    then some svg
    else if has_bytes (0x3c ∷ 0x73 ∷ 0x76 ∷ 0x67 ∷ []) buffer
    then some svg
    else if has_bytes_masked
        (0 ∷ 0 ∷ 0 ∷ 0 ∷ 0x66 ∷ 0x74 ∷ 0x79 ∷ 0x70 ∷ 0x61 ∷ 0x76 ∷ 0x69 ∷ 0x66 ∷ []) buffer
    then some avif
    else if has_bytes (0x00 ∷ 0x00 ∷ 0x01 ∷ 0x00 ∷ []) buffer
    then some ico
    else if has_bytes (0x69 ∷ 0x63 ∷ 0x6e ∷ 0x73 ∷ []) buffer
    then some icns
    else if has_bytes (0x49 ∷ 0x49 ∷ 0x2a ∷ 0x00 ∷ []) buffer
    then some tiff
    else if has_bytes (0x42 ∷ 0x4d ∷ []) buffer
    then some bmp
    else if has_bytes (0xff ∷ 0x0a ∷ []) buffer
    then some jxl
    else if has_bytes
        (0x00 ∷ 0x00 ∷ 0x00 ∷ 0x0c ∷ 0x4a ∷ 0x58 ∷ 0x4c ∷ 0x20 ∷ 0x0d ∷ 0x0a ∷ 0x87 ∷ 0x0a ∷ [])
        buffer
    then some jxl
    else if has_bytes_masked
        (0 ∷ 0 ∷ 0 ∷ 0 ∷ 0x66 ∷ 0x74 ∷ 0x79 ∷ 0x70 ∷ 0x68 ∷ 0x65 ∷ 0x69 ∷ 0x63 ∷ []) buffer
    then some heic
    else if has_bytes
        (0x00 ∷ 0x00 ∷ 0x00 ∷ 0x0c ∷ 0x6a ∷ 0x50 ∷ 0x20 ∷ 0x20 ∷ 0x0d ∷ 0x0a ∷ 0x87 ∷ 0x0a ∷ [])
        buffer
    then some jp2
    else none

-- the constants `AVIF`, `WEBP`, …
unfoldable pub mime : ImageContentType → String
mime avif = "image/avif"
mime webp = "image/webp"
mime png = "image/png"
mime jpeg = "image/jpeg"
mime jxl = "image/jxl"
mime jp2 = "image/jp2"
mime heic = "image/heic"
mime gif = "image/gif"
mime svg = "image/svg+xml"
mime ico = "image/x-icon"
mime icns = "image/x-icns"
mime tiff = "image/tiff"
mime bmp = "image/bmp"
