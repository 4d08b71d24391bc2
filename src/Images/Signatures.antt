-- ===== src/Images/Signatures.antt =====
-- packages/cloudflare/src/cli/templates/images.ts: which files `detectImageContentType` takes for SVG,
-- which may hold scripts, and for the two types of the ISO media format.
use adapters_api.Common.{
  ℕ, ◌≡◌, ◌↔◌, inl, inr, refl, arith, true, ◌||◌, some, List, [], ◌∷◌, ◌++◌, ◌==◌, ==_iff,
  Bool-cases,
}
use adapters_api.Images.{Bytes, avif, heic, svg}
use adapters_api.Images.ContentType.{has_bytes, has_bytes_masked, detect_image_content_type}

abbrev pub xml_bytes : List ℕ
xml_bytes = 0x3c ∷ 0x3f ∷ 0x78 ∷ 0x6d ∷ 0x6c ∷ []

abbrev pub svg_bytes : List ℕ
svg_bytes = 0x3c ∷ 0x73 ∷ 0x76 ∷ 0x67 ∷ []

-- `ftypavif` and `ftypheic`, which come after the length of the first box
abbrev pub ftyp_avif : List ℕ
ftyp_avif = 0x66 ∷ 0x74 ∷ 0x79 ∷ 0x70 ∷ 0x61 ∷ 0x76 ∷ 0x69 ∷ 0x66 ∷ []

abbrev pub ftyp_heic : List ℕ
ftyp_heic = 0x66 ∷ 0x74 ∷ 0x79 ∷ 0x70 ∷ 0x68 ∷ 0x65 ∷ 0x69 ∷ 0x63 ∷ []

svg_detected :
    (buffer : Bytes)
    → (has_bytes xml_bytes buffer || has_bytes svg_bytes buffer) ≡ true
    → detect_image_content_type buffer ≡ some svg
unfolding has_bytes has_bytes_masked detect_image_content_type
svg_detected [] h = cc
svg_detected (x ∷ buffer) h =
    let first : x ≡ 0x3c = ground (arith, ==_iff x 0x3c) in ground (arith, first)

detected_svg :
    (buffer : Bytes)
    → detect_image_content_type buffer ≡ some svg
    → (has_bytes xml_bytes buffer || has_bytes svg_bytes buffer) ≡ true
unfolding detect_image_content_type
detected_svg buffer h = ground arith

-- A file counts as SVG exactly when it starts with `<?xml` or `<svg`: no other signature hides it.
detect_image_content_type-svg :
    (buffer : Bytes)
    → (detect_image_content_type buffer ≡ some svg)
      ↔ ((has_bytes xml_bytes buffer || has_bytes svg_bytes buffer) ≡ true)
detect_image_content_type-svg buffer = (detected_svg buffer, svg_detected buffer)

-- A file whose first box is shorter than 256 bytes and has the brand `avif` or `heic` is detected as
-- that type, whatever comes after.
detect_image_content_type-brand :
    (size : ℕ) (rest : Bytes)
    → (detect_image_content_type (0 ∷ 0 ∷ 0 ∷ size ∷ ftyp_avif ++ rest) ≡ some avif)
      × (detect_image_content_type (0 ∷ 0 ∷ 0 ∷ size ∷ ftyp_heic ++ rest) ≡ some heic)
unfolding has_bytes has_bytes_masked detect_image_content_type
detect_image_content_type-brand size rest = elim (Bool-cases (size == 0x0c)) [
  | inl e ↦ rw e (refl, refl)
  | inr e ↦ rw e (refl, refl)
]
