-- ===== src/Images/Accepted.antt =====
-- packages/cloudflare/src/cli/templates/images.ts: the parts of a relative URL, and the numbers
-- of a request.
use adapters_api.Common.{
  ℕ, zero, suc, ◌+◌, ◌-◌, ◌*◌, ◌/◌, ◌%◌, ◌≤◌, ◌<◌, ◌≡◌, inl, inr, refl, arith, true, false, ◌||◌,
  List, [], ◌∷◌, ◌++◌, ltb, if◌then◌else◌, Bool-cases, ap, append_nil,
}
use adapters_api.Common.Text.{
  Text, has_char, split, glue-join, split-glue, has_char-split, split_without, split_with,
}
use adapters_api.Images.{Settings, Platform, ok}
use adapters_api.Images.Params.{
  has_number, parse_relative_url, pathname_from_relative_url, all_digits, is_numeral, digits_from,
  parse_int, validate_width, validate_quality,
}

-- The two parts of a relative URL make up the URL again, and the part that the patterns and the check
-- for recursion look at has no question mark.
parse_relative_url-parts :
    (url : Text)
    → ((parse_relative_url url).pathname ++ (parse_relative_url url).search ≡ url)
      × (has_char b'?' (parse_relative_url url).pathname ≡ false)
      × (pathname_from_relative_url url ≡ (parse_relative_url url).pathname)
unfolding parse_relative_url pathname_from_relative_url
parse_relative_url-parts url = elim (Bool-cases (has_char b'?' url)) [
  | inl e ↦
      let parts = (split b'?' url).1 in
      let search = glue-join b'?' parts (split_with b'?' url e) in
      rw e (rw search (split-glue b'?' url), has_char-split b'?' url, refl)
  | inr e ↦ rw e (append_nil url, e, ap (λ (x : Text × List Text). x.0) (split_without b'?' url e))
]

-- the decimal digits of a number that has at most `fuel` of them
unfoldable pub numeral_from : ℕ → ℕ → Text
numeral_from zero n = []
numeral_from (suc fuel) n =
    let front = numeral_from fuel (n / 10) in
    if ltb n 10 then (b'0' + n) ∷ [] else front ++ (b'0' + n % 10) ∷ []

unfoldable pub numeral : ℕ → Text
numeral n = numeral_from (suc n) n

digits_from-append :
    (n d : ℕ) (text : Text) → digits_from n (text ++ (b'0' + d) ∷ []) ≡ digits_from n text * 10 + d
unfolding digits_from
digits_from-append n d [] = omega arith
digits_from-append n d (c ∷ text) = digits_from-append (n * 10 + (c - b'0')) d text

all_digits-append :
    (d : ℕ) (text : Text)
    → all_digits text ≡ true
    → d < 10
    → all_digits (text ++ (b'0' + d) ∷ []) ≡ true
unfolding all_digits
all_digits-append d [] h b = ground arith
all_digits-append d (c ∷ text) h b = ground (arith, all_digits-append d text)

is_numeral-append :
    (d : ℕ) (text : Text)
    → all_digits text ≡ true
    → d < 10
    → is_numeral (text ++ (b'0' + d) ∷ []) ≡ true
unfolding is_numeral
is_numeral-append d [] h b = all_digits-append d [] h b
is_numeral-append d (c ∷ text) h b = all_digits-append d (c ∷ text) h b

is_numeral-all : (text : Text) → is_numeral text ≡ true → all_digits text ≡ true
unfolding is_numeral
is_numeral-all [] h = cc
is_numeral-all (c ∷ text) h = h

single_digit :
    (n : ℕ) → n < 10 → (is_numeral ((b'0' + n) ∷ []) ≡ true) × (digits_from 0 ((b'0' + n) ∷ []) ≡ n)
unfolding is_numeral all_digits digits_from
single_digit n h = (ground arith, omega arith)

numeral_from_correct :
    (fuel n : ℕ)
    → n < fuel
    → (is_numeral (numeral_from fuel n) ≡ true) × (digits_from 0 (numeral_from fuel n) ≡ n)
unfolding numeral_from
numeral_from_correct zero n h = ground arith
numeral_from_correct (suc fuel) n h = elim (Bool-cases (ltb n 10)) [
  | inl e ↦ rw e (single_digit n (ground arith))
  | inr e ↦
      let front = numeral_from fuel (n / 10) in
      let (shape, value) = numeral_from_correct fuel (n / 10) (ground arith) in
      rw e (
        is_numeral-append (n % 10) front (is_numeral-all front shape) (omega arith),
        ground (arith, digits_from-append 0 (n % 10) front),
      )
]

-- A width and a quality that the settings allow are accepted when they are written in decimal.
validate-numeral :
    (p : Platform) (s : Settings) (width quality : ℕ)
    → 0 < width
    → (has_number width s.device_sizes || has_number width s.image_sizes) ≡ true
    → 1 ≤ quality
    → quality ≤ 100
    → has_number quality s.qualities ≡ true
    → (validate_width p s (numeral width ∷ []) ≡ ok width)
      × (validate_quality p s (numeral quality ∷ []) ≡ ok quality)
unfolding validate_width validate_quality numeral parse_int
validate-numeral p s width quality positive size least most listed =
    let (shape_w, value_w) = numeral_from_correct (suc width) width (omega arith) in
    let (shape_q, value_q) = numeral_from_correct (suc quality) quality (omega arith) in
    (rw (shape_w, value_w, size) (ground arith), rw (shape_q, value_q, listed) (ground arith))
