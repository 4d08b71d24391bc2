-- ===== src/Common/Text.antt =====
-- Text as a list of UTF-16 codes, for the code that looks into a text, with the string methods it
-- calls there.
use Prim.Native.Nat.{ℕ}
use mathlib.Core.Path.{◌≡◌, refl}
use mathlib.Core.Bool.{Bool, true, false, ◌&&◌, ◌||◌}
use mathlib.Core.List.{List, [], ◌∷◌, ◌++◌}
use mathlib.Core.Logic.{inl, inr, ◌≢◌}
use native.Mathlib.Omega.{arith}
use adapters_api.Common.Lists.{append_nil}
use adapters_api.Common.Logic.{◌==◌, ==_iff, Bool-cases, if◌then◌else◌}

abbrev pub Text : Type 0
Text = List ℕ

-- `text.startsWith(prefix)`
unfoldable pub starts_with : Text → Text → Bool
starts_with text [] = true
starts_with [] (c ∷ prefix) = false
starts_with (a ∷ text) (c ∷ prefix) = a == c && starts_with text prefix

-- `text.includes(part)`
unfoldable pub includes : Text → Text → Bool
includes [] part = starts_with [] part
includes (a ∷ text) part = starts_with (a ∷ text) part || includes text part

-- `a === b`
unfoldable pub same_text : Text → Text → Bool
same_text [] [] = true
same_text [] (b ∷ bs) = false
same_text (a ∷ as') [] = false
same_text (a ∷ as') (b ∷ bs) = a == b && same_text as' bs

-- `text.split(c)`: the first part, and the parts after it
unfoldable pub split : ℕ → Text → Text × List Text
split c [] = ([], [])
split c (a ∷ text) =
    let (part, parts) = split c text in if a == c then ([], part ∷ parts) else (a ∷ part, parts)

-- `parts.join(c)`
unfoldable pub join : ℕ → List Text → Text
join c [] = []
join c (part ∷ []) = part
join c (part ∷ next ∷ parts) = part ++ c ∷ join c (next ∷ parts)

-- whether `c` occurs: `text.includes(c)` for one character
unfoldable pub has_char : ℕ → Text → Bool
has_char c [] = false
has_char c (a ∷ text) = a == c || has_char c text

-- the parts after the first, each behind the separator
unfoldable pub glue : ℕ → List Text → Text
glue c [] = []
glue c (part ∷ parts) = c ∷ part ++ glue c parts

pub glue-join : (c : ℕ) (parts : List Text) → parts ≢ [] → c ∷ join c parts ≡ glue c parts
unfolding glue join
glue-join c [] h = ground arith
glue-join c (part ∷ []) h = rw (append_nil part) refl
glue-join c (part ∷ next ∷ parts) h = rw (glue-join c (next ∷ parts) (ground arith)) refl

pub split-glue : (c : ℕ) (text : Text) → (split c text).0 ++ glue c (split c text).1 ≡ text
unfolding split glue
split-glue c [] = refl
split-glue c (a ∷ text) = elim (Bool-cases (a == c)) [
  | inl e ↦ ground (arith, split-glue c text, ==_iff a c)
  | inr e ↦ ground (arith, split-glue c text)
]

pub has_char-split : (c : ℕ) (text : Text) → has_char c (split c text).0 ≡ false
unfolding split has_char
has_char-split c [] = refl
has_char-split c (a ∷ text) = ground (arith, has_char-split c text)

pub split_without : (c : ℕ) (text : Text) → has_char c text ≡ false → split c text ≡ (text, [])
unfolding split has_char
split_without c [] h = refl
split_without c (a ∷ text) h = ground (arith, split_without c text)

pub split_with : (c : ℕ) (text : Text) → has_char c text ≡ true → (split c text).1 ≢ []
unfolding split has_char
split_with c [] h = cc
split_with c (a ∷ text) h = ground (arith, split_with c text)
