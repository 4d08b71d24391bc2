-- ===== src/Common/Assoc.antt =====
-- A JavaScript `Map<string, V>`, or an SQL table with a text primary key, as an association list in
-- insertion order. `insert` keeps the position of a key that is there, as `Map.set` does.
use Prim.Native.Nat.{◌+◌, ◌≤◌}
use Prim.Native.String.{String}
use mathlib.Core.Path.{◌≡◌, refl}
use mathlib.Core.Logic.{◌⊎◌, inl, inr, ◌≢◌}
use mathlib.Core.Bool.{Bool, true, false, ◌||◌}
use mathlib.Core.Option.{Option, none, some}
use mathlib.Core.List.{List, [], ◌∷◌}
use native.Mathlib.Omega.{arith}
use text.Mathlib.Text.{◌==◌}
use text.Mathlib.TextEquality.{eq_iff}
use adapters_api.Common.Logic.{if◌then◌else◌, Bool-cases}
use adapters_api.Common.Lists.{length, All}

module _ {ℓ} {V : Type ℓ} where
  unfoldable pub has : String → List (String × V) → Bool
  has key [] = false
  has key ((other, _) ∷ rest) = other == key || has key rest

  unfoldable pub lookup : String → List (String × V) → Option V
  lookup key [] = none
  lookup key ((other, value) ∷ rest) = if other == key then some value else lookup key rest

  -- every entry with the key goes
  unfoldable pub remove : String → List (String × V) → List (String × V)
  remove key [] = []
  remove key ((other, value) ∷ rest) =
      let kept = remove key rest in if other == key then kept else (other, value) ∷ kept

  unfoldable pub insert : String → V → List (String × V) → List (String × V)
  insert key value [] = (key, value) ∷ []
  insert key value ((other, old) ∷ rest) =
      if other == key then (key, value) ∷ rest else (other, old) ∷ insert key value rest

  -- `{ ...first, ...second }`
  unfoldable pub spread : List (String × V) → List (String × V) → List (String × V)
  spread first [] = first
  spread first ((key, value) ∷ second) = spread (insert key value first) second

  pub lookup-remove :
      (k j : String) (m : List (String × V))
      → lookup j (remove k m) ≡ (if k == j then none else lookup j m)
  unfolding lookup remove
  lookup-remove k j [] = ground arith
  lookup-remove k j ((i, w) ∷ m) =
      ground (arith, eq_iff k j, eq_iff i k, eq_iff i j, lookup-remove k j m)

  pub lookup-insert :
      (key asked : String) (value : V) (table : List (String × V))
      → lookup asked (insert key value table)
        ≡ (if key == asked then some value else lookup asked table)
  unfolding lookup insert
  lookup-insert key asked value [] = refl
  lookup-insert key asked value ((other, old) ∷ rest) =
      let earlier = lookup-insert key asked value rest in
      ground (arith, eq_iff other key, eq_iff key asked, eq_iff other asked, earlier)

  pub has-remove_self : (k : String) (m : List (String × V)) → has k (remove k m) ≡ false
  unfolding has remove
  has-remove_self k [] = refl
  has-remove_self k ((i, w) ∷ m) = ground (arith, has-remove_self k m)

  pub has-remove_ne : (k j : String) (m : List (String × V)) → k ≢ j → has j (remove k m) ≡ has j m
  unfolding has remove
  has-remove_ne k j [] h = refl
  has-remove_ne k j ((i, w) ∷ m) h = ground (arith, eq_iff i k, eq_iff i j, has-remove_ne k j m h)

  -- a key is there exactly when a lookup finds it
  pub has-eq_lookup :
      (k : String) (m : List (String × V))
      → (has k m ≡ true) × ((v : V) × (lookup k m ≡ some v))
        ⊎ (has k m ≡ false) × (lookup k m ≡ none)
  unfolding has lookup
  has-eq_lookup k [] = ground arith
  has-eq_lookup k ((j, v) ∷ m) = grind (arith, has-eq_lookup k m)

  pub length-remove-le : (k : String) (m : List (String × V)) → length (remove k m) ≤ length m
  unfolding remove
  length-remove-le k [] = omega arith
  length-remove-le k ((j, w) ∷ m) = ground (arith, length-remove-le k m)

  pub length-insert-le :
      (k : String) (v : V) (m : List (String × V)) → length (insert k v m) ≤ length m + 1
  unfolding insert
  length-insert-le k v [] = omega arith
  length-insert-le k v ((j, w) ∷ m) = ground (arith, length-insert-le k v m)

  module _ {κ} (P : String × V → Type κ) where
    pub All-remove : (k : String) (m : List (String × V)) → All P m → All P (remove k m)
    unfolding remove
    All-remove k [] _ = tt
    All-remove k (e ∷ m) (p, h) = ground (arith, All-remove k m h)

    pub All-insert :
        (k : String) (v : V) (m : List (String × V)) → All P m → P (k, v) → All P (insert k v m)
    unfolding insert
    All-insert k v [] _ q = (q, tt)
    All-insert k v (e ∷ m) (p, h) q = ground (arith, All-insert k v m h q)

    pub All-lookup :
        (k : String) (v : V) (m : List (String × V)) → All P m → lookup k m ≡ some v → P (k, v)
    unfolding lookup
    All-lookup k v [] _ e = cc
    All-lookup k v ((j, w) ∷ m) (p, h) e = ground (arith, eq_iff j k, All-lookup k v m h)

  -- what `remove` leaves has another key
  pub All-remove_ne {κ} :
      {P Q : String × V → Type κ} (k : String) (m : List (String × V))
      → ((e : String × V) → P e → e.0 ≢ k → Q e)
      → All P m
      → All Q (remove k m)
  unfolding remove
  All-remove_ne k [] f _ = tt
  All-remove_ne k (e ∷ m) f (p, h) = elim (Bool-cases (e.0 == k)) [
    | inl same ↦ rw same (All-remove_ne k m f h)
    | inr other ↦ rw other (f e p (λ q. ground (arith, eq_iff e.0 k)), All-remove_ne k m f h)
  ]

  -- no key stands twice: what a `Map` and a primary key give
  abbrev pub IsUnique : List (String × V) → Type 0
  IsUnique [] = Unit
  IsUnique ((k, _) ∷ m) = (has k m ≡ false) × IsUnique m

  pub has-insert :
      (k j : String) (v : V) (m : List (String × V)) → has j (insert k v m) ≡ (k == j || has j m)
  unfolding has insert
  has-insert k j v [] = refl
  has-insert k j v ((i, w) ∷ m) =
      ground (arith, eq_iff k j, eq_iff i k, eq_iff i j, has-insert k j v m)

  pub insert-IsUnique :
      (k : String) (v : V) (m : List (String × V)) → IsUnique m → IsUnique (insert k v m)
  unfolding insert has
  insert-IsUnique k v [] _ = (refl, tt)
  insert-IsUnique k v ((i, w) ∷ m) (p, h) =
      ground (arith, eq_iff i k, eq_iff k i, has-insert k i v m, insert-IsUnique k v m h)

  pub lookup_absent : (k : String) (m : List (String × V)) → has k m ≡ false → lookup k m ≡ none
  unfolding has lookup
  lookup_absent k [] e = refl
  lookup_absent k ((j, v) ∷ m) e = ground (arith, lookup_absent k m)
