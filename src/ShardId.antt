-- ===== src/ShardId.antt =====
-- packages/core/src/core/routing/queue.ts: the hash that spreads paths and tags over shards.
-- A 32-bit integer is its bit pattern, a number below 2 ^ 32: the code leaves signed integers only in
-- the arguments of `^`, `>>>`, `|` and `Math.imul`, which read the pattern.
pub mod Bounds
mod Tests
use Prim.Native.Char.{code}
use Prim.Native.Nat.{bit_or, bit_xor}
use Prim.Native.String
use adapters_api.Common.{
  ℕ, zero, suc, ◌+◌, ◌*◌, ◌/◌, ◌%◌, ◌^◌, String, List, [], ◌∷◌, ltb, if◌then◌else◌,
}

abbrev pub word : ℕ
word = 2 ^ 32

-- `Math.imul`
unfoldable pub imul : ℕ → ℕ → ℕ
imul a b = (a % word * (b % word)) % word

-- `x >>> k`
unfoldable pub shr : ℕ → ℕ → ℕ
shr x k = x % word / 2 ^ k

-- `x ^ y`
unfoldable pub xor32 : ℕ → ℕ → ℕ
xor32 x y = bit_xor (x % word) (y % word)

-- `x | y`
unfoldable pub or32 : ℕ → ℕ → ℕ
or32 x y = bit_or (x % word) (y % word)

-- the loop of `cyrb128`, over the character codes
unfoldable pub mix : List ℕ → ℕ → ℕ → ℕ → ℕ → ℕ × ℕ × ℕ × ℕ
mix [] h1 h2 h3 h4 = (h1, h2, h3, h4)
mix (k ∷ ks) h1 h2 h3 h4 =
    let a = xor32 h2 (imul (xor32 h1 k) 597399067) in
    let b = xor32 h3 (imul (xor32 h2 k) 2869860233) in
    let c = xor32 h4 (imul (xor32 h3 k) 951274213) in
    let d = xor32 a (imul (xor32 h4 k) 2716044179) in mix ks a b c d

-- `cyrb128`
unfoldable pub cyrb128 : List ℕ → ℕ
cyrb128 ks =
    let (h1, h2, h3, h4) = mix ks 1779033703 3144134277 1013904242 2773480762 in
    let a = imul (xor32 h3 (shr h1 18)) 597399067 in
    let b = imul (xor32 h4 (shr h2 22)) 2869860233 in
    let c = imul (xor32 a (shr h3 17)) 951274213 in
    let d = imul (xor32 b (shr h4 19)) 2716044179 in xor32 a (xor32 (xor32 b c) d) % word

-- The numerator of `randomFloat` over 4294967296.
unfoldable pub random_numerator : List ℕ → ℕ
random_numerator ks =
    let a = cyrb128 ks + 0x6d2b79f5 in
    let t = imul (xor32 a (shr a 15)) (or32 a 1) in
    let u = xor32 t (t + imul (xor32 t (shr t 7)) (or32 t 61)) in xor32 u (shr u 14) % word

-- `Math.floor(randomFloat * maxConcurrency)`: both factors are exact in a double, and so is the
-- product while `maxConcurrency` is at most 2 ^ 21.
unfoldable pub random_int : List ℕ → ℕ → ℕ
random_int ks max_concurrency = random_numerator ks * max_concurrency / word

-- The UTF-16 codes of a text: the code points, for text of the basic plane.
unfoldable pub char_codes : String → List ℕ
char_codes String.[] = []
char_codes (String.◌∷◌ c s) = code c ∷ char_codes s

unfoldable pub digit : ℕ → String
digit zero = "0"
digit (suc zero) = "1"
digit (suc (suc zero)) = "2"
digit (suc (suc (suc zero))) = "3"
digit (suc (suc (suc (suc zero)))) = "4"
digit (suc (suc (suc (suc (suc zero))))) = "5"
digit (suc (suc (suc (suc (suc (suc zero)))))) = "6"
digit (suc (suc (suc (suc (suc (suc (suc zero))))))) = "7"
digit (suc (suc (suc (suc (suc (suc (suc (suc zero)))))))) = "8"
digit _ = "9"

-- The decimal text of a number with at most `fuel` digits.
unfoldable pub decimal_from : ℕ → ℕ → String
decimal_from zero n = ""
decimal_from (suc fuel) n =
    let front = decimal_from fuel (n / 10) in
    if ltb n 10 then digit n else String.◌++◌ front (digit (n % 10))

-- `String(n)`; a number has no more digits than its successor
unfoldable pub decimal : ℕ → String
decimal n = decimal_from (suc n) n

-- `generateShardId`
unfoldable pub generate_shard_id : String → ℕ → String → String
generate_shard_id raw_path max_concurrency prefix =
    String.◌++◌ prefix
      (String.◌++◌ "-" (decimal (random_int (char_codes raw_path) max_concurrency)))

-- `generateMessageGroupId`, with the value of `MAX_REVALIDATE_CONCURRENCY`
unfoldable pub generate_message_group_id : ℕ → String → String
generate_message_group_id max_concurrency raw_path =
    generate_shard_id raw_path max_concurrency "revalidate"
