-- ===== src/Prelude/Words.antt =====
-- The C integer types as bit patterns: an `int32_t` and an `unsigned int` are numbers below
-- `2 ^ 32`, and arithmetic on them wraps. `signed` order reads the pattern as two's complement.
use Prim.Native.Nat.{ℕ, ◌+◌, ◌-◌, ◌%◌, ◌^◌, ◌<◌}
use mathlib.Core.Path.{◌≡◌}
use mathlib.Core.Bool.{Bool}
use native.Mathlib.Omega.{arith}
use devclego.Prelude.Tests.{ltb, leb, if◌then◌else◌}

abbrev pub word : ℕ
word = 2 ^ 32

-- the patterns below it are the integers that are not negative
abbrev pub sign : ℕ
sign = 2 ^ 31

abbrev pub add32 : ℕ → ℕ → ℕ
add32 a b = (a + b) % word

abbrev pub sub32 : ℕ → ℕ → ℕ
sub32 a b = (a + word - b) % word

-- The signed order of two patterns.
abbrev pub lt_signed : ℕ → ℕ → Bool
lt_signed a b = ltb ((a + sign) % word) ((b + sign) % word)

abbrev pub le_signed : ℕ → ℕ → Bool
le_signed a b = leb ((a + sign) % word) ((b + sign) % word)

-- How often `for(i = 0; i < c; ++i)` runs at an `int32_t` bound `c`.
abbrev pub rounds : ℕ → ℕ
rounds c = if ltb c sign then c else 0

-- On patterns that are not negative the signed order is that of the numbers.
pub lt_signed-pos : (a b : ℕ) → a < sign → b < sign → lt_signed a b ≡ ltb a b
lt_signed-pos a b ha hb = ground arith

pub le_signed-pos : (a b : ℕ) → a < sign → b < sign → le_signed a b ≡ leb a b
le_signed-pos a b ha hb = ground arith
