-- ===== src/Base/Bits.antt =====
-- Single bits of a number, and 32-bit numbers as four bytes, the lowest first.
use Prim.Native.Nat.{ℕ, ◌+◌, ◌-◌, ◌*◌, ◌/◌, ◌%◌, ◌<◌}
use mathlib.Core.Path.{◌≡◌, ap}
use mathlib.Core.Bool.{Bool}
use mathlib.Core.Option.{Option, none, some}
use mathlib.Core.List.{List, [], ◌∷◌, ◌++◌}
use native.Mathlib.Omega.{arith}
use linuxapi.Base.Tests.{◌==◌, if◌then◌else◌}

-- `m & b`, for one bit `b`
abbrev pub has_bit : (m b : ℕ) → Bool
has_bit m b = (m / b) % 2 == 1

-- `m | b` and `m & ~b`, for one bit `b`
abbrev pub set_bit : (m b : ℕ) → ℕ
set_bit m b = if has_bit m b then m else m + b

abbrev pub clear_bit : (m b : ℕ) → ℕ
clear_bit m b = if has_bit m b then m - b else m

-- What a bit counts.
pub bit_value : (m b : ℕ) → (if has_bit m b then b else 0) ≡ (m / b) % 2 * b
bit_value m b = grind arith

-- The bytes of a 32-bit number in memory, and the number that starts at a place of memory.
abbrev pub bytes_of_word : ℕ → List ℕ
bytes_of_word w = (w % 256) ∷ ((w / 256) % 256) ∷ ((w / 65536) % 256) ∷ ((w / 16777216) % 256) ∷ []

abbrev pub word_at : List ℕ → Option ℕ
word_at (a ∷ b ∷ c ∷ d ∷ rest) = some (a + b * 256 + c * 65536 + d * 16777216)
word_at _ = none

pub four_bytes :
    (w : ℕ)
    → w < 4294967296
    → (w % 256)
        + ((w / 256) % 256) * 256
        + ((w / 65536) % 256) * 65536
        + ((w / 16777216) % 256) * 16777216
      ≡ w
four_bytes w lt = omega arith

pub word_at-bytes_of_word :
    (w : ℕ) (rest : List ℕ) → w < 4294967296 → word_at (bytes_of_word w ++ rest) ≡ some w
word_at-bytes_of_word w rest lt = ap some (four_bytes w lt)
