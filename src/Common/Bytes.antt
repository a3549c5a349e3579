-- ===== src/Common/Bytes.antt =====
-- The little-endian reads `le16`, `le32` and `le64` that src/fs/*.c repeat, on a sector's bytes.
use peanut_kernel.Common.Tests.{ltb, ◌==◌}
use peanut_kernel.Common.Lists.{get_or}
use peanut_kernel.Common.Bits.{bit_or-high_low}
use Prim.Native.Nat.{ℕ, zero, suc, ◌+◌, ◌*◌, ◌^◌, ◌<◌, bit_or}
use mathlib.Core.Bool.{Bool, true, ◌&&◌}
use mathlib.Core.Path.{◌≡◌}
use mathlib.Core.List.{List, [], ◌∷◌}
use native.Mathlib.Omega.{arith}

-- `p[i]`; a read past the end of a buffer is undefined in C, and 0 here.
abbrev pub byte_at : List ℕ → ℕ → ℕ
byte_at p i = get_or p i 0

abbrev pub IsBytes : List ℕ → Type 0
IsBytes p = (i : ℕ) → byte_at p i < 256

unfoldable pub le16 : List ℕ → ℕ → ℕ
le16 p i = bit_or (byte_at p i) (byte_at p (i + 1) * 2 ^ 8)

unfoldable pub le32 : List ℕ → ℕ → ℕ
le32 p i =
    bit_or (bit_or (bit_or (byte_at p i) (byte_at p (i + 1) * 2 ^ 8)) (byte_at p (i + 2) * 2 ^ 16))
      (byte_at p (i + 3) * 2 ^ 24)

unfoldable pub le64 : List ℕ → ℕ → ℕ
unfolding le32
le64 p i = bit_or (le32 p i) (le32 p (i + 4) * 2 ^ 32)

pub le16_lem : (p : List ℕ) (i : ℕ) → IsBytes p → le16 p i ≡ byte_at p i + byte_at p (i + 1) * 256
unfolding le16
le16_lem p i h = let lo = h i in bit_or-high_low 8 (byte_at p i) (byte_at p (i + 1)) lo

pub le32_lem :
    (p : List ℕ) (i : ℕ)
    → IsBytes p
    → le32 p i
      ≡ byte_at p i
        + byte_at p (i + 1) * 2 ^ 8
        + byte_at p (i + 2) * 2 ^ 16
        + byte_at p (i + 3) * 2 ^ 24
unfolding le32
le32_lem p i h = ground (
  arith,
  h i,
  h (i + 1),
  h (i + 2),
  bit_or-high_low 8 (byte_at p i) (byte_at p (i + 1)),
  bit_or-high_low 16 (byte_at p i + byte_at p (i + 1) * 2 ^ 8) (byte_at p (i + 2)),
  bit_or-high_low 24 (byte_at p i + byte_at p (i + 1) * 2 ^ 8 + byte_at p (i + 2) * 2 ^ 16)
      (byte_at p (i + 3)),
)

pub le16-lt : (p : List ℕ) (i : ℕ) → IsBytes p → le16 p i < 2 ^ 16
le16-lt p i h = let a = h i in let b = h (i + 1) in omega (arith, le16_lem p i h)

pub le32-lt : (p : List ℕ) (i : ℕ) → IsBytes p → le32 p i < 2 ^ 32
le32-lt p i h =
    let a = h i in
    let b = h (i + 1) in let c = h (i + 2) in let d = h (i + 3) in omega (arith, le32_lem p i h)

abbrev pub all_bytes : List ℕ → Bool
all_bytes [] = true
all_bytes (x ∷ xs) = ltb x 256 && all_bytes xs

pub all_bytes-IsBytes : (p : List ℕ) → all_bytes p ≡ true → IsBytes p
all_bytes-IsBytes [] h i = omega arith
all_bytes-IsBytes (x ∷ xs) h zero = ground arith
all_bytes-IsBytes (x ∷ xs) h (suc i) = all_bytes-IsBytes xs (ground arith) i

-- Whether `p[pos]`, `p[pos + 1]` and so on are the given characters.
unfoldable pub has_chars : List ℕ → ℕ → List ℕ → Bool
has_chars p pos [] = true
has_chars p pos (c ∷ cs) = byte_at p pos == c && has_chars p (pos + 1) cs
