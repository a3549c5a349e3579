-- ===== src/Common/Bits.antt =====
-- `|` of a field with what lies below it, as a sum, and `&` with a mask of low ones, as a remainder.
use Prim.Native.Nat.{
  ℕ, zero, suc, ◌+◌, ◌-◌, ◌*◌, ◌/◌, ◌%◌, ◌^◌, ◌≤◌, ◌<◌, min, max, bit_and, bit_or, digits,
  bit_and-bitwise, bit_or-bitwise,
}
use mathlib.Core.Path.{◌≡◌, refl, ap}
use native.Mathlib.Nat.{pow-suc, one-le-pow}
use native.Mathlib.Omega.{arith}

module _ (z : ℕ → ℕ) (f : ℕ → ℕ → ℕ) where
  -- Any fuel from `a` on gives the same digits.
  digits_enough : (n m a b : ℕ) → a ≤ n → a ≤ m → digits z f n a b ≡ digits z f m a b
  digits_enough zero zero a b p q = refl
  digits_enough (suc n) (suc m) (suc a) b p q =
      omega (arith, digits_enough n m (suc a / 2) (b / 2) (omega arith) (omega arith))
  digits_enough zero (suc m) zero b p q = refl
  digits_enough (suc n) zero zero b p q = refl
  digits_enough (suc n) (suc m) zero b p q = refl
  digits_enough zero (suc m) (suc a) b p q = absurd (omega arith)
  digits_enough (suc n) zero (suc a) b p q = absurd (omega arith)

bit_or-low : (a b : ℕ) → bit_or a b ≡ bit_or (a / 2) (b / 2) * 2 + max (a % 2) (b % 2)
bit_or-low zero b = omega (arith, bit_or-bitwise 0 b, bit_or-bitwise 0 (b / 2))
bit_or-low (suc a) b = omega (
  arith,
  bit_or-bitwise (suc a) b,
  bit_or-bitwise (suc a / 2) (b / 2),
  digits_enough (λ y. y) max a (suc a / 2) (suc a / 2) (b / 2) (omega arith) (omega arith),
)

bit_and-low : (a b : ℕ) → bit_and a b ≡ bit_and (a / 2) (b / 2) * 2 + min (a % 2) (b % 2)
bit_and-low zero b = omega (arith, bit_and-bitwise 0 b, bit_and-bitwise 0 (b / 2))
bit_and-low (suc a) b = omega (
  arith,
  bit_and-bitwise (suc a) b,
  bit_and-bitwise (suc a / 2) (b / 2),
  digits_enough (λ y. 0) min a (suc a / 2) (suc a / 2) (b / 2) (omega arith) (omega arith),
)

or_zero_fuel : (n a : ℕ) → a ≤ n → bit_or a 0 ≡ a
or_zero_fuel n zero h = refl
or_zero_fuel zero (suc a) h = absurd (omega arith)
or_zero_fuel (suc n) (suc a) h =
    omega (arith, bit_or-low (suc a) 0, or_zero_fuel n (suc a / 2) (omega arith))

and_zero_fuel : (n a : ℕ) → a ≤ n → bit_and a 0 ≡ 0
and_zero_fuel n zero h = refl
and_zero_fuel zero (suc a) h = absurd (omega arith)
and_zero_fuel (suc n) (suc a) h =
    omega (arith, bit_and-low (suc a) 0, and_zero_fuel n (suc a / 2) (omega arith))

double_pow : (q k : ℕ) → q * 2 ^ suc k ≡ 2 * (q * 2 ^ k)
double_pow q k = omega (arith, ap (λ (t : ℕ). q * t) (pow-suc 2 k))

-- A multiple of `2 ^ k` is added by `|` to what is below `2 ^ k`.
pub bit_or-high_low : (k r q : ℕ) → r < 2 ^ k → bit_or r (q * 2 ^ k) ≡ r + q * 2 ^ k
bit_or-high_low zero r q h =
    let e : r ≡ 0 = omega arith in rw e (omega (arith, bit_or-bitwise 0 (q * 1)))
bit_or-high_low (suc k) r q h =
    ground (
      arith,
      bit_or-low r (q * 2 ^ suc k),
      double_pow q k,
      bit_or-high_low k (r / 2) q (omega arith),
    )

bit_and-field : (k q r : ℕ) → r < 2 ^ k → bit_and (q * 2 ^ k + r) (2 ^ k - 1) ≡ r
bit_and-field zero q r h = omega (arith, and_zero_fuel (q * 1 + r) (q * 1 + r) (omega arith))
bit_and-field (suc k) q r h = ground (
  arith,
  bit_and-low (q * 2 ^ suc k + r) (2 ^ suc k - 1),
  double_pow q k,
  pow-suc 2 k,
  bit_and-field k q (r / 2) (omega arith),
)

-- A mask of `k` ones is the remainder by `2 ^ k`.
pub bit_and-mask : (k a : ℕ) → bit_and a (2 ^ k - 1) ≡ a % 2 ^ k
bit_and-mask k a = ground (arith, one-le-pow k 2, bit_and-field k (a / 2 ^ k) (a % 2 ^ k))

-- A mask of 32 bits that clears the lowest two rounds down to a multiple of 4.
pub bit_and-round : (a : ℕ) → a < 2 ^ 32 → bit_and a 0xFFFFFFFC ≡ a / 4 * 4
bit_and-round a h =
    omega
      (arith, bit_and-low a 0xFFFFFFFC, bit_and-low (a / 2) 0x7FFFFFFE, bit_and-mask 30 (a / 2 / 2))

-- A mask that is a multiple of `2 ^ k` clears the lowest `k` bits.
bit_and-shift :
    (k q r b : ℕ) → r < 2 ^ k → bit_and (q * 2 ^ k + r) (b * 2 ^ k) ≡ bit_and q b * 2 ^ k
bit_and-shift zero q r b h =
    let a : q * 2 ^ 0 + r ≡ q = omega arith in
    let c : b * 2 ^ 0 ≡ b = omega arith in
    let d : bit_and q b ≡ bit_and q b * 2 ^ 0 = omega arith in rw (a, c) d
bit_and-shift (suc k) q r b h = ground (
  arith,
  bit_and-low (q * 2 ^ suc k + r) (b * 2 ^ suc k),
  double_pow q k,
  double_pow b k,
  double_pow (bit_and q b) k,
  pow-suc 2 k,
  bit_and-shift k q (r / 2) b,
)

-- `~(size_t)15` and `~0xfffull`.
pub bit_and-round_16 : (a : ℕ) → a < 2 ^ 64 → bit_and a 0xFFFFFFFFFFFFFFF0 ≡ a / 16 * 16
bit_and-round_16 a h =
    let parts : a / 16 * 2 ^ 4 + a % 16 ≡ a = omega arith in
    let cut = rw parts at (bit_and-shift 4 (a / 16) (a % 16) (2 ^ 60 - 1) (omega arith)) in
    omega (arith, cut, bit_and-mask 60 (a / 16))

pub bit_and-round_4096 : (a : ℕ) → a < 2 ^ 64 → bit_and a 0xFFFFFFFFFFFFF000 ≡ a / 4096 * 4096
bit_and-round_4096 a h =
    let parts : a / 4096 * 2 ^ 12 + a % 4096 ≡ a = omega arith in
    let cut = rw parts at (bit_and-shift 12 (a / 4096) (a % 4096) (2 ^ 52 - 1) (omega arith)) in
    omega (arith, cut, bit_and-mask 52 (a / 4096))

pub bit_and-round_2m : (a : ℕ) → a < 2 ^ 64 → bit_and a 0xFFFFFFFFFFE00000 ≡ a / 0x200000 * 0x200000
bit_and-round_2m a h =
    let parts : a / 0x200000 * 2 ^ 21 + a % 0x200000 ≡ a = omega arith in
    let cut =
      rw parts at (bit_and-shift 21 (a / 0x200000) (a % 0x200000) (2 ^ 43 - 1) (omega arith)) in
    omega (arith, cut, bit_and-mask 43 (a / 0x200000))

-- `|` acts on the digits from `k` on and on those below apart.
pub bit_or-split :
    (k q r p s : ℕ)
    → r < 2 ^ k
    → s < 2 ^ k
    → bit_or (q * 2 ^ k + r) (p * 2 ^ k + s) ≡ bit_or q p * 2 ^ k + bit_or r s
bit_or-split zero q r p s h g =
    let a : q * 2 ^ 0 + r ≡ q = omega arith in
    let b : p * 2 ^ 0 + s ≡ p = omega arith in
    let c : r ≡ 0 = omega arith in
    let d : s ≡ 0 = omega arith in
    let e : bit_or q p ≡ bit_or q p * 2 ^ 0 + 0 = omega arith in rw (a, b, c, d) e
bit_or-split (suc k) q r p s h g = ground (
  arith,
  bit_or-low (q * 2 ^ suc k + r) (p * 2 ^ suc k + s),
  bit_or-low r s,
  double_pow q k,
  double_pow p k,
  double_pow (bit_or q p) k,
  pow-suc 2 k,
  bit_or-split k q (r / 2) p (s / 2),
)

pub bit_or-lt : (k r s : ℕ) → r < 2 ^ k → s < 2 ^ k → bit_or r s < 2 ^ k
bit_or-lt zero r s h g =
    let c : r ≡ 0 = omega arith in let d : s ≡ 0 = omega arith in rw (c, d) (omega arith)
bit_or-lt (suc k) r s h g = ground (arith, bit_or-low r s, pow-suc 2 k, bit_or-lt k (r / 2) (s / 2))

pub bit_or-one : (a : ℕ) → bit_or a 1 % 2 ≡ 1
bit_or-one a = omega (arith, bit_or-low a 1)

pub bit_or-zero : (a : ℕ) → bit_or a 0 ≡ a
bit_or-zero a = or_zero_fuel a a (omega arith)

pub zero-bit_or : (b : ℕ) → bit_or 0 b ≡ b
zero-bit_or b = omega (arith, bit_or-bitwise 0 b)

-- Bits 0 and 7.
pub bit_and-one : (a : ℕ) → bit_and a 1 ≡ a % 2
bit_and-one a = bit_and-mask 1 a

pub bit_and-0x80 : (a : ℕ) → bit_and a 0x80 ≡ a / 128 % 2 * 128
bit_and-0x80 a =
    let parts : a / 128 * 2 ^ 7 + a % 128 ≡ a = omega arith in
    let cut = rw parts at (bit_and-shift 7 (a / 128) (a % 128) 1 (omega arith)) in
    omega (arith, cut, bit_and-one (a / 128))
