-- ===== src/Console.antt =====
-- `kprint_int` of src/freelib/kstdio.c, as the characters that it puts out.
use peanut_kernel.Common.{
  ℕ, zero, suc, ◌+◌, ◌-◌, ◌/◌, ◌%◌, ◌^◌, true, false, List, [], ◌∷◌, ◌==◌, leb, if◌then◌else◌,
}

-- The two loops over `buffer[20]`: the digits of a positive number, in front of `out`.
unfoldable pub digits_before : ℕ → ℕ → List ℕ → List ℕ
digits_before zero n out = out
digits_before (suc left) n out = elim (n == 0) [
  | true ↦ out
  | false ↦ digits_before left (n / 10) ((n % 10 + b'0') ∷ out)
]

-- A 64-bit number, read as a signed one; -2 ^ 63 overflows in C.
unfoldable pub kprint_int : ℕ → List ℕ
unfolding digits_before
kprint_int n =
    if n == 0
    then b'0' ∷ []
    else if leb (2 ^ 63) n
    then b'-' ∷ digits_before 20 (2 ^ 64 - n) []
    else digits_before 20 n []
