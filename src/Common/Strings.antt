-- ===== src/Common/Strings.antt =====
-- C strings as lists of character codes without the final NUL, and the case folding and comparison
-- loops that src/fs/*.c and src/cpu/syscall.c repeat.
use peanut_kernel.Common.Tests.{leb, ◌==◌, if◌then◌else◌}
use Prim.Native.Nat.{ℕ, zero, suc, ◌-◌, ◌≤◌}
use mathlib.Core.Path.{◌≡◌, refl}
use mathlib.Core.Logic.{◌↔◌}
use mathlib.Core.Bool.{Bool, true, false, ◌&&◌, ◌||◌, not}
use mathlib.Core.List.{List, [], ◌∷◌, map}
use native.Mathlib.Omega.{arith}
use peanut_kernel.Common.Lists.{length}

-- What a reader sees of an array of characters: what stands before the first NUL.
unfoldable pub c_string : List ℕ → List ℕ
c_string [] = []
c_string (c ∷ cs) = if c == 0 then [] else c ∷ c_string cs

unfoldable pub upper_ascii : ℕ → ℕ
upper_ascii c = if leb b'a' c && leb c b'z' then c - 32 else c

-- `while (a[i] && b[i]) { if (a[i] != b[i]) return 0; i++; } return a[i] == b[i];`
unfoldable pub streq : List ℕ → List ℕ → Bool
streq [] [] = true
streq [] (y ∷ ys) = false
streq (x ∷ xs) [] = false
streq (x ∷ xs) (y ∷ ys) = x == y && streq xs ys

unfoldable pub streq_ci : List ℕ → List ℕ → Bool
unfolding upper_ascii
streq_ci [] [] = true
streq_ci [] (y ∷ ys) = false
streq_ci (x ∷ xs) [] = false
streq_ci (x ∷ xs) (y ∷ ys) = upper_ascii x == upper_ascii y && streq_ci xs ys

pub streq_iff : (a b : List ℕ) → (streq a b ≡ true) ↔ (a ≡ b)
unfolding streq
streq_iff [] [] = (λ h. refl, λ e. refl)
streq_iff [] (y ∷ ys) = ground arith
streq_iff (x ∷ xs) [] = ground arith
streq_iff (x ∷ xs) (y ∷ ys) = ground (arith, streq_iff xs ys)

-- Two names match exactly when they are equal after upper-casing.
pub streq_ci_iff : (a b : List ℕ) → (streq_ci a b ≡ true) ↔ (map upper_ascii a ≡ map upper_ascii b)
unfolding streq_ci
streq_ci_iff [] [] = (λ h. refl, λ e. refl)
streq_ci_iff [] (y ∷ ys) = ground arith
streq_ci_iff (x ∷ xs) [] = ground arith
streq_ci_iff (x ∷ xs) (y ∷ ys) = unfold upper_ascii in ground (arith, streq_ci_iff xs ys)

-- `while (i + 1 < cap && src[i]) { dst[i] = src[i]; i++; } dst[i] = '\0';` with `room` for `cap - 1`.
unfoldable pub copy_chars : List ℕ → ℕ → List ℕ
copy_chars [] room = []
copy_chars (c ∷ cs) zero = []
copy_chars (c ∷ cs) (suc room) = if c == 0 then [] else c ∷ copy_chars cs room

pub length-copy_chars : (cs : List ℕ) (room : ℕ) → length (copy_chars cs room) ≤ room
unfolding copy_chars
length-copy_chars [] room = omega arith
length-copy_chars (c ∷ cs) zero = omega arith
length-copy_chars (c ∷ cs) (suc room) = ground (arith, length-copy_chars cs room)

-- `c == '/' || c == '\\'`
abbrev pub is_separator : ℕ → Bool
is_separator c = c == b'/' || c == 0x5C

-- Whether the text goes on with a character of the same component.
abbrev pub continues : List ℕ → Bool
continues [] = false
continues (c ∷ cs) = not (is_separator c)

abbrev pub prepend : ℕ → Bool → List (List ℕ) → List (List ℕ)
prepend c true (w ∷ ws) = (c ∷ w) ∷ ws
prepend c true [] = (c ∷ []) ∷ []
prepend c false ws = (c ∷ []) ∷ ws

-- The components that the walks over a path come to, one after another: separators are skipped.
unfoldable pub split_path : List ℕ → List (List ℕ)
split_path [] = []
split_path (c ∷ cs) =
    let rest = split_path cs in if is_separator c then rest else prepend c (continues cs) rest

-- One leading '/' is passed over.
abbrev pub skip_slash : List ℕ → List ℕ
skip_slash [] = []
skip_slash (c ∷ cs) = if c == b'/' then cs else c ∷ cs
