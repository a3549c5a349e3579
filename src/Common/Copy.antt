-- ===== src/Common/Copy.antt =====
-- `for (i = 0; i < n; i++) d[di + i] = s[si + i];` between two arrays that do not overlap.
use Prim.Native.Nat.{ℕ, zero, suc, ◌+◌, ◌≤◌, ◌<◌}
use mathlib.Core.Path.{◌≡◌, refl, ◌∙◌, ap}
use mathlib.Core.Logic.{◌⊎◌}
use mathlib.Core.List.{List}
use native.Mathlib.Omega.{arith}
use peanut_kernel.Common.Lists.{length, get_or, set, length-set, get_or-set_self, get_or-set_ne}

-- `n` is the number of rounds left.
unfoldable pub copy : List ℕ → ℕ → List ℕ → ℕ → ℕ → List ℕ
copy d di s si zero = d
copy d di s si (suc n) = copy (set d di (get_or s si 0)) (di + 1) s (si + 1) n

pub length-copy :
    (d : List ℕ) (di : ℕ) (s : List ℕ) (si n : ℕ) → length (copy d di s si n) ≡ length d
unfolding copy
length-copy d di s si zero = refl
length-copy d di s si (suc n) =
    length-copy (set d di (get_or s si 0)) (di + 1) s (si + 1) n ∙ length-set d di (get_or s si 0)

pub get_or-copy_outside :
    (d : List ℕ) (di : ℕ) (s : List ℕ) (si n j : ℕ)
    → (j < di) ⊎ (di + n ≤ j)
    → get_or (copy d di s si n) j 0 ≡ get_or d j 0
unfolding copy
get_or-copy_outside d di s si zero j h = refl
get_or-copy_outside d di s si (suc n) j h =
    get_or-copy_outside (set d di (get_or s si 0)) (di + 1) s (si + 1) n j (omega arith)
    ∙ get_or-set_ne d di j (get_or s si 0) 0 (omega arith)

pub get_or-copy_inside :
    (d : List ℕ) (di : ℕ) (s : List ℕ) (si n k : ℕ)
    → di + n ≤ length d
    → k < n
    → get_or (copy d di s si n) (di + k) 0 ≡ get_or s (si + k) 0
unfolding copy
get_or-copy_inside d di s si zero k fits h = absurd (omega arith)
get_or-copy_inside d di s si (suc n) zero fits h =
    ap (λ i. get_or (copy (set d di (get_or s si 0)) (di + 1) s (si + 1) n) i 0) (omega arith)
    ∙ get_or-copy_outside (set d di (get_or s si 0)) (di + 1) s (si + 1) n di (omega arith)
    ∙ get_or-set_self d di (get_or s si 0) 0 (omega arith)
    ∙ ap (λ i. get_or s i 0) (omega arith)
get_or-copy_inside d di s si (suc n) (suc k) fits h =
    ap (λ i. get_or (copy (set d di (get_or s si 0)) (di + 1) s (si + 1) n) i 0) (omega arith)
    ∙ get_or-copy_inside (set d di (get_or s si 0)) (di + 1) s (si + 1) n k
        (omega (arith, length-set d di (get_or s si 0))) (omega arith)
    ∙ ap (λ i. get_or s i 0) (omega arith)
