-- ===== src/Common/Search.antt =====
-- `for (i = 0; i < N; i++) if (test(a[i])) return i; return -1;` over an array.
use Prim.Native.Nat.{ℕ, zero, suc, ◌<◌}
use mathlib.Core.Path.{◌≡◌, refl, subst}
use mathlib.Core.Logic.{inl, inr}
use mathlib.Core.Bool.{Bool, true, false}
use mathlib.Core.List.{List, [], ◌∷◌}
use mathlib.Core.Option.{Option, none, some}
use native.Mathlib.Omega.{arith}
use peanut_kernel.Common.Tests.{if◌then◌else◌, Bool-cases, Option-cases, some_eq, none-ne-some}
use peanut_kernel.Common.Lists.{length, get_or}

module _ {ℓ} {A : Type ℓ} (test : A → Bool) where
  -- The scan; `none` is the -1 after the loop.
  unfoldable pub find_index : List A → Option ℕ
  find_index [] = none
  find_index (x ∷ xs) =
      let rest = find_index xs in
      if test x then some 0 else (elim rest [ none ↦ none | some i ↦ some (suc i) ])

  -- What a successful scan has found: the first index that passes.
  pub record IsFirst (d : A) (xs : List A) (j : ℕ) : Type 0 where
    pub within : j < length xs
    pub passes : test (get_or xs j d) ≡ true
    pub first : (k : ℕ) → k < j → test (get_or xs k d) ≡ false

  IsFirst-suc :
      (d x : A) (xs : List A) (j : ℕ) → test x ≡ false → IsFirst d xs j → IsFirst d (x ∷ xs) (suc j)
  IsFirst-suc d x xs j fails h = record {
    within = omega arith;
    passes = h.passes;
    first = λ k. elim k as (λ k. k < suc j → test (get_or (x ∷ xs) k d) ≡ false) [
      | zero ↦ λ p. fails
      | suc k ↦ λ p. h.first k (omega arith)
    ];
  }

  pub find_index-IsFirst : (d : A) (xs : List A) (j : ℕ) → find_index xs ≡ some j → IsFirst d xs j
  unfolding find_index
  find_index-IsFirst d [] j e = absurd (ground arith)
  find_index-IsFirst d (x ∷ xs) j e = elim (Bool-cases (test x)) [
    | inl pass ↦
        let e0 : 0 ≡ j = ground arith in
        rw (← e0)
          (record { within = omega arith; passes = pass; first = λ k p. absurd (omega arith) })
    | inr fails ↦ elim (Option-cases (find_index xs)) [
      | inl missing ↦ absurd (ground arith)
      | inr (i, found) ↦
          let e1 : suc i ≡ j = ground arith in
          rw (← e1) (IsFirst-suc d x xs i fails (find_index-IsFirst d xs i found))
    ]
  ]

  pub find_index-none :
      (d : A) (xs : List A)
      → find_index xs ≡ none
      → (k : ℕ) → k < length xs
      → test (get_or xs k d) ≡ false
  unfolding find_index
  find_index-none d [] e k p = absurd (omega arith)
  find_index-none d (x ∷ xs) e zero p = ground arith
  find_index-none d (x ∷ xs) e (suc k) p = find_index-none d xs (ground arith) k (omega arith)

  pub find_index_all_fail :
      (d : A) (xs : List A)
      → ((k : ℕ) → k < length xs → test (get_or xs k d) ≡ false)
      → find_index xs ≡ none
  unfolding find_index
  find_index_all_fail d [] h = refl
  find_index_all_fail d (x ∷ xs) h =
      ground (arith, h 0 (omega arith), find_index_all_fail d xs (λ k p. h (suc k) (omega arith)))

-- The first entry that passes.
unfoldable pub find_entry {ℓ} : {A : Type ℓ} → (A → Bool) → List A → Option A
find_entry test [] = none
find_entry test (x ∷ xs) = if test x then some x else find_entry test xs

pub data FirstMatch {ℓ} {A : Type ℓ} (test : A → Bool) : List A → A → Type ℓ where
  here : {x : A} {xs : List A} → test x ≡ true → FirstMatch test (x ∷ xs) x
  later :
      {x found : A} {xs : List A}
      → test x ≡ false
      → FirstMatch test xs found
      → FirstMatch test (x ∷ xs) found

module _ {ℓ} {A : Type ℓ} (test : A → Bool) where
  pub find_entry-FirstMatch :
      (xs : List A) (x : A) → find_entry test xs ≡ some x → FirstMatch test xs x
  unfolding find_entry
  find_entry-FirstMatch [] x h = absurd (none-ne-some h)
  find_entry-FirstMatch (y ∷ xs) x h = elim (Bool-cases (test y)) [
    | inl m ↦ subst (FirstMatch test (y ∷ xs)) (some_eq (rw (m, find_entry) at h)) (here m)
    | inr m ↦ later m (find_entry-FirstMatch xs x (rw (m, find_entry) at h))
  ]

  pub FirstMatch-find_entry :
      (xs : List A) (x : A) → FirstMatch test xs x → find_entry test xs ≡ some x
  unfolding find_entry
  FirstMatch-find_entry [] x h = elim h [ ]
  FirstMatch-find_entry (y ∷ xs) x (here m) = rw (m, find_entry)
  FirstMatch-find_entry (y ∷ xs) x (later m h) = rw (m, find_entry) (FirstMatch-find_entry xs x h)
