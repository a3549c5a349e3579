-- ===== src/Chain/Read.antt =====
-- The reading loop of a file: the bytes that it puts into the buffer are those of the cluster chain, in
-- order.
use peanut_kernel.Common.{
  ℕ, zero, suc, ◌+◌, ◌-◌, ◌*◌, ◌/◌, ◌%◌, ◌≤◌, ◌<◌, ◌≡◌, ◌≢◌, ◌⊎◌, refl, ap, sym, ◌∙◌, subst, false,
  ◌&&◌, none, some, List, ltb, arith, byte_at, Bool-cases, Option-cases, inl, inr, some_eq,
  none-ne-some, copy, length, length-copy, get_or-copy_inside, get_or-copy_outside, dec_lt,
}
use peanut_kernel.Chain.{Chain, chunk, read_chain}

module _ (c : Chain) where
  -- The cluster `k` steps down the chain from `cluster`.
  abbrev pub chain_at : ℕ → ℕ → ℕ
  chain_at zero cluster = cluster
  chain_at (suc k) cluster = chain_at k (c.next cluster)

  abbrev pub cluster_byte : ℕ → ℕ → ℕ
  cluster_byte cluster j = elim (c.read cluster) [ none ↦ 0 | some b ↦ byte_at b j ]

  -- Byte `j` of the chain that begins at `cluster`.
  abbrev pub file_byte : ℕ → ℕ → ℕ
  file_byte cluster j = cluster_byte (chain_at (j / c.bytes) cluster) (j % c.bytes)

  -- What a reader gets of the chain from `cluster` on, with `copied` bytes there before.
  pub record IsRead (size cluster copied : ℕ) (out : List ℕ) (result : List ℕ × ℕ) : Type 0 where
    pub grows : copied ≤ result.1
    pub at_most : result.1 ≤ size
    pub same_length : length result.0 ≡ length out
    pub before : (j : ℕ) → j < copied → byte_at result.0 j ≡ byte_at out j
    pub got : (j : ℕ) → copied + j < result.1 → byte_at result.0 (copied + j) ≡ file_byte cluster j
    pub after : (j : ℕ) → result.1 ≤ j → byte_at result.0 j ≡ byte_at out j
    pub complete :
        (result.1 ≡ size)
        ⊎ ((k : ℕ) × (c.inside (chain_at k cluster) ≡ false) × (result.1 ≡ copied + k * c.bytes))

  file_byte_near : (cluster j : ℕ) → j < c.bytes → file_byte cluster j ≡ cluster_byte cluster j
  file_byte_near cluster j h =
      let q : j / c.bytes ≡ 0 = grind arith in let r : j % c.bytes ≡ j = grind arith in rw (q, r)

  file_byte_far :
      (cluster j : ℕ) → 0 < c.bytes → file_byte cluster (c.bytes + j) ≡ file_byte (c.next cluster) j
  file_byte_far cluster j pos =
      let q : (c.bytes + j) / c.bytes ≡ suc (j / c.bytes) = grind arith in
      let r : (c.bytes + j) % c.bytes ≡ j % c.bytes = grind arith in rw (q, r)

  module _ (size : ℕ) (pos : 0 < c.bytes) where
    stops :
        (cluster copied : ℕ) (out : List ℕ)
        → copied ≤ size
        → (c.inside cluster && ltb copied size) ≡ false
        → IsRead size cluster copied out (out, copied)
    stops cluster copied out le stop = record {
      grows = omega arith;
      at_most = le;
      same_length = refl;
      before = λ j h. refl;
      got = λ j h. absurd (omega arith);
      after = λ j h. refl;
      complete = elim (Bool-cases (c.inside cluster)) [
        | inl inside ↦ inl (ground arith)
        | inr outside ↦ inr (0, outside, omega arith)
      ];
    }

    -- One round, in front of what the later rounds do.
    module _ (cluster copied n : ℕ) (out buffer : List ℕ) (result : List ℕ × ℕ)
        (left : copied < size) (room : size ≤ length out) (whole : n ≡ chunk c (size - copied))
        (read : c.read cluster ≡ some buffer)
        (rest : IsRead size (c.next cluster) (copied + n) (copy out copied buffer 0 n) result) where
      n_bounds : (n ≤ size - copied) × (n ≤ c.bytes) × (0 < n)
      n_bounds = (ground arith, ground arith, ground arith)

      round_got :
          (j : ℕ) → copied + j < result.1 → byte_at result.0 (copied + j) ≡ file_byte cluster j
      round_got j h = elim (dec_lt j n) [
        | yes near ↦
            let start : 0 + j ≡ j = omega arith in
            rest.before (copied + j) (omega arith)
            ∙ get_or-copy_inside out copied buffer 0 n j (omega (arith, n_bounds)) near
            ∙ ap (byte_at buffer) start
            ∙ sym (file_byte_near cluster j (omega (arith, n_bounds)) ∙ rw (read, cluster_byte))
        | no far ↦
            let most = rest.at_most in
            let full : n ≡ c.bytes = ground arith in
            let there : copied + j ≡ copied + n + (j - n) = omega arith in
            let here : j ≡ c.bytes + (j - n) = omega arith in
            ap (byte_at result.0) there
            ∙ rest.got (j - n) (omega arith)
            ∙ sym (ap (file_byte cluster) here ∙ file_byte_far cluster (j - n) pos)
      ]

      round : IsRead size cluster copied out result
      round = record {
        grows = let g = rest.grows in omega arith;
        at_most = rest.at_most;
        same_length = rest.same_length ∙ length-copy out copied buffer 0 n;
        before = λ j h.
            rest.before j (omega arith) ∙ get_or-copy_outside out copied buffer 0 n j (inl h);
        got = round_got;
        after = λ j h.
            let g = rest.grows in
            rest.after j h ∙ get_or-copy_outside out copied buffer 0 n j (inr (omega arith));
        complete = elim rest.complete [
          | inl all ↦ inl all
          | inr (k, ends, sum) ↦ elim (dec_lt n (c.bytes)) [
            | yes short ↦
                let most = rest.at_most in
                let g = rest.grows in let e : n ≡ size - copied = ground arith in inl (omega arith)
            | no full ↦ inr (suc k, ends, let b = n_bounds in grind arith)
          ]
        ];
      }

    pub read_chain-IsRead :
        (fuel cluster copied : ℕ) (out : List ℕ) (result : List ℕ × ℕ)
        → copied ≤ size
        → size ≤ length out
        → read_chain c size fuel cluster copied out ≡ some (some result)
        → IsRead size cluster copied out result
    unfolding read_chain
    read_chain-IsRead zero cluster copied out result le room h = absurd (none-ne-some h)
    read_chain-IsRead (suc fuel) cluster copied out result le room h =
        elim (Bool-cases (c.inside cluster && ltb copied size)) [
          | inr stop ↦
              subst (IsRead size cluster copied out)
                (some_eq (some_eq (rw (stop, read_chain) at h))) (stops cluster copied out le stop)
          | inl go ↦ elim (Option-cases (c.read cluster)) [
            | inl e ↦ absurd (none-ne-some (some_eq (rw (go, e, read_chain) at h)))
            | inr (buffer, e) ↦
                let left : copied < size = ground arith in
                let n : ℕ = chunk c (size - copied) in
                round cluster copied n out buffer result left room refl e (
                  read_chain-IsRead fuel (c.next cluster) (copied + n) (copy out copied buffer 0 n)
                    result (let le' : n ≤ size - copied = ground arith in omega arith)
                    (rw length-copy room) (rw (go, e, read_chain) at h))
          ]
        ]

    -- Every round copies at least one byte, so `size - copied + 1` rounds are enough.
    pub read_chain_returns :
        (fuel cluster copied : ℕ) (out : List ℕ)
        → size < copied + fuel
        → copied ≤ size
        → read_chain c size fuel cluster copied out ≢ none
    unfolding read_chain
    read_chain_returns zero cluster copied out enough le = absurd (omega arith)
    read_chain_returns (suc fuel) cluster copied out enough le =
        elim (Bool-cases (c.inside cluster && ltb copied size)) [
          | inr stop ↦ rw (stop, read_chain) (λ e. none-ne-some (sym e))
          | inl go ↦ elim (Option-cases (c.read cluster)) [
            | inl e ↦ rw (go, e, read_chain) (λ e. none-ne-some (sym e))
            | inr (buffer, e) ↦
                let n : ℕ = chunk c (size - copied) in
                let some_bytes : 0 < n = ground arith in
                let not_more : n ≤ size - copied = ground arith in
                rw (go, e, read_chain)
                  (read_chain_returns fuel (c.next cluster) (copied + n)
                    (copy out copied buffer 0 n) (omega arith) (omega arith))
          ]
        ]

-- The loop never changes the size of the buffer.
pub length-read_chain :
    (c : Chain) (size fuel cluster copied : ℕ) (out : List ℕ) (result : List ℕ × ℕ)
    → read_chain c size fuel cluster copied out ≡ some (some result)
    → length result.0 ≡ length out
unfolding read_chain
length-read_chain c size zero cluster copied out result h = absurd (none-ne-some h)
length-read_chain c size (suc fuel) cluster copied out result h =
    elim (Bool-cases (c.inside cluster && ltb copied size)) [
      | inr stop ↦
          let e = some_eq (some_eq (rw (stop, read_chain) at h)) in
          sym (ap (λ (x : List ℕ × ℕ). length x.0) e)
      | inl go ↦ elim (Option-cases (c.read cluster)) [
        | inl e ↦ absurd (none-ne-some (some_eq (rw (go, e, read_chain) at h)))
        | inr (buffer, e) ↦
            let n : ℕ = chunk c (size - copied) in
            length-read_chain c size fuel (c.next cluster) (copied + n) (copy out copied buffer 0 n)
              result (rw (go, e, read_chain) at h)
            ∙ length-copy out copied buffer 0 n
      ]
    ]
