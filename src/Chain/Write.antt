-- ===== src/Chain/Write.antt =====
-- The writing loop of a file comes to an end.
use peanut_kernel.Common.{
  ℕ, zero, suc, ◌+◌, ◌-◌, ◌<◌, ◌≤◌, ◌≢◌, sym, Bool, ◌&&◌, none, List, ltb, arith, copy, Bool-cases,
  Option-cases, inl, inr, none-ne-some,
}
use peanut_kernel.Chain.{Chain, chunk, write_chain}

module _ {D : Type 0} (chain : D → Chain) (write : D → ℕ → List ℕ → Bool × D) (input : List ℕ)
    (size : ℕ) (pos : (d : D) → 0 < (chain d).bytes) where
  -- Every round writes at least one byte, so `size - copied + 1` rounds are enough.
  pub write_chain_returns :
      (fuel : ℕ) (d : D) (cluster copied : ℕ)
      → size < copied + fuel
      → copied ≤ size
      → write_chain chain write input size fuel d cluster copied ≢ none
  unfolding write_chain
  write_chain_returns zero d cluster copied enough le = absurd (omega arith)
  write_chain_returns (suc fuel) d cluster copied enough le =
      elim (Bool-cases ((chain d).inside cluster && ltb copied size)) [
        | inr stop ↦ rw (stop, write_chain) (λ e. none-ne-some (sym e))
        | inl go ↦ elim (Option-cases ((chain d).read cluster)) [
          | inl e ↦ rw (go, e, write_chain) (λ e. none-ne-some (sym e))
          | inr (buffer, e) ↦
              let p = pos d in
              let n : ℕ = chunk (chain d) (size - copied) in
              let some_bytes : 0 < n = ground arith in
              let not_more : n ≤ size - copied = ground arith in
              let w : Bool × D = write d cluster (copy buffer 0 input copied n) in
              elim (Bool-cases w.0) [
                | inr failed ↦ rw (go, e, failed, write_chain) (λ e. none-ne-some (sym e))
                | inl done ↦
                    rw (go, e, done, write_chain)
                      (write_chain_returns fuel w.1 ((chain w.1).next cluster) (copied + n)
                        (omega arith) (omega arith))
              ]
        ]
      ]
