-- ===== src/Chain.antt =====
-- The loops over the cluster chain of a file that src/fs/fat32.c and src/fs/exfat.c share: reading a
-- file into a buffer and writing one in place. What a cluster is, how it is read and written and which
-- comes after it are parameters that each file system fills.
pub mod Read
pub mod Write
use peanut_kernel.Common.{
  ℕ, zero, suc, ◌+◌, ◌-◌, Bool, true, false, ◌&&◌, Option, none, some, List, ◌==◌, ltb,
  if◌then◌else◌, copy,
}

-- `read` is `none` for -1; `inside` is the loop's test on a cluster, `bytes` the size of one.
pub record Chain : Type 0 where
  pub read : ℕ → Option (List ℕ)
  pub next : ℕ → ℕ
  pub inside : ℕ → Bool
  pub bytes : ℕ

-- `left < cluster_bytes ? left : cluster_bytes`
abbrev pub chunk : Chain → ℕ → ℕ
chunk c left = if ltb left c.bytes then left else c.bytes

-- The reading loop. The outer option is the fuel's, one unit for each cluster; the inner `none` is
-- -1, else the buffer and the bytes copied.
unfoldable pub read_chain : Chain → ℕ → ℕ → ℕ → ℕ → List ℕ → Option (Option (List ℕ × ℕ))
unfolding copy
read_chain c size zero cluster copied out = none
read_chain c size (suc fuel) cluster copied out = elim (c.inside cluster && ltb copied size) [
  | false ↦ some (some (out, copied))
  | true ↦ elim (c.read cluster) [
    | none ↦ some none
    | some buffer ↦
        let n = chunk c (size - copied) in
        read_chain c size fuel (c.next cluster) (copied + n) (copy out copied buffer 0 n)
  ]
]

module _ {D : Type 0} where
  -- The writing loop, on a device whose state decides what is read: whether it returns 0, and the
  -- device.
  unfoldable pub write_chain :
      (D → Chain) → (D → ℕ → List ℕ → Bool × D) → List ℕ → ℕ → ℕ → D → ℕ → ℕ → Option (Bool × D)
  unfolding copy
  write_chain chain write input size zero d cluster copied = none
  write_chain chain write input size (suc fuel) d cluster copied =
      elim ((chain d).inside cluster && ltb copied size) [
        | false ↦ some (copied == size, d)
        | true ↦ elim ((chain d).read cluster) [
          | none ↦ some (false, d)
          | some buffer ↦
              let n = chunk (chain d) (size - copied) in
              let (done, d') = write d cluster (copy buffer 0 input copied n) in
              elim done [
                | false ↦ some (false, d')
                | true ↦
                    write_chain chain write input size fuel d' ((chain d').next cluster)
                      (copied + n)
              ]
        ]
      ]
