-- ===== src/Exfat/Files.antt =====
-- `exfat_read_file` and `exfat_write_file` of src/fs/exfat.c.
use peanut_kernel.Common.{
  ℕ, ◌≤◌, ◌<◌, ◌≡◌, ◌≢◌, refl, sym, ◌∙◌, subst, true, false, ◌||◌, Option, none, some, List, ltb,
  ◌==◌, arith, length, Bool-cases, Option-cases, inl, inr, some_eq, none-ne-some,
}
use peanut_kernel.Chain.{read_chain}
use peanut_kernel.Chain.Read.{IsRead, read_chain-IsRead, read_chain_returns}
use peanut_kernel.Chain.Write.{write_chain_returns}
use peanut_kernel.Exfat.Volume.{ExfatVolume, write_cluster}
use peanut_kernel.Exfat.Entry.{ExfatDirEntry, is_directory}
use peanut_kernel.Exfat.Directory.{exfat_find_root}
use peanut_kernel.Exfat.File.{whole_file, exfat_chain, exfat_read_file, exfat_write_file}

pub whole_file-some :
    (size : ℕ) (o : Option (List ℕ × ℕ)) (r : List ℕ × ℕ)
    → whole_file size o ≡ some r
    → (o ≡ some r) × (r.1 ≡ size)
whole_file-some size none r h = absurd (none-ne-some h)
whole_file-some size (some q) r h = elim (Bool-cases (q.1 == size)) [
  | inl e ↦
      let same = some_eq (rw e at h) in
      (rw same, subst (λ (x : List ℕ × ℕ). x.1 ≡ size) same (ground arith))
  | inr e ↦ absurd (none-ne-some (rw e at h))
]

module _ {D : Type 0} (v : ExfatVolume D) (pos : 0 < v.sectors_per_cluster) (fuel : ℕ) (d : D)
    (name : List ℕ) (file : ExfatDirEntry)
    (found : exfat_find_root fuel v d name ≡ some (some file)) where
  module _ (buffer : List ℕ) (buffer_size : ℕ) where
    loop : Option (Option (List ℕ × ℕ))
    loop = read_chain (exfat_chain v d) file.size fuel file.first_cluster 0 buffer

    entered :
        is_directory file ≡ false
        → file.size ≤ buffer_size
        → exfat_read_file fuel v d name buffer buffer_size
          ≡ (elim loop [ none ↦ none | some r ↦ some (whole_file file.size r) ])
    unfolding exfat_read_file loop
    entered plain fits =
        let fits' : ltb buffer_size file.size ≡ false = ground arith in
        rw (found, plain, fits', exfat_read_file)

    -- `exfat_read_file` finds a file that fits the buffer on a volume with clusters of at least one
    -- sector. With fuel for one cluster more than the file has bytes it returns; and where it returns
    -- 0, it reports the file's size, the buffer's first bytes, as many, are those of the file's cluster
    -- chain in order, and the rest of the buffer is as it was.
    pub exfat_read_file-IsRead :
        is_directory file ≡ false
        → file.size ≤ buffer_size
        → buffer_size ≤ length buffer
        → file.size < fuel
        → (exfat_read_file fuel v d name buffer buffer_size ≢ none)
          × ((result : List ℕ × ℕ)
              → exfat_read_file fuel v d name buffer buffer_size ≡ some (some result)
              → (result.1 ≡ file.size)
                × IsRead (exfat_chain v d) file.size file.first_cluster 0 buffer result)
    unfolding loop
    exfat_read_file-IsRead plain fits room enough =
        rw (entered plain fits) (elim (Option-cases loop) [
          | inl out ↦ absurd (
              read_chain_returns (exfat_chain v d) file.size (omega arith) fuel file.first_cluster 0
                buffer (omega arith) (omega arith) out)
          | inr (r, e) ↦ rw e (
            λ h. none-ne-some (sym h),
            λ result h.
                let (got, whole) = whole_file-some file.size r result (some_eq h) in
                (
                  whole,
                  read_chain-IsRead (exfat_chain v d) file.size (omega arith) fuel
                      file.first_cluster 0 buffer result (omega arith) (omega arith) (e ∙ rw got),
                ),
          )
        ])

  -- For a file that is found on a volume with clusters of at least one sector, `exfat_write_file`
  -- returns, with fuel for one cluster more than there are bytes to write; and it returns -1 with the
  -- device as it was if the file is a directory or shorter than what is to be written.
  exfat_write_file-returns :
      (input : List ℕ) (size : ℕ)
      → size < fuel
      → (exfat_write_file fuel v d name input size ≢ none)
        × ((is_directory file || ltb file.size size) ≡ true
            → exfat_write_file fuel v d name input size ≡ some (false, d))
  unfolding exfat_write_file
  exfat_write_file-returns input size enough =
      elim (Bool-cases (is_directory file || ltb file.size size)) [
        | inl bad ↦ rw (found, bad, exfat_write_file) (λ e. none-ne-some (sym e), λ r. refl)
        | inr good ↦
            rw (found, good, exfat_write_file)
              (
                write_chain_returns (exfat_chain v) (write_cluster v) input size (λ d'. omega arith)
                    fuel d file.first_cluster 0 (omega arith) (omega arith),
                λ r. absurd (ground arith),
              )
      ]
