-- ===== src/Fat32/WriteFile.antt =====
-- `fat32_write_file` of src/fs/fat32.c: when it writes at all, and that it comes to an end.
use peanut_kernel.Common.{
  ℕ, ◌<◌, ◌≡◌, ◌≢◌, refl, sym, Bool, true, false, not, ◌||◌, none, some, List, ltb, arith,
  Bool-cases, inl, inr, none-ne-some,
}
use peanut_kernel.Chain.Write.{write_chain_returns}
use peanut_kernel.Fat32.Volume.{Fat32Volume, Config}
use peanut_kernel.Fat32.Cluster.{write_cluster}
use peanut_kernel.Fat32.Entry.{Fat32DirEntry, is_directory}
use peanut_kernel.Fat32.Directory.{fat32_find_root}
use peanut_kernel.Fat32.File.{fat_chain, fat32_write_file}

-- The guards of `fat32_write_file` on the file it found.
abbrev pub is_refused : {D : Type 0} → Config → Fat32Volume D → Fat32DirEntry → ℕ → Bool
is_refused config v file size =
    not (config.writable v.fat_type)
    || (is_directory file || (ltb file.size size || ltb 8 v.sectors_per_cluster))

module _ {D : Type 0} (v : Fat32Volume D) (pos : 0 < v.sectors_per_cluster) (input : List ℕ)
    (size : ℕ) where
  module _ (config : Config) (fuel : ℕ) (d : D) (name : List ℕ) (file : Fat32DirEntry)
      (found : fat32_find_root fuel v d name ≡ some (some file)) where
    -- For a file that is found on a volume with clusters of at least one sector, `fat32_write_file`
    -- returns, with fuel for one cluster more than there are bytes to write; and it returns -1 with
    -- the device as it was if the volume's kind is not configured for writing, the file is a
    -- directory or shorter than what is to be written, or a cluster has more than 8 sectors.
    pub fat32_write_file-returns :
        size < fuel
        → (fat32_write_file config fuel v d name input size ≢ none)
          × (is_refused config v file size ≡ true
              → fat32_write_file config fuel v d name input size ≡ some (false, d))
    unfolding fat32_write_file
    fat32_write_file-returns enough = elim (Bool-cases (config.writable v.fat_type)) [
      | inr locked ↦ rw (locked, fat32_write_file) (λ e. none-ne-some (sym e), λ r. refl)
      | inl allowed ↦
          elim (Bool-cases
            (is_directory file || (ltb file.size size || ltb 8 v.sectors_per_cluster))) [
              | inl bad ↦
                  rw (allowed, found, bad, fat32_write_file) (λ e. none-ne-some (sym e), λ r. refl)
              | inr good ↦
                  rw (allowed, found, good, fat32_write_file)
                    (
                      write_chain_returns (fat_chain v) (write_cluster v) input size
                          (λ d'. omega arith) fuel d file.first_cluster 0 (omega arith)
                          (omega arith),
                      λ r. absurd (ground arith),
                    )
            ]
    ]
