-- ===== src/Fat32/ReadFile.antt =====
-- `fat32_read_file` of src/fs/fat32.c: the bytes that it puts into the buffer are those of the file's
-- cluster chain, in order.
use peanut_kernel.Common.{ℕ, ◌≤◌, ◌<◌, ◌≡◌, ◌≢◌, false, none, some, List, ltb, arith, length}
use peanut_kernel.Chain.{read_chain}
use peanut_kernel.Chain.Read.{IsRead, read_chain-IsRead, read_chain_returns}
use peanut_kernel.Fat32.Volume.{Fat32Volume}
use peanut_kernel.Fat32.Entry.{Fat32DirEntry, is_directory}
use peanut_kernel.Fat32.Directory.{fat32_find_root}
use peanut_kernel.Fat32.File.{fat_chain, fat32_read_file}

module _ {D : Type 0} (v : Fat32Volume D) (d : D) where
  module _ (fuel : ℕ) (name buffer : List ℕ) (buffer_size : ℕ) (file : Fat32DirEntry)
      (pos : 0 < v.sectors_per_cluster) (narrow : v.sectors_per_cluster ≤ 8)
      (found : fat32_find_root fuel v d name ≡ some (some file)) where
    entered :
        is_directory file ≡ false
        → file.size ≤ buffer_size
        → fat32_read_file fuel v d name buffer buffer_size
          ≡ read_chain (fat_chain v d) file.size fuel file.first_cluster 0 buffer
    unfolding fat32_read_file
    entered plain fits =
        let narrow' : ltb 8 v.sectors_per_cluster ≡ false = ground arith in
        let fits' : ltb buffer_size file.size ≡ false = ground arith in
        rw (found, plain, fits', narrow', fat32_read_file)

    -- `fat32_read_file` finds a file that fits the buffer on a volume of at most 8 sectors a cluster.
    -- With fuel for one cluster more than the file has bytes it returns; and where it returns 0, the
    -- buffer's first bytes, as many as it reports, are those of the file's cluster chain in order,
    -- the rest of the buffer is as it was, and fewer bytes than the file's size are reported only if
    -- the chain ends there.
    pub fat32_read_file-IsRead :
        is_directory file ≡ false
        → file.size ≤ buffer_size
        → buffer_size ≤ length buffer
        → file.size < fuel
        → (fat32_read_file fuel v d name buffer buffer_size ≢ none)
          × ((result : List ℕ × ℕ)
              → fat32_read_file fuel v d name buffer buffer_size ≡ some (some result)
              → IsRead (fat_chain v d) file.size file.first_cluster 0 buffer result)
    fat32_read_file-IsRead plain fits room enough = rw (entered plain fits) (
      read_chain_returns (fat_chain v d) file.size (omega arith) fuel file.first_cluster 0 buffer
          (omega arith) (omega arith),
      λ result e.
          read_chain-IsRead (fat_chain v d) file.size (omega arith) fuel file.first_cluster 0 buffer
            result (omega arith) (omega arith) e,
    )
