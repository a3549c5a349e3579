-- ===== src/Fat32/File.antt =====
-- src/fs/fat32.c: `fat32_read_file` and `fat32_write_file`.
-- The outer option is the fuel's, which bounds the clusters of one directory or file.
use peanut_kernel.Common.{
  ℕ, ◌*◌, Bool, false, not, ◌||◌, Option, none, some, List, ltb, if◌then◌else◌,
}
use peanut_kernel.Block.{block_sector_size}
use peanut_kernel.Chain.{Chain, read_chain, write_chain}
use peanut_kernel.Fat32.Volume.{Fat32Volume, Config}
use peanut_kernel.Fat32.Cluster.{in_chain, read_cluster, write_cluster, next_cluster}
use peanut_kernel.Fat32.Entry.{is_directory}
use peanut_kernel.Fat32.Directory.{fat32_find_root}

module _ {D : Type 0} where
  abbrev pub cluster_bytes : Fat32Volume D → ℕ
  cluster_bytes v = v.sectors_per_cluster * block_sector_size

  -- The chains of a volume.
  abbrev pub fat_chain : Fat32Volume D → D → Chain
  fat_chain v d = record {
    read = read_cluster v d;
    next = next_cluster v d;
    inside = in_chain;
    bytes = cluster_bytes v;
  }

  unfoldable pub fat32_read_file :
      ℕ → Fat32Volume D → D → List ℕ → List ℕ → ℕ → Option (Option (List ℕ × ℕ))
  unfolding fat32_find_root read_cluster next_cluster read_chain
  fat32_read_file fuel v d name buffer buffer_size = elim (fat32_find_root fuel v d name) [
    | none ↦ none
    | some found ↦ elim found [
      | none ↦ some none
      | some file ↦
          if is_directory file || (ltb buffer_size file.size || ltb 8 v.sectors_per_cluster)
          then some none
          else read_chain (fat_chain v d) file.size fuel file.first_cluster 0 buffer
    ]
  ]

  unfoldable pub fat32_write_file :
      Config → ℕ → Fat32Volume D → D → List ℕ → List ℕ → ℕ → Option (Bool × D)
  unfolding fat32_find_root read_cluster write_cluster next_cluster write_chain
  fat32_write_file config fuel v d name buffer size =
      if not (config.writable v.fat_type)
      then some (false, d)
      else (elim (fat32_find_root fuel v d name) [
        | none ↦ none
        | some found ↦ elim found [
          | none ↦ some (false, d)
          | some file ↦
              if is_directory file || (ltb file.size size || ltb 8 v.sectors_per_cluster)
              then some (false, d)
              else write_chain (fat_chain v) (write_cluster v) buffer size fuel d file.first_cluster
                  0
        ]
      ])
