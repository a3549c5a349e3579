-- ===== src/Exfat/File.antt =====
-- src/fs/exfat.c: `exfat_read_file` and `exfat_write_file`.
-- The outer option is the fuel's, which bounds the clusters of one directory or file.
use peanut_kernel.Common.{ℕ, Bool, false, ◌||◌, Option, none, some, List, ◌==◌, ltb, if◌then◌else◌}
use peanut_kernel.Chain.{Chain, read_chain, write_chain}
use peanut_kernel.Exfat.Volume.{ExfatVolume, in_chain, read_cluster, write_cluster, next_cluster}
use peanut_kernel.Exfat.Entry.{is_directory}
use peanut_kernel.Exfat.Directory.{cluster_bytes, exfat_find_root}

-- `copied == file.size ? 0 : -1` behind the reading loop.
abbrev pub whole_file : ℕ → Option (List ℕ × ℕ) → Option (List ℕ × ℕ)
whole_file size none = none
whole_file size (some r) = if r.1 == size then some r else none

module _ {D : Type 0} where
  -- The chains of a volume.
  abbrev pub exfat_chain : ExfatVolume D → D → Chain
  exfat_chain v d = record {
    read = read_cluster v d;
    next = next_cluster v d;
    inside = in_chain;
    bytes = cluster_bytes v;
  }

  -- The inner `none` is -1, else the buffer and `*bytes_read`.
  unfoldable pub exfat_read_file :
      ℕ → ExfatVolume D → D → List ℕ → List ℕ → ℕ → Option (Option (List ℕ × ℕ))
  unfolding exfat_find_root read_cluster next_cluster read_chain
  exfat_read_file fuel v d name buffer buffer_size = elim (exfat_find_root fuel v d name) [
    | none ↦ none
    | some found ↦ elim found [
      | none ↦ some none
      | some file ↦
          if is_directory file || ltb buffer_size file.size
          then some none
          else (elim (read_chain (exfat_chain v d) file.size fuel file.first_cluster 0 buffer) [
            | none ↦ none
            | some r ↦ some (whole_file file.size r)
          ])
    ]
  ]

  unfoldable pub exfat_write_file : ℕ → ExfatVolume D → D → List ℕ → List ℕ → ℕ → Option (Bool × D)
  unfolding exfat_find_root read_cluster write_cluster next_cluster write_chain
  exfat_write_file fuel v d name buffer buffer_size = elim (exfat_find_root fuel v d name) [
    | none ↦ none
    | some found ↦ elim found [
      | none ↦ some (false, d)
      | some file ↦
          if is_directory file || ltb file.size buffer_size
          then some (false, d)
          else write_chain (exfat_chain v) (write_cluster v) buffer buffer_size fuel d
              file.first_cluster 0
    ]
  ]
