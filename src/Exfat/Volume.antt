-- ===== src/Exfat/Volume.antt =====
-- src/fs/exfat.c: the boot sector, the volume, its clusters and their chain.
use peanut_kernel.Common.{
  ℕ, ◌+◌, ◌-◌, ◌*◌, ◌/◌, ◌%◌, ◌^◌, Bool, false, not, ◌||◌, ◌&&◌, Option, none, some, List, [], ◌∷◌,
  ◌==◌, ltb, leb, if◌then◌else◌, byte_at, le32, u32, has_chars,
}
use peanut_kernel.Block.{BlockDevice, block_sector_size, block_read, block_write}
use peanut_kernel.Partition.{Partition, has_signature}

abbrev pub exfat_eoc : ℕ
exfat_eoc = 0xFFFFFFFF

abbrev pub exfat_max_cluster_sectors : ℕ
exfat_max_cluster_sectors = 8

pub record ExfatVolume (D : Type 0) : Type 0 where
  pub partition : Partition D
  pub fat_start_lba : ℕ
  pub cluster_heap_lba : ℕ
  pub root_cluster : ℕ
  pub cluster_count : ℕ
  pub sectors_per_cluster : ℕ

-- "EXFAT   "
abbrev pub exfat_signature : List ℕ
exfat_signature = b'E' ∷ b'X' ∷ b'F' ∷ b'A' ∷ b'T' ∷ 32 ∷ 32 ∷ 32 ∷ []

-- The guards of `exfat_mount` on the boot sector behind the signatures.
unfoldable pub accepts : List ℕ → Bool
unfolding le32
accepts s =
    byte_at s 108 == 9
    && not (
        ltb 7 (byte_at s 109)
        || (ltb (byte_at s 110) 1 || (le32 s 84 == 0 || (ltb (le32 s 92) 2 || ltb (le32 s 96) 2))))
    && not (ltb exfat_max_cluster_sectors (2 ^ byte_at s 109 % 256))

-- `while (cluster >= 2 && cluster < EXFAT_EOC && …)`
abbrev pub in_chain : ℕ → Bool
in_chain cluster = leb 2 cluster && ltb cluster exfat_eoc

module _ {D : Type 0} where
  unfoldable pub exfat_probe_boot : BlockDevice D → D → ℕ → Bool
  unfolding block_read has_chars
  exfat_probe_boot disk d first_lba = elim (block_read disk d first_lba 1) [
    | none ↦ false
    | some s ↦ has_signature s && has_chars s 3 exfat_signature
  ]

  unfoldable pub volume_of : Partition D → List ℕ → ExfatVolume D
  unfolding le32
  volume_of partition s = record {
    partition = partition;
    fat_start_lba = u32 (partition.first_lba + le32 s 80);
    cluster_heap_lba = u32 (partition.first_lba + le32 s 88);
    root_cluster = le32 s 96;
    cluster_count = le32 s 92;
    sectors_per_cluster = 2 ^ byte_at s 109 % 256;
  }

  -- `none` is -1.
  unfoldable pub exfat_mount : Partition D → D → Option (ExfatVolume D)
  unfolding exfat_probe_boot block_read
  exfat_mount partition d =
      if not (exfat_probe_boot partition.disk d partition.first_lba)
      then none
      else (elim (block_read partition.disk d partition.first_lba 1) [
        | none ↦ none
        | some s ↦ if accepts s then some (volume_of partition s) else none
      ])

  -- 0 for a cluster that is out of range.
  unfoldable pub cluster_first_lba : ExfatVolume D → ℕ → ℕ
  cluster_first_lba v cluster =
      if ltb cluster 2 || ltb v.cluster_count cluster
      then 0
      else u32 (v.cluster_heap_lba + u32 ((cluster - 2) * v.sectors_per_cluster))

  unfoldable pub read_cluster : ExfatVolume D → D → ℕ → Option (List ℕ)
  unfolding cluster_first_lba block_read
  read_cluster v d cluster =
      let lba = cluster_first_lba v cluster in
      if lba == 0 then none else block_read v.partition.disk d lba v.sectors_per_cluster

  -- The guarded write in the loop of `exfat_write_file`.
  unfoldable pub write_cluster : ExfatVolume D → D → ℕ → List ℕ → Bool × D
  unfolding cluster_first_lba block_write
  write_cluster v d cluster buffer =
      let lba = cluster_first_lba v cluster in
      if lba == 0
      then (false, d)
      else block_write v.partition.disk d lba v.sectors_per_cluster buffer

  unfoldable pub next_cluster : ExfatVolume D → D → ℕ → ℕ
  unfolding block_read le32
  next_cluster v d cluster =
      elim (block_read v.partition.disk d (v.fat_start_lba + cluster * 4 / block_sector_size) 1) [
        | none ↦ exfat_eoc
        | some s ↦
            let val = le32 s (cluster * 4 % block_sector_size) in
            if ltb val 0xFFFFFFF8 then val else exfat_eoc
      ]
