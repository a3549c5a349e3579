-- ===== src/Fat32/Cluster.antt =====
-- src/fs/fat32.c: where a cluster lies, its successor in the file allocation table, and its transfer.
use peanut_kernel.Common.{
  ℕ, ◌+◌, ◌-◌, ◌*◌, ◌/◌, ◌%◌, ◌^◌, bit_and, bit_or, Bool, Option, none, some, List, ◌==◌, ltb,
  if◌then◌else◌, byte_at, le16, le32, u32, sub32,
}
use peanut_kernel.Block.{block_sector_size, block_read, block_write}
use peanut_kernel.Fat32.Volume.{Fat32Volume, FatType, fat12, fat16, fat32}

abbrev pub fat12_eoc : ℕ
fat12_eoc = 0x0FF8

abbrev pub fat16_eoc : ℕ
fat16_eoc = 0xFFF8

abbrev pub fat32_eoc : ℕ
fat32_eoc = 0x0FFFFFF8

-- `cluster < FAT32_EOC`
abbrev pub in_chain : ℕ → Bool
in_chain cluster = ltb cluster fat32_eoc

unfoldable pub fat_offset : FatType → ℕ → ℕ
fat_offset fat12 cluster = u32 (cluster + cluster / 2)
fat_offset fat16 cluster = u32 (cluster * 2)
fat_offset fat32 cluster = u32 (cluster * 4)

-- `if (cluster & 1) val >>= 4; else val &= 0x0FFF;`
unfoldable pub fat12_half : ℕ → ℕ → ℕ
fat12_half cluster val = if bit_and cluster 1 == 0 then bit_and val 0x0FFF else val / 2 ^ 4

-- `val >= eoc ? FAT32_EOC : val`
abbrev pub widen_eoc : ℕ → ℕ → ℕ
widen_eoc eoc val = if ltb val eoc then val else fat32_eoc

module _ {D : Type 0} where
  unfoldable pub cluster_lba : Fat32Volume D → ℕ → ℕ
  cluster_lba v cluster = u32 (v.data_start_lba + u32 (sub32 cluster 2 * v.sectors_per_cluster))

  unfoldable pub read_cluster : Fat32Volume D → D → ℕ → Option (List ℕ)
  unfolding cluster_lba block_read
  read_cluster v d cluster =
      block_read v.partition.disk d (cluster_lba v cluster) v.sectors_per_cluster

  unfoldable pub write_cluster : Fat32Volume D → D → ℕ → List ℕ → Bool × D
  unfolding cluster_lba block_write
  write_cluster v d cluster buffer =
      block_write v.partition.disk d (cluster_lba v cluster) v.sectors_per_cluster buffer

  -- The entry of a FAT12 table, which may lie across two sectors; `none` if the second one cannot be
  -- read.
  unfoldable pub fat12_entry : Fat32Volume D → D → List ℕ → ℕ → ℕ → Option ℕ
  unfolding block_read le16
  fat12_entry v d sector sector_index entry_offset =
      if entry_offset == block_sector_size - 1
      then (elim (block_read v.partition.disk d (u32 (v.fat_start_lba + sector_index + 1)) 1) [
        | none ↦ none
        | some next ↦ some (bit_or (byte_at sector entry_offset) (byte_at next 0 * 2 ^ 8))
      ])
      else some (le16 sector entry_offset)

  -- What `next_cluster` makes of the table's sector.
  unfoldable pub fat_entry : FatType → Fat32Volume D → D → ℕ → List ℕ → ℕ → ℕ → ℕ
  unfolding fat12_entry fat12_half le16 le32
  fat_entry fat12 v d cluster sector sector_index entry_offset =
      elim (fat12_entry v d sector sector_index entry_offset) [
        | none ↦ fat12_eoc
        | some val ↦ widen_eoc fat12_eoc (fat12_half cluster val)
      ]
  fat_entry fat16 v d cluster sector sector_index entry_offset =
      widen_eoc fat16_eoc (le16 sector entry_offset)
  fat_entry fat32 v d cluster sector sector_index entry_offset =
      bit_and (le32 sector entry_offset) 0x0FFFFFFF

  unfoldable pub next_cluster : Fat32Volume D → D → ℕ → ℕ
  unfolding fat_offset block_read fat_entry
  next_cluster v d cluster =
      let offset = fat_offset v.fat_type cluster in
      let sector_index = offset / block_sector_size in
      elim (block_read v.partition.disk d (u32 (v.fat_start_lba + sector_index)) 1) [
        | none ↦ fat32_eoc
        | some sector ↦
            fat_entry v.fat_type v d cluster sector sector_index (offset % block_sector_size)
      ]
