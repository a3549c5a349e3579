-- ===== src/Fat32/Volume.antt =====
-- src/fs/fat32.c: the volume record and `fat32_mount`. The options CONFIG_FS_FAT*_READ and _WRITE of
-- the build are a record of switches.
use peanut_kernel.Common.{
  ℕ, ◌+◌, ◌-◌, ◌*◌, ◌/◌, Bool, true, false, ◌||◌, ◌&&◌, not, Option, none, some, List, ◌==◌, ltb,
  if◌then◌else◌, byte_at, le16, le32, u32, sub32,
}
use peanut_kernel.Block.{block_sector_size, block_read}
use peanut_kernel.Partition.{Partition, partition_is_fat, has_signature}

pub data FatType : Type 0 where
  fat12 fat16 fat32 : FatType

pub record Config : Type 0 where
  pub readable : FatType → Bool
  pub writable : FatType → Bool

pub record Fat32Volume (D : Type 0) : Type 0 where
  pub partition : Partition D
  pub fat_type : FatType
  pub fat_start_lba : ℕ
  pub data_start_lba : ℕ
  pub root_dir_lba : ℕ
  pub root_dir_sectors : ℕ
  pub root_cluster : ℕ
  pub sectors_per_fat : ℕ
  pub sectors_per_cluster : ℕ
  pub root_entry_count : ℕ

-- The fields of the boot sector, as `fat32_mount` reads and combines them.
pub record BootSector : Type 0 where
  pub bytes_per_sector : ℕ
  pub sectors_per_cluster : ℕ
  pub reserved_sectors : ℕ
  pub fat_count : ℕ
  pub root_entries : ℕ
  pub sectors_per_fat : ℕ
  pub total_sectors : ℕ
  pub root_dir_sectors : ℕ
  pub root_cluster : ℕ

-- `x ? x : y`
abbrev pub or_else : ℕ → ℕ → ℕ
or_else x y = if x == 0 then y else x

unfoldable pub boot_sector : List ℕ → BootSector
unfolding le16 le32
boot_sector s = record {
  bytes_per_sector = le16 s 11;
  sectors_per_cluster = byte_at s 13;
  reserved_sectors = le16 s 14;
  fat_count = byte_at s 16;
  root_entries = le16 s 17;
  sectors_per_fat = or_else (le16 s 22) (le32 s 36);
  total_sectors = or_else (le16 s 19) (le32 s 32);
  root_dir_sectors = (le16 s 17 * 32 + block_sector_size - 1) / block_sector_size;
  root_cluster = if le16 s 17 == 0 then le32 s 44 else 0;
}

-- The sectors before the data region, in 32 bits.
unfoldable pub overhead : BootSector → ℕ
overhead b = u32 (b.reserved_sectors + u32 (b.fat_count * b.sectors_per_fat) + b.root_dir_sectors)

unfoldable pub cluster_count : BootSector → ℕ
unfolding overhead
cluster_count b = sub32 b.total_sectors (overhead b) / b.sectors_per_cluster

unfoldable pub fat_type_of : ℕ → FatType
fat_type_of count = if ltb count 4085 then fat12 else if ltb count 65525 then fat16 else fat32

abbrev pub is_fat32 : FatType → Bool
is_fat32 t = elim t [ fat12 ↦ false | fat16 ↦ false | fat32 ↦ true ]

-- The guards of `fat32_mount` on the boot sector, all but the signature.
unfoldable pub accepts : Config → BootSector → Bool
accepts config b =
    let t = fat_type_of (cluster_count b) in
    b.bytes_per_sector == block_sector_size
    && not (
        b.sectors_per_cluster == 0
        || (b.fat_count == 0 || (b.sectors_per_fat == 0 || b.total_sectors == 0)))
    && config.readable t
    && not (is_fat32 t && ltb b.root_cluster 2)

module _ {D : Type 0} where
  unfoldable pub volume_of : Partition D → BootSector → Fat32Volume D
  volume_of partition b =
      let fat_start = u32 (partition.first_lba + b.reserved_sectors) in
      let root_dir = u32 (fat_start + b.fat_count * b.sectors_per_fat) in
      record {
        partition = partition;
        fat_type = fat_type_of (cluster_count b);
        fat_start_lba = fat_start;
        data_start_lba = u32 (root_dir + b.root_dir_sectors);
        root_dir_lba = root_dir;
        root_dir_sectors = b.root_dir_sectors;
        root_cluster = b.root_cluster;
        sectors_per_fat = b.sectors_per_fat;
        sectors_per_cluster = b.sectors_per_cluster;
        root_entry_count = b.root_entries;
      }

  -- `none` is -1.
  unfoldable pub fat32_mount : Config → Partition D → D → Option (Fat32Volume D)
  fat32_mount config partition d =
      if not (partition_is_fat partition)
      then none
      else (elim (block_read partition.disk d partition.first_lba 1) [
        | none ↦ none
        | some sector ↦
            if has_signature sector && accepts config (boot_sector sector)
            then some (volume_of partition (boot_sector sector))
            else none
      ])
