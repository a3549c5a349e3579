-- ===== src/Fat32/Layout.antt =====
-- `fat32_mount` of src/fs/fat32.c: where the regions of a mounted volume lie, and of which type it is.
use peanut_kernel.Common.{
  ℕ, ◌+◌, ◌-◌, ◌*◌, ◌/◌, ◌^◌, ◌≤◌, ◌<◌, ◌≡◌, ap, ◌∙◌, subst, true, ◌&&◌, some, List, arith,
  if◌then◌else◌, Bool-cases, inl, inr, u32, sub32, some_eq, none-ne-some, byte_at, le16, le32, ◌==◌,
  ltb, refl,
}
use peanut_kernel.Block.{block_read}
use peanut_kernel.Partition.{Partition, partition_is_fat, has_signature}
use peanut_kernel.Fat32.Volume.{
  Fat32Volume, Config, FatType, fat12, fat16, fat32, boot_sector, overhead, cluster_count,
  fat_type_of, is_fat32, accepts, volume_of, fat32_mount,
}

-- The fields of a boot sector, where the format has them.
abbrev pub table_sectors : List ℕ → ℕ
table_sectors s = if le16 s 22 == 0 then le32 s 36 else le16 s 22

abbrev pub all_sectors : List ℕ → ℕ
all_sectors s = if le16 s 19 == 0 then le32 s 32 else le16 s 19

abbrev pub root_sectors : List ℕ → ℕ
root_sectors s = (le16 s 17 * 32 + 511) / 512

-- The sectors before the clusters.
abbrev pub before_data : List ℕ → ℕ
before_data s = le16 s 14 + byte_at s 16 * table_sectors s + root_sectors s

-- The type that a number of clusters stands for.
abbrev pub type_of_count : ℕ → FatType
type_of_count n = if ltb n 4085 then fat12 else if ltb n 65525 then fat16 else fat32

-- A volume that begins at sector `first`, with the boot sector `s`.
pub record IsLaidOut {D : Type 0} (first : ℕ) (s : List ℕ) (v : Fat32Volume D) : Type 0 where
  pub signed : (byte_at s 510 ≡ 0x55) × (byte_at s 511 ≡ 0xAA)
  pub sector_bytes : le16 s 11 ≡ 512
  pub some_tables : 0 < byte_at s 16
  pub some_sectors : 0 < v.sectors_per_cluster
  pub cluster_sectors : v.sectors_per_cluster ≡ byte_at s 13
  pub tables_at : v.fat_start_lba ≡ first + le16 s 14
  pub root_at : v.root_dir_lba ≡ first + le16 s 14 + byte_at s 16 * table_sectors s
  pub data_at : v.data_start_lba ≡ first + before_data s
  pub of_type : v.fat_type ≡ type_of_count ((all_sectors s - before_data s) / byte_at s 13)
  pub root_chain : v.fat_type ≡ fat32 → 2 ≤ v.root_cluster

wraps_not2 : (f r q : ℕ) → f + r + q < 2 ^ 32 → u32 (u32 (f + r) + q) ≡ f + r + q
wraps_not2 f r q h = omega arith

wraps_not3 :
    (f r q t : ℕ) → f + (r + q + t) < 2 ^ 32 → u32 (u32 (u32 (f + r) + q) + t) ≡ f + (r + q + t)
wraps_not3 f r q t h = omega arith

root_sectors_lem : (s : List ℕ) → (le16 s 17 * 32 + 512 - 1) / 512 ≡ root_sectors s
root_sectors_lem s =
    let e : le16 s 17 * 32 + 512 - 1 ≡ le16 s 17 * 32 + 511 = omega arith in ap (λ n. n / 512) e

data_sectors :
    (total r q t : ℕ)
    → r + q + t ≤ total
    → total < 2 ^ 32
    → sub32 total (u32 (r + u32 q + t)) ≡ total - (r + q + t)
data_sectors total r q t h g = omega arith

module _ {D : Type 0} (config : Config) (p : Partition D) (s : List ℕ) where
  volume_of-IsLaidOut :
      has_signature s ≡ true
      → accepts config (boot_sector s) ≡ true
      → p.first_lba + before_data s < 2 ^ 32
      → before_data s ≤ all_sectors s
      → all_sectors s < 2 ^ 32
      → IsLaidOut p.first_lba s (volume_of p (boot_sector s))
  unfolding accepts boot_sector volume_of cluster_count overhead fat_type_of
  volume_of-IsLaidOut sig h fits holds small = record {
    signed = (ground arith, ground arith);
    sector_bytes = ground arith;
    some_tables = ground arith;
    some_sectors = ground arith;
    cluster_sectors = refl;
    tables_at = omega arith;
    root_at = wraps_not2 p.first_lba (le16 s 14) (byte_at s 16 * table_sectors s) (omega arith);
    data_at =
        ap (λ t. u32 (u32 (u32 (p.first_lba + le16 s 14) + byte_at s 16 * table_sectors s) + t))
          (root_sectors_lem s)
        ∙ wraps_not3 p.first_lba (le16 s 14) (byte_at s 16 * table_sectors s) (root_sectors s) fits;
    of_type =
        ap
          (λ t. fat_type_of (
            sub32 (all_sectors s) (u32 (le16 s 14 + u32 (byte_at s 16 * table_sectors s) + t))
            / byte_at s 13))
          (root_sectors_lem s)
        ∙ ap (λ n. fat_type_of (n / byte_at s 13))
            (data_sectors (all_sectors s) (le16 s 14) (byte_at s 16 * table_sectors s)
              (root_sectors s) holds small);
    root_chain = λ e. ground (arith, ap is_fat32 e);
  }

module _ {D : Type 0} (config : Config) (p : Partition D) (d : D) (v : Fat32Volume D)
    (s : List ℕ) where
  -- A volume that `fat32_mount` accepts, where the clusters of its boot sector's fields begin below
  -- sector 2 ^ 32 and not behind the volume's end, and its sectors are fewer than 2 ^ 32, lies on the disk as the format has it: the tables
  -- behind the reserved sectors, the root directory behind the tables, the clusters behind that, and
  -- the number of clusters tells the type. The boot sector is signed and has sectors of 512 bytes, at
  -- least one table and one sector a cluster, and a FAT32 volume's root directory begins at cluster 2
  -- or later.
  pub fat32_mount-IsLaidOut :
      fat32_mount config p d ≡ some v
      → block_read p.disk d p.first_lba 1 ≡ some s
      → p.first_lba + before_data s < 2 ^ 32
      → before_data s ≤ all_sectors s
      → all_sectors s < 2 ^ 32
      → IsLaidOut p.first_lba s v
  unfolding fat32_mount
  fat32_mount-IsLaidOut h r fits holds small = elim (Bool-cases (partition_is_fat p)) [
    | inr other ↦ absurd (none-ne-some (rw (other, fat32_mount) at h))
    | inl fat ↦ elim (Bool-cases (has_signature s && accepts config (boot_sector s))) [
      | inr bad ↦ absurd (none-ne-some (rw (fat, r, bad, fat32_mount) at h))
      | inl good ↦ subst (IsLaidOut p.first_lba s) (some_eq (rw (fat, r, good, fat32_mount) at h)) (
          volume_of-IsLaidOut config p s (ground (arith, good)) (ground (arith, good)) fits holds
            small)
    ]
  ]
