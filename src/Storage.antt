-- ===== src/Storage.antt =====
-- src/storage.c: the search for the root volume.
-- The drivers' disks are lists of devices on one state, and src/fs/extfs.c is a parameter. The messages
-- and the storage tests are left out.
pub mod Volumes
pub mod Directories
pub mod Mounting
mod Examples
use peanut_kernel.Common.{
  ℕ, zero, suc, ◌-◌, Bool, true, false, ◌&&◌, Option, none, some, List, [], ◌∷◌, ◌++◌, ◌==◌,
  if◌then◌else◌, copy_chars,
}
use peanut_kernel.Block.{BlockDevice}
use peanut_kernel.Partition.{Partition, partition_max, partition_is_fat, partition_scan_mbr}
use peanut_kernel.Fat32.Volume.{Config, Fat32Volume, fat32_mount}
use peanut_kernel.Fat32.Entry.{is_directory}
use peanut_kernel.Fat32.Directory.{fat32_find_root}
use peanut_kernel.Exfat.Volume.{ExfatVolume, exfat_probe_boot, exfat_mount}
use peanut_kernel.Exfat.Directory.{exfat_dir_exists}
use peanut_kernel.Syscall.{PeanutVolume, fat32, exfat, ext}

-- `extfs_probe`, whether `extfs_mount` returns 0, and `extfs_dir_exists`.
pub record ExtMount (D : Type 0) : Type 0 where
  pub probe : BlockDevice D → D → ℕ → Bool
  pub mount : Partition D → D → Bool
  pub dir_exists : D → List ℕ → Bool

-- The first success of a loop.
abbrev pub first_of {ℓ} : {A B : Type ℓ} → (A → Option B) → List A → Option B
first_of f [] = none
first_of f (a ∷ rest) = elim (f a) [ some b ↦ some b | none ↦ first_of f rest ]

abbrev pub or_else {ℓ} : {A : Type ℓ} → Option A → Option A → Option A
or_else (some a) o = some a
or_else none o = o

-- `count <= 0` makes the whole disk a partition.
abbrev pub or_whole :
    {D : Type 0} → BlockDevice D → D → Option (List (Partition D)) → List (Partition D)
or_whole dev d (some (p ∷ ps)) = p ∷ ps
or_whole dev d (some []) =
    record { disk = dev; kind = 0; first_lba = 0; sector_count = dev.sector_count d } ∷ []
or_whole dev d none =
    record { disk = dev; kind = 0; first_lba = 0; sector_count = dev.sector_count d } ∷ []

-- How the storage set-up ends: in a panic, or with the root volume.
pub data SetUp (D : Type 0) : Type 0 where
  no_drives : SetUp D
  no_volume : SetUp D
  no_fhs : SetUp D
  ready : PeanutVolume D → SetUp D

abbrev pub fhs_dirs : List (List ℕ)
fhs_dirs =
    (b'B' ∷ b'O' ∷ b'O' ∷ b'T' ∷ [])
    ∷ (b'B' ∷ b'I' ∷ b'N' ∷ [])
    ∷ (b'U' ∷ b'S' ∷ b'R' ∷ [])
    ∷ (b'L' ∷ b'I' ∷ b'B' ∷ [])
    ∷ []

-- `&&` of tests that may be still running.
abbrev pub all_of {ℓ} : {A : Type ℓ} → (A → Option Bool) → List A → Option Bool
all_of f [] = some true
all_of f (a ∷ rest) = elim (f a) [
  | none ↦ none
  | some b ↦ elim b [ false ↦ some false | true ↦ all_of f rest ]
]

module _ {D : Type 0} (config : Config) (e : ExtMount D) where
  unfoldable pub mount_fat : D → Partition D → Option (PeanutVolume D)
  unfolding partition_is_fat fat32_mount
  mount_fat d p =
      if partition_is_fat p
      then (elim (fat32_mount config p d) [ none ↦ none | some v ↦ some (fat32 v) ])
      else none

  unfoldable pub mount_exfat : BlockDevice D → D → Partition D → Option (PeanutVolume D)
  unfolding exfat_probe_boot exfat_mount
  mount_exfat dev d p =
      if exfat_probe_boot dev d p.first_lba
      then (elim (exfat_mount p d) [ none ↦ none | some v ↦ some (exfat v) ])
      else none

  unfoldable pub mount_ext : BlockDevice D → D → Partition D → Option (PeanutVolume D)
  mount_ext dev d p = if e.probe dev d p.first_lba && e.mount p d then some ext else none

  unfoldable pub partitions_of : BlockDevice D → D → List (Partition D)
  unfolding partition_scan_mbr
  partitions_of dev d = or_whole dev d (partition_scan_mbr dev d partition_max)

  unfoldable pub mount_first_fs : D → BlockDevice D → Option (PeanutVolume D)
  unfolding mount_fat mount_exfat mount_ext partitions_of
  mount_first_fs d dev =
      let ps = partitions_of dev d in
      or_else (first_of (mount_fat d) ps)
        (or_else (first_of (mount_exfat dev d) ps) (first_of (mount_ext dev d) ps))

  unfoldable pub fhs_dir_exists_fat32 : ℕ → Fat32Volume D → D → List ℕ → Option Bool
  unfolding fat32_find_root
  fhs_dir_exists_fat32 fuel v d name = elim (fat32_find_root fuel v d name) [
    | none ↦ none
    | some found ↦ elim found [ none ↦ some false | some entry ↦ some (is_directory entry) ]
  ]

  -- The path is an array of 16 characters.
  unfoldable pub fhs_dir_exists_ext : D → List ℕ → Bool
  unfolding copy_chars
  fhs_dir_exists_ext d name = e.dir_exists d (b'/' ∷ copy_chars name 14)

  unfoldable pub validate_fhs : ℕ → D → PeanutVolume D → Option Bool
  unfolding fhs_dir_exists_fat32 fhs_dir_exists_ext exfat_dir_exists
  validate_fhs fuel d (fat32 v) = all_of (fhs_dir_exists_fat32 fuel v d) fhs_dirs
  validate_fhs fuel d (exfat v) = all_of (exfat_dir_exists fuel v d) fhs_dirs
  validate_fhs fuel d ext = all_of (λ name. some (fhs_dir_exists_ext d name)) fhs_dirs

  -- `none` is a check of the directories that is still running.
  unfoldable pub storage_init_required :
      ℕ → ℕ → ℕ → List (BlockDevice D) → List (BlockDevice D) → D → Option (SetUp D)
  unfolding mount_first_fs validate_fhs
  storage_init_required fuel ide_found ahci_found ahci ide d =
      if ide_found == 0 && ahci_found == 0
      then some no_drives
      else (elim (or_else (first_of (mount_first_fs d) ahci) (first_of (mount_first_fs d) ide)) [
        | none ↦ some no_volume
        | some v ↦ elim (validate_fhs fuel d v) [
          | none ↦ none
          | some whole ↦ some (if whole then ready v else no_fhs)
        ]
      ])
