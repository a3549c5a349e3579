-- ===== src/Exfat/Examples.antt =====
-- An exFAT volume with one file, and the theorems about src/fs/exfat.c there.
use peanut_kernel.Common.{
  ℕ, ◌+◌, ◌≡◌, ◌≢◌, ◌↔◌, refl, true, none, some, List, [], ◌∷◌, ◌==◌, arith, if◌then◌else◌, set,
  replicate, split_path,
}
use peanut_kernel.Block.{BlockDevice}
use peanut_kernel.Partition.{Partition}
use peanut_kernel.Chain.Read.{IsRead}
use peanut_kernel.Exfat.Volume.{ExfatVolume, exfat_mount, accepts, volume_of}
use peanut_kernel.Exfat.Entry.{ExfatDirEntry}
use peanut_kernel.Exfat.Directory.{list_cluster, exfat_find_root}
use peanut_kernel.Exfat.File.{exfat_chain, exfat_read_file, exfat_write_file}
use peanut_kernel.Exfat.Paths.{LeadsTo, exfat_find_root_iff}
use peanut_kernel.Exfat.Files.{exfat_read_file-IsRead}
use peanut_kernel.Exfat.Layout.{IsMounted, exfat_mount-IsMounted}

-- A sector of zeros but for some bytes.
abbrev sector_with : List (ℕ × ℕ) → List ℕ
sector_with [] = replicate 512 0
sector_with ((i, value) ∷ rest) = set (sector_with rest) i value

-- 1 sector a cluster, the table at 1, the heap of 10 clusters at 4, the root at cluster 2.
abbrev boot : List ℕ
boot = sector_with (
    (3, b'E')
    ∷ (4, b'X')
    ∷ (5, b'F')
    ∷ (6, b'A')
    ∷ (7, b'T')
    ∷ (8, 32)
    ∷ (9, 32)
    ∷ (10, 32)
    ∷ (80, 1)
    ∷ (84, 1)
    ∷ (88, 4)
    ∷ (92, 10)
    ∷ (96, 2)
    ∷ (108, 9)
    ∷ (110, 1)
    ∷ (510, 0x55)
    ∷ (511, 0xAA)
    ∷ [])

-- Both chains have one cluster.
abbrev table : List ℕ
table = sector_with (
    (8, 0xFF)
    ∷ (9, 0xFF)
    ∷ (10, 0xFF)
    ∷ (11, 0xFF)
    ∷ (12, 0xFF)
    ∷ (13, 0xFF)
    ∷ (14, 0xFF)
    ∷ (15, 0xFF)
    ∷ [])

-- "a", 3 bytes, at cluster 3.
abbrev root : List ℕ
root = sector_with (
    (0, 0x85)
    ∷ (1, 2)
    ∷ (4, 0x20)
    ∷ (32, 0xC0)
    ∷ (35, 1)
    ∷ (52, 3)
    ∷ (56, 3)
    ∷ (64, 0xC1)
    ∷ (66, b'a')
    ∷ [])

abbrev sector_of : ℕ → List ℕ
sector_of lba =
    if lba == 0
    then boot
    else if lba == 1
    then table
    else if lba == 4
    then root
    else if lba == 5
    then 7 ∷ 8 ∷ 9 ∷ 10 ∷ []
    else []

-- The device's state is the number of writes that it has seen.
abbrev disk : BlockDevice ℕ
disk = record {
  sector_count = λ d. 14;
  sector_size = 512;
  read = some (λ d lba count. some (sector_of lba));
  write = some (λ d lba count bytes. (true, d + 1));
}

abbrev partition : Partition ℕ
partition = record { disk = disk; kind = 7; first_lba = 0; sector_count = 14 }

abbrev volume : ExfatVolume ℕ
volume = record {
  partition = partition;
  fat_start_lba = 1;
  cluster_heap_lba = 4;
  root_cluster = 2;
  cluster_count = 10;
  sectors_per_cluster = 1;
}

abbrev a_entry : ExfatDirEntry
a_entry = record { name = b'a' ∷ []; attributes = 0x20; first_cluster = 3; size = 3 }

abbrev path : List ℕ
path = b'/' ∷ b'A' ∷ []

mounts : exfat_mount partition 0 ≡ some volume
unfolding exfat_mount accepts volume_of
mounts = refl

lists : list_cluster 4 volume 0 2 64 ≡ some (a_entry ∷ [])
unfolding list_cluster
lists = refl

finds : exfat_find_root 4 volume 0 path ≡ some (some a_entry)
unfolding exfat_find_root
finds = refl

reads : exfat_read_file 4 volume 0 path (1 ∷ 2 ∷ 3 ∷ 4 ∷ []) 4 ≡ some (some (7 ∷ 8 ∷ 9 ∷ 4 ∷ [], 3))
unfolding exfat_read_file
reads = refl

writes : exfat_write_file 4 volume 0 path (1 ∷ 2 ∷ []) 2 ≡ some (true, 1)
unfolding exfat_write_file
writes = refl

exfat_mount-IsMounted_example : IsMounted volume
exfat_mount-IsMounted_example = exfat_mount-IsMounted partition 0 volume mounts

exfat_find_root_iff_example :
    (exfat_find_root 4 volume 0 path ≡ some (some a_entry))
    ↔ LeadsTo 4 volume 0 2 (split_path path) a_entry
exfat_find_root_iff_example = exfat_find_root_iff 4 volume 0 path a_entry

exfat_read_file-IsRead_example :
    (exfat_read_file 4 volume 0 path (1 ∷ 2 ∷ 3 ∷ 4 ∷ []) 4 ≢ none)
    × ((result : List ℕ × ℕ)
        → exfat_read_file 4 volume 0 path (1 ∷ 2 ∷ 3 ∷ 4 ∷ []) 4 ≡ some (some result)
        → (result.1 ≡ 3) × IsRead (exfat_chain volume 0) 3 3 0 (1 ∷ 2 ∷ 3 ∷ 4 ∷ []) result)
exfat_read_file-IsRead_example =
    exfat_read_file-IsRead volume (omega arith) 4 0 path a_entry finds (1 ∷ 2 ∷ 3 ∷ 4 ∷ []) 4 refl
      (omega arith) (omega arith) (omega arith)
