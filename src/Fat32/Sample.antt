-- ===== src/Fat32/Sample.antt =====
-- A FAT16 volume of a few sectors.
use peanut_kernel.Common.{ℕ, ◌+◌, true, some, List, [], ◌∷◌, ◌++◌, ◌==◌, if◌then◌else◌, replicate}
use peanut_kernel.Block.{BlockDevice}
use peanut_kernel.Partition.{Partition}
use peanut_kernel.Fat32.Volume.{Fat32Volume, Config, fat16}
use peanut_kernel.Fat32.Entry.{Fat32DirEntry}

-- "A.TXT", 3 bytes, at cluster 2.
abbrev pub a_txt : List ℕ
a_txt =
    b'A' ∷ replicate 7 32
    ++ (b'T' ∷ b'X' ∷ b'T' ∷ 0x20 ∷ (replicate 14 0 ++ (2 ∷ 0 ∷ 3 ∷ 0 ∷ 0 ∷ 0 ∷ [])))

-- 1 sector a cluster, 1 before the table, 1 table of 1 sector, 32 root entries, 5000 sectors.
abbrev pub boot : List ℕ
boot =
    replicate 11 0
    ++ (0
        ∷ 2
        ∷ 1
        ∷ 1
        ∷ 0
        ∷ 1
        ∷ 32
        ∷ 0
        ∷ 0x88
        ∷ 0x13
        ∷ 0xF8
        ∷ 1
        ∷ 0
        ∷ (replicate 486 0 ++ (0x55 ∷ 0xAA ∷ [])))

-- Sector 0 is the boot sector, 1 the table (cluster 2 ends its chain), 2 the root directory, 4 the
-- data of cluster 2.
abbrev pub sector_of : ℕ → List ℕ
sector_of lba =
    if lba == 0
    then boot
    else if lba == 1
    then 0xF8 ∷ 0xFF ∷ 0xFF ∷ 0xFF ∷ 0xFF ∷ 0xFF ∷ []
    else if lba == 2
    then a_txt
    else if lba == 4
    then 7 ∷ 8 ∷ 9 ∷ 10 ∷ []
    else []

-- The device's state is the number of writes that it has seen.
abbrev pub disk : BlockDevice ℕ
disk = record {
  sector_count = λ d. 5000;
  sector_size = 512;
  read = some (λ d lba count. some (sector_of lba));
  write = some (λ d lba count bytes. (true, d + 1));
}

abbrev pub partition : Partition ℕ
partition = record { disk = disk; kind = 6; first_lba = 0; sector_count = 5000 }

abbrev pub config : Config
config = record { readable = λ t. true; writable = λ t. true }

abbrev pub volume : Fat32Volume ℕ
volume = record {
  partition = partition;
  fat_type = fat16;
  fat_start_lba = 1;
  data_start_lba = 4;
  root_dir_lba = 2;
  root_dir_sectors = 2;
  root_cluster = 0;
  sectors_per_fat = 1;
  sectors_per_cluster = 1;
  root_entry_count = 32;
}

abbrev pub a_entry : Fat32DirEntry
a_entry = record {
  name = b'A' ∷ b'.' ∷ b'T' ∷ b'X' ∷ b'T' ∷ [];
  attributes = 0x20;
  first_cluster = 2;
  size = 3;
}

abbrev pub path : List ℕ
path = b'/' ∷ b'a' ∷ b'.' ∷ b't' ∷ b'x' ∷ b't' ∷ []
