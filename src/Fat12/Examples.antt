-- ===== src/Fat12/Examples.antt =====
-- A floppy with one file, and the theorem about src/fs/fat12.c there.
use peanut_kernel.Common.{
  ℕ, ◌^◌, ◌<◌, ◌≤◌, ◌≡◌, ◌≢◌, ◌||◌, refl, true, false, none, some, Option, List, [], ◌∷◌, ◌++◌,
  ◌==◌, ltb, arith, if◌then◌else◌, replicate,
}
use peanut_kernel.Fat32.Sample.{a_txt}
use peanut_kernel.Fat12.{
  Bpb, Dirent, is_directory, make_name, next_cluster, find_root, fat12_init, fat12_read, fat12_stat,
}
use peanut_kernel.Fat12.Bounds.{IsWithin, fat12_read-IsWithin}

-- 1 sector a cluster, 1 before the table, 1 table of 1 sector, 16 root entries.
abbrev boot : List ℕ
boot =
    replicate 11 0
    ++ (0 ∷ 2 ∷ 1 ∷ 1 ∷ 0 ∷ 1 ∷ 16 ∷ 0 ∷ 0x40 ∷ 0x0B ∷ 0xF0 ∷ 1 ∷ 0 ∷ replicate 488 0)

abbrev bpb : Bpb
bpb = record {
  bytes_per_sector = 512;
  sectors_per_cluster = 1;
  reserved_sectors = 1;
  num_fats = 1;
  root_entries = 16;
  sectors_per_fat_small = 1;
}

-- Sector 1 is the table (cluster 2 ends its chain), 2 the root directory, 3 the data of cluster 2.
abbrev floppy : ℕ → Option (List ℕ)
floppy lba =
    if lba == 0
    then some boot
    else if lba == 1
    then some (0xF0 ∷ 0xFF ∷ 0xFF ∷ 0xFF ∷ 0x0F ∷ [])
    else if lba == 2
    then some a_txt
    else if lba == 3
    then some (7 ∷ 8 ∷ 9 ∷ 10 ∷ [])
    else none

abbrev path : List ℕ
path = b'/' ∷ b'a' ∷ b'.' ∷ b't' ∷ b'x' ∷ b't' ∷ []

abbrev file : Dirent
file = record {
  name = b'A' ∷ replicate 7 32 ++ (b'T' ∷ b'X' ∷ b'T' ∷ []);
  attributes = 0x20;
  first_cluster_low = 2;
  file_size = 3;
}

starts : fat12_init floppy none ≡ (true, some bpb)
unfolding fat12_init
starts = refl

named : make_name path ≡ some file.name
unfolding make_name
named = refl

ends_chain : next_cluster floppy bpb 2 ≡ 0xFFF
unfolding next_cluster
ends_chain = refl

finds : find_root floppy (some bpb) path ≡ some file
unfolding find_root
finds = refl

reads :
    fat12_read floppy 4 (some bpb) path (1 ∷ 2 ∷ 3 ∷ 4 ∷ []) 4 ≡ some (some (7 ∷ 8 ∷ 9 ∷ 4 ∷ [], 3))
unfolding fat12_read
reads = refl

stats : fat12_stat floppy (some bpb) path ≡ some (3, false)
unfolding fat12_stat
stats = refl

fat12_read-IsWithin_example :
    (fat12_read floppy 4 (some bpb) path (1 ∷ 2 ∷ 3 ∷ 4 ∷ []) 4 ≢ none)
    × ((is_directory file || ltb 4 3) ≡ true
        → fat12_read floppy 4 (some bpb) path (1 ∷ 2 ∷ 3 ∷ 4 ∷ []) 4 ≡ some none)
    × ((result : List ℕ × ℕ)
        → fat12_read floppy 4 (some bpb) path (1 ∷ 2 ∷ 3 ∷ 4 ∷ []) 4 ≡ some (some result)
        → (result.1 ≡ 3)
          × (result.1 ≤ 4)
          × (result.1 < 2 ^ 31)
          × IsWithin 3 0 (1 ∷ 2 ∷ 3 ∷ 4 ∷ []) result)
fat12_read-IsWithin_example =
    fat12_read-IsWithin floppy bpb (omega arith) (omega arith) path file finds 4
      (1 ∷ 2 ∷ 3 ∷ 4 ∷ []) 4 (omega arith)
