-- ===== src/Fat32/Examples.antt =====
-- The theorems about src/fs/fat32.c at a FAT16 volume of a few sectors.
use peanut_kernel.Common.{le16, ℕ, ◌≡◌, ◌≢◌, refl, true, false, none, some, List, [], ◌∷◌, arith}
use peanut_kernel.Block.{block_read}
use peanut_kernel.Partition.{partition_is_fat}
use peanut_kernel.Fat32.Volume.{
  Fat32Volume, fat32, fat32_mount, accepts, volume_of, boot_sector, cluster_count, fat_type_of,
  overhead,
}
use peanut_kernel.Fat32.Directory.{fat32_list_root, fat32_find_root}
use peanut_kernel.Fat32.File.{fat_chain, fat32_read_file, fat32_write_file}
use peanut_kernel.Fat32.Sample.{boot, partition, config, volume, a_entry, path}
use peanut_kernel.Chain.Read.{IsRead}
use peanut_kernel.Fat32.Layout.{IsLaidOut, fat32_mount-IsLaidOut}
use peanut_kernel.Fat32.WriteFile.{is_refused, fat32_write_file-returns}
use peanut_kernel.Fat32.ReadFile.{fat32_read_file-IsRead}

mounts : fat32_mount config partition 0 ≡ some volume
unfolding fat32_mount accepts volume_of boot_sector cluster_count fat_type_of overhead
    partition_is_fat block_read
mounts = refl

fat32_mount-IsLaidOut_example : IsLaidOut 0 boot volume
unfolding block_read le16
fat32_mount-IsLaidOut_example =
    fat32_mount-IsLaidOut config partition 0 volume boot mounts refl (omega arith) (omega arith)
      (omega arith)

lists : fat32_list_root 1 volume 0 64 ≡ some (a_entry ∷ [])
unfolding fat32_list_root
lists = refl

finds : fat32_find_root 4 volume 0 path ≡ some (some a_entry)
unfolding fat32_find_root
finds = refl

reads : fat32_read_file 4 volume 0 path (1 ∷ 2 ∷ 3 ∷ 4 ∷ []) 4 ≡ some (some (7 ∷ 8 ∷ 9 ∷ 4 ∷ [], 3))
unfolding fat32_read_file
reads = refl

-- The volume with its root directory in the chain from cluster 2.
abbrev chained : Fat32Volume ℕ
chained = record volume { fat_type = fat32; root_cluster = 2 }

fat32_read_file-IsRead_example :
    (fat32_read_file 4 volume 0 path (1 ∷ 2 ∷ 3 ∷ 4 ∷ []) 4 ≢ none)
    × ((result : List ℕ × ℕ)
        → fat32_read_file 4 volume 0 path (1 ∷ 2 ∷ 3 ∷ 4 ∷ []) 4 ≡ some (some result)
        → IsRead (fat_chain volume 0) 3 2 0 (1 ∷ 2 ∷ 3 ∷ 4 ∷ []) result)
fat32_read_file-IsRead_example =
    fat32_read_file-IsRead volume 0 4 path (1 ∷ 2 ∷ 3 ∷ 4 ∷ []) 4 a_entry (omega arith)
      (omega arith) finds refl (omega arith) (omega arith) (omega arith)

writes : fat32_write_file config 4 volume 0 path (1 ∷ 2 ∷ []) 2 ≡ some (true, 1)
unfolding fat32_write_file
writes = refl

fat32_write_file-returns_example :
    (fat32_write_file config 4 volume 0 path (1 ∷ 2 ∷ []) 2 ≢ none)
    × (is_refused config volume a_entry 2 ≡ true
        → fat32_write_file config 4 volume 0 path (1 ∷ 2 ∷ []) 2 ≡ some (false, 0))
fat32_write_file-returns_example =
    fat32_write_file-returns volume (omega arith) (1 ∷ 2 ∷ []) 2 config 4 0 path a_entry finds
      (omega arith)
