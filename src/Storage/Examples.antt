-- ===== src/Storage/Examples.antt =====
-- src/storage.c: a disk that is one ext volume, and one that cannot be read.
use peanut_kernel.Common.{ℕ, ◌≡◌, refl, true, none, some, [], ◌∷◌, ◌==◌}
use peanut_kernel.Block.{BlockDevice}
use peanut_kernel.Fat32.Sample.{config}
use peanut_kernel.Syscall.{ext}
use peanut_kernel.Storage.{ExtMount, no_volume, ready, storage_init_required}

abbrev dead_disk : BlockDevice ℕ
dead_disk = record { sector_count = λ d. 0; sector_size = 512; read = none; write = none }

abbrev ext_disk : BlockDevice ℕ
ext_disk = record { sector_count = λ d. 100; sector_size = 512; read = none; write = none }

-- The ext file system finds its volume on the disk of 100 sectors.
abbrev ext_fs : ExtMount ℕ
ext_fs = record {
  probe = λ dev d lba. dev.sector_count d == 100;
  mount = λ p d. p.sector_count == 100;
  dir_exists = λ d path. true;
}

sets_up :
    storage_init_required config ext_fs 4 1 1 (dead_disk ∷ []) (ext_disk ∷ []) 0 ≡ some (ready ext)
unfolding storage_init_required
sets_up = refl

no_volume_test : storage_init_required config ext_fs 4 0 1 (dead_disk ∷ []) [] 0 ≡ some no_volume
unfolding storage_init_required
no_volume_test = refl
