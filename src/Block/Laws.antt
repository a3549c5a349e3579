-- ===== src/Block/Laws.antt =====
-- What a driver below src/drivers/block/block.c is relied on for, and what the guards let through.
use peanut_kernel.Common.{ℕ, ◌*◌, ◌≡◌, some, List, length, IsBytes}
use peanut_kernel.Block.{BlockDevice, block_sector_size, block_read}

-- A read that succeeds fills the buffer with `count` sectors of bytes.
pub record IsReader {D : Type 0} (dev : BlockDevice D) : Type 0 where
  pub fills :
      (d : D) (lba count : ℕ) {bytes : List ℕ}
      → block_read dev d lba count ≡ some bytes
      → length bytes ≡ count * block_sector_size
  pub bytes :
      (d : D) (lba count : ℕ) {bytes : List ℕ}
      → block_read dev d lba count ≡ some bytes
      → IsBytes bytes
