-- ===== src/Block.antt =====
-- src/drivers/block/block.c and block.h: a block device and its guarded read and write.
-- A driver's `read` and `write` are functions of the device's state `D`. A read leaves the state as it
-- is and returns what it put into the buffer, `none` for a result that is not 0; a write returns the
-- new state, which a failed one may have changed too, and `true` for 0. Pointers that a caller passes are not null.
-- `block_lock` only serialises calls and has no place in a model of one call at a time.
pub mod Laws
use peanut_kernel.Common.{
  ℕ, Bool, true, false, ◌||◌, not, Option, none, some, List, ◌==◌, if◌then◌else◌,
}

abbrev pub block_sector_size : ℕ
block_sector_size = 512

pub record BlockDevice (D : Type 0) : Type 0 where
  pub sector_count : D → ℕ
  pub sector_size : ℕ
  pub read : Option (D → ℕ → ℕ → Option (List ℕ))
  pub write : Option (D → ℕ → ℕ → List ℕ → Bool × D)

module _ {D : Type 0} where
  unfoldable pub block_read : BlockDevice D → D → ℕ → ℕ → Option (List ℕ)
  block_read dev d lba count = elim dev.read [
    | none ↦ none
    | some read ↦
        if count == 0 || not (dev.sector_size == block_sector_size) then none else read d lba count
  ]

  unfoldable pub block_write : BlockDevice D → D → ℕ → ℕ → List ℕ → Bool × D
  block_write dev d lba count buffer = elim dev.write [
    | none ↦ (false, d)
    | some write ↦
        if count == 0 || not (dev.sector_size == block_sector_size)
        then (false, d)
        else write d lba count buffer
  ]
