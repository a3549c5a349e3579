-- ===== src/Partition.antt =====
-- src/fs/partition.c and partition.h: the MBR partition table.
pub mod Scan
mod Examples
use peanut_kernel.Common.{
  ℕ, zero, suc, ◌+◌, ◌*◌, Bool, true, false, ◌||◌, ◌&&◌, not, Option, none, some, List, [], ◌∷◌,
  ◌==◌, ltb, if◌then◌else◌, byte_at, le32,
}
use peanut_kernel.Block.{BlockDevice, block_read}

abbrev pub partition_max : ℕ
partition_max = 4

pub record Partition (D : Type 0) : Type 0 where
  pub disk : BlockDevice D
  pub kind : ℕ
  pub first_lba : ℕ
  pub sector_count : ℕ

-- `sector[510] == 0x55 && sector[511] == 0xAA`
abbrev pub has_signature : List ℕ → Bool
has_signature sector = byte_at sector 510 == 0x55 && byte_at sector 511 == 0xAA

module _ {D : Type 0} where
  unfoldable pub partition_is_fat32 : Partition D → Bool
  partition_is_fat32 p = p.kind == 0x0B || p.kind == 0x0C || p.kind == 0x1B || p.kind == 0x1C

  unfoldable pub partition_is_fat : Partition D → Bool
  unfolding partition_is_fat32
  partition_is_fat p =
      partition_is_fat32 p
      || (p.kind == 0x01
          || (p.kind == 0x04
              || (p.kind == 0x06
                  || (p.kind == 0x0E
                      || (p.kind == 0x11
                          || (p.kind == 0x14 || (p.kind == 0x16 || p.kind == 0x1E)))))))

  -- Entry `i` of the table in a sector.
  unfoldable pub entry_at : BlockDevice D → List ℕ → ℕ → Partition D
  unfolding le32
  entry_at disk sector i = record {
    disk = disk;
    kind = byte_at sector (446 + i * 16 + 4);
    first_lba = le32 sector (446 + i * 16 + 8);
    sector_count = le32 sector (446 + i * 16 + 12);
  }

  -- `type == 0 || sectors == 0`
  abbrev pub is_empty : Partition D → Bool
  is_empty p = p.kind == 0 || p.sector_count == 0

  -- The loop at entry `i`, with `left` entries to go and room for `room` more in `out`.
  unfoldable pub scan_entries : BlockDevice D → List ℕ → ℕ → ℕ → ℕ → List (Partition D)
  unfolding entry_at
  scan_entries disk sector zero i room = []
  scan_entries disk sector (suc left) i zero = []
  scan_entries disk sector (suc left) i (suc room) =
      let p = entry_at disk sector i in
      elim (is_empty p) [
        | true ↦ scan_entries disk sector left (i + 1) (suc room)
        | false ↦ p ∷ scan_entries disk sector left (i + 1) room
      ]

  -- `none` is -1; a list is the part of `out` that was filled, its length the result.
  unfoldable pub partition_scan_mbr : BlockDevice D → D → ℕ → Option (List (Partition D))
  unfolding block_read scan_entries
  partition_scan_mbr disk d max_partitions =
      if max_partitions == 0 then none else (elim (block_read disk d 0 1) [
        | none ↦ none
        | some sector ↦ some (
            if has_signature sector
            then scan_entries disk sector partition_max 0 max_partitions
            else [])
      ])
