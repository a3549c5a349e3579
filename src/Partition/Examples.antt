-- ===== src/Partition/Examples.antt =====
-- The partition scan on a small device, and its theorems there.
use peanut_kernel.Common.{
  ℕ, ◌*◌, ◌≡◌, refl, ap, sym, ◌∙◌, none, some, List, [], ◌∷◌, ◌++◌, ◌==◌, arith, if◌then◌else◌,
  length, replicate, take, IsBytes, all_bytes-IsBytes, subst,
}
use peanut_kernel.Block.{BlockDevice, block_sector_size, block_read}
use peanut_kernel.Block.Laws.{IsReader}
use peanut_kernel.Partition.{Partition, partition_scan_mbr, has_signature}
use peanut_kernel.Partition.Scan.{in_use, mbr_table, partition_scan_mbr_lem}

-- One partition of type 0x0C, at sector 2048, of 65536 sectors.
abbrev mbr : List ℕ
mbr =
    replicate 450 0
    ++ (0x0C ∷ 0 ∷ 0 ∷ 0 ∷ 0 ∷ 8 ∷ 0 ∷ 0 ∷ 0 ∷ 0 ∷ 1 ∷ 0 ∷ (replicate 48 0 ++ (0x55 ∷ 0xAA ∷ [])))

-- A device on which every sector reads as the given one.
abbrev device : List ℕ → BlockDevice ℕ
device sector = record {
  sector_count = λ d. 70000;
  sector_size = 512;
  read = some (λ d lba count. if count == 1 then some sector else none);
  write = none;
}

abbrev disk : BlockDevice ℕ
disk = device mbr

abbrev first : Partition ℕ
first = record { disk = disk; kind = 0x0C; first_lba = 2048; sector_count = 65536 }

scan_runs : partition_scan_mbr disk 0 4 ≡ some (first ∷ [])
unfolding partition_scan_mbr
scan_runs = refl

device_reads :
    (sector : List ℕ) (d lba count : ℕ) (bytes : List ℕ)
    → block_read (device sector) d lba count ≡ some bytes
    → (count ≡ 1) × (sector ≡ bytes)
unfolding block_read
device_reads sector d lba count bytes e = ground arith

device-IsReader :
    (sector : List ℕ) → length sector ≡ 512 → IsBytes sector → IsReader (device sector)
device-IsReader sector full ok = record {
  fills = λ d lba count {bytes} e.
      let r = device_reads sector d lba count bytes e in
      sym (ap length r.1) ∙ full ∙ sym (ap (λ n. n * block_sector_size) r.0);
  bytes = λ d lba count {bytes} e. subst IsBytes (device_reads sector d lba count bytes e).1 ok;
}

disk-IsReader : IsReader disk
disk-IsReader = device-IsReader mbr refl (all_bytes-IsBytes mbr refl)

partition_scan_mbr_lem_example : partition_scan_mbr disk 0 4 ≡ (elim (block_read disk 0 0 1) [
  | none ↦ none
  | some sector ↦
      some (if has_signature sector then take 4 (in_use (mbr_table disk sector)) else [])
])
partition_scan_mbr_lem_example = partition_scan_mbr_lem disk 0 4 (omega arith)
