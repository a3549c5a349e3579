-- ===== src/Partition/Scan.antt =====
-- `partition_scan_mbr` of src/fs/partition.c against the table that the sector holds.
use peanut_kernel.Common.{
  some_eq, ℕ, zero, suc, ◌+◌, ◌*◌, ◌≤◌, ◌<◌, ◌≡◌, refl, ap, false, Option, none, some, List, [],
  ◌∷◌, length, take, arith, Bool-cases, inl, inr, ◌^◌, le32-lt, IsBytes, Option-cases,
  if◌then◌else◌, subst, ◌==◌,
}
use peanut_kernel.Block.{BlockDevice, block_read}
use peanut_kernel.Block.Laws.{IsReader}
use peanut_kernel.Partition.{
  Partition, partition_max, entry_at, is_empty, scan_entries, has_signature, partition_scan_mbr,
}

counted : (room : ℕ) → (suc room == 0) ≡ false
counted room = ground arith

module _ {D : Type 0} where
  -- The entries in use, in the order of the table.
  abbrev pub in_use : List (Partition D) → List (Partition D)
  in_use [] = []
  in_use (p ∷ ps) = if is_empty p then in_use ps else p ∷ in_use ps

  -- The four entries of the table in a sector.
  abbrev pub mbr_table : BlockDevice D → List ℕ → List (Partition D)
  mbr_table disk sector =
      entry_at disk sector 0
      ∷ entry_at disk sector 1
      ∷ entry_at disk sector 2
      ∷ entry_at disk sector 3
      ∷ []

  abbrev entries_from : BlockDevice D → List ℕ → ℕ → ℕ → List (Partition D)
  entries_from disk sector zero i = []
  entries_from disk sector (suc left) i =
      entry_at disk sector i ∷ entries_from disk sector left (i + 1)

  scan_entries-eq-take :
      (disk : BlockDevice D) (sector : List ℕ) (left i room : ℕ)
      → scan_entries disk sector left i room ≡ take room (in_use (entries_from disk sector left i))
  unfolding scan_entries
  scan_entries-eq-take disk sector zero i zero = refl
  scan_entries-eq-take disk sector zero i (suc room) = refl
  scan_entries-eq-take disk sector (suc left) i zero = refl
  scan_entries-eq-take disk sector (suc left) i (suc room) =
      elim (Bool-cases (is_empty (entry_at disk sector i))) [
        | inl e ↦ rw (e, scan_entries) (scan_entries-eq-take disk sector left (i + 1) (suc room))
        | inr e ↦
            rw (e, scan_entries)
              (ap (λ ps. entry_at disk sector i ∷ ps)
                (scan_entries-eq-take disk sector left (i + 1) room))
      ]

  -- `partition_scan_mbr` with room for at least one entry fails exactly when sector 0 cannot be
  -- read; on a sector without the boot signature it finds nothing; else it returns the used entries
  -- of the table in their order, cut to the room there is.
  pub partition_scan_mbr_lem :
      (disk : BlockDevice D) (d : D) (room : ℕ)
      → 0 < room
      → partition_scan_mbr disk d room ≡ (elim (block_read disk d 0 1) [
        | none ↦ none
        | some sector ↦
            some (if has_signature sector then take room (in_use (mbr_table disk sector)) else [])
      ])
  unfolding partition_scan_mbr
  partition_scan_mbr_lem disk d zero pos = absurd (omega arith)
  partition_scan_mbr_lem disk d (suc room) pos = elim (Option-cases (block_read disk d 0 1)) [
    | inl e ↦ rw (counted room, e)
    | inr (sector, e) ↦
        rw (counted room, e)
          (ap (λ ps. some (if has_signature sector then ps else []))
            (scan_entries-eq-take disk sector partition_max 0 (suc room)))
  ]

  -- What the scan promises of an entry: it is in use, and its range is that of 32-bit fields.
  abbrev pub IsEntry : Partition D → Type 0
  IsEntry p =
      (0 < p.kind)
      × (p.kind < 256)
      × (0 < p.sector_count)
      × (p.sector_count < 2 ^ 32)
      × (p.first_lba < 2 ^ 32)

  abbrev pub AllEntries : List (Partition D) → Type 0
  AllEntries [] = Unit
  AllEntries (p ∷ ps) = IsEntry p × AllEntries ps

  entry_at-IsEntry :
      (disk : BlockDevice D) (sector : List ℕ) (i : ℕ)
      → IsBytes sector
      → is_empty (entry_at disk sector i) ≡ false
      → IsEntry (entry_at disk sector i)
  unfolding entry_at
  entry_at-IsEntry disk sector i bytes used =
      let size = le32-lt sector (446 + i * 16 + 12) bytes in
      let start = le32-lt sector (446 + i * 16 + 8) bytes in
      let kind = bytes (446 + i * 16 + 4) in (ground arith, kind, ground arith, size, start)

  scan_entries-AllEntries :
      (disk : BlockDevice D) (sector : List ℕ) (left i room : ℕ)
      → IsBytes sector
      → let ps = scan_entries disk sector left i room in
        (length ps ≤ left) × (length ps ≤ room) × AllEntries ps
  unfolding scan_entries
  scan_entries-AllEntries disk sector zero i room bytes = (omega arith, omega arith, tt)
  scan_entries-AllEntries disk sector (suc left) i zero bytes = (omega arith, omega arith, tt)
  scan_entries-AllEntries disk sector (suc left) i (suc room) bytes =
      elim (Bool-cases (is_empty (entry_at disk sector i))) [
        | inl e ↦
            let rest = scan_entries-AllEntries disk sector left (i + 1) (suc room) bytes in
            rw (e, scan_entries) (omega arith, rest.1, rest.2)
        | inr e ↦
            let rest = scan_entries-AllEntries disk sector left (i + 1) room bytes in
            rw (e, scan_entries)
              (omega arith, omega arith, (entry_at-IsEntry disk sector i bytes e, rest.2))
      ]

  -- What `partition_scan_mbr` returns on a device that reads whole sectors of bytes is at most four
  -- entries and at most what there is room for; each has a nonzero type byte, a nonzero 32-bit
  -- length and a 32-bit start.
  partition_scan_mbr-AllEntries :
      (disk : BlockDevice D) (d : D) (room : ℕ) (ps : List (Partition D))
      → IsReader disk
      → partition_scan_mbr disk d room ≡ some ps
      → (length ps ≤ partition_max) × (length ps ≤ room) × AllEntries ps
  unfolding partition_scan_mbr
  partition_scan_mbr-AllEntries disk d zero ps reader e = cc
  partition_scan_mbr-AllEntries disk d (suc room) ps reader e =
      elim (Option-cases (block_read disk d 0 1)) [
        | inl failed ↦ absurd (let e' = rw (counted room, failed) at e in some_ne e')
        | inr (sector, read) ↦ found sector (reader.bytes d 0 1 read) (rw (counted room, read) at e)
      ]
    where
      some_ne : ◌≡◌ {A = Option (List (Partition D))} none (some ps) → ⊥
      some_ne p = ground arith

      found :
          (sector : List ℕ)
          → IsBytes sector
          → some (
              if has_signature sector
              then scan_entries disk sector partition_max 0 (suc room)
              else [])
            ≡ some ps
          → (length ps ≤ partition_max) × (length ps ≤ suc room) × AllEntries ps
      found sector bytes q = elim (Bool-cases (has_signature sector)) [
        | inl signed ↦
            subst (λ qs. (length qs ≤ partition_max) × (length qs ≤ suc room) × AllEntries qs)
              (some_eq (rw signed at q))
              (scan_entries-AllEntries disk sector partition_max 0 (suc room) bytes)
        | inr plain ↦
            subst (λ qs. (length qs ≤ partition_max) × (length qs ≤ suc room) × AllEntries qs)
              (some_eq (rw plain at q)) (omega arith, omega arith, tt)
      ]
