-- ===== src/Fat12.antt =====
-- src/fs/fat12.c and fat12.h: the files in the root directory of a FAT12 floppy.
-- `floppy_read` of drive 0 is a parameter: the bytes of a sector, `none` for an error.
pub mod Bounds
mod Examples
use peanut_kernel.Common.{
  ℕ, zero, suc, ◌+◌, ◌-◌, ◌*◌, ◌/◌, ◌%◌, ◌^◌, bit_or, bit_and, Bool, true, false, ◌||◌, ◌&&◌,
  Option, none, some, List, [], ◌∷◌, ◌==◌, ltb, leb, if◌then◌else◌, get_or, set, replicate, take,
  drop, byte_at, le16, le32, u32, sub32, copy, upper_ascii, is_separator, all_below,
}

-- The fields of fat12_bpb_t that the file reads.
pub record Bpb : Type 0 where
  pub bytes_per_sector : ℕ
  pub sectors_per_cluster : ℕ
  pub reserved_sectors : ℕ
  pub num_fats : ℕ
  pub root_entries : ℕ
  pub sectors_per_fat_small : ℕ

-- fat12_dirent_t, with `name` and `ext` together.
pub record Dirent : Type 0 where
  pub name : List ℕ
  pub attributes : ℕ
  pub first_cluster_low : ℕ
  pub file_size : ℕ

abbrev pub eoc_mark : ℕ
eoc_mark = 0x0FF8

unfoldable pub bpb_of : List ℕ → Bpb
unfolding le16
bpb_of sector = record {
  bytes_per_sector = le16 sector 11;
  sectors_per_cluster = byte_at sector 13;
  reserved_sectors = le16 sector 14;
  num_fats = byte_at sector 16;
  root_entries = le16 sector 17;
  sectors_per_fat_small = le16 sector 22;
}

unfoldable pub dirent_of : List ℕ → ℕ → Dirent
unfolding le16 le32
dirent_of sector off = record {
  name = take 11 (drop off sector);
  attributes = byte_at sector (off + 11);
  first_cluster_low = le16 sector (off + 26);
  file_size = le32 sector (off + 28);
}

abbrev pub is_directory : Dirent → Bool
is_directory e = leb 1 (bit_and e.attributes 0x10)

unfoldable pub root_dir_sectors : Bpb → ℕ
root_dir_sectors b =
    (u32 (b.root_entries * 32 + b.bytes_per_sector - 1) / b.bytes_per_sector) % 2 ^ 16

unfoldable pub root_lba : Bpb → ℕ
root_lba b = u32 (b.reserved_sectors + b.num_fats * b.sectors_per_fat_small)

unfoldable pub data_lba : Bpb → ℕ
unfolding root_lba root_dir_sectors
data_lba b = u32 (root_lba b + root_dir_sectors b)

unfoldable pub cluster_lba : Bpb → ℕ → ℕ
unfolding data_lba
cluster_lba b cluster = u32 (data_lba b + sub32 cluster 2 * b.sectors_per_cluster)

abbrev pub skip_separators : List ℕ → List ℕ
skip_separators [] = []
skip_separators (c ∷ cs) = if is_separator c then skip_separators cs else c ∷ cs

-- The loop of `fat12_make_name`: `base` and `out`, or -1.
unfoldable pub name_loop : List ℕ → Bool → ℕ → ℕ → List ℕ → Option (ℕ × List ℕ)
unfolding upper_ascii
name_loop [] in_ext base ext out = some (base, out)
name_loop (c ∷ cs) in_ext base ext out = elim (is_separator c) [
  | true ↦ none
  | false ↦ elim (c == b'.') [
    | true ↦ elim in_ext [ true ↦ none | false ↦ name_loop cs true base ext out ]
    | false ↦ elim in_ext [
      | false ↦ elim (leb 8 base) [
        | true ↦ none
        | false ↦ name_loop cs false (base + 1) ext (set out base (upper_ascii c))
      ]
      | true ↦ elim (leb 11 ext) [
        | true ↦ none
        | false ↦ name_loop cs true base (ext + 1) (set out ext (upper_ascii c))
      ]
    ]
  ]
]

unfoldable pub make_name : List ℕ → Option (List ℕ)
unfolding name_loop
make_name path = elim (name_loop (skip_separators path) false 0 8 (replicate 11 32)) [
  | none ↦ none
  | some r ↦ if r.0 == 0 then none else some r.1
]

unfoldable pub name_matches : Dirent → List ℕ → Bool
name_matches e wanted = all_below 11 (λ i. get_or e.name i 0 == get_or wanted i 0)

-- A 12-bit entry, out of the two bytes that hold it.
unfoldable pub entry_value : ℕ → ℕ → ℕ → ℕ
entry_value cluster low high =
    let value = bit_or low (high * 2 ^ 8) in
    if bit_and cluster 1 == 1 then value / 2 ^ 4 else bit_and value 0x0FFF

module _ (floppy : ℕ → Option (List ℕ)) where
  unfoldable pub next_cluster : Bpb → ℕ → ℕ
  unfolding entry_value
  next_cluster b cluster =
      let fat_offset = cluster + cluster / 2 in
      let sector_lba = u32 (b.reserved_sectors + fat_offset / b.bytes_per_sector) in
      let offset = fat_offset % b.bytes_per_sector in
      elim (floppy sector_lba) [
        | none ↦ eoc_mark
        | some sector ↦
            if offset == b.bytes_per_sector - 1
            then (elim (floppy (u32 (sector_lba + 1))) [
              | none ↦ eoc_mark
              | some next ↦ entry_value cluster (byte_at sector offset) (byte_at next 0)
            ])
            else entry_value cluster (byte_at sector offset) (byte_at sector (offset + 1))
      ]

  -- The entries of a sector from `off` on: `none` goes on to the next sector, the inner `none` is -1.
  unfoldable pub scan_sector : ℕ → List ℕ → List ℕ → ℕ → Option (Option Dirent)
  unfolding dirent_of name_matches
  scan_sector zero wanted sector off = none
  scan_sector (suc left) wanted sector off =
      let e = dirent_of sector off in
      let rest = scan_sector left wanted sector (off + 32) in
      if byte_at sector off == 0
      then some none
      else if byte_at sector off == 0xE5 || bit_and e.attributes 0x0F == 0x0F
      then rest
      else if name_matches e wanted
      then some (some e)
      else rest

  unfoldable pub scan_root : ℕ → Bpb → List ℕ → ℕ → Option Dirent
  unfolding scan_sector
  scan_root zero b wanted lba = none
  scan_root (suc left) b wanted lba = elim (floppy lba) [
    | none ↦ none
    | some sector ↦ elim (scan_sector ((b.bytes_per_sector + 31) / 32) wanted sector 0) [
      | some r ↦ r
      | none ↦ scan_root left b wanted (u32 (lba + 1))
    ]
  ]

  -- Without a boot sector, `fat12_bpb` is null.
  unfoldable pub find_root : Option Bpb → List ℕ → Option Dirent
  unfolding make_name scan_root root_lba root_dir_sectors
  find_root none path = none
  find_root (some b) path = elim (make_name path) [
    | none ↦ none
    | some wanted ↦ scan_root (root_dir_sectors b) b wanted (root_lba b)
  ]

  -- Whether 0 is returned, and `fat12_bpb`: it is left where it points when the sector is refused,
  -- although the memory there is free again.
  unfoldable pub fat12_init : Option Bpb → Bool × Option Bpb
  unfolding bpb_of
  fat12_init old = elim (floppy 0) [
    | none ↦ (false, old)
    | some sector ↦ ((bpb_of sector).bytes_per_sector == 512, some (bpb_of sector))
  ]

  -- The sectors of a cluster: -1, or the buffer and `copied`.
  unfoldable pub read_sectors : ℕ → ℕ → Bpb → ℕ → ℕ → List ℕ → Option (List ℕ × ℕ)
  unfolding copy
  read_sectors zero size b lba copied buffer = some (buffer, copied)
  read_sectors (suc left) size b lba copied buffer = elim (ltb copied size) [
    | false ↦ some (buffer, copied)
    | true ↦ elim (floppy lba) [
      | none ↦ none
      | some sector ↦
          let left_over = size - copied in
          let count = if ltb left_over b.bytes_per_sector then left_over else b.bytes_per_sector in
          read_sectors left size b (u32 (lba + 1)) (copied + count)
            (copy buffer copied sector 0 count)
    ]
  ]

  -- The outer option is the fuel's, one unit for each cluster.
  unfoldable pub read_clusters : ℕ → ℕ → Bpb → ℕ → ℕ → List ℕ → Option (Option (List ℕ × ℕ))
  unfolding next_cluster cluster_lba read_sectors
  read_clusters zero size b cluster copied buffer = none
  read_clusters (suc fuel) size b cluster copied buffer =
      elim (leb 2 cluster && ltb cluster eoc_mark && ltb copied size) [
        | false ↦ some (some (buffer, copied))
        | true ↦
            elim (read_sectors b.sectors_per_cluster size b (cluster_lba b cluster) copied buffer) [
              | none ↦ some none
              | some r ↦ read_clusters fuel size b (next_cluster b cluster) r.1 r.0
            ]
      ]

  -- The inner `none` is a negative number: -1, or the size of a file of 2 ^ 31 bytes or more as an int.
  unfoldable pub fat12_read : ℕ → Option Bpb → List ℕ → List ℕ → ℕ → Option (Option (List ℕ × ℕ))
  unfolding find_root read_clusters
  fat12_read fuel none path buffer len = some none
  fat12_read fuel (some b) path buffer len = elim (find_root (some b) path) [
    | none ↦ some none
    | some file ↦
        if is_directory file || ltb len file.file_size
        then some none
        else (elim (read_clusters fuel file.file_size b file.first_cluster_low 0 buffer) [
          | none ↦ none
          | some o ↦ elim o [
            | none ↦ some none
            | some r ↦ some (if r.1 == file.file_size && ltb r.1 (2 ^ 31) then some r else none)
          ]
        ])
  ]

  unfoldable pub fat12_stat : Option Bpb → List ℕ → Option (ℕ × Bool)
  unfolding find_root
  fat12_stat b path = elim (find_root b path) [
    | none ↦ none
    | some file ↦ some (file.file_size, is_directory file)
  ]
