-- ===== src/Iso9660.antt =====
-- src/fs/iso9660.c and iso9660.h: the files of a CD-ROM.
-- `cdrom_read` of drive 0 is a parameter: the bytes of a sector, `none` for an error. The walk along a
-- path runs on two bounds, the depth of directories and the rounds of the loop over one directory.
pub mod Files
pub mod Directories
mod Examples
use peanut_kernel.Common.{
  ℕ, zero, suc, ◌+◌, ◌-◌, ◌*◌, ◌/◌, ◌%◌, ◌^◌, bit_and, Bool, true, false, ◌||◌, ◌&&◌, not, Option,
  none, some, List, [], ◌∷◌, ◌==◌, ltb, leb, if◌then◌else◌, length, drop, byte_at, le32, u32, copy,
  upper_ascii, all_below, has_chars,
}

-- ISO9660_SECTOR_SIZE
abbrev pub iso9660_sector_size : ℕ
iso9660_sector_size = 2048

-- Whether `iso_pvd` points anywhere, with `iso_root_lba` and `iso_root_size`.
pub record Iso : Type 0 where
  pub has_pvd : Bool
  pub root_lba : ℕ
  pub root_size : ℕ

-- `*out_lba`, `*out_size` and `*out_is_dir`
pub record Extent : Type 0 where
  pub lba : ℕ
  pub size : ℕ
  pub is_dir : Bool

abbrev pub trim_spaces : List ℕ → ℕ → ℕ
trim_spaces name zero = zero
trim_spaces name (suc n) = if byte_at name n == b' ' then trim_spaces name n else suc n

abbrev pub trim_version : List ℕ → ℕ → ℕ
trim_version name n =
    if ltb 2 n && (byte_at name (n - 2) == b';' && byte_at name (n - 1) == b'1') then n - 2 else n

abbrev pub trim_dot : List ℕ → ℕ → ℕ
trim_dot name n = if ltb 0 n && byte_at name (n - 1) == b'.' then n - 1 else n

unfoldable pub iso_component_equal : List ℕ → List ℕ → ℕ → Bool
unfolding upper_ascii
iso_component_equal component name name_len =
    let effective_len = trim_dot name (trim_version name (trim_spaces name name_len)) in
    length component == effective_len
    && all_below effective_len
        (λ i. upper_ascii (byte_at component i) == upper_ascii (byte_at name i))

abbrev pub skip_slashes : List ℕ → List ℕ
skip_slashes [] = []
skip_slashes (c ∷ cs) = if c == b'/' then skip_slashes cs else c ∷ cs

-- The characters up to the next slash, and those from there on.
abbrev pub split_name : List ℕ → List ℕ × List ℕ
split_name [] = ([], [])
split_name (c ∷ cs) =
    let rest = split_name cs in if c == b'/' then ([], c ∷ cs) else (c ∷ rest.0, rest.1)

-- The name, and `*path`.
abbrev pub iso_next_component : List ℕ → List ℕ × List ℕ
iso_next_component path = split_name (skip_slashes path)

-- The extent of the record in `raw`.
unfoldable pub extent_of : List ℕ → Extent
unfolding le32
extent_of raw = record {
  lba = le32 raw 2;
  size = le32 raw 10;
  is_dir = leb 1 (bit_and (byte_at raw 25) 0x02);
}

-- `.` and `..` have a single byte 0 or 1 for a name.
abbrev pub is_named : List ℕ → Bool
is_named raw = ltb 1 (byte_at raw 32) || (not (byte_at raw 33 == 0) && not (byte_at raw 33 == 1))

-- What the loop over a sector comes to: -1, the record of the component, or `pos` for the next sector.
pub data Scan : Type 0 where
  fails : Scan
  finds : Extent → Scan
  moves : ℕ → Scan

-- The loop over the records of a sector from `off` on.
unfoldable pub scan_sector : ℕ → List ℕ → List ℕ → ℕ → ℕ → ℕ → Scan
unfolding iso_component_equal extent_of
scan_sector zero component sector dir_size off pos = moves pos
scan_sector (suc left) component sector dir_size off pos =
    let raw = drop off sector in
    let len = byte_at sector off in
    let rest = scan_sector left component sector dir_size (off + len) (u32 (pos + len)) in
    if not (ltb off iso9660_sector_size && ltb pos dir_size)
    then moves pos
    else if len == 0
    then moves (u32 ((pos / iso9660_sector_size + 1) * iso9660_sector_size))
    else if ltb iso9660_sector_size (off + len) || ltb len 34
    then fails
    else if is_named raw && iso_component_equal component (drop 33 raw) (byte_at raw 32)
    then finds (extent_of raw)
    else rest

module _ (cdrom : ℕ → Option (List ℕ)) where
  -- The loop over the sectors of a directory: the outer option is the fuel's, the inner `none` is -1.
  unfoldable pub scan_dir : ℕ → ℕ → ℕ → List ℕ → ℕ → Option (Option Extent)
  unfolding scan_sector
  scan_dir zero dir_lba dir_size component pos = none
  scan_dir (suc fuel) dir_lba dir_size component pos = elim (ltb pos dir_size) [
    | false ↦ some none
    | true ↦ elim (cdrom (u32 (dir_lba + pos / iso9660_sector_size))) [
      | none ↦ some none
      | some sector ↦
          elim (scan_sector iso9660_sector_size component sector dir_size
            (pos % iso9660_sector_size) pos) [
              | fails ↦ some none
              | finds e ↦ some (some e)
              | moves next ↦ scan_dir fuel dir_lba dir_size component next
            ]
    ]
  ]

  unfoldable pub iso_find_in_dir : ℕ → ℕ → ℕ → ℕ → List ℕ → Option (Option Extent)
  unfolding scan_dir
  iso_find_in_dir zero fuel dir_lba dir_size path = none
  iso_find_in_dir (suc depth) fuel dir_lba dir_size path =
      let r = iso_next_component path in
      elim (length r.0 == 0) [
        | true ↦ some (some (record { lba = dir_lba; size = dir_size; is_dir = true }))
        | false ↦ elim (scan_dir fuel dir_lba dir_size r.0 0) [
          | none ↦ none
          | some o ↦ elim o [
            | none ↦ some none
            | some e ↦ elim (length (skip_slashes r.1) == 0) [
              | true ↦ some (some e)
              | false ↦ elim e.is_dir [
                | false ↦ some none
                | true ↦ iso_find_in_dir depth fuel e.lba e.size (skip_slashes r.1)
              ]
            ]
          ]
        ]
      ]

  -- Whether 0 is returned, and the state: `iso_pvd` points at the sector even where it is refused.
  unfoldable pub iso9660_init : Iso → Bool × Iso
  unfolding has_chars le32
  iso9660_init s = elim (cdrom 16) [
    | none ↦ (false, s)
    | some sector ↦ elim (has_chars sector 0 (1 ∷ b'C' ∷ b'D' ∷ b'0' ∷ b'0' ∷ b'1' ∷ [])) [
      | false ↦ (false, record s { has_pvd = true })
      | true ↦
          (true, record { has_pvd = true; root_lba = le32 sector 158; root_size = le32 sector 166 })
    ]
  ]

  -- The loop of `iso9660_read`, with so many sectors left at most: -1, or the buffer.
  unfoldable pub read_extent : ℕ → ℕ → ℕ → ℕ → List ℕ → Option (List ℕ)
  unfolding copy
  read_extent zero lba size copied buffer = some buffer
  read_extent (suc left) lba size copied buffer = elim (ltb copied size) [
    | false ↦ some buffer
    | true ↦ elim (cdrom (u32 (lba + copied / iso9660_sector_size))) [
      | none ↦ none
      | some sector ↦
          let over = size - copied in
          let count = if ltb over iso9660_sector_size then over else iso9660_sector_size in
          read_extent left lba size (copied + count) (copy buffer copied sector 0 count)
    ]
  ]

  -- The inner `none` is a negative number: -1, or the size of a file of 2 ^ 31 bytes or more as an int.
  unfoldable pub iso9660_read : ℕ → ℕ → Iso → List ℕ → List ℕ → ℕ → Option (Option (List ℕ × ℕ))
  unfolding iso_find_in_dir read_extent
  iso9660_read depth fuel s path buffer len = elim s.has_pvd [
    | false ↦ some none
    | true ↦ elim (iso_find_in_dir depth fuel s.root_lba s.root_size path) [
      | none ↦ none
      | some o ↦ elim o [
        | none ↦ some none
        | some e ↦
            if e.is_dir || ltb len e.size
            then some none
            else (elim (read_extent ((e.size + 2047) / iso9660_sector_size) e.lba e.size 0 buffer) [
              | none ↦ some none
              | some after ↦ some (if ltb e.size (2 ^ 31) then some (after, e.size) else none)
            ])
      ]
    ]
  ]

  unfoldable pub iso9660_stat : ℕ → ℕ → Iso → List ℕ → Option (Option (ℕ × Bool))
  unfolding iso_find_in_dir
  iso9660_stat depth fuel s path = elim s.has_pvd [
    | false ↦ some none
    | true ↦ elim (iso_find_in_dir depth fuel s.root_lba s.root_size path) [
      | none ↦ none
      | some o ↦ some (elim o [ none ↦ none | some e ↦ some (e.size, e.is_dir) ])
    ]
  ]
