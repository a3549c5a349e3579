-- ===== src/Exfat/Entry.antt =====
-- src/fs/exfat.c: `parse_entry_set`, which reads a file record with the stream and name records behind
-- it.
use peanut_kernel.Common.{
  ℕ, zero, suc, ◌+◌, ◌-◌, ◌*◌, bit_and, Bool, true, false, not, ◌&&◌, Option, none, some, List, [],
  ◌∷◌, ◌++◌, ◌==◌, ltb, leb, if◌then◌else◌, length, map, take, byte_at, le16, le32, le64, c_string,
}

abbrev pub exfat_max_name : ℕ
exfat_max_name = 256

-- `name` is the C string in the array.
pub record ExfatDirEntry : Type 0 where
  pub name : List ℕ
  pub attributes : ℕ
  pub first_cluster : ℕ
  pub size : ℕ

-- `attributes & EXFAT_ATTR_DIRECTORY`
abbrev pub is_directory : ExfatDirEntry → Bool
is_directory e = not (bit_and e.attributes 0x10 == 0)

-- The characters of the name record at `e` from the `k`-th on, `left` rounds; `name_pos` were read
-- before.
unfoldable pub name_units : List ℕ → ℕ → ℕ → ℕ → ℕ → ℕ → List ℕ
unfolding le16
name_units buf e name_len zero k name_pos = []
name_units buf e name_len (suc left) k name_pos =
    if ltb name_pos name_len && ltb name_pos (exfat_max_name - 1) && leb (2 + (k + 1) * 2) 32
    then le16 buf (e + 2 + k * 2) ∷ name_units buf e name_len left (k + 1) (name_pos + 1)
    else []

-- The loop over the secondary records from the `si`-th on, `left` of them.
unfoldable pub set_units : List ℕ → ℕ → ℕ → ℕ → ℕ → ℕ → ℕ → List ℕ
unfolding name_units
set_units buf bytes off name_len zero si name_pos = []
set_units buf bytes off name_len (suc left) si name_pos =
    let e = off + 32 * si in
    elim (ltb name_pos name_len && ltb name_pos exfat_max_name && leb (e + 32) bytes) [
      | false ↦ []
      | true ↦ elim (byte_at buf e == 0xC1) [
        | false ↦ set_units buf bytes off name_len left (si + 1) name_pos
        | true ↦
            let units = name_units buf e name_len 15 0 name_pos in
            units ++ set_units buf bytes off name_len left (si + 1) (name_pos + length units)
      ]
    ]

-- `c < 128 ? (char)c : '?'`
abbrev pub to_ascii : ℕ → ℕ
to_ascii c = if ltb c 128 then c else b'?'

-- `name_pos < EXFAT_MAX_NAME - 1 ? name_pos : EXFAT_MAX_NAME - 1` characters and the NUL.
unfoldable pub entry_name : List ℕ → List ℕ
unfolding c_string
entry_name units = c_string (map to_ascii (take (exfat_max_name - 1) units))

-- The guards of `parse_entry_set`.
unfoldable pub is_entry_set : List ℕ → ℕ → ℕ → Bool
is_entry_set buf bytes off =
    leb (off + 32) bytes
    && byte_at buf off == 0x85
    && not (ltb (byte_at buf (off + 1)) 1)
    && leb (off + (byte_at buf (off + 1) + 1) * 32) bytes
    && byte_at buf (off + 32) == 0xC0

-- `none` is -1.
unfoldable pub parse_entry_set : List ℕ → ℕ → ℕ → Option ExfatDirEntry
unfolding is_entry_set le16 le32 le64 set_units entry_name
parse_entry_set buf bytes off =
    if is_entry_set buf bytes off
    then some (record {
      name =
          entry_name
            (set_units buf bytes off (byte_at buf (off + 32 + 3)) (byte_at buf (off + 1) - 1) 2 0);
      attributes = bit_and (le16 buf (off + 4)) 0xFF;
      first_cluster = le32 buf (off + 32 + 20);
      size = le64 buf (off + 32 + 24);
    })
    else none
