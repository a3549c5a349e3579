-- ===== src/Fat32/Entry.antt =====
-- src/fs/fat32.c: directory records of 32 bytes, short names, and the long-name buffer.
use peanut_kernel.Common.{
  ℕ, zero, suc, ◌+◌, ◌-◌, ◌*◌, ◌^◌, bit_and, bit_or, Bool, not, ◌||◌, List, [], ◌∷◌, ◌++◌, ◌==◌,
  ltb, if◌then◌else◌, set, byte_at, le16, le32, c_string, copy_chars,
}

abbrev pub fat32_max_name : ℕ
fat32_max_name = 64

-- `name` is the C string in the array.
pub record Fat32DirEntry : Type 0 where
  pub name : List ℕ
  pub attributes : ℕ
  pub first_cluster : ℕ
  pub size : ℕ

-- `attributes & FAT32_ATTR_DIRECTORY`
abbrev pub is_directory : Fat32DirEntry → Bool
is_directory e = not (bit_and e.attributes 0x10 == 0)

-- `(raw[11] & FAT32_ATTR_LONG_NAME) == FAT32_ATTR_LONG_NAME`
abbrev pub is_long_name : List ℕ → Bool
is_long_name raw = bit_and (byte_at raw 11) 0x0F == 0x0F

-- `for (; i < i + left && raw[i] != ' '; i++)` of `make_short_name`: the characters copied.
unfoldable pub until_space : List ℕ → ℕ → ℕ → List ℕ
until_space raw i zero = []
until_space raw i (suc left) =
    if byte_at raw i == b' ' then [] else byte_at raw i ∷ until_space raw (i + 1) left

-- The dot and the extension, if there is one.
unfoldable pub extension : List ℕ → List ℕ
extension raw = if byte_at raw 8 == b' ' then [] else b'.' ∷ until_space raw 8 3

unfoldable pub make_short_name : List ℕ → List ℕ
unfolding until_space extension c_string
make_short_name raw = c_string (until_space raw 0 8 ++ extension raw)

-- The results 0, -1 and 1 of `parse_entry`.
pub data Parsed : Type 0 where
  end_of_directory skipped : Parsed
  entry : Fat32DirEntry → Parsed

unfoldable pub parse_entry : List ℕ → Parsed
unfolding make_short_name le16 le32
parse_entry raw =
    if byte_at raw 0 == 0
    then end_of_directory
    else if byte_at raw 0 == 0xE5 || is_long_name raw
    then skipped
    else entry (record {
      name = make_short_name raw;
      attributes = byte_at raw 11;
      first_cluster = bit_or (le16 raw 20 * 2 ^ 16) (le16 raw 26);
      size = le32 raw 28;
    })

-- `lfn[0] = '\0'`
unfoldable pub clear_lfn : List ℕ → List ℕ
clear_lfn lfn = set lfn 0 0

abbrev pub lfn_offsets : List ℕ
lfn_offsets = 1 ∷ 3 ∷ 5 ∷ 7 ∷ 9 ∷ 14 ∷ 16 ∷ 18 ∷ 20 ∷ 22 ∷ 24 ∷ 28 ∷ 30 ∷ []

-- The loop of `parse_lfn_entry` at `lfn[pos]`, over the offsets that are left.
unfoldable pub lfn_chars : List ℕ → List ℕ → ℕ → List ℕ → ℕ → List ℕ
unfolding le16
lfn_chars raw [] pos lfn lfn_size = lfn
lfn_chars raw (offset ∷ offsets) pos lfn lfn_size =
    let ch = le16 raw offset in
    let rest =
      lfn_chars raw offsets (pos + 1)
        (set (set lfn pos (if ltb ch 128 then ch else b'?')) (pos + 1) 0) lfn_size in
    if not (ltb (pos + 1) lfn_size)
    then lfn
    else (if ch == 0x0000 || ch == 0xFFFF then set lfn pos 0 else rest)

-- `if (raw[0] & 0x40) clear_lfn(lfn);`
unfoldable pub lfn_start : List ℕ → List ℕ → List ℕ
unfolding clear_lfn
lfn_start raw lfn = if bit_and (byte_at raw 0) 0x40 == 0 then lfn else clear_lfn lfn

unfoldable pub parse_lfn_entry : List ℕ → List ℕ → ℕ → List ℕ
parse_lfn_entry raw lfn lfn_size =
    let seq = bit_and (byte_at raw 0) 0x1F in
    if lfn_size == 0 || seq == 0
    then lfn
    else lfn_chars raw lfn_offsets ((seq - 1) * 13) (lfn_start raw lfn) lfn_size

-- `if (lfn[0]) { copy_name(parsed.name, lfn, …); clear_lfn(lfn); }`: the entry, and the buffer.
unfoldable pub with_long_name : List ℕ → Fat32DirEntry → Fat32DirEntry
unfolding copy_chars
with_long_name lfn e =
    if byte_at lfn 0 == 0 then e else record e { name = copy_chars lfn (fat32_max_name - 1) }

unfoldable pub lfn_after : List ℕ → List ℕ
unfolding clear_lfn
lfn_after lfn = if byte_at lfn 0 == 0 then lfn else clear_lfn lfn
