-- ===== src/Initramfs.antt =====
-- src/fs/initramfs.c: the search of the embedded cpio archive. `archive` holds the bytes from
-- `_initramfs_start` to `_initramfs_end`; a file is given as its offset there and its size.
-- Sizes in a header may wrap around in 32 bits, and the loop may then go back and never end: it runs on
-- fuel, and the outer `none` is a loop that is still running.
pub mod Files
mod Examples
use peanut_kernel.Common.{
  ℕ, zero, suc, ◌+◌, ◌-◌, ◌*◌, ◌^◌, bit_and, bit_or, Bool, true, false, not, ◌||◌, ◌&&◌, Option,
  none, some, List, [], ◌∷◌, ◌==◌, ltb, leb, if◌then◌else◌, length, byte_at, u32, upper_ascii,
  skip_slash, has_chars,
}

abbrev pub header_bytes : ℕ
header_bytes = 110

unfoldable pub cpio_is_newc : List ℕ → ℕ → ℕ → Bool
unfolding has_chars
cpio_is_newc p pos remain =
    not (ltb remain 6) && has_chars p pos (b'0' ∷ b'7' ∷ b'0' ∷ b'7' ∷ b'0' ∷ b'1' ∷ [])

-- The value of a digit.
unfoldable pub hex_digit : ℕ → Option ℕ
hex_digit c =
    if leb b'0' c && leb c b'9'
    then some (c - b'0')
    else if leb b'a' c && leb c b'f'
    then some (c - b'a' + 10)
    else if leb b'A' c && leb c b'F'
    then some (c - b'A' + 10)
    else none

unfoldable pub hex_loop : List ℕ → ℕ → ℕ → ℕ → ℕ
unfolding hex_digit
hex_loop p pos zero v = v
hex_loop p pos (suc left) v = elim (hex_digit (byte_at p pos)) [
  | none ↦ 0
  | some d ↦ hex_loop p (pos + 1) left (bit_or (u32 (v * 2 ^ 4)) d)
]

unfoldable pub cpio_hex : List ℕ → ℕ → ℕ → ℕ
unfolding hex_loop
cpio_hex p pos n = hex_loop p pos n 0

unfoldable pub same_chars : List ℕ → List ℕ → ℕ → Bool
unfolding upper_ascii
same_chars [] p pos = true
same_chars (c ∷ cs) p pos =
    upper_ascii c == upper_ascii (byte_at p pos) && same_chars cs p (pos + 1)

unfoldable pub name_matches_exec_path : List ℕ → List ℕ → ℕ → ℕ → Bool
unfolding same_chars
name_matches_exec_path want p pos namesz =
    not (ltb namesz 2)
    && byte_at p (pos + namesz - 1) == 0
    && length (skip_slash want) == namesz - 1
    && same_chars (skip_slash want) p pos

unfoldable pub is_trailer : List ℕ → ℕ → ℕ → Bool
unfolding has_chars
is_trailer p pos namesz =
    namesz == 11
    && has_chars p pos
        (b'T' ∷ b'R' ∷ b'A' ∷ b'I' ∷ b'L' ∷ b'E' ∷ b'R' ∷ b'!' ∷ b'!' ∷ b'!' ∷ 0 ∷ [])

-- `(n + 3) & ~3u`
unfoldable pub padded : ℕ → ℕ
padded n = bit_and (u32 (n + 3)) 0xFFFFFFFC

unfoldable pub name_size : List ℕ → ℕ → ℕ
unfolding cpio_hex
name_size archive off = cpio_hex archive (off + 54) 8

unfoldable pub file_size : List ℕ → ℕ → ℕ
unfolding cpio_hex
file_size archive off = cpio_hex archive (off + 54 + 8) 8

-- `h + head + namepad`
unfoldable pub data_start : ℕ → ℕ → ℕ
unfolding padded
data_start off namesz = off + header_bytes + padded namesz

-- `off + head + namepad + filepad`
unfoldable pub next_header : List ℕ → ℕ → ℕ
unfolding padded name_size file_size
next_header archive off =
    u32 (off + header_bytes + padded (name_size archive off) + padded (file_size archive off))

-- The condition of the loop and the first three guards in it.
unfoldable pub has_entry : List ℕ → ℕ → Bool
unfolding cpio_is_newc name_size file_size next_header
has_entry archive off =
    leb (u32 (off + header_bytes)) (u32 (length archive))
    && cpio_is_newc archive off (u32 (length archive) - off)
    && not (name_size archive off == 0 && file_size archive off == 0)
    && leb (next_header archive off) (u32 (length archive))

unfoldable pub find_loop : List ℕ → List ℕ → ℕ → ℕ → Option (Option (ℕ × ℕ))
unfolding has_entry name_size file_size is_trailer name_matches_exec_path data_start next_header
find_loop path archive zero off = none
find_loop path archive (suc fuel) off =
    elim (has_entry archive off
      && not (is_trailer archive (off + header_bytes) (name_size archive off))) [
        | false ↦ some none
        | true ↦
            elim (name_matches_exec_path path archive (off + header_bytes)
              (name_size archive off)) [
                | true ↦ some (some (data_start off (name_size archive off), file_size archive off))
                | false ↦ find_loop path archive fuel (next_header archive off)
              ]
      ]

-- The inner `none` is -1.
unfoldable pub initramfs_find : ℕ → List ℕ → List ℕ → Option (Option (ℕ × ℕ))
unfolding find_loop
initramfs_find fuel archive path = elim (length archive == 0) [
  | true ↦ some none
  | false ↦ find_loop path archive fuel 0
]
