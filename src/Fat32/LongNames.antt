-- ===== src/Fat32/LongNames.antt =====
-- `parse_lfn_entry` of src/fs/fat32.c: how much of a long name a record leaves readable.
use peanut_kernel.Common.{
  ℕ, zero, suc, ◌+◌, ◌≤◌, ◌<◌, ◌≡◌, List, [], ◌∷◌, ltb, arith, if◌then◌else◌, length, set, byte_at,
  le16, bit_and, c_string, get_or-set_self, dec_lt, get_or_past, length-set,
}
use peanut_kernel.Fat32.Entry.{lfn_chars, parse_lfn_entry, lfn_start, fat32_max_name}

-- A NUL at `p` ends the string there at the latest.
pub c_string-le : (cs : List ℕ) (p : ℕ) → byte_at cs p ≡ 0 → length (c_string cs) ≤ p
unfolding c_string
c_string-le [] p e = omega arith
c_string-le (c ∷ cs) zero e = rw e (omega arith)
c_string-le (c ∷ cs) (suc p) e = ground (arith, c_string-le cs p e)

byte_at-set_zero : (cs : List ℕ) (p : ℕ) → byte_at (set cs p 0) p ≡ 0
byte_at-set_zero cs p = elim (dec_lt p (length cs)) [
  | yes h ↦ get_or-set_self cs p 0 0 h
  | no h ↦ get_or_past (set cs p 0) p 0 (omega (arith, length-set cs p 0))
]

module _ (raw : List ℕ) (lfn_size : ℕ) where
  lfn_chars-le :
      (offsets : List ℕ) (pos : ℕ) (lfn : List ℕ)
      → byte_at lfn pos ≡ 0
      → length (c_string (lfn_chars raw offsets pos lfn lfn_size)) ≤ pos + length offsets
  unfolding lfn_chars
  lfn_chars-le [] pos lfn e = omega (arith, c_string-le lfn pos e)
  lfn_chars-le (o ∷ offsets) pos lfn e = ground (
    arith,
    c_string-le lfn pos e,
    c_string-le (set lfn pos 0) pos (byte_at-set_zero lfn pos),
    lfn_chars-le offsets (pos + 1)
        (set (set lfn pos (if ltb (le16 raw o) 128 then le16 raw o else b'?')) (pos + 1) 0)
        (byte_at-set_zero _ (pos + 1)),
  )

  -- Where there is room for the first character, nothing is needed of what the buffer held.
  lfn_chars_first-le :
      (o : ℕ) (offsets : List ℕ) (pos : ℕ) (lfn : List ℕ)
      → pos + 1 < lfn_size
      → length (c_string (lfn_chars raw (o ∷ offsets) pos lfn lfn_size))
        ≤ pos + suc (length offsets)
  unfolding lfn_chars
  lfn_chars_first-le o offsets pos lfn h = ground (
    arith,
    c_string-le (set lfn pos 0) pos (byte_at-set_zero lfn pos),
    lfn_chars-le offsets (pos + 1)
        (set (set lfn pos (if ltb (le16 raw o) 128 then le16 raw o else b'?')) (pos + 1) 0)
        (byte_at-set_zero _ (pos + 1)),
  )

-- A record with sequence number 1 leaves at most 13 characters to be read in the buffer, whatever the
-- records before it put there.
parse_lfn_entry-le :
    (raw lfn : List ℕ)
    → bit_and (byte_at raw 0) 0x1F ≡ 1
    → length (c_string (parse_lfn_entry raw lfn fat32_max_name)) ≤ 13
unfolding parse_lfn_entry
parse_lfn_entry-le raw lfn e =
    rw (e, parse_lfn_entry)
      (lfn_chars_first-le raw fat32_max_name 1
        (3 ∷ 5 ∷ 7 ∷ 9 ∷ 14 ∷ 16 ∷ 18 ∷ 20 ∷ 22 ∷ 24 ∷ 28 ∷ 30 ∷ []) 0 (lfn_start raw lfn)
        (omega arith))
