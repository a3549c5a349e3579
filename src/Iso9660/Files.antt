-- ===== src/Iso9660/Files.antt =====
-- src/fs/iso9660.c: reading a file, and the loop over a directory.
use peanut_kernel.Common.{
  ℕ, zero, suc, ◌+◌, ◌-◌, ◌*◌, ◌/◌, ◌%◌, ◌^◌, ◌≤◌, ◌<◌, ◌≡◌, ◌⊎◌, refl, ap, ap₂, sym, ◌∙◌, true,
  false, ◌&&◌, Option, some, List, ltb, leb, if◌then◌else◌, length, get_or, byte_at, u32, copy,
  length-copy, get_or-copy_inside, get_or-copy_outside, Bool-cases, inl, inr, arith,
}
use peanut_kernel.Iso9660.{Iso, Extent, iso_find_in_dir, read_extent, iso9660_read}

-- What two pieces that lie one behind the other hold.
joined :
    (a b size i x y : ℕ)
    → a + 2048 ≡ b
    → b ≤ size
    → (if leb b i && ltb i size then x else if leb a i && ltb i (a + 2048) then x else y)
      ≡ (if leb a i && ltb i size then x else y)
joined a b size i x y next fits = ground arith

whole_sector : (a size : ℕ) → ltb a size ≡ true → ltb (size - a) 2048 ≡ false → a + 2048 ≤ size
whole_sector a size more full = ground arith

module _ (cdrom : ℕ → Option (List ℕ)) (lba size : ℕ) (disc : ℕ → List ℕ)
    (readable : (i : ℕ) → i * 2048 < size → cdrom (u32 (lba + i)) ≡ some (disc i)) where
  -- The file's byte at `i`.
  abbrev pub file_byte : ℕ → ℕ
  file_byte i = byte_at (disc (i / 2048)) (i % 2048)

  -- A buffer that the bytes from `from` on have been read into.
  record IsCopied (from : ℕ) (before after : List ℕ) : Type 0 where
    bytes :
        (i : ℕ)
        → get_or after i 0 ≡ (if leb from i && ltb i size then file_byte i else get_or before i 0)

  -- One sector, of which `count` bytes are copied.
  copied_lem :
      (k count : ℕ) (buffer : List ℕ) (i : ℕ)
      → count ≤ 2048
      → k * 2048 + count ≤ length buffer
      → get_or (copy buffer (k * 2048) (disc k) 0 count) i 0
        ≡ (if leb (k * 2048) i && ltb i (k * 2048 + count) then file_byte i else get_or buffer i 0)
  copied_lem k count buffer i small fits =
      elim (Bool-cases (leb (k * 2048) i && ltb i (k * 2048 + count))) [
        | inr out ↦ rw out (get_or-copy_outside buffer (k * 2048) (disc k) 0 count i (outside out))
        | inl within ↦
            let here : k * 2048 + i % 2048 ≡ i = ground arith in
            let sector : i / 2048 ≡ k = ground arith in
            rw within (
              ap (λ j. get_or (copy buffer (k * 2048) (disc k) 0 count) j 0) (sym here)
              ∙ get_or-copy_inside buffer (k * 2048) (disc k) 0 count (i % 2048) fits (ground arith)
              ∙ ap₂ (λ n j. byte_at (disc n) j) (sym sector) (omega arith))
      ]
    where
      outside :
          (leb (k * 2048) i && ltb i (k * 2048 + count)) ≡ false
          → (i < k * 2048) ⊎ (k * 2048 + count ≤ i)
      outside out = elim (Bool-cases (leb (k * 2048) i)) [
        | inl above ↦ inr (ground arith)
        | inr below ↦ inl (ground arith)
      ]

  -- The loop where everything is copied.
  read_extent-done :
      (left : ℕ) (buffer : List ℕ) → read_extent cdrom left lba size size buffer ≡ some buffer
  unfolding read_extent
  read_extent-done zero buffer = refl
  read_extent-done (suc left) buffer =
      let stop : ltb size size ≡ false = ground arith in rw (stop, read_extent)

  abbrev Result : ℕ → ℕ → List ℕ → Type 0
  Result left k buffer =
      (after : List ℕ) × (read_extent cdrom left lba size (k * 2048) buffer ≡ some after)
      × IsCopied (k * 2048) buffer after

  one_sector :
      (left k : ℕ) (buffer : List ℕ)
      → k * 2048 < size
      → read_extent cdrom (suc left) lba size (k * 2048) buffer
        ≡ read_extent cdrom left lba size
            (k * 2048 + (if ltb (size - k * 2048) 2048 then size - k * 2048 else 2048))
            (copy buffer
              (k * 2048)
              (disc k)
              0
              (if ltb (size - k * 2048) 2048 then size - k * 2048 else 2048))
  unfolding read_extent
  one_sector left k buffer more =
      let go : ltb (k * 2048) size ≡ true = ground arith in
      let at : k * 2048 / 2048 ≡ k = omega arith in rw (go, at, readable k more, read_extent)

  go_on :
      (left k count next : ℕ) (buffer : List ℕ)
      → k * 2048 < size
      → (if ltb (size - k * 2048) 2048 then size - k * 2048 else 2048) ≡ count
      → k * 2048 + count ≡ next
      → read_extent cdrom (suc left) lba size (k * 2048) buffer
        ≡ read_extent cdrom left lba size next (copy buffer (k * 2048) (disc k) 0 count)
  go_on left k count next buffer more e at =
      one_sector left k buffer more
      ∙ ap
          (λ c.
            read_extent cdrom left lba size (k * 2048 + c) (copy buffer (k * 2048) (disc k) 0 c))
          e
      ∙ ap (λ n. read_extent cdrom left lba size n (copy buffer (k * 2048) (disc k) 0 count)) at

  read_extent-IsCopied :
      (left k : ℕ) (buffer : List ℕ)
      → size ≤ (k + left) * 2048
      → size ≤ length buffer
      → Result left k buffer
  unfolding read_extent
  read_extent-IsCopied zero k buffer enough fits =
      (buffer, refl, record { bytes = λ i. ground arith })
  read_extent-IsCopied (suc left) k buffer enough fits = elim (Bool-cases (ltb (k * 2048) size)) [
    | inr stop ↦ (buffer, rw (stop, read_extent), record { bytes = λ i. ground arith })
    | inl go ↦ elim (Bool-cases (ltb (size - k * 2048) 2048)) [
      | inl last ↦
          let count = size - k * 2048 in
          let whole : k * 2048 + (size - k * 2048) ≡ size = ground arith in
          (
            copy buffer (k * 2048) (disc k) 0 (size - k * 2048),
            go_on left k (size - k * 2048) size buffer (ground arith) (rw last refl) whole
                ∙ read_extent-done left (copy buffer (k * 2048) (disc k) 0 (size - k * 2048)),
            record {
              bytes = λ i.
                  ground
                    (arith, copied_lem k (size - k * 2048) buffer i (ground arith) (ground arith));
            },
          )
      | inr full ↦
          let room : k * 2048 + 2048 ≤ size = whole_sector (k * 2048) size go full in
          let next = copy buffer (k * 2048) (disc k) 0 2048 in
          let r =
            read_extent-IsCopied left (suc k) next (omega arith)
              (omega (arith, length-copy buffer (k * 2048) (disc k) 0 2048)) in
          (
            r.0,
            go_on left k 2048 (suc k * 2048) buffer (omega arith) (rw full refl) (omega arith)
                ∙ r.1,
            record {
              bytes = λ i.
                  r.2.bytes i
                  ∙ ap (λ x. if leb (suc k * 2048) i && ltb i size then file_byte i else x)
                      (copied_lem k 2048 buffer i (omega arith) (omega arith))
                  ∙ joined (k * 2048) (suc k * 2048) size i (file_byte i) (get_or buffer i 0)
                      (omega arith) (omega arith);
            },
          )
    ]
  ]

module _ (cdrom : ℕ → Option (List ℕ)) (depth fuel : ℕ) (s : Iso) (path : List ℕ) (e : Extent)
    (disc : ℕ → List ℕ) (mounted : s.has_pvd ≡ true)
    (found : iso_find_in_dir cdrom depth fuel s.root_lba s.root_size path ≡ some (some e))
    (file : e.is_dir ≡ false)
    (readable : (i : ℕ) → i * 2048 < e.size → cdrom (u32 (e.lba + i)) ≡ some (disc i)) where
  -- What a file leaves in a buffer: its bytes, and behind them what was there.
  pub record IsRead (buffer : List ℕ) (result : Option (Option (List ℕ × ℕ))) : Type 0 where
    pub after : List ℕ
    pub returned : result ≡ some (some (after, e.size))
    pub bytes :
        (i : ℕ)
        → get_or after i 0
          ≡ (if ltb i e.size then byte_at (disc (i / 2048)) (i % 2048) else get_or buffer i 0)

  -- Reading a path that leads to a file below 2 ^ 31 bytes whose sectors can all be read, into a buffer that is long
  -- enough, returns the file's size and leaves its bytes at the start of the buffer, in the order of the
  -- sectors, and the rest of the buffer as it was.
  pub iso9660_read-IsRead :
      (buffer : List ℕ) (len : ℕ)
      → e.size < 2 ^ 31
      → e.size ≤ len
      → e.size ≤ length buffer
      → IsRead buffer (iso9660_read cdrom depth fuel s path buffer len)
  unfolding iso9660_read
  iso9660_read-IsRead buffer len small room fits =
      let r =
        read_extent-IsCopied cdrom e.lba e.size disc readable ((e.size + 2047) / 2048) 0 buffer
          (omega arith) fits in
      let positive : ltb e.size (2 ^ 31) ≡ true = ground arith in
      let enough : ltb len e.size ≡ false = ground arith in
      let start : read_extent cdrom ((e.size + 2047) / 2048) e.lba e.size 0 buffer ≡ some r.0 =
        r.1 in
      record {
        after = r.0;
        returned = rw (mounted, found, file, enough, start, positive, iso9660_read);
        bytes = λ i.
            r.2.bytes i ∙ from_start i (byte_at (disc (i / 2048)) (i % 2048)) (get_or buffer i 0);
      }
    where
      from_start :
          (i x y : ℕ)
          → (if leb (0 * 2048) i && ltb i e.size then x else y) ≡ (if ltb i e.size then x else y)
      from_start i x y = ground arith
