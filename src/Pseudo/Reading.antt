-- ===== src/Pseudo/Reading.antt =====
-- Reading a text of src/fs/vfs.c piece by piece, each read where the one before ended.
use peanut_kernel.Common.{
  ℕ, zero, suc, ◌+◌, ◌≤◌, ◌<◌, ◌≡◌, ap, sym, ◌∙◌, true, false, ◌&&◌, Option, none, some, List, [],
  ◌++◌, ◌==◌, arith, length, take, drop, byte_at, leb, copy, length-copy, get_or-copy_inside,
  get_or_ext, get_or-take, get_or-drop, append-take-drop, drop-drop, drop_past, length-take,
  length-drop, dec_le,
}
use peanut_kernel.Pseudo.{Hardware, Kernel}
use peanut_kernel.Pseudo.Devtmpfs.{take_count, copy_text, devtmpfs_is_path}
use peanut_kernel.Pseudo.Vfs.{pseudo_text, read_text, vfs_pseudo_pread}

-- A read inside the text copies the text's next bytes.
copy_text-take :
    (s : List ℕ) (off : ℕ) (buf : List ℕ) (n : ℕ)
    → n ≤ length buf
    → off + n ≤ length s
    → take n (copy buf 0 s off n) ≡ take n (drop off s)
copy_text-take s off buf n room inside =
    get_or_ext 0 (take n (copy buf 0 s off n)) (take n (drop off s))
      (omega (
        arith,
        length-take n (copy buf 0 s off n),
        length-copy buf 0 s off n,
        length-take n (drop off s),
        length-drop off s,
      ))
      (λ i p.
        let q : i < n = omega (arith, length-take n (copy buf 0 s off n)) in
        let e : i ≡ 0 + i = omega arith in
        get_or-take n (copy buf 0 s off n) i 0 q
        ∙ ap (byte_at (copy buf 0 s off n)) e
        ∙ get_or-copy_inside buf 0 s off n i (omega arith) q
        ∙ sym (get_or-drop off s i 0)
        ∙ sym (get_or-take n (drop off s) i 0 q))

take_count-le :
    (s : List ℕ) (off len : ℕ)
    → off < length s
    → 0 < len
    → (0 < take_count s off len)
      × (take_count s off len ≤ len)
      × (off + take_count s off len ≤ length s)
unfolding take_count
take_count-le s off len inside pos = (ground arith, ground arith, ground arith)

copy_text_inside :
    (s : List ℕ) (off : ℕ) (buf : List ℕ) (len : ℕ)
    → off < length s
    → copy_text s off buf len ≡ (copy buf 0 s off (take_count s off len), take_count s off len)
unfolding copy_text
copy_text_inside s off buf len inside =
    let more : leb (length s) off ≡ false = ground arith in rw (more, copy_text)

module _ {H : Type 0} (hw : Hardware H) (path : List ℕ) (buf : List ℕ) (len : ℕ)
    (k : Kernel H) where
  -- A program that reads until it is given nothing: `none` if a read fails or `fuel` reads do not
  -- come to the end.
  unfoldable pub read_all : ℕ → ℕ → Option (List ℕ)
  unfolding vfs_pseudo_pread
  read_all zero off = none
  read_all (suc fuel) off = elim (vfs_pseudo_pread hw path off buf len k).0 [
    | none ↦ none
    | some r ↦ elim (r.1 == 0) [
      | true ↦ some []
      | false ↦ elim (read_all fuel (off + r.1)) [
        | none ↦ none
        | some rest ↦ some (take r.1 r.0 ++ rest)
      ]
    ]
  ]

  module _ (s : List ℕ) (other : (k.dev_mounted && devtmpfs_is_path k path) ≡ false)
      (there : pseudo_text k path ≡ some s) (pos : 0 < len) (room : len ≤ length buf) where
    reads : (off : ℕ) → vfs_pseudo_pread hw path off buf len k ≡ (some (copy_text s off buf len), k)
    unfolding vfs_pseudo_pread read_text
    reads off = rw (other, there, vfs_pseudo_pread)

    reads_inside :
        (off : ℕ)
        → off < length s
        → vfs_pseudo_pread hw path off buf len k
          ≡ (some (copy buf 0 s off (take_count s off len), take_count s off len), k)
    reads_inside off inside =
        reads off ∙ ap (λ r. (some r, k)) (copy_text_inside s off buf len inside)

    reads_past : (fuel off : ℕ) → length s ≤ off → read_all (suc fuel) off ≡ some (drop off s)
    unfolding read_all copy_text
    reads_past fuel off past =
        let e : leb (length s) off ≡ true = ground arith in
        rw (reads off, e, read_all, copy_text) (ap some (sym (drop_past off s past)))

    -- The bytes of one read and the rest of the text are the text from `off` on.
    piece :
        (off : ℕ)
        → off < length s
        → take (take_count s off len) (copy buf 0 s off (take_count s off len))
            ++ drop (off + take_count s off len) s
          ≡ drop off s
    piece off inside =
        let n = take_count s off len in
        let c = take_count-le s off len inside pos in
        ap (λ bs. bs ++ drop (off + n) s) (copy_text-take s off buf n (omega arith) c.2)
        ∙ ap (λ bs. take n (drop off s) ++ bs) (sym (drop-drop off n s))
        ∙ append-take-drop n (drop off s)

    reads_from :
        (fuel off : ℕ)
        → off ≤ length s
        → length s < off + fuel
        → read_all fuel off ≡ some (drop off s)
    unfolding read_all
    reads_from zero off start enough = absurd (omega arith)
    reads_from (suc fuel) off start enough = elim (dec_le (length s) off) [
      | yes past ↦ reads_past fuel off past
      | no inside ↦
          let c = take_count-le s off len (omega arith) pos in
          let some_bytes : (take_count s off len == 0) ≡ false = ground arith in
          let rest = reads_from fuel (off + take_count s off len) c.2 (omega arith) in
          rw (reads_inside off (omega arith), some_bytes, rest, read_all)
            (ap some (piece off (omega arith)))
    ]

    -- A text of `vfs_pseudo_pread`, read by `len` bytes at a time with each read where the one before
    -- ended, is read in full: with fuel for one read more than the text has bytes the reads come to
    -- an end, and what they gave is the text.
    pub vfs_pseudo_pread-reads_all : (fuel : ℕ) → length s < fuel → read_all fuel 0 ≡ some s
    vfs_pseudo_pread-reads_all fuel enough = reads_from fuel 0 (omega arith) (omega arith)
