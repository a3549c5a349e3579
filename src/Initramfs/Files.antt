-- ===== src/Initramfs/Files.antt =====
-- What src/fs/initramfs.c finds in an archive, and where the cpio format has it.
use peanut_kernel.Common.{
  all_below, all_below-at, leb-le, ltb-lt, ℕ, zero, suc, ◌+◌, ◌*◌, ◌/◌, ◌%◌, ◌^◌, ◌≤◌, ◌<◌, ◌≡◌,
  ◌≢◌, refl, sym, subst, ltb, Bool, true, not, ◌&&◌, ◌||◌, none, some, List, ◌==◌, leb, arith,
  length, u32, bit_and-round, Bool-cases, inl, inr, some_eq, none-ne-some,
}
use peanut_kernel.Initramfs.{
  header_bytes, padded, name_size, file_size, data_start, next_header, has_entry, is_trailer,
  name_matches_exec_path, find_loop, initramfs_find,
}

padded_lem : (n : ℕ) → n + 3 < 2 ^ 32 → padded n ≡ (n + 3) / 4 * 4
unfolding padded
padded_lem n h = omega (arith, bit_and-round (u32 (n + 3)) (omega arith))

-- In the "newc" format the name is followed by NULs up to a multiple of 4 from the start.
abbrev pub newc_data_start : ℕ → ℕ → ℕ
newc_data_start off namesz = (off + header_bytes + namesz + 3) / 4 * 4

-- For a header that stands at a multiple of 4, as they all do in a "newc" archive, the file's bytes are
-- never looked for where the format has them.
data_start-ne-newc_data_start :
    (off namesz : ℕ)
    → off % 4 ≡ 0
    → namesz + 3 < 2 ^ 32
    → data_start off namesz ≢ newc_data_start off namesz
unfolding data_start
data_start-ne-newc_data_start off namesz aligned small e = omega (arith, padded_lem namesz small)

-- An entry's sizes are not near 2 ^ 32.
abbrev pub sizes_small : List ℕ → ℕ → Bool
sizes_small archive off =
    not (has_entry archive off) || ltb (name_size archive off + file_size archive off) (2 ^ 30)

implied : (a b : Bool) → a ≡ true → (not a || b) ≡ true → b ≡ true
implied a b e h = ground arith

first_of_two : (a b : Bool) → (a && b) ≡ true → a ≡ true
first_of_two a b h = ground arith

first_last : (a b c d : Bool) → (a && b && c && d) ≡ true → (a ≡ true) × (d ≡ true)
first_last a b c d h = (ground arith, ground arith)

-- The outer guards of an entry: its header lies inside, and so does the next one's start.
has_entry-guards :
    (archive : List ℕ) (off : ℕ)
    → has_entry archive off ≡ true
    → (u32 (off + header_bytes) ≤ u32 (length archive))
      × (next_header archive off ≤ u32 (length archive))
unfolding has_entry
has_entry-guards archive off e =
    let g =
      first_last (leb (u32 (off + header_bytes)) (u32 (length archive))) _ _
        (leb (next_header archive off) (u32 (length archive))) e in
    (leb-le _ _ g.0, leb-le _ _ g.1)

module _ (path archive : List ℕ) where
  -- A file in the archive whose header stands at `off`.
  pub record IsFile (found : ℕ × ℕ) (off : ℕ) : Type 0 where
    pub named :
        name_matches_exec_path path archive (off + header_bytes) (name_size archive off) ≡ true
    pub place : found.0 ≡ data_start off (name_size archive off)
    pub size : found.1 ≡ file_size archive off
    pub inside : found.0 + found.1 ≤ length archive

  abbrev goes_on : ℕ → Bool
  goes_on off =
      has_entry archive off && not (is_trailer archive (off + header_bytes) (name_size archive off))

  abbrev matches : ℕ → Bool
  matches off = name_matches_exec_path path archive (off + header_bytes) (name_size archive off)

  entry_there : (off : ℕ) → goes_on off ≡ true → has_entry archive off ≡ true
  entry_there off go = first_of_two (has_entry archive off) _ go

  module _ (short : length archive < 2 ^ 31)
      (sizes : all_below (length archive) (sizes_small archive) ≡ true) where
    -- At an entry nothing wraps around.
    entry_lem :
        (off : ℕ)
        → off ≤ length archive
        → has_entry archive off ≡ true
        → (next_header archive off
            ≡ off + header_bytes + padded (name_size archive off) + padded (file_size archive off))
          × (next_header archive off ≤ length archive)
          × (file_size archive off ≤ padded (file_size archive off))
    unfolding next_header
    entry_lem off h e =
        let g = has_entry-guards archive off e in
        let room = g.0 in
        let next_room = g.1 in
        let s = ltb-lt (name_size archive off + file_size archive off) (2 ^ 30) (
          implied (has_entry archive off) _ e
            (all_below-at (length archive) (sizes_small archive) sizes off (omega arith))) in
        let n = padded_lem (name_size archive off) (omega arith) in
        let f = padded_lem (file_size archive off) (omega arith) in
        (omega arith, omega arith, omega arith)

    -- An entry that the loop goes through is before the next one, and its file is inside.
    passes :
        (off : ℕ)
        → off ≤ length archive
        → has_entry archive off ≡ true
        → (off + header_bytes ≤ next_header archive off)
          × (next_header archive off ≤ length archive)
          × (data_start off (name_size archive off) + file_size archive off ≤ length archive)
    unfolding data_start
    passes off h e = let (a, b, c) = entry_lem off h e in (omega arith, omega arith, omega arith)

    find_loop-IsFile :
        (fuel off : ℕ) (found : ℕ × ℕ)
        → off ≤ length archive
        → find_loop path archive fuel off ≡ some (some found)
        → (o : ℕ) × IsFile found o
    unfolding find_loop
    find_loop-IsFile zero off found h e = absurd (none-ne-some e)
    find_loop-IsFile (suc fuel) off found h e = elim (Bool-cases (goes_on off)) [
      | inr stop ↦ absurd (none-ne-some (some_eq (rw (stop, find_loop) at e)))
      | inl go ↦ elim (Bool-cases (matches off)) [
        | inl m ↦
            let p = passes off h (entry_there off go) in
            (
              off,
              subst (λ f. IsFile f off) (some_eq (some_eq (rw (go, m, find_loop) at e)))
                  (record { named = m; place = refl; size = refl; inside = p.2 }),
            )
        | inr m ↦
            let p = passes off h (entry_there off go) in
            find_loop-IsFile fuel (next_header archive off) found p.1 (rw (go, m, find_loop) at e)
      ]
    ]

    find_loop_returns :
        (fuel off : ℕ)
        → off ≤ length archive
        → length archive < off + header_bytes * fuel
        → find_loop path archive fuel off ≢ none
    unfolding find_loop
    find_loop_returns zero off h enough = absurd (omega arith)
    find_loop_returns (suc fuel) off h enough = elim (Bool-cases (goes_on off)) [
      | inr stop ↦ rw (stop, find_loop) (λ e. none-ne-some (sym e))
      | inl go ↦ elim (Bool-cases (matches off)) [
        | inl m ↦ rw (go, m, find_loop) (λ e. none-ne-some (sym e))
        | inr m ↦
            let p = passes off h (entry_there off go) in
            let forward = p.0 in
            rw (go, m, find_loop)
              (find_loop_returns fuel (next_header archive off) p.1 (omega arith))
      ]
    ]

    -- In an archive below 2 ^ 31 bytes in which no entry has sizes of 2 ^ 30 or more together, with fuel for a
    -- header every 110 bytes and one more, `initramfs_find` returns; and a file that it finds has the
    -- wanted name, and its bytes lie inside the archive.
    pub initramfs_find-IsFile :
        (fuel : ℕ)
        → length archive < header_bytes * fuel
        → (initramfs_find fuel archive path ≢ none)
          × ((found : ℕ × ℕ)
              → initramfs_find fuel archive path ≡ some (some found)
              → (off : ℕ) × IsFile found off)
    unfolding initramfs_find
    initramfs_find-IsFile fuel enough = elim (Bool-cases (length archive == 0)) [
      | inl e ↦
          rw (e, initramfs_find)
            (λ q. none-ne-some (sym q), λ found q. absurd (none-ne-some (some_eq q)))
      | inr e ↦
          rw (e, initramfs_find)
            (
              find_loop_returns fuel 0 (omega arith) (omega arith),
              λ found q. find_loop-IsFile fuel 0 found (omega arith) q,
            )
    ]
