-- ===== src/Iso9660/Directories.antt =====
-- src/fs/iso9660.c: the loop over a directory ends.
use peanut_kernel.Common.{
  ℕ, zero, suc, ◌+◌, ◌-◌, ◌*◌, ◌/◌, ◌%◌, ◌^◌, ◌≤◌, ◌<◌, ◌≡◌, ◌≢◌, refl, sym, Bool, true, false, not,
  ◌&&◌, ◌||◌, Option, none, some, List, ◌==◌, ltb, if◌then◌else◌, byte_at, drop, u32, Bool-cases,
  Option-cases, inl, inr, arith, none-ne-some,
}
use peanut_kernel.Iso9660.{
  Extent, extent_of, is_named, iso_component_equal, Scan, moves, fails, finds, scan_sector,
  scan_dir,
}

-- Where the loop goes on, if it does.
abbrev Beyond : ℕ → Scan → Type 0
Beyond m fails = Unit
Beyond m (finds e) = Unit
Beyond m (moves n) = m ≤ n

Beyond-weaker : (m n : ℕ) (s : Scan) → m ≤ n → Beyond n s → Beyond m s
Beyond-weaker m n fails h b = b
Beyond-weaker m n (finds e) h b = b
Beyond-weaker m n (moves k) h b = omega arith

-- The tests of a round.
tests-Beyond :
    (m : ℕ) (stop zero_len bad hit : Bool) (pos jump : ℕ) (e : Extent) (rest : Scan)
    → stop ≡ false
    → m ≤ jump
    → (zero_len ≡ false → bad ≡ false → Beyond m rest)
    → Beyond m (
        if stop
        then moves pos
        else if zero_len
        then moves jump
        else if bad
        then fails
        else if hit
        then finds e
        else rest)
tests-Beyond m true z b f pos jump e rest h g r = absurd (ground arith)
tests-Beyond m false true b f pos jump e rest h g r = g
tests-Beyond m false false true f pos jump e rest h g r = tt
tests-Beyond m false false false true pos jump e rest h g r = tt
tests-Beyond m false false false false pos jump e rest h g r = r refl refl

-- A round that is not the end of the loop moves on where no position wraps around.
round-Beyond :
    (left : ℕ) (component sector : List ℕ) (dir_size off pos : ℕ)
    → dir_size ≤ 2 ^ 32 - 2048
    → off < 2048
    → pos < dir_size
    → Beyond (u32 (pos + byte_at sector off)) (
        scan_sector left component sector dir_size
          (off + byte_at sector off)
          (u32 (pos + byte_at sector off)))
    → Beyond (suc pos) (scan_sector (suc left) component sector dir_size off pos)
unfolding scan_sector
round-Beyond left component sector dir_size off pos small inside more rest =
    let on : not (ltb off 2048 && ltb pos dir_size) ≡ false = ground arith in
    tests-Beyond (suc pos) (not (ltb off 2048 && ltb pos dir_size)) (byte_at sector off == 0)
      (ltb 2048 (off + byte_at sector off) || ltb (byte_at sector off) 34)
      (is_named (drop off sector)
        && iso_component_equal component (drop 33 (drop off sector)) (byte_at (drop off sector) 32))
      pos (u32 ((pos / 2048 + 1) * 2048)) (extent_of (drop off sector))
      (scan_sector left component sector dir_size (off + byte_at sector off)
        (u32 (pos + byte_at sector off)))
      on (omega arith)
      (λ some_len good.
        Beyond-weaker (suc pos) (u32 (pos + byte_at sector off)) _
          (onward (byte_at sector off) good) rest)
  where
    onward : (len : ℕ) → (ltb 2048 (off + len) || ltb len 34) ≡ false → suc pos ≤ u32 (pos + len)
    onward len good = ground arith

scan_sector-Beyond :
    (left : ℕ) (component sector : List ℕ) (dir_size off pos : ℕ)
    → dir_size ≤ 2 ^ 32 - 2048
    → Beyond pos (scan_sector left component sector dir_size off pos)
unfolding scan_sector
scan_sector-Beyond zero component sector dir_size off pos small = omega arith
scan_sector-Beyond (suc left) component sector dir_size off pos small =
    elim (Bool-cases (ltb off 2048 && ltb pos dir_size)) [
      | inr stop ↦ stopped stop _
      | inl go ↦ Beyond-weaker pos (suc pos) _ (omega arith) (
          round-Beyond left component sector dir_size off pos small (ground arith) (ground arith) (
            scan_sector-Beyond left component sector dir_size (off + byte_at sector off)
              (u32 (pos + byte_at sector off)) small))
    ]
  where
    stopped :
        (ltb off 2048 && ltb pos dir_size) ≡ false
        → (rest : Scan)
        → Beyond pos (if not (ltb off 2048 && ltb pos dir_size) then moves pos else rest)
    stopped stop rest = rw stop (omega arith)

-- What a round over a sector comes to.
continued :
    (m : ℕ) (go : ℕ → Option (Option Extent)) (s : Scan)
    → Beyond m s
    → ((next : ℕ) → m ≤ next → go next ≢ none)
    → (elim s as (λ x. Option (Option Extent)) [
      | fails ↦ some none
      | finds e ↦ some (some e)
      | moves next ↦ go next
    ])
      ≢ none
continued m go fails b h e = none-ne-some (sym e)
continued m go (finds x) b h e = none-ne-some (sym e)
continued m go (moves n) b h e = h n b e

-- The loop over a directory of at most 2^32 - 2048 bytes ends, with one round more than bytes are left:
-- it returns a record or an error.
pub scan_dir-returns :
    (cdrom : ℕ → Option (List ℕ)) (fuel dir_lba dir_size : ℕ) (component : List ℕ) (pos : ℕ)
    → dir_size ≤ 2 ^ 32 - 2048
    → dir_size - pos < fuel
    → scan_dir cdrom fuel dir_lba dir_size component pos ≢ none
unfolding scan_dir
scan_dir-returns cdrom zero dir_lba dir_size component pos small enough = absurd (omega arith)
scan_dir-returns cdrom (suc fuel) dir_lba dir_size component pos small enough =
    elim (Bool-cases (ltb pos dir_size)) [
      | inr stop ↦ rw (stop, scan_dir) (λ e. none-ne-some (sym e))
      | inl go ↦ elim (Option-cases (cdrom (u32 (dir_lba + pos / 2048)))) [
        | inl bad ↦ rw (go, bad, scan_dir) (λ e. none-ne-some (sym e))
        | inr (sector, good) ↦
            rw (go, good, scan_dir)
              (continued (suc pos) (scan_dir cdrom fuel dir_lba dir_size component)
                (scan_sector 2048 component sector dir_size (pos % 2048) pos)
                (round-Beyond 2047 component sector dir_size (pos % 2048) pos small (omega arith)
                  (ground arith)
                  (scan_sector-Beyond 2047 component sector dir_size
                    (pos % 2048 + byte_at sector (pos % 2048))
                    (u32 (pos + byte_at sector (pos % 2048))) small))
                (λ next far.
                  scan_dir-returns cdrom fuel dir_lba dir_size component next small (ground arith)))
      ]
    ]
