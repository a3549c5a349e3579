-- ===== src/Iso9660/Examples.antt =====
-- src/fs/iso9660.c: a disc with one file.
use peanut_kernel.Common.{
  ℕ, zero, suc, ◌+◌, ◌*◌, ◌<◌, ◌≡◌, ◌≢◌, refl, true, false, Option, none, some, List, [], ◌∷◌, ◌++◌,
  ◌==◌, if◌then◌else◌, replicate, u32, arith,
}
use peanut_kernel.Iso9660.{Iso, Extent, scan_dir, iso_find_in_dir, iso9660_init, iso9660_read}
use peanut_kernel.Iso9660.Files.{IsRead, iso9660_read-IsRead}
use peanut_kernel.Iso9660.Directories.{scan_dir-returns}

abbrev name : List ℕ
name = b'A' ∷ b'.' ∷ b'T' ∷ b'X' ∷ b'T' ∷ b';' ∷ b'1' ∷ []

-- The file has 3 bytes in sector 21.
abbrev directory : List ℕ
directory = 40 ∷ 0 ∷ 21 ∷ replicate 7 0 ++ (3 ∷ replicate 21 0) ++ (7 ∷ name)

abbrev content : List ℕ
content = 1 ∷ 2 ∷ 3 ∷ []

abbrev descriptor : List ℕ
descriptor =
    1 ∷ b'C' ∷ b'D' ∷ b'0' ∷ b'0' ∷ b'1' ∷ replicate 152 0 ++ (20 ∷ replicate 7 0) ++ (0 ∷ 8 ∷ [])

abbrev cdrom : ℕ → Option (List ℕ)
cdrom n =
    if n == 16
    then some descriptor
    else if n == 20
    then some directory
    else if n == 21
    then some content
    else none

abbrev iso : Iso
iso = record { has_pvd = true; root_lba = 20; root_size = 2048 }

init_test :
    iso9660_init cdrom (record { has_pvd = false; root_lba = 0; root_size = 0 }) ≡ (true, iso)
unfolding iso9660_init
init_test = refl

abbrev path : List ℕ
path = b'/' ∷ b'a' ∷ b'.' ∷ b't' ∷ b'x' ∷ b't' ∷ []

abbrev file : Extent
file = record { lba = 21; size = 3; is_dir = false }

finds_file : iso_find_in_dir cdrom 2 3 20 2048 path ≡ some (some file)
unfolding iso_find_in_dir
finds_file = refl

readable : (i : ℕ) → i * 2048 < 3 → cdrom (u32 (21 + i)) ≡ some content
readable zero h = refl
readable (suc i) h = absurd (omega arith)

iso9660_read-IsRead_example :
    IsRead cdrom 2 3 iso path file
      (λ i. content)
      refl
      finds_file
      refl
      readable
      (replicate 4 9)
      (iso9660_read cdrom 2 3 iso path (replicate 4 9) 4)
iso9660_read-IsRead_example =
    iso9660_read-IsRead cdrom 2 3 iso path file (λ i. content) refl finds_file refl readable
      (replicate 4 9) 4 (omega arith) (omega arith) (omega arith)

scan_dir-returns_example : scan_dir cdrom 2049 20 2048 name 0 ≢ none
scan_dir-returns_example = scan_dir-returns cdrom 2049 20 2048 name 0 (omega arith) (omega arith)
