-- ===== src/Initramfs/Examples.antt =====
-- An archive with one file "a" of 4 bytes, and the theorems about src/fs/initramfs.c there.
use peanut_kernel.Common.{
  all_below, ℕ, ◌≡◌, ◌≢◌, refl, true, none, some, List, [], ◌∷◌, ◌++◌, arith, length, replicate,
}
use peanut_kernel.Initramfs.{has_entry, initramfs_find}
use peanut_kernel.Initramfs.Files.{IsFile, initramfs_find-IsFile, sizes_small}

abbrev zeros : ℕ → List ℕ
zeros n = replicate n b'0'

-- A header with the given digits for the file's size, and a name of 2 bytes.
abbrev header : List ℕ → List ℕ
header digits =
    (b'0' ∷ b'7' ∷ b'0' ∷ b'7' ∷ b'0' ∷ b'1' ∷ []) ++ (zeros 55 ++ (b'2' ∷ (digits ++ zeros 40)))

abbrev archive : List ℕ
archive = header (zeros 7 ++ (b'4' ∷ [])) ++ (b'a' ∷ 0 ∷ 0 ∷ 0 ∷ 5 ∷ 6 ∷ 7 ∷ 8 ∷ [])

abbrev path : List ℕ
path = b'/' ∷ b'A' ∷ []

finds : initramfs_find 2 archive path ≡ some (some (114, 4))
unfolding initramfs_find
finds = refl

misses : initramfs_find 2 archive (b'b' ∷ []) ≡ some none
unfolding initramfs_find
misses = refl

-- A size of 2 ^ 32 - 1 passes the guard on the archive's end.
wraps :
    initramfs_find 2 (header (replicate 8 b'F') ++ (b'a' ∷ 0 ∷ 0 ∷ 0 ∷ [])) path
    ≡ some (some (114, 0xFFFFFFFF))
unfolding initramfs_find
wraps = refl

small : all_below (length archive) (sizes_small archive) ≡ true
unfolding initramfs_find has_entry
small = refl

initramfs_find-IsFile_example :
    (initramfs_find 2 archive path ≢ none)
    × ((found : ℕ × ℕ)
        → initramfs_find 2 archive path ≡ some (some found)
        → (off : ℕ) × IsFile path archive found off)
initramfs_find-IsFile_example =
    initramfs_find-IsFile path archive (omega arith) small 2 (omega arith)
