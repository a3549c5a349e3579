-- ===== src/Storage/Directories.antt =====
-- src/storage.c: the directories that the root volume is to have.
use peanut_kernel.Common.{
  ℕ, copy_chars, ◌≡◌, ◌↔◌, sym, ap, Bool, true, false, Option, none, some, List, [], ◌∷◌, arith,
  Option-cases, inl, inr, some_eq, none-ne-some,
}
use peanut_kernel.Fat32.Volume.{Config, Fat32Volume}
use peanut_kernel.Exfat.Volume.{ExfatVolume}
use peanut_kernel.Fat32.Entry as FatEntry
use peanut_kernel.Fat32.Entry.{Fat32DirEntry}
use peanut_kernel.Fat32.Directory.{fat32_find_root}
use peanut_kernel.Exfat.Entry as ExfatEntry
use peanut_kernel.Exfat.Entry.{ExfatDirEntry}
use peanut_kernel.Exfat.Directory.{exfat_find_root, exfat_dir_exists}
use peanut_kernel.Syscall.{PeanutVolume, fat32, exfat, ext}
use peanut_kernel.Storage.{
  ExtMount, all_of, fhs_dirs, fhs_dir_exists_fat32, fhs_dir_exists_ext, validate_fhs,
}

true-ne-false : true ≡ false → ⊥
true-ne-false h = ground arith

-- Four tests, each made only where those before it hold.
module _ {A : Type 0} (f : A → Option Bool) where
  first_holds :
      (a : A) (rest : List A)
      → all_of f (a ∷ rest) ≡ some true
      → (f a ≡ some true) × (all_of f rest ≡ some true)
  first_holds a rest h = elim (Option-cases (f a)) [
    | inl e ↦ absurd (none-ne-some (rw (e, all_of) at h))
    | inr (true, e) ↦ (e, rw (e, all_of) at h)
    | inr (false, e) ↦ absurd (true-ne-false (sym (some_eq (rw (e, all_of) at h))))
  ]

  abbrev AllFour : A → A → A → A → Type 0
  AllFour a b c x = (f a ≡ some true) × (f b ≡ some true) × (f c ≡ some true) × (f x ≡ some true)

  all_of-AllFour : (a b c x : A) → all_of f (a ∷ b ∷ c ∷ x ∷ []) ≡ some true → AllFour a b c x
  all_of-AllFour a b c x h =
      let one = first_holds a (b ∷ c ∷ x ∷ []) h in
      let two = first_holds b (c ∷ x ∷ []) one.1 in
      let three = first_holds c (x ∷ []) two.1 in
      let four = first_holds x [] three.1 in (one.0, two.0, three.0, four.0)

  AllFour-all_of :
      (a b c x : A)
      → f a ≡ some true
      → f b ≡ some true
      → f c ≡ some true
      → f x ≡ some true
      → all_of f (a ∷ b ∷ c ∷ x ∷ []) ≡ some true
  AllFour-all_of a b c x p q r s = rw (p, q, r, s, all_of)

abbrev pub boot_name : List ℕ
boot_name = b'B' ∷ b'O' ∷ b'O' ∷ b'T' ∷ []

abbrev pub bin_name : List ℕ
bin_name = b'B' ∷ b'I' ∷ b'N' ∷ []

abbrev pub usr_name : List ℕ
usr_name = b'U' ∷ b'S' ∷ b'R' ∷ []

abbrev pub lib_name : List ℕ
lib_name = b'L' ∷ b'I' ∷ b'B' ∷ []

module _ {D : Type 0} (config : Config) (e : ExtMount D) (fuel : ℕ) (d : D) where
  -- The volume has a directory of this name in its root directory.
  abbrev pub HasDirectory : PeanutVolume D → List ℕ → Type 0
  HasDirectory (fat32 v) name =
      (x : Fat32DirEntry) × (fat32_find_root fuel v d name ≡ some (some x))
      × (FatEntry.is_directory x ≡ true)
  HasDirectory (exfat v) name =
      (x : ExfatDirEntry) × (exfat_find_root fuel v d name ≡ some (some x))
      × (ExfatEntry.is_directory x ≡ true)
  HasDirectory ext name = e.dir_exists d (b'/' ∷ name) ≡ true

  pub record HasTree (v : PeanutVolume D) : Type 0 where
    pub boot : HasDirectory v boot_name
    pub bin : HasDirectory v bin_name
    pub usr : HasDirectory v usr_name
    pub lib : HasDirectory v lib_name

  fat32_iff :
      (v : Fat32Volume D) (name : List ℕ)
      → (fhs_dir_exists_fat32 config e fuel v d name ≡ some true) ↔ HasDirectory (fat32 v) name
  unfolding fhs_dir_exists_fat32
  fat32_iff v name = (to, from)
    where
      to : fhs_dir_exists_fat32 config e fuel v d name ≡ some true → HasDirectory (fat32 v) name
      to h = elim (Option-cases (fat32_find_root fuel v d name)) [
        | inl x ↦ absurd (none-ne-some (rw (x, fhs_dir_exists_fat32) at h))
        | inr (none, x) ↦ absurd (true-ne-false (sym (some_eq (rw (x, fhs_dir_exists_fat32) at h))))
        | inr (some y, x) ↦ (y, x, some_eq (rw (x, fhs_dir_exists_fat32) at h))
      ]

      from : HasDirectory (fat32 v) name → fhs_dir_exists_fat32 config e fuel v d name ≡ some true
      from (y, x, is_dir) = rw (x, fhs_dir_exists_fat32) (ap some is_dir)

  exfat_iff :
      (v : ExfatVolume D) (name : List ℕ)
      → (exfat_dir_exists fuel v d name ≡ some true) ↔ HasDirectory (exfat v) name
  unfolding exfat_dir_exists
  exfat_iff v name = (to, from)
    where
      to : exfat_dir_exists fuel v d name ≡ some true → HasDirectory (exfat v) name
      to h = elim (Option-cases (exfat_find_root fuel v d name)) [
        | inl x ↦ absurd (none-ne-some (rw (x, exfat_dir_exists) at h))
        | inr (none, x) ↦ absurd (true-ne-false (sym (some_eq (rw (x, exfat_dir_exists) at h))))
        | inr (some y, x) ↦ (y, x, some_eq (rw (x, exfat_dir_exists) at h))
      ]

      from : HasDirectory (exfat v) name → exfat_dir_exists fuel v d name ≡ some true
      from (y, x, is_dir) = rw (x, exfat_dir_exists) (ap some is_dir)

  -- Four tests, of the four names.
  four-HasTree :
      (v : PeanutVolume D) (f : List ℕ → Option Bool)
      → ((name : List ℕ) → (f name ≡ some true) → HasDirectory v name)
      → all_of f fhs_dirs ≡ some true
      → HasTree v
  four-HasTree v f means h =
      let t = all_of-AllFour f boot_name bin_name usr_name lib_name h in
      record {
        boot = means boot_name t.0;
        bin = means bin_name t.1;
        usr = means usr_name t.2;
        lib = means lib_name t.3;
      }

  HasTree-four :
      (v : PeanutVolume D) (f : List ℕ → Option Bool)
      → ((name : List ℕ) → HasDirectory v name → f name ≡ some true)
      → HasTree v
      → all_of f fhs_dirs ≡ some true
  HasTree-four v f means t =
      AllFour-all_of f boot_name bin_name usr_name lib_name (means boot_name t.boot)
        (means bin_name t.bin) (means usr_name t.usr) (means lib_name t.lib)

  pub validate_fhs_iff :
      (v : PeanutVolume D) → (validate_fhs config e fuel d v ≡ some true) ↔ HasTree v
  unfolding validate_fhs fhs_dir_exists_ext copy_chars
  validate_fhs_iff (fat32 v) = (
    four-HasTree (fat32 v) _ (λ name. (fat32_iff v name).0),
    HasTree-four (fat32 v) _ (λ name. (fat32_iff v name).1),
  )
  validate_fhs_iff (exfat v) = (
    four-HasTree (exfat v) _ (λ name. (exfat_iff v name).0),
    HasTree-four (exfat v) _ (λ name. (exfat_iff v name).1),
  )
  validate_fhs_iff ext = (to, from)
    where
      ext_test : List ℕ → Option Bool
      ext_test name = some (fhs_dir_exists_ext config e d name)

      to : all_of ext_test fhs_dirs ≡ some true → HasTree ext
      to h =
          let t = all_of-AllFour ext_test boot_name bin_name usr_name lib_name h in
          record { boot = some_eq t.0; bin = some_eq t.1; usr = some_eq t.2; lib = some_eq t.3 }

      from : HasTree ext → all_of ext_test fhs_dirs ≡ some true
      from t =
          AllFour-all_of ext_test boot_name bin_name usr_name lib_name (ap some t.boot)
            (ap some t.bin) (ap some t.usr) (ap some t.lib)
