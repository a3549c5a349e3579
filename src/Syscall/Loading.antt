-- ===== src/Syscall/Loading.antt =====
-- `read_file_into_mem` of src/cpu/syscall.c: the memory it gives has the size it reports.
use peanut_kernel.Common.{
  ℕ, ◌≡◌, refl, ap, ◌∙◌, subst, ◌||◌, Option, none, some, List, ltb, ◌==◌, length, Bool-cases,
  Option-cases, inl, inr, some_eq, none-ne-some,
}
use peanut_kernel.Pseudo.Vfs.{vfs_is_pseudo_path}
use peanut_kernel.Chain.{read_chain}
use peanut_kernel.Chain.Read.{length-read_chain}
use peanut_kernel.Exfat.Files.{whole_file-some}
use peanut_kernel.Fat32.Volume.{Fat32Volume}
use peanut_kernel.Fat32.Entry.{is_directory}
use peanut_kernel.Fat32.Directory.{fat32_find_root}
use peanut_kernel.Fat32.File.{fat_chain, fat32_read_file}
use peanut_kernel.Exfat.Volume.{ExfatVolume}
use peanut_kernel.Exfat.Entry as ExfatEntry
use peanut_kernel.Exfat.Directory.{exfat_find_root}
use peanut_kernel.Exfat.File.{exfat_chain, exfat_read_file, whole_file}
use peanut_kernel.Syscall.{PeanutVolume, fat32, exfat, ext, Services}
use peanut_kernel.Syscall.Descriptors.{
  if_whole, load_fat32, load_exfat, load_ext, read_file_into_mem, fs_path_to_fat_name, path_cap,
  ext_path,
}

-- `kalloc` gives as much as it is asked for, and `extfs_read_file` writes into its buffer.
pub record IsLawful {H D : Type 0} (v : Services H D) : Type 0 where
  pub fresh_length : (n : ℕ) (b : List ℕ) → v.fresh n ≡ some b → length b ≡ n
  pub ext_length :
      (d : D) (path buffer : List ℕ) (n : ℕ) (r : List ℕ × ℕ)
      → v.ext_fs.read_file d path buffer n ≡ some r
      → length r.0 ≡ length buffer

-- Whatever a reader gives has the size that it is given with.
pub record IsSized (o : Option (List ℕ × ℕ)) : Type 0 where
  pub sized : (r : List ℕ × ℕ) → o ≡ some r → length r.0 ≡ r.1

nothing-IsSized : IsSized none
nothing-IsSized = record { sized = λ r e. absurd (none-ne-some e) }

if_whole-IsSized :
    (size : ℕ) (o : Option (List ℕ × ℕ))
    → ((r : List ℕ × ℕ) → o ≡ some r → length r.0 ≡ size)
    → IsSized (if_whole size o)
if_whole-IsSized size none h = nothing-IsSized
if_whole-IsSized size (some r) h = elim (Bool-cases (r.1 == size)) [
  | inl e ↦ rw e (record {
    sized = λ r' e'.
        let same : (r.0, size) ≡ r' = some_eq e' in
        subst (λ (x : List ℕ × ℕ). length x.0 ≡ x.1) same (h r refl);
  })
  | inr e ↦ rw e nothing-IsSized
]

module _ {D : Type 0} (fuel : ℕ) (d : D) (name buffer : List ℕ) (n : ℕ) (r : List ℕ × ℕ) where
  length-fat32_read_file :
      (v : Fat32Volume D)
      → fat32_read_file fuel v d name buffer n ≡ some (some r)
      → length r.0 ≡ length buffer
  unfolding fat32_read_file
  length-fat32_read_file v h = elim (Option-cases (fat32_find_root fuel v d name)) [
    | inl out ↦ absurd (none-ne-some (rw (out, fat32_read_file) at h))
    | inr (none, e) ↦ absurd (none-ne-some (some_eq (rw (e, fat32_read_file) at h)))
    | inr (some file, e) ↦
        elim (Bool-cases (is_directory file || (ltb n file.size || ltb 8 v.sectors_per_cluster))) [
          | inl bad ↦ absurd (none-ne-some (some_eq (rw (e, bad, fat32_read_file) at h)))
          | inr good ↦
              length-read_chain (fat_chain v d) file.size fuel file.first_cluster 0 buffer r
                (rw (e, good, fat32_read_file) at h)
        ]
  ]

  length-exfat_read_file :
      (v : ExfatVolume D)
      → exfat_read_file fuel v d name buffer n ≡ some (some r)
      → length r.0 ≡ length buffer
  unfolding exfat_read_file
  length-exfat_read_file v h = elim (Option-cases (exfat_find_root fuel v d name)) [
    | inl out ↦ absurd (none-ne-some (rw (out, exfat_read_file) at h))
    | inr (none, e) ↦ absurd (none-ne-some (some_eq (rw (e, exfat_read_file) at h)))
    | inr (some file, e) ↦ elim (Bool-cases (ExfatEntry.is_directory file || ltb n file.size)) [
      | inl bad ↦ absurd (none-ne-some (some_eq (rw (e, bad, exfat_read_file) at h)))
      | inr good ↦ whole file (rw (e, good, exfat_read_file) at h)
    ]
  ]
    where
      whole :
          (file : ExfatEntry.ExfatDirEntry)
          → (elim (read_chain (exfat_chain v d) file.size fuel file.first_cluster 0 buffer) [
            | none ↦ none
            | some r' ↦ some (whole_file file.size r')
          ])
            ≡ some (some r)
          → length r.0 ≡ length buffer
      whole file h' =
          elim (Option-cases
            (read_chain (exfat_chain v d) file.size fuel file.first_cluster 0 buffer)) [
              | inl out ↦ absurd (none-ne-some (rw out at h'))
              | inr (o, e) ↦
                  length-read_chain (exfat_chain v d) file.size fuel file.first_cluster 0 buffer r
                    (e ∙ rw (whole_file-some file.size o r (some_eq (rw e at h'))).0)
            ]

-- What a reader's answer about a buffer of the file's size becomes.
module _ (size : ℕ) (buffer : List ℕ) (room : length buffer ≡ size) where
  answer-IsSized :
      (answer : Option (Option (List ℕ × ℕ)))
      → ((r : List ℕ × ℕ) → answer ≡ some (some r) → length r.0 ≡ length buffer)
      → (o : Option (List ℕ × ℕ))
      → (elim answer [ none ↦ none | some r ↦ some (if_whole size r) ]) ≡ some o
      → IsSized o
  answer-IsSized none keeps o h = absurd (none-ne-some h)
  answer-IsSized (some a) keeps o h =
      subst IsSized (some_eq h) (if_whole-IsSized size a (λ r e. keeps r (ap some e) ∙ room))

module _ {H D : Type 0} (v : Services H D) (lawful : IsLawful v) (d : D) where
  load_fat32-IsSized :
      (vol : Fat32Volume D) (name : List ℕ) (o : Option (List ℕ × ℕ))
      → load_fat32 v vol d name ≡ some o
      → IsSized o
  unfolding load_fat32
  load_fat32-IsSized vol name o h = elim (Option-cases (fat32_find_root v.fuel vol d name)) [
    | inl out ↦ absurd (none-ne-some (rw (out, load_fat32) at h))
    | inr (none, e) ↦ subst IsSized (some_eq (rw (e, load_fat32) at h)) nothing-IsSized
    | inr (some file, e) ↦ elim (Bool-cases (is_directory file)) [
      | inl bad ↦ subst IsSized (some_eq (rw (e, bad, load_fat32) at h)) nothing-IsSized
      | inr good ↦ elim (Option-cases (v.fresh file.size)) [
        | inl full ↦ subst IsSized (some_eq (rw (e, good, full, load_fat32) at h)) nothing-IsSized
        | inr (b, f) ↦
            answer-IsSized file.size b (lawful.fresh_length file.size b f)
              (fat32_read_file v.fuel vol d name b file.size)
              (λ r. length-fat32_read_file v.fuel d name b file.size r vol) o
              (rw (e, good, f, load_fat32) at h)
      ]
    ]
  ]

  load_exfat-IsSized :
      (vol : ExfatVolume D) (name : List ℕ) (o : Option (List ℕ × ℕ))
      → load_exfat v vol d name ≡ some o
      → IsSized o
  unfolding load_exfat
  load_exfat-IsSized vol name o h = elim (Option-cases (exfat_find_root v.fuel vol d name)) [
    | inl out ↦ absurd (none-ne-some (rw (out, load_exfat) at h))
    | inr (none, e) ↦ subst IsSized (some_eq (rw (e, load_exfat) at h)) nothing-IsSized
    | inr (some file, e) ↦
        elim (Bool-cases (ExfatEntry.is_directory file || ltb 0xFFFFFFFF file.size)) [
          | inl bad ↦ subst IsSized (some_eq (rw (e, bad, load_exfat) at h)) nothing-IsSized
          | inr good ↦ elim (Option-cases (v.fresh file.size)) [
            | inl full ↦
                subst IsSized (some_eq (rw (e, good, full, load_exfat) at h)) nothing-IsSized
            | inr (b, f) ↦
                answer-IsSized file.size b (lawful.fresh_length file.size b f)
                  (exfat_read_file v.fuel vol d name b file.size)
                  (λ r. length-exfat_read_file v.fuel d name b file.size r vol) o
                  (rw (e, good, f, load_exfat) at h)
          ]
        ]
  ]

  load_ext-IsSized : (path : List ℕ) → IsSized (load_ext v d path)
  unfolding load_ext
  load_ext-IsSized path = elim (Option-cases (v.ext_fs.stat d path)) [
    | inl e ↦ rw (e, load_ext) nothing-IsSized
    | inr ((size, is_dir), e) ↦ elim (Bool-cases (is_dir || ltb 0xFFFFFFFF size)) [
      | inl bad ↦ rw (e, bad, load_ext) nothing-IsSized
      | inr good ↦ elim (Option-cases (v.fresh size)) [
        | inl full ↦ rw (e, good, full, load_ext) nothing-IsSized
        | inr (b, f) ↦
            rw (e, good, f, load_ext)
              (if_whole-IsSized size (v.ext_fs.read_file d path b size)
                (λ r h. lawful.ext_length d path b size r h ∙ lawful.fresh_length size b f))
      ]
    ]
  ]

  pub read_file_into_mem-IsSized :
      (path : List ℕ) (o : Option (List ℕ × ℕ)) → read_file_into_mem v d path ≡ some o → IsSized o
  unfolding read_file_into_mem
  read_file_into_mem-IsSized path o h = elim (Option-cases v.root_volume) [
    | inl e ↦ subst IsSized (some_eq (rw (e, read_file_into_mem) at h)) nothing-IsSized
    | inr (vol, e) ↦ elim (Bool-cases (vfs_is_pseudo_path path)) [
      | inl p ↦ subst IsSized (some_eq (rw (e, p, read_file_into_mem) at h)) nothing-IsSized
      | inr p ↦ from_volume vol (rw (e, p, read_file_into_mem) at h)
    ]
  ]
    where
      from_volume :
          (vol : PeanutVolume D)
          → (elim vol [
            | fat32 w ↦ load_fat32 v w d (fs_path_to_fat_name path path_cap)
            | exfat w ↦ load_exfat v w d (fs_path_to_fat_name path path_cap)
            | ext ↦ some (load_ext v d (ext_path path))
          ])
            ≡ some o
          → IsSized o
      from_volume (fat32 w) h' = load_fat32-IsSized w (fs_path_to_fat_name path path_cap) o h'
      from_volume (exfat w) h' = load_exfat-IsSized w (fs_path_to_fat_name path path_cap) o h'
      from_volume ext h' = subst IsSized (some_eq h') (load_ext-IsSized (ext_path path))
