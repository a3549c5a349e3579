-- ===== src/Storage/Mounting.antt =====
-- src/storage.c: which volume becomes the root volume.
use peanut_kernel.Common.{
  ◌≡◌, ◌↔◌, ◌⊎◌, refl, sym, ap, subst, ◌∙◌, Bool, Option, none, some, List, if◌then◌else◌, inl, inr,
}
use peanut_kernel.Block.{BlockDevice}
use peanut_kernel.Partition.{Partition}
use peanut_kernel.Fat32.Volume.{Config}
use peanut_kernel.Syscall.{PeanutVolume}
use peanut_kernel.Storage.{
  ExtMount, first_of, or_else, mount_fat, mount_exfat, mount_ext, partitions_of, mount_first_fs,
  SetUp, no_drives, no_volume, no_fhs, ready,
}
use peanut_kernel.Storage.Volumes.{
  PartitionsOf, First, Fails, Mounts, as_fat, as_exfat, as_ext, IsFat, IsExfat, IsExt,
  first_of-First, First-first_of, first_of-Fails, Fails-first_of, partitions_of-PartitionsOf,
  PartitionsOf-partitions_of, mount_fat_iff, mount_exfat_iff, mount_ext_iff,
}

-- Which of three is the first.
chosen :
    {A : Type 0} (x y z : Option A) (v : A)
    → or_else x (or_else y z) ≡ some v
    → (x ≡ some v) ⊎ (((x ≡ none) × (y ≡ some v)) ⊎ ((x ≡ none) × (y ≡ none) × (z ≡ some v)))
chosen (some a) y z v e = inl e
chosen none (some b) z v e = inr (inl (refl, e))
chosen none none z v e = inr (inr (refl, refl, e))

-- How the set-up ends.
module _ {D : Type 0} (check : PeanutVolume D → Option Bool) (v : PeanutVolume D) where
  abbrev outcome : Bool → Option (PeanutVolume D) → Option (SetUp D)
  outcome idle o = if idle then some no_drives else (elim o [
    | none ↦ some no_volume
    | some w ↦ elim (check w) [
      | none ↦ none
      | some whole ↦ some (if whole then ready w else no_fhs)
    ]
  ])

  volume_of : Option (SetUp D) → Option (PeanutVolume D)
  volume_of none = none
  volume_of (some no_drives) = none
  volume_of (some no_volume) = none
  volume_of (some no_fhs) = none
  volume_of (some (ready w)) = some w

module _ {D : Type 0} (config : Config) (e : ExtMount D) (d : D) where
  -- A device becomes the root volume's exactly as FAT before exFAT before ext, and each as the first of
  -- the partitions that mounts.
  pub mount_first_fs_iff :
      (dev : BlockDevice D) (v : PeanutVolume D)
      → (mount_first_fs config e d dev ≡ some v) ↔ Mounts config e d dev v
  unfolding mount_first_fs
  mount_first_fs_iff dev v = (to, from)
    where
      ps : List (Partition D)
      ps = partitions_of config e dev d

      tried : PartitionsOf config e d dev ps
      tried = partitions_of-PartitionsOf config e d dev

      fat : Partition D → Option (PeanutVolume D)
      fat = mount_fat config e d

      exfat_one : Partition D → Option (PeanutVolume D)
      exfat_one = mount_exfat config e dev d

      ext_one : Partition D → Option (PeanutVolume D)
      ext_one = mount_ext config e dev d

      IsFatHere : Partition D → PeanutVolume D → Type 0
      IsFatHere = IsFat config e d

      fat_means : (p : Partition D) (w : PeanutVolume D) → (fat p ≡ some w) ↔ IsFat config e d p w
      fat_means = mount_fat_iff config e d

      exfat_means :
          (p : Partition D) (w : PeanutVolume D)
          → (exfat_one p ≡ some w) ↔ IsExfat config e d dev p w
      exfat_means = mount_exfat_iff config e d dev

      ext_means :
          (p : Partition D) (w : PeanutVolume D) → (ext_one p ≡ some w) ↔ IsExt config e d dev p w
      ext_means = mount_ext_iff config e d dev

      to : mount_first_fs config e d dev ≡ some v → Mounts config e d dev v
      to h = elim (chosen (first_of fat ps) (first_of exfat_one ps) (first_of ext_one ps) v h) [
        | inl f ↦ as_fat tried (first_of-First fat _ fat_means ps v f)
        | inr (inl (f, g)) ↦
            as_exfat tried (first_of-Fails fat _ fat_means ps f)
              (first_of-First exfat_one _ exfat_means ps v g)
        | inr (inr (f, g, x)) ↦
            as_ext tried (first_of-Fails fat _ fat_means ps f)
              (first_of-Fails exfat_one _ exfat_means ps g)
              (first_of-First ext_one _ ext_means ps v x)
      ]

      skip : (x o : Option (PeanutVolume D)) → x ≡ none → o ≡ some v → or_else x o ≡ some v
      skip x o h g = ap (λ y. or_else y o) h ∙ g

      same_list : {qs : List (Partition D)} → PartitionsOf config e d dev qs → qs ≡ ps
      same_list {qs} t = sym (PartitionsOf-partitions_of config e d dev qs t)

      from : Mounts config e d dev v → mount_first_fs config e d dev ≡ some v
      from (as_fat t f) =
          ap (λ x. or_else x (or_else (first_of exfat_one ps) (first_of ext_one ps)))
            (First-first_of fat _ fat_means ps v
              (subst (λ qs. First (IsFat config e d) qs v) (same_list t) f))
      from (as_exfat t f g) =
          skip (first_of fat ps) _
            (Fails-first_of fat _ fat_means ps (subst (Fails (IsFat config e d)) (same_list t) f))
            (ap (λ x. or_else x (first_of ext_one ps))
              (First-first_of exfat_one _ exfat_means ps v
                (subst (λ qs. First (IsExfat config e d dev) qs v) (same_list t) g)))
      from (as_ext t f g x) =
          skip (first_of fat ps) _
            (Fails-first_of fat _ fat_means ps (subst (Fails (IsFat config e d)) (same_list t) f))
            (skip (first_of exfat_one ps) _
              (Fails-first_of exfat_one _ exfat_means ps
                (subst (Fails (IsExfat config e d dev)) (same_list t) g))
              (First-first_of ext_one _ ext_means ps v
                (subst (λ qs. First (IsExt config e d dev) qs v) (same_list t) x)))
