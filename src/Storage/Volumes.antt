-- ===== src/Storage/Volumes.antt =====
-- src/storage.c: the volume of a disk.
use peanut_kernel.Common.{
  ◌≡◌, ◌↔◌, ◌⊎◌, refl, sym, ap, subst, ◌∙◌, Bool, true, false, Option, none, some, List, [], ◌∷◌,
  if◌then◌else◌, Bool-cases, Option-cases, inl, inr, some_eq, none-ne-some,
}
use peanut_kernel.Block.{BlockDevice}
use peanut_kernel.Partition.{Partition, partition_is_fat, partition_scan_mbr}
use peanut_kernel.Fat32.Volume.{Config, Fat32Volume, fat32_mount}
use peanut_kernel.Exfat.Volume.{ExfatVolume, exfat_probe_boot, exfat_mount}
use peanut_kernel.Syscall.{PeanutVolume, fat32, exfat, ext}
use peanut_kernel.Storage.{
  ExtMount, first_of, mount_fat, mount_exfat, mount_ext, partitions_of, or_whole,
}

-- Nothing in a list is related to anything; and the first thing of a list that is related to something.
pub data Fails {A B : Type 0} (R : A → B → Type 0) : List A → Type 0 where
  none_left : Fails R []
  fails : {a : A} {rest : List A} → ((b : B) → R a b → ⊥) → Fails R rest → Fails R (a ∷ rest)

pub data First {A B : Type 0} (R : A → B → Type 0) : List A → B → Type 0 where
  here : {a : A} {b : B} {rest : List A} → R a b → First R (a ∷ rest) b
  later :
      {a : A} {b : B} {rest : List A}
      → ((c : B) → R a c → ⊥)
      → First R rest b
      → First R (a ∷ rest) b

-- A loop of tests that find what `R` relates.
module _ {A B : Type 0} (f : A → Option B) (R : A → B → Type 0)
    (means : (a : A) (b : B) → (f a ≡ some b) ↔ R a b) where
  unrelated : (a : A) → f a ≡ none → (b : B) → R a b → ⊥
  unrelated a bad b r = none-ne-some (sym bad ∙ (means a b).1 r)

  fruitless : (a : A) → ((b : B) → R a b → ⊥) → f a ≡ none
  fruitless a h = elim (Option-cases (f a)) [
    | inl bad ↦ bad
    | inr (b, good) ↦ absurd (h b ((means a b).0 good))
  ]

  pub first_of-First : (xs : List A) (b : B) → first_of f xs ≡ some b → First R xs b
  first_of-First [] b e = absurd (none-ne-some e)
  first_of-First (a ∷ xs) b e = elim (Option-cases (f a)) [
    | inl bad ↦ later (unrelated a bad) (first_of-First xs b (rw (bad, first_of) at e))
    | inr (c, good) ↦
        subst (First R (a ∷ xs)) (some_eq (rw (good, first_of) at e)) (here ((means a c).0 good))
  ]

  pub First-first_of : (xs : List A) (b : B) → First R xs b → first_of f xs ≡ some b
  First-first_of [] b h = elim h [ ]
  First-first_of (a ∷ xs) b (here r) = rw ((means a b).1 r, first_of)
  First-first_of (a ∷ xs) b (later h l) = rw (fruitless a h, first_of) (First-first_of xs b l)

  pub first_of-Fails : (xs : List A) → first_of f xs ≡ none → Fails R xs
  first_of-Fails [] e = none_left
  first_of-Fails (a ∷ xs) e = elim (Option-cases (f a)) [
    | inl bad ↦ fails (unrelated a bad) (first_of-Fails xs (rw (bad, first_of) at e))
    | inr (c, good) ↦ absurd (none-ne-some (sym (rw (good, first_of) at e)))
  ]

  pub Fails-first_of : (xs : List A) → Fails R xs → first_of f xs ≡ none
  Fails-first_of [] h = refl
  Fails-first_of (a ∷ xs) (fails u h) = rw (fruitless a u, first_of) (Fails-first_of xs h)

unguarded :
    {A B : Type 0} (b : Bool) (o : Option A) (f : A → B) (w : A)
    → b ≡ true
    → o ≡ some w
    → (if b then (elim o [ none ↦ none | some w' ↦ some (f w') ]) else none) ≡ some (f w)
unguarded b o f w h g = rw (h, g) refl

-- A probe, and what is made of the volume behind it.
guarded :
    {A B : Type 0} (b : Bool) (o : Option A) (f : A → B) (y : B)
    → (if b then (elim o [ none ↦ none | some w ↦ some (f w) ]) else none) ≡ some y
    → (b ≡ true) × ((w : A) × (o ≡ some w) × (f w ≡ y))
guarded true (some w) f y h = (refl, (w, refl, some_eq h))
guarded true none f y h = absurd (none-ne-some h)
guarded false o f y h = absurd (none-ne-some h)

module _ {D : Type 0} (config : Config) (e : ExtMount D) (d : D) where
  -- The partitions that are tried: the first four entries of the table that are in use, or the whole
  -- disk where there is none, or no table can be read.
  pub data PartitionsOf (dev : BlockDevice D) : List (Partition D) → Type 0 where
    of_table :
        {p : Partition D} {ps : List (Partition D)}
        → partition_scan_mbr dev d 4 ≡ some (p ∷ ps)
        → PartitionsOf dev (p ∷ ps)
    of_disk :
        (partition_scan_mbr dev d 4 ≡ some []) ⊎ (partition_scan_mbr dev d 4 ≡ none)
        → PartitionsOf dev
            (record { disk = dev; kind = 0; first_lba = 0; sector_count = dev.sector_count d } ∷ [])

  -- A partition that is a volume of each kind.
  pub record IsFat (p : Partition D) (v : PeanutVolume D) : Type 0 where
    pub type_is_fat : partition_is_fat p ≡ true
    pub fat_volume : Fat32Volume D
    pub fat_mounted : fat32_mount config p d ≡ some fat_volume
    pub is_fat_volume : fat32 fat_volume ≡ v

  pub record IsExfat (dev : BlockDevice D) (p : Partition D) (v : PeanutVolume D) : Type 0 where
    pub boot_is_exfat : exfat_probe_boot dev d p.first_lba ≡ true
    pub exfat_volume : ExfatVolume D
    pub exfat_mounted : exfat_mount p d ≡ some exfat_volume
    pub is_exfat_volume : exfat exfat_volume ≡ v

  pub record IsExt (dev : BlockDevice D) (p : Partition D) (v : PeanutVolume D) : Type 0 where
    pub probed : e.probe dev d p.first_lba ≡ true
    pub ext_mounted : e.mount p d ≡ true
    pub is_ext_volume : ext ≡ v

  -- A device's volume: the first of its partitions that mounts as FAT; without one, the first that
  -- mounts as exFAT; and without that, as ext.
  pub data Mounts (dev : BlockDevice D) (v : PeanutVolume D) : Type 0 where
    as_fat : {ps : List (Partition D)} → PartitionsOf dev ps → First IsFat ps v → Mounts dev v
    as_exfat :
        {ps : List (Partition D)}
        → PartitionsOf dev ps
        → Fails IsFat ps
        → First (IsExfat dev) ps v
        → Mounts dev v
    as_ext :
        {ps : List (Partition D)}
        → PartitionsOf dev ps
        → Fails IsFat ps
        → Fails (IsExfat dev) ps
        → First (IsExt dev) ps v
        → Mounts dev v

  pub partitions_of-PartitionsOf :
      (dev : BlockDevice D) → PartitionsOf dev (partitions_of config e dev d)
  unfolding partitions_of
  partitions_of-PartitionsOf dev = elim (Option-cases (partition_scan_mbr dev d 4)) [
    | inl bad ↦ rw (bad, or_whole) (of_disk (inr bad))
    | inr ([], good) ↦ rw (good, or_whole) (of_disk (inl good))
    | inr (p ∷ ps, good) ↦ rw (good, or_whole) (of_table good)
  ]

  pub PartitionsOf-partitions_of :
      (dev : BlockDevice D) (ps : List (Partition D))
      → PartitionsOf dev ps
      → partitions_of config e dev d ≡ ps
  unfolding partitions_of
  PartitionsOf-partitions_of dev ps (of_table h) = rw (h, or_whole)
  PartitionsOf-partitions_of dev ps (of_disk (inl h)) = rw (h, or_whole)
  PartitionsOf-partitions_of dev ps (of_disk (inr h)) = rw (h, or_whole)

  pub mount_fat_iff :
      (p : Partition D) (v : PeanutVolume D) → (mount_fat config e d p ≡ some v) ↔ IsFat p v
  unfolding mount_fat
  mount_fat_iff p v = (to, from)
    where
      to : mount_fat config e d p ≡ some v → IsFat p v
      to h =
          let r = guarded (partition_is_fat p) (fat32_mount config p d) fat32 v h in
          record {
            type_is_fat = r.0;
            fat_volume = r.1.0;
            fat_mounted = r.1.1;
            is_fat_volume = r.1.2;
          }

      from : IsFat p v → mount_fat config e d p ≡ some v
      from r =
          unguarded (partition_is_fat p) (fat32_mount config p d) fat32 r.fat_volume r.type_is_fat
            r.fat_mounted
          ∙ ap some r.is_fat_volume

  pub mount_exfat_iff :
      (dev : BlockDevice D) (p : Partition D) (v : PeanutVolume D)
      → (mount_exfat config e dev d p ≡ some v) ↔ IsExfat dev p v
  unfolding mount_exfat
  mount_exfat_iff dev p v = (to, from)
    where
      to : mount_exfat config e dev d p ≡ some v → IsExfat dev p v
      to h =
          let r = guarded (exfat_probe_boot dev d p.first_lba) (exfat_mount p d) exfat v h in
          record {
            boot_is_exfat = r.0;
            exfat_volume = r.1.0;
            exfat_mounted = r.1.1;
            is_exfat_volume = r.1.2;
          }

      from : IsExfat dev p v → mount_exfat config e dev d p ≡ some v
      from r =
          unguarded (exfat_probe_boot dev d p.first_lba) (exfat_mount p d) exfat r.exfat_volume
            r.boot_is_exfat r.exfat_mounted
          ∙ ap some r.is_exfat_volume

  pub mount_ext_iff :
      (dev : BlockDevice D) (p : Partition D) (v : PeanutVolume D)
      → (mount_ext config e dev d p ≡ some v) ↔ IsExt dev p v
  unfolding mount_ext
  mount_ext_iff dev p v = (to, from)
    where
      to : mount_ext config e dev d p ≡ some v → IsExt dev p v
      to h = elim (Bool-cases (e.probe dev d p.first_lba)) [
        | inr other ↦ absurd (none-ne-some (rw (other, mount_ext) at h))
        | inl matches ↦ elim (Bool-cases (e.mount p d)) [
          | inr bad ↦ absurd (none-ne-some (rw (matches, bad, mount_ext) at h))
          | inl good ↦ record {
            probed = matches;
            ext_mounted = good;
            is_ext_volume = some_eq (rw (matches, good, mount_ext) at h);
          }
        ]
      ]

      from : IsExt dev p v → mount_ext config e dev d p ≡ some v
      from r = rw (r.probed, r.ext_mounted, mount_ext) (ap some r.is_ext_volume)
