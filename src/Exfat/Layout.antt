-- ===== src/Exfat/Layout.antt =====
-- What `exfat_mount` of src/fs/exfat.c accepts, and which clusters of a volume can be reached.
use peanut_kernel.Common.{
  ℕ, ◌+◌, ◌-◌, ◌*◌, ◌%◌, ◌^◌, ◌≤◌, ◌<◌, ◌≡◌, refl, subst, true, false, ◌||◌, none, some, List, ◌==◌,
  ltb, arith, byte_at, u32, Bool-cases, Option-cases, inl, inr, some_eq, none-ne-some, all_below-at,
}
use peanut_kernel.Block.{block_read}
use peanut_kernel.Partition.{Partition}
use peanut_kernel.Exfat.Volume.{
  ExfatVolume, exfat_max_cluster_sectors, accepts, exfat_probe_boot, volume_of, exfat_mount,
  cluster_first_lba, read_cluster,
}

power_pos : (n : ℕ) → n < 8 → 0 < 2 ^ n % 256
power_pos n h =
    let e : ltb 0 (2 ^ n % 256) ≡ true = all_below-at 8 (λ k. ltb 0 (2 ^ k % 256)) refl n h in
    ground arith

-- The bounds that the loops over a mounted volume rely on.
pub record IsMounted {D : Type 0} (v : ExfatVolume D) : Type 0 where
  pub some_sectors : 0 < v.sectors_per_cluster
  pub buffer_fits : v.sectors_per_cluster ≤ exfat_max_cluster_sectors
  pub some_clusters : 2 ≤ v.cluster_count
  pub root_there : 2 ≤ v.root_cluster

module _ {D : Type 0} (p : Partition D) where
  volume_of-IsMounted : (s : List ℕ) → accepts s ≡ true → IsMounted (volume_of p s)
  unfolding accepts volume_of
  volume_of-IsMounted s h = record {
    some_sectors = let e : byte_at s 109 < 8 = ground arith in power_pos (byte_at s 109) e;
    buffer_fits = ground arith;
    some_clusters = ground arith;
    root_there = ground arith;
  }

  -- Whatever the device holds, a volume that `exfat_mount` accepts has clusters of at least one sector
  -- that fit the buffers of 8 sectors, at least two clusters, and a root directory at cluster 2 or
  -- later.
  pub exfat_mount-IsMounted : (d : D) (v : ExfatVolume D) → exfat_mount p d ≡ some v → IsMounted v
  unfolding exfat_mount
  exfat_mount-IsMounted d v h = elim (Bool-cases (exfat_probe_boot p.disk d p.first_lba)) [
    | inr other ↦ absurd (none-ne-some (rw (other, exfat_mount) at h))
    | inl there ↦ elim (Option-cases (block_read p.disk d p.first_lba 1)) [
      | inl e ↦ absurd (none-ne-some (rw (there, e, exfat_mount) at h))
      | inr (s, e) ↦ elim (Bool-cases (accepts s)) [
        | inr bad ↦ absurd (none-ne-some (rw (there, e, bad, exfat_mount) at h))
        | inl good ↦
            subst IsMounted (some_eq (rw (there, e, good, exfat_mount) at h))
              (volume_of-IsMounted s good)
      ]
    ]
  ]

module _ {D : Type 0} (v : ExfatVolume D) (d : D) where
  -- Clusters 2 to `cluster_count` of a heap that ends below 2 ^ 32 and does not start at sector 0 are
  -- read from the place where the format has them; but cluster `cluster_count + 1`, which is the last
  -- one of the format's `cluster_count` clusters, cannot be read.
  read_cluster_lem :
      0 < v.cluster_heap_lba
      → v.cluster_heap_lba + v.cluster_count * v.sectors_per_cluster < 2 ^ 32
      → ((cluster : ℕ)
          → 2 ≤ cluster
          → cluster ≤ v.cluster_count
          → read_cluster v d cluster
            ≡ block_read v.partition.disk d
                (v.cluster_heap_lba + (cluster - 2) * v.sectors_per_cluster)
                v.sectors_per_cluster)
        × (read_cluster v d (v.cluster_count + 1) ≡ none)
  unfolding read_cluster cluster_first_lba
  read_cluster_lem heap fits = (
    λ cluster two small.
        let inside : (ltb cluster 2 || ltb v.cluster_count cluster) ≡ false = ground arith in
        let less : (cluster - 2) * v.sectors_per_cluster ≤ v.cluster_count * v.sectors_per_cluster =
          grind arith in
        let place : u32 (v.cluster_heap_lba + u32 ((cluster - 2) * v.sectors_per_cluster))
            ≡ v.cluster_heap_lba + (cluster - 2) * v.sectors_per_cluster =
          omega arith in
        let nonzero : (v.cluster_heap_lba + (cluster - 2) * v.sectors_per_cluster == 0) ≡ false =
          ground arith in
        rw (inside, place, nonzero, read_cluster, cluster_first_lba),
    let outside : (ltb (v.cluster_count + 1) 2 || ltb v.cluster_count (v.cluster_count + 1))
            ≡ true =
          ground arith in
        rw (outside, read_cluster, cluster_first_lba),
  )
