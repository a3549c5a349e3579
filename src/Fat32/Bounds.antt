-- ===== src/Fat32/Bounds.antt =====
-- src/fs/fat32.c: the listings of directories against the arrays that hold them.
use peanut_kernel.Common.{
  ℕ, zero, suc, ◌-◌, ◌*◌, ◌≡◌, false, not, ◌&&◌, some, List, [], ◌==◌, arith, length, Bool-cases,
  Option-cases, inl, inr, ◌⊎◌, ltb, some_eq, none-ne-some, subst,
}
use peanut_kernel.Fat32.Volume.{Fat32Volume}
use peanut_kernel.Fat32.Cluster.{in_chain, read_cluster, next_cluster}
use peanut_kernel.Fat32.Entry.{Fat32DirEntry}
use peanut_kernel.Fat32.Directory.{
  scan_records, records_per_sector, list_chain, list_cluster_entries, empty_lfn,
}
use peanut_kernel.Fat32.Scans.{Fits, append-Fits, Scan-cases, scan_records-ScanFits}

module _ {D : Type 0} (v : Fat32Volume D) (d : D) where
  -- A directory that lies in a cluster chain.
  list_chain-Fits :
      (fuel cluster room : ℕ) (es : List Fat32DirEntry)
      → list_chain v d fuel cluster room ≡ some es
      → Fits room es
  unfolding list_chain
  list_chain-Fits zero cluster room es h = cc
  list_chain-Fits (suc fuel) cluster room es h =
      elim (Bool-cases (in_chain cluster && not (room == 0))) [
        | inr stop ↦ nothing (rw (stop, list_chain) at h)
        | inl go ↦ elim (Option-cases (read_cluster v d cluster)) [
          | inl e ↦ nothing (rw (go, e, list_chain) at h)
          | inr (buffer, e) ↦
              elim (Scan-cases room
                (scan_records buffer (v.sectors_per_cluster * records_per_sector) 0 room empty_lfn)
                (scan_records-ScanFits buffer (v.sectors_per_cluster * records_per_sector) 0 room
                  empty_lfn)) [
                    | inl (fs, q, fits) ↦
                        subst (Fits room) (some_eq (rw (go, e, q, list_chain) at h)) fits
                    | inr (lfn, fs, q, fits) ↦
                        elim (Option-cases
                          (list_chain v d fuel (next_cluster v d cluster) (room - length fs))) [
                            | inl out ↦ absurd (none-ne-some (rw (go, e, q, out, list_chain) at h))
                            | inr (rest, r) ↦
                                subst (Fits room) (some_eq (rw (go, e, q, r, list_chain) at h)) (
                                  append-Fits room fs rest fits (
                                    list_chain-Fits fuel (next_cluster v d cluster)
                                      (room - length fs) rest r))
                          ]
                  ]
        ]
      ]
    where
      nothing : some [] ≡ some es → Fits room es
      nothing p = subst (Fits room) (some_eq p) (omega arith, tt)

  -- The chain from a cluster has come to an end behind so many clusters.
  abbrev pub ChainEnds : ℕ → ℕ → Type 0
  ChainEnds zero cluster = in_chain cluster ≡ false
  ChainEnds (suc n) cluster = (in_chain cluster ≡ false) ⊎ ChainEnds n (next_cluster v d cluster)

  -- The same of `list_cluster_entries` on any cluster chain.
  pub list_cluster_entries-Fits :
      (fuel cluster max : ℕ) (es : List Fat32DirEntry)
      → list_cluster_entries fuel v d cluster max ≡ some es
      → Fits max es
  unfolding list_cluster_entries
  list_cluster_entries-Fits fuel cluster max es h =
      elim (Bool-cases (ltb 8 v.sectors_per_cluster)) [
        | inl wide ↦
            subst (Fits max) (some_eq (rw (wide, list_cluster_entries) at h)) (omega arith, tt)
        | inr fine ↦ list_chain-Fits fuel cluster max es (rw (fine, list_cluster_entries) at h)
      ]
