-- ===== src/Fat12/Bounds.antt =====
-- `fat12_read` of src/fs/fat12.c: it returns, and what it writes stays in the file's size.
use peanut_kernel.Common.{
  ℕ, zero, suc, ◌+◌, ◌-◌, ◌^◌, ◌≤◌, ◌<◌, ◌≡◌, ◌≢◌, refl, sym, ◌∙◌, subst, Bool, true, ◌||◌, ◌&&◌,
  Option, none, some, List, ◌==◌, ltb, leb, if◌then◌else◌, length, byte_at, u32, copy, length-copy,
  get_or-copy_outside, arith, Bool-cases, Option-cases, inl, inr, some_eq, none-ne-some,
}
use peanut_kernel.Fat12.{
  Bpb, Dirent, eoc_mark, is_directory, cluster_lba, next_cluster, find_root, read_sectors,
  read_clusters, fat12_read,
}

-- What a loop that has copied `copied` of `size` bytes makes of the buffer.
pub record IsWithin (size copied : ℕ) (buffer : List ℕ) (result : List ℕ × ℕ) : Type 0 where
  pub grows : copied ≤ result.1
  pub at_most : result.1 ≤ size
  pub same_length : length result.0 ≡ length buffer
  pub after : (j : ℕ) → result.1 ≤ j → byte_at result.0 j ≡ byte_at buffer j

stays :
    (size copied : ℕ) (buffer : List ℕ)
    → copied ≤ size
    → IsWithin size copied buffer (buffer, copied)
stays size copied buffer le = record {
  grows = omega arith;
  at_most = le;
  same_length = refl;
  after = λ j h. refl;
}

-- One copy in front of what comes later.
copies :
    (size copied n : ℕ) (buffer sector : List ℕ) (result : List ℕ × ℕ)
    → IsWithin size (copied + n) (copy buffer copied sector 0 n) result
    → IsWithin size copied buffer result
copies size copied n buffer sector result h = record {
  grows = let g = h.grows in omega arith;
  at_most = h.at_most;
  same_length = h.same_length ∙ length-copy buffer copied sector 0 n;
  after = λ j p.
      let g = h.grows in
      h.after j p ∙ get_or-copy_outside buffer copied sector 0 n j (inr (omega arith));
}

joins :
    (size copied : ℕ) (buffer : List ℕ) (middle result : List ℕ × ℕ)
    → IsWithin size copied buffer middle
    → IsWithin size middle.1 middle.0 result
    → IsWithin size copied buffer result
joins size copied buffer middle result a b = record {
  grows = let g = a.grows in let g' = b.grows in omega arith;
  at_most = b.at_most;
  same_length = b.same_length ∙ a.same_length;
  after = λ j p. let g = b.grows in b.after j p ∙ a.after j (omega arith);
}

module _ (floppy : ℕ → Option (List ℕ)) (b : Bpb) (pos : 0 < b.bytes_per_sector) (size : ℕ) where
  -- How much one sector gives.
  abbrev count : ℕ → ℕ
  count copied =
      if ltb (size - copied) b.bytes_per_sector then size - copied else b.bytes_per_sector

  read_sectors-IsWithin :
      (left lba copied : ℕ) (buffer : List ℕ) (result : List ℕ × ℕ)
      → copied ≤ size
      → read_sectors floppy left size b lba copied buffer ≡ some result
      → IsWithin size copied buffer result
  unfolding read_sectors
  read_sectors-IsWithin zero lba copied buffer result le h =
      subst (IsWithin size copied buffer) (some_eq h) (stays size copied buffer le)
  read_sectors-IsWithin (suc left) lba copied buffer result le h =
      elim (Bool-cases (ltb copied size)) [
        | inr done ↦
            subst (IsWithin size copied buffer) (some_eq (rw (done, read_sectors) at h))
              (stays size copied buffer le)
        | inl more ↦ elim (Option-cases (floppy lba)) [
          | inl e ↦ absurd (none-ne-some (rw (more, e, read_sectors) at h))
          | inr (sector, e) ↦ copies size copied (count copied) buffer sector result (
              read_sectors-IsWithin left (u32 (lba + 1)) (copied + count copied)
                (copy buffer copied sector 0 (count copied)) result (ground arith)
                (rw (more, e, read_sectors) at h))
        ]
      ]

  -- The first sector gives at least one byte.
  read_sectors-lt :
      (left lba copied : ℕ) (buffer : List ℕ) (result : List ℕ × ℕ)
      → 0 < left
      → copied < size
      → read_sectors floppy left size b lba copied buffer ≡ some result
      → copied < result.1
  unfolding read_sectors
  read_sectors-lt zero lba copied buffer result some_left lt h = absurd (omega arith)
  read_sectors-lt (suc left) lba copied buffer result some_left lt h =
      let more : ltb copied size ≡ true = ground arith in
      let n : ℕ = count copied in
      let some_bytes : 0 < n = ground arith in
      let fits : copied + n ≤ size = ground arith in
      elim (Option-cases (floppy lba)) [
        | inl e ↦ absurd (none-ne-some (rw (more, e, read_sectors) at h))
        | inr (sector, e) ↦
            let w =
              read_sectors-IsWithin left (u32 (lba + 1)) (copied + n)
                (copy buffer copied sector 0 n) result fits (rw (more, e, read_sectors) at h) in
            let g = w.grows in omega arith
      ]

  abbrev go_on : ℕ → ℕ → Bool
  go_on cluster copied = leb 2 cluster && ltb cluster eoc_mark && ltb copied size

  read_clusters-IsWithin :
      (fuel cluster copied : ℕ) (buffer : List ℕ) (result : List ℕ × ℕ)
      → copied ≤ size
      → read_clusters floppy fuel size b cluster copied buffer ≡ some (some result)
      → IsWithin size copied buffer result
  unfolding read_clusters
  read_clusters-IsWithin zero cluster copied buffer result le h = absurd (none-ne-some h)
  read_clusters-IsWithin (suc fuel) cluster copied buffer result le h =
      elim (Bool-cases (go_on cluster copied)) [
        | inr done ↦
            subst (IsWithin size copied buffer) (some_eq (some_eq (rw (done, read_clusters) at h)))
              (stays size copied buffer le)
        | inl more ↦
            elim (Option-cases (
              read_sectors floppy b.sectors_per_cluster size b (cluster_lba b cluster) copied
                buffer)) [
                  | inl e ↦ absurd (none-ne-some (some_eq (rw (more, e, read_clusters) at h)))
                  | inr (r, e) ↦
                      let first =
                        read_sectors-IsWithin b.sectors_per_cluster (cluster_lba b cluster) copied
                          buffer r le e in
                      joins size copied buffer r result first (
                        read_clusters-IsWithin fuel (next_cluster floppy b cluster) r.1 r.0 result
                          (first.at_most) (rw (more, e, read_clusters) at h))
                ]
      ]

  -- Every cluster gives at least one byte, so `size - copied + 1` rounds are enough.
  read_clusters-returns :
      0 < b.sectors_per_cluster
      → (fuel cluster copied : ℕ) (buffer : List ℕ) → size < copied + fuel
      → copied ≤ size
      → read_clusters floppy fuel size b cluster copied buffer ≢ none
  unfolding read_clusters
  read_clusters-returns sectors zero cluster copied buffer enough le = absurd (omega arith)
  read_clusters-returns sectors (suc fuel) cluster copied buffer enough le =
      elim (Bool-cases (go_on cluster copied)) [
        | inr done ↦ rw (done, read_clusters) (λ e. none-ne-some (sym e))
        | inl more ↦
            elim (Option-cases (
              read_sectors floppy b.sectors_per_cluster size b (cluster_lba b cluster) copied
                buffer)) [
                  | inl e ↦ rw (more, e, read_clusters) (λ e. none-ne-some (sym e))
                  | inr (r, e) ↦
                      let left : copied < size = ground arith in
                      let first =
                        read_sectors-IsWithin b.sectors_per_cluster (cluster_lba b cluster) copied
                          buffer r le e in
                      let further =
                        read_sectors-lt b.sectors_per_cluster (cluster_lba b cluster) copied buffer
                          r sectors left e in
                      rw (more, e, read_clusters)
                        (read_clusters-returns sectors fuel (next_cluster floppy b cluster) r.1 r.0
                          (omega arith) (first.at_most))
                ]
      ]

-- `copied == file.file_size` behind the loops.
reported :
    (size : ℕ) (r result : List ℕ × ℕ)
    → (if r.1 == size && ltb r.1 (2 ^ 31) then some r else none) ≡ some result
    → (r ≡ result) × (r.1 ≡ size) × (r.1 < 2 ^ 31)
reported size r result h = elim (Bool-cases (r.1 == size && ltb r.1 (2 ^ 31))) [
  | inl e ↦ (some_eq (rw e at h), ground arith, ground arith)
  | inr e ↦ absurd (none-ne-some (rw e at h))
]

module _ (floppy : ℕ → Option (List ℕ)) (b : Bpb) (pos : 0 < b.bytes_per_sector)
    (sectors : 0 < b.sectors_per_cluster) (path : List ℕ) (file : Dirent)
    (found : find_root floppy (some b) path ≡ some file) (fuel : ℕ) (buffer : List ℕ)
    (len : ℕ) where
  loop : Option (Option (List ℕ × ℕ))
  loop = read_clusters floppy fuel file.file_size b file.first_cluster_low 0 buffer

  -- For a file that is found on a floppy whose sectors and clusters are not empty, with fuel for one
  -- cluster more than the file has bytes, `fat12_read` returns. It returns -1 for a directory and for
  -- a file that is longer than the buffer is said to be; and where it returns no negative number, the
  -- number is the file's size, below 2 ^ 31 and at most what the buffer is said to hold, and the buffer
  -- behind is as it was.
  pub fat12_read-IsWithin :
      file.file_size < fuel
      → (fat12_read floppy fuel (some b) path buffer len ≢ none)
        × ((is_directory file || ltb len file.file_size) ≡ true
            → fat12_read floppy fuel (some b) path buffer len ≡ some none)
        × ((result : List ℕ × ℕ)
            → fat12_read floppy fuel (some b) path buffer len ≡ some (some result)
            → (result.1 ≡ file.file_size)
              × (result.1 ≤ len)
              × (result.1 < 2 ^ 31)
              × IsWithin file.file_size 0 buffer result)
  unfolding fat12_read loop
  fat12_read-IsWithin enough = elim (Bool-cases (is_directory file || ltb len file.file_size)) [
    | inl bad ↦
        rw (found, bad, fat12_read)
          (λ e. none-ne-some (sym e), λ r. refl, λ result e. absurd (none-ne-some (some_eq e)))
    | inr good ↦ elim (Option-cases loop) [
      | inl out ↦ absurd (
          read_clusters-returns floppy b pos file.file_size sectors fuel file.first_cluster_low 0
            buffer (omega arith) (omega arith) out)
      | inr (none, e) ↦
          rw (found, good, e, fat12_read)
            (
              λ e. none-ne-some (sym e),
              λ r. absurd (ground arith),
              λ result e. absurd (none-ne-some (some_eq e)),
            )
      | inr (some r, e) ↦
          rw (found, good, e, fat12_read)
            (
              λ e. none-ne-some (sym e),
              λ r. absurd (ground arith),
              λ result h.
                  let (same, all, low) = reported file.file_size r result (some_eq h) in
                  subst
                    (λ (x : List ℕ × ℕ).
                      (x.1 ≡ file.file_size)
                      × (x.1 ≤ len)
                      × (x.1 < 2 ^ 31)
                      × IsWithin file.file_size 0 buffer x)
                    same
                    (
                      all,
                      ground arith,
                      low,
                      read_clusters-IsWithin floppy b pos file.file_size fuel file.first_cluster_low
                          0 buffer r (omega arith) e,
                    ),
            )
    ]
  ]
