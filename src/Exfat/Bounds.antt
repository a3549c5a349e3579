-- ===== src/Exfat/Bounds.antt =====
-- The arrays of src/fs/exfat.c are never overrun, whatever the device holds: `name_u` and `name` by a
-- name, `entries` by a listing.
use peanut_kernel.Common.{
  ℕ, zero, suc, ◌+◌, ◌-◌, ◌*◌, ◌≤◌, ◌<◌, ◌≡◌, ◌⊎◌, refl, subst, not, ◌&&◌, some, List, [], ◌∷◌,
  ◌++◌, ◌==◌, ltb, leb, arith, length, map, take, byte_at, c_string, length-take, length-append,
  Bool-cases, Option-cases, inl, inr, some_eq, none-ne-some,
}
use peanut_kernel.Exfat.Volume.{ExfatVolume, in_chain, read_cluster, next_cluster}
use peanut_kernel.Exfat.Entry.{
  ExfatDirEntry, exfat_max_name, name_units, set_units, entry_name, to_ascii, is_entry_set,
  parse_entry_set,
}
use peanut_kernel.Exfat.Directory.{
  Listed, ended, more, add_entry, is_other, scan_sets, cluster_bytes, cluster_records, list_cluster,
}

module _ (buf : List ℕ) (name_len : ℕ) where
  name_units-le :
      (e left k name_pos : ℕ)
      → name_pos ≤ exfat_max_name - 1
      → name_pos + length (name_units buf e name_len left k name_pos) ≤ exfat_max_name - 1
  unfolding name_units
  name_units-le e zero k name_pos h = omega arith
  name_units-le e (suc left) k name_pos h =
      ground (arith, name_units-le e left (k + 1) (name_pos + 1))

  -- `name_u` has room for every character, and for the NUL of `name`.
  pub set_units-le :
      (bytes off left si name_pos : ℕ)
      → name_pos ≤ exfat_max_name - 1
      → name_pos + length (set_units buf bytes off name_len left si name_pos) ≤ exfat_max_name - 1
  unfolding set_units
  set_units-le bytes off zero si name_pos h = omega arith
  set_units-le bytes off (suc left) si name_pos h =
      elim (Bool-cases
        (ltb name_pos name_len && ltb name_pos exfat_max_name && leb (off + 32 * si + 32) bytes)) [
          | inr stop ↦ rw (stop, set_units) (omega arith)
          | inl go ↦ elim (Bool-cases (byte_at buf (off + 32 * si) == 0xC1)) [
            | inr other ↦
                rw (go, other, set_units) (set_units-le bytes off left (si + 1) name_pos h)
            | inl name ↦
                let units : List ℕ = name_units buf (off + 32 * si) name_len 15 0 name_pos in
                let near = name_units-le (off + 32 * si) 15 0 name_pos h in
                rw (go, name, set_units)
                  (omega (
                    arith,
                    length-append {0} units
                        (set_units buf bytes off name_len left (si + 1) (name_pos + length units)),
                    set_units-le bytes off left (si + 1) (name_pos + length units) near,
                  ))
          ]
        ]

length-map_ascii : (cs : List ℕ) → length (map to_ascii cs) ≡ length cs
length-map_ascii [] = refl
length-map_ascii (c ∷ cs) = omega (arith, length-map_ascii cs)

length-c_string : (cs : List ℕ) → length (c_string cs) ≤ length cs
unfolding c_string
length-c_string [] = omega arith
length-c_string (c ∷ cs) = ground (arith, length-c_string cs)

length-entry_name : (units : List ℕ) → length (entry_name units) ≤ exfat_max_name - 1
unfolding entry_name
length-entry_name units = omega (
  arith,
  length-c_string (map to_ascii (take (exfat_max_name - 1) units)),
  length-map_ascii (take (exfat_max_name - 1) units),
  length-take {0} (exfat_max_name - 1) units,
)

abbrev pub AllFit : List ExfatDirEntry → Type 0
AllFit [] = Unit
AllFit (e ∷ es) = (length e.name < exfat_max_name) × AllFit es

AllFit-append : (es fs : List ExfatDirEntry) → AllFit es → AllFit fs → AllFit (es ++ fs)
AllFit-append [] fs p q = q
AllFit-append (e ∷ es) fs p q = (p.0, AllFit-append es fs p.1 q)

-- At most `room` entries, each with a name that fits.
abbrev pub Fits : ℕ → List ExfatDirEntry → Type 0
Fits room es = (length es ≤ room) × AllFit es

append-Fits :
    (room : ℕ) (es fs : List ExfatDirEntry)
    → Fits room es
    → Fits (room - length es) fs
    → Fits room (es ++ fs)
append-Fits room es fs p q = (omega (arith, length-append {0} es fs), AllFit-append es fs p.1 q.1)

abbrev entries : Listed → List ExfatDirEntry
entries (ended es) = es
entries (more es) = es

add_entry-Fits :
    (room : ℕ) (e : ExfatDirEntry) (l : Listed)
    → 0 < room
    → length e.name < exfat_max_name
    → Fits (room - 1) (entries l)
    → Fits room (entries (add_entry e l))
add_entry-Fits room e (ended es) pos n h = (omega arith, (n, h.1))
add_entry-Fits room e (more es) pos n h = (omega arith, (n, h.1))

parse_entry_set-lt :
    (buf : List ℕ) (bytes off : ℕ) (e : ExfatDirEntry)
    → parse_entry_set buf bytes off ≡ some e
    → length e.name < exfat_max_name
unfolding parse_entry_set
parse_entry_set-lt buf bytes off e h = elim (Bool-cases (is_entry_set buf bytes off)) [
  | inr bad ↦ absurd (none-ne-some (rw (bad, parse_entry_set) at h))
  | inl good ↦
      subst (λ (x : ExfatDirEntry). length x.name < exfat_max_name)
        (some_eq (rw (good, parse_entry_set) at h))
        (omega (
          arith,
          length-entry_name (
              set_units buf bytes off (byte_at buf (off + 32 + 3)) (byte_at buf (off + 1) - 1) 2 0),
        ))
]

scan_sets-Fits :
    (buf : List ℕ) (bytes left off room : ℕ)
    → Fits room (entries (scan_sets buf bytes left off room))
unfolding scan_sets
scan_sets-Fits buf bytes zero off room = (omega arith, tt)
scan_sets-Fits buf bytes (suc left) off room =
    elim (Bool-cases (ltb off bytes && not (room == 0))) [
      | inr stop ↦ rw (stop, scan_sets) (omega arith, tt)
      | inl go ↦ elim (Bool-cases (byte_at buf off == 0)) [
        | inl last ↦ rw (go, last, scan_sets) (omega arith, tt)
        | inr used ↦ elim (Bool-cases (is_other (byte_at buf off))) [
          | inl other ↦
              rw (go, used, other, scan_sets) (scan_sets-Fits buf bytes left (off + 32) room)
          | inr file ↦ elim (Option-cases (parse_entry_set buf bytes off)) [
            | inl bad ↦
                rw (go, used, file, bad, scan_sets) (scan_sets-Fits buf bytes left (off + 32) room)
            | inr (e, p) ↦
                rw (go, used, file, p, scan_sets)
                  (add_entry-Fits room e _ (ground arith) (parse_entry_set-lt buf bytes off e p) (
                    scan_sets-Fits buf bytes left (off + 32 * (byte_at buf (off + 1) + 1))
                      (room - 1)))
          ]
        ]
      ]
    ]

Listed-cases :
    (l : Listed)
    → ((es : List ExfatDirEntry) × (l ≡ ended es) × (entries l ≡ es))
      ⊎ ((es : List ExfatDirEntry) × (l ≡ more es) × (entries l ≡ es))
Listed-cases (ended es) = inl (es, refl, refl)
Listed-cases (more es) = inr (es, refl, refl)

module _ {D : Type 0} (v : ExfatVolume D) (d : D) where
  -- Whatever the device holds, where `list_cluster` comes to an end it has stored at most as many
  -- entries as `entries` has room for, and every name is shorter than `EXFAT_MAX_NAME`.
  list_cluster-Fits :
      (fuel cluster room : ℕ) (es : List ExfatDirEntry)
      → list_cluster fuel v d cluster room ≡ some es
      → Fits room es
  unfolding list_cluster
  list_cluster-Fits zero cluster room es h = cc
  list_cluster-Fits (suc fuel) cluster room es h =
      elim (Bool-cases (in_chain cluster && not (room == 0))) [
        | inr stop ↦ nothing (rw (stop, list_cluster) at h)
        | inl go ↦ elim (Option-cases (read_cluster v d cluster)) [
          | inl e ↦ nothing (rw (go, e, list_cluster) at h)
          | inr (buf, e) ↦ elim (Listed-cases (listed buf)) [
            | inl (fs, q, s) ↦
                subst (Fits room) (some_eq (rw (go, e, q, list_cluster) at h)) (fit buf fs s)
            | inr (fs, q, s) ↦
                elim (Option-cases
                  (list_cluster fuel v d (next_cluster v d cluster) (room - length fs))) [
                    | inl out ↦ absurd (none-ne-some (rw (go, e, q, out, list_cluster) at h))
                    | inr (rest, r) ↦
                        subst (Fits room) (some_eq (rw (go, e, q, r, list_cluster) at h)) (
                          append-Fits room fs rest (fit buf fs s) (
                            list_cluster-Fits fuel (next_cluster v d cluster) (room - length fs)
                              rest r))
                  ]
          ]
        ]
      ]
    where
      listed : List ℕ → Listed
      listed buf = scan_sets buf (cluster_bytes v) (cluster_records v) 0 room

      fit : (buf : List ℕ) (fs : List ExfatDirEntry) → entries (listed buf) ≡ fs → Fits room fs
      fit buf fs s =
          subst (Fits room) s (scan_sets-Fits buf (cluster_bytes v) (cluster_records v) 0 room)

      nothing : some [] ≡ some es → Fits room es
      nothing p = subst (Fits room) (some_eq p) (omega arith, tt)
