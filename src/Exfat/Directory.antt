-- ===== src/Exfat/Directory.antt =====
-- src/fs/exfat.c: listing a directory, and the walk of `exfat_find_root` along a path.
-- A cluster chain may go round for ever: `fuel` bounds the clusters of one directory, and `none` is a
-- loop that is still running then.
use peanut_kernel.Common.{
  ℕ, zero, suc, ◌+◌, ◌-◌, ◌*◌, ◌/◌, Bool, true, false, not, ◌||◌, ◌&&◌, Option, none, some, List,
  [], ◌∷◌, ◌++◌, ◌==◌, ltb, leb, length, byte_at, streq_ci, split_path, find_entry,
}
use peanut_kernel.Block.{block_sector_size}
use peanut_kernel.Exfat.Volume.{ExfatVolume, in_chain, read_cluster, next_cluster}
use peanut_kernel.Exfat.Entry.{ExfatDirEntry, exfat_max_name, is_directory, parse_entry_set}

-- What one cluster gave: the entries, and whether the directory ended in it.
pub data Listed : Type 0 where
  ended more : List ExfatDirEntry → Listed

abbrev pub add_entry : ExfatDirEntry → Listed → Listed
add_entry e (ended es) = ended (e ∷ es)
add_entry e (more es) = more (e ∷ es)

-- The types 0x80, 0x81 and all others but 0x85.
abbrev pub is_other : ℕ → Bool
is_other kind = (kind == 0x80 || kind == 0x81) || not (kind == 0x85)

-- The loop over the records of a cluster at `off`, with room for `room` entries. It moves on by at
-- least 32 bytes, so `left` rounds of 32 bytes reach the end.
unfoldable pub scan_sets : List ℕ → ℕ → ℕ → ℕ → ℕ → Listed
unfolding parse_entry_set
scan_sets buf bytes zero off room = more []
scan_sets buf bytes (suc left) off room = elim (ltb off bytes && not (room == 0)) [
  | false ↦ more []
  | true ↦ elim (byte_at buf off == 0) [
    | true ↦ ended []
    | false ↦ elim (is_other (byte_at buf off)) [
      | true ↦ scan_sets buf bytes left (off + 32) room
      | false ↦ elim (parse_entry_set buf bytes off) [
        | none ↦ scan_sets buf bytes left (off + 32) room
        | some e ↦
            add_entry e
              (scan_sets buf bytes left (off + 32 * (byte_at buf (off + 1) + 1)) (room - 1))
      ]
    ]
  ]
]

-- `streq_ci(entries[i].name, name)`
abbrev pub named : List ℕ → ExfatDirEntry → Bool
named name e = streq_ci e.name name

abbrev pub max_entries : ℕ
max_entries = 64

-- A component that fills `component[EXFAT_MAX_NAME]` ends the walk.
abbrev pub too_long : List ℕ → Bool
too_long component = leb exfat_max_name (length component)

abbrev pub is_last : List (List ℕ) → Bool
is_last [] = true
is_last (c ∷ cs) = false

module _ {D : Type 0} where
  abbrev pub cluster_bytes : ExfatVolume D → ℕ
  cluster_bytes v = v.sectors_per_cluster * block_sector_size

  abbrev pub cluster_records : ExfatVolume D → ℕ
  cluster_records v = cluster_bytes v / 32

  unfoldable pub list_cluster : ℕ → ExfatVolume D → D → ℕ → ℕ → Option (List ExfatDirEntry)
  unfolding read_cluster scan_sets next_cluster
  list_cluster zero v d cluster room = none
  list_cluster (suc fuel) v d cluster room = elim (in_chain cluster && not (room == 0)) [
    | false ↦ some []
    | true ↦ elim (read_cluster v d cluster) [
      | none ↦ some []
      | some buf ↦ elim (scan_sets buf (cluster_bytes v) (cluster_records v) 0 room) [
        | ended es ↦ some es
        | more es ↦ elim (list_cluster fuel v d (next_cluster v d cluster) (room - length es)) [
          | none ↦ none
          | some rest ↦ some (es ++ rest)
        ]
      ]
    ]
  ]

  -- The outer option is the fuel's; the inner `none` is -1.
  unfoldable pub find_in_cluster_chain :
      ℕ → ExfatVolume D → D → ℕ → List ℕ → Option (Option ExfatDirEntry)
  unfolding list_cluster find_entry streq_ci
  find_in_cluster_chain fuel v d cluster name = elim (list_cluster fuel v d cluster max_entries) [
    | none ↦ none
    | some es ↦ some (find_entry (named name) es)
  ]

  -- The loop of `exfat_find_root` in the directory at `dir_cluster`.
  unfoldable pub walk : ℕ → ExfatVolume D → D → ℕ → List (List ℕ) → Option (Option ExfatDirEntry)
  unfolding find_in_cluster_chain
  walk fuel v d dir_cluster [] = some none
  walk fuel v d dir_cluster (component ∷ components) = elim (too_long component) [
    | true ↦ some none
    | false ↦ elim (find_in_cluster_chain fuel v d dir_cluster component) [
      | none ↦ none
      | some found ↦ elim found [
        | none ↦ some none
        | some current ↦ elim (is_last components) [
          | true ↦ some (some current)
          | false ↦ elim (is_directory current) [
            | false ↦ some none
            | true ↦ walk fuel v d current.first_cluster components
          ]
        ]
      ]
    ]
  ]

  unfoldable pub exfat_find_root : ℕ → ExfatVolume D → D → List ℕ → Option (Option ExfatDirEntry)
  unfolding walk split_path
  exfat_find_root fuel v d path = walk fuel v d v.root_cluster (split_path path)

  unfoldable pub exfat_dir_exists : ℕ → ExfatVolume D → D → List ℕ → Option Bool
  unfolding exfat_find_root
  exfat_dir_exists fuel v d dirname = elim (exfat_find_root fuel v d dirname) [
    | none ↦ none
    | some found ↦ elim found [ none ↦ some false | some e ↦ some (is_directory e) ]
  ]
