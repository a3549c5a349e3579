-- ===== src/Fat32/Directory.antt =====
-- src/fs/fat32.c: listing a directory, and the walk of `fat32_find_root` along a path.
-- `char lfn[FAT32_MAX_NAME]` starts with undefined contents after its first byte; here they are
-- zeros. A cluster chain may go round for ever: `fuel` bounds the
-- clusters of one directory, and `none` is a loop that is still running then.
use peanut_kernel.Common.{
  ℕ, zero, suc, ◌+◌, ◌-◌, ◌*◌, ◌/◌, Bool, true, false, not, ◌||◌, ◌&&◌, Option, none, some, List,
  [], ◌∷◌, ◌++◌, ◌==◌, ltb, leb, if◌then◌else◌, length, replicate, drop, u32, streq_ci, split_path,
  find_entry,
}
use peanut_kernel.Block.{block_sector_size, block_read}
use peanut_kernel.Fat32.Volume.{Fat32Volume, is_fat32}
use peanut_kernel.Fat32.Cluster.{in_chain, read_cluster, next_cluster}
use peanut_kernel.Fat32.Entry.{
  Fat32DirEntry, fat32_max_name, is_directory, is_long_name, end_of_directory, skipped, entry,
  parse_entry, clear_lfn, parse_lfn_entry, with_long_name, lfn_after,
}

abbrev pub empty_lfn : List ℕ
empty_lfn = replicate fat32_max_name 0

-- What one buffer of records gave: the entries, and whether the directory ended in it; if not, the
-- long-name buffer goes on.
pub data Scan : Type 0 where
  ended : List Fat32DirEntry → Scan
  more : List ℕ → List Fat32DirEntry → Scan

abbrev pub add_entry : Fat32DirEntry → Scan → Scan
add_entry e (ended es) = ended (e ∷ es)
add_entry e (more lfn es) = more lfn (e ∷ es)

-- The loop over the records of a buffer from `off` on, `left` of them, with room for `room` entries.
unfoldable pub scan_records : List ℕ → ℕ → ℕ → ℕ → List ℕ → Scan
unfolding parse_lfn_entry parse_entry clear_lfn with_long_name lfn_after
scan_records buffer zero off room lfn = more lfn []
scan_records buffer (suc left) off zero lfn = more lfn []
scan_records buffer (suc left) off (suc room) lfn =
    let raw = drop off buffer in
    elim (is_long_name raw) [
      | true ↦
          scan_records buffer left (off + 32) (suc room) (parse_lfn_entry raw lfn fat32_max_name)
      | false ↦ elim (parse_entry raw) [
        | end_of_directory ↦ ended []
        | skipped ↦ scan_records buffer left (off + 32) (suc room) (clear_lfn lfn)
        | entry e ↦
            add_entry (with_long_name lfn e)
              (scan_records buffer left (off + 32) room (lfn_after lfn))
      ]
    ]

abbrev pub records_per_sector : ℕ
records_per_sector = block_sector_size / 32

-- `streq_ci(entry.name, name)`
abbrev pub named : List ℕ → Fat32DirEntry → Bool
named name e = streq_ci e.name name

abbrev pub max_entries : ℕ
max_entries = 64

-- A component that fills `component[FAT32_MAX_NAME]` ends the walk.
abbrev pub too_long : List ℕ → Bool
too_long component = leb fat32_max_name (length component)

module _ {D : Type 0} where
  -- The fixed root directory of FAT12 and FAT16 from sector `s` on, `left` sectors.
  unfoldable pub list_fixed_root : Fat32Volume D → D → ℕ → ℕ → ℕ → List ℕ → List Fat32DirEntry
  unfolding block_read scan_records
  list_fixed_root v d zero s room lfn = []
  list_fixed_root v d (suc left) s zero lfn = []
  list_fixed_root v d (suc left) s (suc room) lfn =
      elim (block_read v.partition.disk d (u32 (v.root_dir_lba + s)) 1) [
        | none ↦ []
        | some sector ↦ elim (scan_records sector records_per_sector 0 (suc room) lfn) [
          | ended es ↦ es
          | more lfn' es ↦ es ++ list_fixed_root v d left (s + 1) (suc room - length es) lfn'
        ]
      ]

  -- The loop over a cluster chain, in `fat32_list_root` and `list_cluster_entries` alike.
  unfoldable pub list_chain : Fat32Volume D → D → ℕ → ℕ → ℕ → Option (List Fat32DirEntry)
  unfolding read_cluster scan_records next_cluster
  list_chain v d zero cluster room = none
  list_chain v d (suc fuel) cluster room = elim (in_chain cluster && not (room == 0)) [
    | false ↦ some []
    | true ↦ elim (read_cluster v d cluster) [
      | none ↦ some []
      | some buffer ↦
          elim (scan_records buffer (v.sectors_per_cluster * records_per_sector) 0 room empty_lfn) [
            | ended es ↦ some es
            | more lfn es ↦
                elim (list_chain v d fuel (next_cluster v d cluster) (room - length es)) [
                  | none ↦ none
                  | some rest ↦ some (es ++ rest)
                ]
          ]
    ]
  ]

  unfoldable pub fat32_list_root : ℕ → Fat32Volume D → D → ℕ → Option (List Fat32DirEntry)
  unfolding list_fixed_root list_chain
  fat32_list_root fuel v d max =
      if max == 0 || ltb 8 v.sectors_per_cluster
      then some []
      else if is_fat32 v.fat_type
      then list_chain v d fuel v.root_cluster max
      else some (list_fixed_root v d v.root_dir_sectors 0 max empty_lfn)

  unfoldable pub list_cluster_entries : ℕ → Fat32Volume D → D → ℕ → ℕ → Option (List Fat32DirEntry)
  unfolding list_chain
  list_cluster_entries fuel v d cluster max =
      if ltb 8 v.sectors_per_cluster then some [] else list_chain v d fuel cluster max

  -- The outer option is the fuel's; the inner `none` is -1.
  unfoldable pub fat32_find_dir_in_root :
      ℕ → Fat32Volume D → D → List ℕ → Option (Option Fat32DirEntry)
  unfolding fat32_list_root find_entry streq_ci
  fat32_find_dir_in_root fuel v d dirname = elim (fat32_list_root fuel v d max_entries) [
    | none ↦ none
    | some es ↦ some (find_entry (λ e. is_directory e && named dirname e) es)
  ]

  unfoldable pub find_in_root : ℕ → Fat32Volume D → D → List ℕ → Option (Option Fat32DirEntry)
  unfolding fat32_list_root find_entry streq_ci
  find_in_root fuel v d name = elim (fat32_list_root fuel v d max_entries) [
    | none ↦ none
    | some es ↦ some (find_entry (named name) es)
  ]

  unfoldable pub fat32_find_in_dir :
      ℕ → Fat32Volume D → D → ℕ → List ℕ → Option (Option Fat32DirEntry)
  unfolding list_cluster_entries find_entry streq_ci
  fat32_find_in_dir fuel v d dir_cluster name =
      elim (list_cluster_entries fuel v d dir_cluster max_entries) [
        | none ↦ none
        | some es ↦ some (find_entry (named name) es)
      ]

  -- The walk below a directory that was entered, at its first cluster.
  unfoldable pub walk_dir :
      ℕ → Fat32Volume D → D → Fat32DirEntry → List (List ℕ) → Option (Option Fat32DirEntry)
  unfolding fat32_find_in_dir
  walk_dir fuel v d current [] = some (some current)
  walk_dir fuel v d current (component ∷ components) =
      elim (not (is_directory current) || too_long component) [
        | true ↦ some none
        | false ↦ elim (fat32_find_in_dir fuel v d current.first_cluster component) [
          | none ↦ none
          | some found ↦ elim found [
            | none ↦ some none
            | some next ↦ walk_dir fuel v d next components
          ]
        ]
      ]

  unfoldable pub find_components :
      ℕ → Fat32Volume D → D → List (List ℕ) → Option (Option Fat32DirEntry)
  unfolding find_in_root walk_dir
  find_components fuel v d [] = some none
  find_components fuel v d (component ∷ components) = elim (too_long component) [
    | true ↦ some none
    | false ↦ elim (find_in_root fuel v d component) [
      | none ↦ none
      | some found ↦ elim found [
        | none ↦ some none
        | some current ↦ walk_dir fuel v d current components
      ]
    ]
  ]

  unfoldable pub fat32_find_root : ℕ → Fat32Volume D → D → List ℕ → Option (Option Fat32DirEntry)
  unfolding find_components split_path
  fat32_find_root fuel v d path = find_components fuel v d (split_path path)
