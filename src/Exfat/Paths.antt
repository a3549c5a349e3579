-- ===== src/Exfat/Paths.antt =====
-- Where `exfat_find_root` of src/fs/exfat.c arrives.
use peanut_kernel.Common.{
  ℕ, ◌≡◌, ap, subst, ◌∙◌, ◌↔◌, true, false, some, List, [], ◌∷◌, Bool-cases, Option-cases, inl, inr,
  some_eq, none-ne-some, split_path, FirstMatch, find_entry-FirstMatch, FirstMatch-find_entry,
}
use peanut_kernel.Exfat.Volume.{ExfatVolume}
use peanut_kernel.Exfat.Entry.{ExfatDirEntry, is_directory}
use peanut_kernel.Exfat.Directory.{
  named, max_entries, too_long, list_cluster, find_in_cluster_chain, walk, exfat_find_root,
}

module _ {D : Type 0} (fuel : ℕ) (v : ExfatVolume D) (d : D) where
  -- The first entry with a name in the directory at a cluster, up to upper and lower case.
  pub record IsIn (dir_cluster : ℕ) (component : List ℕ) (e : ExfatDirEntry) : Type 0 where
    pub fits : too_long component ≡ false
    pub entries : List ExfatDirEntry
    pub listed : list_cluster fuel v d dir_cluster 64 ≡ some entries
    pub first : FirstMatch (named component) entries e

  -- From the directory at a cluster along the components, each but the last a directory.
  pub data LeadsTo : ℕ → List (List ℕ) → ExfatDirEntry → Type 0 where
    arrives :
        {dir_cluster : ℕ} {component : List ℕ} {e : ExfatDirEntry}
        → IsIn dir_cluster component e
        → LeadsTo dir_cluster (component ∷ []) e
    enters :
        {dir_cluster : ℕ} {component next : List ℕ} {components : List (List ℕ)}
        {current e : ExfatDirEntry}
        → IsIn dir_cluster component current
        → is_directory current ≡ true
        → LeadsTo current.first_cluster (next ∷ components) e
        → LeadsTo dir_cluster (component ∷ next ∷ components) e

  found-IsIn :
      (dir_cluster : ℕ) (component : List ℕ) (e : ExfatDirEntry)
      → too_long component ≡ false
      → find_in_cluster_chain fuel v d dir_cluster component ≡ some (some e)
      → IsIn dir_cluster component e
  unfolding find_in_cluster_chain
  found-IsIn dir_cluster component e fits h =
      elim (Option-cases (list_cluster fuel v d dir_cluster max_entries)) [
        | inl out ↦ absurd (none-ne-some (rw (out, find_in_cluster_chain) at h))
        | inr (es, l) ↦ record {
          fits = fits;
          entries = es;
          listed = l;
          first =
              find_entry-FirstMatch (named component) es e
                (some_eq (rw (l, find_in_cluster_chain) at h));
        }
      ]

  finds :
      (dir_cluster : ℕ) (component : List ℕ) (e : ExfatDirEntry)
      → IsIn dir_cluster component e
      → find_in_cluster_chain fuel v d dir_cluster component ≡ some (some e)
  unfolding find_in_cluster_chain
  finds dir_cluster component e i =
      rw (
        i.listed,
        FirstMatch-find_entry (named component) i.entries e i.first,
        find_in_cluster_chain,
      )

  -- The first component of a successful walk, and the entry it leads to.
  step :
      (dir_cluster : ℕ) (component : List ℕ) (components : List (List ℕ)) (e : ExfatDirEntry)
      → walk fuel v d dir_cluster (component ∷ components) ≡ some (some e)
      → (current : ExfatDirEntry) × IsIn dir_cluster component current
        × (find_in_cluster_chain fuel v d dir_cluster component ≡ some (some current))
  unfolding walk
  step dir_cluster c cs e h = elim (Bool-cases (too_long c)) [
    | inl stop ↦ absurd (none-ne-some (some_eq (rw (stop, walk) at h)))
    | inr go ↦ elim (Option-cases (find_in_cluster_chain fuel v d dir_cluster c)) [
      | inl out ↦ absurd (none-ne-some (rw (go, out, walk) at h))
      | inr (found, f) ↦ elim (Option-cases found) [
        | inl missing ↦ absurd (none-ne-some (some_eq (rw (go, f, missing, walk) at h)))
        | inr (current, n) ↦
            let there = f ∙ ap some n in (current, found-IsIn dir_cluster c current go there, there)
      ]
    ]
  ]

  walk-LeadsTo :
      (dir_cluster : ℕ) (components : List (List ℕ)) (e : ExfatDirEntry)
      → walk fuel v d dir_cluster components ≡ some (some e)
      → LeadsTo dir_cluster components e
  unfolding walk
  walk-LeadsTo dir_cluster [] e h = absurd (none-ne-some (some_eq h))
  walk-LeadsTo dir_cluster (c ∷ []) e h =
      let (current, i, f) = step dir_cluster c [] e h in
      arrives (subst (IsIn dir_cluster c) (some_eq (some_eq (rw (i.fits, f, walk) at h))) i)
  walk-LeadsTo dir_cluster (c ∷ n ∷ cs) e h =
      let (current, i, f) = step dir_cluster c (n ∷ cs) e h in
      elim (Bool-cases (is_directory current)) [
        | inr file ↦ absurd (none-ne-some (some_eq (rw (i.fits, f, file, walk) at h)))
        | inl dir ↦
            enters i dir
              (walk-LeadsTo current.first_cluster (n ∷ cs) e (rw (i.fits, f, dir, walk) at h))
      ]

  LeadsTo-walk :
      (dir_cluster : ℕ) (components : List (List ℕ)) (e : ExfatDirEntry)
      → LeadsTo dir_cluster components e
      → walk fuel v d dir_cluster components ≡ some (some e)
  unfolding walk
  LeadsTo-walk dir_cluster [] e h = elim h [ ]
  LeadsTo-walk dir_cluster (c ∷ []) e (arrives i) = rw (i.fits, finds dir_cluster c e i, walk)
  LeadsTo-walk dir_cluster (c ∷ n ∷ cs) e (enters {current = current} i dir h) =
      rw (i.fits, finds dir_cluster c current i, dir, walk)
        (LeadsTo-walk current.first_cluster (n ∷ cs) e h)

  -- `exfat_find_root` finds an entry exactly where the path leads to it through the listings of at most
  -- 64 entries: each component is shorter than `EXFAT_MAX_NAME` and the name of the first such entry that
  -- `list_cluster`, with room for 64, gives of the directory before it, and all but the last are
  -- directories. An entry behind the 64th is not found.
  pub exfat_find_root_iff :
      (path : List ℕ) (e : ExfatDirEntry)
      → (exfat_find_root fuel v d path ≡ some (some e)) ↔ LeadsTo v.root_cluster (split_path path) e
  unfolding exfat_find_root
  exfat_find_root_iff path e = (
    walk-LeadsTo v.root_cluster (split_path path) e,
    LeadsTo-walk v.root_cluster (split_path path) e,
  )
