-- ===== src/Fat32/Paths.antt =====
-- Where `fat32_find_root` of src/fs/fat32.c arrives: a path is walked one component at a time, through
-- directories, to the first entry of each with that name.
use peanut_kernel.Common.{ℕ, ◌≡◌, true, false, some, List, [], ◌∷◌, split_path, FirstMatch}
use peanut_kernel.Fat32.Volume.{Fat32Volume}
use peanut_kernel.Fat32.Entry.{Fat32DirEntry, is_directory}
use peanut_kernel.Fat32.Directory.{named, too_long, fat32_list_root, list_cluster_entries}

-- The first entry of a listing that has a name, up to upper and lower case.
abbrev pub IsNamed : List ℕ → List Fat32DirEntry → Fat32DirEntry → Type 0
IsNamed name = FirstMatch (named name)

module _ {D : Type 0} (fuel : ℕ) (v : Fat32Volume D) (d : D) where
  -- From an entry along the components that are left.
  pub data WalksTo : Fat32DirEntry → List (List ℕ) → Fat32DirEntry → Type 0 where
    arrived : {e : Fat32DirEntry} → WalksTo e [] e
    enters :
        {current next e : Fat32DirEntry} {component : List ℕ} {components : List (List ℕ)}
        {es : List Fat32DirEntry}
        → is_directory current ≡ true
        → too_long component ≡ false
        → list_cluster_entries fuel v d current.first_cluster 64 ≡ some es
        → IsNamed component es next
        → WalksTo next components e
        → WalksTo current (component ∷ components) e

  -- A path from the root directory to an entry.
  pub record IsPathTo (path : List ℕ) (e : Fat32DirEntry) : Type 0 where
    pub component : List ℕ
    pub components : List (List ℕ)
    pub fits : too_long component ≡ false
    pub split : split_path path ≡ component ∷ components
    pub root : List Fat32DirEntry
    pub listed : fat32_list_root fuel v d 64 ≡ some root
    pub first : Fat32DirEntry
    pub first_named : IsNamed component root first
    pub walks : WalksTo first components e
