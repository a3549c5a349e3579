-- ===== src/Pseudo/Paths.antt =====
-- Which paths src/fs/vfs.c can read, and which it takes for pseudo paths.
use peanut_kernel.Common.{
  ℕ, ◌≡◌, refl, Bool, true, false, ◌&&◌, Option, none, some, List, [], ◌∷◌, ◌++◌, ◌==◌, arith,
  if◌then◌else◌, drop, byte_at, Bool-cases, inl, inr, none-ne-some,
}
use peanut_kernel.Pseudo.{Hardware, Kernel}
use peanut_kernel.Pseudo.Names.{
  path_dev, path_proc, path_sys, path_etc, path_version, path_name, path_hdmi, path_passwd,
  path_fstab,
}
use peanut_kernel.Pseudo.Devtmpfs.{path_has_prefix, devtmpfs_is_path}
use peanut_kernel.Pseudo.Vfs.{vfs_is_pseudo_path, pseudo_text, read_text, vfs_pseudo_pread}

-- A path below a directory is below that directory's parents.
path_has_prefix-shorter :
    (path p q : List ℕ)
    → path_has_prefix path (p ++ (b'/' ∷ q)) ≡ true
    → path_has_prefix path p ≡ true
unfolding path_has_prefix
path_has_prefix-shorter [] [] q h = refl
path_has_prefix-shorter (c ∷ cs) [] q h = ground arith
path_has_prefix-shorter [] (x ∷ p) q h = h
path_has_prefix-shorter (c ∷ cs) (x ∷ p) q h = ground (arith, path_has_prefix-shorter cs p q)

first_character :
    (path p : List ℕ) → path_has_prefix path (b'/' ∷ p) ≡ true → (byte_at path 0 == b'/') ≡ true
unfolding path_has_prefix
first_character [] p h = absurd (ground arith)
first_character (c ∷ cs) p h = ground arith

module _ (path : List ℕ) where
  in_proc : path_has_prefix path path_proc ≡ true → vfs_is_pseudo_path path ≡ true
  unfolding vfs_is_pseudo_path
  in_proc h = ground (arith, first_character path (drop 1 path_proc) h)

  in_sys : path_has_prefix path path_sys ≡ true → vfs_is_pseudo_path path ≡ true
  unfolding vfs_is_pseudo_path
  in_sys h = ground (arith, first_character path (drop 1 path_sys) h)

  in_dev : path_has_prefix path path_dev ≡ true → vfs_is_pseudo_path path ≡ true
  unfolding vfs_is_pseudo_path
  in_dev h = ground (arith, first_character path (drop 1 path_dev) h)

  in_etc : path_has_prefix path path_etc ≡ true → vfs_is_pseudo_path path ≡ true
  unfolding vfs_is_pseudo_path
  in_etc h = ground (arith, first_character path (drop 1 path_etc) h)

  -- A text is only there for a pseudo path.
  abbrev OnlyPseudo : Option (List ℕ) → Type 0
  OnlyPseudo o = (s : List ℕ) → o ≡ some s → vfs_is_pseudo_path path ≡ true

  below :
      (c : Bool) (s : List ℕ) (o : Option (List ℕ))
      → (c ≡ true → vfs_is_pseudo_path path ≡ true)
      → OnlyPseudo o
      → OnlyPseudo (if c then some s else o)
  below true s o f rest s' e = f refl
  below false s o f rest s' e = rest s' e

  module _ {H : Type 0} (k : Kernel H) where
    pseudo_text-OnlyPseudo : OnlyPseudo (pseudo_text k path)
    unfolding pseudo_text
    pseudo_text-OnlyPseudo =
        below (path_has_prefix path path_version) _ _
          (λ h. in_proc (path_has_prefix-shorter path path_proc (drop 6 path_version) h))
          (below (path_has_prefix path path_name) _ _
            (λ h. in_sys (path_has_prefix-shorter path path_sys (drop 5 path_name) h))
            (below (path_has_prefix path path_hdmi) _ _
              (λ h. in_sys (path_has_prefix-shorter path path_sys (drop 5 path_hdmi) h))
              (below (path_has_prefix path path_passwd) _ _
                (λ h. in_etc (path_has_prefix-shorter path path_etc (drop 5 path_passwd) h))
                (below (path_has_prefix path path_fstab) _ _
                  (λ h. in_etc (path_has_prefix-shorter path path_etc (drop 5 path_fstab) h))
                  (λ s e. absurd (none-ne-some e))))))

    read_text-OnlyPseudo :
        (o : Option (List ℕ)) (off : ℕ) (buf : List ℕ) (len : ℕ) (result : List ℕ × ℕ)
        → OnlyPseudo o
        → read_text o off buf len ≡ some result
        → vfs_is_pseudo_path path ≡ true
    unfolding read_text
    read_text-OnlyPseudo none off buf len result f e = absurd (none-ne-some e)
    read_text-OnlyPseudo (some s) off buf len result f e = f s refl

    -- Whatever `vfs_pseudo_pread` can read, `vfs_is_pseudo_path` takes for a pseudo path.
    vfs_pseudo_pread-is_pseudo_path :
        (hw : Hardware H) (off : ℕ) (buf : List ℕ) (len : ℕ) (result : List ℕ × ℕ)
        → (vfs_pseudo_pread hw path off buf len k).0 ≡ some result
        → vfs_is_pseudo_path path ≡ true
    unfolding vfs_pseudo_pread
    vfs_pseudo_pread-is_pseudo_path hw off buf len result h =
        elim (Bool-cases (k.dev_mounted && devtmpfs_is_path k path)) [
          | inl e ↦ in_dev (unfold devtmpfs_is_path in ground arith)
          | inr e ↦
              read_text-OnlyPseudo (pseudo_text k path) off buf len result pseudo_text-OnlyPseudo
                (rw (e, vfs_pseudo_pread) at h)
        ]
