-- ===== src/Pseudo/Vfs.antt =====
-- src/fs/vfs.c and src/users.c: the pseudo paths and their files.
use peanut_kernel.Common.{
  ℕ, Bool, true, false, ◌||◌, ◌&&◌, Option, none, some, List, ◌==◌, ltb, if◌then◌else◌, byte_at,
  replicate,
}
use peanut_kernel.Pseudo.{Hardware, Kernel}
use peanut_kernel.Pseudo.Entropy.{entropy_init}
use peanut_kernel.Pseudo.Names.{
  path_dev, path_proc, path_sys, path_etc, path_version, path_name, path_hdmi, path_passwd,
  path_fstab, text_version, text_name, text_passwd, text_fstab,
}
use peanut_kernel.Pseudo.Devtmpfs.{
  path_has_prefix, copy_text, devtmpfs_mount, devtmpfs_is_path, devtmpfs_pread,
}

unfoldable pub vfs_is_pseudo_path : List ℕ → Bool
unfolding path_has_prefix
vfs_is_pseudo_path path =
    byte_at path 0 == b'/'
    && (path_has_prefix path path_proc
        || (path_has_prefix path path_sys
            || (path_has_prefix path path_dev || path_has_prefix path path_etc)))

unfoldable pub read_text : Option (List ℕ) → ℕ → List ℕ → ℕ → Option (List ℕ × ℕ)
unfolding copy_text
read_text none off buf len = none
read_text (some s) off buf len = some (copy_text s off buf len)

module _ {H : Type 0} where
  unfoldable pub vfs_init : Hardware H → Kernel H → Kernel H
  unfolding entropy_init
  vfs_init hw k = entropy_init hw k

  unfoldable pub vfs_mount_devtmpfs : Kernel H → Kernel H
  unfolding devtmpfs_mount
  vfs_mount_devtmpfs k = record (devtmpfs_mount k) { dev_mounted = true }

  -- The texts, `pseudo_copy` of which is read; `none` for no such file.
  unfoldable pub pseudo_text : Kernel H → List ℕ → Option (List ℕ)
  unfolding path_has_prefix
  pseudo_text k path =
      if path_has_prefix path path_version
      then some text_version
      else if path_has_prefix path path_name
      then some text_name
      else if path_has_prefix path path_hdmi
      then some k.hdmi_status
      else if path_has_prefix path path_passwd
      then some text_passwd
      else if path_has_prefix path path_fstab
      then some text_fstab
      else none

  unfoldable pub vfs_pseudo_pread :
      Hardware H → List ℕ → ℕ → List ℕ → ℕ → Kernel H → Option (List ℕ × ℕ) × Kernel H
  unfolding devtmpfs_is_path devtmpfs_pread pseudo_text read_text
  vfs_pseudo_pread hw path off buf len k =
      if k.dev_mounted && devtmpfs_is_path k path
      then devtmpfs_pread hw path off buf len k
      else (read_text (pseudo_text k path) off buf len, k)

  unfoldable pub vfs_pseudo_read :
      Hardware H → List ℕ → List ℕ → ℕ → Kernel H → Option (List ℕ × ℕ) × Kernel H
  unfolding vfs_pseudo_pread
  vfs_pseudo_read hw path buf len k = vfs_pseudo_pread hw path 0 buf len k

  -- `users_init` of src/users.c, without its message.
  unfoldable pub users_init : Hardware H → Kernel H → Kernel H
  unfolding vfs_pseudo_read
  users_init hw k =
      let r =
        vfs_pseudo_read hw path_passwd (replicate 256 0) 255
          (record k { multi_user_enabled = false }) in
      elim r.0 [
        | none ↦ r.1
        | some got ↦ if ltb 0 got.1 then record r.1 { multi_user_enabled = true } else r.1
      ]

  unfoldable pub users_enabled : Kernel H → Bool
  users_enabled k = k.multi_user_enabled
