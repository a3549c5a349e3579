-- ===== src/Pseudo/Devtmpfs.antt =====
-- src/fs/devtmpfs.c: the files under /dev. A path is a C string; `none` is -1, and else the result is
-- the buffer and `*out`.
use peanut_kernel.Common.{
  ℕ, zero, suc, ◌+◌, ◌-◌, ◌*◌, ◌/◌, ◌^◌, bit_or, bit_xor, Bool, true, false, not, ◌&&◌, Option,
  none, some, List, [], ◌∷◌, ◌==◌, if◌then◌else◌, length, leb, set, byte_at, copy, streq,
}
use peanut_kernel.Pseudo.{Hardware, Kernel}
use peanut_kernel.Pseudo.Entropy.{entropy_mix, entropy_random_byte, entropy_urandom_byte}
use peanut_kernel.Pseudo.Ps2.{ps2_poll_char, ps2_poll_mouse_packet}
use peanut_kernel.Pseudo.Names.{
  path_dev, path_zero, path_random, path_urandom, path_kbd, path_mouse, path_dev_fstab, text_dev,
  text_fstab,
}

-- The loop that `prefix` and `path_has_prefix` run: the prefix ends where the path ends or a '/'
-- stands in it.
unfoldable pub path_has_prefix : List ℕ → List ℕ → Bool
path_has_prefix [] [] = true
path_has_prefix (c ∷ cs) [] = c == b'/'
path_has_prefix [] (p ∷ ps) = false
path_has_prefix (c ∷ cs) (p ∷ ps) = c == p && path_has_prefix cs ps

-- `take > len ? len : take`
unfoldable pub take_count : List ℕ → ℕ → ℕ → ℕ
take_count s off len = let room = length s - off in if leb room len then room else len

unfoldable pub copy_text : List ℕ → ℕ → List ℕ → ℕ → List ℕ × ℕ
unfolding take_count copy
copy_text s off buf len =
    if leb (length s) off
    then (buf, 0)
    else (copy buf 0 s off (take_count s off len), take_count s off len)

-- `for (; i < len; i++) buf[i] = 0;`, `left` rounds of it.
unfoldable pub zero_loop : ℕ → ℕ → List ℕ → List ℕ
zero_loop zero i buf = buf
zero_loop (suc left) i buf = zero_loop left (i + 1) (set buf i 0)

module _ {H : Type 0} where
  unfoldable pub devtmpfs_mount : Kernel H → Kernel H
  devtmpfs_mount k = record k { mounted = true }

  unfoldable pub devtmpfs_is_path : Kernel H → List ℕ → Bool
  unfolding path_has_prefix
  devtmpfs_is_path k path = k.mounted && path_has_prefix path path_dev

  -- The loop of /dev/random and /dev/urandom, `left` rounds of it.
  unfoldable pub random_loop :
      (Kernel H → ℕ × Kernel H) → ℕ → ℕ → List ℕ → Kernel H → List ℕ × Kernel H
  random_loop byte zero i buf k = (buf, k)
  random_loop byte (suc left) i buf k =
      let r = byte k in random_loop byte left (i + 1) (set buf i r.0) r.1

  -- The loop of /dev/kbd, with room for `left` characters.
  unfoldable pub kbd_loop : Hardware H → ℕ → ℕ → List ℕ → Kernel H → (List ℕ × ℕ) × Kernel H
  unfolding ps2_poll_char entropy_mix
  kbd_loop hw zero got buf k = ((buf, got), k)
  kbd_loop hw (suc left) got buf k =
      let r = ps2_poll_char hw k in
      elim r.0 [
        | none ↦ ((buf, got), r.1)
        | some c ↦
            kbd_loop hw left (got + 1) (set buf got c)
              (entropy_mix (bit_xor (c * 2 ^ 32) (got + 1)) r.1)
      ]

  -- The loop of /dev/mouse, with room for `left` packets.
  unfoldable pub mouse_loop : Hardware H → ℕ → ℕ → List ℕ → Kernel H → (List ℕ × ℕ) × Kernel H
  unfolding ps2_poll_mouse_packet entropy_mix
  mouse_loop hw zero got buf k = ((buf, got), k)
  mouse_loop hw (suc left) got buf k =
      let r = ps2_poll_mouse_packet hw k in
      elim r.0 [
        | none ↦ ((buf, got), r.1)
        | some packet ↦
            mouse_loop hw left (got + 3)
              (set (set (set buf got (byte_at packet 0)) (got + 1) (byte_at packet 1)) (got + 2)
                (byte_at packet 2))
              (entropy_mix
                (bit_or (bit_or (byte_at packet 0 * 2 ^ 16) (byte_at packet 1 * 2 ^ 8))
                  (byte_at packet 2))
                r.1)
      ]

  unfoldable pub random_file :
      (Kernel H → ℕ × Kernel H) → List ℕ → ℕ → Kernel H → (List ℕ × ℕ) × Kernel H
  unfolding random_loop
  random_file byte buf len k = let r = random_loop byte len 0 buf k in ((r.0, len), r.1)

  abbrev pub success : (List ℕ × ℕ) × Kernel H → Option (List ℕ × ℕ) × Kernel H
  success r = (some r.0, r.1)

  unfoldable pub devtmpfs_pread :
      Hardware H → List ℕ → ℕ → List ℕ → ℕ → Kernel H → Option (List ℕ × ℕ) × Kernel H
  unfolding streq copy_text zero_loop random_file entropy_random_byte entropy_urandom_byte kbd_loop
      mouse_loop
  devtmpfs_pread hw path off buf len k =
      if not k.mounted
      then (none, k)
      else if streq path path_dev
      then success (copy_text text_dev off buf len, k)
      else if streq path path_zero
      then success ((zero_loop len 0 buf, len), k)
      else if streq path path_random
      then success (random_file (entropy_random_byte hw) buf len k)
      else if streq path path_urandom
      then success (random_file (entropy_urandom_byte hw) buf len k)
      else if streq path path_kbd
      then success (kbd_loop hw len 0 buf k)
      else if streq path path_mouse
      then success (mouse_loop hw (len / 3) 0 buf k)
      else if streq path path_dev_fstab
      then success (copy_text text_fstab off buf len, k)
      else (none, k)
