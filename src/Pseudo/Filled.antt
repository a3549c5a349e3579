-- ===== src/Pseudo/Filled.antt =====
-- The buffer of a read of src/fs/vfs.c: no pseudo file is given more than it asked for.
use peanut_kernel.Common.{
  ℕ, zero, suc, ◌+◌, ◌*◌, ◌/◌, ◌^◌, ◌≤◌, ◌≡◌, refl, ◌∙◌, subst, bit_or, bit_xor, Bool, true, false,
  not, ◌&&◌, Option, none, some, List, arith, if◌then◌else◌, length, leb, set, byte_at, length-copy,
  get_or-copy_outside, streq, length-set, get_or-set_ne, Bool-cases, Option-cases, inl, inr,
  some_eq, none-ne-some,
}
use peanut_kernel.Pseudo.{Hardware, Kernel}
use peanut_kernel.Pseudo.Entropy.{entropy_mix, entropy_random_byte, entropy_urandom_byte}
use peanut_kernel.Pseudo.Ps2.{ps2_poll_char, ps2_poll_mouse_packet}
use peanut_kernel.Pseudo.Names.{
  path_dev, path_zero, path_random, path_urandom, path_kbd, path_mouse, path_dev_fstab, text_dev,
  text_fstab,
}
use peanut_kernel.Pseudo.Devtmpfs.{
  take_count, copy_text, zero_loop, random_loop, random_file, kbd_loop, mouse_loop,
  devtmpfs_is_path, devtmpfs_pread,
}
use peanut_kernel.Pseudo.Vfs.{pseudo_text, read_text, vfs_pseudo_pread}

-- A loop that began at `i` with room for `n` bytes: where it ended, and what it left alone.
pub record IsFilled (i n : ℕ) (buf : List ℕ) (result : List ℕ × ℕ) : Type 0 where
  pub from : i ≤ result.1
  pub at_most : result.1 ≤ i + n
  pub same_length : length result.0 ≡ length buf
  pub beyond : (j : ℕ) → result.1 ≤ j → byte_at result.0 j ≡ byte_at buf j

stopped : (i n : ℕ) (buf : List ℕ) → IsFilled i n buf (buf, i)
stopped i n buf = record {
  from = omega arith;
  at_most = omega arith;
  same_length = refl;
  beyond = λ j h. refl;
}

-- One byte at `i`, and then the rest.
set-IsFilled :
    (i n : ℕ) (buf : List ℕ) (v : ℕ) (result : List ℕ × ℕ)
    → IsFilled (i + 1) n (set buf i v) result
    → IsFilled i (suc n) buf result
set-IsFilled i n buf v result h = record {
  from = let f = h.from in omega arith;
  at_most = let f = h.at_most in omega arith;
  same_length = h.same_length ∙ length-set buf i v;
  beyond = λ j p. let f = h.from in h.beyond j p ∙ get_or-set_ne buf i j v 0 (omega arith);
}

-- Three bytes at `i`, and then the rest.
packet-IsFilled :
    (i n : ℕ) (buf : List ℕ) (a b c : ℕ) (result : List ℕ × ℕ)
    → IsFilled (i + 3) (n * 3) (set (set (set buf i a) (i + 1) b) (i + 2) c) result
    → IsFilled i (suc n * 3) buf result
packet-IsFilled i n buf a b c result h = record {
  from = let f = h.from in omega arith;
  at_most = let f = h.at_most in omega arith;
  same_length =
      h.same_length
      ∙ length-set (set (set buf i a) (i + 1) b) (i + 2) c
      ∙ length-set (set buf i a) (i + 1) b
      ∙ length-set buf i a;
  beyond = λ j p.
      let f = h.from in
      h.beyond j p
      ∙ get_or-set_ne (set (set buf i a) (i + 1) b) (i + 2) j c 0 (omega arith)
      ∙ get_or-set_ne (set buf i a) (i + 1) j b 0 (omega arith)
      ∙ get_or-set_ne buf i j a 0 (omega arith);
}

copy_text-IsFilled :
    (s : List ℕ) (off : ℕ) (buf : List ℕ) (len : ℕ) → IsFilled 0 len buf (copy_text s off buf len)
unfolding copy_text
copy_text-IsFilled s off buf len = elim (Bool-cases (leb (length s) off)) [
  | inl past ↦ rw (past, copy_text) (stopped 0 len buf)
  | inr inside ↦
      rw (inside, copy_text)
        (record {
          from = omega arith;
          at_most = unfold take_count in ground arith;
          same_length = length-copy buf 0 s off (take_count s off len);
          beyond =
              λ j h. get_or-copy_outside buf 0 s off (take_count s off len) j (inr (omega arith));
        })
]

zero_loop-IsFilled : (n i : ℕ) (buf : List ℕ) → IsFilled i n buf (zero_loop n i buf, i + n)
unfolding zero_loop
zero_loop-IsFilled zero i buf =
    subst (λ m. IsFilled i 0 buf (buf, m)) (omega arith) (stopped i 0 buf)
zero_loop-IsFilled (suc n) i buf = set-IsFilled i n buf 0 _ (
    subst (λ m. IsFilled (i + 1) n (set buf i 0) (zero_loop n (i + 1) (set buf i 0), m))
      (omega arith) (zero_loop-IsFilled n (i + 1) (set buf i 0)))

module _ {H : Type 0} (hw : Hardware H) where
  random_loop-IsFilled :
      (byte : Kernel H → ℕ × Kernel H) (n i : ℕ) (buf : List ℕ) (k : Kernel H)
      → IsFilled i n buf ((random_loop byte n i buf k).0, i + n)
  unfolding random_loop
  random_loop-IsFilled byte zero i buf k =
      subst (λ m. IsFilled i 0 buf (buf, m)) (omega arith) (stopped i 0 buf)
  random_loop-IsFilled byte (suc n) i buf k =
      let buf' = set buf i (byte k).0 in
      set-IsFilled i n buf (byte k).0 _ (
        subst (λ m. IsFilled (i + 1) n buf' ((random_loop byte n (i + 1) buf' (byte k).1).0, m))
          (omega arith) (random_loop-IsFilled byte n (i + 1) buf' (byte k).1))

  kbd_loop-IsFilled :
      (n i : ℕ) (buf : List ℕ) (k : Kernel H) → IsFilled i n buf (kbd_loop hw n i buf k).0
  unfolding kbd_loop
  kbd_loop-IsFilled zero i buf k = stopped i 0 buf
  kbd_loop-IsFilled (suc n) i buf k = elim (Option-cases (ps2_poll_char hw k).0) [
    | inl e ↦ rw (e, kbd_loop) (stopped i (suc n) buf)
    | inr (c, e) ↦
        rw (e, kbd_loop)
          (set-IsFilled i n buf c _ (
            kbd_loop-IsFilled n (i + 1) (set buf i c)
              (entropy_mix (bit_xor (c * 2 ^ 32) (i + 1)) (ps2_poll_char hw k).1)))
  ]

  mouse_loop-IsFilled :
      (n i : ℕ) (buf : List ℕ) (k : Kernel H) → IsFilled i (n * 3) buf (mouse_loop hw n i buf k).0
  unfolding mouse_loop
  mouse_loop-IsFilled zero i buf k = stopped i 0 buf
  mouse_loop-IsFilled (suc n) i buf k = elim (Option-cases (ps2_poll_mouse_packet hw k).0) [
    | inl e ↦ rw (e, mouse_loop) (stopped i (suc n * 3) buf)
    | inr (p, e) ↦
        rw (e, mouse_loop)
          (packet-IsFilled i n buf (byte_at p 0) (byte_at p 1) (byte_at p 2) _ (
            mouse_loop-IsFilled n (i + 3)
              (set (set (set buf i (byte_at p 0)) (i + 1) (byte_at p 1)) (i + 2) (byte_at p 2))
              (entropy_mix
                (bit_or (bit_or (byte_at p 0 * 2 ^ 16) (byte_at p 1 * 2 ^ 8)) (byte_at p 2))
                (ps2_poll_mouse_packet hw k).1)))
  ]

all_read :
    (len : ℕ) (buf bytes : List ℕ)
    → IsFilled 0 len buf (bytes, 0 + len)
    → IsFilled 0 len buf (bytes, len)
all_read len buf bytes h = subst (λ n. IsFilled 0 len buf (bytes, n)) (omega arith) h

module _ {H : Type 0} (len : ℕ) (buf : List ℕ) where
  -- A result of 0 leaves a buffer that is filled from its start.
  record FillsIfRead (r : Option (List ℕ × ℕ) × Kernel H) : Type 0 where
    fills : (result : List ℕ × ℕ) → r.0 ≡ some result → IsFilled 0 len buf result

  failed : (k : Kernel H) → FillsIfRead (none, k)
  failed k = record { fills = λ result e. absurd (none-ne-some e) }

  filled : (r : (List ℕ × ℕ) × Kernel H) → IsFilled 0 len buf r.0 → FillsIfRead (some r.0, r.1)
  filled r h = record { fills = λ result e. subst (IsFilled 0 len buf) (some_eq e) h }

  either :
      (c : Bool) (a b : Option (List ℕ × ℕ) × Kernel H)
      → FillsIfRead a
      → FillsIfRead b
      → FillsIfRead (if c then a else b)
  either true a b p q = p
  either false a b p q = q

  text : (o : Option (List ℕ)) (off : ℕ) (k : Kernel H) → FillsIfRead (read_text o off buf len, k)
  unfolding read_text
  text none off k = failed k
  text (some s) off k = filled (copy_text s off buf len, k) (copy_text-IsFilled s off buf len)

  packets :
      (hw : Hardware H) (k : Kernel H) → IsFilled 0 len buf (mouse_loop hw (len / 3) 0 buf k).0
  packets hw k =
      let h = mouse_loop-IsFilled hw (len / 3) 0 buf k in
      let most = h.at_most in
      record {
        from = h.from;
        at_most = omega arith;
        same_length = h.same_length;
        beyond = h.beyond;
      }

  device :
      (hw : Hardware H) (path : List ℕ) (off : ℕ) (k : Kernel H)
      → FillsIfRead (devtmpfs_pread hw path off buf len k)
  unfolding devtmpfs_pread random_file
  device hw path off k = either (not k.mounted) _ _ (failed k) (
      either (streq path path_dev) _ _
        (filled (copy_text text_dev off buf len, k) (copy_text-IsFilled text_dev off buf len))
        (either (streq path path_zero) _ _
          (filled ((zero_loop len 0 buf, len), k)
            (all_read len buf _ (zero_loop-IsFilled len 0 buf)))
          (either (streq path path_random) _ _
            (filled (random_file (entropy_random_byte hw) buf len k)
              (all_read len buf _ (random_loop-IsFilled hw (entropy_random_byte hw) len 0 buf k)))
            (either (streq path path_urandom) _ _
              (filled (random_file (entropy_urandom_byte hw) buf len k) (
                all_read len buf _ (random_loop-IsFilled hw (entropy_urandom_byte hw) len 0 buf k)))
              (either (streq path path_kbd) _ _
                (filled (kbd_loop hw len 0 buf k) (kbd_loop-IsFilled hw len 0 buf k))
                (either (streq path path_mouse) _ _
                  (filled (mouse_loop hw (len / 3) 0 buf k) (packets hw k))
                  (either (streq path path_dev_fstab) _ _
                    (filled (copy_text text_fstab off buf len, k)
                      (copy_text-IsFilled text_fstab off buf len))
                    (failed k))))))))

  -- Whatever the path, the hardware and the state, a successful `vfs_pseudo_pread` reports at most
  -- `len` bytes, keeps the buffer's length, and changes no byte of it behind those that it reports.
  pub vfs_pseudo_pread-IsFilled :
      (hw : Hardware H) (path : List ℕ) (off : ℕ) (k : Kernel H) (result : List ℕ × ℕ)
      → (vfs_pseudo_pread hw path off buf len k).0 ≡ some result
      → IsFilled 0 len buf result
  unfolding vfs_pseudo_pread
  vfs_pseudo_pread-IsFilled hw path off k result e =
      let r =
        either (k.dev_mounted && devtmpfs_is_path k path) _ _ (device hw path off k)
          (text (pseudo_text k path) off k) in
      r.fills result e
