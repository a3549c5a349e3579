-- ===== src/Pseudo/Ps2.antt =====
-- src/drivers/input/ps2.c: polling the keyboard and the mouse. `ps2_init` and `ps2_get_char`, which
-- wait for the controller, are not modelled.
use peanut_kernel.Common.{
  ℕ, ◌+◌, bit_and, Bool, true, false, not, ◌&&◌, Option, none, some, List, [], ◌∷◌, ◌==◌, ltb,
  if◌then◌else◌, byte_at, set,
}
use peanut_kernel.Pseudo.{Hardware, Kernel}
use peanut_kernel.Pseudo.Entropy.{with_hardware}

abbrev pub scancode_map : List ℕ
scancode_map =
    0 ∷ 0 ∷ b'1' ∷ b'2' ∷ b'3' ∷ b'4' ∷ b'5' ∷ b'6' ∷ b'7' ∷ b'8' ∷ b'9' ∷ b'0' ∷ b'-' ∷ b'=' ∷ 0
    ∷ 0 ∷ b'q' ∷ b'w' ∷ b'e' ∷ b'r' ∷ b't' ∷ b'y' ∷ b'u' ∷ b'i' ∷ b'o' ∷ b'p' ∷ b'[' ∷ b']' ∷ 0x0A
    ∷ 0 ∷ b'a' ∷ b's' ∷ b'd' ∷ b'f' ∷ b'g' ∷ b'h' ∷ b'j' ∷ b'k' ∷ b'l' ∷ b';' ∷ 0x27 ∷ b'`' ∷ 0
    ∷ 0x5C ∷ b'z' ∷ b'x' ∷ b'c' ∷ b'v' ∷ b'b' ∷ b'n' ∷ b'm' ∷ b',' ∷ b'.' ∷ b'/' ∷ 0 ∷ b'*' ∷ 0
    ∷ b' ' ∷ []

-- 0 for a key that is released or has no character.
unfoldable pub scancode_to_char : ℕ → ℕ
scancode_to_char scancode =
    if not (bit_and scancode 0x80 == 0) then 0 else byte_at scancode_map scancode

module _ {H : Type 0} where
  abbrev pub inb : Hardware H → ℕ → Kernel H → ℕ × Kernel H
  inb hw port k = let r = hw.inb port k.hardware in (r.0, with_hardware k r.1)

  -- `ps2_data_ready()` and then `ps2_output_is_mouse()`, which is not asked without data: `some`
  -- with the answer of the second.
  unfoldable pub ready_for : Hardware H → Kernel H → Option Bool × Kernel H
  ready_for hw k =
      let ready = inb hw 0x64 k in
      let from = inb hw 0x64 ready.1 in
      elim (bit_and ready.0 1 == 0) [
        | true ↦ (none, ready.1)
        | false ↦ (some (not (bit_and from.0 0x20 == 0)), from.1)
      ]

  unfoldable pub ps2_poll_char : Hardware H → Kernel H → Option ℕ × Kernel H
  unfolding ready_for scancode_to_char
  ps2_poll_char hw k =
      let source = ready_for hw k in
      elim source.0 [
        | none ↦ (none, source.1)
        | some mouse ↦ elim mouse [
          | true ↦ (none, source.1)
          | false ↦
              let scancode = inb hw 0x60 source.1 in
              let c = scancode_to_char scancode.0 in (if c == 0 then none else some c, scancode.1)
        ]
      ]

  -- `bytes[pos++] = b; if (pos < 3) return 0; …`
  unfoldable pub add_byte : ℕ → Kernel H → Option (List ℕ) × Kernel H
  add_byte b k =
      let bytes = set k.mouse_bytes k.mouse_pos b in
      if ltb (k.mouse_pos + 1) 3
      then (none, record k { mouse_bytes = bytes; mouse_pos = k.mouse_pos + 1 })
      else (
        some (byte_at bytes 0 ∷ byte_at bytes 1 ∷ byte_at bytes 2 ∷ []),
        record k { mouse_bytes = bytes; mouse_pos = 0 },
      )

  -- A packet begins with a byte that has bit 3; others are dropped.
  unfoldable pub mouse_byte : ℕ → Kernel H → Option (List ℕ) × Kernel H
  unfolding add_byte
  mouse_byte b k = if k.mouse_pos == 0 && bit_and b 0x08 == 0 then (none, k) else add_byte b k

  unfoldable pub ps2_poll_mouse_packet : Hardware H → Kernel H → Option (List ℕ) × Kernel H
  unfolding ready_for mouse_byte
  ps2_poll_mouse_packet hw k =
      let source = ready_for hw k in
      elim source.0 [
        | none ↦ (none, source.1)
        | some mouse ↦ elim mouse [
          | false ↦ (none, source.1)
          | true ↦ let b = inb hw 0x60 source.1 in mouse_byte b.0 b.1
        ]
      ]
