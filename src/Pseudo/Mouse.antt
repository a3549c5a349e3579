-- ===== src/Pseudo/Mouse.antt =====
-- The mouse packets of src/drivers/input/ps2.c stay in step with the mouse.
use peanut_kernel.Common.{
  ℕ, ◌+◌, ◌<◌, ◌≡◌, ◌≢◌, refl, ap, sym, ◌∙◌, subst, bit_and, ◌&&◌, Option, none, some, List, ◌==◌,
  ltb, arith, length, set, byte_at, get_or-set_self, dec_lt, get_or-set_ne, length-set, Bool-cases,
  Option-cases, inl, inr, some_eq, none-ne-some,
}
use peanut_kernel.Pseudo.{Hardware, Kernel}
use peanut_kernel.Pseudo.Ps2.{inb, ready_for, add_byte, mouse_byte, ps2_poll_mouse_packet}

-- Bit 3 is in every first byte of a packet.
abbrev pub StartsPacket : ℕ → Type 0
StartsPacket b = bit_and b 0x08 ≢ 0

module _ {H : Type 0} where
  -- The buffer of 3 bytes is not full, and what it holds begins like a packet.
  pub record IsInStep (k : Kernel H) : Type 0 where
    pub three : length k.mouse_bytes ≡ 3
    pub below : k.mouse_pos < 3
    pub first : 0 < k.mouse_pos → StartsPacket (byte_at k.mouse_bytes 0)

  -- A poll's result and the state after it.
  pub record IsPolled (r : Option (List ℕ) × Kernel H) : Type 0 where
    pub in_step : IsInStep r.1
    pub packet : (p : List ℕ) → r.0 ≡ some p → (length p ≡ 3) × StartsPacket (byte_at p 0)

  -- The hardware's own state does not matter.
  same_mouse :
      (k k' : Kernel H)
      → IsInStep k
      → k'.mouse_bytes ≡ k.mouse_bytes
      → k'.mouse_pos ≡ k.mouse_pos
      → IsInStep k'
  same_mouse k k' h e f = record {
    three = ap length e ∙ h.three;
    below = let b = h.below in omega arith;
    first = λ p. subst (λ bs. StartsPacket (byte_at bs 0)) (sym e) (h.first (omega arith));
  }

  no_packet : (k : Kernel H) → IsInStep k → IsPolled (none, k)
  no_packet k h = record { in_step = h; packet = λ p q. absurd (none-ne-some q) }

  module _ (b : ℕ) (k : Kernel H) (h : IsInStep k) (start : k.mouse_pos ≡ 0 → StartsPacket b) where
    first_byte : StartsPacket (byte_at (set k.mouse_bytes k.mouse_pos b) 0)
    first_byte = elim (dec_lt 0 k.mouse_pos) [
      | yes p ↦
          subst StartsPacket (sym (get_or-set_ne k.mouse_bytes k.mouse_pos 0 b 0 (omega arith)))
            (h.first p)
      | no n ↦
          let room = h.below in
          let full = h.three in
          let at_start : k.mouse_pos ≡ 0 = omega arith in
          subst (λ i. StartsPacket (byte_at (set k.mouse_bytes k.mouse_pos b) i)) at_start
            (subst StartsPacket (sym (get_or-set_self k.mouse_bytes k.mouse_pos b 0 (omega arith)))
              (start at_start))
    ]

    add_byte-IsPolled : IsPolled (add_byte b k)
    unfolding add_byte
    add_byte-IsPolled = elim (Bool-cases (ltb (k.mouse_pos + 1) 3)) [
      | inl e ↦
          rw (e, add_byte)
            (record {
              in_step = record {
                three = length-set k.mouse_bytes k.mouse_pos b ∙ h.three;
                below = ground arith;
                first = λ p. first_byte;
              };
              packet = λ p q. absurd (none-ne-some q);
            })
      | inr e ↦
          rw (e, add_byte)
            (record {
              in_step = record {
                three = length-set k.mouse_bytes k.mouse_pos b ∙ h.three;
                below = omega arith;
                first = λ p. absurd (omega arith);
              };
              packet = λ p q.
                  subst (λ p'. (length p' ≡ 3) × StartsPacket (byte_at p' 0)) (some_eq q)
                    (refl, first_byte);
            })
    ]

  mouse_byte-IsPolled : (b : ℕ) (k : Kernel H) → IsInStep k → IsPolled (mouse_byte b k)
  unfolding mouse_byte
  mouse_byte-IsPolled b k h = elim (Bool-cases (k.mouse_pos == 0 && bit_and b 0x08 == 0)) [
    | inl e ↦ rw (e, mouse_byte) (no_packet k h)
    | inr e ↦ rw (e, mouse_byte) (add_byte-IsPolled b k h (λ z w. ground arith))
  ]

  ready_for-mouse :
      (hw : Hardware H) (k : Kernel H)
      → ((ready_for hw k).1.mouse_bytes ≡ k.mouse_bytes)
        × ((ready_for hw k).1.mouse_pos ≡ k.mouse_pos)
  unfolding ready_for
  ready_for-mouse hw k = elim (Bool-cases (bit_and (inb hw 0x64 k).0 1 == 0)) [
    | inl e ↦ rw (e, ready_for) (refl, refl)
    | inr e ↦ rw (e, ready_for) (refl, refl)
  ]

  -- From a state in step, whatever the controller gives, a poll leaves a state in step; and a packet
  -- that it returns has 3 bytes, the first of which has bit 3.
  pub ps2_poll_mouse_packet-IsPolled :
      (hw : Hardware H) (k : Kernel H) → IsInStep k → IsPolled (ps2_poll_mouse_packet hw k)
  unfolding ps2_poll_mouse_packet
  ps2_poll_mouse_packet-IsPolled hw k h = elim (Option-cases (ready_for hw k).0) [
    | inl e ↦ rw (e, ps2_poll_mouse_packet) (no_packet (ready_for hw k).1 waited)
    | inr (mouse, e) ↦ elim (Bool-cases mouse) [
      | inr no_mouse ↦ rw (e, no_mouse, ps2_poll_mouse_packet) (no_packet (ready_for hw k).1 waited)
      | inl yes_mouse ↦
          rw (e, yes_mouse, ps2_poll_mouse_packet)
            (mouse_byte-IsPolled (inb hw 0x60 (ready_for hw k).1).0
              (inb hw 0x60 (ready_for hw k).1).1
              (same_mouse (ready_for hw k).1 (inb hw 0x60 (ready_for hw k).1).1 waited refl refl))
    ]
  ]
    where
      waited : IsInStep (ready_for hw k).1
      waited = same_mouse k (ready_for hw k).1 h (ready_for-mouse hw k).0 (ready_for-mouse hw k).1
