-- ===== src/Pseudo/Entropy.antt =====
-- src/drivers/entropy.c: the generator behind /dev/random and /dev/urandom.
use peanut_kernel.Common.{
  ℕ, zero, suc, ◌+◌, ◌*◌, ◌/◌, ◌%◌, ◌^◌, bit_and, bit_xor, Bool, not, ◌||◌, Option, none, some,
  ◌==◌, if◌then◌else◌, u64,
}
use peanut_kernel.Pseudo.{Hardware, Kernel}

unfoldable pub mix : ℕ → ℕ → ℕ
mix state value =
    let a =
      bit_xor state (u64 (value + 0x9E3779B97F4A7C15 + u64 (state * 2 ^ 6) + state / 2 ^ 2)) in
    let b = u64 (bit_xor a (a / 2 ^ 30) * 0xBF58476D1CE4E5B9) in
    let c = u64 (bit_xor b (b / 2 ^ 27) * 0x94D049BB133111EB) in bit_xor c (c / 2 ^ 31)

-- The three shifts at the end of `entropy_urandom_byte`.
unfoldable pub stir : ℕ → ℕ
stir state =
    let a = bit_xor state (u64 (state * 2 ^ 13)) in
    let b = bit_xor a (a / 2 ^ 7) in bit_xor b (u64 (b * 2 ^ 17))

module _ {H : Type 0} where
  unfoldable pub entropy_mix : ℕ → Kernel H → Kernel H
  unfolding mix
  entropy_mix value k = record k { entropy_state = mix k.entropy_state value }

  unfoldable pub entropy_has_hardware_rng : Kernel H → Bool
  entropy_has_hardware_rng k = k.has_rdrand || k.has_rdseed

  abbrev pub with_hardware : Kernel H → H → Kernel H
  with_hardware k h = record k { hardware = h }

  -- `mix` of the time stamp counter.
  unfoldable pub mix_time : Hardware H → Kernel H → Kernel H
  unfolding entropy_mix
  mix_time hw k = let t = hw.rdtsc k.hardware in entropy_mix t.0 (with_hardware k t.1)

  unfoldable pub entropy_init : Hardware H → Kernel H → Kernel H
  unfolding mix_time
  entropy_init hw k = mix_time hw (record k {
    has_rdrand = not (bit_and (hw.cpuid 1).1 (2 ^ 30) == 0);
    has_rdseed = not (bit_and (hw.cpuid 7).0 (2 ^ 18) == 0);
  })

  -- At most `tries` calls of an instruction that may fail.
  unfoldable pub try_random : (H → Option ℕ × H) → ℕ → H → Option ℕ × H
  try_random step zero h = (none, h)
  try_random step (suc tries) h =
      let r = step h in
      let rest = try_random step tries r.1 in elim r.0 [ none ↦ rest | some x ↦ (some x, r.1) ]

  unfoldable pub try_if : Bool → (H → Option ℕ × H) → ℕ → H → Option ℕ × H
  unfolding try_random
  try_if has step tries h = if has then try_random step tries h else (none, h)

  unfoldable pub entropy_random_byte : Hardware H → Kernel H → ℕ × Kernel H
  unfolding try_if entropy_mix mix_time
  entropy_random_byte hw k =
      let seed = try_if k.has_rdseed hw.rdseed 64 k.hardware in
      elim seed.0 [
        | some x ↦ (x % 256, entropy_mix x (with_hardware k seed.1))
        | none ↦
            let rand = try_if k.has_rdrand hw.rdrand 16 seed.1 in
            elim rand.0 [
              | some x ↦ (x % 256, entropy_mix x (with_hardware k rand.1))
              | none ↦
                  let k' = mix_time hw (with_hardware k rand.1) in
                  (k'.entropy_state / 2 ^ 56 % 256, k')
            ]
      ]

  unfoldable pub entropy_urandom_byte : Hardware H → Kernel H → ℕ × Kernel H
  unfolding try_if entropy_mix mix_time stir
  entropy_urandom_byte hw k =
      let rand = try_if k.has_rdrand hw.rdrand 1 k.hardware in
      let mixed : Kernel H = elim rand.0 [
        | some x ↦ entropy_mix x (with_hardware k rand.1)
        | none ↦ mix_time hw (with_hardware k rand.1)
      ] in
      let state = stir mixed.entropy_state in
      (state / 2 ^ 56 % 256, record mixed { entropy_state = state })
