-- ===== src/Paging/Entries.antt =====
-- src/mm/vm.c: what the entries of the tables say.
use peanut_kernel.Common.{
  ℕ, ◌+◌, ◌*◌, ◌/◌, ◌%◌, ◌^◌, ◌<◌, ◌≡◌, ap, ◌∙◌, true, false, leb, arith, bit_or, bit_and-mask,
  bit_and-round_4096, bit_or-split, bit_or-lt, bit_or-one, bit_or-zero, zero-bit_or, bit_and-one,
  bit_and-0x80,
}
use peanut_kernel.Paging.{
  entry_to, is_present, is_huge, table_of, pml4_index, pdpt_index, pd_index, pt_index,
}

-- An address at which a table or a page can be.
pub record IsPage (a : ℕ) : Type 0 where
  pub aligned : a % 4096 ≡ 0
  pub small : a < 2 ^ 63

pub is_present_lem : (e : ℕ) → is_present e ≡ leb 1 (e % 2)
is_present_lem e = ap (leb 1) (bit_and-one e)

-- Bits below a page's address.
pub or_low :
    (p low f : ℕ) → p % 4096 ≡ 0 → low < 4096 → f < 4096 → bit_or (p + low) f ≡ p + bit_or low f
or_low p low f aligned h g =
    let a : p / 4096 * 2 ^ 12 + low ≡ p + low = omega arith in
    let b : 0 * 2 ^ 12 + f ≡ f = omega arith in
    let split = rw (a, b) at (bit_or-split 12 (p / 4096) low 0 f (omega arith) (omega arith)) in
    omega (arith, split, bit_or-zero (p / 4096))

pub entry_to_lem : (p : ℕ) → p % 4096 ≡ 0 → entry_to p ≡ p + 7
entry_to_lem p aligned =
    let a : p + 0 ≡ p = omega arith in
    let one = rw a at (or_low p 0 1 aligned (omega arith) (omega arith)) in
    rw one (
      rw (or_low p 1 2 aligned (omega arith) (omega arith))
        (or_low p 3 4 aligned (omega arith) (omega arith)))

pub table_of_lem : (p low : ℕ) → IsPage p → low < 4096 → table_of (p + low) ≡ p
table_of_lem p low page h =
    let aligned = page.aligned in
    let small = page.small in omega (arith, bit_and-round_4096 (p + low) (omega arith))

-- The entry that leads to a table, or to a page.
module _ (p : ℕ) (page : IsPage p) where
  pub table_of-entry_to : table_of (entry_to p) ≡ p
  table_of-entry_to =
      ap table_of (entry_to_lem p (page.aligned)) ∙ table_of_lem p 7 page (omega arith)

  pub entry_to-is_present : is_present (entry_to p) ≡ true
  entry_to-is_present =
      let aligned = page.aligned in
      let odd : (p + 7) % 2 ≡ 1 = omega arith in
      ap is_present (entry_to_lem p aligned) ∙ is_present_lem (p + 7) ∙ ap (leb 1) odd

  pub entry_to-is_huge : is_huge (entry_to p) ≡ false
  entry_to-is_huge =
      let aligned = page.aligned in
      let clear : (p + 7) / 128 % 2 * 128 ≡ 0 = omega arith in
      ap is_huge (entry_to_lem p aligned) ∙ ap (leb 1) (bit_and-0x80 (p + 7)) ∙ ap (leb 1) clear

  -- The low bits of a page's entry.
  low_bits : (flags : ℕ) → flags < 4096 → bit_or (bit_or p flags) 1 ≡ p + bit_or flags 1
  low_bits flags h =
      let a : p + 0 ≡ p = omega arith in
      let first = rw a at (or_low p 0 flags (page.aligned) (omega arith) h) in
      rw (first, zero-bit_or) (or_low p flags 1 (page.aligned) h (omega arith))

  module _ (flags : ℕ) (narrow : flags < 4096) where
    pub table_of-page_entry : table_of (bit_or (bit_or p flags) 1) ≡ p
    table_of-page_entry =
        ap table_of (low_bits flags narrow)
        ∙ table_of_lem p (bit_or flags 1) page (bit_or-lt 12 flags 1 narrow (omega arith))

    pub page_entry-is_present : is_present (bit_or (bit_or p flags) 1) ≡ true
    page_entry-is_present =
        let odd = bit_or-one (bit_or p flags) in
        is_present_lem (bit_or (bit_or p flags) 1) ∙ ap (leb 1) odd

-- The address inside a page.
pub in_page : (p off : ℕ) → p % 4096 ≡ 0 → off < 4096 → bit_or p off ≡ p + off
in_page p off aligned h =
    let a : p + 0 ≡ p = omega arith in
    let e = rw a at (or_low p 0 off aligned (omega arith) h) in
    e ∙ ap (λ x. p + x) (zero-bit_or off)

-- The indices of an address, and of the addresses in its page.
pub index_lem :
    (virt : ℕ)
    → (pml4_index virt ≡ virt / 2 ^ 39 % 512)
      × (pdpt_index virt ≡ virt / 2 ^ 30 % 512)
      × (pd_index virt ≡ virt / 2 ^ 21 % 512)
      × (pt_index virt ≡ virt / 2 ^ 12 % 512)
index_lem virt = (
  bit_and-mask 9 (virt / 2 ^ 39),
  bit_and-mask 9 (virt / 2 ^ 30),
  bit_and-mask 9 (virt / 2 ^ 21),
  bit_and-mask 9 (virt / 2 ^ 12),
)
