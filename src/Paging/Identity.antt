-- ===== src/Paging/Identity.antt =====
-- `vm_init` of src/mm/vm.c: the addresses that are mapped when the kernel starts.
use peanut_kernel.Common.{
  ℕ, zero, suc, ◌+◌, ◌*◌, ◌/◌, ◌%◌, ◌^◌, ◌<◌, ◌≡◌, ◌≢◌, refl, ap, ap₂, ◌∙◌, true, false, ◌&&◌, ◌==◌,
  leb, ltb, if◌then◌else◌, arith, bit_and, bit_or, bit_and-mask, bit_and-0x80, bit_and-round_2m,
  bit_or-split, bit_or-zero, zero-bit_or,
}
use peanut_kernel.Paging.{
  Statics, Vm, set_entry, identity_loop, link_statics, vm_map_identity_2m, vm_init, vm_virt_to_phys,
  through_pdpt, through_pd, through_pt, is_present, is_huge, entry_to, boot_map_bytes, pml4_index,
  pdpt_index, pd_index,
}
use peanut_kernel.Paging.Entries.{
  IsPage, or_low, index_lem, is_present_lem, entry_to-is_present, table_of-entry_to,
}
use peanut_kernel.Paging.Values.{link_value, pd_value}
use peanut_kernel.Memory

-- The arrays lie on pages of their own.
pub record AreApart (k : Statics) : Type 0 where
  pub pml4-pdpt : k.pml4 ≢ k.pdpt
  pub pml4-pd : (i : ℕ) → i < 4 → k.pml4 ≢ k.pd + i * 4096
  pub pdpt-pd : (i : ℕ) → i < 4 → k.pdpt ≢ k.pd + i * 4096
  pub pdpt-page : IsPage k.pdpt
  pub pd-page : (i : ℕ) → i < 4 → IsPage (k.pd + i * 4096)

-- The entry of the `n`-th large page.
large_entry : (n : ℕ) → bit_or (bit_or (n * 0x200000) 7) 0x80 ≡ n * 0x200000 + 135
large_entry n =
    let p : n * 0x200000 % 4096 ≡ 0 = omega arith in
    let z : n * 0x200000 + 0 ≡ n * 0x200000 = omega arith in
    let one = rw z at (or_low (n * 0x200000) 0 7 p (omega arith) (omega arith)) in
    rw one (or_low (n * 0x200000) 7 0x80 p (omega arith) (omega arith))

abbrev slot : Statics → ℕ → ℕ → Vm → ℕ
slot k i j s = s.tables (k.pd + i * 4096) j

-- One round of the loop.
step :
    (k : Statics) (flags end left addr : ℕ) (s : Vm)
    → ltb addr end ≡ true
    → leb 4 (pdpt_index addr) ≡ false
    → identity_loop k flags end (suc left) addr s
      ≡ identity_loop k flags end left (addr + 0x200000) (
          set_entry
            (k.pd + pdpt_index addr * 4096)
            (pd_index addr)
            (bit_or (bit_or addr flags) 0x80)
            s)
unfolding identity_loop
step k flags end left addr s more few = rw (more, few, identity_loop) refl

round :
    (k : Statics) (left n : ℕ) (s : Vm)
    → n < 2048
    → identity_loop k 7 (2 ^ 32) (suc left) (n * 0x200000) s
      ≡ identity_loop k 7
          (2 ^ 32)
          left
          (suc n * 0x200000)
          (set_entry (k.pd + n / 512 * 4096) (n % 512) (n * 0x200000 + 135) s)
round k left n s h =
    let i : pdpt_index (n * 0x200000) ≡ n / 512 = omega (arith, (index_lem (n * 0x200000)).1) in
    let j : pd_index (n * 0x200000) ≡ n % 512 = omega (arith, (index_lem (n * 0x200000)).2) in
    let next : n * 0x200000 + 0x200000 ≡ suc n * 0x200000 = omega arith in
    step k 7 (2 ^ 32) left (n * 0x200000) s (ground arith) (ground arith)
    ∙ ap₂ (identity_loop k 7 (2 ^ 32) left) next (
        ap₂ (λ p q. set_entry (k.pd + p * 4096) q (bit_or (bit_or (n * 0x200000) 7) 0x80) s) i j
        ∙ ap (λ e. set_entry (k.pd + n / 512 * 4096) (n % 512) e s) (large_entry n))

-- The rounds from the `n`-th large page on.
module _ (k : Statics) (i j : ℕ) (low_i : i < 4) (low_j : j < 512) where
  rounds :
      (left n : ℕ) (s : Vm)
      → n + left ≡ 2048
      → slot k i j (identity_loop k 7 (2 ^ 32) left (n * 0x200000) s).1
        ≡ (if leb n (i * 512 + j) then (i * 512 + j) * 0x200000 + 135 else slot k i j s)
  unfolding identity_loop
  rounds zero n s h = ground arith
  rounds (suc left) n s h =
      ap (λ r. slot k i j r.1) (round k left n s (omega arith))
      ∙ rounds left (suc n) (set_entry (k.pd + n / 512 * 4096) (n % 512) (n * 0x200000 + 135) s)
          (omega arith)
      ∙ one n (s.tables (k.pd + i * 4096) j)
    where
      one :
          (n v : ℕ)
          → (if leb (suc n) (i * 512 + j)
              then (i * 512 + j) * 0x200000 + 135
              else if k.pd + i * 4096 == k.pd + n / 512 * 4096 && j == n % 512
              then n * 0x200000 + 135
              else v)
            ≡ (if leb n (i * 512 + j) then (i * 512 + j) * 0x200000 + 135 else v)
      one n v = ground arith

-- No other array is written.
other_array :
    (k : Statics) (left n a j : ℕ) (s : Vm)
    → n + left ≡ 2048
    → ((i : ℕ) → i < 4 → a ≢ k.pd + i * 4096)
    → (identity_loop k 7 (2 ^ 32) left (n * 0x200000) s).1.tables a j ≡ s.tables a j
unfolding identity_loop
other_array k zero n a j s h apart = refl
other_array k (suc left) n a j s h apart =
    ap (λ r. r.1.tables a j) (round k left n s (omega arith))
    ∙ other_array k left (suc n) a j
        (set_entry (k.pd + n / 512 * 4096) (n % 512) (n * 0x200000 + 135) s) (omega arith) apart
    ∙ outside (s.tables a j)
  where
    outside :
        (v : ℕ) → (if a == k.pd + n / 512 * 4096 && j == n % 512 then n * 0x200000 + 135 else v) ≡ v
    outside v = let ne = apart (n / 512) (omega arith) in ground arith

module _ (k : Statics) (s : Vm) (apart : AreApart k) where
  abbrev linked : Vm
  linked = link_statics k (record s { memory = Memory.vm_init s.memory })

  abbrev filled : Vm
  filled = (identity_loop k 7 (2 ^ 32) 2048 (0 * 0x200000) linked).1

  vm_init-filled : vm_init k s ≡ filled
  unfolding vm_init vm_map_identity_2m
  vm_init-filled = refl

  linked_pml4 : k.pml4 ≢ k.pdpt → linked.tables k.pml4 0 ≡ entry_to k.pdpt
  unfolding link_statics
  linked_pml4 ne = ground arith

  linked_pdpt : (i : ℕ) → i < 4 → linked.tables k.pdpt i ≡ entry_to (k.pd + i * 4096)
  unfolding link_statics
  linked_pdpt zero h = let z : k.pd + 0 * 4096 ≡ k.pd = omega arith in rw z (ground arith)
  linked_pdpt (suc zero) h = ground arith
  linked_pdpt (suc (suc zero)) h = ground arith
  linked_pdpt (suc (suc (suc zero))) h = ground arith
  linked_pdpt (suc (suc (suc (suc i)))) h = absurd (omega arith)

  pml4_entry : filled.tables k.pml4 0 ≡ entry_to k.pdpt
  pml4_entry =
      other_array k 2048 0 k.pml4 0 linked refl (apart.pml4-pd) ∙ linked_pml4 (apart.pml4-pdpt)

  pdpt_entry : (i : ℕ) → i < 4 → filled.tables k.pdpt i ≡ entry_to (k.pd + i * 4096)
  pdpt_entry i h = other_array k 2048 0 k.pdpt i linked refl (apart.pdpt-pd) ∙ linked_pdpt i h

  pd_entry :
      (i j : ℕ)
      → i < 4
      → j < 512
      → filled.tables (k.pd + i * 4096) j ≡ (i * 512 + j) * 0x200000 + 135
  pd_entry i j h g = rounds k i j h g 2048 0 linked refl ∙ within (slot k i j linked)
    where
      within :
          (v : ℕ)
          → (if leb 0 (i * 512 + j) then (i * 512 + j) * 0x200000 + 135 else v)
            ≡ (i * 512 + j) * 0x200000 + 135
      within v = ground arith

-- What the entry of a large page makes of an address in it.
module _ (n a : ℕ) (few : n < 2048) (inside : a / 0x200000 ≡ n) where
  abbrev large : ℕ
  large = n * 0x200000 + 135

  large-is_present : is_present large ≡ true
  large-is_present = let odd : large % 2 ≡ 1 = omega arith in is_present_lem large ∙ ap (leb 1) odd

  large-is_huge : is_huge large ≡ true
  large-is_huge =
      let set : large / 128 % 2 * 128 ≡ 128 = omega arith in ap (leb 1) (bit_and-0x80 large ∙ set)

  large_value : bit_or (bit_and large 0xFFFFFFFFFFE00000) (bit_and a 0x1FFFFF) ≡ a
  large_value =
      let high : large / 0x200000 * 0x200000 ≡ n * 2 ^ 21 + 0 = omega arith in
      let low : a % 0x200000 ≡ 0 * 2 ^ 21 + a % 0x200000 = omega arith in
      let sum : bit_or n 0 * 2 ^ 21 + bit_or 0 (a % 0x200000) ≡ a =
        omega (arith, bit_or-zero n, zero-bit_or (a % 0x200000)) in
      ap₂ bit_or (bit_and-round_2m large (omega arith) ∙ high) (bit_and-mask 21 a ∙ low)
      ∙ bit_or-split 21 n 0 0 (a % 0x200000) (omega arith) (omega arith)
      ∙ sum

-- A link to a table is followed.
link_value-entry_to : (f : ℕ → ℕ) (p e : ℕ) → IsPage p → e ≡ entry_to p → link_value f e ≡ f p
link_value-entry_to f p e page same =
    ap (link_value f) same ∙ rw (entry_to-is_present p page) (ap f (table_of-entry_to p page))

pd_value-large :
    (a : ℕ) (f : ℕ → ℕ) (e : ℕ)
    → is_present e ≡ true
    → is_huge e ≡ true
    → pd_value a f e ≡ bit_or (bit_and e 0xFFFFFFFFFFE00000) (bit_and a 0x1FFFFF)
pd_value-large a f e h g = rw (h, g) refl

-- Once `vm_init` has run, every address below 4 GiB translates to itself, where the arrays lie on pages
-- of their own.
pub vm_init-vm_virt_to_phys :
    (k : Statics) (s : Vm) (a : ℕ)
    → AreApart k
    → a < boot_map_bytes
    → vm_virt_to_phys k a (vm_init k s) ≡ a
unfolding vm_virt_to_phys
vm_init-vm_virt_to_phys k s a apart low =
    let t = (filled k s apart).tables in
    let i0 : pml4_index a ≡ 0 = omega (arith, (index_lem a).0) in
    let i1 : pdpt_index a ≡ a / 2 ^ 30 = omega (arith, (index_lem a).1) in
    let n : a / 2 ^ 30 * 512 + a / 2 ^ 21 % 512 ≡ a / 0x200000 = omega arith in
    let entry : t (k.pd + a / 2 ^ 30 * 4096) (pd_index a) ≡ a / 0x200000 * 0x200000 + 135 =
      ap (t (k.pd + a / 2 ^ 30 * 4096)) ((index_lem a).2)
      ∙ pd_entry k s apart (a / 2 ^ 30) (a / 2 ^ 21 % 512) (omega arith) (omega arith)
      ∙ ap (λ m. m * 0x200000 + 135) n in
    ap (vm_virt_to_phys k a) (vm_init-filled k s apart)
    ∙ link_value-entry_to (through_pdpt t a) k.pdpt (t k.pml4 (pml4_index a)) (apart.pdpt-page)
        (ap (t k.pml4) i0 ∙ pml4_entry k s apart)
    ∙ link_value-entry_to (through_pd t a) (k.pd + a / 2 ^ 30 * 4096) (t k.pdpt (pdpt_index a))
        (apart.pd-page (a / 2 ^ 30) (omega arith))
        (ap (t k.pdpt) i1 ∙ pdpt_entry k s apart (a / 2 ^ 30) (omega arith))
    ∙ ap (pd_value a (through_pt t a)) entry
    ∙ pd_value-large a (through_pt t a) (a / 0x200000 * 0x200000 + 135)
        (large-is_present (a / 0x200000) a (omega arith) refl)
        (large-is_huge (a / 0x200000) a (omega arith) refl)
    ∙ large_value (a / 0x200000) a (omega arith) refl
