-- ===== src/Paging/Translate.antt =====
-- `vm_map_page` and `vm_virt_to_phys` of src/mm/vm.c: what is mapped is what is translated.
use peanut_kernel.Common.{
  ℕ, ◌+◌, ◌-◌, ◌*◌, ◌/◌, ◌%◌, ◌^◌, ◌<◌, ◌≡◌, refl, ap, ap₂, ◌∙◌, Bool, true, false, not, ◌&&◌, ◌==◌,
  leb, if◌then◌else◌, Bool-cases, inl, inr, arith, bit_and, bit_or, bit_and-mask,
}
use peanut_kernel.Memory.{vm_page_size}
use peanut_kernel.Paging.{
  Statics, Vm, set_entry, pml4_index, pdpt_index, pd_index, pt_index, vm_map_page, vm_virt_to_phys,
  through_pml4,
}
use peanut_kernel.Paging.Entries.{
  IsPage, table_of-page_entry, page_entry-is_present, in_page, index_lem,
}
use peanut_kernel.Paging.Tree.{IsTree}
use peanut_kernel.Paging.Values.{pt_value}
use peanut_kernel.Paging.Write.{written-IsTree, at_pml4}
use peanut_kernel.Paging.Descent.{
  is_in_large, pdpt, pd, pt, levels3, large_lem, large_keeps, to_pt, pt_level, pt-IsLink, pd-IsLink,
  pdpt-IsLink, same_before,
}

-- The number of an address's page among those the tables tell apart.
abbrev pub page_number : ℕ → ℕ
page_number a = a / 4096 % 2 ^ 36

same_indices :
    (a b : ℕ)
    → (pml4_index a == pml4_index b
        && (pdpt_index a == pdpt_index b && (pd_index a == pd_index b && pt_index a == pt_index b)))
      ≡ (page_number a == page_number b)
same_indices a b =
    rw
      (
        (index_lem a).0,
        (index_lem b).0,
        (index_lem a).1,
        (index_lem b).1,
        (index_lem a).2,
        (index_lem b).2,
        (index_lem a).3,
        (index_lem b).3,
      )
      digits
  where
    digits :
        (a / 2 ^ 39 % 512 == b / 2 ^ 39 % 512
          && (a / 2 ^ 30 % 512 == b / 2 ^ 30 % 512
              && (a / 2 ^ 21 % 512 == b / 2 ^ 21 % 512 && a / 2 ^ 12 % 512 == b / 2 ^ 12 % 512)))
        ≡ (a / 4096 % 2 ^ 36 == b / 4096 % 2 ^ 36)
    digits = ground arith

if_cong :
    {c d : Bool} {x x' y y' : ℕ}
    → c ≡ d
    → x ≡ x'
    → y ≡ y'
    → (if c then x else y) ≡ (if d then x' else y')
if_cong h g e = rw (h, g, e) refl

module _ (k : Statics) (level : ℕ → ℕ) (s : Vm) (virt phys flags : ℕ) (tree : IsTree k level s)
    (room : s.memory.page_bump + 2 * vm_page_size < 2 ^ 63) (aligned : virt % 4096 ≡ 0)
    (page : IsPage phys) (narrow : flags < 4096) where
  abbrev entry : ℕ
  entry = bit_or (bit_or phys flags) 1

  entry_value : (a : ℕ) → pt_value a entry ≡ phys + a % 4096
  entry_value a = rw (page_entry-is_present phys page flags narrow) (
      ap₂ bit_or (table_of-page_entry phys page flags narrow) (bit_and-mask 12 a)
      ∙ in_page phys (a % 4096) (page.aligned) (omega arith))

  abbrev last : Vm
  last = (pt k level s virt tree room).1

  -- The call where the page does not lie in a large one, and where it does.
  passes : (a : ℕ) → a % 4096 ≡ 0 → leb 1 (bit_and a (vm_page_size - 1)) ≡ false
  passes a e = ap (leb 1) (bit_and-mask 12 a ∙ e)

  maps :
      is_in_large k virt s ≡ false
      → vm_map_page k virt phys flags s
        ≡ (true, set_entry (pt k level s virt tree room).0 (pt_index virt) entry last)
  unfolding vm_map_page
  maps free =
      rw
        (passes virt aligned, passes phys (page.aligned), large_lem k level s virt tree room ∙ free)
        refl

  fails : is_in_large k virt s ≡ true → vm_map_page k virt phys flags s ≡ (false, s)
  unfolding vm_map_page
  fails large =
      rw
        (
          passes virt aligned,
          passes phys (page.aligned),
          large_lem k level s virt tree room ∙ large,
        )
        (ap (λ r. (false, r)) (large_keeps k level s virt tree room large))

  -- Mapping a page succeeds unless it lies in a large one; then each address of the page translates to
  -- the address that far into the physical page, and every other address as before. Where it fails every
  -- address translates as before. The tables are a tree with room for two more, both addresses are
  -- aligned, and the flags lie below the address.
  pub vm_map_page-vm_virt_to_phys :
      (a : ℕ)
      → ((vm_map_page k virt phys flags s).0 ≡ not (is_in_large k virt s))
        × (vm_virt_to_phys k a (vm_map_page k virt phys flags s).1 ≡ (
            if not (is_in_large k virt s) && page_number a == page_number virt
            then phys + a % 4096
            else vm_virt_to_phys k a s))
  unfolding vm_virt_to_phys
  vm_map_page-vm_virt_to_phys a = elim (Bool-cases (is_in_large k virt s)) [
    | inl large ↦ rw (large, fails large) (refl, refl)
    | inr free ↦ rw (free, maps free) (refl, mapped free)
  ]
    where
      mapped :
          is_in_large k virt s ≡ false
          → through_pml4
              (set_entry (pt k level s virt tree room).0 (pt_index virt) entry last).tables
              a
              k.pml4
            ≡ (if page_number a == page_number virt
                then phys + a % 4096
                else through_pml4 s.tables a k.pml4)
      mapped free =
          at_pml4 k (levels3 k level s virt tree room free) last
            (to_pt k level s virt tree room free).tree (pt k level s virt tree room).0
            (pt_index virt) entry (pt_level k level s virt tree room free) (pml4_index virt)
            (pdpt k level s virt tree room).0 (pdpt_index virt) (pd k level s virt tree room).0
            (pd_index virt) (pdpt-IsLink k level s virt tree room free)
            (pd-IsLink k level s virt tree room free) (pt-IsLink k level s virt tree room free) a
          ∙ if_cong (same_indices a virt) (entry_value a)
              (same_before k level s virt tree room free a)

  -- Mapping a page keeps the tables a tree, under the same conditions.
  pub vm_map_page-IsTree : (l : ℕ → ℕ) × IsTree k l (vm_map_page k virt phys flags s).1
  vm_map_page-IsTree = elim (Bool-cases (is_in_large k virt s)) [
    | inl large ↦ rw (fails large) (level, tree)
    | inr free ↦ rw (maps free) (
      levels3 k level s virt tree room free,
      written-IsTree k (levels3 k level s virt tree room free) last
          (to_pt k level s virt tree room free).tree (pt k level s virt tree room).0 (pt_index virt)
          entry (pt_level k level s virt tree room free),
    )
  ]
