-- ===== src/Paging/Examples.antt =====
-- src/mm/vm.c: a map of one page.
use peanut_kernel.Common.{ℕ, ◌+◌, ◌≡◌, refl, true, ◌&&◌, ◌==◌, if◌then◌else◌, arith, []}
use peanut_kernel.Memory.{Memory}
use peanut_kernel.Paging.{Statics, Vm, vm_init, vm_map_page, vm_virt_to_phys}
use peanut_kernel.Paging.Entries.{IsPage}
use peanut_kernel.Paging.Tree.{links_at, IsTree}
use peanut_kernel.Paging.Translate.{vm_map_page-vm_virt_to_phys, vm_map_page-IsTree}
use peanut_kernel.Paging.Identity.{AreApart, vm_init-vm_virt_to_phys}

abbrev statics : Statics
statics = record { pml4 = 0x1000; pdpt = 0x2000; pd = 0x3000 }

abbrev state : Memory → Vm
state m = record { memory = record m { page_bump = 0x100000 }; tables = λ a j. 0 }

abbrev levels : ℕ → ℕ
levels a = if a == 0x1000 then 4 else 0

levels-IsTree : (m : Memory) → IsTree statics levels (state m)
levels-IsTree m = record {
  root = refl;
  child = λ t i link. absurd (none (levels t) link);
  unique = λ t i u j link link' e. absurd (none (levels t) link);
  fresh = λ p h. ground arith;
  aligned = refl;
}
  where
    none : (l : ℕ) → links_at l 0 ≡ true → ⊥
    none l h = ground arith

abbrev start : Vm
start =
    state (record { kernel_end = 0x10123; heap = []; page_bump = 0; free_lists = []; slots = [] })

abbrev screen : ℕ
screen = 0xC000600000

-- A page above the large pages is mapped, and an address in it is translated.
mapped_test :
    (vm_map_page statics screen 0x5000 3 start).0
      && (vm_virt_to_phys statics (screen + 0x123) (vm_map_page statics screen 0x5000 3 start).1
          == 0x5123)
    ≡ true
unfolding vm_map_page vm_virt_to_phys
mapped_test = refl

frame-IsPage : IsPage 0x5000
frame-IsPage = record { aligned = refl; small = omega arith }

vm_map_page-vm_virt_to_phys_example :
    ((vm_map_page statics screen 0x5000 3 start).0 ≡ true)
    × (vm_virt_to_phys statics (screen + 0x123) (vm_map_page statics screen 0x5000 3 start).1
        ≡ 0x5123)
vm_map_page-vm_virt_to_phys_example =
    vm_map_page-vm_virt_to_phys statics levels start screen 0x5000 3 (levels-IsTree start.memory)
      (omega arith) refl frame-IsPage (omega arith) (screen + 0x123)

vm_map_page-IsTree_example :
    (l : ℕ → ℕ) × IsTree statics l (vm_map_page statics screen 0x5000 3 start).1
vm_map_page-IsTree_example =
    vm_map_page-IsTree statics levels start screen 0x5000 3 (levels-IsTree start.memory)
      (omega arith) refl frame-IsPage (omega arith)

statics-AreApart : AreApart statics
statics-AreApart = record {
  pml4-pdpt = λ e. absurd (omega arith);
  pml4-pd = λ i h e. absurd (omega arith);
  pdpt-pd = λ i h e. absurd (omega arith);
  pdpt-page = record { aligned = refl; small = omega arith };
  pd-page = λ i h. record { aligned = omega arith; small = omega arith };
}

vm_init-vm_virt_to_phys_example : vm_virt_to_phys statics 0xB8123 (vm_init statics start) ≡ 0xB8123
vm_init-vm_virt_to_phys_example =
    vm_init-vm_virt_to_phys statics start 0xB8123 statics-AreApart (omega arith)
