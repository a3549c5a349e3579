-- ===== src/Paging.antt =====
-- src/mm/vm.c and vm.h: the kernel's page tables.
-- The tables in memory are a function of a table's address and an index; where a table has not been
-- written, the function is what memory holds there. `vm_init` loads the address of the first table into
-- the processor's register, which is left out.
pub mod Entries
pub mod Tree
pub mod Values
pub mod Write
pub mod Made
pub mod Descend
pub mod Descent
pub mod Translate
pub mod Identity
mod Examples
use peanut_kernel.Common.{
  ℕ, zero, suc, ◌+◌, ◌-◌, ◌*◌, ◌/◌, ◌^◌, bit_and, bit_or, Bool, true, false, ◌||◌, ◌&&◌, not, ◌==◌,
  ltb, leb, if◌then◌else◌, u64,
}
use peanut_kernel.Memory.{Memory, vm_page_size}
use peanut_kernel.Memory

abbrev pub vm_flag_present : ℕ
vm_flag_present = 0x001

abbrev pub vm_flag_write : ℕ
vm_flag_write = 0x002

abbrev pub vm_flag_user : ℕ
vm_flag_user = 0x004

abbrev pub vm_flag_huge : ℕ
vm_flag_huge = 0x080

-- The addresses of `kernel_pml4`, `kernel_pdpt` and the array `kernel_pd`.
pub record Statics : Type 0 where
  pub pml4 : ℕ
  pub pdpt : ℕ
  pub pd : ℕ

-- The entry of a table, by the table's address and an index.
abbrev pub Tables : Type 0
Tables = ℕ → ℕ → ℕ

pub record Vm : Type 0 where
  pub memory : Memory
  pub tables : Tables

abbrev pub set_entry : ℕ → ℕ → ℕ → Vm → Vm
set_entry t i e s = record s { tables = λ a j. if a == t && j == i then e else s.tables a j }

-- `vm_alloc_page`, which fills the page with zeros.
unfoldable pub alloc_table : Vm → ℕ × Vm
unfolding Memory.vm_alloc_page
alloc_table s =
    let r = Memory.vm_alloc_page s.memory in
    (r.0, record { memory = r.1; tables = λ a j. if a == r.0 then 0 else s.tables a j })

abbrev pub is_present : ℕ → Bool
is_present e = leb 1 (bit_and e vm_flag_present)

abbrev pub is_huge : ℕ → Bool
is_huge e = leb 1 (bit_and e vm_flag_huge)

-- `(PageTable*)(e & ~0xfffull)`
abbrev pub table_of : ℕ → ℕ
table_of e = bit_and e 0xFFFFFFFFFFFFF000

-- `(uint64_t)page | VM_FLAG_PRESENT | VM_FLAG_WRITE | VM_FLAG_USER`
abbrev pub entry_to : ℕ → ℕ
entry_to page = bit_or (bit_or (bit_or page vm_flag_present) vm_flag_write) vm_flag_user

abbrev pub pml4_index : ℕ → ℕ
pml4_index virt = bit_and (virt / 2 ^ 39) 0x1FF

abbrev pub pdpt_index : ℕ → ℕ
pdpt_index virt = bit_and (virt / 2 ^ 30) 0x1FF

abbrev pub pd_index : ℕ → ℕ
pd_index virt = bit_and (virt / 2 ^ 21) 0x1FF

abbrev pub pt_index : ℕ → ℕ
pt_index virt = bit_and (virt / 2 ^ 12) 0x1FF

-- The table that an entry leads to, which is made if the entry is not present.
unfoldable pub descend : ℕ → ℕ → Vm → ℕ × Vm
unfolding alloc_table
descend t i s =
    if is_present (s.tables t i)
    then (table_of (s.tables t i), s)
    else (let r = alloc_table s in (r.0, set_entry t i (entry_to r.0) r.1))

-- Whether 0 is returned, and the state.
unfoldable pub vm_map_page : Statics → ℕ → ℕ → ℕ → Vm → Bool × Vm
unfolding descend
vm_map_page k virt phys flags s =
    if leb 1 (bit_and virt (vm_page_size - 1)) || leb 1 (bit_and phys (vm_page_size - 1))
    then (false, s)
    else (let pdpt = descend k.pml4 (pml4_index virt) s in
        let pd = descend pdpt.0 (pdpt_index virt) pdpt.1 in
        if is_huge (pd.1.tables pd.0 (pd_index virt))
        then (false, pd.1)
        else (let pt = descend pd.0 (pd_index virt) pd.1 in
            (
              true,
              set_entry pt.0 (pt_index virt) (bit_or (bit_or phys flags) vm_flag_present) pt.1,
            )))

-- `vm_virt_to_phys` from a table of each kind on; 0 where nothing is mapped.
abbrev pub through_pt : Tables → ℕ → ℕ → ℕ
through_pt tables virt pt =
    let pte = tables pt (pt_index virt) in
    if is_present pte then bit_or (bit_and pte 0xFFFFFFFFFFFFF000) (bit_and virt 0xFFF) else 0

abbrev pub through_pd : Tables → ℕ → ℕ → ℕ
through_pd tables virt pd =
    let pde = tables pd (pd_index virt) in
    if is_present pde
    then if is_huge pde
      then bit_or (bit_and pde 0xFFFFFFFFFFE00000) (bit_and virt 0x1FFFFF)
      else through_pt tables virt (table_of pde)
    else 0

abbrev pub through_pdpt : Tables → ℕ → ℕ → ℕ
through_pdpt tables virt pdpt =
    let pdpte = tables pdpt (pdpt_index virt) in
    if is_present pdpte then through_pd tables virt (table_of pdpte) else 0

abbrev pub through_pml4 : Tables → ℕ → ℕ → ℕ
through_pml4 tables virt pml4 =
    let pml4e = tables pml4 (pml4_index virt) in
    if is_present pml4e then through_pdpt tables virt (table_of pml4e) else 0

unfoldable pub vm_virt_to_phys : Statics → ℕ → Vm → ℕ
vm_virt_to_phys k virt s = through_pml4 s.tables virt k.pml4

-- `kernel_pml4[0] = …; for (i = 0; i < 4; i++) kernel_pdpt[i] = …;`
unfoldable pub link_statics : Statics → Vm → Vm
link_statics k s = set_entry k.pdpt 3 (entry_to (k.pd + 3 * vm_page_size)) (
    set_entry k.pdpt 2 (entry_to (k.pd + 2 * vm_page_size)) (
      set_entry k.pdpt 1 (entry_to (k.pd + 1 * vm_page_size))
        (set_entry k.pdpt 0 (entry_to k.pd) (set_entry k.pml4 0 (entry_to k.pdpt) s))))

-- The loop over the large pages, with so many rounds left at most.
unfoldable pub identity_loop : Statics → ℕ → ℕ → ℕ → ℕ → Vm → Bool × Vm
identity_loop k flags end zero addr s = (true, s)
identity_loop k flags end (suc left) addr s = elim (ltb addr end) [
  | false ↦ (true, s)
  | true ↦ elim (leb 4 (pdpt_index addr)) [
    | true ↦ (false, s)
    | false ↦ identity_loop k flags end left (addr + 0x200000) (
        set_entry (k.pd + pdpt_index addr * vm_page_size) (pd_index addr)
          (bit_or (bit_or addr flags) vm_flag_huge) s)
  ]
]

unfoldable pub vm_map_identity_2m : Statics → ℕ → ℕ → ℕ → Vm → Bool × Vm
unfolding link_statics
vm_map_identity_2m k start bytes flags s =
    if leb 1 (bit_and start 0x1FFFFF) || leb 1 (bit_and bytes 0x1FFFFF)
    then (false, s)
    else identity_loop k flags (u64 (start + bytes)) (bytes / 0x200000) start (link_statics k s)

-- VM_BOOT_MAP_BYTES
abbrev pub boot_map_bytes : ℕ
boot_map_bytes = 4 * 1024 * 1024 * 1024

unfoldable pub vm_init : Statics → Vm → Vm
vm_init k s =
    (vm_map_identity_2m k 0 boot_map_bytes
      (bit_or (bit_or vm_flag_present vm_flag_write) vm_flag_user)
      (record s { memory = Memory.vm_init s.memory })).1

-- A page that is given back is lost.
unfoldable pub vm_free_page : ℕ → Vm → Vm
vm_free_page page s = s

unfoldable pub vm_kernel_cr3 : Statics → ℕ
vm_kernel_cr3 k = k.pml4
