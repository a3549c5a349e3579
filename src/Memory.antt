-- ===== src/Memory.antt =====
-- src/freelib/kalloc.c, src/freelib/slab.c and the pages of src/mm/vm.c: how the kernel gets memory.
-- An address is a number; an address past 2 ^ 64 does not wrap around. What the headers in memory
-- hold is part of the state: the heap's blocks in the order of their addresses, each behind its
-- header, and the class of every slot that was carved out of a page. This is what memory holds for as
-- long as nothing else is written there; Memory/Overlap shows where that ends. `kfree` gets what
-- `kalloc` gave.
pub mod Heap
pub mod Overlap
mod Examples
use peanut_kernel.Common.{
  ℕ, zero, suc, ◌+◌, ◌-◌, ◌*◌, ◌^◌, Bool, true, false, ◌&&◌, ◌||◌, Option, none, some, List, [],
  ◌∷◌, ◌++◌, ◌==◌, leb, if◌then◌else◌, get_or, set, replicate, find_index, find_entry, map, u64,
  bit_and,
}

-- BlockHeader; `next` is the block behind it in the list.
pub record Block : Type 0 where
  pub size : ℕ
  pub is_free : Bool

-- The static variables of the three files; `heap` is empty while the header at `heap_start` has size 0.
-- `slots` are the addresses with a SlabHeader in front, with their classes.
pub record Memory : Type 0 where
  pub kernel_end : ℕ
  pub heap : List Block
  pub page_bump : ℕ
  pub free_lists : List (List ℕ)
  pub slots : List (ℕ × ℕ)

-- `sizeof(BlockHeader)`, `sizeof(SlabHeader)` and VM_PAGE_SIZE
abbrev pub block_header : ℕ
block_header = 24

abbrev pub slab_header : ℕ
slab_header = 8

abbrev pub vm_page_size : ℕ
vm_page_size = 4096

-- `align_up` of src/mm/vm.c to pages, and the same of the heap to 16 bytes.
unfoldable pub align_up_page : ℕ → ℕ
align_up_page v = bit_and (u64 (v + 4096 - 1)) 0xFFFFFFFFFFFFF000

unfoldable pub round_16 : ℕ → ℕ
round_16 size = bit_and (u64 (size + 15)) 0xFFFFFFFFFFFFFFF0

unfoldable pub heap_start : Memory → ℕ
unfolding round_16
heap_start m = round_16 m.kernel_end

-- `vm_init`'s first line, with the tables of src/freelib/slab.c empty.
unfoldable pub vm_init : Memory → Memory
unfolding align_up_page
vm_init m = record m { page_bump = align_up_page m.kernel_end }

unfoldable pub slab_init : Memory → Memory
slab_init m = record m { free_lists = replicate 6 [] }

-- The page, which is never null, is filled with zeros.
unfoldable pub vm_alloc_page : Memory → ℕ × Memory
vm_alloc_page m = (m.page_bump, record m { page_bump = m.page_bump + vm_page_size })

abbrev pub class_sizes : List ℕ
class_sizes = 32 ∷ 64 ∷ 128 ∷ 256 ∷ 512 ∷ 1024 ∷ []

unfoldable pub class_for : ℕ → Option ℕ
unfolding find_index
class_for size = find_index (λ c. leb (u64 (size + slab_header)) c) class_sizes

-- The slots that the loop of `refill` pushes from `off` on, the last in front.
unfoldable pub carve : ℕ → ℕ → ℕ → ℕ → List ℕ → List ℕ
carve zero page slot off nodes = nodes
carve (suc left) page slot off nodes = elim (leb (off + slot) vm_page_size) [
  | false ↦ nodes
  | true ↦ carve left page slot (off + slot) ((page + off + slab_header) ∷ nodes)
]

abbrev pub with_class : ℕ → List ℕ → List (ℕ × ℕ)
with_class ci [] = []
with_class ci (a ∷ rest) = (a, ci) ∷ with_class ci rest

-- The smallest slots make the most rounds.
unfoldable pub refill : ℕ → Memory → Memory
unfolding vm_alloc_page carve
refill ci m =
    let r = vm_alloc_page m in
    let nodes = carve 128 r.0 (get_or class_sizes ci 0) 0 [] in
    record r.1 {
      free_lists = set m.free_lists ci (nodes ++ get_or m.free_lists ci []);
      slots = with_class ci nodes ++ m.slots;
    }

-- `n = free_lists[ci]; free_lists[ci] = n->next; return n;`
abbrev pub pop_slot : ℕ → List ℕ → Memory → Option ℕ × Memory
pop_slot ci [] m = (none, m)
pop_slot ci (n ∷ ns) m = (some n, record m { free_lists = set m.free_lists ci ns })

-- `free_lists[ci]` is refilled when it is empty.
unfoldable pub refilled : ℕ → List ℕ → Memory → Memory
unfolding refill
refilled ci [] m = refill ci m
refilled ci (n ∷ ns) m = m

unfoldable pub slab_alloc : ℕ → Memory → Option ℕ × Memory
unfolding class_for refilled
slab_alloc size m = elim (class_for size) [
  | none ↦ (none, m)
  | some ci ↦
      let m' = refilled ci (get_or m.free_lists ci []) m in
      pop_slot ci (get_or m'.free_lists ci []) m'
]

-- Whether there is a header with SLAB_MAGIC and a class in front of the address.
unfoldable pub slab_free : ℕ → Memory → Option Memory
unfolding find_entry
slab_free ptr m = elim (find_entry (λ (s : ℕ × ℕ). s.0 == ptr) m.slots) [
  | none ↦ none
  | some s ↦
      some (record m { free_lists = set m.free_lists s.1 (ptr ∷ get_or m.free_lists s.1 []) })
]

-- The loop of `kalloc` from a header at `addr`: the memory of the first free block that is large
-- enough, which is then in use.
unfoldable pub take_free : ℕ → ℕ → List Block → Option (ℕ × List Block)
take_free size addr [] = none
take_free size addr (b ∷ bs) =
    let rest = take_free size (addr + block_header + b.size) bs in
    if b.size == 0
    then none
    else if b.is_free && leb size b.size
    then some (addr + block_header, record b { is_free = false } ∷ bs)
    else (elim rest [ none ↦ none | some r ↦ some (r.0, b ∷ r.1) ])

-- Whether the loop stops at a block of size 0.
abbrev pub any_zero : List Block → Bool
any_zero [] = false
any_zero (b ∷ bs) = b.size == 0 || any_zero bs

-- The address of the header of block `i`; of the end of the heap, for the number of the blocks.
abbrev pub header_at : ℕ → List Block → ℕ → ℕ
header_at addr bs zero = addr
header_at addr [] (suc i) = addr
header_at addr (b ∷ bs) (suc i) = header_at (addr + block_header + b.size) bs i

abbrev pub heap_end : ℕ → List Block → ℕ
heap_end addr [] = addr
heap_end addr (b ∷ bs) = heap_end (addr + block_header + b.size) bs

abbrev pub new_block : ℕ → Block
new_block size = record { size = size; is_free = false }

-- `kalloc` behind the slabs, with the heap's first address. The blocks in the list lie below 2 ^ 64; a new
-- one whose address wraps round is listed, but what its header overwrites is not shown.
unfoldable pub alloc_block : ℕ → ℕ → List Block → ℕ × List Block
unfolding take_free
alloc_block size start bs = elim (take_free size start bs) [
  | some r ↦ r
  | none ↦
      if any_zero bs
      then (u64 (start + block_header), new_block size ∷ [])
      else (u64 (u64 (heap_end start bs) + block_header), bs ++ (new_block size ∷ []))
]

unfoldable pub kalloc_large : ℕ → Memory → ℕ × Memory
unfolding round_16 heap_start alloc_block
kalloc_large size m =
    let r = alloc_block (round_16 size) (heap_start m) m.heap in (r.0, record m { heap = r.1 })

unfoldable pub kalloc : ℕ → Memory → ℕ × Memory
unfolding slab_alloc kalloc_large
kalloc size m =
    if leb size 1024
    then (let r = slab_alloc size m in
        elim r.0 [ some ptr ↦ (ptr, r.1) | none ↦ kalloc_large size r.1 ])
    else kalloc_large size m

-- The block whose memory is at the address becomes free.
unfoldable pub free_block : ℕ → ℕ → List Block → List Block
free_block ptr addr [] = []
free_block ptr addr (b ∷ bs) =
    let rest = free_block ptr (addr + block_header + b.size) bs in
    if addr + block_header == ptr then record b { is_free = true } ∷ bs else b ∷ rest

unfoldable pub kfree_large : ℕ → Memory → Memory
unfolding heap_start free_block
kfree_large ptr m = if ptr == 0 then m else record m { heap = free_block ptr (heap_start m) m.heap }

unfoldable pub kfree : ℕ → Memory → Memory
unfolding slab_free kfree_large
kfree ptr m =
    if ptr == 0 then m else (elim (slab_free ptr m) [ some m' ↦ m' | none ↦ kfree_large ptr m ])
