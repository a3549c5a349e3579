-- ===== src/Memory/Overlap.antt =====
-- src/freelib/kalloc.c and src/mm/vm.c both begin at `_kernel_end`: what becomes of that.
use peanut_kernel.Common.{
  ℕ, ◌+◌, ◌-◌, ◌*◌, ◌/◌, ◌^◌, ◌≤◌, ◌<◌, ◌≡◌, refl, ap, ◌∙◌, false, [], leb, arith, u64, bit_and,
  bit_and-round_16, bit_and-round_4096,
}
use peanut_kernel.Memory.{
  Memory, align_up_page, round_16, heap_start, vm_init, slab_init, vm_alloc_page, class_for, carve,
  refill, refilled, slab_alloc, take_free, alloc_block, kalloc_large, kalloc,
}

align_up_page_lem : (v : ℕ) → v < 2 ^ 63 → align_up_page v ≡ (v + 4095) / 4096 * 4096
unfolding align_up_page
align_up_page_lem v h =
    let e : u64 (v + 4096 - 1) ≡ v + 4095 = omega arith in
    ap (λ x. bit_and x 0xFFFFFFFFFFFFF000) e ∙ bit_and-round_4096 (v + 4095) (omega arith)

pub round_16_lem : (v : ℕ) → v < 2 ^ 63 → round_16 v ≡ (v + 15) / 16 * 16
unfolding round_16
round_16_lem v h =
    let e : u64 (v + 15) ≡ v + 15 = omega arith in
    ap (λ x. bit_and x 0xFFFFFFFFFFFFFFF0) e ∙ bit_and-round_16 (v + 15) (omega arith)

-- The memory of `a`, of `size_a` bytes, lies inside that of `b`.
pub record IsInside (a size_a b size_b : ℕ) : Type 0 where
  pub begins : b ≤ a
  pub ends : a + size_a ≤ b + size_b

-- The state behind `vm_init`, `slab_init` and `kalloc_init`.
abbrev pub started : Memory → Memory
started m = slab_init (vm_init (record m { heap = [] }))

first_address : (m : Memory) → (kalloc 32 (started m)).0 ≡ align_up_page m.kernel_end + 4032 + 8
unfolding kalloc slab_alloc class_for refilled refill vm_alloc_page carve slab_init vm_init
first_address m = refl

first_heap : (m : Memory) → (kalloc 32 (started m)).1.heap ≡ []
unfolding kalloc slab_alloc class_for refilled refill vm_alloc_page carve slab_init vm_init
first_heap m = refl

first_end : (m : Memory) → (kalloc 32 (started m)).1.kernel_end ≡ m.kernel_end
unfolding kalloc slab_alloc class_for refilled refill vm_alloc_page carve slab_init vm_init
first_end m = refl

second_address :
    (n : ℕ) (m : Memory)
    → 1024 < n
    → m.heap ≡ []
    → (kalloc n m).0 ≡ u64 (u64 (round_16 m.kernel_end) + 24)
unfolding kalloc kalloc_large alloc_block take_free heap_start
second_address n m large empty =
    let e : leb n 1024 ≡ false = ground arith in
    rw (e, kalloc) (ap (λ bs. (alloc_block (round_16 n) (heap_start m) bs).0) empty)

-- Behind the start-up, with the kernel's end below 2 ^ 63, the memory that `kalloc` gives for 32 bytes
-- lies inside the memory that it gives next for 8192 bytes or more.
pub kalloc-IsInside :
    (m : Memory) (n : ℕ)
    → m.kernel_end < 2 ^ 63
    → 8192 ≤ n
    → let a = kalloc 32 (started m) in IsInside a.0 32 (kalloc n a.1).0 n
kalloc-IsInside m n small large =
    let end = m.kernel_end in
    let page = align_up_page_lem end small in
    let start = round_16_lem end small in
    let second =
      second_address n (kalloc 32 (started m)).1 (omega arith) (first_heap m)
      ∙ ap (λ e. u64 (u64 (round_16 e) + 24)) (first_end m) in
    rw (first_address m, second, page, start) (record { begins = omega arith; ends = omega arith })
