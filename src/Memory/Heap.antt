-- ===== src/Memory/Heap.antt =====
-- The heap of src/freelib/kalloc.c: the memory that it gives is nobody else's.
use peanut_kernel.Common.{
  ℕ, zero, suc, ◌+◌, ◌^◌, ◌≤◌, ◌<◌, ◌≡◌, ◌⊎◌, refl, subst, true, false, ◌&&◌, some, List, [], ◌∷◌,
  ◌++◌, ◌==◌, leb, u64, length, get_or, arith, Bool-cases, Option-cases, inl, inr, some_eq,
  none-ne-some,
}
use peanut_kernel.Memory.{
  Block, Memory, round_16, heap_start, take_free, any_zero, header_at, heap_end, new_block,
  block_header, alloc_block, kalloc_large,
}
use peanut_kernel.Memory.Overlap.{round_16_lem}

abbrev pub no_block : Block
no_block = record { size = 0; is_free = true }

abbrev pub block_at : List Block → ℕ → Block
block_at bs j = get_or bs j no_block

-- Memory of `size` bytes was given at an address, out of a heap with blocks `bs`: it meets no block in
-- use, nor its header, and those blocks stay where and as they are.
pub record IsGiven (size start : ℕ) (bs : List Block) (result : ℕ × List Block) : Type 0 where
  pub inside : start + block_header ≤ result.0
  pub apart :
      (j : ℕ)
      → j < length bs
      → (block_at bs j).is_free ≡ false
      → (result.0 + size ≤ header_at start bs j)
        ⊎ (header_at start bs j + block_header + (block_at bs j).size ≤ result.0)
  pub kept :
      (j : ℕ)
      → j < length bs
      → (block_at bs j).is_free ≡ false
      → (block_at result.1 j ≡ block_at bs j) × (header_at start result.1 j ≡ header_at start bs j)
  pub no_zero : any_zero result.1 ≡ false

header_at-le : (start : ℕ) (bs : List Block) (j : ℕ) → start ≤ header_at start bs j
header_at-le start bs zero = omega arith
header_at-le start [] (suc j) = omega arith
header_at-le start (b ∷ bs) (suc j) =
    omega (arith, header_at-le (start + block_header + b.size) bs j)

heap_end-le : (start : ℕ) (bs : List Block) → start ≤ heap_end start bs
heap_end-le start [] = omega arith
heap_end-le start (b ∷ bs) = omega (arith, heap_end-le (start + block_header + b.size) bs)

header_at-heap_end :
    (start : ℕ) (bs : List Block) (j : ℕ)
    → j < length bs
    → header_at start bs j + block_header + (block_at bs j).size ≤ heap_end start bs
header_at-heap_end start [] j h = absurd (omega arith)
header_at-heap_end start (b ∷ bs) zero h = heap_end-le (start + block_header + b.size) bs
header_at-heap_end start (b ∷ bs) (suc j) h =
    header_at-heap_end (start + block_header + b.size) bs j (omega arith)

-- What is appended changes nothing before it.
append-kept :
    (start : ℕ) (bs : List Block) (new : Block) (j : ℕ)
    → j < length bs
    → (block_at (bs ++ (new ∷ [])) j ≡ block_at bs j)
      × (header_at start (bs ++ (new ∷ [])) j ≡ header_at start bs j)
append-kept start [] new j h = absurd (omega arith)
append-kept start (b ∷ bs) new zero h = (refl, refl)
append-kept start (b ∷ bs) new (suc j) h =
    append-kept (start + block_header + b.size) bs new j (omega arith)

append-any_zero :
    (bs : List Block) (size : ℕ)
    → 0 < size
    → any_zero bs ≡ false
    → any_zero (bs ++ (new_block size ∷ [])) ≡ false
append-any_zero [] size pos h = ground arith
append-any_zero (b ∷ bs) size pos h = ground (arith, append-any_zero bs size pos)

module _ (size : ℕ) (pos : 0 < size) where
  taken-IsGiven :
      (start : ℕ) (b : Block) (bs : List Block)
      → b.is_free ≡ true
      → size ≤ b.size
      → any_zero (b ∷ bs) ≡ false
      → IsGiven size start (b ∷ bs) (start + block_header, record b { is_free = false } ∷ bs)
  taken-IsGiven start b bs free fits nonzero = record {
    inside = omega arith;
    apart = λ j.
        elim j
          as (λ j.
            j < length (b ∷ bs)
            → (block_at (b ∷ bs) j).is_free ≡ false
            → (start + block_header + size ≤ header_at start (b ∷ bs) j)
              ⊎ (header_at start (b ∷ bs) j + block_header + (block_at (b ∷ bs) j).size
                  ≤ start + block_header)) [
                    | zero ↦ λ h used. absurd (ground arith)
                    | suc j ↦ λ h used.
                        inl (omega (arith, header_at-le (start + block_header + b.size) bs j))
                  ];
    kept = λ j.
        elim j
          as (λ j.
            j < length (b ∷ bs)
            → (block_at (b ∷ bs) j).is_free ≡ false
            → (block_at (record b { is_free = false } ∷ bs) j ≡ block_at (b ∷ bs) j)
              × (header_at start (record b { is_free = false } ∷ bs) j
                  ≡ header_at start (b ∷ bs) j)) [
                    | zero ↦ λ h used. absurd (ground arith)
                    | suc j ↦ λ h used. (refl, refl)
                  ];
    no_zero = nonzero;
  }

  -- A block that is passed over stays in front.
  passed-IsGiven :
      (start : ℕ) (b : Block) (bs : List Block) (r : ℕ × List Block)
      → any_zero (b ∷ bs) ≡ false
      → IsGiven size (start + block_header + b.size) bs r
      → IsGiven size start (b ∷ bs) (r.0, b ∷ r.1)
  passed-IsGiven start b bs r nonzero h = record {
    inside = let i = h.inside in omega arith;
    apart = λ j.
        elim j
          as (λ j.
            j < length (b ∷ bs)
            → (block_at (b ∷ bs) j).is_free ≡ false
            → (r.0 + size ≤ header_at start (b ∷ bs) j)
              ⊎ (header_at start (b ∷ bs) j + block_header + (block_at (b ∷ bs) j).size ≤ r.0)) [
                | zero ↦ λ w used. inr (let i = h.inside in omega arith)
                | suc j ↦ λ w used. h.apart j (omega arith) used
              ];
    kept = λ j.
        elim j
          as (λ j.
            j < length (b ∷ bs)
            → (block_at (b ∷ bs) j).is_free ≡ false
            → (block_at (b ∷ r.1) j ≡ block_at (b ∷ bs) j)
              × (header_at start (b ∷ r.1) j ≡ header_at start (b ∷ bs) j)) [
                | zero ↦ λ w used. (refl, refl)
                | suc j ↦ λ w used. h.kept j (omega arith) used
              ];
    no_zero = let z = h.no_zero in ground arith;
  }

  take_free-IsGiven :
      (start : ℕ) (bs : List Block) (r : ℕ × List Block)
      → any_zero bs ≡ false
      → take_free size start bs ≡ some r
      → IsGiven size start bs r
  unfolding take_free
  take_free-IsGiven start [] r nonzero h = absurd (none-ne-some h)
  take_free-IsGiven start (b ∷ bs) r nonzero h =
      let not_zero : (b.size == 0) ≡ false = ground arith in
      let later : any_zero bs ≡ false = ground arith in
      elim (Bool-cases (b.is_free && leb size b.size)) [
        | inl fits ↦
            subst (IsGiven size start (b ∷ bs)) (some_eq (rw (not_zero, fits, take_free) at h))
              (taken-IsGiven start b bs (ground arith) (ground arith) nonzero)
        | inr passed ↦ elim (Option-cases (take_free size (start + block_header + b.size) bs)) [
          | inl none_fits ↦ absurd (none-ne-some (rw (not_zero, passed, none_fits, take_free) at h))
          | inr (r', e) ↦
              subst (IsGiven size start (b ∷ bs))
                (some_eq (rw (not_zero, passed, e, take_free) at h))
                (passed-IsGiven start b bs r' nonzero
                  (take_free-IsGiven (start + block_header + b.size) bs r' later e))
        ]
      ]

  alloc_block-IsGiven :
      (start : ℕ) (bs : List Block)
      → any_zero bs ≡ false
      → heap_end start bs + block_header + size ≤ 2 ^ 64
      → IsGiven size start bs (alloc_block size start bs)
  unfolding alloc_block
  alloc_block-IsGiven start bs nonzero room = elim (Option-cases (take_free size start bs)) [
    | inr (r, e) ↦ rw (e, alloc_block) (take_free-IsGiven start bs r nonzero e)
    | inl full ↦
        let at : u64 (u64 (heap_end start bs) + block_header) ≡ heap_end start bs + block_header =
          omega arith in
        rw (full, nonzero, at, alloc_block)
          (record {
            inside = omega (arith, heap_end-le start bs);
            apart = λ j w used. inr (omega (arith, header_at-heap_end start bs j));
            kept = λ j w used. append-kept start bs (new_block size) j w;
            no_zero = append-any_zero bs size pos nonzero;
          })
  ]

-- Given as much as was rounded up, the caller has what it asked for.
IsGiven-weaken :
    (n size start : ℕ) (bs : List Block) (r : ℕ × List Block)
    → n ≤ size
    → IsGiven size start bs r
    → IsGiven n start bs r
IsGiven-weaken n size start bs r le h = record {
  inside = h.inside;
  apart = λ j w used. elim (h.apart j w used) [ inl a ↦ inl (omega arith) | inr a ↦ inr a ];
  kept = h.kept;
  no_zero = h.no_zero;
}

-- On a heap without blocks of size 0, behind whose end there is room for one more block of the size
-- below 2 ^ 64, `kalloc` behind the slabs gives a caller of at least one byte
-- and fewer than 2 ^ 63 memory that starts inside the heap and meets no block in use, nor the header of
-- one; the blocks in use stay where and as they are, and the heap still has no block of size 0.
pub kalloc_large-IsGiven :
    (n : ℕ) (m : Memory)
    → 0 < n
    → n < 2 ^ 63
    → any_zero m.heap ≡ false
    → heap_end (heap_start m) m.heap + block_header + n + 15 ≤ 2 ^ 64
    → let r = kalloc_large n m in IsGiven n (heap_start m) m.heap (r.0, r.1.heap)
unfolding kalloc_large
kalloc_large-IsGiven n m pos small nonzero room =
    let rounded = round_16_lem n small in
    IsGiven-weaken n (round_16 n) (heap_start m) m.heap
      (alloc_block (round_16 n) (heap_start m) m.heap) (omega arith)
      (alloc_block-IsGiven (round_16 n) (omega arith) (heap_start m) m.heap nonzero (omega arith))
