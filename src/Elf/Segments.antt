-- ===== src/Elf/Segments.antt =====
-- src/programs/elf.c: what memory holds behind the loops over the program headers.
use peanut_kernel.Common.{
  ℕ, zero, suc, ◌+◌, ◌-◌, ◌*◌, ◌^◌, ◌≤◌, ◌<◌, ◌≡◌, ◌⊎◌, true, length, refl, ap, ◌∙◌, Bool, ◌&&◌,
  Option, none, some, List, [], ◌∷◌, ◌==◌, ltb, leb, if◌then◌else◌, byte_at, u64, Bool-cases,
  Option-cases, inl, inr, arith,
}
use peanut_kernel.Syscall.{PeanutVolume, Services}
use peanut_kernel.Elf.{Launch, enters, loads, load_image, request_of, elf_load_and_run_inner}
use peanut_kernel.Elf.Image.{
  Phdr, Memory, store, pt_load, e_entry, e_phoff, e_phnum, with_image, program_headers,
  copy_segment, clear_segment, load_segment, load_segments,
}

-- How many bytes of memory a segment takes.
abbrev pub extent : Phdr → ℕ
extent p = if ltb p.p_filesz p.p_memsz then p.p_memsz else p.p_filesz

abbrev pub covers : Phdr → ℕ → Bool
covers p a = p.p_type == pt_load && (leb p.p_vaddr a && ltb a (p.p_vaddr + extent p))

-- The last of the segments that take an address.
abbrev pub last_cover : List Phdr → ℕ → Option Phdr
last_cover [] a = none
last_cover (p ∷ ps) a = elim (last_cover ps a) [
  | some q ↦ some q
  | none ↦ if covers p a then some p else none
]

-- What a segment has for an address that it takes: a byte of the file, or 0 behind those.
abbrev pub segment_byte : List ℕ → Phdr → ℕ → ℕ
segment_byte buffer p a =
    if ltb (a - p.p_vaddr) p.p_filesz then byte_at buffer (p.p_offset + (a - p.p_vaddr)) else 0

-- The byte that a program finds at an address.
abbrev pub loaded_byte : List ℕ → List Phdr → Memory → ℕ → ℕ
loaded_byte buffer ps m a = elim (last_cover ps a) [ none ↦ m a | some p ↦ segment_byte buffer p a ]

-- A segment that is loaded does not go past the end of the address space, its bytes lie in the file,
-- and it lies apart from the buffer, which is at `base`.
abbrev pub Fits : ℕ → List ℕ → Phdr → Type 0
Fits base buffer p =
    (p.p_vaddr + extent p ≤ 2 ^ 64)
    × (p.p_offset + p.p_filesz ≤ length buffer)
    × ((p.p_vaddr + extent p ≤ base) ⊎ (base + length buffer ≤ p.p_vaddr))

abbrev pub AllFit : ℕ → List ℕ → List Phdr → Type 0
AllFit base buffer [] = Unit
AllFit base buffer (p ∷ ps) =
    ((p.p_type == pt_load) ≡ true → Fits base buffer p) × AllFit base buffer ps

-- The file's bytes stand in memory at `base`.
abbrev Holds : ℕ → List ℕ → Memory → Type 0
Holds base buffer m = (k : ℕ) → k < length buffer → m (base + k) ≡ byte_at buffer k

store-Holds :
    (base : ℕ) (buffer : List ℕ) (m : Memory) (at byte : ℕ)
    → Holds base buffer m
    → (at < base) ⊎ (base + length buffer ≤ at)
    → Holds base buffer (store m at byte)
store-Holds base buffer m at byte holds (inl before) k h = ground (arith, holds k h)
store-Holds base buffer m at byte holds (inr behind) k h = ground (arith, holds k h)

copy_segment_lem :
    (base : ℕ) (buffer : List ℕ) (left j off dest : ℕ) (m : Memory) (a : ℕ)
    → Holds base buffer m
    → base + length buffer < 2 ^ 64
    → dest + (j + left) ≤ 2 ^ 64
    → off + (j + left) ≤ length buffer
    → (dest + (j + left) ≤ base) ⊎ (base + length buffer ≤ dest)
    → copy_segment left j (base + off) dest m a ≡ (
        if leb (dest + j) a && ltb a (dest + j + left)
        then byte_at buffer (off + (a - dest))
        else m a)
unfolding copy_segment
copy_segment_lem base buffer zero j off dest m a holds room fits inside apart = ground arith
copy_segment_lem base buffer (suc left) j off dest m a holds room fits inside apart =
    let at : u64 (dest + j) ≡ dest + j = omega arith in
    let from : u64 (base + off + j) ≡ base + (off + j) = omega arith in
    let byte : m (u64 (base + off + j)) ≡ byte_at buffer (off + j) =
      ap m from ∙ holds (off + j) (omega arith) in
    let m' : Memory = store m (u64 (dest + j)) (m (u64 (base + off + j))) in
    let ih =
      copy_segment_lem base buffer left (j + 1) off dest m' a
        (store-Holds base buffer m (u64 (dest + j)) (m (u64 (base + off + j))) holds
          (elim apart [ inl p ↦ inl (omega arith) | inr p ↦ inr (omega arith) ]))
        room (omega arith) (omega arith)
        (elim apart [ inl p ↦ inl (omega arith) | inr p ↦ inr p ]) in
    elim (Bool-cases (a == dest + j)) [
      | inl here ↦
          let same : off + (a - dest) ≡ off + j = ground arith in
          ih ∙ ground (arith, byte, ap (byte_at buffer) same)
      | inr other ↦ ih ∙ ground arith
    ]

clear_segment_lem :
    (left j dest : ℕ) (m : Memory) (a : ℕ)
    → dest + (j + left) ≤ 2 ^ 64
    → clear_segment left j dest m a
      ≡ (if leb (dest + j) a && ltb a (dest + j + left) then 0 else m a)
unfolding clear_segment
clear_segment_lem zero j dest m a fits = ground arith
clear_segment_lem (suc left) j dest m a fits =
    let at : u64 (dest + j) ≡ dest + j = omega arith in
    let ih = clear_segment_lem left (j + 1) dest (store m (u64 (dest + j)) 0) a (omega arith) in
    elim (Bool-cases (a == dest + j)) [
      | inl here ↦ ih ∙ ground arith
      | inr other ↦ ih ∙ ground arith
    ]

load_segment_lem :
    (base : ℕ) (buffer : List ℕ) (p : Phdr) (m : Memory) (a : ℕ)
    → Holds base buffer m
    → base + length buffer < 2 ^ 64
    → Fits base buffer p
    → load_segment base p m a
      ≡ (if leb p.p_vaddr a && ltb a (p.p_vaddr + extent p) then segment_byte buffer p a else m a)
unfolding load_segment
load_segment_lem base buffer p m a holds room (fits, inside, apart) =
    let n = p.p_filesz in
    let taken : n ≤ extent p = ground arith in
    let clip : u64 (base + p.p_offset) ≡ base + p.p_offset = omega arith in
    let copied = copy_segment n 0 (u64 (base + p.p_offset)) p.p_vaddr m in
    let first : copied a ≡ (
        if leb (p.p_vaddr + 0) a && ltb a (p.p_vaddr + 0 + n)
        then byte_at buffer (p.p_offset + (a - p.p_vaddr))
        else m a) =
      ap (λ src. copy_segment n 0 src p.p_vaddr m a) clip
      ∙ copy_segment_lem base buffer n 0 p.p_offset p.p_vaddr m a holds room (omega arith)
          (omega arith) (elim apart [ inl q ↦ inl (omega arith) | inr q ↦ inr q ]) in
    let second = clear_segment_lem (p.p_memsz - n) n p.p_vaddr copied a (ground arith) in
    second ∙ ground (arith, first)

load_segment-Holds :
    (base : ℕ) (buffer : List ℕ) (p : Phdr) (m : Memory)
    → Holds base buffer m
    → base + length buffer < 2 ^ 64
    → Fits base buffer p
    → Holds base buffer (load_segment base p m)
load_segment-Holds base buffer p m holds room (fits, inside, inl before) k h =
    load_segment_lem base buffer p m (base + k) holds room (fits, inside, inl before)
    ∙ ground (arith, holds k h)
load_segment-Holds base buffer p m holds room (fits, inside, inr behind) k h =
    load_segment_lem base buffer p m (base + k) holds room (fits, inside, inr behind)
    ∙ ground (arith, holds k h)

load_segments_lem :
    (base : ℕ) (buffer : List ℕ) (ps : List Phdr) (m : Memory) (a : ℕ)
    → Holds base buffer m
    → base + length buffer < 2 ^ 64
    → AllFit base buffer ps
    → load_segments base ps m a ≡ loaded_byte buffer ps m a
unfolding load_segments
load_segments_lem base buffer [] m a holds room fits = refl
load_segments_lem base buffer (p ∷ ps) m a holds room (fit, fits) =
    elim (Bool-cases (p.p_type == pt_load)) [
      | inr skip ↦
          rw (skip, load_segments)
            (load_segments_lem base buffer ps m a holds room fits
              ∙ elim (Option-cases (last_cover ps a)) [
                | inr (q, e) ↦ rw (e, loaded_byte)
                | inl e ↦ rw (e, skip, loaded_byte)
              ])
      | inl load ↦
          let m' = load_segment base p m in
          let one = load_segment_lem base buffer p m a holds room (fit load) in
          let kept = load_segment-Holds base buffer p m holds room (fit load) in
          let ih = load_segments_lem base buffer ps m' a kept room fits in
          rw (load, load_segments)
            (ih ∙ elim (Option-cases (last_cover ps a)) [
              | inr (q, e) ↦ rw (e, loaded_byte)
              | inl e ↦ rw (e, load, loaded_byte) (one ∙ ground arith)
            ])
    ]

with_image-Holds :
    (base : ℕ) (buffer : List ℕ) (m : Memory) → Holds base buffer (with_image base buffer m)
unfolding with_image
with_image-Holds base buffer m k h =
    let at : base + k - base ≡ k = omega arith in ground (arith, ap (byte_at buffer) at)

module _ {H D : Type 0} (depth : ℕ) (base : ℕ → ℕ) (v : Services H D) (d : D) (vol : PeanutVolume D)
    (m : Memory) (path argv0 : List ℕ) (argv1 : Option (List ℕ)) (buffer : List ℕ)
    (image : load_image v d vol path ≡ some (some buffer))
    (plain : request_of vol path buffer ≡ loads) (header : 64 ≤ length buffer)
    (headers : e_phoff buffer + 56 * e_phnum buffer ≤ length buffer)
    (room : base depth + length buffer < 2 ^ 64)
    (fit : AllFit (base depth) buffer (program_headers buffer)) where
  -- A program that is loaded: it is entered at its entry point with the arguments that were given, and
  -- what it finds in memory, where the buffer still holds the file.
  pub record IsLoaded (launch : Option Launch) : Type 0 where
    pub after : Memory
    pub launched : launch ≡ some (enters (e_entry buffer) argv0 argv1 after)
    pub bytes :
        (a : ℕ)
        → after a ≡ loaded_byte buffer (program_headers buffer) (with_image (base depth) buffer m) a

  -- A file that is read, asks for no interpreter, and whose ELF header, program headers and loaded
  -- segments lie within it is entered at its entry point with the arguments that were given, where
  -- the buffer ends below 2 ^ 64 and every loaded segment lies apart from it and does not go past the
  -- end of the address space. Every address then holds what the last loaded segment that takes it has
  -- there, a byte of the file or a zero behind those; the buffer holds the file, and every other
  -- address what it held before.
  pub elf_load_and_run_inner-IsLoaded :
      IsLoaded (elf_load_and_run_inner (suc depth) base v d vol m path argv0 argv1)
  unfolding elf_load_and_run_inner
  elf_load_and_run_inner-IsLoaded =
      let before = with_image (base depth) buffer m in
      record {
        after = load_segments (base depth) (program_headers buffer) before;
        launched = rw (image, plain, elf_load_and_run_inner);
        bytes = λ a.
            load_segments_lem (base depth) buffer (program_headers buffer) before a
              (with_image-Holds (base depth) buffer m) room fit;
      }
