-- ===== src/Elf/Scripts.antt =====
-- src/programs/elf.c: programs whose interpreters need one another.
use peanut_kernel.Common.{ℕ, zero, suc, ◌≡◌, refl, Option, none, some, List}
use peanut_kernel.Syscall.{PeanutVolume, Services}
use peanut_kernel.Elf.{passes_on, load_image, request_of, elf_load_and_run_inner}
use peanut_kernel.Elf.Image.{Memory, with_image}

module _ {H D : Type 0} (v : Services H D) (d : D) (vol : PeanutVolume D) where
  -- The file at a path can be read, and asks for an interpreter that is at a path of the same kind.
  pub record PassesOn (Circle : List ℕ → Type 0) (path : List ℕ) : Type 0 where
    pub buffer : List ℕ
    pub interp : List ℕ
    pub argument : List ℕ
    pub image : load_image v d vol path ≡ some (some buffer)
    pub asks : request_of vol path buffer ≡ passes_on interp argument
    pub again : Circle interp

  -- Where every file of a circle of paths asks for an interpreter out of the circle, the loader calls
  -- itself for ever on each of them: it returns at no depth.
  pub circle-runs_on :
      (Circle : List ℕ → Type 0)
      → ((path : List ℕ) → Circle path → PassesOn Circle path)
      → (depth : ℕ) (base : ℕ → ℕ) (m : Memory) (path argv0 : List ℕ) (argv1 : Option (List ℕ))
      → Circle path
      → elf_load_and_run_inner depth base v d vol m path argv0 argv1 ≡ none
  unfolding elf_load_and_run_inner
  circle-runs_on Circle asks zero base m path argv0 argv1 c = refl
  circle-runs_on Circle asks (suc depth) base m path argv0 argv1 c =
      let p = asks path c in
      rw (p.image, p.asks, elf_load_and_run_inner)
        (circle-runs_on Circle asks depth base (with_image (base depth) (p.buffer) m) (p.interp)
          (p.interp) (some p.argument) (p.again))
