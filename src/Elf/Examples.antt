-- ===== src/Elf/Examples.antt =====
-- Programs on a volume of two files, and the theorems about src/programs/elf.c there.
use peanut_kernel.Common.{
  ℕ, inl, ◌+◌, ◌*◌, ◌^◌, ◌≤◌, ◌<◌, ◌≡◌, refl, true, false, none, some, List, [], ◌∷◌, ◌++◌, ◌==◌,
  if◌then◌else◌, replicate, byte_at, length, arith,
}
use peanut_kernel.Sched.{
  sched_init, sched_create_user, sched_arm_user_preempt, sched_mark_user_live,
}
use peanut_kernel.Pseudo.Sample.{hw}
use peanut_kernel.Syscall.{Services, ext}
use peanut_kernel.Elf.{loads, load_image, request_of, elf_load_and_run_inner}
use peanut_kernel.Elf.Image.{e_phoff, e_phnum, program_headers, parse_shebang_line}
use peanut_kernel.Elf.Segments.{AllFit, IsLoaded, elf_load_and_run_inner-IsLoaded}
use peanut_kernel.Elf.Stack.{
  UserStack, Finds, user_stack, jump_to_ring3, jump_to_ring3-Finds, word_at,
}
use peanut_kernel.Elf.Scripts.{PassesOn, circle-runs_on}

-- A number below 65536 in 8 bytes.
abbrev word : ℕ → ℕ → List ℕ
word low high = low ∷ high ∷ replicate 6 0

-- An executable that is entered at 0x1002 and has one segment, 3 bytes and 2 zeros at 0x1000.
abbrev image : List ℕ
image =
    0x7F ∷ b'E' ∷ b'L' ∷ b'F' ∷ replicate 20 0
    ++ (word 2 0x10
        ++ (word 64 0
            ++ (replicate 16 0
                ++ (1 ∷ 0 ∷ replicate 6 0
                    ++ (1 ∷ 0 ∷ 0 ∷ 0 ∷ replicate 4 0
                        ++ (word 120 0
                            ++ (word 0 0x10
                                ++ (word 0 0x10
                                    ++ (word 3 0
                                        ++ (word 5 0 ++ (word 0 0 ++ (7 ∷ 8 ∷ 9 ∷ []))))))))))))

-- "/s"
abbrev script_path : List ℕ
script_path = b'/' ∷ b's' ∷ []

-- "/p"
abbrev program_path : List ℕ
program_path = b'/' ∷ b'p' ∷ []

-- "#! /s x", a script that is its own interpreter.
abbrev script : List ℕ
script = b'#' ∷ b'!' ∷ 32 ∷ b'/' ∷ b's' ∷ 32 ∷ b'x' ∷ 0x0A ∷ []

abbrev contents : List ℕ → List ℕ
contents path = if byte_at path 1 == b's' then script else image

abbrev services : Services ℕ ℕ
services = record {
  hardware = hw;
  arena = 0x10000;
  root_volume = some ext;
  ext_fs = record {
    stat = λ d p. some (length (contents p), false);
    read_file = λ d p buffer n. some (contents p, n);
    write_file = λ d p bytes n. (false, d);
  };
  fresh = λ n. some (replicate n 0);
  exfat_writable = true;
  ext_writable = true;
  can_send = false;
  loader = λ d path argv0 argv1. some none;
  fuel = 4;
}

first_line : parse_shebang_line script ≡ some (script_path, b'x' ∷ [])
unfolding parse_shebang_line
first_line = refl

image_loads : load_image services 0 ext program_path ≡ some (some image)
unfolding load_image
image_loads = refl

image_plain : request_of {D = ℕ} ext program_path image ≡ loads
unfolding request_of
image_plain = refl

-- Where kmalloc puts the buffers.
abbrev heap_at : ℕ → ℕ
heap_at depth = 0x100000

image_header : 64 ≤ length image
image_header = omega arith

image_headers : e_phoff image + 56 * e_phnum image ≤ length image
unfolding e_phoff e_phnum
image_headers = omega arith

image_room : 0x100000 + length image < 2 ^ 64
image_room = omega arith

image_fits : AllFit 0x100000 image (program_headers image)
unfolding program_headers
image_fits = ((λ load. (omega arith, omega arith, inl (omega arith))), tt)

elf_load_and_run_inner-IsLoaded_example :
    IsLoaded 0 heap_at services 0 ext
      (λ a. 0)
      program_path
      program_path
      none
      image
      image_loads
      image_plain
      image_header
      image_headers
      image_room
      image_fits
      (elf_load_and_run_inner 1 heap_at services 0 ext (λ a. 0) program_path program_path none)
elf_load_and_run_inner-IsLoaded_example =
    elf_load_and_run_inner-IsLoaded 0 heap_at services 0 ext (λ a. 0) program_path program_path none
      image image_loads image_plain image_header image_headers image_room image_fits

-- The paths of the circle.
abbrev IsScript : List ℕ → Type 0
IsScript path = path ≡ script_path

program-PassesOn : (path : List ℕ) → IsScript path → PassesOn services 0 ext IsScript path
unfolding load_image request_of
program-PassesOn path e = rw e (record {
  buffer = script;
  interp = script_path;
  argument = script_path;
  image = refl;
  asks = refl;
  again = refl;
})

circle-runs_on_example :
    elf_load_and_run_inner 100 heap_at services 0 ext (λ a. 0) script_path script_path none ≡ none
circle-runs_on_example =
    circle-runs_on services 0 ext IsScript program-PassesOn 100 heap_at (λ a. 0) script_path
      script_path none refl

abbrev old_words : ℕ → ℕ
old_words a = 99

abbrev stack : UserStack
stack = user_stack 0x200000 old_words program_path none

created : (sched_create_user 0x1002 stack.rsp (sched_init 3 0)).0 ≡ some 1
unfolding sched_create_user sched_init
created = refl

jump_to_ring3-Finds_example :
    (jump_to_ring3 0x200000 0x1002 program_path none old_words (sched_init 3 0)
      ≡ some (
        stack,
        sched_mark_user_live
            (sched_arm_user_preempt (sched_create_user 0x1002 stack.rsp (sched_init 3 0)).1),
      ))
    × Finds 0x200000 old_words none stack
jump_to_ring3-Finds_example =
    jump_to_ring3-Finds 0x200000 (omega arith) old_words program_path none 0x1002 (sched_init 3 0) 1
      created

count_missing : (word_at stack 0 ≡ 99) × (word_at stack 1 ≡ 1)
unfolding user_stack
count_missing = (refl, refl)
