-- ===== src/Elf/Image.antt =====
-- src/programs/elf.c: the contents of a file, and where its parts go.
use peanut_kernel.Common.{
  ℕ, zero, suc, ◌+◌, ◌-◌, ◌*◌, Bool, true, false, ◌||◌, ◌&&◌, Option, none, some, List, [], ◌∷◌,
  ◌==◌, ltb, leb, if◌then◌else◌, byte_at, drop, length, le16, le32, le64, c_string, copy_chars, u64,
}

abbrev pub elf_magic : ℕ
elf_magic = 0x464C457F

abbrev pub is_blank_char : ℕ → Bool
is_blank_char c = c == 32 || c == 9

abbrev pub is_line_end : ℕ → Bool
is_line_end c = c == 0x0A || c == 0x0D

abbrev pub skip_blanks : List ℕ → List ℕ
skip_blanks [] = []
skip_blanks (c ∷ cs) = if is_blank_char c then skip_blanks cs else c ∷ cs

-- The loop that fills `interp`, with room for so many characters: what it has read and what is left,
-- or -1.
unfoldable pub interp_word : ℕ → List ℕ → Option (List ℕ × List ℕ)
interp_word room [] = some ([], [])
interp_word room (c ∷ cs) = elim (is_line_end c || is_blank_char c) [
  | true ↦ some ([], c ∷ cs)
  | false ↦ elim room [
    | zero ↦ none
    | suc r ↦ elim (interp_word r cs) [ none ↦ none | some w ↦ some (c ∷ w.0, w.1) ]
  ]
]

-- The loop that fills `arg`.
unfoldable pub arg_text : ℕ → List ℕ → List ℕ
arg_text zero cs = []
arg_text (suc room) [] = []
arg_text (suc room) (c ∷ cs) = if is_line_end c then [] else c ∷ arg_text room cs

-- `bytes_read >= 2 && elf_buffer[0] == '#' && elf_buffer[1] == '!'`
abbrev pub is_script : List ℕ → Bool
is_script buffer = leb 2 (length buffer) && byte_at buffer 0 == b'#' && byte_at buffer 1 == b'!'

-- `interp` and `arg`, as C strings in arrays of 128 characters, or -1.
unfoldable pub parse_shebang_line : List ℕ → Option (List ℕ × List ℕ)
unfolding interp_word arg_text c_string
parse_shebang_line buffer =
    if is_script buffer
    then (elim (interp_word 127 (skip_blanks (drop 2 buffer))) [
      | none ↦ none
      | some w ↦
          if length w.0 == 0
          then none
          else some (c_string w.0, c_string (arg_text 127 (skip_blanks w.1)))
    ])
    else none

-- Elf64Header and Elf64Phdr, where the loader reads them.
unfoldable pub e_entry : List ℕ → ℕ
unfolding le64
e_entry buffer = le64 buffer 24

unfoldable pub e_phoff : List ℕ → ℕ
unfolding le64
e_phoff buffer = le64 buffer 32

unfoldable pub e_phnum : List ℕ → ℕ
unfolding le16
e_phnum buffer = le16 buffer 56

pub record Phdr : Type 0 where
  pub p_type : ℕ
  pub p_offset : ℕ
  pub p_vaddr : ℕ
  pub p_filesz : ℕ
  pub p_memsz : ℕ

-- `phdr[i]`
unfoldable pub phdr_at : List ℕ → ℕ → Phdr
unfolding e_phoff le32 le64
phdr_at buffer i =
    let at = e_phoff buffer + 56 * i in
    record {
      p_type = le32 buffer at;
      p_offset = le64 buffer (at + 8);
      p_vaddr = le64 buffer (at + 16);
      p_filesz = le64 buffer (at + 32);
      p_memsz = le64 buffer (at + 40);
    }

abbrev pub pt_load : ℕ
pt_load = 1

abbrev pub pt_interp : ℕ
pt_interp = 3

-- The program headers from `i` on.
unfoldable pub phdrs : ℕ → ℕ → List ℕ → List Phdr
unfolding phdr_at
phdrs zero i buffer = []
phdrs (suc left) i buffer = phdr_at buffer i ∷ phdrs left (i + 1) buffer

unfoldable pub program_headers : List ℕ → List Phdr
unfolding phdrs e_phnum
program_headers buffer = phdrs (e_phnum buffer) 0 buffer

-- The path that the first PT_INTERP header names, in an array of 256 characters.
unfoldable pub find_interp : List ℕ → List Phdr → Option (List ℕ)
unfolding copy_chars
find_interp buffer [] = none
find_interp buffer (p ∷ ps) =
    if p.p_type == pt_interp
    then some (copy_chars (drop p.p_offset buffer) 255)
    else find_interp buffer ps

-- The bytes at the addresses.
abbrev pub Memory : Type 0
Memory = ℕ → ℕ

abbrev pub store : Memory → ℕ → ℕ → Memory
store m addr byte a = if a == addr then byte else m a

-- The file's bytes at `elf_buffer`.
unfoldable pub with_image : ℕ → List ℕ → Memory → Memory
with_image base buffer m a =
    if leb base a && ltb a (base + length buffer) then byte_at buffer (a - base) else m a

-- `for (j = 0; j < p_filesz; j++) dest[j] = src[j];`
unfoldable pub copy_segment : ℕ → ℕ → ℕ → ℕ → Memory → Memory
copy_segment zero j src dest m = m
copy_segment (suc left) j src dest m =
    copy_segment left (j + 1) src dest (store m (u64 (dest + j)) (m (u64 (src + j))))

-- `for (j = p_filesz; j < p_memsz; j++) dest[j] = 0;`
unfoldable pub clear_segment : ℕ → ℕ → ℕ → Memory → Memory
clear_segment zero j dest m = m
clear_segment (suc left) j dest m = clear_segment left (j + 1) dest (store m (u64 (dest + j)) 0)

-- One PT_LOAD header, with `elf_buffer` at the address.
unfoldable pub load_segment : ℕ → Phdr → Memory → Memory
unfolding copy_segment clear_segment
load_segment base p m =
    clear_segment (p.p_memsz - p.p_filesz) p.p_filesz p.p_vaddr
      (copy_segment p.p_filesz 0 (u64 (base + p.p_offset)) p.p_vaddr m)

unfoldable pub load_segments : ℕ → List Phdr → Memory → Memory
unfolding load_segment
load_segments base [] m = m
load_segments base (p ∷ ps) m =
    load_segments base ps (if p.p_type == pt_load then load_segment base p m else m)
