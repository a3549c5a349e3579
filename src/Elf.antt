-- ===== src/Elf.antt =====
-- src/programs/elf.c and elf.h: loading a program from a volume, and entering it.
-- Memory is a function of addresses, and kmalloc, a parameter, tells where `elf_buffer` lies in it: the
-- segments are copied from there, byte by byte. The headers are read from the file, once and before
-- the segments are copied, and a header past the file's end is read as 0. The nesting of the loader in
-- itself, for scripts and interpreters, runs on fuel.
pub mod Image
pub mod Segments
pub mod Stack
pub mod Scripts
mod Examples
use peanut_kernel.Common.{
  ℕ, zero, suc, ◌+◌, ◌-◌, ◌*◌, ◌^◌, Bool, true, false, ◌||◌, ◌&&◌, Option, none, some, List, [],
  ◌∷◌, ◌==◌, ltb, if◌then◌else◌, map, byte_at, drop, le32, c_string, copy_chars, upper_ascii,
  skip_slash,
}
use peanut_kernel.Fat32.Entry.{is_directory}
use peanut_kernel.Fat32.Directory.{fat32_find_root}
use peanut_kernel.Fat32.File.{fat32_read_file}
use peanut_kernel.Exfat.Entry as ExfatEntry
use peanut_kernel.Exfat.Directory.{exfat_find_root}
use peanut_kernel.Exfat.File.{exfat_read_file}
use peanut_kernel.Syscall.{PeanutVolume, fat32, exfat, ext, Services}
use peanut_kernel.Syscall.Descriptors.{is_blank, if_whole, ext_path, path_cap}
use peanut_kernel.Elf.Image.{
  Memory, elf_magic, e_entry, program_headers, with_image, find_interp, load_segments,
  parse_shebang_line, is_script,
}

-- `(uint64_t)(1024u * 1024u * 16u)`
abbrev pub max_file_size : ℕ
max_file_size = 16 * 1024 * 1024

unfoldable pub fat_path_from_fs : List ℕ → ℕ → List ℕ
unfolding copy_chars upper_ascii
fat_path_from_fs path cap = map upper_ascii (copy_chars (skip_slash path) (cap - 1))

-- `if (path[0] == '/') { fat_path_from_fs(path, fatp, sizeof(fatp)); pth = fatp; }`
unfoldable pub fat_path : List ℕ → List ℕ
unfolding fat_path_from_fs
fat_path path = if byte_at path 0 == b'/' then fat_path_from_fs path path_cap else path

-- What `elf_load_and_run_inner` comes to: -1, or a program's first instruction with its arguments and
-- the memory that it finds.
pub data Launch : Type 0 where
  refused : Launch
  enters : ℕ → List ℕ → Option (List ℕ) → Memory → Launch

-- A name for the file systems other than ext.
unfoldable pub name_for : {D : Type 0} → PeanutVolume D → List ℕ → List ℕ
unfolding fat_path_from_fs
name_for (fat32 vol) path = fat_path_from_fs path 144
name_for (exfat vol) path = fat_path_from_fs path 144
name_for ext path = path

-- What the buffer asks for: nothing that the loader can do; to load another program, with its path as
-- first argument and with a second one; or to be loaded itself.
pub data Request : Type 0 where
  rejects : Request
  passes_on : List ℕ → List ℕ → Request
  loads : Request

-- The checks of `elf_load_and_run_inner` on the buffer, in their order.
unfoldable pub request_of : {D : Type 0} → PeanutVolume D → List ℕ → List ℕ → Request
unfolding name_for parse_shebang_line find_interp le32 program_headers
request_of vol path buffer =
    if is_script buffer
    then (elim (parse_shebang_line buffer) [
      | none ↦ rejects
      | some line ↦ passes_on (name_for vol line.0) (name_for vol path)
    ])
    else if le32 buffer 0 == elf_magic
    then (elim (find_interp buffer (program_headers buffer)) [
      | none ↦ loads
      | some interp ↦ passes_on (name_for vol interp) path
    ])
    else rejects

module _ {H D : Type 0} where
  -- `file_size`: the outer option is the fuel's, the inner `none` is -1.
  unfoldable pub size_of_file : Services H D → D → PeanutVolume D → List ℕ → Option (Option ℕ)
  unfolding fat32_find_root exfat_find_root fat_path ext_path
  size_of_file v d (fat32 vol) path = elim (fat32_find_root v.fuel vol d (fat_path path)) [
    | none ↦ none
    | some found ↦ elim found [
      | none ↦ some none
      | some e ↦ some (if is_directory e then none else some e.size)
    ]
  ]
  size_of_file v d (exfat vol) path = elim (exfat_find_root v.fuel vol d (fat_path path)) [
    | none ↦ none
    | some found ↦ elim found [
      | none ↦ some none
      | some e ↦ some (if ExfatEntry.is_directory e then none else some e.size)
    ]
  ]
  size_of_file v d ext path = elim (v.ext_fs.stat d (ext_path path)) [
    | none ↦ some none
    | some st ↦ some (if st.1 then none else some st.0)
  ]

  -- `rd` and `bytes_read`, into the buffer.
  unfoldable pub read_file :
      Services H D → D → PeanutVolume D → List ℕ → List ℕ → ℕ → Option (Option (List ℕ × ℕ))
  unfolding fat32_read_file exfat_read_file fat_path ext_path
  read_file v d (fat32 vol) path buffer size =
      fat32_read_file v.fuel vol d (fat_path path) buffer size
  read_file v d (exfat vol) path buffer size =
      exfat_read_file v.fuel vol d (fat_path path) buffer size
  read_file v d ext path buffer size = some (v.ext_fs.read_file d (ext_path path) buffer size)

  -- The file's bytes in `elf_buffer`.
  unfoldable pub load_image : Services H D → D → PeanutVolume D → List ℕ → Option (Option (List ℕ))
  unfolding size_of_file read_file
  load_image v d vol path = elim (size_of_file v d vol path) [
    | none ↦ none
    | some o ↦ elim o [
      | none ↦ some none
      | some size ↦
          if size == 0 || ltb max_file_size size then some none else (elim (v.fresh size) [
            | none ↦ some none
            | some buffer ↦ elim (read_file v d vol path buffer size) [
              | none ↦ none
              | some r ↦ some (elim (if_whole size r) [ none ↦ none | some whole ↦ some whole.0 ])
            ]
          ])
    ]
  ]

  -- `base` is where kmalloc puts the buffer of the load that leaves so much of the fuel.
  unfoldable pub elf_load_and_run_inner :
      ℕ
      → (ℕ → ℕ)
      → Services H D
      → D
      → PeanutVolume D
      → Memory
      → List ℕ
      → List ℕ
      → Option (List ℕ)
      → Option Launch
  unfolding load_image request_of e_entry program_headers with_image load_segments
  elf_load_and_run_inner zero base v d vol m path argv0 argv1 = none
  elf_load_and_run_inner (suc depth) base v d vol m path argv0 argv1 =
      elim (load_image v d vol path) [
        | none ↦ none
        | some o ↦ elim o [
          | none ↦ some refused
          | some buffer ↦ elim (request_of vol path buffer) [
            | rejects ↦ some refused
            | passes_on interp argument ↦
                elf_load_and_run_inner depth base v d vol (with_image (base depth) buffer m) interp
                  interp (some argument)
            | loads ↦ some (
                enters (e_entry buffer) argv0 argv1 (
                  load_segments (base depth) (program_headers buffer)
                    (with_image (base depth) buffer m)))
          ]
        ]
      ]

  unfoldable pub elf_load_and_run :
      ℕ → (ℕ → ℕ) → Services H D → D → PeanutVolume D → Memory → List ℕ → Option Launch
  unfolding elf_load_and_run_inner
  elf_load_and_run depth base v d vol m path =
      elf_load_and_run_inner depth base v d vol m path path none

  -- `argv0 ? argv0 : path`
  unfoldable pub elf_load_and_run_exec :
      ℕ
      → (ℕ → ℕ)
      → Services H D
      → D
      → PeanutVolume D
      → Memory
      → List ℕ
      → Option (List ℕ)
      → Option (List ℕ)
      → Option Launch
  unfolding elf_load_and_run_inner
  elf_load_and_run_exec depth base v d vol m path argv0 argv1 =
      elf_load_and_run_inner depth base v d vol m path (elim argv0 [ none ↦ path | some a ↦ a ])
        argv1
