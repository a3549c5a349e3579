-- ===== src/Syscall/Descriptors.antt =====
-- src/cpu/syscall.c: SYS_READ, SYS_WRITE, SYS_OPEN and SYS_CLOSE on the table of descriptors.
use peanut_kernel.Common.{
  ℕ, ◌+◌, ◌-◌, Bool, true, false, not, ◌||◌, ◌&&◌, Option, none, some, List, [], ◌∷◌, ◌++◌, ◌==◌,
  ltb, leb, if◌then◌else◌, map, byte_at, u32, copy, copy_chars, c_string, upper_ascii, skip_slash,
  find_index,
}
use peanut_kernel.Pseudo.Vfs.{vfs_is_pseudo_path, vfs_pseudo_pread}
use peanut_kernel.Fat32.Entry.{is_directory}
use peanut_kernel.Fat32.Directory.{fat32_find_root}
use peanut_kernel.Fat32.File.{fat32_read_file}
use peanut_kernel.Fat32.Volume.{Fat32Volume}
use peanut_kernel.Exfat.Entry as ExfatEntry
use peanut_kernel.Exfat.Directory.{exfat_find_root}
use peanut_kernel.Exfat.File.{exfat_read_file, exfat_write_file}
use peanut_kernel.Exfat.Volume.{ExfatVolume}
use peanut_kernel.Syscall.{
  Fd, PeanutVolume, fat32, exfat, ext, Services, System, Outcome, returns, reads, runs_on, fd_at,
  is_open, put_fd, fails,
}

-- The size of the path arrays.
abbrev pub path_cap : ℕ
path_cap = 160

unfoldable pub fs_path_to_fat_name : List ℕ → ℕ → List ℕ
unfolding copy_chars upper_ascii
fs_path_to_fat_name path cap = map upper_ascii (copy_chars (skip_slash path) (cap - 1))

-- `if (path[0] != '/') { p[0] = '/'; kstrcpy(p + 1, …); } else kstrcpy(p, …);`
unfoldable pub ext_path : List ℕ → List ℕ
unfolding copy_chars
ext_path path =
    if byte_at path 0 == b'/'
    then copy_chars path (path_cap - 1)
    else b'/' ∷ copy_chars path (path_cap - 2)

-- `want < left ? want : left`
abbrev pub take_bytes : ℕ → Fd → ℕ
take_bytes want f = if ltb want (f.size - f.off) then want else f.size - f.off

abbrev pub is_unused : Fd → Bool
is_unused f = not f.used

abbrev pub is_blank : List ℕ → Bool
is_blank [] = true
is_blank (c ∷ cs) = false

-- `*out` and `*out_sz`, unless `br != (uint32_t)size64` of a reader that returned.
abbrev pub if_whole : ℕ → Option (List ℕ × ℕ) → Option (List ℕ × ℕ)
if_whole size none = none
if_whole size (some r) = if r.1 == size then some (r.0, size) else none

-- What `alloc_fd` leaves in the slot it takes.
abbrev pub fresh_fd : Fd → Fd
fresh_fd f = record f {
  used = true;
  contents = none;
  size = 0;
  off = 0;
  is_pseudo = false;
  is_socket = false;
  path = [];
}

-- SYS_OPEN in the slot that `alloc_fd` found, with what was read of a regular file. A slot that is
-- given back keeps what was written to it.
abbrev pub opened_pseudo : List ℕ → Fd → Fd
opened_pseudo path f = record (fresh_fd f) { is_pseudo = true; dirty = false; path = path }

abbrev pub opened_file : List ℕ → Fd → Fd
opened_file path f = record (fresh_fd f) { dirty = false; path = path }

-- The memory that SYS_CLOSE has to write back.
unfoldable pub to_flush : Fd → Option (List ℕ)
to_flush f = if not f.is_pseudo && f.dirty && not (is_blank f.path) then f.contents else none

module _ {H D : Type 0} where
  -- `none` is -1.
  unfoldable pub alloc_fd : System H D → Option ℕ
  unfolding find_index
  alloc_fd s = find_index is_unused s.fds

  -- The outer option of the three readers is the fuel's, the inner `none` is -1.
  unfoldable pub load_fat32 :
      Services H D → Fat32Volume D → D → List ℕ → Option (Option (List ℕ × ℕ))
  unfolding fat32_find_root fat32_read_file
  load_fat32 v vol d name = elim (fat32_find_root v.fuel vol d name) [
    | none ↦ none
    | some found ↦ elim found [
      | none ↦ some none
      | some e ↦ if is_directory e then some none else (elim (v.fresh e.size) [
        | none ↦ some none
        | some buf ↦ elim (fat32_read_file v.fuel vol d name buf e.size) [
          | none ↦ none
          | some r ↦ some (if_whole e.size r)
        ]
      ])
    ]
  ]

  unfoldable pub load_exfat :
      Services H D → ExfatVolume D → D → List ℕ → Option (Option (List ℕ × ℕ))
  unfolding exfat_find_root exfat_read_file
  load_exfat v vol d name = elim (exfat_find_root v.fuel vol d name) [
    | none ↦ none
    | some found ↦ elim found [
      | none ↦ some none
      | some e ↦
          if ExfatEntry.is_directory e || ltb 0xFFFFFFFF e.size
          then some none
          else (elim (v.fresh e.size) [
            | none ↦ some none
            | some buf ↦ elim (exfat_read_file v.fuel vol d name buf e.size) [
              | none ↦ none
              | some r ↦ some (if_whole e.size r)
            ]
          ])
    ]
  ]

  unfoldable pub load_ext : Services H D → D → List ℕ → Option (List ℕ × ℕ)
  load_ext v d p = elim (v.ext_fs.stat d p) [
    | none ↦ none
    | some st ↦ if st.1 || ltb 0xFFFFFFFF st.0 then none else (elim (v.fresh st.0) [
      | none ↦ none
      | some buf ↦ if_whole st.0 (v.ext_fs.read_file d p buf st.0)
    ])
  ]

  -- The file's bytes and size; its results -1 and -2 are both the inner `none`.
  unfoldable pub read_file_into_mem : Services H D → D → List ℕ → Option (Option (List ℕ × ℕ))
  unfolding vfs_is_pseudo_path fs_path_to_fat_name ext_path load_fat32 load_exfat load_ext
  read_file_into_mem v d path = elim v.root_volume [
    | none ↦ some none
    | some volume ↦ if vfs_is_pseudo_path path then some none else (elim volume [
      | fat32 vol ↦ load_fat32 v vol d (fs_path_to_fat_name path path_cap)
      | exfat vol ↦ load_exfat v vol d (fs_path_to_fat_name path path_cap)
      | ext ↦ some (load_ext v d (ext_path path))
    ])
  ]

  -- SYS_READ on a pseudo file.
  unfoldable pub read_pseudo : Services H D → ℕ → List ℕ → ℕ → System H D → Outcome × System H D
  unfolding vfs_pseudo_pread
  read_pseudo v fd dst want s =
      let f = fd_at s fd in
      let r = vfs_pseudo_pread v.hardware f.path f.off dst want s.pseudo in
      elim r.0 [
        | none ↦ fails 1 (record s { pseudo = r.1 })
        | some got ↦ (
          reads got.1 got.0,
          put_fd (record s { pseudo = r.1 }) fd (record f { off = u32 (f.off + got.1) }),
        )
      ]

  -- SYS_READ on a file in memory; what it reads through a null `data` is undefined in C, and nothing here.
  unfoldable pub read_memory : ℕ → List ℕ → ℕ → System H D → Outcome × System H D
  unfolding copy
  read_memory fd dst want s =
      let f = fd_at s fd in
      if leb f.size f.off then (reads 0 dst, s) else (elim f.contents [
        | none ↦ (
          reads (take_bytes want f) dst,
          put_fd s fd (record f { off = f.off + take_bytes want f }),
        )
        | some bytes ↦ (
          reads (take_bytes want f) (copy dst 0 bytes f.off (take_bytes want f)),
          put_fd s fd (record f { off = f.off + take_bytes want f }),
        )
      ])

  unfoldable pub do_read : Services H D → ℕ → List ℕ → ℕ → System H D → Outcome × System H D
  unfolding read_pseudo read_memory
  do_read v fd dst count s =
      if is_open s fd
      then if (fd_at s fd).is_pseudo
        then read_pseudo v fd dst (u32 count) s
        else read_memory fd dst (u32 count) s
      else fails 2 s

  -- SYS_WRITE on an open descriptor that is not a pseudo file.
  unfoldable pub write_memory : ℕ → List ℕ → ℕ → System H D → Outcome × System H D
  unfolding copy
  write_memory fd src want s =
      let f = fd_at s fd in
      elim f.contents [
        | none ↦ fails 9 s
        | some bytes ↦ if leb f.size f.off then (returns 0, s) else (
          returns (take_bytes want f),
          put_fd s fd (record f {
            contents = some (copy bytes f.off src 0 (take_bytes want f));
            off = f.off + take_bytes want f;
            dirty = true;
          }),
        )
      ]

  unfoldable pub do_write : ℕ → List ℕ → ℕ → System H D → Outcome × System H D
  unfolding write_memory c_string
  do_write fd src count s =
      if is_open s fd
      then if (fd_at s fd).is_pseudo then fails 8 s else write_memory fd src (u32 count) s
      else if fd == 1 || fd == 2
      then (returns 0, record s { console = s.console ++ c_string src })
      else fails 10 s

  unfoldable pub open_regular : ℕ → List ℕ → Option (List ℕ × ℕ) → System H D → Outcome × System H D
  open_regular fd path none s =
      fails 4 (put_fd s fd (record (opened_file path (fd_at s fd)) { used = false }))
  open_regular fd path (some (bytes, size)) s = (
    returns fd,
    put_fd s fd (record (opened_file path (fd_at s fd)) { contents = some bytes; size = size }),
  )

  unfoldable pub open_in : Services H D → ℕ → List ℕ → System H D → Outcome × System H D
  unfolding vfs_is_pseudo_path read_file_into_mem open_regular copy_chars
  open_in v fd path s =
      if vfs_is_pseudo_path path
      then (returns fd, put_fd s fd (opened_pseudo (copy_chars path (path_cap - 1)) (fd_at s fd)))
      else (elim (read_file_into_mem v s.device path) [
        | none ↦ (runs_on, s)
        | some file ↦ open_regular fd (copy_chars path (path_cap - 1)) file s
      ])

  unfoldable pub do_open : Services H D → List ℕ → System H D → Outcome × System H D
  unfolding alloc_fd open_in
  do_open v path s = elim (alloc_fd s) [ none ↦ fails 3 s | some fd ↦ open_in v fd path s ]

  -- What SYS_CLOSE writes back to the root volume: whether `wr` is 0, and the device.
  unfoldable pub write_back : Services H D → PeanutVolume D → Fd → List ℕ → D → Option (Bool × D)
  unfolding exfat_write_file fs_path_to_fat_name ext_path
  write_back v (fat32 vol) f bytes d = some (false, d)
  write_back v (exfat vol) f bytes d =
      if v.exfat_writable
      then exfat_write_file v.fuel vol d (fs_path_to_fat_name f.path path_cap) bytes f.size
      else some (false, d)
  write_back v ext f bytes d =
      if v.ext_writable
      then some (v.ext_fs.write_file d (ext_path f.path) bytes f.size)
      else some (false, d)

  abbrev pub release : ℕ → System H D → System H D
  release fd s = put_fd s fd (record (fd_at s fd) { used = false })

  unfoldable pub flush : Services H D → Fd → System H D → Option (System H D)
  unfolding to_flush write_back
  flush v f s = elim (to_flush f) [
    | none ↦ some s
    | some bytes ↦ elim v.root_volume [
      | none ↦ some s
      | some volume ↦ elim (write_back v volume f bytes s.device) [
        | none ↦ none
        | some wr ↦
            some (record s { device = wr.1; last_errno = if wr.0 then s.last_errno else 11 })
      ]
    ]
  ]

  unfoldable pub do_close : Services H D → ℕ → System H D → Outcome × System H D
  unfolding flush
  do_close v fd s =
      if is_open s fd
      then (elim (flush v (fd_at s fd) s) [
        | none ↦ (runs_on, s)
        | some s' ↦ (returns 0, release fd s')
      ])
      else fails 5 s
