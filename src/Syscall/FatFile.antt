-- ===== src/Syscall/FatFile.antt =====
-- SYS_OPEN and then SYS_READ of src/cpu/syscall.c on a file of a FAT volume of src/fs/fat32.c.
use peanut_kernel.Common.{
  ℕ, ◌-◌, ◌≤◌, ◌<◌, ◌≡◌, refl, ap, ◌∙◌, subst, true, false, some, List, min, length,
  get_or-set_self, copy_chars, byte_at, ◌^◌, arith, ==_refl,
}
use peanut_kernel.Pseudo.Vfs.{vfs_is_pseudo_path}
use peanut_kernel.Chain.Read.{file_byte}
use peanut_kernel.Fat32.Volume.{Fat32Volume}
use peanut_kernel.Fat32.Entry.{Fat32DirEntry, is_directory}
use peanut_kernel.Fat32.Directory.{fat32_find_root}
use peanut_kernel.Fat32.File.{fat_chain, fat32_read_file}
use peanut_kernel.Fat32.ReadFile.{fat32_read_file-IsRead}
use peanut_kernel.Syscall.{
  Fd, closed_fd, fat32, Services, System, Outcome, returns, reads, fd_at, is_open, put_fd,
}
use peanut_kernel.Syscall.Descriptors.{
  alloc_fd, load_fat32, read_file_into_mem, opened_file, open_regular, open_in, do_open, path_cap,
  fs_path_to_fat_name,
}
use peanut_kernel.Syscall.Loading.{IsLawful}
use peanut_kernel.Syscall.Invariant.{IsValid}
use peanut_kernel.Syscall.Isolation.{alloc_fd-IsFirst}
use peanut_kernel.Syscall.Reach.{syscall_handler-IsValid}
use peanut_kernel.Syscall.Opening.{slot-lt}
use peanut_kernel.Syscall.Reading as Reading
use peanut_kernel.Syscall.Handler.{Call, dispatch, syscall_handler}

-- A file of a FAT root volume that SYS_OPEN can open in slot `fd`: it is found at the path, its memory
-- can be had, and its chain is as long as its size.
pub record IsReadable {H D : Type 0} (v : Services H D) (s : System H D) (path : List ℕ)
    (vol : Fat32Volume D) (file : Fat32DirEntry) (fd : ℕ) : Type 0 where
  pub root : v.root_volume ≡ some (fat32 vol)
  pub sectors : (0 < vol.sectors_per_cluster) × (vol.sectors_per_cluster ≤ 8)
  pub regular : vfs_is_pseudo_path path ≡ false
  pub found :
      fat32_find_root v.fuel vol s.device (fs_path_to_fat_name path path_cap) ≡ some (some file)
  pub plain : is_directory file ≡ false
  pub enough : file.size < v.fuel
  pub memory : List ℕ
  pub fresh : v.fresh file.size ≡ some memory
  pub bytes : List ℕ
  pub whole :
      fat32_read_file v.fuel vol s.device (fs_path_to_fat_name path path_cap) memory file.size
      ≡ some (some (bytes, file.size))
  pub slot : alloc_fd s ≡ some fd

-- What the caller of SYS_READ is told: as many bytes as it asks for or as there are, in order.
pub record IsFileRead (count size : ℕ) (byte_of : ℕ → ℕ) (told_to : Outcome) : Type 0 where
  pub n : ℕ
  pub out : List ℕ
  pub told : told_to ≡ reads n out
  pub amount : n ≡ min count size
  pub got : (j : ℕ) → j < n → byte_at out j ≡ byte_of j

module _ {H D : Type 0} (v : Services H D) (lawful : IsLawful v) (s : System H D) (path : List ℕ)
    (vol : Fat32Volume D) (file : Fat32DirEntry) (fd : ℕ) (valid : IsValid v s)
    (readable : IsReadable v s path vol file fd) where
  loaded : read_file_into_mem v s.device path ≡ some (some (readable.bytes, file.size))
  unfolding read_file_into_mem load_fat32
  loaded = rw (
    readable.root, readable.regular, readable.found, readable.plain, readable.fresh, readable.whole,
    read_file_into_mem, load_fat32, ==_refl,
  )

  -- The state behind the call.
  opened : System H D
  opened =
      put_fd (record s { last_errno = 0 }) fd
        (record (opened_file (copy_chars path (path_cap - 1)) (fd_at s fd)) {
          contents = some readable.bytes;
          size = file.size;
        })

  opens : syscall_handler v (Call.sys_open path) s ≡ (returns fd, opened)
  unfolding syscall_handler dispatch do_open open_in open_regular alloc_fd opened
  opens = rw (readable.slot, readable.regular, loaded, do_open, open_in)

  -- The slot behind the call.
  slot : fd_at opened fd ≡ record (opened_file (copy_chars path (path_cap - 1)) (fd_at s fd)) {
    contents = some readable.bytes;
    size = file.size;
  }
  unfolding opened
  slot = get_or-set_self s.fds fd _ closed_fd ((alloc_fd-IsFirst s fd (readable.slot)).within)

  opened-IsValid : IsValid v opened
  opened-IsValid =
      subst (λ (r : Outcome × System H D). IsValid v r.1) opens
        (syscall_handler-IsValid v lawful (Call.sys_open path) s valid)

  opened-is_open : is_open opened fd ≡ true
  opened-is_open =
      let small = slot-lt v s path valid fd (readable.slot) in
      let used : (fd_at opened fd).used ≡ true = ap (λ (f : Fd). f.used) slot in ground arith

  -- The bytes of the memory are those of the file's cluster chain.
  chain_bytes :
      (j : ℕ)
      → j < file.size
      → byte_at readable.bytes j ≡ file_byte (fat_chain vol s.device) file.first_cluster j
  chain_bytes j h =
      let (pos, narrow) = readable.sectors in
      let room = lawful.fresh_length file.size (readable.memory) (readable.fresh) in
      let (returns_it, read) =
        fat32_read_file-IsRead vol s.device v.fuel (fs_path_to_fat_name path path_cap)
          (readable.memory) file.size file pos narrow (readable.found) (readable.plain)
          (omega arith) (omega arith) (readable.enough) in
      ap (byte_at readable.bytes) (omega arith)
      ∙ (read (readable.bytes, file.size) (readable.whole)).got j (omega arith)

  -- In a valid state with a free descriptor, SYS_OPEN of a file of a FAT root volume of at most 8
  -- sectors a cluster, whose chain is as long as its size, returns the descriptor; and SYS_READ there,
  -- into a buffer as long as the count, which is below 2 ^ 32, tells the caller the lesser of the count and the file's size,
  -- with as many bytes of the file's cluster chain, in order, at the start of the buffer.
  pub open_read-IsFileRead :
      (dst : List ℕ) (count : ℕ)
      → count < 2 ^ 32
      → count ≤ length dst
      → ((syscall_handler v (Call.sys_open path) s).0 ≡ returns fd)
        × IsFileRead count file.size
            (file_byte (fat_chain vol s.device) file.first_cluster)
            (syscall_handler v
              (Call.sys_read fd dst count)
              (syscall_handler v (Call.sys_open path) s).1).0
  open_read-IsFileRead dst count narrow room =
      let start : (fd_at opened fd).off ≡ 0 = ap (λ (f : Fd). f.off) slot in
      let held : (fd_at opened fd).contents ≡ some readable.bytes =
        ap (λ (f : Fd). f.contents) slot in
      let sized : length readable.bytes ≡ file.size =
        (opened-IsValid.descriptors fd).memory (readable.bytes) held
        ∙ ap (λ (f : Fd). f.size) slot in
      let r =
        Reading.syscall_handler-reads v opened fd (readable.bytes) opened-IsValid opened-is_open
          (ap (λ (f : Fd). f.is_pseudo) slot) held dst count narrow room in
      let t = r.taken in
      rw opens (
        refl,
        record {
          n = r.n;
          out = r.out;
          told = r.told;
          amount = let a = t.at_most in let b = t.in_file in let c = t.short in ground arith;
          got = λ j h.
              t.got j h
              ∙ ap (byte_at readable.bytes) (omega arith)
              ∙ chain_bytes j (let b = t.in_file in omega arith);
        },
      )
