-- ===== src/Syscall.antt =====
-- src/cpu/syscall.c: the state that system calls change, and what they use of the rest of the kernel.
-- User pointers are the objects that they point at: a buffer is its bytes, a path its C string. A call
-- runs to its end before another begins.
pub mod Descriptors
pub mod Handler
pub mod Loading
pub mod Invariant
pub mod Reach
pub mod Isolation
pub mod Reading
pub mod Opening
pub mod FatFile
pub mod Closing
mod Examples
use peanut_kernel.Common.{
  ℕ, ◌+◌, ◌*◌, ◌-◌, ◌^◌, Bool, true, false, ◌&&◌, Option, none, some, List, [], ltb, length, get_or,
  set, replicate,
}
use peanut_kernel.Sched.{Sched}
use peanut_kernel.Pseudo.{Hardware, Kernel}
use peanut_kernel.Fat32.Volume.{Fat32Volume}
use peanut_kernel.Exfat.Volume.{ExfatVolume}

abbrev pub fd_max : ℕ
fd_max = 16

-- `contents` are the bytes that `data` points at, `none` a null pointer, and `path` is the C string in the
-- array. Each descriptor has bytes of its own: where `kalloc` gives overlapping memory, as Memory.Overlap
-- shows that it can, the model does not see what one file's bytes do to another's.
pub record Fd : Type 0 where
  pub used : Bool
  pub contents : Option (List ℕ)
  pub size : ℕ
  pub off : ℕ
  pub path : List ℕ
  pub is_pseudo : Bool
  pub dirty : Bool
  pub is_socket : Bool
  pub socket_domain : ℕ
  pub socket_type : ℕ
  pub socket_protocol : ℕ

abbrev pub closed_fd : Fd
closed_fd = record {
  used = false;
  contents = none;
  size = 0;
  off = 0;
  path = [];
  is_pseudo = false;
  dirty = false;
  is_socket = false;
  socket_domain = 0;
  socket_type = 0;
  socket_protocol = 0;
}

-- The root volume, by its `fs_kind`.
pub data PeanutVolume (D : Type 0) : Type 0 where
  fat32 : Fat32Volume D → PeanutVolume D
  exfat : ExfatVolume D → PeanutVolume D
  ext : PeanutVolume D

-- `extfs_stat`, `extfs_read_file` and `extfs_write_file` of src/fs/extfs.c on the root volume, at a
-- path: size and whether it is a directory; the buffer and the bytes read; whether 0 is returned.
pub record ExtFs (D : Type 0) : Type 0 where
  pub stat : D → List ℕ → Option (ℕ × Bool)
  pub read_file : D → List ℕ → List ℕ → ℕ → Option (List ℕ × ℕ)
  pub write_file : D → List ℕ → List ℕ → ℕ → Bool × D

-- What the calls use: the hardware, the address of `user_brk_arena`, `storage_get_root_volume()`, what
-- `kalloc` gives, with the bytes found there, the switches CONFIG_FS_EXFAT_WRITE and
-- CONFIG_FS_EXT*_WRITE, and whether `net_get_first_device()` can send. `loader` is
-- what src/programs/elf.c makes of a path and two arguments up to its call of `sched_create_user`: the
-- entry point and the stack pointer, `some none` where it returns -1, `none` where it goes on for ever;
-- the memory it loads the program to is not part of the state. `fuel` bounds the clusters of a
-- file or directory.
pub record Services (H D : Type 0) : Type 0 where
  pub hardware : Hardware H
  pub arena : ℕ
  pub root_volume : Option (PeanutVolume D)
  pub ext_fs : ExtFs D
  pub fresh : ℕ → Option (List ℕ)
  pub exfat_writable : Bool
  pub ext_writable : Bool
  pub can_send : Bool
  pub loader : D → List ℕ → List ℕ → Option (List ℕ) → Option (Option (ℕ × ℕ))
  pub fuel : ℕ

-- The static variables of the file with the parts of the kernel that calls change; `console` and
-- `sent` are what was printed and sent so far.
pub record System (H D : Type 0) : Type 0 where
  pub fds : List Fd
  pub user_brk_end : ℕ
  pub last_errno : ℕ
  pub sched : Sched
  pub pseudo : Kernel H
  pub device : D
  pub console : List ℕ
  pub sent : List (List ℕ)

-- What a call does to its caller: it returns a number, or a number with the user's buffer; it never
-- returns, because the kernel panics or enters another program, with its path and arguments; or a loop over a chain of clusters outlasts the fuel.
pub data Outcome : Type 0 where
  returns : ℕ → Outcome
  reads : ℕ → List ℕ → Outcome
  panics : Outcome
  loads : List ℕ → List ℕ → Option (List ℕ) → Outcome
  runs_on : Outcome

-- `(uint64_t)-1`
abbrev pub failure : ℕ
failure = 2 ^ 64 - 1

abbrev pub user_brk_arena_bytes : ℕ
user_brk_arena_bytes = 256 * 1024

module _ {H D : Type 0} where
  abbrev pub fd_at : System H D → ℕ → Fd
  fd_at s i = get_or s.fds i closed_fd

  -- `i < FD_MAX && fds[i].used`
  abbrev pub is_open : System H D → ℕ → Bool
  is_open s i = ltb i fd_max && (fd_at s i).used

  abbrev pub put_fd : System H D → ℕ → Fd → System H D
  put_fd s i f = record s { fds = set s.fds i f }

  -- `last_errno = code; return (uint64_t)-1;`
  abbrev pub fails : ℕ → System H D → Outcome × System H D
  fails code s = (returns failure, record s { last_errno = code })

  -- `syscall_init`, but for the processor's registers.
  unfoldable pub syscall_init : Services H D → System H D → System H D
  syscall_init v s = record s { user_brk_end = v.arena; last_errno = 0 }
