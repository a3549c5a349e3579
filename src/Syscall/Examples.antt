-- ===== src/Syscall/Examples.antt =====
-- Calls on a small FAT16 root volume, and the theorems about src/cpu/syscall.c there.
use peanut_kernel.Common.{
  ℕ, ◌<◌, ◌≡◌, refl, true, false, none, some, List, [], ◌∷◌, arith, length, replicate, none-ne-some,
  some_eq, length-replicate, subst,
}
use peanut_kernel.Sched.{sched_init}
use peanut_kernel.Sched.Invariant.{sched_init-IsValid}
use peanut_kernel.Pseudo.Sample.{hw, kernel}
use peanut_kernel.Pseudo.Vfs.{vfs_is_pseudo_path}
use peanut_kernel.Chain.Read.{file_byte}
use peanut_kernel.Fat32.Sample.{volume, a_entry, path}
use peanut_kernel.Fat32.Directory.{fat32_find_root}
use peanut_kernel.Fat32.File.{fat_chain, fat32_read_file}
use peanut_kernel.Syscall.{
  closed_fd, fd_max, fat32, Services, System, returns, failure, fd_at, is_open, syscall_init,
}
use peanut_kernel.Syscall.Descriptors.{is_blank, alloc_fd, fs_path_to_fat_name}
use peanut_kernel.Syscall.Loading.{IsLawful}
use peanut_kernel.Syscall.Invariant.{IsValid}
use peanut_kernel.Syscall.Reach.{syscalls-IsValid}
use peanut_kernel.Syscall.Isolation.{row, syscall_handler-isolates}
use peanut_kernel.Syscall.Reading.{IsRead, syscall_handler-reads}
use peanut_kernel.Syscall.Opening.{IsOpenError, sys_open-IsOpenError}
use peanut_kernel.Syscall.FatFile.{IsReadable, IsFileRead, open_read-IsFileRead}
use peanut_kernel.Syscall.Closing.{IsLost, write_close-IsLost}
use peanut_kernel.Syscall.Handler.{Call, syscall_handler, run_calls}

abbrev services : Services ℕ ℕ
services = record {
  hardware = hw;
  arena = 0x10000;
  root_volume = some (fat32 volume);
  ext_fs = record {
    stat = λ d p. none;
    read_file = λ d p buffer n. none;
    write_file = λ d p bytes n. (false, d);
  };
  fresh = λ n. some (replicate n 0);
  exfat_writable = true;
  ext_writable = true;
  can_send = false;
  loader = λ d path argv0 argv1. some none;
  fuel = 4;
}

services-IsLawful : IsLawful services
services-IsLawful = record {
  fresh_length = λ n b e. subst (λ (x : List ℕ). length x ≡ n) (some_eq e) (length-replicate n 0);
  ext_length = λ d p buffer n r e. absurd (none-ne-some e);
}

abbrev at_start : System ℕ ℕ
at_start = record {
  fds = replicate fd_max closed_fd;
  user_brk_end = 0;
  last_errno = 0;
  sched = sched_init 3 0;
  pseudo = kernel;
  device = 0;
  console = [];
  sent = [];
}

abbrev booted : System ℕ ℕ
booted = syscall_init services at_start

abbrev opened : System ℕ ℕ
opened = (syscall_handler services (Call.sys_open path) booted).1

opens : (syscall_handler services (Call.sys_open path) booted).0 ≡ returns 0
unfolding syscall_handler syscall_init
opens = refl

-- The two calls, then two that fail.
abbrev four_calls : List Call
four_calls =
    Call.sys_open path
    ∷ Call.sys_read 0 (1 ∷ 2 ∷ 3 ∷ 4 ∷ []) 4
    ∷ Call.sys_read 7 [] 4
    ∷ Call.sys_brk 5
    ∷ []

syscalls-IsValid_example : IsValid services (run_calls services four_calls booted)
syscalls-IsValid_example =
    syscalls-IsValid services services-IsLawful at_start four_calls refl (sched_init-IsValid 3 0)

booted-IsValid : IsValid services booted
unfolding run_calls
booted-IsValid =
    syscalls-IsValid services services-IsLawful at_start [] refl (sched_init-IsValid 3 0)

opened-IsValid : IsValid services opened
unfolding run_calls
opened-IsValid =
    syscalls-IsValid services services-IsLawful at_start (Call.sys_open path ∷ []) refl
      (sched_init-IsValid 3 0)

opened-used : (fd_at opened 0).used ≡ true
unfolding syscall_handler syscall_init
opened-used = refl

syscall_handler-isolates_example :
    row (fd_at (syscall_handler services (Call.sys_open path) opened).1 0) ≡ row (fd_at opened 0)
syscall_handler-isolates_example =
    syscall_handler-isolates services 0 (Call.sys_open path) opened opened-used refl

opened-is_open : is_open opened 0 ≡ true
unfolding syscall_handler syscall_init
opened-is_open = refl

opened-plain : (fd_at opened 0).is_pseudo ≡ false
unfolding syscall_handler syscall_init
opened-plain = refl

opened-contents : (fd_at opened 0).contents ≡ some (7 ∷ 8 ∷ 9 ∷ [])
unfolding syscall_handler syscall_init
opened-contents = refl

syscall_handler-reads_example :
    IsRead opened 0
      (7 ∷ 8 ∷ 9 ∷ [])
      (1 ∷ 2 ∷ 3 ∷ 4 ∷ [])
      4
      (syscall_handler services (Call.sys_read 0 (1 ∷ 2 ∷ 3 ∷ 4 ∷ []) 4) opened)
syscall_handler-reads_example =
    syscall_handler-reads services opened 0 (7 ∷ 8 ∷ 9 ∷ []) opened-IsValid opened-is_open
      opened-plain opened-contents (1 ∷ 2 ∷ 3 ∷ 4 ∷ []) 4 (omega arith) (omega arith)

-- "nix"
abbrev missing : List ℕ
missing = b'n' ∷ b'i' ∷ b'x' ∷ []

missing-fails : (syscall_handler services (Call.sys_open missing) opened).0 ≡ returns failure
unfolding syscall_handler syscall_init
missing-fails = refl

sys_open-IsOpenError_example :
    IsOpenError services opened missing (syscall_handler services (Call.sys_open missing) opened).1
sys_open-IsOpenError_example =
    sys_open-IsOpenError services opened missing opened-IsValid missing-fails

readable : IsReadable services booted path volume a_entry 0
unfolding syscall_init vfs_is_pseudo_path fat32_find_root fat32_read_file alloc_fd
    fs_path_to_fat_name
readable = record {
  root = refl;
  sectors = (omega arith, omega arith);
  regular = refl;
  found = refl;
  plain = refl;
  enough = omega arith;
  memory = replicate 3 0;
  fresh = refl;
  bytes = 7 ∷ 8 ∷ 9 ∷ [];
  whole = refl;
  slot = refl;
}

open_read-IsFileRead_example :
    ((syscall_handler services (Call.sys_open path) booted).0 ≡ returns 0)
    × IsFileRead 2 3
        (file_byte (fat_chain volume 0) 2)
        (syscall_handler services
          (Call.sys_read 0 (1 ∷ 2 ∷ 3 ∷ 4 ∷ []) 2)
          (syscall_handler services (Call.sys_open path) booted).1).0
unfolding syscall_init
open_read-IsFileRead_example =
    open_read-IsFileRead services services-IsLawful booted path volume a_entry 0 booted-IsValid
      readable (1 ∷ 2 ∷ 3 ∷ 4 ∷ []) 2 (omega arith) (omega arith)

opened-path : is_blank (fd_at opened 0).path ≡ false
unfolding syscall_handler syscall_init
opened-path = refl

opened-inside : (fd_at opened 0).off < (fd_at opened 0).size
unfolding syscall_handler syscall_init
opened-inside = omega arith

write_close-IsLost_example :
    IsLost 0 opened
      (syscall_handler services (Call.sys_write 0 (1 ∷ 2 ∷ []) 2) opened)
      (syscall_handler services
        (Call.sys_close 0)
        (syscall_handler services (Call.sys_write 0 (1 ∷ 2 ∷ []) 2) opened).1)
      (syscall_handler services Call.sys_errno
        (syscall_handler services
          (Call.sys_close 0)
          (syscall_handler services (Call.sys_write 0 (1 ∷ 2 ∷ []) 2) opened).1).1)
write_close-IsLost_example =
    write_close-IsLost services opened volume 0 (7 ∷ 8 ∷ 9 ∷ []) (1 ∷ 2 ∷ []) 2 opened-IsValid refl
      opened-is_open opened-plain opened-contents opened-path (omega arith) opened-inside
