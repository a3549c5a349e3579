-- ===== src/Syscall/Closing.antt =====
-- SYS_WRITE and then SYS_CLOSE of src/cpu/syscall.c on a file of a FAT volume.
use peanut_kernel.Common.{
  ℕ, ◌+◌, ◌<◌, ◌≡◌, refl, ap, ◌∙◌, true, false, some, List, leb, length, length-set,
  get_or-set_self, copy, u32, arith,
}
use peanut_kernel.Fat32.Volume.{Fat32Volume}
use peanut_kernel.Syscall.{
  Fd, closed_fd, fat32, Services, System, Outcome, returns, fd_at, is_open, put_fd,
}
use peanut_kernel.Syscall.Descriptors.{
  is_blank, take_bytes, write_memory, do_write, to_flush, write_back, flush, release, do_close,
}
use peanut_kernel.Syscall.Invariant.{IsValid}
use peanut_kernel.Syscall.Reading.{is_open-lt}
use peanut_kernel.Syscall.Handler.{Call, dispatch, syscall_handler}

do_close-flushed :
    {H D : Type 0} (v : Services H D) (fd : ℕ) (t t' : System H D)
    → is_open t fd ≡ true
    → flush v (fd_at t fd) t ≡ some t'
    → do_close v fd t ≡ (returns 0, release fd t')
unfolding do_close
do_close-flushed v fd t t' opened flushed = rw (opened, flushed, do_close)

-- The calls have told their caller that some bytes were written and the file closed, but the device is
-- as it was.
pub record IsLost {H D : Type 0} (fd : ℕ) (s : System H D)
    (wrote closed errno : Outcome × System H D) : Type 0 where
  pub n : ℕ
  pub told : wrote.0 ≡ returns n
  pub some_bytes : 0 < n
  pub done : closed.0 ≡ returns 0
  pub unused : (fd_at closed.1 fd).used ≡ false
  pub same_device : closed.1.device ≡ s.device
  pub error : closed.1.last_errno ≡ 11
  pub forgotten : errno.0 ≡ returns 0

errno_lem :
    {H D : Type 0} (v : Services H D) (s : System H D)
    → (syscall_handler v Call.sys_errno s).0 ≡ returns 0
unfolding syscall_handler dispatch
errno_lem v s = refl

module _ {H D : Type 0} (v : Services H D) (s : System H D) (vol : Fat32Volume D) (fd : ℕ)
    (bytes src : List ℕ) (count : ℕ) (valid : IsValid v s) (root : v.root_volume ≡ some (fat32 vol))
    (opened : is_open s fd ≡ true) (plain : (fd_at s fd).is_pseudo ≡ false)
    (holds : (fd_at s fd).contents ≡ some bytes) (named : is_blank (fd_at s fd).path ≡ false)
    (pos : 0 < u32 count) (inside : (fd_at s fd).off < (fd_at s fd).size) where
  -- How much SYS_WRITE takes, and what it leaves in the slot.
  abbrev taken : ℕ
  taken = take_bytes (u32 count) (fd_at s fd)

  abbrev written_fd : Fd
  written_fd = record (fd_at s fd) {
    contents = some (copy bytes (fd_at s fd).off src 0 taken);
    off = (fd_at s fd).off + taken;
    dirty = true;
  }

  abbrev written : System H D
  written = put_fd (record s { last_errno = 0 }) fd written_fd

  enters :
      syscall_handler v (Call.sys_write fd src count) s
      ≡ write_memory fd src (u32 count) (record s { last_errno = 0 })
  unfolding syscall_handler dispatch do_write
  enters = rw (opened, plain, do_write)

  writes : syscall_handler v (Call.sys_write fd src count) s ≡ (returns taken, written)
  unfolding write_memory
  writes =
      let left : leb (fd_at s fd).size (fd_at s fd).off ≡ false = ground arith in
      enters ∙ rw (holds, left, write_memory)

  slot : fd_at written fd ≡ written_fd
  slot = get_or-set_self s.fds fd written_fd closed_fd (rw (valid.slots) (is_open-lt s fd opened))

  written-is_open : is_open written fd ≡ true
  written-is_open =
      let small = is_open-lt s fd opened in
      let used : (fd_at s fd).used ≡ true = ground arith in
      let used' : (fd_at written fd).used ≡ true = ap (λ (f : Fd). f.used) slot ∙ used in
      ground arith

  dirty : to_flush written_fd ≡ some (copy bytes (fd_at s fd).off src 0 taken)
  unfolding to_flush
  dirty = rw (plain, named)

  flushes : (t : System H D) → flush v written_fd t ≡ some (record t { last_errno = 11 })
  unfolding flush write_back
  flushes t = rw (dirty, root, flush, write_back)

  closes :
      syscall_handler v (Call.sys_close fd) written
      ≡ (returns 0, release fd (record written { last_errno = 11 }))
  unfolding syscall_handler dispatch
  closes =
      let t = record written { last_errno = 0 } in
      do_close-flushed v fd t (record t { last_errno = 11 }) written-is_open
        (ap (λ f. flush v f t) slot ∙ flushes t)

  -- In a valid state, a descriptor in use holds a file of a FAT root volume, has a path and is not at
  -- its end. SYS_WRITE of at least one byte there returns a positive number, and SYS_CLOSE then
  -- returns 0 and closes it; but the device is as it was before both calls. The close has recorded
  -- error 11, and SYS_ERRNO behind it returns 0 nevertheless.
  pub write_close-IsLost :
      IsLost fd s
        (syscall_handler v (Call.sys_write fd src count) s)
        (syscall_handler v
          (Call.sys_close fd)
          (syscall_handler v (Call.sys_write fd src count) s).1)
        (syscall_handler v Call.sys_errno
          (syscall_handler v
            (Call.sys_close fd)
            (syscall_handler v (Call.sys_write fd src count) s).1).1)
  write_close-IsLost =
      let within : fd < length written.fds =
        rw (length-set, valid.slots) (is_open-lt s fd opened) in
      rw (writes, closes)
        (record {
          n = taken;
          told = refl;
          some_bytes = ground arith;
          done = refl;
          unused = ap (λ (f : Fd). f.used) (get_or-set_self written.fds fd _ closed_fd within);
          same_device = refl;
          error = refl;
          forgotten = errno_lem v _;
        })
