-- ===== src/Syscall/Opening.antt =====
-- SYS_OPEN of src/cpu/syscall.c: its failures.
use peanut_kernel.Common.{
  ℕ, ◌<◌, ◌≡◌, ◌≢◌, refl, ap, sym, ◌∙◌, true, false, none, some, List, length, get_or-set_self,
  get_or-set_ne, Bool-cases, Option-cases, inl, inr, arith, find_index-none, ℕ_discrete,
}
use peanut_kernel.Pseudo.Vfs.{vfs_is_pseudo_path}
use peanut_kernel.Syscall.{
  Fd, closed_fd, fd_max, failure, Services, System, Outcome, returns, fd_at, put_fd,
}
use peanut_kernel.Syscall.Descriptors.{
  is_unused, alloc_fd, read_file_into_mem, open_regular, open_in, do_open,
}
use peanut_kernel.Syscall.Invariant.{IsValid}
use peanut_kernel.Syscall.Isolation.{alloc_fd-IsFirst}
use peanut_kernel.Syscall.Handler.{Call, dispatch, syscall_handler}

-- The number in what a call tells its caller.
returned : Outcome → ℕ
returned (returns n) = n
returned o = 0

module _ {H D : Type 0} (v : Services H D) (s : System H D) (path : List ℕ) where
  -- Why SYS_OPEN fails.
  pub data OpenError (errno : ℕ) : Type 0 where
    table_full : errno ≡ 3 → ((i : ℕ) → i < fd_max → (fd_at s i).used ≡ true) → OpenError errno
    unreadable :
        errno ≡ 4
        → vfs_is_pseudo_path path ≡ false
        → read_file_into_mem v s.device path ≡ some none
        → OpenError errno

  -- SYS_OPEN has failed, and the same descriptors are in use as before.
  pub record IsOpenError (t : System H D) : Type 0 where
    pub reason : OpenError t.last_errno
    pub in_use : (i : ℕ) → (fd_at t i).used ≡ (fd_at s i).used
    pub same_device : t.device ≡ s.device

  not_failure : (fd : ℕ) → fd < fd_max → returns fd ≢ returns failure
  unfolding returned
  not_failure fd small e = let e' : fd ≡ failure = ap returned e in omega arith

  module _ (valid : IsValid v s) where
    pub slot-lt : (fd : ℕ) → alloc_fd s ≡ some fd → fd < fd_max
    slot-lt fd e = rw (← valid.slots) ((alloc_fd-IsFirst s fd e).within)

    free_slot : (fd : ℕ) → alloc_fd s ≡ some fd → (fd_at s fd).used ≡ false
    free_slot fd e =
        let free : is_unused (fd_at s fd) ≡ true = (alloc_fd-IsFirst s fd e).passes in ground arith

    given_back :
        (fd : ℕ) (f : Fd)
        → alloc_fd s ≡ some fd
        → f.used ≡ false
        → (i : ℕ) → (fd_at (put_fd s fd f) i).used ≡ (fd_at s i).used
    given_back fd f e unused i = elim (ℕ_discrete fd i) [
      | yes same ↦
          let within = (alloc_fd-IsFirst s fd e).within in
          rw (← same) (
            ap (λ (x : Fd). x.used) (get_or-set_self s.fds fd f closed_fd within)
            ∙ unused
            ∙ sym (free_slot fd e))
      | no other ↦ ap (λ (x : Fd). x.used) (get_or-set_ne s.fds fd i f closed_fd other)
    ]

    full_table : alloc_fd s ≡ none → (i : ℕ) → i < fd_max → (fd_at s i).used ≡ true
    unfolding alloc_fd
    full_table e i small =
        let within : i < length s.fds = rw (valid.slots) small in
        let busy : is_unused (fd_at s i) ≡ false =
          find_index-none is_unused closed_fd s.fds e i within in
        ground arith

    -- If SYS_OPEN returns -1 in a valid state, either all 16 descriptors are in use and the error is 3,
    -- or the path is not a pseudo path, its file could not be read into memory, and the error is 4. The
    -- same descriptors are in use as before, and the device is as it was.
    pub sys_open-IsOpenError :
        (syscall_handler v (Call.sys_open path) s).0 ≡ returns failure
        → IsOpenError (syscall_handler v (Call.sys_open path) s).1
    unfolding syscall_handler dispatch do_open open_in open_regular alloc_fd
    sys_open-IsOpenError = elim (Option-cases (alloc_fd s)) [
      | inl full ↦
          rw (full, do_open)
            (λ told. record {
              reason = table_full refl (full_table full);
              in_use = λ i. refl;
              same_device = refl;
            })
      | inr (fd, e) ↦ elim (Bool-cases (vfs_is_pseudo_path path)) [
        | inl pseudo ↦
            rw (e, pseudo, do_open, open_in) (λ told. absurd (not_failure fd (slot-lt fd e) told))
        | inr plain ↦ elim (Option-cases (read_file_into_mem v s.device path)) [
          | inl out ↦ rw (e, plain, out, do_open, open_in) (λ told. absurd (ground arith))
          | inr (none, r) ↦
              rw (e, plain, r, do_open, open_in)
                (λ told. record {
                  reason = unreadable refl plain r;
                  in_use = given_back fd _ e refl;
                  same_device = refl;
                })
          | inr (some (bytes, size), r) ↦
              rw (e, plain, r, do_open, open_in)
                (λ told. absurd (not_failure fd (slot-lt fd e) told))
        ]
      ]
    ]
