-- ===== src/Syscall/Isolation.antt =====
-- src/cpu/syscall.c: which descriptors a call leaves alone.
use peanut_kernel.Common.{
  ℕ, ◌+◌, ◌-◌, ◌≡◌, ◌≢◌, refl, ap, sym, ◌∙◌, Bool, true, false, ◌||◌, Option, none, some, List, [],
  ltb, leb, ◌==◌, get_or, get_or-set_ne, copy_chars, u32, Bool-cases, Option-cases, inl, inr,
  some_eq, none-ne-some, arith, IsFirst, find_index-IsFirst,
}
use peanut_kernel.Sched.{sched_fork_current, sched_kill, sched_create_user}
use peanut_kernel.Pseudo.Vfs.{vfs_is_pseudo_path, vfs_pseudo_pread}
use peanut_kernel.Syscall.{
  Fd, closed_fd, user_brk_arena_bytes, PeanutVolume, Services, System, Outcome, fd_at, is_open,
  put_fd,
}
use peanut_kernel.Syscall.Descriptors.{
  is_unused, alloc_fd, read_file_into_mem, read_pseudo, read_memory, do_read, write_memory,
  do_write, open_regular, open_in, do_open, flush, do_close, path_cap, write_back, to_flush,
}
use peanut_kernel.Syscall.Handler.{
  Call, handle_brk, do_fork, do_kill, do_exec, enter_program, exec_from, new_socket, is_socket_fd,
  on_socket, returns_0, accept_on, do_accept, do_send, dispatch, syscall_handler,
}

-- Whether a call gets descriptor `i` to read, write or close.
abbrev pub is_given : Call → ℕ → Bool
is_given (Call.sys_read fd dst count) i = fd == i
is_given (Call.sys_write fd src count) i = fd == i
is_given (Call.sys_close fd) i = fd == i
is_given call i = false

-- A row of the table without the bytes of its memory.
abbrev pub null_or_not : Option (List ℕ) → Option (List ℕ)
null_or_not none = none
null_or_not (some bytes) = some []

abbrev pub row : Fd → Fd
row f = record f { contents = null_or_not f.contents }

module _ {H D : Type 0} where
  pub alloc_fd-IsFirst :
      (s : System H D) (fd : ℕ) → alloc_fd s ≡ some fd → IsFirst is_unused closed_fd s.fds fd
  unfolding alloc_fd
  alloc_fd-IsFirst s fd e = find_index-IsFirst is_unused closed_fd s.fds fd e

  pub flush-fds :
      (v : Services H D) (f : Fd) (s s' : System H D) → flush v f s ≡ some s' → s'.fds ≡ s.fds
  unfolding flush
  flush-fds v f s s' e = elim (Option-cases (to_flush f)) [
    | inl clean ↦ ap (λ (t : System H D). t.fds) (sym (some_eq (rw (clean, flush) at e)))
    | inr (bytes, dirty) ↦ elim (Option-cases v.root_volume) [
      | inl missing ↦
          ap (λ (t : System H D). t.fds) (sym (some_eq (rw (dirty, missing, flush) at e)))
      | inr (vol, there) ↦ elim (Option-cases (write_back v vol f bytes s.device)) [
        | inl out ↦ absurd (none-ne-some (rw (dirty, there, out, flush) at e))
        | inr (wr, w) ↦
            ap (λ (t : System H D). t.fds) (sym (some_eq (rw (dirty, there, w, flush) at e)))
      ]
    ]
  ]

module _ {H D : Type 0} (v : Services H D) (i : ℕ) where
  -- Descriptor `i` is the same in both states.
  record Same (s t : System H D) : Type 0 where
    same : fd_at t i ≡ fd_at s i

  put_fd-Same : (s : System H D) (fd : ℕ) (f : Fd) → fd ≢ i → Same s (put_fd s fd f)
  put_fd-Same s fd f ne = record { same = get_or-set_ne s.fds fd i f closed_fd ne }

  unchanged : (s : System H D) → Same s s
  unchanged s = record { same = refl }

  read_pseudo-Same :
      (fd : ℕ) (dst : List ℕ) (want : ℕ) (s : System H D)
      → fd ≢ i
      → Same s (read_pseudo v fd dst want s).1
  unfolding read_pseudo
  read_pseudo-Same fd dst want s ne =
      elim (Option-cases
        (vfs_pseudo_pread v.hardware (fd_at s fd).path (fd_at s fd).off dst want s.pseudo).0) [
          | inl e ↦ rw (e, read_pseudo) (record { same = refl })
          | inr (got, e) ↦
              rw (e, read_pseudo) (record { same = get_or-set_ne s.fds fd i _ closed_fd ne })
        ]

  read_memory-Same :
      (fd : ℕ) (dst : List ℕ) (want : ℕ) (s : System H D)
      → fd ≢ i
      → Same s (read_memory fd dst want s).1
  unfolding read_memory
  read_memory-Same fd dst want s ne = elim (Bool-cases (leb (fd_at s fd).size (fd_at s fd).off)) [
    | inl over ↦ rw (over, read_memory) (unchanged s)
    | inr inside ↦ elim (Option-cases (fd_at s fd).contents) [
      | inl null ↦ rw (inside, null, read_memory) (put_fd-Same s fd _ ne)
      | inr (bytes, e) ↦ rw (inside, e, read_memory) (put_fd-Same s fd _ ne)
    ]
  ]

  do_read-Same :
      (fd : ℕ) (dst : List ℕ) (count : ℕ) (s : System H D)
      → fd ≢ i
      → Same s (do_read v fd dst count s).1
  unfolding do_read
  do_read-Same fd dst count s ne = elim (Bool-cases (is_open s fd)) [
    | inr closed ↦ rw (closed, do_read) (record { same = refl })
    | inl opened ↦ elim (Bool-cases (fd_at s fd).is_pseudo) [
      | inl pseudo ↦ rw (opened, pseudo, do_read) (read_pseudo-Same fd dst (u32 count) s ne)
      | inr plain ↦ rw (opened, plain, do_read) (read_memory-Same fd dst (u32 count) s ne)
    ]
  ]

  write_memory-Same :
      (fd : ℕ) (src : List ℕ) (want : ℕ) (s : System H D)
      → fd ≢ i
      → Same s (write_memory fd src want s).1
  unfolding write_memory
  write_memory-Same fd src want s ne = elim (Option-cases (fd_at s fd).contents) [
    | inl null ↦ rw (null, write_memory) (record { same = refl })
    | inr (bytes, e) ↦ elim (Bool-cases (leb (fd_at s fd).size (fd_at s fd).off)) [
      | inl over ↦ rw (e, over, write_memory) (unchanged s)
      | inr inside ↦ rw (e, inside, write_memory) (put_fd-Same s fd _ ne)
    ]
  ]

  do_write-Same :
      (fd : ℕ) (src : List ℕ) (count : ℕ) (s : System H D)
      → fd ≢ i
      → Same s (do_write fd src count s).1
  unfolding do_write
  do_write-Same fd src count s ne = elim (Bool-cases (is_open s fd)) [
    | inr closed ↦ elim (Bool-cases (fd == 1 || fd == 2)) [
      | inl std ↦ rw (closed, std, do_write) (record { same = refl })
      | inr other ↦ rw (closed, other, do_write) (record { same = refl })
    ]
    | inl opened ↦ elim (Bool-cases (fd_at s fd).is_pseudo) [
      | inl pseudo ↦ rw (opened, pseudo, do_write) (record { same = refl })
      | inr plain ↦ rw (opened, plain, do_write) (write_memory-Same fd src (u32 count) s ne)
    ]
  ]

  do_close-Same : (fd : ℕ) (s : System H D) → fd ≢ i → Same s (do_close v fd s).1
  unfolding do_close
  do_close-Same fd s ne = elim (Bool-cases (is_open s fd)) [
    | inr closed ↦ rw (closed, do_close) (record { same = refl })
    | inl opened ↦ elim (Option-cases (flush v (fd_at s fd) s)) [
      | inl out ↦ rw (opened, out, do_close) (unchanged s)
      | inr (s', e) ↦
          rw (opened, e, do_close)
            (record {
              same =
                  get_or-set_ne s'.fds fd i _ closed_fd ne
                  ∙ ap (λ fds. get_or fds i closed_fd) (flush-fds v (fd_at s fd) s s' e);
            })
    ]
  ]

  -- A call that takes a new slot does not take one in use.
  module _ (s : System H D) (used : (fd_at s i).used ≡ true) where
    fresh_ne : (fd : ℕ) → alloc_fd s ≡ some fd → fd ≢ i
    fresh_ne fd e same =
        let free : is_unused (fd_at s fd) ≡ true = (alloc_fd-IsFirst s fd e).passes in
        let busy : (fd_at s fd).used ≡ true = rw same used in absurd (ground arith)

    open_regular-Same :
        (fd : ℕ) (path : List ℕ) (o : Option (List ℕ × ℕ))
        → fd ≢ i
        → Same s (open_regular fd path o s).1
    unfolding open_regular
    open_regular-Same fd path none ne = record { same = get_or-set_ne s.fds fd i _ closed_fd ne }
    open_regular-Same fd path (some (bytes, size)) ne = put_fd-Same s fd _ ne

    open_in-Same : (fd : ℕ) (path : List ℕ) → fd ≢ i → Same s (open_in v fd path s).1
    unfolding open_in
    open_in-Same fd path ne = elim (Bool-cases (vfs_is_pseudo_path path)) [
      | inl pseudo ↦ rw (pseudo, open_in) (put_fd-Same s fd _ ne)
      | inr plain ↦ elim (Option-cases (read_file_into_mem v s.device path)) [
        | inl out ↦ rw (plain, out, open_in) (unchanged s)
        | inr (o, e) ↦
            rw (plain, e, open_in) (open_regular-Same fd (copy_chars path (path_cap - 1)) o ne)
      ]
    ]

    do_open-Same : (path : List ℕ) → Same s (do_open v path s).1
    unfolding do_open
    do_open-Same path = elim (Option-cases (alloc_fd s)) [
      | inl full ↦ rw (full, do_open) (record { same = refl })
      | inr (fd, e) ↦ rw (e, do_open) (open_in-Same fd path (fresh_ne fd e))
    ]

    new_socket-Same : (domain type protocol : ℕ) → Same s (new_socket v domain type protocol s).1
    unfolding new_socket
    new_socket-Same domain type protocol = elim (Option-cases (alloc_fd s)) [
      | inl full ↦ rw (full, new_socket) (record { same = refl })
      | inr (fd, e) ↦ rw (e, new_socket) (put_fd-Same s fd _ (fresh_ne fd e))
    ]

    handle_brk-Same : (addr : ℕ) → Same s (handle_brk v addr s).1
    unfolding handle_brk
    handle_brk-Same addr = elim (Bool-cases (addr == 0)) [
      | inl ask ↦ rw (ask, handle_brk) (unchanged s)
      | inr set_it ↦
          elim (Bool-cases (ltb addr v.arena || ltb (v.arena + user_brk_arena_bytes) addr)) [
            | inl bad ↦ rw (set_it, bad, handle_brk) (unchanged s)
            | inr good ↦ rw (set_it, good, handle_brk) (record { same = refl })
          ]
    ]

    do_fork-Same : (rip rsp rflags : ℕ) → Same s (do_fork rip rsp rflags s).1
    unfolding do_fork
    do_fork-Same rip rsp rflags =
        elim (Option-cases (sched_fork_current rip rsp rflags s.sched).0) [
          | inl full ↦ rw (full, do_fork) (record { same = refl })
          | inr (pid, e) ↦ rw (e, do_fork) (record { same = refl })
        ]

    do_kill-Same : (pid signal : ℕ) → Same s (do_kill pid signal s).1
    unfolding do_kill
    do_kill-Same pid signal = elim (Bool-cases (sched_kill (u32 pid) (u32 signal) s.sched).0) [
      | inl killed ↦ rw (killed, do_kill) (record { same = refl })
      | inr missing ↦ rw (missing, do_kill) (record { same = refl })
    ]

    enter_program-Same :
        (path argv0 : List ℕ) (argv1 : Option (List ℕ))
        → Same s (enter_program v path argv0 argv1 s).1
    unfolding enter_program
    enter_program-Same path argv0 argv1 = elim (Option-cases (v.loader s.device path argv0 argv1)) [
      | inl out ↦ rw (out, enter_program) (unchanged s)
      | inr (o, e) ↦ elim (Option-cases o) [
        | inl refused ↦ rw (e, refused, enter_program) (unchanged s)
        | inr (p, e') ↦ elim (Option-cases (sched_create_user p.0 p.1 s.sched).0) [
          | inl full ↦ rw (e, e', full, enter_program) (record { same = refl })
          | inr (pid, e'') ↦ rw (e, e', e'', enter_program) (record { same = refl })
        ]
      ]
    ]

    exec_from-Same :
        (root : Option (PeanutVolume D)) (path argv0 argv1 : Option (List ℕ))
        → Same s (exec_from v root path argv0 argv1 s).1
    unfolding exec_from
    exec_from-Same none path argv0 argv1 = record { same = refl }
    exec_from-Same (some vol) none argv0 argv1 = record { same = refl }
    exec_from-Same (some vol) (some p) argv0 argv1 = enter_program-Same _ _ _

    do_exec-Same : (path argv0 argv1 : Option (List ℕ)) → Same s (do_exec v path argv0 argv1 s).1
    unfolding do_exec
    do_exec-Same path argv0 argv1 = exec_from-Same v.root_volume path argv0 argv1

    on_socket-Same :
        (code sockfd : ℕ) (act : System H D → Outcome × System H D)
        → Same s (act s).1
        → Same s (on_socket code sockfd act s).1
    unfolding on_socket
    on_socket-Same code sockfd act done = elim (Bool-cases (is_socket_fd s sockfd)) [
      | inl good ↦ rw (good, on_socket) done
      | inr bad ↦ rw (bad, on_socket) (record { same = refl })
    ]

    do_send-Same : (sockfd : ℕ) (buf : List ℕ) (len : ℕ) → Same s (do_send v sockfd buf len s).1
    unfolding do_send on_socket
    do_send-Same sockfd buf len = elim (Bool-cases (is_socket_fd s sockfd)) [
      | inr bad ↦ rw (bad, do_send, on_socket) (record { same = refl })
      | inl good ↦ elim (Bool-cases v.can_send) [
        | inl ready ↦ rw (good, ready, do_send, on_socket) (record { same = refl })
        | inr down ↦ rw (good, down, do_send, on_socket) (record { same = refl })
      ]
    ]

    dispatch-Same : (call : Call) → is_given call i ≡ false → Same s (dispatch v call s).1
    unfolding dispatch do_accept
    dispatch-Same (Call.sys_read fd dst count) other = do_read-Same fd dst count s (ground arith)
    dispatch-Same (Call.sys_write fd src count) other = do_write-Same fd src count s (ground arith)
    dispatch-Same (Call.sys_open path) other = do_open-Same path
    dispatch-Same (Call.sys_close fd) other = do_close-Same fd s (ground arith)
    dispatch-Same Call.sys_errno other = unchanged s
    dispatch-Same Call.sys_yield other = unchanged s
    dispatch-Same (Call.sys_fork rip rsp rflags) other = do_fork-Same rip rsp rflags
    dispatch-Same (Call.sys_brk addr) other = handle_brk-Same addr
    dispatch-Same (Call.sys_exec path argv0 argv1) other = do_exec-Same path argv0 argv1
    dispatch-Same (Call.sys_kill pid signal) other = do_kill-Same pid signal
    dispatch-Same (Call.sys_exit code) other = record { same = refl }
    dispatch-Same (Call.sys_socket domain type protocol) other =
        new_socket-Same (u32 domain) (u32 type) (u32 protocol)
    dispatch-Same (Call.sys_bind sockfd) other = on_socket-Same 21 sockfd returns_0 (unchanged s)
    dispatch-Same (Call.sys_listen sockfd) other = on_socket-Same 22 sockfd returns_0 (unchanged s)
    dispatch-Same (Call.sys_accept sockfd) other =
        let f = fd_at s (u32 sockfd) in
        on_socket-Same 23 sockfd (accept_on v sockfd)
          (new_socket-Same (f.socket_domain) (f.socket_type) (f.socket_protocol))
    dispatch-Same (Call.sys_connect sockfd) other = on_socket-Same 24 sockfd returns_0 (unchanged s)
    dispatch-Same (Call.sys_send sockfd buf len) other = do_send-Same sockfd buf len
    dispatch-Same (Call.sys_recv sockfd) other = on_socket-Same 26 sockfd returns_0 (unchanged s)
    dispatch-Same Call.sys_getaddrinfo other = record { same = refl }
    dispatch-Same (Call.unknown num) other = record { same = refl }

  -- A call changes nothing in the table's row of a descriptor in use but the one that it is given to
  -- read, write or close: its flags, path, size and offset and whether it has memory stay. Of the bytes
  -- in that memory it says nothing.
  pub syscall_handler-isolates :
      (call : Call) (s : System H D)
      → (fd_at s i).used ≡ true
      → is_given call i ≡ false
      → row (fd_at (syscall_handler v call s).1 i) ≡ row (fd_at s i)
  unfolding syscall_handler
  syscall_handler-isolates call s used other =
      ap row (dispatch-Same (record s { last_errno = 0 }) used call other).same
