-- ===== src/Syscall/Reach.antt =====
-- src/cpu/syscall.c: the calls that make, give back and only check a descriptor keep the invariant, and
-- so does every sequence of calls.
use peanut_kernel.Common.{
  ℕ, ◌+◌, ◌-◌, ◌≡◌, refl, subst, ◌||◌, true, false, Option, none, some, List, [], ◌∷◌, ltb, ◌==◌,
  length, replicate, get_or-replicate, copy_chars, u32, Bool-cases, Option-cases, inl, inr, some_eq,
  none-ne-some, arith,
}
use peanut_kernel.Sched.{
  Sched, sched_fork_current, sched_kill, sched_create_user, sched_arm_user_preempt,
  sched_mark_user_live,
}
use peanut_kernel.Sched.Reach.{with_flags-IsValid}
use peanut_kernel.Sched.Invariant as Sched_
use peanut_kernel.Sched.Operations.{
  sched_create_user-IsValid, sched_fork_current-IsValid, sched_kill-IsValid,
}
use peanut_kernel.Pseudo.Vfs.{vfs_is_pseudo_path}
use peanut_kernel.Syscall.{
  Fd, closed_fd, fd_max, user_brk_arena_bytes, PeanutVolume, Services, System, Outcome, fd_at,
  is_open, syscall_init,
}
use peanut_kernel.Syscall.Descriptors.{
  alloc_fd, read_file_into_mem, open_regular, open_in, do_open, flush, do_close, path_cap,
  write_back, to_flush, release,
}
use peanut_kernel.Syscall.Loading.{IsLawful, IsSized, read_file_into_mem-IsSized}
use peanut_kernel.Syscall.Invariant.{
  IsSound, IsValid, put_fd-IsValid, do_read-IsValid, do_write-IsValid,
}
use peanut_kernel.Syscall.Handler.{
  Call, handle_brk, do_fork, do_kill, do_exec, enter_program, exec_from, new_socket, is_socket_fd,
  on_socket, returns_0, accept_on, do_accept, do_send, dispatch, syscall_handler, run_calls,
}

-- A slot without memory, at its start.
bare-IsSound : (f : Fd) → f.contents ≡ none → f.off ≡ 0 → IsSound f
bare-IsSound f null start = record {
  memory = λ bytes e. absurd (ground arith);
  offset = λ p. omega arith;
}

module _ {H D : Type 0} (v : Services H D) where
  open_regular-IsValid :
      (fd : ℕ) (path : List ℕ) (o : Option (List ℕ × ℕ)) (s : System H D)
      → IsSized o
      → IsValid v s
      → IsValid v (open_regular fd path o s).1
  unfolding open_regular
  open_regular-IsValid fd path none s sized h = put_fd-IsValid v s fd _ h (bare-IsSound _ refl refl)
  open_regular-IsValid fd path (some (bytes, size)) s sized h = put_fd-IsValid v s fd _ h (record {
    memory =
        λ b e. subst (λ (x : List ℕ). length x ≡ size) (some_eq e) (sized.sized (bytes, size) refl);
    offset = λ p. omega arith;
  })

  module _ (lawful : IsLawful v) where
    open_in-IsValid :
        (fd : ℕ) (path : List ℕ) (s : System H D) → IsValid v s → IsValid v (open_in v fd path s).1
    unfolding open_in
    open_in-IsValid fd path s h = elim (Bool-cases (vfs_is_pseudo_path path)) [
      | inl pseudo ↦ rw (pseudo, open_in) (put_fd-IsValid v s fd _ h (bare-IsSound _ refl refl))
      | inr plain ↦ elim (Option-cases (read_file_into_mem v s.device path)) [
        | inl out ↦ rw (plain, out, open_in) h
        | inr (o, e) ↦
            rw (plain, e, open_in)
              (open_regular-IsValid fd (copy_chars path (path_cap - 1)) o s
                (read_file_into_mem-IsSized v lawful s.device path o e) h)
      ]
    ]

    do_open-IsValid :
        (path : List ℕ) (s : System H D) → IsValid v s → IsValid v (do_open v path s).1
    unfolding do_open
    do_open-IsValid path s h = elim (Option-cases (alloc_fd s)) [
      | inl full ↦ rw (full, do_open) h
      | inr (fd, e) ↦ rw (e, do_open) (open_in-IsValid fd path s h)
    ]

    new_socket-IsValid :
        (domain type protocol : ℕ) (s : System H D)
        → IsValid v s
        → IsValid v (new_socket v domain type protocol s).1
    unfolding new_socket
    new_socket-IsValid domain type protocol s h = elim (Option-cases (alloc_fd s)) [
      | inl full ↦ rw (full, new_socket) h
      | inr (fd, e) ↦
          rw (e, new_socket)
            (put_fd-IsValid v s fd _ h
              (record { memory = lawful.fresh_length 4096; offset = λ p. omega arith }))
    ]

  release-IsValid : (fd : ℕ) (s : System H D) → IsValid v s → IsValid v (release fd s)
  release-IsValid fd s h =
      put_fd-IsValid v s fd _ h
        (record { memory = (h.descriptors fd).memory; offset = (h.descriptors fd).offset })

  flush-IsValid : (f : Fd) (s s' : System H D) → flush v f s ≡ some s' → IsValid v s → IsValid v s'
  unfolding flush
  flush-IsValid f s s' e h = elim (Option-cases (to_flush f)) [
    | inl clean ↦ subst (IsValid v) (some_eq (rw (clean, flush) at e)) h
    | inr (bytes, dirty) ↦ elim (Option-cases v.root_volume) [
      | inl missing ↦ subst (IsValid v) (some_eq (rw (dirty, missing, flush) at e)) h
      | inr (vol, there) ↦ elim (Option-cases (write_back v vol f bytes s.device)) [
        | inl out ↦ absurd (none-ne-some (rw (dirty, there, out, flush) at e))
        | inr (wr, w) ↦ subst (IsValid v) (some_eq (rw (dirty, there, w, flush) at e)) h
      ]
    ]
  ]

  do_close-IsValid : (fd : ℕ) (s : System H D) → IsValid v s → IsValid v (do_close v fd s).1
  unfolding do_close
  do_close-IsValid fd s h = elim (Bool-cases (is_open s fd)) [
    | inr closed ↦ rw (closed, do_close) h
    | inl opened ↦ elim (Option-cases (flush v (fd_at s fd) s)) [
      | inl out ↦ rw (opened, out, do_close) h
      | inr (s', e) ↦
          rw (opened, e, do_close) (release-IsValid fd s' (flush-IsValid (fd_at s fd) s s' e h))
    ]
  ]

  handle_brk-IsValid : (addr : ℕ) (s : System H D) → IsValid v s → IsValid v (handle_brk v addr s).1
  unfolding handle_brk
  handle_brk-IsValid addr s h = elim (Bool-cases (addr == 0)) [
    | inl ask ↦ rw (ask, handle_brk) h
    | inr set_it ↦
        elim (Bool-cases (ltb addr v.arena || ltb (v.arena + user_brk_arena_bytes) addr)) [
          | inl bad ↦ rw (set_it, bad, handle_brk) h
          | inr good ↦
              rw (set_it, good, handle_brk)
                (record {
                  slots = h.slots;
                  descriptors = h.descriptors;
                  brk_low = ground arith;
                  brk_high = ground arith;
                  processes = h.processes;
                })
        ]
  ]

  with_sched-IsValid :
      (s : System H D) (t : Sched)
      → Sched_.IsValid t
      → IsValid v s
      → IsValid v (record s { sched = t })
  with_sched-IsValid s t valid h = record {
    slots = h.slots;
    descriptors = h.descriptors;
    brk_low = h.brk_low;
    brk_high = h.brk_high;
    processes = valid;
  }

  do_fork-IsValid :
      (rip rsp rflags : ℕ) (s : System H D) → IsValid v s → IsValid v (do_fork rip rsp rflags s).1
  unfolding do_fork
  do_fork-IsValid rip rsp rflags s h =
      let r = sched_fork_current rip rsp rflags s.sched in
      let after =
        with_sched-IsValid s r.1 (sched_fork_current-IsValid rip rsp rflags s.sched (h.processes))
          h in
      elim (Option-cases (sched_fork_current rip rsp rflags s.sched).0) [
        | inl none_free ↦ rw (none_free, do_fork) after
        | inr (pid, e) ↦ rw (e, do_fork) after
      ]

  do_kill-IsValid :
      (pid signal : ℕ) (s : System H D) → IsValid v s → IsValid v (do_kill pid signal s).1
  unfolding do_kill
  do_kill-IsValid pid signal s h =
      let r = sched_kill (u32 pid) (u32 signal) s.sched in
      let after =
        with_sched-IsValid s r.1 (sched_kill-IsValid (u32 pid) (u32 signal) s.sched (h.processes))
          h in
      elim (Bool-cases (sched_kill (u32 pid) (u32 signal) s.sched).0) [
        | inl killed ↦ rw (killed, do_kill) after
        | inr missing ↦ rw (missing, do_kill) after
      ]

  enter_program-IsValid :
      (path argv0 : List ℕ) (argv1 : Option (List ℕ)) (s : System H D)
      → IsValid v s
      → IsValid v (enter_program v path argv0 argv1 s).1
  unfolding enter_program sched_arm_user_preempt sched_mark_user_live
  enter_program-IsValid path argv0 argv1 s h =
      elim (Option-cases (v.loader s.device path argv0 argv1)) [
        | inl out ↦ rw (out, enter_program) h
        | inr (o, e) ↦ elim (Option-cases o) [
          | inl refused ↦ rw (e, refused, enter_program) h
          | inr (p, e') ↦
              let r = sched_create_user p.0 p.1 s.sched in
              let made = sched_create_user-IsValid p.0 p.1 s.sched (h.processes) in
              elim (Option-cases (sched_create_user p.0 p.1 s.sched).0) [
                | inl full ↦ rw (e, e', full, enter_program) (with_sched-IsValid s r.1 made h)
                | inr (pid, e'') ↦
                    rw (e, e', e'', enter_program)
                      (with_sched-IsValid s _ (with_flags-IsValid r.1 true false made) h)
              ]
        ]
      ]

  exec_from-IsValid :
      (root : Option (PeanutVolume D)) (path argv0 argv1 : Option (List ℕ)) (s : System H D)
      → IsValid v s
      → IsValid v (exec_from v root path argv0 argv1 s).1
  unfolding exec_from
  exec_from-IsValid none path argv0 argv1 s h = h
  exec_from-IsValid (some vol) none argv0 argv1 s h = h
  exec_from-IsValid (some vol) (some p) argv0 argv1 s h = enter_program-IsValid _ _ _ s h

  do_exec-IsValid :
      (path argv0 argv1 : Option (List ℕ)) (s : System H D)
      → IsValid v s
      → IsValid v (do_exec v path argv0 argv1 s).1
  unfolding do_exec
  do_exec-IsValid path argv0 argv1 s h = exec_from-IsValid v.root_volume path argv0 argv1 s h

  on_socket-IsValid :
      (code sockfd : ℕ) (act : System H D → Outcome × System H D) (s : System H D)
      → IsValid v (act s).1
      → IsValid v s
      → IsValid v (on_socket code sockfd act s).1
  unfolding on_socket
  on_socket-IsValid code sockfd act s done h = elim (Bool-cases (is_socket_fd s sockfd)) [
    | inl good ↦ rw (good, on_socket) done
    | inr bad ↦ rw (bad, on_socket) h
  ]

  do_send-IsValid :
      (sockfd : ℕ) (buf : List ℕ) (len : ℕ) (s : System H D)
      → IsValid v s
      → IsValid v (do_send v sockfd buf len s).1
  unfolding do_send on_socket
  do_send-IsValid sockfd buf len s h = elim (Bool-cases (is_socket_fd s sockfd)) [
    | inr bad ↦ rw (bad, do_send, on_socket) h
    | inl good ↦ elim (Bool-cases v.can_send) [
      | inl ready ↦ rw (good, ready, do_send, on_socket) h
      | inr down ↦ rw (good, down, do_send, on_socket) h
    ]
  ]

  module _ (lawful : IsLawful v) where
    dispatch-IsValid :
        (call : Call) (s : System H D) → IsValid v s → IsValid v (dispatch v call s).1
    unfolding dispatch do_accept
    dispatch-IsValid (Call.sys_read fd dst count) s h = do_read-IsValid v fd dst count s h
    dispatch-IsValid (Call.sys_write fd src count) s h = do_write-IsValid v fd src count s h
    dispatch-IsValid (Call.sys_open path) s h = do_open-IsValid lawful path s h
    dispatch-IsValid (Call.sys_close fd) s h = do_close-IsValid fd s h
    dispatch-IsValid Call.sys_errno s h = h
    dispatch-IsValid Call.sys_yield s h = h
    dispatch-IsValid (Call.sys_fork rip rsp rflags) s h = do_fork-IsValid rip rsp rflags s h
    dispatch-IsValid (Call.sys_brk addr) s h = handle_brk-IsValid addr s h
    dispatch-IsValid (Call.sys_exec path argv0 argv1) s h = do_exec-IsValid path argv0 argv1 s h
    dispatch-IsValid (Call.sys_kill pid signal) s h = do_kill-IsValid pid signal s h
    dispatch-IsValid (Call.sys_exit code) s h = h
    dispatch-IsValid (Call.sys_socket domain type protocol) s h =
        new_socket-IsValid lawful (u32 domain) (u32 type) (u32 protocol) s h
    dispatch-IsValid (Call.sys_bind sockfd) s h = on_socket-IsValid 21 sockfd returns_0 s h h
    dispatch-IsValid (Call.sys_listen sockfd) s h = on_socket-IsValid 22 sockfd returns_0 s h h
    dispatch-IsValid (Call.sys_accept sockfd) s h =
        let f = fd_at s (u32 sockfd) in
        on_socket-IsValid 23 sockfd (accept_on v sockfd) s
          (new_socket-IsValid lawful (f.socket_domain) (f.socket_type) (f.socket_protocol) s h) h
    dispatch-IsValid (Call.sys_connect sockfd) s h = on_socket-IsValid 24 sockfd returns_0 s h h
    dispatch-IsValid (Call.sys_send sockfd buf len) s h = do_send-IsValid sockfd buf len s h
    dispatch-IsValid (Call.sys_recv sockfd) s h = on_socket-IsValid 26 sockfd returns_0 s h h
    dispatch-IsValid Call.sys_getaddrinfo s h = h
    dispatch-IsValid (Call.unknown num) s h = h

    pub syscall_handler-IsValid :
        (call : Call) (s : System H D) → IsValid v s → IsValid v (syscall_handler v call s).1
    unfolding syscall_handler
    syscall_handler-IsValid call s h = dispatch-IsValid call (record s { last_errno = 0 }) h

    run_calls-IsValid :
        (calls : List Call) (s : System H D) → IsValid v s → IsValid v (run_calls v calls s)
    unfolding run_calls
    run_calls-IsValid [] s h = h
    run_calls-IsValid (call ∷ calls) s h =
        run_calls-IsValid calls (syscall_handler v call s).1 (syscall_handler-IsValid call s h)

    -- From a table of closed descriptors and a valid scheduler, `syscall_init` and then any sequence
    -- of calls lead to a state in which the table has its 16 slots, every descriptor's memory has the
    -- size it is said to have, no offset is past the end of a file in memory, the break lies in the
    -- arena, and the scheduler is valid; if `kalloc` gives as much as it is asked for and
    -- `extfs_read_file` stays in its buffer.
    pub syscalls-IsValid :
        (s : System H D) (calls : List Call)
        → s.fds ≡ replicate fd_max closed_fd
        → Sched_.IsValid s.sched
        → IsValid v (run_calls v calls (syscall_init v s))
    unfolding syscall_init
    syscalls-IsValid s calls closed valid = run_calls-IsValid calls (syscall_init v s) (record {
      slots = rw closed refl;
      descriptors = λ i. rw (closed, get_or-replicate) (bare-IsSound closed_fd refl refl);
      brk_low = omega arith;
      brk_high = omega arith;
      processes = valid;
    })
