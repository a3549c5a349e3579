-- ===== src/Syscall/Handler.antt =====
-- src/cpu/syscall.c: the other calls, the socket calls, and the dispatch of `syscall_handler`.
use peanut_kernel.Common.{
  ℕ, ◌+◌, ◌-◌, Bool, true, ◌||◌, ◌&&◌, Option, none, some, List, [], ◌∷◌, ◌++◌, ◌==◌, ltb,
  if◌then◌else◌, u32, copy_chars, take,
}
use peanut_kernel.Console.{kprint_int}
use peanut_kernel.Sched.{
  sched_fork_current, sched_kill, sched_create_user, sched_arm_user_preempt, sched_mark_user_live,
}
use peanut_kernel.Syscall.{
  Fd, PeanutVolume, Services, System, Outcome, returns, panics, loads, runs_on, failure,
  user_brk_arena_bytes, fd_at, is_open, put_fd, fails,
}
use peanut_kernel.Syscall.Descriptors.{
  is_blank, path_cap, fresh_fd, alloc_fd, do_read, do_write, do_open, do_close,
}

-- A call with its decoded arguments; a number is a register of 64 bits. A null pointer is `none`.
pub data Call : Type 0 where
  sys_read : (fd : ℕ) (dst : List ℕ) (count : ℕ) → Call
  sys_write : (fd : ℕ) (src : List ℕ) (count : ℕ) → Call
  sys_open : (path : List ℕ) → Call
  sys_close : (fd : ℕ) → Call
  sys_errno sys_yield : Call
  sys_fork : (user_rip user_rsp user_flags : ℕ) → Call
  sys_brk : (addr : ℕ) → Call
  sys_exec : (path argv0 argv1 : Option (List ℕ)) → Call
  sys_kill : (pid signal : ℕ) → Call
  sys_exit : (code : ℕ) → Call
  sys_socket : (domain type protocol : ℕ) → Call
  sys_bind sys_listen sys_accept sys_connect sys_recv : (sockfd : ℕ) → Call
  sys_send : (sockfd : ℕ) (buf : List ℕ) (len : ℕ) → Call
  sys_getaddrinfo : Call
  unknown : (num : ℕ) → Call

-- "\n[Process exited with code: ", "]\n" and "Unknown syscall: "
abbrev pub exit_text : List ℕ
exit_text =
    0x0A ∷ b'[' ∷ b'P' ∷ b'r' ∷ b'o' ∷ b'c' ∷ b'e' ∷ b's' ∷ b's' ∷ 32 ∷ b'e' ∷ b'x' ∷ b'i' ∷ b't'
    ∷ b'e' ∷ b'd' ∷ 32 ∷ b'w' ∷ b'i' ∷ b't' ∷ b'h' ∷ 32 ∷ b'c' ∷ b'o' ∷ b'd' ∷ b'e' ∷ b':' ∷ 32 ∷ []

abbrev pub unknown_text : List ℕ
unknown_text =
    b'U' ∷ b'n' ∷ b'k' ∷ b'n' ∷ b'o' ∷ b'w' ∷ b'n' ∷ 32 ∷ b's' ∷ b'y' ∷ b's' ∷ b'c' ∷ b'a' ∷ b'l'
    ∷ b'l' ∷ b':' ∷ 32 ∷ []

-- `copy_user_cstr` into an array of 160 characters.
unfoldable pub copy_user_cstr : Option (List ℕ) → List ℕ
unfolding copy_chars
copy_user_cstr none = []
copy_user_cstr (some s) = copy_chars s (path_cap - 1)

module _ {H D : Type 0} where
  unfoldable pub handle_brk : Services H D → ℕ → System H D → Outcome × System H D
  handle_brk v addr s =
      if addr == 0
      then (returns s.user_brk_end, s)
      else if ltb addr v.arena || ltb (v.arena + user_brk_arena_bytes) addr
      then (returns failure, s)
      else (returns addr, record s { user_brk_end = addr })

  unfoldable pub do_fork : ℕ → ℕ → ℕ → System H D → Outcome × System H D
  unfolding sched_fork_current
  do_fork user_rip user_rsp user_flags s =
      let r = sched_fork_current user_rip user_rsp user_flags s.sched in
      elim r.0 [
        | none ↦ fails 12 (record s { sched = r.1 })
        | some pid ↦ (returns pid, record s { sched = r.1 })
      ]

  unfoldable pub do_kill : ℕ → ℕ → System H D → Outcome × System H D
  unfolding sched_kill
  do_kill pid signal s =
      let r = sched_kill (u32 pid) (u32 signal) s.sched in
      if r.0 then (returns 0, record s { sched = r.1 }) else fails 13 (record s { sched = r.1 })

  -- `elf_load_and_run_exec`, whose `jump_to_ring3` makes the process and does not come back.
  unfoldable pub enter_program :
      Services H D → List ℕ → List ℕ → Option (List ℕ) → System H D → Outcome × System H D
  unfolding sched_create_user sched_arm_user_preempt sched_mark_user_live
  enter_program v path argv0 argv1 s = elim (v.loader s.device path argv0 argv1) [
    | none ↦ (runs_on, s)
    | some launch ↦ elim launch [
      | none ↦ (returns failure, s)
      | some program ↦
          let r = sched_create_user program.0 program.1 s.sched in
          elim r.0 [
            | none ↦ (panics, record s { sched = r.1 })
            | some pid ↦ (
              loads path argv0 argv1,
              record s { sched = sched_mark_user_live (sched_arm_user_preempt r.1) },
            )
          ]
    ]
  ]

  -- SYS_EXEC with the root volume, if there is one.
  unfoldable pub exec_from :
      Services H D
      → Option (PeanutVolume D)
      → Option (List ℕ)
      → Option (List ℕ)
      → Option (List ℕ)
      → System H D
      → Outcome × System H D
  unfolding copy_user_cstr enter_program
  exec_from v none path argv0 argv1 s = fails 6 s
  exec_from v (some vol) none argv0 argv1 s = fails 7 s
  exec_from v (some vol) (some p) argv0 argv1 s =
      let exec_path = copy_user_cstr (some p) in
      let argv0_buf = copy_user_cstr argv0 in
      let argv1_buf = copy_user_cstr argv1 in
      enter_program v exec_path (if is_blank argv0_buf then exec_path else argv0_buf)
        (if is_blank argv1_buf then none else some argv1_buf) s

  unfoldable pub do_exec :
      Services H D
      → Option (List ℕ)
      → Option (List ℕ)
      → Option (List ℕ)
      → System H D
      → Outcome × System H D
  unfolding exec_from
  do_exec v path argv0 argv1 s = exec_from v v.root_volume path argv0 argv1 s

  -- A new socket in slot `fd`, with 4096 bytes of memory.
  abbrev pub socket_fd : Services H D → ℕ → ℕ → ℕ → Fd → Fd
  socket_fd v domain type protocol f = record (fresh_fd f) {
    is_socket = true;
    socket_domain = domain;
    socket_type = type;
    socket_protocol = protocol;
    contents = v.fresh 4096;
    size = 4096;
  }

  unfoldable pub new_socket : Services H D → ℕ → ℕ → ℕ → System H D → Outcome × System H D
  unfolding alloc_fd
  new_socket v domain type protocol s = elim (alloc_fd s) [
    | none ↦ fails 20 s
    | some fd ↦ (returns fd, put_fd s fd (socket_fd v domain type protocol (fd_at s fd)))
  ]

  -- `(int)arg1`, in range, open and a socket.
  abbrev pub is_socket_fd : System H D → ℕ → Bool
  is_socket_fd s sockfd = is_open s (u32 sockfd) && (fd_at s (u32 sockfd)).is_socket

  -- The calls that only check the descriptor.
  unfoldable pub on_socket :
      ℕ → ℕ → (System H D → Outcome × System H D) → System H D → Outcome × System H D
  on_socket code sockfd act s = if is_socket_fd s sockfd then act s else fails code s

  abbrev pub returns_0 : System H D → Outcome × System H D
  returns_0 s = (returns 0, s)

  -- A socket like the one at `sockfd`.
  abbrev pub accept_on : Services H D → ℕ → System H D → Outcome × System H D
  accept_on v sockfd s =
      let f = fd_at s (u32 sockfd) in new_socket v f.socket_domain f.socket_type f.socket_protocol s

  unfoldable pub do_accept : Services H D → ℕ → System H D → Outcome × System H D
  unfolding on_socket new_socket
  do_accept v sockfd s = on_socket 23 sockfd (accept_on v sockfd) s

  unfoldable pub do_send : Services H D → ℕ → List ℕ → ℕ → System H D → Outcome × System H D
  unfolding on_socket
  do_send v sockfd buf len s =
      on_socket 25 sockfd
        (λ s'.
          if v.can_send
          then (returns len, record s' { sent = s'.sent ++ (take len buf ∷ []) })
          else (returns failure, s'))
        s

  -- The `switch` of `syscall_handler`, behind `last_errno = 0`.
  unfoldable pub dispatch : Services H D → Call → System H D → Outcome × System H D
  unfolding do_read do_write do_open do_close do_fork handle_brk do_exec do_kill new_socket
      on_socket do_accept do_send kprint_int
  dispatch v (Call.sys_read fd dst count) s = do_read v fd dst count s
  dispatch v (Call.sys_write fd src count) s = do_write fd src count s
  dispatch v (Call.sys_open path) s = do_open v path s
  dispatch v (Call.sys_close fd) s = do_close v fd s
  dispatch v Call.sys_errno s = (returns s.last_errno, s)
  dispatch v Call.sys_yield s = (returns 0, s)
  dispatch v (Call.sys_fork rip rsp rflags) s = do_fork rip rsp rflags s
  dispatch v (Call.sys_brk addr) s = handle_brk v addr s
  dispatch v (Call.sys_exec path argv0 argv1) s = do_exec v path argv0 argv1 s
  dispatch v (Call.sys_kill pid signal) s = do_kill pid signal s
  dispatch v (Call.sys_exit code) s = (
    panics,
    record s { console = s.console ++ (exit_text ++ (kprint_int code ++ (b']' ∷ 0x0A ∷ []))) },
  )
  dispatch v (Call.sys_socket domain type protocol) s =
      new_socket v (u32 domain) (u32 type) (u32 protocol) s
  dispatch v (Call.sys_bind sockfd) s = on_socket 21 sockfd returns_0 s
  dispatch v (Call.sys_listen sockfd) s = on_socket 22 sockfd returns_0 s
  dispatch v (Call.sys_accept sockfd) s = do_accept v sockfd s
  dispatch v (Call.sys_connect sockfd) s = on_socket 24 sockfd returns_0 s
  dispatch v (Call.sys_send sockfd buf len) s = do_send v sockfd buf len s
  dispatch v (Call.sys_recv sockfd) s = on_socket 26 sockfd returns_0 s
  dispatch v Call.sys_getaddrinfo s = fails 27 s
  dispatch v (Call.unknown num) s = (
    returns failure,
    record s { console = s.console ++ (unknown_text ++ (kprint_int num ++ (0x0A ∷ []))) },
  )

  unfoldable pub syscall_handler : Services H D → Call → System H D → Outcome × System H D
  unfolding dispatch
  syscall_handler v call s = dispatch v call (record s { last_errno = 0 })

  -- The state behind one call after another.
  unfoldable pub run_calls : Services H D → List Call → System H D → System H D
  unfolding syscall_handler
  run_calls v [] s = s
  run_calls v (call ∷ calls) s = run_calls v calls (syscall_handler v call s).1
