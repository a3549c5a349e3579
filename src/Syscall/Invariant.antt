-- ===== src/Syscall/Invariant.antt =====
-- The invariant of the state of src/cpu/syscall.c, and that the calls keep it.
use peanut_kernel.Common.{
  ℕ, ◌+◌, ◌≤◌, ◌≡◌, ◌∙◌, subst, true, false, ◌||◌, some, List, leb, ◌==◌, length, length-set,
  get_or, get_or-set_holds, length-copy, u32, Bool-cases, Option-cases, inl, inr, some_eq, arith,
}
use peanut_kernel.Sched.{Sched}
use peanut_kernel.Sched.Invariant as Sched_
use peanut_kernel.Pseudo.Vfs.{vfs_pseudo_pread}
use peanut_kernel.Syscall.{
  Fd, closed_fd, fd_max, user_brk_arena_bytes, Services, System, fd_at, is_open, put_fd,
}
use peanut_kernel.Syscall.Descriptors.{
  take_bytes, read_pseudo, read_memory, do_read, write_memory, do_write,
}

-- A descriptor's memory has the size it is said to have, and the offset stays inside a file in
-- memory.
pub record IsSound (f : Fd) : Type 0 where
  pub memory : (bytes : List ℕ) → f.contents ≡ some bytes → length bytes ≡ f.size
  pub offset : f.is_pseudo ≡ false → f.off ≤ f.size

-- The invariant, of the arena's address, the descriptors, the break and the scheduler.
pub record IsConsistent (arena : ℕ) (fds : List Fd) (brk : ℕ) (sched : Sched) : Type 0 where
  pub slots : length fds ≡ fd_max
  pub descriptors : (i : ℕ) → IsSound (get_or fds i closed_fd)
  pub brk_low : arena ≤ brk
  pub brk_high : brk ≤ arena + user_brk_arena_bytes
  pub processes : Sched_.IsValid sched

module _ {H D : Type 0} (v : Services H D) where
  abbrev pub IsValid : System H D → Type 0
  IsValid s = IsConsistent v.arena s.fds s.user_brk_end s.sched

  pub put_fd-IsValid :
      (s : System H D) (i : ℕ) (f : Fd) → IsValid s → IsSound f → IsValid (put_fd s i f)
  put_fd-IsValid s i f h sound = record {
    slots = rw length-set (h.slots);
    descriptors = λ j. get_or-set_holds IsSound s.fds i j f closed_fd (h.descriptors j) sound;
    brk_low = h.brk_low;
    brk_high = h.brk_high;
    processes = h.processes;
  }

  read_pseudo-IsValid :
      (fd : ℕ) (dst : List ℕ) (want : ℕ) (s : System H D)
      → (fd_at s fd).is_pseudo ≡ true
      → IsValid s
      → IsValid (read_pseudo v fd dst want s).1
  unfolding read_pseudo
  read_pseudo-IsValid fd dst want s pseudo h =
      elim (Option-cases
        (vfs_pseudo_pread v.hardware (fd_at s fd).path (fd_at s fd).off dst want s.pseudo).0) [
          | inl e ↦ rw (e, read_pseudo) h
          | inr (got, e) ↦
              rw (e, read_pseudo)
                (put_fd-IsValid s fd _ h (record {
                  memory = (h.descriptors fd).memory;
                  offset = λ p. absurd (ground arith);
                }))
        ]

  take_bytes-le : (want : ℕ) (f : Fd) → f.off ≤ f.size → f.off + take_bytes want f ≤ f.size
  take_bytes-le want f h = ground arith

  read_memory-IsValid :
      (fd : ℕ) (dst : List ℕ) (want : ℕ) (s : System H D)
      → (fd_at s fd).is_pseudo ≡ false
      → IsValid s
      → IsValid (read_memory fd dst want s).1
  unfolding read_memory
  read_memory-IsValid fd dst want s plain h =
      elim (Bool-cases (leb (fd_at s fd).size (fd_at s fd).off)) [
        | inl over ↦ rw (over, read_memory) h
        | inr inside ↦ elim (Option-cases (fd_at s fd).contents) [
          | inl null ↦
              rw (inside, null, read_memory)
                (put_fd-IsValid s fd _ h (record {
                  memory = (h.descriptors fd).memory;
                  offset = λ p. take_bytes-le want (fd_at s fd) ((h.descriptors fd).offset plain);
                }))
          | inr (bytes, e) ↦
              rw (inside, e, read_memory)
                (put_fd-IsValid s fd _ h (record {
                  memory = (h.descriptors fd).memory;
                  offset = λ p. take_bytes-le want (fd_at s fd) ((h.descriptors fd).offset plain);
                }))
        ]
      ]

  pub do_read-IsValid :
      (fd : ℕ) (dst : List ℕ) (count : ℕ) (s : System H D)
      → IsValid s
      → IsValid (do_read v fd dst count s).1
  unfolding do_read
  do_read-IsValid fd dst count s h = elim (Bool-cases (is_open s fd)) [
    | inr closed ↦ rw (closed, do_read) h
    | inl opened ↦ elim (Bool-cases (fd_at s fd).is_pseudo) [
      | inl pseudo ↦
          rw (opened, pseudo, do_read) (read_pseudo-IsValid fd dst (u32 count) s pseudo h)
      | inr plain ↦ rw (opened, plain, do_read) (read_memory-IsValid fd dst (u32 count) s plain h)
    ]
  ]

  write_memory-IsValid :
      (fd : ℕ) (src : List ℕ) (want : ℕ) (s : System H D)
      → (fd_at s fd).is_pseudo ≡ false
      → IsValid s
      → IsValid (write_memory fd src want s).1
  unfolding write_memory
  write_memory-IsValid fd src want s plain h = elim (Option-cases (fd_at s fd).contents) [
    | inl null ↦ rw (null, write_memory) h
    | inr (bytes, e) ↦ elim (Bool-cases (leb (fd_at s fd).size (fd_at s fd).off)) [
      | inl over ↦ rw (e, over, write_memory) h
      | inr inside ↦
          let sound = h.descriptors fd in
          rw (e, inside, write_memory)
            (put_fd-IsValid s fd _ h (record {
              memory = λ b e'.
                  subst (λ (x : List ℕ). length x ≡ (fd_at s fd).size) (some_eq e')
                    (length-copy bytes (fd_at s fd).off src 0 (take_bytes want (fd_at s fd))
                      ∙ sound.memory bytes e);
              offset = λ p. take_bytes-le want (fd_at s fd) (sound.offset plain);
            }))
    ]
  ]

  pub do_write-IsValid :
      (fd : ℕ) (src : List ℕ) (count : ℕ) (s : System H D)
      → IsValid s
      → IsValid (do_write fd src count s).1
  unfolding do_write
  do_write-IsValid fd src count s h = elim (Bool-cases (is_open s fd)) [
    | inr closed ↦ elim (Bool-cases (fd == 1 || fd == 2)) [
      | inl std ↦ rw (closed, std, do_write) h
      | inr other ↦ rw (closed, other, do_write) h
    ]
    | inl opened ↦ elim (Bool-cases (fd_at s fd).is_pseudo) [
      | inl pseudo ↦ rw (opened, pseudo, do_write) h
      | inr plain ↦ rw (opened, plain, do_write) (write_memory-IsValid fd src (u32 count) s plain h)
    ]
  ]
