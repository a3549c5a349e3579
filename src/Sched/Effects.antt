-- ===== src/Sched/Effects.antt =====
-- What `sched_create_user`, `sched_fork_current` and `sched_kill` of src/cpu/sched.c do to the table.
use peanut_kernel.Common.{
  ℕ, zero, suc, ◌+◌, ◌<◌, ◌≡◌, ◌≢◌, refl, true, false, List, [], ◌∷◌, Option, none, some, length,
  set, arith, if◌then◌else◌, inl, inr, ◌⊎◌, Option-cases, ◌==◌, find_index-none, length-set,
}
use peanut_kernel.Sched.{
  Process, runnable, Sched, proc_at, empty_slot, is_runnable, is_unused, sched_create_user,
  sched_fork_current, alloc_proc, create_in, fork_in, running, count_runnable, sched_runnable_count,
  user_frame, or_slot,
}
use peanut_kernel.Sched.Slots.{Fresh, alloc_proc-Fresh, proc_at-set_self, proc_at-set_ne}
use peanut_kernel.Sched.Invariant.{IsValid}

abbrev ran : Process → ℕ
ran p = if is_runnable p then 1 else 0

count_runnable-set :
    (procs : List Process) (i : ℕ) (p : Process)
    → i < length procs
    → count_runnable (set procs i p) + ran (proc_at procs i) ≡ count_runnable procs + ran p
unfolding count_runnable
count_runnable-set [] i p h = absurd (omega arith)
count_runnable-set (q ∷ procs) zero p h = omega arith
count_runnable-set (q ∷ procs) (suc i) p h =
    omega (arith, count_runnable-set procs i p (omega arith))

-- `t` has a new process of the pid `pid` in a slot that was unused in `s`, and the rest as it was.
pub record Spawned (s t : Sched) (pid vruntime rip rsp rflags : ℕ) : Type 0 where
  pub slot : ℕ
  pub within : slot < length s.procs
  pub was_unused : is_unused (proc_at s.procs slot) ≡ true
  pub process : proc_at t.procs slot ≡ record {
    state = runnable;
    pid = pid;
    signal = 0;
    vruntime = vruntime;
    frame = user_frame rip rsp rflags;
  }
  pub others : (j : ℕ) → slot ≢ j → proc_at t.procs j ≡ proc_at s.procs j
  pub same_size : length t.procs ≡ length s.procs
  pub one_more : sched_runnable_count t ≡ sched_runnable_count s + 1
  pub new_pid : (j : ℕ) → is_runnable (proc_at s.procs j) ≡ true → (proc_at s.procs j).pid ≢ pid
  pub next_pid : t.next_pid ≡ pid + 1

module _ (s : Sched) (valid : IsValid s) (slot vruntime rip rsp rflags : ℕ) (current : Option ℕ)
    (fresh : Fresh s slot) where
  abbrev child : Process
  child = record {
    state = runnable;
    pid = s.next_pid;
    signal = 0;
    vruntime = vruntime;
    frame = user_frame rip rsp rflags;
  }

  placed-Spawned :
      Spawned s
        (record s {
          procs = set s.procs slot child;
          next_pid = s.next_pid + 1;
          current_proc = current;
        })
        s.next_pid
        vruntime
        rip
        rsp
        rflags
  unfolding sched_runnable_count
  placed-Spawned = record {
    slot = slot;
    within = fresh.within;
    was_unused = fresh.free;
    process = proc_at-set_self s.procs slot child fresh.within;
    others = λ j ne. proc_at-set_ne s.procs slot j child ne;
    same_size = length-set s.procs slot child;
    one_more =
        let count = count_runnable-set s.procs slot child fresh.within in
        ground (arith, count, fresh.free);
    new_pid = λ j r e. let good = valid.sound j in let below = good.pid_below r in omega arith;
    next_pid = refl;
  }

-- `sched_create_user` on a valid table either returns a pid that no runnable process has and puts a
-- new process with the given entry point and stack into an unused slot, changing no other slot, or
-- it returns -1, no slot is unused, and the scheduler is as it was.
pub sched_create_user-Spawned :
    (entry user_rsp : ℕ) (s : Sched)
    → IsValid s
    → let (result, t) = sched_create_user entry user_rsp s in
      ((result ≡ some s.next_pid) × Spawned s t s.next_pid 0 entry user_rsp 0x202)
      ⊎ ((result ≡ none)
          × (t ≡ s)
          × ((j : ℕ) → j < length s.procs → is_unused (proc_at s.procs j) ≡ false))
unfolding sched_create_user
sched_create_user-Spawned entry user_rsp s valid = elim (Option-cases (alloc_proc s)) [
  | inl full ↦
      rw (full, sched_create_user)
        (inr (refl, refl, unfold alloc_proc in find_index-none is_unused empty_slot s.procs full))
  | inr (slot, e) ↦
      rw (e, sched_create_user)
        (inl (
          refl,
          unfold create_in in
              placed-Spawned s valid slot 0 entry user_rsp 0x202 (or_slot s.current_proc slot)
                (alloc_proc-Fresh s slot e),
        ))
]

-- `sched_fork_current` on a valid table with a running process either returns a pid that no
-- runnable process has and puts a child with the parent's virtual runtime and the given user state
-- into an unused slot, changing no other slot, or it returns -1, no slot is unused, and the
-- scheduler is as it was.
sched_fork_current-Spawned :
    (rip rsp rflags : ℕ) (s : Sched) (parent : Process)
    → IsValid s
    → running s ≡ some parent
    → let (result, t) = sched_fork_current rip rsp rflags s in
      ((result ≡ some s.next_pid)
        × Spawned s t s.next_pid parent.vruntime rip rsp (if rflags == 0 then 0x202 else rflags))
      ⊎ ((result ≡ none)
          × (t ≡ s)
          × ((j : ℕ) → j < length s.procs → is_unused (proc_at s.procs j) ≡ false))
unfolding sched_fork_current
sched_fork_current-Spawned rip rsp rflags s parent valid r = elim (Option-cases (alloc_proc s)) [
  | inl full ↦
      rw (r, full, sched_fork_current)
        (inr (refl, refl, unfold alloc_proc in find_index-none is_unused empty_slot s.procs full))
  | inr (slot, e) ↦
      rw (r, e, sched_fork_current)
        (inl (
          refl,
          unfold fork_in in
              placed-Spawned s valid slot parent.vruntime rip rsp
                (if rflags == 0 then 0x202 else rflags) s.current_proc (alloc_proc-Fresh s slot e),
        ))
]
