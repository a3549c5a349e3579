-- ===== src/Sched/Operations.antt =====
-- Every operation of src/cpu/sched.c keeps the invariant of its table.
use peanut_kernel.Common.{
  ℕ, ◌+◌, ◌<◌, ◌≡◌, ◌≢◌, refl, true, List, Option, none, some, length, set, arith, sym, ◌∙◌, subst,
  ap, find_index, if◌then◌else◌, Option-cases, inl, inr, find_index-IsFirst, Bool-cases,
}
use peanut_kernel.Sched.{
  Process, Sched, runnable, proc_at, empty_slot, is_runnable, from_user, sched_create_user,
  sched_fork_current, sched_kill, alloc_proc, create_in, fork_in, user_frame, running, signal_at,
  is_target, save_current, is_some_of, or_slot, tick, save_at, preempted,
}
use peanut_kernel.Sched.Slots.{
  Fresh, alloc_proc-Fresh, length-user_frame, from_user-user_frame, length-memcpy64,
  from_user-memcpy64, runnable_within,
}
use peanut_kernel.Sched.Invariant.{IsSound, IsValid, after-IsValid}

-- A process made by `create` or `fork`: it takes the next pid.
new_process : ℕ → ℕ → ℕ → ℕ → ℕ → Process
new_process pid vruntime rip rsp rflags = record {
  state = runnable;
  pid = pid;
  signal = 0;
  vruntime = vruntime;
  frame = user_frame rip rsp rflags;
}

new_process-IsSound :
    (pid vruntime rip rsp rflags : ℕ)
    → 0 < pid
    → IsSound (pid + 1) (new_process pid vruntime rip rsp rflags)
unfolding new_process
new_process-IsSound pid vruntime rip rsp rflags pos = record {
  frame_words = length-user_frame rip rsp rflags;
  pid_pos = λ r. pos;
  pid_below = λ r. omega arith;
  ring3 = λ r. from_user-user_frame rip rsp rflags;
}

module _ (s : Sched) (valid : IsValid s) (slot : ℕ) (fresh : Fresh s slot) where
  new_pid : (j : ℕ) → is_runnable (proc_at s.procs j) ≡ true → s.next_pid ≢ (proc_at s.procs j).pid
  new_pid j r = let below = (valid.sound j).pid_below r in omega arith

  or_slot_within : (c : ℕ) → or_slot s.current_proc slot ≡ some c → c < length s.procs
  or_slot_within c e = elim (Option-cases s.current_proc) [
    | inl idle ↦ ground (arith, fresh.within)
    | inr (k, busy) ↦ ground (arith, valid.current_in k busy)
  ]

  create_in-IsValid : (entry user_rsp : ℕ) → IsValid (create_in slot entry user_rsp s)
  unfolding create_in new_process
  create_in-IsValid entry user_rsp =
      after-IsValid s slot (s.next_pid + 1) _ (or_slot s.current_proc slot) valid fresh.within
        (omega arith) (new_process-IsSound s.next_pid 0 entry user_rsp 0x202 valid.next_pos)
        or_slot_within (λ j ne r. new_pid j)

  fork_in-IsValid :
      (parent : Process) (rip rsp rflags : ℕ) → IsValid (fork_in slot parent rip rsp rflags s)
  unfolding fork_in new_process
  fork_in-IsValid parent rip rsp rflags =
      after-IsValid s slot (s.next_pid + 1) _ s.current_proc valid fresh.within (omega arith)
        (new_process-IsSound s.next_pid parent.vruntime rip rsp _ valid.next_pos) valid.current_in
        (λ j ne r. new_pid j)

-- `sched_create_user` keeps the invariant, whether or not it finds a slot.
pub sched_create_user-IsValid :
    (entry user_rsp : ℕ) (s : Sched) → IsValid s → IsValid (sched_create_user entry user_rsp s).1
unfolding sched_create_user
sched_create_user-IsValid entry user_rsp s valid = elim (Option-cases (alloc_proc s)) [
  | inl full ↦ rw (full, sched_create_user) valid
  | inr (slot, e) ↦
      rw (e, sched_create_user)
        (create_in-IsValid s valid slot (alloc_proc-Fresh s slot e) entry user_rsp)
]

pub sched_fork_current-IsValid :
    (rip rsp rflags : ℕ) (s : Sched) → IsValid s → IsValid (sched_fork_current rip rsp rflags s).1
unfolding sched_fork_current
sched_fork_current-IsValid rip rsp rflags s valid = elim (Option-cases (running s)) [
  | inl idle ↦ rw (idle, sched_fork_current) valid
  | inr (parent, r) ↦ elim (Option-cases (alloc_proc s)) [
    | inl full ↦ rw (r, full, sched_fork_current) valid
    | inr (slot, e) ↦
        rw (r, e, sched_fork_current)
          (fork_in-IsValid s valid slot (alloc_proc-Fresh s slot e) parent rip rsp rflags)
  ]
]

-- A runnable slot gets a process with its pid.
module _ (s : Sched) (i : ℕ) (p : Process) (valid : IsValid s)
    (can_run : is_runnable (proc_at s.procs i) ≡ true)
    (same_pid : p.pid ≡ (proc_at s.procs i).pid) where
  other_pid :
      (j : ℕ)
      → i ≢ j
      → is_runnable p ≡ true
      → is_runnable (proc_at s.procs j) ≡ true
      → p.pid ≢ (proc_at s.procs j).pid
  other_pid j ne r rj q = ne (valid.pid_unique i j can_run rj (sym same_pid ∙ q))

  pub replace-IsValid :
      (current : Option ℕ)
      → ((c : ℕ) → current ≡ some c → c < length s.procs)
      → IsSound s.next_pid p
      → IsValid (record s { procs = set s.procs i p; current_proc = current })
  replace-IsValid current current_in good =
      after-IsValid s i s.next_pid p current valid (runnable_within s.procs i can_run) (omega arith)
        good current_in other_pid

signal_at-IsValid :
    (i signal : ℕ) (s : Sched)
    → is_runnable (proc_at s.procs i) ≡ true
    → IsValid s
    → IsValid (signal_at i signal s)
unfolding signal_at
signal_at-IsValid i signal s r valid = replace-IsValid s i _ valid r refl _ current_in (record {
  frame_words = old.frame_words;
  pid_pos = λ r'. old.pid_pos r;
  pid_below = λ r'. old.pid_below r;
  ring3 = λ r'. old.ring3 r;
})
  where
    old : IsSound s.next_pid (proc_at s.procs i)
    old = valid.sound i

    current_in :
        (c : ℕ)
        → (if is_some_of s.current_proc i then none else s.current_proc) ≡ some c
        → c < length s.procs
    current_in c e = elim (Bool-cases (is_some_of s.current_proc i)) [
      | inl here ↦ ground (arith, here)
      | inr other ↦ valid.current_in c (ground arith)
    ]

pub sched_kill-IsValid :
    (pid signal : ℕ) (s : Sched) → IsValid s → IsValid (sched_kill pid signal s).1
unfolding sched_kill
sched_kill-IsValid pid signal s valid = elim (Option-cases (find_index (is_target pid) s.procs)) [
  | inl missing ↦ rw (missing, sched_kill) valid
  | inr (i, e) ↦
      let found = find_index-IsFirst (is_target pid) empty_slot s.procs i e in
      let r : is_runnable (proc_at s.procs i) ≡ true = ground (arith, found.passes) in
      rw (e, sched_kill) (signal_at-IsValid i signal s r valid)
]

module _ (sp : List ℕ) (s : Sched) (user : from_user sp ≡ true) (valid : IsValid s) where
  preempted-IsSound :
      (c : ℕ)
      → is_runnable (proc_at s.procs c) ≡ true
      → IsSound s.next_pid (preempted sp (proc_at s.procs c))
  preempted-IsSound c r =
      let old = valid.sound c in
      record {
        frame_words = length-memcpy64 (proc_at s.procs c).frame sp ∙ old.frame_words;
        pid_pos = λ r'. old.pid_pos r;
        pid_below = λ r'. old.pid_below r;
        ring3 = λ r'. from_user-memcpy64 (proc_at s.procs c).frame sp old.frame_words ∙ user;
      }

  save_at-IsValid : (c : ℕ) → IsValid (save_at sp c s)
  unfolding save_at
  save_at-IsValid c = elim (Bool-cases (is_runnable (proc_at s.procs c))) [
    | inl r ↦ rw r (
        replace-IsValid s c (preempted sp (proc_at s.procs c)) valid r refl s.current_proc
          valid.current_in (preempted-IsSound c r))
    | inr r ↦ rw r valid
  ]

  save_current-IsValid_at : (o : Option ℕ) → s.current_proc ≡ o → IsValid (save_current sp s)
  unfolding save_current
  save_current-IsValid_at none idle = subst IsValid (sym (ap saved idle)) valid
    where
      saved : Option ℕ → Sched
      saved o = elim o [ none ↦ s | some c ↦ save_at sp c s ]
  save_current-IsValid_at (some c) e = subst IsValid (sym (ap saved e)) (save_at-IsValid c)
    where
      saved : Option ℕ → Sched
      saved o = elim o [ none ↦ s | some c ↦ save_at sp c s ]

  pub save_current-IsValid : IsValid (save_current sp s)
  save_current-IsValid = save_current-IsValid_at s.current_proc refl

pub tick-IsValid : (s : Sched) → IsValid s → IsValid (tick s)
tick-IsValid s valid = record {
  next_pos = valid.next_pos;
  current_in = valid.current_in;
  sound = valid.sound;
  pid_unique = valid.pid_unique;
}
