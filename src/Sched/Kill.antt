-- ===== src/Sched/Kill.antt =====
-- What `sched_kill` of src/cpu/sched.c does to the table, and to a process that signals itself.
use peanut_kernel.Common.{
  ℕ, ◌≡◌, ◌≢◌, ◌⊎◌, refl, true, false, List, [], Option, none, some, length, arith, if◌then◌else◌,
  Bool-cases, inl, inr, ap, sym, ◌∙◌, Option-cases, subst, ◌==◌, find_index, ==_iff,
  find_index-IsFirst, find_index-none, ==_refl, dec_lt, get_or_past,
}
use mathlib.Core.Bool.{false≢true}
use peanut_kernel.Sched.{
  Process, runnable, zombie, Sched, proc_at, empty_slot, is_runnable, is_target, is_fatal,
  is_some_of, sched_kill, signal_at, Policy, irq_timer_dispatch, save_current, tick,
}
use peanut_kernel.Sched.Slots.{proc_at-set_self, proc_at-set_ne, runnable_within}
use peanut_kernel.Sched.Dispatch.{switch_next-procs}
use peanut_kernel.Sched.Invariant.{IsValid}

-- `t` is `s` after slot `i` got the signal.
pub record Signalled (s t : Sched) (pid signal i : ℕ) : Type 0 where
  pub was_runnable : is_runnable (proc_at s.procs i) ≡ true
  pub had_pid : (proc_at s.procs i).pid ≡ pid
  pub process : proc_at t.procs i ≡ record (proc_at s.procs i) {
    signal = signal;
    state = if is_fatal signal then zombie else runnable;
  }
  pub others : (j : ℕ) → i ≢ j → proc_at t.procs j ≡ proc_at s.procs j
  pub deselected : s.current_proc ≡ some i → t.current_proc ≡ none
  pub other_current : s.current_proc ≢ some i → t.current_proc ≡ s.current_proc
  pub same_rest :
      record s { procs = []; current_proc = none } ≡ record t { procs = []; current_proc = none }

is_runnable-eq : (p : Process) → is_runnable p ≡ true → p.state ≡ runnable
is_runnable-eq p r = ground arith

signal_at-Signalled :
    (s : Sched) (pid signal i : ℕ)
    → is_target pid (proc_at s.procs i) ≡ true
    → Signalled s (signal_at i signal s) pid signal i
unfolding signal_at
signal_at-Signalled s pid signal i h = record {
  was_runnable = r;
  had_pid = ground arith;
  process =
      proc_at-set_self s.procs i _ (runnable_within s.procs i r)
      ∙ ap
          (λ q. record (proc_at s.procs i) {
            signal = signal;
            state = if is_fatal signal then zombie else q;
          })
          (is_runnable-eq (proc_at s.procs i) r);
  others = λ j ne. proc_at-set_ne s.procs i j _ ne;
  deselected = deselected s.current_proc;
  other_current = other_current s.current_proc;
  same_rest = refl;
}
  where
    r : is_runnable (proc_at s.procs i) ≡ true
    r = ground arith

    deselected : (o : Option ℕ) → o ≡ some i → (if is_some_of o i then none else o) ≡ none
    deselected none e = refl
    deselected (some c) e = let e' : c ≡ i = ground arith in rw (e', ==_refl i)

    other_current : (o : Option ℕ) → o ≢ some i → (if is_some_of o i then none else o) ≡ o
    other_current none ne = refl
    other_current (some c) ne = elim (Bool-cases (c == i)) [
      | inl e ↦ absurd (ne (ap some ((==_iff c i).0 e)))
      | inr e ↦ rw e
    ]

-- `sched_kill` on a valid table either returns 0 and signals the one runnable process of that pid:
-- it takes the signal, becomes a zombie exactly for SIGKILL, SIGSEGV and SIGINT, if it was the
-- current process then none is, and no other slot and no other variable changes; or it returns -1, no runnable process has the pid, and
-- the scheduler is as it was.
pub sched_kill-Signalled :
    (pid signal : ℕ) (s : Sched)
    → IsValid s
    → let (result, t) = sched_kill pid signal s in
      ((i : ℕ) × (result ≡ true)
        × Signalled s t pid signal i
        × ((j : ℕ) → is_target pid (proc_at s.procs j) ≡ true → j ≡ i))
      ⊎ ((result ≡ false) × (t ≡ s) × ((j : ℕ) → is_target pid (proc_at s.procs j) ≡ false))
unfolding sched_kill
sched_kill-Signalled pid signal s valid = elim (Option-cases (find_index (is_target pid) s.procs)) [
  | inl missing ↦ rw (missing, sched_kill) (inr (refl, refl, absent missing))
  | inr (i, e) ↦
      let found = find_index-IsFirst (is_target pid) empty_slot s.procs i e in
      rw (e, sched_kill)
        (inl (i, refl, signal_at-Signalled s pid signal i found.passes, only i found.passes))
]
  where
    absent :
        find_index (is_target pid) s.procs ≡ none
        → (j : ℕ) → is_target pid (proc_at s.procs j) ≡ false
    absent missing j = elim (dec_lt j (length s.procs)) [
      | yes p ↦ find_index-none (is_target pid) empty_slot s.procs missing j p
      | no p ↦ rw (get_or_past s.procs j empty_slot (omega arith))
    ]

    only :
        (i : ℕ)
        → is_target pid (proc_at s.procs i) ≡ true
        → (j : ℕ) → is_target pid (proc_at s.procs j) ≡ true
        → j ≡ i
    only i hi j hj = valid.pid_unique j i (ground arith) (ground arith) (ground arith)

-- With no current process an interrupt saves nothing.
dispatch_idle-procs :
    (policy : Policy) (sp : List ℕ) (s : Sched)
    → s.current_proc ≡ none
    → (irq_timer_dispatch policy sp s).1.procs ≡ s.procs
unfolding irq_timer_dispatch save_current
dispatch_idle-procs policy sp s e = ground (arith, switch_next-procs policy (tick s))

-- `sched_kill` on the pid of a runnable slot signals that slot.
pub sched_kill_own :
    (signal i : ℕ) (s : Sched)
    → IsValid s
    → is_runnable (proc_at s.procs i) ≡ true
    → let pid = (proc_at s.procs i).pid in Signalled s (sched_kill pid signal s).1 pid signal i
sched_kill_own signal i s valid r = elim (sched_kill-Signalled p.pid signal s valid) [
  | inr (_, _, absent) ↦ absurd (false≢true (sym (absent i) ∙ targeted))
  | inl (k, _, sent, only) ↦
      subst (λ j. Signalled s (sched_kill p.pid signal s).1 p.pid signal j) (sym (only i targeted))
        sent
]
  where
    p : Process
    p = proc_at s.procs i

    targeted : is_target p.pid p ≡ true
    targeted = ground (arith, r)

pub sched_kill-dead :
    (signal i : ℕ) (s : Sched)
    → IsValid s
    → is_runnable (proc_at s.procs i) ≡ true
    → is_fatal signal ≡ true
    → is_runnable (proc_at (sched_kill (proc_at s.procs i).pid signal s).1.procs i) ≡ false
sched_kill-dead signal i s valid r fatal =
    ap is_runnable (sched_kill_own signal i s valid r).process
    ∙ ap
        (λ b.
          is_runnable (record (proc_at s.procs i) {
            signal = signal;
            state = if b then zombie else runnable;
          }))
        fatal

-- A valid scheduler runs a process that sends itself, or is sent, a signal which is none of SIGKILL,
-- SIGSEGV and SIGINT. The next timer interrupt then leaves the process able to run but does not save
-- its registers: the slot still holds the frame from before the signal, whatever the process did since.
pub sched_kill-loses_frame :
    (policy : Policy) (sp : List ℕ) (signal i : ℕ) (s : Sched)
    → IsValid s
    → s.current_proc ≡ some i
    → is_runnable (proc_at s.procs i) ≡ true
    → is_fatal signal ≡ false
    → let t = (sched_kill (proc_at s.procs i).pid signal s).1 in
      let u = (irq_timer_dispatch policy sp t).1 in
      (is_runnable (proc_at u.procs i) ≡ true)
      × ((proc_at u.procs i).frame ≡ (proc_at s.procs i).frame)
sched_kill-loses_frame policy sp signal i s valid e r harmless =
    (ap is_runnable kept, ap (λ q. q.frame) kept)
  where
    p : Process
    p = proc_at s.procs i

    t : Sched
    t = (sched_kill p.pid signal s).1

    sent : Signalled s t p.pid signal i
    sent = sched_kill_own signal i s valid r

    kept :
        proc_at (irq_timer_dispatch policy sp t).1.procs i
        ≡ record p { signal = signal; state = runnable }
    kept =
        ap (λ ps. proc_at ps i) (dispatch_idle-procs policy sp t (sent.deselected e))
        ∙ sent.process
        ∙ ap (λ b. record p { signal = signal; state = if b then zombie else runnable }) harmless
