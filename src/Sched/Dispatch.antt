-- ===== src/Sched/Dispatch.antt =====
-- `irq_timer_dispatch` of src/cpu/sched.c: what a timer interrupt saves, and where it returns.
use peanut_kernel.Common.{
  ℕ, ◌<◌, ◌≡◌, refl, Bool, true, not, List, Option, none, some, length, arith, if◌then◌else◌,
  Bool-cases, inl, inr, ap, sym, ap₂, Option-cases, subst, length-set,
}
use peanut_kernel.Sched.{
  Process, Sched, Policy, rr, cfs, Resume, same, frame_of, proc_at, is_runnable, irq_timer_dispatch,
  switch_next, choose_next, save_current, save_at, preempted, tick, from_user,
}
use peanut_kernel.Sched.Slots.{proc_at-set_same, runnable_within}
use peanut_kernel.Sched.Invariant.{IsValid}
use peanut_kernel.Sched.Operations.{save_current-IsValid, tick-IsValid}
use peanut_kernel.Sched.RoundRobin.{choose_rr-Chosen}
use peanut_kernel.Sched.VirtualRuntime.{choose_cfs-least}

-- Saving the interrupted process changes no state, no pid and no signal of any slot.
pub record SameTable (s t : Sched) : Type 0 where
  pub same_size : length t.procs ≡ length s.procs
  pub same_state : (i : ℕ) → is_runnable (proc_at t.procs i) ≡ is_runnable (proc_at s.procs i)
  pub same_pid : (i : ℕ) → (proc_at t.procs i).pid ≡ (proc_at s.procs i).pid
  pub same_current : t.current_proc ≡ s.current_proc
  pub same_armed : t.user_preempt_armed ≡ s.user_preempt_armed

SameTable-refl : (s : Sched) → SameTable s s
SameTable-refl s = record {
  same_size = refl;
  same_state = λ i. refl;
  same_pid = λ i. refl;
  same_current = refl;
  same_armed = refl;
}

save_at-SameTable : (sp : List ℕ) (c : ℕ) (s : Sched) → SameTable s (save_at sp c s)
unfolding save_at
save_at-SameTable sp c s = elim (Bool-cases (is_runnable (proc_at s.procs c))) [
  | inr r ↦ rw r (SameTable-refl s)
  | inl r ↦ rw r (record {
    same_size = length-set s.procs c p;
    same_state = proc_at-set_same is_runnable s.procs c p (runnable_within s.procs c r) refl;
    same_pid = proc_at-set_same (λ q. q.pid) s.procs c p (runnable_within s.procs c r) refl;
    same_current = refl;
    same_armed = refl;
  })
]
  where
    p : Process
    p = preempted sp (proc_at s.procs c)

save_current-SameTable_at :
    (sp : List ℕ) (s : Sched) (o : Option ℕ) → s.current_proc ≡ o → SameTable s (save_current sp s)
unfolding save_current
save_current-SameTable_at sp s none e = subst (SameTable s) (sym (ap saved e)) (SameTable-refl s)
  where
    saved : Option ℕ → Sched
    saved o = elim o [ none ↦ s | some c ↦ save_at sp c s ]
save_current-SameTable_at sp s (some c) e =
    subst (SameTable s) (sym (ap saved e)) (save_at-SameTable sp c s)
  where
    saved : Option ℕ → Sched
    saved o = elim o [ none ↦ s | some c ↦ save_at sp c s ]

pub save_current-SameTable : (sp : List ℕ) (s : Sched) → SameTable s (save_current sp s)
save_current-SameTable sp s = save_current-SameTable_at sp s s.current_proc refl

choose_next-runnable :
    (policy : Policy) (s : Sched) (i : ℕ)
    → IsValid s
    → choose_next policy s ≡ some i
    → is_runnable (proc_at s.procs i) ≡ true
unfolding choose_next
choose_next-runnable rr s i valid e = let chosen = choose_rr-Chosen s i valid e in chosen.can_run
choose_next-runnable cfs s i valid e = (choose_cfs-least s i e).0

-- What holds when the interrupt returns: either to the frame it came with, or to the saved ring-3
-- frame of a slot that can run and is the current one.
pub data ReturnsTo (t : Sched) : Resume → Type 0 where
  interrupted : ReturnsTo t same
  resumed :
      (i : ℕ)
      → t.current_proc ≡ some i
      → is_runnable (proc_at t.procs i) ≡ true
      → from_user (proc_at t.procs i).frame ≡ true
      → ReturnsTo t (frame_of i)

-- The two facts about one interrupt.
pub record IsSafe (result : Resume × Sched) : Type 0 where
  pub valid : IsValid result.1
  pub target : ReturnsTo result.1 result.0

switch_to-IsValid :
    (s : Sched) (i : ℕ)
    → IsValid s
    → is_runnable (proc_at s.procs i) ≡ true
    → IsValid (record s { current_proc = some i })
switch_to-IsValid s i valid r = record {
  next_pos = valid.next_pos;
  current_in = λ c e.
      let e' : i ≡ c = ground arith in
      subst (λ k. k < length s.procs) e' (runnable_within s.procs i r);
  sound = valid.sound;
  pid_unique = valid.pid_unique;
}

switch_next-IsSafe : (policy : Policy) (s : Sched) → IsValid s → IsSafe (switch_next policy s)
unfolding switch_next
switch_next-IsSafe policy s valid = elim (Option-cases (choose_next policy s)) [
  | inl idle ↦ rw (idle, switch_next) (record { valid = valid; target = interrupted })
  | inr (i, e) ↦
      let r = choose_next-runnable policy s i valid e in
      rw (e, switch_next)
        (record {
          valid = switch_to-IsValid s i valid r;
          target = resumed i refl r (let good = valid.sound i in good.ring3 r);
        })
]

-- A timer interrupt keeps the invariant of the table, under either policy. It returns to the frame
-- it interrupted, or to a saved frame of ring 3 that belongs to a slot which can run and which is
-- now the current one.
pub irq_timer_dispatch-IsSafe :
    (policy : Policy) (sp : List ℕ) (s : Sched)
    → IsValid s
    → IsSafe (irq_timer_dispatch policy sp s)
unfolding irq_timer_dispatch
irq_timer_dispatch-IsSafe policy sp s valid = elim (Bool-cases s.user_preempt_armed) [
  | inr off ↦ subst IsSafe (sym (ap (λ b. gated b (from_user sp)) off)) stays
  | inl on ↦ elim (Bool-cases (from_user sp)) [
    | inr ring0 ↦ subst IsSafe (sym (ap₂ gated on ring0)) stays
    | inl user ↦
        subst IsSafe (sym (ap₂ gated on user)) (
          switch_next-IsSafe policy _
            (save_current-IsValid sp (tick s) user (tick-IsValid s valid)))
  ]
]
  where
    gated : Bool → Bool → Resume × Sched
    gated armed user =
        if not armed
        then (same, tick s)
        else if not user
        then (same, tick s)
        else switch_next policy (save_current sp (tick s))

    stays : IsSafe (same, tick s)
    stays = record { valid = tick-IsValid s valid; target = interrupted }

pub switch_next-procs : (policy : Policy) (s : Sched) → (switch_next policy s).1.procs ≡ s.procs
unfolding switch_next
switch_next-procs policy s = ground arith
