-- ===== src/Sched/Invariant.antt =====
-- The invariant of src/cpu/sched.c's table, and what keeps it when one slot is written.
use peanut_kernel.Common.{
  ℕ, ◌≤◌, ◌<◌, ◌≡◌, ◌≢◌, refl, true, Option, some, length, set, length-set, ℕ_discrete, arith,
  get_or-replicate, replicate, sym,
}
use peanut_kernel.Sched.{
  Process, Sched, proc_at, empty_slot, is_runnable, from_user, frame_qwords, sched_init,
}
use peanut_kernel.Sched.Slots.{proc_at-set_self, proc_at-set_ne}

-- What holds of every single process: its frame has its length, and a runnable one has a pid that
-- was given out before and a frame that returns to ring 3.
pub record IsSound (next_pid : ℕ) (p : Process) : Type 0 where
  pub frame_words : length p.frame ≡ frame_qwords
  pub pid_pos : is_runnable p ≡ true → 0 < p.pid
  pub pid_below : is_runnable p ≡ true → p.pid < next_pid
  pub ring3 : is_runnable p ≡ true → from_user p.frame ≡ true

pub record IsValid (s : Sched) : Type 0 where
  pub next_pos : 0 < s.next_pid
  pub current_in : (c : ℕ) → s.current_proc ≡ some c → c < length s.procs
  pub sound : (i : ℕ) → IsSound s.next_pid (proc_at s.procs i)
  pub pid_unique :
      (i j : ℕ)
      → is_runnable (proc_at s.procs i) ≡ true
      → is_runnable (proc_at s.procs j) ≡ true
      → (proc_at s.procs i).pid ≡ (proc_at s.procs j).pid
      → i ≡ j

pub IsSound-weaken : (n m : ℕ) (p : Process) → n ≤ m → IsSound n p → IsSound m p
IsSound-weaken n m p le h = record {
  frame_words = h.frame_words;
  pid_pos = h.pid_pos;
  pid_below = λ r. let below = h.pid_below r in omega arith;
  ring3 = h.ring3;
}

-- One slot gets a process whose pid, if it can run, no other runnable slot has.
module _ (s : Sched) (slot next_pid : ℕ) (p : Process) (current : Option ℕ) (valid : IsValid s)
    (within : slot < length s.procs) (grows : s.next_pid ≤ next_pid) (good : IsSound next_pid p)
    (current_in : (c : ℕ) → current ≡ some c → c < length s.procs)
    (own_pid : (j : ℕ)
      → slot ≢ j
      → is_runnable p ≡ true
      → is_runnable (proc_at s.procs j) ≡ true
      → p.pid ≢ (proc_at s.procs j).pid) where
  abbrev after : Sched
  after = record s { procs = set s.procs slot p; next_pid = next_pid; current_proc = current }

  after-IsSound : (i : ℕ) → IsSound next_pid (proc_at after.procs i)
  after-IsSound i = elim (ℕ_discrete slot i) [
    | yes e ↦ rw (← e) (rw (proc_at-set_self s.procs slot p within) good)
    | no ne ↦
        rw (proc_at-set_ne s.procs slot i p ne)
          (IsSound-weaken s.next_pid next_pid (proc_at s.procs i) grows (valid.sound i))
  ]

  abbrev SamePid : Process → Process → ℕ → ℕ → Type 0
  SamePid a b i j = is_runnable a ≡ true → is_runnable b ≡ true → a.pid ≡ b.pid → i ≡ j

  after_unique : (i j : ℕ) → SamePid (proc_at after.procs i) (proc_at after.procs j) i j
  after_unique i j = elim (ℕ_discrete slot i) [
    | yes e ↦ elim (ℕ_discrete slot j) [
      | yes e' ↦ λ ri rj q. omega arith
      | no ne ↦
          rw (← e, proc_at-set_self s.procs slot p within, proc_at-set_ne s.procs slot j p ne)
            (λ ri rj q. absurd (own_pid j ne ri rj q))
    ]
    | no ne ↦ elim (ℕ_discrete slot j) [
      | yes e ↦
          rw (← e, proc_at-set_self s.procs slot p within, proc_at-set_ne s.procs slot i p ne)
            (λ ri rj q. absurd (own_pid i ne rj ri (sym q)))
      | no ne' ↦
          rw (proc_at-set_ne s.procs slot i p ne, proc_at-set_ne s.procs slot j p ne')
            (valid.pid_unique i j)
    ]
  ]

  pub after-IsValid : IsValid after
  after-IsValid = record {
    next_pos = let pos = valid.next_pos in omega arith;
    current_in = λ c e. rw (length-set s.procs slot p) (current_in c e);
    sound = after-IsSound;
    pid_unique = after_unique;
  }

empty_slot-IsSound : IsSound 1 empty_slot
empty_slot-IsSound = record {
  frame_words = refl;
  pid_pos = λ r. cc;
  pid_below = λ r. cc;
  ring3 = λ r. cc;
}

-- `sched_init` sets up a valid table.
pub sched_init-IsValid : (proc_max jiffies : ℕ) → IsValid (sched_init proc_max jiffies)
unfolding sched_init
sched_init-IsValid proc_max jiffies = record {
  next_pos = omega arith;
  current_in = λ c e. cc;
  sound = λ i. rw (get_or-replicate proc_max i empty_slot) empty_slot-IsSound;
  pid_unique = λ i j ri rj e. absurd (idle i ri);
}
  where
    idle : (i : ℕ) → ¬ (is_runnable (proc_at (replicate proc_max empty_slot) i) ≡ true)
    idle i = rw (get_or-replicate proc_max i empty_slot) (λ r. cc)
