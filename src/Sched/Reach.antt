-- ===== src/Sched/Reach.antt =====
-- Any sequence of the operations of src/cpu/sched.c, from `sched_init` on.
use peanut_kernel.Common.{ℕ, ◌≡◌, not, ◌&&◌, Bool, true, false, List, [], ◌∷◌, ◌==◌}
use peanut_kernel.Sched.{
  Sched, Policy, from_user, Resume, same, frame_of, proc_at, is_runnable, sched_init,
  sched_create_user, sched_fork_current, sched_kill, sched_arm_user_preempt,
  sched_disarm_user_preempt, sched_mark_user_live, irq_timer_dispatch, save_current, tick,
}
use peanut_kernel.Sched.Invariant.{IsValid, sched_init-IsValid}
use peanut_kernel.Sched.Operations.{
  sched_create_user-IsValid, sched_fork_current-IsValid, sched_kill-IsValid,
}
use peanut_kernel.Sched.Dispatch.{irq_timer_dispatch-IsSafe}

-- The kernel calls one operation; the arguments are whatever they are.
pub data Step (s : Sched) : Sched → Type 0 where
  create : (entry user_rsp : ℕ) → Step s (sched_create_user entry user_rsp s).1
  fork : (rip rsp rflags : ℕ) → Step s (sched_fork_current rip rsp rflags s).1
  kill : (pid signal : ℕ) → Step s (sched_kill pid signal s).1
  timer : (policy : Policy) (sp : List ℕ) → Step s (irq_timer_dispatch policy sp s).1
  arm : Step s (sched_arm_user_preempt s)
  disarm : Step s (sched_disarm_user_preempt s)
  live : Step s (sched_mark_user_live s)

pub data Reach (s : Sched) : Sched → Type 0 where
  here : Reach s s
  next : {t u : Sched} → Reach s t → Step t u → Reach s u

pub with_flags-IsValid :
    (s : Sched) (armed idle : Bool)
    → IsValid s
    → IsValid (record s { user_preempt_armed = armed; sched_in_idle = idle })
with_flags-IsValid s armed idle valid = record {
  next_pos = valid.next_pos;
  current_in = valid.current_in;
  sound = valid.sound;
  pid_unique = valid.pid_unique;
}

Step-IsValid : {s t : Sched} → Step s t → IsValid s → IsValid t
unfolding sched_arm_user_preempt sched_disarm_user_preempt sched_mark_user_live
Step-IsValid {s} (create entry user_rsp) valid = sched_create_user-IsValid entry user_rsp s valid
Step-IsValid {s} (fork rip rsp rflags) valid = sched_fork_current-IsValid rip rsp rflags s valid
Step-IsValid {s} (kill pid signal) valid = sched_kill-IsValid pid signal s valid
Step-IsValid {s} (timer policy sp) valid = (irq_timer_dispatch-IsSafe policy sp s valid).valid
Step-IsValid {s} arm valid = with_flags-IsValid s true s.sched_in_idle valid
Step-IsValid {s} disarm valid = with_flags-IsValid s false false valid
Step-IsValid {s} live valid = with_flags-IsValid s s.user_preempt_armed false valid

-- Whatever operations follow `sched_init`, in whatever order and with whatever arguments, the table
-- keeps its invariant: pids of runnable processes are positive, below `next_pid` and different, the
-- current index lies in the table, every frame has 20 words, and runnable frames return to ring 3.
pub Reach-IsValid :
    (proc_max jiffies : ℕ) {s : Sched} → Reach (sched_init proc_max jiffies) s → IsValid s
Reach-IsValid proc_max jiffies here = sched_init-IsValid proc_max jiffies
Reach-IsValid proc_max jiffies (next r step) = Step-IsValid step (Reach-IsValid proc_max jiffies r)

-- The interrupt goes on with the saved frame of another slot than `i`.
abbrev pub leaves : ℕ → Resume → Bool
leaves i same = false
leaves i (frame_of j) = not (j == i)

-- Every interrupt of the run does.
abbrev pub all_leave : ℕ → List Resume → Bool
all_leave i [] = true
all_leave i (r ∷ rs) = leaves i r && all_leave i rs

-- One interrupt from user mode while slot `j` can run and slot `i` cannot.
module _ (policy : Policy) (sp : List ℕ) (s : Sched) (i j : ℕ) (valid : IsValid s)
    (armed : s.user_preempt_armed ≡ true) (user : from_user sp ≡ true)
    (dead : is_runnable (proc_at s.procs i) ≡ false)
    (can_run : is_runnable (proc_at s.procs j) ≡ true) where
  saved : Sched
  saved = save_current sp (tick s)
