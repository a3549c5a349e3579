-- ===== src/Sched/Examples.antt =====
-- Runs of the scheduler model on small tables, and its theorems at such inputs.
use peanut_kernel.Common.{
  ℕ, ◌≤◌, ◌<◌, ◌≡◌, ◌↔◌, ◌⊎◌, refl, true, false, List, [], ◌∷◌, none, some, length, arith,
}
use peanut_kernel.Sched.{
  Sched, rr, cfs, frame_of, proc_at, is_runnable, is_unused, is_target, sched_init,
  sched_create_user, sched_fork_current, sched_kill, sched_arm_user_preempt, irq_timer_dispatch,
  choose_rr, choose_cfs, sched_current_pid, sched_runnable_count, sigkill,
}
use peanut_kernel.Sched.Invariant.{IsValid}
use peanut_kernel.Sched.Reach.{all_leave, Reach, here, next, create, arm, Reach-IsValid, all_leave}
use peanut_kernel.Sched.Dispatch.{IsSafe, irq_timer_dispatch-IsSafe}
use peanut_kernel.Sched.RoundRobin.{Chosen, choose_rr-Chosen, choose_rr-none}
use peanut_kernel.Sched.VirtualRuntime.{choose_cfs-least}
use peanut_kernel.Sched.Fairness.{run_ticks, resumed_in, run_ticks-resumes}
use peanut_kernel.Sched.Effects.{Spawned, sched_create_user-Spawned}
use peanut_kernel.Sched.Kill.{Signalled, sched_kill-Signalled, sched_kill-loses_frame}

abbrev booted : Sched
booted = sched_init 3 0

abbrev one : Sched
one = (sched_create_user 0x400 0x800 booted).1

-- Two processes, with pids 1 and 2, and preemption on.
abbrev two : Sched
two = sched_arm_user_preempt (sched_create_user 0x500 0x900 one).1

-- The image that a timer interrupt from ring 3 pushes.
abbrev user_image : List ℕ
user_image =
    1 ∷ 2 ∷ 3 ∷ 4 ∷ 5 ∷ 6 ∷ 7 ∷ 8 ∷ 9 ∷ 10 ∷ 11 ∷ 12 ∷ 13 ∷ 14 ∷ 15 ∷ 0x404 ∷ 0x23 ∷ 0x202 ∷ 0x7f0
    ∷ 0x1B ∷ []

booted-to-two : Reach booted two
booted-to-two = next (next (next here (create 0x400 0x800)) (create 0x500 0x900)) arm

two_runs :
    (sched_current_pid two ≡ some 1)
    × (sched_runnable_count two ≡ 2)
    × ((irq_timer_dispatch rr user_image two).0 ≡ frame_of 1)
    × ((proc_at (irq_timer_dispatch rr user_image two).1.procs 0).frame ≡ user_image)
    × ((irq_timer_dispatch cfs user_image two).0 ≡ frame_of 1)
    × ((sched_fork_current 0x410 0x7f0 0 two).0 ≡ some 3)
unfolding sched_create_user sched_init sched_arm_user_preempt irq_timer_dispatch sched_current_pid
    sched_runnable_count sched_fork_current
two_runs = (refl, refl, refl, refl, refl, refl)

two_kills :
    ((sched_kill 2 sigkill two).0 ≡ true)
    × (sched_runnable_count (sched_kill 2 sigkill two).1 ≡ 1)
    × (sched_current_pid (sched_kill 1 15 two).1 ≡ none)
    × ((sched_kill 7 sigkill two).0 ≡ false)
unfolding sched_create_user sched_init sched_arm_user_preempt sched_kill sched_runnable_count
    sched_current_pid
two_kills = (refl, refl, refl, refl)

two_armed : two.user_preempt_armed ≡ true
unfolding sched_create_user sched_init sched_arm_user_preempt
two_armed = refl

two_live : (is_runnable (proc_at two.procs 0) ≡ true) × (is_runnable (proc_at two.procs 1) ≡ true)
unfolding sched_create_user sched_init sched_arm_user_preempt
two_live = (refl, refl)

Reach-IsValid_example : IsValid two
Reach-IsValid_example = Reach-IsValid 3 0 booted-to-two

-- The invariant at `two`, for the hypotheses of the theorems below.
two-IsValid : IsValid two
two-IsValid = Reach-IsValid 3 0 booted-to-two

irq_timer_dispatch-IsSafe_example : IsSafe (irq_timer_dispatch rr user_image two)
irq_timer_dispatch-IsSafe_example = irq_timer_dispatch-IsSafe rr user_image two two-IsValid

run_ticks-resumes_example :
    resumed_in 1 (run_ticks rr (user_image ∷ user_image ∷ user_image ∷ []) two) ≡ true
unfolding sched_create_user sched_init sched_arm_user_preempt
run_ticks-resumes_example =
    run_ticks-resumes (user_image ∷ user_image ∷ user_image ∷ []) two 1 two-IsValid two_armed
      (refl, (refl, (refl, tt))) two_live.1 (omega arith)

choose_rr-Chosen_example : Chosen two 1
unfolding sched_create_user sched_init sched_arm_user_preempt choose_rr
choose_rr-Chosen_example = choose_rr-Chosen two 1 two-IsValid refl

choose_rr-none_example :
    (choose_rr two ≡ none) ↔ ((i : ℕ) → is_runnable (proc_at two.procs i) ≡ false)
choose_rr-none_example = choose_rr-none two two-IsValid

choose_cfs-least_example :
    (is_runnable (proc_at two.procs 0) ≡ true)
    × ((j : ℕ)
        → is_runnable (proc_at two.procs j) ≡ true
        → (proc_at two.procs 0).vruntime ≤ (proc_at two.procs j).vruntime)
unfolding sched_create_user sched_init sched_arm_user_preempt choose_cfs
choose_cfs-least_example = choose_cfs-least two 0 refl

sched_create_user-Spawned_example :
    let (result, t) = sched_create_user 0x600 0xa00 two in
    ((result ≡ some two.next_pid) × Spawned two t two.next_pid 0 0x600 0xa00 0x202)
    ⊎ ((result ≡ none)
        × (t ≡ two)
        × ((j : ℕ) → j < length two.procs → is_unused (proc_at two.procs j) ≡ false))
sched_create_user-Spawned_example = sched_create_user-Spawned 0x600 0xa00 two two-IsValid

sched_kill-Signalled_example :
    let (result, t) = sched_kill 2 sigkill two in
    ((i : ℕ) × (result ≡ true)
      × Signalled two t 2 sigkill i
      × ((j : ℕ) → is_target 2 (proc_at two.procs j) ≡ true → j ≡ i))
    ⊎ ((result ≡ false) × (t ≡ two) × ((j : ℕ) → is_target 2 (proc_at two.procs j) ≡ false))
sched_kill-Signalled_example = sched_kill-Signalled 2 sigkill two two-IsValid

sched_kill-loses_frame_example :
    let t = (sched_kill (proc_at two.procs 0).pid 15 two).1 in
    let u = (irq_timer_dispatch rr user_image t).1 in
    (is_runnable (proc_at u.procs 0) ≡ true)
    × ((proc_at u.procs 0).frame ≡ (proc_at two.procs 0).frame)
unfolding sched_create_user sched_init sched_arm_user_preempt
sched_kill-loses_frame_example =
    sched_kill-loses_frame rr user_image 15 0 two two-IsValid refl two_live.0 refl
