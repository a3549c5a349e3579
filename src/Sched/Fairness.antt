-- ===== src/Sched/Fairness.antt =====
-- Round robin in src/cpu/sched.c starves no process: a run of timer interrupts from user mode
-- resumes every process that can run.
use peanut_kernel.Common.{
  ℕ, ◌≤◌, ◌<◌, ◌≡◌, ◌≢◌, refl, Bool, true, false, ◌||◌, List, [], ◌∷◌, some, length, arith, inl,
  inr, ap, ap₂, ◌⊎◌, ℕ_discrete, sym, ◌∙◌, Option-cases, subst, dec_lt, ◌==◌, ==_iff,
}
use peanut_kernel.Sched.{
  Sched, Policy, rr, Resume, same, frame_of, proc_at, is_runnable, irq_timer_dispatch, switch_next,
  choose_next, save_current, tick, from_user, choose_rr, rr_start,
}
use peanut_kernel.Sched.Slots.{runnable_within}
use peanut_kernel.Sched.Invariant.{IsValid}
use peanut_kernel.Sched.Operations.{save_current-IsValid, tick-IsValid}
use peanut_kernel.Sched.RoundRobin.{
  ahead, ahead-lt, ahead_decreases, Chosen, choose_rr-Chosen, choose_rr-none, rr_start-le,
}
use peanut_kernel.Sched.Dispatch.{SameTable, save_current-SameTable, irq_timer_dispatch-IsSafe}

-- Timer interrupts one after another, with the frame that each comes with.
unfoldable pub run_ticks : Policy → List (List ℕ) → Sched → List Resume
run_ticks policy [] s = []
run_ticks policy (sp ∷ sps) s =
    let (r, s') = irq_timer_dispatch policy sp s in r ∷ run_ticks policy sps s'

abbrev pub resumes : ℕ → Resume → Bool
resumes i same = false
resumes i (frame_of j) = j == i

-- Some interrupt of the run returned to the frame of slot `i`.
unfoldable pub resumed_in : ℕ → List Resume → Bool
resumed_in i [] = false
resumed_in i (r ∷ rs) = resumes i r || resumed_in i rs

abbrev pub AllUser : List (List ℕ) → Type 0
AllUser [] = Unit
AllUser (sp ∷ sps) = (from_user sp ≡ true) × AllUser sps

-- One interrupt from user mode under round robin: the slot that it returns to is the new current
-- one, the table's runnable slots are what they were, and no slot nearer than it can run.
record Ticked (s : Sched) (idx : ℕ) (result : Resume × Sched) : Type 0 where
  target : result.0 ≡ frame_of idx
  valid : IsValid result.1
  size : length result.1.procs ≡ length s.procs
  current : result.1.current_proc ≡ some idx
  armed : result.1.user_preempt_armed ≡ s.user_preempt_armed
  states : (i : ℕ) → is_runnable (proc_at result.1.procs i) ≡ is_runnable (proc_at s.procs i)
  within : idx < length s.procs
  nearest :
      (i : ℕ)
      → i < length s.procs
      → is_runnable (proc_at s.procs i) ≡ true
      → ahead (length s.procs) (rr_start s.current_proc) idx
        ≤ ahead (length s.procs) (rr_start s.current_proc) i

module _ (sp : List ℕ) (s : Sched) (i : ℕ) (valid : IsValid s) (armed : s.user_preempt_armed ≡ true)
    (user : from_user sp ≡ true) (can_run : is_runnable (proc_at s.procs i) ≡ true) where
  saved : Sched
  saved = save_current sp (tick s)

  same_table : SameTable (tick s) saved
  unfolding saved
  same_table = save_current-SameTable sp (tick s)

  saved-IsValid : IsValid saved
  unfolding saved
  saved-IsValid = save_current-IsValid sp (tick s) user (tick-IsValid s valid)

  chooses : (idx : ℕ) × (choose_rr saved ≡ some idx)
  chooses = elim (Option-cases (choose_rr saved)) [
    | inr found ↦ found
    | inl idle ↦
        let stuck = (choose_rr-none saved saved-IsValid).0 idle i in
        let live = same_table.same_state i ∙ can_run in absurd (cc)
  ]

  enters : irq_timer_dispatch rr sp s ≡ switch_next rr saved
  unfolding irq_timer_dispatch saved
  enters = ground (arith, armed, user)

  switches :
      (idx : ℕ)
      → choose_rr saved ≡ some idx
      → switch_next rr saved ≡ (frame_of idx, record saved { current_proc = some idx })
  unfolding switch_next choose_next
  switches idx e = rw (e, switch_next)

  ticks_to : (idx : ℕ) → choose_rr saved ≡ some idx → Ticked s idx (irq_timer_dispatch rr sp s)
  ticks_to idx e =
      rw (enters, switches idx e)
        (record {
          target = refl;
          valid =
              subst IsValid (ap (λ r. r.1) (enters ∙ switches idx e))
                (irq_timer_dispatch-IsSafe rr sp s valid).valid;
          size = same_table.same_size;
          current = refl;
          armed = same_table.same_armed;
          states = same_table.same_state;
          within = subst (λ n. idx < n) same_table.same_size chosen.within;
          nearest = λ k p r. elim (dec_lt (distance k) (distance idx)) [
            | no q ↦ omega arith
            | yes q ↦
                let dead =
                  chosen.nearest k (subst (λ n. k < n) (sym same_table.same_size) p)
                    (omega (arith, same_distance k, same_distance idx)) in
                let live = same_table.same_state k ∙ r in absurd (cc)
          ];
        })
    where
      distance : ℕ → ℕ
      distance k = ahead (length s.procs) (rr_start s.current_proc) k

      same_distance :
          (k : ℕ) → ahead (length saved.procs) (rr_start saved.current_proc) k ≡ distance k
      same_distance k =
          ap₂ (λ n c. ahead n (rr_start c) k) same_table.same_size same_table.same_current

      chosen : Chosen saved idx
      chosen = choose_rr-Chosen saved idx saved-IsValid e

  ticks : (idx : ℕ) × Ticked s idx (irq_timer_dispatch rr sp s)
  ticks = (chooses.0, ticks_to chooses.0 chooses.1)

resumed_in-cons :
    (i : ℕ) (r : Resume) (rs : List Resume)
    → (resumes i r ≡ true) ⊎ (resumed_in i rs ≡ true)
    → resumed_in i (r ∷ rs) ≡ true
unfolding resumed_in
resumed_in-cons i r rs h = ground arith

-- The process table of a valid, armed scheduler has a slot that can run. Timer interrupts from user
-- mode under round robin then return to the frame of that slot after at most as many interrupts as
-- there are slots from the current one to it, going round.
pub run_ticks-resumes_nearby :
    (sps : List (List ℕ)) (s : Sched) (i : ℕ)
    → IsValid s
    → s.user_preempt_armed ≡ true
    → AllUser sps
    → is_runnable (proc_at s.procs i) ≡ true
    → ahead (length s.procs) (rr_start s.current_proc) i < length sps
    → resumed_in i (run_ticks rr sps s) ≡ true
unfolding run_ticks
run_ticks-resumes_nearby [] s i valid armed user r near = absurd (omega arith)
run_ticks-resumes_nearby (sp ∷ sps) s i valid armed user r near =
    resumed_in-cons i _ _ (elim (ℕ_discrete idx i) [
      | yes here ↦ inl (ap (resumes i) t.target ∙ (==_iff idx i).1 here)
      | no ne ↦ inr (
          run_ticks-resumes_nearby sps next i t.valid (t.armed ∙ armed) user.1 (t.states i ∙ r)
            (nearer ne))
    ])
  where
    first : (idx : ℕ) × Ticked s idx (irq_timer_dispatch rr sp s)
    first = ticks sp s i valid armed user.0 r

    idx : ℕ
    idx = first.0

    t : Ticked s idx (irq_timer_dispatch rr sp s)
    t = first.1

    next : Sched
    next = (irq_timer_dispatch rr sp s).1

    i_within : i < length s.procs
    i_within = runnable_within s.procs i r

    nearer : idx ≢ i → ahead (length next.procs) (rr_start next.current_proc) i < length sps
    nearer ne =
        let step =
          ahead_decreases (length s.procs) (rr_start s.current_proc) idx i (rr_start-le s valid)
            t.within i_within ne (t.nearest i i_within r) in
        rw (t.size, t.current) (omega arith)

-- From a valid, armed scheduler, any run of at least PROC_MAX timer interrupts from user mode under
-- round robin returns at some point to the frame of every slot that can run.
pub run_ticks-resumes :
    (sps : List (List ℕ)) (s : Sched) (i : ℕ)
    → IsValid s
    → s.user_preempt_armed ≡ true
    → AllUser sps
    → is_runnable (proc_at s.procs i) ≡ true
    → length s.procs ≤ length sps
    → resumed_in i (run_ticks rr sps s) ≡ true
run_ticks-resumes sps s i valid armed user r enough =
    let near =
      ahead-lt (length s.procs) (rr_start s.current_proc) i (rr_start-le s valid)
        (runnable_within s.procs i r) in
    run_ticks-resumes_nearby sps s i valid armed user r (omega arith)
