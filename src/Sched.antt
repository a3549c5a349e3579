-- ===== src/Sched.antt =====
-- src/cpu/sched.c: the process table, its operations and the timer interrupt's choice.
-- `current_proc` and the results that are -1 on failure are options. A pid is the number that an
-- `int` holds: `next_pid++` past 2 ^ 31 - 1 is undefined in C and is not modelled. `pic_master_eoi`
-- only talks to the interrupt controller. Reads of `procs` stay inside the table (Sched.Invariant);
-- out of range `proc_at` gives an unused slot.
pub mod Slots
pub mod Invariant
pub mod Operations
pub mod RoundRobin
pub mod VirtualRuntime
pub mod Dispatch
pub mod Fairness
pub mod Effects
pub mod Kill
pub mod Reach
mod Examples
use peanut_kernel.Common.{
  ℕ, zero, suc, ◌+◌, ◌%◌, ◌^◌, bit_and, Bool, true, false, ◌&&◌, ◌||◌, not, Option, none, some,
  List, [], ◌∷◌, ◌==◌, ltb, if◌then◌else◌, length, get_or, set, replicate, find_index, copy,
}

pub data ProcState : Type 0 where
  unused runnable zombie : ProcState

-- `frame` is the saved register image, FRAME_QWORDS words.
pub record Process : Type 0 where
  pub state : ProcState
  pub pid : ℕ
  pub signal : ℕ
  pub vruntime : ℕ
  pub frame : List ℕ

-- The file's static variables. The table has PROC_MAX slots.
pub record Sched : Type 0 where
  pub procs : List Process
  pub current_proc : Option ℕ
  pub next_pid : ℕ
  pub user_preempt_armed : Bool
  pub sched_in_idle : Bool
  pub sched_jiffies : ℕ

abbrev pub frame_qwords : ℕ
frame_qwords = 20

abbrev pub sigint : ℕ
sigint = 2

abbrev pub sigkill : ℕ
sigkill = 9

abbrev pub sigsegv : ℕ
sigsegv = 11

abbrev pub is_runnable : Process → Bool
is_runnable p = elim p.state [ unused ↦ false | runnable ↦ true | zombie ↦ false ]

abbrev pub is_unused : Process → Bool
is_unused p = elim p.state [ unused ↦ true | runnable ↦ false | zombie ↦ false ]

abbrev pub empty_slot : Process
empty_slot = record {
  state = unused;
  pid = 0;
  signal = 0;
  vruntime = 0;
  frame = replicate frame_qwords 0;
}

-- `procs[i]`
abbrev pub proc_at : List Process → ℕ → Process
proc_at procs i = get_or procs i empty_slot

unfoldable pub sched_init : ℕ → ℕ → Sched
sched_init proc_max jiffies = record {
  procs = replicate proc_max empty_slot;
  current_proc = none;
  next_pid = 1;
  user_preempt_armed = false;
  sched_in_idle = false;
  sched_jiffies = jiffies;
}

unfoldable pub sched_arm_user_preempt : Sched → Sched
sched_arm_user_preempt s = record s { user_preempt_armed = true }

unfoldable pub sched_disarm_user_preempt : Sched → Sched
sched_disarm_user_preempt s = record s { user_preempt_armed = false; sched_in_idle = false }

unfoldable pub sched_mark_user_live : Sched → Sched
sched_mark_user_live s = record s { sched_in_idle = false }

unfoldable pub alloc_proc : Sched → Option ℕ
unfolding find_index
alloc_proc s = find_index is_unused s.procs

-- The last five words of a frame as `sched_create_user` and `sched_fork_current` fill them.
unfoldable pub user_frame : ℕ → ℕ → ℕ → List ℕ
user_frame rip rsp rflags =
    set (set (set (set (set (replicate frame_qwords 0) 15 rip) 16 0x23) 17 rflags) 18 rsp) 19 0x1B

-- `if (current_proc < 0) current_proc = slot;`
abbrev pub or_slot : Option ℕ → ℕ → Option ℕ
or_slot none slot = some slot
or_slot (some c) slot = some c

unfoldable pub create_in : ℕ → ℕ → ℕ → Sched → Sched
unfolding user_frame
create_in slot entry user_rsp s = record s {
  procs = set s.procs slot (record {
    state = runnable;
    pid = s.next_pid;
    signal = 0;
    vruntime = 0;
    frame = user_frame entry user_rsp 0x202;
  });
  next_pid = s.next_pid + 1;
  current_proc = or_slot s.current_proc slot;
}

unfoldable pub sched_create_user : ℕ → ℕ → Sched → Option ℕ × Sched
unfolding alloc_proc create_in
sched_create_user entry user_rsp s = elim (alloc_proc s) [
  | none ↦ (none, s)
  | some slot ↦ (some s.next_pid, create_in slot entry user_rsp s)
]

-- `procs[current_proc]`, where it is there and runnable.
unfoldable pub running : Sched → Option Process
running s = elim s.current_proc [
  | none ↦ none
  | some c ↦ if is_runnable (proc_at s.procs c) then some (proc_at s.procs c) else none
]

unfoldable pub fork_in : ℕ → Process → ℕ → ℕ → ℕ → Sched → Sched
unfolding user_frame
fork_in slot parent user_rip user_rsp user_flags s = record s {
  procs = set s.procs slot (record {
    state = runnable;
    pid = s.next_pid;
    signal = 0;
    vruntime = parent.vruntime;
    frame = user_frame user_rip user_rsp (if user_flags == 0 then 0x202 else user_flags);
  });
  next_pid = s.next_pid + 1;
}

unfoldable pub sched_fork_current : ℕ → ℕ → ℕ → Sched → Option ℕ × Sched
unfolding running alloc_proc fork_in
sched_fork_current user_rip user_rsp user_flags s = elim (running s) [
  | none ↦ (none, s)
  | some parent ↦ elim (alloc_proc s) [
    | none ↦ (none, s)
    | some slot ↦ (some s.next_pid, fork_in slot parent user_rip user_rsp user_flags s)
  ]
]

abbrev pub is_fatal : ℕ → Bool
is_fatal signal = signal == sigkill || signal == sigsegv || signal == sigint

-- The test of `sched_kill`'s loop.
abbrev pub is_target : ℕ → Process → Bool
is_target pid p = is_runnable p && p.pid == pid

abbrev pub is_some_of : Option ℕ → ℕ → Bool
is_some_of none i = false
is_some_of (some c) i = c == i

unfoldable pub signal_at : ℕ → ℕ → Sched → Sched
signal_at i signal s =
    let p = proc_at s.procs i in
    record s {
      procs =
          set s.procs i
            (record p { signal = signal; state = if is_fatal signal then zombie else p.state });
      current_proc = if is_some_of s.current_proc i then none else s.current_proc;
    }

-- `true` is the result 0.
unfoldable pub sched_kill : ℕ → ℕ → Sched → Bool × Sched
unfolding find_index signal_at
sched_kill pid signal s = elim (find_index (is_target pid) s.procs) [
  | none ↦ (false, s)
  | some i ↦ (true, signal_at i signal s)
]

unfoldable pub sched_current_pid : Sched → Option ℕ
unfolding running
sched_current_pid s = elim (running s) [ none ↦ none | some p ↦ some p.pid ]

unfoldable pub count_runnable : List Process → ℕ
count_runnable [] = 0
count_runnable (p ∷ ps) = (if is_runnable p then 1 else 0) + count_runnable ps

unfoldable pub sched_runnable_count : Sched → ℕ
unfolding count_runnable
sched_runnable_count s = count_runnable s.procs

-- The loop of `choose_rr` at `n`, with `left` rounds to go.
unfoldable pub rr_scan : List Process → ℕ → ℕ → ℕ → Option ℕ
rr_scan procs start zero n = none
rr_scan procs start (suc left) n =
    let idx = (start + n) % length procs in
    let rest = rr_scan procs start left (n + 1) in
    if is_runnable (proc_at procs idx) then some idx else rest

abbrev pub rr_start : Option ℕ → ℕ
rr_start none = 0
rr_start (some c) = c + 1

unfoldable pub choose_rr : Sched → Option ℕ
unfolding rr_scan
choose_rr s = rr_scan s.procs (rr_start s.current_proc) (length s.procs) 0

-- `best < 0 || procs[i].vruntime < procs[best].vruntime`
abbrev pub beats : List Process → Process → Option ℕ → Bool
beats procs p none = true
beats procs p (some b) = ltb p.vruntime (proc_at procs b).vruntime

-- The loop of `choose_cfs` at `i`, over the slots from `i` on.
unfoldable pub cfs_scan : List Process → List Process → ℕ → Option ℕ → Option ℕ
cfs_scan procs [] i best = best
cfs_scan procs (p ∷ ps) i best =
    cfs_scan procs ps (suc i) (if is_runnable p && beats procs p best then some i else best)

unfoldable pub choose_cfs : Sched → Option ℕ
unfolding cfs_scan
choose_cfs s = cfs_scan s.procs s.procs 0 none

-- CONFIG_SCHED_RR or CONFIG_SCHED_CFS.
pub data Policy : Type 0 where
  rr cfs : Policy

unfoldable pub choose_next : Policy → Sched → Option ℕ
unfolding choose_rr choose_cfs
choose_next rr s = choose_rr s
choose_next cfs s = choose_cfs s

-- The frame that the interrupt returns to: the one it came with, or `procs[i].frame`.
pub data Resume : Type 0 where
  same : Resume
  frame_of : ℕ → Resume

unfoldable pub memcpy64 : List ℕ → List ℕ → ℕ → List ℕ
unfolding copy
memcpy64 d s n = copy d 0 s 0 n

-- The interrupted process: its frame is saved and its virtual runtime goes up by one.
abbrev pub preempted : List ℕ → Process → Process
preempted sp p = record p {
  frame = memcpy64 p.frame sp frame_qwords;
  vruntime = (p.vruntime + 1) % 2 ^ 64;
}

unfoldable pub save_at : List ℕ → ℕ → Sched → Sched
unfolding memcpy64
save_at sp c s =
    if is_runnable (proc_at s.procs c)
    then record s { procs = set s.procs c (preempted sp (proc_at s.procs c)) }
    else s

unfoldable pub save_current : List ℕ → Sched → Sched
unfolding save_at
save_current sp s = elim s.current_proc [ none ↦ s | some c ↦ save_at sp c s ]

abbrev pub tick : Sched → Sched
tick s = record s { sched_jiffies = (s.sched_jiffies + 1) % 2 ^ 64 }

-- `(sp[16] & 3) == 3`: the interrupted code ran in ring 3.
abbrev pub from_user : List ℕ → Bool
from_user sp = bit_and (get_or sp 16 0) 3 == 3

unfoldable pub switch_next : Policy → Sched → Resume × Sched
unfolding choose_next
switch_next policy s = elim (choose_next policy s) [
  | none ↦ (same, s)
  | some next ↦ (frame_of next, record s { current_proc = some next })
]

unfoldable pub irq_timer_dispatch : Policy → List ℕ → Sched → Resume × Sched
unfolding save_current switch_next
irq_timer_dispatch policy sp s =
    if not s.user_preempt_armed
    then (same, tick s)
    else if not (from_user sp)
    then (same, tick s)
    else switch_next policy (save_current sp (tick s))
