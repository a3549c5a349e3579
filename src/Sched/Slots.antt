-- ===== src/Sched/Slots.antt =====
-- Reading a slot of src/cpu/sched.c's table after one slot was written, and the frames written.
use peanut_kernel.Common.{
  ℕ, ◌<◌, ◌≡◌, ◌≢◌, refl, ap, ◌∙◌, true, false, List, length, get_or, set, get_or-set_self,
  get_or-set_ne, length-copy, subst, get_or-copy_inside, dec_lt, ℕ_discrete, arith,
  find_index-IsFirst, some, get_or_past,
}
use peanut_kernel.Sched.{
  Process, Sched, proc_at, empty_slot, is_runnable, is_unused, user_frame, memcpy64, from_user,
  frame_qwords, alloc_proc,
}

pub proc_at-set_self :
    (procs : List Process) (i : ℕ) (p : Process) → i < length procs → proc_at (set procs i p) i ≡ p
proc_at-set_self procs i p h = get_or-set_self procs i p empty_slot h

pub proc_at-set_ne :
    (procs : List Process) (i j : ℕ) (p : Process)
    → i ≢ j
    → proc_at (set procs i p) j ≡ proc_at procs j
proc_at-set_ne procs i j p h = get_or-set_ne procs i j p empty_slot h

-- A write that keeps what `f` reads of the slot keeps what it reads of every slot.
pub proc_at-set_same {ℓ} :
    {B : Type ℓ} (f : Process → B) (procs : List Process) (i : ℕ) (p : Process)
    → i < length procs
    → f p ≡ f (proc_at procs i)
    → (j : ℕ) → f (proc_at (set procs i p) j) ≡ f (proc_at procs j)
proc_at-set_same f procs i p h e j = elim (ℕ_discrete i j) [
  | yes q ↦
      subst (λ k. f (proc_at (set procs i p) k) ≡ f (proc_at procs k)) q
        (ap f (proc_at-set_self procs i p h) ∙ e)
  | no ne ↦ ap f (proc_at-set_ne procs i j p ne)
]

pub runnable_within :
    (procs : List Process) (i : ℕ) → is_runnable (proc_at procs i) ≡ true → i < length procs
runnable_within procs i h = elim (dec_lt i (length procs)) [
  | yes p ↦ p
  | no p ↦ ground (arith, get_or_past procs i empty_slot (omega arith))
]

pub not_runnable_of_unused : (p : Process) → is_unused p ≡ true → is_runnable p ≡ false
not_runnable_of_unused p h = ground arith

pub length-user_frame : (rip rsp rflags : ℕ) → length (user_frame rip rsp rflags) ≡ frame_qwords
unfolding user_frame
length-user_frame rip rsp rflags = refl

pub from_user-user_frame : (rip rsp rflags : ℕ) → from_user (user_frame rip rsp rflags) ≡ true
unfolding user_frame
from_user-user_frame rip rsp rflags = refl

pub length-memcpy64 : (d s : List ℕ) → length (memcpy64 d s frame_qwords) ≡ length d
unfolding memcpy64
length-memcpy64 d s = length-copy d 0 s 0 frame_qwords

pub get_or-memcpy64 :
    (d s : List ℕ) (k : ℕ)
    → length d ≡ frame_qwords
    → k < frame_qwords
    → get_or (memcpy64 d s frame_qwords) k 0 ≡ get_or s k 0
unfolding memcpy64
get_or-memcpy64 d s k h p =
    ap (λ i. get_or (memcpy64 d s frame_qwords) i 0) (omega arith)
    ∙ get_or-copy_inside d 0 s 0 frame_qwords k (omega arith) p
    ∙ ap (λ i. get_or s i 0) (omega arith)

pub from_user-memcpy64 :
    (d s : List ℕ) → length d ≡ frame_qwords → from_user (memcpy64 d s frame_qwords) ≡ from_user s
from_user-memcpy64 d s h = rw (get_or-memcpy64 d s 16 h (omega arith))

-- What `alloc_proc` returns is an unused slot of the table.
pub record Fresh (s : Sched) (slot : ℕ) : Type 0 where
  pub within : slot < length s.procs
  pub free : is_unused (proc_at s.procs slot) ≡ true

pub alloc_proc-Fresh : (s : Sched) (slot : ℕ) → alloc_proc s ≡ some slot → Fresh s slot
unfolding alloc_proc
alloc_proc-Fresh s slot e =
    let found = find_index-IsFirst is_unused empty_slot s.procs slot e in
    record { within = found.within; free = found.passes }
