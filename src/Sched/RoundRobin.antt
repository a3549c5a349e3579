-- ===== src/Sched/RoundRobin.antt =====
-- `choose_rr` of src/cpu/sched.c: the first runnable slot after the current one, going round.
use peanut_kernel.Common.{
  ℕ, zero, suc, ◌+◌, ◌-◌, ◌%◌, ◌≤◌, ◌<◌, ◌≡◌, ◌≢◌, refl, Bool, true, false, List, none, some,
  length, arith, leb, if◌then◌else◌, Bool-cases, inl, inr, dec_lt, ap, ◌∙◌, subst, ◌↔◌,
  Option-cases,
}
use native.Mathlib.Nat.{mod-eq_of_lt, mod-eq-sub-mod}
use peanut_kernel.Sched.{Process, Sched, proc_at, is_runnable, rr_scan, rr_start, choose_rr}
use peanut_kernel.Sched.Slots.{runnable_within}
use peanut_kernel.Sched.Invariant.{IsValid}

-- The slot that the scan looks at in its round `m`.
abbrev pub slot_of : List Process → ℕ → ℕ → ℕ
slot_of procs start m = (start + m) % length procs

-- How many slots a scan from `start` passes before it comes to slot `i` of `size`.
abbrev pub ahead : ℕ → ℕ → ℕ → ℕ
ahead size start i = if leb start i then i - start else i + size - start

-- A scan stopped at slot `idx` in round `round`, its first runnable slot.
pub record StopsAt (procs : List Process) (start lo hi idx : ℕ) : Type 0 where
  pub round : ℕ
  pub above : lo ≤ round
  pub below : round < hi
  pub slot : idx ≡ slot_of procs start round
  pub found : is_runnable (proc_at procs idx) ≡ true
  pub skipped :
      (m : ℕ) → lo ≤ m → m < round → is_runnable (proc_at procs (slot_of procs start m)) ≡ false

module _ (procs : List Process) (start : ℕ) where
  abbrev runs : ℕ → Bool
  runs m = is_runnable (proc_at procs (slot_of procs start m))

  stops_now :
      (n left : ℕ) → runs n ≡ true → StopsAt procs start n (n + suc left) (slot_of procs start n)
  stops_now n left r = record {
    round = n;
    above = omega arith;
    below = omega arith;
    slot = refl;
    found = r;
    skipped = λ m p q. absurd (omega arith);
  }

  stops_later :
      (n left idx : ℕ)
      → runs n ≡ false
      → StopsAt procs start (n + 1) (n + 1 + left) idx
      → StopsAt procs start n (n + suc left) idx
  stops_later n left idx r h = record {
    round = h.round;
    above = let p = h.above in omega arith;
    below = let p = h.below in omega arith;
    slot = h.slot;
    found = h.found;
    skipped = λ m p q. elim (dec_lt n m) [
      | yes after ↦ h.skipped m (omega arith) q
      | no here ↦ let e : n ≡ m = omega arith in rw (← e) r
    ];
  }

  rr_scan-StopsAt :
      (left n idx : ℕ)
      → rr_scan procs start left n ≡ some idx
      → StopsAt procs start n (n + left) idx
  unfolding rr_scan
  rr_scan-StopsAt zero n idx e = cc
  rr_scan-StopsAt (suc left) n idx e = elim (Bool-cases (runs n)) [
    | inl r ↦
        let here : slot_of procs start n ≡ idx = ground arith in rw (← here) (stops_now n left r)
    | inr r ↦ stops_later n left idx r (rr_scan-StopsAt left (n + 1) idx (ground arith))
  ]

  rr_scan-none :
      (left n : ℕ)
      → rr_scan procs start left n ≡ none
      → (m : ℕ) → n ≤ m
      → m < n + left
      → runs m ≡ false
  unfolding rr_scan
  rr_scan-none zero n e m p q = absurd (omega arith)
  rr_scan-none (suc left) n e m p q = elim (dec_lt n m) [
    | yes after ↦ rr_scan-none left (n + 1) (ground arith) m (omega arith) (omega arith)
    | no here ↦ let e' : n ≡ m = omega arith in rw (← e') (ground arith)
  ]

pub ahead-lt : (size start i : ℕ) → start ≤ size → i < size → ahead size start i < size
ahead-lt size start i p q = ground arith

-- Going round `ahead` slots from `start` leads to slot `i`.
ahead_slot : (size start i : ℕ) → start ≤ size → i < size → (start + ahead size start i) % size ≡ i
ahead_slot size start i p q = elim (Bool-cases (leb start i)) [
  | inl le ↦ rw le (ap (λ k. k % size) (ground arith) ∙ mod-eq_of_lt q)
  | inr gt ↦ rw gt (
      ap (λ k. k % size) (ground arith)
      ∙ mod-eq-sub-mod {n = i + size} {m = size} (omega arith)
      ∙ ap (λ k. k % size) (omega arith)
      ∙ mod-eq_of_lt q)
]

pub rr_start-le : (s : Sched) → IsValid s → rr_start s.current_proc ≤ length s.procs
rr_start-le s valid = elim (Option-cases s.current_proc) [
  | inl idle ↦ rw idle (omega arith)
  | inr (c, e) ↦ rw e (let within = valid.current_in c e in omega arith)
]

-- Round `m` of a scan looks at a slot that is `m` slots ahead.
ahead_round :
    (size start m : ℕ) → start ≤ size → m < size → ahead size start ((start + m) % size) ≡ m
ahead_round size start m p q = elim (dec_lt (start + m) size) [
  | yes fits ↦ rw (mod-eq_of_lt fits) (ground arith)
  | no round ↦
      rw
        (
          mod-eq-sub-mod {n = start + m} {m = size} (omega arith),
          mod-eq_of_lt {n = start + m - size} {m = size} (omega arith),
        )
        (ground arith)
]

-- Behind another slot that is no farther than `i`, slot `i` is nearer than before.
pub ahead_decreases :
    (size start idx i : ℕ)
    → start ≤ size
    → idx < size
    → i < size
    → idx ≢ i
    → ahead size start idx ≤ ahead size start i
    → ahead size (idx + 1) i < ahead size start i
ahead_decreases size start idx i p q r ne h = ground arith

-- The choice of `choose_rr`: a runnable slot of the table, with none that can run before it.
pub record Chosen (s : Sched) (idx : ℕ) : Type 0 where
  pub within : idx < length s.procs
  pub can_run : is_runnable (proc_at s.procs idx) ≡ true
  pub nearest :
      (i : ℕ)
      → i < length s.procs
      → ahead (length s.procs) (rr_start s.current_proc) i
        < ahead (length s.procs) (rr_start s.current_proc) idx
      → is_runnable (proc_at s.procs i) ≡ false

-- Where `choose_rr` returns a slot, that slot can run, and every slot between the current one and
-- it, going round the table, cannot.
pub choose_rr-Chosen : (s : Sched) (idx : ℕ) → IsValid s → choose_rr s ≡ some idx → Chosen s idx
unfolding choose_rr
choose_rr-Chosen s idx valid e = record {
  within = runnable_within s.procs idx stop.found;
  can_run = stop.found;
  nearest = λ i p q.
      subst (λ k. is_runnable (proc_at s.procs k) ≡ false) (ahead_slot size start i start-le p)
        (stop.skipped (ahead size start i) (omega arith) (omega (arith, at_round)));
}
  where
    size : ℕ
    size = length s.procs

    start : ℕ
    start = rr_start s.current_proc

    start-le : start ≤ size
    start-le = rr_start-le s valid

    stop : StopsAt s.procs start 0 (0 + size) idx
    stop = rr_scan-StopsAt s.procs start size 0 idx e

    at_round : ahead size start idx ≡ stop.round
    at_round =
        ap (ahead size start) stop.slot
        ∙ ahead_round size start stop.round start-le (let below = stop.below in omega arith)

-- `choose_rr` returns -1 exactly when no slot of the table can run.
pub choose_rr-none :
    (s : Sched)
    → IsValid s
    → (choose_rr s ≡ none) ↔ ((i : ℕ) → is_runnable (proc_at s.procs i) ≡ false)
unfolding choose_rr
choose_rr-none s valid = (idle, blocked)
  where
    size : ℕ
    size = length s.procs

    start : ℕ
    start = rr_start s.current_proc

    idle : choose_rr s ≡ none → (i : ℕ) → is_runnable (proc_at s.procs i) ≡ false
    idle e i = elim (Bool-cases (is_runnable (proc_at s.procs i))) [
      | inl r ↦
          let p : i < size = runnable_within s.procs i r in
          subst (λ k. is_runnable (proc_at s.procs k) ≡ false)
            (ahead_slot size start i (rr_start-le s valid) p)
            (rr_scan-none s.procs start size 0 e (ahead size start i) (omega arith)
              (let q = ahead-lt size start i (rr_start-le s valid) p in omega arith))
      | inr r ↦ r
    ]

    blocked : ((i : ℕ) → is_runnable (proc_at s.procs i) ≡ false) → choose_rr s ≡ none
    blocked h = elim (Option-cases (choose_rr s)) [
      | inl e ↦ e
      | inr (idx, e) ↦
          let stop = rr_scan-StopsAt s.procs start size 0 idx e in
          absurd (ground (arith, stop.found, h idx))
    ]
