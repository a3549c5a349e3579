-- ===== src/Sched/VirtualRuntime.antt =====
-- `choose_cfs` of src/cpu/sched.c: a runnable slot of the least virtual runtime.
use peanut_kernel.Common.{
  ℕ, suc, ◌+◌, ◌≤◌, ◌<◌, ◌≡◌, true, false, List, [], ◌∷◌, Option, none, some, length, arith,
  if◌then◌else◌, Bool-cases, inl, inr, dec_lt, ap, sym, ◌∙◌, subst, ◌&&◌,
}
use peanut_kernel.Sched.{Process, Sched, proc_at, is_runnable, cfs_scan, beats, choose_cfs}
use peanut_kernel.Sched.Slots.{runnable_within}

-- What the loop has found among the slots below `i`.
abbrev Best : List Process → ℕ → Option ℕ → Type 0
Best procs i none = (j : ℕ) → j < i → is_runnable (proc_at procs j) ≡ false
Best procs i (some b) =
    (is_runnable (proc_at procs b) ≡ true)
    × ((j : ℕ)
        → j < i
        → is_runnable (proc_at procs j) ≡ true
        → (proc_at procs b).vruntime ≤ (proc_at procs j).vruntime)

module _ (procs : List Process) where
  abbrev better : ℕ → Option ℕ → Option ℕ
  better i best =
      if is_runnable (proc_at procs i) && beats procs (proc_at procs i) best then some i else best

  Best-step : (i : ℕ) (best : Option ℕ) → Best procs i best → Best procs (suc i) (better i best)
  Best-step i none h = elim (Bool-cases (is_runnable (proc_at procs i))) [
    | inl r ↦ rw r (
      r,
      λ j p rj. elim (dec_lt j i) [
        | yes q ↦ absurd (let r' = h j q in cc)
        | no q ↦ let e : j ≡ i = omega arith in rw e (omega arith)
      ],
    )
    | inr r ↦
        rw r (λ j p. elim (dec_lt j i) [
          | yes q ↦ h j q
          | no q ↦ let e : j ≡ i = omega arith in rw e r
        ])
  ]
  Best-step i (some b) h = elim (Bool-cases (is_runnable (proc_at procs i))) [
    | inl r ↦ elim (Bool-cases (beats procs (proc_at procs i) (some b))) [
      | inl less ↦
          rw (r, less)
            (
              r,
              λ j p rj. elim (dec_lt j i) [
                | yes q ↦ let old = h.1 j q rj in ground arith
                | no q ↦ let e : j ≡ i = omega arith in rw e (omega arith)
              ],
            )
      | inr more ↦
          rw (r, more)
            (
              h.0,
              λ j p rj. elim (dec_lt j i) [
                | yes q ↦ h.1 j q rj
                | no q ↦ let e : j ≡ i = omega arith in rw e (ground arith)
              ],
            )
    ]
    | inr r ↦ rw r (
      h.0,
      λ j p rj. elim (dec_lt j i) [
        | yes q ↦ h.1 j q rj
        | no q ↦
            let e : i ≡ j = omega arith in
            absurd (let r' = subst (λ k. is_runnable (proc_at procs k) ≡ false) e r in cc)
      ],
    )
  ]

  cfs_scan-Best :
      (ps : List Process) (i : ℕ) (best : Option ℕ)
      → ((j : ℕ) → proc_at ps j ≡ proc_at procs (i + j))
      → Best procs i best
      → Best procs (i + length ps) (cfs_scan procs ps i best)
  unfolding cfs_scan
  cfs_scan-Best [] i best same h =
      subst (λ k. Best procs k best) (let e : i ≡ i + 0 = omega arith in e) h
  cfs_scan-Best (p ∷ ps) i best same h =
      subst (λ k. Best procs k (cfs_scan procs (p ∷ ps) i best))
        (let e : suc i + length ps ≡ i + suc (length ps) = omega arith in e)
        (cfs_scan-Best ps (suc i) _ (λ j. same (suc j) ∙ ap (proc_at procs) (omega arith))
          (subst
            (λ q. Best procs (suc i) (if is_runnable q && beats procs q best then some i else best))
            (sym (same 0 ∙ ap (proc_at procs) (omega arith))) (Best-step i best h)))

choose_cfs-Best : (s : Sched) → Best s.procs (length s.procs) (choose_cfs s)
unfolding choose_cfs
choose_cfs-Best s =
    subst (λ k. Best s.procs k (choose_cfs s))
      (let e : 0 + length s.procs ≡ length s.procs = omega arith in e)
      (cfs_scan-Best s.procs s.procs 0 none (λ j. ap (proc_at s.procs) (omega arith))
        (λ j p. absurd (omega arith)))

-- Where `choose_cfs` returns a slot, that slot can run, and no slot that can run has a smaller
-- virtual runtime.
pub choose_cfs-least :
    (s : Sched) (idx : ℕ)
    → choose_cfs s ≡ some idx
    → (is_runnable (proc_at s.procs idx) ≡ true)
      × ((j : ℕ)
          → is_runnable (proc_at s.procs j) ≡ true
          → (proc_at s.procs idx).vruntime ≤ (proc_at s.procs j).vruntime)
choose_cfs-least s idx e =
    let best = subst (Best s.procs (length s.procs)) e (choose_cfs-Best s) in
    (best.0, λ j r. best.1 j (runnable_within s.procs j r) r)

-- `choose_cfs` returns -1 only when no slot can run.
pub choose_cfs-none :
    (s : Sched) → choose_cfs s ≡ none → (j : ℕ) → is_runnable (proc_at s.procs j) ≡ false
choose_cfs-none s e j = elim (Bool-cases (is_runnable (proc_at s.procs j))) [
  | inl r ↦
      subst (Best s.procs (length s.procs)) e (choose_cfs-Best s) j (runnable_within s.procs j r)
  | inr r ↦ r
]
