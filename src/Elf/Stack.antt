-- ===== src/Elf/Stack.antt =====
-- `jump_to_ring3` of src/programs/elf.c: the stack that a program begins with.
-- The stack's words are a function of their addresses; the strings on it are kept apart, though a second
-- argument of more than 207 characters runs into the words. The jump itself, which leaves the kernel, is
-- not modelled.
use peanut_kernel.Common.{
  ℕ, ◌+◌, ◌-◌, ◌*◌, ◌/◌, ◌%◌, ◌^◌, ◌≤◌, ◌<◌, ◌≡◌, ap, ◌∙◌, Option, none, some, List, [], ◌∷◌, map,
  if◌then◌else◌, copy_chars, u64, bit_and, Option-cases, inl, inr, bit_and-round_16, arith,
}
use peanut_kernel.Sched.{Sched, sched_create_user, sched_arm_user_preempt, sched_mark_user_live}
use peanut_kernel.Syscall.Descriptors.{is_blank}
use peanut_kernel.Elf.Image.{Memory, store}

-- `sp--; *sp = word;` on the stack pointer and the words.
abbrev pub push : ℕ → ℕ × Memory → ℕ × Memory
push word (sp, words) = (sp - 8, store words (sp - 8) word)

abbrev pub push_all : List ℕ → ℕ × Memory → ℕ × Memory
push_all [] s = s
push_all (w ∷ ws) s = push_all ws (push w s)

-- `(uintptr_t)sp & ~15ull`
unfoldable pub align_down : ℕ → ℕ
align_down sp = bit_and sp 0xFFFFFFFFFFFFFFF0

-- The stack pointer that a program begins with, the words on its stack, and the strings at `str_base`
-- and 256 bytes behind it.
pub record UserStack : Type 0 where
  pub rsp : ℕ
  pub words : Memory
  pub text0 : List ℕ
  pub text1 : List ℕ

-- An argument that counts: `argv1_opt && argv1_opt[0]`.
abbrev pub given : Option (List ℕ) → Option (List ℕ)
given none = none
given (some text) = if is_blank text then none else some text

-- The end of `test_user_stack`, at address `stack`.
unfoldable pub stack_top : ℕ → ℕ
unfolding align_down
stack_top stack = align_down (u64 (stack + 4096))

abbrev pub str_base : ℕ → ℕ
str_base stack = stack_top stack - 512

-- What is pushed, in order.
abbrev pub pushed : ℕ → Option (List ℕ) → List ℕ
pushed stack none = 0 ∷ 0 ∷ 0 ∷ str_base stack ∷ 1 ∷ []
pushed stack (some text) = 0 ∷ 0 ∷ 0 ∷ (str_base stack + 256) ∷ str_base stack ∷ 2 ∷ []

unfoldable pub user_stack : ℕ → Memory → List ℕ → Option (List ℕ) → UserStack
unfolding stack_top align_down copy_chars
user_stack stack words argv0 argv1 =
    let s = push_all (pushed stack (given argv1)) (stack_top stack, words) in
    record {
      rsp = align_down s.0;
      words = s.1;
      text0 = copy_chars argv0 255;
      text1 = elim (given argv1) [ none ↦ [] | some text ↦ copy_chars text 255 ];
    }

-- `none` is the panic of a full process table.
unfoldable pub jump_to_ring3 :
    ℕ → ℕ → List ℕ → Option (List ℕ) → Memory → Sched → Option (UserStack × Sched)
unfolding user_stack sched_create_user sched_arm_user_preempt sched_mark_user_live
jump_to_ring3 stack entry argv0 argv1 words s =
    let u = user_stack stack words argv0 argv1 in
    let r = sched_create_user entry u.rsp s in
    elim r.0 [
      | none ↦ none
      | some pid ↦ some (u, sched_mark_user_live (sched_arm_user_preempt r.1))
    ]

-- The stack's words from its pointer on.
abbrev pub word_at : UserStack → ℕ → ℕ
word_at u i = u.words (u.rsp + 8 * i)

-- The first words of a stack: behind two arguments the count, both and the end of the list; behind one,
-- the word that was there before, and only then the count.
abbrev pub first_words : ℕ → ℕ → Option (List ℕ) → List ℕ
first_words stack old none = old ∷ 1 ∷ str_base stack ∷ 0 ∷ []
first_words stack old (some text) = 2 ∷ str_base stack ∷ (str_base stack + 256) ∷ 0 ∷ []

-- What a program finds on its stack.
pub record Finds (stack : ℕ) (words : Memory) (argv1 : Option (List ℕ)) (u : UserStack)
    : Type 0 where
  pub aligned : u.rsp % 16 ≡ 0
  pub first : map (word_at u) (0 ∷ 1 ∷ 2 ∷ 3 ∷ []) ≡ first_words stack (words u.rsp) (given argv1)

module _ (stack : ℕ) (small : stack < 2 ^ 63) where
  top_lem : stack_top stack ≡ (stack + 4096) / 16 * 16
  unfolding stack_top align_down
  top_lem =
      let e : u64 (stack + 4096) ≡ stack + 4096 = omega arith in
      ap (λ x. bit_and x 0xFFFFFFFFFFFFFFF0) e ∙ bit_and-round_16 (stack + 4096) (omega arith)

  align_down_lem : (sp : ℕ) → sp < 2 ^ 64 → align_down sp ≡ sp / 16 * 16
  unfolding align_down
  align_down_lem sp h = bit_and-round_16 sp h

  module _ (words : Memory) (argv0 : List ℕ) (argv1 : Option (List ℕ)) where
    -- Both stacks end 48 bytes below the top.
    rsp_lem : (user_stack stack words argv0 argv1).rsp ≡ stack_top stack - 48
    unfolding user_stack
    rsp_lem = elim (Option-cases (given argv1)) [
      | inl e ↦
          rw (e, user_stack)
            (align_down_lem (stack_top stack - 8 - 8 - 8 - 8 - 8) (omega (arith, top_lem))
              ∙ omega (arith, top_lem))
      | inr (text, e) ↦
          rw (e, user_stack)
            (align_down_lem (stack_top stack - 8 - 8 - 8 - 8 - 8 - 8) (omega (arith, top_lem))
              ∙ omega (arith, top_lem))
    ]

    user_stack-Finds : Finds stack words argv1 (user_stack stack words argv0 argv1)
    unfolding user_stack
    user_stack-Finds =
        let far : 64 ≤ stack_top stack = omega (arith, top_lem) in
        let here : stack_top stack - 48 + 0 ≡ stack_top stack - 48 = omega arith in
        record {
          aligned = rw rsp_lem (omega (arith, top_lem));
          first = elim (Option-cases (given argv1)) [
            | inl e ↦ rw (rsp_lem, e, user_stack, here) (ground arith)
            | inr (text, e) ↦ rw (rsp_lem, e, user_stack) (ground arith)
          ];
        }

    -- Where the stack's address is below 2 ^ 63 and a process can be created, a program's stack pointer
    -- is a multiple of 16, and the process is created with it. With a second argument the stack begins
    -- with the count 2, both arguments and a zero, but without one it begins with the word that was
    -- there before, and the count 1, the argument and a zero come behind that.
    pub jump_to_ring3-Finds :
        (entry : ℕ) (s : Sched) (pid : ℕ)
        → let u = user_stack stack words argv0 argv1 in
          (sched_create_user entry u.rsp s).0 ≡ some pid
          → (jump_to_ring3 stack entry argv0 argv1 words s
              ≡ some (
                u,
                sched_mark_user_live (sched_arm_user_preempt (sched_create_user entry u.rsp s).1),
              ))
            × Finds stack words argv1 u
    unfolding jump_to_ring3
    jump_to_ring3-Finds entry s pid created = (rw (created, jump_to_ring3), user_stack-Finds)
