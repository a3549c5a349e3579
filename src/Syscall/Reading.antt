-- ===== src/Syscall/Reading.antt =====
-- SYS_READ of src/cpu/syscall.c on a file in memory.
use peanut_kernel.Common.{
  ℕ, ◌+◌, ◌≤◌, ◌<◌, ◌≡◌, refl, ap, subst, ◌^◌, ◌∙◌, true, false, some, List, leb, length,
  get_or-set_self, copy, length-copy, get_or-copy_inside, get_or-copy_outside, byte_at, u32,
  Bool-cases, inl, inr, arith,
}
use peanut_kernel.Syscall.{Fd, closed_fd, fd_max, Services, System, Outcome, reads, fd_at, is_open}
use peanut_kernel.Syscall.Descriptors.{take_bytes, read_memory, do_read}
use peanut_kernel.Syscall.Invariant.{IsValid}
use peanut_kernel.Syscall.Handler.{Call, dispatch, syscall_handler}

-- What SYS_READ with a count does to descriptor `f`, which holds `bytes`: the buffer `out` that the
-- caller then has, and how many bytes it is told.
pub record IsTaken (f : Fd) (bytes dst : List ℕ) (count n : ℕ) (out : List ℕ) : Type 0 where
  pub at_most : n ≤ count
  pub in_file : f.off + n ≤ length bytes
  pub short : n < count → f.off + n ≡ length bytes
  pub same_length : length out ≡ length dst
  pub got : (j : ℕ) → j < n → byte_at out j ≡ byte_at bytes (f.off + j)
  pub rest : (j : ℕ) → n ≤ j → byte_at out j ≡ byte_at dst j

copied-IsTaken :
    (f : Fd) (bytes dst : List ℕ) (count : ℕ)
    → length bytes ≡ f.size
    → f.off ≤ f.size
    → count ≤ length dst
    → IsTaken f bytes dst count (take_bytes count f) (copy dst 0 bytes f.off (take_bytes count f))
copied-IsTaken f bytes dst count size offset room = record {
  at_most = ground arith;
  in_file = ground arith;
  short = λ h. ground arith;
  same_length = length-copy dst 0 bytes f.off (take_bytes count f);
  got = λ j h.
      ap (byte_at (copy dst 0 bytes f.off (take_bytes count f))) (omega arith)
      ∙ get_or-copy_inside dst 0 bytes f.off (take_bytes count f) j (ground arith) h;
  rest = λ j h. get_or-copy_outside dst 0 bytes f.off (take_bytes count f) j (inr (omega arith));
}

none-IsTaken :
    (f : Fd) (bytes dst : List ℕ) (count : ℕ)
    → length bytes ≡ f.size
    → f.off ≡ f.size
    → IsTaken f bytes dst count 0 dst
none-IsTaken f bytes dst count size end = record {
  at_most = omega arith;
  in_file = omega arith;
  short = λ h. omega arith;
  same_length = refl;
  got = λ j h. absurd (omega arith);
  rest = λ j h. refl;
}

module _ {H D : Type 0} where
  -- SYS_READ from a state, at a descriptor that holds `bytes`, tells the caller a number.
  pub record IsRead (s : System H D) (fd : ℕ) (bytes dst : List ℕ) (count : ℕ)
      (result : Outcome × System H D) : Type 0 where
    pub n : ℕ
    pub out : List ℕ
    pub told : result.0 ≡ reads n out
    pub taken : IsTaken (fd_at s fd) bytes dst count n out
    pub moved : (fd_at result.1 fd).off ≡ (fd_at s fd).off + n
    pub kept : (fd_at result.1 fd).contents ≡ some bytes
    pub no_error : result.1.last_errno ≡ 0

  pub is_open-lt : (s : System H D) (fd : ℕ) → is_open s fd ≡ true → fd < fd_max
  is_open-lt s fd h = ground arith

  module _ (v : Services H D) (s : System H D) (fd : ℕ) (bytes : List ℕ) (valid : IsValid v s)
      (opened : is_open s fd ≡ true) (plain : (fd_at s fd).is_pseudo ≡ false)
      (holds : (fd_at s fd).contents ≡ some bytes) where
    -- The count that the code reads is 32 bits wide.
    reads_u32 :
        (dst : List ℕ) (count : ℕ)
        → u32 count ≤ length dst
        → IsRead s fd bytes dst (u32 count) (syscall_handler v (Call.sys_read fd dst count) s)
    unfolding syscall_handler dispatch do_read read_memory
    reads_u32 dst count room =
        let f = fd_at s fd in
        let sound = valid.descriptors fd in
        let size = sound.memory bytes holds in
        let within : fd < length s.fds = rw (valid.slots) (is_open-lt s fd opened) in
        elim (Bool-cases (leb (fd_at s fd).size (fd_at s fd).off)) [
          | inl over ↦
              rw (opened, plain, over, do_read, read_memory)
                (record {
                  n = 0;
                  out = dst;
                  told = refl;
                  taken =
                      none-IsTaken f bytes dst (u32 count) size
                        (let le = sound.offset plain in ground arith);
                  moved = omega arith;
                  kept = holds;
                  no_error = refl;
                })
          | inr inside ↦
              rw (opened, plain, inside, holds, do_read, read_memory)
                (record {
                  n = take_bytes (u32 count) f;
                  out = copy dst 0 bytes f.off (take_bytes (u32 count) f);
                  told = refl;
                  taken = copied-IsTaken f bytes dst (u32 count) size (sound.offset plain) room;
                  moved = ap (λ (x : Fd). x.off) (get_or-set_self s.fds fd _ closed_fd within);
                  kept =
                      ap (λ (x : Fd). x.contents) (get_or-set_self s.fds fd _ closed_fd within)
                      ∙ holds;
                  no_error = refl;
                })
        ]

    -- In a valid state, SYS_READ at a descriptor in use that is not a pseudo file and has memory, with
    -- a buffer as long as the count, which is below 2 ^ 32, tells the caller a number of bytes: those of the file from the
    -- offset on are then at the start of the buffer, the rest of which is as it was. The number is at
    -- most the count, and less only if the file ends there; the offset moves by it, the memory is as
    -- it was, and no error is recorded.
    pub syscall_handler-reads :
        (dst : List ℕ) (count : ℕ)
        → count < 2 ^ 32
        → count ≤ length dst
        → IsRead s fd bytes dst count (syscall_handler v (Call.sys_read fd dst count) s)
    syscall_handler-reads dst count narrow room =
        subst (λ n. IsRead s fd bytes dst n (syscall_handler v (Call.sys_read fd dst count) s))
          (omega arith) (reads_u32 dst count (omega arith))
