-- ===== src/Pseudo.antt =====
-- The pseudo files under /dev, /proc, /sys and /etc, and what they are made of: the state shared by
-- src/drivers/entropy.c, src/drivers/input/ps2.c, src/fs/devtmpfs.c, src/fs/vfs.c and src/users.c.
-- The processor's instructions and the ports are a parameter that acts on its own state.
pub mod Entropy
pub mod Ps2
pub mod Names
pub mod Devtmpfs
pub mod Vfs
pub mod Filled
pub mod Reading
pub mod Mouse
pub mod Paths
pub mod Sample
mod Examples
use peanut_kernel.Common.{ℕ, Bool, Option, List}

-- `rdrand` and `rdseed` give `none` where they clear the carry flag; `cpuid` gives ebx and ecx.
pub record Hardware (H : Type 0) : Type 0 where
  pub inb : ℕ → H → ℕ × H
  pub rdrand : H → Option ℕ × H
  pub rdseed : H → Option ℕ × H
  pub rdtsc : H → ℕ × H
  pub cpuid : ℕ → ℕ × ℕ

-- The static variables of the five files, and the text that `hdmi_status` returns.
pub record Kernel (H : Type 0) : Type 0 where
  pub hardware : H
  pub entropy_state : ℕ
  pub has_rdrand : Bool
  pub has_rdseed : Bool
  pub mouse_bytes : List ℕ
  pub mouse_pos : ℕ
  pub mounted : Bool
  pub dev_mounted : Bool
  pub multi_user_enabled : Bool
  pub hdmi_status : List ℕ
