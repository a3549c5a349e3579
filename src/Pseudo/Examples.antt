-- ===== src/Pseudo/Examples.antt =====
-- The pseudo files with a mouse that sends 9, 10, 11 and so on, and the theorems about them there.
use peanut_kernel.Common.{ℕ, ◌≡◌, refl, false, some, List, [], ◌∷◌, arith, replicate}
use peanut_kernel.Pseudo.{Kernel}
use peanut_kernel.Pseudo.Sample.{hw, kernel}
use peanut_kernel.Pseudo.Names.{path_mouse, path_version, text_version}
use peanut_kernel.Pseudo.Devtmpfs.{devtmpfs_is_path}
use peanut_kernel.Pseudo.Ps2.{ps2_poll_mouse_packet}
use peanut_kernel.Pseudo.Vfs.{pseudo_text, vfs_pseudo_pread}
use peanut_kernel.Pseudo.Filled.{IsFilled, vfs_pseudo_pread-IsFilled}
use peanut_kernel.Pseudo.Mouse.{IsInStep, IsPolled, ps2_poll_mouse_packet-IsPolled}
use peanut_kernel.Pseudo.Reading.{read_all, vfs_pseudo_pread-reads_all}

-- Two bytes of a packet are there.
abbrev kernel' : Kernel ℕ
kernel' = record kernel { mouse_bytes = 9 ∷ 10 ∷ 0 ∷ []; mouse_pos = 2 }

abbrev given : List ℕ
given = 9 ∷ 10 ∷ 9 ∷ replicate 5 1

mouse_reads : (vfs_pseudo_pread hw path_mouse 0 (replicate 8 1) 7 kernel').0 ≡ some (given, 3)
unfolding vfs_pseudo_pread
mouse_reads = refl

vfs_pseudo_pread-IsFilled_example : IsFilled 0 7 (replicate 8 1) (given, 3)
vfs_pseudo_pread-IsFilled_example =
    vfs_pseudo_pread-IsFilled 7 (replicate 8 1) hw path_mouse 0 kernel' (given, 3) mouse_reads

kernel-IsInStep : IsInStep kernel
kernel-IsInStep = record { three = refl; below = omega arith; first = λ p. absurd (omega arith) }

ps2_poll_mouse_packet-IsPolled_example : IsPolled (ps2_poll_mouse_packet hw kernel)
ps2_poll_mouse_packet-IsPolled_example = ps2_poll_mouse_packet-IsPolled hw kernel kernel-IsInStep

not_a_device : devtmpfs_is_path kernel path_version ≡ false
unfolding devtmpfs_is_path
not_a_device = refl

version_text : pseudo_text kernel path_version ≡ some text_version
unfolding pseudo_text
version_text = refl

vfs_pseudo_pread-reads_all_example :
    read_all hw path_version (replicate 6 0) 5 kernel 30 0 ≡ some text_version
vfs_pseudo_pread-reads_all_example =
    vfs_pseudo_pread-reads_all hw path_version (replicate 6 0) 5 kernel text_version not_a_device
      version_text (omega arith) (omega arith) 30 (omega arith)
