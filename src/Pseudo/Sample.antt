-- ===== src/Pseudo/Sample.antt =====
-- A mouse that sends 9, 10, 11 and so on, and the kernel behind `devtmpfs_mount`.
use peanut_kernel.Common.{ℕ, ◌+◌, true, false, none, [], ◌==◌, if◌then◌else◌, replicate}
use peanut_kernel.Pseudo.{Hardware, Kernel}

abbrev pub hw : Hardware ℕ
hw = record {
  inb = λ port h. if port == 0x64 then (0x21, h) else (h, h + 1);
  rdrand = λ h. (none, h);
  rdseed = λ h. (none, h);
  rdtsc = λ h. (h, h + 1);
  cpuid = λ leaf. (0, 0);
}

abbrev pub kernel : Kernel ℕ
kernel = record {
  hardware = 9;
  entropy_state = 0xD1B54A32D192ED03;
  has_rdrand = false;
  has_rdseed = false;
  mouse_bytes = replicate 3 0;
  mouse_pos = 0;
  mounted = true;
  dev_mounted = true;
  multi_user_enabled = false;
  hdmi_status = [];
}
