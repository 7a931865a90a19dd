-- ===== src/Boot/Start.antt =====
-- src/kernel_boot.c: the state in which a kernel starts.
use Prim.Native.String.{String}
use tinyvm.Base.{ℕ, ◌+◌, ◌≡◌, refl, true, false, ◌==◌, ok, pure, modify, ◌>>=◌}
use tinyvm.Machine.{Machine, on_cpu}
use tinyvm.Cpu.Csr.{
  reg_a0, reg_a1, priv_s, csr_medeleg, csr_mideleg, csr_mip, mip_ssip, mip_stip, mip_seip,
}
use tinyvm.Sbi.{sbi_init, delegated_causes}
use tinyvm.Boot.Elf.{HostFiles, elf_load, load_failed}
use tinyvm.Boot.Modes.{start_kernel, kernel_boot}

-- S-mode at the entry, with the hart in a0 and the device tree in a1, the delegations of the
-- firmware, and all else that a kernel sees as the loader left it.
pub record IsStarted (dtb entry : ℕ) (before after : Machine) : Type 0 where
  pub pc : after.cpu.pc ≡ entry
  pub privilege : after.cpu.privilege ≡ priv_s
  pub a0 : after.cpu.regs reg_a0 ≡ 0
  pub a1 : after.cpu.regs reg_a1 ≡ dtb
  pub regs :
      (r : ℕ) → (r == reg_a0) ≡ false → (r == reg_a1) ≡ false → after.cpu.regs r ≡ before.cpu.regs r
  pub medeleg : after.cpu.csrs csr_medeleg ≡ delegated_causes
  pub mideleg : after.cpu.csrs csr_mideleg ≡ mip_ssip + mip_stip + mip_seip
  pub mip : after.cpu.csrs csr_mip ≡ before.cpu.csrs csr_mip
  pub regions : after.regions ≡ before.regions

abbrev pub started : ℕ → ℕ → Machine → Machine
started dtb entry m = on_cpu (start_kernel dtb entry) m

started-IsStarted : (dtb entry : ℕ) (m : Machine) → IsStarted dtb entry m (started dtb entry m)
unfolding sbi_init
started-IsStarted dtb entry m = record {
  pc = refl;
  privilege = refl;
  a0 = refl;
  a1 = refl;
  regs = λ r a b. rw (a, b) refl;
  medeleg = refl;
  mideleg = refl;
  mip = refl;
  regions = refl;
}

-- If the kernel is loaded, kernel_boot succeeds, and the hart is in S-mode at the entry with 0 in
-- a0 and in a1, the delegations of the firmware, no interrupt line changed, and the memory and the
-- other registers as the loader left them.
pub kernel_boot-IsStarted :
    (files : HostFiles) (path : String) (entry : ℕ) (m loaded : Machine)
    → elf_load files path 0 m ≡ ok (entry, loaded)
    → (entry == load_failed) ≡ false
    → (kernel_boot files path m ≡ ok (true, started 0 entry loaded))
      × IsStarted 0 entry loaded (started 0 entry loaded)
unfolding kernel_boot modify pure ◌>>=◌
kernel_boot-IsStarted files path entry m loaded h k =
    (rw (h, k) refl, started-IsStarted 0 entry loaded)
