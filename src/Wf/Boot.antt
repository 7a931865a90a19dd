-- ===== src/Wf/Boot.antt =====
-- src/kernel_boot.c, src/linux_boot.c and main of src/main.c: from the start of the process
-- on, the machine is well-formed.
use Prim.Native.String.{String}
use tinyvm.Base.{
  ℕ, ◌+◌, ◌*◌, ◌^◌, true, false, ◌==◌, Option, none, some, List, [], ◌∷◌, add64, pure, Outcome, ok,
  exits, fault, spins, Post, modify, ◌>>◌, if-elim, Gives, Keeps, Any, Gives-pure, Keeps-pure,
  Gives-exit, Keeps-modify, Gives-if, Gives-bind, arith,
}
use tinyvm.Machine.{Machine, Cpu, on_cpu}
use tinyvm.Memory.{DeviceIo}
use tinyvm.Cpu.Csr.{
  reg_a0, reg_a1, priv_s, mip_ssip, mip_stip, mip_seip, mstatus_mpp_mask, mstatus_mpie, csr_medeleg,
  csr_mideleg, csr_mcounteren, csr_mstatus,
}
use tinyvm.Sbi.{sbi_init, delegated_causes}
use tinyvm.Boot.Elf.{HostFiles, FileData, elf_load_data, elf_load, elf_boot, load_failed}
use tinyvm.Boot.Modes.{load_into, start_kernel, mem_load_file, kernel_boot, linux_boot}
use tinyvm.Boot.Main.{Host, static_machine, is_same, boot, main, disk_path}
use tinyvm.Device.Table.{device_io}
use tinyvm.Wf.Defs.{IsMachine, IsCpu, IsIo, IsHost, IsFile, IsU64}
use tinyvm.Wf.Memory.{mem_read16-Gives, IsData}
use tinyvm.Wf.Cpu.{set_csr-IsCpu, set_reg-IsCpu, goto-IsCpu, set_flags-fits, clear_flags-fits}
use tinyvm.Wf.Sbi.{on_cpu-Keeps}
use tinyvm.Wf.Table.{device_io-IsIo, emulator-Keeps}
use tinyvm.Wf.Init.{IsOpened, static_machine-IsMachine, init-IsMachine}
use tinyvm.Wf.Elf.{elf_load_data-Gives, load_into-Keeps}

sbi_init-IsCpu : (c : Cpu) (entry : ℕ) → IsU64 entry → IsCpu c → IsCpu (sbi_init c entry)
unfolding sbi_init
sbi_init-IsCpu c entry l h =
    let a = set_csr-IsCpu c csr_medeleg delegated_causes h (omega arith) in
    let b = set_csr-IsCpu _ csr_mideleg (mip_ssip + mip_stip + mip_seip) a (omega arith) in
    let d = set_csr-IsCpu _ csr_mcounteren 7 b (omega arith) in
    let status = clear_flags-fits _ mstatus_mpp_mask (d.csrs_fit csr_mstatus) in
    goto-IsCpu _ priv_s entry
      (set_csr-IsCpu _ csr_mstatus _ d (
        set_flags-fits _ mstatus_mpie (set_flags-fits _ (priv_s * 2 ^ 11) status (omega arith))
          (omega arith)))
      (omega arith) l

start_kernel-Keeps :
    (dtb entry : ℕ)
    → IsU64 dtb
    → IsU64 entry
    → Keeps IsMachine (modify (on_cpu (start_kernel dtb entry)))
start_kernel-Keeps dtb entry k l = on_cpu-Keeps _ λ c h. sbi_init-IsCpu _ entry l (
    set_reg-IsCpu _ reg_a1 dtb (λ e. ground arith)
      (set_reg-IsCpu c reg_a0 0 (λ e. ground arith) h (omega arith)) k)

abbrev pub IsImage : Option FileData → Type 0
IsImage none = Unit
IsImage (some image) = IsData image.bytes

module _ (files : HostFiles) (are_files : (path : String) → IsImage (files path)) where
  elf_load-Gives :
      (path : String) (phys_base : ℕ) → Gives IsMachine IsU64 (elf_load files path phys_base)
  unfolding elf_load
  elf_load-Gives path phys_base = loaded (files path) (are_files path)
    where
      loaded :
          (o : Option FileData)
          → IsImage o
          → Gives IsMachine IsU64
              (elim o [ none ↦ pure load_failed | some image ↦ elf_load_data image phys_base ])
      loaded none h = Gives-pure _ (omega arith)
      loaded (some image) h = elf_load_data-Gives image h phys_base

  elf_boot-Keeps : (path : String) → Keeps IsMachine (elf_boot files path)
  unfolding elf_boot
  elf_boot-Keeps path = Gives-bind _ _ (elf_load-Gives path 0) λ entry l.
      Gives-if (entry == load_failed) _ _ (λ _. Keeps-pure false)
        λ _.
          Gives-bind _ _
            (on_cpu-Keeps _ (λ c h. goto-IsCpu c c.privilege entry h h.privilege_fits l))
            λ _ _. Keeps-pure true

  kernel_boot-Keeps : (path : String) → Keeps IsMachine (kernel_boot files path)
  unfolding kernel_boot
  kernel_boot-Keeps path = Gives-bind _ _ (elf_load-Gives path 0) λ entry l.
      Gives-if (entry == load_failed) _ _ (λ _. Keeps-pure false)
        λ _. Gives-bind _ _ (start_kernel-Keeps 0 entry (omega arith) l) λ _ _. Keeps-pure true

  mem_load_file-Keeps : (path : String) (addr : ℕ) → Keeps IsMachine (mem_load_file files path addr)
  unfolding mem_load_file
  mem_load_file-Keeps path addr = loaded (files path) (are_files path)
    where
      loaded :
          (o : Option FileData)
          → IsImage o
          → Keeps IsMachine
              (elim o [ none ↦ pure false | some image ↦ load_into image addr >> pure true ])
      loaded none h = Keeps-pure false
      loaded (some image) h = Gives-bind _ _ (load_into-Keeps image h addr) λ _ _. Keeps-pure true

  module _ (io : DeviceIo) (is_io : IsIo io) where
    linux_boot-Keeps :
        (kernel dtb initramfs : String) → Keeps IsMachine (linux_boot files io kernel dtb initramfs)
    unfolding linux_boot
    linux_boot-Keeps kernel dtb initramfs = Gives-bind _ _ (elf_load-Gives kernel _) λ entry l.
        Gives-if (entry == load_failed) _ _ (λ _. Keeps-pure false)
          λ _. Gives-bind _ _ (mem_read16-Gives io is_io entry) λ magic _.
            Gives-bind _ _ (mem_load_file-Keeps dtb _) λ dtb_loaded _.
              Gives-if dtb_loaded _ _
                (λ _. Gives-bind _ _ (mem_load_file-Keeps initramfs _) λ rd_loaded _.
                  Gives-if rd_loaded _ _
                    (λ _.
                      Gives-bind _ _
                        (start_kernel-Keeps _ _ (omega arith) (
                          if-elim IsU64 (magic == 0x5a4d) (add64 entry 2) entry (λ _. omega arith)
                            (λ _. l)))
                        λ _ _. Keeps-pure true)
                    (λ _. Keeps-pure false))
                (λ _. Keeps-pure false)

    boot-Keeps : (mode binary : String) → Keeps IsMachine (boot files io mode binary)
    unfolding boot
    boot-Keeps mode binary =
        Gives-if (is_same mode "linux") _ _ (λ _. linux_boot-Keeps binary _ _)
          λ _.
            Gives-if (is_same mode "elf") _ _ (λ _. elf_boot-Keeps binary)
              λ _.
                Gives-if (is_same mode "kernel") _ _ (λ _. kernel_boot-Keeps binary)
                  (λ _. Keeps-pure false)

-- What main relies on: files of bytes whose sizes are 64-bit, and floats of 64 bits.
pub record IsEnvironment (host : Host) : Type 0 where
  pub is_file : IsFile host.file
  pub are_files : (path : String) → IsImage (host.files path)
  pub are_opened : (path : String) → IsOpened (host.open_disk path)
  pub is_host : IsHost host.floats

module _ (host : Host) (is : IsEnvironment host) (requests depth rounds : ℕ) where
  main-Keeps : (args : List String) → Keeps IsMachine (main host requests depth rounds args)
  unfolding main
  main-Keeps [] = Gives-exit 1
  main-Keeps (mode ∷ []) = Gives-exit 1
  main-Keeps (mode ∷ binary ∷ rest) =
      let io = device_io host.file requests depth in
      Gives-bind _ _
        (Keeps-modify _ (λ m h. init-IsMachine host.file _ m (is.are_opened (disk_path rest)) h))
        λ _ _.
          Gives-bind _ _
            (boot-Keeps host.files is.are_files io
              (device_io-IsIo host.file is.is_file requests depth) mode binary)
            λ booted _.
              Gives-if booted _ _
                (λ _.
                  emulator-Keeps host.file is.is_file requests depth host.floats is.is_host rounds)
                (λ _. Gives-exit 1)

  -- On a host whose files are bytes, with 64-bit sizes, and whose floats have 64 bits, and from
  -- the initial values of the static variables: whatever the arguments and the input of the
  -- terminal are, the state in which main is after any number of rounds of its loop, if it has not
  -- ended by then, is well-formed, with any bounds on the requests that a notification serves and
  -- on the notifications inside each other. Every register, CSR, byte of RAM, device register and
  -- virtqueue field fits its C type, x0 is zero and the privilege is at most 3.
  pub main-IsMachine :
      (args : List String) (input : List (Option ℕ))
      → Post (λ r. IsMachine r.1) (main host requests depth rounds args (static_machine input))
  main-IsMachine args input =
      state_only _ ((main-Keeps args).at (static_machine input) (static_machine-IsMachine input))
    where
      state_only :
          (o : Outcome (Unit {0} × Machine))
          → Post (λ r. Any r.0 × IsMachine r.1) o
          → Post (λ r. IsMachine r.1) o
      state_only (ok r) h = h.1
      state_only (exits c) h = tt
      state_only fault h = tt
      state_only spins h = tt
