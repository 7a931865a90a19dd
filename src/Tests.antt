-- ===== src/Tests.antt =====
-- Runs of the model at one input each, and the theorems at concrete inputs.
mod Fixtures
mod Files
mod Devices
mod Boot
mod Steps
mod Requests
use tinyvm.Mmu.{mmu_store}
use tinyvm.Mmu.Permissions.{Decided, mmu_translate-Decided}
use tinyvm.Execute.Delivery.{Deliverable, take_interrupt-delivers}
use tinyvm.Execute.Step.{take_interrupt}
use tinyvm.Base.{
  add64, ◌>>=◌, modify, gets, some, ℕ, ◌+◌, ◌-◌, ◌*◌, ◌/◌, ◌^◌, ◌<◌, ◌≡◌, ◌≢◌, inl, inr, refl, true,
  false, ◌==◌, if◌then◌else◌, [], ◌∷◌, has_flag, ok, pure, ◌>>◌, Keeps, Gives-pure, Keeps-pure,
  arith,
}
use tinyvm.Base.Bits.{bit}
use tinyvm.Machine.{on_cpu, Machine, Cpu, Plic, Uart, clint_source}
use tinyvm.Cpu.Csr.{
  csr_satp, reg_a1, csr_read, csr_write, csr_mstatus, csr_sstatus, csr_mip, mip_stip, reg_a0,
  reg_a7,
}
use tinyvm.Cpu.Trap.{enter_s_status, leave_s_status, trap_to_s, cpu_trap, execute_sret}
use tinyvm.Cpu.Status.{bit-enter_s_status, bit-leave_s_status}
use tinyvm.Cpu.TrapReturn.{IsDelivered, IsBackFrom, cpu_trap-delivers, execute_sret-trap_to_s}
use tinyvm.Cpu.Trap.{trap_to_m, execute_mret}
use tinyvm.Cpu.MachineReturn.{IsBackInMode, execute_mret-trap_to_m}
use tinyvm.Cpu.Supervisor.{csr_write-sstatus}
use tinyvm.Device.Clint.{clint_irq_source}
use tinyvm.Device.Plic.{
  take_irq, plic_claim, plic_write, plic_read, any_fires, can_fire, actionable,
}
use tinyvm.Device.Claims.{IsBestOf, plic_claim-IsBestOf}
use tinyvm.Device.Lines.{IsSynced, plic_write-IsSynced, plic_read-IsSynced, clint_irq_source-stip}
use tinyvm.Device.Receive.{IsReceived, arrived, uart_poll_rx-receives}
use tinyvm.Device.Uart.{uart_poll_rx}
use tinyvm.Device.Table.{device_io}
use tinyvm.Memory.{
  mem_read64, mem_find_region, found_or_exit, region_read, default_read, data_or_crash, DeviceIo,
  load_bytes, store_bytes, find_region, mem_read, mem_write,
}
use tinyvm.Memory.RoundTrip.{ram, stored, mem_read-mem_write}
use tinyvm.Sbi.{sbi_ecall, sbi_eid_timer, sbi_success}
use tinyvm.Sbi.Returns.{sbi_ecall-returns}
use tinyvm.Sbi.Timer.{sbi_ecall-timer}
use tinyvm.Decode.Base32.{sign_extend, decode}
use tinyvm.Decode.Rvc.{decode_rvc}
use tinyvm.Decode.Fields.{InRange, decode-InRange}
use tinyvm.Decode.RvcFields.{decode_rvc-InRange}
use tinyvm.Decode.Encode.{decode-encode}
use tinyvm.Decode.Formats.{Format, b_type, encode, IsFormat, HasFields}
use tinyvm.Decode.Expansion.{decode_rvc-encode_c}
use tinyvm.Decode.Compressed.{c_lui, encode_c, expand, IsEncodable}
use tinyvm.Decode.Instr.{Instruction, blank, op_amo}
use tinyvm.Execute.AtomicStep.{EndsPastHandler, execute-op_amo}
use tinyvm.Execute.Dispatch.{execute}
use tinyvm.Execute.Atomic.{execute_a, execute_amo}
use tinyvm.Mmu.{mmu_translate, mmu_active, walk, invalid, pte_invalid, pte_addr_of, vpn_of}
use tinyvm.Execute.Alu.{m_ext}
use tinyvm.Execute.Division.{signed_high, m_ext-mulh}
use tinyvm.Execute.Float.{FloatFormat, HostFloat}
use tinyvm.Execute.Step.{highest_bit, next_interrupt, run}
use tinyvm.Execute.Priority.{IsHighest, MayTake, highest_bit-IsHighest, next_interrupt-MayTake}
use tinyvm.Wf.Defs.{IsMachine, IsIo, IsHost}
use tinyvm.Tests.Fixtures.{
  no_virtio, no_virtio-IsIo, test_bytes, test_cpu, test_csrs, test_disk, test_machine, test_plic,
  test_regs, test_ring, test_slot, test_uart, test_virtio, zero_format, zero_host, zero_host-IsHost,
}
use tinyvm.Tests.Files.{host_bytes, host_pread, host_pwrite, test_file, test_file-IsFile}
use tinyvm.Wf.Table.{emulator-Keeps}

emulator-Keeps_example : Keeps IsMachine (run (device_io test_file 2 1) zero_host 2)
emulator-Keeps_example = emulator-Keeps test_file test_file-IsFile 2 1 zero_host zero_host-IsHost 2

decode-InRange_example : InRange (decode 0x00500093)
decode-InRange_example = decode-InRange 0x00500093

decode_rvc-InRange_example : InRange (decode_rvc 0x4501)
decode_rvc-InRange_example = decode_rvc-InRange 0x4501

execute_mret-trap_to_m_example : IsBackInMode test_cpu (execute_mret (trap_to_m test_cpu 8 0))
execute_mret-trap_to_m_example = execute_mret-trap_to_m test_cpu 8 0 (omega arith)

execute_sret-trap_to_s_example : IsBackFrom test_cpu (execute_sret (trap_to_s test_cpu 8 0))
execute_sret-trap_to_s_example = execute_sret-trap_to_s test_cpu 8 0 (omega arith)

cpu_trap-delivers_example : IsDelivered test_cpu 8 5 (cpu_trap test_cpu 8 5)
cpu_trap-delivers_example = cpu_trap-delivers test_cpu 8 5

csr_write-sstatus_example : bit ((csr_write test_cpu csr_sstatus 0x8).csrs csr_mstatus) 1 ≡ 0
csr_write-sstatus_example = csr_write-sstatus test_cpu 0x8 1 (omega arith)

mem_read-mem_write_example :
    (do mem_write no_virtio 4 0x80000010 0x11223344; mem_read no_virtio 4 0x80000010) test_machine
    ≡ ok (
      0x11223344,
      stored no_virtio test_machine 4 0x80000010 0 0x80000000 0x1000 test_bytes 0x11223344,
    )
unfolding find_region
mem_read-mem_write_example =
    mem_read-mem_write no_virtio test_machine 4 0x80000010 0 0x80000000 0x1000 test_bytes refl refl
      0x11223344

next_interrupt-MayTake_example : MayTake test_cpu (next_interrupt test_cpu)
next_interrupt-MayTake_example = next_interrupt-MayTake test_cpu

plic_claim-IsBestOf_example : IsBestOf test_plic 1 32 (plic_claim 1 test_machine).0
plic_claim-IsBestOf_example = plic_claim-IsBestOf 1 test_machine

-- SEIP is high in this machine, as source 5 can fire.
abbrev synced_machine : Machine
synced_machine = record test_machine {
  cpu = record test_cpu { csrs = λ a. if a == csr_mip then 0x200 else 0 };
}

synced_machine-IsSynced : IsSynced synced_machine
synced_machine-IsSynced = record {
  has_source = λ _. record {
    irq = 5;
    positive = omega arith;
    bounded = omega arith;
    fires = record {
      is_pending = refl;
      is_enabled = refl;
      is_unclaimed = refl;
      is_above = omega arith;
    };
  };
  misses_none = λ _ _ _ _. refl;
}

plic_write-IsSynced_example : IsSynced (plic_write 0x2080 0x8 synced_machine)
plic_write-IsSynced_example = plic_write-IsSynced 0x2080 0x8 synced_machine synced_machine-IsSynced

plic_read-IsSynced_example : IsSynced (plic_read 0x201004 synced_machine).1
plic_read-IsSynced_example = plic_read-IsSynced 0x201004 synced_machine synced_machine-IsSynced

sbi_ecall-timer_example :
    ((sbi_ecall test_machine).mtimecmp ≡ 77)
    × ((sbi_ecall test_machine).cpu.regs reg_a0 ≡ sbi_success)
    × ((sbi_ecall test_machine).cpu.pc ≡ 0x80000004)
    × (has_flag ((clint_irq_source (sbi_ecall test_machine)).cpu.csrs csr_mip) mip_stip ≡ true)
sbi_ecall-timer_example = sbi_ecall-timer test_machine refl refl

-- BNE x6, x7 with the offset -2.
abbrev a_branch : Format
a_branch = b_type 1 6 7 0xFFF

decode-encode_example : HasFields a_branch (decode (encode a_branch))
decode-encode_example = decode-encode a_branch (omega arith, omega arith, omega arith, omega arith)

decode_rvc-encode_c_example : decode_rvc (encode_c (c_lui 5 33)) ≡ expand (c_lui 5 33)
unfolding IsEncodable
decode_rvc-encode_c_example =
    decode_rvc-encode_c (c_lui 5 33) (omega arith, omega arith, omega arith)

m_ext-mulh_example :
    (m_ext 1 (2 ^ 63) 3 ≡ ok (2 ^ 63 * 3 / 2 ^ 64)) × (2 ^ 63 * 3 / 2 ^ 64 ≢ signed_high (2 ^ 63) 3)
m_ext-mulh_example =
    m_ext-mulh (2 ^ 63) 3 (omega arith) (omega arith) (omega arith) (omega arith) (omega arith)

sbi_ecall-returns_example :
    ((sbi_ecall test_machine).cpu.pc ≡ 0x80000004)
    × ((sbi_ecall test_machine).cpu.privilege ≡ 0)
    × ((sbi_ecall test_machine).cpu.halted ≡ false)
    × ((r : ℕ)
        → (r == reg_a0) ≡ false
        → (r == reg_a1) ≡ false
        → (sbi_ecall test_machine).cpu.regs r ≡ test_regs r)
sbi_ecall-returns_example = sbi_ecall-returns test_machine

abbrev typed_machine : Machine
typed_machine = record test_machine { input = some 0x61 ∷ some 0x62 ∷ [] }

uart_poll_rx-receives_example :
    (uart_poll_rx typed_machine ≡ ok (tt, arrived 0x61 (some 0x62 ∷ []) typed_machine))
    × IsReceived 0x61 (some 0x62 ∷ []) (arrived 0x61 (some 0x62 ∷ []) typed_machine)
uart_poll_rx-receives_example =
    uart_poll_rx-receives 0x61 (some 0x62 ∷ []) typed_machine refl refl refl refl

-- With address translation on and an empty page table at the start of the RAM.
abbrev paged_machine : Machine
paged_machine = record test_machine {
  cpu = record test_cpu { csrs = λ a. if a == csr_satp then 8 * 2 ^ 60 + 0x80000 else test_csrs a };
}

abbrev amo_add : Instruction
amo_add = record (blank 4) { opcode = op_amo; rd = 5; rs1 = 6; rs2 = 7; funct3 = 3 }

execute-op_amo_example : EndsPastHandler no_virtio zero_host amo_add paged_machine
unfolding mmu_active walk mem_read64 mem_read mem_find_region find_region found_or_exit region_read
    default_read data_or_crash load_bytes pte_invalid pte_addr_of vpn_of ◌>>=◌ pure
execute-op_amo_example =
    execute-op_amo no_virtio zero_host amo_add paged_machine invalid refl refl refl tt (omega arith)
      refl

-- A page of the RAM for the user, as one leaf at the top level that maps the low addresses.
abbrev mapped_bytes : ℕ → ℕ
mapped_bytes i = if i == 0 then 0x1F else if i == 3 then 0x20 else 0

abbrev mapped_machine : Machine
mapped_machine = record paged_machine { regions = ram 0x80000000 0x1000 mapped_bytes ∷ [] }

mmu_translate-Decided_example :
    Decided no_virtio 0x123 mmu_store mapped_machine
      (mmu_translate no_virtio 0x123 mmu_store mapped_machine)
unfolding mmu_active
mmu_translate-Decided_example = mmu_translate-Decided no_virtio 0x123 mmu_store mapped_machine refl

test_cpu-Deliverable : Deliverable test_cpu 5
test_cpu-Deliverable = record {
  pending = refl;
  enabled = refl;
  taker = inr (omega arith, refl, inl refl);
}

take_interrupt-delivers_example : (take_interrupt test_cpu).0 ≡ true
take_interrupt-delivers_example = take_interrupt-delivers test_cpu 5 test_cpu-Deliverable
