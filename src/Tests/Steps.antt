-- ===== src/Tests/Steps.antt =====
-- Steps of the hart at concrete programs.
use tinyvm.Base.{ℕ, ◌%◌, ◌^◌, ◌/◌, ◌≡◌, refl, [], ◌∷◌, ok, pure, gets, state, ◌>>=◌, arith}
use tinyvm.Machine.{Machine, on_cpu}
use tinyvm.Memory.{find_region, load_bytes}
use tinyvm.Memory.RoundTrip.{ram}
use tinyvm.Mmu.{mmu_active}
use tinyvm.Decode.Formats.{encode}
use tinyvm.Decode.Compressed.{c_addi, encode_c, expand, IsEncodable}
use tinyvm.Execute.Dispatch.{execute}
use tinyvm.Execute.Step.{cpu_step, cpu_check_interrupts, poll_all, take_interrupt, next_interrupt}
use tinyvm.Execute.Manual.{Op, imm_op, add, format, run_op}
use tinyvm.Execute.Fetching.{IsReady, counted, cpu_step-encode_c}
use tinyvm.Execute.Running.{cpu_step-run_op}
use tinyvm.Execute.Transfers.{Transfer, store, sw, format_of, after_transfer, cpu_step-transfer}
use tinyvm.Memory.Copy.{with_ram}
use tinyvm.Decode.Instr.{Instruction, blank, op_amo}
use tinyvm.Execute.Atomic.{execute_lr, execute_sc}
use tinyvm.Execute.Reservation.{with_reg, ended, sc_bytes, execute_sc-once}
use tinyvm.Base.{◌>>◌}
use tinyvm.Tests.Fixtures.{test_bytes}
use tinyvm.Base.{inl, if◌then◌else◌, ◌==◌}
use tinyvm.Tests.Fixtures.{test_machine, test_cpu, no_virtio, zero_host}

-- A hart with no interrupts at the start of the RAM, whose first bytes are `raw`.
abbrev program : ℕ → Machine
program raw = record test_machine {
  irq_sources = [];
  cpu = record test_cpu { csrs = λ _. 0 };
  regions = ram 0x80000000 0x1000 (λ i. raw / 256 ^ i % 256) ∷ [];
}

program-IsReady : (raw : ℕ) → IsReady (program raw) (counted (program raw))
unfolding cpu_check_interrupts poll_all take_interrupt next_interrupt gets state pure mmu_active
    ◌>>=◌
program-IsReady raw = record { no_interrupt = refl; bare = refl; no_fault = refl }

-- ADDI x5, x6, -1.
abbrev decrement : Op
decrement = imm_op add 5 6 0xFFF

abbrev at_decrement : Machine
at_decrement = program (encode (format decrement))

cpu_step-run_op_example :
    cpu_step no_virtio zero_host at_decrement
    ≡ ok (tt, on_cpu (run_op 4 decrement) (counted at_decrement))
unfolding find_region load_bytes
cpu_step-run_op_example =
    cpu_step-run_op no_virtio zero_host at_decrement (counted at_decrement)
      (program-IsReady (encode (format decrement))) decrement
      (omega arith, omega arith, omega arith)
      (record {
        index = 0;
        base = 0x80000000;
        size = 0x1000;
        bytes = λ i. encode (format decrement) / 256 ^ i % 256;
        found = refl;
        fits = refl;
        value = refl;
      })
      (record {
        index = 0;
        base = 0x80000000;
        size = 0x1000;
        bytes = λ i. encode (format decrement) / 256 ^ i % 256;
        found = refl;
        fits = refl;
        value = refl;
      })

abbrev at_short : Machine
at_short = program (encode_c (c_addi 5 63))

cpu_step-encode_c_example :
    cpu_step no_virtio zero_host at_short
    ≡ execute no_virtio zero_host (expand (c_addi 5 63)) (counted at_short)
unfolding find_region load_bytes encode_c IsEncodable
cpu_step-encode_c_example =
    cpu_step-encode_c no_virtio zero_host at_short (counted at_short)
      (program-IsReady (encode_c (c_addi 5 63))) (c_addi 5 63) (omega arith, omega arith)
      (record {
        index = 0;
        base = 0x80000000;
        size = 0x1000;
        bytes = λ i. encode_c (c_addi 5 63) / 256 ^ i % 256;
        found = refl;
        fits = refl;
        value = refl;
      })

-- SW x0, -4(x6), where x6 is the end of a RAM of 4 KB.
abbrev a_store : Transfer
a_store = store sw 6 0 0xFFC

abbrev store_bytes_at : ℕ → ℕ
store_bytes_at i = encode (format_of a_store) / 256 ^ i % 256

abbrev store_machine : Machine
store_machine = record (program 0) {
  cpu = record test_cpu { csrs = λ _. 0; regs = λ r. if r == 6 then 0x80001000 else 0 };
}

abbrev at_store : Machine
at_store = with_ram 0x80000000 0x1000 [] store_machine store_bytes_at

cpu_step-transfer_example :
    cpu_step no_virtio zero_host at_store
    ≡ ok (
      tt,
      after_transfer no_virtio zero_host 0x80000000 0x1000 []
          (counted store_machine)
          store_bytes_at
          a_store,
    )
unfolding find_region load_bytes cpu_check_interrupts poll_all take_interrupt next_interrupt gets
    state pure mmu_active ◌>>=◌
cpu_step-transfer_example =
    cpu_step-transfer no_virtio zero_host 0x80000000 0x1000 [] (counted store_machine)
      store_bytes_at at_store (record { no_interrupt = refl; bare = refl; no_fault = refl }) a_store
      (inl refl, omega arith, omega arith, omega arith, omega arith)
      (record {
        index = 0;
        base = 0x80000000;
        size = 0x1000;
        bytes = store_bytes_at;
        found = refl;
        fits = refl;
        value = refl;
      })
      (record {
        index = 0;
        base = 0x80000000;
        size = 0x1000;
        bytes = store_bytes_at;
        found = refl;
        fits = refl;
        value = refl;
      })
      (record { above = omega arith; below = omega arith; no_wrap = omega arith })

-- LR.W x5, (x6); SC.W x7, x8, (x6), twice.
abbrev lr_w : Instruction
lr_w = record (blank 4) { opcode = op_amo; rd = 5; rs1 = 6; funct3 = 2; funct7 = 8 }

abbrev sc_w : Instruction
sc_w = record (blank 4) { opcode = op_amo; rd = 7; rs1 = 6; rs2 = 8; funct3 = 2; funct7 = 12 }

abbrev atomic_machine : Machine
atomic_machine = record (program 0) {
  cpu = record test_cpu { csrs = λ _. 0; regs = λ r. if r == 6 then 0x80000010 else r };
}

abbrev once_ended : Machine
once_ended = ended no_virtio 0x80000000 0x1000 [] test_bytes atomic_machine lr_w sc_w 0x80000010

abbrev once_bytes : ℕ → ℕ
once_bytes = sc_bytes no_virtio 0x80000000 0x1000 [] test_bytes atomic_machine lr_w sc_w 0x80000010

execute_sc-once_example :
    (do execute_lr no_virtio lr_w; execute_sc no_virtio sc_w; execute_sc no_virtio sc_w)
      (with_ram 0x80000000 0x1000 [] atomic_machine test_bytes)
    ≡ ok (tt, with_reg 7 1 (with_ram 0x80000000 0x1000 [] once_ended once_bytes))
unfolding mmu_active load_bytes
execute_sc-once_example =
    execute_sc-once no_virtio 0x80000000 0x1000 [] test_bytes atomic_machine lr_w sc_w 0x80000010
      sc_w 0x80000010 refl refl
      (record { above = omega arith; below = omega arith; no_wrap = omega arith }) refl
      (record { above = omega arith; below = omega arith; no_wrap = omega arith }) refl refl
