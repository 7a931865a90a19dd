-- ===== src/Execute/Fetching.antt =====
-- src/cpu.c: cpu_step up to execute, for an instruction in the RAM at an address that is not
-- translated.
use tinyvm.Base.{
  ℕ, ◌%◌, ◌^◌, ◌<◌, ◌≡◌, ◌∙◌, refl, ap, true, false, ◌==◌, bit_and, some, ok, pure, gets, modify,
  ◌>>=◌, u16, u32, add64, sub64, arith,
}
use tinyvm.Base.Bits.{bit_and_mask}
use tinyvm.Machine.{Machine, on_cpu}
use tinyvm.Memory.{
  load_bytes, find_region, in_data, DeviceIo, mem_find_region, found_or_exit, region_read,
  default_read, data_or_crash, mem_read, mem_read16, mem_read32,
}
use tinyvm.Memory.RoundTrip.{ram}
use tinyvm.Mmu.{mmu_translate, mmu_active, mmu_fault}
use tinyvm.Decode.Base32.{decode}
use tinyvm.Decode.Rvc.{decode_rvc}
use tinyvm.Decode.Compressed.{Rvc, encode_c, expand, IsEncodable}
use tinyvm.Decode.Expansion.{decode_rvc-encode_c, encode_c-fits}
use tinyvm.Execute.Float.{HostFloat}
use tinyvm.Execute.Dispatch.{execute}
use tinyvm.Execute.Step.{fetch, fetch_execute, cpu_step, cpu_check_interrupts}

-- The machine after the step is counted.
abbrev pub counted : Machine → Machine
counted m = on_cpu (λ c. record c { steps = add64 c.steps 1 }) m

-- The table sends `width` bytes at the address to a RAM region, inside its bytes, and they are `raw`.
pub record Holds (m : Machine) (addr width raw : ℕ) : Type 0 where
  pub index : ℕ
  pub base : ℕ
  pub size : ℕ
  pub bytes : ℕ → ℕ
  pub found : find_region 0 m.regions addr width ≡ some (index, ram base size bytes)
  pub fits : in_data (ram base size bytes) (sub64 addr base) width ≡ true
  pub value : load_bytes bytes (sub64 addr base) width ≡ raw

mem_read-Holds :
    (io : DeviceIo) (m : Machine) (addr width raw : ℕ)
    → Holds m addr width raw
    → mem_read io width addr m ≡ ok (raw, m)
unfolding mem_read mem_find_region found_or_exit region_read default_read data_or_crash pure ◌>>=◌
mem_read-Holds io m addr width raw h = rw (h.found, h.fits, h.value) refl

module _ (io : DeviceIo) (host : HostFloat) (m : Machine) (bare : mmu_active m.cpu ≡ false)
    (no_fault : (m.cpu.pc == mmu_fault) ≡ false) where
  fetch_execute-rvc :
      (r : ℕ)
      → r < 2 ^ 16
      → (bit_and r 3 == 3) ≡ false
      → Holds m m.cpu.pc 2 r
      → fetch_execute io host m ≡ execute io host (decode_rvc r) m
  unfolding fetch_execute fetch mmu_translate mem_read16 gets pure ◌>>=◌
  fetch_execute-rvc r l s h =
      let whole : u16 r ≡ r = omega arith in
      rw (bare, no_fault, mem_read-Holds io m m.cpu.pc 2 r h, whole, s) refl

  fetch_execute-base :
      (raw : ℕ)
      → raw < 2 ^ 32
      → raw % 4 ≡ 3
      → Holds m m.cpu.pc 2 (raw % 2 ^ 16)
      → Holds m m.cpu.pc 4 raw
      → fetch_execute io host m ≡ execute io host (decode raw) m
  unfolding fetch_execute fetch mmu_translate mem_read16 mem_read32 gets pure ◌>>=◌
  fetch_execute-base raw l s h2 h4 =
      let low : u16 (raw % 2 ^ 16) ≡ raw % 2 ^ 16 = omega arith in
      let whole : u32 raw ≡ raw = omega arith in
      let bits : bit_and (raw % 2 ^ 16) 3 ≡ 3 = omega (arith, bit_and_mask 2 (raw % 2 ^ 16)) in
      rw
        (
          bare,
          no_fault,
          mem_read-Holds io m m.cpu.pc 2 (raw % 2 ^ 16) h2,
          low,
          bits,
          mem_read-Holds io m m.cpu.pc 4 raw h4,
          whole,
        )
        refl

-- No interrupt is taken, addresses are not translated, and the pc is not the one address that the code
-- mistakes for a page fault; m is the machine after the sources are polled.
pub record IsReady (m₀ m : Machine) : Type 0 where
  pub no_interrupt : cpu_check_interrupts (counted m₀) ≡ ok (false, m)
  pub bare : mmu_active m.cpu ≡ false
  pub no_fault : (m.cpu.pc == mmu_fault) ≡ false

module _ (io : DeviceIo) (host : HostFloat) (m₀ m : Machine) (ready : IsReady m₀ m) where
  cpu_step-fetch_execute : cpu_step io host m₀ ≡ fetch_execute io host m
  unfolding cpu_step modify ◌>>=◌
  cpu_step-fetch_execute = rw ready.no_interrupt refl

  -- A step at a compressed instruction of the manual in the RAM executes the base instruction that the
  -- manual gives for it, where no interrupt is taken and addresses are not translated.
  pub cpu_step-encode_c :
      (i : Rvc)
      → IsEncodable i
      → Holds m m.cpu.pc 2 (encode_c i)
      → cpu_step io host m₀ ≡ execute io host (expand i) m
  cpu_step-encode_c i k h =
      let fits = encode_c-fits i k in
      cpu_step-fetch_execute
      ∙ fetch_execute-rvc io host m ready.bare ready.no_fault (encode_c i) fits.0 fits.1 h
      ∙ ap (λ inst. execute io host inst m) (decode_rvc-encode_c i k)

  pub cpu_step-base :
      (raw : ℕ)
      → raw < 2 ^ 32
      → raw % 4 ≡ 3
      → Holds m m.cpu.pc 2 (raw % 2 ^ 16)
      → Holds m m.cpu.pc 4 raw
      → cpu_step io host m₀ ≡ execute io host (decode raw) m
  cpu_step-base raw l s h2 h4 =
      cpu_step-fetch_execute ∙ fetch_execute-base io host m ready.bare ready.no_fault raw l s h2 h4
