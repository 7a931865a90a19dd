-- ===== src/Execute/Access.antt =====
-- src/mmu.c, src/memory.c: the reads and writes of the guest at an address in the RAM that is not
-- translated.
use tinyvm.Base.{
  ℕ, ◌<◌, ◌≡◌, refl, true, false, ◌==◌, some, List, u8, u16, u32, ok, pure, gets, ◌>>=◌, arith,
}
use tinyvm.Machine.{Machine, MemRegion}
use tinyvm.Memory.{
  DeviceIo, mem_read8, mem_read16, mem_read32, mem_read64, mem_write8, mem_write16, mem_write32,
  mem_write64,
}
use tinyvm.Memory.Copy.{with_ram, InRam}
use tinyvm.Mmu.{
  mmu_translate, mmu_active, mmu_fault, vm_read, vm_read8, vm_read16, vm_read32, vm_read64,
  vm_write, vm_write8, vm_write16, vm_write32, vm_write64,
}
use tinyvm.Device.Request.{word, put_word}
use tinyvm.Device.Serving.{read_word, write_word}

pub no_fault :
    (base size addr width : ℕ)
    → 0 < width
    → InRam base size addr width
    → (addr == mmu_fault) ≡ false
no_fault base size addr width p h = let b = h.below in let c = h.no_wrap in ground arith

module _ (io : DeviceIo) (base size : ℕ) (rs : List MemRegion) (m : Machine)
    (bare : mmu_active m.cpu ≡ false) (f : ℕ → ℕ) (va : ℕ) where
  pub vm_read8-word :
      InRam base size va 1
      → vm_read8 io va (with_ram base size rs m f)
        ≡ ok (some (u8 (word base f va 1)), with_ram base size rs m f)
  unfolding vm_read8 vm_read mmu_translate mem_read8 gets pure ◌>>=◌
  vm_read8-word h =
      rw (bare, no_fault base size va 1 (omega arith) h, read_word io base size rs m f va 1 h) refl

  pub vm_read16-word :
      InRam base size va 2
      → vm_read16 io va (with_ram base size rs m f)
        ≡ ok (some (u16 (word base f va 2)), with_ram base size rs m f)
  unfolding vm_read16 vm_read mmu_translate mem_read16 gets pure ◌>>=◌
  vm_read16-word h =
      rw (bare, no_fault base size va 2 (omega arith) h, read_word io base size rs m f va 2 h) refl

  pub vm_read32-word :
      InRam base size va 4
      → vm_read32 io va (with_ram base size rs m f)
        ≡ ok (some (u32 (word base f va 4)), with_ram base size rs m f)
  unfolding vm_read32 vm_read mmu_translate mem_read32 gets pure ◌>>=◌
  vm_read32-word h =
      rw (bare, no_fault base size va 4 (omega arith) h, read_word io base size rs m f va 4 h) refl

  pub vm_read64-word :
      InRam base size va 8
      → vm_read64 io va (with_ram base size rs m f)
        ≡ ok (some (word base f va 8), with_ram base size rs m f)
  unfolding vm_read64 vm_read mmu_translate mem_read64 gets pure ◌>>=◌
  vm_read64-word h =
      rw (bare, no_fault base size va 8 (omega arith) h, read_word io base size rs m f va 8 h) refl

  pub vm_write8-put :
      (v : ℕ)
      → InRam base size va 1
      → vm_write8 io va v (with_ram base size rs m f)
        ≡ ok (true, with_ram base size rs m (put_word base f va 1 v))
  unfolding vm_write8 vm_write mmu_translate mem_write8 gets pure ◌>>=◌
  vm_write8-put v h =
      rw (bare, no_fault base size va 1 (omega arith) h, write_word io base size rs m f va 1 v h)
        refl

  pub vm_write16-put :
      (v : ℕ)
      → InRam base size va 2
      → vm_write16 io va v (with_ram base size rs m f)
        ≡ ok (true, with_ram base size rs m (put_word base f va 2 v))
  unfolding vm_write16 vm_write mmu_translate mem_write16 gets pure ◌>>=◌
  vm_write16-put v h =
      rw (bare, no_fault base size va 2 (omega arith) h, write_word io base size rs m f va 2 v h)
        refl

  pub vm_write32-put :
      (v : ℕ)
      → InRam base size va 4
      → vm_write32 io va v (with_ram base size rs m f)
        ≡ ok (true, with_ram base size rs m (put_word base f va 4 v))
  unfolding vm_write32 vm_write mmu_translate mem_write32 gets pure ◌>>=◌
  vm_write32-put v h =
      rw (bare, no_fault base size va 4 (omega arith) h, write_word io base size rs m f va 4 v h)
        refl

  pub vm_write64-put :
      (v : ℕ)
      → InRam base size va 8
      → vm_write64 io va v (with_ram base size rs m f)
        ≡ ok (true, with_ram base size rs m (put_word base f va 8 v))
  unfolding vm_write64 vm_write mmu_translate mem_write64 gets pure ◌>>=◌
  vm_write64-put v h =
      rw (bare, no_fault base size va 8 (omega arith) h, write_word io base size rs m f va 8 v h)
        refl
