-- ===== src/Wf/Device.antt =====
-- src/clint.c, src/plic.c and src/uart.c: the devices keep the machine well-formed.
use tinyvm.Base.{
  ℕ, zero, suc, ◌+◌, ◌/◌, ◌^◌, ◌≤◌, ◌<◌, ◌≡◌, false, ◌==◌, ltb, leb, ◌&&◌, if-elim, set_at, not32,
  u32, truthy, arith,
}
use tinyvm.Base.Bits.{bit_and-lt, bit_or-lt}
use native.Mathlib.Nat.{pow-le-pow_right}
use tinyvm.Machine.{Machine, Cpu, Plic, Uart, set_cpu}
use tinyvm.Cpu.Csr.{mip_stip, mip_seip}
use tinyvm.Device.Clint.{clint_irq_source, clint_read, clint_write}
use tinyvm.Device.Plic.{
  plic_update_seip, plic_set_pending, plic_claim, plic_complete, plic_read, plic_write, set_plic,
  best_claim, take_irq, can_fire, no_such_irq, plic_num_sources, is_enable, enable_ctx, block_ctx,
  block_off, plic_pending_off, plic_enable_off, plic_threshold_off, plic_num_contexts,
  plic_claim_ctx_off,
}
use tinyvm.Wf.Cpu.{cpu_raise_irq-IsCpu, cpu_lower_irq-IsCpu}
use tinyvm.Wf.Defs.{IsMachine, IsCpu, IsPlic, IsUart, IsU64, IsU32}

pub set_cpu-IsMachine : (m : Machine) (c : Cpu) → IsMachine m → IsCpu c → IsMachine (set_cpu m c)
set_cpu-IsMachine m c h k = record {
  is_cpu = k;
  are_regions = h.are_regions;
  is_virtio = h.is_virtio;
  mtimecmp_fits = h.mtimecmp_fits;
  is_plic = h.is_plic;
  is_uart = h.is_uart;
}

pub set_plic-IsMachine :
    (m : Machine) (p : Plic) → IsMachine m → IsPlic p → IsMachine (set_plic m p)
set_plic-IsMachine m p h k = record {
  is_cpu = h.is_cpu;
  are_regions = h.are_regions;
  is_virtio = h.is_virtio;
  mtimecmp_fits = h.mtimecmp_fits;
  is_plic = k;
  is_uart = h.is_uart;
}

pub set_uart-IsMachine :
    (m : Machine) (u : Uart) → IsMachine m → IsUart u → IsMachine (record m { uart = u })
set_uart-IsMachine m u h k = record {
  is_cpu = h.is_cpu;
  are_regions = h.are_regions;
  is_virtio = h.is_virtio;
  mtimecmp_fits = h.mtimecmp_fits;
  is_plic = h.is_plic;
  is_uart = k;
}

pub set_timer-IsMachine :
    (m : Machine) (t : ℕ) → IsMachine m → IsU64 t → IsMachine (record m { mtimecmp = t })
set_timer-IsMachine m t h k = record {
  is_cpu = h.is_cpu;
  are_regions = h.are_regions;
  is_virtio = h.is_virtio;
  mtimecmp_fits = k;
  is_plic = h.is_plic;
  is_uart = h.is_uart;
}

pub clint_irq_source-IsMachine : (m : Machine) → IsMachine m → IsMachine (clint_irq_source m)
unfolding clint_irq_source
clint_irq_source-IsMachine m h =
    if-elim IsMachine _ _ _
      (λ _. set_cpu-IsMachine m _ h (cpu_raise_irq-IsCpu m.cpu mip_stip h.is_cpu (omega arith)))
      (λ _. set_cpu-IsMachine m _ h (cpu_lower_irq-IsCpu m.cpu mip_stip h.is_cpu))

pub clint_read-fits : (offset : ℕ) (m : Machine) → IsMachine m → IsU64 (clint_read offset m)
unfolding clint_read
clint_read-fits offset m h = ground (arith, h.mtimecmp_fits, h.is_cpu.steps_fit)

pub clint_write-IsMachine :
    (offset val : ℕ) (m : Machine) → IsMachine m → IsU64 val → IsMachine (clint_write offset val m)
unfolding clint_write
clint_write-IsMachine offset val m h l =
    if-elim IsMachine _ _ m (λ _. set_timer-IsMachine m val h l) (λ _. h)

pub plic_update_seip-IsMachine : (m : Machine) → IsMachine m → IsMachine (plic_update_seip m)
unfolding plic_update_seip
plic_update_seip-IsMachine m h =
    if-elim IsMachine _ _ _
      (λ _. set_cpu-IsMachine m _ h (cpu_raise_irq-IsCpu m.cpu mip_seip h.is_cpu (omega arith)))
      (λ _. set_cpu-IsMachine m _ h (cpu_lower_irq-IsCpu m.cpu mip_seip h.is_cpu))

-- 1u << irq at a source number.
one_shl-fits : (irq : ℕ) → irq < 32 → IsU32 (2 ^ irq)
one_shl-fits irq h =
    omega (arith, pow-le-pow_right {n = 2} (omega arith) {i = irq} {j = 31} (omega arith))

take_irq-IsPlic : (irq : ℕ) (p : Plic) → irq < 32 → IsPlic p → IsPlic (take_irq irq p)
unfolding take_irq
take_irq-IsPlic irq p l h = record {
  priority_fits = h.priority_fits;
  pending_fits = bit_and-lt 32 p.pending (not32 (2 ^ irq)) h.pending_fits;
  enable_fits = h.enable_fits;
  threshold_fits = h.threshold_fits;
  claimed_fits = bit_or-lt 32 p.claimed (2 ^ irq) h.claimed_fits (one_shl-fits irq l);
}

-- The number that a claim finds is that of a source.
pub best_claim-lt :
    (p : Plic) (ctx left irq best_irq best_pri : ℕ)
    → irq + left ≤ 32
    → best_irq < 32
    → best_claim p ctx left irq best_irq best_pri < 32
unfolding best_claim
best_claim-lt p ctx zero irq best_irq best_pri h l = l
best_claim-lt p ctx (suc left) irq best_irq best_pri h l =
    best_claim-lt p ctx left (irq + 1) _ _ (omega arith) (
      if-elim (λ b. b < 32) (can_fire p ctx irq && ltb best_pri (p.priority irq)) irq best_irq
        (λ _. omega arith) (λ _. l))

no_such_irq-false : (irq : ℕ) → no_such_irq irq ≡ false → irq < 32
no_such_irq-false irq h = ground arith

pub plic_set_pending-IsMachine :
    (irq : ℕ) (m : Machine) → IsMachine m → IsMachine (plic_set_pending irq m)
unfolding plic_set_pending
plic_set_pending-IsMachine irq m h =
    if-elim IsMachine (no_such_irq irq) m _ (λ _. h)
      λ e. plic_update_seip-IsMachine _ (
        set_plic-IsMachine m _ h (record {
          priority_fits = h.is_plic.priority_fits;
          pending_fits =
              bit_or-lt 32 m.plic.pending (2 ^ irq) h.is_plic.pending_fits
                (one_shl-fits irq (no_such_irq-false irq e));
          enable_fits = h.is_plic.enable_fits;
          threshold_fits = h.is_plic.threshold_fits;
          claimed_fits = h.is_plic.claimed_fits;
        }))

pub plic_complete-IsMachine :
    (irq : ℕ) (m : Machine) → IsMachine m → IsMachine (plic_complete irq m)
unfolding plic_complete
plic_complete-IsMachine irq m h =
    if-elim IsMachine (no_such_irq irq) m _ (λ _. h)
      λ _. plic_update_seip-IsMachine _ (
        set_plic-IsMachine m _ h (record {
          priority_fits = h.is_plic.priority_fits;
          pending_fits = h.is_plic.pending_fits;
          enable_fits = h.is_plic.enable_fits;
          threshold_fits = h.is_plic.threshold_fits;
          claimed_fits = bit_and-lt 32 m.plic.claimed (not32 (2 ^ irq)) h.is_plic.claimed_fits;
        }))

-- What a read hands back with the machine it leaves.
pub record IsReply (r : ℕ × Machine) : Type 0 where
  pub value_fits : IsU64 r.0
  pub is_machine : IsMachine r.1

plic_claim-IsReply : (ctx : ℕ) (m : Machine) → IsMachine m → IsReply (plic_claim ctx m)
unfolding plic_claim
plic_claim-IsReply ctx m h =
    let l = best_claim-lt m.plic ctx 31 1 0 0 (omega arith) (omega arith) in
    record {
      value_fits = omega (arith, l);
      is_machine =
          if-elim IsMachine (truthy (best_claim m.plic ctx 31 1 0 0)) _ m
            (λ _.
              plic_update_seip-IsMachine _
                (set_plic-IsMachine m _ h (take_irq-IsPlic _ m.plic l h.is_plic)))
            (λ _. h);
    }

pair-IsReply : (v : ℕ) (m : Machine) → IsU64 v → IsMachine m → IsReply (v, m)
pair-IsReply v m l h = record { value_fits = l; is_machine = h }

pub plic_read-IsReply : (offset : ℕ) (m : Machine) → IsMachine m → IsReply (plic_read offset m)
unfolding plic_read
plic_read-IsReply offset m h =
    let p = m.plic in
    let k = h.is_plic in
    let none_here = pair-IsReply 0 m (omega arith) h in
    let word = λ (v : ℕ) (l : IsU32 v). pair-IsReply v m (omega (arith, l)) h in
    if-elim IsReply (ltb offset plic_pending_off) _ _
      (λ _.
        if-elim IsReply (ltb (offset / 4) plic_num_sources) _ _
          (λ _. word _ (k.priority_fits (offset / 4))) (λ _. none_here))
      λ _.
        if-elim IsReply (offset == plic_pending_off) _ _ (λ _. word _ k.pending_fits)
          λ _.
            if-elim IsReply (leb plic_enable_off offset && ltb offset plic_threshold_off) _ _
              (λ _.
                if-elim IsReply (is_enable offset) _ _
                  (λ _. word _ (k.enable_fits (enable_ctx offset))) (λ _. none_here))
              λ _.
                if-elim IsReply
                  (leb plic_threshold_off offset && ltb (block_ctx offset) plic_num_contexts) _ _
                  (λ _.
                    if-elim IsReply (block_off offset == 0) _ _
                      (λ _. word _ (k.threshold_fits (block_ctx offset)))
                      λ _.
                        if-elim IsReply (block_off offset == plic_claim_ctx_off) _ _
                          (λ _. plic_claim-IsReply (block_ctx offset) m h) (λ _. none_here))
                  (λ _. none_here)

-- A u32 stored into an array of them.
stored-fits :
    (f : ℕ → ℕ) (i val : ℕ) → ((j : ℕ) → IsU32 (f j)) → (j : ℕ) → IsU32 (set_at f i (u32 val) j)
stored-fits f i val h j = if-elim IsU32 (j == i) (u32 val) (f j) (λ _. omega arith) (λ _. h j)

-- The PLIC with each of its three arrays given anew.
plic_arrays :
    (m : Machine) (priority enable threshold : ℕ → ℕ)
    → IsMachine m
    → ((j : ℕ) → IsU32 (priority j))
    → ((j : ℕ) → IsU32 (enable j))
    → ((j : ℕ) → IsU32 (threshold j))
    → IsMachine (
        plic_update_seip (
          set_plic m
            (record m.plic { priority = priority; enable = enable; threshold = threshold })))
plic_arrays m priority enable threshold h a b c = plic_update_seip-IsMachine _ (
    set_plic-IsMachine m _ h (record {
      priority_fits = a;
      pending_fits = h.is_plic.pending_fits;
      enable_fits = b;
      threshold_fits = c;
      claimed_fits = h.is_plic.claimed_fits;
    }))

pub plic_write-IsMachine :
    (offset val : ℕ) (m : Machine) → IsMachine m → IsMachine (plic_write offset val m)
unfolding plic_write
plic_write-IsMachine offset val m h =
    let p = m.plic in
    let k = h.is_plic in
    if-elim IsMachine (ltb offset plic_pending_off) _ _
      (λ _.
        if-elim IsMachine (ltb (offset / 4) plic_num_sources) _ m
          (λ _.
            plic_arrays m _ p.enable p.threshold h
              (stored-fits p.priority (offset / 4) val k.priority_fits) k.enable_fits
              k.threshold_fits)
          (λ _. h))
      λ _.
        if-elim IsMachine (offset == plic_pending_off) m _ (λ _. h)
          λ _.
            if-elim IsMachine (leb plic_enable_off offset && ltb offset plic_threshold_off) _ _
              (λ _.
                if-elim IsMachine (is_enable offset) _ m
                  (λ _.
                    plic_arrays m p.priority _ p.threshold h k.priority_fits
                      (stored-fits p.enable (enable_ctx offset) val k.enable_fits) k.threshold_fits)
                  (λ _. h))
              λ _.
                if-elim IsMachine
                  (leb plic_threshold_off offset && ltb (block_ctx offset) plic_num_contexts) _ m
                  (λ _.
                    if-elim IsMachine (block_off offset == 0) _ _
                      (λ _.
                        plic_arrays m p.priority p.enable _ h k.priority_fits k.enable_fits
                          (stored-fits p.threshold (block_ctx offset) val k.threshold_fits))
                      λ _.
                        if-elim IsMachine (block_off offset == plic_claim_ctx_off) _ m
                          (λ _. plic_complete-IsMachine (u32 val) m h) (λ _. h))
                  (λ _. h)
