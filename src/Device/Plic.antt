-- ===== src/Device/Plic.antt =====
-- src/plic.c: the interrupt controller, with 31 sources and the contexts of M-mode and S-mode.
use tinyvm.Base.{
  ℕ, zero, suc, ◌+◌, ◌-◌, ◌/◌, ◌%◌, ◌^◌, ◌&&◌, ◌||◌, Bool, true, false, bit_and, bit_or, ◌==◌, ltb,
  leb, if◌then◌else◌, set_at, has_flag, truthy, not32, u32,
}
use tinyvm.Machine.{Machine, Plic, on_cpu}
use tinyvm.Cpu.Csr.{cpu_raise_irq, cpu_lower_irq, mip_seip}

abbrev pub plic_base : ℕ
plic_base = 0x0C000000

abbrev pub plic_size : ℕ
plic_size = 0x04000000

abbrev pub plic_irq_uart : ℕ
plic_irq_uart = 1

abbrev pub plic_num_sources : ℕ
plic_num_sources = 32

abbrev pub plic_num_contexts : ℕ
plic_num_contexts = 2

abbrev pub plic_ctx_s : ℕ
plic_ctx_s = 1

abbrev pub plic_pending_off : ℕ
plic_pending_off = 0x1000

abbrev pub plic_enable_off : ℕ
plic_enable_off = 0x2000

abbrev pub plic_enable_stride : ℕ
plic_enable_stride = 0x80

abbrev pub plic_threshold_off : ℕ
plic_threshold_off = 0x200000

abbrev pub plic_context_stride : ℕ
plic_context_stride = 0x1000

abbrev pub plic_claim_ctx_off : ℕ
plic_claim_ctx_off = 4

-- pending & enable[ctx] & ~claimed.
unfoldable pub actionable : Plic → ℕ → ℕ
actionable p ctx = bit_and (bit_and p.pending (p.enable ctx)) (not32 p.claimed)

-- The test of both loops: the source asks for service and is above the threshold of the context.
unfoldable pub can_fire : Plic → ℕ → ℕ → Bool
can_fire p ctx irq = has_flag (actionable p ctx) (2 ^ irq) && ltb (p.threshold ctx) (p.priority irq)

-- The loop of plic_update_seip from source `irq`, with `left` rounds to go.
unfoldable pub any_fires : Plic → ℕ → ℕ → Bool
any_fires p zero irq = false
any_fires p (suc left) irq =
    let rest = any_fires p left (irq + 1) in if can_fire p plic_ctx_s irq then true else rest

unfoldable pub plic_update_seip : Machine → Machine
plic_update_seip m =
    if any_fires m.plic 31 1
    then on_cpu (λ c. cpu_raise_irq c mip_seip) m
    else on_cpu (λ c. cpu_lower_irq c mip_seip) m

abbrev pub set_plic : Machine → Plic → Machine
set_plic m p = record m { plic = p }

-- irq == 0 || irq >= PLIC_NUM_SOURCES.
abbrev pub no_such_irq : ℕ → Bool
no_such_irq irq = irq == 0 || leb plic_num_sources irq

unfoldable pub plic_set_pending : ℕ → Machine → Machine
plic_set_pending irq m =
    if no_such_irq irq
    then m
    else let p = m.plic in
      plic_update_seip (set_plic m (record p { pending = bit_or p.pending (2 ^ irq) }))

-- The loop of plic_claim from source `irq`: the best source so far and its priority.
unfoldable pub best_claim : Plic → ℕ → ℕ → ℕ → ℕ → ℕ → ℕ
best_claim p ctx zero irq best_irq best_pri = best_irq
best_claim p ctx (suc left) irq best_irq best_pri =
    let better = can_fire p ctx irq && ltb best_pri (p.priority irq) in
    best_claim p ctx left (irq + 1) (if better then irq else best_irq)
      (if better then p.priority irq else best_pri)

-- The effect of a successful claim: the source is in service and no longer pending.
unfoldable pub take_irq : ℕ → Plic → Plic
take_irq irq p = record p {
  claimed = bit_or p.claimed (2 ^ irq);
  pending = bit_and p.pending (not32 (2 ^ irq));
}

unfoldable pub plic_claim : ℕ → Machine → ℕ × Machine
plic_claim ctx m =
    let best_irq = best_claim m.plic ctx 31 1 0 0 in
    (
      best_irq,
      if truthy best_irq then plic_update_seip (set_plic m (take_irq best_irq m.plic)) else m,
    )

unfoldable pub plic_complete : ℕ → Machine → Machine
plic_complete irq m =
    if no_such_irq irq
    then m
    else let p = m.plic in
      plic_update_seip (set_plic m (record p { claimed = bit_and p.claimed (not32 (2 ^ irq)) }))

-- Offsets lie in the region, so the contexts fit an int.
abbrev pub enable_ctx : ℕ → ℕ
enable_ctx offset = (offset - plic_enable_off) / plic_enable_stride

abbrev pub is_enable : ℕ → Bool
is_enable offset =
    ltb (enable_ctx offset) plic_num_contexts
    && ((offset - plic_enable_off) % plic_enable_stride == 0)

abbrev pub block_ctx : ℕ → ℕ
block_ctx offset = (offset - plic_threshold_off) / plic_context_stride

abbrev pub block_off : ℕ → ℕ
block_off offset = (offset - plic_threshold_off) % plic_context_stride

unfoldable pub plic_read : ℕ → Machine → ℕ × Machine
plic_read offset m =
    let p = m.plic in
    if ltb offset plic_pending_off
    then (if ltb (offset / 4) plic_num_sources then (p.priority (offset / 4), m) else (0, m))
    else if offset == plic_pending_off
    then (p.pending, m)
    else if leb plic_enable_off offset && ltb offset plic_threshold_off
    then (if is_enable offset then (p.enable (enable_ctx offset), m) else (0, m))
    else if leb plic_threshold_off offset && ltb (block_ctx offset) plic_num_contexts
    then (if block_off offset == 0
        then (p.threshold (block_ctx offset), m)
        else if block_off offset == plic_claim_ctx_off
        then plic_claim (block_ctx offset) m
        else (0, m))
    else (0, m)

unfoldable pub plic_write : ℕ → ℕ → Machine → Machine
plic_write offset val m =
    let p = m.plic in
    if ltb offset plic_pending_off
    then (if ltb (offset / 4) plic_num_sources
        then plic_update_seip
            (set_plic m (record p { priority = set_at p.priority (offset / 4) (u32 val) }))
        else m)
    else if offset == plic_pending_off
    then m
    else if leb plic_enable_off offset && ltb offset plic_threshold_off
    then (if is_enable offset
        then plic_update_seip
            (set_plic m (record p { enable = set_at p.enable (enable_ctx offset) (u32 val) }))
        else m)
    else if leb plic_threshold_off offset && ltb (block_ctx offset) plic_num_contexts
    then (if block_off offset == 0
        then plic_update_seip
            (set_plic m (record p { threshold = set_at p.threshold (block_ctx offset) (u32 val) }))
        else if block_off offset == plic_claim_ctx_off
        then plic_complete (u32 val) m
        else m)
    else m
