-- ===== src/Device/Lines.antt =====
-- src/clint.c and src/plic.c: the interrupt lines follow the devices' state.
use tinyvm.Base.{
  ℕ, zero, suc, ◌+◌, ◌/◌, ◌^◌, ◌&&◌, u32, ◌≤◌, ◌<◌, ◌≡◌, refl, ap, sym, ◌∙◌, Bool, true, false,
  ◌==◌, leb, ltb, if◌then◌else◌, if-elim, inl, inr, Bool-cases, has_flag, truthy, arith,
}
use tinyvm.Base.Bits.{has_flag-set_flags, has_flag-clear_flags}
use tinyvm.Machine.{Machine, Plic, on_cpu}
use tinyvm.Cpu.Csr.{csr_mip, cpu_raise_irq, cpu_lower_irq, mip_stip, mip_seip}
use tinyvm.Device.Clint.{clint_irq_source}
use tinyvm.Device.Sources.{Fires, can_fire-Fires, Fires-can_fire}
use tinyvm.Device.Plic.{
  can_fire, any_fires, plic_update_seip, plic_set_pending, plic_claim, plic_complete, plic_write,
  plic_read, no_such_irq, best_claim, plic_pending_off, plic_enable_off, plic_threshold_off,
  plic_num_sources, plic_num_contexts, plic_claim_ctx_off, is_enable, enable_ctx, block_ctx,
  block_off,
}

-- The machine's line `k` is high.
abbrev line : ℕ → Machine → Bool
line k m = has_flag (m.cpu.csrs csr_mip) (2 ^ k)

raised : (k : ℕ) (m : Machine) → line k (on_cpu (λ c. cpu_raise_irq c (2 ^ k)) m) ≡ true
unfolding cpu_raise_irq
raised k m = has_flag-set_flags k (m.cpu.csrs csr_mip)

lowered :
    (k : ℕ) (m : Machine)
    → 2 ^ k < 2 ^ 64
    → k < 64
    → line k (on_cpu (λ c. cpu_lower_irq c (2 ^ k)) m) ≡ false
unfolding cpu_lower_irq
lowered k m h l = has_flag-clear_flags k (m.cpu.csrs csr_mip) h l

follows :
    (b : Bool) (k : ℕ) (m : Machine)
    → 2 ^ k < 2 ^ 64
    → k < 64
    → line k (
        if b
        then on_cpu (λ c. cpu_raise_irq c (2 ^ k)) m
        else on_cpu (λ c. cpu_lower_irq c (2 ^ k)) m)
      ≡ b
follows true k m h l = raised k m
follows false k m h l = lowered k m h l

-- After the timer is polled, STIP is pending exactly if the time has reached the comparator.
pub clint_irq_source-stip :
    (m : Machine)
    → has_flag ((clint_irq_source m).cpu.csrs csr_mip) mip_stip ≡ leb m.mtimecmp m.cpu.steps
unfolding clint_irq_source
clint_irq_source-stip m = follows (leb m.mtimecmp m.cpu.steps) 5 m (omega arith) (omega arith)

-- Some source from 1 to 31 asks for service.
pub record SomeFires (p : Plic) : Type 0 where
  pub irq : ℕ
  pub positive : 1 ≤ irq
  pub bounded : irq < 32
  pub fires : Fires p 1 irq

any_fires-SomeFires :
    (p : Plic) (left irq : ℕ)
    → 1 ≤ irq
    → left + irq ≤ 32
    → any_fires p left irq ≡ true
    → SomeFires p
unfolding any_fires
any_fires-SomeFires p zero irq a b e = absurd (ground (arith, e))
any_fires-SomeFires p (suc left) irq a b e = elim (Bool-cases (can_fire p 1 irq)) [
  | inl t ↦ record {
    irq = irq;
    positive = a;
    bounded = omega (arith, b);
    fires = can_fire-Fires p 1 irq (omega (arith, b)) t;
  }
  | inr f ↦
      any_fires-SomeFires p left (irq + 1) (omega arith) (omega (arith, b)) (ground (arith, e, f))
]

Fires-any_fires :
    (p : Plic) (left irq source : ℕ)
    → irq ≤ source
    → source < irq + left
    → source < 32
    → Fires p 1 source
    → any_fires p left irq ≡ true
unfolding any_fires
Fires-any_fires p zero irq source a b k f = absurd (omega (arith, a, b))
Fires-any_fires p (suc left) irq source a b k f = elim (Bool-cases (irq == source)) [
  | inl e ↦
      let same : irq ≡ source = ground (arith, e) in
      let first : can_fire p 1 irq ≡ true =
        ap (can_fire p 1) same ∙ Fires-can_fire p 1 source k f in
      rw first refl
  | inr e ↦
      let later =
        Fires-any_fires p left (irq + 1) source (ground (arith, e, a)) (omega (arith, b)) k f in
      ground (arith, later)
]

-- SEIP is high exactly if some source asks for service in the context of S-mode.
pub record IsSynced (m : Machine) : Type 0 where
  pub has_source : has_flag (m.cpu.csrs csr_mip) mip_seip ≡ true → SomeFires m.plic
  pub misses_none :
      (irq : ℕ)
      → 1 ≤ irq
      → irq < 32
      → Fires m.plic 1 irq
      → has_flag (m.cpu.csrs csr_mip) mip_seip ≡ true

-- The line that the loop of the update gives.
looped-IsSynced :
    (m : Machine) → has_flag (m.cpu.csrs csr_mip) mip_seip ≡ any_fires m.plic 31 1 → IsSynced m
looped-IsSynced m e = record {
  has_source = λ h. any_fires-SomeFires m.plic 31 1 (omega arith) (omega arith) (sym e ∙ h);
  misses_none = λ irq a b f. e ∙ Fires-any_fires m.plic 31 1 irq a (omega (arith, b)) b f;
}

-- Each branch of the update.
synced :
    (b : Bool) (m : Machine)
    → b ≡ any_fires m.plic 31 1
    → IsSynced (
        if b
        then on_cpu (λ c. cpu_raise_irq c mip_seip) m
        else on_cpu (λ c. cpu_lower_irq c mip_seip) m)
synced true m e = looped-IsSynced _ (raised 9 m ∙ e)
synced false m e = looped-IsSynced _ (lowered 9 m (omega arith) (omega arith) ∙ e)

pub plic_update_seip-IsSynced : (m : Machine) → IsSynced (plic_update_seip m)
unfolding plic_update_seip
plic_update_seip-IsSynced m = synced (any_fires m.plic 31 1) m refl

pub plic_set_pending-IsSynced :
    (irq : ℕ) (m : Machine) → IsSynced m → IsSynced (plic_set_pending irq m)
unfolding plic_set_pending
plic_set_pending-IsSynced irq m h =
    if-elim IsSynced (no_such_irq irq) m _ (λ _. h) (λ _. plic_update_seip-IsSynced _)

plic_complete-IsSynced : (irq : ℕ) (m : Machine) → IsSynced m → IsSynced (plic_complete irq m)
unfolding plic_complete
plic_complete-IsSynced irq m h =
    if-elim IsSynced (no_such_irq irq) m _ (λ _. h) (λ _. plic_update_seip-IsSynced _)

pub plic_claim-IsSynced : (ctx : ℕ) (m : Machine) → IsSynced m → IsSynced (plic_claim ctx m).1
unfolding plic_claim
plic_claim-IsSynced ctx m h =
    if-elim IsSynced (truthy (best_claim m.plic ctx 31 1 0 0)) _ m
      (λ _. plic_update_seip-IsSynced _) (λ _. h)

-- Every write of the guest to the interrupt controller, completions included, leaves SEIP high
-- exactly if some source from 1 to 31 is pending, enabled in the context of S-mode, not claimed and
-- above that context's threshold, if it was so before.
pub plic_write-IsSynced :
    (offset val : ℕ) (m : Machine) → IsSynced m → IsSynced (plic_write offset val m)
unfolding plic_write
plic_write-IsSynced offset val m h =
    if-elim IsSynced (ltb offset plic_pending_off) _ _
      (λ _.
        if-elim IsSynced (ltb (offset / 4) plic_num_sources) _ m (λ _. plic_update_seip-IsSynced _)
          (λ _. h))
      λ _.
        if-elim IsSynced (offset == plic_pending_off) m _ (λ _. h)
          λ _.
            if-elim IsSynced (leb plic_enable_off offset && ltb offset plic_threshold_off) _ _
              (λ _.
                if-elim IsSynced (is_enable offset) _ m (λ _. plic_update_seip-IsSynced _) (λ _. h))
              λ _.
                if-elim IsSynced
                  (leb plic_threshold_off offset && ltb (block_ctx offset) plic_num_contexts) _ m
                  (λ _.
                    if-elim IsSynced (block_off offset == 0) _ _ (λ _. plic_update_seip-IsSynced _)
                      λ _.
                        if-elim IsSynced (block_off offset == plic_claim_ctx_off) _ m
                          (λ _. plic_complete-IsSynced (u32 val) m h) (λ _. h))
                  (λ _. h)

-- Every read of the guest from the interrupt controller, claims included, leaves SEIP high exactly
-- if some source from 1 to 31 is pending, enabled in the context of S-mode, not claimed and above
-- that context's threshold, if it was so before.
pub plic_read-IsSynced : (offset : ℕ) (m : Machine) → IsSynced m → IsSynced (plic_read offset m).1
unfolding plic_read
plic_read-IsSynced offset m h =
    let P = λ (r : ℕ × Machine). IsSynced r.1 in
    let p = m.plic in
    if-elim P (ltb offset plic_pending_off) _ _
      (λ _.
        if-elim P (ltb (offset / 4) plic_num_sources) (p.priority (offset / 4), m) (0, m) (λ _. h)
          (λ _. h))
      λ _.
        if-elim P (offset == plic_pending_off) (p.pending, m) _ (λ _. h)
          λ _.
            if-elim P (leb plic_enable_off offset && ltb offset plic_threshold_off) _ _
              (λ _.
                if-elim P (is_enable offset) (p.enable (enable_ctx offset), m) (0, m) (λ _. h)
                  (λ _. h))
              λ _.
                if-elim P
                  (leb plic_threshold_off offset && ltb (block_ctx offset) plic_num_contexts) _
                  (0, m)
                  (λ _.
                    if-elim P (block_off offset == 0) (p.threshold (block_ctx offset), m) _ (λ _. h)
                      λ _.
                        if-elim P (block_off offset == plic_claim_ctx_off)
                          (plic_claim (block_ctx offset) m) (0, m)
                          (λ _. plic_claim-IsSynced (block_ctx offset) m h) (λ _. h))
                  (λ _. h)
