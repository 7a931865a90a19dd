-- ===== src/Device/Claims.antt =====
-- src/plic.c: what plic_claim returns.
use tinyvm.Base.{
  ℕ, zero, suc, ◌+◌, ◌^◌, ◌≤◌, ◌<◌, ◌≡◌, inl, inr, refl, sym, ◌∙◌, subst, true, ◌&&◌, ltb,
  if◌then◌else◌, Bool-cases, and_right, below-elim, has_flag, arith,
}
use tinyvm.Machine.{Machine, Plic}
use tinyvm.Device.Sources.{Fires, can_fire-Fires, Fires-can_fire}
use tinyvm.Device.Plic.{actionable, can_fire, best_claim, plic_claim}

can_fire-above :
    (p : Plic) (ctx irq : ℕ) → can_fire p ctx irq ≡ true → p.threshold ctx < p.priority irq
unfolding can_fire
can_fire-above p ctx irq h =
    let e =
      and_right (has_flag (actionable p ctx) (2 ^ irq)) (ltb (p.threshold ctx) (p.priority irq))
        h in
    ground (arith, e)

-- `best` is 0 and no source from 1 to n - 1 can fire, or it can and none of them has a higher
-- priority.
pub record IsBest (p : Plic) (ctx n best pri : ℕ) : Type 0 where
  pub covers : (irq : ℕ) → 1 ≤ irq → irq < n → can_fire p ctx irq ≡ true → p.priority irq ≤ pri
  pub fires : 1 ≤ best → (best < n) × (can_fire p ctx best ≡ true)
  pub is_pri : 1 ≤ best → pri ≡ p.priority best
  pub no_best : best ≡ 0 → pri ≡ 0

-- `best` is a source below n that asks for service, with the highest priority, and 0 only if there
-- is none.
pub record IsBestOf (p : Plic) (ctx n best : ℕ) : Type 0 where
  pub finds : (irq : ℕ) → 1 ≤ irq → irq < n → Fires p ctx irq → 1 ≤ best
  pub highest : (irq : ℕ) → 1 ≤ irq → irq < n → Fires p ctx irq → p.priority irq ≤ p.priority best
  pub fires : 1 ≤ best → (best < n) × Fires p ctx best

nonzero : (best pri : ℕ) → (best ≡ 0 → pri ≡ 0) → 1 ≤ pri → 1 ≤ best
nonzero zero pri h l = absurd (omega (arith, h refl, l))
nonzero (suc b) pri h l = omega arith

found_IsBest :
    (p : Plic) (ctx n best pri irq : ℕ)
    → IsBest p ctx n best pri
    → 1 ≤ irq
    → irq < n
    → can_fire p ctx irq ≡ true
    → 1 ≤ best
found_IsBest p ctx n best pri irq h a b f =
    nonzero best pri h.no_best (omega (arith, h.covers irq a b f, can_fire-above p ctx irq f))

of_IsBest :
    (p : Plic) (ctx n best pri : ℕ) → n ≤ 32 → IsBest p ctx n best pri → IsBestOf p ctx n best
of_IsBest p ctx n best pri l h =
    let tested : (irq : ℕ) → irq < n → Fires p ctx irq → can_fire p ctx irq ≡ true =
      λ irq b f. Fires-can_fire p ctx irq (omega (arith, b, l)) f in
    record {
      finds = λ irq a b f. found_IsBest p ctx n best pri irq h a b (tested irq b f);
      highest = λ irq a b f. omega (
        arith,
        h.covers irq a b (tested irq b f),
        h.is_pri (found_IsBest p ctx n best pri irq h a b (tested irq b f)),
      );
      fires = λ a.
          let found = h.fires a in
          (found.0, can_fire-Fires p ctx best (omega (arith, found.0, l)) found.1);
    }

-- Source n does not do better.
keep-IsBest :
    (p : Plic) (ctx n best pri : ℕ)
    → IsBest p ctx n best pri
    → (can_fire p ctx n ≡ true → p.priority n ≤ pri)
    → IsBest p ctx (suc n) best pri
keep-IsBest p ctx n best pri h k = record {
  covers = λ irq a b f.
      below-elim (λ j. 1 ≤ j → can_fire p ctx j ≡ true → p.priority j ≤ pri) n (λ _ f. k f)
        (λ j q a f. h.covers j a q f) irq b a f;
  fires = λ a. let r = h.fires a in (omega (arith, r.0), r.1);
  is_pri = h.is_pri;
  no_best = h.no_best;
}

-- Source n does better.
take-IsBest :
    (p : Plic) (ctx n best pri : ℕ)
    → 1 ≤ n
    → IsBest p ctx n best pri
    → can_fire p ctx n ≡ true
    → pri < p.priority n
    → IsBest p ctx (suc n) n (p.priority n)
take-IsBest p ctx n best pri l h e q = record {
  covers = λ irq a b f.
      below-elim (λ j. 1 ≤ j → can_fire p ctx j ≡ true → p.priority j ≤ p.priority n) n
        (λ _ _. omega arith) (λ j r a f. omega (arith, h.covers j a r f, q)) irq b a f;
  fires = λ a. (omega arith, e);
  is_pri = λ a. refl;
  no_best = λ a. absurd (omega (arith, l, a));
}

extend-IsBest :
    (p : Plic) (ctx n best pri : ℕ)
    → 1 ≤ n
    → IsBest p ctx n best pri
    → IsBest p ctx
        (suc n)
        (if can_fire p ctx n && ltb pri (p.priority n) then n else best)
        (if can_fire p ctx n && ltb pri (p.priority n) then p.priority n else pri)
extend-IsBest p ctx n best pri l h = elim (Bool-cases (can_fire p ctx n)) [
  | inl e ↦ elim (Bool-cases (ltb pri (p.priority n))) [
    | inl q ↦ rw (e, q) (take-IsBest p ctx n best pri l h e (ground (arith, q)))
    | inr q ↦ rw (e, q) (keep-IsBest p ctx n best pri h (λ _. ground (arith, q)))
  ]
  | inr e ↦ rw e (keep-IsBest p ctx n best pri h (λ f. absurd (ground (arith, sym e ∙ f))))
]

best_claim-IsBest :
    (p : Plic) (ctx left n best pri last : ℕ)
    → 1 ≤ n
    → n + left ≡ last
    → last ≤ 32
    → IsBest p ctx n best pri
    → IsBestOf p ctx last (best_claim p ctx left n best pri)
unfolding best_claim
best_claim-IsBest p ctx zero n best pri last l e k h =
    subst (λ k. IsBestOf p ctx k best) (omega (arith, e))
      (of_IsBest p ctx n best pri (omega (arith, e, k)) h)
best_claim-IsBest p ctx (suc left) n best pri last l e k h =
    best_claim-IsBest p ctx left (n + 1) _ _ last (omega arith) (omega (arith, e)) k (
      subst
        (λ k.
          IsBest p ctx k (if can_fire p ctx n && ltb pri (p.priority n) then n else best)
            (if can_fire p ctx n && ltb pri (p.priority n) then p.priority n else pri))
        (omega arith) (extend-IsBest p ctx n best pri l h))

-- plic_claim returns a source from 1 to 31 that is pending, enabled for the context, not in service
-- and above the threshold, and no such source has a higher priority; it returns 0 only if there is
-- no such source.
pub plic_claim-IsBestOf : (ctx : ℕ) (m : Machine) → IsBestOf m.plic ctx 32 (plic_claim ctx m).0
unfolding plic_claim
plic_claim-IsBestOf ctx m =
    best_claim-IsBest m.plic ctx 31 1 0 0 32 (omega arith) refl (omega arith) (record {
      covers = λ irq a b f. absurd (omega (arith, a, b));
      fires = λ a. absurd (omega (arith, a));
      is_pri = λ a. absurd (omega (arith, a));
      no_best = λ a. refl;
    })
