-- ===== src/SlotCache/Run.antt =====
-- Histories of calls on the slot cache of dee.cpp/src/vram_cache_manager.cpp. A call that throws
-- leaves the manager as it was: the checks come before the first write.
use dee.Prelude.{
  ℕ, ◌+◌, ◌*◌, ◌^◌, ◌<◌, ◌≤◌, ◌≡◌, refl, ◌∙◌, ◌≢◌, ◌⊎◌, inl, inr, some, List, [], ◌∷◌, arith, ltb,
  Bool-cases, Option-cases,
}
use dee.Map.{find}
use dee.Keys.{ExpertKey, key_eq}
use dee.SlotCache.{
  Floats, CachedExpert, SlotManager, Error, Result, ok, throw, construct, take_slot, evict_victim,
  enter, acquire, touch, slot_ptr,
}
use dee.SlotCache.Slots.{Inv, construct-Inv, construct_sizes, used-Inv}
use dee.SlotCache.Acquire.{acquire-Answered, acquire-throw, slots_disjoint}

Result-cases {ℓ} :
    {A : Type ℓ} (r : Result A) → ((e : Error) × (r ≡ throw e)) ⊎ ((a : A) × (r ≡ ok a))
Result-cases (throw e) = inl (e, refl)
Result-cases (ok a) = inr (a, refl)

pub data Call : Type 0 where
  acquires : ExpertKey → ℕ → Call
  touches : ExpertKey → Call

module _ (F : Floats) (priority : ExpertKey → F.Float) where
  unfoldable pub step : SlotManager F → Call → SlotManager F
  step m (acquires key bytes) = elim (acquire F priority m key bytes) [
    | ok (_, after) ↦ after
    | throw _ ↦ m
  ]
  step m (touches key) = touch F m key

  unfoldable pub run : SlotManager F → List Call → SlotManager F
  run m [] = m
  run m (c ∷ cs) = run (step m c) cs

  step-Inv : (m : SlotManager F) (c : Call) → Inv F m → Inv F (step m c)
  unfolding step touch
  step-Inv m (acquires key bytes) inv = elim (Bool-cases (ltb m.slot_bytes bytes)) [
    | inl big ↦ rw (acquire-throw F priority m key bytes (ground (arith, big)), step) inv
    | inr fits ↦
        let a = acquire-Answered F priority m key bytes inv (ground (arith, fits)) in
        rw (a.returns, step) a.inv
  ]
  step-Inv m (touches key) inv = elim (Option-cases (find key m.cached)) [
    | inl n ↦ rw (n, step, touch) inv
    | inr (ce, e) ↦ rw (e, step, touch) (used-Inv F m key ce inv e)
  ]

  pub run-Inv : (m : SlotManager F) (cs : List Call) → Inv F m → Inv F (run m cs)
  unfolding run
  run-Inv m [] inv = inv
  run-Inv m (c ∷ cs) inv = run-Inv (step m c) cs (step-Inv m c inv)

  -- The sizes stay what they were.
  abbrev SameSizes : SlotManager F → SlotManager F → Type 0
  SameSizes m m' = (m'.num_slots ≡ m.num_slots) × (m'.slot_bytes ≡ m.slot_bytes)

  take_slot_keeps :
      (m m' : SlotManager F) (slot : ℕ) → take_slot F m ≡ ok (slot, m') → SameSizes m m'
  unfolding take_slot evict_victim
  take_slot_keeps m m' slot e = ground (arith, e)

  step_keeps : (m : SlotManager F) (c : Call) → SameSizes m (step m c)
  unfolding step acquire touch enter
  step_keeps m (acquires key bytes) = elim (Result-cases (take_slot F m)) [
    | inl (err, e) ↦ ground (arith, e)
    | inr ((slot, m'), e) ↦ ground (arith, e, take_slot_keeps m m' slot e)
  ]
  step_keeps m (touches key) = ground arith

  run_keeps : (m : SlotManager F) (cs : List Call) → SameSizes m (run m cs)
  unfolding run
  run_keeps m [] = (refl, refl)
  run_keeps m (c ∷ cs) =
      let (many, size) = run_keeps (step m c) cs in
      let (many', size') = step_keeps m c in (many ∙ many', size ∙ size')

  -- After any calls on a new manager whose arena's bytes are counted without overflow, two experts that it holds have disjoint memory, and the
  -- memory of an expert lies inside the arena.
  pub run_disjoint :
      (device_malloc : ℕ → ℕ) (slot_bytes num_slots : ℕ) (m : SlotManager F) (cs : List Call)
      (i j : ExpertKey) (b c : CachedExpert F)
      → construct F device_malloc slot_bytes num_slots ≡ ok m
      → i ≢ j
      → find i (run m cs).cached ≡ some b
      → find j (run m cs).cached ≡ some c
      → num_slots * slot_bytes < 2 ^ 64
      → ((slot_ptr F (run m cs) b.slot + (run m cs).slot_bytes ≤ slot_ptr F (run m cs) c.slot)
          ⊎ (slot_ptr F (run m cs) c.slot + (run m cs).slot_bytes ≤ slot_ptr F (run m cs) b.slot))
        × (slot_ptr F (run m cs) b.slot + (run m cs).slot_bytes
            ≤ (run m cs).arena + (run m cs).num_slots * (run m cs).slot_bytes)
  run_disjoint device_malloc slot_bytes num_slots m cs i j b c made ne p q fits =
      let (many, size) = run_keeps m cs in
      let (many', size') = construct_sizes F device_malloc slot_bytes num_slots m made in
      slots_disjoint F (run m cs) i j b c
        (run-Inv m cs (construct-Inv F device_malloc slot_bytes num_slots m made)) ne p q
        (rw (many, size) (rw (many', size') at fits))
