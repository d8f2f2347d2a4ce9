-- ===== src/SlotCache/Acquire.antt =====
-- `acquire` of dee.cpp/src/vram_cache_manager.cpp: what it answers, which expert it evicts, and
-- that experts never share memory.
use dee.Prelude.{
  ℕ, suc, ◌+◌, ◌^◌, ◌*◌, ◌<◌, ◌≤◌, ◌≡◌, ◌≢◌, refl, ◌⊎◌, inl, inr, true, false, none, some, arith,
  ap, sym, ◌∙◌, ltb, indicator, Bool-cases, Option-cases,
}
use mathlib.Core.Path.{subst}
use native.Mathlib.Nat.{mul-le-mul_right, suc-mul}
use dee.Map.{Map, find, assign, erase}
use dee.Map.Laws.{find-assign, find_assigned, find-erase, sum_of-erase, erase-Distinct}
use dee.Keys.{ExpertKey, key_eq, key_beq_iff}
use dee.SlotCache.{
  Floats, CachedExpert, SlotManager, AcquireResult, Result, ok, throw,
  expert_bytes_exceeds_slot_bytes, slot_ptr, take_slot, enter, used, acquire, contains, ptr_of,
  slot_of,
}
use dee.SlotCache.Slots.{Inv, Took, Displaced, take_slot-Took, enter-Inv, used-Inv}

lt_or_gt : (s t : ℕ) → s ≢ t → (s < t) ⊎ (t < s)
lt_or_gt s t ne = ground (arith, ne)

mul_below : (s t k : ℕ) → s < t → s * k + k ≤ t * k
mul_below s t k h = omega (arith, mul-le-mul_right {m = suc s} {n = t} k h, suc-mul s k)

module _ (F : Floats) where
  -- The slot of a cached expert is one of the arena's.
  slot_in_range :
      (m : SlotManager F) (i : ExpertKey) (b : CachedExpert F)
      → Inv F m
      → find i m.cached ≡ some b
      → b.slot < m.num_slots
  slot_in_range m i b inv e = ground (
    arith,
    inv.slots b.slot,
    sum_of-erase (λ _ c. indicator b.slot c.slot) i b m.cached inv.distinct e,
  )

  -- Two cached experts have different slots.
  pub slots_differ :
      (m : SlotManager F) (i j : ExpertKey) (b c : CachedExpert F)
      → Inv F m
      → i ≢ j
      → find i m.cached ≡ some b
      → find j m.cached ≡ some c
      → b.slot ≢ c.slot
  slots_differ m i j b c inv ne p q = λ same.
      let holds = λ (k : ExpertKey) (x : CachedExpert F). indicator b.slot x.slot in
      let other : find j (erase i m.cached) ≡ some c =
        ground (arith, find-erase i j m.cached, key_beq_iff i j, ne, q) in
      ground (
        arith,
        same,
        inv.slots b.slot,
        sum_of-erase holds i b m.cached inv.distinct p,
        sum_of-erase holds j c (erase i m.cached) (erase-Distinct i m.cached inv.distinct) other,
      )

  -- Where the arena's bytes are counted without overflow, the memory of two cached experts is
  -- disjoint and inside the arena.
  pub slots_disjoint :
      (m : SlotManager F) (i j : ExpertKey) (b c : CachedExpert F)
      → Inv F m
      → i ≢ j
      → find i m.cached ≡ some b
      → find j m.cached ≡ some c
      → m.num_slots * m.slot_bytes < 2 ^ 64
      → ((slot_ptr F m b.slot + m.slot_bytes ≤ slot_ptr F m c.slot)
          ⊎ (slot_ptr F m c.slot + m.slot_bytes ≤ slot_ptr F m b.slot))
        × (slot_ptr F m b.slot + m.slot_bytes ≤ m.arena + m.num_slots * m.slot_bytes)
  unfolding slot_ptr
  slots_disjoint m i j b c inv ne p q fits =
      (apart (slots_differ m i j b c inv ne p q), below (slot_in_range m i b inv p))
    where
      plain_b : b.slot * m.slot_bytes + m.slot_bytes ≤ m.num_slots * m.slot_bytes
      plain_b = omega (arith, mul_below b.slot m.num_slots m.slot_bytes (slot_in_range m i b inv p))

      plain_c : c.slot * m.slot_bytes + m.slot_bytes ≤ m.num_slots * m.slot_bytes
      plain_c = omega (arith, mul_below c.slot m.num_slots m.slot_bytes (slot_in_range m j c inv q))

      apart :
          b.slot ≢ c.slot
          → (slot_ptr F m b.slot + m.slot_bytes ≤ slot_ptr F m c.slot)
            ⊎ (slot_ptr F m c.slot + m.slot_bytes ≤ slot_ptr F m b.slot)
      apart ne = elim (lt_or_gt b.slot c.slot ne) [
        | inl h ↦
            inl (omega (arith, mul_below b.slot c.slot m.slot_bytes h, fits, plain_b, plain_c))
        | inr h ↦
            inr (omega (arith, mul_below c.slot b.slot m.slot_bytes h, fits, plain_b, plain_c))
      ]

      below :
          b.slot < m.num_slots
          → slot_ptr F m b.slot + m.slot_bytes ≤ m.arena + m.num_slots * m.slot_bytes
      below h = omega (arith, mul_below b.slot m.num_slots m.slot_bytes h, fits)

  miss :
      (m : SlotManager F) (key : ExpertKey) (bytes : ℕ) (prio : ExpertKey → F.Float) (slot : ℕ)
      (m' : SlotManager F)
      → bytes ≤ m.slot_bytes
      → find key m.cached ≡ none
      → take_slot F m ≡ ok (slot, m')
      → acquire F prio m key bytes
        ≡ ok (
          record { ptr = slot_ptr F m slot; slot = slot; hit = false },
          enter F m' key slot bytes (prio key),
        )
  unfolding acquire
  miss m key bytes prio slot m' h n t = ground (arith, n, t)

  hit :
      (m : SlotManager F) (key : ExpertKey) (bytes : ℕ) (prio : ExpertKey → F.Float)
      (ce : CachedExpert F)
      → bytes ≤ m.slot_bytes
      → find key m.cached ≡ some ce
      → acquire F prio m key bytes
        ≡ ok (record { ptr = slot_ptr F m ce.slot; slot = ce.slot; hit = true }, used F m key ce)
  unfolding acquire
  hit m key bytes prio ce h e = ground (arith, e)

  -- What the readers say of an expert just entered.
  entered :
      (m : SlotManager F) (key : ExpertKey) (ce : CachedExpert F)
      → find key m.cached ≡ some ce
      → (slot_of F m key ≡ some ce.slot) × (ptr_of F m key ≡ slot_ptr F m ce.slot)
  unfolding slot_of ptr_of
  entered m key ce e = ground (arith, e)

  absent :
      {m : SlotManager F} (took : Took F m) (key : ExpertKey)
      → find key m.cached ≡ none
      → find key took.left.cached ≡ none
  absent took key n = elim (took.others key) [ inl same ↦ same ∙ n | inr lost ↦ lost.0 ]

  -- What `acquire` answers: a result whose slot and pointer are those that the cache then has for
  -- the expert.
  pub record Answered (m : SlotManager F) (key : ExpertKey)
      (res : Result (AcquireResult F × SlotManager F)) : Type 0 where
    pub answer : AcquireResult F
    pub after : SlotManager F
    pub returns : res ≡ ok (answer, after)
    pub slot_known : slot_of F after key ≡ some answer.slot
    pub ptr_known : ptr_of F after key ≡ answer.ptr
    pub hit_known : answer.hit ≡ contains F m key
    pub inv : Inv F after

  -- An expert that fits a slot is never refused: the result's slot and pointer are those that
  -- `slot_of` and `ptr_of` then give, it is a hit exactly if the expert was cached, and every slot
  -- still has one owner.
  pub acquire-Answered :
      (priority : ExpertKey → F.Float) (m : SlotManager F) (key : ExpertKey) (bytes : ℕ)
      → Inv F m
      → bytes ≤ m.slot_bytes
      → Answered m key (acquire F priority m key bytes)
  unfolding contains slot_ptr enter
  acquire-Answered priority m key bytes inv h = elim (Option-cases (find key m.cached)) [
    | inr (ce, e) ↦
        let known =
          entered (used F m key ce) key _
            (find_assigned key (record ce { last_used = m.clock + 1 }) m.cached) in
        record {
          answer = record { ptr = slot_ptr F m ce.slot; slot = ce.slot; hit = true };
          after = used F m key ce;
          returns = hit m key bytes priority ce h e;
          slot_known = known.0;
          ptr_known = known.1;
          hit_known = rw (e, contains) refl;
          inv = used-Inv F m key ce inv e;
        }
    | inl n ↦
        let took : Took F m = take_slot-Took F m inv in
        let after = enter F took.left key took.slot bytes (priority key) in
        let known = entered after key _ (find_assigned key _ took.left.cached) in
        record {
          answer = record { ptr = slot_ptr F m took.slot; slot = took.slot; hit = false };
          after = after;
          returns = miss m key bytes priority took.slot took.left h n took.takes;
          slot_known = known.0;
          ptr_known = known.1 ∙ rw (took.arena_same, took.bytes_same) refl;
          hit_known = rw (n, contains) refl;
          inv =
              enter-Inv F took.left key took.slot bytes (priority key) took.taken
                (absent took key n);
        }
  ]

  -- What becomes of the other experts.
  abbrev pub Kept : SlotManager F → ExpertKey → SlotManager F → Type 0
  Kept m j after =
      (find j after.cached ≡ find j m.cached) ⊎ ((find j after.cached ≡ none) × Displaced F m j)

  after_of : Result (AcquireResult F × SlotManager F) → SlotManager F → SlotManager F
  after_of (ok (_, m)) other = m
  after_of (throw _) other = other

  ok_injective :
      {r : Result (AcquireResult F × SlotManager F)} {a b : AcquireResult F} {m n : SlotManager F}
      → r ≡ ok (a, m)
      → r ≡ ok (b, n)
      → m ≡ n
  unfolding after_of
  ok_injective {m = m} p q = ap (λ x. after_of x m) (sym p ∙ q)

  -- An expert larger than a slot is refused.
  pub acquire-throw :
      (priority : ExpertKey → F.Float) (m : SlotManager F) (key : ExpertKey) (bytes : ℕ)
      → m.slot_bytes < bytes
      → acquire F priority m key bytes ≡ throw expert_bytes_exceeds_slot_bytes
  unfolding acquire
  acquire-throw priority m key bytes h = ground arith

  find-other :
      (key j : ExpertKey) (ce : CachedExpert F) (cs : Map ExpertKey (CachedExpert F))
      → key ≢ j
      → find j (assign key ce cs) ≡ find j cs
  find-other key j ce cs ne = ground (arith, find-assign key j ce cs, key_beq_iff key j, ne)

  -- An `acquire` leaves every other expert with its slot, or it evicts it: then no slot was free,
  -- and no cached expert had a lower priority, or an equal one and an older use.
  pub acquire_others :
      (priority : ExpertKey → F.Float) (m after : SlotManager F) (key j : ExpertKey) (bytes : ℕ)
      (r : AcquireResult F)
      → Inv F m
      → key ≢ j
      → acquire F priority m key bytes ≡ ok (r, after)
      → (find j after.cached ≡ find j m.cached) ⊎ ((find j after.cached ≡ none) × Displaced F m j)
  unfolding enter
  acquire_others priority m after key j bytes r inv ne e =
      elim (Bool-cases (ltb m.slot_bytes bytes)) [
        | inl big ↦ absurd (cc (sym (acquire-throw priority m key bytes (ground (arith, big))) ∙ e))
        | inr fits ↦ elim (Option-cases (find key m.cached)) [
          | inr (ce, f) ↦
              subst (Kept m j)
                (ok_injective (hit m key bytes priority ce (ground (arith, fits)) f) e)
                (inl (find-other key j _ m.cached ne))
          | inl n ↦
              let took : Took F m = take_slot-Took F m inv in
              subst (Kept m j)
                (ok_injective
                  (miss m key bytes priority took.slot took.left (ground (arith, fits)) n
                    took.takes)
                  e)
                (elim (took.others j) [
                  | inl same ↦ inl (find-other key j _ took.left.cached ne ∙ same)
                  | inr (lost, why) ↦ inr (find-other key j _ took.left.cached ne ∙ lost, why)
                ])
        ]
      ]
