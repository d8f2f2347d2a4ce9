-- ===== src/SlotCache/Slots.antt =====
-- The slots of dee.cpp/src/vram_cache_manager.cpp: each is free or belongs to one cached expert.
use dee.Prelude.{
  ℕ, ◌+◌, ◌*◌, ◌%◌, ◌^◌, ◌<◌, ◌≡◌, refl, ◌⊎◌, inl, inr, none, some, List, [], ◌∷◌, arith, ap,
  Bool-cases, Option-cases, indicator, count, in_range, range_from, count-range_from,
}
use mathlib.Core.Path.{subst}
use dee.Map.{Map, find, erase, Distinct, AllEntries, sum_of}
use dee.Map.Laws.{
  find-erase, assign-Distinct, erase-Distinct, sum_of-erase, sum_of-reassign, sum_of-assign,
  AllEntries-find, AllEntries-assign, AllEntries-erase,
}
use dee.Keys.{ExpertKey, key_eq, key_beq_iff}
use dee.SlotCache.{
  Floats, CachedExpert, SlotManager, ok, construct, victim_of, evict_victim, take_slot, enter, used,
}
use dee.SlotCache.Victim.{Keyed, NotAfter, IsVictim, victim_of-IsVictim, victim_of-none}

list_cases : (xs : List ℕ) → (xs ≡ []) ⊎ ((x : ℕ) × (ys : List ℕ) × (xs ≡ x ∷ ys))
list_cases [] = inl refl
list_cases (x ∷ xs) = inr (x, xs, refl)

module _ (F : Floats) where
  -- How many cached experts have the slot `s`.
  abbrev pub holders : ℕ → Map ExpertKey (CachedExpert F) → ℕ
  holders s = sum_of (λ _ c. indicator s c.slot)

  -- Each slot of the arena is on the free list once or is held by one expert, and never both; no
  -- other slot occurs.
  pub record Inv (m : SlotManager F) : Type 0 where
    pub distinct : Distinct m.cached
    pub keyed : Keyed F m.cached
    pub slots : (s : ℕ) → count s m.free_list + holders s m.cached ≡ in_range m.num_slots s
    pub some_slot : 0 < m.num_slots

  -- A state in which one slot `s` was taken for an expert that is not cached yet.
  pub record Taken (m : SlotManager F) (slot : ℕ) : Type 0 where
    pub distinct : Distinct m.cached
    pub keyed : Keyed F m.cached
    pub slots :
        (s : ℕ)
        → indicator s slot + (count s m.free_list + holders s m.cached) ≡ in_range m.num_slots s
    pub some_slot : 0 < m.num_slots

  abbrev fresh : ℕ → ℕ → ℕ → SlotManager F
  fresh arena slot_bytes num_slots = record {
    slot_bytes = slot_bytes;
    num_slots = num_slots;
    arena = arena;
    free_list = range_from num_slots 0;
    cached = [];
    clock = 0;
    last_evicted = none;
  }

  fresh-Inv :
      (arena slot_bytes num_slots : ℕ) → 0 < num_slots → Inv (fresh arena slot_bytes num_slots)
  unfolding sum_of
  fresh-Inv arena slot_bytes num_slots p = record {
    distinct = tt;
    keyed = tt;
    slots = λ s. ground (arith, count-range_from num_slots 0 s);
    some_slot = p;
  }

  construct-fresh :
      (device_malloc : ℕ → ℕ) (slot_bytes num_slots : ℕ) (m : SlotManager F)
      → construct F device_malloc slot_bytes num_slots ≡ ok m
      → (0 < num_slots)
        × (fresh (device_malloc (slot_bytes * num_slots % 2 ^ 64)) slot_bytes num_slots ≡ m)
  unfolding construct
  construct-fresh device_malloc slot_bytes num_slots m e = ground (arith, e)

  pub construct-Inv :
      (device_malloc : ℕ → ℕ) (slot_bytes num_slots : ℕ) (m : SlotManager F)
      → construct F device_malloc slot_bytes num_slots ≡ ok m
      → Inv m
  construct-Inv device_malloc slot_bytes num_slots m e =
      let (pos, same) = construct-fresh device_malloc slot_bytes num_slots m e in
      subst Inv same (fresh-Inv _ slot_bytes num_slots pos)

  pub construct_sizes :
      (device_malloc : ℕ → ℕ) (slot_bytes num_slots : ℕ) (m : SlotManager F)
      → construct F device_malloc slot_bytes num_slots ≡ ok m
      → (num_slots ≡ m.num_slots) × (slot_bytes ≡ m.slot_bytes)
  construct_sizes device_malloc slot_bytes num_slots m e =
      let same = (construct-fresh device_malloc slot_bytes num_slots m e).1 in
      (ap (λ x. x.num_slots) same, ap (λ x. x.slot_bytes) same)

  free-Taken :
      (m : SlotManager F) (slot : ℕ) (rest : List ℕ)
      → Inv m
      → m.free_list ≡ slot ∷ rest
      → Taken (record m { free_list = rest }) slot
  unfolding count
  free-Taken m slot rest inv e = record {
    distinct = inv.distinct;
    keyed = inv.keyed;
    slots = λ s. omega (arith, inv.slots s, ap (count s) e);
    some_slot = inv.some_slot;
  }

  victim-Taken :
      (m : SlotManager F) (v : CachedExpert F)
      → Inv m
      → find v.key m.cached ≡ some v
      → Taken (record m { cached = erase v.key m.cached; last_evicted = some v.key }) v.slot
  victim-Taken m v inv e = record {
    distinct = erase-Distinct v.key m.cached inv.distinct;
    keyed = AllEntries-erase (λ k c. c.key ≡ k) v.key m.cached inv.keyed;
    slots = λ s. omega (
      arith,
      inv.slots s,
      sum_of-erase (λ _ c. indicator s c.slot) v.key v m.cached inv.distinct e,
    );
    some_slot = inv.some_slot;
  }

  pub enter-Inv :
      (m : SlotManager F) (key : ExpertKey) (slot bytes : ℕ) (priority : F.Float)
      → Taken m slot
      → find key m.cached ≡ none
      → Inv (enter F m key slot bytes priority)
  unfolding enter
  enter-Inv m key slot bytes priority t n = record {
    distinct = assign-Distinct key _ m.cached t.distinct;
    keyed = AllEntries-assign (λ k c. c.key ≡ k) key _ m.cached t.keyed refl;
    slots =
        λ s. omega (arith, t.slots s, sum_of-assign (λ _ c. indicator s c.slot) key _ m.cached n);
    some_slot = t.some_slot;
  }

  pub used-Inv :
      (m : SlotManager F) (key : ExpertKey) (ce : CachedExpert F)
      → Inv m
      → find key m.cached ≡ some ce
      → Inv (used F m key ce)
  used-Inv m key ce inv e = record {
    distinct = assign-Distinct key _ m.cached inv.distinct;
    keyed =
        AllEntries-assign (λ k c. c.key ≡ k) key _ m.cached inv.keyed
          (AllEntries-find (λ k c. c.key ≡ k) key ce m.cached inv.keyed e);
    slots = λ s. omega (
      arith,
      inv.slots s,
      sum_of-reassign (λ _ c. indicator s c.slot) key _ ce m.cached e (λ _. refl),
    );
    some_slot = inv.some_slot;
  }

  take_slot-free :
      (m : SlotManager F) (slot : ℕ) (rest : List ℕ)
      → m.free_list ≡ slot ∷ rest
      → take_slot F m ≡ ok (slot, record m { free_list = rest })
  unfolding take_slot
  take_slot-free m slot rest e = rw e refl

  evict_victim-ok :
      (m : SlotManager F) (v : CachedExpert F)
      → victim_of F m.cached none ≡ some v
      → evict_victim F m
        ≡ ok (v.slot, record m { cached = erase v.key m.cached; last_evicted = some v.key })
  unfolding evict_victim
  evict_victim-ok m v chosen = rw (chosen, evict_victim) refl

  take_slot-evict :
      (m : SlotManager F) (v : CachedExpert F)
      → m.free_list ≡ []
      → victim_of F m.cached none ≡ some v
      → take_slot F m
        ≡ ok (v.slot, record m { cached = erase v.key m.cached; last_evicted = some v.key })
  unfolding take_slot
  take_slot-evict m v e chosen = ground (arith, e, evict_victim-ok m v chosen)

  never_both_empty : (m : SlotManager F) → Inv m → m.free_list ≡ [] → m.cached ≡ [] → ⊥
  unfolding count sum_of
  never_both_empty m inv e c =
      ground (arith, inv.slots 0, inv.some_slot, ap (count 0) e, ap (holders 0) c)

  -- `j` was evicted: no slot was free, and it came after no other expert.
  pub record Displaced (m : SlotManager F) (j : ExpertKey) : Type 0 where
    pub full : m.free_list ≡ []
    pub loser : CachedExpert F
    pub found : find j m.cached ≡ some loser
    pub least : AllEntries (λ _ c. NotAfter F loser c) m.cached

  -- A slot taken for a missing expert: an expert leaves the map only if no slot was free, and
  -- then it is the victim.
  pub record Took (m : SlotManager F) : Type 0 where
    pub slot : ℕ
    pub left : SlotManager F
    pub takes : take_slot F m ≡ ok (slot, left)
    pub taken : Taken left slot
    pub arena_same : left.arena ≡ m.arena
    pub bytes_same : left.slot_bytes ≡ m.slot_bytes
    pub others :
        (j : ExpertKey)
        → (find j left.cached ≡ find j m.cached) ⊎ ((find j left.cached ≡ none) × Displaced m j)

  -- A slot can be taken whether or not one is free: a full cache has an expert to evict.
  pub take_slot-Took : (m : SlotManager F) → Inv m → Took m
  take_slot-Took m inv = elim (list_cases m.free_list) [
    | inr (slot, rest, e) ↦ record {
      slot = slot;
      left = record m { free_list = rest };
      takes = take_slot-free m slot rest e;
      taken = free-Taken m slot rest inv e;
      arena_same = refl;
      bytes_same = refl;
      others = λ j. inl refl;
    }
    | inl e ↦ elim (Option-cases (victim_of F m.cached none)) [
      | inl n ↦ absurd (never_both_empty m inv e (victim_of-none F m.cached n))
      | inr (v, chosen) ↦
          let best : IsVictim F v m.cached =
            victim_of-IsVictim F m.cached v inv.distinct inv.keyed chosen in
          record {
            slot = v.slot;
            left = record m { cached = erase v.key m.cached; last_evicted = some v.key };
            takes = take_slot-evict m v e chosen;
            taken = victim-Taken m v inv best.found;
            arena_same = refl;
            bytes_same = refl;
            others = λ j. elim (Bool-cases (key_eq.beq v.key j)) [
              | inr other ↦ inl (ground (arith, find-erase v.key j m.cached, other))
              | inl mine ↦ inr (
                ground (arith, find-erase v.key j m.cached, mine),
                record {
                  full = e;
                  loser = v;
                  found =
                      subst (λ k. find k m.cached ≡ some v) ((key_beq_iff v.key j).0 mine)
                        best.found;
                  least = best.least;
                },
              )
            ];
          }
    ]
  ]
