-- ===== src/Cache/Answer.antt =====
-- What `ensure` of dee.cpp/src/vram_cache.cpp answers, and what it leaves of the other experts.
use dee.Prelude.{
  ℕ, ◌+◌, ◌≡◌, ◌≢◌, refl, sym, ap, ◌∙◌, ◌⊎◌, inl, inr, Bool, true, false, Option, none, some, arith,
  Bool-cases, Option-cases, if◌then◌else◌,
}
use dee.Map.{find}
use dee.Map.Laws.{find-assign, beq_refl}
use dee.Keys.{ExpertKey, key_eq, key_beq_iff}
use dee.Arena.{alloc}
use dee.Arena.Invariant.{alloc_keeps}
use dee.Cache.{
  ExpertBlock, VramCacheManager, new_block, called, evict_until_free, load, hit, ensure,
  is_resident, data_of, find_block,
}
use dee.Cache.Invariant.{Inv, IsEntry-find}
use dee.Cache.Evict.{evict_until_free-Evicted}
use dee.Cache.Ensure.{key_of, ensure_cases, missing, recounted}

-- The block of an expert, as `find` gives it.
abbrev pub Holds : VramCacheManager → ExpertKey → Option ExpertBlock → Type 0
Holds m k o = find k m.blocks ≡ o

-- `load` enters a block under its key and touches no other, or changes nothing.
find-load :
    (m : VramCacheManager) (k j : ExpertKey) (nbytes priority : ℕ)
    → (((load m k nbytes priority).0 ≡ false)
        × Holds (load m k nbytes priority).1 j (find j m.blocks))
      ⊎ (((load m k nbytes priority).0 ≡ true)
          × (off : ℕ) × ((alloc m.arena nbytes).0 ≡ some off)
          × Holds (load m k nbytes priority).1 j (
              if key_eq.beq k j
              then some (new_block m.arena.base k off nbytes (m.tick + 1) priority)
              else find j m.blocks))
unfolding load
find-load m k j nbytes priority = elim (Option-cases (alloc m.arena nbytes).0) [
  | inl failed ↦ rw (failed, load) (inl (refl, refl))
  | inr (off, got) ↦ rw (got, load) (inr (refl, off, refl, find-assign k j _ m.blocks))
]

-- The block that `ensure` answers for: its bytes, its tick and its priority.
pub record IsFresh (m : VramCacheManager) (nbytes priority : ℕ) (old : Option ExpertBlock)
    (b : ExpertBlock) : Type 0 where
  pub resident : b.resident ≡ true
  pub used_now : b.last_used ≡ m.tick + 1
  pub prioritised : b.priority ≡ priority
  pub sized : b.size ≡ elim old [ none ↦ nbytes | some o ↦ o.size ]
  pub kept_place : (o : ExpertBlock) → old ≡ some o → b.ptr ≡ o.ptr

module _ (m : VramCacheManager) (layer expert nbytes priority : ℕ) where
  abbrev old : Option ExpertBlock
  old = find (key_of layer expert) m.blocks

  abbrev answer : Bool × VramCacheManager
  answer = ensure m layer expert nbytes priority

  is_resident-Holds :
      (m' : VramCacheManager) (b : ExpertBlock)
      → Holds m' (key_of layer expert) (some b)
      → b.resident ≡ true
      → is_resident m' layer expert ≡ true
  unfolding is_resident find_block
  is_resident-Holds m' b e held = rw (e, is_resident, find_block) held

  not_resident-Holds :
      (m' : VramCacheManager)
      → Holds m' (key_of layer expert) none
      → is_resident m' layer expert ≡ false
  unfolding is_resident find_block
  not_resident-Holds m' e = rw (e, is_resident, find_block) refl

  -- `ensure` answers true exactly if `is_resident` does so when it returns; then the expert's
  -- block has the tick and the priority of this call, and the bytes asked for if it had no block
  -- before, else its size and its place; and it answers false only if there was none.
  pub ensure_answer :
      Inv m
      → (((answer).0 ≡ true)
          × (is_resident (answer).1 layer expert ≡ true)
          × (b : ExpertBlock) × Holds (answer).1 (key_of layer expert) (some b)
          × IsFresh m nbytes priority old b)
        ⊎ (((answer).0 ≡ false)
            × (is_resident (answer).1 layer expert ≡ false)
            × Holds (answer).1 (key_of layer expert) none
            × (old ≡ none))
  unfolding hit
  ensure_answer v = elim (ensure_cases m layer expert nbytes priority v) [
    | inl (e, eq) ↦
        rw eq
          (elim (find-load (evict_until_free (called m) nbytes) (key_of layer expert)
            (key_of layer expert) nbytes priority) [
              | inl (failed, same) ↦
                  let gone =
                    same
                    ∙ missing (called m) nbytes (key_of layer expert)
                        (recounted m (called m).stats v) e in
                  inr (failed, not_resident-Holds _ gone, gone, e)
              | inr (done, off, _, found) ↦
                  let there = rw (beq_refl (key_of layer expert)) at found in
                  inl (
                    done,
                    is_resident-Holds _ _ there refl,
                    _,
                    there,
                    record {
                      resident = refl;
                      used_now =
                          ap (λ t. t + 1)
                            (evict_until_free-Evicted (called m) nbytes
                              (recounted m (called m).stats v)).tick_same;
                      prioritised = refl;
                      sized = rw e;
                      kept_place = λ o h. absurd (cc (sym e ∙ h));
                    },
                  )
            ])
    | inr (b, e, eq) ↦
        let held = (IsEntry-find m (key_of layer expert) b v e).held in
        let there =
          find-assign (key_of layer expert) (key_of layer expert)
            (record b { last_used = m.tick + 1; priority = priority }) m.blocks
          ∙ (rw (beq_refl (key_of layer expert))) in
        rw eq (
          inl (
            refl,
            is_resident-Holds _ _ there held,
            record b { last_used = m.tick + 1; priority = priority },
            there,
            record {
              resident = held;
              used_now = refl;
              prioritised = refl;
              sized = rw e;
              kept_place = λ o h. ap (λ x. elim x [ none ↦ 0 | some c ↦ c.ptr ]) (sym e ∙ h);
            },
          ))
  ]

  -- No other block is changed or made: a block found under another key was there before.
  pub ensure_others :
      (j : ExpertKey) (c : ExpertBlock)
      → Inv m
      → j ≢ key_of layer expert
      → Holds (answer).1 j (some c)
      → Holds m j (some c)
  unfolding hit
  ensure_others j c v ne h = elim (ensure_cases m layer expert nbytes priority v) [
    | inl (e, eq) ↦
        let w : Inv (called m) = recounted m (called m).stats v in
        let evicted = evict_until_free (called m) nbytes in
        (evict_until_free-Evicted (called m) nbytes w).kept j c
          (elim (find-load evicted (key_of layer expert) j nbytes priority) [
            | inl (_, same) ↦ sym same ∙ (rw eq at h)
            | inr (_, off, _, found) ↦ sym (rw miss at found) ∙ (rw eq at h)
          ])
    | inr (b, e, eq) ↦
        let used : ExpertBlock = record b { last_used = m.tick + 1; priority = priority } in
        sym (rw miss at (find-assign (key_of layer expert) j used m.blocks)) ∙ (rw eq at h)
  ]
    where
      miss : key_eq.beq (key_of layer expert) j ≡ false
      miss = elim (Bool-cases (key_eq.beq (key_of layer expert) j)) [
        | inl same ↦ absurd (ne (sym ((key_beq_iff (key_of layer expert) j).0 same)))
        | inr other ↦ other
      ]

-- The arena itself stays where it is.
pub ensure_region :
    (m : VramCacheManager) (layer expert nbytes priority : ℕ)
    → Inv m
    → ((ensure m layer expert nbytes priority).1.arena.base ≡ m.arena.base)
      × ((ensure m layer expert nbytes priority).1.arena.cap ≡ m.arena.cap)
unfolding load hit
ensure_region m layer expert nbytes priority v =
    elim (ensure_cases m layer expert nbytes priority v) [
      | inl (e, eq) ↦
          let a = (evict_until_free (called m) nbytes).arena in
          let evicted =
            evict_until_free-Evicted (called m) nbytes (recounted m (called m).stats v) in
          rw eq (ground (arith, alloc_keeps a nbytes, evicted.base_same, evicted.cap_same))
      | inr (b, e, eq) ↦ rw eq (refl, refl)
    ]

-- `data` is the address of the block.
pub data_of-Holds :
    (m : VramCacheManager) (layer expert : ℕ) (b : ExpertBlock)
    → Inv m
    → Holds m (key_of layer expert) (some b)
    → data_of m layer expert ≡ b.ptr
unfolding data_of find_block
data_of-Holds m layer expert b v e =
    rw (e, data_of, find_block) (ground (arith, (IsEntry-find m (key_of layer expert) b v e).held))

pub data_of-not_resident :
    (m : VramCacheManager) (layer expert : ℕ)
    → is_resident m layer expert ≡ false
    → data_of m layer expert ≡ 0
unfolding data_of is_resident find_block
data_of-not_resident m layer expert gone = ground arith
