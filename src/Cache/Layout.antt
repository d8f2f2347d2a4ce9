-- ===== src/Cache/Layout.antt =====
-- Where the resident experts of dee.cpp/src/vram_cache.cpp lie in the arena.
use dee.Prelude.{ℕ, ◌+◌, ◌<◌, ◌≤◌, ◌≡◌, ◌≢◌, ◌∙◌, ◌⊎◌, inl, inr, false, some, arith, Bool-cases}
use dee.Map.{find, erase}
use dee.Map.Laws.{find-erase, erase-Distinct}
use dee.Keys.{ExpertKey, key_eq, key_beq_iff}
use dee.Arena.Cover.{inside}
use dee.Arena.Invariant.{inside-le, lent_bounds}
use dee.Cache.{ExpertBlock, VramCacheManager}
use dee.Cache.Invariant.{Inv, span, spans, Inv-split, cover-spans_split, IsEntry-find}

-- A resident block lies inside the budget.
pub block_bounds :
    (m : VramCacheManager) (k : ExpertKey) (b : ExpertBlock)
    → Inv m
    → find k m.blocks ≡ some b
    → (b.ptr ≡ m.arena.base + b.offset) × (b.offset + b.size ≤ m.arena.cap)
block_bounds m k b v e =
    let split = Inv-split m.arena k b m.blocks v.distinct e v.lent in
    let top =
      lent_bounds m.arena (span b) (spans (erase k m.blocks)) (IsEntry-find m k b v e).some_bytes
        split in
    ((IsEntry-find m k b v e).placed, omega (arith, top, v.lent.fits))

-- Two experts never share a byte.
pub blocks_disjoint :
    (m : VramCacheManager) (k j : ExpertKey) (b c : ExpertBlock)
    → Inv m
    → k ≢ j
    → find k m.blocks ≡ some b
    → find j m.blocks ≡ some c
    → (b.offset + b.size ≤ c.offset) ⊎ (c.offset + c.size ≤ b.offset)
unfolding inside
blocks_disjoint m k j b c v ne p q = ground (arith, once b.offset, once c.offset, sizes)
  where
    miss : key_eq.beq k j ≡ false
    miss = elim (Bool-cases (key_eq.beq k j)) [
      | inl same ↦ absurd (ne ((key_beq_iff k j).0 same))
      | inr other ↦ other
    ]

    once : (x : ℕ) → inside b.offset b.size x + inside c.offset c.size x ≤ 1
    once x = omega (
      arith,
      v.lent.covers x,
      cover-spans_split k b m.blocks x v.distinct p,
      cover-spans_split j c (erase k m.blocks) x (erase-Distinct k m.blocks v.distinct)
          (find-erase k j m.blocks ∙ (rw miss q)),
      inside-le 0 m.arena.high x,
    )

    sizes : (0 < b.size) × (0 < c.size)
    sizes = ((IsEntry-find m k b v p).some_bytes, (IsEntry-find m j c v q).some_bytes)
