-- ===== src/Arena/Drained.antt =====
-- The arena of dee.cpp/src/vram_cache.cpp once every block has come back. `free` never lowers the
-- high-water mark, so the space is split there for good.
use dee.Prelude.{
  ℕ, suc, ◌+◌, ◌<◌, ◌≡◌, refl, none, List, [], ◌∷◌, arith, ◌==◌, if◌then◌else◌, size_limit, ◌↔◌,
}
use dee.Arena.{Hole, Arena, alloc, free_space}
use dee.Arena.Cover.{inside, cover, total, Gapped}
use dee.Arena.Invariant.{IsTiled, alloc-none}

-- The one hole below the mark, if the mark has moved at all.
abbrev pub spanning : ℕ → List Hole
spanning high = if high == 0 then [] else record { off = 0; size = high } ∷ []

cover_below : (lo hi x : ℕ) (hs : List Hole) → Gapped lo hi hs → x < lo → cover x hs ≡ 0
unfolding cover inside
cover_below lo hi x [] g p = refl
cover_below lo hi x (h ∷ hs) g p = ground (arith, cover_below (suc (h.off + h.size)) hi x hs g.3)

spanning_of_cover :
    (hi : ℕ) (hs : List Hole)
    → Gapped 0 hi hs
    → ((x : ℕ) → cover x hs ≡ inside 0 hi x)
    → hs ≡ spanning hi
unfolding cover inside
spanning_of_cover hi [] g c = ground (arith, c 0)
spanning_of_cover hi (h ∷ []) g c = ground (arith, c 0, c h.size)
spanning_of_cover hi (h ∷ k ∷ hs) g c =
    ground
      (arith, c (h.off + h.size), cover_below (suc (k.off + k.size)) hi (h.off + h.size) hs g.3.3)

-- With nothing lent out the holes have merged into one that reaches up to the mark.
pub drained_holes : (a : Arena) → IsTiled a [] → a.holes ≡ spanning a.high
unfolding cover
drained_holes a v = spanning_of_cover a.high a.holes v.gapped (λ x. ground (arith, v.covers x))

pub free_space_drained : (a : Arena) → IsTiled a [] → free_space a ≡ a.cap
unfolding free_space total
free_space_drained a v = ground arith

-- Then the arena reports its whole capacity as free, and yet it refuses a request exactly if that
-- is larger than the space below the mark and larger than the space above it.
pub alloc-none_drained :
    (a : Arena) (bytes : ℕ)
    → IsTiled a []
    → 0 < bytes
    → bytes < size_limit
    → (free_space a ≡ a.cap)
      × ((alloc a bytes).0 ≡ none ↔ (a.high < bytes) × (a.cap < a.high + bytes))
alloc-none_drained a bytes v p m =
    ground (arith, free_space_drained a v, drained_holes a v, alloc-none a [] bytes m v)
