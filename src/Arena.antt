-- ===== src/Arena.antt =====
-- The fixed VRAM region of `class Arena` (dee.cpp/include/dee/vram_cache.h and
-- dee.cpp/src/vram_cache.cpp): a bump pointer, and a first-fit list of holes that is kept sorted
-- by offset and coalesced. `none` stands for the `size_t(-1)` that `alloc` returns when it fails.
pub mod Cover
pub mod Invariant
pub mod Drained
pub mod Uniform
use mathlib.Core.Option
use dee.Prelude.{
  ℕ, ◌+◌, ◌-◌, ◌^◌, ◌<◌, ◌≡◌, refl, Bool, true, false, ◌||◌, Option, none, some, List, [], ◌∷◌, ltb,
  leb, ◌==◌, if◌then◌else◌, add_size, sub_size,
}

-- A free interval of the region.
pub record Hole : Type 0 where
  pub off : ℕ
  pub size : ℕ

-- What an arena asks of the memory below it: `alloc` gives an address, or 0 for a null pointer,
-- and may itself be missing.
pub record Backend : Type 0 where
  pub alloc_region : Option (ℕ → ℕ)

-- `base` is 0 while there is no region.
pub record Arena : Type 0 where
  pub base : ℕ
  pub cap : ℕ
  pub used : ℕ
  pub high : ℕ
  pub holes : List Hole

abbrev pub npos : ℕ
npos = 2 ^ 64 - 1

unfoldable pub init : Arena → ℕ → Backend → Bool × Arena
init a capacity be = if ltb 0 a.base then (false, a) else elim be.alloc_region [
  | none ↦ (false, record a { cap = capacity; used = 0; high = 0; holes = [] })
  | some get ↦ (
    ltb 0 (get capacity),
    record { base = get capacity; cap = capacity; used = 0; high = 0; holes = [] },
  )
]

-- Part 1 of `alloc`: the first hole that is large enough is taken whole, or shortened at its front.
unfoldable pub first_fit : ℕ → List Hole → Option (ℕ × List Hole)
first_fit bytes [] = none
first_fit bytes (h ∷ hs) =
    if leb bytes h.size
    then (if h.size == bytes
        then some (h.off, hs)
        else some (h.off, record { off = add_size h.off bytes; size = h.size - bytes } ∷ hs))
    else Option.map (λ r. (r.0, h ∷ r.1)) (first_fit bytes hs)

unfoldable pub alloc : Arena → ℕ → Option ℕ × Arena
alloc a bytes = if bytes == 0 then (none, a) else elim (first_fit bytes a.holes) [
  | some (off, hs) ↦ (some off, record a { used = add_size a.used bytes; holes = hs })
  | none ↦
      if leb (add_size a.high bytes) a.cap
      then (some a.high, record a { used = add_size a.used bytes; high = add_size a.high bytes })
      else (none, a)
]

-- The place that `lower_bound` finds in a sorted vector: before the first hole not below `h`.
unfoldable pub insert_hole : Hole → List Hole → List Hole
insert_hole h [] = h ∷ []
insert_hole h (g ∷ gs) = if ltb g.off h.off then g ∷ insert_hole h gs else h ∷ g ∷ gs

-- The loop of `coalesce`; `last` is `merged.back()`.
unfoldable pub merge_from : Hole → List Hole → List Hole
merge_from last [] = last ∷ []
merge_from last (h ∷ hs) = elim (add_size last.off last.size == h.off) [
  | true ↦ merge_from (record { off = last.off; size = add_size last.size h.size }) hs
  | false ↦ last ∷ merge_from h hs
]

unfoldable pub coalesce : List Hole → List Hole
coalesce [] = []
coalesce (h ∷ hs) = merge_from h hs

unfoldable pub free : Arena → ℕ → ℕ → Arena
free a offset bytes = if (offset == npos) || (bytes == 0) then a else record a {
  used = sub_size a.used bytes;
  holes = coalesce (insert_hole (record { off = offset; size = bytes }) a.holes);
}

unfoldable pub free_space : Arena → ℕ
free_space a = sub_size a.cap a.used
