-- ===== src/Cache.antt =====
-- The expert cache of dee.cpp/src/vram_cache.cpp, `class VramCacheManager` of
-- dee.cpp/include/dee/vram_cache.h: which experts lie in the arena, and which one is evicted to
-- make room. Ticks and counters are 64 bits wide there and do not wrap here; a priority is at
-- least 0, as the header asks.
pub mod Victim
pub mod Invariant
pub mod Evict
pub mod Ensure
pub mod Answer
pub mod Run
pub mod Layout
pub mod Refines
pub mod Uniform
use dee.Prelude.{
  ℕ, zero, suc, ◌+◌, ◌*◌, ◌^◌, ◌≡◌, refl, Bool, true, false, not, ◌&&◌, Option, none, some, List,
  [], ◌∷◌, ltb, if◌then◌else◌, length,
}
use dee.Map.{Map, find, assign, erase}
use dee.Keys.{ExpertKey, key_eq}
use dee.Arena.{Arena, Backend, alloc, free, free_space}
use dee.Arena

-- `ptr` is 0 for a null pointer.
pub record ExpertBlock : Type 0 where
  pub key : ExpertKey
  pub ptr : ℕ
  pub offset : ℕ
  pub size : ℕ
  pub last_used : ℕ
  pub priority : ℕ
  pub resident : Bool

pub record Stats : Type 0 where
  pub ensures : ℕ
  pub hits : ℕ
  pub loads : ℕ
  pub evictions : ℕ
  pub fallbacks : ℕ

pub record VramCacheManager : Type 0 where
  pub arena : Arena
  pub blocks : Map ExpertKey ExpertBlock
  pub tick : ℕ
  pub stats : Stats

abbrev pub priority_weight : ℕ
priority_weight = 2 ^ 20

unfoldable pub eviction_score : ExpertBlock → ℕ
eviction_score b = b.last_used + b.priority * priority_weight

unfoldable pub init : VramCacheManager → ℕ → Backend → Bool × VramCacheManager
init m budget_bytes be =
    let (done, a) = Arena.init m.arena budget_bytes be in (done, record m { arena = a })

unfoldable pub find_block : VramCacheManager → ℕ → ℕ → Option ExpertBlock
find_block m layer expert = find (record { layer = layer; expert = expert }) m.blocks

-- The loop of `evict_until_free` that looks for the lowest score; `victim` is `none` while `first`.
unfoldable pub lowest : Map ExpertKey ExpertBlock → Option ExpertBlock → Option ExpertBlock
unfolding eviction_score
lowest [] victim = victim
lowest ((_, b) ∷ bs) victim = lowest bs (
    if b.resident
    then elim victim [
      | none ↦ some b
      | some v ↦ if ltb (eviction_score b) (eviction_score v) then some b else some v
    ]
    else victim)

-- The rest of a round: the victim's space is freed, and its entry erased.
unfoldable pub evict : VramCacheManager → ExpertBlock → VramCacheManager
evict m v = record m {
  arena = free m.arena v.offset v.size;
  blocks = erase v.key m.blocks;
  stats = record s { evictions = s.evictions + 1 };
}
  where
    open m use {stats as s}

unfoldable pub is_empty : Map ExpertKey ExpertBlock → Bool
is_empty [] = true
is_empty (_ ∷ bs) = false

-- The rounds of `evict_until_free`, on fuel.
unfoldable pub evict_rounds : ℕ → VramCacheManager → ℕ → VramCacheManager
evict_rounds zero m need = m
evict_rounds (suc f) m need = elim (ltb (free_space m.arena) need && not (is_empty m.blocks)) [
  | false ↦ m
  | true ↦ elim (lowest m.blocks none) [ none ↦ m | some v ↦ evict_rounds f (evict m v) need ]
]

-- Each round erases an entry, so that their number is fuel enough.
unfoldable pub evict_until_free : VramCacheManager → ℕ → VramCacheManager
evict_until_free m need = evict_rounds (length m.blocks) m need

abbrev pub new_block : ℕ → ExpertKey → ℕ → ℕ → ℕ → ℕ → ExpertBlock
new_block base key off nbytes last_used priority = record {
  key = key;
  ptr = base + off;
  offset = off;
  size = nbytes;
  last_used = last_used;
  priority = priority;
  resident = true;
}

-- The part of `ensure` behind the eviction: a block that fits becomes resident.
unfoldable pub load : VramCacheManager → ExpertKey → ℕ → ℕ → Bool × VramCacheManager
load m key nbytes priority = elim (alloc m.arena nbytes).0 [
  | none ↦ (false, record m { arena = (alloc m.arena nbytes).1 })
  | some off ↦ (
    true,
    record m {
      arena = (alloc m.arena nbytes).1;
      blocks = assign key (new_block m.arena.base key off nbytes (m.tick + 1) priority) m.blocks;
      tick = m.tick + 1;
      stats = record s { loads = s.loads + 1 };
    },
  )
]
  where
    open m use {stats as s}

-- The part of `ensure` for a block that is resident already.
unfoldable pub hit : VramCacheManager → ExpertKey → ExpertBlock → ℕ → VramCacheManager
hit m key b priority = record m {
  blocks = assign key (record b { last_used = m.tick + 1; priority = priority }) m.blocks;
  tick = m.tick + 1;
  stats = record s { hits = s.hits + 1 };
}
  where
    open m use {stats as s}

-- `++stats_.ensures`
abbrev pub called : VramCacheManager → VramCacheManager
called m = record m { stats = record (m.stats) { ensures = m.stats.ensures + 1 } }

unfoldable pub ensure : VramCacheManager → ℕ → ℕ → ℕ → ℕ → Bool × VramCacheManager
ensure m layer expert nbytes priority =
    let key : ExpertKey = record { layer = layer; expert = expert } in
    elim (find_block (called m) layer expert) [
      | none ↦ load (evict_until_free (called m) nbytes) key nbytes priority
      | some b ↦
          if b.resident
          then (true, hit (called m) key b priority)
          else load (evict_until_free (called m) nbytes) key nbytes priority
    ]

unfoldable pub touch : VramCacheManager → ℕ → ℕ → VramCacheManager
touch m layer expert = elim (find_block m layer expert) [
  | none ↦ m
  | some b ↦
      if b.resident
      then record m {
        blocks =
            assign (record { layer = layer; expert = expert }) (record b { last_used = m.tick + 1 })
              m.blocks;
        tick = m.tick + 1;
      }
      else m
]

unfoldable pub is_resident : VramCacheManager → ℕ → ℕ → Bool
is_resident m layer expert = elim (find_block m layer expert) [ none ↦ false | some b ↦ b.resident ]

-- 0 for a null pointer.
unfoldable pub data_of : VramCacheManager → ℕ → ℕ → ℕ
data_of m layer expert = elim (find_block m layer expert) [
  | none ↦ 0
  | some b ↦ if b.resident then b.ptr else 0
]

unfoldable pub size_of : VramCacheManager → ℕ → ℕ → ℕ
size_of m layer expert = elim (find_block m layer expert) [
  | none ↦ 0
  | some b ↦ if b.resident then b.size else 0
]

unfoldable pub sync_fallback : VramCacheManager → ℕ → ℕ → ℕ → ℕ → Bool × VramCacheManager
sync_fallback m layer expert nbytes priority =
    if is_resident m layer expert
    then (true, m)
    else ensure (record m { stats = record s { fallbacks = s.fallbacks + 1 } }) layer expert nbytes
        priority
  where
    open m use {stats as s}

-- The loop of `clear`.
unfoldable pub free_all : Arena → Map ExpertKey ExpertBlock → Arena
free_all a [] = a
free_all a ((_, b) ∷ bs) = free_all (if b.resident then free a b.offset b.size else a) bs

unfoldable pub clear : VramCacheManager → VramCacheManager
clear m = record m { arena = free_all m.arena m.blocks; blocks = []; tick = 0 }

unfoldable pub resident_count : Map ExpertKey ExpertBlock → ℕ
resident_count [] = 0
resident_count ((_, b) ∷ bs) = (if b.resident then 1 else 0) + resident_count bs
