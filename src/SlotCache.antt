-- ===== src/SlotCache.antt =====
-- The slot cache of dee.cpp/src/vram_cache_manager.cpp, `class VramCacheManager` of
-- dee.cpp/include/dee/vram_cache_manager.h: one arena of equal slots, a list of the free ones, and
-- eviction of the expert with the lowest Oracle priority, the least recently used on a tie.
-- The device and the Oracle are not under the repository's control: `device_malloc`, the Oracle's
-- `priority` and the order of `float` are parameters.
pub mod Victim
pub mod Slots
pub mod Acquire
pub mod Run
use dee.Prelude.{
  ℕ, zero, suc, ◌+◌, ◌-◌, ◌*◌, ◌%◌, ◌^◌, ◌<◌, ◌≡◌, Bool, true, false, ◌&&◌, ◌||◌, Option, none,
  some, List, [], ◌∷◌, ltb, ◌==◌, range_from, if◌then◌else◌,
}
use dee.Map.{Map, find, assign, erase}
use dee.Keys.{ExpertKey, key_eq}

-- `float` without NaN: comparison is that of a rank, since there are finitely many values in a
-- total order (and -0 equals 0).
pub record Floats : Type 1 where
  pub Float : Type 0
  pub less : Float → Float → Bool
  pub equal : Float → Float → Bool
  pub rank : Float → ℕ
  pub less_rank : (a b : Float) → less a b ≡ ltb (rank a) (rank b)
  pub equal_rank : (a b : Float) → equal a b ≡ (rank a == rank b)

pub data Error : Type 0 where
  num_slots_not_positive : Error
  slot_bytes_zero : Error
  bad_alloc : Error
  expert_bytes_exceeds_slot_bytes : Error
  -- A null pointer is dereferenced: `evict_victim` on an empty map.
  null_victim : Error

pub data Result {ℓ} (A : Type ℓ) : Type ℓ where
  ok : A → Result A
  throw : Error → Result A

module _ (F : Floats) where
  open F use {Float, less, equal}

  pub record CachedExpert : Type 0 where
    pub key : ExpertKey
    pub slot : ℕ
    pub bytes : ℕ
    pub last_used : ℕ
    pub priority : Float

  -- The head of `free_list` is the back of the vector.
  pub record SlotManager : Type 0 where
    pub slot_bytes : ℕ
    pub num_slots : ℕ
    pub arena : ℕ
    pub free_list : List ℕ
    pub cached : Map ExpertKey CachedExpert
    pub clock : ℕ
    pub last_evicted : Option ExpertKey

  pub record AcquireResult : Type 0 where
    pub ptr : ℕ
    pub slot : ℕ
    pub hit : Bool

  -- The constructor, with the device's `device_malloc`.
  unfoldable pub construct : (ℕ → ℕ) → ℕ → ℕ → Result SlotManager
  construct device_malloc slot_bytes num_slots =
      if num_slots == 0
      then throw num_slots_not_positive
      else if slot_bytes == 0
      then throw slot_bytes_zero
      else if device_malloc (slot_bytes * num_slots % 2 ^ 64) == 0
      then throw bad_alloc
      else ok (record {
        slot_bytes = slot_bytes;
        num_slots = num_slots;
        arena = device_malloc (slot_bytes * num_slots % 2 ^ 64);
        free_list = range_from num_slots 0;
        cached = [];
        clock = 0;
        last_evicted = none;
      })

  -- The product is one of `size_t`.
  unfoldable pub slot_ptr : SlotManager → ℕ → ℕ
  slot_ptr m slot = m.arena + slot * m.slot_bytes % 2 ^ 64

  -- The test of `evict_victim` for a new victim.
  unfoldable pub goes_first : CachedExpert → CachedExpert → Bool
  goes_first ce victim =
      less ce.priority victim.priority
      || (equal ce.priority victim.priority && ltb ce.last_used victim.last_used)

  -- The loop of `evict_victim`.
  unfoldable pub victim_of : Map ExpertKey CachedExpert → Option CachedExpert → Option CachedExpert
  unfolding goes_first
  victim_of [] victim = victim
  victim_of ((_, ce) ∷ cs) victim =
      victim_of cs
        (elim victim [ none ↦ some ce | some v ↦ if goes_first ce v then some ce else some v ])

  unfoldable pub evict_victim : SlotManager → Result (ℕ × SlotManager)
  evict_victim m = elim (victim_of m.cached none) [
    | none ↦ throw null_victim
    | some v ↦ ok (v.slot, record m { cached = erase v.key m.cached; last_evicted = some v.key })
  ]

  -- The slot that a missing expert gets.
  unfoldable pub take_slot : SlotManager → Result (ℕ × SlotManager)
  take_slot m = elim m.free_list [
    | [] ↦ evict_victim m
    | slot ∷ rest ↦ ok (slot, record m { free_list = rest })
  ]

  -- The end of `acquire`: the expert is entered with its slot.
  unfoldable pub enter : SlotManager → ExpertKey → ℕ → ℕ → Float → SlotManager
  enter m key slot expert_bytes priority = record m {
    cached =
        assign key
          (record {
            key = key;
            slot = slot;
            bytes = expert_bytes;
            last_used = m.clock + 1;
            priority = priority;
          })
          m.cached;
    clock = m.clock + 1;
  }

  abbrev pub used : SlotManager → ExpertKey → CachedExpert → SlotManager
  used m key ce = record m {
    cached = assign key (record ce { last_used = m.clock + 1 }) m.cached;
    clock = m.clock + 1;
  }

  -- `oracle_priority` is the Oracle's `priority`.
  unfoldable pub acquire :
      (ExpertKey → Float) → SlotManager → ExpertKey → ℕ → Result (AcquireResult × SlotManager)
  acquire oracle_priority m key expert_bytes =
      if ltb m.slot_bytes expert_bytes
      then throw expert_bytes_exceeds_slot_bytes
      else elim (find key m.cached) [
        | some ce ↦
            ok (record { ptr = slot_ptr m ce.slot; slot = ce.slot; hit = true }, used m key ce)
        | none ↦ elim (take_slot m) [
          | throw e ↦ throw e
          | ok (slot, m') ↦ ok (
            record { ptr = slot_ptr m slot; slot = slot; hit = false },
            enter m' key slot expert_bytes (oracle_priority key),
          )
        ]
      ]

  unfoldable pub contains : SlotManager → ExpertKey → Bool
  contains m key = elim (find key m.cached) [ none ↦ false | some _ ↦ true ]

  -- 0 for a null pointer.
  unfoldable pub ptr_of : SlotManager → ExpertKey → ℕ
  ptr_of m key = elim (find key m.cached) [ none ↦ 0 | some ce ↦ slot_ptr m ce.slot ]

  -- `none` for -1.
  unfoldable pub slot_of : SlotManager → ExpertKey → Option ℕ
  slot_of m key = elim (find key m.cached) [ none ↦ none | some ce ↦ some ce.slot ]

  unfoldable pub touch : SlotManager → ExpertKey → SlotManager
  touch m key = elim (find key m.cached) [ none ↦ m | some ce ↦ used m key ce ]

  unfoldable pub cached_keys : Map ExpertKey CachedExpert → List ExpertKey
  cached_keys [] = []
  cached_keys ((k, _) ∷ cs) = k ∷ cached_keys cs

  -- `none` for a null pointer.
  unfoldable pub info : SlotManager → ExpertKey → Option CachedExpert
  info m key = find key m.cached
