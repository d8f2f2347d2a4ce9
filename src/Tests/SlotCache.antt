-- ===== src/Tests/SlotCache.antt =====
-- Runs of the model of dee.cpp/src/vram_cache_manager.cpp on concrete inputs, and the theorems at
-- such inputs.
use dee.Prelude.{
  range_from, ℕ, ◌+◌, ◌^◌, ◌*◌, ◌≤◌, ◌≡◌, ◌⊎◌, refl, false, none, some, List, [], ◌∷◌, arith, ltb,
  ◌==◌, ap,
}
use dee.Map.{find, assign, erase}
use dee.Keys.{ExpertKey, key_eq}
use dee.SlotCache
use dee.SlotCache.{
  Floats, CachedExpert, SlotManager, AcquireResult, Result, ok, construct, slot_ptr,
}
use dee.SlotCache.Run
use dee.SlotCache.Run.{Call, run, run-Inv, run_disjoint}
use dee.SlotCache.Slots.{Inv, Displaced, construct-Inv}
use dee.SlotCache.Acquire.{Answered, acquire-Answered, acquire_others}

slot_program : Unit {0}
unfolding find assign erase range_from SlotCache.construct SlotCache.slot_ptr SlotCache.goes_first
    SlotCache.victim_of SlotCache.evict_victim SlotCache.take_slot SlotCache.enter SlotCache.acquire
    SlotCache.contains SlotCache.ptr_of SlotCache.slot_of SlotCache.touch SlotCache.cached_keys
    SlotCache.info Run.step Run.run
slot_program = tt

-- Priorities 0, 1, 2, … stand for the floats.
abbrev whole_numbers : Floats
whole_numbers = record {
  Float = ℕ;
  less = ltb;
  equal = λ a b. a == b;
  rank = λ a. a;
  less_rank = λ a b. refl;
  equal_rank = λ a b. refl;
}

abbrev expert : ℕ → ExpertKey
expert e = record { layer = 0; expert = e }

-- The Oracle prefers the experts with a high number.
abbrev oracle : ExpertKey → ℕ
oracle key = key.expert

abbrev new_cache : SlotManager whole_numbers
new_cache = record {
  slot_bytes = 64;
  num_slots = 2;
  arena = 4096;
  free_list = 0 ∷ 1 ∷ [];
  cached = [];
  clock = 0;
  last_evicted = none;
}

two_slots : construct whole_numbers (λ n. 4096) 64 2 ≡ ok new_cache
unfolding slot_program
two_slots = refl

-- Two experts fill the cache, and a third takes the slot of the one that is less wanted.
abbrev calls : List Call
calls =
    Call.acquires (expert 1) 64
    ∷ Call.acquires (expert 2) 64
    ∷ Call.touches (expert 1)
    ∷ Call.acquires (expert 3) 64
    ∷ []

abbrev after_calls : SlotManager whole_numbers
after_calls = run whole_numbers oracle new_cache calls

kept : SlotCache.cached_keys whole_numbers after_calls.cached ≡ expert 2 ∷ expert 3 ∷ []
unfolding slot_program
kept = refl

evicted : after_calls.last_evicted ≡ some (expert 1)
unfolding slot_program
evicted = refl

abbrev cached_expert : ℕ → ℕ → ℕ → CachedExpert whole_numbers
cached_expert e slot last_used = record {
  key = expert e;
  slot = slot;
  bytes = 64;
  last_used = last_used;
  priority = e;
}

run_disjoint_example :
    ((slot_ptr whole_numbers after_calls 1 + after_calls.slot_bytes
        ≤ slot_ptr whole_numbers after_calls 0)
      ⊎ (slot_ptr whole_numbers after_calls 0 + after_calls.slot_bytes
          ≤ slot_ptr whole_numbers after_calls 1))
    × (slot_ptr whole_numbers after_calls 1 + after_calls.slot_bytes
        ≤ after_calls.arena + after_calls.num_slots * after_calls.slot_bytes)
unfolding slot_program
run_disjoint_example =
    run_disjoint whole_numbers oracle (λ n. 4096) 64 2 new_cache calls (expert 2) (expert 3)
      (cached_expert 2 1 2) (cached_expert 3 0 4) two_slots
      (λ e. absurd (omega (arith, ap (λ k. k.expert) e))) refl refl (omega arith)

abbrev new_inv : Inv whole_numbers new_cache
new_inv = construct-Inv whole_numbers (λ n. 4096) 64 2 new_cache two_slots

acquire-Answered_example :
    Answered whole_numbers new_cache
      (expert 7)
      (SlotCache.acquire whole_numbers oracle new_cache (expert 7) 48)
acquire-Answered_example =
    acquire-Answered whole_numbers oracle new_cache (expert 7) 48 new_inv (omega arith)

abbrev two_cached : SlotManager whole_numbers
two_cached =
    run whole_numbers oracle new_cache
      (Call.acquires (expert 1) 64 ∷ Call.acquires (expert 2) 64 ∷ [])

abbrev third : SlotManager whole_numbers
third = run whole_numbers oracle two_cached (Call.acquires (expert 3) 64 ∷ [])

acquire_others_example :
    (find (expert 1) third.cached ≡ find (expert 1) two_cached.cached)
    ⊎ ((find (expert 1) third.cached ≡ none) × Displaced whole_numbers two_cached (expert 1))
unfolding slot_program
acquire_others_example =
    acquire_others whole_numbers oracle two_cached third (expert 3) (expert 1) 64
      (record { ptr = 4096; slot = 0; hit = false })
      (run-Inv whole_numbers oracle new_cache
        (Call.acquires (expert 1) 64 ∷ Call.acquires (expert 2) 64 ∷ []) new_inv)
      (λ e. absurd (omega (arith, ap (λ k. k.expert) e))) refl

-- Four slots of 2 ^ 63 bytes: the size of the arena wraps to 0, and two slots have one address.
abbrev huge : SlotManager whole_numbers
huge = record new_cache { slot_bytes = 2 ^ 63; num_slots = 4; free_list = 0 ∷ 1 ∷ 2 ∷ 3 ∷ [] }

huge_made : construct whole_numbers (λ n. 4096) (2 ^ 63) 4 ≡ ok huge
unfolding slot_program
huge_made = refl

shared_address : slot_ptr whole_numbers huge 2 ≡ slot_ptr whole_numbers huge 0
unfolding slot_program
shared_address = refl
