-- ===== src/Tests.antt =====
-- Runs of the models of dee.cpp/src/vram_cache.cpp and dee.cpp/src/async_prefetcher.cpp on concrete
-- inputs, and the theorems at such inputs.
mod SlotCache
mod Json
mod Weights
mod Checkpoint
mod Engine
mod Staging
mod Generator
mod Oracle
mod Kernels
mod Device
mod Half
mod Bench
use dee.Prelude.{
  ℕ, ◌+◌, ◌%◌, ◌≤◌, ◌<◌, ◌≡◌, ◌↔◌, ◌⊎◌, refl, inr, true, false, none, some, List, [], ◌∷◌, ap,
  arith, All,
}
use dee.Map.{find, assign, erase}
use dee.Keys.{ExpertKey, key_eq}
use dee.Arena
use dee.Arena.{Arena, Hole, Backend}
use dee.Arena.Invariant.{IsTiled, init-IsTiled, alloc-IsTiled, free-IsTiled, alloc-none}
use dee.Arena.Drained.{alloc-none_drained}
use dee.Cache
use dee.Cache.{VramCacheManager, ExpertBlock}
use dee.Cache.Invariant.{Inv, spans}
use dee.Cache.Ensure.{key_of}
use dee.Cache.Run
use dee.Cache.Run.{Call, new_manager, IsSized, run-init-Inv}
use dee.Cache.Refines.{Runs, answers, residency, run-init-Runs}
use dee.Cache.Layout.{blocks_disjoint}
use dee.Cache.Answer.{Holds, IsFresh, ensure_answer, ensure_others}
use dee.Cache.Uniform.{IsRegular, ensure-IsRegular}
use dee.Prefetch
use dee.Prefetch.{Memory, AsyncPrefetcher, new_prefetcher, new_transfer}
use dee.Prefetch.Queue
use dee.Prefetch.Issued.{
  Loader, Request, new_loader, prefetches, calls, serve, serve_all, issued, has, wait-issued,
}
use dee.Prefetch.Content.{IsReady, prefetch-wait}
use dee.Cache.Evict.{Ends, evict_until_free-Ends, evict_until_free_order}

unfoldable pub program : Unit {0}
unfolding find assign erase Arena.init Arena.first_fit Arena.alloc Arena.insert_hole
    Arena.merge_from Arena.coalesce Arena.free Arena.free_space Cache.init Cache.eviction_score
    Cache.find_block Cache.lowest Cache.evict Cache.is_empty Cache.evict_rounds
    Cache.evict_until_free Cache.load Cache.hit Cache.ensure Cache.touch Cache.is_resident
    Cache.data_of Cache.size_of Cache.sync_fallback Cache.free_all Cache.clear Cache.resident_count
    Cache.Run.step Cache.Run.run Prefetch.reset Prefetch.find_inflight Prefetch.submit
    Prefetch.prefetch Prefetch.copy Prefetch.is_pending Prefetch.drain Prefetch.done_at
    Prefetch.wait Prefetch.synchronize_all Queue.step Queue.run spans
program = tt

-- A backend whose regions begin at 4096.
abbrev pub backend : Backend
backend = record { alloc_region = some (λ n. 4096) }

abbrev four_blocks : VramCacheManager
four_blocks = (Cache.init new_manager 1024 backend).1

-- dee.cpp/tests/test_vram_cache.cpp: four experts fill the budget, and a fifth evicts the oldest.
abbrev five_loads : List Call
five_loads =
    Call.ensures 0 0 256 0
    ∷ Call.ensures 0 1 256 0
    ∷ Call.ensures 0 2 256 0
    ∷ Call.ensures 0 3 256 0
    ∷ Call.ensures 0 4 256 0
    ∷ []

abbrev pub full : VramCacheManager
full = Cache.Run.run four_blocks five_loads

oldest_evicted :
    (Cache.is_resident full 0 0 ≡ false)
    × (Cache.is_resident full 0 4 ≡ true)
    × (full.stats.evictions ≡ 1)
    × (Cache.resident_count full.blocks ≡ 4)
    × (full.arena.used ≡ 1024)
unfolding program
oldest_evicted = (refl, refl, refl, refl, refl)

five-IsSized : All IsSized five_loads
five-IsSized = omega arith

full-Inv : Inv full
unfolding program
full-Inv = run-init-Inv 1024 backend five_loads (omega arith) refl five-IsSized

run-init-Inv_example : Inv (Cache.Run.run (Cache.init new_manager 1024 backend).1 five_loads)
unfolding program
run-init-Inv_example = run-init-Inv 1024 backend five_loads (omega arith) refl five-IsSized

run-init-Runs_example :
    Runs
      (answers (Cache.init new_manager 1024 backend).1 five_loads)
      (λ k. none)
      (residency (Cache.Run.run (Cache.init new_manager 1024 backend).1 five_loads))
unfolding program
run-init-Runs_example = run-init-Runs 1024 backend five_loads (omega arith) refl five-IsSized

block_of : ℕ → ℕ → ℕ → ℕ → ExpertBlock
block_of expert offset last_used priority = record {
  key = key_of 0 expert;
  ptr = 4096 + offset;
  offset = offset;
  size = 256;
  last_used = last_used;
  priority = priority;
  resident = true;
}

-- A second eviction: expert 1 is the oldest now, and expert 4 the newest.
evict_until_free-Ends_example : Ends 256 (Cache.evict_until_free full 256)
evict_until_free-Ends_example = evict_until_free-Ends full 256 full-Inv

evict_until_free_order_example :
    Cache.eviction_score (block_of 1 256 2 0) ≤ Cache.eviction_score (block_of 4 0 5 0)
unfolding program block_of
evict_until_free_order_example =
    evict_until_free_order full 256 (key_of 0 1) (key_of 0 4) (block_of 1 256 2 0)
      (block_of 4 0 5 0) full-Inv refl refl refl

abbrev asks : ExpertKey
asks = key_of 0 9

-- A sixth expert evicts expert 1 and takes its place.
ensure_answer_example :
    (((Cache.ensure full 0 9 256 7).0 ≡ true)
      × (Cache.is_resident (Cache.ensure full 0 9 256 7).1 0 9 ≡ true)
      × (b : ExpertBlock) × Holds (Cache.ensure full 0 9 256 7).1 asks (some b)
      × IsFresh full 256 7 (find asks full.blocks) b)
    ⊎ (((Cache.ensure full 0 9 256 7).0 ≡ false)
        × (Cache.is_resident (Cache.ensure full 0 9 256 7).1 0 9 ≡ false)
        × Holds (Cache.ensure full 0 9 256 7).1 asks none
        × (find asks full.blocks ≡ none))
ensure_answer_example = ensure_answer full 0 9 256 7 full-Inv

full-IsRegular : IsRegular 256 full
unfolding program
full-IsRegular = record {
  cut = record { high_multiple = (4, refl); hole_multiples = tt };
  sized = (refl, (refl, (refl, (refl, tt))));
}

ensure-IsRegular_example :
    ((Cache.ensure full 0 9 256 7).0 ≡ true) × IsRegular 256 (Cache.ensure full 0 9 256 7).1
ensure-IsRegular_example =
    ensure-IsRegular 256 full 0 9 7 (omega arith) (unfold program in omega arith) full-Inv
      full-IsRegular

abbrev region : Arena
region = (Arena.init new_manager.arena 100 backend).1

region-IsTiled : IsTiled region []
unfolding program
region-IsTiled = init-IsTiled new_manager.arena 100 backend (omega arith) refl

abbrev hole : ℕ → ℕ → Hole
hole off size = record { off = off; size = size }

alloc-IsTiled_example : IsTiled (Arena.alloc region 60).1 (hole 0 60 ∷ [])
unfolding program
alloc-IsTiled_example = alloc-IsTiled region [] 60 (omega arith) region-IsTiled refl

free-IsTiled_example : IsTiled (Arena.free (Arena.alloc region 60).1 0 60) []
unfolding program
free-IsTiled_example =
    free-IsTiled (Arena.alloc region 60).1 (hole 0 60) [] (omega arith)
      (alloc-IsTiled region [] 60 (omega arith) region-IsTiled refl)

abbrev half_full : Arena
half_full = (Arena.alloc region 60).1

-- One block of 60 was lent and came back: 100 bytes are free, and 70 cannot be had.
abbrev drained : Arena
drained = Arena.free half_full 0 60

alloc-none_drained_example :
    (Arena.free_space drained ≡ drained.cap)
    × ((Arena.alloc drained 70).0 ≡ none ↔ (drained.high < 70) × (drained.cap < drained.high + 70))
unfolding program
alloc-none_drained_example =
    alloc-none_drained drained 70
      (free-IsTiled half_full (hole 0 60) [] (omega arith)
        (alloc-IsTiled region [] 60 (omega arith) region-IsTiled refl))
      (omega arith) (omega arith)

refused : (Arena.alloc drained 70).0 ≡ none
unfolding program
refused = refl

-- The experts' host buffers begin at 100000.
abbrev pub bytes_of : Memory
bytes_of x = x % 256

pub full-IsReady : IsReady 256 full new_prefetcher
unfolding program
full-IsReady = record {
  cache_sound = full-Inv;
  regular = full-IsRegular;
  some_bytes = omega arith;
  fits = omega arith;
  mapped = omega arith;
  host = refl;
  inside_arena = tt;
}

prefetch-wait_example :
    let r = Prefetch.prefetch full new_prefetcher 0 9 100_000 256 7 in
    (r.0 ≡ some 0)
    × IsReady 256 r.1 r.2
    × ((Prefetch.wait r.2 bytes_of 0 9).0 ≡ true)
    × ((Prefetch.wait r.2 bytes_of 0 9).2 (Cache.data_of r.1 0 9 + 17) ≡ bytes_of 100_017)
unfolding program
prefetch-wait_example =
    prefetch-wait 256 full new_prefetcher 0 9 100_000 7 bytes_of 17 full-IsReady (omega arith)
      (inr (omega arith)) (omega arith)

abbrev queue_calls : List Queue.Call
queue_calls =
    Queue.Call.prefetches full 0 9 100_000 256 7
    ∷ Queue.Call.waits 0 9
    ∷ Queue.Call.synchronizes
    ∷ []

-- Expert 9 is prefetched, and then five more loads evict it.
abbrev sent : AsyncPrefetcher
sent = (Prefetch.prefetch full new_prefetcher 0 9 100_000 256 0).2

abbrev requests : List Request
requests =
    prefetches 0 9 100_000 256 0
    ∷ calls (Call.ensures 0 5 256 0)
    ∷ calls (Call.ensures 0 6 256 0)
    ∷ calls (Call.ensures 0 7 256 0)
    ∷ calls (Call.ensures 0 8 256 0)
    ∷ []

abbrev moved_on : Loader
moved_on = serve_all (new_loader full bytes_of) requests

wait-issued_example :
    (Prefetch.wait moved_on.queue moved_on.memory 0 9).0
    ≡ has (record { layer = 0; expert = 9 }) (issued (new_loader full bytes_of) requests [])
wait-issued_example =
    wait-issued full bytes_of requests 0 9 ((omega arith, omega arith), (tt, (tt, (tt, (tt, tt)))))
      (omega arith)

-- The answer is true, and `data` null.
evicted_again :
    ((Prefetch.wait moved_on.queue moved_on.memory 0 9).0 ≡ true)
    × (Cache.data_of moved_on.cache 0 9 ≡ 0)
unfolding program serve serve_all
evicted_again = (refl, refl)
