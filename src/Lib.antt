-- ===== src/Lib.antt =====
-- Models of dee.cpp, the Dynamic Expert Eviction engine: the cache that keeps experts of a
-- mixture-of-experts model in a fixed VRAM budget, and what streams their weights into it.
--
-- Parts, and how they interact. `Engine` (dee.cpp/src/engine.cpp) asks an Oracle which experts a
-- layer needs, and calls `AsyncPrefetcher::prefetch` for each. That reserves a block through
-- `VramCacheManager::ensure`, which evicts the blocks of lowest score until the `Arena` has room,
-- and queues a copy of the weights, which runs when `wait` comes to it. `Generator`
-- (dee.cpp/src/generation.cpp) is a second loop over tokens and layers, for the slot cache; its
-- prefetcher is not among the sources.
--
--   Prelude    names of the libraries, Boolean tests on numbers, lists with native lengths
--   Map        `std::unordered_map`; the order of the list is the order of iteration
--   Keys       `ExpertKey` (dee.cpp/include/dee/vram_cache.h)
--   Arena      `class Arena` (dee.cpp/src/vram_cache.cpp): `init`, `alloc`, `free`, `coalesce`,
--              `free_space`. `alloc` is `first_fit` and the bump pointer, `coalesce` the loop
--              `merge_from`. Cover, Invariant, Drained and Uniform prove its laws.
--   Cache      `class VramCacheManager` (dee.cpp/src/vram_cache.cpp): `ensure`, `touch`,
--              `sync_fallback`, `clear`, `evict_until_free` and the queries, one function for each.
--              Victim, Invariant, Evict, Ensure, Answer, Run, Layout and Uniform prove its laws, and
--              Refines has an abstract description that it implements.
--   Prefetch   `class AsyncPrefetcher` (dee.cpp/src/async_prefetcher.cpp), in a build without
--              DEE_CUDA. Drain, Queue, Issued, Content, Final, Stream, Steps, Counts and Fresh prove its
--              laws. Fewer than 2 ^ 31 transfers are queued between two resets.
--   SlotCache  `class VramCacheManager` (dee.cpp/src/vram_cache_manager.cpp), another cache: slots of
--              one size, evicted by Oracle priority. Victim, Slots, Acquire and Run prove its laws.
--   Device     `class MockCudaDevice` (dee.cpp/src/cuda_backend_mock.cpp): streams as queues of
--              copies, events as marks in them. Fifo and Sync prove its laws.
--   Half       `bf16_to_f32` and `f16_to_f32` (dee.cpp/src/weight_mmap.cpp), on bit patterns. The
--              loop on a subnormal has ten rounds of fuel, since its highest bit is among the lower
--              ten. Value says what the bits stand for, and Convert proves the conversion's laws.
--   Staging    `Engine::avail_layer` and `Engine::get_staging` (dee.cpp/src/engine.cpp): a blob of
--              floats from the bytes of a shard, converted by Half
--   Kernels    `expert_mlp` (dee.cpp/src/moe_forward.cpp) and `Engine::swiglu`
--              (dee.cpp/src/engine.cpp), over an abstract arithmetic of `float`
--   Oracle     `class OracleScheduler` (dee.cpp/src/oracle.cpp): `linear`, `forward`, `predict` and
--              `predict_next`; `std::sort` as an insertion sort
--   Generator  `class Generator` (dee.cpp/src/generation.cpp): `generate` and `run_layers`, with
--              `on_token_decoded` of dee.cpp/src/oracle_scheduler.cpp, over an abstract cache with its
--              prefetcher. Its decoding loop counts the steps left.
--   Bytes      byte sequences and the numbers in them, for the files that Checkpoint reads
--   Checkpoint `class PtLoader` (dee.cpp/src/pt_loader.cpp) and `OracleScheduler::load`
--              (dee.cpp/src/oracle.cpp): Pickle is `parse_pickle`, Zip `parse_zip`, `inflate_entry` and
--              `open`, Load the weights of the Oracle. zlib is a parameter, and so is the fuel for its
--              loop; the scan of a pickle has a round for each byte, and one, which is enough below
--              4 GiB (Ends). What C++ leaves undefined is a result of its own. Archive is a writer of
--              zip archives, of the model; Headers, Reading, Saved, Table, Loaded and RoundTrip follow
--              what is written to what is loaded, Inflate and Failures say what goes wrong.
--   Json       the JSON reader (dee.cpp/src/json_min.cpp, dee.cpp/include/dee/json_min.h) on lists of
--              bytes. A call costs a unit of fuel, and a call takes a byte or is the first member of
--              an array or object, so that twice the length and one is enough (Fuel). Print is a
--              printer, of the model, and RoundTrip what it is read back as.
--   Weights    `class WeightMmap` and `class TensorResolver` (dee.cpp/src/weight_mmap.cpp), with the
--              header read by Json. The operating system's answers are parameters, and its descriptors
--              and mappings are noted in a journal. Resolver is the search of the shards.
--              Entries says what a header describes, Lookup, Stored and Resolve what is found, Resources and
--              History what is held and what a failure leaves, Names how experts' tensors are called.
--   Engine     `class Engine` (dee.cpp/src/engine.cpp), in a build without DEE_CUDA, over all of these:
--              the layer and the loop over tokens, with Init for `init`. Feeding and Contents say what a
--              layer computes with, Starts when `init` succeeds and Ready what it leaves, Layers and Counts
--              what becomes of the layers' outputs and of the counts. The loops count what is left of them.
--   Bench      the stand-ins of the benchmark (dee.cpp/tools/dee_bench.cpp) for the Oracle, the router
--              and the sampler, with Ints for their `int` and `long`; Options is its command line, and
--              Synthetic its weights. Bounds and Supplies say what these draw and supply.
--   Tests      runs on concrete inputs, and the theorems at such inputs
--
-- Conventions. A number is a natural number. `size_t` sums and differences wrap at 2 ^ 64
-- (`add_size`, `sub_size`); sizes in hypotheses are below 2 ^ 63. An `int` that only names
-- something (a layer, an expert) is its 32-bit pattern. Ticks and 64-bit counters do not wrap, and
-- a priority is at least 0, as its header asks. A pointer is an address, 0 is the null pointer, and
-- memory is a function from addresses to bytes. The loop of `evict_until_free` runs on fuel, one
-- round for each entry, which suffices since a round erases an entry.
--
-- Not modelled: CUDA (dee.cpp/src/cuda_backend_cuda.cpp, dee.cpp/src/swiglu_cuda.cu), the system
-- calls on files and memory maps, zlib, dee.cpp/main.cpp, the timing, printing and embedder of the
-- benchmark, and third_party, which are calls of other libraries or pass data on; and what only a
-- CUDA build has of `Engine`.
pub mod Prelude
pub mod Map
pub mod Keys
pub mod Arena
pub mod Cache
pub mod Prefetch
pub mod Bench
pub mod Bytes
pub mod Checkpoint
pub mod Device
pub mod Engine
pub mod Generator
pub mod Half
pub mod Json
pub mod Kernels
pub mod Oracle
pub mod SlotCache
pub mod Staging
pub mod Weights
pub mod Tests
