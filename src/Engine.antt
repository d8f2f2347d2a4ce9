-- ===== src/Engine.antt =====
-- `class Engine` of dee.cpp/src/engine.cpp and dee.cpp/include/dee/engine.h in a build without
-- DEE_CUDA: `init`, the layer and the loop over tokens, over the shard (Weights), the staging
-- (Staging), the Oracle, the cache and the prefetcher. Memory is that of the process, in which the
-- shard, the staged blobs and the arena lie. Parameters are the arithmetic of `float` and `double`,
-- the addresses that the vectors of staged blobs get, the operating system and the loader of the
-- Oracle. The clock is left out.
pub mod Init
pub mod Layers
pub mod Counts
pub mod Feeding
pub mod Contents
pub mod Ready
pub mod Starts
use dee.Prelude.{
  ℕ, zero, suc, ◌+◌, ◌-◌, ◌*◌, ◌/◌, ◌%◌, ◌^◌, Bool, true, false, not, ◌&&◌, Option, none, some,
  List, [], ◌∷◌, ltb, leb, ◌==◌, if◌then◌else◌, length,
}
use dee.Map.{Map, find}
use dee.Device.{num_eq}
use dee.Arena.{Backend}
use dee.Cache.{VramCacheManager, data_of, touch}
use dee.Cache
use dee.Prefetch.{Memory, AsyncPrefetcher, prefetch, wait, reset}
use dee.Prefetch
use dee.Kernels.{Arithmetic, swiglu}
use dee.Oracle.{OracleNet, predict}
use dee.Json.{Text, Outcome, done, thrown, out_of_fuel}
use dee.Staging.{Projection, gate_proj, Resolver, Engine, avail_layer, get_staging}
use dee.Weights.{WeightMmap, Os, TensorView, is_ok, read_bytes, little_endian, open_file}
use dee.Weights.Resolver.{Shards, register_shard, resolve_expert}

-- The members that the engine reads; `inter` and `verbose` it does not.
pub record EngineConfig : Type 0 where
  pub shard_path : Text
  pub oracle_path : Text
  pub num_tokens : ℕ
  pub topk : ℕ
  pub num_layers : ℕ
  pub budget_bytes : ℕ
  pub use_cuda : Bool
  pub hidden : ℕ

pub record EngineStats : Type 0 where
  pub tokens : ℕ
  pub peak_vram : ℕ
  pub cache_hits : ℕ
  pub cache_loads : ℕ
  pub evictions : ℕ
  pub fallbacks : ℕ
  pub prefetch_issued : ℕ
  pub prefetch_fallbacks : ℕ
  pub hidden_finite : Bool

-- Conversions of `float`, and the operations of `double` that the engine uses.
pub record Conversions (A : Arithmetic) : Type 1 where
  pub float_of_bits : ℕ → A.Float
  pub float_of_nat : ℕ → A.Float
  pub Double : Type 0
  pub double_of : A.Float → Double
  pub zero_double : Double
  pub add_double : Double → Double → Double
  pub mul_double : Double → Double → Double
  pub sqrt_of_mean : Double → ℕ → Double
  -- `rms > 1e-8`
  pub is_above : Double → Bool
  pub float_of : Double → A.Float
  -- `std::sin(0.01f * i) * 0.5f`
  pub prompt : ℕ → A.Float
  pub is_finite : A.Float → Bool

-- The byte of a `float` at a place.
abbrev pub byte_of : ℕ → ℕ → ℕ
byte_of bits k = bits / 256 ^ k % 256

-- A vector of `n` floats at an address.
unfoldable pub write_floats : ℕ → ℕ → (ℕ → ℕ) → Memory → Memory
write_floats n a blob mem x =
    if leb a x && ltb x (a + n * 4) then byte_of (blob ((x - a) / 4)) ((x - a) % 4) else mem x

-- The bits of the `float` at an address.
unfoldable pub read_bits : Memory → ℕ → ℕ
read_bits mem a = little_endian (read_bytes mem a 4)

module _ (A : Arithmetic) (greater : A.Float → A.Float → Bool) (C : Conversions A) where
  open A use {Float, zero_float, one_float, add, mul, div}

  pub record EngineState : Type 0 where
    pub config : EngineConfig
    pub mmap : WeightMmap
    pub shards : Shards
    pub net : OracleNet A greater
    pub cache : VramCacheManager
    pub prefetcher : AsyncPrefetcher
    pub staged : Engine
    pub blob_elems : ℕ
    pub blob_bytes : ℕ
    pub memory : Memory
    pub stats : EngineStats

  -- The resolver of the engine knows one shard, its own.
  unfoldable pub resolver_of : EngineState → Resolver
  resolver_of s layer expert kind =
      let v : TensorView = resolve_expert s.memory (λ _. s.mmap) s.shards layer expert kind in
      if is_ok v then some v.data_at else none

  -- `get_staging`, which answers with the address of the blob: `place expert`.
  unfoldable pub staged_blob : (ℕ → ℕ) → EngineState → ℕ → Option ℕ × EngineState
  staged_blob place s expert = elim (find expert s.staged.staging) [
    | some blob ↦ (some (place expert), s)
    | none ↦
        let (answer, staged) = get_staging (resolver_of s) s.memory s.staged expert in
        elim answer [
          | none ↦ (none, s)
          | some blob ↦ (
            some (place expert),
            record s {
              staged = staged;
              memory = write_floats s.blob_elems (place expert) blob s.memory;
            },
          )
        ]
  ]

  unfoldable pub stage_expert : (ℕ → ℕ) → EngineState → ℕ → ℕ → ℕ → EngineState
  stage_expert place s layer expert priority =
      let (answer, s') = staged_blob place s expert in
      elim answer [
        | none ↦ s'
        | some src ↦
            let (id, cache, prefetcher) =
              prefetch s'.cache s'.prefetcher layer expert src s'.blob_bytes priority in
            record s' { cache = cache; prefetcher = prefetcher }
      ]

  -- The first loop of `forward_layer`; the priority falls from `topk`.
  unfoldable pub stage_all : (ℕ → ℕ) → EngineState → ℕ → ℕ → List ℕ → EngineState
  stage_all place s layer priority [] = s
  stage_all place s layer priority (e ∷ es) =
      stage_all place (stage_expert place s layer e priority) layer (priority - 1) es

  -- The floats of a block.
  unfoldable pub floats_at : Memory → ℕ → ℕ → Float
  floats_at mem a i = C.float_of_bits (read_bits mem (a + i * 4))

  -- One round of the second loop of `forward_layer`.
  unfoldable pub use_expert :
      EngineState → ℕ → (ℕ → Float) → ℕ → (ℕ → Float) → (ℕ → Float) × EngineState
  use_expert s layer x e acc =
      let (ready, prefetcher, memory) = wait s.prefetcher s.memory layer e in
      let s' : EngineState = record s { prefetcher = prefetcher; memory = memory } in
      let p : ℕ = data_of s'.cache layer e in
      if p == 0
      then (acc, record s' { stats = record (s'.stats) { fallbacks = s'.stats.fallbacks + 1 } })
      else (
        swiglu A (floats_at memory p) x s'.staged.inter s'.staged.hidden acc,
        record s' { cache = touch s'.cache layer e },
      )

  unfoldable pub use_all :
      EngineState → ℕ → (ℕ → Float) → List ℕ → (ℕ → Float) → (ℕ → Float) × EngineState
  use_all s layer x [] acc = (acc, s)
  use_all s layer x (e ∷ es) acc =
      let (acc', s') = use_expert s layer x e acc in use_all s' layer x es acc'

  -- `for (i < n) ss += (double)v * v;`
  unfoldable pub squares : ℕ → (ℕ → Float) → C.Double
  squares zero v = C.zero_double
  squares (suc n) v =
      C.add_double (squares n v) (C.mul_double (C.double_of (v n)) (C.double_of (v n)))

  -- The end of `forward_layer`: the mean of `k` experts, scaled to a root mean square of 1.
  unfoldable pub combine : ℕ → ℕ → (ℕ → Float) → ℕ → Float
  combine hidden k acc =
      let inv : Float = if k == 0 then one_float else div one_float (C.float_of_nat k) in
      let mean : ℕ → Float = λ i. mul (acc i) inv in
      let rms : C.Double = C.sqrt_of_mean (squares hidden mean) hidden in
      let scale : Float = div one_float (C.float_of rms) in
      if C.is_above rms then (λ i. mul (mean i) scale) else mean

  -- The answer is `h_out`; `none` where the Oracle throws because it has no such layer.
  unfoldable pub forward_layer :
      (ℕ → ℕ) → EngineState → ℕ → (ℕ → Float) → Option ((ℕ → Float) × EngineState)
  forward_layer place s layer h_in = elim (predict A greater s.net layer h_in s.config.topk) [
    | none ↦ none
    | some experts ↦
        let (acc, s') =
          use_all (stage_all place s layer s.config.topk experts) layer h_in experts
            (λ _. zero_float) in
        some (combine s'.staged.hidden (length experts) acc, s')
  ]

  -- The loop over the layers of one token: `n` layers from `layer` on, from `h_in` to `h_out`.
  unfoldable pub token_layers :
      (ℕ → ℕ) → ℕ → ℕ → EngineState → (ℕ → Float) → (ℕ → Float) → Option ((ℕ → Float) × EngineState)
  token_layers place zero layer s h_in h_out = some (h_out, s)
  token_layers place (suc n) layer s h_in h_out = elim (forward_layer place s layer h_in) [
    | none ↦ none
    | some (out, s') ↦ token_layers place n (layer + 1) s' h_in out
  ]

  -- The end of a round for a token.
  unfoldable pub track_peak : EngineState → EngineState
  track_peak s =
      let used : ℕ = s.cache.arena.used in
      if ltb s.stats.peak_vram used
      then record s { stats = record (s.stats) { peak_vram = used } }
      else s

  -- The loop over the tokens; the two buffers, of which the first is the next input.
  unfoldable pub token_loop :
      (ℕ → ℕ) → ℕ → EngineState → (ℕ → Float) → (ℕ → Float) → Option ((ℕ → Float) × EngineState)
  token_loop place zero s h_in h_out = some (h_in, s)
  token_loop place (suc n) s h_in h_out =
      elim (token_layers place s.config.num_layers 0 s h_in h_out) [
        | none ↦ none
        | some (out, s') ↦ token_loop place n (track_peak s') out h_in
      ]

  unfoldable pub all_finite : ℕ → (ℕ → Float) → Bool
  all_finite zero out = true
  all_finite (suc n) out = all_finite n out && C.is_finite (out n)

  -- The statistics at the end. The engine's own count of fallbacks gives way to the cache's.
  unfoldable pub gather : (ℕ → Float) → EngineState → EngineState
  gather out s = record s {
    prefetcher = reset s.prefetcher;
    stats = record {
      tokens = s.config.num_tokens;
      peak_vram = s.stats.peak_vram;
      cache_hits = s.cache.stats.hits;
      cache_loads = s.cache.stats.loads;
      evictions = s.cache.stats.evictions;
      fallbacks = s.cache.stats.fallbacks;
      prefetch_issued = s.prefetcher.stats.issued;
      prefetch_fallbacks = s.prefetcher.stats.fallbacks;
      hidden_finite = all_finite s.staged.hidden out;
    };
  }

  -- `generate`, with the output behind the last token.
  unfoldable pub generate : (ℕ → ℕ) → EngineState → (ℕ → Float) → Option ((ℕ → Float) × EngineState)
  generate place s other = elim (token_loop place s.config.num_tokens s C.prompt other) [
    | none ↦ none
    | some (out, s') ↦ some (out, gather out s')
  ]
