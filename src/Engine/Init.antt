-- ===== src/Engine/Init.antt =====
-- `Engine::init` of dee.cpp/src/engine.cpp, in a build without DEE_CUDA.
use dee.Prelude.{
  ℕ, ◌+◌, ◌-◌, ◌*◌, ◌%◌, ◌^◌, Bool, true, false, Option, none, some, List, [], ◌∷◌, ltb, ◌==◌,
  if◌then◌else◌,
}
use dee.Device.{num_eq}
use dee.Arena.{Backend}
use dee.Cache.{VramCacheManager, data_of, touch}
use dee.Cache
use dee.Prefetch.{Memory, AsyncPrefetcher, prefetch, wait, reset}
use dee.Prefetch
use dee.Kernels.{Arithmetic}
use dee.Oracle.{OracleNet}
use dee.Json.{Text, Outcome, done, thrown, out_of_fuel}
use dee.Staging.{gate_proj, avail_layer}
use dee.Weights.{Os, TensorView, is_ok, open_file}
use dee.Weights.Resolver.{register_shard, resolve_expert}
use dee.Engine.{EngineConfig, Conversions, EngineState, resolver_of}

module _ (A : Arithmetic) (greater : A.Float → A.Float → Bool) (C : Conversions A) where
  abbrev State : Type 0
  State = EngineState A greater C

  -- `(size_t)inter_ * hidden_ * 3`; the dimensions are patterns of `int`, whose sign is kept.
  abbrev pub widened : ℕ → ℕ
  widened x = if ltb x (2 ^ 31) then x else x + (2 ^ 64 - 2 ^ 32)

  unfoldable pub sized : ℕ → ℕ → State → State
  sized inter hidden s =
      let elems : ℕ = 3 * widened inter * widened hidden % 2 ^ 64 in
      record s {
        staged = record (s.staged) { inter = inter; hidden = hidden };
        blob_elems = elems;
        blob_bytes = elems * 4 % 2 ^ 64;
      }

  abbrev pub two_of : List ℕ → Option (ℕ × ℕ)
  two_of (a ∷ b ∷ []) = some (a, b)
  two_of _ = none

  -- `hidden_buf_[0].assign(hidden_, 0.0f)` and the other buffer: a negative `int` becomes a length
  -- that no vector can have, for which `assign` throws. What the buffers hold is an argument of
  -- `generate`.
  unfoldable pub assign_buffers : State → Outcome Bool × State
  assign_buffers s = (if ltb s.staged.hidden (2 ^ 31) then done true else thrown, s)

  -- The end of `init`: the budget, the cache, the prefetcher and the buffers.
  unfoldable pub init_cache : Backend → State → Outcome Bool × State
  init_cache backend s =
      let budget : ℕ =
        if s.config.budget_bytes == 0 then 4 * s.blob_bytes % 2 ^ 64 else s.config.budget_bytes in
      if s.config.use_cuda
      then (done false, s)
      else (let (got, cache) = Cache.init s.cache budget backend in
          if got
          then (let (ready, prefetcher) = Prefetch.init s.prefetcher s.config.use_cuda in
              let s' : State = record s { cache = cache; prefetcher = prefetcher } in
              if ready then assign_buffers s' else (done false, s'))
          else (done false, record s { cache = cache }))

  -- `oracle_.load` with a width of 256, and the depth.
  unfoldable pub init_oracle :
      (Text → ℕ → Option (OracleNet A greater)) → Backend → State → Outcome Bool × State
  init_oracle load backend s = elim (load s.config.oracle_path s.staged.hidden) [
    | none ↦ (done false, s)
    | some net ↦
        let depth : ℕ =
          if ltb net.layers.size s.config.num_layers
          then net.layers.size
          else s.config.num_layers in
        init_cache backend
          (record s { net = net; config = record (s.config) { num_layers = depth } })
  ]

  -- `init` behind the opening of the shard: the dimensions are those of expert 0.
  unfoldable pub init_shard :
      (Text → ℕ → Option (OracleNet A greater)) → Backend → State → Outcome Bool × State
  init_shard load backend s₀ =
      let s : State = record s₀ { shards = register_shard 1 s₀.shards } in
      let gv : TensorView =
        resolve_expert s.memory (λ _. s.mmap) s.shards (avail_layer (resolver_of A greater C s) 0) 0
          gate_proj in
      if is_ok gv
      then elim (two_of gv.shape) [
        | none ↦ (done false, s)
        | some (rows, columns) ↦
            let s' : State = sized (rows % 2 ^ 32) (columns % 2 ^ 32) s in
            if s'.staged.hidden == s.config.hidden
            then init_oracle load backend s'
            else (done false, s')
      ]
      else (done false, s)

  -- `init` with the answer of `mmap_.open`, whose exception passes through.
  unfoldable pub after_open :
      (Text → ℕ → Option (OracleNet A greater))
      → Backend
      → Outcome Bool
      → State
      → Outcome Bool × State
  after_open load backend thrown s = (thrown, s)
  after_open load backend out_of_fuel s = (out_of_fuel, s)
  after_open load backend (done false) s = (done false, s)
  after_open load backend (done true) s = init_shard load backend s

  unfoldable pub init :
      (Text → Option C.Double)
      → Os
      → (Text → ℕ → Option (OracleNet A greater))
      → Backend
      → EngineConfig
      → State
      → Outcome Bool × State
  init stod os load backend config s =
      let provisional : State = sized 256 config.hidden (record s { config = config }) in
      let (answer, mmap) = open_file stod os s.memory config.shard_path s.mmap in
      after_open load backend answer (record provisional { mmap = mmap })
