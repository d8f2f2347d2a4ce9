-- ===== src/Engine/Starts.antt =====
-- When `Engine::init` of dee.cpp/src/engine.cpp succeeds, over a shard as a writer leaves it.
use dee.Prelude.{
  ℕ, ◌+◌, ◌*◌, ◌%◌, ◌^◌, ◌<◌, ◌≡◌, refl, inl, inr, Bool, true, false, not, ◌&&◌, Option, none, some,
  [], ◌∷◌, arith, Bool-cases, Option-cases, ◌==◌, ltb, if◌then◌else◌, length,
}
use dee.Device.{num_eq}
use dee.Arena
use dee.Arena.{Backend}
use dee.Kernels.{Arithmetic}
use dee.Oracle.{OracleNet}
use dee.Cache
use dee.Cache.Run.{new_manager}
use dee.Prefetch
use dee.Json.{Text, Fields, object, Outcome, done, thrown}
use dee.Json.Print.{print, FieldsPlain}
use dee.Weights.{Os, TensorMeta, is_ok, open_file}
use dee.Weights.Resolver.{register_shard, resolve_expert, expert_tensor_name}
use dee.Weights.Entries.{described}
use dee.Weights.Lookup.{IsShard, open_file-IsServed}
use dee.Weights.Resolve.{view_at, resolve_expert-open_file}
use dee.Staging.{Resolver, gate_proj, avail_layer}
use dee.Engine.{Conversions, EngineConfig, EngineState, resolver_of}
use dee.Engine.Init.{
  widened, sized, init_cache, init_oracle, init_shard, after_open, assign_buffers, init,
}
use dee.Engine.Ready.{budget_of}

-- Whether the backend has a region of that many bytes.
unfoldable pub has_region : Backend → ℕ → Bool
has_region be n = elim be.alloc_region [ none ↦ false | some get ↦ ltb 0 (get n) ]

init-new_manager : (be : Backend) (n : ℕ) → (Cache.init new_manager n be).0 ≡ has_region be n
unfolding Cache.init Arena.init has_region
init-new_manager be n = elim (Option-cases be.alloc_region) [
  | inl e ↦ rw e refl
  | inr (get, e) ↦ rw e refl
]

avail_layer-some :
    (resolve : Resolver) (layer a : ℕ)
    → resolve 0 0 gate_proj ≡ some a
    → avail_layer resolve layer ≡ 0
unfolding avail_layer
avail_layer-some resolve layer a e = rw (e, avail_layer) refl

module _ (A : Arithmetic) (greater : A.Float → A.Float → Bool) (C : Conversions A) where
  abbrev State : Type 0
  State = EngineState A greater C

  -- The host's own answer, behind the Oracle: no CUDA is asked for, and the budget is granted.
  unfoldable pub is_granted : Backend → EngineConfig → ℕ → Bool
  is_granted be config block =
      not config.use_cuda
      && has_region be
          (if config.budget_bytes == 0 then 4 * block % 2 ^ 64 else config.budget_bytes)

  -- The bytes of a block of `rows` and `columns`.
  abbrev pub block_of : ℕ → ℕ → ℕ
  block_of rows columns =
      3 * widened A greater C rows * widened A greater C columns % 2 ^ 64 * 4 % 2 ^ 64

  -- What decides, once a shard with an expert of `rows` and `columns` is open.
  unfoldable pub can_start :
      (Text → ℕ → Option (OracleNet A greater)) → Backend → EngineConfig → ℕ → ℕ → Bool
  can_start load be config rows columns =
      columns % 2 ^ 32 == config.hidden && elim (load config.oracle_path (columns % 2 ^ 32)) [
        | none ↦ false
        | some net ↦ is_granted be config (block_of (rows % 2 ^ 32) (columns % 2 ^ 32))
      ]

  -- The answer, or the exception that a negative hidden dimension raises where all else succeeds.
  unfoldable pub outcome : Bool → ℕ → Outcome Bool
  outcome starts hidden =
      if starts then (if ltb hidden (2 ^ 31) then done true else thrown) else done false

  init_cache_lem :
      (be : Backend) (s : State)
      → s.cache ≡ new_manager
      → (init_cache A greater C be s).0
        ≡ outcome (is_granted be s.config s.blob_bytes) s.staged.hidden
  unfolding Prefetch.init is_granted assign_buffers outcome init_cache
  init_cache_lem be s fresh =
      let got : (Cache.init s.cache (budget_of A greater C s) be).0
          ≡ has_region be (budget_of A greater C s) =
        rw fresh (init-new_manager be (budget_of A greater C s)) in
      elim (Bool-cases s.config.use_cuda) [
        | inl cuda ↦ rw (cuda, init_cache) refl
        | inr host ↦ elim (Bool-cases (has_region be (budget_of A greater C s))) [
          | inl granted ↦ rw (host, got, granted, init_cache) refl
          | inr denied ↦ rw (host, got, denied, init_cache) refl
        ]
      ]

  init_oracle_lem :
      (load : Text → ℕ → Option (OracleNet A greater)) (be : Backend) (s : State)
      → s.cache ≡ new_manager
      → (init_oracle A greater C load be s).0
        ≡ outcome
            (elim (load s.config.oracle_path s.staged.hidden) [
              | none ↦ false
              | some net ↦ is_granted be s.config s.blob_bytes
            ])
            s.staged.hidden
  unfolding is_granted outcome init_oracle
  init_oracle_lem load be s fresh =
      elim (Option-cases (load s.config.oracle_path s.staged.hidden)) [
        | inl e ↦ rw (e, init_oracle) refl
        | inr (net, e) ↦
            let depth : ℕ =
              if ltb net.layers.size s.config.num_layers
              then net.layers.size
              else s.config.num_layers in
            let s' : State = record s {
              net = net;
              config = record (s.config) { num_layers = depth };
            } in
            rw (e, init_oracle) (init_cache_lem be s' fresh)
      ]

  init_shard_lem :
      (load : Text → ℕ → Option (OracleNet A greater)) (be : Backend) (s : State)
      → s.cache ≡ new_manager
      → (a rows columns : ℕ) (t : TensorMeta) → t.shape ≡ rows ∷ columns ∷ []
      → is_ok (view_at a t) ≡ true
      → resolve_expert s.memory (λ _. s.mmap) (register_shard 1 s.shards) 0 0 gate_proj
        ≡ view_at a t
      → (init_shard A greater C load be s).0
        ≡ outcome (can_start load be s.config rows columns) (columns % 2 ^ 32)
  unfolding init_shard sized can_start outcome resolver_of
  init_shard_lem load be s₀ fresh a rows columns t shape good found =
      let s : State = record s₀ { shards = register_shard 1 s₀.shards } in
      let resolved : resolver_of A greater C s 0 0 gate_proj ≡ some a = rw (found, good) refl in
      let layer : avail_layer (resolver_of A greater C s) 0 ≡ 0 =
        avail_layer-some (resolver_of A greater C s) 0 a resolved in
      let s' : State = sized A greater C (rows % 2 ^ 32) (columns % 2 ^ 32) s in
      elim (Bool-cases (columns % 2 ^ 32 == s.config.hidden)) [
        | inl agree ↦
            rw (layer, found, good, shape, agree, init_shard) (init_oracle_lem load be s' fresh)
        | inr differ ↦ rw (layer, found, good, shape, differ, init_shard) refl
      ]

  -- `init` on a new engine whose shard is such a file, with some bytes for the gate projection of
  -- expert 0 in layer 0 and with two dimensions: where the second dimension, as an `int`, is the
  -- hidden one that was asked for, the Oracle loads, CUDA is not asked for and the backend grants the
  -- budget, the answer is true, but an exception is thrown if that dimension is negative; elsewhere
  -- the answer is false.
  pub init_lem :
      (stod : Text → Option C.Double) (os : Os) (load : Text → ℕ → Option (OracleNet A greater))
      (be : Backend) (config : EngineConfig) (s : State)
      → s.cache ≡ new_manager
      → s.shards ≡ []
      → (fs : Fields C.Double) (base rows columns : ℕ) (t : TensorMeta) → FieldsPlain fs
      → IsShard os s.memory config.shard_path fs base
      → described (expert_tensor_name 0 0 gate_proj) fs ≡ some t
      → 0 < base
      → 0 < t.nbytes
      → base + 8 + length (print (object fs)) + t.data_offset < 2 ^ 64
      → t.shape ≡ rows ∷ columns ∷ []
      → (init A greater C stod os load be config s).0
        ≡ outcome (can_start load be config rows columns) (columns % 2 ^ 32)
  unfolding init sized after_open
  init_lem stod os load be config s fresh none_yet fs base rows columns t plain h d b n small
        shape =
      let opened = open_file stod os s.memory config.shard_path s.mmap in
      let start : ℕ = base + 8 + length (print (object fs)) + t.data_offset in
      let ready : State =
        record (sized A greater C 256 config.hidden (record s { config = config })) {
          mmap = opened.1;
        } in
      let served = open_file-IsServed stod os s.memory config.shard_path fs base s.mmap plain h in
      let found : resolve_expert s.memory (λ _. opened.1) (register_shard 1 s.shards) 0 0 gate_proj
          ≡ view_at start t =
        rw none_yet (
          resolve_expert-open_file stod os s.memory config.shard_path fs base s.mmap plain h
            (λ _. opened.1) 1 (omega arith) refl 0 0 gate_proj t d b n small) in
      let good : is_ok (view_at start t) ≡ true = ground (arith, b, n) in
      rw served.succeeds (init_shard_lem load be ready fresh start rows columns t shape good found)
