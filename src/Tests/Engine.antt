-- ===== src/Tests/Engine.antt =====
-- The engine of dee.cpp/src/engine.cpp with a small Oracle and a full cache, and the theorems there.
use dee.Prelude.{
  ℕ, ◌+◌, ◌*◌, ◌^◌, ◌<◌, ◌≡◌, inr, refl, ◌-◌, Bool, Option, true, false, some, [], ◌∷◌, arith,
  length, All,
}
use dee.Map.{find}
use dee.Device.{num_eq}
use dee.Prefetch
use dee.Prefetch.{new_prefetcher}
use dee.Weights.{new_mmap}
use dee.Engine
use dee.Engine.{
  EngineConfig, Conversions, EngineState, forward_layer, token_layers, generate, combine, stage_all,
  use_all, track_peak, gather,
}
use dee.Engine.Layers.{token_layers_last}
use dee.Engine.Counts.{generate_fallbacks}
use dee.Engine.Feeding.{IsFed, IsKnown}
use dee.Engine.Contents.{AreRight, stage_all-use_all}
use dee.Engine.Init
use dee.Engine.Init.{init}
use dee.Engine.Ready.{IsSetUp, init-IsSetUp}
use dee.Oracle.{OracleNet}
use dee.Cache.Run.{new_manager}
use dee.Json.{Text, Fields, object, field, no_fields, Outcome, done}
use dee.Json.Print.{print}
use dee.Staging
use dee.Staging.{gate_proj}
use dee.Weights.Resolver
use dee.Weights.Entries.{entry_of, described}
use dee.Tests.Json.{no_float}
use dee.Weights.Lookup.{IsShard}
use dee.Json.Print.{FieldsPlain}
use dee.Engine.Starts.{can_start, outcome, init_lem}
use dee.Tests.Weights.{weights_program, byte_at, linux, tensor, not_shape, not_dtype}
use dee.Tests.{backend, program, full, full-IsReady, bytes_of}
use dee.Tests.Kernels.{whole}
use dee.Tests.Oracle.{greater, net, oracle_program}

engine_program : Unit {0}
unfolding oracle_program find Prefetch.find_inflight Engine.forward_layer Engine.token_layers
    Engine.token_loop Engine.generate
engine_program = tt

abbrev conversions : Conversions whole
conversions = record {
  float_of_bits = λ b. b;
  float_of_nat = λ k. k;
  Double = ℕ;
  double_of = λ x. x;
  zero_double = 0;
  add_double = λ a b. a + b;
  mul_double = λ a b. a * b;
  sqrt_of_mean = λ a k. a;
  is_above = λ a. true;
  float_of = λ a. a;
  prompt = λ i. 1;
  is_finite = λ x. true;
}

abbrev config : EngineConfig
config = record {
  shard_path = [];
  oracle_path = [];
  num_tokens = 1;
  topk = 2;
  num_layers = 1;
  budget_bytes = 1024;
  use_cuda = false;
  hidden = 1;
}

abbrev State : Type 0
State = EngineState whole greater conversions

-- Experts 2 and 0, which the Oracle names, are staged; the cache is full of other experts.
abbrev state : State
state = record {
  config = config;
  mmap = new_mmap;
  shards = [];
  net = net;
  cache = full;
  prefetcher = new_prefetcher;
  staged = record { hidden = 1; inter = 1; staging = (2, λ _. 0) ∷ (0, λ _. 0) ∷ [] };
  blob_elems = 64;
  blob_bytes = 256;
  memory = bytes_of;
  stats = record {
    tokens = 0;
    peak_vram = 0;
    cache_hits = 0;
    cache_loads = 0;
    evictions = 0;
    fallbacks = 0;
    prefetch_issued = 0;
    prefetch_fallbacks = 0;
    hidden_finite = true;
  };
}

abbrev place : ℕ → ℕ
place e = 100_000 + e * 1000

abbrev bytes : ℕ → ℕ → ℕ
bytes e i = bytes_of (place e + i)

state-IsFed : IsFed whole greater conversions place 256 bytes state
unfolding engine_program
state-IsFed =
    (refl, record { ready = full-IsReady; arrives = λ layer e idx b s held found. cc found })

state-IsKnown_two : IsKnown whole greater conversions place 256 bytes state 2
unfolding program engine_program
state-IsKnown_two = record {
  small = omega arith;
  blob = λ _. 0;
  staged = refl;
  source = record { real = omega arith; outside = inr (omega arith); holds = λ i h. refl };
}

state-IsKnown_zero : IsKnown whole greater conversions place 256 bytes state 0
unfolding program engine_program
state-IsKnown_zero = record {
  small = omega arith;
  blob = λ _. 0;
  staged = refl;
  source = record { real = omega arith; outside = inr (omega arith); holds = λ i h. refl };
}

state-IsKnown : All (IsKnown whole greater conversions place 256 bytes state) (2 ∷ 0 ∷ [])
state-IsKnown = (state-IsKnown_two, (state-IsKnown_zero, tt))

abbrev staged_state : State
staged_state = stage_all whole greater conversions place state 0 2 (2 ∷ 0 ∷ [])

abbrev ran : (ℕ → ℕ) × State
ran = use_all whole greater conversions staged_state 0 (λ _. 1) (2 ∷ 0 ∷ []) (λ _. 0)

stage_all-use_all_example :
    AreRight whole greater conversions place 256 bytes staged_state 0 (λ _. 1) (2 ∷ 0 ∷ []) (λ _. 0)
    × IsFed whole greater conversions place 256 bytes ran.1
    × All (IsKnown whole greater conversions place 256 bytes ran.1) (2 ∷ 0 ∷ [])
stage_all-use_all_example =
    stage_all-use_all whole greater conversions place 256 bytes state 0 (λ _. 1) (2 ∷ 0 ∷ [])
      (λ _. 0) state-IsFed state-IsKnown

abbrev output : ℕ → ℕ
output = combine whole greater conversions ran.1.staged.hidden 2 ran.0

one_layer :
    token_layers whole greater conversions place 1 0 state (λ _. 1) (λ _. 0) ≡ some (output, ran.1)
unfolding engine_program
one_layer = refl

token_layers_last_example :
    (t : State) × (forward_layer whole greater conversions place t 0 (λ _. 1)
      ≡ some (output, ran.1))
token_layers_last_example =
    token_layers_last whole greater conversions place 0 0 state ran.1 (λ _. 1) (λ _. 0) output
      one_layer

abbrev finished : State
finished = gather whole greater conversions output (track_peak whole greater conversions ran.1)

one_token : generate whole greater conversions place state (λ _. 0) ≡ some (output, finished)
unfolding engine_program
one_token = refl

generate_fallbacks_example : finished.stats.fallbacks ≡ full.stats.fallbacks
generate_fallbacks_example =
    generate_fallbacks whole greater conversions place state finished (λ _. 0) output one_token

-- A shard that has the gate projection of expert 0, with two rows and one column, at 4096.
abbrev entries : Fields ℕ
entries =
    field (Resolver.expert_tensor_name 0 0 gate_proj)
      (entry_of ℕ (record tensor { shape = 2 ∷ 1 ∷ [] })) no_fields

abbrev file : Text
file = length (print (object entries)) ∷ 0 ∷ 0 ∷ 0 ∷ 0 ∷ 0 ∷ 0 ∷ 0 ∷ print (object entries)

abbrev new_engine : State
new_engine = record state {
  cache = new_manager;
  memory = λ a. byte_at file (a - 4096);
  staged = record { hidden = 0; inter = 0; staging = [] };
}

abbrev loader : Text → ℕ → Option (OracleNet whole greater)
loader path hidden = some net

abbrev initialised : Outcome Bool × State
initialised = init whole greater conversions no_float linux loader backend config new_engine

succeeds : initialised.0 ≡ done true
unfolding weights_program program Staging.avail_layer Engine.resolver_of Init.sized
    Init.assign_buffers Init.init_cache Init.init_oracle Init.init_shard Init.after_open Init.init
    Prefetch.init
succeeds = refl

init-IsSetUp_example : IsSetUp whole greater conversions initialised.1
init-IsSetUp_example =
    init-IsSetUp whole greater conversions no_float linux loader backend config new_engine refl refl
      succeeds

entries-FieldsPlain : FieldsPlain entries
unfolding weights_program
entries-FieldsPlain = (
  (λ h. h),
  (
    not_dtype,
    tt,
    (not_shape, (omega arith, (omega arith, tt)), ((λ h. h), (omega arith, (omega arith, tt)), tt)),
  ),
  tt,
)

file-IsShard : IsShard linux new_engine.memory config.shard_path entries 4096
unfolding weights_program
file-IsShard = record {
  descriptor = 3;
  bytes = 200;
  opens = refl;
  sized = refl;
  maps = refl;
  length_field = refl;
  header = refl;
  fits = omega arith;
  small = omega arith;
}

gate_described :
    described (Resolver.expert_tensor_name 0 0 gate_proj) entries
    ≡ some (record tensor { shape = 2 ∷ 1 ∷ [] })
unfolding weights_program
gate_described = refl

in_range : 4096 + 8 + length (print (object entries)) + 4 < 2 ^ 64
unfolding weights_program
in_range = omega arith

init_lem_example :
    initialised.0
    ≡ outcome whole greater conversions
        (can_start whole greater conversions loader backend config 2 1)
        1
init_lem_example =
    init_lem whole greater conversions no_float linux loader backend config new_engine refl refl
      entries 4096 2 1 (record tensor { shape = 2 ∷ 1 ∷ [] }) entries-FieldsPlain file-IsShard
      gate_described (omega arith) (omega arith) in_range refl
