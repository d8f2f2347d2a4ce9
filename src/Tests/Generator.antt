-- ===== src/Tests/Generator.antt =====
-- Runs of the model of dee.cpp/src/generation.cpp with a counter for a cache, and the theorems at
-- such runs.
use dee.Prelude.{ℕ, ◌+◌, ◌≡◌, refl, false, arith, ltb, [], ◌∷◌}
use dee.Tests.Kernels.{whole}
use dee.Kernels
use dee.Generator
use dee.Generator.{Store, Model, GeneratorConfig, Counters, Generator, generate}
use dee.Generator.Accounts.{IsFair, generate-IsFair}
use dee.Generator.Tokens.{IsRun, generate-IsRun}

generator_program : Unit {0}
unfolding Generator.new_generator Kernels.dot Kernels.silu Kernels.matvec Kernels.expert_mlp
    Generator.fetch_predicted Generator.on_token_decoded Generator.make_ready Generator.run_experts
    Generator.run_layer Generator.run_layers Generator.feed Generator.prefill Generator.decode
    Generator.generate
generator_program = tt

-- The experts below the state are in the cache, and all weights are 1.
abbrev growing : Store ℕ
growing = record {
  State = ℕ;
  contains = λ s layer e. ltb e s;
  is_ready = λ s layer e. ltb e s;
  is_inflight = λ s layer e. false;
  prefetch_expert = λ s layer e. e + 1;
  synchronize_expert = λ s layer e. s;
  touch = λ s layer e. s;
  gate_up = λ s layer e k. 1;
  down = λ s layer e k. 1;
}

-- Two experts for each token, of which the Oracle predicts one; the next token is the hidden value.
abbrev model : Model ℕ
model = record {
  layer_index = λ layer. layer;
  predict = λ layer x. 0 ∷ [];
  route = λ layer x k. (k, 1);
  embed = λ token i. token;
  sample = λ x. x 0;
}

abbrev config : GeneratorConfig
config = record { num_layers = 1; topk = 2; hidden_dim = 1; inter_dim = 1; eos_token = 21 }

abbrev start : Generator whole growing model config
start = Generator.new_generator whole growing model config 0

-- From 1 the hidden value goes to 3, and from 3 to 21, which ends the run.
stops : (generate whole growing model config (1 ∷ []) 5 start).0 ≡ 3 ∷ 21 ∷ []
unfolding generator_program
stops = refl

misses : (generate whole growing model config (1 ∷ []) 5 start).1.counters.cache_misses ≡ 1
unfolding generator_program
misses = refl

start-IsFair : IsFair whole growing model config start.counters
unfolding generator_program
start-IsFair = (refl, omega arith)

generate-IsFair_example :
    IsFair whole growing model config
      (generate whole growing model config (1 ∷ []) 5 start).1.counters
generate-IsFair_example = generate-IsFair whole growing model config (1 ∷ []) 5 start start-IsFair

generate-IsRun_example : IsRun 21 5 (generate whole growing model config (1 ∷ []) 5 start).0
generate-IsRun_example = generate-IsRun whole growing model config 1 [] 5 start
