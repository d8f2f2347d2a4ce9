-- ===== src/Generator.antt =====
-- The loop over tokens and layers of dee.cpp/src/generation.cpp, and the prefetching of
-- dee.cpp/src/oracle_scheduler.cpp. Both call a prefetcher by an interface that no source declares
-- (`is_ready`, `is_inflight`, `prefetch_expert`, `synchronize_expert`): it is a parameter, with the
-- cache that it shares, as are the router, the embedder, the sampler, the Oracle and the weights.
pub mod Accounts
pub mod Tokens
use dee.Prelude.{
  ℕ, zero, suc, ◌+◌, Bool, true, false, not, ◌&&◌, List, [], ◌∷◌, ltb, ◌==◌, if◌then◌else◌,
}
use dee.Kernels.{Arithmetic, expert_mlp}

-- The cache and the prefetcher: one state, since a prefetch takes room in the cache. `gate_up` and
-- `down` are the weights that `ptr_of` and `expert_tensors` lead to.
pub record Store (Float : Type 0) : Type 1 where
  pub State : Type 0
  pub contains : State → ℕ → ℕ → Bool
  pub is_ready : State → ℕ → ℕ → Bool
  pub is_inflight : State → ℕ → ℕ → Bool
  pub prefetch_expert : State → ℕ → ℕ → State
  pub synchronize_expert : State → ℕ → ℕ → State
  pub touch : State → ℕ → ℕ → State
  pub gate_up : State → ℕ → ℕ → ℕ → Float
  pub down : State → ℕ → ℕ → ℕ → Float

-- `route` gives the expert and the score at each place of the top K.
pub record Model (Float : Type 0) : Type 0 where
  pub layer_index : ℕ → ℕ
  pub predict : ℕ → (ℕ → Float) → List ℕ
  pub route : ℕ → (ℕ → Float) → ℕ → ℕ × Float
  pub embed : ℕ → ℕ → Float
  pub sample : (ℕ → Float) → ℕ

pub record GeneratorConfig : Type 0 where
  pub num_layers : ℕ
  pub topk : ℕ
  pub hidden_dim : ℕ
  pub inter_dim : ℕ
  pub eos_token : ℕ

pub record Counters : Type 0 where
  pub cache_hits : ℕ
  pub cache_misses : ℕ
  pub reactive_prefetches : ℕ
  pub prediction_calls : ℕ

module _ (A : Arithmetic) (S : Store A.Float) (M : Model A.Float) (cfg : GeneratorConfig) where
  pub record Generator : Type 0 where
    pub store : S.State
    pub counters : Counters

  -- The constructor; the scratch buffers are not kept.
  unfoldable pub new_generator : S.State → Generator
  new_generator store = record {
    store = store;
    counters = record {
      cache_hits = 0;
      cache_misses = 0;
      reactive_prefetches = 0;
      prediction_calls = 0;
    };
  }

  -- `OracleScheduler::on_token_decoded`, from the prediction on.
  unfoldable pub fetch_predicted : S.State → ℕ → List ℕ → S.State
  fetch_predicted s layer [] = s
  fetch_predicted s layer (e ∷ es) =
      fetch_predicted
        (if not (S.contains s layer e) && not (S.is_inflight s layer e)
          then S.prefetch_expert s layer e
          else s)
        layer es

  unfoldable pub on_token_decoded : S.State → ℕ → (ℕ → A.Float) → S.State
  on_token_decoded s layer x = fetch_predicted s layer (M.predict layer x)

  -- Step (3) for one expert, and the `touch` behind it.
  unfoldable pub make_ready : Generator → ℕ → ℕ → Generator
  make_ready g ml e =
      let s : S.State = g.store in
      let c : Counters = g.counters in
      if S.is_ready s ml e
      then record { store = S.touch s ml e; counters = record c { cache_hits = c.cache_hits + 1 } }
      else if S.is_inflight s ml e
      then record {
        store = S.touch (S.synchronize_expert s ml e) ml e;
        counters = record c { cache_misses = c.cache_misses + 1 };
      }
      else record {
        store = S.touch (S.synchronize_expert (S.prefetch_expert s ml e) ml e) ml e;
        counters = record c {
          cache_misses = c.cache_misses + 1;
          reactive_prefetches = c.reactive_prefetches + 1;
        };
      }

  -- `for (i < n) y[i] += f(i);`
  abbrev pub add_below : ℕ → (ℕ → A.Float) → (ℕ → A.Float) → ℕ → A.Float
  add_below n y f i = if ltb i n then A.add (y i) (f i) else y i

  -- The first `k` rounds of the loop over a layer's experts, with `moe_out`.
  unfoldable pub run_experts : ℕ → ℕ → (ℕ → A.Float) → Generator → Generator × (ℕ → A.Float)
  run_experts zero ml x g = (g, λ _. A.zero_float)
  run_experts (suc k) ml x g =
      let (before, moe_out) = run_experts k ml x g in
      let (e, score) = M.route ml x k in
      let ready : Generator = make_ready before ml e in
      let expert_out : ℕ → A.Float =
        expert_mlp A x cfg.hidden_dim cfg.inter_dim (S.gate_up ready.store ml e)
          (S.down ready.store ml e) in
      (ready, add_below cfg.hidden_dim moe_out (λ i. A.mul score (expert_out i)))

  -- One layer: the generator and `x` behind it.
  unfoldable pub run_layer : ℕ → (ℕ → A.Float) → Generator → Generator × (ℕ → A.Float)
  run_layer layer x g =
      let ml : ℕ = M.layer_index layer in
      let c : Counters = g.counters in
      let predicted : Generator = record {
        store = on_token_decoded g.store ml x;
        counters = record c { prediction_calls = c.prediction_calls + 1 };
      } in
      let (after, moe_out) = run_experts cfg.topk ml x predicted in
      (after, add_below cfg.hidden_dim x moe_out)

  -- The first `n` layers.
  unfoldable pub run_layers : ℕ → (ℕ → A.Float) → Generator → Generator × (ℕ → A.Float)
  run_layers zero x g = (g, x)
  run_layers (suc n) x g = let (before, y) = run_layers n x g in run_layer n y before

  -- `embed` and `run_layers`.
  unfoldable pub feed : ℕ → Generator → Generator × (ℕ → A.Float)
  feed token g = run_layers cfg.num_layers (M.embed token) g

  unfoldable pub prefill : ℕ → List ℕ → Generator → Generator × (ℕ → A.Float)
  prefill token [] g = feed token g
  prefill token (next ∷ rest) g = prefill next rest (feed token g).0

  -- The decoding loop, with the number of steps left.
  unfoldable pub decode : ℕ → Generator × (ℕ → A.Float) → List ℕ × Generator
  decode zero (g, x) = ([], g)
  decode (suc n) (g, x) =
      let next : ℕ = M.sample x in
      let rest : List ℕ × Generator = decode n (feed next g) in
      if next == cfg.eos_token then (next ∷ [], g) else (next ∷ rest.0, rest.1)

  unfoldable pub generate : List ℕ → ℕ → Generator → List ℕ × Generator
  generate [] max_new_tokens g = ([], g)
  generate (first ∷ rest) max_new_tokens g =
      if max_new_tokens == 0 then ([], g) else decode max_new_tokens (prefill first rest g)
