-- ===== src/Generator/Accounts.antt =====
-- The counters of dee.cpp/src/generation.cpp.
use dee.Prelude.{
  ℕ, zero, suc, ◌+◌, ◌*◌, ◌≤◌, ◌≡◌, inl, inr, ap, List, [], ◌∷◌, arith, ◌==◌, Bool-cases,
}
use native.Mathlib.Nat.{mul-add}
use dee.Kernels.{Arithmetic}
use dee.Generator.{
  Store, Model, GeneratorConfig, Counters, Generator, on_token_decoded, make_ready, run_experts,
  run_layer, run_layers, feed, prefill, decode, generate,
}

-- `evaluations` experts were evaluated and the Oracle was asked `calls` times between two states of
-- the counters: each evaluation was a hit or a miss, and each reactive prefetch was a miss.
pub record Counted (before after : Counters) (evaluations calls : ℕ) : Type 0 where
  pub served :
      after.cache_hits + after.cache_misses ≡ before.cache_hits + before.cache_misses + evaluations
  pub asked : after.prediction_calls ≡ before.prediction_calls + calls
  pub reactive :
      after.reactive_prefetches + before.cache_misses
      ≤ after.cache_misses + before.reactive_prefetches

module _ (A : Arithmetic) (S : Store A.Float) (M : Model A.Float) (cfg : GeneratorConfig) where
  make_ready-Counted :
      (g : Generator A S M cfg) (ml e : ℕ)
      → Counted g.counters (make_ready A S M cfg g ml e).counters 1 0
  unfolding make_ready
  make_ready-Counted g ml e = elim (Bool-cases (S.is_ready g.store ml e)) [
    | inl ready ↦
        rw (ready, make_ready)
          (record { served = omega arith; asked = omega arith; reactive = omega arith })
    | inr cold ↦ elim (Bool-cases (S.is_inflight g.store ml e)) [
      | inl flies ↦
          rw (cold, flies, make_ready)
            (record { served = omega arith; asked = omega arith; reactive = omega arith })
      | inr absent ↦
          rw (cold, absent, make_ready)
            (record { served = omega arith; asked = omega arith; reactive = omega arith })
    ]
  ]

  run_experts-Counted :
      (k ml : ℕ) (x : ℕ → A.Float) (g : Generator A S M cfg)
      → Counted g.counters (run_experts A S M cfg k ml x g).0.counters k 0
  unfolding run_experts
  run_experts-Counted zero ml x g = record {
    served = omega arith;
    asked = omega arith;
    reactive = omega arith;
  }
  run_experts-Counted (suc k) ml x g =
      let c = run_experts-Counted k ml x g in
      let d = make_ready-Counted (run_experts A S M cfg k ml x g).0 ml (M.route ml x k).0 in
      record {
        served = omega (arith, c.served, d.served);
        asked = omega (arith, c.asked, d.asked);
        reactive = omega (arith, c.reactive, d.reactive);
      }

  -- Every layer evaluates `topk` experts and asks the Oracle once.
  abbrev pub IsFair : Counters → Type 0
  IsFair c =
      (c.cache_hits + c.cache_misses ≡ cfg.topk * c.prediction_calls)
      × (c.reactive_prefetches ≤ c.cache_misses)

  run_layer-IsFair :
      (layer : ℕ) (x : ℕ → A.Float) (g : Generator A S M cfg)
      → IsFair g.counters
      → IsFair (run_layer A S M cfg layer x g).0.counters
  unfolding run_layer
  run_layer-IsFair layer x g f =
      let c : Counters = g.counters in
      let predicted : Generator A S M cfg = record {
        store = on_token_decoded A S M cfg g.store (M.layer_index layer) x;
        counters = record c { prediction_calls = c.prediction_calls + 1 };
      } in
      let n = run_experts-Counted cfg.topk (M.layer_index layer) x predicted in
      (
        omega (
          arith,
          n.served,
          f.0,
          ap (λ k. cfg.topk * k) n.asked,
          mul-add cfg.topk (c.prediction_calls + 1) 0,
          mul-add cfg.topk c.prediction_calls 1,
        ),
        omega (arith, n.reactive, f.1),
      )

  run_layers-IsFair :
      (n : ℕ) (x : ℕ → A.Float) (g : Generator A S M cfg)
      → IsFair g.counters
      → IsFair (run_layers A S M cfg n x g).0.counters
  unfolding run_layers
  run_layers-IsFair zero x g f = f
  run_layers-IsFair (suc n) x g f =
      let (before, y) = run_layers A S M cfg n x g in
      run_layer-IsFair n y before (run_layers-IsFair n x g f)

  feed-IsFair :
      (t : ℕ) (g : Generator A S M cfg) → IsFair g.counters → IsFair (feed A S M cfg t g).0.counters
  unfolding feed
  feed-IsFair t g f = run_layers-IsFair cfg.num_layers (M.embed t) g f

  prefill-IsFair :
      (t : ℕ) (ts : List ℕ) (g : Generator A S M cfg)
      → IsFair g.counters
      → IsFair (prefill A S M cfg t ts g).0.counters
  unfolding prefill
  prefill-IsFair t [] g f = feed-IsFair t g f
  prefill-IsFair t (u ∷ us) g f = prefill-IsFair u us (feed A S M cfg t g).0 (feed-IsFair t g f)

  decode-IsFair :
      (n : ℕ) (g : Generator A S M cfg) (x : ℕ → A.Float)
      → IsFair g.counters
      → IsFair (decode A S M cfg n (g, x)).1.counters
  unfolding decode
  decode-IsFair zero g x f = f
  decode-IsFair (suc n) g x f = elim (Bool-cases (M.sample x == cfg.eos_token)) [
    | inl ends ↦ rw (ends, decode) f
    | inr goes ↦
        let (g', y) = feed A S M cfg (M.sample x) g in
        rw (goes, decode) (decode-IsFair n g' y (feed-IsFair (M.sample x) g f))
  ]

  -- However the prefetcher behaves, `generate` keeps this: the hits and misses are the top K for
  -- each call of the Oracle, and no prefetch was reactive but for a miss.
  pub generate-IsFair :
      (prompt : List ℕ) (max_new_tokens : ℕ) (g : Generator A S M cfg)
      → IsFair g.counters
      → IsFair (generate A S M cfg prompt max_new_tokens g).1.counters
  unfolding generate
  generate-IsFair [] max_new_tokens g f = f
  generate-IsFair (t ∷ ts) max_new_tokens g f = elim (Bool-cases (max_new_tokens == 0)) [
    | inl none_asked ↦ rw (none_asked, generate) f
    | inr some_asked ↦
        let (g', x) = prefill A S M cfg t ts g in
        rw (some_asked, generate) (decode-IsFair max_new_tokens g' x (prefill-IsFair t ts g f))
  ]
