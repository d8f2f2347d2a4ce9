-- ===== src/Engine/Ready.antt =====
-- What a successful `Engine::init` of dee.cpp/src/engine.cpp leaves.
use dee.Prelude.{
  ℕ, ◌*◌, ◌%◌, ◌^◌, ◌≤◌, ◌<◌, ◌≡◌, refl, sym, ap, ◌∙◌, inl, inr, Bool, true, false, Option, arith,
  Bool-cases, Option-cases, ◌==◌, ltb, if◌then◌else◌, size_limit,
}
use dee.Arena.{Backend}
use mathlib.Core.Path.{subst}
use dee.Keys.{key_eq}
use dee.Kernels.{Arithmetic}
use dee.Oracle.{OracleNet}
use dee.Cache.{VramCacheManager}
use dee.Cache
use dee.Cache.Run.{new_manager}
use dee.Prefetch.{AsyncPrefetcher, new_prefetcher, find_inflight}
use dee.Prefetch
use dee.Json.{Text, Outcome, done, thrown, out_of_fuel}
use dee.Weights.{Os, TensorView, is_ok, open_file}
use dee.Weights.Resolver.{register_shard, resolve_expert}
use dee.Staging.{gate_proj, avail_layer}
use dee.Engine.{Conversions, EngineConfig, EngineState, resolver_of}
use dee.Engine.Init.{
  sized, two_of, init_cache, init_oracle, init_shard, after_open, assign_buffers, init,
}
use dee.Engine.Feeding.{IsFed}
use dee.Prefetch.Fresh.{fresh_cache-IsReady, no_index}

module _ (A : Arithmetic) (greater : A.Float → A.Float → Bool) (C : Conversions A) where
  abbrev State : Type 0
  State = EngineState A greater C

  -- The budget that `init` works with.
  abbrev pub budget_of : State → ℕ
  budget_of s =
      if s.config.budget_bytes == 0 then 4 * s.blob_bytes % 2 ^ 64 else s.config.budget_bytes

  abbrev IsNew : State → Type 0
  IsNew s = (s.cache ≡ new_manager) × (s.prefetcher ≡ new_prefetcher)

  -- What an engine that is set up is like.
  pub record IsSetUp (s : State) : Type 1 where
    pub hidden_agrees : s.staged.hidden ≡ s.config.hidden
    pub depth : s.config.num_layers ≤ s.net.layers.size
    pub fed :
        (place : ℕ → ℕ) (bytes : ℕ → ℕ → ℕ)
        → 0 < s.blob_bytes
        → s.blob_bytes ≤ budget_of s
        → budget_of s < size_limit
        → IsFed A greater C place s.blob_bytes bytes s

  -- The state that `init_cache` leaves when it succeeds.
  set_up : Backend → State → State
  set_up be s = record s {
    cache = (Cache.init s.cache (budget_of s) be).1;
    prefetcher = record (s.prefetcher) { use_cuda = false };
  }

  init_cache-true :
      (be : Backend) (s : State)
      → (init_cache A greater C be s).0 ≡ done true
      → ((init_cache A greater C be s).1 ≡ set_up be s)
        × ((Cache.init s.cache (budget_of s) be).0 ≡ true)
  unfolding init_cache set_up Prefetch.init assign_buffers
  init_cache-true be s ok = elim (Bool-cases s.config.use_cuda) [
    | inl cuda ↦
        let refused : (init_cache A greater C be s).0 ≡ done false = rw (cuda, init_cache) refl in
        absurd (cc (sym refused ∙ ok))
    | inr host ↦ elim (Bool-cases (Cache.init s.cache (budget_of s) be).0) [
      | inl got ↦ (rw (host, got, init_cache) refl, got)
      | inr failed ↦
          let refused : (init_cache A greater C be s).0 ≡ done false =
            rw (host, failed, init_cache) refl in
          absurd (cc (sym refused ∙ ok))
    ]
  ]

  init_cache-IsSetUp :
      (be : Backend) (s : State)
      → IsNew s
      → s.staged.hidden ≡ s.config.hidden
      → s.config.num_layers ≤ s.net.layers.size
      → (init_cache A greater C be s).0 ≡ done true
      → IsSetUp (init_cache A greater C be s).1
  unfolding set_up
  init_cache-IsSetUp be s new h d ok =
      let (same, got) = init_cache-true be s ok in
      subst IsSetUp (sym same) (record {
        hidden_agrees = h;
        depth = d;
        fed = λ place bytes p fits lim. (
          refl,
          record {
            ready =
                fresh_cache-IsReady s.cache s.prefetcher s.blob_bytes (budget_of s) be new.0 new.1 p
                  fits lim got;
            arrives = λ layer e idx b small held found i k.
                absurd (no_index s.prefetcher layer e idx new.1 found);
          },
        );
      })

  init_oracle-IsSetUp :
      (load : Text → ℕ → Option (OracleNet A greater)) (be : Backend) (s : State)
      → IsNew s
      → s.staged.hidden ≡ s.config.hidden
      → (init_oracle A greater C load be s).0 ≡ done true
      → IsSetUp (init_oracle A greater C load be s).1
  unfolding init_oracle
  init_oracle-IsSetUp load be s new h ok =
      elim (Option-cases (load s.config.oracle_path s.staged.hidden)) [
        | inl e ↦
            let refused : (init_oracle A greater C load be s).0 ≡ done false =
              rw (e, init_oracle) refl in
            absurd (cc (sym refused ∙ ok))
        | inr (net, e) ↦
            let least : ℕ =
              if ltb net.layers.size s.config.num_layers
              then net.layers.size
              else s.config.num_layers in
            let s' : State = record s {
              net = net;
              config = record (s.config) { num_layers = least };
            } in
            let same : init_oracle A greater C load be s ≡ init_cache A greater C be s' =
              rw (e, init_oracle) refl in
            subst (λ r. IsSetUp r.1) (sym same)
              (init_cache-IsSetUp be s' new h (ground arith) (ap (λ r. r.0) (sym same) ∙ ok))
      ]

  -- The state with the dimensions of expert 0.
  init_shard-IsSetUp :
      (load : Text → ℕ → Option (OracleNet A greater)) (be : Backend) (s₀ : State)
      → IsNew s₀
      → (init_shard A greater C load be s₀).0 ≡ done true
      → IsSetUp (init_shard A greater C load be s₀).1
  unfolding init_shard sized
  init_shard-IsSetUp load be s₀ new ok =
      let s : State = record s₀ { shards = register_shard 1 s₀.shards } in
      let gv : TensorView =
        resolve_expert s.memory (λ _. s.mmap) s.shards (avail_layer (resolver_of A greater C s) 0) 0
          gate_proj in
      elim (Bool-cases (is_ok gv)) [
        | inr bad ↦
            let refused : (init_shard A greater C load be s₀).0 ≡ done false =
              rw (bad, init_shard) refl in
            absurd (cc (sym refused ∙ ok))
        | inl good ↦ elim (Option-cases (two_of A greater C gv.shape)) [
          | inl e ↦
              let refused : (init_shard A greater C load be s₀).0 ≡ done false =
                rw (good, e, init_shard) refl in
              absurd (cc (sym refused ∙ ok))
          | inr ((rows, columns), e) ↦
              let s' : State = sized A greater C (rows % 2 ^ 32) (columns % 2 ^ 32) s in
              elim (Bool-cases (s'.staged.hidden == s.config.hidden)) [
                | inr differ ↦
                    let refused : (init_shard A greater C load be s₀).0 ≡ done false =
                      rw (good, e, differ, init_shard) refl in
                    absurd (cc (sym refused ∙ ok))
                | inl agree ↦
                    let same : init_shard A greater C load be s₀
                        ≡ init_oracle A greater C load be s' =
                      rw (good, e, agree, init_shard) refl in
                    subst (λ r. IsSetUp r.1) (sym same)
                      (init_oracle-IsSetUp load be s' new (ground (arith, agree))
                        (ap (λ r. r.0) (sym same) ∙ ok))
              ]
        ]
      ]

  after_open-IsSetUp :
      (load : Text → ℕ → Option (OracleNet A greater)) (be : Backend) (answer : Outcome Bool)
      (s : State)
      → IsNew s
      → (after_open A greater C load be answer s).0 ≡ done true
      → IsSetUp (after_open A greater C load be answer s).1
  unfolding after_open
  after_open-IsSetUp load be thrown s new ok = absurd (cc ok)
  after_open-IsSetUp load be out_of_fuel s new ok = absurd (cc ok)
  after_open-IsSetUp load be (done false) s new ok = absurd (cc ok)
  after_open-IsSetUp load be (done true) s new ok = init_shard-IsSetUp load be s new ok

  -- An engine whose `init` succeeds has the hidden dimension that was asked for, no more layers than
  -- the Oracle, and where its budget has room for a block, a cache and a prefetcher that are ready to
  -- stream experts.
  pub init-IsSetUp :
      (stod : Text → Option C.Double) (os : Os) (load : Text → ℕ → Option (OracleNet A greater))
      (be : Backend) (config : EngineConfig) (s : State)
      → s.cache ≡ new_manager
      → s.prefetcher ≡ new_prefetcher
      → (init A greater C stod os load be config s).0 ≡ done true
      → IsSetUp (init A greater C stod os load be config s).1
  unfolding init sized
  init-IsSetUp stod os load be config s new_c new_p ok =
      let opened = open_file stod os s.memory config.shard_path s.mmap in
      let provisional : State =
        sized A greater C 256 config.hidden (record s { config = config }) in
      after_open-IsSetUp load be opened.0 (record provisional { mmap = opened.1 }) (new_c, new_p) ok
