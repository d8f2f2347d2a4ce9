-- ===== src/Engine/Counts.antt =====
-- The statistics of `Engine::generate` of dee.cpp/src/engine.cpp.
use dee.Prelude.{
  ℕ, zero, suc, ◌+◌, ◌-◌, ◌==◌, ◌≡◌, refl, sym, ap, ◌∙◌, Bool, none, some, List, [], ◌∷◌, inl, inr,
  ltb, length, Option-cases, Bool-cases,
}
use dee.Map.{find}
use dee.Device.{num_eq}
use dee.Keys.{key_eq}
use dee.Kernels.{Arithmetic}
use dee.Cache.{data_of}
use dee.Oracle.{predict}
use dee.Staging.{get_staging}
use dee.Engine.{
  Conversions, EngineState, resolver_of, staged_blob, stage_expert, stage_all, use_expert, use_all,
  combine, forward_layer, token_layers, track_peak, token_loop, gather, generate,
}
use dee.Engine.Layers.{layers_stop, layers_next}
use dee.Prefetch.Counts.{fallbacks_of, prefetch_fallbacks, touch_fallbacks}

module _ (A : Arithmetic) (greater : A.Float → A.Float → Bool) (C : Conversions A)
    (place : ℕ → ℕ) where
  abbrev State : Type 0
  State = EngineState A greater C

  abbrev count : State → ℕ
  count s = s.cache.stats.fallbacks

  staged_blob_cache :
      (s : State) (expert : ℕ) → (staged_blob A greater C place s expert).1.cache ≡ s.cache
  unfolding staged_blob
  staged_blob_cache s expert = elim (Option-cases (find expert s.staged.staging)) [
    | inl e ↦
        elim (Option-cases (get_staging (resolver_of A greater C s) s.memory s.staged expert).0) [
          | inl f ↦ rw (e, f, staged_blob) refl
          | inr (b, f) ↦ rw (e, f, staged_blob) refl
        ]
    | inr (b, e) ↦ rw (e, staged_blob) refl
  ]

  count-stage_expert :
      (s : State) (layer expert priority : ℕ)
      → count (stage_expert A greater C place s layer expert priority) ≡ count s
  unfolding stage_expert
  count-stage_expert s layer expert priority =
      let s' : State = (staged_blob A greater C place s expert).1 in
      let same : count s' ≡ count s = ap fallbacks_of (staged_blob_cache s expert) in
      elim (Option-cases (staged_blob A greater C place s expert).0) [
        | inl e ↦ rw (e, stage_expert) same
        | inr (src, e) ↦
            rw (e, stage_expert)
              (prefetch_fallbacks s'.cache s'.prefetcher layer expert src s'.blob_bytes priority
                ∙ same)
      ]

  count-stage_all :
      (s : State) (layer priority : ℕ) (es : List ℕ)
      → count (stage_all A greater C place s layer priority es) ≡ count s
  unfolding stage_all
  count-stage_all s layer priority [] = refl
  count-stage_all s layer priority (e ∷ es) =
      count-stage_all (stage_expert A greater C place s layer e priority) layer (priority - 1) es
      ∙ count-stage_expert s layer e priority

  count-use_all :
      (s : State) (layer : ℕ) (x : ℕ → A.Float) (es : List ℕ) (acc : ℕ → A.Float)
      → count (use_all A greater C s layer x es acc).1 ≡ count s
  unfolding use_all use_expert
  count-use_all s layer x [] acc = refl
  count-use_all s layer x (e ∷ es) acc =
      let r = use_expert A greater C s layer x e acc in
      count-use_all r.1 layer x es r.0 ∙ elim (Bool-cases (data_of s.cache layer e == 0)) [
        | inl null ↦ rw (null, use_expert) refl
        | inr here ↦ rw (here, use_expert) (touch_fallbacks s.cache layer e)
      ]

  -- The state behind a layer, and its output, where the Oracle names the experts `es`.
  ran : State → ℕ → (ℕ → A.Float) → List ℕ → (ℕ → A.Float) × State
  ran s layer x es =
      use_all A greater C (stage_all A greater C place s layer s.config.topk es) layer x es
        (λ _. A.zero_float)

  forward_layer-some :
      (s : State) (layer : ℕ) (x : ℕ → A.Float) (es : List ℕ)
      → predict A greater s.net layer x s.config.topk ≡ some es
      → forward_layer A greater C place s layer x
        ≡ some (
          combine A greater C (ran s layer x es).1.staged.hidden (length es) (ran s layer x es).0,
          (ran s layer x es).1,
        )
  unfolding forward_layer ran
  forward_layer-some s layer x es f = rw (f, forward_layer) refl

  forward_layer-none :
      (s : State) (layer : ℕ) (x : ℕ → A.Float)
      → predict A greater s.net layer x s.config.topk ≡ none
      → forward_layer A greater C place s layer x ≡ none
  unfolding forward_layer
  forward_layer-none s layer x f = rw (f, forward_layer) refl

  count-forward_layer :
      (s s' : State) (layer : ℕ) (x out : ℕ → A.Float)
      → forward_layer A greater C place s layer x ≡ some (out, s')
      → count s' ≡ count s
  unfolding ran
  count-forward_layer s s' layer x out e =
      elim (Option-cases (predict A greater s.net layer x s.config.topk)) [
        | inl f ↦ absurd (cc (sym (forward_layer-none s layer x f) ∙ e))
        | inr (es, f) ↦
            let staged : State = stage_all A greater C place s layer s.config.topk es in
            let same : (ran s layer x es).1 ≡ s' =
              cc (sym (forward_layer-some s layer x es f) ∙ e) in
            ap count (sym same)
            ∙ count-use_all staged layer x es (λ _. A.zero_float)
            ∙ count-stage_all s layer s.config.topk es
      ]

  count-token_layers :
      (n layer : ℕ) (s s' : State) (h_in h_out out : ℕ → A.Float)
      → token_layers A greater C place n layer s h_in h_out ≡ some (out, s')
      → count s' ≡ count s
  unfolding token_layers
  count-token_layers zero layer s s' h_in h_out out e =
      let same : s ≡ s' = cc e in ap count (sym same)
  count-token_layers (suc n) layer s s' h_in h_out out e =
      elim (Option-cases (forward_layer A greater C place s layer h_in)) [
        | inl f ↦ absurd (cc (sym (layers_stop A greater C place n layer s h_in h_out f) ∙ e))
        | inr ((o, t), f) ↦
            count-token_layers n (layer + 1) t s' h_in o out
              (sym (layers_next A greater C place n layer s t h_in h_out o f) ∙ e)
            ∙ count-forward_layer s t layer h_in o f
      ]

  count-track_peak : (s : State) → count (track_peak A greater C s) ≡ count s
  unfolding track_peak
  count-track_peak s = elim (Bool-cases (ltb s.stats.peak_vram s.cache.arena.used)) [
    | inl more ↦ rw (more, track_peak) refl
    | inr less ↦ rw (less, track_peak) refl
  ]

  token_loop-some :
      (n : ℕ) (s t : State) (h_in h_out o : ℕ → A.Float)
      → token_layers A greater C place s.config.num_layers 0 s h_in h_out ≡ some (o, t)
      → token_loop A greater C place (suc n) s h_in h_out
        ≡ token_loop A greater C place n (track_peak A greater C t) o h_in
  unfolding token_loop
  token_loop-some n s t h_in h_out o f = rw (f, token_loop) refl

  token_loop-none :
      (n : ℕ) (s : State) (h_in h_out : ℕ → A.Float)
      → token_layers A greater C place s.config.num_layers 0 s h_in h_out ≡ none
      → token_loop A greater C place (suc n) s h_in h_out ≡ none
  unfolding token_loop
  token_loop-none n s h_in h_out f = rw (f, token_loop) refl

  count-token_loop :
      (n : ℕ) (s s' : State) (h_in h_out out : ℕ → A.Float)
      → token_loop A greater C place n s h_in h_out ≡ some (out, s')
      → count s' ≡ count s
  unfolding token_loop
  count-token_loop zero s s' h_in h_out out e = let same : s ≡ s' = cc e in ap count (sym same)
  count-token_loop (suc n) s s' h_in h_out out e =
      elim (Option-cases (token_layers A greater C place s.config.num_layers 0 s h_in h_out)) [
        | inl f ↦ absurd (cc (sym (token_loop-none n s h_in h_out f) ∙ e))
        | inr ((o, t), f) ↦
            count-token_loop n (track_peak A greater C t) s' o h_in out
              (sym (token_loop-some n s t h_in h_out o f) ∙ e)
            ∙ count-track_peak t
            ∙ count-token_layers s.config.num_layers 0 s t h_in h_out o f
      ]

  generate-some :
      (s t : State) (other o : ℕ → A.Float)
      → token_loop A greater C place s.config.num_tokens s C.prompt other ≡ some (o, t)
      → generate A greater C place s other ≡ some (o, gather A greater C o t)
  unfolding generate
  generate-some s t other o f = rw (f, generate) refl

  generate-none :
      (s : State) (other : ℕ → A.Float)
      → token_loop A greater C place s.config.num_tokens s C.prompt other ≡ none
      → generate A greater C place s other ≡ none
  unfolding generate
  generate-none s other f = rw (f, generate) refl

  -- The fallbacks that `generate` reports are those that the cache had counted before it began: no
  -- run adds any, however many experts were not resident when they were to be used.
  pub generate_fallbacks :
      (s s' : State) (other out : ℕ → A.Float)
      → generate A greater C place s other ≡ some (out, s')
      → s'.stats.fallbacks ≡ s.cache.stats.fallbacks
  unfolding gather
  generate_fallbacks s s' other out e =
      elim (Option-cases (token_loop A greater C place s.config.num_tokens s C.prompt other)) [
        | inl f ↦ absurd (cc (sym (generate-none s other f) ∙ e))
        | inr ((o, t), f) ↦
            let same : gather A greater C o t ≡ s' = cc (sym (generate-some s t other o f) ∙ e) in
            ap (λ u. u.stats.fallbacks) (sym same)
            ∙ count-token_loop s.config.num_tokens s t C.prompt other o f
      ]
