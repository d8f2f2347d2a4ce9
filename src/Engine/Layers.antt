-- ===== src/Engine/Layers.antt =====
-- The loop over the layers in `Engine::generate` of dee.cpp/src/engine.cpp.
use dee.Prelude.{
  ℕ, zero, suc, ◌+◌, ◌≡◌, refl, sym, ap, ◌∙◌, Bool, none, some, arith, inl, inr, Option-cases,
}
use dee.Kernels.{Arithmetic}
use dee.Engine.{Conversions, EngineState, forward_layer, token_layers}

module _ (A : Arithmetic) (greater : A.Float → A.Float → Bool) (C : Conversions A) where
  pub layers_stop :
      (place : ℕ → ℕ) (n layer : ℕ) (s : EngineState A greater C) (h_in h_out : ℕ → A.Float)
      → forward_layer A greater C place s layer h_in ≡ none
      → token_layers A greater C place (suc n) layer s h_in h_out ≡ none
  unfolding token_layers
  layers_stop place n layer s h_in h_out f = rw (f, token_layers) refl

  pub layers_next :
      (place : ℕ → ℕ) (n layer : ℕ) (s t : EngineState A greater C) (h_in h_out o : ℕ → A.Float)
      → forward_layer A greater C place s layer h_in ≡ some (o, t)
      → token_layers A greater C place (suc n) layer s h_in h_out
        ≡ token_layers A greater C place n (layer + 1) t h_in o
  unfolding token_layers
  layers_next place n layer s t h_in h_out o f = rw (f, token_layers) refl

  -- The output of a token's loop over `n + 1` layers is the output of the last of them on the token's
  -- own input: what the layers before it put out is overwritten, and no layer reads it.
  pub token_layers_last :
      (place : ℕ → ℕ) (n layer : ℕ) (s s' : EngineState A greater C) (h_in h_out out : ℕ → A.Float)
      → token_layers A greater C place (suc n) layer s h_in h_out ≡ some (out, s')
      → (t : EngineState A greater C) × (forward_layer A greater C place t (layer + n) h_in
          ≡ some (out, s'))
  unfolding token_layers
  token_layers_last place zero layer s s' h_in h_out out e =
      elim (Option-cases (forward_layer A greater C place s layer h_in)) [
        | inl f ↦ absurd (cc (sym (layers_stop place zero layer s h_in h_out f) ∙ e))
        | inr ((o, t), f) ↦
            let last : layer + 0 ≡ layer = omega arith in
            (
              s,
              ap (λ k. forward_layer A greater C place s k h_in) last
                  ∙ f
                  ∙ (sym (layers_next place zero layer s t h_in h_out o f) ∙ e),
            )
      ]
  token_layers_last place (suc n) layer s s' h_in h_out out e =
      elim (Option-cases (forward_layer A greater C place s layer h_in)) [
        | inl f ↦ absurd (cc (sym (layers_stop place (suc n) layer s h_in h_out f) ∙ e))
        | inr ((o, t), f) ↦
            let (u, g) =
              token_layers_last place n (layer + 1) t s' h_in o out
                (sym (layers_next place (suc n) layer s t h_in h_out o f) ∙ e) in
            let last : layer + suc n ≡ layer + 1 + n = omega arith in
            (u, ap (λ k. forward_layer A greater C place u k h_in) last ∙ g)
      ]
