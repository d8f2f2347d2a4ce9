-- ===== src/Generator/Tokens.antt =====
-- The tokens that dee.cpp/src/generation.cpp generates.
use dee.Prelude.{
  ℕ, zero, suc, ◌-◌, ◌<◌, ◌≡◌, ◌≢◌, ◌⊎◌, inl, inr, refl, List, [], ◌∷◌, arith, ◌==◌, Bool-cases,
}
use mathlib.Core.Path.{subst}
use dee.Kernels.{Arithmetic}
use dee.Generator.{Store, Model, GeneratorConfig, Generator, feed, prefill, decode, generate}

-- A run of at most `most` tokens: as many as allowed with no end token among them, or fewer with
-- the end token as the last one and nowhere else.
abbrev pub IsRun : ℕ → ℕ → List ℕ → Type 0
IsRun eos most [] = most ≡ 0
IsRun eos most (t ∷ ts) =
    (0 < most) × (((t ≡ eos) × (ts ≡ [])) ⊎ ((t ≢ eos) × IsRun eos (most - 1) ts))

module _ (A : Arithmetic) (S : Store A.Float) (M : Model A.Float) (cfg : GeneratorConfig) where
  pred : (n : ℕ) → n ≡ suc n - 1
  pred n = omega arith

  decode-IsRun :
      (n : ℕ) (g : Generator A S M cfg) (x : ℕ → A.Float)
      → IsRun cfg.eos_token n (decode A S M cfg n (g, x)).0
  unfolding decode
  decode-IsRun zero g x = refl
  decode-IsRun (suc n) g x = elim (Bool-cases (M.sample x == cfg.eos_token)) [
    | inl ends ↦ rw (ends, decode) (omega arith, inl (ground (arith, ends), refl))
    | inr goes ↦
        let (g', y) = feed A S M cfg (M.sample x) g in
        rw (goes, decode)
          (
            omega arith,
            inr (
              ground (arith, goes),
              subst (λ k. IsRun cfg.eos_token k (decode A S M cfg n (g', y)).0) (pred n)
                  (decode-IsRun n g' y),
            ),
          )
  ]

  -- For a prompt that is not empty, `generate` returns as many tokens as allowed with no end token
  -- among them, or fewer, or as many, of which the last and no other is the end token.
  pub generate-IsRun :
      (first : ℕ) (rest : List ℕ) (max_new_tokens : ℕ) (g : Generator A S M cfg)
      → IsRun cfg.eos_token max_new_tokens (generate A S M cfg (first ∷ rest) max_new_tokens g).0
  unfolding generate
  generate-IsRun first rest n g = elim (Bool-cases (n == 0)) [
    | inl none_asked ↦ rw (none_asked, generate) (ground (arith, none_asked))
    | inr some_asked ↦
        let (g', x) = prefill A S M cfg first rest g in
        rw (some_asked, generate) (decode-IsRun n g' x)
  ]
