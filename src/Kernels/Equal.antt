-- ===== src/Kernels/Equal.antt =====
-- The two kernels of dee.cpp/src/engine.cpp and dee.cpp/src/moe_forward.cpp compute the same.
use dee.Prelude.{ℕ, zero, suc, ◌+◌, ◌*◌, ◌<◌, ◌≤◌, ◌≡◌, refl, sym, ap, ◌∙◌, arith}
use dee.Kernels.{Arithmetic, dot, silu, matvec, expert_mlp, gated, swiglu_rounds, swiglu}

module _ (A : Arithmetic) where
  dot_same :
      (n : ℕ) (v w x : ℕ → A.Float) (s : A.Float)
      → ((j : ℕ) → j < n → v j ≡ w j)
      → dot A n v x s ≡ dot A n w x s
  unfolding dot
  dot_same zero v w x s h = refl
  dot_same (suc n) v w x s h =
      let rest : dot A n v x s ≡ dot A n w x s = dot_same n v w x s (λ j p. h j (omega arith)) in
      ap (λ y. A.add y (A.mul (v n) (x n))) rest
      ∙ ap (λ y. A.add (dot A n w x s) (A.mul y (x n))) (h n (omega arith))

  -- An output of the rounds is one sum over the rows.
  swiglu_rounds-dot :
      (n : ℕ) (blob x acc : ℕ → A.Float) (inter hidden o : ℕ)
      → o < hidden
      → swiglu_rounds A n blob x inter hidden acc o
        ≡ dot A n
            (λ i. blob (2 * (inter * hidden) + (i * hidden + o)))
            (gated A blob x inter hidden)
            (acc o)
  unfolding swiglu_rounds dot
  swiglu_rounds-dot zero blob x acc inter hidden o h = refl
  swiglu_rounds-dot (suc n) blob x acc inter hidden o h =
      ground (arith, swiglu_rounds-dot n blob x acc inter hidden o h)

  -- The engine's kernel, on an accumulator of zeros, gives what `expert_mlp` gives, bit for bit, if
  -- its part for `down` holds the transpose.
  pub swiglu-expert_mlp :
      (blob down x : ℕ → A.Float) (inter hidden o : ℕ)
      → o < hidden
      → ((i : ℕ)
          → i < inter
          → down (o * inter + i) ≡ blob (2 * (inter * hidden) + (i * hidden + o)))
      → swiglu A blob x inter hidden (λ _. A.zero_float) o ≡ expert_mlp A x hidden inter blob down o
  unfolding swiglu expert_mlp matvec gated silu
  swiglu-expert_mlp blob down x inter hidden o h t =
      swiglu_rounds-dot inter blob x (λ _. A.zero_float) inter hidden o h
      ∙ dot_same inter _ (λ i. down (o * inter + i)) _ A.zero_float (λ i p. sym (t i p))

  -- The engine's kernel writes nothing behind the output.
  pub swiglu_outside :
      (blob x acc : ℕ → A.Float) (inter hidden o : ℕ)
      → hidden ≤ o
      → swiglu A blob x inter hidden acc o ≡ acc o
  unfolding swiglu swiglu_rounds
  swiglu_outside blob x acc inter hidden o h = go inter
    where
      go : (n : ℕ) → swiglu_rounds A n blob x inter hidden acc o ≡ acc o
      go zero = refl
      go (suc n) = ground (arith, go n)
