-- ===== src/Kernels.antt =====
-- The arithmetic of an expert: `expert_mlp` of dee.cpp/src/moe_forward.cpp, and `Engine::swiglu` of
-- dee.cpp/src/engine.cpp. A `const float*` is a function from offsets, and the arithmetic of `float`
-- is a parameter: the order of the sums is kept, since it need not be associative.
pub mod Equal
use dee.Prelude.{ℕ, zero, suc, ◌+◌, ◌*◌, Bool, true, false, ltb, if◌then◌else◌}

pub record Arithmetic : Type 1 where
  pub Float : Type 0
  pub zero_float : Float
  pub one_float : Float
  pub add : Float → Float → Float
  pub mul : Float → Float → Float
  pub div : Float → Float → Float
  pub neg : Float → Float
  pub exp : Float → Float

module _ (A : Arithmetic) where
  open A use {Float, zero_float, one_float, add, mul, div, neg, exp}

  -- `for (j < n) s += w[j] * x[j];`
  unfoldable pub dot : ℕ → (ℕ → Float) → (ℕ → Float) → Float → Float
  dot zero w x s = s
  dot (suc n) w x s = add (dot n w x s) (mul (w n) (x n))

  unfoldable pub silu : Float → Float
  silu z = div z (add one_float (exp (neg z)))

  -- Row `r` of the product; `W` is row-major with `cols` columns.
  unfoldable pub matvec : (ℕ → Float) → (ℕ → Float) → ℕ → ℕ → Float
  matvec W x cols r = dot cols (λ c. W (r * cols + c)) x zero_float

  -- The scratch buffers `gate`, `up` and `act` are the three functions.
  unfoldable pub expert_mlp : (ℕ → Float) → ℕ → ℕ → (ℕ → Float) → (ℕ → Float) → ℕ → Float
  expert_mlp x hidden inter gate_up down =
      let gate : ℕ → Float = matvec gate_up x hidden in
      let up : ℕ → Float = matvec (λ k. gate_up (inter * hidden + k)) x hidden in
      let act : ℕ → Float = λ i. mul (silu (gate i)) (up i) in matvec down act inter

  -- The value `h` of row `i` in `swiglu`.
  unfoldable pub gated : (ℕ → Float) → (ℕ → Float) → ℕ → ℕ → ℕ → Float
  gated blob x inter hidden i =
      let g : Float = dot hidden (λ j. blob (i * hidden + j)) x zero_float in
      let f : Float = dot hidden (λ j. blob (inter * hidden + (i * hidden + j))) x zero_float in
      mul (div g (add one_float (exp (neg g)))) f

  -- The first `i` rounds of the outer loop.
  unfoldable pub swiglu_rounds : ℕ → (ℕ → Float) → (ℕ → Float) → ℕ → ℕ → (ℕ → Float) → ℕ → Float
  swiglu_rounds zero blob x inter hidden acc = acc
  swiglu_rounds (suc i) blob x inter hidden acc =
      let before : ℕ → Float = swiglu_rounds i blob x inter hidden acc in
      let h : Float = gated blob x inter hidden i in
      λ o.
        if ltb o hidden
        then add (before o) (mul (blob (2 * (inter * hidden) + (i * hidden + o))) h)
        else before o

  unfoldable pub swiglu : (ℕ → Float) → (ℕ → Float) → ℕ → ℕ → (ℕ → Float) → ℕ → Float
  swiglu blob x inter hidden acc = swiglu_rounds inter blob x inter hidden acc
