-- ===== src/Tests/Kernels.antt =====
-- The kernels of dee.cpp/src/engine.cpp and dee.cpp/src/moe_forward.cpp on small weights.
use dee.Prelude.{ℕ, ◌+◌, ◌*◌, ◌≡◌, refl, arith}
use dee.Kernels
use dee.Kernels.{Arithmetic, expert_mlp, swiglu}
use dee.Kernels.Equal.{swiglu-expert_mlp}

kernel_program : Unit {0}
unfolding Kernels.dot Kernels.silu Kernels.matvec Kernels.expert_mlp Kernels.gated
    Kernels.swiglu_rounds Kernels.swiglu
kernel_program = tt

-- Whole numbers in place of floats, with a linear activation.
abbrev pub whole : Arithmetic
whole = record {
  Float = ℕ;
  zero_float = 0;
  one_float = 1;
  add = λ a b. a + b;
  mul = λ a b. a * b;
  div = λ a b. a;
  neg = λ a. a;
  exp = λ a. a;
}

-- One row, two columns: gate 1 2, up 3 4, down 5 6.
abbrev blob : ℕ → ℕ
blob k = k + 1

abbrev down : ℕ → ℕ
down k = k + 5

abbrev ones : ℕ → ℕ
ones k = 1

value : expert_mlp whole ones 2 1 blob down 1 ≡ 126
unfolding kernel_program
value = refl

swiglu-expert_mlp_example :
    swiglu whole blob ones 1 2 (λ _. 0) 1 ≡ expert_mlp whole ones 2 1 blob down 1
swiglu-expert_mlp_example =
    swiglu-expert_mlp whole blob down ones 1 2 1 (omega arith) (λ i h. omega arith)
