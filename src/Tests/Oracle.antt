-- ===== src/Tests/Oracle.antt =====
-- A small network for dee.cpp/src/oracle.cpp, and the theorem at it.
use dee.Prelude.{ℕ, zero, suc, Bool, ◌≡◌, refl, some, List, [], ◌∷◌, ltb, range_from}
use dee.Tests.Kernels.{whole}
use dee.Kernels
use dee.Oracle
use dee.Oracle.{Vector, OracleLayerWeights, OracleNet, forward, predict}
use dee.Oracle.Top.{IsTop, predict-IsTop}

unfoldable pub oracle_program : Unit {0}
unfolding range_from Kernels.dot Oracle.first Oracle.insert Oracle.sort Oracle.linear Oracle.relu
    Oracle.forward Oracle.top Oracle.predict Oracle.predict_next
oracle_program = tt

abbrev pub greater : ℕ → ℕ → Bool
greater a b = ltb b a

abbrev pub no_bias : Vector ℕ
no_bias = record { size = 0; at = λ _. 0 }

abbrev pub scores : ℕ → ℕ
scores zero = 5
scores (suc zero) = 3
scores (suc (suc _)) = 7

-- One unit in each layer; expert 2 weighs most, then 0, then 1.
abbrev pub weights : OracleLayerWeights whole greater
weights = record {
  w0 = record { size = 1; at = λ _. 1 };
  b0 = no_bias;
  w2 = record { size = 1; at = λ _. 2 };
  b2 = no_bias;
  w4 = record { size = 3; at = scores };
  b4 = no_bias;
}

abbrev pub net : OracleNet whole greater
net = record { dim = 1; hidden = 1; experts = 3; layers = record { size = 1; at = λ _. weights } }

pub two_best : predict whole greater net 0 (λ _. 1) 2 ≡ some (2 ∷ 0 ∷ [])
unfolding oracle_program
two_best = refl

all_logits :
    forward whole greater net 0 (λ _. 1)
    ≡ some (Oracle.linear whole greater weights.w4 no_bias (λ _. 2) 1 3)
unfolding oracle_program
all_logits = refl

predict-IsTop_example :
    (out : List ℕ) × (predict whole greater net 0 (λ _. 1) 2 ≡ some out)
    × IsTop whole greater
        (λ a. a)
        (λ a b. refl)
        net.experts
        2
        (Oracle.linear whole greater weights.w4 no_bias (λ _. 2) 1 3).at
        out
predict-IsTop_example =
    predict-IsTop whole greater (λ a. a) (λ a b. refl) net 0 2 (λ _. 1)
      (Oracle.linear whole greater weights.w4 no_bias (λ _. 2) 1 3) all_logits
