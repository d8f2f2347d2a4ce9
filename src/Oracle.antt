-- ===== src/Oracle.antt =====
-- `class OracleScheduler` of dee.cpp/src/oracle.cpp, dee.cpp/include/dee/oracle.h: a network of three
-- layers for each decoder layer, whose largest outputs name the experts to fetch. The arithmetic and
-- the order of `float` are parameters; a logit is not NaN.
pub mod Sort
pub mod Top
use dee.Prelude.{
  ℕ, zero, suc, ◌+◌, ◌*◌, Bool, true, false, Option, none, some, List, [], ◌∷◌, ltb, ◌==◌,
  range_from, if◌then◌else◌,
}
use dee.Kernels.{Arithmetic, dot}

-- `std::vector`: its size, and its elements from 0 on.
pub record Vector (A : Type 0) : Type 0 where
  pub size : ℕ
  pub at : ℕ → A

-- `std::min(a, b)`
abbrev pub min_of : ℕ → ℕ → ℕ
min_of a b = if ltb b a then b else a

-- `resize` to no more than the size of the list.
unfoldable pub first : {A : Type 0} → ℕ → List A → List A
first zero xs = []
first (suc n) [] = []
first (suc n) (x ∷ xs) = x ∷ first n xs

-- `std::sort` of numbers: `above a b` says that `a` stands before `b`. The order of numbers of which
-- neither stands before the other is open; here they keep theirs.
unfoldable pub insert : (ℕ → ℕ → Bool) → ℕ → List ℕ → List ℕ
insert above a [] = a ∷ []
insert above a (b ∷ bs) =
    let rest : List ℕ = insert above a bs in if above b a then b ∷ rest else a ∷ b ∷ bs

unfoldable pub sort : (ℕ → ℕ → Bool) → List ℕ → List ℕ
sort above [] = []
sort above (a ∷ xs) = insert above a (sort above xs)

module _ (A : Arithmetic) (greater : A.Float → A.Float → Bool) where
  pub record OracleLayerWeights : Type 0 where
    pub w0 : Vector A.Float
    pub b0 : Vector A.Float
    pub w2 : Vector A.Float
    pub b2 : Vector A.Float
    pub w4 : Vector A.Float
    pub b4 : Vector A.Float

  -- The dimensions `D_`, `H_` and `E_`, and the layers.
  pub record OracleNet : Type 0 where
    pub dim : ℕ
    pub hidden : ℕ
    pub experts : ℕ
    pub layers : Vector OracleLayerWeights

  unfoldable pub linear : Vector A.Float → Vector A.Float → (ℕ → A.Float) → ℕ → ℕ → Vector A.Float
  linear W b x inn out = record {
    size = out;
    at = λ o.
        A.add (dot A inn (λ j. W.at (o * inn + j)) x A.zero_float)
          (if b.size == 0 then A.zero_float else b.at o);
  }

  unfoldable pub relu : A.Float → A.Float
  relu v = if greater v A.zero_float then v else A.zero_float

  abbrev pub relu_all : Vector A.Float → Vector A.Float
  relu_all v = record { size = v.size; at = λ i. relu (v.at i) }

  -- `none` where `layers_.at(layer)` throws.
  unfoldable pub forward : OracleNet → ℕ → (ℕ → A.Float) → Option (Vector A.Float)
  forward net layer x =
      if ltb layer net.layers.size
      then (let w : OracleLayerWeights = net.layers.at layer in
          let h1 : Vector A.Float = relu_all (linear w.w0 w.b0 x net.dim net.hidden) in
          let h2 : Vector A.Float = relu_all (linear w.w2 w.b2 h1.at net.hidden net.hidden) in
          some (linear w.w4 w.b4 h2.at net.hidden net.experts))
      else none

  -- The end of `predict`: the indices sorted by descending logit, and the first of them.
  unfoldable pub top : ℕ → ℕ → (ℕ → A.Float) → List ℕ
  top experts topk logits =
      first (min_of topk experts)
        (sort (λ a b. greater (logits a) (logits b)) (range_from experts 0))

  unfoldable pub predict : OracleNet → ℕ → (ℕ → A.Float) → ℕ → Option (List ℕ)
  predict net layer x topk = elim (forward net layer x) [
    | none ↦ none
    | some logits ↦ some (top net.experts topk logits.at)
  ]

  unfoldable pub predict_next : OracleNet → ℕ → (ℕ → A.Float) → ℕ → Option (List ℕ)
  predict_next net current_layer x topk =
      predict net
        (if ltb (current_layer + 1) net.layers.size then current_layer + 1 else current_layer) x
        topk
