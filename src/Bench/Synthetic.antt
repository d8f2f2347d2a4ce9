-- ===== src/Bench/Synthetic.antt =====
-- `class SyntheticWeightSource` of dee.cpp/tools/dee_bench.cpp, with the interface of
-- dee.cpp/include/dee/weight_source.h. The vectors of floats are functions of the place, and the
-- conversion of an `int` to `float` is a parameter. Dimensions are not negative; the sums of `int`
-- in the constructor are taken as they are.
use dee.Prelude.{ℕ, zero, suc, ◌+◌, ◌*◌, ◌%◌, ◌^◌, Option, none, some, List, [], ◌∷◌, ◌++◌}
use dee.Map.{Map, find, assign}
use dee.Keys.{ExpertKey, key_eq}
use dee.Json.{Text, codes}
use dee.Json.Print.{digits}

pub data ExpertTensor : Type 0 where
  gate_up : ExpertTensor
  down : ExpertTensor

module _ (Float : Type 0) (float_of_int : ℕ → Float) where
  -- The data stands for the pointer to it.
  pub record ExpertTensorView : Type 0 where
    pub values : ℕ → Float
    pub nbytes : ℕ
    pub slot_offset : ℕ
    pub kind : ExpertTensor

  pub record Entry : Type 0 where
    pub gu : ℕ → Float
    pub dn : ℕ → Float

  pub record SyntheticWeightSource : Type 0 where
    pub entries : Map ExpertKey Entry
    pub nl : ℕ
    pub ne : ℕ
    pub hidden : ℕ
    pub inter : ℕ
    pub gu_bytes : ℕ
    pub dn_bytes : ℕ

  unfoldable pub entry_of : ℕ → ℕ → Entry
  entry_of L E = record {
    gu = λ i. float_of_int ((L * 131 + E * 17 + i * 3 + 1) % 2 ^ 64 % 256);
    dn = λ i. float_of_int ((L * 197 + E * 11 + i * 5 + 2) % 2 ^ 64 % 256);
  }

  -- The first `n` rounds of the loop over the experts of a layer.
  unfoldable pub add_experts : ℕ → ℕ → Map ExpertKey Entry → Map ExpertKey Entry
  add_experts L zero m = m
  add_experts L (suc E) m =
      assign (record { layer = L; expert = E }) (entry_of L E) (add_experts L E m)

  -- The first `n` rounds of the loop over the layers.
  unfoldable pub add_layers : ℕ → ℕ → Map ExpertKey Entry
  add_layers ne zero = []
  add_layers ne (suc L) = add_experts L ne (add_layers ne L)

  unfoldable pub new_source : (nl ne hidden inter : ℕ) → SyntheticWeightSource
  new_source nl ne hidden inter = record {
    entries = add_layers ne nl;
    nl = nl;
    ne = ne;
    hidden = hidden;
    inter = inter;
    gu_bytes = 2 * inter * hidden % 2 ^ 64 * 4 % 2 ^ 64;
    dn_bytes = hidden * inter % 2 ^ 64 * 4 % 2 ^ 64;
  }

  -- `none` for the exception of `at`.
  unfoldable pub expert_tensors : SyntheticWeightSource → ℕ → ℕ → Option (List ExpertTensorView)
  expert_tensors s layer expert_id =
      elim (find (record { layer = layer; expert = expert_id }) s.entries) [
        | none ↦ none
        | some d ↦ some (
            record { values = d.gu; nbytes = s.gu_bytes; slot_offset = 0; kind = gate_up }
            ∷ record { values = d.dn; nbytes = s.dn_bytes; slot_offset = s.gu_bytes; kind = down }
            ∷ [])
      ]

  unfoldable pub expert_total_bytes : SyntheticWeightSource → ℕ
  expert_total_bytes s = (s.gu_bytes + s.dn_bytes) % 2 ^ 64

  unfoldable pub tensor_name : ℕ → ℕ → ExpertTensor → Text
  tensor_name layer e gate_up =
      codes "synth." ++ digits 10 layer ++ codes "." ++ digits 10 e ++ codes "." ++ codes "gu"
  tensor_name layer e down =
      codes "synth." ++ digits 10 layer ++ codes "." ++ digits 10 e ++ codes "." ++ codes "dn"

-- `slot_bytes` of `main` without a directory of weights.
unfoldable pub slot_bytes_for : (inter hidden : ℕ) → ℕ
slot_bytes_for inter hidden =
    (((2 * inter * hidden % 2 ^ 64 + hidden * inter % 2 ^ 64) % 2 ^ 64) * 4 % 2 ^ 64 + 64) % 2 ^ 64
