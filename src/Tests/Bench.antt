-- ===== src/Tests/Bench.antt =====
-- The stand-ins of dee.cpp/tools/dee_bench.cpp at small numbers, and the theorems there.
use dee.Prelude.{ℕ, ◌+◌, ◌-◌, ◌^◌, ◌≡◌, refl, ◌∷◌, List, [], some, none, arith}
use dee.Checkpoint.{gives, undefined}
use dee.Json.{codes, text_eq}
use dee.Tests.Kernels.{whole}
use dee.Bench
use dee.Bench.{Casts, predict, route, sample}
use dee.Bench.Ints
use dee.Bench.Ints.{rem_signed}
use dee.Bench.Bounds.{Draws, predict-route}
use dee.Bench.Options
use dee.Bench.Synthetic.{expert_tensors, new_source, expert_total_bytes, slot_bytes_for}
use dee.Bench.Supplies.{views_of, expert_tensors-new_source}
use dee.Tests.Checkpoint.{checkpoint_program}
use dee.Bench.Options.{Flag, topk, max_new, Options, default, parse, set_all, options, set_number}

abbrev casts : Casts whole
casts = record {
  thousand = 1000;
  float_of_int = λ i. i;
  int_of = λ x. gives x;
  long_of = λ x. gives x;
}

abbrev hidden : ℕ → ℕ
hidden i = i + 3

abbrev flat : ℕ → ℕ
flat i = 3

predict-route_example : Draws whole casts 16 2 4 hidden
predict-route_example =
    predict-route whole casts 16 2 4 3000 hidden (omega arith) refl (omega arith)

-- -3000 % 16 is -8, and the base 8.
negative_base :
    Bench.base_of whole (record casts { int_of = λ x. gives (2 ^ 32 - x) }) 16 hidden ≡ gives 8
unfolding Bench.base_of rem_signed Ints.signed Ints.add_signed
negative_base = refl

no_experts : Bench.base_of whole casts 0 hidden ≡ undefined
unfolding Bench.base_of rem_signed
no_experts = refl

token : sample whole casts 7 flat 2 ≡ gives 2
unfolding sample Bench.hash rem_signed Ints.signed Ints.add_signed Ints.mul_signed
token = refl

abbrev settings : List (Flag × ℕ)
settings = (topk, 4) ∷ (max_new, 10) ∷ (topk, 6) ∷ []

abbrev defaults : Options
defaults = record { number = default; weights_dir = [] }

last_counts : (set_all settings defaults).number topk ≡ 6
unfolding set_all set_number text_eq Options.name_of
last_counts = refl

no_new_tokens : options (codes "--max-new" ∷ codes "0" ∷ []) ≡ gives none
unfolding checkpoint_program Options.flag_among Options.name_of set_number parse options
no_new_tokens = refl

expert_tensors-new_source_example :
    (expert_tensors ℕ (λ i. i) (new_source ℕ (λ i. i) 2 3 4 5) 1 2
      ≡ some (views_of ℕ (λ i. i) 4 5 1 2))
    × (expert_total_bytes ℕ (λ i. i) (new_source ℕ (λ i. i) 2 3 4 5) ≡ 240)
    × (slot_bytes_for 5 4 ≡ 304)
expert_tensors-new_source_example = expert_tensors-new_source ℕ (λ i. i) 2 3 4 5 1 2 (omega arith)
