-- ===== src/Weights/Resolver.antt =====
-- The search of an expert's tensor: `class TensorResolver` and `expert_tensor_name` of
-- dee.cpp/src/weight_mmap.cpp and dee.cpp/include/dee/weight_mmap.h.
use dee.Prelude.{ℕ, List, [], ◌∷◌, ◌++◌, ◌==◌, if◌then◌else◌}
use dee.Prefetch.{Memory}
use dee.Json.{Text, codes}
use dee.Json.Print.{digits}
use dee.Staging.{Projection, gate_proj, up_proj, down_proj}
use dee.Weights.{TensorView, no_view, is_ok, WeightMmap, lookup}

abbrev pub projection_name : Projection → Text
projection_name gate_proj = codes "gate_proj"
projection_name up_proj = codes "up_proj"
projection_name down_proj = codes "down_proj"

-- A layer and an expert are numbers of an `int` that is not negative, of at most ten digits, so that
-- the buffer of 256 bytes is long enough.
unfoldable pub expert_tensor_name : ℕ → ℕ → Projection → Text
expert_tensor_name layer expert kind =
    codes "model.language_model.layers."
    ++ (digits 10 layer
        ++ (codes ".mlp.experts."
            ++ (digits 10 expert ++ (b'.' ∷ (projection_name kind ++ codes ".weight")))))

-- `class TensorResolver`: the addresses of the shards, whose objects a store holds.
abbrev pub Shards : Type 0
Shards = List ℕ

unfoldable pub register_shard : ℕ → Shards → Shards
register_shard shard shards = if shard == 0 then shards else shards ++ shard ∷ []

-- The loop of `resolve_expert`.
unfoldable pub first_ok : Memory → (ℕ → WeightMmap) → Text → Shards → TensorView
first_ok mem store name [] = no_view
first_ok mem store name (shard ∷ shards) =
    let rest : TensorView = first_ok mem store name shards in
    let v : TensorView = lookup mem (store shard) name in if is_ok v then v else rest

unfoldable pub resolve_expert : Memory → (ℕ → WeightMmap) → Shards → ℕ → ℕ → Projection → TensorView
resolve_expert mem store shards layer expert kind =
    first_ok mem store (expert_tensor_name layer expert kind) shards
