-- ===== src/Tests/Staging.antt =====
-- Staging by dee.cpp/src/engine.cpp from a small shard, and the theorem at it.
use dee.Prelude.{ℕ, ◌+◌, ◌*◌, ◌≡◌, refl, none, some, []}
use dee.Map.{find, assign}
use dee.Device.{num_eq}
use dee.Half.{bf16_to_f32, shift_left}
use dee.Staging
use dee.Staging.{Projection, gate_proj, up_proj, down_proj, Resolver, Engine}
use dee.Staging.Blob.{Staged, get_staging-Staged}

staging_program : Unit {0}
unfolding find assign bf16_to_f32 Staging.avail_layer Staging.read_u16 Staging.fill Staging.new_blob
    Staging.get_staging
staging_program = tt

-- The byte at each address is its address; the projections lie one behind the other.
abbrev resolver : Resolver
resolver layer expert gate_proj = some 0
resolver layer expert up_proj = some 4
resolver layer expert down_proj = some 8

abbrev engine : Engine
engine = record { hidden = 2; inter = 1; staging = [] }

abbrev shard : ℕ → ℕ
shard a = a

second_up : Staging.new_blob 1 2 shard 0 4 8 3 ≡ shift_left (6 + 256 * 7) 16
unfolding staging_program
second_up = refl

nothing_staged : find 5 engine.staging ≡ none
unfolding staging_program
nothing_staged = refl

get_staging-Staged_example : Staged resolver shard engine 5 0 4 8
get_staging-Staged_example =
    get_staging-Staged resolver shard engine 5 0 4 8 nothing_staged refl refl refl
