-- ===== src/Staging.antt =====
-- The staging of experts by `class Engine` of dee.cpp/src/engine.cpp: `avail_layer` and
-- `get_staging`. The shard is read-only memory, and the resolver, which finds a projection's
-- bytes in it, is a parameter. A staged blob is a vector of floats, each by its bits.
pub mod Blob
use dee.Prelude.{ℕ, zero, suc, ◌+◌, ◌*◌, ◌%◌, ◌^◌, ◌≡◌, Option, none, some, ◌==◌, if◌then◌else◌}
use dee.Map.{Map, find, assign}
use dee.Half.{bf16_to_f32}
use dee.Device.{num_eq}
use dee.Prefetch.{Memory}

pub data Projection : Type 0 where
  gate_proj : Projection
  up_proj : Projection
  down_proj : Projection

-- `layer`, `expert` and projection to the address of the tensor's data; `none` where it is not ok.
abbrev pub Resolver : Type 0
Resolver = ℕ → ℕ → Projection → Option ℕ

-- The members that staging uses.
pub record Engine : Type 0 where
  pub hidden : ℕ
  pub inter : ℕ
  pub staging : Map ℕ (ℕ → ℕ)

unfoldable pub avail_layer : Resolver → ℕ → ℕ
avail_layer resolve layer = elim (resolve 0 0 gate_proj) [ some _ ↦ 0 | none ↦ layer ]

-- `*(const uint16_t*)a`, the low byte first.
unfoldable pub read_u16 : Memory → ℕ → ℕ
read_u16 shard a = shard a + 256 * shard (a + 1)

-- `for (i < n) blob[off + i] = bf16_to_f32(*(const uint16_t*)(data + i * 2));`
unfoldable pub fill : ℕ → Memory → ℕ → ℕ → (ℕ → ℕ) → ℕ → ℕ
fill zero shard data_at off blob = blob
fill (suc i) shard data_at off blob =
    let before : ℕ → ℕ = fill i shard data_at off blob in
    λ k. if k == off + i then bf16_to_f32 (read_u16 shard (data_at + i * 2)) else before k

-- The blob of an expert: gate, up and down, one behind the other.
unfoldable pub new_blob : ℕ → ℕ → Memory → ℕ → ℕ → ℕ → ℕ → ℕ
new_blob inter hidden shard gate up down =
    let gh : ℕ = inter * hidden in
    fill (hidden * inter) shard down (2 * gh) (fill gh shard up gh (fill gh shard gate 0 (λ _. 0)))

unfoldable pub get_staging : Resolver → Memory → Engine → ℕ → Option (ℕ → ℕ) × Engine
get_staging resolve shard e expert = elim (find expert e.staging) [
  | some blob ↦ (some blob, e)
  | none ↦
      let sl : ℕ = avail_layer resolve 0 in
      elim (resolve sl expert gate_proj) [
        | none ↦ (none, e)
        | some gate ↦ elim (resolve sl expert up_proj) [
          | none ↦ (none, e)
          | some up ↦ elim (resolve sl expert down_proj) [
            | none ↦ (none, e)
            | some down ↦
                let blob : ℕ → ℕ = new_blob e.inter e.hidden shard gate up down in
                (some blob, record e { staging = assign expert blob e.staging })
          ]
        ]
      ]
]
