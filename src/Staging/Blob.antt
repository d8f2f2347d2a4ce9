-- ===== src/Staging/Blob.antt =====
-- What `get_staging` of dee.cpp/src/engine.cpp puts into a blob.
use dee.Prelude.{
  ℕ, zero, suc, ◌+◌, ◌*◌, ◌<◌, ◌≤◌, ◌≡◌, ◌⊎◌, inl, inr, refl, ap, ◌∙◌, none, some, arith, ◌==◌,
  Bool-cases,
}
use native.Mathlib.Nat.{mul_comm}
use dee.Map.{find, assign}
use dee.Map.Laws.{find_assigned}
use dee.Half.{bf16_to_f32}
use dee.Device.{num_eq}
use dee.Prefetch.{Memory}
use dee.Staging.{
  gate_proj, up_proj, down_proj, Resolver, Engine, avail_layer, read_u16, fill, new_blob,
  get_staging,
}

fill_inside :
    (n : ℕ) (shard : Memory) (data_at off : ℕ) (blob : ℕ → ℕ) (i : ℕ)
    → i < n
    → fill n shard data_at off blob (off + i) ≡ bf16_to_f32 (read_u16 shard (data_at + i * 2))
unfolding fill
fill_inside zero shard data_at off blob i h = absurd (omega arith)
fill_inside (suc n) shard data_at off blob i h = elim (Bool-cases (off + i == off + n)) [
  | inl last ↦
      let e : n ≡ i = ground (arith, last) in
      rw (last, fill) (ap (λ j. bf16_to_f32 (read_u16 shard (data_at + j * 2))) e)
  | inr earlier ↦
      rw (earlier, fill) (fill_inside n shard data_at off blob i (ground (arith, earlier)))
]

fill_outside :
    (n : ℕ) (shard : Memory) (data_at off : ℕ) (blob : ℕ → ℕ) (k : ℕ)
    → (k < off) ⊎ (off + n ≤ k)
    → fill n shard data_at off blob k ≡ blob k
unfolding fill
fill_outside zero shard data_at off blob k h = refl
fill_outside (suc n) shard data_at off blob k h =
    ground (arith, fill_outside n shard data_at off blob k)

-- The three parts of a blob are the projections in the shard, converted to `float`.
pub record IsBlob (e : Engine) (shard : Memory) (gate up down : ℕ) (blob : ℕ → ℕ) : Type 0 where
  pub gate_part :
      (i : ℕ) → i < e.inter * e.hidden → blob i ≡ bf16_to_f32 (read_u16 shard (gate + i * 2))
  pub up_part :
      (i : ℕ)
      → i < e.inter * e.hidden
      → blob (e.inter * e.hidden + i) ≡ bf16_to_f32 (read_u16 shard (up + i * 2))
  pub down_part :
      (i : ℕ)
      → i < e.inter * e.hidden
      → blob (2 * (e.inter * e.hidden) + i) ≡ bf16_to_f32 (read_u16 shard (down + i * 2))

new_blob-IsBlob :
    (e : Engine) (shard : Memory) (gate up down : ℕ)
    → IsBlob e shard gate up down (new_blob e.inter e.hidden shard gate up down)
unfolding new_blob
new_blob-IsBlob e shard gate up down =
    let gh : ℕ = e.inter * e.hidden in
    let one : ℕ → ℕ = fill gh shard gate 0 (λ _. 0) in
    let two : ℕ → ℕ = fill gh shard up gh one in
    let outside : (k : ℕ)
        → k < 2 * gh
        → fill (e.hidden * e.inter) shard down (2 * gh) two k ≡ two k =
      λ k h. fill_outside (e.hidden * e.inter) shard down (2 * gh) two k (inl h) in
    record {
      gate_part = λ i h.
          outside i (omega arith)
          ∙ fill_outside gh shard up gh one i (inl h)
          ∙ ap one (zero_plus i)
          ∙ fill_inside gh shard gate 0 (λ _. 0) i h;
      up_part = λ i h. outside (gh + i) (omega arith) ∙ fill_inside gh shard up gh one i h;
      down_part = λ i h.
          fill_inside (e.hidden * e.inter) shard down (2 * gh) two i
            (omega (arith, mul_comm e.hidden e.inter));
    }
  where
    zero_plus : (i : ℕ) → i ≡ 0 + i
    zero_plus i = omega arith

-- What `get_staging` answers, and what it answers when it is asked again.
pub record Staged (resolve : Resolver) (shard : Memory) (e : Engine) (expert gate up down : ℕ)
    : Type 0 where
  pub blob : ℕ → ℕ
  pub after : Engine
  pub returns : get_staging resolve shard e expert ≡ (some blob, after)
  pub holds : IsBlob e shard gate up down blob
  pub again : get_staging resolve shard after expert ≡ (some blob, after)

staged_miss :
    (resolve : Resolver) (shard : Memory) (e : Engine) (expert gate up down : ℕ)
    → find expert e.staging ≡ none
    → resolve (avail_layer resolve 0) expert gate_proj ≡ some gate
    → resolve (avail_layer resolve 0) expert up_proj ≡ some up
    → resolve (avail_layer resolve 0) expert down_proj ≡ some down
    → get_staging resolve shard e expert ≡ (
      some (new_blob e.inter e.hidden shard gate up down),
      record e { staging = assign expert (new_blob e.inter e.hidden shard gate up down) e.staging },
    )
unfolding get_staging
staged_miss resolve shard e expert gate up down n g u d = rw (n, g, u, d, get_staging) refl

staged_hit :
    (resolve : Resolver) (shard : Memory) (e : Engine) (expert : ℕ) (blob : ℕ → ℕ)
    → find expert e.staging ≡ some blob
    → get_staging resolve shard e expert ≡ (some blob, e)
unfolding get_staging
staged_hit resolve shard e expert blob f = rw (f, get_staging) refl

-- An expert not yet staged, which the resolver knows, is staged: its blob holds the three projections
-- of the layer that is available, and asking again gives the same blob and stages nothing.
pub get_staging-Staged :
    (resolve : Resolver) (shard : Memory) (e : Engine) (expert gate up down : ℕ)
    → find expert e.staging ≡ none
    → resolve (avail_layer resolve 0) expert gate_proj ≡ some gate
    → resolve (avail_layer resolve 0) expert up_proj ≡ some up
    → resolve (avail_layer resolve 0) expert down_proj ≡ some down
    → Staged resolve shard e expert gate up down
get_staging-Staged resolve shard e expert gate up down n g u d =
    let blob : ℕ → ℕ = new_blob e.inter e.hidden shard gate up down in
    let after : Engine = record e { staging = assign expert blob e.staging } in
    record {
      blob = blob;
      after = after;
      returns = staged_miss resolve shard e expert gate up down n g u d;
      holds = new_blob-IsBlob e shard gate up down;
      again = staged_hit resolve shard after expert blob (find_assigned expert blob e.staging);
    }
