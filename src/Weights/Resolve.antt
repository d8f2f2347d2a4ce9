-- ===== src/Weights/Resolve.antt =====
-- `TensorResolver` of dee.cpp/src/weight_mmap.cpp over the shards that are registered.
use dee.Prelude.{
  ℕ, ◌+◌, ◌^◌, ◌<◌, ◌≡◌, refl, ap, ◌∙◌, ◌⊎◌, true, false, Option, some, [], ◌∷◌, ◌++◌, arith, inl,
  inr, Bool-cases, add_size, All, length,
}
use dee.Prefetch.{Memory}
use dee.Json.{Text, Fields, object}
use dee.Json.Print.{print, FieldsPlain}
use dee.Staging.{Projection}
use dee.Weights.{TensorMeta, TensorView, no_view, is_ok, WeightMmap, Os, open_file, view_of, lookup}
use dee.Weights.Resolver.{Shards, first_ok, register_shard, resolve_expert, expert_tensor_name}
use dee.Weights.Entries.{described}
use dee.Weights.Lookup.{IsShard, open_file-IsServed}

-- A name is answered by the first shard that has it, or by none.
pub record IsFirst (mem : Memory) (store : ℕ → WeightMmap) (name : Text) (shards : Shards)
    (v : TensorView) : Type 0 where
  pub before : Shards
  pub shard : ℕ
  pub after : Shards
  pub split : shards ≡ before ++ shard ∷ after
  pub skipped : All (λ s. is_ok (lookup mem (store s) name) ≡ false) before
  pub found : is_ok (lookup mem (store shard) name) ≡ true
  pub answer : v ≡ lookup mem (store shard) name

abbrev pub IsAnswer : Memory → (ℕ → WeightMmap) → Text → Shards → TensorView → Type 0
IsAnswer mem store name shards v =
    IsFirst mem store name shards v
    ⊎ ((v ≡ no_view) × All (λ s. is_ok (lookup mem (store s) name) ≡ false) shards)

first_ok-IsAnswer :
    (mem : Memory) (store : ℕ → WeightMmap) (name : Text) (shards : Shards)
    → IsAnswer mem store name shards (first_ok mem store name shards)
unfolding first_ok
first_ok-IsAnswer mem store name [] = inr (refl, tt)
first_ok-IsAnswer mem store name (s ∷ ss) = elim (Bool-cases (is_ok (lookup mem (store s) name))) [
  | inl ok ↦ inl record {
    before = [];
    shard = s;
    after = ss;
    split = refl;
    skipped = tt;
    found = ok;
    answer = rw ok refl;
  }
  | inr bad ↦ elim (first_ok-IsAnswer mem store name ss) [
    | inl f ↦ inl record {
      before = s ∷ f.before;
      shard = f.shard;
      after = f.after;
      split = ap (λ x. s ∷ x) f.split;
      skipped = (bad, f.skipped);
      found = f.found;
      answer = rw bad f.answer;
    }
    | inr n ↦ inr (rw bad n.0, (bad, n.1))
  ]
]

-- A projection of an expert is answered by the first of the registered shards whose tensor of that
-- name has bytes, and with no view exactly where no shard has one.
pub resolve_expert-IsAnswer :
    (mem : Memory) (store : ℕ → WeightMmap) (shards : Shards) (layer expert : ℕ) (kind : Projection)
    → IsAnswer mem store
        (expert_tensor_name layer expert kind)
        shards
        (resolve_expert mem store shards layer expert kind)
unfolding resolve_expert
resolve_expert-IsAnswer mem store shards layer expert kind =
    first_ok-IsAnswer mem store (expert_tensor_name layer expert kind) shards

-- A tensor at an address.
abbrev pub view_at : ℕ → TensorMeta → TensorView
view_at a t = record { data_at = a; nbytes = t.nbytes; dtype = t.dtype; shape = t.shape }

first_ok_single :
    (mem : Memory) (store : ℕ → WeightMmap) (name : Text) (shard : ℕ)
    → is_ok (lookup mem (store shard) name) ≡ true
    → first_ok mem store name (shard ∷ []) ≡ lookup mem (store shard) name
unfolding first_ok
first_ok_single mem store name shard ok = rw (ok, first_ok) refl

module _ {Float : Type 0} (stod : Text → Option Float) where
  -- Where a shard has been opened and registered alone, an expert's projection that its header
  -- describes, with some bytes, is resolved to the bytes behind the header at the tensor's offset.
  pub resolve_expert-open_file :
      (os : Os) (mem : Memory) (path : Text) (fs : Fields Float) (base : ℕ) (m : WeightMmap)
      → FieldsPlain fs
      → IsShard os mem path fs base
      → (store : ℕ → WeightMmap) (shard : ℕ) → 0 < shard
      → store shard ≡ (open_file stod os mem path m).1
      → (layer expert : ℕ) (kind : Projection) (t : TensorMeta)
      → described (expert_tensor_name layer expert kind) fs ≡ some t
      → 0 < base
      → 0 < t.nbytes
      → base + 8 + length (print (object fs)) + t.data_offset < 2 ^ 64
      → resolve_expert mem store (register_shard shard []) layer expert kind
        ≡ view_at (base + 8 + length (print (object fs)) + t.data_offset) t
  unfolding resolve_expert
  resolve_expert-open_file os mem path fs base m plain h store shard real opened layer expert kind t
        d b n small =
      let name : Text = expert_tensor_name layer expert kind in
      let served = open_file-IsServed stod os mem path fs base m plain h in
      let seen : lookup mem (store shard) name ≡ view_of base (length (print (object fs))) t =
        ap (λ x. lookup mem x name) opened ∙ served.views name ∙ rw d refl in
      let registered : register_shard shard [] ≡ shard ∷ [] =
        unfold register_shard in ground arith in
      let start : ℕ = base + 8 + length (print (object fs)) + t.data_offset in
      let sum : add_size base (add_size (add_size 8 (length (print (object fs)))) t.data_offset)
          ≡ start =
        omega (arith, small) in
      let place : lookup mem (store shard) name ≡ view_at start t =
        seen ∙ unfold view_of in ap (λ a. view_at a t) sum in
      let ok : is_ok (lookup mem (store shard) name) ≡ true =
        ap is_ok place ∙ ground (arith, b, n) in
      ap (first_ok mem store name) registered ∙ first_ok_single mem store name shard ok ∙ place
