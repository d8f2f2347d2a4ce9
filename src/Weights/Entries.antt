-- ===== src/Weights/Entries.antt =====
-- The entries of a safetensors header, as `parse_header_json` of dee.cpp/src/weight_mmap.cpp puts
-- them into `tensors_`, and an entry that is written for a tensor.
use dee.Prelude.{
  ℕ, ◌+◌, ◌^◌, ◌<◌, ◌≡◌, refl, sym, ap, ◌∙◌, Bool, true, false, Option, none, some, List, [], ◌∷◌,
  arith, inl, inr, Bool-cases, Option-cases, sub_size, if◌then◌else◌,
}
use mathlib.Core.Path.{subst}
use dee.Map.{Map, find, assign}
use dee.Map.Laws.{find-assign}
use dee.Json.{
  Text, Value, Items, Fields, int, str, array, object, no_items, item, no_fields, field, codes,
  text_eq, find_field, find_in,
}
use dee.Json.Texts.{text_eq_refl}
use dee.Json.Print.{FieldsPlain, HasKey}
use dee.Weights.{
  DType, f32, f16, bf16, unknown, dtype_from_string, dtype_to_string, TensorMeta, ◌>>=◌, shape_of,
  dimensions, meta_of, add_tensors, text_key, text_eq_iff,
}

abbrev pub or_else {ℓ} : {A : Type ℓ} → Option A → Option A → Option A
or_else none b = b
or_else (some a) b = some a

dtype_from_string-dtype_to_string : (d : DType) → dtype_from_string (dtype_to_string d) ≡ d
unfolding dtype_from_string dtype_to_string text_eq
dtype_from_string-dtype_to_string f32 = refl
dtype_from_string-dtype_to_string f16 = refl
dtype_from_string-dtype_to_string bf16 = refl
dtype_from_string-dtype_to_string unknown = refl

unfoldable pub items_of : (Float : Type 0) → List ℕ → Items Float
items_of Float [] = no_items
items_of Float (n ∷ ns) = item (int n) (items_of Float ns)

dimensions-items_of : (Float : Type 0) (ns : List ℕ) → dimensions (items_of Float ns) ≡ ns
unfolding items_of
dimensions-items_of Float [] = refl
dimensions-items_of Float (n ∷ ns) = ap (λ x. n ∷ x) (dimensions-items_of Float ns)

or_else-nothing {ℓ} :
    {A : Type ℓ} (b : Bool) (o : Option A) → o ≡ or_else (if b then none else none) o
or_else-nothing true o = refl
or_else-nothing false o = refl

or_else-some {ℓ} :
    {A : Type ℓ} (b : Bool) (a : A) (o : Option A)
    → (if b then some a else o) ≡ or_else (if b then some a else none) o
or_else-some true a o = refl
or_else-some false a o = refl

module _ {Float : Type 0} where
  -- What a header says of a tensor.
  unfoldable pub described : Text → Fields Float → Option TensorMeta
  described name fs =
      if text_eq name (codes "__metadata__") then none else (find_field name fs >>= meta_of)

  find_field-none : (k : Text) (fs : Fields Float) → (HasKey k fs → ⊥) → find_field k fs ≡ none
  unfolding find_field HasKey
  find_field-none k no_fields h = refl
  find_field-none k (field j v fs) h = elim (Bool-cases (text_eq j k)) [
    | inl same ↦ absurd (h (inl (sym ((text_eq_iff j k).0 same))))
    | inr other ↦ rw other (find_field-none k fs (λ g. h (inr g)))
  ]

  -- What one entry of the header adds to the map.
  find-entered :
      (name k : Text) (v : Value Float) (ts : Map Text TensorMeta)
      → find name (elim (text_eq k (codes "__metadata__")) [
        | true ↦ ts
        | false ↦ elim (meta_of v) [ none ↦ ts | some t ↦ assign k t ts ]
      ])
        ≡ or_else
            (if text_eq k name
              then (if text_eq k (codes "__metadata__") then none else meta_of v)
              else none)
            (find name ts)
  find-entered name k v ts = elim (Bool-cases (text_eq k (codes "__metadata__"))) [
    | inl metadata ↦ rw metadata (or_else-nothing (text_eq k name) (find name ts))
    | inr other ↦ rw other (elim (Option-cases (meta_of v)) [
      | inl e ↦ rw e (or_else-nothing (text_eq k name) (find name ts))
      | inr (t, e) ↦ rw e (find-assign k name t ts ∙ or_else-some (text_eq k name) t (find name ts))
    ])
  ]

  described-none :
      (name : Text) (fs : Fields Float) → (HasKey name fs → ⊥) → described name fs ≡ none
  unfolding described
  described-none name fs h =
      ap (λ x. if text_eq name (codes "__metadata__") then none else (x >>= meta_of))
        (find_field-none name fs h)
      ∙ ground arith

  pub described-first :
      (name k : Text) (v : Value Float) (fs : Fields Float)
      → k ≡ name
      → described name (field k v fs)
        ≡ (if text_eq k (codes "__metadata__") then none else meta_of v)
  unfolding described find_field
  described-first name k v fs same = rw (sym same, text_eq_refl k) refl

  pub described-later :
      (name k : Text) (v : Value Float) (fs : Fields Float)
      → text_eq k name ≡ false
      → described name (field k v fs) ≡ described name fs
  unfolding described find_field
  described-later name k v fs other = rw other refl

  -- After the loop a name is found with what the header says of it, or else with what was there.
  pub find-add_tensors :
      (fs : Fields Float) (ts : Map Text TensorMeta) (name : Text)
      → FieldsPlain fs
      → find name (add_tensors fs ts) ≡ or_else (described name fs) (find name ts)
  unfolding add_tensors find_field FieldsPlain
  find-add_tensors no_fields ts name p = rw (described-none name no_fields (λ h. h)) refl
  find-add_tensors (field k v fs) ts name p =
      find-add_tensors fs _ name p.2
      ∙ ap (or_else (described name fs)) (find-entered name k v ts)
      ∙ elim (Bool-cases (text_eq k name)) [
        | inl same ↦
            let e : k ≡ name = (text_eq_iff k name).0 same in
            rw
              (
                same,
                described-none name fs (λ h. p.0 (subst (λ x. HasKey x fs) (sym e) h)),
                described-first name k v fs e,
              )
              refl
        | inr other ↦ rw (other, described-later name k v fs other) refl
      ]

-- The entry of a header that is written for a tensor.
unfoldable pub entry_of : (Float : Type 0) → TensorMeta → Value Float
entry_of Float t = object (
    field (codes "dtype") (str (dtype_to_string t.dtype)) (
      field (codes "shape") (array (items_of Float t.shape)) (
        field (codes "data_offsets")
          (array (item (int t.data_offset) (item (int (t.data_offset + t.nbytes)) no_items)))
          no_fields)))

-- An entry written for a tensor is read back as that tensor, where its end is no more than the
-- largest `long long`.
pub meta_of-entry_of :
    (Float : Type 0) (t : TensorMeta)
    → t.data_offset + t.nbytes < 2 ^ 63
    → meta_of (entry_of Float t) ≡ some t
unfolding entry_of meta_of find_in find_field text_eq shape_of
meta_of-entry_of Float t h =
    let size : sub_size (t.data_offset + t.nbytes) t.data_offset ≡ t.nbytes = omega arith in
    rw (size, dtype_from_string-dtype_to_string t.dtype, dimensions-items_of Float t.shape) refl
