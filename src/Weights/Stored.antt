-- ===== src/Weights/Stored.antt =====
-- A shard that is written for a table of tensors, and what `open` and `lookup` of
-- dee.cpp/src/weight_mmap.cpp find in it.
use dee.Prelude.{
  ℕ, ◌+◌, ◌^◌, ◌<◌, ◌≡◌, ◌≢◌, refl, sym, ap, ◌∙◌, Bool, true, false, Option, none, some, [], ◌∷◌,
  All, arith, inl, inr, Bool-cases, length, add_size,
}
use dee.Map.{Map, find}
use dee.Prefetch.{Memory}
use dee.Json.{
  Text, Value, Fields, object, no_fields, field, codes, text_eq, find_field, Outcome, done,
}
use dee.Json.Print.{print, FieldsPlain}
use dee.Weights.{
  TensorMeta, TensorView, no_view, WeightMmap, Os, is_open, open_file, view_of, lookup, text_key,
  text_eq_iff,
}
use dee.Weights.Entries.{described, described-first, described-later, entry_of, meta_of-entry_of}
use dee.Weights.Lookup.{IsShard, open_file-IsServed}
use dee.Weights.Resolve.{view_at}
use dee.Json.Texts.{text_eq_refl}

-- A tensor has a name of its own and ends where a `long long` and an address can say.
abbrev pub Fits : ℕ → Map Text TensorMeta → Type 0
Fits start = All (λ x.
    (x.0 ≢ codes "__metadata__")
    × (x.1.data_offset + x.1.nbytes < 2 ^ 63)
    × (start + x.1.data_offset < 2 ^ 64))

find-none :
    (name : Text) (ts : Map Text TensorMeta) (start : ℕ)
    → Fits start ts
    → name ≡ codes "__metadata__"
    → find name ts ≡ none
unfolding find
find-none name [] start f e = refl
find-none name ((k, t) ∷ ts) start f e = elim (Bool-cases (text_eq k name)) [
  | inl same ↦ absurd (f.0.0 ((text_eq_iff k name).0 same ∙ e))
  | inr other ↦ rw other (find-none name ts start f.1 e)
]

found-Fits :
    (name : Text) (t : TensorMeta) (start : ℕ) (ts : Map Text TensorMeta)
    → Fits start ts
    → find name ts ≡ some t
    → start + t.data_offset < 2 ^ 64
unfolding find
found-Fits name t start [] f e = absurd (cc e)
found-Fits name t start ((k, u) ∷ ts) f e = elim (Bool-cases (text_eq k name)) [
  | inl same ↦ ground (arith, rw same at e, f.0.1)
  | inr other ↦ found-Fits name t start ts f.1 (rw other at e)
]

module _ (Float : Type 0) where
  -- The entries of the tensors, in the order of the table.
  unfoldable pub entries_of : Map Text TensorMeta → Fields Float
  entries_of [] = no_fields
  entries_of ((name, t) ∷ ts) = field name (entry_of Float t) (entries_of ts)

  -- A header: the metadata, where there are some, and the entries.
  unfoldable pub header_of : Option (Value Float) → Map Text TensorMeta → Fields Float
  header_of none ts = entries_of ts
  header_of (some metadata) ts = field (codes "__metadata__") metadata (entries_of ts)

  described-entries_of :
      (start : ℕ) (ts : Map Text TensorMeta) (name : Text)
      → Fits start ts
      → described name (entries_of ts) ≡ find name ts
  unfolding entries_of find
  described-entries_of start [] name f = unfold described find_field in ground arith
  described-entries_of start ((k, t) ∷ ts) name f = elim (Bool-cases (text_eq k name)) [
    | inl same ↦
        let own : text_eq k (codes "__metadata__") ≡ false =
          elim (Bool-cases (text_eq k (codes "__metadata__"))) [
            | inl eq ↦ absurd (f.0.0 ((text_eq_iff k (codes "__metadata__")).0 eq))
            | inr ne ↦ ne
          ] in
        described-first name k (entry_of Float t) (entries_of ts) ((text_eq_iff k name).0 same)
        ∙ rw (own, same) (meta_of-entry_of Float t f.0.1)
    | inr other ↦
        described-later name k (entry_of Float t) (entries_of ts) other
        ∙ described-entries_of start ts name f.1
        ∙ rw other refl
  ]

  described-header_of :
      (metadata : Option (Value Float)) (start : ℕ) (ts : Map Text TensorMeta) (name : Text)
      → Fits start ts
      → described name (header_of metadata ts) ≡ find name ts
  unfolding header_of
  described-header_of none start ts name f = described-entries_of start ts name f
  described-header_of (some v) start ts name f =
      elim (Bool-cases (text_eq (codes "__metadata__") name)) [
        | inl same ↦
            let e : codes "__metadata__" ≡ name =
              (text_eq_iff (codes "__metadata__") name).0 same in
            described-first name (codes "__metadata__") v (entries_of ts) e
            ∙ rw (text_eq_refl (codes "__metadata__")) (sym (find-none name ts start f (sym e)))
        | inr other ↦
            described-later name (codes "__metadata__") v (entries_of ts) other
            ∙ described-entries_of start ts name f
      ]

  -- What stands where: the views that `lookup` should give for a table of tensors whose data
  -- begin at `start`.
  abbrev pub view_in : ℕ → Map Text TensorMeta → Text → TensorView
  view_in start ts name = elim (find name ts) [
    | none ↦ no_view
    | some t ↦ view_at (start + t.data_offset) t
  ]

  -- The shard is open, and every tensor of the table is found with its bytes, and no other.
  pub record IsReadable (mem : Memory) (start : ℕ) (ts : Map Text TensorMeta)
      (r : Outcome Bool × WeightMmap) : Type 0 where
    pub succeeds : r.0 ≡ done true
    pub opened : is_open r.1 ≡ true
    pub views : (name : Text) → lookup mem r.1 name ≡ view_in start ts name

  views_agree :
      (base len : ℕ) (o : Option TensorMeta)
      → ((t : TensorMeta) → o ≡ some t → base + 8 + len + t.data_offset < 2 ^ 64)
      → elim o [ none ↦ no_view | some t ↦ view_of base len t ]
        ≡ elim o [ none ↦ no_view | some t ↦ view_at (base + 8 + len + t.data_offset) t ]
  unfolding view_of
  views_agree base len none f = refl
  views_agree base len (some t) f =
      let small : base + 8 + len + t.data_offset < 2 ^ 64 = f t refl in
      let sum : add_size base (add_size (add_size 8 len) t.data_offset)
          ≡ base + 8 + len + t.data_offset =
        omega (arith, small) in
      ap (λ a. view_at a t) sum

  -- `open` of a file that starts with the length of a header, a header written for a table of
  -- tensors, and their data, succeeds: each tensor of the table is found with its type and shape,
  -- its bytes behind the header where the table puts them and as many as it says; no other name is
  -- found, whatever was open before.
  pub open_file-IsReadable :
      (stod : Text → Option Float) (os : Os) (mem : Memory) (path : Text)
      (metadata : Option (Value Float)) (ts : Map Text TensorMeta) (base : ℕ) (m : WeightMmap)
      → FieldsPlain (header_of metadata ts)
      → IsShard os mem path (header_of metadata ts) base
      → Fits (base + 8 + length (print (object (header_of metadata ts)))) ts
      → IsReadable mem
          (base + 8 + length (print (object (header_of metadata ts))))
          ts
          (open_file stod os mem path m)
  open_file-IsReadable stod os mem path metadata ts base m plain h f =
      let len : ℕ = length (print (object (header_of metadata ts))) in
      let served = open_file-IsServed stod os mem path (header_of metadata ts) base m plain h in
      record {
        succeeds = served.succeeds;
        opened = served.opened;
        views = λ name.
            served.views name
            ∙ ap (λ d. elim d [ none ↦ no_view | some t ↦ view_of base len t ])
                (described-header_of metadata (base + 8 + len) ts name f)
            ∙ views_agree base len (find name ts)
                (λ t e. found-Fits name t (base + 8 + len) ts f e);
      }
