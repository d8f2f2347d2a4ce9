-- ===== src/Weights/Lookup.antt =====
-- What `lookup` of dee.cpp/src/weight_mmap.cpp answers behind `open`, and `resolve_expert` over
-- several shards.
use dee.Prelude.{
  ℕ, ◌+◌, ◌≤◌, ◌<◌, ◌≡◌, refl, ap, ◌∙◌, Bool, true, false, ◌||◌, Option, none, some, [], ◌∷◌, arith,
  inl, inr, Option-cases, ltb, leb, ◌==◌, add_size, length, size_limit,
}
use dee.Map.{find}
use dee.Prefetch.{Memory}
use dee.Json.{Text, Fields, object, Outcome, done}
use dee.Json.Print.{print, print_fields, FieldsPlain, IsPlain}
use dee.Json.RoundTrip.{parse-print}
use dee.Weights.{
  TensorMeta, no_view, WeightMmap, Os, open_call, mmap_call, is_open, close, map_file, read_bytes,
  little_endian, header_length, enter_header, parse_header_json, read_header, open_file, view_of,
  lookup, add_tensors, text_key,
}
use dee.Weights.Entries.{described, find-add_tensors, or_else}

or_else-none {ℓ} : {A : Type ℓ} (o : Option A) → or_else o none ≡ o
or_else-none none = refl
or_else-none (some a) = refl

pub lookup-none :
    (mem : Memory) (m : WeightMmap) (name : Text)
    → find name m.tensors ≡ none
    → lookup mem m name ≡ no_view
unfolding lookup
lookup-none mem m name e = rw (e, lookup) refl

lookup-some :
    {c : ℕ} {cs : Text} (mem : Memory) (m : WeightMmap) (name : Text) (t : TensorMeta)
    → find name m.tensors ≡ some t
    → m.header_json ≡ c ∷ cs
    → lookup mem m name ≡ view_of m.base (header_length mem m) t
unfolding lookup header_length
lookup-some mem m name t e h = rw (e, h, lookup) refl

map_file-maps :
    (os : Os) (path : Text) (m : WeightMmap) (fd n a : ℕ)
    → os.open_path path ≡ some fd
    → os.file_size fd ≡ some n
    → ltb n 8 ≡ false
    → os.mmap fd n ≡ some a
    → map_file os path m ≡ (
      true,
      record m { fd = some fd; base = a; size = n; calls = mmap_call a n ∷ open_call fd ∷ m.calls },
    )
unfolding map_file
map_file-maps os path m fd n a o s l p = rw (o, s, l, p, map_file) refl

module _ {Float : Type 0} where
  -- The path leads to a safetensors file, which the memory holds at `base` once it is mapped: the
  -- length of a header, the header, and the data.
  pub record IsShard (os : Os) (mem : Memory) (path : Text) (fs : Fields Float) (base : ℕ)
      : Type 0 where
    pub descriptor : ℕ
    pub bytes : ℕ
    pub opens : os.open_path path ≡ some descriptor
    pub sized : os.file_size descriptor ≡ some bytes
    pub maps : os.mmap descriptor bytes ≡ some base
    pub length_field : little_endian (read_bytes mem base 8) ≡ length (print (object fs))
    pub header : read_bytes mem (base + 8) (length (print (object fs))) ≡ print (object fs)
    pub fits : 8 + length (print (object fs)) ≤ bytes
    pub small : bytes < size_limit

  -- The shard is open, and every name is looked up as the header describes it.
  pub record IsServed (mem : Memory) (fs : Fields Float) (base : ℕ) (r : Outcome Bool × WeightMmap)
      : Type 0 where
    pub succeeds : r.0 ≡ done true
    pub opened : is_open r.1 ≡ true
    pub views :
        (name : Text)
        → lookup mem r.1 name ≡ elim (described name fs) [
          | none ↦ no_view
          | some t ↦ view_of base (length (print (object fs))) t
        ]

  -- The shard with the header that was read.
  served : Fields Float → ℕ → ℕ → ℕ → WeightMmap → WeightMmap
  served fs fd n base m = record (close m) {
    fd = some fd;
    base = base;
    size = n;
    header_json = print (object fs);
    tensors = add_tensors fs [];
    calls = mmap_call base n ∷ open_call fd ∷ (close m).calls;
  }

module _ {Float : Type 0} (stod : Text → Option Float) where
  read_header_object :
      (mem : Memory) (fs : Fields Float) (m : WeightMmap)
      → FieldsPlain fs
      → little_endian (read_bytes mem m.base 8) ≡ length (print (object fs))
      → read_bytes mem (m.base + 8) (length (print (object fs))) ≡ print (object fs)
      → 8 + length (print (object fs)) ≤ m.size
      → m.size < size_limit
      → read_header stod mem m ≡ (
        done true,
        record m { header_json = print (object fs); tensors = add_tensors fs m.tensors },
      )
  unfolding read_header parse_header_json enter_header
  read_header_object mem fs m plain l r fits small =
      let hlen : header_length mem m ≡ length (print (object fs)) = unfold header_length in l in
      let some_bytes : 0 < length (print (object fs)) = unfold print in omega arith in
      let json : read_bytes mem (m.base + 8) (header_length mem m) ≡ print (object fs) =
        ap (read_bytes mem (m.base + 8)) hlen ∙ r in
      let in_file : ((header_length mem m == 0) || ltb m.size (add_size 8 (header_length mem m)))
          ≡ false =
        ground (arith, hlen) in
      let no_throw : leb size_limit (header_length mem m) ≡ false = ground (arith, hlen) in
      let parsed = parse-print stod (object fs) (unfold IsPlain in plain) in
      rw (in_file, no_throw, read_header)
        (ap (λ x. parse_header_json stod x (record m { header_json = x })) json
          ∙ rw (parsed, parse_header_json, enter_header) refl)

  open_file-served :
      (os : Os) (mem : Memory) (path : Text) (fs : Fields Float) (base : ℕ) (m : WeightMmap)
      → FieldsPlain fs
      → (h : IsShard os mem path fs base)
      → open_file stod os mem path m ≡ (done true, served fs h.descriptor h.bytes base m)
  unfolding open_file served
  open_file-served os mem path fs base m plain h =
      let large : ltb h.bytes 8 ≡ false = ground (arith, h.fits) in
      let mapped : WeightMmap = record (close m) {
        fd = some h.descriptor;
        base = base;
        size = h.bytes;
        calls = mmap_call base h.bytes ∷ open_call h.descriptor ∷ (close m).calls;
      } in
      let maps =
        map_file-maps os path (close m) h.descriptor h.bytes base h.opens h.sized large h.maps in
      let read = read_header_object mem fs mapped plain h.length_field h.header h.fits h.small in
      rw (maps, open_file) (rw maps (unfold close in read))

  -- `open` of such a file succeeds, and each tensor is found where the header puts it, behind the
  -- header; a name that the header does not describe is not found, whatever was open before.
  pub open_file-IsServed :
      (os : Os) (mem : Memory) (path : Text) (fs : Fields Float) (base : ℕ) (m : WeightMmap)
      → FieldsPlain fs
      → IsShard os mem path fs base
      → IsServed mem fs base (open_file stod os mem path m)
  unfolding served header_length view_of
  open_file-IsServed os mem path fs base m plain h =
      let shard : WeightMmap = served fs h.descriptor h.bytes base m in
      rw (open_file-served os mem path fs base m plain h) record {
        succeeds = refl;
        opened = unfold is_open served in refl;
        views = λ name.
            let found : find name (add_tensors fs []) ≡ described name fs =
              unfold find in find-add_tensors fs [] name plain ∙ or_else-none (described name fs) in
            elim (Option-cases (described name fs)) [
              | inl e ↦ rw e (lookup-none mem shard name (unfold served in found ∙ e))
              | inr (t, e) ↦ rw e (
                  lookup-some {c = b'{'} {cs = print_fields true fs} mem shard name t
                    (unfold served in found ∙ e) (unfold served print in refl)
                  ∙ ap (λ n. view_of base n t) (unfold served header_length in h.length_field))
            ];
      }
