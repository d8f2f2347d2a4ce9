-- ===== src/Weights.antt =====
-- The shards of the model: `class WeightMmap` of dee.cpp/src/weight_mmap.cpp and
-- dee.cpp/include/dee/weight_mmap.h, with the header of a safetensors file as Json reads it. The
-- calls of the operating system are parameters, and those that take or give back a resource are
-- noted in the state, the newest first. A pointer is a number, 0 is `nullptr`; a mapped file is
-- read in the memory of the process.
pub mod Entries
pub mod Lookup
pub mod Resolver
pub mod Resolve
pub mod Stored
pub mod Resources
pub mod History
pub mod Names
use dee.Prelude.{
  ℕ, zero, suc, ◌+◌, ◌*◌, ◌%◌, ◌^◌, ◌≡◌, ap, sym, ◌∙◌, ◌↔◌, Bool, true, false, not, ◌&&◌, ◌||◌,
  Option, none, some, List, [], ◌∷◌, ltb, leb, ◌==◌, if◌then◌else◌, add_size, sub_size, size_limit,
}
use dee.Map.{Eq, Map, find, assign}
use dee.Prefetch.{Memory}
use dee.Json.{
  Text, Value, Items, Fields, null, bool, int, float, str, array, object, no_items, item, no_fields,
  field, Outcome, done, thrown, out_of_fuel, codes, text_eq, parse, find_field, find_in,
}
use dee.Json.Texts.{text_eq_sound, text_eq_refl}

pub text_eq_iff : (s t : Text) → (text_eq s t ≡ true) ↔ (s ≡ t)
text_eq_iff s t = (text_eq_sound s t, λ e. ap (text_eq s) (sym e) ∙ text_eq_refl s)

-- The equality of `std::string`.
instance abbrev pub text_key : Eq Text
text_key = record { beq = text_eq; beq_iff = text_eq_iff }

pub data DType : Type 0 where
  f32 f16 bf16 unknown : DType

unfoldable pub dtype_from_string : Text → DType
dtype_from_string s =
    if text_eq s (codes "F32") || text_eq s (codes "F32E4M3") || text_eq s (codes "F32E5M2")
    then f32
    else if text_eq s (codes "F16")
    then f16
    else if text_eq s (codes "BF16")
    then bf16
    else unknown

unfoldable pub dtype_to_string : DType → Text
dtype_to_string f32 = codes "F32"
dtype_to_string f16 = codes "F16"
dtype_to_string bf16 = codes "BF16"
dtype_to_string unknown = codes "UNKNOWN"

pub record TensorView : Type 0 where
  pub data_at : ℕ
  pub nbytes : ℕ
  pub dtype : DType
  pub shape : List ℕ

-- `TensorView{}`
abbrev pub no_view : TensorView
no_view = record { data_at = 0; nbytes = 0; dtype = unknown; shape = [] }

-- `ok()`
abbrev pub is_ok : TensorView → Bool
is_ok v = not (v.data_at == 0) && ltb 0 v.nbytes

pub record TensorMeta : Type 0 where
  pub data_offset : ℕ
  pub nbytes : ℕ
  pub dtype : DType
  pub shape : List ℕ

-- The calls that take or give back a file descriptor or a mapping.
pub data Call : Type 0 where
  open_call close_call : ℕ → Call
  mmap_call munmap_call : ℕ → ℕ → Call

infixl 1 ◌>>=◌
abbrev pub ◌>>=◌ {ℓ κ} : {A : Type ℓ} {B : Type κ} → Option A → (A → Option B) → Option B
none >>= f = none
some a >>= f = f a

-- What the operating system answers: `open` with a descriptor, `fstat` with the size, and `mmap` of
-- a descriptor and a size with an address; `none` where a call fails.
pub record Os : Type 0 where
  pub open_path : Text → Option ℕ
  pub file_size : ℕ → Option ℕ
  pub mmap : ℕ → ℕ → Option ℕ

pub record WeightMmap : Type 0 where
  pub fd : Option ℕ
  pub base : ℕ
  pub size : ℕ
  pub header_json : Text
  pub tensors : Map Text TensorMeta
  pub calls : List Call

abbrev pub new_mmap : WeightMmap
new_mmap = record { fd = none; base = 0; size = 0; header_json = []; tensors = []; calls = [] }

unfoldable pub is_open : WeightMmap → Bool
is_open m = elim m.fd [ none ↦ false | some fd ↦ true ]

unfoldable pub unmap : WeightMmap → List Call
unmap m = if m.base == 0 then m.calls else munmap_call m.base m.size ∷ m.calls

unfoldable pub close : WeightMmap → WeightMmap
close m = record {
  fd = none;
  base = 0;
  size = 0;
  header_json = [];
  tensors = [];
  calls = elim m.fd [ none ↦ unmap m | some fd ↦ close_call fd ∷ unmap m ];
}

-- `posix_madvise` is a hint.
unfoldable pub map_file : Os → Text → WeightMmap → Bool × WeightMmap
map_file os path m = elim (os.open_path path) [
  | none ↦ (false, record m { fd = none })
  | some fd ↦
      let opened : WeightMmap = record m { fd = some fd; calls = open_call fd ∷ m.calls } in
      elim (os.file_size fd) [
        | none ↦ (false, opened)
        | some n ↦
            let sized : WeightMmap = record opened { size = n } in
            elim (ltb n 8) [
              | true ↦ (false, sized)
              | false ↦ elim (os.mmap fd n) [
                | none ↦ (false, record sized { base = 0 })
                | some a ↦ (true, record sized { base = a; calls = mmap_call a n ∷ sized.calls })
              ]
            ]
      ]
]

unfoldable pub read_bytes : Memory → ℕ → ℕ → Text
read_bytes mem a zero = []
read_bytes mem a (suc n) = mem a ∷ read_bytes mem (a + 1) n

unfoldable pub little_endian : Text → ℕ
little_endian [] = 0
little_endian (b ∷ bs) = b + 256 * little_endian bs

-- `memcpy(&hlen, base_, 8)`
unfoldable pub header_length : Memory → WeightMmap → ℕ
header_length mem m = little_endian (read_bytes mem m.base 8)

module _ {Float : Type 0} where
  -- What `is_object`, `is_string` and `is_array` let through.
  abbrev pub object_of : Value Float → Option (Fields Float)
  object_of (object fs) = some fs
  object_of _ = none

  abbrev pub string_of : Value Float → Option Text
  string_of (str s) = some s
  string_of _ = none

  abbrev pub array_of : Value Float → Option (Items Float)
  array_of (array vs) = some vs
  array_of _ = none

  -- The member `i`, which is 0 in a value of another type.
  abbrev pub number_of : Value Float → ℕ
  number_of (int n) = n
  number_of _ = 0

  abbrev pub first_two : Items Float → Option (ℕ × ℕ)
  first_two (item v (item w vs)) = some (number_of v, number_of w)
  first_two _ = none

  -- The integers of an array.
  abbrev pub dimensions : Items Float → List ℕ
  dimensions no_items = []
  dimensions (item (int n) vs) = n ∷ dimensions vs
  dimensions (item _ vs) = dimensions vs

  unfoldable pub shape_of : Value Float → List ℕ
  shape_of v = elim (find_in (codes "shape") v) [
    | none ↦ []
    | some s ↦ elim (array_of s) [ none ↦ [] | some vs ↦ dimensions vs ]
  ]

  -- What one entry of the header says of its tensor; `none` where the loop goes on to the next.
  unfoldable pub meta_of : Value Float → Option TensorMeta
  meta_of v = do
    dtype_v ← find_in (codes "dtype") v
    dtype ← string_of dtype_v
    off_v ← find_in (codes "data_offsets") v
    offsets ← array_of off_v
    (start, end) ← first_two offsets
    some (record {
      data_offset = start;
      nbytes = sub_size end start;
      dtype = dtype_from_string dtype;
      shape = shape_of v;
    })

  -- The loop over the entries of the header.
  unfoldable pub add_tensors : Fields Float → Map Text TensorMeta → Map Text TensorMeta
  add_tensors no_fields ts = ts
  add_tensors (field name v fs) ts = add_tensors fs (elim (text_eq name (codes "__metadata__")) [
    | true ↦ ts
    | false ↦ elim (meta_of v) [ none ↦ ts | some t ↦ assign name t ts ]
  ])

module _ {Float : Type 0} (stod : Text → Option Float) where
  -- `parse_header_json` with the answer of the parser.
  unfoldable pub enter_header :
      Outcome (Value Float × Bool) → WeightMmap → Outcome Bool × WeightMmap
  enter_header thrown m = (thrown, m)
  enter_header out_of_fuel m = (out_of_fuel, m)
  enter_header (done (root, false)) m = (done false, m)
  enter_header (done (root, true)) m = elim (object_of root) [
    | none ↦ (done false, m)
    | some fs ↦ (done true, record m { tensors = add_tensors fs m.tensors })
  ]

  unfoldable pub parse_header_json : Text → WeightMmap → Outcome Bool × WeightMmap
  parse_header_json json m = enter_header (parse stod json) m

  -- `open` behind `map_file`. A string of `size_limit` bytes is too long for `assign`, which throws.
  unfoldable pub read_header : Memory → WeightMmap → Outcome Bool × WeightMmap
  read_header mem m =
      let hlen : ℕ = header_length mem m in
      elim ((hlen == 0) || ltb m.size (add_size 8 hlen)) [
        | true ↦ (done false, m)
        | false ↦ elim (leb size_limit hlen) [
          | true ↦ (thrown, m)
          | false ↦
              let json : Text = read_bytes mem (m.base + 8) hlen in
              parse_header_json json (record m { header_json = json })
        ]
      ]

  -- `open(path)`, with the memory as it is when the file is mapped.
  unfoldable pub open_file : Os → Memory → Text → WeightMmap → Outcome Bool × WeightMmap
  open_file os mem path m =
      let (mapped, m') = map_file os path (close m) in
      elim mapped [ false ↦ (done false, m') | true ↦ read_header mem m' ]

  -- `open(path, json_header)`
  unfoldable pub open_with : Os → Text → Text → WeightMmap → Outcome Bool × WeightMmap
  open_with os path json m =
      let (mapped, m') = map_file os path (close m) in
      elim mapped [
        | false ↦ (done false, m')
        | true ↦ parse_header_json json (record m' { header_json = json })
      ]

-- The address of a tensor's data: `base_ + (8 + hlen + data_offset)`.
unfoldable pub view_of : ℕ → ℕ → TensorMeta → TensorView
view_of base hlen t = record {
  data_at = add_size base (add_size (add_size 8 hlen) t.data_offset);
  nbytes = t.nbytes;
  dtype = t.dtype;
  shape = t.shape;
}

unfoldable pub lookup : Memory → WeightMmap → Text → TensorView
lookup mem m name = elim (find name m.tensors) [
  | none ↦ no_view
  | some t ↦ elim m.header_json [ [] ↦ no_view | c ∷ cs ↦ view_of m.base (header_length mem m) t ]
]
