-- ===== src/Tests/Weights.antt =====
-- A small safetensors file for the model of dee.cpp/src/weight_mmap.cpp, and the theorems at it.
use dee.Prelude.{
  ℕ, zero, suc, ◌+◌, ◌-◌, ◌≡◌, ◌≢◌, inl, inr, refl, ap, true, Option, none, some, List, [], ◌∷◌,
  arith, length, ◌==◌, if◌then◌else◌,
}
use dee.Map.{Map, find, assign}
use dee.Prefetch.{Memory}
use dee.Staging.{gate_proj}
use dee.Tests.Json.{json_program, no_float}
use dee.Json
use dee.Json.{Text, Value, Fields, object, field, no_fields, codes, Outcome, done, thrown}
use dee.Json.Print
use dee.Json.Print.{print, FieldsPlain}
use dee.Weights
use dee.Weights.Resolver
use dee.Weights.{TensorMeta, TensorView, no_view, f32, bf16, Os, WeightMmap, new_mmap}
use dee.Weights.Entries
use dee.Weights.Entries.{described, entry_of, meta_of-entry_of}
use dee.Weights.Lookup.{IsShard}
use dee.Weights.Stored
use dee.Weights.Stored.{Fits, IsReadable, header_of, open_file-IsReadable}
use dee.Weights.Resources
use dee.Weights.Resources.{IsHeld, IsMapping, replay, open_file_failed}
use dee.Weights.History
use dee.Weights.History.{Request, reopen, reopen_with, shut, run, run-close}

unfoldable pub weights_program : Unit {0}
unfolding json_program find assign Weights.dtype_from_string Weights.dtype_to_string Weights.is_open
    Weights.unmap Weights.close Weights.map_file Weights.read_bytes Weights.little_endian
    Weights.header_length Weights.shape_of Weights.meta_of Weights.add_tensors Weights.enter_header
    Weights.parse_header_json Weights.read_header Weights.open_file Weights.open_with
    Weights.view_of Weights.lookup Resolver.expert_tensor_name Resolver.register_shard
    Resolver.first_ok Resolver.resolve_expert Entries.described Entries.entry_of Entries.items_of
    Stored.entries_of Stored.header_of Resources.replay History.run
weights_program = tt

abbrev pub tensor : TensorMeta
tensor = record { data_offset = 4; nbytes = 12; dtype = bf16; shape = 2 ∷ 3 ∷ [] }

abbrev table : Map Text TensorMeta
table = (Resolver.expert_tensor_name 3 17 gate_proj, tensor) ∷ []

abbrev entries : Fields ℕ
entries = header_of ℕ none table

abbrev pub byte_at : Text → ℕ → ℕ
byte_at [] n = 0
byte_at (c ∷ cs) zero = c
byte_at (c ∷ cs) (suc n) = byte_at cs n

-- The file lies at 4096.
abbrev file : Text
file = length (print (object entries)) ∷ 0 ∷ 0 ∷ 0 ∷ 0 ∷ 0 ∷ 0 ∷ 0 ∷ print (object entries)

abbrev memory : Memory
memory a = byte_at file (a - 4096)

abbrev pub linux : Os
linux = record { open_path = λ path. some 3; file_size = λ fd. some 200; mmap = λ fd n. some 4096 }

abbrev pub path : Text
path = codes "model.safetensors"

keys_differ :
    (s t : Text) → (Json.peek (Json.advance s) ≡ Json.peek (Json.advance t) → ⊥) → s ≡ t → ⊥
keys_differ s t n e = n (ap (λ x. Json.peek (Json.advance x)) e)

abbrev last_key : Fields ℕ
last_key = field (codes "data_offsets") Json.null no_fields

pub not_shape : Print.HasKey (codes "shape") last_key → ⊥
unfolding weights_program
not_shape (inl e) =
    keys_differ (codes "shape") (codes "data_offsets") (λ d. absurd (omega (arith, d))) e
not_shape (inr h) = h

pub not_dtype : Print.HasKey (codes "dtype") (field (codes "shape") Json.null last_key) → ⊥
unfolding weights_program
not_dtype (inl e) = keys_differ (codes "dtype") (codes "shape") (λ d. absurd (omega (arith, d))) e
not_dtype (inr (inl e)) =
    keys_differ (codes "dtype") (codes "data_offsets") (λ d. absurd (omega (arith, d))) e
not_dtype (inr (inr h)) = h

entries-FieldsPlain : FieldsPlain entries
unfolding weights_program
entries-FieldsPlain = (
  (λ h. h),
  (
    not_dtype,
    tt,
    (not_shape, (omega arith, (omega arith, tt)), ((λ h. h), (omega arith, (omega arith, tt)), tt)),
  ),
  tt,
)

file-IsShard : IsShard linux memory path entries 4096
unfolding weights_program
file-IsShard = record {
  descriptor = 3;
  bytes = 200;
  opens = refl;
  sized = refl;
  maps = refl;
  length_field = refl;
  header = refl;
  fits = omega arith;
  small = omega arith;
}

table-Fits : Fits (4096 + 8 + length (print (object entries))) table
unfolding weights_program
table-Fits = ((λ e. absurd (omega (arith, ap Json.peek e)), omega arith, omega arith), tt)

open_file-IsReadable_example :
    IsReadable ℕ memory
      (4096 + 8 + length (print (object entries)))
      table
      (Weights.open_file no_float linux memory path new_mmap)
open_file-IsReadable_example =
    open_file-IsReadable ℕ no_float linux memory path none table 4096 new_mmap entries-FieldsPlain
      file-IsShard table-Fits

abbrev store : ℕ → WeightMmap
store shard = (Weights.open_file no_float linux memory path new_mmap).1

entry_described : described (Resolver.expert_tensor_name 3 17 gate_proj) entries ≡ some tensor
unfolding weights_program
entry_described = refl

-- No file has a path.
abbrev empty_disk : Os
empty_disk = record { open_path = λ path. none; file_size = λ fd. none; mmap = λ fd n. none }

stays_shut : (Weights.open_file no_float empty_disk memory path (store 1)).0 ≢ done true
unfolding weights_program
stays_shut e = cc e

open_file_failed_example :
    Weights.lookup memory
      (Weights.open_file no_float empty_disk memory path (store 1)).1
      (Resolver.expert_tensor_name 3 17 gate_proj)
    ≡ no_view
open_file_failed_example =
    open_file_failed no_float empty_disk memory path (store 1)
      (Resolver.expert_tensor_name 3 17 gate_proj) stays_shut

abbrev requests : List Request
requests =
    reopen linux memory path
    ∷ reopen empty_disk memory path
    ∷ reopen_with linux path (codes "{")
    ∷ reopen linux memory path
    ∷ []

linux-IsMapping : IsMapping linux
linux-IsMapping fd n a e = ground (arith, e)

run-close_example :
    IsHeld (run no_float requests new_mmap)
    × (replay (Weights.close (run no_float requests new_mmap)).calls ≡ Option.some (none, none))
run-close_example =
    run-close no_float requests
      (linux-IsMapping, ((λ fd n a e. absurd (cc e)), (linux-IsMapping, (linux-IsMapping, tt))))

-- A length of 2 ^ 64 - 8 passes the test against the file's size, since 8 + hlen wraps to 0.
abbrev long_header : Memory
long_header a = if a == 4096 then 248 else 255

wraps : (Weights.open_file no_float linux long_header path new_mmap).0 ≡ thrown
unfolding weights_program
wraps = refl

-- An offset is not compared with the file's size: here 200 bytes are mapped.
past_the_end :
    (Weights.view_of 4096 118 (record tensor { data_offset = 1000 })).data_at ≡ 4096 + 1126
unfolding weights_program
past_the_end = refl
