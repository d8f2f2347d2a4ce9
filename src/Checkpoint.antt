-- ===== src/Checkpoint.antt =====
-- The reader of PyTorch checkpoints: `class PtLoader` of dee.cpp/src/pt_loader.cpp and
-- dee.cpp/include/dee/pt_loader.h, its state and what is asked of an open loader. An `int` is its
-- 32-bit pattern, and a `storage` of -1 is `none`.
pub mod Pickle
pub mod Zip
pub mod Load
pub mod Archive
pub mod Headers
pub mod Reading
pub mod Saved
pub mod Table
pub mod Loaded
pub mod RoundTrip
pub mod Ends
pub mod Inflate
pub mod Failures
use dee.Prelude.{
  ℕ, zero, suc, ◌+◌, ◌-◌, ◌*◌, ◌/◌, ◌%◌, ◌^◌, Bool, true, false, not, ◌&&◌, Option, none, some,
  List, [], ◌∷◌, ◌++◌, ltb, leb, ◌==◌, if◌then◌else◌, length,
}
use dee.Map.{Map, find, assign}
use dee.Device.{num_eq}
use dee.Json.{Text, codes}
use dee.Json.Print.{digits}
use dee.Weights.{text_key}
use dee.Bytes.{Bytes, take, drop, contains}

-- How a call ends: with a result, or by something that C++ leaves undefined, such as a read outside
-- an object; and the end of the model's fuel, which has no counterpart.
pub data Result {ℓ} (A : Type ℓ) : Type ℓ where
  gives : A → Result A
  undefined unfinished : Result A

infixl 1 ◌>>=◌
abbrev pub ◌>>=◌ {ℓ κ} : {A : Type ℓ} {B : Type κ} → Result A → (A → Result B) → Result B
gives a >>= f = f a
undefined >>= f = undefined
unfinished >>= f = unfinished

pub record PtTensor : Type 0 where
  pub name : Text
  pub storage : ℕ
  pub offset : ℕ
  pub shape : List ℕ
  pub ndim : ℕ
  pub dtype : ℕ

abbrev pub product : List ℕ → ℕ
product [] = 1
product (d ∷ ds) = (d * product ds) % 2 ^ 64

-- `PtTensor::nbytes`, in `size_t`
unfoldable pub nbytes : PtTensor → ℕ
nbytes t = (product t.shape * 4) % 2 ^ 64

pub record PtLoader : Type 0 where
  pub path : Text
  pub err : Text
  pub buffers : Map ℕ Bytes
  pub tensors : Map Text PtTensor
  pub pkl_bytes : Bytes

abbrev pub new_loader : PtLoader
new_loader = record { path = []; err = []; buffers = []; tensors = []; pkl_bytes = [] }

-- `oracle_tensor_shape`; the number of experts is not read.
unfoldable pub oracle_tensor_shape : Text → ℕ → ℕ → ℕ → List ℕ
oracle_tensor_shape local dim hidden experts =
    if contains (codes "bias") local
    then hidden ∷ []
    else if contains (codes "net.0.") local
    then hidden ∷ dim ∷ []
    else hidden ∷ hidden ∷ []

unfoldable pub close : PtLoader → PtLoader
close l = record l { buffers = []; tensors = []; path = [] }

unfoldable pub is_open : PtLoader → Bool
is_open l = not (length l.path == 0) && not (length l.tensors == 0)

-- The bytes that `memcpy` takes from the buffer of a tensor; `none` where they do not fit.
unfoldable pub copied : PtTensor → Bytes → Option Bytes
copied t b =
    if ltb (length b) ((t.offset + nbytes t) % 2 ^ 64)
    then (if not (t.offset == 0) && leb (nbytes t) (length b)
        then some (take (nbytes t) b)
        else none)
    else some (take (nbytes t) (drop t.offset b))

-- `read_tensor(name, float*)`: the bytes that it writes to `out`.
unfoldable pub read_tensor : PtLoader → Text → Option Bytes
read_tensor l name = elim (find name l.tensors) [
  | none ↦ none
  | some t ↦ elim (find t.storage l.buffers) [ none ↦ none | some b ↦ copied t b ]
]

abbrev pub join_numbers : Bool → List ℕ → Text
join_numbers later [] = []
join_numbers later (d ∷ ds) =
    (if later then codes "," else []) ++ (digits 20 d ++ join_numbers true ds)

unfoldable pub manifest_line : PtTensor → Text
manifest_line t =
    codes "  \""
    ++ (t.name
        ++ (codes "\": {\"storage\":"
            ++ (digits 10 t.storage
                ++ (codes ", \"offset\":"
                    ++ (digits 20 t.offset
                        ++ (codes ", \"shape\":["
                            ++ (join_numbers false t.shape
                                ++ (codes "], \"nbytes\":"
                                    ++ (digits 20 (nbytes t) ++ codes "}")))))))))

unfoldable pub manifest_lines : Bool → Map Text PtTensor → Text
manifest_lines first [] = []
manifest_lines first ((k, t) ∷ ts) =
    (if first then [] else codes ",\n") ++ (manifest_line t ++ manifest_lines false ts)

-- What `dump_manifest` writes to the file.
unfoldable pub manifest : PtLoader → Text
manifest l = codes "{\n" ++ (manifest_lines true l.tensors ++ codes "\n}\n")
