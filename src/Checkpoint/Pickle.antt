-- ===== src/Checkpoint/Pickle.antt =====
-- `PtLoader::parse_pickle` of dee.cpp/src/pt_loader.cpp: the scan for tensors' names and storage
-- keys, the table of tensors, and the check of one against the other. The scan has one round of fuel
-- for each byte, and one.
use dee.Prelude.{
  ℕ, zero, suc, ◌+◌, ◌-◌, ◌/◌, ◌%◌, ◌^◌, Bool, true, false, not, ◌&&◌, ◌||◌, Option, none, some,
  List, [], ◌∷◌, ◌++◌, ltb, leb, ◌==◌, if◌then◌else◌, length,
}
use dee.Map.{Map, assign}
use dee.Oracle.{min_of}
use dee.Json.{Text, codes, is_digit, is_space, read_digits, text_eq}
use dee.Json.Print.{digits}
use dee.Weights.{text_key}
use dee.Bytes.{Bytes, at, slice, word32, starts_with, contains}
use dee.Checkpoint.{Result, gives, undefined, unfinished, ◌>>=◌, PtTensor, PtLoader}

-- `std::atoi`: undefined where no `int` has the value.
abbrev pub signed_int : Bool → ℕ → Result ℕ
signed_int false n = if ltb n (2 ^ 31) then gives n else undefined
signed_int true n = if leb n (2 ^ 31) then gives ((2 ^ 32 - n) % 2 ^ 32) else undefined

unfoldable pub atoi : Text → Result ℕ
atoi [] = gives 0
atoi (c ∷ cs) =
    let rest : Result ℕ = atoi cs in
    if is_space c
    then rest
    else if c == b'-'
    then signed_int true (read_digits 0 cs)
    else if c == b'+'
    then signed_int false (read_digits 0 cs)
    else signed_int false (read_digits 0 (c ∷ cs))

unfoldable pub read_binunicode : Bytes → ℕ → Option Text
read_binunicode d pos =
    if leb (length d) pos
    then none
    else if at d pos == b'X'
    then (if ltb (length d) (pos + 5)
        then none
        else if ltb (length d) (pos + 5 + word32 d (pos + 1))
        then none
        else some (slice d (pos + 5) (word32 d (pos + 1))))
    else if at d pos == 0x8c
    then (if ltb (length d) (pos + 2)
        then none
        else if ltb (length d) (pos + 2 + at d (pos + 1))
        then none
        else some (slice d (pos + 2) (at d (pos + 1))))
    else none

unfoldable pub is_tensor : Text → Bool
is_tensor s =
    starts_with (codes "net.") s && (contains (codes ".weight") s || contains (codes ".bias") s)

abbrev pub all_digits : Text → Bool
all_digits [] = true
all_digits (c ∷ cs) = is_digit c && all_digits cs

-- The storage key that stands at `j`.
unfoldable pub key_at : Bytes → ℕ → Option Text
key_at d j = elim (read_binunicode d j) [
  | none ↦ none
  | some key ↦ if not (length key == 0) && all_digits key then some key else none
]

-- The loop over `j`, with the number of places left.
unfoldable pub find_storage : ℕ → Bytes → ℕ → Result (Option ℕ)
find_storage zero d j = gives none
find_storage (suc k) d j = elim (key_at d j) [
  | none ↦ find_storage k d (j + 1)
  | some key ↦ atoi key >>= λ n. gives (some n)
]

-- `struct Found`
abbrev pub Found : Type 0
Found = Text × Option ℕ

unfoldable pub found_at : Bytes → ℕ → Text → Result (List Found)
found_at d i s =
    let searched : Result (List Found) =
      find_storage (min_of (length d) (i + 200) - (i + 1)) d (i + 1) >>= λ st.
      gives ((s, st) ∷ []) in
    if is_tensor s then searched else gives []

-- How far the scan goes on behind a string, in `uint32_t` or `int`.
unfoldable pub advance : Bytes → ℕ → ℕ
advance d i = if at d i == b'X' then (5 + word32 d (i + 1)) % 2 ^ 32 else 2 + at d (i + 1)

unfoldable pub scan : ℕ → Bytes → ℕ → Result (List Found)
scan zero d i = unfinished
scan (suc f) d i = elim (ltb i (length d)) [
  | false ↦ gives []
  | true ↦ elim (read_binunicode d i) [
    | none ↦ scan f d (i + 1)
    | some s ↦
        found_at d i s >>= λ here. scan f d (i + advance d i) >>= λ rest. gives (here ++ rest)
  ]
]

unfoldable pub scan_start : Bytes → ℕ
scan_start d = if ltb 1 (length d) && at d 0 == 0x80 then 2 else 0

-- `kLocalNames`
unfoldable pub local_name : ℕ → Text
local_name local =
    if local == 0
    then codes "net.0.weight"
    else if local == 1
    then codes "net.0.bias"
    else if local == 2
    then codes "net.2.weight"
    else if local == 3
    then codes "net.2.bias"
    else if local == 4
    then codes "net.4.weight"
    else codes "net.4.bias"

unfoldable pub local_shape : ℕ → List ℕ
local_shape local =
    if local == 0
    then 256 ∷ 2048 ∷ []
    else if local == 2 || local == 4
    then 256 ∷ 256 ∷ []
    else 256 ∷ []

unfoldable pub full_name : ℕ → Text → Text
full_name layer local = codes "layers." ++ (digits 10 layer ++ (b'.' ∷ local))

unfoldable pub tensor_of : ℕ → PtTensor
tensor_of g = record {
  name = full_name (g / 6) (local_name (g % 6));
  storage = g;
  offset = 0;
  shape = local_shape (g % 6);
  ndim = length (local_shape (g % 6));
  dtype = 0;
}

-- The loop over the storages, with the number of those left.
unfoldable pub add_tensors : ℕ → ℕ → Map Text PtTensor → Map Text PtTensor
add_tensors zero g ts = ts
add_tensors (suc k) g ts = add_tensors k (g + 1) (assign ((tensor_of g).name) (tensor_of g) ts)

-- The first name that the table does not have at its storage.
unfoldable pub mismatch : ℕ → List Found → Option (ℕ × Text)
mismatch num_storage [] = none
mismatch num_storage ((name, none) ∷ fs) = mismatch num_storage fs
mismatch num_storage ((name, some st) ∷ fs) =
    if leb num_storage st || text_eq (local_name (st % 6)) name
    then mismatch num_storage fs
    else some (st, name)

unfoldable pub mismatch_error : ℕ → Text → Text
mismatch_error st name =
    codes "oracle tensor order mismatch at storage "
    ++ (digits 10 st
        ++ (codes ": expected " ++ (local_name (st % 6) ++ (codes " but pickle says " ++ name))))

unfoldable pub parse_pickle : Bytes → PtLoader → Result (Bool × PtLoader)
parse_pickle pkl l = scan (suc (length pkl)) pkl (scan_start pkl) >>= λ found.
    let num_storage : ℕ = length l.buffers in
    let l' : PtLoader = record l { tensors = add_tensors num_storage 0 l.tensors } in
    elim (mismatch num_storage found) [
      | none ↦ gives (true, l')
      | some (st, name) ↦ gives (false, record l' { err = mismatch_error st name })
    ]
