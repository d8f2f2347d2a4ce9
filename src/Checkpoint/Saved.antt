-- ===== src/Checkpoint/Saved.antt =====
-- What `PtLoader::parse_zip` of dee.cpp/src/pt_loader.cpp takes from the archive of a checkpoint: the
-- pickle, and the storages under their numbers.
use dee.Prelude.{
  ℕ, suc, ◌+◌, ◌-◌, ◌^◌, ◌≤◌, ◌<◌, ◌≡◌, refl, sym, ap, ◌∙◌, true, false, Option, none, some, List,
  [], ◌∷◌, ◌++◌, arith, ltb, ◌==◌, if◌then◌else◌, inl, inr, Bool-cases, length, get_elem?,
}
use dee.Map.{Map, find, assign}
use dee.Map.Laws.{find-assign, length-assign}
use dee.Device.{num_eq}
use dee.Json.{Text, codes, text_eq, read_digits, peek, is_space, is_digit}
use dee.Json.Print.{digits}
use dee.Json.Number.{digits_value, peek-digits}
use dee.Bytes.{Bytes, drop, starts_with}
use dee.Checkpoint.{gives, undefined, PtLoader}
use dee.Checkpoint.Pickle.{atoi}
use dee.Checkpoint.Zip.{Zlib, unpack, store_entry}
use dee.Checkpoint.Archive.{Entry}
use dee.Checkpoint.Reading.{store_all, store_all_cons}

abbrev pub storage_name : ℕ → Text
storage_name i = codes "oracle/data/" ++ digits 10 i

-- An entry that the loader passes over, such as the version or the byte order.
abbrev pub IsOther : Entry → Type 0
IsOther e =
    (text_eq e.name (codes "oracle/data.pkl") ≡ false)
    × (starts_with (codes "oracle/data/") e.name ≡ false)

-- The entries hold the storages from a number on, uncompressed and in their order.
pub data Saves : ℕ → List Entry → List Bytes → Type 0 where
  no_more : {i : ℕ} → Saves i [] []
  other :
      {i : ℕ} {es : List Entry} {bs : List Bytes} (e : Entry)
      → IsOther e
      → Saves i es bs
      → Saves i (e ∷ es) bs
  storage :
      {i : ℕ} {es : List Entry} {bs : List Bytes} (e : Entry)
      → e.name ≡ storage_name i
      → e.method ≡ 0
      → Saves (suc i) es bs
      → Saves i (e ∷ es) (e.packed ∷ bs)

-- The storages, each put under its number.
unfoldable pub put_all : ℕ → List Bytes → Map ℕ Bytes → Map ℕ Bytes
put_all i [] m = m
put_all i (b ∷ bs) m = put_all (suc i) bs (assign i b m)

atoi_number :
    (t : Text)
    → is_digit (peek t) ≡ true
    → atoi t ≡ (if ltb (read_digits 0 t) (2 ^ 31) then gives (read_digits 0 t) else undefined)
unfolding atoi
atoi_number [] h = absurd (ground (arith, h))
atoi_number (c ∷ cs) h =
    let space : is_space c ≡ false = ground (arith, h) in
    let minus : (c == b'-') ≡ false = ground (arith, h) in
    let plus : (c == b'+') ≡ false = ground (arith, h) in rw (space, minus, plus) refl

pub atoi-digits : (n : ℕ) → n < 2 ^ 31 → atoi (digits 10 n) ≡ gives n
atoi-digits n h =
    let small : ltb n (2 ^ 31) ≡ true = ground arith in
    atoi_number (digits 10 n) (peek-digits 9 n) ∙ rw (digits_value 10 n (omega arith), small) refl

put_all_cons :
    (i : ℕ) (b : Bytes) (bs : List Bytes) (m : Map ℕ Bytes)
    → put_all i (b ∷ bs) m ≡ put_all (suc i) bs (assign i b m)
unfolding put_all
put_all_cons i b bs m = refl

module _ (Z : Zlib) (fuel : ℕ) where
  store_storage :
      (e : Entry) (i : ℕ) (l : PtLoader)
      → i < 2 ^ 31
      → e.name ≡ storage_name i
      → e.method ≡ 0
      → store_entry Z fuel e.name e.method e.packed l
        ≡ gives (true, record l { buffers = assign i e.packed l.buffers })
  unfolding store_entry unpack starts_with text_eq drop
  store_storage e i l b n m = rw (n, m) (rw (atoi-digits i b) refl)

  store_other :
      (e : Entry) (l : PtLoader)
      → IsOther e
      → store_entry Z fuel e.name e.method e.packed l ≡ gives (true, l)
  unfolding store_entry
  store_other e l o = rw (o.0, store_entry) (rw (o.1, store_entry) refl)

  pub store_all-Saves :
      {i : ℕ} {es : List Entry} {bs : List Bytes} (l : PtLoader)
      → Saves i es bs
      → i + length bs ≤ 2 ^ 31
      → store_all Z fuel es l ≡ gives (true, record l { buffers = put_all i bs l.buffers })
  store_all-Saves l no_more h = unfold store_all put_all in refl
  store_all-Saves l (other {es = es} e o r) h =
      store_all_cons Z fuel e es l ∙ rw (store_other e l o) (store_all-Saves l r h)
  store_all-Saves l (storage {i = i} {es = es} {bs = bs} e n m r) h =
      store_all_cons Z fuel e es l
      ∙ rw (store_storage e i l (omega (arith, h)) n m) (
          store_all-Saves (record l { buffers = assign i e.packed l.buffers }) r (omega (arith, h)))
      ∙ ap (λ x. gives (true, record l { buffers = x }))
          (sym (put_all_cons i e.packed bs l.buffers))

-- The map has no number from `i` on.
abbrev Below : ℕ → Map ℕ Bytes → Type 0
Below i m = (j : ℕ) → i ≤ j → find j m ≡ none

Below-assign : (i : ℕ) (b : Bytes) (m : Map ℕ Bytes) → Below i m → Below (suc i) (assign i b m)
Below-assign i b m h j le =
    find-assign i j b m
    ∙ (let other : (i == j) ≡ false = ground arith in rw other (h j (omega arith)))

shift :
    (i j : ℕ) (b : Bytes) (bs : List Bytes) (o : Option Bytes)
    → (if ltb j (suc i) then (if i == j then some b else o) else get_elem? bs (j - suc i))
      ≡ (if ltb j i then o else get_elem? (b ∷ bs) (j - i))
shift i j b bs o = elim (Bool-cases (ltb j i)) [
  | inl low ↦
      let lower : ltb j (suc i) ≡ true = ground (arith, low) in
      let differs : (i == j) ≡ false = ground (arith, low) in rw (lower, differs, low) refl
  | inr high ↦ elim (Bool-cases (i == j)) [
    | inl same ↦
        let lower : ltb j (suc i) ≡ true = ground (arith, same) in
        let none_left : j - i ≡ 0 = ground (arith, same) in rw (lower, same, high, none_left) refl
    | inr differs ↦
        let higher : ltb j (suc i) ≡ false = ground (arith, differs, high) in
        let more : j - i ≡ suc (j - suc i) = ground (arith, differs, high) in
        rw (higher, high, more) refl
  ]
]

pub find-put_all :
    (bs : List Bytes) (i : ℕ) (m : Map ℕ Bytes) (j : ℕ)
    → Below i m
    → find j (put_all i bs m) ≡ (if ltb j i then find j m else get_elem? bs (j - i))
unfolding put_all
find-put_all [] i m j h = elim (Bool-cases (ltb j i)) [
  | inl low ↦ rw low refl
  | inr high ↦ rw high (h j (ground (arith, high)))
]
find-put_all (b ∷ bs) i m j h =
    find-put_all bs (suc i) (assign i b m) j (Below-assign i b m h)
    ∙ ap (λ x. if ltb j (suc i) then x else get_elem? bs (j - suc i)) (find-assign i j b m)
    ∙ shift i j b bs (find j m)

pub length-put_all :
    (bs : List Bytes) (i : ℕ) (m : Map ℕ Bytes)
    → Below i m
    → length (put_all i bs m) ≡ length m + length bs
unfolding put_all
length-put_all [] i m h = omega arith
length-put_all (b ∷ bs) i m h = omega (
  arith,
  length-put_all bs (suc i) (assign i b m) (Below-assign i b m h),
  length-assign i b m (h i (omega arith)),
)
