-- ===== src/Json/Number.antt =====
-- Numbers in a JSON text: `parse_number` of dee.cpp/src/json_min.cpp reads back what `print_int`
-- writes.
use dee.Prelude.{
  ℕ, zero, suc, ◌+◌, ◌-◌, ◌*◌, ◌/◌, ◌%◌, ◌^◌, ◌≤◌, ◌<◌, ◌≡◌, refl, ap, ◌∙◌, true, false, ◌||◌,
  Option, some, [], ◌∷◌, ◌++◌, arith, ltb, inl, inr, Bool-cases, All, All-snoc,
}
use native.Mathlib.Nat.{pow-suc}
use dee.Json.{
  Text, int, done, peek, is_digit, is_numeric, take_numeric, has_byte, read_digits, stoll,
  number_value, parse_number,
}
use dee.Json.Print.{digits, print_int}

abbrev pub IsDigit : ℕ → Type 0
IsDigit c = is_digit c ≡ true

pub digits-IsDigit : (fuel n : ℕ) → All IsDigit (digits fuel n)
unfolding digits
digits-IsDigit zero n = tt
digits-IsDigit (suc fuel) n = elim (Bool-cases (ltb n 10)) [
  | inl small ↦ rw (small, digits) (ground (arith, small), tt)
  | inr large ↦
      rw (large, digits)
        (All-snoc IsDigit (digits fuel (n / 10)) (b'0' + n % 10) (digits-IsDigit fuel (n / 10))
          (ground arith))
]

-- The text goes on with something else than a digit.
abbrev Stops : Text → Type 0
Stops rest = is_numeric (peek rest) ≡ false

read_digits-snoc :
    (ds : Text) (m d : ℕ) (rest : Text)
    → All IsDigit ds
    → IsDigit d
    → Stops rest
    → read_digits m (ds ++ d ∷ rest) ≡ read_digits m ds * 10 + (d - b'0')
unfolding read_digits
read_digits-snoc [] m d [] a h s = ground (arith, h)
read_digits-snoc [] m d (c ∷ rest) a h s = ground (arith, h, s)
read_digits-snoc (c ∷ ds) m d rest a h s =
    ground (arith, a.0, read_digits-snoc ds (m * 10 + (c - b'0')) d rest a.1 h s)

pub digits_value : (fuel n : ℕ) → n < 10 ^ fuel → read_digits 0 (digits fuel n) ≡ n
unfolding digits read_digits
digits_value zero n h = omega arith
digits_value (suc fuel) n h = elim (Bool-cases (ltb n 10)) [
  | inl small ↦ rw (small, digits) (ground arith)
  | inr large ↦
      let small_front : n / 10 < 10 ^ fuel = omega (arith, pow-suc 10 fuel) in
      rw (large, digits)
        (read_digits-snoc (digits fuel (n / 10)) 0 (b'0' + n % 10) [] (digits-IsDigit fuel (n / 10))
            (ground arith) refl
          ∙ omega (arith, digits_value fuel (n / 10) small_front))
]

peek-snoc :
    (ds : Text) (d : ℕ) (rest : Text) → All IsDigit ds → IsDigit d → IsDigit (peek (ds ++ d ∷ rest))
peek-snoc [] d rest a h = h
peek-snoc (c ∷ ds) d rest a h = a.0

pub peek-digits : (fuel n : ℕ) → IsDigit (peek (digits (suc fuel) n))
unfolding digits
peek-digits fuel n = elim (Bool-cases (ltb n 10)) [
  | inl small ↦ rw (small, digits) (ground (arith, small))
  | inr large ↦
      rw (large, digits)
        (peek-snoc (digits fuel (n / 10)) (b'0' + n % 10) [] (digits-IsDigit fuel (n / 10))
          (ground arith))
]

pub peek-append : (ds rest : Text) → IsDigit (peek ds) → peek (ds ++ rest) ≡ peek ds
peek-append [] rest h = absurd (ground (arith, h))
peek-append (d ∷ ds) rest h = refl

take_numeric-digits :
    (ds rest : Text) → All IsDigit ds → Stops rest → take_numeric (ds ++ rest) ≡ (ds, rest)
unfolding take_numeric
take_numeric-digits [] [] a s = refl
take_numeric-digits [] (c ∷ cs) a s = rw s refl
take_numeric-digits (d ∷ ds) rest a s =
    let numeric : is_numeric d ≡ true = ground (arith, a.0) in
    rw (numeric, take_numeric-digits ds rest a.1 s) refl

has_byte-digits : (b : ℕ) (ds : Text) → is_digit b ≡ false → All IsDigit ds → has_byte b ds ≡ false
unfolding has_byte
has_byte-digits b [] h a = refl
has_byte-digits b (d ∷ ds) h a = ground (arith, h, a.0, has_byte-digits b ds h a.1)

no_point :
    (ds : Text)
    → All IsDigit ds
    → (has_byte b'.' ds || has_byte b'e' ds || has_byte b'E' ds) ≡ false
no_point ds a = ground (
  arith,
  has_byte-digits b'.' ds refl a,
  has_byte-digits b'e' ds refl a,
  has_byte-digits b'E' ds refl a,
)

no_point_sign :
    (ds : Text)
    → All IsDigit ds
    → (has_byte b'.' (b'-' ∷ ds) || has_byte b'e' (b'-' ∷ ds) || has_byte b'E' (b'-' ∷ ds)) ≡ false
unfolding has_byte
no_point_sign ds a = no_point ds a

take_numeric-sign :
    (ds rest : Text)
    → take_numeric (ds ++ rest) ≡ (ds, rest)
    → take_numeric (b'-' ∷ (ds ++ rest)) ≡ (b'-' ∷ ds, rest)
unfolding take_numeric
take_numeric-sign ds rest e = ap (λ x. (b'-' ∷ x.0, x.1)) e

stoll-positive : (n : ℕ) → ltb n (2 ^ 63) ≡ true → stoll (digits 20 n) ≡ some n
unfolding stoll
stoll-positive n small =
    ground (arith, small, peek-digits 19 n, digits_value 20 n (ground (arith, small)))

stoll-negative :
    (n : ℕ) → ltb n (2 ^ 63) ≡ false → n < 2 ^ 64 → stoll (b'-' ∷ digits 20 (2 ^ 64 - n)) ≡ some n
unfolding stoll
stoll-negative n large h =
    let k : ℕ = 2 ^ 64 - n in
    let bound : k ≤ 2 ^ 63 = ground (arith, large) in
    ground (arith, bound, peek-digits 19 k, digits_value 20 k (omega arith))

-- The number text, its bytes and its value decide what `parse_number` returns.
module _ {Float : Type 0} (stod : Text → Option Float) where
  parse_number-int :
      (ts num rest : Text) (n : ℕ)
      → take_numeric ts ≡ (num, rest)
      → (has_byte b'.' num || has_byte b'e' num || has_byte b'E' num) ≡ false
      → stoll num ≡ some n
      → parse_number stod ts ≡ done (int n, (false, rest))
  unfolding parse_number number_value
  parse_number-int ts num rest n t b v =
      let read : number_value stod num rest ≡ done (int n, (false, rest)) =
        rw (b, v, number_value) refl in
      ap (λ x. number_value stod x.0 x.1) t ∙ read

  -- A printed integer is read back, if a byte follows that cannot belong to it.
  pub parse_number-print_int :
      (n : ℕ) (rest : Text)
      → n < 2 ^ 64
      → Stops rest
      → parse_number stod (print_int n ++ rest) ≡ done (int n, (false, rest))
  unfolding print_int
  parse_number-print_int n rest h s = elim (Bool-cases (ltb n (2 ^ 63))) [
    | inl positive ↦
        rw (positive, print_int)
          (parse_number-int (digits 20 n ++ rest) (digits 20 n) rest n
            (take_numeric-digits (digits 20 n) rest (digits-IsDigit 20 n) s)
            (no_point (digits 20 n) (digits-IsDigit 20 n)) (stoll-positive n positive))
    | inr negative ↦
        let k : ℕ = 2 ^ 64 - n in
        rw (negative, print_int)
          (parse_number-int (b'-' ∷ (digits 20 k ++ rest)) (b'-' ∷ digits 20 k) rest n
            (take_numeric-sign (digits 20 k) rest
              (take_numeric-digits (digits 20 k) rest (digits-IsDigit 20 k) s))
            (no_point_sign (digits 20 k) (digits-IsDigit 20 k)) (stoll-negative n negative h))
  ]
