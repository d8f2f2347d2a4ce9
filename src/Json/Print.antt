-- ===== src/Json/Print.antt =====
-- JSON texts, without spaces: the reference that the parser of dee.cpp/src/json_min.cpp is compared
-- with. A quote and a backslash in a string are written behind a backslash, other bytes as they are.
use dee.Prelude.{
  ℕ, zero, suc, ◌+◌, ◌-◌, ◌/◌, ◌%◌, ◌^◌, ◌<◌, ◌≡◌, ◌⊎◌, Bool, true, false, ◌||◌, [], ◌∷◌, ◌++◌, ltb,
  ◌==◌, if◌then◌else◌,
}
use dee.Json.{
  Text, Value, Items, Fields, null, bool, int, float, str, array, object, no_items, item, no_fields,
  field,
}

unfoldable pub print_body : Text → Text
print_body [] = []
print_body (c ∷ cs) =
    let rest : Text = print_body cs in if (c == 34) || (c == 92) then 92 ∷ c ∷ rest else c ∷ rest

unfoldable pub print_string : Text → Text
print_string s = 34 ∷ (print_body s ++ 34 ∷ [])

-- The decimal digits of a number below `10 ^ fuel`.
unfoldable pub digits : ℕ → ℕ → Text
digits zero n = []
digits (suc fuel) n =
    let front : Text = digits fuel (n / 10) in
    if ltb n 10 then (b'0' + n) ∷ [] else front ++ (b'0' + n % 10) ∷ []

-- A 64-bit pattern as the `long long` that it stands for.
unfoldable pub print_int : ℕ → Text
print_int n = if ltb n (2 ^ 63) then digits 20 n else b'-' ∷ digits 20 (2 ^ 64 - n)

abbrev pub separator : Bool → Text
separator first = if first then [] else b',' ∷ []

module _ {Float : Type 0} where
  unfoldable mutual
    pub print : Value Float → Text
    print null = []
    print (bool true) = b't' ∷ b'r' ∷ b'u' ∷ b'e' ∷ []
    print (bool false) = b'f' ∷ b'a' ∷ b'l' ∷ b's' ∷ b'e' ∷ []
    print (int n) = print_int n
    print (float x) = []
    print (str s) = print_string s
    print (array vs) = b'[' ∷ print_items true vs
    print (object fs) = b'{' ∷ print_fields true fs

    pub print_items : Bool → Items Float → Text
    print_items first no_items = b']' ∷ []
    print_items first (item v vs) = separator first ++ (print v ++ print_items false vs)

    pub print_fields : Bool → Fields Float → Text
    print_fields first no_fields = b'}' ∷ []
    print_fields first (field k v fs) =
        separator first ++ (print_string k ++ b':' ∷ (print v ++ print_fields false fs))

  -- The values that can be written and read: no null and no float in them, integers of 64 bits,
  -- and objects with each key once.
  unfoldable mutual
    pub IsPlain : Value Float → Type 0
    IsPlain null = ⊥
    IsPlain (bool b) = Unit
    IsPlain (int n) = n < 2 ^ 64
    IsPlain (float x) = ⊥
    IsPlain (str s) = Unit
    IsPlain (array vs) = ArePlain vs
    IsPlain (object fs) = FieldsPlain fs

    pub ArePlain : Items Float → Type 0
    ArePlain no_items = Unit
    ArePlain (item v vs) = IsPlain v × ArePlain vs

    pub FieldsPlain : Fields Float → Type 0
    FieldsPlain no_fields = Unit
    FieldsPlain (field k v fs) = (HasKey k fs → ⊥) × IsPlain v × FieldsPlain fs

    pub HasKey : Text → Fields Float → Type 0
    HasKey k no_fields = ⊥
    HasKey k (field j v fs) = (k ≡ j) ⊎ HasKey k fs
