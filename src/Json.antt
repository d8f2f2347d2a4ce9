-- ===== src/Json.antt =====
-- The JSON reader of dee.cpp/src/json_min.cpp, `struct Parser`, and `struct Value` of
-- dee.cpp/include/dee/json_min.h. A text is a list of bytes, and the position `i` is what is left
-- of it: behind the end `peek` sees 0, as it does for a byte 0. `std::stod` is a parameter; it
-- gives `none` where it throws.
pub mod Fuel
pub mod Print
pub mod Number
pub mod Texts
pub mod Members
pub mod Rounds
pub mod RoundTrip
use Prim.Native.Char.{code}
use Prim.Native.String.{String}
use dee.Prelude.{
  ℕ, zero, suc, ◌+◌, ◌-◌, ◌*◌, ◌%◌, ◌^◌, Bool, true, false, ◌&&◌, ◌||◌, Option, none, some, List,
  [], ◌∷◌, not, ltb, leb, ◌==◌, if◌then◌else◌, length,
}

abbrev pub Text : Type 0
Text = List ℕ

-- The bytes of an ASCII literal.
abbrev pub codes : String → Text
codes String.[] = []
codes (String.◌∷◌ c s) = code c ∷ codes s

-- An integer is the 64-bit pattern of the `long long`. `Items` and `Fields` are the members `arr`
-- and `obj`; the fields stand in the order they came in, where `std::map` sorts them by their keys.
mutual
  pub data Value (Float : Type 0) : Type 0 where
    null : Value Float
    bool : Bool → Value Float
    int : ℕ → Value Float
    float : Float → Value Float
    str : Text → Value Float
    array : Items Float → Value Float
    object : Fields Float → Value Float

  pub data Items (Float : Type 0) : Type 0 where
    no_items : Items Float
    item : Value Float → Items Float → Items Float

  pub data Fields (Float : Type 0) : Type 0 where
    no_fields : Fields Float
    field : Text → Value Float → Fields Float → Fields Float

-- How a call ends: with a result, or with an exception; and the end of the model's fuel, which has
-- no counterpart.
pub data Outcome {ℓ} (A : Type ℓ) : Type ℓ where
  done : A → Outcome A
  thrown out_of_fuel : Outcome A

abbrev pub bind {ℓ κ} : {A : Type ℓ} {B : Type κ} → Outcome A → (A → Outcome B) → Outcome B
bind (done a) f = f a
bind thrown f = thrown
bind out_of_fuel f = out_of_fuel

unfoldable pub text_eq : Text → Text → Bool
text_eq [] [] = true
text_eq [] (d ∷ ds) = false
text_eq (c ∷ cs) [] = false
text_eq (c ∷ cs) (d ∷ ds) = (c == d) && text_eq cs ds

-- The text from the next position on.
abbrev pub advance : Text → Text
advance [] = []
advance (c ∷ cs) = cs

abbrev pub peek : Text → ℕ
peek [] = 0
peek (c ∷ cs) = c

abbrev pub is_digit : ℕ → Bool
is_digit c = leb b'0' c && leb c b'9'

-- `std::isspace` in the C locale.
abbrev pub is_space : ℕ → Bool
is_space c = (c == 32) || leb 9 c && leb c 13

unfoldable pub skip_ws : Text → Text
skip_ws [] = []
skip_ws (c ∷ cs) = let rest : Text = skip_ws cs in if is_space c then rest else c ∷ cs

unfoldable pub unescape : ℕ → ℕ
unescape e = if e == b'n' then 10 else if e == b't' then 9 else if e == b'r' then 13 else e

-- The loop of `parse_string` and what is left behind the closing quote, if there is one. The flag
-- says that the last byte was a backslash.
unfoldable pub string_body : Bool → Text → Text × Text
string_body true [] = (0 ∷ [], [])
string_body false [] = ([], [])
string_body true (e ∷ es) =
    let rest : Text × Text = string_body false es in (unescape e ∷ rest.0, rest.1)
string_body false (c ∷ cs) =
    let rest : Text × Text = string_body (c == 92) cs in
    if c == 34 then ([], cs) else if c == 92 then rest else (c ∷ rest.0, rest.1)

unfoldable pub parse_string : Text → Text × Text
parse_string ts = string_body false (advance ts)

-- `s.compare(i, …) == 0`, and the text behind.
unfoldable pub after_word : Text → Text → Option Text
after_word [] ts = some ts
after_word (w ∷ ws) [] = none
after_word (w ∷ ws) (c ∷ cs) =
    let rest : Option Text = after_word ws cs in if c == w then rest else none

abbrev pub is_numeric : ℕ → Bool
is_numeric c = is_digit c || (c == b'.') || (c == b'e') || (c == b'E') || (c == b'+') || (c == b'-')

-- The longest part of the text that the loop of `parse_number` takes, and the rest.
unfoldable pub take_numeric : Text → Text × Text
take_numeric [] = ([], [])
take_numeric (c ∷ cs) =
    let rest : Text × Text = take_numeric cs in
    if is_numeric c then (c ∷ rest.0, rest.1) else ([], c ∷ cs)

unfoldable pub has_byte : ℕ → Text → Bool
has_byte b [] = false
has_byte b (c ∷ cs) = (c == b) || has_byte b cs

-- The value of the digits at the front, behind those read so far.
unfoldable pub read_digits : ℕ → Text → ℕ
read_digits n [] = n
read_digits n (c ∷ cs) =
    let rest : ℕ = read_digits (n * 10 + (c - b'0')) cs in if is_digit c then rest else n

-- `std::stoll`: a sign, the digits at the front, and `none` where it throws, because there are no
-- digits or the number is out of range. What follows the digits is ignored.
unfoldable pub stoll : Text → Option ℕ
stoll ts =
    let negative : Bool = peek ts == b'-' in
    let digits : Text = if negative then advance ts else ts in
    let n : ℕ = read_digits 0 digits in
    if is_digit (peek digits)
    then (if negative
        then (if leb n (2 ^ 63) then some ((2 ^ 64 - n) % 2 ^ 64) else none)
        else if ltb n (2 ^ 63)
        then some n
        else none)
    else none

-- What `parse_value` decides by the first byte.
pub data Kind : Type 0 where
  brace bracket quote letter number other : Kind

unfoldable pub kind_of : ℕ → Kind
kind_of c =
    if c == b'{'
    then brace
    else if c == b'['
    then bracket
    else if c == 34
    then quote
    else if (c == b't') || (c == b'f')
    then letter
    else if (c == b'-') || is_digit c
    then number
    else other

-- What follows a member of an array or of an object that ends at `close`.
pub data Next : Type 0 where
  comma closing neither : Next

unfoldable pub next_of : ℕ → ℕ → Next
next_of close c = if c == b',' then comma else if c == close then closing else neither

module _ {Float : Type 0} (stod : Text → Option Float) where
  -- A value, whether an error was flagged on the way to it, and what is left.
  abbrev pub Parsed : Type 0 → Type 0
  Parsed A = Outcome (A × (Bool × Text))

  -- The end of `parse_number`, with the text of the number and what follows it.
  unfoldable pub number_value : Text → Text → Parsed (Value Float)
  number_value num rest =
      if has_byte b'.' num || has_byte b'e' num || has_byte b'E' num
      then elim (stod num) [ none ↦ thrown | some x ↦ done (float x, (false, rest)) ]
      else elim (stoll num) [ none ↦ thrown | some n ↦ done (int n, (false, rest)) ]

  -- The first byte may be a sign, which the loop would take as well.
  unfoldable pub parse_number : Text → Parsed (Value Float)
  parse_number ts = let (num, rest) = take_numeric ts in number_value num rest

  unfoldable pub parse_bool : Text → Parsed (Value Float)
  parse_bool ts = elim (after_word (b't' ∷ b'r' ∷ b'u' ∷ b'e' ∷ []) ts) [
    | some rest ↦ done (bool true, (false, rest))
    | none ↦ elim (after_word (b'f' ∷ b'a' ∷ b'l' ∷ b's' ∷ b'e' ∷ []) ts) [
      | some rest ↦ done (bool false, (false, rest))
      | none ↦ done (null, (true, ts))
    ]
  ]

  -- `obj[key] = val`
  unfoldable pub set_field : Text → Value Float → Fields Float → Fields Float
  set_field k v no_fields = field k v no_fields
  set_field k v (field j w fs) =
      let rest : Fields Float = set_field k v fs in
      if text_eq j k then field j v fs else field j w rest

  -- `arr.push_back(val)`
  unfoldable pub push_item : Value Float → Items Float → Items Float
  push_item v no_items = item v no_items
  push_item v (item w ws) = item w (push_item v ws)

  -- The flag of an earlier error stays.
  abbrev pub flagged : {A : Type 0} → Bool → Parsed A → Parsed A
  flagged e r = bind r λ (a, (e', rest)). done (a, (e || e', rest))

  abbrev pub mapped : {A B : Type 0} → (A → B) → Parsed A → Parsed B
  mapped f r = bind r λ (a, rest). done (f a, rest)

  -- `parse_value`, and one round of the loops of `parse_array` and of `parse_object` with what they
  -- have put together. Each call costs a unit of fuel.
  unfoldable mutual
    pub parse_value : ℕ → Text → Parsed (Value Float)
    parse_value zero ts = out_of_fuel
    parse_value (suc f) ts =
        let t : Text = skip_ws ts in
        let t' : Text = skip_ws (advance t) in
        elim (kind_of (peek t)) [
          | brace ↦ elim (peek t' == b'}') [
            | true ↦ done (object no_fields, (false, advance t'))
            | false ↦ mapped object (parse_fields f no_fields t')
          ]
          | bracket ↦ elim (peek t' == b']') [
            | true ↦ done (array no_items, (false, advance t'))
            | false ↦ mapped array (parse_items f no_items t')
          ]
          | quote ↦ let (s, rest) = parse_string t in done (str s, (false, rest))
          | letter ↦ parse_bool t
          | number ↦ parse_number t
          | other ↦ done (null, (true, t))
        ]

    pub parse_items : ℕ → Items Float → Text → Parsed (Items Float)
    parse_items zero vs ts = out_of_fuel
    parse_items (suc f) vs ts = bind (parse_value f ts) λ (v, (e, rest)).
        let vs' : Items Float = push_item v vs in
        let t : Text = skip_ws rest in
        elim (next_of b']' (peek t)) [
          | comma ↦ flagged e (parse_items f vs' (advance t))
          | closing ↦ done (vs', (e, advance t))
          | neither ↦ done (vs', (true, t))
        ]

    pub parse_fields : ℕ → Fields Float → Text → Parsed (Fields Float)
    parse_fields zero fs ts = out_of_fuel
    parse_fields (suc f) fs ts =
        let t : Text = skip_ws ts in
        elim (peek t == 34) [
          | false ↦ done (fs, (true, t))
          | true ↦
              let (key, rest) = parse_string t in
              let t₁ : Text = skip_ws rest in
              elim (peek t₁ == b':') [
                | false ↦ done (fs, (true, t₁))
                | true ↦ bind (parse_value f (advance t₁)) λ (v, (e, rest₂)).
                    let fs' : Fields Float = set_field key v fs in
                    let t₂ : Text = skip_ws rest₂ in
                    elim (next_of b'}' (peek t₂)) [
                      | comma ↦ flagged e (parse_fields f fs' (advance t₂))
                      | closing ↦ done (fs', (e, advance t₂))
                      | neither ↦ done (fs', (true, t₂))
                    ]
              ]
        ]

  abbrev pub answer : Value Float × (Bool × Text) → Outcome (Value Float × Bool)
  answer (v, (e, rest)) = done (v, not e)

  -- `parse`: the value and `*ok`. What is left of the text is not looked at.
  unfoldable pub parse : Text → Outcome (Value Float × Bool)
  parse ts = bind (parse_value (2 * length ts + 1) ts) answer

module _ {Float : Type 0} where
  -- `Value::find`
  unfoldable pub find_field : Text → Fields Float → Option (Value Float)
  find_field k no_fields = none
  find_field k (field j v fs) =
      let rest : Option (Value Float) = find_field k fs in if text_eq j k then some v else rest

  unfoldable pub find_in : Text → Value Float → Option (Value Float)
  find_in k (object fs) = find_field k fs
  find_in k _ = none
