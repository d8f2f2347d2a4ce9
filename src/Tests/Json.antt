-- ===== src/Tests/Json.antt =====
-- Runs of the model of dee.cpp/src/json_min.cpp on small texts, and the theorems at such texts.
use dee.Prelude.{ℕ, ◌≡◌, ◌≢◌, inl, inr, refl, ap, arith, true, false, Option, none, [], ◌∷◌}
use dee.Json
use dee.Json.{
  Text, Value, null, bool, int, str, array, object, no_items, item, no_fields, field, done, thrown,
  out_of_fuel, parse,
}
use dee.Json.Fuel.{parse_ends}
use dee.Json.Print
use dee.Json.Print.{print}
use dee.Json.RoundTrip.{parse-print}

unfoldable pub json_program : Unit {0}
unfolding Json.text_eq Json.skip_ws Json.unescape Json.string_body Json.parse_string Json.after_word
    Json.take_numeric Json.has_byte Json.read_digits Json.stoll Json.kind_of Json.next_of
    Json.number_value Json.parse_number Json.parse_bool Json.set_field Json.push_item
    Json.parse_value Json.parse_items Json.parse_fields Json.parse Json.find_field Json.find_in
    Print.print_body Print.print_string Print.digits Print.print_int Print.print Print.print_items
    Print.print_fields Print.IsPlain Print.ArePlain Print.FieldsPlain Print.HasKey
json_program = tt

-- No text is a floating-point number.
abbrev pub no_float : Text → Option ℕ
no_float ts = none

-- `[1, true]`
reads_array :
    parse no_float (b'[' ∷ b'1' ∷ b',' ∷ 32 ∷ b't' ∷ b'r' ∷ b'u' ∷ b'e' ∷ b']' ∷ [])
    ≡ done (array (item (int 1) (item (bool true) no_items)), true)
unfolding json_program
reads_array = refl

-- `1 2`: what follows the value is not looked at.
ignores_rest : parse no_float (b'1' ∷ 32 ∷ b'2' ∷ []) ≡ done (int 1, true)
unfolding json_program
ignores_rest = refl

-- `"a`: the closing quote may be missing.
reads_unterminated : parse no_float (34 ∷ b'a' ∷ []) ≡ done (str (b'a' ∷ []), true)
unfolding json_program
reads_unterminated = refl

-- `null` is no value that the parser knows.
rejects_null : parse no_float (b'n' ∷ b'u' ∷ b'l' ∷ b'l' ∷ []) ≡ done (null, false)
unfolding json_program
rejects_null = refl

-- `{"a":1;`: an error in an object gives what has been read of it.
keeps_partial :
    parse no_float (b'{' ∷ 34 ∷ b'a' ∷ 34 ∷ b':' ∷ b'1' ∷ b';' ∷ [])
    ≡ done (object (field (b'a' ∷ []) (int 1) no_fields), false)
unfolding json_program
keeps_partial = refl

-- `-`: `std::stoll` throws, and nothing catches it.
throws : parse no_float (b'-' ∷ []) ≡ thrown
unfolding json_program
throws = refl

parse_ends_example : parse no_float (b'[' ∷ b'[' ∷ b'1' ∷ []) ≢ out_of_fuel
parse_ends_example = parse_ends no_float (b'[' ∷ b'[' ∷ b'1' ∷ [])

-- `{"a":[10,true],"b":"\\"}`
abbrev header : Value ℕ
header = object (
    field (b'a' ∷ []) (array (item (int 10) (item (bool true) no_items)))
      (field (b'b' ∷ []) (str (92 ∷ [])) no_fields))

keys_differ : ◌≡◌ {A = Text} (b'a' ∷ []) (b'b' ∷ []) → ⊥
keys_differ e = omega (arith, ap Json.peek e)

header-IsPlain : Print.IsPlain header
unfolding json_program
header-IsPlain =
    (λ h. elim h [ inl e ↦ keys_differ e | inr n ↦ n ], (omega arith, (tt, tt)), ((λ n. n), tt, tt))

parse-print_example : parse no_float (print header) ≡ done (header, true)
unfolding json_program
parse-print_example = parse-print no_float header header-IsPlain
