-- ===== src/Json/RoundTrip.antt =====
-- What was printed is read back by the parser of dee.cpp/src/json_min.cpp.
use dee.Prelude.{
  ℕ, zero, suc, ◌+◌, ◌*◌, ◌<◌, ◌≡◌, refl, sym, ap, ◌∙◌, Bool, true, false, Option, [], ◌∷◌, ◌++◌,
  arith, ◌==◌, length, length-append,
}
use mathlib.Core.List.{append_assoc, append-nil}
use dee.Json.{
  Text, Value, Items, Fields, null, bool, int, float, str, array, object, no_items, item, no_fields,
  field, done, peek, skip_ws, parse_string, after_word, kind_of, flagged, mapped, parse_bool,
  push_item, parse_value, parse_items, parse_fields, parse,
}
use dee.Json.Print.{
  print_string, print_int, print, print_items, print_fields, IsPlain, ArePlain, FieldsPlain,
}
use dee.Json.Number.{parse_number-print_int}
use dee.Json.Texts.{
  parse_string-print_string, skip_ws-none, print_int_begin, print_begin, length-print, Stops,
}
use dee.Json.Rounds.{
  value_quote, value_number, value_array, value_object, items_end, items_more, fields_end,
  fields_more,
}
use dee.Json.Members.{
  append_items, append_fields, append-push, append-nothing, set_field-new, append_fields_assoc,
  no_keys, Apart, Apart-last,
}

module _ {Float : Type 0} (stod : Text → Option Float) where
  -- With fuel above `2 * length printed`, the parser reads `v` off the front of a text that goes on
  -- with something else than a number.
  abbrev ReadsValue : Value Float → Type 0
  ReadsValue v =
      IsPlain v
      → (f : ℕ) (rest : Text) → 2 * length (print v) < f
      → Stops rest
      → parse_value stod f (print v ++ rest) ≡ done (v, (false, rest))

  -- The loop of `parse_array` reads the members from the first on, behind those that it has.
  abbrev ReadsItems : Items Float → Type 0
  ReadsItems no_items = Unit
  ReadsItems (item v vs) =
      ArePlain (item v vs)
      → (f : ℕ) (before : Items Float) (rest : Text)
      → 2 * length (print v ++ print_items false vs) + 1 < f
      → parse_items stod f before (print v ++ (print_items false vs ++ rest))
        ≡ done (append_items before (item v vs), (false, rest))

  read_bool : (b : Bool) → ReadsValue (bool b)
  unfolding parse_value parse_bool print skip_ws kind_of after_word
  read_bool b p zero rest h s = absurd (omega arith)
  read_bool true p (suc f) rest h s = refl
  read_bool false p (suc f) rest h s = refl

  read_str : (t : Text) → ReadsValue (str t)
  unfolding print print_string kind_of
  read_str t p zero rest h s = absurd (omega arith)
  read_str t p (suc f) rest h s =
      value_quote stod f (print_string t ++ rest) refl refl
      ∙ ap (λ x. done (str x.0, (false, x.1))) (parse_string-print_string t rest)

  read_int : (n : ℕ) → ReadsValue (int n)
  unfolding print IsPlain
  read_int n p zero rest h s = absurd (omega arith)
  read_int n p (suc f) rest h s =
      let (begins, kind) = print_int_begin n rest in
      value_number stod f (print_int n ++ rest) begins.0 kind
      ∙ parse_number-print_int stod n rest p s

  items_step :
      (v : Value Float) (vs : Items Float) → ReadsValue v → ReadsItems vs → ReadsItems (item v vs)
  unfolding print_items ArePlain
  items_step v vs rv rvs p zero before rest h = absurd (omega arith)
  items_step v no_items rv rvs p (suc f) before rest h =
      items_end stod f before v (print v ++ (b']' ∷ rest)) rest
        (rv p.0 f (b']' ∷ rest) (omega (arith, length-append (print v) (b']' ∷ []))) refl)
      ∙ ap (λ x. done (x, (false, rest))) (append-nothing stod before v)
  items_step v (item w ws) rv rvs p (suc f) before rest h =
      let printed : Text = print w ++ print_items false ws in
      let assoc : printed ++ rest ≡ print w ++ (print_items false ws ++ rest) =
        append_assoc (print w) (print_items false ws) rest in
      let size : length (print v ++ (b',' ∷ printed)) ≡ length (print v) + suc (length printed) =
        length-append (print v) (b',' ∷ printed) in
      let some_bytes : 0 < length (print v) = length-print v p.0 in
      let tail_read = rvs p.1 f (push_item stod v before) rest (omega (arith, size, some_bytes)) in
      items_more stod f before v (print v ++ (b',' ∷ (printed ++ rest))) (printed ++ rest)
        (rv p.0 f (b',' ∷ (printed ++ rest)) (omega (arith, size)) refl)
      ∙ ap (λ ts. flagged stod false (parse_items stod f (push_item stod v before) ts)) assoc
      ∙ ap (flagged stod false) tail_read
      ∙ ap (λ x. done (x, (false, rest))) (append-push stod before (item w ws) v)

  read_array : (vs : Items Float) → ReadsItems vs → ReadsValue (array vs)
  unfolding print print_items IsPlain ArePlain append_items
  read_array vs r p zero rest h s = absurd (omega arith)
  read_array no_items r p (suc f) rest h s = unfold parse_value skip_ws kind_of in refl
  read_array (item v vs) r p (suc f) rest h s =
      let inner : Text = print v ++ (print_items false vs ++ rest) in
      let assoc : (print v ++ print_items false vs) ++ rest ≡ inner =
        append_assoc (print v) (print_items false vs) rest in
      let (a, b) = print_begin v (print_items false vs ++ rest) p.0 in
      ap (λ ts. parse_value stod (suc f) (b'[' ∷ ts)) assoc
      ∙ value_array stod f inner a b
      ∙ ap (mapped stod array) (r p f no_items rest (omega arith))

  -- The loop of `parse_object` reads the fields from the first on, behind those that it has.
  abbrev ReadsFields : Fields Float → Type 0
  ReadsFields no_fields = Unit {0}
  ReadsFields (field k v fs) =
      FieldsPlain (field k v fs)
      → (f : ℕ) (before : Fields Float) (rest : Text) → Apart before (field k v fs)
      → 2 * length (print_string k ++ b':' ∷ (print v ++ print_fields false fs)) + 1 < f
      → parse_fields stod f before
          (print_string k ++ b':' ∷ (print v ++ (print_fields false fs ++ rest)))
        ≡ done (append_fields before (field k v fs), (false, rest))

  length-key :
      (k us : Text)
      → length (print_string k ++ b':' ∷ us) ≡ length (print_string k) + suc (length us)
  length-key k us = length-append (print_string k) (b':' ∷ us)

  at_key : (k us : Text) → skip_ws (print_string k ++ b':' ∷ us) ≡ print_string k ++ b':' ∷ us
  unfolding print_string
  at_key k us = skip_ws-none (print_string k ++ b':' ∷ us) refl

  key_quote : (k us : Text) → (peek (skip_ws (print_string k ++ b':' ∷ us)) == 34) ≡ true
  unfolding print_string
  key_quote k us = ap (λ x. peek x == 34) (at_key k us)

  key_read : (k us : Text) → parse_string (skip_ws (print_string k ++ b':' ∷ us)) ≡ (k, b':' ∷ us)
  key_read k us = ap parse_string (at_key k us) ∙ parse_string-print_string k (b':' ∷ us)

  fields_step :
      (k : Text) (v : Value Float) (fs : Fields Float)
      → ReadsValue v
      → ReadsFields fs
      → ReadsFields (field k v fs)
  unfolding print_fields FieldsPlain
  fields_step k v fs rv rfs p zero before rest a h = absurd (omega arith)
  fields_step k v no_fields rv rfs p (suc f) before rest a h =
      let us : Text = print v ++ b'}' ∷ rest in
      fields_end stod f before k v (print_string k ++ b':' ∷ us) us rest (key_quote k us)
        (key_read k us)
        (rv p.1 f (b'}' ∷ rest)
          (omega (arith, length-key k (print v ++ b'}' ∷ []), length-append (print v) (b'}' ∷ [])))
          refl)
      ∙ ap (λ x. done (x, (false, rest))) (set_field-new stod k v before a.0)
  fields_step k v (field j w gs) rv rfs p (suc f) before rest a h =
      let printed : Text = print_string j ++ b':' ∷ (print w ++ print_fields false gs) in
      let split : Text = print_string j ++ b':' ∷ (print w ++ (print_fields false gs ++ rest)) in
      let assoc : printed ++ rest ≡ split =
        append_assoc (print_string j) (b':' ∷ (print w ++ print_fields false gs)) rest
        ∙ ap (λ x. print_string j ++ b':' ∷ x)
            (append_assoc (print w) (print_fields false gs) rest) in
      let us : Text = print v ++ b',' ∷ (printed ++ rest) in
      let size = length-key k (print v ++ b',' ∷ printed) in
      let size' = length-append (print v) (b',' ∷ printed) in
      let now : Fields Float = append_fields before (field k v no_fields) in
      let tail_read =
        rfs p.2 f now rest (Apart-last before (field j w gs) k v a.1 p.0)
          (omega (arith, size, size')) in
      fields_more stod f before k v (print_string k ++ b':' ∷ us) us (printed ++ rest)
        (key_quote k us) (key_read k us)
        (rv p.1 f (b',' ∷ (printed ++ rest)) (omega (arith, size, size')) refl)
      ∙ ap (λ x. flagged stod false (parse_fields stod f x (printed ++ rest)))
          (set_field-new stod k v before a.0)
      ∙ ap (λ x. flagged stod false (parse_fields stod f now x)) assoc
      ∙ ap (flagged stod false) tail_read
      ∙ ap (λ x. done (x, (false, rest))) (append_fields_assoc before (field j w gs) k v)

  read_object : (fs : Fields Float) → ReadsFields fs → ReadsValue (object fs)
  unfolding print print_fields IsPlain append_fields
  read_object fs r p zero rest h s = absurd (omega arith)
  read_object no_fields r p (suc f) rest h s = unfold parse_value skip_ws kind_of in refl
  read_object (field k v fs) r p (suc f) rest h s =
      let us : Text = print v ++ print_fields false fs in
      let inner : Text = print_string k ++ b':' ∷ (print v ++ (print_fields false fs ++ rest)) in
      let assoc : (print_string k ++ b':' ∷ us) ++ rest ≡ inner =
        append_assoc (print_string k) (b':' ∷ us) rest
        ∙ ap (λ x. print_string k ++ b':' ∷ x)
            (append_assoc (print v) (print_fields false fs) rest) in
      let starts : peek inner ≡ 34 = unfold print_string in refl in
      ap (λ ts. parse_value stod (suc f) (b'{' ∷ ts)) assoc
      ∙ value_object stod f inner starts
      ∙ ap (mapped stod object) (r p f no_fields rest (no_keys (field k v fs)) (omega arith))

  parse_value-ReadsValue : (v : Value Float) → ReadsValue v
  unfolding IsPlain
  parse_value-ReadsValue v = elim v as ReadsValue ReadsItems ReadsFields [
    | null ↦ λ p. absurd p
    | bool b ↦ read_bool b
    | int n ↦ read_int n
    | float x ↦ λ p. absurd p
    | str s ↦ read_str s
    | array (vs → ih) ↦ read_array vs ih
    | object (fs → ih) ↦ read_object fs ih
    | no_items ↦ tt
    | item (v → ih) (vs → ihs) ↦ items_step v vs ih ihs
    | no_fields ↦ tt
    | field k (v → ih) (fs → ihs) ↦ fields_step k v fs ih ihs
  ]

  -- A value without null, floats and repeated keys, printed, is parsed as it was, and no error is
  -- flagged.
  pub parse-print : (v : Value Float) → IsPlain v → parse stod (print v) ≡ done (v, true)
  unfolding parse
  parse-print v p =
      let read : parse_value stod (2 * length (print v) + 1) (print v ++ [])
          ≡ done (v, (false, [])) =
        parse_value-ReadsValue v p (2 * length (print v) + 1) [] (omega arith) refl in
      let whole =
        ap (parse_value stod (2 * length (print v) + 1)) (sym (append-nil (print v))) ∙ read in
      rw whole refl
