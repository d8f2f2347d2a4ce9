-- ===== src/Json/Texts.antt =====
-- Strings and first bytes of printed JSON texts, for the parser of dee.cpp/src/json_min.cpp.
use dee.Prelude.{
  ℕ, ◌-◌, ◌^◌, ◌<◌, ◌≡◌, refl, ap, ◌∙◌, true, false, ◌||◌, [], ◌∷◌, ◌++◌, arith, ◌==◌, inl, inr,
  Bool-cases, length,
}
use mathlib.Core.List.{append_assoc}
use dee.Json.{
  Text, Value, null, bool, int, float, str, array, object, peek, is_digit, is_space, is_numeric,
  skip_ws, string_body, unescape, parse_string, number, kind_of, text_eq,
}
use dee.Json.Print.{print_body, print_string, print_int, digits, print, IsPlain}
use dee.Json.Number.{peek-append, peek-digits}

pub string_body-plain :
    (c : ℕ) (ts : Text)
    → ((c == 34) || (c == 92)) ≡ false
    → string_body false (c ∷ ts) ≡ (c ∷ (string_body false ts).0, (string_body false ts).1)
unfolding string_body
string_body-plain c ts h =
    let not_quote : (c == 34) ≡ false = ground (arith, h) in
    let not_backslash : (c == 92) ≡ false = ground (arith, h) in rw (not_quote, not_backslash) refl

pub string_body-escaped :
    (c : ℕ) (ts : Text)
    → ((c == 34) || (c == 92)) ≡ true
    → string_body false (92 ∷ c ∷ ts) ≡ (c ∷ (string_body false ts).0, (string_body false ts).1)
unfolding string_body unescape
string_body-escaped c ts h =
    let same : unescape c ≡ c = ground (arith, h) in
    ap (λ x. (x ∷ (string_body false ts).0, (string_body false ts).1)) same

pub print_body-special :
    (c : ℕ) (cs : Text)
    → ((c == 34) || (c == 92)) ≡ true
    → print_body (c ∷ cs) ≡ 92 ∷ c ∷ print_body cs
unfolding print_body
print_body-special c cs h = rw h refl

pub print_body-plain :
    (c : ℕ) (cs : Text) → ((c == 34) || (c == 92)) ≡ false → print_body (c ∷ cs) ≡ c ∷ print_body cs
unfolding print_body
print_body-plain c cs h = rw h refl

pub string_body-print_cons :
    (c : ℕ) (cs rest : Text)
    → string_body false (print_body (c ∷ cs) ++ 34 ∷ rest) ≡ (
      c ∷ (string_body false (print_body cs ++ 34 ∷ rest)).0,
      (string_body false (print_body cs ++ 34 ∷ rest)).1,
    )
string_body-print_cons c cs rest = elim (Bool-cases ((c == 34) || (c == 92))) [
  | inl special ↦
      rw (print_body-special c cs special)
        (string_body-escaped c (print_body cs ++ 34 ∷ rest) special)
  | inr plain ↦
      rw (print_body-plain c cs plain) (string_body-plain c (print_body cs ++ 34 ∷ rest) plain)
]

pub string_body-print_body :
    (s rest : Text) → string_body false (print_body s ++ 34 ∷ rest) ≡ (s, rest)
string_body-print_body [] rest = unfold string_body print_body in refl
string_body-print_body (c ∷ cs) rest =
    string_body-print_cons c cs rest ∙ ap (λ x. (c ∷ x.0, x.1)) (string_body-print_body cs rest)

pub parse_string-print_string : (s rest : Text) → parse_string (print_string s ++ rest) ≡ (s, rest)
unfolding parse_string print_string
parse_string-print_string s rest =
    ap (string_body false) (append_assoc (print_body s) (34 ∷ []) rest)
    ∙ string_body-print_body s rest

pub text_eq_sound : (s t : Text) → text_eq s t ≡ true → s ≡ t
unfolding text_eq
text_eq_sound [] [] e = refl
text_eq_sound [] (d ∷ ds) e = absurd (cc e)
text_eq_sound (c ∷ cs) [] e = absurd (cc e)
text_eq_sound (c ∷ cs) (d ∷ ds) e = ground (arith, e, text_eq_sound cs ds)

pub text_eq_refl : (s : Text) → text_eq s s ≡ true
unfolding text_eq
text_eq_refl [] = refl
text_eq_refl (c ∷ cs) = ground (arith, text_eq_refl cs)

pub skip_ws-none : (ts : Text) → is_space (peek ts) ≡ false → skip_ws ts ≡ ts
unfolding skip_ws
skip_ws-none [] h = refl
skip_ws-none (c ∷ cs) h = rw h refl

-- A byte at which a printed value can begin.
abbrev pub Begins : ℕ → Type 0
Begins c = (is_space c ≡ false) × ((c == b']') ≡ false)

-- What can follow a number.
abbrev pub Stops : Text → Type 0
Stops rest = is_numeric (peek rest) ≡ false

pub digits_begin : (n : ℕ) (rest : Text) → is_digit (peek (digits 20 n ++ rest)) ≡ true
digits_begin n rest =
    ap is_digit (peek-append (digits 20 n) rest (peek-digits 19 n)) ∙ peek-digits 19 n

pub print_int_begin :
    (n : ℕ) (rest : Text)
    → Begins (peek (print_int n ++ rest)) × (kind_of (peek (print_int n ++ rest)) ≡ number)
unfolding print_int kind_of
print_int_begin n rest = ground (arith, digits_begin n rest, digits_begin (2 ^ 64 - n) rest)

pub length_pos : (ts : Text) → kind_of (peek (ts ++ [])) ≡ number → 0 < length ts
unfolding kind_of
length_pos [] e = absurd (cc e)
length_pos (c ∷ cs) e = omega arith

module _ {Float : Type 0} where
  pub print_begin : (v : Value Float) (rest : Text) → IsPlain v → Begins (peek (print v ++ rest))
  unfolding print print_string IsPlain
  print_begin null rest p = absurd p
  print_begin (bool true) rest p = (refl, refl)
  print_begin (bool false) rest p = (refl, refl)
  print_begin (int n) rest p = (print_int_begin n rest).0
  print_begin (float x) rest p = absurd p
  print_begin (str s) rest p = (refl, refl)
  print_begin (array vs) rest p = (refl, refl)
  print_begin (object fs) rest p = (refl, refl)

  pub length-print : (v : Value Float) → IsPlain v → 0 < length (print v)
  unfolding print print_string IsPlain
  length-print null p = absurd p
  length-print (bool true) p = omega arith
  length-print (bool false) p = omega arith
  length-print (int n) p = length_pos (print_int n) (print_int_begin n []).1
  length-print (float x) p = absurd p
  length-print (str s) p = omega arith
  length-print (array vs) p = omega arith
  length-print (object fs) p = omega arith
