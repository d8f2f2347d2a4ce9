-- ===== src/Json/Rounds.antt =====
-- One call of `parse_value` of dee.cpp/src/json_min.cpp, by the first byte, and one round of the
-- loops of `parse_array` and `parse_object`.
use dee.Prelude.{ℕ, suc, ◌≡◌, refl, ap, ◌∙◌, true, false, Option, ◌∷◌, ◌==◌}
use dee.Json.{
  Text, Value, Items, Fields, str, array, object, no_items, no_fields, done, peek, is_space,
  skip_ws, parse_string, quote, number, kind_of, flagged, mapped, next_of, parse_number, set_field,
  push_item, parse_value, parse_items, parse_fields,
}
use dee.Json.Texts.{skip_ws-none}

module _ {Float : Type 0} (stod : Text → Option Float) where
  -- What `parse_value` does by the kind of the first byte that is no space.
  pub at_quote :
      (f : ℕ) (ts : Text)
      → kind_of (peek (skip_ws ts)) ≡ quote
      → parse_value stod (suc f) ts
        ≡ done (str (parse_string (skip_ws ts)).0, (false, (parse_string (skip_ws ts)).1))
  unfolding parse_value
  at_quote f ts k = rw (k, parse_value) refl

  pub at_number :
      (f : ℕ) (ts : Text)
      → kind_of (peek (skip_ws ts)) ≡ number
      → parse_value stod (suc f) ts ≡ parse_number stod (skip_ws ts)
  unfolding parse_value
  at_number f ts k = rw (k, parse_value) refl

  pub at_array :
      (f : ℕ) (ts : Text)
      → (peek (skip_ws ts) == b']') ≡ false
      → parse_value stod (suc f) (b'[' ∷ ts)
        ≡ mapped stod array (parse_items stod f no_items (skip_ws ts))
  unfolding parse_value skip_ws kind_of
  at_array f ts k = rw (k, parse_value) refl

  pub at_object :
      (f : ℕ) (ts : Text)
      → (peek (skip_ws ts) == b'}') ≡ false
      → parse_value stod (suc f) (b'{' ∷ ts)
        ≡ mapped stod object (parse_fields stod f no_fields (skip_ws ts))
  unfolding parse_value skip_ws kind_of
  at_object f ts k = rw (k, parse_value) refl

  -- And where no space comes first.
  pub value_quote :
      (f : ℕ) (ts : Text)
      → is_space (peek ts) ≡ false
      → kind_of (peek ts) ≡ quote
      → parse_value stod (suc f) ts ≡ done (str (parse_string ts).0, (false, (parse_string ts).1))
  value_quote f ts h k =
      let skip : skip_ws ts ≡ ts = skip_ws-none ts h in
      at_quote f ts (ap (λ x. kind_of (peek x)) skip ∙ k)
      ∙ ap (λ x. done (str (parse_string x).0, (false, (parse_string x).1))) skip

  pub value_number :
      (f : ℕ) (ts : Text)
      → is_space (peek ts) ≡ false
      → kind_of (peek ts) ≡ number
      → parse_value stod (suc f) ts ≡ parse_number stod ts
  value_number f ts h k =
      let skip : skip_ws ts ≡ ts = skip_ws-none ts h in
      at_number f ts (ap (λ x. kind_of (peek x)) skip ∙ k) ∙ ap (parse_number stod) skip

  pub value_array :
      (f : ℕ) (ts : Text)
      → is_space (peek ts) ≡ false
      → (peek ts == b']') ≡ false
      → parse_value stod (suc f) (b'[' ∷ ts) ≡ mapped stod array (parse_items stod f no_items ts)
  value_array f ts h k =
      let skip : skip_ws ts ≡ ts = skip_ws-none ts h in
      at_array f ts (ap (λ x. peek x == b']') skip ∙ k)
      ∙ ap (λ x. mapped stod array (parse_items stod f no_items x)) skip

  pub value_object :
      (f : ℕ) (ts : Text)
      → peek ts ≡ 34
      → parse_value stod (suc f) (b'{' ∷ ts) ≡ mapped stod object (parse_fields stod f no_fields ts)
  value_object f ts h =
      let skip : skip_ws ts ≡ ts = skip_ws-none ts (ap is_space h) in
      at_object f ts (ap (λ x. peek x == b'}') skip ∙ ap (λ x. x == b'}') h)
      ∙ ap (λ x. mapped stod object (parse_fields stod f no_fields x)) skip

  -- One round of the loop of `parse_array`, by what follows the member.
  pub items_end :
      (f : ℕ) (before : Items Float) (v : Value Float) (ts rest : Text)
      → parse_value stod f ts ≡ done (v, (false, b']' ∷ rest))
      → parse_items stod (suc f) before ts ≡ done (push_item stod v before, (false, rest))
  unfolding parse_items skip_ws next_of
  items_end f before v ts rest e = rw (e, parse_items) refl

  pub items_more :
      (f : ℕ) (before : Items Float) (v : Value Float) (ts rest : Text)
      → parse_value stod f ts ≡ done (v, (false, b',' ∷ rest))
      → parse_items stod (suc f) before ts
        ≡ flagged stod false (parse_items stod f (push_item stod v before) rest)
  unfolding parse_items skip_ws next_of
  items_more f before v ts rest e = rw (e, parse_items) refl

  -- One round of the loop of `parse_object`.
  pub fields_end :
      (f : ℕ) (before : Fields Float) (k : Text) (v : Value Float) (ts us rest : Text)
      → (peek (skip_ws ts) == 34) ≡ true
      → parse_string (skip_ws ts) ≡ (k, b':' ∷ us)
      → parse_value stod f us ≡ done (v, (false, b'}' ∷ rest))
      → parse_fields stod (suc f) before ts ≡ done (set_field stod k v before, (false, rest))
  unfolding parse_fields skip_ws next_of
  fields_end f before k v ts us rest q e w = rw (q, e, e, w, e, parse_fields) refl

  pub fields_more :
      (f : ℕ) (before : Fields Float) (k : Text) (v : Value Float) (ts us rest : Text)
      → (peek (skip_ws ts) == 34) ≡ true
      → parse_string (skip_ws ts) ≡ (k, b':' ∷ us)
      → parse_value stod f us ≡ done (v, (false, b',' ∷ rest))
      → parse_fields stod (suc f) before ts
        ≡ flagged stod false (parse_fields stod f (set_field stod k v before) rest)
  unfolding parse_fields skip_ws next_of
  fields_more f before k v ts us rest q e w = rw (q, e, e, w, e, parse_fields) refl
