-- ===== src/Json/Fuel.antt =====
-- The fuel of the parser of dee.cpp/src/json_min.cpp is enough: the parser ends on every text.
use dee.Prelude.{
  ℕ, zero, suc, ◌+◌, ◌*◌, ◌≤◌, ◌<◌, ◌≡◌, ◌≢◌, refl, Bool, true, false, ◌||◌, Option, none, some, [],
  ◌∷◌, arith, ◌==◌, length, if◌then◌else◌,
}
use dee.Json.{
  Text, Value, Items, Fields, no_items, no_fields, Outcome, done, thrown, out_of_fuel, bind,
  advance, peek, skip_ws, string_body, parse_string, after_word, take_numeric, has_byte, stoll,
  Kind, brace, bracket, quote, letter, number, other, kind_of, Next, comma, closing, neither,
  next_of, number_value, parse_number, parse_bool, set_field, push_item, parse_value, parse_items,
  parse_fields, answer, parse,
}

-- The call did not run out of fuel, and if it has a result it leaves at most `n` bytes.
pub data Leaves {A : Type 0} (n : ℕ) : Outcome (A × (Bool × Text)) → Type 0 where
  leaves : {a : A} {e : Bool} {rest : Text} → length rest ≤ n → Leaves n (done (a, (e, rest)))
  throws : Leaves n thrown

Leaves-ne : {A : Type 0} {n : ℕ} {r : Outcome (A × (Bool × Text))} → Leaves n r → r ≢ out_of_fuel
Leaves-ne (leaves h) = λ e. cc e
Leaves-ne throws = λ e. cc e

Leaves-bind :
    {A B : Type 0} {n m : ℕ} {r : Outcome (A × (Bool × Text))}
    (f : A × (Bool × Text) → Outcome (B × (Bool × Text)))
    → Leaves n r
    → ((a : A) (e : Bool) (rest : Text) → length rest ≤ n → Leaves m (f (a, (e, rest))))
    → Leaves m (bind r f)
Leaves-bind f (leaves {a} {e} {rest} h) k = k a e rest h
Leaves-bind f throws k = throws

length-skip_ws : (ts : Text) → length (skip_ws ts) ≤ length ts
unfolding skip_ws
length-skip_ws [] = omega arith
length-skip_ws (c ∷ cs) = ground (arith, length-skip_ws cs)

length-advance : (ts : Text) → length (advance ts) ≤ length ts
length-advance [] = omega arith
length-advance (c ∷ cs) = omega arith

-- A byte that is there is consumed.
advance_less : (ts : Text) → peek ts ≢ 0 → suc (length (advance ts)) ≤ length ts
advance_less [] h = absurd (h refl)
advance_less (c ∷ cs) h = omega arith

length-string_body : (esc : Bool) (ts : Text) → length (string_body esc ts).1 ≤ length ts
unfolding string_body
length-string_body true [] = omega arith
length-string_body false [] = omega arith
length-string_body true (e ∷ es) = omega (arith, length-string_body false es)
length-string_body false (c ∷ cs) = ground (arith, length-string_body (c == 92) cs)

length-parse_string : (ts : Text) → length (parse_string ts).1 ≤ length ts
unfolding parse_string
length-parse_string ts = omega (arith, length-string_body false (advance ts), length-advance ts)

length-take_numeric : (ts : Text) → length (take_numeric ts).1 ≤ length ts
unfolding take_numeric
length-take_numeric [] = omega arith
length-take_numeric (c ∷ cs) = ground (arith, length-take_numeric cs)

length-after_word : (ws ts rest : Text) → after_word ws ts ≡ some rest → length rest ≤ length ts
unfolding after_word
length-after_word [] ts rest e = ground (arith, e)
length-after_word (w ∷ ws) [] rest e = absurd (cc e)
length-after_word (w ∷ ws) (c ∷ cs) rest e = ground (arith, e, length-after_word ws cs rest)

Leaves-if :
    {A : Type 0} {n : ℕ} (b : Bool) {x y : Outcome (A × (Bool × Text))}
    → (b ≡ true → Leaves n x)
    → (b ≡ false → Leaves n y)
    → Leaves n (elim b [ true ↦ x | false ↦ y ])
Leaves-if true h k = h refl
Leaves-if false h k = k refl

Leaves-ite :
    {A : Type 0} {n : ℕ} (b : Bool) {x y : Outcome (A × (Bool × Text))}
    → Leaves n x
    → Leaves n y
    → Leaves n (if b then x else y)
Leaves-ite true h k = h
Leaves-ite false h k = k

Leaves-option :
    {A B : Type 0} {n : ℕ} (o : Option A) {x : Outcome (B × (Bool × Text))}
    {f : A → Outcome (B × (Bool × Text))}
    → Leaves n x
    → ((a : A) → o ≡ some a → Leaves n (f a))
    → Leaves n (elim o [ none ↦ x | some a ↦ f a ])
Leaves-option none h k = h
Leaves-option (some a) h k = k a refl

Leaves-next :
    {A : Type 0} {n : ℕ} (o : Next) {x y z : Outcome (A × (Bool × Text))}
    → (o ≡ comma → Leaves n x)
    → Leaves n y
    → Leaves n z
    → Leaves n (elim o [ comma ↦ x | closing ↦ y | neither ↦ z ])
Leaves-next comma h k l = h refl
Leaves-next closing h k l = k
Leaves-next neither h k l = l

Leaves-kind :
    {A : Type 0} {n : ℕ} (o : Kind) {u v w x y z : Outcome (A × (Bool × Text))}
    → (o ≡ brace → Leaves n u)
    → (o ≡ bracket → Leaves n v)
    → Leaves n w
    → Leaves n x
    → Leaves n y
    → Leaves n z
    → Leaves n
        (elim o [ brace ↦ u | bracket ↦ v | quote ↦ w | letter ↦ x | number ↦ y | other ↦ z ])
Leaves-kind brace a b c d e f = a refl
Leaves-kind bracket a b c d e f = b refl
Leaves-kind quote a b c d e f = c
Leaves-kind letter a b c d e f = d
Leaves-kind number a b c d e f = e
Leaves-kind other a b c d e f = f

-- A comma is a byte, and so is a bracket.
next_of-comma : (close c : ℕ) → next_of close c ≡ comma → c ≢ 0
unfolding next_of
next_of-comma close c e z = ground (arith, e, z)

kind_of-brace : (c : ℕ) → kind_of c ≡ brace → c ≢ 0
unfolding kind_of
kind_of-brace c e z = ground (arith, e, z)

kind_of-bracket : (c : ℕ) → kind_of c ≡ bracket → c ≢ 0
unfolding kind_of
kind_of-bracket c e z = ground (arith, e, z)

module _ {Float : Type 0} (stod : Text → Option Float) where
  parse_number-Leaves : (ts : Text) → Leaves (length ts) (parse_number stod ts)
  unfolding parse_number number_value
  parse_number-Leaves ts =
      let less = length-take_numeric ts in
      Leaves-ite (has_byte b'.' num || has_byte b'e' num || has_byte b'E' num)
        (Leaves-option (stod num) throws (λ _ _. leaves less))
        (Leaves-option (stoll num) throws (λ _ _. leaves less))
    where
      num : Text
      num = (take_numeric ts).0

  parse_bool-Leaves : (ts : Text) → Leaves (length ts) (parse_bool stod ts)
  unfolding parse_bool
  parse_bool-Leaves ts =
      Leaves-option (after_word (b't' ∷ b'r' ∷ b'u' ∷ b'e' ∷ []) ts)
        (Leaves-option (after_word (b'f' ∷ b'a' ∷ b'l' ∷ b's' ∷ b'e' ∷ []) ts)
          (leaves (omega arith))
          (λ rest e. leaves (length-after_word (b'f' ∷ b'a' ∷ b'l' ∷ b's' ∷ b'e' ∷ []) ts rest e)))
        (λ rest e. leaves (length-after_word (b't' ∷ b'r' ∷ b'u' ∷ b'e' ∷ []) ts rest e))

  Leaves-more :
      {A : Type 0} {n m : ℕ} {r : Outcome (A × (Bool × Text))} → Leaves n r → n ≤ m → Leaves m r
  Leaves-more (leaves g) h = leaves (omega (arith, g, h))
  Leaves-more throws h = throws

  mutual
    unfolding parse_value

    parse_value-Leaves :
        (f : ℕ) (ts : Text) → 2 * length ts < f → Leaves (length ts) (parse_value stod f ts)
    parse_value-Leaves zero ts h = absurd (omega arith)
    parse_value-Leaves (suc f) ts h =
        let t : Text = skip_ws ts in
        let t' : Text = skip_ws (advance t) in
        let skipped = length-skip_ws ts in
        let behind = length-skip_ws (advance t) in
        Leaves-kind (kind_of (peek t))
          (λ e.
            let less = advance_less t (kind_of-brace (peek t) e) in
            Leaves-if (peek t' == b'}')
              (λ _. leaves (omega (arith, length-advance t', less, behind, skipped)))
              (λ _.
                Leaves-bind _
                  (parse_fields-Leaves f no_fields t' (omega (arith, less, behind, skipped)))
                  (λ _ _ rest g. leaves (omega (arith, g, less, behind, skipped)))))
          (λ e.
            let less = advance_less t (kind_of-bracket (peek t) e) in
            Leaves-if (peek t' == b']')
              (λ _. leaves (omega (arith, length-advance t', less, behind, skipped)))
              (λ _.
                Leaves-bind _
                  (parse_items-Leaves f no_items t' (omega (arith, less, behind, skipped)))
                  (λ _ _ rest g. leaves (omega (arith, g, less, behind, skipped)))))
          (leaves (omega (arith, length-parse_string t, skipped)))
          (Leaves-more (parse_bool-Leaves t) skipped) (Leaves-more (parse_number-Leaves t) skipped)
          (leaves skipped)

    parse_items-Leaves :
        (f : ℕ) (vs : Items Float) (ts : Text)
        → 2 * length ts + 1 < f
        → Leaves (length ts) (parse_items stod f vs ts)
    parse_items-Leaves zero vs ts h = absurd (omega arith)
    parse_items-Leaves (suc f) vs ts h =
        Leaves-bind _ (parse_value-Leaves f ts (omega arith)) λ v e rest g.
          let t : Text = skip_ws rest in
          let skipped = length-skip_ws rest in
          Leaves-next (next_of b']' (peek t))
            (λ c.
              let less = advance_less t (next_of-comma b']' (peek t) c) in
              Leaves-bind _
                (parse_items-Leaves f (push_item stod v vs) (advance t)
                  (omega (arith, less, skipped, g)))
                (λ _ _ _ k. leaves (omega (arith, k, less, skipped, g))))
            (leaves (omega (arith, length-advance t, skipped, g)))
            (leaves (omega (arith, skipped, g)))

    parse_fields-Leaves :
        (f : ℕ) (fs : Fields Float) (ts : Text)
        → 2 * length ts + 1 < f
        → Leaves (length ts) (parse_fields stod f fs ts)
    parse_fields-Leaves zero fs ts h = absurd (omega arith)
    parse_fields-Leaves (suc f) fs ts h =
        let t : Text = skip_ws ts in
        let skipped = length-skip_ws ts in
        let (key, rest) = parse_string t in
        let string_less = length-parse_string t in
        let t₁ : Text = skip_ws rest in
        let skipped₁ = length-skip_ws rest in
        Leaves-if (peek t == 34)
          (λ _.
            Leaves-if (peek t₁ == b':')
              (λ c.
                let less = advance_less t₁ (ground (arith, c)) in
                Leaves-bind _
                  (parse_value-Leaves f (advance t₁)
                    (omega (arith, less, skipped, string_less, skipped₁)))
                  λ v e rest₂ g.
                    let t₂ : Text = skip_ws rest₂ in
                    let skipped₂ = length-skip_ws rest₂ in
                    Leaves-next (next_of b'}' (peek t₂))
                      (λ c.
                        Leaves-bind _
                          (parse_fields-Leaves f (set_field stod key v fs) (advance t₂) (
                            omega (
                              arith,
                              less,
                              skipped,
                              string_less,
                              skipped₁,
                              skipped₂,
                              length-advance t₂,
                              g,
                            )))
                          (λ _ _ _ k. leaves (
                            omega (
                              arith,
                              k,
                              less,
                              skipped,
                              string_less,
                              skipped₁,
                              skipped₂,
                              length-advance t₂,
                              g,
                            ))))
                      (leaves (
                        omega (
                          arith,
                          less,
                          skipped,
                          string_less,
                          skipped₁,
                          skipped₂,
                          length-advance t₂,
                          g,
                        )))
                      (leaves (omega (arith, less, skipped, string_less, skipped₁, skipped₂, g))))
              (λ _. leaves (omega (arith, skipped, string_less, skipped₁))))
          (λ _. leaves skipped)

  -- The parser ends on every text, with a value or an exception.
  pub parse_ends : (ts : Text) → parse stod ts ≢ out_of_fuel
  unfolding parse
  parse_ends ts = go (parse_value-Leaves (2 * length ts + 1) ts (omega arith))
    where
      go :
          {r : Outcome (Value Float × (Bool × Text))}
          → Leaves (length ts) r
          → bind r (answer stod) ≢ out_of_fuel
      go (leaves h) = λ e. cc e
      go throws = λ e. cc e
