-- ===== src/Json/Members.antt =====
-- Members of JSON arrays and fields of objects put together one by one, as the loops of
-- dee.cpp/src/json_min.cpp do.
use dee.Prelude.{◌≡◌, refl, sym, ap, Option, ◌⊎◌, inl, inr, Bool-cases}
use dee.Json.{
  Text, Value, Items, Fields, no_items, item, no_fields, field, set_field, push_item, text_eq,
}
use dee.Json.Print.{HasKey}
use dee.Json.Texts.{text_eq_sound}

module _ {Float : Type 0} where
  unfoldable pub append_items : Items Float → Items Float → Items Float
  append_items no_items ws = ws
  append_items (item v vs) ws = item v (append_items vs ws)

  unfoldable pub append_fields : Fields Float → Fields Float → Fields Float
  append_fields no_fields gs = gs
  append_fields (field k v fs) gs = field k v (append_fields fs gs)

  -- No key of the fields is one of those before them.
  abbrev pub Apart : Fields Float → Fields Float → Type 0
  Apart before no_fields = Unit {0}
  Apart before (field k v fs) = (HasKey k before → ⊥) × Apart before fs

  pub HasKey-last :
      (j k : Text) (v : Value Float) (before : Fields Float)
      → HasKey j (append_fields before (field k v no_fields))
      → HasKey j before ⊎ (j ≡ k)
  unfolding HasKey append_fields
  HasKey-last j k v no_fields (inl e) = inr e
  HasKey-last j k v no_fields (inr h) = absurd h
  HasKey-last j k v (field i w fs) (inl e) = inl (inl e)
  HasKey-last j k v (field i w fs) (inr h) = elim (HasKey-last j k v fs h) [
    | inl g ↦ inl (inr g)
    | inr e ↦ inr e
  ]

  pub Apart-last :
      (before fs : Fields Float) (k : Text) (v : Value Float)
      → Apart before fs
      → (HasKey k fs → ⊥)
      → Apart (append_fields before (field k v no_fields)) fs
  unfolding HasKey
  Apart-last before no_fields k v a n = tt
  Apart-last before (field j w fs) k v a n = (
    λ h. elim (HasKey-last j k v before h) [ inl g ↦ a.0 g | inr e ↦ n (inl (sym e)) ],
    Apart-last before fs k v a.1 (λ h. n (inr h)),
  )

  pub append_fields_assoc :
      (before fs : Fields Float) (k : Text) (v : Value Float)
      → append_fields (append_fields before (field k v no_fields)) fs
        ≡ append_fields before (field k v fs)
  unfolding append_fields
  append_fields_assoc no_fields fs k v = refl
  append_fields_assoc (field j w gs) fs k v = ap (field j w) (append_fields_assoc gs fs k v)

  pub no_keys : (fs : Fields Float) → Apart no_fields fs
  unfolding HasKey
  no_keys no_fields = tt
  no_keys (field k v fs) = ((λ h. h), no_keys fs)

module _ {Float : Type 0} (stod : Text → Option Float) where
  pub append-push :
      (before vs : Items Float) (v : Value Float)
      → append_items (push_item stod v before) vs ≡ append_items before (item v vs)
  unfolding append_items push_item
  append-push no_items vs v = refl
  append-push (item w ws) vs v = ap (item w) (append-push ws vs v)

  pub append-nothing :
      (before : Items Float) (v : Value Float)
      → push_item stod v before ≡ append_items before (item v no_items)
  unfolding append_items push_item
  append-nothing no_items v = refl
  append-nothing (item w ws) v = ap (item w) (append-nothing ws v)

  pub set_field-new :
      (k : Text) (v : Value Float) (before : Fields Float)
      → (HasKey k before → ⊥)
      → set_field stod k v before ≡ append_fields before (field k v no_fields)
  unfolding set_field append_fields HasKey
  set_field-new k v no_fields n = refl
  set_field-new k v (field j w fs) n = elim (Bool-cases (text_eq j k)) [
    | inl same ↦ absurd (n (inl (sym (text_eq_sound j k same))))
    | inr other ↦ rw other (ap (field j w) (set_field-new k v fs (λ h. n (inr h))))
  ]
