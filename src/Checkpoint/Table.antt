-- ===== src/Checkpoint/Table.antt =====
-- The table of tensors that `PtLoader::parse_pickle` of dee.cpp/src/pt_loader.cpp makes.
use dee.Prelude.{
  ℕ, zero, suc, ◌+◌, ◌-◌, ◌/◌, ◌%◌, ◌^◌, ◌≤◌, ◌<◌, ◌≡◌, refl, sym, ap, ◌∙◌, Bool, true, false,
  Option, none, some, [], ◌∷◌, ◌++◌, arith, ltb, leb, ◌&&◌, ◌==◌, if◌then◌else◌, inl, inr,
  Bool-cases, length,
}
use dee.Map.{Map, find, assign}
use dee.Map.Laws.{find-assign, length-assign}
use dee.Json.{Text, codes, text_eq}
use dee.Json.Print.{digits}
use dee.Json.Texts.{text_eq_refl}
use dee.Weights.{text_key, text_eq_iff}
use dee.Weights.Names.{digits_split, append_cancel}
use dee.Bytes.{at}
use dee.Checkpoint.{PtTensor}
use dee.Checkpoint.Pickle.{local_name, full_name, tensor_of, add_tensors}

-- The number of a local name.
local_number : Text → ℕ
local_number s = (at s 4 - b'0') + (if at s 6 == b'b' then 1 else 0)

local_number-local_name : (k : ℕ) → k < 6 → local_number (local_name k) ≡ k
unfolding local_number local_name at
local_number-local_name zero h = refl
local_number-local_name (suc zero) h = refl
local_number-local_name (suc (suc zero)) h = refl
local_number-local_name (suc (suc (suc zero))) h = refl
local_number-local_name (suc (suc (suc (suc zero)))) h = refl
local_number-local_name (suc (suc (suc (suc (suc zero))))) h = refl
local_number-local_name (suc (suc (suc (suc (suc (suc k)))))) h = absurd (omega arith)

abbrev pub name_of : ℕ → Text
name_of g = full_name (g / 6) (local_name (g % 6))

name_of_injective : (g h : ℕ) → g < 2 ^ 31 → h < 2 ^ 31 → name_of g ≡ name_of h → g ≡ h
unfolding full_name
name_of_injective g h bg bh e =
    let rest =
      append_cancel (codes "layers.") (digits 10 (g / 6) ++ (b'.' ∷ local_name (g % 6)))
        (digits 10 (h / 6) ++ (b'.' ∷ local_name (h % 6))) e in
    let (layers, locals) =
      digits_split (g / 6) (h / 6) (b'.' ∷ local_name (g % 6)) (b'.' ∷ local_name (h % 6))
        (omega arith) (omega arith) refl refl rest in
    let same : g % 6 ≡ h % 6 =
      sym (local_number-local_name (g % 6) (omega arith))
      ∙ ap local_number (append_cancel (b'.' ∷ []) (local_name (g % 6)) (local_name (h % 6)) locals)
      ∙ local_number-local_name (h % 6) (omega arith) in
    omega (arith, layers, same)

text_eq-name_of : (g h : ℕ) → g < 2 ^ 31 → h < 2 ^ 31 → text_eq (name_of g) (name_of h) ≡ (g == h)
text_eq-name_of g h bg bh = elim (Bool-cases (g == h)) [
  | inl same ↦
      let e : g ≡ h = ground (arith, same) in
      ap (λ x. text_eq (name_of x) (name_of h)) e ∙ text_eq_refl (name_of h) ∙ sym same
  | inr other ↦ elim (Bool-cases (text_eq (name_of g) (name_of h))) [
    | inl hit ↦ absurd (
        ground
          (arith, other, name_of_injective g h bg bh ((text_eq_iff (name_of g) (name_of h)).0 hit)))
    | inr miss ↦ miss ∙ sym other
  ]
]

abbrev pub in_table : ℕ → ℕ → ℕ → Bool
in_table k g h = leb g h && ltb h (g + k)

grow :
    (k g h : ℕ) (o : Option PtTensor)
    → (if in_table k (g + 1) h
        then some (tensor_of h)
        else if g == h
        then some (tensor_of g)
        else o)
      ≡ (if in_table (suc k) g h then some (tensor_of h) else o)
grow k g h o = elim (Bool-cases (g == h)) [
  | inl same ↦
      let e : g ≡ h = ground (arith, same) in
      let out : in_table k (g + 1) h ≡ false = ground (arith, e) in
      let inside : in_table (suc k) g h ≡ true = ground (arith, e) in
      rw (out, same, inside) (ap (λ x. some (tensor_of x)) e)
  | inr other ↦
      let equal : in_table k (g + 1) h ≡ in_table (suc k) g h = ground (arith, other) in
      rw (equal, other) refl
]

pub find-add_tensors :
    (k g h : ℕ) (ts : Map Text PtTensor)
    → g + k ≤ 2 ^ 31
    → h < 2 ^ 31
    → find (name_of h) (add_tensors k g ts)
      ≡ (if in_table k g h then some (tensor_of h) else find (name_of h) ts)
unfolding add_tensors tensor_of
find-add_tensors zero g h ts b bh = ground arith
find-add_tensors (suc k) g h ts b bh =
    find-add_tensors k (g + 1) h (assign (name_of g) (tensor_of g) ts) (omega (arith, b)) bh
    ∙ ap (λ x. if in_table k (g + 1) h then some (tensor_of h) else x)
        (find-assign (name_of g) (name_of h) (tensor_of g) ts
          ∙ ap (λ x. if x then some (tensor_of g) else find (name_of h) ts)
              (text_eq-name_of g h (omega (arith, b)) bh))
    ∙ grow k g h (find (name_of h) ts)

-- No tensor from `g` on is in the table.
abbrev pub Fresh : ℕ → Map Text PtTensor → Type 0
Fresh g ts = (h : ℕ) → g ≤ h → h < 2 ^ 31 → find (name_of h) ts ≡ none

Fresh-assign :
    (g : ℕ) (ts : Map Text PtTensor)
    → Fresh g ts
    → g < 2 ^ 31
    → Fresh (g + 1) (assign (name_of g) (tensor_of g) ts)
Fresh-assign g ts f b h le bh =
    let differs : (g == h) ≡ false = ground arith in
    find-assign (name_of g) (name_of h) (tensor_of g) ts
    ∙ ap (λ x. if x then some (tensor_of g) else find (name_of h) ts)
        (text_eq-name_of g h b bh ∙ differs)
    ∙ f h (omega (arith, le)) bh

pub length-add_tensors :
    (k g : ℕ) (ts : Map Text PtTensor)
    → g + k ≤ 2 ^ 31
    → Fresh g ts
    → length (add_tensors k g ts) ≡ length ts + k
unfolding add_tensors tensor_of
length-add_tensors zero g ts b f = omega arith
length-add_tensors (suc k) g ts b f = omega (
  arith,
  length-add_tensors k (g + 1) (assign (name_of g) (tensor_of g) ts) (omega (arith, b))
      (Fresh-assign g ts f (omega (arith, b))),
  length-assign (name_of g) (tensor_of g) ts (f g (omega arith) (omega (arith, b))),
)
