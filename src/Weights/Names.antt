-- ===== src/Weights/Names.antt =====
-- The names of the experts' tensors, `expert_tensor_name` of dee.cpp/src/weight_mmap.cpp.
use dee.Prelude.{
  ℕ, ◌+◌, ◌*◌, ◌-◌, ◌^◌, ◌<◌, ◌≡◌, refl, sym, ap, ◌∙◌, false, [], ◌∷◌, ◌++◌, arith, All,
}
use dee.Json.{Text, codes, peek, is_digit, read_digits}
use dee.Json.Print.{digits}
use dee.Json.Number.{IsDigit, digits-IsDigit, digits_value}
use dee.Staging.{Projection, gate_proj, up_proj, down_proj}
use dee.Weights.Resolver.{projection_name, expert_tensor_name}

-- Digits before something else are read as if they stood alone.
read_digits-append :
    (ds rest : Text) (n : ℕ)
    → All IsDigit ds
    → is_digit (peek rest) ≡ false
    → read_digits n (ds ++ rest) ≡ read_digits n ds
unfolding read_digits
read_digits-append [] [] n a s = refl
read_digits-append [] (c ∷ rest) n a s = rw s refl
read_digits-append (d ∷ ds) rest n a s =
    rw (a.0) (read_digits-append ds rest (n * 10 + (d - b'0')) a.1 s)

pub append_cancel : (xs ys zs : Text) → xs ++ ys ≡ xs ++ zs → ys ≡ zs
append_cancel [] ys zs e = e
append_cancel (x ∷ xs) ys zs e = append_cancel xs ys zs (cc e)

-- A number of at most ten digits and what follows it can be told from the text.
pub digits_split :
    (m n : ℕ) (s t : Text)
    → m < 10 ^ 10
    → n < 10 ^ 10
    → is_digit (peek s) ≡ false
    → is_digit (peek t) ≡ false
    → digits 10 m ++ s ≡ digits 10 n ++ t
    → (m ≡ n) × (s ≡ t)
digits_split m n s t hm hn ds dt e =
    let same : m ≡ n =
      sym (read_digits-append (digits 10 m) s 0 (digits-IsDigit 10 m) ds ∙ digits_value 10 m hm)
      ∙ ap (read_digits 0) e
      ∙ read_digits-append (digits 10 n) t 0 (digits-IsDigit 10 n) dt
      ∙ digits_value 10 n hn in
    (same, append_cancel (digits 10 m) s t (e ∙ ap (λ k. digits 10 k ++ t) (sym same)))

projection_injective :
    (p q : Projection)
    → projection_name p ++ codes ".weight" ≡ projection_name q ++ codes ".weight"
    → p ≡ q
projection_injective gate_proj gate_proj e = refl
projection_injective gate_proj up_proj e = absurd (omega (arith, ap peek e))
projection_injective gate_proj down_proj e = absurd (omega (arith, ap peek e))
projection_injective up_proj gate_proj e = absurd (omega (arith, ap peek e))
projection_injective up_proj up_proj e = refl
projection_injective up_proj down_proj e = absurd (omega (arith, ap peek e))
projection_injective down_proj gate_proj e = absurd (omega (arith, ap peek e))
projection_injective down_proj up_proj e = absurd (omega (arith, ap peek e))
projection_injective down_proj down_proj e = refl

-- Tensors of different layers, experts or projections have different names.
pub expert_tensor_name_injective :
    (layer expert layer' expert' : ℕ) (kind kind' : Projection)
    → layer < 2 ^ 31
    → expert < 2 ^ 31
    → layer' < 2 ^ 31
    → expert' < 2 ^ 31
    → expert_tensor_name layer expert kind ≡ expert_tensor_name layer' expert' kind'
    → (layer ≡ layer') × (expert ≡ expert') × (kind ≡ kind')
unfolding expert_tensor_name
expert_tensor_name_injective layer expert layer' expert' kind kind' a b a' b' e =
    let tail : ℕ → Projection → Text =
      λ x k. digits 10 x ++ (b'.' ∷ (projection_name k ++ codes ".weight")) in
    let last : Projection → Text = λ k. b'.' ∷ (projection_name k ++ codes ".weight") in
    let one =
      append_cancel (codes "model.language_model.layers.")
        (digits 10 layer ++ (codes ".mlp.experts." ++ tail expert kind))
        (digits 10 layer' ++ (codes ".mlp.experts." ++ tail expert' kind')) e in
    let (layers, two) =
      digits_split layer layer' (codes ".mlp.experts." ++ tail expert kind)
        (codes ".mlp.experts." ++ tail expert' kind') (omega arith) (omega arith) refl refl one in
    let three = append_cancel (codes ".mlp.experts.") (tail expert kind) (tail expert' kind') two in
    let (experts, four) =
      digits_split expert expert' (last kind) (last kind') (omega arith) (omega arith) refl refl
        three in
    (
      layers,
      experts,
      projection_injective kind kind' (
          append_cancel (b'.' ∷ []) (projection_name kind ++ codes ".weight")
            (projection_name kind' ++ codes ".weight") four),
    )
