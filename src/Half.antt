-- ===== src/Half.antt =====
-- The conversions of 16-bit floats in dee.cpp/src/weight_mmap.cpp, `bf16_to_f32` and `f16_to_f32`,
-- on bit patterns: the last step of both copies the bits of `u` into a `float`.
pub mod Value
pub mod Convert
use dee.Prelude.{
  ℕ, zero, suc, ◌+◌, ◌-◌, ◌*◌, ◌/◌, ◌%◌, ◌^◌, ◌≡◌, Bool, true, false, ◌==◌, if◌then◌else◌,
}

-- `uint32_t` shifts to the left drop what leaves the word.
abbrev pub shift_left : ℕ → ℕ → ℕ
shift_left a k = a * 2 ^ k % 2 ^ 32

unfoldable pub bf16_to_f32 : ℕ → ℕ
bf16_to_f32 h = shift_left h 16

abbrev pub sign_of : ℕ → ℕ
sign_of h = h / 2 ^ 15 % 2

abbrev pub exp_of : ℕ → ℕ
exp_of h = h / 2 ^ 10 % 32

abbrev pub mant_of : ℕ → ℕ
mant_of h = h % 1024

-- The loop on a subnormal: `mant`, and `s` for `-e`. Ten rounds reach bit 10 from bit 0.
unfoldable pub normalize : ℕ → ℕ → ℕ → ℕ × ℕ
normalize zero mant s = (mant, s)
normalize (suc fuel) mant s =
    let rest : ℕ × ℕ = normalize fuel (shift_left mant 1) (suc s) in
    if mant / 1024 % 2 == 0 then rest else (mant, s)

-- The three fields put together; they do not overlap, so that `|` adds.
unfoldable pub fields : ℕ → ℕ → ℕ → ℕ
fields sign exp mant = shift_left sign 31 + shift_left exp 23 + shift_left mant 13

-- A subnormal that the loop has left with `mant` and `s`: the exponent is `127 - 15 - e`.
unfoldable pub subnormal_bits : ℕ → ℕ × ℕ → ℕ
subnormal_bits sign (mant, s) = fields sign (127 - 15 + s) (mant % 1024)

-- `exp - 15 + 127` wraps and wraps back.
unfoldable pub f16_to_f32 : ℕ → ℕ
f16_to_f32 h =
    if exp_of h == 0
    then (if mant_of h == 0
        then shift_left (sign_of h) 31
        else subnormal_bits (sign_of h) (normalize 10 (mant_of h) 0))
    else if exp_of h == 31
    then fields (sign_of h) 255 (mant_of h)
    else fields (sign_of h) (((exp_of h + 2 ^ 32 - 15) % 2 ^ 32 + 127) % 2 ^ 32) (mant_of h)
