-- ===== src/Tests/Half.antt =====
-- Runs of the models of the conversions in dee.cpp/src/weight_mmap.cpp, and the theorems at such
-- inputs.
use dee.Prelude.{◌*◌, ◌^◌, ◌≤◌, ◌<◌, ◌≡◌, refl, arith}
use dee.Half
use dee.Half.{sign_of, mant_of, f16_to_f32}
use dee.Half.Value
use dee.Half.Value.{half_magnitude, float_sign, float_exp, float_mant, float_magnitude}
use dee.Half.Convert.{f16_to_f32-normal, f16_to_f32-subnormal}

half_program : Unit {0}
unfolding Half.bf16_to_f32 Half.normalize Half.fields Half.subnormal_bits Half.f16_to_f32
    Value.half_magnitude Value.float_magnitude
half_program = tt

-- 1.0 in the three formats.
one_half : f16_to_f32 15360 ≡ 1065353216
unfolding half_program
one_half = refl

one_bf16 : Half.bf16_to_f32 16256 ≡ 1065353216
unfolding half_program
one_bf16 = refl

-- The least positive half, 2 ^ -24, becomes 2 ^ -5.
least_half : f16_to_f32 1 ≡ 122 * 2 ^ 23
unfolding half_program
least_half = refl

f16_to_f32-normal_example :
    (float_sign (f16_to_f32 48128) ≡ sign_of 48128)
    × (float_magnitude (f16_to_f32 48128) ≡ half_magnitude 48128 * 2 ^ 125)
    × (float_exp (f16_to_f32 48128) < 255)
f16_to_f32-normal_example =
    f16_to_f32-normal 48128 (λ e. absurd (omega (arith, e))) (λ e. absurd (omega (arith, e)))

f16_to_f32-subnormal_example :
    (float_sign (f16_to_f32 1) ≡ sign_of 1)
    × (2 * (half_magnitude 1 * 2 ^ 125) ≤ float_magnitude (f16_to_f32 1))
f16_to_f32-subnormal_example = f16_to_f32-subnormal 1 refl (λ e. absurd (omega (arith, e)))
