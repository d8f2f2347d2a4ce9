-- ===== src/Half/Convert.antt =====
-- What `f16_to_f32` of dee.cpp/src/weight_mmap.cpp gives for each kind of half.

use dee.Prelude.{
  ℕ, zero, suc, ◌+◌, ◌-◌, ◌*◌, ◌/◌, ◌%◌, ◌^◌, ◌≤◌, ◌<◌, ◌≡◌, ◌≢◌, sym, ap, ◌∙◌, inl, inr, arith,
  Bool-cases, ◌==◌,
}
use native.Mathlib.Nat.{
  mul_assoc, mul_right_comm, mul-le-mul_left, one-mul, pow-le-pow_right, pow-succ',
}
use dee.Half.{shift_left, sign_of, exp_of, mant_of, normalize, fields, subnormal_bits, f16_to_f32}
use dee.Half.Value.{half_magnitude, float_sign, float_exp, float_mant, float_magnitude}

fields-parts :
    (s e m : ℕ)
    → s < 2
    → e < 256
    → m < 1024
    → (float_sign (fields s e m) ≡ s)
      × (float_exp (fields s e m) ≡ e)
      × (float_mant (fields s e m) ≡ m * 2 ^ 13)
unfolding fields
fields-parts s e m hs he hm = (omega arith, omega arith, omega arith)

pow_add : (a b : ℕ) → 2 ^ (a + b) ≡ 2 ^ a * 2 ^ b
pow_add zero b = let e : 0 + b ≡ b = omega arith in ap (λ x. 2 ^ x) e ∙ sym (one-mul (2 ^ b))
pow_add (suc a) b =
    let e : suc a + b ≡ suc (a + b) = omega arith in
    ap (λ x. 2 ^ x) e
    ∙ pow-succ' 2 (a + b)
    ∙ ap (λ x. 2 * x) (pow_add a b)
    ∙ sym (mul_assoc 2 (2 ^ a) (2 ^ b))
    ∙ ap (λ x. x * 2 ^ b) (sym (pow-succ' 2 a))

exchange : (n a p c : ℕ) → n * a * (p * c) ≡ n * p * (a * c)
exchange n a p c =
    sym (mul_assoc (n * a) p c) ∙ ap (λ x. x * c) (mul_right_comm n a p) ∙ mul_assoc (n * p) a c

scale : (n d : ℕ) → n * 2 ^ 13 * 2 ^ (d + 112) ≡ n * 2 ^ d * 2 ^ 125
scale n d = ap (λ x. n * 2 ^ 13 * x) (pow_add d 112) ∙ exchange n (2 ^ 13) (2 ^ d) (2 ^ 112)

scale_twice : (n k : ℕ) → 1 ≤ k → 2 * (n * 2 ^ 125) ≤ n * 2 ^ k * 2 ^ 13 * 2 ^ (k + 111)
scale_twice n k h =
    let q : ℕ = 2 ^ k in
    let e : n * q * 2 ^ 13 * 2 ^ (k + 111) ≡ n * q * q * 2 ^ 124 =
      ap (λ x. n * q * 2 ^ 13 * x) (pow_add k 111) ∙ exchange (n * q) (2 ^ 13) q (2 ^ 111) in
    let two : 2 ≤ q = pow-le-pow_right (omega arith) h in
    let once : n * 2 ≤ n * q = mul-le-mul_left n two in
    let twice : n * q * 2 ≤ n * q * q = mul-le-mul_left (n * q) two in omega (arith, e, once, twice)

magnitude_of :
    (u e m : ℕ)
    → float_exp u ≡ suc e
    → float_mant u ≡ m * 2 ^ 13
    → float_magnitude u ≡ (1024 + m) * 2 ^ 13 * 2 ^ e
unfolding float_magnitude
magnitude_of u e m p q =
    let v : float_magnitude u ≡ (2 ^ 23 + m * 2 ^ 13) * 2 ^ e = ground (arith, p, q) in
    let w : 2 ^ 23 + m * 2 ^ 13 ≡ (1024 + m) * 2 ^ 13 = omega arith in v ∙ ap (λ x. x * 2 ^ e) w

-- The mantissa `m` moved up by some places, so that its highest bit is bit 10.
record IsNormal (fuel m s : ℕ) (res : ℕ × ℕ) : Type 0 where
  places : ℕ
  few : places ≤ fuel
  shifted : res.1 ≡ s + places
  moved : res.0 ≡ m * 2 ^ places
  at_least : 1024 ≤ res.0
  below : res.0 < 2048

doubled : (m k : ℕ) → m < 1024 → shift_left m 1 * 2 ^ k ≡ m * 2 ^ suc k
doubled m k h =
    let e : shift_left m 1 ≡ m * 2 = omega arith in
    ap (λ x. x * 2 ^ k) e ∙ mul_assoc m 2 (2 ^ k) ∙ ap (λ x. m * x) (sym (pow-succ' 2 k))

normalize-IsNormal :
    (fuel m s : ℕ) → 0 < m → m < 2048 → 1024 ≤ m * 2 ^ fuel → IsNormal fuel m s (normalize fuel m s)
unfolding normalize
normalize-IsNormal zero m s p q r = record {
  places = 0;
  few = omega arith;
  shifted = omega arith;
  moved = omega arith;
  at_least = omega arith;
  below = omega arith;
}
normalize-IsNormal (suc fuel) m s p q r = elim (Bool-cases (m / 1024 % 2 == 0)) [
  | inr done ↦
      rw (done, normalize)
        (record {
          places = 0;
          few = omega arith;
          shifted = omega arith;
          moved = omega arith;
          at_least = ground (arith, done);
          below = omega arith;
        })
  | inl more ↦
      let small : m < 1024 = ground (arith, more) in
      let n : IsNormal fuel (shift_left m 1) (suc s) (normalize fuel (shift_left m 1) (suc s)) =
        normalize-IsNormal fuel (shift_left m 1) (suc s) (omega arith) (omega arith)
          (omega (arith, doubled m fuel small)) in
      rw (more, normalize)
        (record {
          places = suc n.places;
          few = omega (arith, n.few);
          shifted = omega (arith, n.shifted);
          moved = n.moved ∙ doubled m n.places small;
          at_least = n.at_least;
          below = n.below;
        })
]

half_magnitude-normal :
    (h : ℕ) → exp_of h ≢ 0 → half_magnitude h ≡ (1024 + mant_of h) * 2 ^ (exp_of h - 1)
unfolding half_magnitude
half_magnitude-normal h nz = ground (arith, nz)

bits-normal :
    (h : ℕ)
    → exp_of h ≢ 0
    → exp_of h ≢ 31
    → f16_to_f32 h ≡ fields (sign_of h) (exp_of h + 112) (mant_of h)
unfolding f16_to_f32
bits-normal h nz ni =
    let e : ((exp_of h + 2 ^ 32 - 15) % 2 ^ 32 + 127) % 2 ^ 32 ≡ exp_of h + 112 = omega arith in
    ground (arith, e, nz, ni)

fields-magnitude :
    (s e m : ℕ)
    → s < 2
    → e < 254
    → m < 1024
    → float_magnitude (fields s (suc e) m) ≡ (1024 + m) * 2 ^ 13 * 2 ^ e
fields-magnitude s e m hs he hm =
    let (_, p, q) = fields-parts s (suc e) m hs (omega arith) hm in
    magnitude_of (fields s (suc e) m) e m p q

-- A half with an ordinary exponent becomes the finite float of the same sign and value.
pub f16_to_f32-normal :
    (h : ℕ)
    → exp_of h ≢ 0
    → exp_of h ≢ 31
    → (float_sign (f16_to_f32 h) ≡ sign_of h)
      × (float_magnitude (f16_to_f32 h) ≡ half_magnitude h * 2 ^ 125)
      × (float_exp (f16_to_f32 h) < 255)
f16_to_f32-normal h nz ni =
    let d : ℕ = exp_of h - 1 in
    let e : exp_of h + 112 ≡ suc (d + 112) = omega arith in
    let bits : f16_to_f32 h ≡ fields (sign_of h) (suc (d + 112)) (mant_of h) =
      bits-normal h nz ni ∙ ap (λ x. fields (sign_of h) x (mant_of h)) e in
    let (s, x, _) =
      fields-parts (sign_of h) (suc (d + 112)) (mant_of h) (omega arith) (omega arith)
        (omega arith) in
    (
      ap (λ u. float_sign u) bits ∙ s,
      ap (λ u. float_magnitude u) bits
          ∙ fields-magnitude (sign_of h) (d + 112) (mant_of h) (omega arith) (omega arith)
              (omega arith)
          ∙ scale (1024 + mant_of h) d
          ∙ ap (λ x. x * 2 ^ 125) (sym (half_magnitude-normal h nz)),
      omega (arith, ap (λ u. float_exp u) bits ∙ x),
    )

subnormal_bits-twice :
    (sign m : ℕ) (res : ℕ × ℕ)
    → sign < 2
    → m < 1024
    → IsNormal 10 m 0 res
    → (float_sign (subnormal_bits sign res) ≡ sign)
      × (2 * (m * 2 ^ 125) ≤ float_magnitude (subnormal_bits sign res))
unfolding subnormal_bits
subnormal_bits-twice sign m (top, s) hs hm n =
    let k : ℕ = n.places in
    let e : 127 - 15 + s ≡ suc (k + 111) = omega (arith, n.shifted) in
    let bits : subnormal_bits sign (top, s) ≡ fields sign (suc (k + 111)) (top % 1024) =
      ap (λ x. fields sign x (top % 1024)) e in
    let moves : 1 ≤ k = positive k n.moved in
    let value : 1024 + top % 1024 ≡ m * 2 ^ k = omega (arith, n.moved, n.at_least, n.below) in
    (
      ap (λ u. float_sign u) bits
          ∙ (fields-parts sign (suc (k + 111)) (top % 1024) hs (omega (arith, n.few))
              (omega arith)).0,
      omega (
        arith,
        ap (λ u. float_magnitude u) bits,
        fields-magnitude sign (k + 111) (top % 1024) hs (omega (arith, n.few)) (omega arith),
        ap (λ x. x * 2 ^ 13 * 2 ^ (k + 111)) value,
        scale_twice m k moves,
      ),
    )
  where
    positive : (k : ℕ) → top ≡ m * 2 ^ k → 1 ≤ k
    positive zero g = absurd (omega (arith, g, n.at_least))
    positive (suc k) g = omega arith

subnormal :
    (h : ℕ)
    → exp_of h ≡ 0
    → mant_of h ≢ 0
    → (f16_to_f32 h ≡ subnormal_bits (sign_of h) (normalize 10 (mant_of h) 0))
      × (half_magnitude h ≡ mant_of h)
unfolding f16_to_f32 half_magnitude
subnormal h z nz = (ground (arith, z, nz), ground (arith, z))

-- A subnormal half becomes a float of the same sign whose value is at least twice as large: the
-- exponent grows with each place that the mantissa moves up, where it should fall.
pub f16_to_f32-subnormal :
    (h : ℕ)
    → exp_of h ≡ 0
    → mant_of h ≢ 0
    → (float_sign (f16_to_f32 h) ≡ sign_of h)
      × (2 * (half_magnitude h * 2 ^ 125) ≤ float_magnitude (f16_to_f32 h))
f16_to_f32-subnormal h z nz =
    let (bits, value) = subnormal h z nz in
    rw (bits, value)
      (subnormal_bits-twice (sign_of h) (mant_of h) (normalize 10 (mant_of h) 0) (omega arith)
        (omega arith)
        (normalize-IsNormal 10 (mant_of h) 0 (omega arith) (omega arith) (omega arith)))

-- A zero stays a zero, with its sign.
pub f16_to_f32-zero : (h : ℕ) → exp_of h ≡ 0 → mant_of h ≡ 0 → f16_to_f32 h ≡ sign_of h * 2 ^ 31
unfolding f16_to_f32
f16_to_f32-zero h z nz = ground (arith, z, nz)

-- Infinities and NaNs stay what they are, with their sign and payload.
pub f16_to_f32-special :
    (h : ℕ)
    → exp_of h ≡ 31
    → (float_sign (f16_to_f32 h) ≡ sign_of h)
      × (float_exp (f16_to_f32 h) ≡ 255)
      × (float_mant (f16_to_f32 h) ≡ mant_of h * 2 ^ 13)
unfolding f16_to_f32
f16_to_f32-special h z =
    let bits : f16_to_f32 h ≡ fields (sign_of h) 255 (mant_of h) = ground (arith, z) in
    rw bits (fields-parts (sign_of h) 255 (mant_of h) (omega arith) (omega arith) (omega arith))
