-- ===== src/Bench/Ints.antt =====
-- Signed machine integers as dee.cpp/tools/dee_bench.cpp computes with them, each by its pattern:
-- from `half` on it stands for a negative number. Overflow is undefined, and so is the remainder
-- by 0; the remainder has the sign of the number that is divided.
use dee.Prelude.{
  ℕ, ◌+◌, ◌-◌, ◌*◌, ◌%◌, ◌≤◌, ◌<◌, ◌≡◌, refl, ◌∙◌, ◌⊎◌, inl, inr, Bool, true, false, ◌&&◌, arith,
  Bool-cases, ltb, leb, ◌==◌, if◌then◌else◌,
}
use native.Mathlib.Nat.{mod-lt}
use dee.Checkpoint.{Result, gives, undefined}

module _ (half : ℕ) where
  abbrev pub is_negative : ℕ → Bool
  is_negative x = leb half x

  abbrev pub magnitude : ℕ → ℕ
  magnitude x = if is_negative x then 2 * half - x else x

  -- The number with that sign and that magnitude.
  unfoldable pub signed : Bool → ℕ → Result ℕ
  signed false m = if ltb m half then gives m else undefined
  signed true m = if m == 0 then gives 0 else if leb m half then gives (2 * half - m) else undefined

  unfoldable pub add_signed : ℕ → ℕ → Result ℕ
  add_signed x y =
      if is_negative x
      then (if is_negative y
          then signed true (magnitude x + magnitude y)
          else gives (if leb (2 * half) (x + y) then x + y - 2 * half else x + y))
      else (if is_negative y
          then gives (if leb (2 * half) (x + y) then x + y - 2 * half else x + y)
          else signed false (x + y))

  abbrev pub differ : Bool → Bool → Bool
  differ false b = b
  differ true false = true
  differ true true = false

  unfoldable pub mul_signed : ℕ → ℕ → Result ℕ
  mul_signed x y = signed (differ (is_negative x) (is_negative y)) (magnitude x * magnitude y)

  -- The least number by -1 overflows.
  unfoldable pub rem_signed : ℕ → ℕ → Result ℕ
  rem_signed x n =
      if n == 0
      then undefined
      else if (x == half) && (n == 2 * half - 1)
      then undefined
      else signed (is_negative x) (magnitude x % magnitude n)

  -- A number whose magnitude is less than `n`.
  abbrev pub IsWithin : ℕ → ℕ → Type 0
  IsWithin n x = (x < n) ⊎ ((2 * half - n < x) × (x < 2 * half))

  signed-IsWithin :
      (negative : Bool) (n m : ℕ)
      → n ≤ half
      → m < n
      → (r : ℕ) × (signed negative m ≡ gives r) × IsWithin n r
  unfolding signed
  signed-IsWithin false n m b h =
      let small : ltb m half ≡ true = ground (arith, b, h) in (m, rw small refl, inl h)
  signed-IsWithin true n m b h = elim (Bool-cases (m == 0)) [
    | inl none_left ↦ (0, rw none_left refl, inl (omega (arith, h)))
    | inr some_left ↦
        let small : leb m half ≡ true = ground (arith, b, h) in
        let positive : 0 < m = ground (arith, some_left) in
        (
          2 * half - m,
          rw (some_left, small) refl,
          inr (omega (arith, b, h, positive), omega (arith, b, h, positive)),
        )
  ]

  -- The remainder by a positive number is less than it.
  pub rem_signed-IsWithin :
      (x n : ℕ) → 1 < half → 0 < n → n < half → (r : ℕ) × (rem_signed x n ≡ gives r) × IsWithin n r
  unfolding rem_signed
  rem_signed-IsWithin x n large p h =
      let divides : (n == 0) ≡ false = ground (arith, p) in
      let ordinary : ((x == half) && (n == 2 * half - 1)) ≡ false = ground (arith, large, h) in
      let positive : is_negative n ≡ false = ground (arith, h) in
      let (r, e, w) =
        signed-IsWithin (is_negative x) n (magnitude x % n) (omega (arith, h))
          (mod-lt (magnitude x) p) in
      (r, rw (divides, ordinary, positive) e, w)

  pub rem_signed-small : (x n : ℕ) → x < half → 0 < n → n < half → rem_signed x n ≡ gives (x % n)
  unfolding rem_signed signed
  rem_signed-small x n s p h =
      let divides : (n == 0) ≡ false = ground (arith, p) in
      let ordinary : ((x == half) && (n == 2 * half - 1)) ≡ false = ground (arith, s) in
      let positive : is_negative n ≡ false = ground (arith, h) in
      let natural : is_negative x ≡ false = ground (arith, s) in
      let below : x % n < n = mod-lt x p in
      let fits : ltb (x % n) half ≡ true = ground (arith, below, h) in
      rw (divides, ordinary, positive, natural, fits) refl

  pub add_signed-small : (x y : ℕ) → x + y < half → add_signed x y ≡ gives (x + y)
  unfolding add_signed signed
  add_signed-small x y s =
      let left : is_negative x ≡ false = ground (arith, s) in
      let right : is_negative y ≡ false = ground (arith, s) in
      let fits : ltb (x + y) half ≡ true = ground (arith, s) in rw (left, right, fits) refl

  pub mul_signed-small :
      (x y : ℕ) → x < half → y < half → x * y < half → mul_signed x y ≡ gives (x * y)
  unfolding mul_signed signed
  mul_signed-small x y a b s =
      let left : is_negative x ≡ false = ground (arith, a) in
      let right : is_negative y ≡ false = ground (arith, b) in
      let fits : ltb (x * y) half ≡ true = ground (arith, s) in rw (left, right, fits) refl

  -- What is added to a number within `n` where it is negative: `n` itself.
  pub wrap-natural :
      (n x : ℕ)
      → n < half
      → IsWithin n x
      → (r : ℕ) × ((if is_negative x then add_signed x n else gives x) ≡ gives r) × (r < n)
  unfolding add_signed
  wrap-natural n x h (inl small) =
      let natural : is_negative x ≡ false = ground (arith, small, h) in (x, rw natural refl, small)
  wrap-natural n x h (inr (above, below)) =
      let negative : is_negative x ≡ true = ground (arith, above, h) in
      let positive : is_negative n ≡ false = ground (arith, h) in
      let wraps : leb (2 * half) (x + n) ≡ true = ground (arith, above) in
      (x + n - 2 * half, rw (negative, positive, wraps) refl, omega (arith, above, below, h))

  pub magnitude-IsWithin : (n x : ℕ) → n ≤ half → IsWithin n x → magnitude x < n
  magnitude-IsWithin n x b (inl small) = ground (arith, b, small)
  magnitude-IsWithin n x b (inr (above, below)) = ground (arith, b, above, below)

  pub mul_signed-IsWithin :
      (x y n : ℕ)
      → n ≤ half
      → magnitude x * magnitude y < n
      → (r : ℕ) × (mul_signed x y ≡ gives r) × IsWithin n r
  unfolding mul_signed
  mul_signed-IsWithin x y n b h =
      signed-IsWithin (differ (is_negative x) (is_negative y)) n (magnitude x * magnitude y) b h

  add_signed_negatives :
      (x y : ℕ)
      → is_negative x ≡ true
      → is_negative y ≡ true
      → add_signed x y ≡ signed true (magnitude x + magnitude y)
  unfolding add_signed
  add_signed_negatives x y nx ny = rw (nx, ny) refl

  pub add_signed-gives :
      (x y : ℕ) → magnitude x + magnitude y < half → (r : ℕ) × (add_signed x y ≡ gives r)
  unfolding add_signed
  add_signed-gives x y h =
      let mixed : ℕ = if leb (2 * half) (x + y) then x + y - 2 * half else x + y in
      elim (Bool-cases (is_negative x)) [
        | inl nx ↦ elim (Bool-cases (is_negative y)) [
          | inl ny ↦
              let (r, e, w) =
                signed-IsWithin true half (magnitude x + magnitude y) (omega arith) h in
              (r, add_signed_negatives x y nx ny ∙ e)
          | inr py ↦ (mixed, rw (nx, py) refl)
        ]
        | inr px ↦ elim (Bool-cases (is_negative y)) [
          | inl ny ↦ (mixed, rw (px, ny) refl)
          | inr py ↦ (x + y, add_signed-small x y (ground (arith, px, py, h)))
        ]
      ]
