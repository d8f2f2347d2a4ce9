-- ===== src/Bench/Bounds.antt =====
-- The experts and tokens that dee.cpp/tools/dee_bench.cpp draws are in range.
use dee.Prelude.{
  ℕ, zero, suc, ◌+◌, ◌*◌, ◌%◌, ◌^◌, ◌<◌, ◌≡◌, refl, inl, false, List, [], ◌∷◌, All, arith,
  if◌then◌else◌,
}
use native.Mathlib.Nat.{mod-lt}
use dee.Kernels.{Arithmetic}
use dee.Checkpoint.{gives}
use dee.Bench.{
  Casts, int_half, long_half, to_long, base_of, chosen, score, choose, predict, route, hash, sample,
}
use dee.Bench.Ints.{
  is_negative, magnitude, IsWithin, rem_signed-IsWithin, rem_signed-small, add_signed-small,
  mul_signed-small, wrap-natural, magnitude-IsWithin, mul_signed-IsWithin, add_signed-gives,
}

-- The experts at places `i` to `i + k`, a stride apart, modulo the number of experts.
abbrev pub spread : {F : Type 0} → ℕ → ℕ → (ℕ → F) → (i k : ℕ) → ℕ → List (ℕ × F)
spread ne stride s i zero start = []
spread ne stride s i (suc k) start =
    ((start + i * stride) % ne, s i) ∷ spread ne stride s (suc i) k start

module _ (A : Arithmetic) (C : Casts A) where
  base_of-gives :
      (ne v : ℕ) (h : ℕ → A.Float)
      → 0 < ne
      → ne < int_half
      → C.int_of (A.mul (h 0) C.thousand) ≡ gives v
      → (base : ℕ) × (base_of A C ne h ≡ gives base) × (base < ne)
  unfolding base_of
  base_of-gives ne v h p n e =
      let (r, er, w) = rem_signed-IsWithin int_half v ne (omega arith) p n in
      let (base, eb, below) = wrap-natural int_half ne r n w in (base, rw (e, er) eb, below)

  chosen-gives :
      (stride step ne layer base i : ℕ)
      → 0 < ne
      → ne < int_half
      → stride < int_half
      → step < int_half
      → i < int_half
      → layer < int_half
      → base + layer * step + i * stride < int_half
      → chosen A C stride step ne layer base i ≡ gives ((base + layer * step + i * stride) % ne)
  unfolding chosen
  chosen-gives stride step ne layer base i p n s t hi hl h =
      let a = mul_signed-small int_half i stride hi s (omega (arith, h)) in
      let b = add_signed-small int_half base (i * stride) (omega (arith, h)) in
      let c = mul_signed-small int_half layer step hl t (omega (arith, h)) in
      let d = add_signed-small int_half (base + i * stride) (layer * step) (omega (arith, h)) in
      let same : base + i * stride + layer * step ≡ base + layer * step + i * stride =
        omega arith in
      rw (a, b, c, d, same) (rem_signed-small int_half (base + layer * step + i * stride) ne h p n)

  choose-spread :
      (stride step ne layer base whole i k : ℕ)
      → 0 < ne
      → ne < int_half
      → stride < int_half
      → step < int_half
      → layer < int_half
      → i + k < int_half
      → base + layer * step + (i + k) * stride < int_half
      → choose A C stride step ne layer base whole i k
        ≡ gives (spread ne stride (score A C whole) i k (base + layer * step))
  unfolding choose
  choose-spread stride step ne layer base whole i zero p n s t hl hi h = refl
  choose-spread stride step ne layer base whole i (suc k) p n s t hl hi h =
      let room : base + layer * step + i * stride < int_half = omega (arith, h) in
      let e = chosen-gives stride step ne layer base i p n s t (omega (arith, hi)) hl room in
      let es =
        choose-spread stride step ne layer base whole (suc i) k p n s t hl (omega (arith, hi))
          (omega (arith, h)) in
      rw (e, es) refl

  spread-below :
      {F : Type 0} (ne stride start : ℕ) (s : ℕ → F) (i k : ℕ)
      → 0 < ne
      → All (λ x. x.0 < ne) (spread ne stride s i k start)
  spread-below ne stride start s i zero p = tt
  spread-below ne stride start s i (suc k) p =
      (mod-lt (start + i * stride) p, spread-below ne stride start s (suc i) k p)

  -- What the Oracle and the router draw: a base from the hidden vector, and from there experts at
  -- their strides.
  pub record Draws (ne layer topk : ℕ) (h : ℕ → A.Float) : Type 0 where
    pub base : ℕ
    pub base_below : base < ne
    pub predicted :
        predict A C ne layer h topk ≡ gives (spread ne 7 (score A C topk) 0 topk (base + layer * 3))
    pub routed :
        route A C ne layer h topk
        ≡ gives (spread ne 5 (score A C (2 * topk)) 0 topk (base + layer * 11))
    pub predicted_below :
        All (λ x. x.0 < ne) (spread ne 7 (score A C topk) 0 topk (base + layer * 3))
    pub routed_below :
        All (λ x. x.0 < ne) (spread ne 5 (score A C (2 * topk)) 0 topk (base + layer * 11))

  -- Where the conversion of the first element is defined and the sums stay below the greatest
  -- `int`, the Oracle and the router both draw as many experts as asked for, all of them experts of
  -- the model, from one base at strides of 7 and of 5.
  pub predict-route :
      (ne layer topk v : ℕ) (h : ℕ → A.Float)
      → 0 < ne
      → C.int_of (A.mul (h 0) C.thousand) ≡ gives v
      → ne + layer * 11 + topk * 7 < int_half
      → Draws ne layer topk h
  unfolding predict route
  predict-route ne layer topk v h p e small =
      let (base, eb, below) = base_of-gives ne v h p (omega (arith, small)) e in
      let runs : is_negative int_half topk ≡ false = ground (arith, small) in
      let twice =
        mul_signed-small int_half 2 topk (omega arith) (omega (arith, small))
          (omega (arith, small)) in
      record {
        base = base;
        base_below = below;
        predicted =
            rw (eb, runs)
              (choose-spread 7 3 ne layer base topk 0 topk p (omega (arith, small)) (omega arith)
                (omega arith) (omega (arith, small)) (omega (arith, small))
                (omega (arith, small, below)));
        routed =
            rw (eb, runs, twice)
              (choose-spread 5 11 ne layer base (2 * topk) 0 topk p (omega (arith, small))
                (omega arith) (omega arith) (omega (arith, small)) (omega (arith, small))
                (omega (arith, small, below)));
        predicted_below = spread-below ne 7 (base + layer * 3) (score A C topk) 0 topk p;
        routed_below = spread-below ne 5 (base + layer * 11) (score A C (2 * topk)) 0 topk p;
      }

  -- Each element's conversion to `long` is defined, and not extreme.
  abbrev pub AreOrdinary : (ℕ → A.Float) → (ℕ → ℕ) → Type 0
  AreOrdinary h v =
      (i : ℕ)
      → (C.long_of (A.mul (h i) C.thousand) ≡ gives (v i)) × (magnitude long_half (v i) < 2 ^ 62)

  hash-IsWithin :
      (vocab : ℕ) (h : ℕ → A.Float) (v : ℕ → ℕ) (n : ℕ)
      → 0 < vocab
      → vocab < int_half
      → AreOrdinary h v
      → (acc : ℕ) × (hash A C vocab h n ≡ gives acc) × IsWithin long_half vocab acc
  unfolding hash
  hash-IsWithin vocab h v zero p b o = (0, refl, inl p)
  hash-IsWithin vocab h v (suc n) p b o =
      let (acc, e, w) = hash-IsWithin vocab h v n p b o in
      let few : magnitude long_half acc < vocab =
        magnitude-IsWithin long_half vocab acc (omega (arith, b)) w in
      let (a, ea, wa) =
        mul_signed-IsWithin long_half acc 31 (2 ^ 36) (omega arith) (omega (arith, few, b)) in
      let moderate : magnitude long_half a < 2 ^ 36 =
        magnitude-IsWithin long_half (2 ^ 36) a (omega arith) wa in
      let (s, es) = add_signed-gives long_half a (v n) (omega (arith, moderate, (o n).1)) in
      let (r, er, wr) = rem_signed-IsWithin long_half s vocab (omega arith) p (omega (arith, b)) in
      let widened : to_long vocab ≡ vocab = ground (arith, b) in
      (r, rw (e, ea, (o n).0, es, widened) er, wr)

  -- Where every element's conversion is defined and of a magnitude below 2 ^ 62, the sampler draws
  -- a token of the vocabulary.
  pub sample-gives :
      (vocab hidden_dim : ℕ) (h : ℕ → A.Float) (v : ℕ → ℕ)
      → 0 < vocab
      → vocab < int_half
      → AreOrdinary h v
      → (token : ℕ) × (sample A C vocab h hidden_dim ≡ gives token) × (token < vocab)
  unfolding sample
  sample-gives vocab hidden_dim h v p b o =
      let rounds : ℕ = if is_negative int_half hidden_dim then 0 else hidden_dim in
      let (acc, e, w) = hash-IsWithin vocab h v rounds p b o in
      let (r, er, below) = wrap-natural long_half vocab acc (omega (arith, b)) w in
      let last =
        rem_signed-small long_half r vocab (omega (arith, b, below)) p (omega (arith, b)) in
      let widened : to_long vocab ≡ vocab = ground (arith, b) in
      let token_below : r % vocab < vocab = mod-lt r p in
      (r % vocab % 2 ^ 32, rw (e, widened, er, last) refl, omega (arith, token_below, b))
