-- ===== src/Bench.antt =====
-- The stand-ins of dee.cpp/tools/dee_bench.cpp: the Oracle, the router and the sampler, which draw
-- experts and tokens from the hidden vector, and the synthetic weights. An `int` or a `long` is its
-- bit pattern. The conversions of `float` are parameters; a conversion of a number that is out of
-- range is undefined.
pub mod Ints
pub mod Bounds
pub mod Options
pub mod Synthetic
pub mod Supplies
use dee.Prelude.{ℕ, zero, suc, ◌+◌, ◌-◌, ◌*◌, ◌%◌, ◌^◌, Bool, List, [], ◌∷◌, leb, if◌then◌else◌}
use dee.Kernels.{Arithmetic}
use dee.Checkpoint.{Result, gives, ◌>>=◌}
use dee.Bench.Ints.{is_negative, add_signed, mul_signed, rem_signed}

pub record Casts (A : Arithmetic) : Type 0 where
  -- `1000.0f`
  pub thousand : A.Float
  pub float_of_int : ℕ → A.Float
  pub int_of : A.Float → Result ℕ
  pub long_of : A.Float → Result ℕ

-- The predictors' `int`, and the sampler's `long`.
abbrev pub int_half : ℕ
int_half = 2 ^ 31

abbrev pub long_half : ℕ
long_half = 2 ^ 63

-- The conversion of an `int` to `long`.
abbrev pub to_long : ℕ → ℕ
to_long x = if leb int_half x then x + (2 ^ 64 - 2 ^ 32) else x

module _ (A : Arithmetic) (C : Casts A) where
  -- `int base = (int)(h[0] * 1000.0f) % ne_; if (base < 0) base += ne_;`
  unfoldable pub base_of : ℕ → (ℕ → A.Float) → Result ℕ
  base_of ne h = C.int_of (A.mul (h 0) C.thousand) >>= λ v. rem_signed int_half v ne >>= λ base.
      (if is_negative int_half base then add_signed int_half base ne else gives base)

  -- `(base + i * stride + layer * step) % ne_`
  unfoldable pub chosen : ℕ → ℕ → ℕ → ℕ → ℕ → ℕ → Result ℕ
  chosen stride step ne layer base i = mul_signed int_half i stride >>= λ a.
      add_signed int_half base a >>= λ b. mul_signed int_half layer step >>= λ c.
      add_signed int_half b c >>= λ d. rem_signed int_half d ne

  -- `1.0f - (float)i / whole`
  unfoldable pub score : ℕ → ℕ → A.Float
  score whole i = A.add A.one_float (A.neg (A.div (C.float_of_int i) (C.float_of_int whole)))

  -- The loop from `i` on, with `k` rounds left: each expert with its score.
  unfoldable pub choose : ℕ → ℕ → ℕ → ℕ → ℕ → ℕ → (i k : ℕ) → Result (List (ℕ × A.Float))
  choose stride step ne layer base whole i zero = gives []
  choose stride step ne layer base whole i (suc k) = chosen stride step ne layer base i >>= λ e.
      choose stride step ne layer base whole (suc i) k >>= λ es. gives ((e, score whole i) ∷ es)

  -- A loop `for (i = 0; i < n; ++i)` makes no round for a negative `n`.
  abbrev pub rounds_of : ℕ → ℕ
  rounds_of n = if is_negative int_half n then 0 else n

  -- `TokenOracle::predict`
  unfoldable pub predict : ℕ → ℕ → (ℕ → A.Float) → ℕ → Result (List (ℕ × A.Float))
  predict ne layer h topk =
      base_of ne h >>= λ base. choose 7 3 ne layer base topk 0 (rounds_of topk)

  -- `TokenRouter::route`
  unfoldable pub route : ℕ → ℕ → (ℕ → A.Float) → ℕ → Result (List (ℕ × A.Float))
  route ne layer h topk = base_of ne h >>= λ base.
      (if is_negative int_half topk
        then gives []
        else (mul_signed int_half 2 topk >>= λ whole. choose 5 11 ne layer base whole 0 topk))

  -- `acc` behind the first `n` rounds of `ArgmaxSampler::sample`.
  unfoldable pub hash : ℕ → (ℕ → A.Float) → ℕ → Result ℕ
  hash vocab h zero = gives 0
  hash vocab h (suc n) = hash vocab h n >>= λ acc. mul_signed long_half acc 31 >>= λ a.
      C.long_of (A.mul (h n) C.thousand) >>= λ v.
      add_signed long_half a v >>= λ s. rem_signed long_half s (to_long vocab)

  -- `ArgmaxSampler::sample`
  unfoldable pub sample : ℕ → (ℕ → A.Float) → ℕ → Result ℕ
  sample vocab h hidden_dim = hash vocab h (rounds_of hidden_dim) >>= λ acc.
      (if is_negative long_half acc then add_signed long_half acc (to_long vocab) else gives acc)
      >>= λ a. rem_signed long_half a (to_long vocab) >>= λ t. gives (t % 2 ^ 32)
