-- ===== src/Bytes/Laws.antt =====
-- What stands behind a place of a byte sequence, by what `drop` leaves of it.
use dee.Prelude.{
  ℕ, zero, suc, ◌+◌, ◌-◌, ◌≤◌, ◌≡◌, refl, sym, ap, ◌∙◌, [], ◌∷◌, ◌++◌, arith, length, length-append,
}
use dee.Bytes.{Bytes, at, drop, take, slice, word16, word32}

pub at-drop : (p : ℕ) (d : Bytes) (k : ℕ) → at d (p + k) ≡ at (drop p d) k
unfolding at drop
at-drop zero d k = let e : 0 + k ≡ k = omega arith in ap (at d) e
at-drop (suc p) [] k = refl
at-drop (suc p) (c ∷ cs) k =
    let e : suc p + k ≡ suc (p + k) = omega arith in ap (at (c ∷ cs)) e ∙ at-drop p cs k

pub word16-drop : (p : ℕ) (d : Bytes) (k : ℕ) → word16 d (p + k) ≡ word16 (drop p d) k
unfolding word16
word16-drop p d k =
    let next : at d (p + k + 1) ≡ at (drop p d) (k + 1) =
      let e : p + k + 1 ≡ p + (k + 1) = omega arith in ap (at d) e ∙ at-drop p d (k + 1) in
    omega (arith, at-drop p d k, next)

pub word32-drop : (p : ℕ) (d : Bytes) (k : ℕ) → word32 d (p + k) ≡ word32 (drop p d) k
unfolding word32
word32-drop p d k =
    let next : word16 d (p + k + 2) ≡ word16 (drop p d) (k + 2) =
      let e : p + k + 2 ≡ p + (k + 2) = omega arith in ap (word16 d) e ∙ word16-drop p d (k + 2) in
    omega (arith, word16-drop p d k, next)

drop-nil : (n : ℕ) → drop n [] ≡ []
unfolding drop
drop-nil zero = refl
drop-nil (suc n) = refl

drop-drop : (p : ℕ) (d : Bytes) (k : ℕ) → drop (p + k) d ≡ drop k (drop p d)
unfolding drop
drop-drop zero d k = let e : 0 + k ≡ k = omega arith in ap (λ n. drop n d) e
drop-drop (suc p) [] k = drop-nil (suc p + k) ∙ sym (drop-nil k)
drop-drop (suc p) (c ∷ cs) k =
    let e : suc p + k ≡ suc (p + k) = omega arith in ap (λ n. drop n (c ∷ cs)) e ∙ drop-drop p cs k

length-drop : (p : ℕ) (d : Bytes) → length (drop p d) ≡ length d - p
unfolding drop
length-drop zero d = omega arith
length-drop (suc p) [] = omega arith
length-drop (suc p) (c ∷ cs) = omega (arith, length-drop p cs)

pub drop-append : (x y : Bytes) → drop (length x) (x ++ y) ≡ y
unfolding drop
drop-append [] y = refl
drop-append (c ∷ cs) y = drop-append cs y

take-append : (x y : Bytes) → take (length x) (x ++ y) ≡ x
unfolding take
take-append [] y = refl
take-append (c ∷ cs) y = ap (λ z. c ∷ z) (take-append cs y)

pub slice-append : (x y : Bytes) (d : Bytes) (p : ℕ) → drop p d ≡ x ++ y → slice d p (length x) ≡ x
unfolding slice
slice-append x y d p e = ap (take (length x)) e ∙ take-append x y

-- Behind `x`, where `x` stands at `p`.
pub drop_behind : (x y : Bytes) (d : Bytes) (p : ℕ) → drop p d ≡ x ++ y → drop (p + length x) d ≡ y
drop_behind x y d p e = drop-drop p d (length x) ∙ ap (drop (length x)) e ∙ drop-append x y

-- What stands at a place before the end does not reach behind it.
pub place_bound :
    (x y : Bytes) (d : Bytes) (p : ℕ) → p ≤ length d → drop p d ≡ x ++ y → p + length x ≤ length d
place_bound x y d p b e =
    omega (arith, b, length-drop p d, ap (length {A = ℕ}) e, length-append x y)
