-- ===== src/Oracle/Sort.antt =====
-- The sort of dee.cpp/src/oracle.cpp, and what a prefix of it leaves out.
use dee.Prelude.{
  ℕ, zero, suc, ◌+◌, ◌≤◌, ◌≡◌, refl, ap, ◌∙◌, inl, inr, Bool, List, [], ◌∷◌, ◌++◌, arith, ltb,
  Bool-cases, All, count, indicator, length,
}
use dee.Oracle.{first, insert, sort}

-- The comparison is that of a rank: `a` stands before `b` if its rank is greater.
module _ (above : ℕ → ℕ → Bool) (rank : ℕ → ℕ)
    (above_rank : (a b : ℕ) → above a b ≡ ltb (rank b) (rank a)) where
  -- Each rank is at least those behind it.
  abbrev pub Falls : List ℕ → Type 0
  Falls [] = Unit
  Falls (a ∷ xs) = All (λ b. rank b ≤ rank a) xs × Falls xs

  All-weaken :
      (a b : ℕ) (cs : List ℕ)
      → rank a ≤ rank b
      → All (λ c. rank c ≤ rank a) cs
      → All (λ c. rank c ≤ rank b) cs
  All-weaken a b [] h p = tt
  All-weaken a b (c ∷ cs) h p = (omega (arith, p.0), All-weaken a b cs h p.1)

  All-insert : (P : ℕ → Type 0) (a : ℕ) (bs : List ℕ) → P a → All P bs → All P (insert above a bs)
  unfolding insert
  All-insert P a [] p q = (p, tt)
  All-insert P a (b ∷ bs) p q = elim (Bool-cases (above b a)) [
    | inl before ↦ rw before (q.0, All-insert P a bs p q.1)
    | inr behind ↦ rw behind (p, q)
  ]

  insert-Falls : (a : ℕ) (bs : List ℕ) → Falls bs → Falls (insert above a bs)
  unfolding insert
  insert-Falls a [] f = (tt, tt)
  insert-Falls a (b ∷ bs) f = elim (Bool-cases (above b a)) [
    | inl before ↦
        let h : rank a ≤ rank b = ground (arith, above_rank b a, before) in
        rw before (All-insert (λ c. rank c ≤ rank b) a bs h f.0, insert-Falls a bs f.1)
    | inr behind ↦
        let h : rank b ≤ rank a = ground (arith, above_rank b a, behind) in
        rw behind ((h, All-weaken b a bs h f.0), f)
  ]

  pub sort-Falls : (xs : List ℕ) → Falls (sort above xs)
  unfolding sort
  sort-Falls [] = tt
  sort-Falls (a ∷ xs) = insert-Falls a (sort above xs) (sort-Falls xs)

  pub Falls-append :
      (xs bs : List ℕ) → Falls (xs ++ bs) → Falls xs × All (λ a. All (λ b. rank b ≤ rank a) bs) xs
  Falls-append [] bs f = (tt, tt)
  Falls-append (a ∷ xs) bs f =
      let (p, q) = Falls-append xs bs f.1 in
      (
        (All-left (λ c. rank c ≤ rank a) xs bs f.0, p),
        (All-right (λ c. rank c ≤ rank a) xs bs f.0, q),
      )
    where
      All-left : (P : ℕ → Type 0) (xs ys : List ℕ) → All P (xs ++ ys) → All P xs
      All-left P [] ys h = tt
      All-left P (x ∷ xs) ys h = (h.0, All-left P xs ys h.1)

      All-right : (P : ℕ → Type 0) (xs ys : List ℕ) → All P (xs ++ ys) → All P ys
      All-right P [] ys h = h
      All-right P (x ∷ xs) ys h = All-right P xs ys h.1

  count-insert : (s a : ℕ) (bs : List ℕ) → count s (insert above a bs) ≡ indicator s a + count s bs
  unfolding insert count
  count-insert s a [] = refl
  count-insert s a (b ∷ bs) = ground (arith, count-insert s a bs)

  pub count-sort : (s : ℕ) (xs : List ℕ) → count s (sort above xs) ≡ count s xs
  unfolding sort count
  count-sort s [] = refl
  count-sort s (a ∷ xs) = ground (arith, count-sort s xs, count-insert s a (sort above xs))

  length-insert : (a : ℕ) (bs : List ℕ) → length (insert above a bs) ≡ suc (length bs)
  unfolding insert
  length-insert a [] = refl
  length-insert a (b ∷ bs) = ground (arith, length-insert a bs)

  pub length-sort : (xs : List ℕ) → length (sort above xs) ≡ length xs
  unfolding sort
  length-sort [] = refl
  length-sort (a ∷ xs) = length-insert a (sort above xs) ∙ ap suc (length-sort xs)

-- A list is its first elements and a rest.
pub first-rest :
    (n : ℕ) (xs : List ℕ)
    → n ≤ length xs
    → (rest : List ℕ) × ((xs ≡ first n xs ++ rest) × (length (first n xs) ≡ n))
unfolding first
first-rest zero xs h = (xs, (refl, refl))
first-rest (suc n) [] h = absurd (omega arith)
first-rest (suc n) (x ∷ xs) h =
    let (rest, (e, l)) = first-rest n xs (omega arith) in (rest, (ap (λ ys. x ∷ ys) e, ap suc l))
