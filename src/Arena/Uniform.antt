-- ===== src/Arena/Uniform.antt =====
-- The arena of dee.cpp/src/vram_cache.cpp where all blocks have one size, as those that
-- dee.cpp/src/engine.cpp asks for: there no space is lost to fragmentation.
use dee.Prelude.{
  ℕ, zero, suc, ◌+◌, ◌-◌, ◌*◌, ◌≤◌, ◌<◌, ◌≡◌, refl, ◌⊎◌, inl, inr, none, some, List, [], ◌∷◌, arith,
  leb, ◌==◌, Option-cases, Bool-cases, ◌||◌, size_limit, true, All, add_size,
}
use dee.Arena.{
  Hole, Arena, npos, alloc, free, free_space, first_fit, insert_hole, merge_from, coalesce,
}
use dee.Arena.Cover.{total, Apart, Gapped}
use dee.Arena.Invariant.{IsTiled, alloc-none, insert_hole-Apart_lent}

abbrev pub IsMultiple : ℕ → ℕ → Type 0
IsMultiple n m = (k : ℕ) × (m ≡ k * n)

IsMultiple-add : (n a b : ℕ) → IsMultiple n a → IsMultiple n b → IsMultiple n (a + b)
IsMultiple-add n a b (k, e) (j, f) = (k + j, grind arith)

IsMultiple-sub : (n a : ℕ) → IsMultiple n a → IsMultiple n (a - n)
IsMultiple-sub n a (zero, e) = (0, grind arith)
IsMultiple-sub n a (suc k, e) = (k, grind arith)

IsMultiple-le : (n a : ℕ) → IsMultiple n a → 0 < a → n ≤ a
IsMultiple-le n a (zero, e) p = grind arith
IsMultiple-le n a (suc k, e) p = grind arith

abbrev Multiples : ℕ → List Hole → Type 0
Multiples n = All (λ h. IsMultiple n h.size)

-- The high-water mark and the sizes of the holes are multiples of the block size.
pub record IsUniform (n : ℕ) (a : Arena) : Type 0 where
  pub high_multiple : IsMultiple n a.high
  pub hole_multiples : Multiples n a.holes

first_fit-Multiples :
    (n : ℕ) (hs : List Hole) {off : ℕ} {rest : List Hole}
    → Multiples n hs
    → first_fit n hs ≡ some (off, rest)
    → Multiples n rest
unfolding first_fit
first_fit-Multiples n [] u e = ground arith
first_fit-Multiples n (h ∷ hs) u e = elim (Option-cases (first_fit n hs)) [
  | inl missed ↦ ground (arith, IsMultiple-sub n h.size u.0)
  | inr ((o, r), found) ↦
      ground (
        arith,
        IsMultiple-sub n h.size u.0,
        first_fit-Multiples n hs {off = o} {rest = r} u.1 found,
      )
]

insert_hole-Multiples :
    (n : ℕ) (h : Hole) (hs : List Hole)
    → IsMultiple n h.size
    → Multiples n hs
    → Multiples n (insert_hole h hs)
unfolding insert_hole
insert_hole-Multiples n h [] p u = (p, tt)
insert_hole-Multiples n h (g ∷ gs) p u = ground (arith, insert_hole-Multiples n h gs p u.1)

merge_from-Multiples :
    (n hi : ℕ) (last : Hole) (hs : List Hole)
    → hi < size_limit
    → last.off + last.size ≤ hi
    → Apart (last.off + last.size) hi hs
    → IsMultiple n last.size
    → Multiples n hs
    → Multiples n (merge_from last hs)
unfolding merge_from
merge_from-Multiples n hi last [] m e a p u = (p, tt)
merge_from-Multiples n hi last (h ∷ hs) m e a p u =
    let sum : add_size last.size h.size ≡ last.size + h.size = omega arith in
    ground (
      arith,
      sum,
      merge_from-Multiples n hi h hs m a.2 a.3 u.0 u.1,
      IsMultiple-add n last.size h.size p u.0,
      merge_from-Multiples n hi (record { off = last.off; size = add_size last.size h.size }) hs m,
    )

coalesce-Multiples :
    (n hi : ℕ) (hs : List Hole)
    → hi < size_limit
    → Apart 0 hi hs
    → Multiples n hs
    → Multiples n (coalesce hs)
unfolding coalesce
coalesce-Multiples n hi [] m a u = tt
coalesce-Multiples n hi (h ∷ hs) m a u = merge_from-Multiples n hi h hs m a.2 a.3 u.0 u.1

total_of_small :
    (n lo hi : ℕ) (hs : List Hole)
    → Gapped lo hi hs
    → Multiples n hs
    → All (λ h. h.size < n) hs
    → total hs ≡ 0
unfolding total
total_of_small n lo hi [] g u s = refl
total_of_small n lo hi (h ∷ hs) g u s = absurd (omega (arith, IsMultiple-le n h.size u.0 g.1))

-- With blocks of one size, `alloc` succeeds whenever the arena reports enough free space.
pub alloc-IsUniform_total :
    (n : ℕ) (a : Arena) (live : List Hole)
    → 0 < n
    → n < size_limit
    → IsTiled a live
    → IsUniform n a
    → n ≤ free_space a
    → (off : ℕ) × ((alloc a n).0 ≡ some off)
unfolding free_space
alloc-IsUniform_total n a live p m v u room = elim (Option-cases (alloc a n).0) [
  | inl failed ↦ ground (
    arith,
    failed,
    alloc-none a live n m v,
    total_of_small n 0 a.high a.holes v.gapped u.hole_multiples,
  )
  | inr found ↦ found
]

-- The three ways through `alloc`.
alloc_cases :
    (a : Arena) (n : ℕ)
    → (alloc a n ≡ (none, a))
      ⊎ ((off : ℕ) × (rest : List Hole) × (first_fit n a.holes ≡ some (off, rest))
          × (alloc a n ≡ (some off, record a { used = add_size a.used n; holes = rest })))
      ⊎ ((leb (add_size a.high n) a.cap ≡ true)
          × (alloc a n
              ≡ (some a.high, record a { used = add_size a.used n; high = add_size a.high n })))
unfolding alloc
alloc_cases a n = elim (Option-cases (first_fit n a.holes)) [
  | inl missed ↦ ground (arith, missed)
  | inr ((o, r), found) ↦ elim (Bool-cases (n == 0)) [
    | inl nothing ↦ inl (rw nothing)
    | inr asked ↦ inr (inl (o, r, found, rw (asked, found)))
  ]
]

pub alloc-IsUniform :
    (n : ℕ) (a : Arena) (live : List Hole)
    → n < size_limit
    → IsTiled a live
    → IsUniform n a
    → IsUniform n (alloc a n).1
alloc-IsUniform n a live m v u = elim (alloc_cases a n) [
  | inl e ↦ rw e u
  | inr (inl (o, r, found, e)) ↦ rw e (record {
    high_multiple = u.high_multiple;
    hole_multiples = first_fit-Multiples n a.holes u.hole_multiples found;
  })
  | inr (inr (_, e)) ↦
      let sum : add_size a.high n ≡ a.high + n = omega arith in
      rw (e, sum)
        (record {
          high_multiple = IsMultiple-add n a.high n u.high_multiple (1, omega arith);
          hole_multiples = u.hole_multiples;
        })
]

pub free-IsUniform :
    (n : ℕ) (a : Arena) (b : Hole) (live : List Hole)
    → 0 < n
    → b.size ≡ n
    → IsTiled a (b ∷ live)
    → IsUniform n a
    → IsUniform n (free a b.off b.size)
unfolding free
free-IsUniform n a b live p e v u =
    let kept =
      coalesce-Multiples n a.high (insert_hole b a.holes) (omega arith)
        (insert_hole-Apart_lent a b live (omega arith) v)
        (insert_hole-Multiples n b a.holes (1, omega arith) u.hole_multiples) in
    elim (Bool-cases ((b.off == npos) || (b.size == 0))) [
      | inl skipped ↦ rw skipped u
      | inr done ↦ rw done (record { high_multiple = u.high_multiple; hole_multiples = kept })
    ]
