-- ===== src/Arena/Cover.antt =====
-- How often an address lies in a list of intervals: the measure that says what the list of holes
-- of dee.cpp/src/vram_cache.cpp stands for.
use dee.Prelude.{
  ℕ, ◌+◌, ◌≤◌, ◌<◌, ◌≡◌, ◌&&◌, inl, inr, none, some, List, [], ◌∷◌, arith, ltb, leb, if◌then◌else◌,
  add_size, ◌↔◌, All, refl, Option-cases, Bool-cases, suc, size_limit,
}
use dee.Arena.{Hole, first_fit, insert_hole, merge_from}

-- 1 at the addresses of the interval, 0 elsewhere.
unfoldable pub inside : ℕ → ℕ → ℕ → ℕ
inside off size x = if leb off x && ltb x (off + size) then 1 else 0

unfoldable pub cover : ℕ → List Hole → ℕ
cover x [] = 0
cover x (h ∷ hs) = inside h.off h.size x + cover x hs

unfoldable pub total : List Hole → ℕ
total [] = 0
total (h ∷ hs) = h.size + total hs

-- Non-empty intervals from `lo` up, in order, below `hi`.
abbrev pub Apart : ℕ → ℕ → List Hole → Type 0
Apart lo hi [] = Unit {0}
Apart lo hi (h ∷ hs) =
    (lo ≤ h.off) × (0 < h.size) × (h.off + h.size ≤ hi) × Apart (h.off + h.size) hi hs

-- The same with a gap between any two.
abbrev pub Gapped : ℕ → ℕ → List Hole → Type 0
Gapped lo hi [] = Unit {0}
Gapped lo hi (h ∷ hs) =
    (lo ≤ h.off) × (0 < h.size) × (h.off + h.size ≤ hi) × Gapped (suc (h.off + h.size)) hi hs

pub Gapped-lower :
    (lo lo' hi hi' : ℕ) (hs : List Hole) → lo' ≤ lo → hi ≤ hi' → Gapped lo hi hs → Gapped lo' hi' hs
Gapped-lower lo lo' hi hi' [] p q g = tt
Gapped-lower lo lo' hi hi' (h ∷ hs) p q g =
    let next = suc (h.off + h.size) in
    (omega arith, g.1, omega arith, Gapped-lower next next hi hi' hs (omega arith) q g.3)

pub Gapped-Apart : (lo hi : ℕ) (hs : List Hole) → Gapped lo hi hs → Apart lo hi hs
Gapped-Apart lo hi [] g = tt
Gapped-Apart lo hi (h ∷ hs) g =
    let next = h.off + h.size in
    (
      g.0,
      g.1,
      g.2,
      Gapped-Apart next hi hs
          (Gapped-lower (suc next) next hi hi hs (omega arith) (omega arith) g.3),
    )

-- A hit of `first_fit` moves exactly the bytes asked for out of the holes.
module _ (bytes : ℕ) (asked : 0 < bytes) where
  pub first_fit-cover :
      (lo hi : ℕ) (hs : List Hole) {off : ℕ} {rest : List Hole} (x : ℕ)
      → hi < size_limit
      → Gapped lo hi hs
      → first_fit bytes hs ≡ some (off, rest)
      → cover x hs ≡ inside off bytes x + cover x rest
  unfolding first_fit cover inside
  first_fit-cover lo hi [] x m g e = ground arith
  first_fit-cover lo hi (h ∷ hs) x m g e = elim (Option-cases (first_fit bytes hs)) [
    | inl missed ↦ ground arith
    | inr ((o, r), found) ↦
        ground
          (arith, first_fit-cover (suc (h.off + h.size)) hi hs {off = o} {rest = r} x m g.3 found)
  ]

  pub first_fit-total :
      (hs : List Hole) {off : ℕ} {rest : List Hole}
      → first_fit bytes hs ≡ some (off, rest)
      → total hs ≡ bytes + total rest
  unfolding first_fit total
  first_fit-total [] e = ground arith
  first_fit-total (h ∷ hs) e = elim (Option-cases (first_fit bytes hs)) [
    | inl missed ↦ ground arith
    | inr ((o, r), found) ↦ ground (arith, first_fit-total hs {off = o} {rest = r} found)
  ]

  -- The interval found lies where the holes lay, and the holes stay in order.
  pub first_fit-Gapped :
      (lo hi : ℕ) (hs : List Hole) {off : ℕ} {rest : List Hole}
      → hi < size_limit
      → Gapped lo hi hs
      → first_fit bytes hs ≡ some (off, rest)
      → (lo ≤ off) × (off + bytes ≤ hi) × Gapped lo hi rest
  unfolding first_fit
  first_fit-Gapped lo hi [] m g e = ground arith
  first_fit-Gapped lo hi (h ∷ hs) {off} {rest} m g e = elim (Option-cases (first_fit bytes hs)) [
    | inl missed ↦ ground (arith, lower)
    | inr ((o, r), found) ↦ ground (
      arith,
      lower,
      first_fit-Gapped (suc (h.off + h.size)) hi hs {off = o} {rest = r} m g.3 found,
    )
  ]
    where
      lower : Gapped lo hi hs
      lower = Gapped-lower (suc (h.off + h.size)) lo hi hi hs (omega arith) (omega arith) g.3

-- The search fails exactly when no hole is large enough.
pub first_fit-none :
    (bytes : ℕ) (hs : List Hole) → first_fit bytes hs ≡ none ↔ All (λ h. h.size < bytes) hs
unfolding first_fit
first_fit-none bytes [] = (λ _. tt, λ _. refl)
first_fit-none bytes (h ∷ hs) = elim (Option-cases (first_fit bytes hs)) [
  | inl missed ↦ ground (arith, first_fit-none bytes hs)
  | inr ((o, r), found) ↦ ground (arith, first_fit-none bytes hs, found)
]

pub insert_hole-cover :
    (h : Hole) (hs : List Hole) (x : ℕ)
    → cover x (insert_hole h hs) ≡ inside h.off h.size x + cover x hs
unfolding insert_hole cover
insert_hole-cover h [] x = refl
insert_hole-cover h (g ∷ gs) x = ground (arith, insert_hole-cover h gs x)

pub insert_hole-total : (h : Hole) (hs : List Hole) → total (insert_hole h hs) ≡ h.size + total hs
unfolding insert_hole total
insert_hole-total h [] = refl
insert_hole-total h (g ∷ gs) = ground (arith, insert_hole-total h gs)

-- An interval that shares no address with the holes keeps them in order when it joins them.
pub insert_hole-Apart :
    (lo hi : ℕ) (h : Hole) (hs : List Hole)
    → lo ≤ h.off
    → 0 < h.size
    → h.off + h.size ≤ hi
    → ((x : ℕ) → inside h.off h.size x + cover x hs ≤ 1)
    → Apart lo hi hs
    → Apart lo hi (insert_hole h hs)
unfolding insert_hole inside cover
insert_hole-Apart lo hi h [] p q r once a = (p, q, r, tt)
insert_hole-Apart lo hi h (g ∷ gs) p q r once a = elim (Bool-cases (ltb g.off h.off)) [
  | inl below ↦ rw below (
    a.0,
    a.1,
    a.2,
    insert_hole-Apart (g.off + g.size) hi h gs (ground (arith, once h.off)) q r
        (λ x. ground (arith, once x)) a.3,
  )
  | inr above ↦ rw above (p, q, r, (ground (arith, once g.off), a.1, a.2, a.3))
]

-- Merging neighbours changes no address, and leaves a gap between any two holes.
module _ (hi : ℕ) (m : hi < size_limit) where
  pub merge_from-cover :
      (last : Hole) (hs : List Hole) (x : ℕ)
      → last.off + last.size ≤ hi
      → Apart (last.off + last.size) hi hs
      → cover x (merge_from last hs) ≡ inside last.off last.size x + cover x hs
  unfolding merge_from cover inside
  merge_from-cover last [] x e a = refl
  merge_from-cover last (h ∷ hs) x e a = ground (
    arith,
    merge_from-cover h hs x a.2,
    merge_from-cover (record { off = last.off; size = add_size last.size h.size }) hs x,
  )

  pub merge_from-total :
      (last : Hole) (hs : List Hole)
      → last.off + last.size ≤ hi
      → Apart (last.off + last.size) hi hs
      → total (merge_from last hs) ≡ last.size + total hs
  unfolding merge_from total
  merge_from-total last [] e a = refl
  merge_from-total last (h ∷ hs) e a = ground (
    arith,
    merge_from-total h hs a.2,
    merge_from-total (record { off = last.off; size = add_size last.size h.size }) hs,
  )

  pub merge_from-Gapped :
      (lo : ℕ) (last : Hole) (hs : List Hole)
      → lo ≤ last.off
      → 0 < last.size
      → last.off + last.size ≤ hi
      → Apart (last.off + last.size) hi hs
      → Gapped lo hi (merge_from last hs)
  unfolding merge_from
  merge_from-Gapped lo last [] p q e a = (p, q, e, tt)
  merge_from-Gapped lo last (h ∷ hs) p q e a = ground (
    arith,
    merge_from-Gapped (suc (last.off + last.size)) h hs,
    merge_from-Gapped lo (record { off = last.off; size = add_size last.size h.size }) hs,
  )
