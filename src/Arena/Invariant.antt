-- ===== src/Arena/Invariant.antt =====
-- The invariant of the arena of dee.cpp/src/vram_cache.cpp against the blocks that are lent out,
-- and what `alloc` and `free` do to both.
use dee.Prelude.{
  ℕ, ◌+◌, ◌-◌, ◌≤◌, ◌<◌, ◌≡◌, refl, ◌⊎◌, inl, inr, none, some, List, [], ◌∷◌, arith, Option-cases,
  size_limit, true, ◌↔◌, All,
}
use dee.Arena.{Hole, Arena, Backend, init, alloc, free, first_fit, insert_hole, coalesce}
use dee.Arena.Cover.{
  inside, cover, total, Apart, Gapped, Gapped-lower, Gapped-Apart, first_fit-cover, first_fit-total,
  first_fit-Gapped, first_fit-none, insert_hole-cover, insert_hole-total, insert_hole-Apart,
  merge_from-cover, merge_from-total, merge_from-Gapped,
}

-- `live` are the blocks lent out. Every address below the high-water mark lies in exactly one hole
-- or block, and none above does; the holes are in order, with lent bytes between any two.
pub record IsTiled (a : Arena) (live : List Hole) : Type 0 where
  pub gapped : Gapped 0 a.high a.holes
  pub covers : (x : ℕ) → cover x a.holes + cover x live ≡ inside 0 a.high x
  pub used_total : a.used ≡ total live
  pub high_total : total a.holes + total live ≡ a.high
  pub fits : a.high ≤ a.cap
  pub addressable : a.cap < size_limit

pub inside-le : (off n x : ℕ) → inside off n x ≤ 1
unfolding inside
inside-le off n x = ground arith

module _ (hi : ℕ) (m : hi < size_limit) where
  coalesce-cover : (hs : List Hole) (x : ℕ) → Apart 0 hi hs → cover x (coalesce hs) ≡ cover x hs
  unfolding coalesce cover
  coalesce-cover [] x a = refl
  coalesce-cover (h ∷ hs) x a = merge_from-cover hi m h hs x a.2 a.3

  coalesce-total : (hs : List Hole) → Apart 0 hi hs → total (coalesce hs) ≡ total hs
  unfolding coalesce total
  coalesce-total [] a = refl
  coalesce-total (h ∷ hs) a = merge_from-total hi m h hs a.2 a.3

  coalesce-Gapped : (hs : List Hole) → Apart 0 hi hs → Gapped 0 hi (coalesce hs)
  unfolding coalesce
  coalesce-Gapped [] a = tt
  coalesce-Gapped (h ∷ hs) a = merge_from-Gapped hi m 0 h hs a.0 a.1 a.2 a.3

-- A successful `init` gives an arena with nothing lent out.
pub init-IsTiled :
    (a : Arena) (capacity : ℕ) (be : Backend)
    → capacity < size_limit
    → (init a capacity be).0 ≡ true
    → IsTiled (init a capacity be).1 []
unfolding init inside cover total
init-IsTiled a capacity be m e = record {
  gapped = ground arith;
  covers = λ x. ground arith;
  used_total = ground arith;
  high_total = ground arith;
  fits = ground arith;
  addressable = ground arith;
}

-- `alloc` lends a block that was free: the invariant holds with the block among the lent ones,
-- for which it has to lie below the capacity and share no address with another block.
pub alloc-IsTiled :
    (a : Arena) (live : List Hole) (bytes : ℕ) {off : ℕ}
    → bytes < size_limit
    → IsTiled a live
    → (alloc a bytes).0 ≡ some off
    → IsTiled (alloc a bytes).1 (record { off = off; size = bytes } ∷ live)
unfolding alloc inside cover total
alloc-IsTiled a live bytes {off} m v e = elim (Option-cases (first_fit bytes a.holes)) [
  | inl missed ↦ record {
    gapped = ground (arith, Gapped-lower 0 0 a.high (a.high + bytes) a.holes);
    covers = λ x. ground (arith, v.covers x);
    used_total = ground arith;
    high_total = ground arith;
    fits = ground arith;
    addressable = ground arith;
  }
  | inr ((o, r), found) ↦
      let asked : 0 < bytes = ground arith in
      record {
        gapped = ground (arith, first_fit-Gapped bytes asked 0 a.high a.holes {off = o} {rest = r});
        covers = λ x. ground (
          arith,
          v.covers x,
          first_fit-cover bytes asked 0 a.high a.holes {off = o} {rest = r} x,
        );
        used_total = ground (arith, first_fit-total bytes asked a.holes {off = o} {rest = r});
        high_total = ground (arith, first_fit-total bytes asked a.holes {off = o} {rest = r});
        fits = ground arith;
        addressable = ground arith;
      }
]

-- What is lent lies below the high-water mark.
pub lent_bounds :
    (a : Arena) (b : Hole) (live : List Hole)
    → 0 < b.size
    → IsTiled a (b ∷ live)
    → b.off + b.size ≤ a.high
unfolding inside cover
lent_bounds a b live p v = ground (arith, v.covers (b.off + b.size - 1))

-- The invariant sees only the addresses and the total of what is lent, not the order.
pub IsTiled-same :
    (a : Arena) (live live' : List Hole)
    → ((x : ℕ) → cover x live' ≡ cover x live)
    → total live' ≡ total live
    → IsTiled a live
    → IsTiled a live'
IsTiled-same a live live' c t v = record {
  gapped = v.gapped;
  covers = λ x. omega (arith, c x, v.covers x);
  used_total = omega arith;
  high_total = omega arith;
  fits = v.fits;
  addressable = v.addressable;
}

-- A lent block lies between the holes.
pub insert_hole-Apart_lent :
    (a : Arena) (b : Hole) (live : List Hole)
    → 0 < b.size
    → IsTiled a (b ∷ live)
    → Apart 0 a.high (insert_hole b a.holes)
unfolding cover
insert_hole-Apart_lent a b live p v =
    insert_hole-Apart 0 a.high b a.holes (omega arith) p (lent_bounds a b live p v)
      (λ x. omega (arith, v.covers x, inside-le 0 a.high x))
      (Gapped-Apart 0 a.high a.holes v.gapped)

-- `free` takes a lent block back, whatever holes lie next to it.
pub free-IsTiled :
    (a : Arena) (b : Hole) (live : List Hole)
    → 0 < b.size
    → IsTiled a (b ∷ live)
    → IsTiled (free a b.off b.size) live
unfolding free inside cover total
free-IsTiled a b live p v =
    let top : b.off + b.size ≤ a.high = lent_bounds a b live p v in
    let m : a.high < size_limit = omega arith in
    let apart : Apart 0 a.high (insert_hole b a.holes) = insert_hole-Apart_lent a b live p v in
    record {
      gapped = ground (arith, coalesce-Gapped a.high m (insert_hole b a.holes) apart);
      covers = λ x. ground (
        arith,
        v.covers x,
        coalesce-cover a.high m (insert_hole b a.holes) x apart,
        insert_hole-cover b a.holes x,
      );
      used_total = ground arith;
      high_total = ground (
        arith,
        coalesce-total a.high m (insert_hole b a.holes) apart,
        insert_hole-total b a.holes,
      );
      fits = ground arith;
      addressable = ground arith;
    }

-- `alloc` fails exactly on zero bytes, and where no hole is large enough and the rest above the
-- high-water mark is too small. It gives an offset, or leaves the arena as it was.
pub alloc-none :
    (a : Arena) (live : List Hole) (bytes : ℕ)
    → bytes < size_limit
    → IsTiled a live
    → ((alloc a bytes).0 ≡ none
        ↔ ((bytes ≡ 0) ⊎ (All (λ h. h.size < bytes) a.holes × (a.cap < a.high + bytes))))
      × ((alloc a bytes ≡ (none, a)) ⊎ ((off : ℕ) × ((alloc a bytes).0 ≡ some off)))
unfolding alloc
alloc-none a live bytes m v = elim (Option-cases (first_fit bytes a.holes)) [
  | inl missed ↦ ground (arith, missed, first_fit-none bytes a.holes)
  | inr ((o, r), found) ↦ ground (arith, found, first_fit-none bytes a.holes)
]

-- The region stays where it is.
pub free_keeps :
    (a : Arena) (off bytes : ℕ)
    → ((free a off bytes).base ≡ a.base) × ((free a off bytes).cap ≡ a.cap)
unfolding free
free_keeps a off bytes = ground arith

pub alloc_keeps :
    (a : Arena) (bytes : ℕ) → ((alloc a bytes).1.base ≡ a.base) × ((alloc a bytes).1.cap ≡ a.cap)
unfolding alloc
alloc_keeps a bytes = ground arith

pub alloc-some_pos : (a : Arena) (bytes : ℕ) {off : ℕ} → (alloc a bytes).0 ≡ some off → 0 < bytes
unfolding alloc
alloc-some_pos a bytes e = ground arith
