-- ===== src/Cache/Invariant.antt =====
-- The invariant of the expert cache of dee.cpp/src/vram_cache.cpp: its entries are the blocks that
-- the arena has lent out.
use mathlib.Core.Path.{subst}
use dee.Prelude.{ℕ, ◌+◌, ◌≤◌, ◌<◌, ◌≡◌, refl, sym, true, none, some, List, [], ◌∷◌, arith}
use dee.Map.{Map, find, assign, erase, Distinct, AllEntries, sum_of}
use dee.Map.Laws.{erase-Distinct, sum_of-erase, sum_of-assign, AllEntries-find, AllEntries-erase}
use dee.Keys.{ExpertKey, key_eq}
use dee.Arena.{Arena, Hole}
use dee.Arena.Cover.{inside, cover, total}
use dee.Arena.Invariant.{IsTiled, IsTiled-same, free-IsTiled, free_keeps}
use dee.Cache.{ExpertBlock, VramCacheManager, evict}
use dee.Cache.Victim.{Keyed}

-- What is so of each entry of a cache whose arena begins at `base`.
pub record IsEntry (base tick : ℕ) (k : ExpertKey) (b : ExpertBlock) : Type 0 where
  pub own_key : b.key ≡ k
  pub held : b.resident ≡ true
  pub some_bytes : 0 < b.size
  pub placed : b.ptr ≡ base + b.offset
  pub past : b.last_used ≤ tick

abbrev pub span : ExpertBlock → Hole
span b = record { off = b.offset; size = b.size }

unfoldable pub spans : Map ExpertKey ExpertBlock → List Hole
spans [] = []
spans ((_, b) ∷ bs) = span b ∷ spans bs

pub record Inv (m : VramCacheManager) : Type 0 where
  pub distinct : Distinct m.blocks
  pub entries : AllEntries (IsEntry m.arena.base m.tick) m.blocks
  pub lent : IsTiled m.arena (spans m.blocks)

module _ {P Q : ExpertKey → ExpertBlock → Type 0}
    (f : (k : ExpertKey) (b : ExpertBlock) → P k b → Q k b) where
  pub AllEntries-map : (bs : Map ExpertKey ExpertBlock) → AllEntries P bs → AllEntries Q bs
  AllEntries-map [] a = tt
  AllEntries-map ((k, b) ∷ bs) a = (f k b a.0, AllEntries-map bs a.1)

pub Inv-Keyed : (m : VramCacheManager) → Inv m → Keyed m.blocks
Inv-Keyed m v = AllEntries-map (λ k b h. h.own_key) m.blocks v.entries

pub Inv-held : (m : VramCacheManager) → Inv m → AllEntries (λ _ b. b.resident ≡ true) m.blocks
Inv-held m v = AllEntries-map (λ k b h. h.held) m.blocks v.entries

cover-spans :
    (bs : Map ExpertKey ExpertBlock) (x : ℕ)
    → cover x (spans bs) ≡ sum_of (λ _ b. inside b.offset b.size x) bs
unfolding cover spans sum_of
cover-spans [] x = refl
cover-spans ((k, b) ∷ bs) x = omega (arith, cover-spans bs x)

total-spans : (bs : Map ExpertKey ExpertBlock) → total (spans bs) ≡ sum_of (λ _ b. b.size) bs
unfolding total spans sum_of
total-spans [] = refl
total-spans ((k, b) ∷ bs) = omega (arith, total-spans bs)

pub cover-spans_split :
    (k : ExpertKey) (b : ExpertBlock) (bs : Map ExpertKey ExpertBlock) (x : ℕ)
    → Distinct bs
    → find k bs ≡ some b
    → cover x (spans bs) ≡ inside b.offset b.size x + cover x (spans (erase k bs))
cover-spans_split k b bs x d e = omega (
  arith,
  cover-spans bs x,
  cover-spans (erase k bs) x,
  sum_of-erase (λ _ b. inside b.offset b.size x) k b bs d e,
)

-- Splitting off an entry leaves the arena's invariant as it is: order does not matter to it.
pub Inv-split :
    (a : Arena) (k : ExpertKey) (b : ExpertBlock) (bs : Map ExpertKey ExpertBlock)
    → Distinct bs
    → find k bs ≡ some b
    → IsTiled a (spans bs)
    → IsTiled a (span b ∷ spans (erase k bs))
unfolding cover total
Inv-split a k b bs d e =
    IsTiled-same a (spans bs) (span b ∷ spans (erase k bs))
      (λ x. sym (cover-spans_split k b bs x d e))
      (omega
        (arith, total-spans bs, total-spans (erase k bs), sum_of-erase (λ _ b. b.size) k b bs d e))

-- A block under a new key joins the others.
pub Inv-join :
    (a : Arena) (k : ExpertKey) (b : ExpertBlock) (bs : Map ExpertKey ExpertBlock)
    → find k bs ≡ none
    → IsTiled a (span b ∷ spans bs)
    → IsTiled a (spans (assign k b bs))
unfolding cover total
Inv-join a k b bs e =
    IsTiled-same a (span b ∷ spans bs) (spans (assign k b bs))
      (λ x. omega (
        arith,
        cover-spans bs x,
        cover-spans (assign k b bs) x,
        sum_of-assign (λ _ b. inside b.offset b.size x) k b bs e,
      ))
      (omega (
        arith,
        total-spans bs,
        total-spans (assign k b bs),
        sum_of-assign (λ _ b. b.size) k b bs e,
      ))

pub IsEntry-find :
    (m : VramCacheManager) (k : ExpertKey) (b : ExpertBlock)
    → Inv m
    → find k m.blocks ≡ some b
    → IsEntry m.arena.base m.tick k b
IsEntry-find m k b v e = AllEntries-find (IsEntry m.arena.base m.tick) k b m.blocks v.entries e

-- An evicted block goes back to the arena, and the others stay.
pub evict-Inv :
    (m : VramCacheManager) (v : ExpertBlock)
    → Inv m
    → find v.key m.blocks ≡ some v
    → Inv (evict m v)
unfolding evict
evict-Inv m v inv e = record {
  distinct = erase-Distinct v.key m.blocks inv.distinct;
  entries =
      subst (λ b. AllEntries (IsEntry b m.tick) (erase v.key m.blocks))
        (sym (free_keeps m.arena v.offset v.size).0)
        (AllEntries-erase (IsEntry m.arena.base m.tick) v.key m.blocks inv.entries);
  lent =
      free-IsTiled m.arena (span v) (spans (erase v.key m.blocks))
        (IsEntry-find m v.key v inv e).some_bytes
        (Inv-split m.arena v.key v m.blocks inv.distinct e inv.lent);
}
