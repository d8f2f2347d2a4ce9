-- ===== src/Cache/Uniform.antt =====
-- The expert cache of dee.cpp/src/vram_cache.cpp where all blocks have one size, as those that
-- dee.cpp/src/engine.cpp loads.
use dee.Prelude.{ℕ, ◌≤◌, ◌<◌, ◌≡◌, refl, inl, inr, true, some, arith, length, size_limit}
use mathlib.Core.Path.{subst}
use dee.Map.{AllEntries, erase, find}
use dee.Map.Laws.{AllEntries-find, AllEntries-assign, AllEntries-erase}
use dee.Keys.{ExpertKey, key_eq}
use dee.Arena.{free, free_space}
use dee.Arena.Invariant.{IsTiled}
use dee.Arena.Drained.{free_space_drained}
use dee.Arena.Uniform.{IsUniform, alloc-IsUniform_total, alloc-IsUniform, free-IsUniform}
use dee.Cache.{ExpertBlock, VramCacheManager, evict, evict_until_free, called, load, hit, ensure}
use dee.Cache.Invariant.{Inv, span, spans, Inv-split}
use dee.Cache.Evict.{
  evict_rounds_rule, evict_until_free-Inv, evict_until_free-Ends, evict_until_free-Evicted,
}
use dee.Cache.Ensure.{key_of, ensure_cases, recounted}

-- Every block has `n` bytes, and the arena was cut into such blocks only.
pub record IsRegular (n : ℕ) (m : VramCacheManager) : Type 0 where
  pub cut : IsUniform n m.arena
  pub sized : AllEntries (λ _ b. b.size ≡ n) m.blocks

evict-IsRegular :
    (n : ℕ) (m : VramCacheManager) (v : ExpertBlock)
    → 0 < n
    → Inv m
    → find v.key m.blocks ≡ some v
    → IsRegular n m
    → IsRegular n (evict m v)
unfolding evict
evict-IsRegular n m v p inv e u = record {
  cut =
      free-IsUniform n m.arena (span v) (spans (erase v.key m.blocks)) p
        (AllEntries-find (λ _ b. b.size ≡ n) v.key v m.blocks u.sized e)
        (Inv-split m.arena v.key v m.blocks inv.distinct e inv.lent) u.cut;
  sized = AllEntries-erase (λ _ b. b.size ≡ n) v.key m.blocks u.sized;
}

evict_until_free-IsRegular :
    (n : ℕ) (m : VramCacheManager) (need : ℕ)
    → 0 < n
    → Inv m
    → IsRegular n m
    → IsRegular n (evict_until_free m need)
unfolding evict_until_free
evict_until_free-IsRegular n m need p inv =
    evict_rounds_rule need (λ a b. IsRegular n a → IsRegular n b) (λ _ _ u. u)
      (λ a v r w victim _ rest u. rest (evict-IsRegular n a v p w victim.found u)) (length m.blocks)
      m inv

-- After the eviction there is room for one more block.
room :
    (n : ℕ) (m : VramCacheManager)
    → Inv m
    → n ≤ m.arena.cap
    → n ≤ free_space (evict_until_free m n).arena
unfolding spans
room n m inv fits = elim (evict_until_free-Ends m n inv) [
  | inl enough ↦ enough
  | inr nothing ↦
      let after = evict_until_free-Inv m n inv in
      let whole : free_space (evict_until_free m n).arena ≡ (evict_until_free m n).arena.cap =
        free_space_drained (evict_until_free m n).arena
          (subst (λ bs. IsTiled (evict_until_free m n).arena (spans bs)) nothing after.lent) in
      omega (arith, whole, (evict_until_free-Evicted m n inv).cap_same)
]

load-IsRegular :
    (n : ℕ) (m : VramCacheManager) (k : ExpertKey) (priority : ℕ)
    → 0 < n
    → n < size_limit
    → Inv m
    → IsRegular n m
    → n ≤ free_space m.arena
    → ((load m k n priority).0 ≡ true) × IsRegular n (load m k n priority).1
unfolding load
load-IsRegular n m k priority p lim inv u free =
    let (off, got) = alloc-IsUniform_total n m.arena (spans m.blocks) p lim inv.lent u.cut free in
    rw (got, load)
      (
        refl,
        record {
          cut = alloc-IsUniform n m.arena (spans m.blocks) lim inv.lent u.cut;
          sized = AllEntries-assign (λ _ b. b.size ≡ n) k _ m.blocks u.sized refl;
        },
      )

-- Where all experts have one size and the budget holds one of them, `ensure` never fails, and the
-- cache stays of that kind.
pub ensure-IsRegular :
    (n : ℕ) (m : VramCacheManager) (layer expert priority : ℕ)
    → 0 < n
    → n ≤ m.arena.cap
    → Inv m
    → IsRegular n m
    → ((ensure m layer expert n priority).0 ≡ true)
      × IsRegular n (ensure m layer expert n priority).1
unfolding hit
ensure-IsRegular n m layer expert priority p fits inv u =
    elim (ensure_cases m layer expert n priority inv) [
      | inl (e, eq) ↦
          let w : Inv (called m) = recounted m (called m).stats inv in
          let evicted = evict_until_free (called m) n in
          let again : IsRegular n (called m) = record { cut = u.cut; sized = u.sized } in
          rw eq (
            load-IsRegular n evicted (key_of layer expert) priority p
              (omega (arith, inv.lent.addressable)) (evict_until_free-Inv (called m) n w)
              (evict_until_free-IsRegular n (called m) n p w again) (room n (called m) w fits))
      | inr (b, e, eq) ↦ rw eq (
        refl,
        record {
          cut = u.cut;
          sized =
              AllEntries-assign (λ _ b. b.size ≡ n) (key_of layer expert) _ m.blocks u.sized
                (AllEntries-find (λ _ b. b.size ≡ n) (key_of layer expert) b m.blocks u.sized e);
        },
      )
    ]
