-- ===== src/Cache/Ensure.antt =====
-- `ensure`, `touch`, `sync_fallback` and `clear` of dee.cpp/src/vram_cache.cpp keep the cache's
-- invariant, and what they answer.
use mathlib.Core.Path.{subst}
use dee.Prelude.{
  ◌∙◌, ℕ, ◌+◌, ◌<◌, ◌≡◌, refl, sym, ap, ◌⊎◌, inl, inr, true, none, some, [], ◌∷◌, arith,
  Option-cases, size_limit,
}
use dee.Map.{Map, find, assign, AllEntries}
use dee.Map.Laws.{AllEntries-assign, assign-Distinct}
use dee.Keys.{ExpertKey, key_eq}
use dee.Arena.{alloc}
use dee.Arena.Invariant.{IsTiled, alloc-IsTiled, alloc_keeps, alloc-none, alloc-some_pos}
use dee.Cache.{
  ExpertBlock, Stats, VramCacheManager, new_block, called, find_block, evict_until_free, load, hit,
  ensure,
}
use dee.Cache.Invariant.{IsEntry, spans, Inv, Inv-join, IsEntry-find, AllEntries-map}
use dee.Cache.Evict.{evict_until_free-Inv, evict_until_free-Evicted}

-- A block that is written back with its place unchanged leaves the arena's view as it was.
spans-assign :
    (k : ExpertKey) (b b' : ExpertBlock) (bs : Map ExpertKey ExpertBlock)
    → find k bs ≡ some b
    → b'.offset ≡ b.offset
    → b'.size ≡ b.size
    → spans (assign k b' bs) ≡ spans bs
unfolding spans find assign
spans-assign k b b' [] e p q = cc e
spans-assign k b b' ((j, c) ∷ bs) e p q = ground (arith, spans-assign k b b' bs)

later :
    (base tick : ℕ) (k : ExpertKey) (b : ExpertBlock)
    → IsEntry base tick k b
    → IsEntry base (tick + 1) k b
later base tick k b h = record {
  own_key = h.own_key;
  held = h.held;
  some_bytes = h.some_bytes;
  placed = h.placed;
  past = omega arith;
}

-- Every use of a resident block is a write of this form.
pub used-Inv :
    (m : VramCacheManager) (k : ExpertKey) (b : ExpertBlock) (priority : ℕ)
    → Inv m
    → find k m.blocks ≡ some b
    → Inv (record m {
      blocks = assign k (record b { last_used = m.tick + 1; priority = priority }) m.blocks;
      tick = m.tick + 1;
    })
used-Inv m k b priority v e = record {
  distinct = assign-Distinct k _ m.blocks v.distinct;
  entries =
      AllEntries-assign (IsEntry m.arena.base (m.tick + 1)) k _ m.blocks
        (AllEntries-map (later m.arena.base m.tick) m.blocks v.entries)
        (let h = IsEntry-find m k b v e in
          record {
            own_key = h.own_key;
            held = h.held;
            some_bytes = h.some_bytes;
            placed = h.placed;
            past = omega arith;
          });
  lent =
      subst (IsTiled m.arena)
        (sym (
          spans-assign k b (record b { last_used = m.tick + 1; priority = priority }) m.blocks e
            refl refl))
        v.lent;
}

-- The counters are no part of the invariant.
pub load-Inv :
    (m : VramCacheManager) (key : ExpertKey) (nbytes priority : ℕ)
    → nbytes < size_limit
    → Inv m
    → find key m.blocks ≡ none
    → Inv (load m key nbytes priority).1
unfolding load
load-Inv m key nbytes priority lim v e = elim (Option-cases (alloc m.arena nbytes).0) [
  | inl failed ↦
      let same : (alloc m.arena nbytes).1 ≡ m.arena =
        elim (alloc-none m.arena (spans m.blocks) nbytes lim v.lent).1 [
          | inl whole ↦ ap (λ r. r.1) whole
          | inr (off, got) ↦ absurd (cc (sym got ∙ failed))
        ] in
      rw (failed, load, same) (record { distinct = v.distinct; entries = v.entries; lent = v.lent })
  | inr (off, got) ↦
      let block = new_block m.arena.base key off nbytes (m.tick + 1) priority in
      rw (got, load)
        (record {
          distinct = assign-Distinct key block m.blocks v.distinct;
          entries =
              subst (λ b. AllEntries (IsEntry b (m.tick + 1)) (assign key block m.blocks))
                (sym (alloc_keeps m.arena nbytes).0)
                (AllEntries-assign (IsEntry m.arena.base (m.tick + 1)) key block m.blocks
                  (AllEntries-map (later m.arena.base m.tick) m.blocks v.entries)
                  (record {
                    own_key = refl;
                    held = refl;
                    some_bytes = alloc-some_pos m.arena nbytes got;
                    placed = refl;
                    past = omega arith;
                  }));
          lent =
              Inv-join (alloc m.arena nbytes).1 key block m.blocks e
                (alloc-IsTiled m.arena (spans m.blocks) nbytes lim v.lent got);
        })
]

-- What is missing before the eviction is missing after it.
pub missing :
    (m : VramCacheManager) (need : ℕ) (k : ExpertKey)
    → Inv m
    → find k m.blocks ≡ none
    → find k (evict_until_free m need).blocks ≡ none
missing m need k v e = elim (Option-cases (find k (evict_until_free m need).blocks)) [
  | inl gone ↦ gone
  | inr (c, held) ↦ absurd (cc ((evict_until_free-Evicted m need v).kept k c held))
]

-- A call counted, as `ensure` and `sync_fallback` do first.
pub recounted : (m : VramCacheManager) (s : Stats) → Inv m → Inv (record m { stats = s })
recounted m s v = record { distinct = v.distinct; entries = v.entries; lent = v.lent }

abbrev pub key_of : ℕ → ℕ → ExpertKey
key_of layer expert = record { layer = layer; expert = expert }

module _ (m : VramCacheManager) (layer expert nbytes priority : ℕ) where
  -- `ensure` comes down to one of its two parts: the branch for an entry that is not resident is
  -- never taken.
  pub ensure_cases :
      Inv m
      → ((find (key_of layer expert) m.blocks ≡ none)
          × (ensure m layer expert nbytes priority
              ≡ load (evict_until_free (called m) nbytes) (key_of layer expert) nbytes priority))
        ⊎ ((b : ExpertBlock) × (find (key_of layer expert) m.blocks ≡ some b)
            × (ensure m layer expert nbytes priority
                ≡ (true, hit (called m) (key_of layer expert) b priority)))
  unfolding ensure find_block
  ensure_cases v = elim (Option-cases (find (key_of layer expert) m.blocks)) [
    | inl e ↦ inl (e, rw (e, ensure, find_block))
    | inr (b, e) ↦
        inr (b, e, rw (e, ensure, find_block, (IsEntry-find m (key_of layer expert) b v e).held))
  ]

  -- `ensure` keeps the invariant, whatever it answers.
  pub ensure-Inv : nbytes < size_limit → Inv m → Inv (ensure m layer expert nbytes priority).1
  unfolding hit
  ensure-Inv lim v = elim (ensure_cases v) [
    | inl (e, eq) ↦ rw eq (
        load-Inv (evict_until_free (called m) nbytes) (key_of layer expert) nbytes priority lim
          (evict_until_free-Inv (called m) nbytes (recounted m (called m).stats v))
          (missing (called m) nbytes (key_of layer expert) (recounted m (called m).stats v) e))
    | inr (b, e, eq) ↦ rw eq (
        recounted _ (hit (called m) (key_of layer expert) b priority).stats
          (used-Inv m (key_of layer expert) b priority v e))
  ]
