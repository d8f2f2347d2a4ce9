-- ===== src/Cache/Run.antt =====
-- Whole histories of calls on the expert cache of dee.cpp/src/vram_cache.cpp, from its `init` on.
use dee.Prelude.{
  ℕ, ◌+◌, ◌<◌, ◌≡◌, sym, inl, inr, true, List, [], ◌∷◌, Option-cases, Bool-cases, if◌then◌else◌,
  size_limit, All,
}
use mathlib.Core.Path.{subst}
use dee.Map.{Map, find, assign, AllEntries}
use dee.Keys.{ExpertKey, key_eq}
use dee.Arena.{Arena, Backend, free}
use dee.Arena.Invariant.{IsTiled, init-IsTiled, free-IsTiled}
use dee.Cache.{
  ExpertBlock, VramCacheManager, init, find_block, ensure, touch, is_resident, sync_fallback,
  free_all, clear,
}
use dee.Cache.Invariant.{IsEntry, Inv, span, spans, IsEntry-find}
use dee.Cache.Ensure.{key_of, used-Inv, ensure-Inv, recounted}

pub data Call : Type 0 where
  ensures : ℕ → ℕ → ℕ → ℕ → Call
  touches : ℕ → ℕ → Call
  falls_back : ℕ → ℕ → ℕ → ℕ → Call
  clears : Call

unfoldable pub step : VramCacheManager → Call → VramCacheManager
step m (ensures layer expert nbytes priority) = (ensure m layer expert nbytes priority).1
step m (touches layer expert) = touch m layer expert
step m (falls_back layer expert nbytes priority) = (sync_fallback m layer expert nbytes priority).1
step m clears = clear m

unfoldable pub run : VramCacheManager → List Call → VramCacheManager
run m [] = m
run m (c ∷ cs) = run (step m c) cs

-- No call asks for more bytes than an object can have.
abbrev pub IsSized : Call → Type 0
IsSized (ensures layer expert nbytes priority) = nbytes < size_limit
IsSized (touches layer expert) = Unit
IsSized (falls_back layer expert nbytes priority) = nbytes < size_limit
IsSized clears = Unit

abbrev used : VramCacheManager → ℕ → ℕ → ExpertBlock → VramCacheManager
used m layer expert b = record m {
  blocks = assign (key_of layer expert) (record b { last_used = m.tick + 1 }) m.blocks;
  tick = m.tick + 1;
}

pub touch-Inv : (m : VramCacheManager) (layer expert : ℕ) → Inv m → Inv (touch m layer expert)
unfolding touch find_block
touch-Inv m layer expert v = elim (Option-cases (find (key_of layer expert) m.blocks)) [
  | inl e ↦ rw (e, touch, find_block) v
  | inr (b, e) ↦
      rw (e, touch, find_block)
        (subst (λ held. Inv (if held then used m layer expert b else m))
          (sym (IsEntry-find m (key_of layer expert) b v e).held)
          (used-Inv m (key_of layer expert) b b.priority v e))
]

sync_fallback-Inv :
    (m : VramCacheManager) (layer expert nbytes priority : ℕ)
    → nbytes < size_limit
    → Inv m
    → Inv (sync_fallback m layer expert nbytes priority).1
unfolding sync_fallback
sync_fallback-Inv m layer expert nbytes priority lim v =
    elim (Bool-cases (is_resident m layer expert)) [
      | inl here ↦ rw here v
      | inr absent ↦ rw absent (ensure-Inv _ layer expert nbytes priority lim (recounted m _ v))
    ]

-- `clear` gives every block back.
free_all-IsTiled :
    (a : Arena) (bs : Map ExpertKey ExpertBlock) (base tick : ℕ)
    → AllEntries (IsEntry base tick) bs
    → IsTiled a (spans bs)
    → IsTiled (free_all a bs) []
unfolding free_all spans
free_all-IsTiled a [] base tick es t = t
free_all-IsTiled a ((k, b) ∷ bs) base tick es t = rw es.0.held (
    free_all-IsTiled (free a b.offset b.size) bs base tick es.1
      (free-IsTiled a (span b) (spans bs) es.0.some_bytes t))

clear-Inv : (m : VramCacheManager) → Inv m → Inv (clear m)
unfolding clear spans
clear-Inv m v = record {
  distinct = tt;
  entries = tt;
  lent = free_all-IsTiled m.arena m.blocks m.arena.base m.tick v.entries v.lent;
}

-- Every call keeps the invariant.
pub step-Inv : (m : VramCacheManager) (c : Call) → IsSized c → Inv m → Inv (step m c)
unfolding step
step-Inv m (ensures layer expert nbytes priority) s v =
    ensure-Inv m layer expert nbytes priority s v
step-Inv m (touches layer expert) s v = touch-Inv m layer expert v
step-Inv m (falls_back layer expert nbytes priority) s v =
    sync_fallback-Inv m layer expert nbytes priority s v
step-Inv m clears s v = clear-Inv m v

pub run-Inv : (m : VramCacheManager) (cs : List Call) → All IsSized cs → Inv m → Inv (run m cs)
unfolding run
run-Inv m [] s v = v
run-Inv m (c ∷ cs) s v = run-Inv (step m c) cs s.1 (step-Inv m c s.0 v)

abbrev pub new_manager : VramCacheManager
new_manager = record {
  arena = record { base = 0; cap = 0; used = 0; high = 0; holes = [] };
  blocks = [];
  tick = 0;
  stats = record { ensures = 0; hits = 0; loads = 0; evictions = 0; fallbacks = 0 };
}

-- So it holds after any history of calls on a manager that `init` has set up.
pub run-init-Inv :
    (budget_bytes : ℕ) (be : Backend) (cs : List Call)
    → budget_bytes < size_limit
    → (init new_manager budget_bytes be).0 ≡ true
    → All IsSized cs
    → Inv (run (init new_manager budget_bytes be).1 cs)
unfolding init spans
run-init-Inv budget_bytes be cs lim done s =
    run-Inv (init new_manager budget_bytes be).1 cs s (record {
      distinct = tt;
      entries = tt;
      lent = init-IsTiled new_manager.arena budget_bytes be lim done;
    })
