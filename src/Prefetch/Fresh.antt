-- ===== src/Prefetch/Fresh.antt =====
-- A cache of dee.cpp/src/vram_cache.cpp that `init` has set up and a new prefetcher of
-- dee.cpp/src/async_prefetcher.cpp.
use dee.Prelude.{
  ℕ, ◌≤◌, ◌<◌, ◌≡◌, refl, sym, ap, ◌∙◌, inl, inr, true, false, none, some, [], arith, Option-cases,
  ltb, size_limit,
}
use dee.Arena.{Backend}
use mathlib.Core.Path.{subst}
use dee.Map.{find, AllEntries}
use dee.Keys.{key_eq}
use dee.Arena
use dee.Arena.Uniform.{IsUniform}
use dee.Cache.{VramCacheManager}
use dee.Cache
use dee.Cache.Run.{new_manager, run, run-init-Inv}
use dee.Prefetch.{AsyncPrefetcher, new_prefetcher, find_inflight}
use dee.Prefetch.Content.{IsReady}

no_region :
    (budget : ℕ) (be : Backend)
    → be.alloc_region ≡ none
    → (Cache.init new_manager budget be).0 ≡ false
unfolding Cache.init Arena.init
no_region budget be e = rw (e, Arena.init) refl

some_region :
    (budget : ℕ) (be : Backend) (get : ℕ → ℕ)
    → be.alloc_region ≡ some get
    → ((Cache.init new_manager budget be).0 ≡ ltb 0 (get budget))
      × ((Cache.init new_manager budget be).1.arena
          ≡ record { base = get budget; cap = budget; used = 0; high = 0; holes = [] })
unfolding Cache.init Arena.init
some_region budget be get e = (rw (e, Arena.init) refl, rw (e, Arena.init) refl)

no_blocks : (budget : ℕ) (be : Backend) → (Cache.init new_manager budget be).1.blocks ≡ []
unfolding Cache.init
no_blocks budget be = refl

-- A cache that is set up anew with room for a block, and a new prefetcher.
fresh-IsReady :
    (n budget : ℕ) (be : Backend)
    → 0 < n
    → n ≤ budget
    → budget < size_limit
    → (Cache.init new_manager budget be).0 ≡ true
    → IsReady n (Cache.init new_manager budget be).1 (record new_prefetcher { use_cuda = false })
fresh-IsReady n budget be p fits lim got = elim (Option-cases be.alloc_region) [
  | inl e ↦ absurd (cc (sym (no_region budget be e) ∙ got))
  | inr (get, e) ↦
      let (answer, arena) = some_region budget be get e in
      let there : 0 < get budget = ground (arith, sym answer ∙ got) in
      record {
        cache_sound = unfold run in run-init-Inv budget be [] lim got tt;
        regular = record {
          cut =
              subst (IsUniform n) (sym arena)
                (record { high_multiple = (0, omega arith); hole_multiples = tt });
          sized = subst (AllEntries (λ _ b. b.size ≡ n)) (sym (no_blocks budget be)) tt;
        };
        some_bytes = p;
        fits = subst (λ a. n ≤ a.cap) (sym arena) fits;
        mapped = subst (λ a. 0 < a.base) (sym arena) there;
        host = refl;
        inside_arena = tt;
      }
]

pub fresh_cache-IsReady :
    (m : VramCacheManager) (q : AsyncPrefetcher) (n budget : ℕ) (be : Backend)
    → m ≡ new_manager
    → q ≡ new_prefetcher
    → 0 < n
    → n ≤ budget
    → budget < size_limit
    → (Cache.init m budget be).0 ≡ true
    → IsReady n (Cache.init m budget be).1 (record q { use_cuda = false })
fresh_cache-IsReady m q n budget be em eq p fits lim got =
    subst (λ x. IsReady n (Cache.init m budget be).1 (record x { use_cuda = false })) (sym eq)
      (subst
        (λ x. IsReady n (Cache.init x budget be).1 (record new_prefetcher { use_cuda = false }))
        (sym em)
        (fresh-IsReady n budget be p fits lim
          (ap (λ x. (Cache.init x budget be).0) (sym em) ∙ got)))

pub no_index :
    (q : AsyncPrefetcher) (layer expert idx : ℕ)
    → q ≡ new_prefetcher
    → find_inflight (record q { use_cuda = false }) layer expert ≡ some idx
    → ⊥
unfolding find_inflight find
no_index q layer expert idx e h =
    cc (sym (ap (λ x. find_inflight (record x { use_cuda = false }) layer expert) e) ∙ h)
