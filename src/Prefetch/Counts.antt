-- ===== src/Prefetch/Counts.antt =====
-- The cache's count of fallbacks, which the prefetcher of dee.cpp/src/async_prefetcher.cpp and the
-- uses of dee.cpp/src/vram_cache.cpp leave alone.
use dee.Prelude.{
  ℕ, zero, suc, ◌==◌, ◌≡◌, refl, ◌∙◌, not, ◌&&◌, none, inl, inr, ltb, length, Option-cases,
  Bool-cases,
}
use dee.Device.{num_eq}
use dee.Keys.{key_eq}
use dee.Arena.{alloc, free_space}
use dee.Cache.{
  VramCacheManager, find_block, lowest, evict, is_empty, evict_rounds, evict_until_free, called,
  load, hit, ensure, touch, data_of,
}
use dee.Prefetch.{AsyncPrefetcher, prefetch}

-- The cache's count of fallbacks.
abbrev pub fallbacks_of : VramCacheManager → ℕ
fallbacks_of m = m.stats.fallbacks

evict_rounds_fallbacks :
    (f : ℕ) (m : VramCacheManager) (need : ℕ)
    → fallbacks_of (evict_rounds f m need) ≡ fallbacks_of m
unfolding evict_rounds evict
evict_rounds_fallbacks zero m need = refl
evict_rounds_fallbacks (suc f) m need =
    elim (Bool-cases (ltb (free_space m.arena) need && not (is_empty m.blocks))) [
      | inl more ↦ elim (Option-cases (lowest m.blocks none)) [
        | inl e ↦ rw (more, e, evict_rounds) refl
        | inr (v, e) ↦ rw (more, e, evict_rounds) (evict_rounds_fallbacks f (evict m v) need)
      ]
      | inr enough ↦ rw (enough, evict_rounds) refl
    ]

load_fallbacks :
    (m : VramCacheManager) (layer expert nbytes priority : ℕ)
    → fallbacks_of (load m (record { layer = layer; expert = expert }) nbytes priority).1
      ≡ fallbacks_of m
unfolding load
load_fallbacks m layer expert nbytes priority = elim (Option-cases (alloc m.arena nbytes).0) [
  | inl e ↦ rw (e, load) refl
  | inr (off, e) ↦ rw (e, load) refl
]

ensure_fallbacks :
    (m : VramCacheManager) (layer expert nbytes priority : ℕ)
    → fallbacks_of (ensure m layer expert nbytes priority).1 ≡ fallbacks_of m
unfolding ensure hit evict_until_free
ensure_fallbacks m layer expert nbytes priority =
    let evicted : VramCacheManager = evict_until_free (called m) nbytes in
    let loads : fallbacks_of
          (load evicted (record { layer = layer; expert = expert }) nbytes priority).1
        ≡ fallbacks_of m =
      load_fallbacks evicted layer expert nbytes priority
      ∙ evict_rounds_fallbacks (length m.blocks) (called m) nbytes in
    elim (Option-cases (find_block (called m) layer expert)) [
      | inl e ↦ rw (e, ensure) loads
      | inr (b, e) ↦ elim (Bool-cases b.resident) [
        | inl here ↦ rw (e, here, ensure) refl
        | inr gone ↦ rw (e, gone, ensure) loads
      ]
    ]

pub touch_fallbacks :
    (m : VramCacheManager) (layer expert : ℕ) → fallbacks_of (touch m layer expert) ≡ fallbacks_of m
unfolding touch
touch_fallbacks m layer expert = elim (Option-cases (find_block m layer expert)) [
  | inl e ↦ rw (e, touch) refl
  | inr (b, e) ↦ elim (Bool-cases b.resident) [
    | inl here ↦ rw (e, here, touch) refl
    | inr gone ↦ rw (e, gone, touch) refl
  ]
]

pub prefetch_fallbacks :
    (m : VramCacheManager) (p : AsyncPrefetcher) (layer expert src nbytes priority : ℕ)
    → fallbacks_of (prefetch m p layer expert src nbytes priority).1 ≡ fallbacks_of m
unfolding prefetch
prefetch_fallbacks m p layer expert src nbytes priority =
    let kept = ensure_fallbacks m layer expert nbytes priority in
    elim (Bool-cases (ensure m layer expert nbytes priority).0) [
      | inl got ↦
          elim (Bool-cases (data_of (ensure m layer expert nbytes priority).1 layer expert == 0)) [
            | inl null ↦ rw (got, null, prefetch) kept
            | inr place ↦ rw (got, place, prefetch) kept
          ]
      | inr failed ↦ rw (failed, prefetch) kept
    ]
