-- ===== src/Prefetch/Content.antt =====
-- A prefetch and a wait of dee.cpp/src/async_prefetcher.cpp, over the cache of
-- dee.cpp/src/vram_cache.cpp: the expert's bytes arrive where `data` says that they lie.
use dee.Prelude.{
  ℕ, ◌+◌, ◌≤◌, ◌<◌, ◌≡◌, refl, sym, ◌∙◌, ◌⊎◌, inl, inr, true, false, some, arith, length, get_elem?,
  get_elem?-last, All-snoc,
}
use dee.Map.Laws.{find-assign, beq_refl, AllEntries-find}
use dee.Keys.{key_eq}
use dee.Cache.{VramCacheManager, ensure, data_of}
use dee.Cache.Invariant.{Inv}
use dee.Cache.Ensure.{key_of, ensure-Inv}
use dee.Cache.Answer.{ensure_answer, ensure_region, data_of-Holds}
use dee.Cache.Uniform.{IsRegular, ensure-IsRegular}
use dee.Cache.Layout.{block_bounds}
use dee.Prefetch.{
  Memory, Transfer, AsyncPrefetcher, new_transfer, long_eq, packed, find_inflight, submit, prefetch,
  is_pending, wait,
}
use dee.Prefetch.Drain.{Within, drain_last, drain-done_at}

-- A cache of equal blocks that holds at least one of them, and a queue that writes into its arena.
pub record IsReady (n : ℕ) (m : VramCacheManager) (p : AsyncPrefetcher) : Type 0 where
  pub cache_sound : Inv m
  pub regular : IsRegular n m
  pub some_bytes : 0 < n
  pub fits : n ≤ m.arena.cap
  pub mapped : 0 < m.arena.base
  pub host : p.use_cuda ≡ false
  pub inside_arena : Within m.arena.base (m.arena.base + m.arena.cap) p.inflight

module _ (n : ℕ) (m : VramCacheManager) (p : AsyncPrefetcher) (layer expert src priority : ℕ) where
  abbrev pub loaded : VramCacheManager
  loaded = (ensure m layer expert n priority).1

  abbrev pub queued : AsyncPrefetcher
  queued = submit p layer expert (data_of loaded layer expert) src n

  abbrev pub sent : Transfer
  sent = new_transfer layer expert (data_of loaded layer expert) src n

  -- Where the block that `ensure` answers for lies.
  pub placed :
      IsReady n m p
      → (m.arena.base ≤ data_of loaded layer expert)
        × (data_of loaded layer expert + n ≤ m.arena.base + m.arena.cap)
  placed r = elim (ensure_answer m layer expert n priority r.cache_sound) [
    | inl (_, _, b, held, fresh) ↦
        let sound : Inv loaded =
          ensure-Inv m layer expert n priority
            (omega (arith, r.fits, r.cache_sound.lent.addressable)) r.cache_sound in
        let (at_base, top) = block_bounds loaded (key_of layer expert) b sound held in
        let size : b.size ≡ n =
          AllEntries-find (λ _ c. c.size ≡ n) (key_of layer expert) b loaded.blocks
            (ensure-IsRegular n m layer expert priority r.some_bytes r.fits r.cache_sound
              r.regular).1.sized
            held in
        let region = ensure_region m layer expert n priority r.cache_sound in
        let lies : data_of loaded layer expert ≡ b.ptr =
          data_of-Holds loaded layer expert b sound held in
        (omega (arith, region), omega (arith, region))
    | inr (failed, _, _, _) ↦ absurd (
        cc (
          sym failed
          ∙ (ensure-IsRegular n m layer expert priority r.some_bytes r.fits r.cache_sound
              r.regular).0))
  ]

  -- `prefetch` always takes the transfer on, and everything is as ready for the next one.
  pub prefetch_total :
      IsReady n m p
      → (prefetch m p layer expert src n priority ≡ (some p.next_id, loaded, queued))
        × IsReady n loaded queued
  unfolding prefetch submit
  prefetch_total r =
      let answered =
        ensure-IsRegular n m layer expert priority r.some_bytes r.fits r.cache_sound r.regular in
      let region = ensure_region m layer expert n priority r.cache_sound in
      let where_to = placed r in
      (
        rw (answered.0, prefetch) (ground (arith, where_to, r.mapped)),
        record {
          cache_sound =
              ensure-Inv m layer expert n priority
                (omega (arith, r.fits, r.cache_sound.lent.addressable)) r.cache_sound;
          regular = answered.1;
          some_bytes = r.some_bytes;
          fits = omega (arith, region, r.fits);
          mapped = omega (arith, region, r.mapped);
          host = r.host;
          inside_arena =
              rw (region.0, region.1)
                (All-snoc
                  (λ t. (m.arena.base ≤ t.dst) × (t.dst + t.nbytes ≤ m.arena.base + m.arena.cap))
                  p.inflight sent r.inside_arena where_to);
        },
      )

  pub own_index : find_inflight queued layer expert ≡ some (length p.inflight)
  unfolding find_inflight submit
  own_index =
      find-assign (packed layer expert) (packed layer expert) (length p.inflight) p.key_to_idx
      ∙ (rw (beq_refl (packed layer expert)))

  wait-queued :
      (mem : Memory) (i : ℕ)
      → IsReady n m p
      → 0 < src
      → (src + n ≤ m.arena.base) ⊎ (m.arena.base + m.arena.cap ≤ src)
      → i < n
      → ((wait queued mem layer expert).0 ≡ true)
        × ((wait queued mem layer expert).2 (data_of loaded layer expert + i) ≡ mem (src + i))
  unfolding wait submit is_pending
  wait-queued mem i r pos apart h =
      let to = placed r in
      let here : get_elem? queued.inflight (length p.inflight) ≡ some sent =
        get_elem?-last p.inflight sent in
      let pending : is_pending sent ≡ true = ground (arith, to, r.mapped) in
      let within : Within m.arena.base (m.arena.base + m.arena.cap) queued.inflight =
        All-snoc (λ t. (m.arena.base ≤ t.dst) × (t.dst + t.nbytes ≤ m.arena.base + m.arena.cap))
          p.inflight sent r.inside_arena to in
      rw (own_index, wait, r.host)
        (
          drain-done_at (length p.inflight) (length p.inflight) queued.inflight mem sent here
              (omega arith) (inr pending),
          drain_last m.arena.base (m.arena.base + m.arena.cap) (length p.inflight) queued.inflight
              mem sent i within here pending h apart,
        )

  -- A prefetch into a ready cache always succeeds, and everything is as ready for the next one.
  -- After a `wait` for it the expert's block, where `data` says that it lies, holds the bytes that
  -- the source held before: whatever transfers ran on the way wrote into the arena only.
  pub prefetch-wait :
      (mem : Memory) (i : ℕ)
      → IsReady n m p
      → 0 < src
      → (src + n ≤ m.arena.base) ⊎ (m.arena.base + m.arena.cap ≤ src)
      → i < n
      → let r = prefetch m p layer expert src n priority in
        (r.0 ≡ some p.next_id)
        × IsReady n r.1 r.2
        × ((wait r.2 mem layer expert).0 ≡ true)
        × ((wait r.2 mem layer expert).2 (data_of r.1 layer expert + i) ≡ mem (src + i))
  prefetch-wait mem i r pos apart h =
      let (made, ready) = prefetch_total r in
      rw made
        (refl, ready, (wait-queued mem i r pos apart h).0, (wait-queued mem i r pos apart h).1)
