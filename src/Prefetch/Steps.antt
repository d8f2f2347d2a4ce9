-- ===== src/Prefetch/Steps.antt =====
-- Waits and touches between the transfers of dee.cpp/src/async_prefetcher.cpp and the uses of
-- dee.cpp/src/vram_cache.cpp: the stream of bytes goes on.
use dee.Prelude.{
  ℕ, suc, ◌+◌, ◌^◌, ◌≤◌, ◌<◌, ◌≡◌, refl, sym, ap, ◌∙◌, ◌⊎◌, inl, inr, false, none, some, Bool-cases,
  Option-cases,
}
use mathlib.Core.Path.{subst}
use dee.Map.{find, assign}
use dee.Map.Laws.{find-assign, AllEntries-find, AllEntries-assign}
use dee.Keys.{ExpertKey, key_eq, key_beq_iff}
use dee.Cache.{VramCacheManager, ExpertBlock, find_block, touch}
use dee.Cache.Run.{touch-Inv}
use dee.Cache.Ensure.{key_of}
use dee.Cache.Answer.{Holds}
use dee.Prefetch.{Memory, AsyncPrefetcher, find_inflight, drain, wait}
use dee.Prefetch.Drain.{Within, drain-Within, drain_outside}
use dee.Prefetch.Content.{IsReady}
use dee.Prefetch.Final.{final, After, drain-settled, final-drain, After-drain}
use dee.Prefetch.Stream.{IsStreamed}

module _ (n : ℕ) (bytes : ℕ → ℕ → ℕ) (m : VramCacheManager) (p : AsyncPrefetcher) (mem : Memory)
    (st : IsStreamed n bytes m p mem) (layer expert : ℕ) where
  -- What a wait comes down to on the host.
  wait-none : find_inflight p layer expert ≡ none → (wait p mem layer expert).2 ≡ mem
  unfolding wait
  wait-none e = rw (e, wait) refl

  wait-some :
      (idx : ℕ)
      → find_inflight p layer expert ≡ some idx
      → (wait p mem layer expert).2 ≡ (drain (suc idx) p.inflight mem).1
  unfolding wait
  wait-some idx e = rw (e, st.ready.host, wait) refl

  kept :
      {q : AsyncPrefetcher}
      → IsReady n m p
      → q.inflight ≡ p.inflight
      → q.use_cuda ≡ false
      → IsReady n m q
  kept r same host = record {
    cache_sound = r.cache_sound;
    regular = r.regular;
    some_bytes = r.some_bytes;
    fits = r.fits;
    mapped = r.mapped;
    host = host;
    inside_arena =
        subst (Within m.arena.base (m.arena.base + m.arena.cap)) (sym same) r.inside_arena;
  }

  -- A wait keeps the stream.
  pub wait-IsStreamed : IsStreamed n bytes m (wait p mem layer expert).1 (wait p mem layer expert).2
  unfolding wait find_inflight
  wait-IsStreamed = elim (Option-cases (find_inflight p layer expert)) [
    | inl e ↦
        rw (e, wait) (record { ready = kept st.ready refl st.ready.host; arrives = st.arrives })
    | inr (idx, e) ↦
        rw (e, st.ready.host, wait)
          (record {
            ready = record {
              cache_sound = st.ready.cache_sound;
              regular = st.ready.regular;
              some_bytes = st.ready.some_bytes;
              fits = st.ready.fits;
              mapped = st.ready.mapped;
              host = refl;
              inside_arena =
                  drain-Within m.arena.base (m.arena.base + m.arena.cap) (suc idx) p.inflight mem
                    st.ready.inside_arena;
            };
            arrives = λ l e' j b s held found i h.
                let (after, right) = st.arrives l e' j b s held found i h in
                (
                  After-drain (suc idx) j (b.ptr + i) p.inflight mem after,
                  ap (λ f. f (b.ptr + i)) (final-drain (suc idx) p.inflight mem) ∙ right,
                );
          })
  ]

  -- It leaves the keys alone.
  pub wait_index : (l k : ℕ) → find_inflight (wait p mem layer expert).1 l k ≡ find_inflight p l k
  unfolding wait find_inflight
  wait_index l k = elim (Option-cases (find_inflight p layer expert)) [
    | inl e ↦ rw (e, wait) refl
    | inr (idx, e) ↦ rw (e, st.ready.host, wait) refl
  ]

  -- And writes nothing outside of the arena.
  pub wait_outside :
      (x : ℕ)
      → (x < m.arena.base) ⊎ (m.arena.base + m.arena.cap ≤ x)
      → (wait p mem layer expert).2 x ≡ mem x
  wait_outside x h = elim (Option-cases (find_inflight p layer expert)) [
    | inl e ↦ ap (λ f. f x) (wait-none e)
    | inr (idx, e) ↦
        ap (λ f. f x) (wait-some idx e)
        ∙ drain_outside m.arena.base (m.arena.base + m.arena.cap) (suc idx) p.inflight mem x
            st.ready.inside_arena h
  ]

  -- Behind a wait for an expert that was prefetched its block holds its bytes.
  pub wait_block :
      (idx : ℕ) (b : ExpertBlock)
      → expert < 2 ^ 32
      → Holds m (key_of layer expert) (some b)
      → find_inflight p layer expert ≡ some idx
      → (i : ℕ) → i < n
      → (wait p mem layer expert).2 (b.ptr + i) ≡ bytes expert i
  wait_block idx b s held e i h =
      let (after, right) = st.arrives layer expert idx b s held e i h in
      ap (λ f. f (b.ptr + i)) (wait-some idx e)
      ∙ drain-settled idx (b.ptr + i) p.inflight mem after
      ∙ right

  abbrev used : ExpertBlock → ExpertBlock
  used o = record o { last_used = m.tick + 1 }

  -- A touch gives the block of the expert, if it is resident, a new tick.
  touch_cases :
      (touch m layer expert ≡ m)
      ⊎ ((o : ExpertBlock) × (find (key_of layer expert) m.blocks ≡ some o)
          × (touch m layer expert ≡ record m {
            blocks = assign (key_of layer expert) (used o) m.blocks;
            tick = m.tick + 1;
          }))
  unfolding touch find_block
  touch_cases = elim (Option-cases (find (key_of layer expert) m.blocks)) [
    | inl e ↦ inl (rw (e, touch, find_block) refl)
    | inr (o, e) ↦ elim (Bool-cases o.resident) [
      | inl here ↦ inr (o, e, rw (e, here, touch, find_block) refl)
      | inr gone ↦ inl (rw (e, gone, touch, find_block) refl)
    ]
  ]

  -- Every block stays where it is.
  touched_find :
      (o : ExpertBlock) (k : ExpertKey) (b : ExpertBlock)
      → find (key_of layer expert) m.blocks ≡ some o
      → find k (assign (key_of layer expert) (used o) m.blocks) ≡ some b
      → (c : ExpertBlock) × (find k m.blocks ≡ some c) × (c.ptr ≡ b.ptr)
  touched_find o k b e h =
      let found = sym (find-assign (key_of layer expert) k (used o) m.blocks) ∙ h in
      elim (Bool-cases (key_eq.beq (key_of layer expert) k)) [
        | inl same ↦
            let q : key_of layer expert ≡ k = (key_beq_iff (key_of layer expert) k).0 same in
            let now : used o ≡ b = cc (rw same at found) in
            (o, ap (λ x. find x m.blocks) (sym q) ∙ e, ap (λ x. x.ptr) now)
        | inr other ↦ (b, rw other at found, refl)
      ]

  -- So does a touch.
  pub touch-IsStreamed : IsStreamed n bytes (touch m layer expert) p mem
  touch-IsStreamed = elim touch_cases [
    | inl same ↦ rw same st
    | inr (o, e, same) ↦
        let sound = rw same at (touch-Inv m layer expert st.ready.cache_sound) in
        rw same (record {
          ready = record {
            cache_sound = sound;
            regular = record {
              cut = st.ready.regular.cut;
              sized =
                  AllEntries-assign (λ _ c. c.size ≡ n) (key_of layer expert) (used o) m.blocks
                    st.ready.regular.sized
                    (AllEntries-find (λ _ c. c.size ≡ n) (key_of layer expert) o m.blocks
                      st.ready.regular.sized e);
            };
            some_bytes = st.ready.some_bytes;
            fits = st.ready.fits;
            mapped = st.ready.mapped;
            host = st.ready.host;
            inside_arena = st.ready.inside_arena;
          };
          arrives = λ l e' j b s held found i h.
              let (c, there, place) = touched_find o (key_of l e') b e held in
              let (after, right) = st.arrives l e' j c s there found i h in
              (
                subst (λ a. After j (a + i) p.inflight) place after,
                ap (λ a. final p.inflight mem (a + i)) (sym place) ∙ right,
              );
        })
  ]

  pub touch_arena : (touch m layer expert).arena ≡ m.arena
  touch_arena = elim touch_cases [
    | inl same ↦ ap (λ x. x.arena) same
    | inr (o, e, same) ↦ ap (λ x. x.arena) same
  ]
