-- ===== src/Prefetch/Stream.antt =====
-- Many transfers at a time of dee.cpp/src/async_prefetcher.cpp into a cache of equal blocks: where
-- the bytes of every resident expert end up.
use dee.Prelude.{
  ℕ, ◌+◌, ◌^◌, ◌≤◌, ◌<◌, ◌≡◌, ◌≢◌, refl, sym, ap, ◌∙◌, ◌⊎◌, inl, inr, true, false, some, arith,
  length, Bool-cases, Option-cases, ◌==◌,
}
use mathlib.Core.Path.{subst}
use dee.Map.{find}
use dee.Map.Laws.{find-assign, AllEntries-find}
use dee.Keys.{key_eq, key_beq_iff}
use dee.Cache.{VramCacheManager, ExpertBlock, data_of, find_block}
use dee.Cache.Ensure.{key_of}
use dee.Cache.Answer.{Holds, ensure_others, data_of-Holds}
use dee.Cache.Layout.{block_bounds, blocks_disjoint}
use dee.Prefetch.{
  Memory, AsyncPrefetcher, Transfer, copy, long_eq, packed, find_inflight, submit, is_pending,
}
use dee.Prefetch.Drain.{copy_inside, copy_outside}
use dee.Prefetch.Content.{IsReady, loaded, queued, sent, placed, prefetch_total, own_index}
use dee.Prefetch.Final.{final, final-outside, Misses, After, final-snoc, After-snoc, After-last}

-- The bytes of a resident expert with a transfer in the queue are, once the queue has run, those that
-- the expert should have, and no transfer behind its own writes them.
pub record IsStreamed (n : ℕ) (bytes : ℕ → ℕ → ℕ) (m : VramCacheManager) (p : AsyncPrefetcher)
    (mem : Memory) : Type 0 where
  pub ready : IsReady n m p
  pub arrives :
      (layer expert idx : ℕ) (b : ExpertBlock)
      → expert < 2 ^ 32
      → Holds m (key_of layer expert) (some b)
      → find_inflight p layer expert ≡ some idx
      → (i : ℕ) → i < n
      → After idx (b.ptr + i) p.inflight × (final p.inflight mem (b.ptr + i) ≡ bytes expert i)

-- A buffer outside the arena that holds the bytes of an expert.
pub record IsSource (n : ℕ) (bytes : ℕ → ℕ → ℕ) (m : VramCacheManager) (mem : Memory)
    (expert src : ℕ) : Type 0 where
  pub real : 0 < src
  pub outside : (src + n ≤ m.arena.base) ⊎ (m.arena.base + m.arena.cap ≤ src)
  pub holds : (i : ℕ) → i < n → mem (src + i) ≡ bytes expert i

-- An expert that has a transfer in the queue still has one when another joins.
pub index_kept :
    (p : AsyncPrefetcher) (layer e k dst src n idx : ℕ)
    → find_inflight p layer k ≡ some idx
    → (j : ℕ) × (find_inflight (submit p layer e dst src n) layer k ≡ some j)
unfolding find_inflight submit
index_kept p layer e k dst src n idx h =
    let entered = find-assign (packed layer e) (packed layer k) (length p.inflight) p.key_to_idx in
    elim (Bool-cases (packed layer e == packed layer k)) [
      | inl same ↦ (length p.inflight, rw same at entered)
      | inr other ↦ (idx, (rw other at entered) ∙ h)
    ]

module _ (n : ℕ) (bytes : ℕ → ℕ → ℕ) (m : VramCacheManager) (p : AsyncPrefetcher) (mem : Memory)
    (layer expert src priority : ℕ) (small : expert < 2 ^ 32) (st : IsStreamed n bytes m p mem)
    (source : IsSource n bytes m mem expert src) where
  abbrev m' : VramCacheManager
  m' = loaded n m p layer expert src priority

  abbrev p' : AsyncPrefetcher
  p' = queued n m p layer expert src priority

  abbrev t' : Transfer
  t' = sent n m p layer expert src priority

  next : IsReady n m' p'
  next = (prefetch_total n m p layer expert src priority st.ready).1

  pending : is_pending t' ≡ true
  unfolding is_pending
  pending =
      ground (arith, source.real, placed n m p layer expert src priority st.ready, st.ready.mapped)

  source_kept : (i : ℕ) → i < n → final p.inflight mem (src + i) ≡ bytes expert i
  source_kept i h =
      final-outside m.arena.base (m.arena.base + m.arena.cap) p.inflight mem (src + i)
        st.ready.inside_arena
        (elim source.outside [
          | inl low ↦ inl (omega (arith, h, low))
          | inr high ↦ inr (omega (arith, high))
        ])
      ∙ source.holds i h

  own_arrives :
      (b : ExpertBlock)
      → Holds m' (key_of layer expert) (some b)
      → (i : ℕ) → i < n
      → After (length p.inflight) (b.ptr + i) p'.inflight
        × (final p'.inflight mem (b.ptr + i) ≡ bytes expert i)
  unfolding submit
  own_arrives b held i h =
      let lies : data_of m' layer expert ≡ b.ptr =
        data_of-Holds m' layer expert b next.cache_sound held in
      (
        After-last (b.ptr + i) p.inflight t',
        ap (λ f. f (b.ptr + i)) (final-snoc p.inflight t' mem pending)
            ∙ ap (λ a. copy (final p.inflight mem) (data_of m' layer expert) src n (a + i))
                (sym lies)
            ∙ copy_inside (final p.inflight mem) (data_of m' layer expert) src n i h
            ∙ source_kept i h,
      )

  other_index :
      (l e : ℕ)
      → e < 2 ^ 32
      → (packed layer expert == packed l e) ≡ false
      → find_inflight p' l e ≡ find_inflight p l e
  unfolding find_inflight submit
  other_index l e s ne =
      find-assign (packed layer expert) (packed l e) (length p.inflight) p.key_to_idx ∙ (rw ne refl)

  -- The blocks of two experts lie apart, so that the new transfer does not write the other.
  other_missed :
      (l e : ℕ) (b : ExpertBlock)
      → key_of layer expert ≢ key_of l e
      → Holds m' (key_of l e) (some b)
      → (i : ℕ) → i < n
      → Misses (b.ptr + i) t'
  unfolding data_of find_block
  other_missed l e b ne held i h = elim (Option-cases (find (key_of layer expert) m'.blocks)) [
    | inl gone ↦
        let null : data_of m' layer expert ≡ 0 = rw (gone, data_of, find_block) refl in
        absurd
          (omega (arith, null, placed n m p layer expert src priority st.ready, st.ready.mapped))
    | inr (own, here) ↦
        let lies : data_of m' layer expert ≡ own.ptr =
          data_of-Holds m' layer expert own next.cache_sound here in
        let (at_own, in_own) = block_bounds m' (key_of layer expert) own next.cache_sound here in
        let (at_b, in_b) = block_bounds m' (key_of l e) b next.cache_sound held in
        let size_own : own.size ≡ n =
          AllEntries-find (λ _ c. c.size ≡ n) (key_of layer expert) own m'.blocks next.regular.sized
            here in
        let size_b : b.size ≡ n =
          AllEntries-find (λ _ c. c.size ≡ n) (key_of l e) b m'.blocks next.regular.sized held in
        elim (blocks_disjoint m' (key_of layer expert) (key_of l e) own b next.cache_sound ne here
          held) [
            | inl above ↦ inr (omega (arith, lies, at_own, at_b, size_own, size_b, above))
            | inr below ↦ inl (omega (arith, lies, at_own, at_b, size_own, size_b, below, h))
          ]
  ]

  other_arrives :
      (l e idx : ℕ) (b : ExpertBlock)
      → e < 2 ^ 32
      → key_of layer expert ≢ key_of l e
      → Holds m' (key_of l e) (some b)
      → find_inflight p' l e ≡ some idx
      → (i : ℕ) → i < n
      → After idx (b.ptr + i) p'.inflight × (final p'.inflight mem (b.ptr + i) ≡ bytes e i)
  unfolding submit
  other_arrives l e idx b s ne held found i h =
      let before : Holds m (key_of l e) (some b) =
        ensure_others m layer expert n priority (key_of l e) b st.ready.cache_sound
          (λ same. ne (sym same)) held in
      let apart : (packed layer expert == packed l e) ≡ false =
        elim (Bool-cases (packed layer expert == packed l e)) [
          | inl q ↦
              let full : packed layer expert ≡ packed l e = ground (arith, q) in
              let le : layer ≡ l = omega (arith, full, small, s) in
              let ee : expert ≡ e = omega (arith, full, small, s) in
              absurd (ne (ap (λ x. key_of x expert) le ∙ ap (key_of l) ee))
          | inr differs ↦ differs
        ] in
      let (settled, right) =
        st.arrives l e idx b s before (sym (other_index l e s apart) ∙ found) i h in
      let missed : Misses (b.ptr + i) t' = other_missed l e b ne held i h in
      (
        After-snoc idx (b.ptr + i) p.inflight t' settled missed,
        ap (λ f. f (b.ptr + i)) (final-snoc p.inflight t' mem pending)
            ∙ copy_outside (final p.inflight mem) (data_of m' layer expert) src n (b.ptr + i) missed
            ∙ right,
      )

  -- A prefetch keeps the stream.
  pub prefetch-IsStreamed : IsStreamed n bytes m' p' mem
  prefetch-IsStreamed = record {
    ready = next;
    arrives = λ l e idx b s held found i h.
        elim (Bool-cases (key_eq.beq (key_of layer expert) (key_of l e))) [
          | inl same ↦
              let k : key_of layer expert ≡ key_of l e =
                (key_beq_iff (key_of layer expert) (key_of l e)).0 same in
              let le : layer ≡ l = ap (λ x. x.layer) k in
              let ee : expert ≡ e = ap (λ x. x.expert) k in
              let index : find_inflight p' layer expert ≡ some idx =
                ap (λ x. find_inflight p' x expert) le ∙ ap (find_inflight p' l) ee ∙ found in
              let last : length p.inflight ≡ idx =
                cc (sym (own_index n m p layer expert src priority) ∙ index) in
              let (after, right) = own_arrives b (ap (λ x. find x m'.blocks) k ∙ held) i h in
              (
                subst (λ j. After j (b.ptr + i) p'.inflight) last after,
                right ∙ ap (λ x. bytes x i) ee,
              )
          | inr other ↦
              other_arrives l e idx b s
                (λ k.
                  absurd (cc (sym ((key_beq_iff (key_of layer expert) (key_of l e)).1 k) ∙ other)))
                held found i h
        ];
  }
