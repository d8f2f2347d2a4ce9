-- ===== src/Cache/Evict.antt =====
-- `evict_until_free` of dee.cpp/src/vram_cache.cpp: it ends, what it leaves, and whom it evicts.
use mathlib.Core.Path.{subst}
use dee.Prelude.{
  ap, ℕ, zero, suc, ◌+◌, ◌≤◌, ◌<◌, ◌≡◌, refl, sym, ◌∙◌, ◌⊎◌, inl, inr, true, not, ◌&&◌, none, some,
  [], ◌∷◌, arith, ltb, Bool-cases, Option-cases, length, if◌then◌else◌,
}
use dee.Map.{Map, find}
use dee.Map.Laws.{find-erase, length-erase, AllEntries-find}
use dee.Keys.{ExpertKey, key_eq, key_beq_iff}
use dee.Arena.{free_space}
use dee.Arena.Invariant.{free_keeps}
use dee.Cache.{
  ExpertBlock, VramCacheManager, eviction_score, lowest, evict, is_empty, evict_rounds,
  evict_until_free,
}
use dee.Cache.Victim.{IsVictim, lowest-IsVictim, lowest-none}
use dee.Cache.Invariant.{Inv, Inv-Keyed, Inv-held, evict-Inv}

-- To prove a relation between the caches before and after the loop: it holds where no round is
-- made, and one more round in front of the others keeps it.
module _ {ℓ} (need : ℕ) (R : VramCacheManager → VramCacheManager → Type ℓ)
    (stay : (m : VramCacheManager) → Inv m → R m m)
    (go : (m : VramCacheManager) (v : ExpertBlock) (r : VramCacheManager)
      → Inv m
      → IsVictim v m.blocks
      → free_space m.arena < need
      → R (evict m v) r
      → R m r) where
  pub evict_rounds_rule : (f : ℕ) (m : VramCacheManager) → Inv m → R m (evict_rounds f m need)
  unfolding evict_rounds
  evict_rounds_rule zero m inv = stay m inv
  evict_rounds_rule (suc f) m inv =
      elim (Bool-cases (ltb (free_space m.arena) need && not (is_empty m.blocks))) [
        | inr enough ↦ rw (enough, evict_rounds) (stay m inv)
        | inl short ↦ elim (Option-cases (lowest m.blocks none)) [
          | inl nobody ↦ rw (short, nobody, evict_rounds) (stay m inv)
          | inr (v, chosen) ↦
              let victim : IsVictim v m.blocks =
                lowest-IsVictim m.blocks v inv.distinct (Inv-Keyed m inv) chosen in
              rw (short, chosen, evict_rounds)
                (go m v (evict_rounds f (evict m v) need) inv victim (ground arith)
                  (evict_rounds_rule f (evict m v) (evict-Inv m v inv victim.found)))
        ]
      ]

pub evict_until_free-Inv : (m : VramCacheManager) (need : ℕ) → Inv m → Inv (evict_until_free m need)
unfolding evict_until_free
evict_until_free-Inv m need =
    evict_rounds_rule need (λ _ r. Inv r) (λ m v. v) (λ m v r _ _ _ h. h) (length m.blocks) m

nil_of_length : (bs : Map ExpertKey ExpertBlock) → length bs ≤ 0 → bs ≡ []
nil_of_length [] h = refl
nil_of_length (_ ∷ bs) h = absurd (omega arith)

nil_of_is_empty : (bs : Map ExpertKey ExpertBlock) → is_empty bs ≡ true → bs ≡ []
unfolding is_empty
nil_of_is_empty [] h = refl
nil_of_is_empty (_ ∷ bs) h = absurd (cc h)

length-evict :
    (m : VramCacheManager) (v : ExpertBlock)
    → Inv m
    → find v.key m.blocks ≡ some v
    → length m.blocks ≡ suc (length (evict m v).blocks)
unfolding evict
length-evict m v inv e = length-erase v.key v m.blocks inv.distinct e

-- The loop stops with room enough, or with nothing left.
abbrev pub Ends : ℕ → VramCacheManager → Type 0
Ends need r = (need ≤ free_space r.arena) ⊎ (r.blocks ≡ [])

evict_rounds-Ends :
    (need f : ℕ) (m : VramCacheManager)
    → Inv m
    → length m.blocks ≤ f
    → Ends need (evict_rounds f m need)
unfolding evict_rounds
evict_rounds-Ends need zero m inv h = inr (nil_of_length m.blocks h)
evict_rounds-Ends need (suc f) m inv h =
    elim (Bool-cases (ltb (free_space m.arena) need && not (is_empty m.blocks))) [
      | inr enough ↦ rw (enough, evict_rounds) (ground (arith, enough, nil_of_is_empty m.blocks))
      | inl short ↦ elim (Option-cases (lowest m.blocks none)) [
        | inl nobody ↦
            rw (short, nobody, evict_rounds) (inr (lowest-none m.blocks (Inv-held m inv) nobody))
        | inr (v, chosen) ↦
            let victim : IsVictim v m.blocks =
              lowest-IsVictim m.blocks v inv.distinct (Inv-Keyed m inv) chosen in
            rw (short, chosen, evict_rounds)
              (evict_rounds-Ends need f (evict m v) (evict-Inv m v inv victim.found)
                (omega (arith, length-evict m v inv victim.found)))
      ]
    ]

-- The loop of `evict_until_free` ends by its own test: there is room, or no block is left.
pub evict_until_free-Ends :
    (m : VramCacheManager) (need : ℕ) → Inv m → Ends need (evict_until_free m need)
unfolding evict_until_free
evict_until_free-Ends m need inv = evict_rounds-Ends need (length m.blocks) m inv (omega arith)

-- What the rounds have done from `m` to `r`. No block was changed; none that was evicted scores
-- more than one that stayed; and each eviction was counted.
pub record Evicted (m r : VramCacheManager) : Type 0 where
  pub kept : (k : ExpertKey) (c : ExpertBlock) → find k r.blocks ≡ some c → find k m.blocks ≡ some c
  pub ordered :
      (i j : ExpertKey) (b c : ExpertBlock)
      → find i m.blocks ≡ some b
      → find i r.blocks ≡ none
      → find j r.blocks ≡ some c
      → eviction_score b ≤ eviction_score c
  pub counted : r.stats.evictions + length r.blocks ≡ m.stats.evictions + length m.blocks
  pub tick_same : r.tick ≡ m.tick
  pub base_same : r.arena.base ≡ m.arena.base
  pub cap_same : r.arena.cap ≡ m.arena.cap

Evicted-refl : (m : VramCacheManager) → Evicted m m
Evicted-refl m = record {
  kept = λ k c h. h;
  ordered = λ i j b c h n _. absurd (cc);
  counted = refl;
  tick_same = refl;
  base_same = refl;
  cap_same = refl;
}

find-evict :
    (m : VramCacheManager) (v : ExpertBlock) (k : ExpertKey)
    → find k (evict m v).blocks ≡ (if key_eq.beq v.key k then none else find k m.blocks)
unfolding evict
find-evict m v k = find-erase v.key k m.blocks

Evicted-step :
    (m : VramCacheManager) (v : ExpertBlock) (r : VramCacheManager)
    → Inv m
    → IsVictim v m.blocks
    → Evicted (evict m v) r
    → Evicted m r
unfolding evict
Evicted-step m v r inv victim ev = record {
  kept = kept;
  ordered = λ i j b c p q s. elim (Bool-cases (key_eq.beq v.key i)) [
    | inl mine ↦
        let same : i ≡ v.key = sym ((key_beq_iff v.key i).0 mine) in
        let both : some b ≡ some v = sym p ∙ ap (λ k. find k m.blocks) same ∙ victim.found in
        let bv : b ≡ v = cc both in
        subst (λ w. eviction_score w ≤ eviction_score c) (sym bv)
          (AllEntries-find (λ _ w. w.resident ≡ true → eviction_score v ≤ eviction_score w) j c
            m.blocks victim.least (kept j c s)
            (AllEntries-find (λ _ w. w.resident ≡ true) j c m.blocks (Inv-held m inv) (kept j c s)))
    | inr other ↦ ev.ordered i j b c (ground (arith, find-evict m v i, p, other)) q s
  ];
  counted = omega (arith, ev.counted, length-evict m v inv victim.found);
  tick_same = ev.tick_same;
  base_same = ev.base_same ∙ (free_keeps m.arena v.offset v.size).0;
  cap_same = ev.cap_same ∙ (free_keeps m.arena v.offset v.size).1;
}
  where
    kept : (k : ExpertKey) (c : ExpertBlock) → find k r.blocks ≡ some c → find k m.blocks ≡ some c
    kept k c h = ground (arith, find-evict m v k, ev.kept k c h)

pub evict_until_free-Evicted :
    (m : VramCacheManager) (need : ℕ) → Inv m → Evicted m (evict_until_free m need)
unfolding evict_until_free
evict_until_free-Evicted m need =
    evict_rounds_rule need Evicted (λ m _. Evicted-refl m)
      (λ m v r inv victim _ ev. Evicted-step m v r inv victim ev) (length m.blocks) m

-- An expert that `evict_until_free` evicts never has a higher score than one that it keeps.
pub evict_until_free_order :
    (m : VramCacheManager) (need : ℕ) (i j : ExpertKey) (b c : ExpertBlock)
    → Inv m
    → find i m.blocks ≡ some b
    → find i (evict_until_free m need).blocks ≡ none
    → find j (evict_until_free m need).blocks ≡ some c
    → eviction_score b ≤ eviction_score c
evict_until_free_order m need i j b c v = (evict_until_free-Evicted m need v).ordered i j b c

-- Nothing is evicted where there is room.
pub evict_until_free_idle :
    (m : VramCacheManager) (need : ℕ) → need ≤ free_space m.arena → evict_until_free m need ≡ m
unfolding evict_until_free evict_rounds
evict_until_free_idle m need h = go (length m.blocks)
  where
    go : (f : ℕ) → evict_rounds f m need ≡ m
    go zero = refl
    go (suc f) = ground arith
