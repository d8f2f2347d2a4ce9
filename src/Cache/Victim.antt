-- ===== src/Cache/Victim.antt =====
-- The choice that `evict_until_free` of dee.cpp/src/vram_cache.cpp makes in each round.
use dee.Prelude.{
  ◌≤◌, ◌≡◌, refl, ◌⊎◌, inl, inr, true, Option, none, some, [], ◌∷◌, arith, ◌≢◌, sym, ◌∙◌, ltb,
  if◌then◌else◌,
}
use mathlib.Core.Path.{subst}
use dee.Map.{Map, find, Distinct, AllEntries}
use dee.Keys.{ExpertKey, key_eq, key_beq_iff}
use dee.Cache.{ExpertBlock, eviction_score, lowest}

-- Every entry stands under its own key.
abbrev pub Keyed : Map ExpertKey ExpertBlock → Type 0
Keyed = AllEntries (λ k b. b.key ≡ k)

-- `v` is a resident entry with the least score.
pub record IsVictim (v : ExpertBlock) (bs : Map ExpertKey ExpertBlock) : Type 0 where
  pub found : find v.key bs ≡ some v
  pub held : v.resident ≡ true
  pub least : AllEntries (λ _ b. b.resident ≡ true → eviction_score v ≤ eviction_score b) bs

abbrev AtMost : ExpertBlock → Option ExpertBlock → Type 0
AtMost v none = Unit {0}
AtMost v (some w) = eviction_score v ≤ eviction_score w

-- What the loop returns comes from the list or is the victim so far, and is no worse than either.
abbrev Best : ExpertBlock → Map ExpertKey ExpertBlock → Option ExpertBlock → Type 0
Best v bs victim =
    ((victim ≡ some v) ⊎ ((find v.key bs ≡ some v) × (v.resident ≡ true)))
    × AllEntries (λ _ b. b.resident ≡ true → eviction_score v ≤ eviction_score b) bs
    × AtMost v victim

pick : ExpertBlock → Option ExpertBlock → Option ExpertBlock
pick b victim =
    if b.resident
    then elim victim [
      | none ↦ some b
      | some v ↦ if ltb (eviction_score b) (eviction_score v) then some b else some v
    ]
    else victim

lowest-cons :
    (k : ExpertKey) (b : ExpertBlock) (bs : Map ExpertKey ExpertBlock) (victim : Option ExpertBlock)
    → lowest ((k, b) ∷ bs) victim ≡ lowest bs (pick b victim)
unfolding lowest pick
lowest-cons k b bs victim = refl

pick_cases :
    (b v : ExpertBlock) (victim : Option ExpertBlock)
    → ((pick b victim ≡ victim) ⊎ ((pick b victim ≡ some b) × (b.resident ≡ true)))
      × (AtMost v (pick b victim)
          → (b.resident ≡ true → eviction_score v ≤ eviction_score b) × AtMost v victim)
unfolding pick
pick_cases b v none = ground arith
pick_cases b v (some w) = ground arith

AtMost-self : (v : ExpertBlock) (victim : Option ExpertBlock) → victim ≡ some v → AtMost v victim
AtMost-self v victim e = subst (AtMost v) (sym e) (omega arith)

find_head :
    (j : ExpertKey) (b v : ExpertBlock) (bs : Map ExpertKey ExpertBlock)
    → b.key ≡ j
    → some b ≡ some v
    → find v.key ((j, b) ∷ bs) ≡ some v
unfolding find
find_head j b v bs k e = ground (arith, key_beq_iff j v.key)

find_tail :
    (j : ExpertKey) (b v : ExpertBlock) (bs : Map ExpertKey ExpertBlock)
    → find j bs ≡ none
    → find v.key bs ≡ some v
    → find v.key ((j, b) ∷ bs) ≡ some v
unfolding find
find_tail j b v bs n e = ground (arith, key_beq_iff j v.key)

lowest-Best :
    (bs : Map ExpertKey ExpertBlock) (victim : Option ExpertBlock) (v : ExpertBlock)
    → Distinct bs
    → Keyed bs
    → lowest bs victim ≡ some v
    → Best v bs victim
unfolding lowest
lowest-Best [] victim v d k e = (inl e, tt, AtMost-self v victim e)
lowest-Best ((j, b) ∷ bs) victim v d k e =
    let ih : Best v bs (pick b victim) =
      lowest-Best bs (pick b victim) v d.1 k.1 (sym (lowest-cons j b bs victim) ∙ e) in
    let (from, bound) = pick_cases b v victim in
    (
      elim ih.0 [
        | inl chosen ↦ elim from [
          | inl kept ↦ inl (sym kept ∙ chosen)
          | inr (taken, held) ↦
              let same : some b ≡ some v = sym taken ∙ chosen in
              inr (find_head j b v bs k.0 same, ground (arith, same))
        ]
        | inr (f, r) ↦ inr (find_tail j b v bs d.0 f, r)
      ],
      ((bound ih.2).0, ih.1),
      (bound ih.2).1,
    )

-- The victim is a resident block of least score, and there is one unless the map is empty.
pub lowest-IsVictim :
    (bs : Map ExpertKey ExpertBlock) (v : ExpertBlock)
    → Distinct bs
    → Keyed bs
    → lowest bs none ≡ some v
    → IsVictim v bs
lowest-IsVictim bs v d k e =
    let best = lowest-Best bs none v d k e in
    record {
      found = elim best.0 [ inl absent ↦ absurd (cc absent) | inr (f, r) ↦ f ];
      held = elim best.0 [ inl absent ↦ absurd (cc absent) | inr (f, r) ↦ r ];
      least = best.1;
    }

lowest-some : (bs : Map ExpertKey ExpertBlock) (w : ExpertBlock) → lowest bs (some w) ≢ none
unfolding lowest
lowest-some [] w = λ e. cc e
lowest-some ((j, b) ∷ bs) w = λ e. ground (arith, e, lowest-some bs b, lowest-some bs w)

pub lowest-none :
    (bs : Map ExpertKey ExpertBlock)
    → AllEntries (λ _ b. b.resident ≡ true) bs
    → lowest bs none ≡ none
    → bs ≡ []
unfolding lowest
lowest-none [] r e = refl
lowest-none ((j, b) ∷ bs) r e = absurd (ground (arith, e, r.0, lowest-some bs b))
