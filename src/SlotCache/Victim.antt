-- ===== src/SlotCache/Victim.antt =====
-- The choice that `evict_victim` of dee.cpp/src/vram_cache_manager.cpp makes.
use dee.Prelude.{
  ◌<◌, ◌≤◌, ◌≡◌, refl, ◌⊎◌, inl, inr, Option, none, some, [], ◌∷◌, arith, ◌≢◌, sym, ◌∙◌,
  if◌then◌else◌,
}
use mathlib.Core.Path.{subst}
use dee.Map.{Map, find, Distinct, AllEntries}
use dee.Keys.{ExpertKey, key_eq, key_beq_iff}
use dee.SlotCache.{Floats, CachedExpert, goes_first, victim_of}

module _ (F : Floats) where
  -- The lower priority first, and of equal ones the one used longer ago.
  abbrev pub NotAfter : CachedExpert F → CachedExpert F → Type 0
  NotAfter a b =
      (F.rank a.priority < F.rank b.priority)
      ⊎ ((F.rank a.priority ≡ F.rank b.priority) × (a.last_used ≤ b.last_used))

  -- Every entry stands under its own key.
  abbrev pub Keyed : Map ExpertKey (CachedExpert F) → Type 0
  Keyed = AllEntries (λ k c. c.key ≡ k)

  -- `v` is an entry that comes after no other.
  pub record IsVictim (v : CachedExpert F) (cs : Map ExpertKey (CachedExpert F)) : Type 0 where
    pub found : find v.key cs ≡ some v
    pub least : AllEntries (λ _ c. NotAfter v c) cs

  abbrev AtMost : CachedExpert F → Option (CachedExpert F) → Type 0
  AtMost v none = Unit {0}
  AtMost v (some w) = NotAfter v w

  -- What the loop returns comes from the map or is the victim so far, and comes after neither.
  abbrev Best : CachedExpert F → Map ExpertKey (CachedExpert F) → Option (CachedExpert F) → Type 0
  Best v cs victim =
      ((victim ≡ some v) ⊎ (find v.key cs ≡ some v))
      × AllEntries (λ _ c. NotAfter v c) cs
      × AtMost v victim

  pick : CachedExpert F → Option (CachedExpert F) → Option (CachedExpert F)
  pick ce victim = elim victim [
    | none ↦ some ce
    | some v ↦ if goes_first F ce v then some ce else some v
  ]

  victim_of-cons :
      (k : ExpertKey) (c : CachedExpert F) (cs : Map ExpertKey (CachedExpert F))
      (victim : Option (CachedExpert F))
      → victim_of F ((k, c) ∷ cs) victim ≡ victim_of F cs (pick c victim)
  unfolding victim_of pick
  victim_of-cons k c cs victim = refl

  pick_cases :
      (c v : CachedExpert F) (victim : Option (CachedExpert F))
      → ((pick c victim ≡ victim) ⊎ (pick c victim ≡ some c))
        × (AtMost v (pick c victim) → NotAfter v c × AtMost v victim)
  unfolding pick goes_first
  pick_cases c v none = ground arith
  pick_cases c v (some w) =
      ground (arith, F.less_rank c.priority w.priority, F.equal_rank c.priority w.priority)

  NotAfter-refl : (v : CachedExpert F) → NotAfter v v
  NotAfter-refl v = inr (refl, omega arith)

  AtMost-self :
      (v : CachedExpert F) (victim : Option (CachedExpert F)) → victim ≡ some v → AtMost v victim
  AtMost-self v victim e = subst (AtMost v) (sym e) (NotAfter-refl v)

  find_head :
      (j : ExpertKey) (c v : CachedExpert F) (cs : Map ExpertKey (CachedExpert F))
      → c.key ≡ j
      → some c ≡ some v
      → find v.key ((j, c) ∷ cs) ≡ some v
  unfolding find
  find_head j c v cs k e = ground (arith, key_beq_iff j v.key)

  find_tail :
      (j : ExpertKey) (c v : CachedExpert F) (cs : Map ExpertKey (CachedExpert F))
      → find j cs ≡ none
      → find v.key cs ≡ some v
      → find v.key ((j, c) ∷ cs) ≡ some v
  unfolding find
  find_tail j c v cs n e = ground (arith, key_beq_iff j v.key)

  victim_of-Best :
      (cs : Map ExpertKey (CachedExpert F)) (victim : Option (CachedExpert F)) (v : CachedExpert F)
      → Distinct cs
      → Keyed cs
      → victim_of F cs victim ≡ some v
      → Best v cs victim
  unfolding victim_of
  victim_of-Best [] victim v d k e = (inl e, tt, AtMost-self v victim e)
  victim_of-Best ((j, c) ∷ cs) victim v d k e =
      let ih : Best v cs (pick c victim) =
        victim_of-Best cs (pick c victim) v d.1 k.1 (sym (victim_of-cons j c cs victim) ∙ e) in
      let (from, bound) = pick_cases c v victim in
      (
        elim ih.0 [
          | inl chosen ↦ elim from [
            | inl kept ↦ inl (sym kept ∙ chosen)
            | inr taken ↦ inr (find_head j c v cs k.0 (sym taken ∙ chosen))
          ]
          | inr f ↦ inr (find_tail j c v cs d.0 f)
        ],
        ((bound ih.2).0, ih.1),
        (bound ih.2).1,
      )

  -- The victim is an entry of the map that comes after no other.
  pub victim_of-IsVictim :
      (cs : Map ExpertKey (CachedExpert F)) (v : CachedExpert F)
      → Distinct cs
      → Keyed cs
      → victim_of F cs none ≡ some v
      → IsVictim v cs
  victim_of-IsVictim cs v d k e =
      let best = victim_of-Best cs none v d k e in
      record { found = elim best.0 [ inl absent ↦ absurd (cc absent) | inr f ↦ f ]; least = best.1 }

  victim_of-some :
      (cs : Map ExpertKey (CachedExpert F)) (w : CachedExpert F) → victim_of F cs (some w) ≢ none
  unfolding victim_of
  victim_of-some [] w = λ e. cc e
  victim_of-some ((j, c) ∷ cs) w = λ e. ground (arith, e, victim_of-some cs c, victim_of-some cs w)

  pub victim_of-none : (cs : Map ExpertKey (CachedExpert F)) → victim_of F cs none ≡ none → cs ≡ []
  unfolding victim_of
  victim_of-none [] e = refl
  victim_of-none ((j, c) ∷ cs) e = absurd (victim_of-some cs c e)
