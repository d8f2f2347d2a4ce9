-- ===== src/Map/Laws.antt =====
-- What `find` sees after `assign` and `erase`, and what these do to a sum over the entries.
use dee.Prelude.{
  ℕ, suc, ◌+◌, ◌≡◌, refl, inl, inr, true, none, some, [], ◌∷◌, arith, length, if◌then◌else◌,
  Bool-cases, sym,
}
use mathlib.Core.Path.{subst, subst₂}
use dee.Map.{Eq, Map, find, assign, erase, Distinct, sum_of, AllEntries}

pub beq_refl {ℓ} : {K : Type ℓ} ⦃e : Eq K⦄ (k : K) → e.beq k k ≡ true
beq_refl ⦃e⦄ k = (e.beq_iff k k).1 refl

module _ {ℓ} {K V : Type ℓ} ⦃e : Eq K⦄ where
  pub find-assign :
      (k j : K) (v : V) (m : Map K V)
      → find j (assign k v m) ≡ (if e.beq k j then some v else find j m)
  unfolding find assign
  find-assign k j v [] = refl
  find-assign k j v ((i, w) ∷ m) =
      ground (arith, e.beq_iff i k, e.beq_iff i j, e.beq_iff k j, find-assign k j v m)

  pub length-assign :
      (k : K) (v : V) (m : Map K V) → find k m ≡ none → length (assign k v m) ≡ suc (length m)
  unfolding find assign
  length-assign k v [] h = omega arith
  length-assign k v ((j, w) ∷ m) h = elim (Bool-cases (e.beq j k)) [
    | inl hit ↦ absurd (cc (rw hit at h))
    | inr miss ↦ rw miss (omega (arith, length-assign k v m (rw miss at h)))
  ]

  pub find_assigned : (k : K) (v : V) (m : Map K V) → find k (assign k v m) ≡ some v
  find_assigned k v m = ground (arith, find-assign k k v m, beq_refl k)

  pub find-erase :
      (k j : K) (m : Map K V) → find j (erase k m) ≡ (if e.beq k j then none else find j m)
  unfolding find erase
  find-erase k j [] = ground arith
  find-erase k j ((i, w) ∷ m) =
      ground (arith, e.beq_iff i k, e.beq_iff i j, e.beq_iff k j, find-erase k j m)

  pub erase_absent : (k : K) (m : Map K V) → find k m ≡ none → erase k m ≡ m
  unfolding find erase
  erase_absent k [] h = refl
  erase_absent k ((i, w) ∷ m) h = ground (arith, erase_absent k m)

  pub assign-Distinct : (k : K) (v : V) (m : Map K V) → Distinct m → Distinct (assign k v m)
  unfolding assign
  assign-Distinct k v [] d = (unfold find in refl, tt)
  assign-Distinct k v ((i, w) ∷ m) d = elim (Bool-cases (e.beq i k)) [
    | inl hit ↦ rw hit d
    | inr miss ↦ rw miss (
      ground (arith, find-assign k i v m, e.beq_iff i k, e.beq_iff k i, d.0),
      assign-Distinct k v m d.1,
    )
  ]

  pub erase-Distinct : (k : K) (m : Map K V) → Distinct m → Distinct (erase k m)
  unfolding erase
  erase-Distinct k [] d = tt
  erase-Distinct k ((i, w) ∷ m) d = elim (Bool-cases (e.beq i k)) [
    | inl hit ↦ rw hit (erase-Distinct k m d.1)
    | inr miss ↦ rw miss (ground (arith, find-erase k i m, d.0), erase-Distinct k m d.1)
  ]

  -- `erase` takes the entry's share out of a sum, and `assign` of a new key adds one.
  module _ (f : K → V → ℕ) where
    pub sum_of-erase :
        (k : K) (v : V) (m : Map K V)
        → Distinct m
        → find k m ≡ some v
        → sum_of f m ≡ f k v + sum_of f (erase k m)
    unfolding find erase sum_of
    sum_of-erase k v [] d h = cc
    sum_of-erase k v ((i, w) ∷ m) d h =
        ground (arith, e.beq_iff i k, erase_absent i m d.0, sum_of-erase k v m d.1)

    pub sum_of-assign :
        (k : K) (v : V) (m : Map K V)
        → find k m ≡ none
        → sum_of f (assign k v m) ≡ f k v + sum_of f m
    unfolding find assign sum_of
    sum_of-assign k v [] h = refl
    sum_of-assign k v ((i, w) ∷ m) h = ground (arith, sum_of-assign k v m)

    -- A new value of the same measure leaves the sum.
    pub sum_of-reassign :
        (k : K) (v w : V) (m : Map K V)
        → find k m ≡ some w
        → ((j : K) → f j v ≡ f j w)
        → sum_of f (assign k v m) ≡ sum_of f m
    unfolding find assign sum_of
    sum_of-reassign k v w [] h p = cc
    sum_of-reassign k v w ((i, u) ∷ m) h p = ground (arith, p i, sum_of-reassign k v w m)

  module _ {κ} (P : K → V → Type κ) where
    pub AllEntries-find : (k : K) (v : V) (m : Map K V) → AllEntries P m → find k m ≡ some v → P k v
    unfolding find
    AllEntries-find k v [] a h = absurd (cc)
    AllEntries-find k v ((i, w) ∷ m) a h = elim (Bool-cases (e.beq i k)) [
      | inl hit ↦ subst₂ P ((e.beq_iff i k).0 hit) (ground arith) a.0
      | inr miss ↦ AllEntries-find k v m a.1 (ground arith)
    ]

    pub AllEntries-assign :
        (k : K) (v : V) (m : Map K V) → AllEntries P m → P k v → AllEntries P (assign k v m)
    unfolding assign
    AllEntries-assign k v [] a p = (p, tt)
    AllEntries-assign k v ((i, w) ∷ m) a p = elim (Bool-cases (e.beq i k)) [
      | inl hit ↦ rw hit (subst (λ j. P j v) (sym ((e.beq_iff i k).0 hit)) p, a.1)
      | inr miss ↦ rw miss (a.0, AllEntries-assign k v m a.1 p)
    ]

    pub AllEntries-erase : (k : K) (m : Map K V) → AllEntries P m → AllEntries P (erase k m)
    unfolding erase
    AllEntries-erase k [] a = tt
    AllEntries-erase k ((i, w) ∷ m) a = elim (Bool-cases (e.beq i k)) [
      | inl hit ↦ rw hit (AllEntries-erase k m a.1)
      | inr miss ↦ rw miss (a.0, AllEntries-erase k m a.1)
    ]

  pub length-erase :
      (k : K) (v : V) (m : Map K V)
      → Distinct m
      → find k m ≡ some v
      → length m ≡ suc (length (erase k m))
  unfolding find erase
  length-erase k v [] d h = cc
  length-erase k v ((i, w) ∷ m) d h =
      ground (arith, e.beq_iff i k, erase_absent i m d.0, length-erase k v m d.1)
