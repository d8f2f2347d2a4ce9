-- ===== src/Cache/Refines.antt =====
-- What the clients of `class VramCacheManager` (dee.cpp/src/vram_cache.cpp) rely on, without its
-- blocks, ticks and arena: a function from experts to regions of memory, and how each call may
-- change it.
use dee.Prelude.{
  ℕ, ◌+◌, ◌≤◌, ◌<◌, ◌≡◌, ◌≢◌, refl, sym, ap, ◌∙◌, ◌⊎◌, inl, inr, Bool, true, false, Option, none,
  some, List, [], ◌∷◌, arith, Bool-cases, Option-cases, if◌then◌else◌, size_limit, All,
}
use dee.Map.{find}
use dee.Map.Laws.{find-assign}
use dee.Keys.{ExpertKey, key_eq, key_beq_iff}
use dee.Arena.{Backend}
use dee.Cache.{
  ExpertBlock, VramCacheManager, init, hit, ensure, touch, is_resident, sync_fallback, clear,
  find_block,
}
use dee.Cache.Invariant.{Inv, IsEntry-find}
use dee.Cache.Ensure.{key_of, ensure_cases, recounted}
use dee.Cache.Answer.{ensure_answer, ensure_others}
use dee.Cache.Layout.{blocks_disjoint}
use dee.Cache.Run.{
  Call, ensures, touches, falls_back, clears, step, run, IsSized, step-Inv, new_manager,
  run-init-Inv,
}

-- The address and the size of each resident expert.
abbrev pub Residency : Type 0
Residency = ExpertKey → Option (ℕ × ℕ)

-- No two experts share a byte.
abbrev pub IsPlaced : Residency → Type 0
IsPlaced r =
    (j k : ExpertKey) (a b m n : ℕ)
    → j ≢ k
    → r j ≡ some (a, m)
    → r k ≡ some (b, n)
    → (a + m ≤ b) ⊎ (b + n ≤ a)

abbrev pub Same : Residency → Residency → Type 0
Same r s = (k : ExpertKey) → s k ≡ r k

-- Other experts may go, and stay where they are or go.
abbrev pub Keeps : ExpertKey → Residency → Residency → Type 0
Keeps k r s = (j : ExpertKey) (p : ℕ × ℕ) → j ≢ k → s j ≡ some p → r j ≡ some p

-- A request for an expert: it is there already, or it gets a region of the size asked for, or the
-- answer is no.
abbrev pub Ensured : ExpertKey → ℕ → Residency → Bool → Residency → Type 0
Ensured k nbytes r ok s =
    ((ok ≡ true) × (p : ℕ × ℕ) × (r k ≡ some p) × Same r s)
    ⊎ (((ok ≡ true) × (r k ≡ none) × (a : ℕ) × (s k ≡ some (a, nbytes)) × Keeps k r s)
        ⊎ ((ok ≡ false) × (r k ≡ none) × (s k ≡ none) × Keeps k r s))

abbrev pub Step : Call → Residency → Bool → Residency → Type 0
Step (ensures layer expert nbytes priority) r ok s = Ensured (key_of layer expert) nbytes r ok s
Step (touches layer expert) r ok s = Same r s
Step (falls_back layer expert nbytes priority) r ok s = Ensured (key_of layer expert) nbytes r ok s
Step clears r ok s = (k : ExpertKey) → s k ≡ none

-- A history of calls with their answers leads from one residency to another, through residencies
-- without overlaps.
abbrev pub Runs : List (Call × Bool) → Residency → Residency → Type 0
Runs [] r s = Same r s
Runs ((c, ok) ∷ h) r s = (t : Residency) × Step c r ok t × IsPlaced t × Runs h t s

-- What the manager shows of itself.
abbrev pub shown : Option ExpertBlock → Option (ℕ × ℕ)
shown none = none
shown (some b) = some (b.ptr, b.size)

abbrev pub residency : VramCacheManager → Residency
residency m k = shown (find k m.blocks)

-- The answer of a call; those without a result answer true.
unfoldable pub answer_of : VramCacheManager → Call → Bool
answer_of m (ensures layer expert nbytes priority) = (ensure m layer expert nbytes priority).0
answer_of m (touches layer expert) = true
answer_of m (falls_back layer expert nbytes priority) =
    (sync_fallback m layer expert nbytes priority).0
answer_of m clears = true

unfoldable pub answers : VramCacheManager → List Call → List (Call × Bool)
answers m [] = []
answers m (c ∷ cs) = (c, answer_of m c) ∷ answers (step m c) cs

shown-some :
    (o : Option ExpertBlock) (p : ℕ × ℕ)
    → shown o ≡ some p
    → (b : ExpertBlock) × (o ≡ some b) × (p ≡ (b.ptr, b.size))
shown-some none p e = absurd (cc e)
shown-some (some b) p e = (b, refl, cc e)

-- A block that is entered again at its address shows as before.
entered :
    (m : VramCacheManager) (k j : ExpertKey) (b used : ExpertBlock)
    → find k m.blocks ≡ some b
    → used.ptr ≡ b.ptr
    → used.size ≡ b.size
    → shown (if key_eq.beq k j then some used else find j m.blocks) ≡ residency m j
entered m k j b used e p s = elim (Bool-cases (key_eq.beq k j)) [
  | inl same ↦
      let there : find j m.blocks ≡ some b =
        ap (λ i. find i m.blocks) (sym ((key_beq_iff k j).0 same)) ∙ e in
      rw (same, there, p, s) refl
  | inr other ↦ rw other refl
]

module _ (m : VramCacheManager) (layer expert nbytes priority : ℕ) where
  abbrev key : ExpertKey
  key = key_of layer expert

  ensure-Keeps :
      Inv m → Keeps key (residency m) (residency (ensure m layer expert nbytes priority).1)
  ensure-Keeps v j p ne h =
      let (c, found, shows) = shown-some _ p h in
      ap shown (ensure_others m layer expert nbytes priority j c v ne found) ∙ ap some (sym shows)

  ensure-Ensured :
      Inv m
      → Ensured key nbytes
          (residency m)
          (ensure m layer expert nbytes priority).0
          (residency (ensure m layer expert nbytes priority).1)
  unfolding hit
  ensure-Ensured v = elim (ensure_cases m layer expert nbytes priority v) [
    | inr (b, e, eq) ↦ inl (
      ap (λ x. x.0) eq,
      (b.ptr, b.size),
      ap shown e,
      λ j.
          ap (λ x. residency x.1 j) eq
          ∙ ap shown (find-assign key j _ m.blocks)
          ∙ entered m key j b _ e refl refl,
    )
    | inl (e, eq) ↦ elim (ensure_answer m layer expert nbytes priority v) [
      | inl (done, _, b, holds, fresh) ↦ inr (
          inl (
            done,
            ap shown e,
            b.ptr,
            ap shown holds ∙ ap (λ n. some (b.ptr, n)) (rw e at fresh.sized),
            ensure-Keeps v,
          ))
      | inr (failed, _, holds, absent) ↦
          inr (inr (failed, ap shown absent, ap shown holds, ensure-Keeps v))
    ]
  ]

  touch-Same : Inv m → Same (residency m) (residency (touch m layer expert))
  unfolding touch find_block
  touch-Same v j = elim (Option-cases (find key m.blocks)) [
    | inl e ↦ rw (e, touch, find_block) refl
    | inr (b, e) ↦
        rw (e, touch, find_block, (IsEntry-find m key b v e).held)
          (ap shown (find-assign key j _ m.blocks) ∙ entered m key j b _ e refl refl)
  ]

  is_resident-shown : is_resident m layer expert ≡ true → (p : ℕ × ℕ) × (residency m key ≡ some p)
  unfolding is_resident find_block
  is_resident-shown h = elim (Option-cases (find key m.blocks)) [
    | inl e ↦ absurd (cc (rw (e, is_resident, find_block) at h))
    | inr (b, e) ↦ ((b.ptr, b.size), ap shown e)
  ]

-- Called again with other counts, `ensure` does the same for what is shown.
sync_fallback-Ensured :
    (m : VramCacheManager) (layer expert nbytes priority : ℕ)
    → Inv m
    → Ensured
        (key_of layer expert)
        nbytes
        (residency m)
        (sync_fallback m layer expert nbytes priority).0
        (residency (sync_fallback m layer expert nbytes priority).1)
unfolding sync_fallback
sync_fallback-Ensured m layer expert nbytes priority v =
    elim (Bool-cases (is_resident m layer expert)) [
      | inl here ↦
          let (p, e) = is_resident-shown m layer expert nbytes priority here in
          rw here (inl (refl, p, e, λ k. refl))
      | inr absent ↦ rw absent (ensure-Ensured _ layer expert nbytes priority (recounted m _ v))
    ]

Inv-IsPlaced : (m : VramCacheManager) → Inv m → IsPlaced (residency m)
Inv-IsPlaced m v j k a b n o ne p q =
    let (x, found_x, shows_x) = shown-some _ (a, n) p in
    let (y, found_y, shows_y) = shown-some _ (b, o) q in
    let ex = IsEntry-find m j x v found_x in
    let ey = IsEntry-find m k y v found_y in
    ground (
      arith,
      blocks_disjoint m j k x y v ne found_x found_y,
      shows_x,
      shows_y,
      ex.placed,
      ey.placed,
    )

step-Step :
    (m : VramCacheManager) (c : Call)
    → Inv m
    → Step c (residency m) (answer_of m c) (residency (step m c))
unfolding step answer_of clear find
step-Step m (ensures layer expert nbytes priority) v =
    ensure-Ensured m layer expert nbytes priority v
step-Step m (touches layer expert) v = touch-Same m layer expert 0 0 v
step-Step m (falls_back layer expert nbytes priority) v =
    sync_fallback-Ensured m layer expert nbytes priority v
step-Step m clears v = λ k. refl

run-Runs :
    (m : VramCacheManager) (cs : List Call)
    → All IsSized cs
    → Inv m
    → Runs (answers m cs) (residency m) (residency (run m cs))
unfolding run answers
run-Runs m [] s v = λ k. refl
run-Runs m (c ∷ cs) s v =
    let w = step-Inv m c s.0 v in
    (residency (step m c), step-Step m c v, Inv-IsPlaced (step m c) w, run-Runs (step m c) cs s.1 w)

-- Every history of calls on an initialised manager, with the answers that it gives, is one that the
-- description allows: it begins with no expert, an expert is answered for exactly where it has its
-- region afterwards, a region once given stays until the expert goes, and no two overlap.
pub run-init-Runs :
    (budget_bytes : ℕ) (be : Backend) (cs : List Call)
    → budget_bytes < size_limit
    → (init new_manager budget_bytes be).0 ≡ true
    → All IsSized cs
    → Runs
        (answers (init new_manager budget_bytes be).1 cs)
        (λ k. none)
        (residency (run (init new_manager budget_bytes be).1 cs))
unfolding init find run
run-init-Runs budget_bytes be cs lim done s =
    run-Runs (init new_manager budget_bytes be).1 cs s (run-init-Inv budget_bytes be [] lim done tt)
