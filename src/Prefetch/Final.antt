-- ===== src/Prefetch/Final.antt =====
-- The memory as it is once all queued transfers of dee.cpp/src/async_prefetcher.cpp have run.
use dee.Prelude.{
  ℕ, zero, suc, ◌+◌, ◌≤◌, ◌<◌, ◌≡◌, refl, sym, ap, ◌∙◌, ◌⊎◌, inl, inr, true, false, List, [], ◌∷◌,
  ◌++◌, arith, Bool-cases, length, All, All-snoc,
}
use dee.Prefetch.{Memory, Transfer, copy, is_pending, drain}
use dee.Prefetch.Drain.{copy_outside, Within, drain_outside}

pub final : List Transfer → Memory → Memory
final ts mem = (drain (length ts) ts mem).1

-- A transfer does not write a byte.
abbrev pub Misses : ℕ → Transfer → Type 0
Misses x t = (x < t.dst) ⊎ (t.dst + t.nbytes ≤ x)

-- No transfer behind an index writes a byte.
abbrev pub After : ℕ → ℕ → List Transfer → Type 0
After i x [] = Unit {0}
After zero x (t ∷ ts) = All (Misses x) ts
After (suc i) x (t ∷ ts) = After i x ts

drain-missed :
    (n : ℕ) (x : ℕ) (ts : List Transfer) (mem : Memory)
    → All (Misses x) ts
    → (drain n ts mem).1 x ≡ mem x
unfolding drain
drain-missed zero x ts mem m = refl
drain-missed (suc n) x [] mem m = refl
drain-missed (suc n) x (t ∷ ts) mem m = ground (
  arith,
  drain-missed n x ts (copy mem t.dst t.src t.nbytes) m.1,
  drain-missed n x ts mem m.1,
  copy_outside mem t.dst t.src t.nbytes x,
)

drain_runs :
    (n : ℕ) (t : Transfer) (ts : List Transfer) (mem : Memory)
    → is_pending t ≡ true
    → drain (suc n) (t ∷ ts) mem ≡ (
      record t { done = true } ∷ (drain n ts (copy mem t.dst t.src t.nbytes)).0,
      (drain n ts (copy mem t.dst t.src t.nbytes)).1,
    )
unfolding drain
drain_runs n t ts mem p = rw p refl

drain_rests :
    (n : ℕ) (t : Transfer) (ts : List Transfer) (mem : Memory)
    → is_pending t ≡ false
    → drain (suc n) (t ∷ ts) mem ≡ (t ∷ (drain n ts mem).0, (drain n ts mem).1)
unfolding drain
drain_rests n t ts mem p = rw p refl

final_runs :
    (t : Transfer) (ts : List Transfer) (mem : Memory)
    → is_pending t ≡ true
    → final (t ∷ ts) mem ≡ final ts (copy mem t.dst t.src t.nbytes)
unfolding final
final_runs t ts mem p = ap (λ r. r.1) (drain_runs (length ts) t ts mem p)

final_rests :
    (t : Transfer) (ts : List Transfer) (mem : Memory)
    → is_pending t ≡ false
    → final (t ∷ ts) mem ≡ final ts mem
unfolding final
final_rests t ts mem p = ap (λ r. r.1) (drain_rests (length ts) t ts mem p)

final-missed :
    (x : ℕ) (ts : List Transfer) (mem : Memory) → All (Misses x) ts → final ts mem x ≡ mem x
unfolding final
final-missed x ts mem m = drain-missed (length ts) x ts mem m

pub final-outside :
    (lo hi : ℕ) (ts : List Transfer) (mem : Memory) (x : ℕ)
    → Within lo hi ts
    → (x < lo) ⊎ (hi ≤ x)
    → final ts mem x ≡ mem x
unfolding final
final-outside lo hi ts mem x w h = drain_outside lo hi (length ts) ts mem x w h

-- Draining up to an index settles a byte that no later transfer writes.
pub drain-settled :
    (i x : ℕ) (ts : List Transfer) (mem : Memory)
    → After i x ts
    → (drain (suc i) ts mem).1 x ≡ final ts mem x
unfolding drain final
drain-settled i x [] mem a = refl
drain-settled zero x (t ∷ ts) mem a = elim (Bool-cases (is_pending t)) [
  | inl runs ↦
      let mem' : Memory = copy mem t.dst t.src t.nbytes in
      ap (λ r. r.1 x) (drain_runs 0 t ts mem runs)
      ∙ sym (final-missed x ts mem' a)
      ∙ sym (ap (λ m. m x) (final_runs t ts mem runs))
  | inr rests ↦
      ap (λ r. r.1 x) (drain_rests 0 t ts mem rests)
      ∙ sym (final-missed x ts mem a)
      ∙ sym (ap (λ m. m x) (final_rests t ts mem rests))
]
drain-settled (suc i) x (t ∷ ts) mem a = elim (Bool-cases (is_pending t)) [
  | inl runs ↦
      ap (λ r. r.1 x) (drain_runs (suc i) t ts mem runs)
      ∙ drain-settled i x ts (copy mem t.dst t.src t.nbytes) a
      ∙ sym (ap (λ m. m x) (final_runs t ts mem runs))
  | inr rests ↦
      ap (λ r. r.1 x) (drain_rests (suc i) t ts mem rests)
      ∙ drain-settled i x ts mem a
      ∙ sym (ap (λ m. m x) (final_rests t ts mem rests))
]

done_rests : (t : Transfer) → is_pending (record t { done = true }) ≡ false
unfolding is_pending
done_rests t = refl

-- Draining some of the queue does not change where it ends.
pub final-drain :
    (n : ℕ) (ts : List Transfer) (mem : Memory)
    → final (drain n ts mem).0 (drain n ts mem).1 ≡ final ts mem
unfolding drain
final-drain zero ts mem = refl
final-drain (suc n) [] mem = refl
final-drain (suc n) (t ∷ ts) mem = elim (Bool-cases (is_pending t)) [
  | inl runs ↦
      let r = drain n ts (copy mem t.dst t.src t.nbytes) in
      ap (λ q. final q.0 q.1) (drain_runs n t ts mem runs)
      ∙ final_rests (record t { done = true }) r.0 r.1 (done_rests t)
      ∙ final-drain n ts (copy mem t.dst t.src t.nbytes)
      ∙ sym (final_runs t ts mem runs)
  | inr rests ↦
      let r = drain n ts mem in
      ap (λ q. final q.0 q.1) (drain_rests n t ts mem rests)
      ∙ final_rests t r.0 r.1 rests
      ∙ final-drain n ts mem
      ∙ sym (final_rests t ts mem rests)
]

All-Misses-drain :
    (n x : ℕ) (ts : List Transfer) (mem : Memory)
    → All (Misses x) ts
    → All (Misses x) (drain n ts mem).0
unfolding drain
All-Misses-drain zero x ts mem a = a
All-Misses-drain (suc n) x [] mem a = tt
All-Misses-drain (suc n) x (t ∷ ts) mem a = elim (Bool-cases (is_pending t)) [
  | inl runs ↦ rw runs (a.0, All-Misses-drain n x ts (copy mem t.dst t.src t.nbytes) a.1)
  | inr rests ↦ rw rests (a.0, All-Misses-drain n x ts mem a.1)
]

pub After-drain :
    (n i x : ℕ) (ts : List Transfer) (mem : Memory) → After i x ts → After i x (drain n ts mem).0
unfolding drain
After-drain zero i x ts mem a = a
After-drain (suc n) i x [] mem a = tt
After-drain (suc n) zero x (t ∷ ts) mem a = elim (Bool-cases (is_pending t)) [
  | inl runs ↦ rw runs (All-Misses-drain n x ts (copy mem t.dst t.src t.nbytes) a)
  | inr rests ↦ rw rests (All-Misses-drain n x ts mem a)
]
After-drain (suc n) (suc i) x (t ∷ ts) mem a = elim (Bool-cases (is_pending t)) [
  | inl runs ↦ rw runs (After-drain n i x ts (copy mem t.dst t.src t.nbytes) a)
  | inr rests ↦ rw rests (After-drain n i x ts mem a)
]

-- A transfer that joins the queue runs last.
pub final-snoc :
    (ts : List Transfer) (t : Transfer) (mem : Memory)
    → is_pending t ≡ true
    → final (ts ++ t ∷ []) mem ≡ copy (final ts mem) t.dst t.src t.nbytes
unfolding final drain
final-snoc [] t mem p = final_runs t [] mem p
final-snoc (u ∷ ts) t mem p = elim (Bool-cases (is_pending u)) [
  | inl runs ↦
      final_runs u (ts ++ t ∷ []) mem runs
      ∙ final-snoc ts t (copy mem u.dst u.src u.nbytes) p
      ∙ ap (λ m. copy m t.dst t.src t.nbytes) (sym (final_runs u ts mem runs))
  | inr rests ↦
      final_rests u (ts ++ t ∷ []) mem rests
      ∙ final-snoc ts t mem p
      ∙ ap (λ m. copy m t.dst t.src t.nbytes) (sym (final_rests u ts mem rests))
]

pub After-snoc :
    (i x : ℕ) (ts : List Transfer) (t : Transfer)
    → After i x ts
    → Misses x t
    → After i x (ts ++ t ∷ [])
After-snoc zero x [] t a m = tt
After-snoc (suc i) x [] t a m = tt
After-snoc zero x (u ∷ ts) t a m = All-snoc (Misses x) ts t a m
After-snoc (suc i) x (u ∷ ts) t a m = After-snoc i x ts t a m

pub After-last : (x : ℕ) (ts : List Transfer) (t : Transfer) → After (length ts) x (ts ++ t ∷ [])
After-last x [] t = tt
After-last x (u ∷ ts) t = After-last x ts t
