-- ===== src/Prefetch/Drain.antt =====
-- The loop `drain_until` of dee.cpp/src/async_prefetcher.cpp.
use dee.Prelude.{
  ℕ, zero, suc, ◌+◌, ◌-◌, ◌≤◌, ◌<◌, ◌≡◌, refl, ◌⊎◌, inl, inr, true, some, List, [], ◌∷◌, arith,
  Bool-cases, length, get_elem?, All,
}
use dee.Prefetch.{Memory, Transfer, copy, is_pending, drain, done_at}

pub copy_outside :
    (mem : Memory) (dst src nbytes x : ℕ)
    → (x < dst) ⊎ (dst + nbytes ≤ x)
    → copy mem dst src nbytes x ≡ mem x
unfolding copy
copy_outside mem dst src nbytes x h = ground arith

pub copy_inside :
    (mem : Memory) (dst src nbytes i : ℕ)
    → i < nbytes
    → copy mem dst src nbytes (dst + i) ≡ mem (src + i)
unfolding copy
copy_inside mem dst src nbytes i h = let e : dst + i - dst ≡ i = omega arith in rw e (ground arith)

-- All transfers write between `lo` and `hi`.
abbrev pub Within : ℕ → ℕ → List Transfer → Type 0
Within lo hi = All (λ t. (lo ≤ t.dst) × (t.dst + t.nbytes ≤ hi))

-- Draining changes no byte outside.
pub drain_outside :
    (lo hi n : ℕ) (ts : List Transfer) (mem : Memory) (x : ℕ)
    → Within lo hi ts
    → (x < lo) ⊎ (hi ≤ x)
    → (drain n ts mem).1 x ≡ mem x
unfolding drain
drain_outside lo hi zero ts mem x w h = refl
drain_outside lo hi (suc n) [] mem x w h = refl
drain_outside lo hi (suc n) (t ∷ ts) mem x w h = ground (
  arith,
  drain_outside lo hi n ts (copy mem t.dst t.src t.nbytes) x w.1,
  drain_outside lo hi n ts mem x w.1,
  copy_outside mem t.dst t.src t.nbytes x,
)

pub length-drain :
    (n : ℕ) (ts : List Transfer) (mem : Memory) → length (drain n ts mem).0 ≡ length ts
unfolding drain
length-drain zero ts mem = refl
length-drain (suc n) [] mem = refl
length-drain (suc n) (t ∷ ts) mem =
    ground (arith, length-drain n ts (copy mem t.dst t.src t.nbytes), length-drain n ts mem)

-- The transfer at the last index drained has run: its bytes are those that its source held before,
-- if no transfer writes where the source lies.
pub drain_last :
    (lo hi i : ℕ) (ts : List Transfer) (mem : Memory) (t : Transfer) (k : ℕ)
    → Within lo hi ts
    → get_elem? ts i ≡ some t
    → is_pending t ≡ true
    → k < t.nbytes
    → (t.src + t.nbytes ≤ lo) ⊎ (hi ≤ t.src)
    → (drain (suc i) ts mem).1 (t.dst + k) ≡ mem (t.src + k)
unfolding drain
drain_last lo hi i [] mem t k w e p h s = cc e
drain_last lo hi zero (u ∷ ts) mem t k w e p h s =
    let same : u ≡ t = cc e in rw (same, p) (copy_inside mem t.dst t.src t.nbytes k h)
drain_last lo hi (suc i) (u ∷ ts) mem t k w e p h s = ground (
  arith,
  drain_last lo hi i ts (copy mem u.dst u.src u.nbytes) t k w.1 e p h s,
  drain_last lo hi i ts mem t k w.1 e p h s,
  copy_outside mem u.dst u.src u.nbytes (t.src + k),
)

-- It is marked, and so is every transfer that was pending up to it.
pub drain-done_at :
    (i j : ℕ) (ts : List Transfer) (mem : Memory) (t : Transfer)
    → get_elem? ts i ≡ some t
    → i ≤ j
    → (t.done ≡ true) ⊎ (is_pending t ≡ true)
    → done_at i (drain (suc j) ts mem).0 ≡ true
unfolding drain done_at
drain-done_at i j [] mem t e le p = cc e
drain-done_at zero j (u ∷ ts) mem t e le p = let same : u ≡ t = cc e in rw same (ground arith)
drain-done_at (suc i) zero (u ∷ ts) mem t e le p = absurd (omega arith)
drain-done_at (suc i) (suc j) (u ∷ ts) mem t e le p = ground (
  arith,
  drain-done_at i j ts (copy mem u.dst u.src u.nbytes) t e (omega arith) p,
  drain-done_at i j ts mem t e (omega arith) p,
)

-- Draining leaves all but the marks as it was.
pub drain-Within :
    (lo hi n : ℕ) (ts : List Transfer) (mem : Memory)
    → Within lo hi ts
    → Within lo hi (drain n ts mem).0
unfolding drain
drain-Within lo hi zero ts mem w = w
drain-Within lo hi (suc n) [] mem w = tt
drain-Within lo hi (suc n) (t ∷ ts) mem w = elim (Bool-cases (is_pending t)) [
  | inl runs ↦ rw runs (w.0, drain-Within lo hi n ts (copy mem t.dst t.src t.nbytes) w.1)
  | inr rests ↦ rw rests (w.0, drain-Within lo hi n ts mem w.1)
]

pub get_elem?-drain :
    (n i : ℕ) (ts : List Transfer) (mem : Memory) (t : Transfer)
    → get_elem? ts i ≡ some t
    → (u : Transfer) × (get_elem? (drain n ts mem).0 i ≡ some u) × (u.key ≡ t.key)
unfolding drain
get_elem?-drain zero i ts mem t e = (t, e, refl)
get_elem?-drain (suc n) i [] mem t e = cc e
get_elem?-drain (suc n) zero (u ∷ ts) mem t e = elim (Bool-cases (is_pending u)) [
  | inl runs ↦ rw runs (record u { done = true }, refl, ground arith)
  | inr rests ↦ rw rests (u, refl, ground arith)
]
get_elem?-drain (suc n) (suc i) (u ∷ ts) mem t e = elim (Bool-cases (is_pending u)) [
  | inl runs ↦ rw runs (get_elem?-drain n i ts (copy mem u.dst u.src u.nbytes) t e)
  | inr rests ↦ rw rests (get_elem?-drain n i ts mem t e)
]
