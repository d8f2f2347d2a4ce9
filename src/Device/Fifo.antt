-- ===== src/Device/Fifo.antt =====
-- The queues of dee.cpp/src/cuda_backend_mock.cpp: the sequence numbers on a stream.
use dee.Prelude.{ℕ, suc, ◌+◌, ◌≤◌, ◌≡◌, refl, List, [], ◌∷◌, ◌++◌, arith, ltb, Bool-cases, inl, inr}
use dee.Prefetch.{Memory, copy}
use dee.Device.{MockCopy, drain_to, run_copies}

-- The numbers rise from `lo` on and stay below `hi`.
abbrev pub Rises : ℕ → ℕ → List MockCopy → Type 0
Rises lo hi [] = lo ≤ hi
Rises lo hi (c ∷ cs) = (lo ≤ c.seq) × Rises (suc c.seq) hi cs

pub Rises-snoc :
    (lo hi : ℕ) (cs : List MockCopy) (c : MockCopy)
    → Rises lo hi cs
    → c.seq ≡ hi
    → Rises lo (hi + 1) (cs ++ c ∷ [])
Rises-snoc lo hi [] c r e = (omega arith, omega arith)
Rises-snoc lo hi (d ∷ cs) c r e = (r.0, Rises-snoc (suc d.seq) hi cs c r.1 e)

Rises-le : (lo hi : ℕ) (cs : List MockCopy) → Rises lo hi cs → lo ≤ hi
Rises-le lo hi [] r = r
Rises-le lo hi (c ∷ cs) r = omega (arith, r.0, Rises-le (suc c.seq) hi cs r.1)

-- Draining up to a mark runs exactly the copies queued before the mark.
pub drain_to_mark :
    (lo mark hi : ℕ) (before later : List MockCopy) (mem : Memory)
    → Rises lo mark before
    → Rises mark hi later
    → (drain_to mark (before ++ later) mem ≡ (later, run_copies before mem))
unfolding drain_to run_copies
drain_to_mark lo mark hi [] [] mem r s = refl
drain_to_mark lo mark hi [] (c ∷ later) mem r s = ground arith
drain_to_mark lo mark hi (b ∷ before) later mem r s =
    let small : suc b.seq ≤ mark = Rises-le (suc b.seq) mark before r.1 in
    ground
      (arith, drain_to_mark (suc b.seq) mark hi before later (copy mem b.dst b.src b.bytes) r.1 s)

Rises-weaken : (lo lo' hi : ℕ) (cs : List MockCopy) → lo ≤ lo' → Rises lo' hi cs → Rises lo hi cs
Rises-weaken lo lo' hi [] h r = omega arith
Rises-weaken lo lo' hi (c ∷ cs) h r = (omega (arith, r.0), r.1)

-- What is left rises still.
pub drain_to-Rises :
    (mark lo hi : ℕ) (cs : List MockCopy) (mem : Memory)
    → Rises lo hi cs
    → Rises lo hi (drain_to mark cs mem).0
unfolding drain_to
drain_to-Rises mark lo hi [] mem r = r
drain_to-Rises mark lo hi (c ∷ cs) mem r = elim (Bool-cases (ltb c.seq mark)) [
  | inr late ↦ rw (late, drain_to) r
  | inl early ↦
      rw (early, drain_to)
        (Rises-weaken lo (suc c.seq) hi _ (omega (arith, r.0))
          (drain_to-Rises mark (suc c.seq) hi cs (copy mem c.dst c.src c.bytes) r.1))
]
