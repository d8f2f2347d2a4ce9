-- ===== src/Prefetch/Queue.antt =====
-- The queue of dee.cpp/src/async_prefetcher.cpp: an index that `key_to_idx_` gives is in range and
-- leads to a transfer of its key.
use dee.Prelude.{
  ℕ, suc, ◌≡◌, ◌∙◌, inl, inr, some, List, [], ◌∷◌, ◌++◌, ap, ◌==◌, arith, if◌then◌else◌, Bool-cases,
  Option-cases, length, get_elem?, get_elem?-snoc, get_elem?-last,
}
use mathlib.Core.Path.{subst}
use dee.Map.{find, assign}
use dee.Map.Laws.{find-assign}
use dee.Cache.{VramCacheManager, data_of, ensure}
use dee.Prefetch.{
  Memory, Transfer, AsyncPrefetcher, long_eq, ==_iff, packed, reset, find_inflight, submit,
  new_transfer, prefetch, drain, wait, synchronize_all,
}
use dee.Prefetch.Drain.{get_elem?-drain}

abbrev pub Leads : List Transfer → ℕ → ℕ → Type 0
Leads ts k i = (t : Transfer) × (get_elem? ts i ≡ some t) × (packed t.key.layer t.key.expert ≡ k)

pub record IsIndexed (p : AsyncPrefetcher) : Type 0 where
  pub leads : (k i : ℕ) → find k p.key_to_idx ≡ some i → Leads p.inflight k i

submit-IsIndexed :
    (p : AsyncPrefetcher) (layer expert dst src nbytes : ℕ)
    → IsIndexed p
    → IsIndexed (submit p layer expert dst src nbytes)
unfolding submit
submit-IsIndexed p layer expert dst src nbytes q = record {
  leads = λ k i e. elim (Bool-cases (long_eq.beq (packed layer expert) k)) [
    | inl mine ↦
        let at_end : length p.inflight ≡ i = ground (arith, law k, mine, e) in
        (
          new,
          subst (λ j. get_elem? (p.inflight ++ new ∷ []) j ≡ some new) at_end
              (get_elem?-last p.inflight new),
          (==_iff (packed layer expert) k).0 mine,
        )
    | inr other ↦
        let (t, found, key) = q.leads k i (ground (arith, law k, other, e)) in
        (t, get_elem?-snoc p.inflight new i t found, key)
  ];
}
  where
    new : Transfer
    new = new_transfer layer expert dst src nbytes

    law :
        (k : ℕ)
        → find k (assign (packed layer expert) (length p.inflight) p.key_to_idx) ≡ (
            if long_eq.beq (packed layer expert) k
            then some (length p.inflight)
            else find k p.key_to_idx)
    law k = find-assign (packed layer expert) k (length p.inflight) p.key_to_idx

pub prefetch-IsIndexed :
    (m : VramCacheManager) (p : AsyncPrefetcher) (layer expert src nbytes priority : ℕ)
    → IsIndexed p
    → IsIndexed (prefetch m p layer expert src nbytes priority).2
unfolding prefetch
prefetch-IsIndexed m p layer expert src nbytes priority q =
    let (done, m') = ensure m layer expert nbytes priority in
    let d = data_of m' layer expert in
    elim (Bool-cases done) [
      | inr refused ↦ rw (refused, prefetch) q
      | inl made ↦ elim (Bool-cases (d == 0)) [
        | inl null ↦ rw (made, null, prefetch) q
        | inr mapped ↦ rw (made, mapped, prefetch) (submit-IsIndexed p layer expert d src nbytes q)
      ]
    ]

drained-IsIndexed :
    (p : AsyncPrefetcher) (n : ℕ) (mem : Memory)
    → IsIndexed p
    → (k i : ℕ) → find k p.key_to_idx ≡ some i
    → Leads (drain n p.inflight mem).0 k i
drained-IsIndexed p n mem q k i e =
    let (t, found, key) = q.leads k i e in
    let (u, there, same) = get_elem?-drain n i p.inflight mem t found in
    (u, there, ap (λ c. packed c.layer c.expert) same ∙ key)

pub wait-IsIndexed :
    (p : AsyncPrefetcher) (mem : Memory) (layer expert : ℕ)
    → IsIndexed p
    → IsIndexed (wait p mem layer expert).1
unfolding wait
wait-IsIndexed p mem layer expert q = elim (Option-cases (find_inflight p layer expert)) [
  | inl absent ↦ rw (absent, wait) (record { leads = q.leads })
  | inr (idx, e) ↦ elim (Bool-cases p.use_cuda) [
    | inl cuda ↦ rw (e, cuda, wait) (record { leads = q.leads })
    | inr host ↦ rw (e, host, wait) (record { leads = drained-IsIndexed p (suc idx) mem q })
  ]
]

-- The calls that change the queue.
pub data Call : Type 0 where
  prefetches : VramCacheManager → ℕ → ℕ → ℕ → ℕ → ℕ → Call
  waits : ℕ → ℕ → Call
  synchronizes : Call
  resets : Call

unfoldable pub step : AsyncPrefetcher × Memory → Call → AsyncPrefetcher × Memory
step (p, mem) (prefetches m layer expert src nbytes priority) =
    ((prefetch m p layer expert src nbytes priority).2, mem)
step (p, mem) (waits layer expert) = ((wait p mem layer expert).1, (wait p mem layer expert).2)
step (p, mem) synchronizes = synchronize_all p mem
step (p, mem) resets = (reset p, mem)

unfoldable pub run : AsyncPrefetcher × Memory → List Call → AsyncPrefetcher × Memory
run s [] = s
run s (c ∷ cs) = run (step s c) cs

pub synchronize_all-IsIndexed :
    (p : AsyncPrefetcher) (mem : Memory) → IsIndexed p → IsIndexed (synchronize_all p mem).0
unfolding synchronize_all
synchronize_all-IsIndexed p mem q = elim (Bool-cases p.use_cuda) [
  | inl cuda ↦ rw (cuda, synchronize_all) (record { leads = q.leads })
  | inr host ↦
      rw (host, synchronize_all) (record { leads = drained-IsIndexed p (length p.inflight) mem q })
]

pub reset-IsIndexed : (p : AsyncPrefetcher) → IsIndexed (reset p)
unfolding reset find
reset-IsIndexed p = record { leads = λ k i e. cc e }

step-IsIndexed :
    (p : AsyncPrefetcher) (mem : Memory) (c : Call) → IsIndexed p → IsIndexed (step (p, mem) c).0
unfolding step
step-IsIndexed p mem (prefetches m layer expert src nbytes priority) q =
    prefetch-IsIndexed m p layer expert src nbytes priority q
step-IsIndexed p mem (waits layer expert) q = wait-IsIndexed p mem layer expert q
step-IsIndexed p mem synchronizes q = synchronize_all-IsIndexed p mem q
step-IsIndexed p mem resets q = reset-IsIndexed p

-- After any history of calls, over any caches, an index found for a key leads to a transfer of
-- that key: `inflight_[idx]` in `wait` never reads outside the queue.
pub run-IsIndexed :
    (s : AsyncPrefetcher × Memory) (cs : List Call) → IsIndexed s.0 → IsIndexed (run s cs).0
unfolding run
run-IsIndexed s [] q = q
run-IsIndexed s (c ∷ cs) q = run-IsIndexed (step s c) cs (step-IsIndexed s.0 s.1 c q)
