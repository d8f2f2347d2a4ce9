-- ===== src/Prefetch/Issued.antt =====
-- What `wait` of dee.cpp/src/async_prefetcher.cpp answers, over one cache and one queue: that a
-- transfer was issued, not that the cache still has the expert.
use dee.Prelude.{
  ℕ, zero, suc, ◌^◌, ◌<◌, ◌≡◌, refl, sym, ◌∙◌, ◌⊎◌, inl, inr, Bool, true, false, ◌||◌, ◌&&◌, Option,
  none, some, List, [], ◌∷◌, ◌==◌, arith, Bool-cases, Option-cases, length, get_elem?, All,
  All-snoc,
}
use dee.Map.{find}
use dee.Map.Laws.{find-assign}
use dee.Keys.{ExpertKey, key_eq}
use dee.Cache.{VramCacheManager, ensure, data_of}
use dee.Cache.Run.{Call}
use dee.Cache.Run
use dee.Prefetch.{
  Memory, Transfer, AsyncPrefetcher, long_eq, packed, reset, find_inflight, submit, new_prefetcher,
  new_transfer, prefetch, copy, is_pending, drain, wait, synchronize_all,
}
use dee.Prefetch.Drain.{drain-done_at}
use dee.Prefetch.Queue.{
  IsIndexed, prefetch-IsIndexed, wait-IsIndexed, synchronize_all-IsIndexed, reset-IsIndexed,
}

-- The cache, the queue that fills it, and memory.
pub record Loader : Type 0 where
  pub cache : VramCacheManager
  pub queue : AsyncPrefetcher
  pub memory : Memory

abbrev pub new_loader : VramCacheManager → Memory → Loader
new_loader m mem = record { cache = m; queue = new_prefetcher; memory = mem }

-- The calls of the prefetcher, and those of the cache besides.
pub data Request : Type 0 where
  prefetches : (layer expert src nbytes priority : ℕ) → Request
  waits : (layer expert : ℕ) → Request
  synchronizes : Request
  resets : Request
  calls : Call → Request

unfoldable pub serve : Loader → Request → Loader
serve s (prefetches layer expert src nbytes priority) =
    let (id, m, p) = prefetch s.cache s.queue layer expert src nbytes priority in
    record s { cache = m; queue = p }
serve s (waits layer expert) =
    let (answer, p, mem) = wait s.queue s.memory layer expert in
    record s { queue = p; memory = mem }
serve s synchronizes =
    let (p, mem) = synchronize_all s.queue s.memory in record s { queue = p; memory = mem }
serve s resets = record s { queue = reset s.queue }
serve s (calls c) = record s { cache = Run.step s.cache c }

unfoldable pub serve_all : Loader → List Request → Loader
serve_all s [] = s
serve_all s (r ∷ rs) = serve_all (serve s r) rs

-- The experts for which a prefetch has answered with an id since the last reset.
unfoldable pub issued_after : Loader → Request → List ExpertKey → List ExpertKey
issued_after s (prefetches layer expert src nbytes priority) ks =
    elim (prefetch s.cache s.queue layer expert src nbytes priority).0 [
      | none ↦ ks
      | some id ↦ record { layer = layer; expert = expert } ∷ ks
    ]
issued_after s (waits layer expert) ks = ks
issued_after s synchronizes ks = ks
issued_after s resets ks = []
issued_after s (calls c) ks = ks

unfoldable pub issued : Loader → List Request → List ExpertKey → List ExpertKey
issued s [] ks = ks
issued s (r ∷ rs) ks = issued (serve s r) rs (issued_after s r ks)

abbrev pub has : ExpertKey → List ExpertKey → Bool
has k [] = false
has k (j ∷ js) = key_eq.beq j k || has k js

-- A prefetch names an `int` and a source.
abbrev pub IsProper : Request → Type 0
IsProper (prefetches layer expert src nbytes priority) = (expert < 2 ^ 32) × (0 < src)
IsProper _ = Unit

abbrev IsLive : Transfer → Type 0
IsLive t = (t.done ≡ true) ⊎ (is_pending t ≡ true)

drain-IsLive :
    (n : ℕ) (ts : List Transfer) (mem : Memory) → All IsLive ts → All IsLive (drain n ts mem).0
unfolding drain
drain-IsLive zero ts mem a = a
drain-IsLive (suc n) [] mem a = tt
drain-IsLive (suc n) (t ∷ ts) mem a = elim (Bool-cases (is_pending t)) [
  | inl runs ↦ rw runs (inl refl, drain-IsLive n ts (copy mem t.dst t.src t.nbytes) a.1)
  | inr rests ↦ rw rests (a.0, drain-IsLive n ts mem a.1)
]

All-get_elem? :
    (ts : List Transfer) (i : ℕ) (t : Transfer) → All IsLive ts → get_elem? ts i ≡ some t → IsLive t
All-get_elem? [] i t a e = absurd (cc e)
All-get_elem? (u ∷ ts) zero t a e = let same : u ≡ t = cc e in rw⁻¹ same a.0
All-get_elem? (u ∷ ts) (suc i) t a e = All-get_elem? ts i t a.1 e

abbrev is_some {ℓ} : {A : Type ℓ} → Option A → Bool
is_some none = false
is_some (some a) = true

-- The queue knows exactly the experts that were issued, and none of their transfers is stuck.
record IsSound (p : AsyncPrefetcher) (ks : List ExpertKey) : Type 0 where
  host : p.use_cuda ≡ false
  indexed : IsIndexed p
  live : All IsLive p.inflight
  known :
      (layer expert : ℕ)
      → expert < 2 ^ 32
      → is_some (find_inflight p layer expert) ≡ has (record { layer = layer; expert = expert }) ks

-- Two experts share a key of `key_to_idx_` only if they are the same.
packed_same :
    (layer expert l e : ℕ)
    → expert < 2 ^ 32
    → e < 2 ^ 32
    → (packed layer expert == packed l e) ≡ (layer == l && expert == e)
packed_same layer expert l e a b = ground (arith, a, b)

submit-IsSound :
    (p : AsyncPrefetcher) (layer expert dst src nbytes : ℕ) (ks : List ExpertKey)
    → expert < 2 ^ 32
    → 0 < src
    → 0 < dst
    → IsIndexed (submit p layer expert dst src nbytes)
    → IsSound p ks
    → IsSound
        (submit p layer expert dst src nbytes)
        (record { layer = layer; expert = expert } ∷ ks)
unfolding submit find_inflight is_pending
submit-IsSound p layer expert dst src nbytes ks small s d q g = record {
  host = g.host;
  indexed = q;
  live =
      All-snoc IsLive p.inflight (new_transfer layer expert dst src nbytes) g.live
        (inr (ground (arith, s, d)));
  known = λ l e h.
      let entered =
        find-assign (packed layer expert) (packed l e) (length p.inflight) p.key_to_idx in
      let before = g.known l e h in
      elim (Bool-cases (packed layer expert == packed l e)) [
        | inl mine ↦
            let same = sym (packed_same layer expert l e small h) ∙ mine in
            rw (entered, mine, same) refl
        | inr other ↦
            let differ = sym (packed_same layer expert l e small h) ∙ other in
            rw (entered, other, differ) before
      ];
}

prefetch-IsSound :
    (m : VramCacheManager) (p : AsyncPrefetcher) (layer expert src nbytes priority : ℕ)
    (ks : List ExpertKey)
    → expert < 2 ^ 32
    → 0 < src
    → IsSound p ks
    → IsSound
        (prefetch m p layer expert src nbytes priority).2
        (elim (prefetch m p layer expert src nbytes priority).0 [
          | none ↦ ks
          | some id ↦ record { layer = layer; expert = expert } ∷ ks
        ])
unfolding prefetch
prefetch-IsSound m p layer expert src nbytes priority ks small s g =
    let (done, m') = ensure m layer expert nbytes priority in
    let d = data_of m' layer expert in
    let q = prefetch-IsIndexed m p layer expert src nbytes priority g.indexed in
    elim (Bool-cases done) [
      | inr refused ↦ rw (refused, prefetch) g
      | inl made ↦ elim (Bool-cases (d == 0)) [
        | inl null ↦ rw (made, null, prefetch) g
        | inr mapped ↦
            rw (made, mapped, prefetch)
              (submit-IsSound p layer expert d src nbytes ks small s (ground (arith, mapped))
                (rw (made, mapped, prefetch) at q) g)
      ]
    ]

wait-IsSound :
    (p : AsyncPrefetcher) (mem : Memory) (layer expert : ℕ) (ks : List ExpertKey)
    → IsSound p ks
    → IsSound (wait p mem layer expert).1 ks
unfolding wait find_inflight
wait-IsSound p mem layer expert ks g =
    let q = wait-IsIndexed p mem layer expert g.indexed in
    elim (Option-cases (find_inflight p layer expert)) [
      | inl absent ↦
          rw (absent, wait)
            (record {
              host = g.host;
              indexed = record { leads = g.indexed.leads };
              live = g.live;
              known = g.known;
            })
      | inr (idx, e) ↦
          rw (e, g.host, wait)
            (record {
              host = refl;
              indexed = rw (e, g.host, wait) at q;
              live = drain-IsLive (suc idx) p.inflight mem g.live;
              known = g.known;
            })
    ]

synchronize_all-IsSound :
    (p : AsyncPrefetcher) (mem : Memory) (ks : List ExpertKey)
    → IsSound p ks
    → IsSound (synchronize_all p mem).0 ks
unfolding synchronize_all find_inflight
synchronize_all-IsSound p mem ks g =
    let q = synchronize_all-IsIndexed p mem g.indexed in
    rw (g.host, synchronize_all)
      (record {
        host = refl;
        indexed = rw (g.host, synchronize_all) at q;
        live = drain-IsLive (length p.inflight) p.inflight mem g.live;
        known = g.known;
      })

reset-IsSound : (p : AsyncPrefetcher) (ks : List ExpertKey) → IsSound p ks → IsSound (reset p) []
unfolding reset find_inflight find
reset-IsSound p ks g = record {
  host = g.host;
  indexed = unfold reset in reset-IsIndexed p;
  live = tt;
  known = λ l e h. refl;
}

-- The answer, where the queue is sound.
wait-known :
    (p : AsyncPrefetcher) (mem : Memory) (layer expert : ℕ) (ks : List ExpertKey)
    → IsSound p ks
    → (wait p mem layer expert).0 ≡ is_some (find_inflight p layer expert)
unfolding wait
wait-known p mem layer expert ks g = elim (Option-cases (find_inflight p layer expert)) [
  | inl absent ↦ rw (absent, wait) refl
  | inr (idx, e) ↦
      let (t, there, _) = g.indexed.leads (packed layer expert) idx (unfold find_inflight in e) in
      rw (e, g.host, wait)
        (drain-done_at idx idx p.inflight mem t there (omega arith)
          (All-get_elem? p.inflight idx t g.live there))
]

serve-IsSound :
    (s : Loader) (r : Request) (ks : List ExpertKey)
    → IsProper r
    → IsSound s.queue ks
    → IsSound (serve s r).queue (issued_after s r ks)
unfolding serve issued_after
serve-IsSound s (prefetches layer expert src nbytes priority) ks proper g =
    prefetch-IsSound s.cache s.queue layer expert src nbytes priority ks proper.0 proper.1 g
serve-IsSound s (waits layer expert) ks proper g = wait-IsSound s.queue s.memory layer expert ks g
serve-IsSound s synchronizes ks proper g = synchronize_all-IsSound s.queue s.memory ks g
serve-IsSound s resets ks proper g = reset-IsSound s.queue ks g
serve-IsSound s (calls c) ks proper g = g

serve_all-IsSound :
    (s : Loader) (rs : List Request) (ks : List ExpertKey)
    → All IsProper rs
    → IsSound s.queue ks
    → IsSound (serve_all s rs).queue (issued s rs ks)
unfolding serve_all issued
serve_all-IsSound s [] ks proper g = g
serve_all-IsSound s (r ∷ rs) ks proper g =
    serve_all-IsSound (serve s r) rs (issued_after s r ks) proper.1
      (serve-IsSound s r ks proper.0 g)

-- After any history of calls on a cache and a new prefetcher without CUDA, in which each prefetch
-- names an `int` and a source, `wait` answers true exactly for the experts that a prefetch has issued since the
-- last reset: also for one that the cache has evicted again, and never for one that is resident
-- without a prefetch.
pub wait-issued :
    (m : VramCacheManager) (mem : Memory) (rs : List Request) (layer expert : ℕ)
    → All IsProper rs
    → expert < 2 ^ 32
    → (wait
        (serve_all (new_loader m mem) rs).queue
        (serve_all (new_loader m mem) rs).memory
        layer
        expert).0
      ≡ has (record { layer = layer; expert = expert }) (issued (new_loader m mem) rs [])
unfolding find_inflight find
wait-issued m mem rs layer expert proper small =
    let s : Loader = new_loader m mem in
    let new : IsSound new_prefetcher [] = record {
      host = refl;
      indexed = record { leads = λ k i e. cc e };
      live = tt;
      known = λ l e h. refl;
    } in
    let g = serve_all-IsSound s rs [] proper new in
    wait-known (serve_all s rs).queue (serve_all s rs).memory layer expert (issued s rs []) g
    ∙ g.known layer expert small
