-- ===== src/Prefetch.antt =====
-- The transfers of dee.cpp/src/async_prefetcher.cpp and dee.cpp/include/dee/async_prefetcher.h, as
-- a build without DEE_CUDA makes them: there `cuda_init` fails, `cuda_submit` and `cuda_wait` do
-- nothing, and a copy runs when `wait` or `synchronize_all` comes to it. Memory is a function from
-- addresses to bytes, in which the arena and the host's buffers lie.
pub mod Drain
pub mod Queue
pub mod Issued
pub mod Content
pub mod Final
pub mod Stream
pub mod Steps
pub mod Counts
pub mod Fresh
use dee.Prelude.{
  ℕ, zero, suc, ◌+◌, ◌-◌, ◌*◌, ◌^◌, ◌<◌, ◌≡◌, refl, Bool, true, false, not, ◌&&◌, Option, none,
  some, List, [], ◌∷◌, ◌++◌, ltb, leb, if◌then◌else◌, length, ◌==◌, ◌↔◌, arith,
}
use dee.Map.{Eq, Map, find, assign}
use dee.Keys.{ExpertKey}
use dee.Cache.{VramCacheManager, ensure, data_of}

abbrev pub Memory : Type 0
Memory = ℕ → ℕ

-- Null pointers are 0.
pub record Transfer : Type 0 where
  pub key : ExpertKey
  pub dst : ℕ
  pub src : ℕ
  pub nbytes : ℕ
  pub done : Bool
  pub abandoned : Bool

pub record Stats : Type 0 where
  pub issued : ℕ
  pub waited : ℕ
  pub fallbacks : ℕ

pub record AsyncPrefetcher : Type 0 where
  pub use_cuda : Bool
  pub inflight : List Transfer
  pub key_to_idx : Map ℕ ℕ
  pub next_id : ℕ
  pub stats : Stats

pub ==_iff : (a b : ℕ) → ((a == b) ≡ true) ↔ (a ≡ b)
==_iff a b = ground arith

instance abbrev pub long_eq : Eq ℕ
long_eq = record { beq = ◌==◌; beq_iff = ==_iff }

abbrev pub new_prefetcher : AsyncPrefetcher
new_prefetcher = record {
  use_cuda = false;
  inflight = [];
  key_to_idx = [];
  next_id = 0;
  stats = record { issued = 0; waited = 0; fallbacks = 0 };
}

-- The key of `key_to_idx_`. The two halves share no bit, so that their `^` is their sum.
abbrev pub packed : ℕ → ℕ → ℕ
packed layer expert = layer * 2 ^ 32 + expert

unfoldable pub init : AsyncPrefetcher → Bool → Bool × AsyncPrefetcher
init p use_cuda = (not use_cuda, record p { use_cuda = use_cuda })

unfoldable pub reset : AsyncPrefetcher → AsyncPrefetcher
reset p = record p { inflight = []; key_to_idx = [] }

unfoldable pub find_inflight : AsyncPrefetcher → ℕ → ℕ → Option ℕ
find_inflight p layer expert = find (packed layer expert) p.key_to_idx

abbrev pub new_transfer : ℕ → ℕ → ℕ → ℕ → ℕ → Transfer
new_transfer layer expert dst src nbytes = record {
  key = record { layer = layer; expert = expert };
  dst = dst;
  src = src;
  nbytes = nbytes;
  done = false;
  abandoned = false;
}

-- The end of `prefetch`: the transfer joins the queue, and its key leads to it. Between two resets
-- there are fewer than 2 ^ 31 transfers, so that the index is an `int` as it stands.
unfoldable pub submit : AsyncPrefetcher → ℕ → ℕ → ℕ → ℕ → ℕ → AsyncPrefetcher
submit p layer expert dst src nbytes = record p {
  inflight = p.inflight ++ new_transfer layer expert dst src nbytes ∷ [];
  key_to_idx = assign (packed layer expert) (length p.inflight) p.key_to_idx;
  next_id = p.next_id + 1;
  stats = record (p.stats) { issued = p.stats.issued + 1 };
}

-- The transfer's id, or `none` for -1; and the cache, which `ensure` may have changed either way.
unfoldable pub prefetch :
    VramCacheManager
    → AsyncPrefetcher
    → ℕ
    → ℕ
    → ℕ
    → ℕ
    → ℕ
    → Option ℕ × VramCacheManager × AsyncPrefetcher
prefetch m p layer expert src nbytes priority =
    let (done, m') = ensure m layer expert nbytes priority in
    if done
    then (if data_of m' layer expert == 0
        then (none, m', p)
        else (some p.next_id, m', submit p layer expert (data_of m' layer expert) src nbytes))
    else (none, m', p)

-- memcpy
unfoldable pub copy : Memory → ℕ → ℕ → ℕ → Memory
copy mem dst src nbytes x =
    if leb dst x && ltb x (dst + nbytes) then mem (src + (x - dst)) else mem x

-- The test of `drain_until`.
unfoldable pub is_pending : Transfer → Bool
is_pending t = not t.done && not t.abandoned && ltb 0 t.src && ltb 0 t.dst

-- `drain_until(idx)` with `n` for `idx + 1`: the first `n` transfers, in order.
unfoldable pub drain : ℕ → List Transfer → Memory → List Transfer × Memory
drain zero ts mem = (ts, mem)
drain (suc n) [] mem = ([], mem)
drain (suc n) (t ∷ ts) mem =
    if is_pending t
    then (let (rest, mem') = drain n ts (copy mem t.dst t.src t.nbytes) in
        (record t { done = true } ∷ rest, mem'))
    else (let (rest, mem') = drain n ts mem in (t ∷ rest, mem'))

-- `inflight_[idx].done`; `Queue` shows that the index is in range.
unfoldable pub done_at : ℕ → List Transfer → Bool
done_at i [] = false
done_at zero (t ∷ ts) = t.done
done_at (suc i) (t ∷ ts) = done_at i ts

unfoldable pub wait : AsyncPrefetcher → Memory → ℕ → ℕ → Bool × AsyncPrefetcher × Memory
wait p mem layer expert =
    let p' : AsyncPrefetcher = record p {
      stats = record (p.stats) { waited = p.stats.waited + 1 };
    } in
    elim (find_inflight p layer expert) [
      | none ↦ (
        false,
        record p' { stats = record (p'.stats) { fallbacks = p.stats.fallbacks + 1 } },
        mem,
      )
      | some idx ↦
          if p.use_cuda
          then (true, p', mem)
          else (let (ts, mem') = drain (suc idx) p.inflight mem in
              (done_at idx ts, record p' { inflight = ts }, mem'))
    ]

unfoldable pub synchronize_all : AsyncPrefetcher → Memory → AsyncPrefetcher × Memory
synchronize_all p mem =
    if p.use_cuda
    then (p, mem)
    else (let (ts, mem') = drain (length p.inflight) p.inflight mem in
        (record p { inflight = ts }, mem'))
