-- ===== src/Engine/Feeding.antt =====
-- The first loop of `Engine::forward_layer` of dee.cpp/src/engine.cpp: the experts that the Oracle names
-- join the queue of transfers.
use dee.Prelude.{
  ℕ, ◌-◌, ◌^◌, ◌<◌, ◌≡◌, refl, sym, ap, ◌∙◌, Bool, Option, some, none, List, [], ◌∷◌, length, All,
}
use mathlib.Core.Path.{subst}
use dee.Map.{find}
use dee.Device.{num_eq}
use dee.Keys.{key_eq}
use dee.Kernels.{Arithmetic}
use dee.Cache.{VramCacheManager, data_of}
use dee.Cache.Answer.{ensure_region}
use dee.Prefetch.{AsyncPrefetcher, find_inflight, prefetch}
use dee.Prefetch.Content.{loaded, queued, prefetch_total, own_index}
use dee.Prefetch.Stream.{IsStreamed, IsSource, prefetch-IsStreamed, index_kept}
use dee.Engine.{Conversions, EngineState, staged_blob, stage_expert, stage_all}

pub All-map : {P Q : ℕ → Type 0} → ((k : ℕ) → P k → Q k) → (ks : List ℕ) → All P ks → All Q ks
All-map f [] a = tt
All-map f (k ∷ ks) a = (f k a.0, All-map f ks a.1)

module _ (A : Arithmetic) (greater : A.Float → A.Float → Bool) (C : Conversions A) (place : ℕ → ℕ)
    (n : ℕ) (bytes : ℕ → ℕ → ℕ) where
  abbrev pub State : Type 0
  State = EngineState A greater C

  -- Blobs have `n` bytes, and the transfers so far bring every expert its bytes.
  abbrev pub IsFed : State → Type 0
  IsFed s = (s.blob_bytes ≡ n) × IsStreamed n bytes s.cache s.prefetcher s.memory

  -- An expert that is staged: its blob lies outside the arena and holds its bytes.
  pub record IsKnown (s : State) (expert : ℕ) : Type 0 where
    pub small : expert < 2 ^ 32
    pub blob : ℕ → ℕ
    pub staged : find expert s.staged.staging ≡ some blob
    pub source : IsSource n bytes s.cache s.memory expert (place expert)

  abbrev pub HasIndex : State → ℕ → ℕ → Type 0
  HasIndex s layer expert = (idx : ℕ) × (find_inflight s.prefetcher layer expert ≡ some idx)

  -- The prefetch of a staged expert.
  fed : State → ℕ → ℕ → ℕ → State
  fed s layer e priority = record s {
    cache = loaded n s.cache s.prefetcher layer e (place e) priority;
    prefetcher = queued n s.cache s.prefetcher layer e (place e) priority;
  }

  issued : State → ℕ → ℕ → ℕ → ℕ → Option ℕ × VramCacheManager × AsyncPrefetcher
  issued s layer e priority bytes_each =
      prefetch s.cache s.prefetcher layer e (place e) bytes_each priority

  stage_expert-fed :
      (s : State) (layer e priority : ℕ)
      → IsFed s
      → IsKnown s e
      → stage_expert A greater C place s layer e priority ≡ fed s layer e priority
  unfolding stage_expert fed issued
  stage_expert-fed s layer e priority f k =
      let blob : staged_blob A greater C place s e ≡ (some (place e), s) =
        unfold staged_blob in rw (k.staged, staged_blob) refl in
      let sent = (prefetch_total n s.cache s.prefetcher layer e (place e) priority f.1.ready).0 in
      let issue : Option ℕ × State → State = λ r. elim r.0 [
        | none ↦ r.1
        | some src ↦
            let q = prefetch r.1.cache r.1.prefetcher layer e src r.1.blob_bytes priority in
            record (r.1) { cache = q.1; prefetcher = q.2 }
      ] in
      ap issue blob
      ∙ ap
          (λ b. record s {
            cache = (issued s layer e priority b).1;
            prefetcher = (issued s layer e priority b).2;
          })
          f.0
      ∙ ap (λ q. record s { cache = q.1; prefetcher = q.2 }) sent

  fed-IsFed :
      (s : State) (layer e priority : ℕ) → IsFed s → IsKnown s e → IsFed (fed s layer e priority)
  unfolding fed
  fed-IsFed s layer e priority f k = (
    f.0,
    prefetch-IsStreamed n bytes s.cache s.prefetcher s.memory layer e (place e) priority k.small f.1
        k.source,
  )

  fed-IsKnown :
      (s : State) (layer e priority k : ℕ)
      → IsFed s
      → IsKnown s k
      → IsKnown (fed s layer e priority) k
  unfolding fed
  fed-IsKnown s layer e priority k f known =
      let region = ensure_region s.cache layer e n priority f.1.ready.cache_sound in
      record {
        small = known.small;
        blob = known.blob;
        staged = known.staged;
        source = record {
          real = known.source.real;
          outside = rw (region.0, region.1) known.source.outside;
          holds = known.source.holds;
        };
      }

  fed-HasIndex_self : (s : State) (layer e priority : ℕ) → HasIndex (fed s layer e priority) layer e
  unfolding fed
  fed-HasIndex_self s layer e priority =
      (length s.prefetcher.inflight, own_index n s.cache s.prefetcher layer e (place e) priority)

  fed-HasIndex :
      (s : State) (layer e priority k : ℕ)
      → HasIndex s layer k
      → HasIndex (fed s layer e priority) layer k
  unfolding fed
  fed-HasIndex s layer e priority k (idx, h) =
      index_kept s.prefetcher layer e k
        (data_of (loaded n s.cache s.prefetcher layer e (place e) priority) layer e) (place e) n idx
        h

  -- The first loop of `forward_layer` puts every expert into the queue.
  pub stage_all-kept :
      (s : State) (layer priority : ℕ) (es : List ℕ) (k : ℕ)
      → IsFed s
      → All (IsKnown s) es
      → IsKnown s k
      → IsKnown (stage_all A greater C place s layer priority es) k
        × (HasIndex s layer k → HasIndex (stage_all A greater C place s layer priority es) layer k)
  unfolding stage_all
  stage_all-kept s layer priority [] k f ks known = (known, λ h. h)
  stage_all-kept s layer priority (e ∷ es) k f ks known =
      subst
        (λ x.
          IsKnown (stage_all A greater C place x layer (priority - 1) es) k
          × (HasIndex s layer k
              → HasIndex (stage_all A greater C place x layer (priority - 1) es) layer k))
        (sym (stage_expert-fed s layer e priority f ks.0))
        (let s' : State = fed s layer e priority in
          let later =
            stage_all-kept s' layer (priority - 1) es k (fed-IsFed s layer e priority f ks.0)
              (All-map (λ j. fed-IsKnown s layer e priority j f) es ks.1)
              (fed-IsKnown s layer e priority k f known) in
          (later.0, λ h. later.1 (fed-HasIndex s layer e priority k h)))

  pub stage_all-IsFed :
      (s : State) (layer priority : ℕ) (es : List ℕ)
      → IsFed s
      → All (IsKnown s) es
      → IsFed (stage_all A greater C place s layer priority es)
        × All (HasIndex (stage_all A greater C place s layer priority es) layer) es
  unfolding stage_all
  stage_all-IsFed s layer priority [] f ks = (f, tt)
  stage_all-IsFed s layer priority (e ∷ es) f ks =
      subst
        (λ x.
          IsFed (stage_all A greater C place x layer (priority - 1) es)
          × All (HasIndex (stage_all A greater C place x layer (priority - 1) es) layer) (e ∷ es))
        (sym (stage_expert-fed s layer e priority f ks.0))
        (let s' : State = fed s layer e priority in
          let f' = fed-IsFed s layer e priority f ks.0 in
          let ks' = All-map (λ j. fed-IsKnown s layer e priority j f) es ks.1 in
          let (last, indices) = stage_all-IsFed s' layer (priority - 1) es f' ks' in
          let own =
            stage_all-kept s' layer (priority - 1) es e f' ks'
              (fed-IsKnown s layer e priority e f ks.0) in
          (last, (own.1 (fed-HasIndex_self s layer e priority), indices)))
