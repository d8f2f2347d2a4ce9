-- ===== src/Engine/Contents.antt =====
-- What `Engine::forward_layer` of dee.cpp/src/engine.cpp computes with: the bytes of the experts that
-- it uses.
use dee.Prelude.{
  ℕ, ◌+◌, ◌^◌, ◌≤◌, ◌<◌, ◌≡◌, refl, sym, ap, ◌∙◌, ◌⊎◌, inl, inr, Bool, true, false, List, [], ◌∷◌,
  arith, All, Bool-cases, Option-cases, ◌==◌,
}
use mathlib.Core.Path.{subst}
use dee.Map.{find}
use dee.Device.{num_eq}
use dee.Keys.{key_eq}
use dee.Kernels.{Arithmetic, swiglu}
use dee.Cache.{data_of, find_block}
use dee.Cache.Ensure.{key_of}
use dee.Cache.Answer.{data_of-Holds}
use dee.Cache.Layout.{block_bounds}
use dee.Prefetch.{Memory, AsyncPrefetcher, wait}
use dee.Prefetch.Steps.{
  wait-IsStreamed, wait_index, wait_outside, wait_block, touch_arena, touch-IsStreamed,
}
use dee.Engine.{Conversions, EngineState, stage_all, floats_at, use_expert, use_all}
use dee.Engine.Feeding.{IsFed, IsKnown, HasIndex, All-map, stage_all-kept, stage_all-IsFed}

module _ (A : Arithmetic) (greater : A.Float → A.Float → Bool) (C : Conversions A) (place : ℕ → ℕ)
    (n : ℕ) (bytes : ℕ → ℕ → ℕ) where
  -- One use of an expert: it is left out because it has been evicted, or what is computed with is a
  -- block that holds its bytes.
  abbrev pub IsRight : EngineState A greater C → ℕ → (ℕ → A.Float) → ℕ → (ℕ → A.Float) → Type 0
  IsRight s layer x e acc =
      let mem' : Memory = (wait s.prefetcher s.memory layer e).2 in
      let p : ℕ = data_of s.cache layer e in
      ((p ≡ 0) × ((use_expert A greater C s layer x e acc).0 ≡ acc))
      ⊎ (((use_expert A greater C s layer x e acc).0
            ≡ swiglu A (floats_at A greater C mem' p) x s.staged.inter s.staged.hidden acc)
          × ((i : ℕ) → i < n → mem' (p + i) ≡ bytes e i))

  -- And so for every use of the second loop of `forward_layer`.
  abbrev pub AreRight :
      EngineState A greater C → ℕ → (ℕ → A.Float) → List ℕ → (ℕ → A.Float) → Type 0
  AreRight s layer x [] acc = Unit
  AreRight s layer x (e ∷ es) acc =
      let r = use_expert A greater C s layer x e acc in
      IsRight s layer x e acc × AreRight r.1 layer x es r.0

  left_out :
      (s : EngineState A greater C) (layer : ℕ) (x : ℕ → A.Float) (e : ℕ) (acc : ℕ → A.Float)
      → (data_of s.cache layer e == 0) ≡ true
      → (use_expert A greater C s layer x e acc).0 ≡ acc
  unfolding use_expert
  left_out s layer x e acc null = rw (null, use_expert) refl

  computed_with :
      (s : EngineState A greater C) (layer : ℕ) (x : ℕ → A.Float) (e : ℕ) (acc : ℕ → A.Float)
      → (data_of s.cache layer e == 0) ≡ false
      → (use_expert A greater C s layer x e acc).0
        ≡ swiglu A
            (floats_at A greater C (wait s.prefetcher s.memory layer e).2 (data_of s.cache layer e))
            x
            s.staged.inter
            s.staged.hidden
            acc
  unfolding use_expert
  computed_with s layer x e acc here = rw (here, use_expert) refl

  use-IsRight :
      (s : EngineState A greater C) (layer : ℕ) (x : ℕ → A.Float) (e : ℕ) (acc : ℕ → A.Float)
      → IsFed A greater C place n bytes s
      → e < 2 ^ 32
      → HasIndex A greater C place n bytes s layer e
      → IsRight s layer x e acc
  unfolding data_of find_block
  use-IsRight s layer x e acc f small (idx, found) =
      elim (Option-cases (find (key_of layer e) s.cache.blocks)) [
        | inl gone ↦
            let null : data_of s.cache layer e ≡ 0 = rw (gone, data_of, find_block) refl in
            inl (null, left_out s layer x e acc (ap (λ a. a == 0) null))
        | inr (b, held) ↦
            let lies : data_of s.cache layer e ≡ b.ptr =
              data_of-Holds s.cache layer e b f.1.ready.cache_sound held in
            let placed = (block_bounds s.cache (key_of layer e) b f.1.ready.cache_sound held).0 in
            let here : (data_of s.cache layer e == 0) ≡ false =
              ground (arith, lies, placed, f.1.ready.mapped) in
            inr (
              computed_with s layer x e acc here,
              λ i h.
                  ap (λ a. (wait s.prefetcher s.memory layer e).2 (a + i)) lies
                  ∙ wait_block n bytes s.cache s.prefetcher s.memory f.1 layer e idx b small held
                      found i h,
            )
      ]

  use-IsFed :
      (s : EngineState A greater C) (layer e : ℕ) (x acc : ℕ → A.Float)
      → IsFed A greater C place n bytes s
      → IsFed A greater C place n bytes (use_expert A greater C s layer x e acc).1
        × ((k : ℕ)
            → HasIndex A greater C place n bytes s layer k
            → HasIndex A greater C place n bytes (use_expert A greater C s layer x e acc).1 layer k)
  unfolding use_expert
  use-IsFed s layer e x acc f =
      let waited = wait-IsStreamed n bytes s.cache s.prefetcher s.memory f.1 layer e in
      let p' : AsyncPrefetcher = (wait s.prefetcher s.memory layer e).1 in
      elim (Bool-cases (data_of s.cache layer e == 0)) [
        | inl null ↦
            rw (null, use_expert)
              (
                (f.0, waited),
                λ k (idx, h).
                    (idx, wait_index n bytes s.cache s.prefetcher s.memory f.1 layer e layer k ∙ h),
              )
        | inr here ↦
            rw (here, use_expert)
              (
                (
                  f.0,
                  touch-IsStreamed n bytes s.cache p' (wait s.prefetcher s.memory layer e).2 waited
                      layer e,
                ),
                λ k (idx, h).
                    (idx, wait_index n bytes s.cache s.prefetcher s.memory f.1 layer e layer k ∙ h),
              )
      ]

  use-IsKnown :
      (s : EngineState A greater C) (layer e : ℕ) (x acc : ℕ → A.Float) (k : ℕ)
      → IsFed A greater C place n bytes s
      → IsKnown A greater C place n bytes s k
      → IsKnown A greater C place n bytes (use_expert A greater C s layer x e acc).1 k
  unfolding use_expert
  use-IsKnown s layer e x acc k f known =
      let p' : AsyncPrefetcher = (wait s.prefetcher s.memory layer e).1 in
      let mem' : Memory = (wait s.prefetcher s.memory layer e).2 in
      let holds : (i : ℕ) → i < n → mem' (place k + i) ≡ bytes k i = λ i h.
        wait_outside n bytes s.cache s.prefetcher s.memory f.1 layer e (place k + i)
          (elim known.source.outside [
            | inl low ↦ inl (omega (arith, h, low))
            | inr high ↦ inr (omega (arith, high))
          ])
        ∙ known.source.holds i h in
      elim (Bool-cases (data_of s.cache layer e == 0)) [
        | inl null ↦
            rw (null, use_expert)
              (record {
                small = known.small;
                blob = known.blob;
                staged = known.staged;
                source = record {
                  real = known.source.real;
                  outside = known.source.outside;
                  holds = holds;
                };
              })
        | inr here ↦
            rw (here, use_expert)
              (record {
                small = known.small;
                blob = known.blob;
                staged = known.staged;
                source = record {
                  real = known.source.real;
                  outside =
                      subst (λ a. (place k + n ≤ a.base) ⊎ (a.base + a.cap ≤ place k))
                        (sym (touch_arena n bytes s.cache s.prefetcher s.memory f.1 layer e))
                        known.source.outside;
                  holds = holds;
                };
              })
      ]

  use_all-AreRight :
      (s : EngineState A greater C) (layer : ℕ) (x : ℕ → A.Float) (es : List ℕ) (acc : ℕ → A.Float)
      → IsFed A greater C place n bytes s
      → All (λ e. e < 2 ^ 32) es
      → All (HasIndex A greater C place n bytes s layer) es
      → AreRight s layer x es acc
        × IsFed A greater C place n bytes (use_all A greater C s layer x es acc).1
        × ((k : ℕ)
            → IsKnown A greater C place n bytes s k
            → IsKnown A greater C place n bytes (use_all A greater C s layer x es acc).1 k)
  unfolding use_all
  use_all-AreRight s layer x [] acc f small hs = (tt, f, λ k h. h)
  use_all-AreRight s layer x (e ∷ es) acc f small hs =
      let r = use_expert A greater C s layer x e acc in
      let (f', later) = use-IsFed s layer e x acc f in
      let rest = use_all-AreRight r.1 layer x es r.0 f' small.1 (All-map later es hs.1) in
      (
        (use-IsRight s layer x e acc f small.0 hs.0, rest.0),
        rest.1,
        λ k h. rest.2 k (use-IsKnown s layer e x acc k f h),
      )

  -- Where the experts that the Oracle names are staged, each of them is left out of the layer because
  -- it has been evicted again, or computed with from a block that holds exactly its bytes, whatever
  -- transfers wrote there before; and all this is so again for the next layer.
  pub stage_all-use_all :
      (s : EngineState A greater C) (layer : ℕ) (x : ℕ → A.Float) (es : List ℕ) (acc : ℕ → A.Float)
      → IsFed A greater C place n bytes s
      → All (IsKnown A greater C place n bytes s) es
      → let t = stage_all A greater C place s layer s.config.topk es in
        let r = use_all A greater C t layer x es acc in
        AreRight t layer x es acc
        × IsFed A greater C place n bytes r.1
        × All (IsKnown A greater C place n bytes r.1) es
  stage_all-use_all s layer x es acc f ks =
      let (f', hs) = stage_all-IsFed A greater C place n bytes s layer s.config.topk es f ks in
      let t : EngineState A greater C = stage_all A greater C place s layer s.config.topk es in
      let used = use_all-AreRight t layer x es acc f' (All-map (λ k h. h.small) es ks) hs in
      (
        used.0,
        used.1,
        All-map
            (λ k h.
              used.2 k
                (stage_all-kept A greater C place n bytes s layer s.config.topk es k f ks h).0)
            es ks,
      )
