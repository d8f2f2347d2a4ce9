-- ===== src/Checkpoint/Inflate.antt =====
-- The loop of `PtLoader::inflate_entry` of dee.cpp/src/pt_loader.cpp goes on at `Z_BUF_ERROR`, which
-- zlib answers where no progress is possible.
use dee.Prelude.{ℕ, zero, suc, ◌<◌, ◌≡◌, ◌≢◌, refl, sym, ◌∙◌, ◌⊎◌, some, [], ◌++◌, arith, inl, inr}
use mathlib.Core.Path.{subst}
use dee.Bytes.{Bytes}
use dee.Checkpoint.{unfinished}
use dee.Checkpoint.Ends.{Ended, Ended-ne}
use dee.Checkpoint.Zip.{
  Zlib, Status, z_ok, stream_end, buf_error, other_error, inflate_rounds, inflate_entry,
}

Status-cases :
    (s : Status) → (s ≡ z_ok) ⊎ ((s ≡ stream_end) ⊎ ((s ≡ buf_error) ⊎ (s ≡ other_error)))
Status-cases z_ok = inl refl
Status-cases stream_end = inr (inl refl)
Status-cases buf_error = inr (inr (inl refl))
Status-cases other_error = inr (inr (inr refl))

module _ (Z : Zlib) where
  open Z use {Stream, inflate_init, inflate}

  -- The stream behind a call.
  abbrev pub next : Stream → Stream
  next s = (inflate s).2

  inflate_rounds_again :
      (f : ℕ) (s : Stream) (out : Bytes)
      → ((inflate s).0 ≡ z_ok) ⊎ ((inflate s).0 ≡ buf_error)
      → inflate_rounds Z (suc f) s out ≡ inflate_rounds Z f (next s) (out ++ (inflate s).1)
  unfolding inflate_rounds
  inflate_rounds_again f s out (inl e) = rw (e, inflate_rounds) refl
  inflate_rounds_again f s out (inr e) = rw (e, inflate_rounds) refl

  -- After some rounds that make progress the stream is as said.
  abbrev pub After : (Stream → Type 0) → ℕ → Stream → Type 0
  After P zero s = P s
  After P (suc k) s = ((inflate s).0 ≡ z_ok) × After P k (next s)

  module _ (Stuck : Stream → Type 0)
      (stays : (s : Stream) → Stuck s → ((inflate s).0 ≡ buf_error) × Stuck (next s)) where
    stuck_rounds :
        (f : ℕ) (s : Stream) (out : Bytes) → Stuck s → inflate_rounds Z f s out ≡ unfinished
    stuck_rounds zero s out h = unfold inflate_rounds in refl
    stuck_rounds (suc f) s out h =
        inflate_rounds_again f s out (inr (stays s h).0)
        ∙ stuck_rounds f (next s) (out ++ (inflate s).1) (stays s h).1

    inflate_rounds-After :
        (k f : ℕ) (s : Stream) (out : Bytes)
        → After Stuck k s
        → inflate_rounds Z f s out ≡ unfinished
    inflate_rounds-After zero f s out h = stuck_rounds f s out h
    inflate_rounds-After (suc k) zero s out h = unfold inflate_rounds in refl
    inflate_rounds-After (suc k) (suc f) s out h =
        inflate_rounds_again f s out (inl h.0)
        ∙ inflate_rounds-After k f (next s) (out ++ (inflate s).1) h.1

  -- A compressed entry whose stream, after some calls with progress, makes none any more, as at the
  -- end of truncated data, is inflated for ever.
  pub inflate_entry_stalls :
      (Stuck : Stream → Type 0)
      → ((s : Stream) → Stuck s → ((inflate s).0 ≡ buf_error) × Stuck (next s))
      → (k fuel : ℕ) (src : Bytes) (s : Stream) → inflate_init src ≡ some s
      → After Stuck k s
      → inflate_entry Z fuel src ≡ unfinished
  unfolding inflate_entry
  inflate_entry_stalls Stuck stays k fuel src s e h =
      rw (e, inflate_entry) (inflate_rounds-After Stuck stays k fuel s [] h)

  module _ (left : Stream → ℕ)
      (progress : (s : Stream) → (inflate s).0 ≡ z_ok → left (next s) < left s)
      (goes_on : (s : Stream) → (inflate s).0 ≢ buf_error) where
    inflate_rounds-Ended :
        (f : ℕ) (s : Stream) (out : Bytes) → left s < f → Ended (inflate_rounds Z f s out)
    unfolding inflate_rounds
    inflate_rounds-Ended zero s out h = absurd (omega (arith, h))
    inflate_rounds-Ended (suc f) s out h = elim (Status-cases (inflate s).0) [
      | inl ok ↦
          subst Ended (sym (inflate_rounds_again f s out (inl ok))) (
            inflate_rounds-Ended f (next s) (out ++ (inflate s).1)
              (omega (arith, h, progress s ok)))
      | inr (inl e) ↦ rw (e, inflate_rounds) tt
      | inr (inr (inl e)) ↦ absurd (goes_on s e)
      | inr (inr (inr e)) ↦ rw (e, inflate_rounds) tt
    ]

  -- Where every call with progress leaves less to do, and none is without progress, the loop ends.
  inflate_entry_ends :
      (left : Stream → ℕ)
      → ((s : Stream) → (inflate s).0 ≡ z_ok → left (next s) < left s)
      → ((s : Stream) → (inflate s).0 ≢ buf_error)
      → (fuel : ℕ) (src : Bytes) (s : Stream) → inflate_init src ≡ some s
      → left s < fuel
      → inflate_entry Z fuel src ≢ unfinished
  unfolding inflate_entry
  inflate_entry_ends left progress goes_on fuel src s e h =
      rw (e, inflate_entry)
        (Ended-ne (inflate_rounds Z fuel s [])
          (inflate_rounds-Ended left progress goes_on fuel s [] h))
