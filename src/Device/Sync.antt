-- ===== src/Device/Sync.antt =====
-- What an event of dee.cpp/src/cuda_backend_mock.cpp waits for.
use dee.Prelude.{
  ℕ, suc, ◌+◌, ◌≡◌, refl, sym, ◌∙◌, ap, Option, none, some, List, [], ◌∷◌, ◌++◌, arith, ◌==◌,
  Bool-cases, Option-cases, inl, inr,
}
use mathlib.Core.Path.{subst}
use mathlib.Core.List.{append-nil, append_assoc}
use dee.Map.{find}
use dee.Prefetch.{Memory}
use dee.Device.{
  MockCopy, MockStream, MockDevice, put, new_stream, new_device, num_eq, device_malloc, device_free,
  stream_create, event_create, event_record, drain_to, drain_stream, event_synchronize,
  memcpy_h2d_async, memcpy_d2h_sync, run_copies, stream_synchronize,
}
use dee.Device.Fifo.{Rises, Rises-snoc, drain_to_mark, drain_to-Rises}

abbrev pub IsFifo : MockStream → Type 0
IsFifo st = Rises 0 st.next_seq st.pending

put_same : {A : Type 0} (s : ℕ) (v : A) (t : ℕ → A) → put s v t s ≡ v
put_same s v t = ground arith

put_keeps :
    {A : Type 0} (P : A → Type 0) (s : ℕ) (v : A) (t : ℕ → A)
    → ((x : ℕ) → P (t x))
    → P v
    → (x : ℕ) → P (put s v t x)
put_keeps P s v t h p x = elim (Bool-cases (x == s)) [
  | inl same ↦ rw same p
  | inr other ↦ rw other (h x)
]

pub data Call : Type 0 where
  mallocs : Option ℕ → ℕ → Call
  frees : ℕ → Call
  creates_stream : ℕ → Call
  creates_event : ℕ → Call
  records : ℕ → ℕ → Call
  synchronizes_event : ℕ → Call
  copies_to_device : ℕ → ℕ → ℕ → ℕ → Call
  copies_to_host : ℕ → ℕ → ℕ → Call
  synchronizes_stream : ℕ → Call

unfoldable pub step : MockDevice → Call → MockDevice
step d (mallocs p bytes) = (device_malloc (λ _. p) d bytes).1
step d (frees ptr) = device_free d ptr
step d (creates_stream s) = stream_create d s
step d (creates_event e) = event_create d e
step d (records e s) = event_record d e s
step d (synchronizes_event e) = event_synchronize d e
step d (copies_to_device dst src bytes s) = memcpy_h2d_async d dst src bytes s
step d (copies_to_host dst src bytes) = memcpy_d2h_sync d dst src bytes
step d (synchronizes_stream s) = stream_synchronize d s

unfoldable pub run : MockDevice → List Call → MockDevice
run d [] = d
run d (c ∷ cs) = run (step d c) cs

drain_stream-IsFifo :
    (d : MockDevice) (s mark : ℕ)
    → ((x : ℕ) → IsFifo (d.streams x))
    → (x : ℕ) → IsFifo ((drain_stream d s mark).streams x)
unfolding drain_stream
drain_stream-IsFifo d s mark h =
    put_keeps IsFifo s _ d.streams h
      (drain_to-Rises mark 0 (d.streams s).next_seq (d.streams s).pending d.memory (h s))

step-IsFifo :
    (d : MockDevice) (c : Call)
    → ((x : ℕ) → IsFifo (d.streams x))
    → (x : ℕ) → IsFifo ((step d c).streams x)
unfolding step device_malloc device_free stream_create event_create event_record event_synchronize
    memcpy_h2d_async memcpy_d2h_sync stream_synchronize
step-IsFifo d (mallocs none bytes) h = h
step-IsFifo d (mallocs (some p) bytes) h = h
step-IsFifo d (frees ptr) h = elim (Option-cases (find ptr d.allocs)) [
  | inl n ↦ rw (n, step, device_free) h
  | inr (b, e) ↦ rw (e, step, device_free) h
]
step-IsFifo d (creates_stream s) h = put_keeps IsFifo s new_stream d.streams h (omega arith)
step-IsFifo d (creates_event e) h = h
step-IsFifo d (records e s) h = h
step-IsFifo d (synchronizes_event e) h = elim (Option-cases (d.events e).stream) [
  | inl n ↦ rw (n, step, event_synchronize) h
  | inr (s, m) ↦ rw (m, step, event_synchronize) (drain_stream-IsFifo d s (d.events e).watermark h)
]
step-IsFifo d (copies_to_device dst src bytes s) h =
    put_keeps IsFifo s _ d.streams h
      (Rises-snoc 0 (d.streams s).next_seq (d.streams s).pending _ (h s) refl)
step-IsFifo d (copies_to_host dst src bytes) h = h
step-IsFifo d (synchronizes_stream s) h = put_keeps IsFifo s _ d.streams h (omega arith)

run-IsFifo :
    (d : MockDevice) (cs : List Call)
    → ((x : ℕ) → IsFifo (d.streams x))
    → (x : ℕ) → IsFifo ((run d cs).streams x)
unfolding run
run-IsFifo d [] h = h
run-IsFifo d (c ∷ cs) h = run-IsFifo (step d c) cs (step-IsFifo d c h)

-- Copies queued on one stream, one after the other.
unfoldable pub enqueue : MockDevice → ℕ → List (ℕ × ℕ × ℕ) → MockDevice
enqueue d s [] = d
enqueue d s ((dst, src, bytes) ∷ cs) = enqueue (memcpy_h2d_async d dst src bytes s) s cs

unfoldable pub numbered : ℕ → List (ℕ × ℕ × ℕ) → List MockCopy
numbered n [] = []
numbered n ((dst, src, bytes) ∷ cs) =
    record { dst = dst; src = src; bytes = bytes; seq = n } ∷ numbered (n + 1) cs

record Queued (d : MockDevice) (s : ℕ) (cs : List (ℕ × ℕ × ℕ)) (after : MockDevice) : Type 0 where
  events_same : after.events ≡ d.events
  memory_same : after.memory ≡ d.memory
  pending_now :
      (after.streams s).pending ≡ (d.streams s).pending ++ numbered (d.streams s).next_seq cs

enqueue-Queued : (d : MockDevice) (s : ℕ) (cs : List (ℕ × ℕ × ℕ)) → Queued d s cs (enqueue d s cs)
unfolding enqueue numbered memcpy_h2d_async
enqueue-Queued d s [] = record {
  events_same = refl;
  memory_same = refl;
  pending_now = sym (append-nil (d.streams s).pending);
}
enqueue-Queued d s ((dst, src, bytes) ∷ cs) =
    let q = enqueue-Queued (memcpy_h2d_async d dst src bytes s) s cs in
    let st : MockStream = d.streams s in
    let c : MockCopy = record { dst = dst; src = src; bytes = bytes; seq = st.next_seq } in
    let st' : MockStream = record { pending = st.pending ++ c ∷ []; next_seq = st.next_seq + 1 } in
    record {
      events_same = q.events_same;
      memory_same = q.memory_same;
      pending_now =
          q.pending_now
          ∙ ap (λ x. x.pending ++ numbered x.next_seq cs) (put_same s st' d.streams)
          ∙ append_assoc st.pending (c ∷ []) (numbered (st.next_seq + 1) cs);
    }

numbered-Rises : (n : ℕ) (cs : List (ℕ × ℕ × ℕ)) → (hi : ℕ) × Rises n hi (numbered n cs)
unfolding numbered
numbered-Rises n [] = (n, omega arith)
numbered-Rises n (c ∷ cs) =
    let (hi, r) = numbered-Rises (n + 1) cs in
    let e : suc n ≡ n + 1 = omega arith in
    (hi, (omega arith, subst (λ x. Rises x hi (numbered (n + 1) cs)) (sym e) r))

drain_stream_exact :
    (d : MockDevice) (s mark : ℕ) (before later : List MockCopy)
    → (d.streams s).pending ≡ before ++ later
    → drain_to mark (before ++ later) d.memory ≡ (later, run_copies before d.memory)
    → (((drain_stream d s mark).streams s).pending ≡ later)
      × ((drain_stream d s mark).memory ≡ run_copies before d.memory)
unfolding drain_stream
drain_stream_exact d s mark before later p q =
    let r : drain_to mark (d.streams s).pending d.memory ≡ (later, run_copies before d.memory) =
      ap (λ x. drain_to mark x d.memory) p ∙ q in
    (ap (λ x. x.pending) (put_same s _ d.streams) ∙ ap (λ x. x.0) r, ap (λ x. x.1) r)

synchronize-at :
    (d : MockDevice) (e s mark : ℕ)
    → d.events e ≡ record { stream = some s; watermark = mark }
    → event_synchronize d e ≡ drain_stream d s mark
unfolding event_synchronize
synchronize-at d e s mark h = ground (arith, h)

synchronize-marked :
    (d : MockDevice) (e s : ℕ) (later : List (ℕ × ℕ × ℕ))
    → IsFifo (d.streams s)
    → (((event_synchronize (enqueue (event_record d e s) s later) e).streams s).pending
        ≡ numbered (d.streams s).next_seq later)
      × ((event_synchronize (enqueue (event_record d e s) s later) e).memory
          ≡ run_copies (d.streams s).pending d.memory)
unfolding event_record
synchronize-marked d e s later h =
    let marked : MockDevice = event_record d e s in
    let st : MockStream = d.streams s in
    let q : Queued marked s later (enqueue marked s later) = enqueue-Queued marked s later in
    let (hi, rises) = numbered-Rises st.next_seq later in
    let event : (enqueue marked s later).events e
        ≡ record { stream = some s; watermark = st.next_seq } =
      ap (λ x. x e) q.events_same ∙ put_same e _ d.events in
    let after : MockDevice = enqueue marked s later in
    let drains : event_synchronize after e ≡ drain_stream after s st.next_seq =
      synchronize-at after e s st.next_seq event in
    let (left, ran) =
      drain_stream_exact after s st.next_seq st.pending (numbered st.next_seq later) q.pending_now (
        drain_to_mark 0 st.next_seq hi st.pending (numbered st.next_seq later) after.memory h
          rises) in
    (
      ap (λ x. (x.streams s).pending) drains ∙ left,
      ap (λ x. x.memory) drains ∙ ran ∙ ap (run_copies st.pending) q.memory_same,
    )

-- Synchronizing with an event runs, in order, the copies that its stream held when the event was
-- recorded, and no copy queued on the stream after that, whatever was called before.
pub synchronize-record :
    (mem : Memory) (cs : List Call) (e s : ℕ) (later : List (ℕ × ℕ × ℕ))
    → (((event_synchronize (enqueue (event_record (run (new_device mem) cs) e s) s later) e).streams
          s).pending
        ≡ numbered ((run (new_device mem) cs).streams s).next_seq later)
      × ((event_synchronize (enqueue (event_record (run (new_device mem) cs) e s) s later) e).memory
          ≡ run_copies
              ((run (new_device mem) cs).streams s).pending
              (run (new_device mem) cs).memory)
synchronize-record mem cs e s later =
    synchronize-marked (run (new_device mem) cs) e s later
      (run-IsFifo (new_device mem) cs (λ _. omega arith) s)
