-- ===== src/Device.antt =====
-- The mock device of dee.cpp/src/cuda_backend_mock.cpp, `class MockCudaDevice`: copies to the device
-- wait on a stream, and an event is a mark in a stream. A stream and an event are named by their
-- addresses, and the model keeps each under its name, since an event points to its stream.
pub mod Fifo
pub mod Sync
use dee.Prelude.{
  ◌↔◌, ℕ, suc, ◌+◌, ◌≡◌, refl, Bool, true, Option, none, some, List, [], ◌∷◌, ◌++◌, ltb, ◌==◌,
  arith, if◌then◌else◌,
}
use dee.Map.{Eq, Map, find, assign, erase}
use dee.Prefetch.{Memory, copy}

pub num_beq_iff : (a b : ℕ) → ((a == b) ≡ true) ↔ (a ≡ b)
num_beq_iff a b = ground arith

instance abbrev pub num_eq : Eq ℕ
num_eq = record { beq = λ a b. a == b; beq_iff = num_beq_iff }

pub record MockCopy : Type 0 where
  pub dst : ℕ
  pub src : ℕ
  pub bytes : ℕ
  pub seq : ℕ

-- The front of `pending` is the oldest copy.
pub record MockStream : Type 0 where
  pub pending : List MockCopy
  pub next_seq : ℕ

pub record MockEvent : Type 0 where
  pub stream : Option ℕ
  pub watermark : ℕ

pub record MockDevice : Type 0 where
  pub allocs : Map ℕ ℕ
  pub streams : ℕ → MockStream
  pub events : ℕ → MockEvent
  pub memory : Memory

abbrev pub put : {A : Type 0} → ℕ → A → (ℕ → A) → ℕ → A
put name value table x = if x == name then value else table x

abbrev pub new_stream : MockStream
new_stream = record { pending = []; next_seq = 0 }

abbrev pub new_event : MockEvent
new_event = record { stream = none; watermark = 0 }

abbrev pub new_device : Memory → MockDevice
new_device memory = record {
  allocs = [];
  streams = λ _. new_stream;
  events = λ _. new_event;
  memory = memory;
}

-- `operator_new` is the allocation that does not throw; `none` is a null pointer.
unfoldable pub device_malloc : (ℕ → Option ℕ) → MockDevice → ℕ → Option ℕ × MockDevice
device_malloc operator_new d bytes = elim (operator_new (if bytes == 0 then 1 else bytes)) [
  | none ↦ (none, d)
  | some p ↦ (some p, record d { allocs = assign p bytes d.allocs })
]

unfoldable pub device_free : MockDevice → ℕ → MockDevice
device_free d ptr = elim (find ptr d.allocs) [
  | none ↦ d
  | some _ ↦ record d { allocs = erase ptr d.allocs }
]

-- A new object at an address that the allocator chose.
unfoldable pub stream_create : MockDevice → ℕ → MockDevice
stream_create d s = record d { streams = put s new_stream d.streams }

unfoldable pub event_create : MockDevice → ℕ → MockDevice
event_create d e = record d { events = put e new_event d.events }

unfoldable pub event_record : MockDevice → ℕ → ℕ → MockDevice
event_record d e s = record d {
  events = put e (record { stream = some s; watermark = (d.streams s).next_seq }) d.events;
}

-- The loop of `event_synchronize`: what is left of the queue, and the memory.
unfoldable pub drain_to : ℕ → List MockCopy → Memory → List MockCopy × Memory
drain_to watermark [] mem = ([], mem)
drain_to watermark (c ∷ q) mem =
    let rest : List MockCopy × Memory = drain_to watermark q (copy mem c.dst c.src c.bytes) in
    if ltb c.seq watermark then rest else (c ∷ q, mem)

unfoldable pub drain_stream : MockDevice → ℕ → ℕ → MockDevice
drain_stream d s watermark =
    let (left, mem) = drain_to watermark (d.streams s).pending d.memory in
    record d { streams = put s (record (d.streams s) { pending = left }) d.streams; memory = mem }

unfoldable pub event_synchronize : MockDevice → ℕ → MockDevice
event_synchronize d e = elim ((d.events e).stream) [
  | none ↦ d
  | some s ↦ drain_stream d s (d.events e).watermark
]

unfoldable pub memcpy_h2d_async : MockDevice → ℕ → ℕ → ℕ → ℕ → MockDevice
memcpy_h2d_async d dst src bytes s =
    let st : MockStream = d.streams s in
    record d {
      streams =
          put s
            (record {
              pending =
                  st.pending
                  ++ record { dst = dst; src = src; bytes = bytes; seq = st.next_seq } ∷ [];
              next_seq = st.next_seq + 1;
            })
            d.streams;
    }

unfoldable pub memcpy_d2h_sync : MockDevice → ℕ → ℕ → ℕ → MockDevice
memcpy_d2h_sync d dst src bytes = record d { memory = copy d.memory dst src bytes }

-- The copies of a list, in order.
unfoldable pub run_copies : List MockCopy → Memory → Memory
run_copies [] mem = mem
run_copies (c ∷ cs) mem = run_copies cs (copy mem c.dst c.src c.bytes)

unfoldable pub stream_synchronize : MockDevice → ℕ → MockDevice
stream_synchronize d s = record d {
  streams = put s (record (d.streams s) { pending = [] }) d.streams;
  memory = run_copies (d.streams s).pending d.memory;
}
