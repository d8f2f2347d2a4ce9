-- ===== src/Tests/Device.antt =====
-- Runs of the model of dee.cpp/src/cuda_backend_mock.cpp, and the theorem at such inputs.
use dee.Prelude.{◌≡◌, refl, some, List, [], ◌∷◌}
use dee.Map.{find, assign, erase}
use dee.Prefetch.{Memory, copy}
use dee.Device
use dee.Device.{MockDevice, new_device, event_record, event_synchronize, run_copies}
use dee.Device.Sync
use dee.Device.Sync.{Call, run, enqueue, numbered, synchronize-record}

device_program : Unit {0}
unfolding find assign erase copy Device.device_malloc Device.device_free Device.stream_create
    Device.event_create Device.event_record Device.drain_to Device.drain_stream
    Device.event_synchronize Device.memcpy_h2d_async Device.memcpy_d2h_sync Device.run_copies
    Device.stream_synchronize Sync.step Sync.run Sync.enqueue Sync.numbered
device_program = tt

-- Every byte holds its own address.
abbrev memory : Memory
memory x = x

-- One copy of two bytes is queued on stream 1.
abbrev calls : List Call
calls =
    Call.mallocs (some 100) 8
    ∷ Call.creates_stream 1
    ∷ Call.creates_event 2
    ∷ Call.copies_to_device 100 500 2 1
    ∷ []

abbrev synchronized : MockDevice
synchronized =
    event_synchronize
      (enqueue (event_record (run (new_device memory) calls) 2 1) 1 ((102, 600, 2) ∷ [])) 2

first_copied : synchronized.memory 101 ≡ 501
unfolding device_program
first_copied = refl

second_pending : synchronized.memory 102 ≡ 102
unfolding device_program
second_pending = refl

synchronize-record_example :
    ((synchronized.streams 1).pending
      ≡ numbered ((run (new_device memory) calls).streams 1).next_seq ((102, 600, 2) ∷ []))
    × (synchronized.memory
        ≡ run_copies
            ((run (new_device memory) calls).streams 1).pending
            (run (new_device memory) calls).memory)
synchronize-record_example = synchronize-record memory calls 2 1 ((102, 600, 2) ∷ [])
