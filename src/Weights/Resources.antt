-- ===== src/Weights/Resources.antt =====
-- The descriptors and the mappings that `WeightMmap` of dee.cpp/src/weight_mmap.cpp takes and gives
-- back over a history of `open` and `close`.
use dee.Prelude.{
  ℕ, ◌≡◌, ◌≢◌, refl, sym, ap, ◌∙◌, Bool, true, false, ◌&&◌, Option, none, some, ◌||◌, leb, add_size,
  size_limit, ◌+◌, List, [], ◌∷◌, arith, inl, inr, Bool-cases, Option-cases, ◌==◌, ltb,
  if◌then◌else◌,
}
use dee.Map.{find}
use dee.Prefetch.{Memory}
use dee.Json.{Text, Value, Outcome, done, thrown, out_of_fuel, parse}
use dee.Weights.{
  header_length, read_bytes, object_of, enter_header, Call, open_call, close_call, mmap_call,
  munmap_call, ◌>>=◌, Os, WeightMmap, unmap, close, map_file, parse_header_json, read_header,
  open_file, open_with, lookup, no_view, text_key,
}
use dee.Weights.Lookup.{lookup-none}

-- The open descriptor and the mapping with its size.
abbrev pub Holdings : Type 0
Holdings = Option ℕ × Option (ℕ × ℕ)

-- What a call does to them. A second descriptor or mapping would leak the first, and only what is
-- held can be given back.
abbrev pub after : Call → Holdings → Option Holdings
after (open_call fd) (none, m) = some (some fd, m)
after (open_call fd) (some d, m) = none
after (close_call fd) (none, m) = none
after (close_call fd) (some d, m) = if d == fd then some (none, m) else none
after (mmap_call a n) (d, none) = some (d, some (a, n))
after (mmap_call a n) (d, some m) = none
after (munmap_call a n) (d, none) = none
after (munmap_call a n) (d, some (b, k)) = if (a == b) && (n == k) then some (d, none) else none

unfoldable pub replay : List Call → Option Holdings
replay [] = some (none, none)
replay (c ∷ cs) = replay cs >>= after c

-- What the members name.
abbrev pub held : WeightMmap → Holdings
held m = (m.fd, if m.base == 0 then none else some (m.base, m.size))

-- The calls so far were in order, and what is held is what the members name.
abbrev pub IsHeld : WeightMmap → Type 0
IsHeld m = replay m.calls ≡ some (held m)

if_true {ℓ} : {A : Type ℓ} {b : Bool} {x : A} (y : A) → b ≡ true → (if b then x else y) ≡ x
if_true y e = rw e refl

if_false {ℓ} : {A : Type ℓ} {b : Bool} (x : A) {y : A} → b ≡ false → (if b then x else y) ≡ y
if_false x e = rw e refl

unmap-replay : (m : WeightMmap) → IsHeld m → replay (unmap m) ≡ some (m.fd, none)
unfolding replay unmap
unmap-replay m h = elim (Bool-cases (m.base == 0)) [
  | inl z ↦ rw z (h ∙ ap (λ x. some (m.fd, x)) (if_true _ z))
  | inr n ↦
      let mapped : replay m.calls ≡ some (m.fd, some (m.base, m.size)) =
        h ∙ ap (λ x. some (m.fd, x)) (if_false none n) in
      rw (n, replay, mapped) (ground arith)
]

-- The descriptor is given back behind the mapping.
close_call-replay :
    (o : Option ℕ) (cs : List Call)
    → replay cs ≡ some (o, none)
    → replay (elim o [ none ↦ cs | some fd ↦ close_call fd ∷ cs ]) ≡ some (none, none)
unfolding replay
close_call-replay none cs h = h
close_call-replay (some fd) cs h = rw h (ground arith)

pub close-replay : (m : WeightMmap) → IsHeld m → replay (close m).calls ≡ some (none, none)
unfolding close
close-replay m h = close_call-replay m.fd (unmap m) (unmap-replay m h)

-- `mmap` answers with an address, never with `nullptr`.
abbrev pub IsMapping : Os → Type 0
IsMapping os = (fd n a : ℕ) → os.mmap fd n ≡ some a → (a == 0) ≡ false

map_file-IsHeld :
    (os : Os) (path : Text) (m : WeightMmap)
    → IsMapping os
    → replay m.calls ≡ some (none, none)
    → m.base ≡ 0
    → IsHeld (map_file os path m).1
unfolding replay map_file
map_file-IsHeld os path m s h b = elim (Option-cases (os.open_path path)) [
  | inl o ↦ rw (o, map_file, b) h
  | inr (fd, o) ↦ elim (Option-cases (os.file_size fd)) [
    | inl z ↦ rw (o, z, map_file, b) (rw h refl)
    | inr (n, z) ↦ elim (Bool-cases (ltb n 8)) [
      | inl small ↦ rw (o, z, small, map_file, b) (rw h refl)
      | inr large ↦ elim (Option-cases (os.mmap fd n)) [
        | inl f ↦ rw (o, z, large, f, map_file) (rw h refl)
        | inr (a, f) ↦ rw (o, z, large, f, map_file) (rw (h, s fd n a f) refl)
      ]
    ]
  ]
]

map_file-tensors :
    (os : Os) (path : Text) (m : WeightMmap) → (map_file os path m).1.tensors ≡ m.tensors
unfolding map_file
map_file-tensors os path m = elim (Option-cases (os.open_path path)) [
  | inl o ↦ rw (o, map_file) refl
  | inr (fd, o) ↦ elim (Option-cases (os.file_size fd)) [
    | inl z ↦ rw (o, z, map_file) refl
    | inr (n, z) ↦ elim (Bool-cases (ltb n 8)) [
      | inl small ↦ rw (o, z, small, map_file) refl
      | inr large ↦ elim (Option-cases (os.mmap fd n)) [
        | inl f ↦ rw (o, z, large, f, map_file) refl
        | inr (a, f) ↦ rw (o, z, large, f, map_file) refl
      ]
    ]
  ]
]

module _ {Float : Type 0} (stod : Text → Option Float) where
  -- Reading a header takes and gives back nothing, and leaves the tensors alone unless it succeeds.
  abbrev Ends : Outcome Bool × WeightMmap → WeightMmap → Type 0
  Ends r m =
      (held r.1 ≡ held m) × (r.1.calls ≡ m.calls) × (r.0 ≢ done true → r.1.tensors ≡ m.tensors)

  enter_header-Ends :
      (r : Outcome (Value Float × Bool)) (m : WeightMmap) → Ends (enter_header stod r m) m
  unfolding enter_header
  enter_header-Ends thrown m = (refl, refl, λ n. refl)
  enter_header-Ends out_of_fuel m = (refl, refl, λ n. refl)
  enter_header-Ends (done (root, false)) m = (refl, refl, λ n. refl)
  enter_header-Ends (done (root, true)) m = elim (Option-cases (object_of root)) [
    | inl e ↦ rw (e, enter_header) (refl, refl, λ n. refl)
    | inr (fs, e) ↦ rw (e, enter_header) (refl, refl, λ n. absurd (n refl))
  ]

  read_header-Ends : (mem : Memory) (m : WeightMmap) → Ends (read_header stod mem m) m
  unfolding read_header parse_header_json
  read_header-Ends mem m =
      elim (Bool-cases
        ((header_length mem m == 0) || ltb m.size (add_size 8 (header_length mem m)))) [
          | inl bad ↦ rw (bad, read_header) (refl, refl, λ n. refl)
          | inr good ↦ elim (Bool-cases (leb size_limit (header_length mem m))) [
            | inl long ↦ rw (good, long, read_header) (refl, refl, λ n. refl)
            | inr short ↦
                let json : Text = read_bytes mem (m.base + 8) (header_length mem m) in
                rw (good, short, read_header)
                  (enter_header-Ends (parse stod json) (record m { header_json = json }))
          ]
        ]

  Ends-IsHeld : (r : Outcome Bool × WeightMmap) (m : WeightMmap) → Ends r m → IsHeld m → IsHeld r.1
  Ends-IsHeld r m e h = ap replay e.1 ∙ h ∙ ap some (sym e.0)

  -- Both ways to open a file map it and then read a header.
  after_map :
      Os → Text → WeightMmap → (WeightMmap → Outcome Bool × WeightMmap) → Outcome Bool × WeightMmap
  after_map os path m read =
      let (mapped, m') = map_file os path (close m) in
      elim mapped [ false ↦ (done false, m') | true ↦ read m' ]

  after_map-IsHeld :
      (os : Os) (path : Text) (m : WeightMmap) (read : WeightMmap → Outcome Bool × WeightMmap)
      → ((x : WeightMmap) → Ends (read x) x)
      → IsMapping os
      → IsHeld m
      → IsHeld (after_map os path m read).1
  unfolding after_map
  after_map-IsHeld os path m read ends s h =
      let mapped = map_file-IsHeld os path (close m) s (close-replay m h) (unfold close in refl) in
      let m' : WeightMmap = (map_file os path (close m)).1 in
      elim (Bool-cases (map_file os path (close m)).0) [
        | inl e ↦ rw (e, after_map) (Ends-IsHeld (read m') m' (ends m') mapped)
        | inr e ↦ rw (e, after_map) mapped
      ]

  after_map_failed :
      (os : Os) (path : Text) (m : WeightMmap) (read : WeightMmap → Outcome Bool × WeightMmap)
      → ((x : WeightMmap) → Ends (read x) x)
      → (after_map os path m read).0 ≢ done true
      → (after_map os path m read).1.tensors ≡ []
  unfolding after_map
  after_map_failed os path m read ends n =
      let kept : (map_file os path (close m)).1.tensors ≡ [] =
        map_file-tensors os path (close m) ∙ unfold close in refl in
      let m' : WeightMmap = (map_file os path (close m)).1 in
      elim (Bool-cases (map_file os path (close m)).0) [
        | inl e ↦ rw (e, after_map) ((ends m').2 (λ d. n (rw (e, after_map) d)) ∙ kept)
        | inr e ↦ rw (e, after_map) kept
      ]

  with_header-Ends :
      (json : Text) (m : WeightMmap)
      → Ends (parse_header_json stod json (record m { header_json = json })) m
  unfolding parse_header_json
  with_header-Ends json m = enter_header-Ends (parse stod json) (record m { header_json = json })

  pub open_file-IsHeld :
      (os : Os) (mem : Memory) (path : Text) (m : WeightMmap)
      → IsMapping os
      → IsHeld m
      → IsHeld (open_file stod os mem path m).1
  unfolding open_file after_map
  open_file-IsHeld os mem path m =
      after_map-IsHeld os path m (read_header stod mem) (read_header-Ends mem)

  pub open_with-IsHeld :
      (os : Os) (path json : Text) (m : WeightMmap)
      → IsMapping os
      → IsHeld m
      → IsHeld (open_with stod os path json m).1
  unfolding open_with after_map
  open_with-IsHeld os path json m =
      after_map-IsHeld os path m
        (λ x. parse_header_json stod json (record x { header_json = json })) (with_header-Ends json)

  -- A file that could not be opened, or whose header could not be read, leaves nothing to look up,
  -- also nothing of the file that was open before.
  pub open_file_failed :
      (os : Os) (mem : Memory) (path : Text) (m : WeightMmap) (name : Text)
      → (open_file stod os mem path m).0 ≢ done true
      → lookup mem (open_file stod os mem path m).1 name ≡ no_view
  unfolding open_file after_map find
  open_file_failed os mem path m name n =
      let r : Outcome Bool × WeightMmap = open_file stod os mem path m in
      lookup-none mem r.1 name (
        ap (find name) (after_map_failed os path m (read_header stod mem) (read_header-Ends mem) n))
