-- ===== src/Checkpoint/Ends.antt =====
-- The scan of a pickle by `PtLoader::parse_pickle` of dee.cpp/src/pt_loader.cpp comes to its end.
use dee.Prelude.{
  ℕ, zero, suc, ◌+◌, ◌^◌, ◌<◌, ◌≡◌, ◌≢◌, Bool, true, false, Option, none, some, [], ◌∷◌, arith, ltb,
  leb, ◌==◌, inl, inr, Bool-cases, Option-cases, length,
}
use mathlib.Core.Path.{subst}
use dee.Json.{Text, is_space, read_digits}
use dee.Bytes.{Bytes}
use dee.Checkpoint.{Result, gives, undefined, unfinished, ◌>>=◌, PtLoader}
use dee.Checkpoint.Pickle.{
  atoi, signed_int, read_binunicode, is_tensor, key_at, find_storage, found_at, advance, scan,
  scan_start, mismatch, parse_pickle,
}

-- The call ends, with a result or undefined.
abbrev pub Ended {ℓ} : {A : Type ℓ} → Result A → Type 0
Ended (gives a) = Unit {0}
Ended undefined = Unit {0}
Ended unfinished = ⊥

Ended-bind {ℓ κ} :
    {A : Type ℓ} {B : Type κ} (m : Result A) (f : A → Result B)
    → Ended m
    → ((a : A) → Ended (f a))
    → Ended (m >>= f)
Ended-bind (gives a) f e h = h a
Ended-bind undefined f e h = tt
Ended-bind unfinished f e h = absurd e

signed_int-Ended : (negative : Bool) (n : ℕ) → Ended (signed_int negative n)
signed_int-Ended false n = elim (Bool-cases (ltb n (2 ^ 31))) [ inl e ↦ rw e tt | inr e ↦ rw e tt ]
signed_int-Ended true n = elim (Bool-cases (leb n (2 ^ 31))) [ inl e ↦ rw e tt | inr e ↦ rw e tt ]

atoi-Ended : (t : Text) → Ended (atoi t)
unfolding atoi
atoi-Ended [] = tt
atoi-Ended (c ∷ cs) = elim (Bool-cases (is_space c)) [
  | inl space ↦ rw space (atoi-Ended cs)
  | inr word ↦ elim (Bool-cases (c == b'-')) [
    | inl minus ↦ rw (word, minus) (signed_int-Ended true (read_digits 0 cs))
    | inr no_minus ↦ elim (Bool-cases (c == b'+')) [
      | inl plus ↦ rw (word, no_minus, plus) (signed_int-Ended false (read_digits 0 cs))
      | inr no_plus ↦ rw (word, no_minus, no_plus) (signed_int-Ended false (read_digits 0 (c ∷ cs)))
    ]
  ]
]

find_storage-Ended : (k : ℕ) (d : Bytes) (j : ℕ) → Ended (find_storage k d j)
unfolding find_storage
find_storage-Ended zero d j = tt
find_storage-Ended (suc k) d j = elim (Option-cases (key_at d j)) [
  | inl no_key ↦ rw (no_key, find_storage) (find_storage-Ended k d (j + 1))
  | inr (key, e) ↦
      rw (e, find_storage) (Ended-bind (atoi key) (λ n. gives (some n)) (atoi-Ended key) (λ n. tt))
]

found_at-Ended : (d : Bytes) (i : ℕ) (s : Text) → Ended (found_at d i s)
unfolding found_at
found_at-Ended d i s = elim (Bool-cases (is_tensor s)) [
  | inl e ↦ rw e (Ended-bind _ _ (find_storage-Ended _ d (i + 1)) (λ st. tt))
  | inr e ↦ rw e tt
]

-- A string that is read lies in the bytes, and the scan goes on behind its first byte.
advance_pos :
    (d : Bytes) (i : ℕ) (s : Text)
    → length d < 2 ^ 32
    → read_binunicode d i ≡ some s
    → 0 < advance d i
unfolding read_binunicode advance
advance_pos d i s b e = ground (arith, e)

scan-Ended :
    (f : ℕ) (d : Bytes) (i : ℕ) → length d < 2 ^ 32 → 0 < f → length d < i + f → Ended (scan f d i)
unfolding scan
scan-Ended zero d i b p h = absurd (omega (arith, p))
scan-Ended (suc f) d i b p h = elim (Bool-cases (ltb i (length d))) [
  | inr over ↦ rw (over, scan) tt
  | inl inside ↦
      let left : 0 < f = ground (arith, inside, h) in
      elim (Option-cases (read_binunicode d i)) [
        | inl no_string ↦
            rw (inside, no_string, scan) (scan-Ended f d (i + 1) b left (omega (arith, h)))
        | inr (s, e) ↦
            let on = advance_pos d i s b e in
            let next = scan-Ended f d (i + advance d i) b left (omega (arith, h, on)) in
            rw (inside, e, scan)
              (Ended-bind (found_at d i s) _ (found_at-Ended d i s)
                (λ here. Ended-bind (scan f d (i + advance d i)) _ next (λ rest. tt)))
      ]
]

pub Ended-ne {ℓ} : {A : Type ℓ} (m : Result A) → Ended m → m ≢ unfinished
Ended-ne m h e = subst Ended e h

Ended-checked {ℓ κ} :
    {A : Type ℓ} {B : Type κ} (o : Option A) (b : B) (f : A → B)
    → Ended (let r : Result B = elim o [ none ↦ gives b | some a ↦ gives (f a) ] in r)
Ended-checked none b f = tt
Ended-checked (some a) b f = tt

-- A pickle of less than 4 GiB is parsed to its end: the fuel is enough.
pub parse_pickle_ends :
    (pkl : Bytes) (l : PtLoader) → length pkl < 2 ^ 32 → parse_pickle pkl l ≢ unfinished
unfolding parse_pickle
parse_pickle_ends pkl l b e =
    Ended-ne _
      (Ended-bind (scan (suc (length pkl)) pkl (scan_start pkl)) _
        (scan-Ended (suc (length pkl)) pkl (scan_start pkl) b (omega arith) (omega arith))
        (λ found. Ended-checked (mismatch (length l.buffers) found) _ _))
      e
