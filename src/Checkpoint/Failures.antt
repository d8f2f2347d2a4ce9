-- ===== src/Checkpoint/Failures.antt =====
-- How `PtLoader::open` of dee.cpp/src/pt_loader.cpp fails: a file without the record that ends a zip
-- archive, and a pickle that contradicts the table of tensors.
use dee.Prelude.{
  ℕ, zero, suc, ◌-◌, ◌^◌, ◌≤◌, ◌<◌, ◌≡◌, refl, sym, ap, ◌∙◌, ◌⊎◌, Bool, true, false, none, some,
  List, [], arith, ltb, ◌==◌, inl, inr, Bool-cases, Option-cases, length,
}
use dee.Map.{find}
use dee.Json.{Text}
use dee.Weights.{text_key}
use dee.Bytes.{Bytes, at}
use dee.Checkpoint.{Result, gives, undefined, unfinished, ◌>>=◌, PtLoader, is_open}
use dee.Checkpoint.Pickle.{Found, scan, scan_start, mismatch, add_tensors, parse_pickle}
use dee.Checkpoint.Pickle
use dee.Checkpoint.Zip.{Zlib, is_eocd, search_eocd, find_eocd, parse_zip, open_archive}
use dee.Checkpoint.Table.{length-add_tensors}
use dee.Checkpoint.Headers.{ltb-false}

-- The last record at or before a place.
abbrev IsLast : Bytes → ℕ → ℕ → Type 0
IsLast d i j = (j ≤ i) × (is_eocd d j ≡ true) × ((k : ℕ) → j < k → k ≤ i → is_eocd d k ≡ false)

abbrev pub HasNone : Bytes → ℕ → Type 0
HasNone d i = (k : ℕ) → k ≤ i → is_eocd d k ≡ false

search_eocd-IsLast :
    (d : Bytes) (i : ℕ)
    → ((j : ℕ) × (search_eocd d i ≡ gives j) × IsLast d i j)
      ⊎ ((search_eocd d i ≡ undefined) × HasNone d i)
unfolding search_eocd
search_eocd-IsLast d zero = elim (Bool-cases (is_eocd d 0)) [
  | inl hit ↦ inl (0, rw hit refl, (omega arith, hit, λ k a b. absurd (omega (arith, a, b))))
  | inr miss ↦ inr (rw miss refl, λ k b. (let e : k ≡ 0 = omega (arith, b) in rw e miss))
]
search_eocd-IsLast d (suc i) = elim (Bool-cases (is_eocd d (suc i))) [
  | inl hit ↦ inl (suc i, rw hit refl, (omega arith, hit, λ k a b. absurd (omega (arith, a, b))))
  | inr miss ↦ elim (search_eocd-IsLast d i) [
    | inl (j, found, (before, sign, last)) ↦ inl (
      j,
      rw miss found,
      (
        omega (arith, before),
        sign,
        λ k a b. elim (Bool-cases (k == suc i)) [
          | inl same ↦ (let e : k ≡ suc i = ground (arith, same) in ap (is_eocd d) e ∙ miss)
          | inr other ↦ last k a (ground (arith, other, b))
        ],
      ),
    )
    | inr (lost, none_before) ↦ inr (
      rw miss lost,
      λ k b. elim (Bool-cases (k == suc i)) [
        | inl same ↦ (let e : k ≡ suc i = ground (arith, same) in ap (is_eocd d) e ∙ miss)
        | inr other ↦ none_before k (ground (arith, other, b))
      ],
    )
  ]
]

-- In a file of at least the record's size, the record found is the last one; and where there is none,
-- the search reads outside the file.
find_eocd-IsLast :
    (d : Bytes)
    → 22 ≤ length d
    → ((j : ℕ) × (find_eocd d ≡ gives (some j)) × IsLast d (length d - 22) j)
      ⊎ ((find_eocd d ≡ undefined) × HasNone d (length d - 22))
unfolding find_eocd
find_eocd-IsLast d h =
    let long : ltb (length d) 22 ≡ false = ltb-false (length d) 22 h in
    elim (search_eocd-IsLast d (length d - 22)) [
      | inl (j, found, last) ↦ inl (j, rw (long, find_eocd) (rw found refl), last)
      | inr (lost, absent) ↦ inr (rw (long, find_eocd) (rw lost refl), absent)
    ]

abbrev left_by : PtLoader → Result (Bool × PtLoader) → PtLoader
left_by l (gives (ok, l')) = l'
left_by l undefined = l
left_by l unfinished = l

-- The outcome of the check, by what it is made from.
rejected :
    (m : Result (List Found)) (l l' : PtLoader)
    → ◌≡◌ {A = Result (Bool × PtLoader)}
        (m >>= λ found.
          let num_storage : ℕ = length l.buffers in
          let filled : PtLoader = record l { tensors = add_tensors num_storage 0 l.tensors } in
          elim (mismatch num_storage found) [
            | none ↦ gives (true, filled)
            | some (st, name) ↦ gives (false, record filled { err = Pickle.mismatch_error st name })
          ])
        (gives (false, l'))
    → (l'.tensors ≡ add_tensors (length l.buffers) 0 l.tensors) × (l'.path ≡ l.path)
unfolding add_tensors
rejected (gives found) l l' e = elim (Option-cases (mismatch (length l.buffers) found)) [
  | inl agrees ↦ absurd (cc (rw (agrees, ◌>>=◌) at e))
  | inr (p, differs) ↦
      let made = rw (differs, ◌>>=◌) at e in
      (sym (ap (λ r. (left_by l r).tensors) made), sym (ap (λ r. (left_by l r).path) made))
]
rejected undefined l l' e = absurd (cc e)
rejected unfinished l l' e = absurd (cc e)

-- A loader whose pickle contradicts the table says that it is open, although `open` fails.
pub parse_pickle_rejected :
    (pkl : Bytes) (l l' : PtLoader)
    → l.tensors ≡ []
    → 0 < length l.path
    → 0 < length l.buffers
    → length l.buffers ≤ 2 ^ 31
    → parse_pickle pkl l ≡ gives (false, l')
    → is_open l' ≡ true
unfolding parse_pickle is_open
parse_pickle_rejected pkl l l' t p b few e =
    let (tensors, path) = rejected (scan (suc (length pkl)) pkl (scan_start pkl)) l l' e in
    let count : length l'.tensors ≡ length l.buffers =
      ap length tensors
      ∙ ap (λ ts. length (add_tensors (length l.buffers) 0 ts)) t
      ∙ length-add_tensors (length l.buffers) 0 [] (omega (arith, few))
          (λ h x y. unfold find in refl)
      ∙ omega arith in
    let same : length l'.path ≡ length l.path = ap length path in ground (arith, count, same, p, b)

-- `open` of a file with the magic bytes of a zip archive, but without its end record, reads outside
-- the file.
pub open_archive_unended :
    (Z : Zlib) (fuel : ℕ) (path : Text) (b : Bytes) (l : PtLoader)
    → 22 ≤ length b
    → at b 0 ≡ b'P'
    → at b 1 ≡ b'K'
    → HasNone b (length b - 22)
    → open_archive Z fuel path (some b) l ≡ undefined
unfolding open_archive parse_zip
open_archive_unended Z fuel path b l h p k absent =
    let whole : (length b == 0) ≡ false = ground arith in
    let enough : ltb (length b) 4 ≡ false = ltb-false (length b) 4 (omega (arith, h)) in
    let lost : find_eocd b ≡ undefined = elim (find_eocd-IsLast b h) [
      | inl (j, found, (before, sign, last)) ↦ absurd (cc (sign, absent j before))
      | inr (e, same) ↦ e
    ] in
    rw (whole, open_archive) (rw (enough, p, k, open_archive) (rw (lost, parse_zip) refl))
