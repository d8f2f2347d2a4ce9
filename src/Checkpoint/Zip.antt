-- ===== src/Checkpoint/Zip.antt =====
-- `PtLoader::parse_zip`, `inflate_entry` and `open` of dee.cpp/src/pt_loader.cpp. A compressed entry
-- is inflated by zlib, whose stream is a parameter, with fuel for the rounds of the loop. Sums of
-- `size_t` stay below 2 ^ 64, since the numbers in an archive have 32 bits at most.
use dee.Prelude.{
  ℕ, zero, suc, ◌+◌, ◌-◌, Bool, true, false, ◌&&◌, ◌||◌, Option, none, some, [], ◌++◌, ltb, ◌==◌,
  not, if◌then◌else◌, length,
}
use dee.Map.{assign}
use dee.Device.{num_eq}
use dee.Json.{Text, codes, text_eq}
use dee.Bytes.{Bytes, at, drop, slice, word16, word32, starts_with}
use dee.Checkpoint.{Result, gives, undefined, unfinished, ◌>>=◌, PtLoader, close}
use dee.Checkpoint.Pickle.{atoi, parse_pickle}

abbrev pub is_eocd : Bytes → ℕ → Bool
is_eocd d i =
    (at d i == 0x50) && (at d (i + 1) == 0x4b) && (at d (i + 2) == 5) && (at d (i + 3) == 6)

-- The loop from `i` down. At 0 the counter wraps to 2 ^ 64 - 1, the test `i + 22 <= n` wraps to
-- `21 <= n`, and the bytes before the buffer are read.
unfoldable pub search_eocd : Bytes → ℕ → Result ℕ
search_eocd d zero = if is_eocd d 0 then gives 0 else undefined
search_eocd d (suc i) =
    let rest : Result ℕ = search_eocd d i in if is_eocd d (suc i) then gives (suc i) else rest

-- `none` stands for `npos`.
unfoldable pub find_eocd : Bytes → Result (Option ℕ)
find_eocd d = elim (ltb (length d) 22) [
  | true ↦ gives none
  | false ↦ search_eocd d (length d - 22) >>= λ i. gives (some i)
]

-- What `inflate` answers.
pub data Status : Type 0 where
  z_ok stream_end buf_error other_error : Status

-- zlib: `inflateInit2` for raw data, with the input set, and `inflate` into an empty chunk, with what
-- it has written there.
pub record Zlib : Type 1 where
  pub Stream : Type 0
  pub inflate_init : Bytes → Option Stream
  pub inflate : Stream → Status × Bytes × Stream

-- What becomes of an entry's bytes: the entry is passed over where the method is another.
pub data Unpacked : Type 0 where
  bytes : Bytes → Unpacked
  failed passed_over : Unpacked

abbrev pub keep_pickle : PtLoader → Unpacked → Bool × PtLoader
keep_pickle l (bytes b) = (true, record l { pkl_bytes = b })
keep_pickle l failed = (false, record l { err = codes "inflate failed for data.pkl" })
keep_pickle l passed_over = (true, l)

abbrev pub keep_buffer : Text → ℕ → PtLoader → Unpacked → Bool × PtLoader
keep_buffer name idx l (bytes b) = (true, record l { buffers = assign idx b l.buffers })
keep_buffer name idx l failed = (false, record l { err = codes "inflate failed for " ++ name })
keep_buffer name idx l passed_over = (true, l)

abbrev pub next_header : Bytes → ℕ → ℕ
next_header d p = p + (46 + word16 d (p + 28) + word16 d (p + 30) + word16 d (p + 32))

-- The end of `parse_zip`, where all entries are entered.
unfoldable pub use_pickle : Bool × PtLoader → Result (Bool × PtLoader)
use_pickle (false, l) = gives (false, l)
use_pickle (true, l) = elim (length l.pkl_bytes == 0) [
  | true ↦ gives (true, l)
  | false ↦ parse_pickle l.pkl_bytes l
]

module _ (Z : Zlib) where
  open Z use {Stream, inflate}

  -- The loop of `inflate_entry`, from what has been put out so far.
  unfoldable pub inflate_rounds : ℕ → Stream → Bytes → Result Unpacked
  inflate_rounds zero s out = unfinished
  inflate_rounds (suc f) s out =
      let (status, got, s') = inflate s in
      elim status [
        | z_ok ↦ inflate_rounds f s' (out ++ got)
        | stream_end ↦ gives (bytes (out ++ got))
        | buf_error ↦ inflate_rounds f s' (out ++ got)
        | other_error ↦ gives failed
      ]

module _ (Z : Zlib) (fuel : ℕ) where
  open Z use {inflate_init}

  unfoldable pub inflate_entry : Bytes → Result Unpacked
  inflate_entry src = elim (inflate_init src) [
    | none ↦ gives failed
    | some s ↦ inflate_rounds Z fuel s []
  ]

  unfoldable pub unpack : ℕ → Bytes → Result Unpacked
  unpack method src =
      let inflated : Result Unpacked = inflate_entry src in
      if method == 0 then gives (bytes src) else if method == 8 then inflated else gives passed_over

  -- The entry of that name, method and data; `false` where `parse_zip` returns.
  unfoldable pub store_entry : Text → ℕ → Bytes → PtLoader → Result (Bool × PtLoader)
  store_entry name method src l = elim (text_eq name (codes "oracle/data.pkl")) [
    | true ↦ unpack method src >>= λ u. gives (keep_pickle l u)
    | false ↦ elim (starts_with (codes "oracle/data/") name) [
      | true ↦
          atoi (drop 12 name) >>= λ idx. unpack method src >>= λ u. gives (keep_buffer name idx l u)
      | false ↦ gives (true, l)
    ]
  ]

  -- The entry whose header in the central directory stands at `p`.
  unfoldable pub enter_entry : Bytes → ℕ → PtLoader → Result (Bool × PtLoader)
  enter_entry d p l =
      let comp_size : ℕ = word32 d (p + 20) in
      let lho : ℕ = word32 d (p + 42) in
      let data_off : ℕ = lho + 30 + word16 d (lho + 26) + word16 d (lho + 28) in
      elim (ltb (length d) (lho + 30)) [
        | true ↦ gives (true, l)
        | false ↦ elim (ltb (length d) (data_off + comp_size)) [
          | true ↦ gives (true, l)
          | false ↦
              store_entry (slice d (p + 46) (word16 d (p + 28))) (word16 d (p + 10))
                (slice d data_off comp_size) l
        ]
      ]

  -- The loop over the central directory, with the number of entries left. The bytes of a name are
  -- read wherever they end.
  unfoldable pub enter_entries : ℕ → Bytes → ℕ → PtLoader → Result (Bool × PtLoader)
  enter_entries zero d p l = gives (true, l)
  enter_entries (suc e) d p l = elim (ltb (length d) (p + 46)) [
    | true ↦ gives (true, l)
    | false ↦ elim (ltb (length d) (p + 46 + word16 d (p + 28))) [
      | true ↦ undefined
      | false ↦ enter_entry d p l >>= λ (ok, l'). elim ok [
        | false ↦ gives (false, l')
        | true ↦ enter_entries e d (next_header d p) l'
      ]
    ]
  ]

  unfoldable pub parse_zip : Bytes → PtLoader → Result (Bool × PtLoader)
  parse_zip d l = find_eocd d >>= λ eocd. elim eocd [
    | none ↦ gives (false, record l { err = codes "not a ZIP (no EOCD)" })
    | some i ↦ enter_entries (word16 d (i + 10)) d (word32 d (i + 16)) l >>= use_pickle
  ]

  -- `open(path)`, with the bytes of the file; `none` where it cannot be opened or read.
  unfoldable pub open_archive : Text → Option Bytes → PtLoader → Result (Bool × PtLoader)
  open_archive path file l =
      let l' : PtLoader = record (close l) { path = path } in
      let raw : Bytes = elim file [ none ↦ [] | some b ↦ b ] in
      elim (length raw == 0) [
        | true ↦ gives (false, record l' { err = codes "cannot read file" })
        | false ↦ elim (ltb (length raw) 4 || not (at raw 0 == b'P') || not (at raw 1 == b'K')) [
          | true ↦ gives (false, record l' { err = codes "not a ZIP (bad magic)" })
          | false ↦
              parse_zip raw l' >>= λ (ok, l''). gives (ok && not (length l''.tensors == 0), l'')
        ]
      ]
