-- ===== src/Checkpoint/RoundTrip.antt =====
-- `OracleScheduler::load` of dee.cpp/src/oracle.cpp reads from the archive of a checkpoint, through
-- `PtLoader::open` of dee.cpp/src/pt_loader.cpp, the weights that were saved there.
use dee.Prelude.{
  ℕ, suc, ◌-◌, ◌*◌, ◌^◌, ◌≤◌, ◌<◌, ◌≡◌, refl, ap, ◌∙◌, Bool, true, false, none, some, List, [], ◌∷◌,
  arith, ltb, ◌==◌, if◌then◌else◌, length, get_elem?, All,
}
use dee.Map.{find}
use dee.Kernels.{Arithmetic}
use dee.Oracle.{Vector}
use dee.Device.{num_eq}
use dee.Json.{Text, codes, text_eq}
use dee.Weights.{text_key}
use dee.Bytes.{Bytes, at}
use dee.Checkpoint.{gives, ◌>>=◌, PtLoader, new_loader, close, nbytes}
use dee.Checkpoint.Pickle.{Found, scan, scan_start, mismatch, tensor_of, add_tensors, parse_pickle}
use dee.Checkpoint.Zip.{Zlib, unpack, store_entry, use_pickle, parse_zip, open_archive}
use dee.Checkpoint.Archive.{Entry, Fits, local_header, local_part, locals, archive}
use dee.Checkpoint.Reading.{store_all, store_all_cons, parse_zip-archive}
use dee.Checkpoint.Headers.{ltb-false}
use dee.Checkpoint.Saved.{
  Saves, no_more, other, storage, put_all, store_all-Saves, find-put_all, length-put_all,
}
use dee.Checkpoint.Table.{name_of, in_table, find-add_tensors, length-add_tensors}
use dee.Checkpoint.Load.{Scheduler, read_layers, resize_layers, load_layers, load}
use dee.Checkpoint.Loaded.{
  Weights, storage_of, IsLoaded, saved_weights, read_layers-Reads, count_layers-saved,
}

-- The entries of a checkpoint of the Oracle: the pickle, uncompressed and in agreement with the table
-- of tensors, and six storages for each layer.
pub record IsCheckpoint (pk : Entry) (es : List Entry) (bs : List Bytes) (layers : ℕ) : Type 0 where
  pub fits : All Fits (pk ∷ es)
  pub entries_fit : length (pk ∷ es) < 2 ^ 16
  pub size_fits : length (locals (pk ∷ es)) < 2 ^ 32
  pub pickle_name : pk.name ≡ codes "oracle/data.pkl"
  pub pickle_method : pk.method ≡ 0
  pub pickle_long : 0 < length pk.packed
  pub found : List Found
  pub scanned : scan (suc (length pk.packed)) pk.packed (scan_start pk.packed) ≡ gives found
  pub agrees : mismatch (length bs) found ≡ none
  pub saves : Saves 0 es bs
  pub layers_saved : length bs ≡ layers * 6
  pub layers_pos : 0 < layers
  pub storages_fit : (g : ℕ) → g < length bs → nbytes (tensor_of g) ≤ length (storage_of bs g)

Saves-length : {i : ℕ} {es : List Entry} {bs : List Bytes} → Saves i es bs → length bs ≤ length es
Saves-length no_more = omega arith
Saves-length (other e o r) = omega (arith, Saves-length r)
Saves-length (storage e n m r) = omega (arith, Saves-length r)

-- The loader that has read a checkpoint.
abbrev pub loaded : Text → Entry → List Bytes → PtLoader
loaded path pk bs = record {
  path = path;
  err = [];
  buffers = put_all 0 bs [];
  tensors = add_tensors (length bs) 0 [];
  pkl_bytes = pk.packed;
}

none_below : (j : ℕ) → 0 ≤ j → find {V = Bytes} j [] ≡ none
unfolding find
none_below j h = refl

in_whole :
    (bs : List Bytes) (h : ℕ)
    → (if in_table (length bs) 0 h then some (tensor_of h) else find (name_of h) [])
      ≡ (if ltb h (length bs) then some (tensor_of h) else none)
unfolding find
in_whole bs h =
    let same : in_table (length bs) 0 h ≡ ltb h (length bs) = ground arith in rw same refl

all_above :
    (bs : List Bytes) (g : ℕ)
    → (if ltb g 0 then find g [] else get_elem? bs (g - 0)) ≡ get_elem? bs g
all_above bs g =
    let low : ltb g 0 ≡ false = ground arith in
    let whole : g - 0 ≡ g = omega arith in rw (low, whole) refl

loaded-IsLoaded :
    (path : Text) (pk : Entry) (es : List Entry) (bs : List Bytes) (layers : ℕ)
    → IsCheckpoint pk es bs layers
    → IsLoaded (loaded path pk bs) bs
loaded-IsLoaded path pk es bs layers c =
    let few : length bs < 2 ^ 31 = omega (arith, Saves-length c.saves, c.entries_fit) in
    record {
      tensors_are =
          λ h b. find-add_tensors (length bs) 0 h [] (omega (arith, few)) b ∙ in_whole bs h;
      tensors_count =
          length-add_tensors (length bs) 0 [] (omega (arith, few)) (λ h a b. unfold find in refl)
          ∙ omega arith;
      buffers_are = λ g. find-put_all bs 0 [] g none_below ∙ all_above bs g;
      few = few;
      storages_fit = c.storages_fit;
    }

-- The end of `parse_zip`, on what the entries left.
use_pickle-loaded :
    (path : Text) (pk : Entry) (es : List Entry) (bs : List Bytes) (layers : ℕ)
    → IsCheckpoint pk es bs layers
    → use_pickle (true, record (loaded path pk bs) { tensors = [] })
      ≡ gives (true, loaded path pk bs)
unfolding use_pickle parse_pickle
use_pickle-loaded path pk es bs layers c =
    let some_pickle : (length pk.packed == 0) ≡ false = ground (arith, c.pickle_long) in
    let count : length (put_all 0 bs []) ≡ length bs =
      length-put_all bs 0 [] none_below ∙ omega arith in
    let agrees : mismatch (length (put_all 0 bs [])) c.found ≡ none =
      ap (λ n. mismatch n c.found) count ∙ c.agrees in
    rw (some_pickle, use_pickle)
      (rw (c.scanned, parse_pickle)
        (rw (agrees, ◌>>=◌)
          (ap (λ n. gives (true, record (loaded path pk bs) { tensors = add_tensors n 0 [] }))
            count)))

-- The archive begins as every zip archive does.
archive_magic :
    (e : Entry) (es : List Entry)
    → (at (archive (e ∷ es)) 0 ≡ b'P')
      × (at (archive (e ∷ es)) 1 ≡ b'K')
      × (4 ≤ length (archive (e ∷ es)))
unfolding archive locals local_part local_header at
archive_magic e es = (refl, refl, omega arith)

module _ (Z : Zlib) (fuel : ℕ) where
  store_pickle :
      (pk : Entry) (l : PtLoader)
      → pk.name ≡ codes "oracle/data.pkl"
      → pk.method ≡ 0
      → store_entry Z fuel pk.name pk.method pk.packed l
        ≡ gives (true, record l { pkl_bytes = pk.packed })
  unfolding store_entry unpack text_eq
  store_pickle pk l n m = rw (n, m) refl

  store_checkpoint :
      (pk : Entry) (es : List Entry) (bs : List Bytes) (layers : ℕ) (l : PtLoader)
      → IsCheckpoint pk es bs layers
      → store_all Z fuel (pk ∷ es) l
        ≡ gives (true, record l { pkl_bytes = pk.packed; buffers = put_all 0 bs l.buffers })
  store_checkpoint pk es bs layers l c =
      store_all_cons Z fuel pk es l
      ∙ rw (store_pickle pk l c.pickle_name c.pickle_method) (
          store_all-Saves Z fuel (record l { pkl_bytes = pk.packed }) c.saves
            (omega (arith, Saves-length c.saves, c.entries_fit)))

  -- `open` of a checkpoint succeeds, with its table and storages.
  open_archive-loaded :
      (path : Text) (pk : Entry) (es : List Entry) (bs : List Bytes) (layers : ℕ)
      → IsCheckpoint pk es bs layers
      → open_archive Z fuel path (some (archive (pk ∷ es))) new_loader
        ≡ gives (true, loaded path pk bs)
  open_archive-loaded path pk es bs layers c =
      let (p, k, long) = archive_magic pk es in
      let whole : ((length (archive (pk ∷ es)) == 0) ≡ false) = ground arith in
      let enough : ltb (length (archive (pk ∷ es))) 4 ≡ false = ltb-false _ 4 long in
      let l : PtLoader = record new_loader { path = path } in
      let stored : parse_zip Z fuel (archive (pk ∷ es)) l ≡ gives (true, loaded path pk bs) =
        parse_zip-archive Z fuel (pk ∷ es) l c.fits c.entries_fit c.size_fits
        ∙ ap (λ r. r >>= use_pickle) (store_checkpoint pk es bs layers l c)
        ∙ use_pickle-loaded path pk es bs layers c in
      let many : (length (add_tensors (length bs) 0 []) == 0) ≡ false =
        let count = (loaded-IsLoaded path pk es bs layers c).tensors_count in
        ground (arith, count, c.layers_saved, c.layers_pos) in
      unfold open_archive close in
      rw (whole, open_archive) (rw (enough, p, k, open_archive) (rw (stored, many) refl))

module _ (A : Arithmetic) (greater : A.Float → A.Float → Bool) (float_of_bits : ℕ → A.Float) where
  load_opened :
      (Z : Zlib) (fuel : ℕ) (path : Text) (dim hidden experts : ℕ)
      (s : Scheduler A greater float_of_bits) (pk : Entry) (es : List Entry) (bs : List Bytes)
      (layers : ℕ)
      → IsCheckpoint pk es bs layers
      → (ws : Vector (Weights A greater float_of_bits))
      → read_layers A greater float_of_bits
          (loaded path pk bs)
          layers
          0
          (resize_layers A greater float_of_bits layers s.net.layers)
        ≡ (none, ws)
      → load A greater float_of_bits Z fuel path (some (archive (pk ∷ es))) dim hidden experts s
        ≡ gives (
          true,
          record s {
            net = record s.net { dim = dim; hidden = hidden; experts = experts; layers = ws };
          },
        )
  unfolding load load_layers
  load_opened Z fuel path dim hidden experts s pk es bs layers c ws ran =
      let i : IsLoaded (loaded path pk bs) bs = loaded-IsLoaded path pk es bs layers c in
      let counted =
        count_layers-saved A greater float_of_bits (suc (length (add_tensors (length bs) 0 [])))
          (loaded path pk bs) bs layers 0 i c.layers_saved (omega arith)
          (omega (arith, i.tensors_count, c.layers_saved)) in
      let some_layers : (layers == 0) ≡ false = ground (arith, c.layers_pos) in
      rw (open_archive-loaded Z fuel path pk es bs layers c, load)
        (rw (counted, load_layers) (rw (some_layers, ◌>>=◌) (rw ran refl)))

  -- Loading a checkpoint of the Oracle succeeds, with the dimensions asked for, as many layers as
  -- were saved, and in each the six tensors whose bytes its storages hold.
  pub load-archive :
      (Z : Zlib) (fuel : ℕ) (path : Text) (dim hidden experts : ℕ)
      (s : Scheduler A greater float_of_bits) (pk : Entry) (es : List Entry) (bs : List Bytes)
      (layers : ℕ)
      → IsCheckpoint pk es bs layers
      → (s' : Scheduler A greater float_of_bits) × (load A greater float_of_bits Z fuel path
            (some (archive (pk ∷ es)))
            dim
            hidden
            experts
            s
          ≡ gives (true, s'))
        × (s'.net.dim ≡ dim)
        × (s'.net.hidden ≡ hidden)
        × (s'.net.experts ≡ experts)
        × (s'.net.layers.size ≡ layers)
        × ((layer : ℕ)
            → layer < layers
            → s'.net.layers.at layer ≡ saved_weights A greater float_of_bits bs layer)
  load-archive Z fuel path dim hidden experts s pk es bs layers c =
      let i : IsLoaded (loaded path pk bs) bs = loaded-IsLoaded path pk es bs layers c in
      let asked : Scheduler A greater float_of_bits = record s {
        net = record s.net { dim = dim; hidden = hidden; experts = experts };
      } in
      let (ws, ran, (size, inside, before)) =
        read_layers-Reads A greater float_of_bits (loaded path pk bs) bs layers 0
          (resize_layers A greater float_of_bits layers s.net.layers) i
          (omega (arith, c.layers_saved)) in
      (
        record asked { net = record asked.net { layers = ws } },
        load_opened Z fuel path dim hidden experts s pk es bs layers c ws ran,
        refl,
        refl,
        refl,
        size ∙ unfold resize_layers in refl,
        λ layer h. inside layer (omega arith) (omega (arith, h)),
      )
