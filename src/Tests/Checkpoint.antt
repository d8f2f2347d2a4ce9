-- ===== src/Tests/Checkpoint.antt =====
-- A checkpoint of one layer for the models of dee.cpp/src/pt_loader.cpp and dee.cpp/src/oracle.cpp,
-- runs on small archives, and the theorems at these.
use dee.Prelude.{
  ℕ, zero, suc, ◌^◌, ◌≤◌, ◌<◌, ◌≡◌, ◌≢◌, refl, ap, Bool, true, false, none, some, List, [], ◌∷◌,
  ◌++◌, arith, length,
}
use dee.Map.{find, assign}
use dee.Json
use dee.Json.{Text, codes}
use dee.Json.Print
use dee.Bytes
use dee.Bytes.{Bytes}
use dee.Bytes.Words
use dee.Checkpoint
use dee.Checkpoint.{Result, gives, undefined, unfinished, PtLoader, new_loader, nbytes, is_open}
use dee.Checkpoint.Pickle
use dee.Checkpoint.Pickle.{tensor_of, parse_pickle}
use dee.Checkpoint.Zip
use dee.Checkpoint.Zip.{Zlib, z_ok, stream_end, buf_error, other_error, inflate_entry, open_archive}
use dee.Checkpoint.Archive
use dee.Checkpoint.Archive.{Entry, Fits, archive, locals}
use dee.Checkpoint.Headers.{length-locals}
use dee.Checkpoint.Reading.{store_all, parse_zip-archive}
use dee.Checkpoint.Saved.{Saves, no_more, other, storage}
use dee.Checkpoint.Load.{Scheduler, load}
use dee.Checkpoint.Loaded.{storage_of, saved_weights}
use dee.Checkpoint.RoundTrip.{IsCheckpoint, load-archive}
use dee.Checkpoint.Ends.{parse_pickle_ends}
use dee.Checkpoint.Inflate.{inflate_entry_stalls}
use dee.Checkpoint.Failures.{HasNone, parse_pickle_rejected, open_archive_unended}
use dee.Tests.Kernels.{whole}
use dee.Tests.Oracle.{greater, net}

unfoldable pub checkpoint_program : Unit {0}
unfolding find assign Json.text_eq Json.read_digits Print.digits Bytes.at Bytes.drop Bytes.take
    Bytes.slice Bytes.word16 Bytes.word32 Bytes.starts_with Bytes.contains Checkpoint.nbytes
    Checkpoint.oracle_tensor_shape Checkpoint.close Checkpoint.is_open Checkpoint.copied
    Checkpoint.read_tensor Checkpoint.manifest_line Checkpoint.manifest_lines Checkpoint.manifest
    Pickle.atoi Pickle.read_binunicode Pickle.is_tensor Pickle.key_at Pickle.find_storage
    Pickle.found_at Pickle.advance Pickle.scan Pickle.scan_start Pickle.local_name
    Pickle.local_shape Pickle.full_name Pickle.tensor_of Pickle.add_tensors Pickle.mismatch
    Pickle.mismatch_error Pickle.parse_pickle Zip.search_eocd Zip.find_eocd Zip.inflate_rounds
    Zip.inflate_entry Zip.unpack Zip.use_pickle Zip.store_entry Zip.enter_entry Zip.enter_entries
    Zip.parse_zip Zip.open_archive Archive.local_header Archive.central_header Archive.end_record
    Archive.local_part Archive.locals Archive.directory Archive.archive Words.le16 Words.le32
checkpoint_program = tt

-- A stream that gives one byte at each call, as many times as it says, and then no more.
abbrev stalling : Zlib
stalling = record {
  Stream = ℕ;
  inflate_init = λ src. some (length src);
  inflate = λ s. elim s [ zero ↦ (buf_error, [], 0) | suc k ↦ (z_ok, 0 ∷ [], k) ];
}

abbrev ending : Zlib
ending = record {
  Stream = ℕ;
  inflate_init = λ src. some (length src);
  inflate = λ s. elim s [ zero ↦ (stream_end, [], 0) | suc k ↦ (z_ok, 0 ∷ [], k) ];
}

abbrev entry : Text → Bytes → Entry
entry name b = record {
  name = name;
  method = 0;
  padding = 7 ∷ 7 ∷ [];
  packed = b;
  crc = 12;
  plain_size = length b;
}

-- The name of a tensor, and a storage key.
abbrev pickle : Text → Text → Bytes
pickle name key =
    0x80 ∷ 2 ∷ b'X' ∷ length name ∷ 0 ∷ 0 ∷ 0 ∷ (name ++ (0x8c ∷ length key ∷ (key ++ b'.' ∷ [])))

abbrev pickle_entry : Entry
pickle_entry = entry (codes "oracle/data.pkl") (pickle (codes "net.0.weight") (codes "0"))

abbrev named : Text → Bytes → Entry
named number b = entry (codes "oracle/data/" ++ number) b

abbrev small : List Entry
small =
    pickle_entry ∷ named (codes "0") (1 ∷ 2 ∷ []) ∷ entry (codes "oracle/version") (b'3' ∷ []) ∷ []

opens :
    open_archive ending 3 (codes "a.pt") (some (archive small)) new_loader
    ≡ gives (
      true,
      record {
        path = codes "a.pt";
        err = [];
        buffers = (0, 1 ∷ 2 ∷ []) ∷ [];
        tensors = (codes "layers.0.net.0.weight", tensor_of 0) ∷ [];
        pkl_bytes = pickle_entry.packed;
      },
    )
unfolding checkpoint_program
opens = refl

-- A pickle of an archive that was open before is used for one that has none.
abbrev stale : PtLoader
stale = record new_loader { pkl_bytes = pickle_entry.packed }

abbrev accepted : Result (Bool × PtLoader) → Bool
accepted (gives (ok, l)) = ok
accepted undefined = false
accepted unfinished = false

uses_stale :
    accepted
      (open_archive ending 3 (codes "b.pt") (some (archive (named (codes "0") [] ∷ []))) stale)
    ≡ true
unfolding checkpoint_program
uses_stale = refl

no_pickle :
    accepted
      (open_archive ending 3 (codes "b.pt") (some (archive (named (codes "0") [] ∷ []))) new_loader)
    ≡ false
unfolding checkpoint_program
no_pickle = refl

-- The last layer's shape does not follow the number of experts.
same_shape :
    Checkpoint.oracle_tensor_shape (codes "net.4.weight") 2048 256 512
    ≡ Checkpoint.oracle_tensor_shape (codes "net.4.weight") 2048 256 256
unfolding checkpoint_program
same_shape = refl

manifest_of_small : Checkpoint.manifest new_loader ≡ codes "{\n\n}\n"
unfolding checkpoint_program
manifest_of_small = refl

unfoldable zeros : ℕ → Bytes
zeros zero = []
zeros (suc n) = 0 ∷ zeros n

length-zeros : (n : ℕ) → length (zeros n) ≡ n
unfolding zeros
length-zeros zero = refl
length-zeros (suc n) = ap suc (length-zeros n)

-- The storages of one layer.
abbrev storages : List Bytes
storages = zeros 2097152 ∷ zeros 1024 ∷ zeros 262144 ∷ zeros 1024 ∷ zeros 262144 ∷ zeros 1024 ∷ []

abbrev entries : List Entry
entries =
    named (codes "0") (zeros 2097152)
    ∷ named (codes "1") (zeros 1024)
    ∷ named (codes "2") (zeros 262144)
    ∷ named (codes "3") (zeros 1024)
    ∷ entry (codes "oracle/byteorder") (codes "little")
    ∷ named (codes "4") (zeros 262144)
    ∷ named (codes "5") (zeros 1024)
    ∷ []

entry-Fits : (name : Text) (b : Bytes) → length name < 2 ^ 16 → Fits (entry name b)
entry-Fits name b h = record {
  method_fits = omega arith;
  name_fits = h;
  padding_fits = omega arith;
}

length-locals_nil : length (locals []) ≡ 0
unfolding checkpoint_program
length-locals_nil = refl

entries_size : length (locals (pickle_entry ∷ entries)) < 2 ^ 32
entries_size = omega (arith, length-locals, length-locals_nil, length-zeros)

storages_fit : (g : ℕ) → g < 6 → nbytes (tensor_of g) ≤ length (storage_of storages g)
unfolding checkpoint_program
storages_fit zero h = omega (arith, length-zeros 2097152)
storages_fit (suc zero) h = omega (arith, length-zeros 1024)
storages_fit (suc (suc zero)) h = omega (arith, length-zeros 262144)
storages_fit (suc (suc (suc zero))) h = omega (arith, length-zeros 1024)
storages_fit (suc (suc (suc (suc zero)))) h = omega (arith, length-zeros 262144)
storages_fit (suc (suc (suc (suc (suc zero))))) h = omega (arith, length-zeros 1024)
storages_fit (suc (suc (suc (suc (suc (suc g)))))) h = absurd (omega arith)

entries-Saves : Saves 0 entries storages
unfolding checkpoint_program
entries-Saves = storage _ refl refl (
    storage _ refl refl (
      storage _ refl refl (
        storage _ refl refl
          (other _ (refl, refl) (storage _ refl refl (storage _ refl refl no_more))))))

scanned :
    Pickle.scan
      (suc (length pickle_entry.packed))
      pickle_entry.packed
      (Pickle.scan_start pickle_entry.packed)
    ≡ gives ((codes "net.0.weight", some 0) ∷ [])
unfolding checkpoint_program
scanned = refl

agrees : Pickle.mismatch 6 ((codes "net.0.weight", some 0) ∷ []) ≡ none
unfolding checkpoint_program
agrees = refl

checkpoint : IsCheckpoint pickle_entry entries storages 1
checkpoint = record {
  fits = (
    entry-Fits (codes "oracle/data.pkl") pickle_entry.packed (omega arith),
    (
      entry-Fits (codes "oracle/data/0") (zeros 2097152) (omega arith),
      (
        entry-Fits (codes "oracle/data/1") (zeros 1024) (omega arith),
        (
          entry-Fits (codes "oracle/data/2") (zeros 262144) (omega arith),
          (
            entry-Fits (codes "oracle/data/3") (zeros 1024) (omega arith),
            (
              entry-Fits (codes "oracle/byteorder") (codes "little") (omega arith),
              (
                entry-Fits (codes "oracle/data/4") (zeros 262144) (omega arith),
                (entry-Fits (codes "oracle/data/5") (zeros 1024) (omega arith), tt),
              ),
            ),
          ),
        ),
      ),
    ),
  );
  entries_fit = omega arith;
  size_fits = entries_size;
  pickle_name = refl;
  pickle_method = refl;
  pickle_long = omega arith;
  found = (codes "net.0.weight", some 0) ∷ [];
  scanned = scanned;
  agrees = agrees;
  saves = entries-Saves;
  layers_saved = refl;
  layers_pos = omega arith;
  storages_fit = storages_fit;
}

load-archive_example :
    (s' : Scheduler whole greater (λ b. b)) × (load whole greater
        (λ b. b)
        ending
        3
        (codes "oracle.pt")
        (some (archive (pickle_entry ∷ entries)))
        2048
        256
        256
        (record { net = net; err = [] })
      ≡ gives (true, s'))
    × (s'.net.dim ≡ 2048)
    × (s'.net.hidden ≡ 256)
    × (s'.net.experts ≡ 256)
    × (s'.net.layers.size ≡ 1)
    × ((layer : ℕ)
        → layer < 1
        → s'.net.layers.at layer ≡ saved_weights whole greater (λ b. b) storages layer)
load-archive_example =
    load-archive whole greater (λ b. b) ending 3 (codes "oracle.pt") 2048 256 256
      (record { net = net; err = [] }) pickle_entry entries storages 1 checkpoint

parse_zip-archive_example :
    Zip.parse_zip ending 3 (archive (pickle_entry ∷ entries)) new_loader
    ≡ Checkpoint.◌>>=◌ (store_all ending 3 (pickle_entry ∷ entries) new_loader) Zip.use_pickle
parse_zip-archive_example =
    parse_zip-archive ending 3 (pickle_entry ∷ entries) new_loader checkpoint.fits (omega arith)
      entries_size

parse_pickle_ends_example : parse_pickle pickle_entry.packed new_loader ≢ unfinished
parse_pickle_ends_example = parse_pickle_ends pickle_entry.packed new_loader (omega arith)

stalls : (s : ℕ) → s ≡ 0 → ((stalling.inflate s).0 ≡ buf_error) × ((stalling.inflate s).2 ≡ 0)
stalls zero e = (refl, refl)
stalls (suc s) e = absurd (omega (arith, e))

inflate_entry_stalls_example : inflate_entry stalling 1000 (1 ∷ 2 ∷ []) ≡ unfinished
inflate_entry_stalls_example =
    inflate_entry_stalls stalling (λ s. s ≡ 0) stalls 2 1000 (1 ∷ 2 ∷ []) 2 refl
      (refl, (refl, refl))

-- A file that begins like an archive.
abbrev torn : Bytes
torn =
    b'P' ∷ b'K' ∷ 3 ∷ 4 ∷ 0 ∷ 0 ∷ 0 ∷ 0 ∷ 0 ∷ 0 ∷ 0 ∷ 0 ∷ 0 ∷ 0 ∷ 0 ∷ 0 ∷ 0 ∷ 0 ∷ 0 ∷ 0 ∷ 0 ∷ 0 ∷ []

torn-HasNone : HasNone torn 0
unfolding checkpoint_program
torn-HasNone zero h = refl
torn-HasNone (suc k) h = absurd (omega (arith, h))

magic : (Bytes.at torn 0 ≡ b'P') × (Bytes.at torn 1 ≡ b'K')
unfolding checkpoint_program
magic = (refl, refl)

open_archive_unended_example :
    open_archive ending 3 (codes "a.pt") (some torn) new_loader ≡ undefined
open_archive_unended_example =
    open_archive_unended ending 3 (codes "a.pt") torn new_loader (omega arith) magic.0 magic.1
      torn-HasNone

-- The storage of the first weight under the name of another tensor.
abbrev filled : PtLoader
filled = record new_loader { path = codes "a.pt"; buffers = (0, []) ∷ [] }

abbrev swapped : PtLoader
swapped = record filled {
  tensors = (codes "layers.0.net.0.weight", tensor_of 0) ∷ [];
  err =
      codes
        "oracle tensor order mismatch at storage 0: expected net.0.weight but pickle says net.0.bias";
}

rejects : parse_pickle (pickle (codes "net.0.bias") (codes "0")) filled ≡ gives (false, swapped)
unfolding checkpoint_program
rejects = refl

parse_pickle_rejected_example : is_open swapped ≡ true
parse_pickle_rejected_example =
    parse_pickle_rejected (pickle (codes "net.0.bias") (codes "0")) filled swapped refl
      (omega arith) (omega arith) (omega arith) rejects
