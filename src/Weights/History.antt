-- ===== src/Weights/History.antt =====
-- Histories of calls on a `WeightMmap` of dee.cpp/src/weight_mmap.cpp.
use dee.Prelude.{◌≡◌, refl, Option, none, List, [], ◌∷◌, All}
use dee.Prefetch.{Memory}
use dee.Json.{Text}
use dee.Weights.{Os, WeightMmap, new_mmap, close, open_file, open_with}
use dee.Weights.Resources.{
  IsHeld, replay, IsMapping, close-replay, open_file-IsHeld, open_with-IsHeld,
}

-- A call, with what the operating system answers then and the memory as it is then.
pub data Request : Type 0 where
  reopen : Os → Memory → Text → Request
  reopen_with : Os → Text → Text → Request
  shut : Request

abbrev pub IsAnswered : Request → Type 0
IsAnswered (reopen os mem path) = IsMapping os
IsAnswered (reopen_with os path json) = IsMapping os
IsAnswered shut = Unit {0}

module _ {Float : Type 0} (stod : Text → Option Float) where
  unfoldable pub run : List Request → WeightMmap → WeightMmap
  run [] m = m
  run (reopen os mem path ∷ rs) m = run rs (open_file stod os mem path m).1
  run (reopen_with os path json ∷ rs) m = run rs (open_with stod os path json m).1
  run (shut ∷ rs) m = run rs (close m)

  close-IsHeld : (m : WeightMmap) → IsHeld m → IsHeld (close m)
  close-IsHeld m h = unfold close in close-replay m h

  run-IsHeld :
      (rs : List Request) (m : WeightMmap) → All IsAnswered rs → IsHeld m → IsHeld (run rs m)
  unfolding run
  run-IsHeld [] m a h = h
  run-IsHeld (reopen os mem path ∷ rs) m a h =
      run-IsHeld rs (open_file stod os mem path m).1 a.1 (open_file-IsHeld stod os mem path m a.0 h)
  run-IsHeld (reopen_with os path json ∷ rs) m a h =
      run-IsHeld rs (open_with stod os path json m).1 a.1
        (open_with-IsHeld stod os path json m a.0 h)
  run-IsHeld (shut ∷ rs) m a h = run-IsHeld rs (close m) a.1 (close-IsHeld m h)

  -- After any history of calls, failed ones and those that throw included, the process holds exactly
  -- the descriptor and the mapping that the members name, each taken once and given back once; the
  -- destructor, which closes, gives back all of it.
  pub run-close :
      (rs : List Request)
      → All IsAnswered rs
      → IsHeld (run rs new_mmap)
        × (replay (close (run rs new_mmap)).calls ≡ (Option.some (none, none)))
  unfolding replay
  run-close rs a =
      let h : IsHeld (run rs new_mmap) = run-IsHeld rs new_mmap a refl in
      (h, close-replay (run rs new_mmap) h)
