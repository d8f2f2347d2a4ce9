-- ===== src/Bytes.antt =====
-- Byte sequences and the numbers that stand in them, as dee.cpp/src/pt_loader.cpp reads files: a
-- cast pointer reads the lowest byte first and needs no alignment.
pub mod Words
pub mod Laws
use dee.Prelude.{
  ℕ, zero, suc, ◌+◌, ◌*◌, ◌/◌, ◌%◌, ◌^◌, Bool, true, false, ◌&&◌, ◌||◌, List, [], ◌∷◌, ◌==◌,
}
use dee.Json.{Text}

abbrev pub Bytes : Type 0
Bytes = List ℕ

-- `d[i]`, and 0 behind the end, which no guarded read reaches.
unfoldable pub at : Bytes → ℕ → ℕ
at [] i = 0
at (c ∷ cs) zero = c
at (c ∷ cs) (suc i) = at cs i

unfoldable pub drop : ℕ → Bytes → Bytes
drop zero d = d
drop (suc n) [] = []
drop (suc n) (c ∷ cs) = drop n cs

unfoldable pub take : ℕ → Bytes → Bytes
take zero d = []
take (suc n) [] = []
take (suc n) (c ∷ cs) = c ∷ take n cs

-- The `len` bytes from `off` on.
unfoldable pub slice : Bytes → ℕ → ℕ → Bytes
slice d off len = take len (drop off d)

-- `*(const uint16_t*)(d + i)`
unfoldable pub word16 : Bytes → ℕ → ℕ
word16 d i = at d i + 2 ^ 8 * at d (i + 1)

-- `*(const uint32_t*)(d + i)`
unfoldable pub word32 : Bytes → ℕ → ℕ
word32 d i = word16 d i + 2 ^ 16 * word16 d (i + 2)

-- `s.find(t) == 0`, also `s.rfind(t, 0) == 0`
unfoldable pub starts_with : Text → Text → Bool
starts_with [] s = true
starts_with (c ∷ cs) [] = false
starts_with (c ∷ cs) (d ∷ ds) = (c == d) && starts_with cs ds

-- `s.find(t) != std::string::npos`
unfoldable pub contains : Text → Text → Bool
contains t [] = starts_with t []
contains t (d ∷ ds) = starts_with t (d ∷ ds) || contains t ds
