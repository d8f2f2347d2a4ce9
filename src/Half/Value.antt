-- ===== src/Half/Value.antt =====
-- What the bits of a 16-bit and of a 32-bit IEEE float stand for, for
-- dee.cpp/src/weight_mmap.cpp.
use dee.Prelude.{ℕ, ◌+◌, ◌-◌, ◌*◌, ◌/◌, ◌%◌, ◌^◌, ◌==◌, if◌then◌else◌}
use dee.Half.{exp_of, mant_of}

-- The magnitude of a finite half, in units of its least positive value 2 ^ -24.
unfoldable pub half_magnitude : ℕ → ℕ
half_magnitude h = if exp_of h == 0 then mant_of h else (1024 + mant_of h) * 2 ^ (exp_of h - 1)

abbrev pub float_sign : ℕ → ℕ
float_sign u = u / 2 ^ 31 % 2

abbrev pub float_exp : ℕ → ℕ
float_exp u = u / 2 ^ 23 % 256

abbrev pub float_mant : ℕ → ℕ
float_mant u = u % 2 ^ 23

-- The magnitude of a finite float, in units of its least positive value 2 ^ -149.
unfoldable pub float_magnitude : ℕ → ℕ
float_magnitude u =
    if float_exp u == 0 then float_mant u else (2 ^ 23 + float_mant u) * 2 ^ (float_exp u - 1)
