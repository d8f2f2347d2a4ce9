-- ===== src/Bytes/Words.antt =====
-- Numbers written lowest byte first, as dee.cpp/src/pt_loader.cpp reads them.
use dee.Prelude.{ℕ, ◌/◌, ◌%◌, ◌^◌, [], ◌∷◌, ◌++◌}
use dee.Bytes.{Bytes}

unfoldable pub le16 : ℕ → Bytes
le16 n = (n % 2 ^ 8) ∷ (n / 2 ^ 8 % 2 ^ 8) ∷ []

unfoldable pub le32 : ℕ → Bytes
unfolding le16
le32 n = le16 (n % 2 ^ 16) ++ le16 (n / 2 ^ 16)
