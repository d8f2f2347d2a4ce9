-- ===== src/Keys.antt =====
-- The pair (layer, expert) that names an expert: `struct ExpertKey` and `struct ExpertKeyHash` of
-- dee.cpp/include/dee/vram_cache.h. An `int` is its 32-bit pattern.
use dee.Prelude.{ℕ, ◌≡◌, ◌↔◌, Bool, true, ◌&&◌, ◌==◌, arith}
use dee.Map.{Eq}

pub record ExpertKey : Type 0 where
  pub layer : ℕ
  pub expert : ℕ

abbrev key_beq : ExpertKey → ExpertKey → Bool
key_beq k o = k.layer == o.layer && k.expert == o.expert

pub key_beq_iff : (k o : ExpertKey) → (key_beq k o ≡ true) ↔ (k ≡ o)
key_beq_iff k o = ground arith

-- `operator==`
instance abbrev pub key_eq : Eq ExpertKey
key_eq = record { beq = key_beq; beq_iff = key_beq_iff }
