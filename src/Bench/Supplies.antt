-- ===== src/Bench/Supplies.antt =====
-- The synthetic weights of dee.cpp/tools/dee_bench.cpp supply every expert of the model, in a slot.
use dee.Prelude.{
  ℕ, zero, suc, ◌+◌, ◌*◌, ◌%◌, ◌^◌, ◌<◌, ◌≡◌, refl, ◌&&◌, none, some, List, [], ◌∷◌, arith, inl,
  inr, Bool-cases, ltb, ◌==◌, if◌then◌else◌,
}
use dee.Map.{Map, find}
use dee.Map.Laws.{find-assign}
use dee.Keys.{ExpertKey, key_eq}
use dee.Bench.Synthetic.{
  gate_up, down, ExpertTensorView, Entry, entry_of, add_experts, add_layers, new_source,
  expert_tensors, expert_total_bytes, slot_bytes_for,
}

module _ (Float : Type 0) (float_of_int : ℕ → Float) where
  abbrev key : ℕ → ℕ → ExpertKey
  key L E = record { layer = L; expert = E }

  find-add_experts :
      (L n l e : ℕ) (m : Map ExpertKey (Entry Float float_of_int))
      → find (key l e) (add_experts Float float_of_int L n m)
        ≡ (if (l == L) && ltb e n then some (entry_of Float float_of_int l e) else find (key l e) m)
  unfolding add_experts
  find-add_experts L zero l e m = ground arith
  find-add_experts L (suc n) l e m =
      let before = find-add_experts L n l e m in
      let entered =
        find-assign (key L n) (key l e) (entry_of Float float_of_int L n)
          (add_experts Float float_of_int L n m) in
      ground (arith, before, entered)

  find-add_layers :
      (ne n l e : ℕ)
      → find (key l e) (add_layers Float float_of_int ne n)
        ≡ (if ltb l n && ltb e ne then some (entry_of Float float_of_int l e) else none)
  unfolding add_layers find
  find-add_layers ne zero l e = ground arith
  find-add_layers ne (suc n) l e =
      let before = find-add_layers ne n l e in
      let entered = find-add_experts n ne l e (add_layers Float float_of_int ne n) in
      ground (arith, before, entered)

  -- The two projections of an expert, one behind the other in its slot.
  abbrev pub views_of : (hidden inter l e : ℕ) → List (ExpertTensorView Float float_of_int)
  views_of hidden inter l e =
      record {
        values = (entry_of Float float_of_int l e).gu;
        nbytes = 8 * (inter * hidden);
        slot_offset = 0;
        kind = gate_up;
      }
      ∷ record {
        values = (entry_of Float float_of_int l e).dn;
        nbytes = 4 * (inter * hidden);
        slot_offset = 8 * (inter * hidden);
        kind = down;
      }
      ∷ []

  -- Where the bytes of a slot are counted without overflow, the source has exactly the experts
  -- below its dimensions, and throws for others; an expert's projections lie one behind the other,
  -- fill what it takes in all, and 64 bytes of a slot stay free.
  pub expert_tensors-new_source :
      (nl ne hidden inter l e : ℕ)
      → 12 * (inter * hidden) + 64 < 2 ^ 64
      → (expert_tensors Float float_of_int (new_source Float float_of_int nl ne hidden inter) l e
          ≡ (if ltb l nl && ltb e ne then some (views_of hidden inter l e) else none))
        × (expert_total_bytes Float float_of_int (new_source Float float_of_int nl ne hidden inter)
            ≡ 12 * (inter * hidden))
        × (slot_bytes_for inter hidden ≡ 12 * (inter * hidden) + 64)
  unfolding expert_tensors new_source expert_total_bytes slot_bytes_for
  expert_tensors-new_source nl ne hidden inter l e h =
      let gu : 2 * inter * hidden % 2 ^ 64 * 4 % 2 ^ 64 ≡ 8 * (inter * hidden) = omega (arith, h) in
      let dn : hidden * inter % 2 ^ 64 * 4 % 2 ^ 64 ≡ 4 * (inter * hidden) = omega (arith, h) in
      let found = find-add_layers ne nl l e in
      (
        elim (Bool-cases (ltb l nl && ltb e ne)) [
          | inl known ↦ rw (found, known, expert_tensors, gu, dn) refl
          | inr other ↦ rw (found, other, expert_tensors) refl
        ],
        omega (arith, h, gu, dn),
        omega (arith, h),
      )
