-- ===== src/Checkpoint/Headers.antt =====
-- What stands in the headers of a written archive, for the reads of `PtLoader::parse_zip` of
-- dee.cpp/src/pt_loader.cpp.
use dee.Prelude.{
  ℕ, zero, suc, ◌+◌, ◌-◌, ◌^◌, ◌≤◌, ◌<◌, ◌≡◌, refl, sym, ap, ◌∙◌, true, false, List, ◌∷◌, ◌++◌,
  arith, ltb, length, length-append, some,
}
use mathlib.Core.List.{append_assoc}
use dee.Bytes.{Bytes, at, drop, slice, word16, word32}
use dee.Bytes.Laws.{at-drop, word16-drop, word32-drop, slice-append, drop_behind, place_bound}
use dee.Checkpoint.{gives}
use dee.Checkpoint.Zip.{is_eocd, search_eocd, find_eocd}
use dee.Checkpoint.Archive.{
  Entry, local_header, central_header, end_record, local_part, locals, Fits,
}

-- The numbers in a header.
central_fields :
    (e : Entry) (off : ℕ) (d : Bytes)
    → Fits e
    → length e.packed < 2 ^ 32
    → off < 2 ^ 32
    → (word16 (central_header e off ++ d) 10 ≡ e.method)
      × (word32 (central_header e off ++ d) 20 ≡ length e.packed)
      × (word16 (central_header e off ++ d) 28 ≡ length e.name)
      × (word16 (central_header e off ++ d) 30 ≡ 0)
      × (word16 (central_header e off ++ d) 32 ≡ 0)
      × (word32 (central_header e off ++ d) 42 ≡ off)
unfolding central_header word16 word32 at
central_fields e off d f p o =
    (omega arith, omega arith, omega arith, omega arith, omega arith, omega arith)

local_fields :
    (e : Entry) (d : Bytes)
    → Fits e
    → (word16 (local_header e ++ d) 26 ≡ length e.name)
      × (word16 (local_header e ++ d) 28 ≡ length e.padding)
unfolding local_header word16 at
local_fields e d f = (omega arith, omega arith)

pub ltb-false : (a b : ℕ) → b ≤ a → ltb a b ≡ false
ltb-false a b h = ground arith

-- What is read of an entry whose header in the directory stands at `p`.
pub record Listed (d : Bytes) (p : ℕ) (e : Entry) (off : ℕ) : Type 0 where
  pub method_at : word16 d (p + 10) ≡ e.method
  pub size_at : word32 d (p + 20) ≡ length e.packed
  pub name_length_at : word16 d (p + 28) ≡ length e.name
  pub extra_at : word16 d (p + 30) ≡ 0
  pub comment_at : word16 d (p + 32) ≡ 0
  pub offset_at : word32 d (p + 42) ≡ off
  pub name_at : slice d (p + 46) (length e.name) ≡ e.name
  pub name_inside : p + 46 + length e.name ≤ length d

pub central_Listed :
    (d : Bytes) (p : ℕ) (e : Entry) (off : ℕ) (rest : Bytes)
    → Fits e
    → length e.packed < 2 ^ 32
    → off < 2 ^ 32
    → p ≤ length d
    → drop p d ≡ central_header e off ++ (e.name ++ rest)
    → Listed d p e off
central_Listed d p e off rest f s o b at_p =
    let (m, z, n, x, c, h) = central_fields e off (e.name ++ rest) f s o in
    let size : length (central_header e off) ≡ 46 = unfold central_header in refl in
    let behind : drop (p + 46) d ≡ e.name ++ rest =
      ap (λ k. drop (p + k) d) (sym size)
      ∙ drop_behind (central_header e off) (e.name ++ rest) d p at_p in
    let inside : p + 46 ≤ length d =
      omega (arith, size, place_bound (central_header e off) (e.name ++ rest) d p b at_p) in
    record {
      method_at = word16-drop p d 10 ∙ ap (λ x. word16 x 10) at_p ∙ m;
      size_at = word32-drop p d 20 ∙ ap (λ x. word32 x 20) at_p ∙ z;
      name_length_at = word16-drop p d 28 ∙ ap (λ x. word16 x 28) at_p ∙ n;
      extra_at = word16-drop p d 30 ∙ ap (λ x. word16 x 30) at_p ∙ x;
      comment_at = word16-drop p d 32 ∙ ap (λ x. word16 x 32) at_p ∙ c;
      offset_at = word32-drop p d 42 ∙ ap (λ x. word32 x 42) at_p ∙ h;
      name_at = slice-append e.name rest d (p + 46) behind;
      name_inside = place_bound e.name rest d (p + 46) inside behind;
    }

-- What is read of the local part of an entry that stands at `off`.
pub record Placed (d : Bytes) (off : ℕ) (e : Entry) : Type 0 where
  pub name_size : word16 d (off + 26) ≡ length e.name
  pub padding_size : word16 d (off + 28) ≡ length e.padding
  pub packed_at : slice d (off + 30 + length e.name + length e.padding) (length e.packed) ≡ e.packed
  pub packed_inside : off + 30 + length e.name + length e.padding + length e.packed ≤ length d

pub local_Placed :
    (d : Bytes) (off : ℕ) (e : Entry) (rest : Bytes)
    → Fits e
    → off ≤ length d
    → drop off d ≡ local_part e ++ rest
    → Placed d off e
local_Placed d off e rest f b at_off =
    let (n, x) = local_fields e (e.name ++ (e.padding ++ (e.packed ++ rest))) f in
    let size : length (local_header e) ≡ 30 = unfold local_header in refl in
    let start : drop off d ≡ local_header e ++ (e.name ++ (e.padding ++ (e.packed ++ rest))) =
      at_off ∙ unfold local_part in simp append_assoc in
    let one : drop (off + 30) d ≡ e.name ++ (e.padding ++ (e.packed ++ rest)) =
      ap (λ k. drop (off + k) d) (sym size) ∙ drop_behind (local_header e) _ d off start in
    let two : drop (off + 30 + length e.name) d ≡ e.padding ++ (e.packed ++ rest) =
      drop_behind e.name _ d (off + 30) one in
    let three : drop (off + 30 + length e.name + length e.padding) d ≡ e.packed ++ rest =
      drop_behind e.padding _ d (off + 30 + length e.name) two in
    let b0 = place_bound (local_header e) _ d off b start in
    let b1 = place_bound e.name _ d (off + 30) (omega (arith, size, b0)) one in
    let b2 = place_bound e.padding _ d (off + 30 + length e.name) b1 two in
    record {
      name_size = word16-drop off d 26 ∙ ap (λ x. word16 x 26) start ∙ n;
      padding_size = word16-drop off d 28 ∙ ap (λ x. word16 x 28) start ∙ x;
      packed_at = slice-append e.packed rest d _ three;
      packed_inside = place_bound e.packed rest d _ b2 three;
    }

pub packed-le : (e : Entry) → length e.packed ≤ length (local_part e)
unfolding local_part
packed-le e = omega (
  arith,
  length-append (local_header e) (e.name ++ (e.padding ++ e.packed)),
  length-append e.name (e.padding ++ e.packed),
  length-append e.padding e.packed,
)

search_eocd_hit : (d : Bytes) (i : ℕ) → is_eocd d i ≡ true → search_eocd d i ≡ gives i
unfolding search_eocd
search_eocd_hit d zero h = rw h refl
search_eocd_hit d (suc i) h = rw h refl

add_zero : (n : ℕ) → n + 0 ≡ n
add_zero n = omega arith

end_sign :
    (d x : Bytes) (count size off : ℕ)
    → drop (length x) d ≡ end_record count size off
    → is_eocd d (length x) ≡ true
unfolding end_record at
end_sign d x count size off e =
    let byte : (k : ℕ) → at d (length x + k) ≡ at (end_record count size off) k =
      λ k. at-drop (length x) d k ∙ ap (λ y. at y k) e in
    let first : at d (length x) ≡ 0x50 = ap (at d) (sym (add_zero (length x))) ∙ byte 0 in
    rw (first, byte 1, byte 2, byte 3) refl

-- What is read of the end of the directory.
pub end_fields :
    (d x : Bytes) (count size off : ℕ)
    → count < 2 ^ 16
    → off < 2 ^ 32
    → drop (length x) d ≡ end_record count size off
    → length d ≡ length x + 22
    → (find_eocd d ≡ gives (some (length x)))
      × (word16 d (length x + 10) ≡ count)
      × (word32 d (length x + 16) ≡ off)
unfolding find_eocd
end_fields d x count size off c o at_x n =
    let place : length d - 22 ≡ length x = omega (arith, n) in
    let long : ltb (length d) 22 ≡ false = ltb-false (length d) 22 (omega (arith, n)) in
    let sign : is_eocd d (length x) ≡ true = end_sign d x count size off at_x in
    (
      rw (long, find_eocd) (rw place (rw (search_eocd_hit d (length x) sign) refl)),
      word16-drop (length x) d 10
          ∙ ap (λ y. word16 y 10) at_x
          ∙ unfold end_record word16 at in omega arith,
      word32-drop (length x) d 16
          ∙ ap (λ y. word32 y 16) at_x
          ∙ unfold end_record word32 word16 at in omega arith,
    )

pub length-locals :
    (e : Entry) (es : List Entry)
    → length (locals (e ∷ es))
      ≡ 30 + length e.name + length e.padding + length e.packed + length (locals es)
unfolding locals local_part
length-locals e es =
    let size : length (local_header e) ≡ 30 = unfold local_header in refl in
    omega (
      arith,
      size,
      length-append (local_part e) (locals es),
      length-append (local_header e) (e.name ++ (e.padding ++ e.packed)),
      length-append e.name (e.padding ++ e.packed),
      length-append e.padding e.packed,
    )
