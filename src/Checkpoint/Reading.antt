-- ===== src/Checkpoint/Reading.antt =====
-- `PtLoader::parse_zip` of dee.cpp/src/pt_loader.cpp reads an archive as it was written.
use dee.Prelude.{
  ℕ, suc, ◌+◌, ◌^◌, ◌≤◌, ◌<◌, ◌≡◌, refl, sym, ap, ◌∙◌, Bool, true, false, List, [], ◌∷◌, ◌++◌,
  arith, ltb, length, length-append, All,
}
use mathlib.Core.List.{append_assoc}
use dee.Bytes.{Bytes, drop, word16, word32}
use dee.Bytes.Laws.{drop-append, drop_behind, place_bound}
use dee.Checkpoint.{Result, gives, undefined, unfinished, ◌>>=◌, PtLoader}
use dee.Checkpoint.Zip.{
  Zlib, store_entry, enter_entry, next_header, enter_entries, use_pickle, parse_zip,
}
use dee.Checkpoint.Archive.{
  Entry, central_header, end_record, local_part, locals, directory, archive, Fits,
}
use dee.Checkpoint.Headers.{
  Listed, central_Listed, Placed, local_Placed, packed-le, ltb-false, end_fields,
}

bind_cong {ℓ κ} :
    {A : Type ℓ} {B : Type κ} (m : Result A) (f g : A → Result B)
    → ((a : A) → f a ≡ g a)
    → (m >>= f) ≡ (m >>= g)
bind_cong (gives a) f g h = h a
bind_cong undefined f g h = refl
bind_cong unfinished f g h = refl

branch_cong :
    (f g : PtLoader → Result (Bool × PtLoader))
    → ((l : PtLoader) → f l ≡ g l)
    → (x : Bool × PtLoader)
    → ◌≡◌ {A = Result (Bool × PtLoader)}
        (elim x.0 [ false ↦ gives (false, x.1) | true ↦ f x.1 ])
        (elim x.0 [ false ↦ gives (false, x.1) | true ↦ g x.1 ])
branch_cong f g h (false, l) = refl
branch_cong f g h (true, l) = h l

module _ (Z : Zlib) (fuel : ℕ) where
  enter_entry_lem :
      (d : Bytes) (p : ℕ) (e : Entry) (off : ℕ) (l : PtLoader)
      → Listed d p e off
      → Placed d off e
      → enter_entry Z fuel d p l ≡ store_entry Z fuel e.name e.method e.packed l
  unfolding enter_entry
  enter_entry_lem d p e off l c h =
      let data_off : ℕ = off + 30 + length e.name + length e.padding in
      let header_ends : ltb (length d) (word32 d (p + 42) + 30) ≡ false =
        rw c.offset_at (ltb-false (length d) (off + 30) (omega (arith, h.packed_inside))) in
      let starts : word32 d (p + 42)
            + 30
            + word16 d (word32 d (p + 42) + 26)
            + word16 d (word32 d (p + 42) + 28)
          ≡ data_off =
        rw (c.offset_at, h.name_size, h.padding_size) refl in
      let entry_ends : ltb (length d) (data_off + length e.packed) ≡ false =
        ltb-false (length d) (data_off + length e.packed) h.packed_inside in
      rw (header_ends, enter_entry)
        (rw (starts, c.size_at, entry_ends, enter_entry)
          (rw (starts, c.size_at, c.name_length_at, c.method_at, c.name_at, h.packed_at) refl))

  -- The entries in their order, up to the first that fails.
  unfoldable pub store_all : List Entry → PtLoader → Result (Bool × PtLoader)
  store_all [] l = gives (true, l)
  store_all (e ∷ es) l = store_entry Z fuel e.name e.method e.packed l >>= λ (ok, l'). elim ok [
    | false ↦ gives (false, l')
    | true ↦ store_all es l'
  ]

  pub store_all_cons :
      (e : Entry) (es : List Entry) (l : PtLoader)
      → store_all (e ∷ es) l ≡ (
          store_entry Z fuel e.name e.method e.packed l >>= λ (ok, l'). elim ok [
            | false ↦ gives (false, l')
            | true ↦ store_all es l'
          ])
  unfolding store_all
  store_all_cons e es l = refl

  enter_entries_step :
      (n : ℕ) (d : Bytes) (p : ℕ) (e : Entry) (off : ℕ) (l : PtLoader)
      → Listed d p e off
      → Placed d off e
      → enter_entries Z fuel (suc n) d p l ≡ (
          store_entry Z fuel e.name e.method e.packed l >>= λ (ok, l'). elim ok [
            | false ↦ gives (false, l')
            | true ↦ enter_entries Z fuel n d (p + 46 + length e.name) l'
          ])
  unfolding enter_entries
  enter_entries_step n d p e off l c h =
      let next : next_header d p ≡ p + 46 + length e.name =
        omega (arith, c.name_length_at, c.extra_at, c.comment_at) in
      let header_inside : ltb (length d) (p + 46) ≡ false =
        ltb-false (length d) (p + 46) (omega (arith, c.name_inside)) in
      let name_inside : ltb (length d) (p + 46 + word16 d (p + 28)) ≡ false =
        rw c.name_length_at (ltb-false (length d) (p + 46 + length e.name) c.name_inside) in
      rw (header_inside, enter_entries)
        (rw (name_inside, enter_entries)
          (rw (enter_entry_lem d p e off l c h) (
            ap
              (λ q. store_entry Z fuel e.name e.method e.packed l >>= λ (ok, l'). elim ok [
                | false ↦ gives (false, l')
                | true ↦ enter_entries Z fuel n d q l'
              ])
              next)))

  directory-store_all :
      (es : List Entry) (d : Bytes) (p off : ℕ) (l : PtLoader) (tail tail' : Bytes)
      → All Fits es
      → p ≤ length d
      → off ≤ length d
      → off + length (locals es) < 2 ^ 32
      → drop p d ≡ directory off es ++ tail
      → drop off d ≡ locals es ++ tail'
      → enter_entries Z fuel (length es) d p l ≡ store_all es l
  directory-store_all [] d p off l tail tail' f bp bo s at_p at_off =
      unfold enter_entries store_all in refl
  directory-store_all (e ∷ es) d p off l tail tail' f bp bo s at_p at_off =
      let size : length (central_header e off) ≡ 46 = unfold central_header in refl in
      let part : length (locals (e ∷ es)) ≡ length (local_part e) + length (locals es) =
        unfold locals in length-append (local_part e) (locals es) in
      let packed : length e.packed ≤ length (local_part e) = packed-le e in
      let header : drop p d
          ≡ central_header e off
            ++ (e.name ++ (directory (off + length (local_part e)) es ++ tail)) =
        at_p ∙ unfold directory in simp append_assoc in
      let place : drop off d ≡ local_part e ++ (locals es ++ tail') =
        at_off ∙ unfold locals in simp append_assoc in
      let listed : Listed d p e off =
        central_Listed d p e off (directory (off + length (local_part e)) es ++ tail) f.0
          (omega (arith, s, part, packed)) (omega (arith, s, part)) bp header in
      let placed : Placed d off e = local_Placed d off e (locals es ++ tail') f.0 bo place in
      let behind : drop (p + 46) d
          ≡ e.name ++ (directory (off + length (local_part e)) es ++ tail) =
        ap (λ k. drop (p + k) d) (sym size) ∙ drop_behind (central_header e off) _ d p header in
      let rest : (l' : PtLoader)
          → enter_entries Z fuel (length es) d (p + 46 + length e.name) l' ≡ store_all es l' =
        λ l'.
          directory-store_all es d (p + 46 + length e.name) (off + length (local_part e)) l' tail
            tail' f.1 listed.name_inside (place_bound (local_part e) _ d off bo place)
            (omega (arith, s, part)) (drop_behind e.name _ d (p + 46) behind)
            (drop_behind (local_part e) _ d off place) in
      enter_entries_step (length es) d p e off l listed placed
      ∙ bind_cong (store_entry Z fuel e.name e.method e.packed l) _ _ (branch_cong _ _ rest)
      ∙ sym (store_all_cons e es l)

module _ (Z : Zlib) (fuel : ℕ) where
  -- An archive whose sizes fit its fields is found, and its entries are taken in their order, each
  -- with its name, method and data, before the pickle is parsed.
  pub parse_zip-archive :
      (es : List Entry) (l : PtLoader)
      → All Fits es
      → length es < 2 ^ 16
      → length (locals es) < 2 ^ 32
      → parse_zip Z fuel (archive es) l ≡ (store_all Z fuel es l >>= use_pickle)
  parse_zip-archive es l f c s =
      let x : Bytes = locals es ++ directory 0 es in
      let tail : Bytes = end_record (length es) (length (directory 0 es)) (length (locals es)) in
      let size : length tail ≡ 22 = unfold end_record in refl in
      let split : archive es ≡ x ++ tail = unfold archive in simp append_assoc in
      let at_end : drop (length x) (archive es) ≡ tail =
        ap (drop (length x)) split ∙ drop-append x tail in
      let whole : length (archive es) ≡ length x + 22 =
        ap length split ∙ length-append x tail ∙ ap (λ k. length x + k) size in
      let parts : length x ≡ length (locals es) + length (directory 0 es) =
        length-append (locals es) (directory 0 es) in
      let (found, count, off) = end_fields (archive es) x (length es) _ _ c s at_end whole in
      let at_directory : drop (length (locals es)) (archive es) ≡ directory 0 es ++ tail =
        unfold archive in drop-append (locals es) (directory 0 es ++ tail) in
      let at_locals : drop 0 (archive es) ≡ locals es ++ (directory 0 es ++ tail) =
        unfold drop archive in refl in
      let read : enter_entries Z fuel (length es) (archive es) (length (locals es)) l
          ≡ store_all Z fuel es l =
        directory-store_all Z fuel es (archive es) (length (locals es)) 0 l tail
          (directory 0 es ++ tail) f (omega (arith, whole, parts)) (omega arith) (omega (arith, s))
          at_directory at_locals in
      unfold parse_zip in rw found (rw (count, off, read) refl)
