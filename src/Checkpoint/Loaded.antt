-- ===== src/Checkpoint/Loaded.antt =====
-- What `OracleScheduler::load` of dee.cpp/src/oracle.cpp reads through an open loader whose table
-- and storages are those of a checkpoint.
use dee.Prelude.{
  ℕ, zero, suc, ◌+◌, ◌*◌, ◌/◌, ◌%◌, ◌^◌, ◌≤◌, ◌<◌, ◌≡◌, refl, sym, ap, ◌∙◌, Bool, true, false, none,
  some, List, [], ◌∷◌, arith, ltb, ◌==◌, if◌then◌else◌, inl, inr, Bool-cases, length, get_elem?,
}
use dee.Map.{find}
use dee.Kernels.{Arithmetic}
use dee.Oracle.{Vector, OracleLayerWeights}
use dee.Device.{num_eq}
use dee.Json.{codes}
use dee.Weights.{text_key}
use dee.Bytes.{Bytes, take, drop}
use dee.Checkpoint.{gives, PtLoader, PtTensor, nbytes, copied, read_tensor}
use dee.Checkpoint.Pickle.{local_name, full_name, tensor_of}
use dee.Checkpoint.Table.{name_of}
use dee.Checkpoint.Load.{
  floats, read_vector, read_parts, parts, read_layers, count_layers, set_layer,
}

-- Storage `g` of a checkpoint.
abbrev pub storage_of : List Bytes → ℕ → Bytes
storage_of bs g = elim (get_elem? bs g) [ none ↦ [] | some b ↦ b ]

-- An open loader has a tensor for each storage, and the storages, which are large enough.
pub record IsLoaded (l : PtLoader) (bs : List Bytes) : Type 0 where
  pub tensors_are :
      (h : ℕ)
      → h < 2 ^ 31
      → find (name_of h) l.tensors ≡ (if ltb h (length bs) then some (tensor_of h) else none)
  pub tensors_count : length l.tensors ≡ length bs
  pub buffers_are : (g : ℕ) → find g l.buffers ≡ get_elem? bs g
  pub few : length bs < 2 ^ 31
  pub storages_fit : (g : ℕ) → g < length bs → nbytes (tensor_of g) ≤ length (storage_of bs g)

get_elem?-storage_of :
    (bs : List Bytes) (g : ℕ) → g < length bs → get_elem? bs g ≡ some (storage_of bs g)
get_elem?-storage_of [] g h = absurd (omega arith)
get_elem?-storage_of (b ∷ bs) zero h = refl
get_elem?-storage_of (b ∷ bs) (suc g) h = get_elem?-storage_of bs g (omega arith)

nbytes_bound : (t : PtTensor) → nbytes t < 2 ^ 64
unfolding nbytes
nbytes_bound t = omega arith

copied_whole :
    (g : ℕ) (b : Bytes)
    → nbytes (tensor_of g) ≤ length b
    → copied (tensor_of g) b ≡ some (take (nbytes (tensor_of g)) b)
copied_whole g b fits =
    let sum : (0 + nbytes (tensor_of g)) % 2 ^ 64 ≡ nbytes (tensor_of g) =
      omega (arith, nbytes_bound (tensor_of g)) in
    let test : ltb (length b) (nbytes (tensor_of g)) ≡ false = ground arith in
    unfold copied tensor_of drop in rw sum (rw test refl)

-- The place of a layer's tensor among the storages.
full_name-local_name :
    (layer k : ℕ) → k < 6 → full_name layer (local_name k) ≡ name_of (layer * 6 + k)
full_name-local_name layer k h =
    let front : (layer * 6 + k) / 6 ≡ layer = omega arith in
    let back : (layer * 6 + k) % 6 ≡ k = omega arith in
    sym (
      ap (λ n. full_name n (local_name ((layer * 6 + k) % 6))) front
      ∙ ap (λ n. full_name layer (local_name n)) back)

module _ (A : Arithmetic) (greater : A.Float → A.Float → Bool) (float_of_bits : ℕ → A.Float) where
  abbrev pub Weights : Type 0
  Weights = OracleLayerWeights A greater

  -- The vector that storage `g` holds.
  unfoldable pub saved : List Bytes → ℕ → Vector A.Float
  saved bs g =
      floats A greater float_of_bits (nbytes (tensor_of g) / 4)
        (take (nbytes (tensor_of g)) (storage_of bs g))

  -- The weights of a layer, from six storages.
  unfoldable pub saved_weights : List Bytes → ℕ → Weights
  saved_weights bs layer = record {
    w0 = saved bs (layer * 6 + 0);
    b0 = saved bs (layer * 6 + 1);
    w2 = saved bs (layer * 6 + 2);
    b2 = saved bs (layer * 6 + 3);
    w4 = saved bs (layer * 6 + 4);
    b4 = saved bs (layer * 6 + 5);
  }

  read_vector-saved :
      (l : PtLoader) (bs : List Bytes) (layer k : ℕ) (out : Vector A.Float)
      → IsLoaded l bs
      → k < 6
      → layer * 6 + k < length bs
      → read_vector A greater float_of_bits l (full_name layer (local_name k)) out
        ≡ (true, saved bs (layer * 6 + k))
  unfolding read_tensor read_vector saved tensor_of
  read_vector-saved l bs layer k out i hk h =
      let g : ℕ = layer * 6 + k in
      let inside : ltb g (length bs) ≡ true = ground arith in
      let at_name : find (name_of g) l.tensors ≡ some (tensor_of g) =
        i.tensors_are g (omega (arith, i.few, h))
        ∙ ap (λ x. if x then some (tensor_of g) else none) inside in
      let at_number : find g l.buffers ≡ some (storage_of bs g) =
        i.buffers_are g ∙ get_elem?-storage_of bs g h in
      let read : read_tensor l (name_of g) ≡ some (take (nbytes (tensor_of g)) (storage_of bs g)) =
        rw (at_name, read_tensor)
          (rw (at_number, read_tensor) (copied_whole g (storage_of bs g) (i.storages_fit g h))) in
      ap (λ n. read_vector A greater float_of_bits l n out) (full_name-local_name layer k hk)
      ∙ rw (at_name, read_vector) (rw (read, read_vector) refl)

  read_parts-saved :
      (l : PtLoader) (bs : List Bytes) (layer : ℕ) (w : Weights)
      → IsLoaded l bs
      → layer * 6 + 5 < length bs
      → read_parts A greater float_of_bits l layer (parts A greater float_of_bits) w
        ≡ (true, saved_weights bs layer)
  unfolding read_parts parts saved_weights local_name
  read_parts-saved l bs layer w i h =
      let e0 : read_vector A greater float_of_bits l (full_name layer (codes "net.0.weight")) w.w0
          ≡ (true, saved bs (layer * 6 + 0)) =
        read_vector-saved l bs layer 0 w.w0 i (omega arith) (omega (arith, h)) in
      let e1 : read_vector A greater float_of_bits l (full_name layer (codes "net.0.bias")) w.b0
          ≡ (true, saved bs (layer * 6 + 1)) =
        read_vector-saved l bs layer 1 w.b0 i (omega arith) (omega (arith, h)) in
      let e2 : read_vector A greater float_of_bits l (full_name layer (codes "net.2.weight")) w.w2
          ≡ (true, saved bs (layer * 6 + 2)) =
        read_vector-saved l bs layer 2 w.w2 i (omega arith) (omega (arith, h)) in
      let e3 : read_vector A greater float_of_bits l (full_name layer (codes "net.2.bias")) w.b2
          ≡ (true, saved bs (layer * 6 + 3)) =
        read_vector-saved l bs layer 3 w.b2 i (omega arith) (omega (arith, h)) in
      let e4 : read_vector A greater float_of_bits l (full_name layer (codes "net.4.weight")) w.w4
          ≡ (true, saved bs (layer * 6 + 4)) =
        read_vector-saved l bs layer 4 w.w4 i (omega arith) (omega (arith, h)) in
      let e5 : read_vector A greater float_of_bits l (full_name layer (codes "net.4.bias")) w.b4
          ≡ (true, saved bs (layer * 6 + 5)) =
        read_vector-saved l bs layer 5 w.b4 i (omega arith) (omega (arith, h)) in
      rw (e0, read_parts)
        (rw (e1, read_parts)
          (rw (e2, read_parts)
            (rw (e3, read_parts)
              (rw (e4, read_parts) (rw (e5, read_parts) (rw (e0, e1, e2, e3, e4, e5) refl))))))

  -- The layers from one on are those of the storages, and the others as they were.
  abbrev pub Reads : List Bytes → ℕ → ℕ → Vector Weights → Vector Weights → Type 0
  Reads bs k layer ws ws' =
      (ws'.size ≡ ws.size)
      × ((i : ℕ) → layer ≤ i → i < layer + k → ws'.at i ≡ saved_weights bs i)
      × ((i : ℕ) → i < layer → ws'.at i ≡ ws.at i)

  read_layers-step :
      (l : PtLoader) (k layer : ℕ) (w : Weights) (ws : Vector Weights)
      → read_parts A greater float_of_bits l layer (parts A greater float_of_bits) (ws.at layer)
        ≡ (true, w)
      → read_layers A greater float_of_bits l (suc k) layer ws
        ≡ read_layers A greater float_of_bits l k
            (layer + 1)
            (set_layer A greater float_of_bits layer w ws)
  unfolding read_layers
  read_layers-step l k layer w ws e =
      ap
        (λ x. elim x.0 [
          | false ↦ (some layer, set_layer A greater float_of_bits layer x.1 ws)
          | true ↦
              read_layers A greater float_of_bits l k (layer + 1)
                (set_layer A greater float_of_bits layer x.1 ws)
        ])
        e

  pub read_layers-Reads :
      (l : PtLoader) (bs : List Bytes) (k layer : ℕ) (ws : Vector Weights)
      → IsLoaded l bs
      → (layer + k) * 6 ≤ length bs
      → (ws' : Vector Weights) × (read_layers A greater float_of_bits l k layer ws ≡ (none, ws'))
        × Reads bs k layer ws ws'
  unfolding read_layers
  read_layers-Reads l bs zero layer ws i h =
      (ws, refl, (refl, λ j a b. absurd (omega (arith, a, b)), λ j a. refl))
  read_layers-Reads l bs (suc k) layer ws i h =
      let one : Vector Weights =
        set_layer A greater float_of_bits layer (saved_weights bs layer) ws in
      let (ws', ran, (size, inside, before)) =
        read_layers-Reads l bs k (layer + 1) one i (omega (arith, h)) in
      let here : one.at layer ≡ saved_weights bs layer =
        let e : (layer == layer) ≡ true = ground arith in rw e refl in
      let kept : (j : ℕ) → j < layer → one.at j ≡ ws.at j =
        λ j b. let e : (j == layer) ≡ false = ground arith in rw e refl in
      (
        ws',
        read_layers-step l k layer (saved_weights bs layer) ws
              (read_parts-saved l bs layer (ws.at layer) i (omega (arith, h)))
            ∙ ran,
        (
          size,
          λ j a b. elim (Bool-cases (j == layer)) [
            | inl same ↦
                let e : j ≡ layer = ground (arith, same) in
                before j (omega (arith, e)) ∙ ap one.at e ∙ here ∙ ap (saved_weights bs) (sym e)
            | inr differs ↦ inside j (ground (arith, differs, a)) (omega (arith, b))
          ],
          λ j a. before j (omega (arith, a)) ∙ kept j a,
        ),
      )

  pub count_layers-saved :
      (f : ℕ) (l : PtLoader) (bs : List Bytes) (n layer : ℕ)
      → IsLoaded l bs
      → length bs ≡ n * 6
      → layer ≤ n
      → n < layer + f
      → count_layers A greater float_of_bits f l layer ≡ gives n
  unfolding count_layers local_name
  count_layers-saved zero l bs n layer i e b h = absurd (omega (arith, b, h))
  count_layers-saved (suc f) l bs n layer i e b h =
      let found = i.tensors_are (layer * 6 + 0) (omega (arith, b, e, i.few)) in
      let name = full_name-local_name layer 0 (omega arith) in
      let asked = ap (λ x. find x l.tensors) name ∙ found in
      elim (Bool-cases (ltb (layer * 6 + 0) (length bs))) [
        | inl more ↦
            let there : find (full_name layer (codes "net.0.weight")) l.tensors
                ≡ some (tensor_of (layer * 6 + 0)) =
              asked ∙ rw more refl in
            rw (there, count_layers)
              (count_layers-saved f l bs n (layer + 1) i e (ground (arith, more, e))
                (omega (arith, h)))
        | inr last ↦
            let absent : find (full_name layer (codes "net.0.weight")) l.tensors ≡ none =
              asked ∙ rw last refl in
            let all : layer ≡ n = ground (arith, last, e, b) in
            rw (absent, count_layers) (ap gives all)
      ]
