-- ===== src/Checkpoint/Load.antt =====
-- `OracleScheduler::load` of dee.cpp/src/oracle.cpp: the weights of the Oracle from a checkpoint.
use dee.Prelude.{
  ℕ, zero, suc, ◌+◌, ◌*◌, ◌/◌, Bool, true, false, Option, none, some, List, [], ◌∷◌, ◌++◌, ltb,
  ◌==◌, if◌then◌else◌, length,
}
use dee.Map.{find}
use dee.Kernels.{Arithmetic}
use dee.Oracle.{Vector, OracleLayerWeights, OracleNet}
use dee.Json.{Text, codes}
use dee.Json.Print.{digits}
use dee.Weights.{text_key}
use dee.Bytes.{Bytes, word32}
use dee.Checkpoint.{Result, gives, unfinished, ◌>>=◌, PtLoader, new_loader, nbytes, read_tensor}
use dee.Checkpoint.Pickle.{full_name}
use dee.Checkpoint.Zip.{Zlib, open_archive}

module _ (A : Arithmetic) (greater : A.Float → A.Float → Bool) (float_of_bits : ℕ → A.Float) where
  -- The floats that lie in bytes.
  unfoldable pub floats : ℕ → Bytes → Vector A.Float
  floats n b = record { size = n; at = λ i. float_of_bits (word32 b (4 * i)) }

  -- `resize`: what is new is 0.
  unfoldable pub resize : ℕ → Vector A.Float → Vector A.Float
  resize n v = record { size = n; at = λ i. if ltb i v.size then v.at i else A.zero_float }

  -- `read_tensor(name, std::vector<float>&)`
  unfoldable pub read_vector : PtLoader → Text → Vector A.Float → Bool × Vector A.Float
  read_vector l name out = elim (find name l.tensors) [
    | none ↦ (false, out)
    | some t ↦ elim (read_tensor l name) [
      | none ↦ (false, resize (nbytes t / 4) out)
      | some b ↦ (true, floats (nbytes t / 4) b)
    ]
  ]

  abbrev pub Weights : Type 0
  Weights = OracleLayerWeights A greater

  -- A tensor of a layer: its local name, and the member that it is read to.
  pub record Part : Type 0 where
    pub local : Text
    pub get : Weights → Vector A.Float
    pub put : Vector A.Float → Weights → Weights

  unfoldable pub parts : List Part
  parts =
      record { local = codes "net.0.weight"; get = λ w. w.w0; put = λ v w. record w { w0 = v } }
      ∷ record { local = codes "net.0.bias"; get = λ w. w.b0; put = λ v w. record w { b0 = v } }
      ∷ record { local = codes "net.2.weight"; get = λ w. w.w2; put = λ v w. record w { w2 = v } }
      ∷ record { local = codes "net.2.bias"; get = λ w. w.b2; put = λ v w. record w { b2 = v } }
      ∷ record { local = codes "net.4.weight"; get = λ w. w.w4; put = λ v w. record w { w4 = v } }
      ∷ record { local = codes "net.4.bias"; get = λ w. w.b4; put = λ v w. record w { b4 = v } }
      ∷ []

  -- The tensors of a layer, up to the first that cannot be read.
  unfoldable pub read_parts : PtLoader → ℕ → List Part → Weights → Bool × Weights
  read_parts l layer [] w = (true, w)
  read_parts l layer (p ∷ ps) w =
      let (ok, v) = read_vector l (full_name layer p.local) (p.get w) in
      elim ok [ false ↦ (false, p.put v w) | true ↦ read_parts l layer ps (p.put v w) ]

  -- `layers_[l] = w`
  abbrev pub set_layer : ℕ → Weights → Vector Weights → Vector Weights
  set_layer l w ws = record ws { at = λ i. if i == l then w else ws.at i }

  -- The loop over the layers, with the number of those left; and the layer that failed.
  unfoldable pub read_layers : PtLoader → ℕ → ℕ → Vector Weights → Option ℕ × Vector Weights
  read_layers l zero layer ws = (none, ws)
  read_layers l (suc k) layer ws =
      let (ok, w) = read_parts l layer parts (ws.at layer) in
      elim ok [
        | false ↦ (some layer, set_layer layer w ws)
        | true ↦ read_layers l k (layer + 1) (set_layer layer w ws)
      ]

  -- The loop that counts the layers.
  unfoldable pub count_layers : ℕ → PtLoader → ℕ → Result ℕ
  count_layers zero l layer = unfinished
  count_layers (suc f) l layer = elim (find (full_name layer (codes "net.0.weight")) l.tensors) [
    | none ↦ gives layer
    | some t ↦ count_layers f l (layer + 1)
  ]

  abbrev pub no_floats : Vector A.Float
  no_floats = record { size = 0; at = λ i. A.zero_float }

  -- `OracleLayerWeights{}`
  abbrev pub no_weights : Weights
  no_weights = record {
    w0 = no_floats;
    b0 = no_floats;
    w2 = no_floats;
    b2 = no_floats;
    w4 = no_floats;
    b4 = no_floats;
  }

  -- `layers_.resize(n)`
  unfoldable pub resize_layers : ℕ → Vector Weights → Vector Weights
  resize_layers n ws = record { size = n; at = λ i. if ltb i ws.size then ws.at i else no_weights }

  -- The members that `load` changes.
  pub record Scheduler : Type 0 where
    pub net : OracleNet A greater
    pub err : Text

  abbrev pub end_load : Option ℕ → Scheduler → Bool × Scheduler
  end_load none s = (true, s)
  end_load (some layer) s =
      (false, record s { err = codes "missing tensor for layer " ++ digits 10 layer })

  -- `load` behind the open loader.
  unfoldable pub load_layers : PtLoader → Scheduler → Result (Bool × Scheduler)
  load_layers l s = count_layers (suc (length l.tensors)) l 0 >>= λ n. elim (n == 0) [
    | true ↦ gives (false, record s { err = codes "no layers found in oracle.pt" })
    | false ↦
        let (failing, ws) = read_layers l n 0 (resize_layers n s.net.layers) in
        gives (end_load failing (record s { net = record s.net { layers = ws } }))
  ]

  -- `load(path, D, H, E)`, with the bytes of the file.
  unfoldable pub load :
      Zlib → ℕ → Text → Option Bytes → ℕ → ℕ → ℕ → Scheduler → Result (Bool × Scheduler)
  load Z fuel path file dim hidden experts s =
      let s' : Scheduler = record s {
        net = record s.net { dim = dim; hidden = hidden; experts = experts };
      } in
      open_archive Z fuel path file new_loader >>= λ (ok, l). elim ok [
        | false ↦ gives (false, record s' { err = codes "PtLoader: " ++ l.err })
        | true ↦ load_layers l s'
      ]
