-- ===== src/Onnx.antt =====
-- ml/export_onnx.py: `build_onnx`. The names of the graph's tensors are constructors, those with a number for `f"w{i}"` and the
-- like; a tensor is what it holds for one reading, without the batch axis. The check of the model and the file's version are left out.
pub mod Run
pub mod Layers
pub mod Parity
use edgesense_ai.Prelude.{
  ℕ, ◌+◌, String, Bool, true, false, not, Option, none, some, List, [], ◌∷◌, ◌++◌, map, length,
  str_eq, ◌==◌, or_else,
}
use edgesense_ai.Python.Error.{
  Result, ok, err, ◌>>=◌, ◌>>◌, or_raise, raise_if, key_error, value_error,
}
use edgesense_ai.Scoring.{Bundle, Layer, Matrix}

pub data Name : Type 0 where
  x_input mean_name scale_name threshold_name feature_axis centered z_name : Name
  residual_name squared_name scores_name hit_name label_name : Name
  weight bias mm lin act : ℕ → Name

pub data Tensor (F : Type 0) : Type 0 where
  vector : List F → Tensor F
  matrix : Matrix F → Tensor F
  number : F → Tensor F
  flag : Bool → Tensor F
  integer : ℕ → Tensor F
  axes : List ℕ → Tensor F

pub record Node : Type 0 where
  pub op : String
  pub inputs : List Name
  pub output : Name

pub record Graph (F : Type 0) : Type 0 where
  pub nodes : List Node
  pub inits : List (Name × Tensor F)
  pub width : ℕ

abbrev pub node : String → List Name → Name → Node
node op inputs output = record { op = op; inputs = inputs; output = output }

-- The loop over the layers from number `i` on: its nodes, and the name of what they give for `h`.
unfoldable pub layer_nodes : {F : Type 0} → ℕ → Name → List (Layer F) → List Node × Name
layer_nodes i h [] = ([], h)
layer_nodes i h ((w, b) ∷ []) =
    (node "MatMul" (h ∷ weight i ∷ []) (mm i) ∷ node "Add" (mm i ∷ bias i ∷ []) (lin i) ∷ [], lin i)
layer_nodes i h ((w, b) ∷ layer ∷ layers) =
    let (nodes, last) = layer_nodes (i + 1) (act i) (layer ∷ layers) in
    (
      node "MatMul" (h ∷ weight i ∷ []) (mm i)
          ∷ node "Add" (mm i ∷ bias i ∷ []) (lin i)
          ∷ node "Tanh" (lin i ∷ []) (act i)
          ∷ nodes,
      last,
    )

abbrev pub layer_inits : {F : Type 0} → ℕ → List (Layer F) → List (Name × Tensor F)
layer_inits i [] = []
layer_inits i ((w, b) ∷ layers) =
    (weight i, matrix w) ∷ (bias i, vector b) ∷ layer_inits (i + 1) layers

-- The nodes behind the layers, where `h` is the name of the reconstruction.
abbrev pub score_nodes : Name → List Node
score_nodes h =
    node "Sub" (z_name ∷ h ∷ []) residual_name
    ∷ node "Mul" (residual_name ∷ residual_name ∷ []) squared_name
    ∷ node "ReduceMean" (squared_name ∷ feature_axis ∷ []) scores_name
    ∷ node "Greater" (scores_name ∷ threshold_name ∷ []) hit_name
    ∷ node "Cast" (hit_name ∷ []) label_name
    ∷ []

abbrev pub graph_of : {F : Type 0} → List F → List F → F → List (Layer F) → ℕ → Graph F
graph_of m s threshold layers width =
    let (nodes, last) = layer_nodes 0 z_name layers in
    record {
      nodes =
          node "Sub" (x_input ∷ mean_name ∷ []) centered
          ∷ node "Div" (centered ∷ scale_name ∷ []) z_name
          ∷ (nodes ++ score_nodes last);
      inits =
          (mean_name, vector m)
          ∷ (scale_name, vector s)
          ∷ (threshold_name, number threshold)
          ∷ (feature_axis, axes (1 ∷ []))
          ∷ layer_inits 0 layers;
      width = width;
    }

-- `cast` is `astype(np.float32)` of one number.
module _ {F : Type 0} (cast : F → F) where
  abbrev pub cast_layers : List (Layer F) → List (Layer F)
  cast_layers [] = []
  cast_layers ((w, b) ∷ layers) =
      (record w { columns = map (map cast) w.columns }, map cast b) ∷ cast_layers layers

  unfoldable pub build_onnx : {P : Type 0} → Bundle F P → Result (Graph F)
  unfolding layer_nodes
  build_onnx bundle = do
    raise_if (not (str_eq (or_else bundle.kind "") "autoencoder")) value_error
    activation ← or_raise bundle.activation key_error
    raise_if (not (str_eq activation "tanh")) value_error
    m ← or_raise bundle.scaler_mean key_error
    s ← or_raise bundle.scaler_scale key_error
    threshold ← or_raise bundle.threshold key_error
    weights ← or_raise bundle.weights key_error
    features ← or_raise bundle.features key_error
    ok (graph_of (map cast m) (map cast s) (cast threshold) (cast_layers weights) (length features))
