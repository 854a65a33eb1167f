-- ===== src/Onnx/Run.antt =====
-- Running a graph: its nodes one behind the other, as the ONNX standard has it. What an operator computes is a parameter,
-- with what the standard documents of the operators that the export uses.
use edgesense_ai.Prelude.{
  ◌≡◌, refl, ap, String, Bool, true, false, Option, none, some, List, [], ◌∷◌, ◌++◌, map, ◌==◌,
  if◌then◌else◌,
}
use edgesense_ai.Python.Error.{Result, ok, ◌>>=◌, or_raise, key_error, bind_ok, ok_inj}
use edgesense_ai.Python.Number.{Float, gt}
use edgesense_ai.Scoring.{Matrix, broadcast, matmul, mean}
use edgesense_ai.Onnx.{
  Name, x_input, mean_name, scale_name, threshold_name, feature_axis, centered, z_name,
  residual_name, squared_name, scores_name, hit_name, label_name, weight, bias, mm, lin, act,
  Tensor, vector, matrix, number, flag, integer, axes, Node, Graph,
}

-- The test of two names.
abbrev pub name_eq : Name → Name → Bool
name_eq x_input x_input = true
name_eq mean_name mean_name = true
name_eq scale_name scale_name = true
name_eq threshold_name threshold_name = true
name_eq feature_axis feature_axis = true
name_eq centered centered = true
name_eq z_name z_name = true
name_eq residual_name residual_name = true
name_eq squared_name squared_name = true
name_eq scores_name scores_name = true
name_eq hit_name hit_name = true
name_eq label_name label_name = true
name_eq (weight i) (weight j) = i == j
name_eq (bias i) (bias j) = i == j
name_eq (mm i) (mm j) = i == j
name_eq (lin i) (lin j) = i == j
name_eq (act i) (act j) = i == j
name_eq _ _ = false

-- The tensors that are known, the newest first.
abbrev pub Values : Type 0 → Type 0
Values F = List (Name × Tensor F)

abbrev pub find : {F : Type 0} → Name → Values F → Option (Tensor F)
find n [] = none
find n ((m, t) ∷ values) = if name_eq m n then some t else find n values

abbrev pub Operators : Type 0 → Type 0
Operators F = String → List (Tensor F) → Result (Tensor F)

module _ {F : Type 0} (apply : Operators F) where
  abbrev pub inputs_of : Values F → List Name → Result (List (Tensor F))
  inputs_of values [] = ok []
  inputs_of values (n ∷ ns) = do
    t ← or_raise (find n values) key_error
    ts ← inputs_of values ns
    ok (t ∷ ts)

  unfoldable pub run_nodes : List Node → Values F → Result (Values F)
  run_nodes [] values = ok values
  run_nodes (n ∷ ns) values = do
    ts ← inputs_of values n.inputs
    t ← apply n.op ts
    run_nodes ns ((n.output, t) ∷ values)

  unfoldable pub run_graph : Graph F → List F → Result (Values F)
  unfolding run_nodes
  run_graph g x = run_nodes g.nodes ((x_input, vector x) ∷ g.inits)

  pub run_nodes-append :
      (ns ms : List Node) (values after : Values F)
      → run_nodes ns values ≡ ok after
      → run_nodes (ns ++ ms) values ≡ run_nodes ms after
  unfolding run_nodes
  run_nodes-append [] ms values after h = ap (run_nodes ms) (ok_inj h)
  run_nodes-append (n ∷ ns) ms values after h =
      let (ts, i, h1) = bind_ok (inputs_of values n.inputs) _ h in
      let (t, a, h2) = bind_ok (apply n.op ts) _ h1 in
      rw (i, a) (run_nodes-append ns ms ((n.output, t) ∷ values) after h2)

  pub run_one :
      (n : Node) (a : Name) (ns : List Node) (values : Values F) (t v : Tensor F)
      → n.inputs ≡ a ∷ []
      → find a values ≡ some t
      → apply n.op (t ∷ []) ≡ ok v
      → run_nodes (n ∷ ns) values ≡ run_nodes ns ((n.output, v) ∷ values)
  unfolding run_nodes
  run_one n a ns values t v hi ha hv = rw (hi, ha, hv) refl

  pub run_two :
      (n : Node) (a b : Name) (ns : List Node) (values : Values F) (t u v : Tensor F)
      → n.inputs ≡ a ∷ b ∷ []
      → find a values ≡ some t
      → find b values ≡ some u
      → apply n.op (t ∷ u ∷ []) ≡ ok v
      → run_nodes (n ∷ ns) values ≡ run_nodes ns ((n.output, v) ∷ values)
  unfolding run_nodes
  run_two n a b ns values t u v hi ha hb hv = rw (hi, ha, hb, hv) refl

  -- What the standard documents of the operators, for the shapes that fit; `Cast` of a Boolean is 1 or 0.
  pub record IsOnnx (fl : Float F) : Type 0 where
    pub sub :
        (x y v : List F)
        → broadcast fl fl.sub x y ≡ ok v
        → apply "Sub" (vector x ∷ vector y ∷ []) ≡ ok (vector v)
    pub div :
        (x y v : List F)
        → broadcast fl fl.div x y ≡ ok v
        → apply "Div" (vector x ∷ vector y ∷ []) ≡ ok (vector v)
    pub add :
        (x y v : List F)
        → broadcast fl fl.add x y ≡ ok v
        → apply "Add" (vector x ∷ vector y ∷ []) ≡ ok (vector v)
    pub mul :
        (x y v : List F)
        → broadcast fl fl.mul x y ≡ ok v
        → apply "Mul" (vector x ∷ vector y ∷ []) ≡ ok (vector v)
    pub mat_mul :
        (x v : List F) (w : Matrix F)
        → matmul fl x w ≡ ok v
        → apply "MatMul" (vector x ∷ matrix w ∷ []) ≡ ok (vector v)
    pub tanh : (x : List F) → apply "Tanh" (vector x ∷ []) ≡ ok (vector (map fl.tanh x))
    pub reduce_mean :
        (x : List F) → apply "ReduceMean" (vector x ∷ axes (1 ∷ []) ∷ []) ≡ ok (number (mean fl x))
    pub greater : (a b : F) → apply "Greater" (number a ∷ number b ∷ []) ≡ ok (flag (gt fl a b))
    pub cast : (b : Bool) → apply "Cast" (flag b ∷ []) ≡ ok (integer (if b then 1 else 0))
