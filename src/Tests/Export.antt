-- ===== src/Tests/Export.antt =====
-- A bundle of one layer, exported and run.
use edgesense_ai.Prelude.{ℕ, ◌≡◌, refl, some, List, [], ◌∷◌, map, if◌then◌else◌, str_eq}
use edgesense_ai.Python.Error.{Result, ok, err, value_error, total_of}
use edgesense_ai.Python.Number.{gt}
use edgesense_ai.Scoring.{Bundle, mean, broadcast, matmul, reconstruction_error}
use edgesense_ai.Onnx.{
  Graph, Tensor, vector, matrix, number, flag, integer, axes, build_onnx, scores_name, label_name,
}
use edgesense_ai.Onnx.Run.{Operators, IsOnnx, Values, find, run_graph}
use edgesense_ai.Onnx.Parity.{rounded, onnx_parity}
use edgesense_ai.Tests.Instances.{floats, bundle}

abbrev as_vector : Result (List ℕ) → Result (Tensor ℕ)
as_vector (ok v) = ok (vector v)
as_vector (err e) = err e

abbrev elementwise : (ℕ → ℕ → ℕ) → List (Tensor ℕ) → Result (Tensor ℕ)
elementwise f (vector x ∷ vector y ∷ []) = as_vector (broadcast floats f x y)
elementwise f ts = err value_error

abbrev product : List (Tensor ℕ) → Result (Tensor ℕ)
product (vector x ∷ matrix w ∷ []) = as_vector (matmul floats x w)
product ts = err value_error

abbrev squash : List (Tensor ℕ) → Result (Tensor ℕ)
squash (vector x ∷ []) = ok (vector (map floats.tanh x))
squash ts = err value_error

abbrev reduce : List (Tensor ℕ) → Result (Tensor ℕ)
reduce (vector x ∷ axes a ∷ []) = ok (number (mean floats x))
reduce ts = err value_error

abbrev above : List (Tensor ℕ) → Result (Tensor ℕ)
above (number a ∷ number b ∷ []) = ok (flag (gt floats a b))
above ts = err value_error

abbrev to_integer : List (Tensor ℕ) → Result (Tensor ℕ)
to_integer (flag b ∷ []) = ok (integer (if b then 1 else 0))
to_integer ts = err value_error

abbrev operators : Operators ℕ
operators op ts =
    if str_eq op "Sub"
    then elementwise floats.sub ts
    else if str_eq op "Div"
    then elementwise floats.div ts
    else if str_eq op "Add"
    then elementwise floats.add ts
    else if str_eq op "Mul"
    then elementwise floats.mul ts
    else if str_eq op "MatMul"
    then product ts
    else if str_eq op "Tanh"
    then squash ts
    else if str_eq op "ReduceMean"
    then reduce ts
    else if str_eq op "Greater"
    then above ts
    else if str_eq op "Cast"
    then to_integer ts
    else err value_error

onnx : IsOnnx operators floats
onnx = record {
  sub = λ x y v h. rw h refl;
  div = λ x y v h. rw h refl;
  add = λ x y v h. rw h refl;
  mul = λ x y v h. rw h refl;
  mat_mul = λ x v w h. rw h refl;
  tanh = λ x. refl;
  reduce_mean = λ x. refl;
  greater = λ a b. refl;
  cast = λ b. refl;
}

exported : (g : Graph ℕ) × (build_onnx (λ x. x) bundle ≡ ok g)
unfolding build_onnx
exported = total_of (build_onnx (λ x. x) bundle) refl

onnx_parity_example :
    (threshold : ℕ) × ((rounded (λ x. x) bundle).threshold ≡ some threshold)
    × ((after : Values ℕ) × (run_graph operators exported.0 (9 ∷ 9 ∷ []) ≡ ok after)
        × (find scores_name after ≡ some (number 0))
        × (find label_name after ≡ some (integer (if gt floats 0 threshold then 1 else 0))))
unfolding reconstruction_error edgesense_ai.Scoring.standardize broadcast
    edgesense_ai.Scoring.ae_reconstruct edgesense_ai.Scoring.forward matmul
onnx_parity_example =
    onnx_parity floats (λ x. x) operators onnx bundle exported.0 (9 ∷ 9 ∷ []) 0 exported.1 refl
