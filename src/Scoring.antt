-- ===== src/Scoring.antt =====
-- ml/scoring.py: the score of one reading. A bundle is a dict whose keys may be missing; what stands
-- under a key has the kind of value that training writes there. A numpy matrix is the list of its
-- columns with the number of its rows, and `scikit-learn` pipelines are a parameter.
pub mod Reasons
pub mod Shapes
use edgesense_ai.Prelude.{
  ℕ, suc, String, Bool, true, false, ◌||◌, Option, none, some, List, [], ◌∷◌, length, map,
  if◌then◌else◌, str_eq, or_else, ◌==◌, ltb, replicate,
}
use edgesense_ai.Python.Error.{
  Result, ok, err, value_error, key_error, ◌>>=◌, ◌>>◌, or_raise, raise_if,
}
use edgesense_ai.Python.Json.{Fields}
use edgesense_ai.Python.Number.{Float, gt}

pub record Matrix (F : Type 0) : Type 0 where
  pub rows : ℕ
  pub columns : List (List F)

-- One layer: the weights and the bias.
abbrev pub Layer : Type 0 → Type 0
Layer F = Matrix F × List F

-- The keys of a bundle that some code of the repository reads; `scaler_std` and `layers` are read by
-- edgesense-azure/ml/score.py.
pub record Bundle (F P : Type 0) : Type 0 where
  pub features : Option (List String)
  pub kind : Option String
  pub scaler_mean : Option (List F)
  pub scaler_scale : Option (List F)
  pub weights : Option (List (Layer F))
  pub threshold : Option F
  pub activation : Option String
  pub pipeline : Option P
  pub z_guard : Option F
  pub manifest : Option (Fields F)
  pub backend : Option String
  pub scaler_std : Option (List F)
  pub layers : Option (List (Layer F))

-- What the legacy bundles use of `scikit-learn`: the decision function, whether the prediction is -1,
-- and the fitted scaler.
pub record Pipelines (F P : Type 0) : Type 0 where
  pub decision_function : P → List F → Result F
  pub predicts_anomaly : P → List F → Result Bool
  pub scaler : P → Result (List F × List F)

pub data Reason : Type 0 where
  model limit model_limit : Reason

-- The score, the model's verdict, and the scaler that the guard uses.
abbrev pub Verdict : Type 0 → Type 0
Verdict F = F × Bool × List F × List F

unfoldable pub reason_of : Bool → Bool → Option Reason
reason_of false false = none
reason_of true false = some model
reason_of false true = some limit
reason_of true true = some model_limit

module _ {F P : Type 0} where
  -- `bundle.get("kind", "iforest")`
  abbrev pub kind_of : Bundle F P → String
  kind_of b = or_else b.kind "iforest"

module _ {F : Type 0} (fl : Float F) where
  abbrev pub add_products : List F → List F → F → F
  add_products (x ∷ xs) (y ∷ ys) acc = add_products xs ys (fl.add acc (fl.mul x y))
  add_products _ _ acc = acc

  -- `h @ w` for one row `h`
  unfoldable pub matmul : List F → Matrix F → Result (List F)
  matmul h w =
      if length h == w.rows
      then ok (map (λ column. add_products h column fl.zero) w.columns)
      else err value_error

  abbrev pub zip_with : (F → F → F) → List F → List F → List F
  zip_with f (x ∷ xs) (y ∷ ys) = f x y ∷ zip_with f xs ys
  zip_with f _ _ = []

  abbrev pub only : List F → Option F
  only (x ∷ []) = some x
  only _ = none

  -- An operation on two vectors, with numpy's broadcasting of a vector of one item.
  unfoldable pub broadcast : (F → F → F) → List F → List F → Result (List F)
  broadcast f xs ys = if length xs == length ys then ok (zip_with f xs ys) else elim (only ys) [
    | some y ↦ ok (map (λ x. f x y) xs)
    | none ↦ elim (only xs) [ some x ↦ ok (map (λ y. f x y) ys) | none ↦ err value_error ]
  ]

  -- `_ACTIVATIONS[name]`
  abbrev pub activation_named : String → Option (F → F)
  activation_named name = if str_eq name "tanh" then some fl.tanh else none

  -- The loop over the layers: the last one has no activation.
  unfoldable pub forward : (F → F) → List (Layer F) → List F → Result (List F)
  forward act [] h = ok h
  forward act ((w, b) ∷ []) h = do product ← matmul h w; broadcast fl.add product b
  forward act ((w, b) ∷ layer ∷ layers) h = do
    product ← matmul h w
    sum ← broadcast fl.add product b
    forward act (layer ∷ layers) (map act sum)

  abbrev pub total : List F → F → F
  total [] acc = acc
  total (x ∷ xs) acc = total xs (fl.add acc x)

  -- `np.mean`
  abbrev pub mean : List F → F
  mean xs = fl.div (total xs fl.zero) (fl.of_nat (length xs))

  -- `np.max`, which raises for an empty array
  abbrev pub max_from : F → List F → F
  max_from m [] = m
  max_from m (x ∷ xs) = max_from (fl.maximum m x) xs

  abbrev pub max_of : List F → Result F
  max_of [] = err value_error
  max_of (x ∷ xs) = ok (max_from x xs)

  abbrev pub square : F → F
  square x = fl.mul x x

  -- `(arr - mean) / scale`
  unfoldable pub standardize : List F → List F → List F → Result (List F)
  standardize arr mean scale = do
    centred ← broadcast fl.sub arr mean
    broadcast fl.div centred scale

  module _ {P : Type 0} where
    unfoldable pub ae_reconstruct : Bundle F P → List F → Result (List F)
    ae_reconstruct bundle z = do
      name ← or_raise bundle.activation key_error
      act ← or_raise (activation_named name) key_error
      weights ← or_raise bundle.weights key_error
      forward act weights z

    -- The error of one reading.
    unfoldable pub reconstruction_error : Bundle F P → List F → Result F
    reconstruction_error bundle arr = do
      m ← or_raise bundle.scaler_mean key_error
      s ← or_raise bundle.scaler_scale key_error
      z ← standardize arr m s
      recon ← ae_reconstruct bundle z
      residual ← broadcast fl.sub z recon
      ok (mean (map square residual))

    unfoldable pub model_verdict : Pipelines F P → Bundle F P → List F → Result (Verdict F)
    model_verdict pipes bundle arr =
        if str_eq (kind_of bundle) "autoencoder"
        then (do
          score ← reconstruction_error bundle arr
          threshold ← or_raise bundle.threshold key_error
          m ← or_raise bundle.scaler_mean key_error
          s ← or_raise bundle.scaler_scale key_error
          ok (score, gt fl score threshold, m, s))
        else (do
          pipeline ← or_raise bundle.pipeline key_error
          score ← pipes.decision_function pipeline arr
          hit ← pipes.predicts_anomaly pipeline arr
          scaler ← pipes.scaler pipeline
          ok (score, hit, scaler.0, scaler.1))

    -- `default_guard` is `DEFAULT_Z_GUARD`, 6.0.
    unfoldable pub limit_check :
        F → Bundle F P → Verdict F → List F → Result (F × Bool × Option Reason)
    limit_check default_guard bundle (score, model_hit, m, s) arr = do
      deviations ← standardize arr m s
      max_z ← max_of (map fl.abs deviations)
      let limit_hit = gt fl max_z (or_else bundle.z_guard default_guard)
      ok (score, model_hit || limit_hit, reason_of model_hit limit_hit)

    unfoldable pub score_sample :
        Pipelines F P → F → Bundle F P → List F → Result (F × Bool × Option Reason)
    score_sample pipes default_guard bundle arr = do
      verdict ← model_verdict pipes bundle arr
      limit_check default_guard bundle verdict arr
