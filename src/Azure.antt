-- ===== src/Azure.antt =====
-- edgesense-azure/ml/score.py: scoring at the managed endpoint, once `init` has loaded a bundle.
pub mod Schema
use edgesense_ai.Prelude.{
  ℕ, String, Bool, true, false, ◌||◌, Option, none, some, List, [], ◌∷◌, map, or_else,
}
use edgesense_ai.Python.Error.{Result, ok, err, ◌>>=◌, or_raise, key_error, type_error}
use edgesense_ai.Python.Number.{Float, gt}
use edgesense_ai.Python.Json
use edgesense_ai.Python.Json.{Json, Items, Fields, nil, cons, get, as_object}
use edgesense_ai.Scoring.{
  Bundle, Layer, Reason, broadcast, standardize, matmul, mean, square, max_of, reason_of,
}

pub record AzureScore (F : Type 0) : Type 0 where
  pub anomaly : Bool
  pub score : F
  pub threshold : F
  pub reason : Option Reason

-- `FEATURES`
abbrev pub azure_features : List String
azure_features = "vibration" ∷ "temperature" ∷ "current" ∷ []

-- `to_float` is Python's `float`.
module _ {F : Type 0} (fl : Float F) (to_float : Json F → Result F) where
  unfoldable pub reading_values : Fields F → List String → Result (List F)
  reading_values reading [] = ok []
  reading_values reading (f ∷ fs) = do
    v ← or_raise (get reading f) key_error
    x ← to_float v
    xs ← reading_values reading fs
    ok (x ∷ xs)

  -- Every layer has the activation, the last one too.
  unfoldable pub azure_forward : List (Layer F) → List F → Result (List F)
  azure_forward [] h = ok h
  azure_forward ((w, b) ∷ layers) h = do
    product ← matmul fl h w
    sum ← broadcast fl fl.add product b
    azure_forward layers (map fl.tanh sum)

  abbrev azure_verdict : F → F → F → F → AzureScore F
  azure_verdict recon_err threshold z_max z_guard =
      let model_hit = gt fl recon_err threshold in
      let limit_hit = gt fl z_max z_guard in
      record {
        anomaly = model_hit || limit_hit;
        score = recon_err;
        threshold = threshold;
        reason = reason_of model_hit limit_hit;
      }

  -- `payload if isinstance(payload, list) else [payload]`
  abbrev readings_in : Json F → Items F
  readings_in (Json.arr vs) = vs
  readings_in v = cons v nil

  module _ {P : Type 0} where
    unfoldable pub score_one : Bundle F P → Fields F → Result (AzureScore F)
    unfolding reading_values azure_forward
    score_one bundle reading = do
      x ← reading_values reading azure_features
      m ← or_raise bundle.scaler_mean key_error
      s ← or_raise bundle.scaler_std key_error
      threshold ← or_raise bundle.threshold key_error
      xs ← standardize fl x m s
      layers ← or_raise bundle.layers key_error
      h ← azure_forward layers xs
      residual ← broadcast fl fl.sub h xs
      z_max ← max_of fl (map fl.abs xs)
      ok (
          azure_verdict (mean fl (map (square fl) residual)) threshold z_max
            (or_else bundle.z_guard (fl.of_nat 6)))

    unfoldable pub score_all : Bundle F P → Items F → Result (List (AzureScore F))
    unfolding score_one
    score_all bundle nil = ok []
    score_all bundle (cons v vs) = do
      reading ← or_raise (as_object v) type_error
      r ← score_one bundle reading
      rs ← score_all bundle vs
      ok (r ∷ rs)

    unfoldable pub run_request : Bundle F P → Json F → Result (List (AzureScore F))
    unfolding score_all
    run_request bundle payload = score_all bundle (readings_in payload)
