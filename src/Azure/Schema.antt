-- ===== src/Azure/Schema.antt =====
-- The endpoint's script against the bundles of training.
use edgesense_ai.Prelude.{◌≡◌, refl, sym, ap, ◌∙◌, ◌<◌, ℕ, String, Option, none, some, List}
use edgesense_ai.Python.Error.{Result, ok, err, ok_inj, key_error}
use edgesense_ai.Python.Number.{Float}
use edgesense_ai.Python.Json.{Json, Fields}
use edgesense_ai.Scoring.{Bundle, Pipelines}
use edgesense_ai.Manifest.Build.{Timestamp}
use edgesense_ai.Train.{Numpy}
use edgesense_ai.Train.Steps.{NumpyShapes, FitterShapes}
use edgesense_ai.Train.Publishable.{train_autoencoder-Trained, trained_with, trained-TrainingFits}
use edgesense_ai.Train.Bundles.{
  Backend, Fitters, backend_named, train_autoencoder, train_iforest, training_features,
}
use edgesense_ai.Azure.{reading_values, score_one, azure_features}

module _ {F P R T G : Type 0} (fl : Float F) (np : Numpy F R) (default_guard : F)
    (fitters : Fitters F P T G) (pipes : Pipelines F P) (to_float : Json F → Result F) where
  no_scaler_std :
      (bundle : Bundle F P) (reading : Fields F) (x m : List F)
      → reading_values fl to_float reading azure_features ≡ ok x
      → bundle.scaler_mean ≡ some m
      → bundle.scaler_std ≡ none
      → score_one fl to_float bundle reading ≡ err key_error
  unfolding score_one
  no_scaler_std bundle reading x m hx hm hs = rw (hx, hm, hs) refl

  no_scaler_mean :
      (bundle : Bundle F P) (reading : Fields F) (x : List F)
      → reading_values fl to_float reading azure_features ≡ ok x
      → bundle.scaler_mean ≡ none
      → score_one fl to_float bundle reading ≡ err key_error
  unfolding score_one
  no_scaler_mean bundle reading x hx hm = rw (hx, hm) refl

  -- The endpoint's script raises `KeyError` on every reading that it can read, for every bundle that one of the two training
  -- runs returns: `train_autoencoder` with any backend that it knows, and `train_iforest`.
  pub endpoint_misses_keys :
      (ts : Timestamp) (commit backend : String) (chosen : Backend) (seed n_train n_cal : ℕ)
      (epochs : Option ℕ) (bundle : Bundle F P) (reading : Fields F) (x : List F)
      → NumpyShapes np
      → FitterShapes fitters
      → backend_named backend ≡ ok chosen
      → 0 < n_cal
      → train_autoencoder fl np default_guard fitters ts commit backend seed n_train n_cal epochs
        ≡ ok bundle
      → reading_values fl to_float reading azure_features ≡ ok x
      → (score_one fl to_float bundle reading ≡ err key_error)
        × (score_one fl to_float (train_iforest fl np default_guard fitters seed n_train) reading
            ≡ err key_error)
  unfolding train_iforest
  endpoint_misses_keys ts commit backend chosen seed n_train n_cal epochs bundle reading x shapes
        fits known some_rows h values =
      let fit =
        trained-TrainingFits fl np default_guard fitters pipes ts commit backend chosen seed n_train
          n_cal epochs bundle known h in
      let t =
        train_autoencoder-Trained fl np default_guard fitters pipes ts commit backend chosen seed
          n_train n_cal epochs (λ v. "") shapes fits known some_rows fit in
      let b =
        trained_with fl np default_guard fitters pipes backend training_features t.mean t.scale
          t.layers t.threshold (some t.manifest) in
      let same : b ≡ bundle = ok_inj (sym t.gives ∙ h) in
      (
        ap (λ b. score_one fl to_float b reading) (sym same)
            ∙ no_scaler_std b reading x t.mean values refl refl,
        no_scaler_mean (train_iforest fl np default_guard fitters seed n_train) reading x values
            refl,
      )
