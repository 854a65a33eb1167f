-- ===== src/Train/Serves.antt =====
-- A trained bundle in the inference server: it scores, it has a model card, and it passes validation.
use edgesense_ai.Prelude.{
  ℕ, ◌≡◌, refl, sym, ap, ◌∙◌, ◌<◌, String, Option, some, List, [], ◌∷◌, length, arith, Bool, true,
  replicate,
}
use edgesense_ai.Python.Error.{ok, ok_inj}
use edgesense_ai.Python.Number.{Float}
use edgesense_ai.Python.Json.{Json, Fields}
use edgesense_ai.Scoring.{Layer, Bundle, Pipelines, Reason, score_sample}
use edgesense_ai.Scoring.Shapes.{IsChain}
use edgesense_ai.Serving.Validate.{
  validate_bundle, weight_chain, check_values, check_autoencoder, check_kind,
}
use edgesense_ai.Serving.Validate.Total.{score_total}
use edgesense_ai.Manifest.Card.{render_model_card}
use edgesense_ai.Manifest.Build.{Timestamp}
use edgesense_ai.Train.{Numpy}
use edgesense_ai.Train.Steps.{NumpyShapes, FitterShapes}
use edgesense_ai.Train.Publishable.{
  trained_with, trained_with-IsAutoencoder, train_autoencoder-Trained, TrainingFits,
  trained-TrainingFits,
}
use edgesense_ai.Train.Bundles.{
  Backend, Fitters, backend_named, train_autoencoder, training_features,
}

module _ {F P R T G : Type 0} (fl : Float F) (np : Numpy F R) (default_guard : F)
    (fitters : Fitters F P T G) (pipes : Pipelines F P) where
  IsChain-weight_chain :
      (ls : List (Layer F)) (d e : ℕ)
      → IsChain fl d ls e
      → weight_chain fl pipes default_guard d ls ≡ ok e
  unfolding weight_chain
  IsChain-weight_chain [] d e h = ap ok h
  IsChain-weight_chain ((w, b) ∷ ls) d e (rows, bias, rest) =
      let next = IsChain-weight_chain ls (length w.columns) e rest in ground arith

  trained_checks :
      (backend : String) (m s : List F) (ls : List (Layer F)) (t : F) (manifest : Option (Fields F))
      → length m ≡ 3
      → length s ≡ 3
      → IsChain fl 3 ls 3
      → fl.is_finite t ≡ true
      → check_kind fl pipes default_guard
          (trained_with fl np default_guard fitters pipes backend training_features m s ls t
            manifest)
          3
        ≡ ok tt
  unfolding check_kind check_autoencoder check_values
  trained_checks backend m s ls t manifest hm hs chain finite =
      rw (hm, hs, IsChain-weight_chain ls 3 3 chain, finite) refl

  -- With numpy, scikit-learn and PyTorch giving the shapes that they document, both installed, and some data to calibrate
  -- on, a training run with either backend returns a bundle, where scikit-learn's regressor, if it is the backend, does
  -- not raise on the standardized training data: the bundle scores every reading of three values, and it carries a
  -- manifest whose model card renders.
  pub train_autoencoder_serves :
      (ts : Timestamp) (commit backend : String) (chosen : Backend) (seed n_train n_cal : ℕ)
      (epochs : Option ℕ) (show : Json F → String)
      → NumpyShapes np
      → FitterShapes fitters
      → backend_named backend ≡ ok chosen
      → 0 < n_cal
      → TrainingFits fl np default_guard fitters pipes chosen seed n_train epochs
      → (bundle : Bundle F P) × (train_autoencoder fl np default_guard fitters ts commit backend
            seed n_train n_cal epochs
          ≡ ok bundle)
        × (bundle.features ≡ some training_features)
        × ((manifest : Fields F) × (card : String) × (bundle.manifest ≡ some manifest)
            × (render_model_card fl show manifest ≡ ok card))
        × ((x : List F)
            → length x ≡ 3
            → (r : F × Bool × Option Reason) × (score_sample fl pipes default_guard bundle x
                ≡ ok r))
  train_autoencoder_serves ts commit backend chosen seed n_train n_cal epochs show shapes fits known
        some_rows fit =
      let t =
        train_autoencoder-Trained fl np default_guard fitters pipes ts commit backend chosen seed
          n_train n_cal epochs show shapes fits known some_rows fit in
      let bundle =
        trained_with fl np default_guard fitters pipes backend training_features t.mean t.scale
          t.layers t.threshold (some t.manifest) in
      let ae =
        trained_with-IsAutoencoder fl np default_guard fitters pipes backend training_features
          t.mean t.scale t.layers t.threshold (some t.manifest) 3 t.mean_length t.scale_length
          t.chained in
      (
        bundle,
        t.gives,
        refl,
        (t.manifest, t.card, refl, t.renders),
        (λ x hx. score_total fl pipes default_guard bundle 3 x refl ae hx (omega arith)),
      )

  validate_trained :
      (backend : String) (m s : List F) (ls : List (Layer F)) (t : F) (manifest : Option (Fields F))
      (r : F × Bool × Option Reason)
      → let bundle =
          trained_with fl np default_guard fitters pipes backend training_features m s ls t
            manifest in
        check_kind fl pipes default_guard bundle 3 ≡ ok tt
        → score_sample fl pipes default_guard bundle (replicate 3 fl.zero) ≡ ok r
        → fl.is_finite r.0 ≡ true
        → validate_bundle fl pipes default_guard (some bundle) ≡ ok bundle
  unfolding validate_bundle
  validate_trained backend m s ls t manifest r checked scored finite =
      rw (checked, scored, finite) refl

  -- A bundle that a training run returned passes the checks of the inference server, if its threshold and its score of
  -- the reading of zeros are finite.
  pub trained_bundle_validates :
      (ts : Timestamp) (commit backend : String) (chosen : Backend) (seed n_train n_cal : ℕ)
      (epochs : Option ℕ) (bundle : Bundle F P)
      → NumpyShapes np
      → FitterShapes fitters
      → backend_named backend ≡ ok chosen
      → 0 < n_cal
      → train_autoencoder fl np default_guard fitters ts commit backend seed n_train n_cal epochs
        ≡ ok bundle
      → ((t : F) → bundle.threshold ≡ some t → fl.is_finite t ≡ true)
      → ((r : F × Bool × Option Reason)
          → score_sample fl pipes default_guard bundle (replicate 3 fl.zero) ≡ ok r
          → fl.is_finite r.0 ≡ true)
      → validate_bundle fl pipes default_guard (some bundle) ≡ ok bundle
  trained_bundle_validates ts commit backend chosen seed n_train n_cal epochs bundle shapes fits
        known some_rows h finite_t finite_r =
      let fit =
        trained-TrainingFits fl np default_guard fitters pipes ts commit backend chosen seed n_train
          n_cal epochs bundle known h in
      let t =
        train_autoencoder-Trained fl np default_guard fitters pipes ts commit backend chosen seed
          n_train n_cal epochs (λ v. "") shapes fits known some_rows fit in
      let b =
        trained_with fl np default_guard fitters pipes backend training_features t.mean t.scale
          t.layers t.threshold (some t.manifest) in
      let ae =
        trained_with-IsAutoencoder fl np default_guard fitters pipes backend training_features
          t.mean t.scale t.layers t.threshold (some t.manifest) 3 t.mean_length t.scale_length
          t.chained in
      let same : b ≡ bundle = ok_inj (sym t.gives ∙ h) in
      let checked =
        trained_checks backend t.mean t.scale t.layers t.threshold (some t.manifest) t.mean_length
          t.scale_length t.chained (finite_t t.threshold (ap (λ b. b.threshold) (sym same))) in
      let (r, scored) =
        score_total fl pipes default_guard b 3 (replicate 3 fl.zero) refl ae refl (omega arith) in
      let fine = finite_r r (
        ap (λ b. score_sample fl pipes default_guard b (replicate 3 fl.zero)) (sym same)
        ∙ scored) in
      let valid =
        validate_trained backend t.mean t.scale t.layers t.threshold (some t.manifest) r checked
          scored fine in
      sym (ap (λ b. validate_bundle fl pipes default_guard (some b)) same) ∙ valid ∙ ap ok same
