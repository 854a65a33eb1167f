-- ===== src/Train/Publishable.antt =====
-- What training gives: a bundle that scores, validates and has a model card.
use edgesense_ai.Prelude.{
  ℕ, zero, suc, ◌≡◌, refl, sym, ap, ◌∙◌, ◌<◌, String, Option, none, some, List, [], ◌∷◌, length,
  map, All, arith,
}
use edgesense_ai.Python.Error.{Result, ok, bind_ok, ok_inj}
use edgesense_ai.Python.Number.{Float}
use edgesense_ai.Python.Json.{Json, Fields, end}
use edgesense_ai.Scoring.{Matrix, Layer, Bundle, Pipelines, mean}
use edgesense_ai.Scoring.Shapes.{IsChain, length-map}
use edgesense_ai.Serving.Validate.Total.{IsAutoencoder}
use edgesense_ai.Manifest.Card.{render_model_card}
use edgesense_ai.Manifest.Build.{Timestamp, build_manifest, manifest_of, manifest_of-renders}
use edgesense_ai.Train.{Numpy, rows_of, normal_data}
use edgesense_ai.Train.Fit.{activation}
use edgesense_ai.Train.Steps.{
  NumpyShapes, FitterShapes, Fits, fit_with-Fits, standardized, rows_of_lem,
  length-standard_columns, fit_with-IsChain, reconstruction_errors-total,
}
use edgesense_ai.Train.Layers.{length-rows_of}
use edgesense_ai.Train.Bundles.{
  Backend, Fitters, fit_with, backend_named, default_epochs, epochs_or, standard_columns, nonzero,
  std, uncalibrated, build_bundle, train_autoencoder, fit_epochs, fp_budget, training_features,
  training_data, float_field, generator_params,
}

module _ {F P R T G : Type 0} (fl : Float F) (np : Numpy F R) (default_guard : F)
    (fitters : Fitters F P T G) (pipes : Pipelines F P) where
  -- A trained bundle with this threshold and manifest.
  abbrev pub trained_with :
      String → List String → List F → List F → List (Layer F) → F → Option (Fields F) → Bundle F P
  trained_with backend features m s ls t manifest =
      record (uncalibrated fl np default_guard fitters backend features m s ls) {
        threshold = some t;
        manifest = manifest;
      }

  pub trained_with-IsAutoencoder :
      (backend : String) (features : List String) (m s : List F) (ls : List (Layer F)) (t : F)
      (manifest : Option (Fields F)) (n : ℕ)
      → length m ≡ n
      → length s ≡ n
      → IsChain fl n ls n
      → IsAutoencoder fl pipes default_guard (trained_with backend features m s ls t manifest) n
  trained_with-IsAutoencoder backend features m s ls t manifest n hm hs chain = record {
    mean = m;
    scale = s;
    layers = ls;
    threshold = t;
    activation = activation;
    act = fl.tanh;
    mean_is = refl;
    scale_is = refl;
    layers_are = refl;
    threshold_is = refl;
    activation_is = refl;
    act_is = refl;
    mean_length = hm;
    scale_length = hs;
    chained = chain;
  }

  quantile-total :
      NumpyShapes np → (es : List F) (q : F) → 0 < length es → (t : F) × (np.quantile es q ≡ ok t)
  quantile-total shapes [] q h = elim h [ ]
  quantile-total shapes (e ∷ es) q h = shapes.quantile_ok e es q

  -- The parts of the bundle that a run of `build_bundle` gives.
  pub record Built (backend : String) (features : List String) (n : ℕ) (call : Result (Bundle F P))
      : Type 0 where
    pub mean : List F
    pub scale : List F
    pub layers : List (Layer F)
    pub threshold : F
    pub mean_length : length mean ≡ n
    pub scale_length : length scale ≡ n
    pub chained : IsChain fl n layers n
    pub gives : call ≡ ok (trained_with backend features mean scale layers threshold none)

  build_bundle-Built :
      (x_train x_cal : Matrix F) (features : List String) (backend : String) (chosen : Backend)
      (seed : ℕ) (epochs : Option ℕ)
      → NumpyShapes np
      → FitterShapes fitters
      → backend_named backend ≡ ok chosen
      → Fits fl np default_guard fitters pipes chosen
          (standardized fl np default_guard fitters pipes x_train)
          seed
          (epochs_or epochs (default_epochs chosen))
      → length x_cal.columns ≡ length x_train.columns
      → All (λ c. length c ≡ x_cal.rows) x_cal.columns
      → 0 < x_cal.rows
      → Built backend features
          (length x_train.columns)
          (build_bundle fl np default_guard fitters x_train x_cal features backend seed epochs)
  unfolding build_bundle
  build_bundle-Built x_train x_cal features backend chosen seed epochs shapes fits known fit width
        rectangular some_rows =
      let k = length x_train.columns in
      let m = map (mean fl) x_train.columns in
      let s =
        map (nonzero fl np default_guard fitters)
          (map (std fl np default_guard fitters) x_train.columns) in
      let hm : length m ≡ k = length-map (mean fl) x_train.columns in
      let hs : length s ≡ k =
        length-map (nonzero fl np default_guard fitters) _
        ∙ length-map (std fl np default_guard fitters) x_train.columns in
      let z : Matrix F = record x_train {
        columns = standard_columns fl np default_guard fitters x_train.columns m s;
      } in
      let wide =
        length-standard_columns fl np default_guard fitters pipes x_train.columns m s hm hs in
      let (ls, fitted, chain) =
        fit_with-IsChain fl np default_guard fitters pipes chosen z seed
          (epochs_or epochs (default_epochs chosen)) fits fit in
      let chain' : IsChain fl k ls k = rw wide at chain in
      let draft = trained_with backend features m s ls fl.zero none in
      let ae = trained_with-IsAutoencoder backend features m s ls fl.zero none k hm hs chain' in
      let rows = rows_of x_cal.rows x_cal.columns in
      let (es, errors, len) =
        reconstruction_errors-total fl np default_guard fitters pipes draft k rows ae
          (rows_of_lem x_cal.rows k x_cal.columns width rectangular) in
      let nonempty : 0 < length es =
        omega (arith, len, length-rows_of x_cal.rows x_cal.columns, some_rows) in
      let (t, q) =
        quantile-total shapes es (fl.sub fl.one (fp_budget fl np default_guard fitters)) nonempty in
      record {
        mean = m;
        scale = s;
        layers = ls;
        threshold = t;
        mean_length = hm;
        scale_length = hs;
        chained = chain';
        gives = rw (known, fitted, errors, q) refl;
      }

  clip-length :
      (n : ℕ) (base : F) (xs : List F)
      → length xs ≡ n
      → length (map (λ x. fl.maximum x fl.zero) (map (fl.add base) xs)) ≡ n
  clip-length n base xs h =
      length-map (λ x. fl.maximum x fl.zero) _ ∙ length-map (fl.add base) xs ∙ h

  normal_data-rectangular :
      (n : ℕ) (r : R)
      → NumpyShapes np
      → let x = (normal_data fl np n r).0 in
        (x.rows ≡ n) × (length x.columns ≡ 3) × All (λ c. length c ≡ x.rows) x.columns
  unfolding normal_data
  normal_data-rectangular n r shapes = (
    refl,
    refl,
    (
      clip-length n _ _ (shapes.normal_length _ _ _ n),
      (
        length-map (fl.add _) _ ∙ shapes.normal_length _ _ _ n,
        (clip-length n _ _ (shapes.normal_length _ _ _ n), tt),
      ),
    ),
  )

  fit_epochs-total :
      (backend : String) (chosen : Backend) (epochs : Option ℕ)
      → backend_named backend ≡ ok chosen
      → fit_epochs fl np default_guard fitters epochs backend
        ≡ ok (epochs_or epochs (default_epochs chosen))
  fit_epochs-total backend chosen none h = rw h refl
  fit_epochs-total backend chosen (some zero) h = rw h refl
  fit_epochs-total backend chosen (some (suc n)) h = refl

  epochs_or_again :
      (epochs : Option ℕ) (d : ℕ) → epochs_or (some (epochs_or epochs d)) d ≡ epochs_or epochs d
  epochs_or_again none zero = refl
  epochs_or_again none (suc n) = refl
  epochs_or_again (some zero) zero = refl
  epochs_or_again (some zero) (suc n) = refl
  epochs_or_again (some (suc n)) d = refl

  -- The library fits the training data of a run.
  abbrev pub TrainingFits : Backend → ℕ → ℕ → Option ℕ → Type 0
  TrainingFits chosen seed n_train epochs =
      Fits fl np default_guard fitters pipes chosen
        (standardized fl np default_guard fitters pipes
          (normal_data fl np n_train (np.default_rng seed)).0)
        seed (epochs_or epochs (default_epochs chosen))

  Fits-at :
      (chosen : Backend) (z : Matrix F) (seed : ℕ) {m n : ℕ}
      → m ≡ n
      → Fits fl np default_guard fitters pipes chosen z seed m
      → Fits fl np default_guard fitters pipes chosen z seed n
  Fits-at chosen z seed e h = rw (sym e) h

  -- What a training run leaves: the bundle's parts and a manifest whose card renders.
  pub record Trained (backend : String) (show : Json F → String) (call : Result (Bundle F P))
      : Type 0 where
    pub mean : List F
    pub scale : List F
    pub layers : List (Layer F)
    pub threshold : F
    pub mean_length : length mean ≡ 3
    pub scale_length : length scale ≡ 3
    pub chained : IsChain fl 3 layers 3
    pub manifest : Fields F
    pub card : String
    pub renders : render_model_card fl show manifest ≡ ok card
    pub gives :
        call
        ≡ ok (trained_with backend training_features mean scale layers threshold (some manifest))

  pub train_autoencoder-Trained :
      (ts : Timestamp) (commit backend : String) (chosen : Backend) (seed n_train n_cal : ℕ)
      (epochs : Option ℕ) (show : Json F → String)
      → NumpyShapes np
      → FitterShapes fitters
      → backend_named backend ≡ ok chosen
      → 0 < n_cal
      → TrainingFits chosen seed n_train epochs
      → Trained backend show (
          train_autoencoder fl np default_guard fitters ts commit backend seed n_train n_cal epochs)
  unfolding train_autoencoder build_manifest
  train_autoencoder-Trained ts commit backend chosen seed n_train n_cal epochs show shapes fits
        known some_rows fit =
      let (x_train, r1) = normal_data fl np n_train (np.default_rng seed) in
      let x_cal = (normal_data fl np n_cal r1).0 in
      let (_, wide, _) = normal_data-rectangular n_train (np.default_rng seed) shapes in
      let (rows, wide', cols) = normal_data-rectangular n_cal r1 shapes in
      let e = epochs_or epochs (default_epochs chosen) in
      let counted = fit_epochs-total backend chosen epochs known in
      let again = epochs_or_again epochs (default_epochs chosen) in
      let b =
        build_bundle-Built x_train x_cal training_features backend chosen seed (some e) shapes fits
          known (Fits-at chosen _ seed (sym again) fit) (wide' ∙ sym wide) cols
          (omega (arith, rows, some_rows)) in
      let td = training_data fl np default_guard fitters x_train n_train n_cal in
      let metrics = float_field fl np default_guard fitters "threshold" b.threshold end in
      let (card, renders) =
        manifest_of-renders fl show ts commit (some backend) (some default_guard) seed e td
          (generator_params fl np default_guard fitters) metrics training_features b.layers
          "autoencoder" activation refl tt in
      record {
        mean = b.mean;
        scale = b.scale;
        layers = b.layers;
        threshold = b.threshold;
        mean_length = b.mean_length ∙ wide;
        scale_length = b.scale_length ∙ wide;
        chained = rw wide at b.chained;
        manifest =
            manifest_of ts commit (some backend) (some default_guard) seed e td metrics
              training_features b.layers "autoencoder" activation;
        card = card;
        renders = renders;
        gives = rw (counted, b.gives) refl;
      }

  -- A training run that returned had its data fitted.
  pub trained-TrainingFits :
      (ts : Timestamp) (commit backend : String) (chosen : Backend) (seed n_train n_cal : ℕ)
      (epochs : Option ℕ) (bundle : Bundle F P)
      → backend_named backend ≡ ok chosen
      → train_autoencoder fl np default_guard fitters ts commit backend seed n_train n_cal epochs
        ≡ ok bundle
      → TrainingFits chosen seed n_train epochs
  unfolding train_autoencoder build_bundle
  trained-TrainingFits ts commit backend chosen seed n_train n_cal epochs bundle known h =
      let (x_train, r1) = normal_data fl np n_train (np.default_rng seed) in
      let x_cal = (normal_data fl np n_cal r1).0 in
      let (e, counted, h1) = bind_ok (fit_epochs fl np default_guard fitters epochs backend) _ h in
      let e_is = ok_inj (sym counted ∙ fit_epochs-total backend chosen epochs known) in
      let (b, built, _) =
        bind_ok
          (build_bundle fl np default_guard fitters x_train x_cal training_features backend seed
            (some e))
          _ h1 in
      let (c, named, h2) = bind_ok (backend_named backend) _ built in
      let c_is = ok_inj (sym named ∙ known) in
      let (ls, fitted, _) =
        bind_ok
          (fit_with fl np default_guard fitters c
            (standardized fl np default_guard fitters pipes x_train) seed
            (epochs_or (some e) (default_epochs c)))
          _ h2 in
      let fits = fit_with-Fits fl np default_guard fitters pipes c _ seed _ ls fitted in
      let there : Fits fl np default_guard fitters pipes chosen
          (standardized fl np default_guard fitters pipes x_train) seed
          (epochs_or (some e) (default_epochs chosen)) =
        rw (← c_is) fits in
      Fits-at chosen _ seed
        (ap (λ n. epochs_or (some n) (default_epochs chosen)) e_is
          ∙ epochs_or_again epochs (default_epochs chosen))
        there
