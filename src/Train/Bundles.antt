-- ===== src/Train/Bundles.antt =====
-- ml/train.py: `build_bundle`, the training runs, `validate` and `main`. The parsed arguments are given, and what is printed
-- is left out.
use edgesense_ai.Prelude.{
  ℕ, zero, suc, String, Bool, true, false, Option, none, some, List, [], ◌∷◌, map, length, str_eq,
  if◌then◌else◌,
}
use edgesense_ai.Python.Error.{Result, ok, err, ◌>>=◌, or_raise, key_error}
use edgesense_ai.Python.Number.{Float, gt, pos}
use edgesense_ai.Python.Json.{Json, Fields, end, field}
use edgesense_ai.Scoring.{Matrix, Layer, Bundle, Pipelines, mean, square, reconstruction_error}
use edgesense_ai.Manifest.Build.{Timestamp, build_manifest}
use edgesense_ai.Train.{Numpy, rows_of, dec, normal_data, fault_data}
use edgesense_ai.Train.Fit.{Regressor, Torch, activation, fit_sklearn, fit_torch}

-- `FEATURES`
abbrev pub training_features : List String
training_features = "vibration" ∷ "temperature" ∷ "current" ∷ []

pub data Backend : Type 0 where
  sklearn torch : Backend

-- `_BACKENDS[name]`
abbrev pub backend_named : String → Result Backend
backend_named name =
    if str_eq name "sklearn"
    then ok sklearn
    else if str_eq name "torch"
    then ok torch
    else err key_error

abbrev pub default_epochs : Backend → ℕ
default_epochs sklearn = 500
default_epochs torch = 300

-- `epochs or default`
abbrev pub epochs_or : Option ℕ → ℕ → ℕ
epochs_or none d = d
epochs_or (some zero) d = d
epochs_or (some (suc n)) d = suc n

-- The libraries that fit a model; `fit_forest` is the scaler and the IsolationForest, fitted with a contamination and a
-- seed.
pub record Fitters (F P T G : Type 0) : Type 0 where
  pub mlp : Regressor F
  pub torch : Option (Torch F T G)
  pub fit_forest : F → ℕ → Matrix F → P

module _ {F P R T G : Type 0} (fl : Float F) (np : Numpy F R) (default_guard : F)
    (fitters : Fitters F P T G) where
  -- `x.std()`
  abbrev pub std : List F → F
  std xs = let m = mean fl xs in fl.sqrt (mean fl (map (λ x. square fl (fl.sub x m)) xs))

  -- `np.where(scale == 0, 1.0, scale)` for one feature.
  abbrev pub nonzero : F → F
  nonzero s = if fl.eq s fl.zero then fl.one else s

  -- `(x - mean) / scale`, column by column.
  abbrev pub standard_columns : List (List F) → List F → List F → List (List F)
  standard_columns (c ∷ cs) (m ∷ ms) (s ∷ ss) =
      map (λ x. fl.div (fl.sub x m) s) c ∷ standard_columns cs ms ss
  standard_columns _ _ _ = []

  unfoldable pub fit_with : Backend → Matrix F → ℕ → ℕ → Result (List (Layer F))
  fit_with sklearn z seed epochs = fit_sklearn fl np fitters.mlp z seed epochs
  fit_with torch z seed epochs = fit_torch fl np fitters.torch z seed epochs

  -- The errors of the rows of an array, each by itself.
  unfoldable pub reconstruction_errors : Bundle F P → List (List F) → Result (List F)
  reconstruction_errors bundle [] = ok []
  reconstruction_errors bundle (x ∷ xs) = do
    e ← reconstruction_error fl bundle x
    es ← reconstruction_errors bundle xs
    ok (e ∷ es)

  -- `FP_BUDGET`
  abbrev pub fp_budget : F
  fp_budget = dec fl np 5 1000

  -- The bundle before its threshold is calibrated.
  abbrev pub uncalibrated : String → List String → List F → List F → List (Layer F) → Bundle F P
  uncalibrated backend features m s weights = record {
    features = some features;
    kind = some "autoencoder";
    scaler_mean = some m;
    scaler_scale = some s;
    weights = some weights;
    threshold = some fl.zero;
    activation = some activation;
    pipeline = none;
    z_guard = some default_guard;
    manifest = none;
    backend = some backend;
    scaler_std = none;
    layers = none;
  }

  unfoldable pub build_bundle :
      Matrix F → Matrix F → List String → String → ℕ → Option ℕ → Result (Bundle F P)
  build_bundle x_train x_cal features backend seed epochs = do
    chosen ← backend_named backend
    let m = map (mean fl) x_train.columns
    let s = map nonzero (map std x_train.columns)
    weights ←
        fit_with chosen (record x_train { columns = standard_columns x_train.columns m s }) seed
          (epochs_or epochs (default_epochs chosen))
    let bundle = uncalibrated backend features m s weights
    errors ← reconstruction_errors bundle (rows_of x_cal.rows x_cal.columns)
    threshold ← np.quantile errors (fl.sub fl.one fp_budget)
    ok (record bundle { threshold = some threshold })

  abbrev pub float_field : String → F → Fields F → Fields F
  float_field k x d = field k (Json.float x) d

  -- `GENERATOR_PARAMS`
  abbrev pub generator_params : Fields F
  generator_params =
      field "vibration"
        (Json.obj (
          float_field "mean" (dec fl np 8 10)
            (float_field "std" (dec fl np 15 100) (float_field "clip_min" fl.zero end))))
        (field "temperature"
          (Json.obj (float_field "mean" (dec fl np 45 1) (float_field "std" (dec fl np 12 10) end)))
          (field "current"
            (Json.obj (
              float_field "mean" (dec fl np 12 1)
                (float_field "std" (dec fl np 6 10) (float_field "clip_min" fl.zero end))))
            end))

  abbrev pub training_data : Matrix F → ℕ → ℕ → Fields F
  training_data x_train n_train n_cal = field "generator" (Json.str "synthetic-normal-v1") (
      field "params" (Json.obj generator_params) (
        field "sha256" (Json.str (np.digest x_train)) (
          float_field "fp_budget" fp_budget
            (field "n_train" (Json.int (pos n_train)) (field "n_cal" (Json.int (pos n_cal)) end)))))

  -- `epochs or _BACKENDS[backend][1]`: the table is read only without epochs.
  abbrev pub fit_epochs : Option ℕ → String → Result ℕ
  fit_epochs none backend = do b ← backend_named backend; ok (default_epochs b)
  fit_epochs (some zero) backend = do b ← backend_named backend; ok (default_epochs b)
  fit_epochs (some (suc n)) backend = ok (suc n)

  -- `bundle["threshold"]` in the metrics of the manifest.
  unfoldable pub train_autoencoder :
      Timestamp → String → String → ℕ → ℕ → ℕ → Option ℕ → Result (Bundle F P)
  train_autoencoder ts commit backend seed n_train n_cal epochs = do
    let (x_train, r1) = normal_data fl np n_train (np.default_rng seed)
    let (x_cal, r2) = normal_data fl np n_cal r1
    e ← fit_epochs epochs backend
    bundle ← build_bundle x_train x_cal training_features backend seed (some e)
    threshold ← or_raise bundle.threshold key_error
    manifest ←
        build_manifest ts commit bundle seed e (training_data x_train n_train n_cal)
          (float_field "threshold" threshold end)
    ok (record bundle { manifest = some manifest })

  unfoldable pub train_iforest : ℕ → ℕ → Bundle F P
  train_iforest seed n_train = record {
    features = some training_features;
    kind = some "iforest";
    scaler_mean = none;
    scaler_scale = none;
    weights = none;
    threshold = none;
    activation = none;
    pipeline =
        some
          (fitters.fit_forest fp_budget seed (normal_data fl np n_train (np.default_rng seed)).0);
    z_guard = some default_guard;
    manifest = none;
    backend = none;
    scaler_std = none;
    layers = none;
  }

  -- `np.mean` of Booleans.
  abbrev count_true : List Bool → ℕ
  count_true [] = 0
  count_true (true ∷ bs) = suc (count_true bs)
  count_true (false ∷ bs) = count_true bs

  abbrev share : List Bool → F
  share bs = fl.div (fl.of_nat (count_true bs)) (fl.of_nat (length bs))

  abbrev predictions : Pipelines F P → P → List (List F) → Result (List Bool)
  predictions pipes pipeline [] = ok []
  predictions pipes pipeline (x ∷ xs) = do
    hit ← pipes.predicts_anomaly pipeline x
    hits ← predictions pipes pipeline xs
    ok (hit ∷ hits)

  abbrev alarm_rate : Pipelines F P → Bundle F P → Bool → Matrix F → Result F
  alarm_rate pipes bundle true x = do
    threshold ← or_raise bundle.threshold key_error
    errors ← reconstruction_errors bundle (rows_of x.rows x.columns)
    ok (share (map (λ e. gt fl e threshold) errors))
  alarm_rate pipes bundle false x = do
    pipeline ← or_raise bundle.pipeline key_error
    hits ← predictions pipes pipeline (rows_of x.rows x.columns)
    ok (share hits)

  unfoldable pub validate : Pipelines F P → Bundle F P → R → Result (F × F)
  validate pipes bundle rng = do
    let (x_normal, r1) = normal_data fl np 2000 rng
    let (x_fault, r2) = fault_data fl np 2000 r1
    kind ← or_raise bundle.kind key_error
    fp ← alarm_rate pipes bundle (str_eq kind "autoencoder") x_normal
    tp ← alarm_rate pipes bundle (str_eq kind "autoencoder") x_fault
    ok (fp, tp)
