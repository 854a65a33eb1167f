-- ===== src/Tests/Training.antt =====
-- Training with libraries that give zeros.
use edgesense_ai.Prelude.{
  ℕ, ◌≡◌, refl, ap, String, Bool, true, Option, none, some, List, [], ◌∷◌, ◌++◌, length, replicate,
  length-replicate, arith, sym, if◌then◌else◌, ◌==◌, Bool-cases, ◌⊎◌, inl, inr, false,
}
use edgesense_ai.Python.Error.{
  Result, ok, err, index_error, key_error, value_error, ok_inj, is_ok, total_of,
}
use edgesense_ai.Python.Json.{Json, Fields, end, field}
use edgesense_ai.Scoring.{Matrix, Bundle, Reason, score_sample}
use edgesense_ai.Serving.Validate.{validate_bundle}
use edgesense_ai.Manifest.Card.{render_model_card}
use edgesense_ai.Manifest.Build.{Timestamp, build_manifest, manifest_renders}
use edgesense_ai.Train.{Numpy}
use edgesense_ai.Train.Fit.{Regressor, MlpOptions, Torch, TorchModule, linear, tanh_layer}
use edgesense_ai.Train.Layers.{Shaped, LinearShapes}
use edgesense_ai.Train.Steps.{NumpyShapes, FitterShapes}
use edgesense_ai.Train.Bundles.{
  Fitters, sklearn, train_autoencoder, train_iforest, training_features,
}
use edgesense_ai.Train.Serves.{train_autoencoder_serves, trained_bundle_validates}
use edgesense_ai.Azure.{score_one}
use edgesense_ai.Azure.Schema.{endpoint_misses_keys}
use edgesense_ai.Tests.Instances.{floats, pipes, bundle}

abbrev first_of : List ℕ → ℕ → Result ℕ
first_of [] q = err index_error
first_of (x ∷ xs) q = ok x

abbrev np : Numpy ℕ ℕ
np = record {
  default_rng = λ seed. seed;
  normal = λ r loc scale n. (replicate n loc, r);
  uniform = λ r low high n. (replicate n low, r);
  quantile = first_of;
  digest = λ x. "00";
}

np_shapes : NumpyShapes np
np_shapes = record {
  normal_length = λ r loc scale n. length-replicate n loc;
  quantile_ok = λ x xs q. (x, refl);
}

abbrev zero_weights : ℕ → List ℕ → List (Matrix ℕ)
zero_weights d [] = []
zero_weights d (n ∷ ns) =
    record { rows = d; columns = replicate n (replicate d 0) } ∷ zero_weights n ns

abbrev zero_biases : List ℕ → List (List ℕ)
zero_biases [] = []
zero_biases (n ∷ ns) = replicate n 0 ∷ zero_biases ns

zeros-Shaped : (d : ℕ) (ns : List ℕ) → Shaped d ns (zero_weights d ns) (zero_biases ns)
zeros-Shaped d [] = tt
zeros-Shaped d (n ∷ ns) = (refl, length-replicate n _, length-replicate n 0, zeros-Shaped n ns)

abbrev regressor : Regressor ℕ
regressor o x y =
    let ns = o.hidden_layer_sizes ++ length y.columns ∷ [] in
    if x.rows == 0 then err value_error else ok (zero_weights (length x.columns) ns, zero_biases ns)

abbrev zero_linears : List TorchModule → List (Matrix ℕ × List ℕ)
zero_linears [] = []
zero_linears (tanh_layer ∷ ms) = zero_linears ms
zero_linears (linear i o ∷ ms) =
    (record { rows = o; columns = replicate i (replicate o 0) }, replicate o 0) ∷ zero_linears ms

linears-LinearShapes : (ms : List TorchModule) → LinearShapes ms (zero_linears ms)
linears-LinearShapes [] = tt
linears-LinearShapes (tanh_layer ∷ ms) = linears-LinearShapes ms
linears-LinearShapes (linear i o ∷ ms) =
    (refl, length-replicate i _, length-replicate o 0, linears-LinearShapes ms)

-- A network is the list of its modules here.
abbrev networks : Torch ℕ (List TorchModule) ℕ
networks = record {
  start = λ seed lr ms. ms;
  generator = λ seed. seed;
  randperm = λ g n. ([], g);
  float32 = λ rows. rows;
  step = λ t batch. t;
  linears = zero_linears;
}

abbrev fitters : Fitters ℕ Bool (List TorchModule) ℕ
fitters = record {
  mlp = regressor;
  torch = some networks;
  fit_forest = λ contamination seed x. true;
}

regressor_shapes :
    (o : MlpOptions ℕ) (x y : Matrix ℕ) (ws : List (Matrix ℕ)) (bs : List (List ℕ))
    → regressor o x y ≡ ok (ws, bs)
    → (x.rows == 0 ≡ true) ⊎ (x.rows == 0 ≡ false)
    → Shaped (length x.columns) (o.hidden_layer_sizes ++ length y.columns ∷ []) ws bs
regressor_shapes o x y ws bs h (inl e) = let bad = rw e at h in cc
regressor_shapes o x y ws bs h (inr e) =
    let good = ok_inj (rw e at h) in
    let ns = o.hidden_layer_sizes ++ length y.columns ∷ [] in
    let same_ws : zero_weights (length x.columns) ns ≡ ws = ap (λ r. r.0) good in
    let same_bs : zero_biases ns ≡ bs = ap (λ r. r.1) good in
    rw (sym same_ws, sym same_bs) (zeros-Shaped (length x.columns) ns)

fitter_shapes : FitterShapes fitters
fitter_shapes = record {
  installed = networks;
  torch_is = refl;
  torch_shapes = record {
    Network = λ t ms. t ≡ ms;
    start_Network = λ seed lr ms. refl;
    step_Network = λ t ms batch e. e;
    linears_shapes = λ t ms e. rw e (linears-LinearShapes ms);
  };
  mlp_shapes = λ o x y ws bs h. regressor_shapes o x y ws bs h (Bool-cases (x.rows == 0));
}

abbrev time : Timestamp
time = record { version_date = "20260101.000000"; created_at = "2026-01-01T00:00:00Z" }

train_autoencoder_serves_example :
    (b : Bundle ℕ Bool) × (train_autoencoder floats np 6 fitters time "abc" "sklearn" 42 4 3 none
      ≡ ok b)
    × (b.features ≡ some training_features)
    × ((manifest : Fields ℕ) × (card : String) × (b.manifest ≡ some manifest)
        × (render_model_card floats (λ v. "") manifest ≡ ok card))
    × ((x : List ℕ)
        → length x ≡ 3
        → (r : ℕ × Bool × Option Reason) × (score_sample floats pipes 6 b x ≡ ok r))
unfolding edgesense_ai.Train.normal_data
train_autoencoder_serves_example =
    train_autoencoder_serves floats np 6 fitters pipes time "abc" "sklearn" sklearn 42 4 3 none
      (λ v. "") np_shapes fitter_shapes refl (omega arith) (_, refl)

-- A run with the other backend returns a bundle.
sklearn_runs :
    is_ok (train_autoencoder floats np 6 fitters time "abc" "sklearn" 42 4 3 (some 5)) ≡ true
unfolding edgesense_ai.Train.normal_data
sklearn_runs = ap is_ok (run.1)
  where
    run :
        (b : Bundle ℕ Bool) × (train_autoencoder floats np 6 fitters time "abc" "sklearn" 42 4 3
            (some 5)
          ≡ ok b)
    run =
        let r =
          train_autoencoder_serves floats np 6 fitters pipes time "abc" "sklearn" sklearn 42 4 3
            (some 5) (λ v. "") np_shapes fitter_shapes refl (omega arith) (_, refl) in
        (r.0, r.1)

trained :
    (b : Bundle ℕ Bool) × (train_autoencoder floats np 6 fitters time "abc" "sklearn" 42 4 3
        (some 5)
      ≡ ok b)
trained =
    total_of (train_autoencoder floats np 6 fitters time "abc" "sklearn" 42 4 3 (some 5))
      sklearn_runs

trained_bundle_validates_example : validate_bundle floats pipes 6 (some trained.0) ≡ ok trained.0
trained_bundle_validates_example =
    trained_bundle_validates floats np 6 fitters pipes time "abc" "sklearn" sklearn 42 4 3 (some 5)
      trained.0 np_shapes fitter_shapes refl (omega arith) trained.1 (λ t h. refl) (λ r h. refl)

abbrev reading : Fields ℕ
reading =
    field "vibration" (Json.float 1)
      (field "temperature" (Json.float 45) (field "current" (Json.float 12) end))

abbrev to_float : Json ℕ → Result ℕ
to_float (Json.float x) = ok x
to_float v = err key_error

endpoint_misses_keys_example :
    (score_one floats to_float trained.0 reading ≡ err key_error)
    × (score_one floats to_float (train_iforest floats np 6 fitters 42 4) reading ≡ err key_error)
unfolding edgesense_ai.Azure.reading_values
endpoint_misses_keys_example =
    endpoint_misses_keys floats np 6 fitters pipes to_float time "abc" "sklearn" sklearn 42 4 3
      (some 5) trained.0 reading (1 ∷ 45 ∷ 12 ∷ []) np_shapes fitter_shapes refl (omega arith)
      trained.1 refl

abbrev parameters : Fields ℕ
parameters =
    field "params" (Json.obj (field "vibration" (Json.obj (field "mean" (Json.float 1) end)) end))
      end

manifest_made : (m : Fields ℕ) × (build_manifest time "abc" bundle 42 5 parameters end ≡ ok m)
unfolding build_manifest
manifest_made = total_of (build_manifest time "abc" bundle 42 5 parameters end) refl

manifest_renders_example :
    (card : String) × (render_model_card floats (λ v. "") manifest_made.0 ≡ ok card)
manifest_renders_example =
    manifest_renders floats (λ v. "") time "abc" bundle 42 5 parameters
      (field "vibration" (Json.obj (field "mean" (Json.float 1) end)) end) end manifest_made.0 refl
      tt manifest_made.1
