-- ===== src/Train/Main.antt =====
-- ml/train.py: `main`, with the parsed arguments given; what it prints is left out.
use edgesense_ai.Prelude.{ℕ, ◌+◌, String, Option, none, some, str_eq, if◌then◌else◌}
use edgesense_ai.Python.Error.{Result, ok, ◌>>=◌, or_raise, key_error, attribute_error}
use edgesense_ai.Python.Json.{Json, Fields, Content, get, put, as_object}
use edgesense_ai.Python.Files
use edgesense_ai.Python.Files.{FilePath, Io, ask}
use edgesense_ai.Signing.{Crypto}
use edgesense_ai.Manifest.Save.{Pickle, Host, save_bundle}
use edgesense_ai.Manifest.Build.{Timestamp}
use edgesense_ai.Scoring.{Bundle, Pipelines}
use edgesense_ai.Train.{Numpy}
use edgesense_ai.Train.Bundles.{Fitters, train_autoencoder, train_iforest, validate}

pub record TrainArgs : Type 0 where
  pub model : String
  pub backend : String
  pub epochs : Option ℕ
  pub seed : ℕ
  pub out : FilePath

module _ {F P R T G Key PublicKey : Type 0} (c : Crypto F Key PublicKey) (h : Host F)
    (np : Numpy F R) (default_guard : F) (fitters : Fitters F P T G) (pipes : Pipelines F P)
    (pickle : Pickle F (Bundle F P)) where
  -- `bundle["manifest"]["metrics"].update(…)`, if there is a manifest.
  unfoldable pub record_rates : F × F → Bundle F P → Option (Fields F) → Result (Bundle F P)
  record_rates (fp, tp) bundle none = ok bundle
  record_rates (fp, tp) bundle (some manifest) = do
    metrics ← or_raise (get manifest "metrics") key_error
    fields ← or_raise (as_object metrics) attribute_error
    ok (record bundle {
      manifest = some (
          put manifest "metrics" (
            Json.obj (
              put (put fields "val_fp_rate" (Json.float (h.floats.round fp 5))) "val_detection_rate"
                (Json.float (h.floats.round tp 5)))));
    })

  abbrev trained : Timestamp → String → TrainArgs → Result (Bundle F P)
  unfolding train_autoencoder train_iforest
  trained ts commit args =
      if str_eq args.model "iforest"
      then ok (train_iforest h.floats np default_guard fitters args.seed 20000)
      else train_autoencoder h.floats np default_guard fitters ts commit args.backend args.seed
          20000 20000 args.epochs

  -- The bundle that is saved.
  unfoldable pub trained_bundle : Timestamp → String → TrainArgs → Result (Bundle F P)
  unfolding train_autoencoder train_iforest
  trained_bundle ts commit args = do
    bundle ← trained ts commit args
    rates ← validate h.floats np default_guard fitters pipes bundle (np.default_rng (args.seed + 1))
    record_rates rates bundle bundle.manifest

  unfoldable pub main : Timestamp → String → TrainArgs → Io (Content F) Unit
  main ts commit args =
      Files.◌>>=◌ (ask (λ _. trained_bundle ts commit args))
        (λ bundle. save_bundle c pickle h bundle args.out)
