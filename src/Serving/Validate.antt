-- ===== src/Serving/Validate.antt =====
-- inference/server.py: `_validate_bundle`.
pub mod Total
use edgesense_ai.Prelude.{
  ℕ, String, Bool, true, false, not, ◌||◌, Option, none, some, List, [], ◌∷◌, length, str_eq,
  if◌then◌else◌, ◌==◌, is_none, replicate,
}
use edgesense_ai.Python.Error.{Result, ok, err, value_error, ◌>>=◌, ◌>>◌, or_raise, raise_if}
use edgesense_ai.Python.Number.{Float}
use edgesense_ai.Scoring.{Bundle, Layer, Pipelines, kind_of, activation_named, score_sample}

module _ {F P : Type 0} (fl : Float F) (pipes : Pipelines F P) (default_guard : F) where
  -- The loop over the layers: each takes what the one before gives.
  unfoldable pub weight_chain : ℕ → List (Layer F) → Result ℕ
  weight_chain dim [] = ok dim
  weight_chain dim ((w, b) ∷ layers) =
      raise_if (not (w.rows == dim) || not (length w.columns == length b)) value_error
      >> weight_chain (length w.columns) layers

  -- The checks on the values of an autoencoder bundle.
  unfoldable pub check_values :
      ℕ → List F → List F → List (Layer F) → F → String → Result (Unit {0})
  check_values n m s weights threshold activation =
      raise_if (is_none (activation_named fl activation)) value_error
      >> (raise_if (not (length m == n) || not (length s == n)) value_error
          >> (weight_chain n weights >>= λ dim.
              raise_if (not (dim == n)) value_error
              >> raise_if (not (fl.is_finite threshold)) value_error))

  unfoldable pub check_autoencoder : Bundle F P → ℕ → Result (Unit {0})
  check_autoencoder bundle n = do
    m ← or_raise bundle.scaler_mean value_error
    s ← or_raise bundle.scaler_scale value_error
    weights ← or_raise bundle.weights value_error
    threshold ← or_raise bundle.threshold value_error
    activation ← or_raise bundle.activation value_error
    check_values n m s weights threshold activation

  unfoldable pub check_kind : Bundle F P → ℕ → Result (Unit {0})
  check_kind bundle n =
      if str_eq (kind_of bundle) "autoencoder"
      then check_autoencoder bundle n
      else if str_eq (kind_of bundle) "iforest"
      then raise_if (is_none bundle.pipeline) value_error
      else err value_error

  abbrev feature_list : Option (List String) → Result (List String)
  feature_list none = err value_error
  feature_list (some []) = err value_error
  feature_list (some (f ∷ fs)) = ok (f ∷ fs)

  -- `none` stands for an object that is no dict.
  unfoldable pub validate_bundle : Option (Bundle F P) → Result (Bundle F P)
  validate_bundle object = do
    bundle ← or_raise object value_error
    features ← feature_list bundle.features
    check_kind bundle (length features)
    scored ← score_sample fl pipes default_guard bundle (replicate (length features) fl.zero)
    raise_if (not (fl.is_finite scored.0)) value_error
    ok bundle
