-- ===== src/Train/Steps.antt =====
-- Each step of a training run succeeds, and what it gives has the right shape.
use edgesense_ai.Prelude.{
  ℕ, zero, suc, ◌≡◌, refl, ap, ◌∙◌, some, List, [], ◌∷◌, length, All, arith, map,
}
use edgesense_ai.Python.Error.{ok}
use edgesense_ai.Python.Number.{Float}
use edgesense_ai.Scoring.{Matrix, Layer, Bundle, Pipelines, mean}
use edgesense_ai.Scoring.Shapes.{IsChain}
use edgesense_ai.Serving.Validate.Total.{IsAutoencoder, reconstruction_total}
use edgesense_ai.Train.{Numpy, rows_of, firsts, rests}
use edgesense_ai.Train.Fit.{Torch}
use edgesense_ai.Train.Layers.{
  RegressorShapes, TorchShapes, Regresses, fit_sklearn-Regresses, fit_sklearn-IsChain,
  fit_torch-IsChain,
}
use edgesense_ai.Train.Bundles.{
  Backend, sklearn, torch, Fitters, fit_with, standard_columns, nonzero, std, reconstruction_errors,
}

-- What numpy documents: as many samples as asked for, and a quantile of every array that is not empty.
pub record NumpyShapes {F R : Type 0} (np : Numpy F R) : Type 0 where
  pub normal_length : (r : R) (loc scale : F) (n : ℕ) → length (np.normal r loc scale n).0 ≡ n
  pub quantile_ok : (x : F) (xs : List F) (q : F) → (t : F) × (np.quantile (x ∷ xs) q ≡ ok t)

-- Both libraries are installed and give the shapes that they document.
pub record FitterShapes {F P T G : Type 0} (fitters : Fitters F P T G) : Type 1 where
  pub installed : Torch F T G
  pub torch_is : fitters.torch ≡ some installed
  pub torch_shapes : TorchShapes installed
  pub mlp_shapes : RegressorShapes fitters.mlp

firsts-length :
    {F : Type 0} (n : ℕ) (cs : List (List F))
    → All (λ c. length c ≡ suc n) cs
    → length (firsts cs) ≡ length cs
firsts-length n [] h = refl
firsts-length n ([] ∷ cs) h = absurd (omega (arith, h.0))
firsts-length n ((x ∷ xs) ∷ cs) h = ap suc (firsts-length n cs h.1)

rests-length : {F : Type 0} (cs : List (List F)) → length (rests cs) ≡ length cs
rests-length [] = refl
rests-length ([] ∷ cs) = ap suc (rests-length cs)
rests-length ((x ∷ xs) ∷ cs) = ap suc (rests-length cs)

rests_shorter :
    {F : Type 0} (n : ℕ) (cs : List (List F))
    → All (λ c. length c ≡ suc n) cs
    → All (λ c. length c ≡ n) (rests cs)
rests_shorter n [] h = tt
rests_shorter n ([] ∷ cs) h = absurd (omega (arith, h.0))
rests_shorter n ((x ∷ xs) ∷ cs) h = (omega (arith, h.0), rests_shorter n cs h.1)

-- The rows of a rectangular matrix are as long as it has columns.
pub rows_of_lem :
    {F : Type 0} (n k : ℕ) (cs : List (List F))
    → length cs ≡ k
    → All (λ c. length c ≡ n) cs
    → All (λ r. length r ≡ k) (rows_of n cs)
unfolding rows_of
rows_of_lem zero k cs e h = tt
rows_of_lem (suc n) k cs e h = (
  firsts-length n cs h ∙ e,
  rows_of_lem n k (rests cs) (rests-length cs ∙ e) (rests_shorter n cs h),
)

module _ {F P R T G : Type 0} (fl : Float F) (np : Numpy F R) (default_guard : F)
    (fitters : Fitters F P T G) (pipes : Pipelines F P) where
  pub length-standard_columns :
      (cs : List (List F)) (ms ss : List F)
      → length ms ≡ length cs
      → length ss ≡ length cs
      → length (standard_columns fl np default_guard fitters cs ms ss) ≡ length cs
  length-standard_columns [] ms ss h k = refl
  length-standard_columns (c ∷ cs) [] ss h k = absurd (omega (arith, h))
  length-standard_columns (c ∷ cs) (m ∷ ms) [] h k = absurd (omega (arith, k))
  length-standard_columns (c ∷ cs) (m ∷ ms) (s ∷ ss) h k =
      ap suc (length-standard_columns cs ms ss (omega (arith, h)) (omega (arith, k)))

  -- The library that the backend stands on fits this array: scikit-learn's regressor may raise, PyTorch's loop does not.
  abbrev pub Fits : Backend → Matrix F → ℕ → ℕ → Type 0
  Fits sklearn z seed epochs = Regresses fl np fitters.mlp z seed epochs
  Fits torch z seed epochs = Unit

  -- The training array as it is fitted.
  abbrev pub standardized : Matrix F → Matrix F
  standardized x = record x {
    columns = standard_columns fl np default_guard fitters x.columns (map (mean fl) x.columns) (
        map (nonzero fl np default_guard fitters)
          (map (std fl np default_guard fitters) x.columns));
  }

  pub fit_with-Fits :
      (b : Backend) (z : Matrix F) (seed epochs : ℕ) (ls : List (Layer F))
      → fit_with fl np default_guard fitters b z seed epochs ≡ ok ls
      → Fits b z seed epochs
  unfolding fit_with
  fit_with-Fits sklearn z seed epochs ls h =
      fit_sklearn-Regresses fl np fitters.mlp z seed epochs ls h
  fit_with-Fits torch z seed epochs ls h = tt

  pub fit_with-IsChain :
      (b : Backend) (z : Matrix F) (seed epochs : ℕ)
      → FitterShapes fitters
      → Fits b z seed epochs
      → (ls : List (Layer F)) × (fit_with fl np default_guard fitters b z seed epochs ≡ ok ls)
        × IsChain fl (length z.columns) ls (length z.columns)
  unfolding fit_with
  fit_with-IsChain sklearn z seed epochs shapes fits =
      fit_sklearn-IsChain fl np fitters.mlp z seed epochs shapes.mlp_shapes fits
  fit_with-IsChain torch z seed epochs shapes fits =
      rw shapes.torch_is
        (fit_torch-IsChain shapes.installed shapes.torch_shapes fl np z seed epochs)

  pub reconstruction_errors-total :
      (b : Bundle F P) (n : ℕ) (xs : List (List F))
      → IsAutoencoder fl pipes default_guard b n
      → All (λ x. length x ≡ n) xs
      → (es : List F) × (reconstruction_errors fl np default_guard fitters b xs ≡ ok es)
        × (length es ≡ length xs)
  unfolding reconstruction_errors
  reconstruction_errors-total b n [] ae h = ([], refl, refl)
  reconstruction_errors-total b n (x ∷ xs) ae h =
      let (e, one) = reconstruction_total fl pipes default_guard b n x ae h.0 in
      let (es, rest, len) = reconstruction_errors-total b n xs ae h.1 in
      (e ∷ es, rw (one, rest) refl, ap suc len)
