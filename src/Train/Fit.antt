-- ===== src/Train/Fit.antt =====
-- ml/train.py: the two backends that fit the autoencoder. The optimisers of scikit-learn and of PyTorch
-- are parameters.
use edgesense_ai.Prelude.{
  ℕ, zero, suc, String, Option, none, some, List, [], ◌∷◌, ◌++◌, take, length, get_elem?,
}
use edgesense_ai.Python.Error.{Result, ok, err, ◌>>=◌, system_exit}
use edgesense_ai.Python.Number.{Float}
use edgesense_ai.Scoring.{Matrix, Layer}
use edgesense_ai.Train.{rows_of, transpose, Numpy, dec}

-- `HIDDEN_LAYERS`
abbrev pub hidden_layers : List ℕ
hidden_layers = 16 ∷ 2 ∷ 16 ∷ []

-- `ACTIVATION`
abbrev pub activation : String
activation = "tanh"

pub record MlpOptions (F : Type 0) : Type 0 where
  pub hidden_layer_sizes : List ℕ
  pub activation : String
  pub solver : String
  pub learning_rate_init : F
  pub max_iter : ℕ
  pub n_iter_no_change : ℕ
  pub tol : F
  pub random_state : ℕ

-- `MLPRegressor(…).fit(x, y)`: its `coefs_` and `intercepts_`. It raises for data without a row or with a number that is
-- not finite.
abbrev pub Regressor : Type 0 → Type 0
Regressor F = MlpOptions F → Matrix F → Matrix F → Result (List (Matrix F) × List (List F))

pub data TorchModule : Type 0 where
  linear : ℕ → ℕ → TorchModule
  tanh_layer : TorchModule

-- What the code uses of PyTorch, with a network and its optimiser in `T` and a generator in `G`. `step` is one round of
-- the optimiser on a batch, and `linears` the weight and the bias of each `nn.Linear`, with the weight as (out, in).
pub record Torch (F T G : Type 0) : Type 0 where
  pub start : ℕ → F → List TorchModule → T
  pub generator : ℕ → G
  pub randperm : G → ℕ → List ℕ × G
  pub float32 : List (List F) → List (List F)
  pub step : T → List (List F) → T
  pub linears : T → List (Matrix F × List F)

-- `zip(coefs, intercepts)`
abbrev pub zip_layers : {F : Type 0} → List (Matrix F) → List (List F) → List (Layer F)
zip_layers (w ∷ ws) (b ∷ bs) = (w, b) ∷ zip_layers ws bs
zip_layers _ _ = []

-- The loop over `range(len(dims) - 1)`: no activation behind the last layer.
abbrev pub modules_of : List ℕ → List TorchModule
modules_of (a ∷ b ∷ []) = linear a b ∷ []
modules_of (a ∷ b ∷ c ∷ ds) = linear a b ∷ tanh_layer ∷ modules_of (b ∷ c ∷ ds)
modules_of _ = []

-- `[k, *HIDDEN_LAYERS, k]`
abbrev pub dims_of : ℕ → List ℕ
dims_of k = k ∷ (hidden_layers ++ k ∷ [])

abbrev drop : {A : Type 0} → ℕ → List A → List A
drop zero xs = xs
drop (suc n) [] = []
drop (suc n) (x ∷ xs) = drop n xs

-- The slices `perm[start:start + batch]`; as many rounds as there are items are enough.
abbrev pub batches : ℕ → ℕ → List ℕ → List (List ℕ)
batches zero batch perm = []
batches (suc fuel) batch [] = []
batches (suc fuel) batch (i ∷ perm) =
    take batch (i ∷ perm) ∷ batches fuel batch (drop batch (i ∷ perm))

abbrev select : {F : Type 0} → List (List F) → List ℕ → List (List F)
select data_rows [] = []
select data_rows (i ∷ is) =
    let rest = select data_rows is in
    elim (get_elem? data_rows i) [ none ↦ rest | some row ↦ row ∷ rest ]

abbrev pub transposed : {F : Type 0} → List (Matrix F × List F) → List (Layer F)
transposed [] = []
transposed ((w, b) ∷ ls) = (transpose w, b) ∷ transposed ls

module _ {F R : Type 0} (fl : Float F) (np : Numpy F R) where
  abbrev pub mlp_options : ℕ → ℕ → MlpOptions F
  mlp_options seed epochs = record {
    hidden_layer_sizes = hidden_layers;
    activation = activation;
    solver = "adam";
    learning_rate_init = dec fl np 5 1000;
    max_iter = epochs;
    n_iter_no_change = 20;
    tol = dec fl np 1 100000;
    random_state = seed;
  }

  unfoldable pub fit_sklearn : Regressor F → Matrix F → ℕ → ℕ → Result (List (Layer F))
  fit_sklearn mlp z_train seed epochs =
      mlp (mlp_options seed epochs) z_train z_train >>= λ fitted. ok (zip_layers fitted.0 fitted.1)

module _ {F T G : Type 0} where
  -- The batches of one epoch.
  abbrev pub steps : Torch F T G → List (List F) → List (List ℕ) → T → T
  steps torch data_rows [] t = t
  steps torch data_rows (b ∷ bs) t = steps torch data_rows bs (torch.step t (select data_rows b))

  abbrev pub train_epochs : Torch F T G → List (List F) → ℕ → G → T → T
  train_epochs torch data_rows zero gen t = t
  train_epochs torch data_rows (suc n) gen t =
      let (perm, gen') = torch.randperm gen (length data_rows) in
      train_epochs torch data_rows n gen' (steps torch data_rows (batches (length perm) 512 perm) t)

module _ {F R T G : Type 0} (fl : Float F) (np : Numpy F R) where
  -- `none` stands for a PyTorch that is not installed.
  unfoldable pub fit_torch : Option (Torch F T G) → Matrix F → ℕ → ℕ → Result (List (Layer F))
  fit_torch none z_train seed epochs = err system_exit
  fit_torch (some torch) z_train seed epochs =
      let model =
        torch.start seed (dec fl np 5 1000) (modules_of (dims_of (length z_train.columns))) in
      let data_rows = torch.float32 (rows_of z_train.rows z_train.columns) in
      ok (
        transposed
          (torch.linears (train_epochs torch data_rows epochs (torch.generator seed) model)))
