-- ===== src/Train/Layers.antt =====
-- The layers that the two backends of training give: what their libraries document of the shapes, and that the layers
-- fit together.
use edgesense_ai.Prelude.{ℕ, zero, suc, ◌≡◌, refl, sym, ap, ◌∙◌, some, List, [], ◌∷◌, ◌++◌, length}
use edgesense_ai.Python.Error.{ok, bind_ok}
use edgesense_ai.Python.Number.{Float}
use edgesense_ai.Scoring.{Matrix, Layer}
use edgesense_ai.Scoring.Shapes.{IsChain}
use edgesense_ai.Train.{Numpy, dec, rows_of, transpose, rests}
use edgesense_ai.Train.Fit.{
  Regressor, Torch, TorchModule, linear, tanh_layer, MlpOptions, hidden_layers, modules_of, dims_of,
  zip_layers, transposed, fit_sklearn, fit_torch, mlp_options, steps, train_epochs, batches,
}

pub length-rows_of : {F : Type 0} (n : ℕ) (cs : List (List F)) → length (rows_of n cs) ≡ n
unfolding rows_of
length-rows_of zero cs = refl
length-rows_of (suc n) cs = ap suc (length-rows_of n (rests cs))

-- The shapes of `coefs_` and `intercepts_` for units `d`, then `ns`.
abbrev pub Shaped : {F : Type 0} → ℕ → List ℕ → List (Matrix F) → List (List F) → Type 0
Shaped d [] [] [] = Unit
Shaped d (n ∷ ns) (w ∷ ws) (b ∷ bs) =
    (w.rows ≡ d) × (length w.columns ≡ n) × (length b ≡ n) × Shaped n ns ws bs
Shaped d _ _ _ = ⊥

-- What scikit-learn documents of a fitted regressor.
abbrev pub RegressorShapes : {F : Type 0} → Regressor F → Type 0
RegressorShapes {F} mlp =
    (o : MlpOptions F) (x y : Matrix F) (ws : List (Matrix F)) (bs : List (List F))
    → mlp o x y ≡ ok (ws, bs)
    → Shaped (length x.columns) (o.hidden_layer_sizes ++ length y.columns ∷ []) ws bs

-- The weights and biases of the linear modules of a network.
abbrev pub LinearShapes : {F : Type 0} → List TorchModule → List (Matrix F × List F) → Type 0
LinearShapes [] [] = Unit
LinearShapes (tanh_layer ∷ ms) ls = LinearShapes ms ls
LinearShapes (linear i o ∷ ms) ((w, b) ∷ ls) =
    (w.rows ≡ o) × (length w.columns ≡ i) × (length b ≡ o) × LinearShapes ms ls
LinearShapes _ _ = ⊥

-- What PyTorch documents: a round of the optimiser keeps the modules of a network, and a linear module has its shape.
pub record TorchShapes {F T G : Type 0} (torch : Torch F T G) : Type 1 where
  pub Network : T → List TorchModule → Type 0
  pub start_Network :
      (seed : ℕ) (lr : F) (ms : List TorchModule) → Network (torch.start seed lr ms) ms
  pub step_Network :
      (t : T) (ms : List TorchModule) (batch : List (List F))
      → Network t ms
      → Network (torch.step t batch) ms
  pub linears_shapes :
      (t : T) (ms : List TorchModule) → Network t ms → LinearShapes ms (torch.linears t)

-- The last of the units.
abbrev last_of : ℕ → List ℕ → ℕ
last_of d [] = d
last_of d (n ∷ ns) = last_of n ns

module _ {F R : Type 0} (fl : Float F) (np : Numpy F R) where
  IsChain-at :
      {a b : ℕ} (e : ℕ) (ls : List (Layer F)) → a ≡ b → IsChain fl b ls e → IsChain fl a ls e
  IsChain-at e ls h k = rw h k

  zip_layers-IsChain :
      (d : ℕ) (ns : List ℕ) (ws : List (Matrix F)) (bs : List (List F))
      → Shaped d ns ws bs
      → IsChain fl d (zip_layers ws bs) (last_of d ns)
  zip_layers-IsChain d [] [] [] h = refl
  zip_layers-IsChain d [] [] (b ∷ bs) h = elim h [ ]
  zip_layers-IsChain d [] (w ∷ ws) bs h = elim h [ ]
  zip_layers-IsChain d (n ∷ ns) [] bs h = elim h [ ]
  zip_layers-IsChain d (n ∷ ns) (w ∷ ws) [] h = elim h [ ]
  zip_layers-IsChain d (n ∷ ns) (w ∷ ws) (b ∷ bs) (rows, cols, bias, rest) = (
    rows,
    cols ∙ sym bias,
    IsChain-at (last_of n ns) (zip_layers ws bs) cols (zip_layers-IsChain n ns ws bs rest),
  )

  transposed-IsChain :
      (d : ℕ) (ns : List ℕ) (ls : List (Matrix F × List F))
      → LinearShapes (modules_of (d ∷ ns)) ls
      → IsChain fl d (transposed ls) (last_of d ns)
  unfolding transpose
  transposed-IsChain d [] [] h = refl
  transposed-IsChain d [] (l ∷ ls) h = elim h [ ]
  transposed-IsChain d (n ∷ []) [] h = elim h [ ]
  transposed-IsChain d (n ∷ []) ((w, b) ∷ []) (rows, cols, bias, rest) =
      let wide = length-rows_of w.rows w.columns ∙ rows in (cols, wide ∙ sym bias, wide)
  transposed-IsChain d (n ∷ []) ((w, b) ∷ l ∷ ls) (rows, cols, bias, rest) = elim rest [ ]
  transposed-IsChain d (n ∷ m ∷ ns) [] h = elim h [ ]
  transposed-IsChain d (n ∷ m ∷ ns) ((w, b) ∷ ls) (rows, cols, bias, rest) =
      let wide = length-rows_of w.rows w.columns ∙ rows in
      (
        cols,
        wide ∙ sym bias,
        IsChain-at (last_of m ns) (transposed ls) wide (transposed-IsChain n (m ∷ ns) ls rest),
      )

  -- The regressor fits this array to itself: it raises nothing.
  abbrev pub Regresses : Regressor F → Matrix F → ℕ → ℕ → Type 0
  Regresses mlp z seed epochs =
      (r : List (Matrix F) × List (List F)) × (mlp (mlp_options fl np seed epochs) z z ≡ ok r)

  pub fit_sklearn-IsChain :
      (mlp : Regressor F) (z : Matrix F) (seed epochs : ℕ)
      → RegressorShapes mlp
      → Regresses mlp z seed epochs
      → (ls : List (Layer F)) × (fit_sklearn fl np mlp z seed epochs ≡ ok ls)
        × IsChain fl (length z.columns) ls (length z.columns)
  unfolding fit_sklearn
  fit_sklearn-IsChain mlp z seed epochs h ((ws, bs), fitted) = (
    zip_layers ws bs,
    rw fitted refl,
    zip_layers-IsChain (length z.columns) (hidden_layers ++ length z.columns ∷ []) ws bs
        (h (mlp_options fl np seed epochs) z z ws bs fitted),
  )

  pub fit_sklearn-Regresses :
      (mlp : Regressor F) (z : Matrix F) (seed epochs : ℕ) (ls : List (Layer F))
      → fit_sklearn fl np mlp z seed epochs ≡ ok ls
      → Regresses mlp z seed epochs
  unfolding fit_sklearn
  fit_sklearn-Regresses mlp z seed epochs ls h =
      let (r, fitted, _) = bind_ok (mlp (mlp_options fl np seed epochs) z z) _ h in (r, fitted)

module _ {F T G : Type 0} (torch : Torch F T G) (shapes : TorchShapes torch) where
  steps-Network :
      (rows : List (List F)) (bs : List (List ℕ)) (t : T) (ms : List TorchModule)
      → shapes.Network t ms
      → shapes.Network (steps torch rows bs t) ms
  steps-Network rows [] t ms h = h
  steps-Network rows (b ∷ bs) t ms h = steps-Network rows bs _ ms (shapes.step_Network t ms _ h)

  train_epochs-Network :
      (rows : List (List F)) (n : ℕ) (g : G) (t : T) (ms : List TorchModule)
      → shapes.Network t ms
      → shapes.Network (train_epochs torch rows n g t) ms
  train_epochs-Network rows zero g t ms h = h
  train_epochs-Network rows (suc n) g t ms h =
      let (perm, g') = torch.randperm g (length rows) in
      train_epochs-Network rows n g' _ ms
        (steps-Network rows (batches (length perm) 512 perm) t ms h)

  pub fit_torch-IsChain :
      {R : Type 0} (fl : Float F) (np : Numpy F R) (z : Matrix F) (seed epochs : ℕ)
      → (ls : List (Layer F)) × (fit_torch fl np (some torch) z seed epochs ≡ ok ls)
        × IsChain fl (length z.columns) ls (length z.columns)
  unfolding fit_torch
  fit_torch-IsChain fl np z seed epochs =
      let k = length z.columns in
      let ms = modules_of (dims_of k) in
      let rows = torch.float32 (rows_of z.rows z.columns) in
      let t =
        train_epochs torch rows epochs (torch.generator seed)
          (torch.start seed (dec fl np 5 1000) ms) in
      let holds =
        train_epochs-Network rows epochs (torch.generator seed) _ ms
          (shapes.start_Network seed (dec fl np 5 1000) ms) in
      (
        transposed (torch.linears t),
        refl,
        transposed-IsChain fl np k (hidden_layers ++ k ∷ []) (torch.linears t)
            (shapes.linears_shapes t ms holds),
      )
