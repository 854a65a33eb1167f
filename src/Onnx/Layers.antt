-- ===== src/Onnx/Layers.antt =====
-- The nodes of the layers compute the forward pass.
use edgesense_ai.Prelude.{
  ◌≡◌, refl, ap, ◌∙◌, ◌≤◌, ℕ, ◌+◌, true, false, some, List, [], ◌∷◌, map, ◌==◌, arith,
}
use edgesense_ai.Python.Error.{ok, bind_ok, ok_inj}
use edgesense_ai.Python.Number.{Float}
use edgesense_ai.Scoring.{Layer, forward, broadcast, matmul}
use edgesense_ai.Onnx.{
  Name, feature_axis, threshold_name, z_name, weight, bias, mm, lin, act, Tensor, vector, matrix,
  number, axes, node, layer_nodes, layer_inits,
}
use edgesense_ai.Onnx.Run.{name_eq, Values, find, Operators, run_nodes, run_one, run_two, IsOnnx}

eq_self : (n : ℕ) → (n == n) ≡ true
eq_self n = ground arith

later_differs : (i j : ℕ) → i + 1 ≤ j → (i == j) ≡ false
later_differs i j h = ground arith

-- A name that is no weight and no bias from number `i` on.
abbrev pub Apart : ℕ → Name → Type 0
Apart i n = (j : ℕ) → i ≤ j → (name_eq n (weight j) ≡ false) × (name_eq n (bias j) ≡ false)

module _ {F : Type 0} where
  -- The weights and biases of the layers from number `i` on are known.
  abbrev pub HasLayers : ℕ → List (Layer F) → Values F → Type 0
  HasLayers i [] values = Unit
  HasLayers i ((w, b) ∷ layers) values =
      (find (weight i) values ≡ some (matrix w))
      × (find (bias i) values ≡ some (vector b))
      × HasLayers (i + 1) layers values

  pub HasLayers-cons :
      (i : ℕ) (layers : List (Layer F)) (n : Name) (t : Tensor F) (values : Values F)
      → Apart i n
      → HasLayers i layers values
      → HasLayers i layers ((n, t) ∷ values)
  HasLayers-cons i [] n t values apart h = tt
  HasLayers-cons i ((w, b) ∷ layers) n t values apart (hw, hb, rest) =
      let (nw, nb) = apart i (omega arith) in
      (
        rw nw hw,
        rw nb hb,
        HasLayers-cons (i + 1) layers n t values (λ j h. apart j (omega (arith, h))) rest,
      )

  pub HasLayers-inits :
      (i : ℕ) (layers : List (Layer F)) → HasLayers i layers (layer_inits i layers)
  HasLayers-inits i [] = tt
  HasLayers-inits i ((w, b) ∷ layers) = (
    rw (eq_self i) refl,
    rw (eq_self i) refl,
    HasLayers-cons (i + 1) layers (weight i) (matrix w) _ (λ j h. (later_differs i j h, refl))
        (HasLayers-cons (i + 1) layers (bias i) (vector b) _ (λ j h. (refl, later_differs i j h))
          (HasLayers-inits (i + 1) layers)),
  )

  -- What the nodes behind the layers still need.
  abbrev pub Kept : List F → F → Values F → Type 0
  Kept z threshold values =
      (find z_name values ≡ some (vector z))
      × (find threshold_name values ≡ some (number threshold))
      × (find feature_axis values ≡ some (axes (1 ∷ [])))

  module _ (fl : Float F) (apply : Operators F) (onnx : IsOnnx apply fl) where
    pub run_layers :
        (z : List F) (threshold : F) (layers : List (Layer F)) (i : ℕ) (h : Name) (hv out : List F)
        (values : Values F)
        → HasLayers i layers values
        → Kept z threshold values
        → find h values ≡ some (vector hv)
        → forward fl fl.tanh layers hv ≡ ok out
        → (after : Values F) × (run_nodes apply (layer_nodes i h layers).0 values ≡ ok after)
          × (find (layer_nodes i h layers).1 after ≡ some (vector out))
          × Kept z threshold after
    unfolding layer_nodes run_nodes forward
    run_layers z threshold [] i h hv out values has kept hh e =
        (values, refl, hh ∙ ap (λ v. some (vector v)) (ok_inj e), kept)
    run_layers z threshold ((w, b) ∷ []) i h hv out values (hw, hb, rest) kept hh e =
        let times = node "MatMul" (h ∷ weight i ∷ []) (mm i) in
        let plus = node "Add" (mm i ∷ bias i ∷ []) (lin i) in
        let (product, p, e1) = bind_ok (matmul fl hv w) _ e in
        (
          (lin i, vector out) ∷ (mm i, vector product) ∷ values,
          run_two apply times h (weight i) (plus ∷ []) values _ _ _ refl hh hw
                (onnx.mat_mul hv product w p)
              ∙ run_two apply plus (mm i) (bias i) [] ((mm i, vector product) ∷ values) _ _ _ refl
                  (rw (eq_self i) refl) hb (onnx.add product b out e1),
          rw (eq_self i) refl,
          kept,
        )
    run_layers z threshold ((w, b) ∷ layer ∷ layers) i h hv out values (hw, hb, rest) kept hh e =
        let times = node "MatMul" (h ∷ weight i ∷ []) (mm i) in
        let plus = node "Add" (mm i ∷ bias i ∷ []) (lin i) in
        let squash = node "Tanh" (lin i ∷ []) (act i) in
        let more = (layer_nodes (i + 1) (act i) (layer ∷ layers)).0 in
        let (product, p, e1) = bind_ok (matmul fl hv w) _ e in
        let (sum, q, e2) = bind_ok (broadcast fl fl.add product b) _ e1 in
        let v1 : Values F = (mm i, vector product) ∷ values in
        let v2 : Values F = (lin i, vector sum) ∷ v1 in
        let v3 : Values F = (act i, vector (map fl.tanh sum)) ∷ v2 in
        let has =
          HasLayers-cons (i + 1) (layer ∷ layers) (act i) _ v2 (λ j h. (refl, refl))
            (HasLayers-cons (i + 1) (layer ∷ layers) (lin i) _ v1 (λ j h. (refl, refl))
              (HasLayers-cons (i + 1) (layer ∷ layers) (mm i) _ values (λ j h. (refl, refl))
                rest)) in
        let (after, ran, found, kept') =
          run_layers z threshold (layer ∷ layers) (i + 1) (act i) (map fl.tanh sum) out v3 has kept
            (rw (eq_self i) refl) e2 in
        (
          after,
          run_two apply times h (weight i) (plus ∷ squash ∷ more) values _ _ _ refl hh hw
                (onnx.mat_mul hv product w p)
              ∙ run_two apply plus (mm i) (bias i) (squash ∷ more) v1 _ _ _ refl
                  (rw (eq_self i) refl) hb (onnx.add product b sum q)
              ∙ run_one apply squash (lin i) more v2 _ _ refl (rw (eq_self i) refl) (onnx.tanh sum)
              ∙ ran,
          found,
          kept',
        )
