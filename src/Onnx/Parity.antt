-- ===== src/Onnx/Parity.antt =====
-- The exported graph computes the score of the bundle with rounded numbers.
use edgesense_ai.Prelude.{
  ◌≡◌, refl, sym, ap, ◌∙◌, ℕ, true, not, Option, none, some, List, [], ◌∷◌, ◌++◌, map, length, ◌==◌,
  if◌then◌else◌, str_eq, or_else, arith, eq_iff,
}
use edgesense_ai.Python.Error.{
  ok, bind_ok, ok_inj, or_raise, or_raise_ok, raise_if_ok, key_error, value_error,
}
use edgesense_ai.Python.Number.{Float, gt}
use edgesense_ai.Scoring.{
  Bundle, Layer, broadcast, zip_with, square, mean, forward, standardize, ae_reconstruct,
  reconstruction_error,
}
use edgesense_ai.Onnx.{
  Name, x_input, mean_name, scale_name, threshold_name, feature_axis, centered, z_name,
  residual_name, squared_name, scores_name, hit_name, label_name, vector, number, flag, integer,
  axes, node, Graph, layer_nodes, layer_inits, score_nodes, graph_of, cast_layers, build_onnx,
}
use edgesense_ai.Onnx.Run.{
  Values, find, Operators, run_nodes, run_graph, run_nodes-append, run_two, IsOnnx,
}
use edgesense_ai.Onnx.Layers.{HasLayers, HasLayers-cons, HasLayers-inits, Kept, run_layers}

module _ {F : Type 0} (fl : Float F) (apply : Operators F) (onnx : IsOnnx apply fl) where
  zip_with-square : (r : List F) → zip_with fl fl.mul r r ≡ map (square fl) r
  zip_with-square [] = refl
  zip_with-square (x ∷ r) = ap (λ l. fl.mul x x ∷ l) (zip_with-square r)

  broadcast-square : (r : List F) → broadcast fl fl.mul r r ≡ ok (map (square fl) r)
  unfolding broadcast
  broadcast-square r =
      let e : (length r == length r) ≡ true = ground arith in rw e (ap ok (zip_with-square r))

  -- The nodes behind the layers give the score and the label.
  run_score :
      (z out residual : List F) (threshold : F) (last : Name) (values : Values F)
      → Kept z threshold values
      → find last values ≡ some (vector out)
      → broadcast fl fl.sub z out ≡ ok residual
      → (after : Values F) × (run_nodes apply (score_nodes last) values ≡ ok after)
        × (find scores_name after ≡ some (number (mean fl (map (square fl) residual))))
        × (find label_name after
            ≡ some
                (integer (if gt fl (mean fl (map (square fl) residual)) threshold then 1 else 0)))
  unfolding run_nodes
  run_score z out residual threshold last values (hz, ht, hx) hl hr =
      let e = mean fl (map (square fl) residual) in
      (
        (label_name, integer (if gt fl e threshold then 1 else 0))
            ∷ (hit_name, flag (gt fl e threshold))
            ∷ (scores_name, number e)
            ∷ (squared_name, vector (map (square fl) residual))
            ∷ (residual_name, vector residual)
            ∷ values,
        rw
            (
              hz,
              hl,
              onnx.sub z out residual hr,
              onnx.mul residual residual _ (broadcast-square residual),
              hx,
              onnx.reduce_mean (map (square fl) residual),
              ht,
              onnx.greater e threshold,
              onnx.cast (gt fl e threshold),
            )
            refl,
        refl,
        refl,
      )

  graph_has-layers :
      (m s x shifted z : List F) (threshold : F) (layers : List (Layer F))
      → HasLayers 0 layers (
          (z_name, vector z)
          ∷ (centered, vector shifted)
          ∷ (x_input, vector x)
          ∷ (mean_name, vector m)
          ∷ (scale_name, vector s)
          ∷ (threshold_name, number threshold)
          ∷ (feature_axis, axes (1 ∷ []))
          ∷ layer_inits 0 layers)
  graph_has-layers m s x shifted z threshold layers =
      let with_axis =
        HasLayers-cons 0 layers feature_axis _ _ (λ j h. (refl, refl)) (HasLayers-inits 0 layers) in
      let with_threshold =
        HasLayers-cons 0 layers threshold_name _ _ (λ j h. (refl, refl)) with_axis in
      let with_scale =
        HasLayers-cons 0 layers scale_name _ _ (λ j h. (refl, refl)) with_threshold in
      let with_mean = HasLayers-cons 0 layers mean_name _ _ (λ j h. (refl, refl)) with_scale in
      let with_x = HasLayers-cons 0 layers x_input _ _ (λ j h. (refl, refl)) with_mean in
      let with_centered = HasLayers-cons 0 layers centered _ _ (λ j h. (refl, refl)) with_x in
      HasLayers-cons 0 layers z_name _ _ (λ j h. (refl, refl)) with_centered

  -- The whole graph, for the reading `x`.
  run_graph_of :
      (m s x z out residual : List F) (threshold : F) (layers : List (Layer F)) (width : ℕ)
      → standardize fl x m s ≡ ok z
      → forward fl fl.tanh layers z ≡ ok out
      → broadcast fl fl.sub z out ≡ ok residual
      → (after : Values F) × (run_graph apply (graph_of m s threshold layers width) x ≡ ok after)
        × (find scores_name after ≡ some (number (mean fl (map (square fl) residual))))
        × (find label_name after
            ≡ some
                (integer (if gt fl (mean fl (map (square fl) residual)) threshold then 1 else 0)))
  unfolding run_graph standardize
  run_graph_of m s x z out residual threshold layers width hz hout hr =
      let (shifted, a, b) = bind_ok (broadcast fl fl.sub x m) _ hz in
      let v0 : Values F = (x_input, vector x) ∷ (graph_of m s threshold layers width).inits in
      let v1 : Values F = (centered, vector shifted) ∷ v0 in
      let v2 : Values F = (z_name, vector z) ∷ v1 in
      let nodes = (layer_nodes 0 z_name layers).0 in
      let last = (layer_nodes 0 z_name layers).1 in
      let has : HasLayers 0 layers v2 = graph_has-layers m s x shifted z threshold layers in
      let (mid, ran, found, kept) =
        run_layers fl apply onnx z threshold layers 0 z_name z out v2 has (refl, refl, refl) refl
          hout in
      let (after, scored, scores, label) =
        run_score z out residual threshold last mid kept found hr in
      (
        after,
        run_two apply (node "Sub" (x_input ∷ mean_name ∷ []) centered) x_input mean_name
              (node "Div" (centered ∷ scale_name ∷ []) z_name ∷ (nodes ++ score_nodes last)) v0 _ _
              _ refl refl refl (onnx.sub x m shifted a)
            ∙ run_two apply (node "Div" (centered ∷ scale_name ∷ []) z_name) centered scale_name
                (nodes ++ score_nodes last) v1 _ _ _ refl refl refl (onnx.div shifted s z b)
            ∙ run_nodes-append apply nodes (score_nodes last) v2 mid ran
            ∙ scored,
        scores,
        label,
      )

  reconstruction_inv :
      {P : Type 0} (b : Bundle F P) (m s x : List F) (layers : List (Layer F)) (e : F)
      → b.scaler_mean ≡ some m
      → b.scaler_scale ≡ some s
      → b.weights ≡ some layers
      → b.activation ≡ some "tanh"
      → reconstruction_error fl b x ≡ ok e
      → (z : List F) × (out : List F) × (residual : List F) × (standardize fl x m s ≡ ok z)
        × (forward fl fl.tanh layers z ≡ ok out)
        × (broadcast fl fl.sub z out ≡ ok residual)
        × (mean fl (map (square fl) residual) ≡ e)
  unfolding reconstruction_error ae_reconstruct
  reconstruction_inv b m s x layers e hm hs hw ha h =
      let h0 = (rw (hm, hs) at h) in
      let (z, hz, h1) = bind_ok (standardize fl x m s) _ h0 in
      let (out, ho, h2) = bind_ok (ae_reconstruct fl b z) _ h1 in
      let (residual, hr, h3) = bind_ok (broadcast fl fl.sub z out) _ h2 in
      (z, out, residual, hz, (rw (ha, hw) at ho), hr, ok_inj h3)

abbrev pub cast_list : {F : Type 0} → (F → F) → Option (List F) → Option (List F)
cast_list cast none = none
cast_list cast (some xs) = some (map cast xs)

abbrev pub cast_number : {F : Type 0} → (F → F) → Option F → Option F
cast_number cast none = none
cast_number cast (some t) = some (cast t)

abbrev pub cast_weights : {F : Type 0} → (F → F) → Option (List (Layer F)) → Option (List (Layer F))
cast_weights cast none = none
cast_weights cast (some ls) = some (cast_layers cast ls)

-- The bundle with every number of the model rounded as the export rounds it.
abbrev pub rounded : {F P : Type 0} → (F → F) → Bundle F P → Bundle F P
rounded cast b = record b {
  scaler_mean = cast_list cast b.scaler_mean;
  scaler_scale = cast_list cast b.scaler_scale;
  threshold = cast_number cast b.threshold;
  weights = cast_weights cast b.weights;
}

module _ {F P : Type 0} (fl : Float F) (cast : F → F) (apply : Operators F)
    (onnx : IsOnnx apply fl) where
  -- Whenever the export of a bundle succeeds, its graph computes what the scoring computes: run on a reading, it gives
  -- the reconstruction error of the bundle with its numbers rounded, and the label 1 exactly where that error is above the
  -- rounded threshold.
  pub onnx_parity :
      (bundle : Bundle F P) (g : Graph F) (x : List F) (e : F)
      → build_onnx cast bundle ≡ ok g
      → reconstruction_error fl (rounded cast bundle) x ≡ ok e
      → (threshold : F) × ((rounded cast bundle).threshold ≡ some threshold)
        × ((after : Values F) × (run_graph apply g x ≡ ok after)
            × (find scores_name after ≡ some (number e))
            × (find label_name after ≡ some (integer (if gt fl e threshold then 1 else 0))))
  unfolding build_onnx
  onnx_parity bundle g x e h he =
      let (_, h0) =
        raise_if_ok (not (str_eq (or_else bundle.kind "") "autoencoder")) value_error _ h in
      let (activation, a, h1) = bind_ok (or_raise bundle.activation key_error) _ h0 in
      let (known, h2) = raise_if_ok (not (str_eq activation "tanh")) value_error _ h1 in
      let (m, hm, h3) = bind_ok (or_raise bundle.scaler_mean key_error) _ h2 in
      let (s, hs, h4) = bind_ok (or_raise bundle.scaler_scale key_error) _ h3 in
      let (t, ht, h5) = bind_ok (or_raise bundle.threshold key_error) _ h4 in
      let (ls, hl, h6) = bind_ok (or_raise bundle.weights key_error) _ h5 in
      let (features, _, h7) = bind_ok (or_raise bundle.features key_error) _ h6 in
      let tanh : activation ≡ "tanh" = ground (arith, known, eq_iff activation "tanh") in
      let parts =
        reconstruction_inv fl apply onnx (rounded cast bundle) (map cast m) (map cast s) x
          (cast_layers cast ls) e
          (ap (cast_list cast) (or_raise_ok bundle.scaler_mean key_error hm))
          (ap (cast_list cast) (or_raise_ok bundle.scaler_scale key_error hs))
          (ap (cast_weights cast) (or_raise_ok bundle.weights key_error hl))
          (or_raise_ok bundle.activation key_error a ∙ ap some tanh) he in
      let (z, out, residual, hz, ho, hr, same) = parts in
      let (after, ran, scores, label) =
        run_graph_of fl apply onnx (map cast m) (map cast s) x z out residual (cast t)
          (cast_layers cast ls) (length features) hz ho hr in
      (
        cast t,
        ap (cast_number cast) (or_raise_ok bundle.threshold key_error ht),
        (
          after,
          ap (λ g. run_graph apply g x) (sym (ok_inj h7)) ∙ ran,
          scores ∙ ap (λ v. some (number v)) same,
          label ∙ ap (λ v. some (integer (if gt fl v (cast t) then 1 else 0))) same,
        ),
      )
