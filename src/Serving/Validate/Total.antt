-- ===== src/Serving/Validate/Total.antt =====
-- Scoring with a bundle that passed validation.
use edgesense_ai.Prelude.{
  ℕ, ◌≡◌, refl, sym, ap, ◌∙◌, Bool, false, not, or_else, replicate, ◌||◌, List, [], ◌∷◌, length,
  String, Option, some, none, arith, ◌==◌, ◌<◌, map, is_none, is_some_of,
}
use edgesense_ai.Python.Error.{ok, bind_ok, or_raise, or_raise_ok, raise_if_ok, value_error}
use edgesense_ai.Python.Number.{Float, gt}
use edgesense_ai.Scoring.{
  Bundle, reason_of, Layer, Pipelines, Reason, kind_of, activation_named, score_sample,
  model_verdict, limit_check, reconstruction_error, ae_reconstruct, max_of, max_from, mean, square,
}
use edgesense_ai.Scoring.Shapes.{
  IsChain, forward-Gives, standardize-Gives, broadcast-Gives, length-map,
}
use edgesense_ai.Serving.Validate.{
  weight_chain, check_values, check_autoencoder, check_kind, validate_bundle, feature_list,
}

closes : (d n : ℕ) → not (d == n) ≡ false → d ≡ n
closes d n h = ground arith

lengths_of :
    {F : Type 0} (m s : List F) (n : ℕ)
    → (not (length m == n) || not (length s == n)) ≡ false
    → (length m ≡ n) × (length s ≡ n)
lengths_of m s n h = ground arith

module _ {F P : Type 0} (fl : Float F) (pipes : Pipelines F P) (default_guard : F) where
  weight_chain-IsChain :
      (layers : List (Layer F)) (d e : ℕ)
      → weight_chain fl pipes default_guard d layers ≡ ok e
      → IsChain fl d layers e
  unfolding weight_chain
  weight_chain-IsChain [] d e h = ground arith
  weight_chain-IsChain ((w, b) ∷ layers) d e h =
      (ground arith, ground arith, weight_chain-IsChain layers (length w.columns) e (ground arith))

  -- What the checks of an autoencoder leave known of the bundle.
  pub record IsAutoencoder (bundle : Bundle F P) (n : ℕ) : Type 0 where
    pub mean : List F
    pub scale : List F
    pub layers : List (Layer F)
    pub threshold : F
    pub activation : String
    pub act : F → F
    pub mean_is : bundle.scaler_mean ≡ some mean
    pub scale_is : bundle.scaler_scale ≡ some scale
    pub layers_are : bundle.weights ≡ some layers
    pub threshold_is : bundle.threshold ≡ some threshold
    pub activation_is : bundle.activation ≡ some activation
    pub act_is : activation_named fl activation ≡ some act
    pub mean_length : length mean ≡ n
    pub scale_length : length scale ≡ n
    pub chained : IsChain fl n layers n

  check_values_sound :
      (n : ℕ) (m s : List F) (ws : List (Layer F)) (t : F) (a : String)
      → check_values fl pipes default_guard n m s ws t a ≡ ok tt
      → ((f : F → F) × (activation_named fl a ≡ some f))
        × (length m ≡ n)
        × (length s ≡ n)
        × IsChain fl n ws n
  unfolding check_values
  check_values_sound n m s ws t a h =
      let known = raise_if_ok (is_none (activation_named fl a)) value_error _ h in
      let lengths =
        raise_if_ok (not (length m == n) || not (length s == n)) value_error _ known.1 in
      let chain = bind_ok (weight_chain fl pipes default_guard n ws) _ lengths.1 in
      let closed = raise_if_ok (not (chain.0 == n)) value_error _ chain.2 in
      let same : chain.0 ≡ n = closes chain.0 n closed.0 in
      (
        is_some_of (activation_named fl a) known.0,
        (lengths_of m s n lengths.0).0,
        (lengths_of m s n lengths.0).1,
        weight_chain-IsChain ws n n (chain.1 ∙ ap ok same),
      )

  check_autoencoder_sound :
      (bundle : Bundle F P) (n : ℕ)
      → check_autoencoder fl pipes default_guard bundle n ≡ ok tt
      → IsAutoencoder bundle n
  unfolding check_autoencoder
  check_autoencoder_sound bundle n h =
      let m = bind_ok (or_raise bundle.scaler_mean value_error) _ h in
      let s = bind_ok (or_raise bundle.scaler_scale value_error) _ m.2 in
      let ws = bind_ok (or_raise bundle.weights value_error) _ s.2 in
      let t = bind_ok (or_raise bundle.threshold value_error) _ ws.2 in
      let a = bind_ok (or_raise bundle.activation value_error) _ t.2 in
      let v = check_values_sound n m.0 s.0 ws.0 t.0 a.0 a.2 in
      record {
        mean = m.0;
        scale = s.0;
        layers = ws.0;
        threshold = t.0;
        activation = a.0;
        act = v.0.0;
        mean_is = or_raise_ok bundle.scaler_mean value_error m.1;
        scale_is = or_raise_ok bundle.scaler_scale value_error s.1;
        layers_are = or_raise_ok bundle.weights value_error ws.1;
        threshold_is = or_raise_ok bundle.threshold value_error t.1;
        activation_is = or_raise_ok bundle.activation value_error a.1;
        act_is = v.0.1;
        mean_length = v.1;
        scale_length = v.2;
        chained = v.3;
      }

  -- With these checks passed, the reconstruction error of every reading of length `n` is defined.
  pub reconstruction_total :
      (bundle : Bundle F P) (n : ℕ) (x : List F)
      → IsAutoencoder bundle n
      → length x ≡ n
      → (e : F) × (reconstruction_error fl bundle x ≡ ok e)
  unfolding reconstruction_error ae_reconstruct
  reconstruction_total bundle n x ae hx =
      let z = standardize-Gives fl x ae.mean ae.scale n hx ae.mean_length ae.scale_length in
      let out = forward-Gives fl ae.act ae.layers z.0 n n ae.chained z.2 in
      let residual = broadcast-Gives fl fl.sub z.0 out.0 (z.2 ∙ sym out.2) in
      (
        mean fl (map (square fl) residual.0),
        rw (
          ae.mean_is, ae.scale_is, z.1, ae.activation_is, ae.act_is, ae.layers_are, out.1,
          residual.1,
        ),
      )

  max_of_total : (xs : List F) → 0 < length xs → (m : F) × (max_of fl xs ≡ ok m)
  max_of_total [] h = elim h [ ]
  max_of_total (x ∷ xs) h = (max_from fl x xs, refl)

  pub score_total :
      (bundle : Bundle F P) (n : ℕ) (x : List F)
      → kind_of bundle ≡ "autoencoder"
      → IsAutoencoder bundle n
      → length x ≡ n
      → 0 < n
      → (r : F × Bool × Option Reason) × (score_sample fl pipes default_guard bundle x ≡ ok r)
  unfolding score_sample limit_check model_verdict
  score_total bundle n x kind ae hx hn =
      let e = reconstruction_total bundle n x ae hx in
      let d = standardize-Gives fl x ae.mean ae.scale n hx ae.mean_length ae.scale_length in
      let top = max_of_total (map fl.abs d.0) (omega (arith, length-map fl.abs d.0, d.2)) in
      let hit = gt fl e.0 ae.threshold in
      let past = gt fl top.0 (or_else bundle.z_guard default_guard) in
      (
        (e.0, hit || past, reason_of hit past),
        rw (kind, e.1, ae.threshold_is, ae.mean_is, ae.scale_is, d.1, top.1),
      )

  check_kind_lem :
      (bundle : Bundle F P) (n : ℕ)
      → kind_of bundle ≡ "autoencoder"
      → check_kind fl pipes default_guard bundle n ≡ ok tt
      → IsAutoencoder bundle n
  unfolding check_kind
  check_kind_lem bundle n kind h = check_autoencoder_sound bundle n (rw kind at h)

  feature_list_ok :
      (o : Option (List String)) (fs : List String)
      → feature_list fl pipes default_guard o ≡ ok fs
      → (o ≡ some fs) × (0 < length fs)
  feature_list_ok none fs h = cc
  feature_list_ok (some []) fs h = cc
  feature_list_ok (some (f ∷ gs)) fs h = (cc, ground arith)

  -- Once validation has accepted an autoencoder bundle, scoring a reading with one number for each of
  -- its features returns a result: no shape, key or activation is wrong in any layer.
  pub validated_scores :
      (bundle : Bundle F P) (object : Option (Bundle F P)) (features : List String) (x : List F)
      → validate_bundle fl pipes default_guard object ≡ ok bundle
      → bundle.features ≡ some features
      → kind_of bundle ≡ "autoencoder"
      → length x ≡ length features
      → (r : F × Bool × Option Reason) × (score_sample fl pipes default_guard bundle x ≡ ok r)
  unfolding validate_bundle
  validated_scores bundle object features x h hf kind hx =
      let b = bind_ok (or_raise object value_error) _ h in
      let fs = bind_ok (feature_list fl pipes default_guard b.0.features) _ b.2 in
      let checked = bind_ok (check_kind fl pipes default_guard b.0 (length fs.0)) _ fs.2 in
      let scored =
        bind_ok (score_sample fl pipes default_guard b.0 (replicate (length fs.0) fl.zero)) _
          checked.2 in
      let done = raise_if_ok (not (fl.is_finite scored.0.0)) value_error _ scored.2 in
      let same : b.0 ≡ bundle = cc (done.1) in
      let known = feature_list_ok b.0.features fs.0 fs.1 in
      let names : fs.0 ≡ features = cc (known.0, hf, same) in
      let ck : check_kind fl pipes default_guard bundle (length features) ≡ ok tt =
        rw (← same, ← names) checked.1 in
      score_total bundle (length features) x kind (check_kind_lem bundle (length features) kind ck)
        hx (rw (← names) known.1)
