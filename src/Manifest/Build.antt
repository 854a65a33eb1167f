-- ===== src/Manifest/Build.antt =====
-- ml/manifest.py: `git_commit` and `build_manifest`, and that the model card of a manifest can be rendered.
use edgesense_ai.Prelude.{
  ◌≡◌, refl, sym, ap, ◌∙◌, ℕ, String, ◌<>◌, Option, none, some, List, [], ◌∷◌, length,
  if◌then◌else◌, str_eq, strip, or_else, ◌==◌,
}
use edgesense_ai.Python.Error.{Result, ok, ◌>>=◌, or_raise, key_error, total_of, bind_ok, ok_inj}
use edgesense_ai.Python.Number.{Float, pos}
use edgesense_ai.Python.Json.{Json, Items, Fields, nil, cons, end, field, get, truthy_json}
use edgesense_ai.Scoring.{Layer, Bundle}
use edgesense_ai.Manifest.Card.{render_model_card, param_lines, item_texts, dict_or_empty}
use Prim.Native.String.{slice}

-- What `subprocess.run` gives: `none` if it raised, or the return code and the output.
abbrev pub GitRun : Type 0
GitRun = Option (ℕ × String)

abbrev run_output : GitRun → String
unfolding strip
run_output none = ""
run_output (some (returncode, stdout)) = if returncode == 0 then strip stdout else ""

-- `variable` is `EDGESENSE_GIT_COMMIT`.
unfoldable pub git_commit : GitRun → Option String → String
unfolding strip
git_commit run variable =
    let fallback = slice (strip (or_else variable "")) 0 7 in
    if str_eq (run_output run) ""
    then if str_eq fallback "" then "nogit" else fallback
    else run_output run

-- The time that a manifest is made, in the two formats of `strftime`.
pub record Timestamp : Type 0 where
  pub version_date : String
  pub created_at : String

module _ {F : Type 0} where
  abbrev pub text_or_null : Option String → Json F
  text_or_null none = Json.null
  text_or_null (some s) = Json.str s

  abbrev pub json_or_null : Option (Json F) → Json F
  json_or_null none = Json.null
  json_or_null (some v) = v

  abbrev float_or_null : Option F → Json F
  float_or_null none = Json.null
  float_or_null (some x) = Json.float x

  abbrev pub text_items : List String → Items F
  text_items [] = nil
  text_items (s ∷ ss) = cons (Json.str s) (text_items ss)

  abbrev nat_items : List ℕ → Items F
  nat_items [] = nil
  nat_items (n ∷ ns) = cons (Json.int (pos n)) (nat_items ns)

  -- `w.shape[1]`
  abbrev widths : List (Layer F) → List ℕ
  widths [] = []
  widths ((w, b) ∷ layers) = length w.columns ∷ widths layers

  -- The dict, from what the bundle holds.
  unfoldable pub manifest_of :
      Timestamp
      → String
      → Option String
      → Option F
      → ℕ
      → ℕ
      → Fields F
      → Fields F
      → List String
      → List (Layer F)
      → String
      → String
      → Fields F
  manifest_of ts commit backend z_guard seed epochs training_data metrics features weights kind
        activation =
      field "schema_version" (Json.int (pos 1)) (
        field "model_version" (Json.str (ts.version_date <> ("+" <> commit))) (
          field "created_at" (Json.str ts.created_at) (
            field "git_commit" (Json.str commit) (
              field "kind" (Json.str kind) (
                field "backend" (text_or_null backend) (
                  field "features" (Json.arr (text_items features)) (
                    field "training"
                      (Json.obj (
                        field "seed" (Json.int (pos seed)) (
                          field "epochs" (Json.int (pos epochs)) (
                            field "architecture"
                              (Json.obj (
                                field "layers"
                                  (Json.arr (
                                    cons (Json.int (pos (length features)))
                                      (nat_items (widths weights))))
                                  (field "activation" (Json.str activation) end)))
                              (field "fp_budget" (json_or_null (get training_data "fp_budget")) (
                                field "z_guard" (float_or_null z_guard) (
                                  field "n_train" (json_or_null (get training_data "n_train")) (
                                    field "n_cal" (json_or_null (get training_data "n_cal"))
                                      end))))))))
                      (field "training_data"
                        (Json.obj (
                          field "generator"
                            (or_else (get training_data "generator")
                              (Json.str "synthetic-normal-v1"))
                            (field "params" (or_else (get training_data "params") (Json.obj end))
                              (field "sha256" (json_or_null (get training_data "sha256")) end))))
                        (field "metrics" (Json.obj metrics) end)))))))))

  -- `commit` is what `git_commit` gave.
  unfoldable pub build_manifest :
      {P : Type 0}
      → Timestamp
      → String
      → Bundle F P
      → ℕ
      → ℕ
      → Fields F
      → Fields F
      → Result (Fields F)
  build_manifest ts commit bundle seed epochs training_data metrics = do
    features ← or_raise bundle.features key_error
    weights ← or_raise bundle.weights key_error
    kind ← or_raise bundle.kind key_error
    activation ← or_raise bundle.activation key_error
    ok (
        manifest_of ts commit bundle.backend bundle.z_guard seed epochs training_data metrics
          features weights kind activation)

-- A table of objects, as the parameters of the features are.
abbrev pub IsTable : {F : Type 0} → Fields F → Type 0
IsTable end = Unit
IsTable (field k (Json.obj d) rest) = IsTable rest
IsTable (field k _ rest) = ⊥

module _ {F : Type 0} (fl : Float F) (show : Json F → String) where
  param_lines-total :
      (d : Fields F) → IsTable d → (ts : List String) × (param_lines fl show d ≡ ok ts)
  param_lines-total end h = ([], refl)
  param_lines-total (field k (Json.obj d) rest) h =
      let (ts, e) = param_lines-total rest h in
      total_of (param_lines fl show (field k (Json.obj d) rest)) (rw e refl)
  param_lines-total (field k Json.null rest) h = elim h [ ]
  param_lines-total (field k (Json.bool b) rest) h = elim h [ ]
  param_lines-total (field k (Json.int b) rest) h = elim h [ ]
  param_lines-total (field k (Json.float b) rest) h = elim h [ ]
  param_lines-total (field k (Json.str b) rest) h = elim h [ ]
  param_lines-total (field k (Json.arr b) rest) h = elim h [ ]

  item_texts-text_items : (ss : List String) → item_texts fl show (text_items ss) ≡ ok ss
  item_texts-text_items [] = refl
  item_texts-text_items (s ∷ ss) = rw (item_texts-text_items ss) refl

  params_render :
      (params : Fields F)
      → IsTable params
      → (d : Fields F) × (dict_or_empty fl show (some (Json.obj params)) ≡ ok d)
        × (ts : List String) × (param_lines fl show d ≡ ok ts)
  unfolding truthy_json
  params_render end h = (end, refl, [], refl)
  params_render (field k v d) h =
      let (ts, e) = param_lines-total (field k v d) h in (field k v d, refl, ts, e)

  metrics_render :
      (metrics : Fields F)
      → (d : Fields F) × (dict_or_empty fl show (some (Json.obj metrics)) ≡ ok d)
  unfolding truthy_json
  metrics_render end = (end, refl)
  metrics_render (field k v d) = (field k v d, refl)

  pub manifest_of-renders :
      (ts : Timestamp) (commit : String) (backend : Option String) (z_guard : Option F)
      (seed epochs : ℕ) (training_data params metrics : Fields F) (features : List String)
      (weights : List (Layer F)) (kind activation : String)
      → get training_data "params" ≡ some (Json.obj params)
      → IsTable params
      → (card : String) × (render_model_card fl show (
            manifest_of ts commit backend z_guard seed epochs training_data metrics features weights
              kind activation)
          ≡ ok card)
  unfolding manifest_of render_model_card
  manifest_of-renders ts commit backend z_guard seed epochs training_data params metrics features
        weights kind activation hp table =
      let (d, dict, lines, e) = params_render params table in
      let (m, k) = metrics_render metrics in
      total_of
        (render_model_card fl show (
          manifest_of ts commit backend z_guard seed epochs training_data metrics features weights
            kind activation))
        (rw (hp, item_texts-text_items features, dict, e, k) refl)

  -- The model card of a manifest that `build_manifest` made is rendered without an exception, if the
  -- parameters of the training data are a table of objects.
  pub manifest_renders :
      {P : Type 0} (ts : Timestamp) (commit : String) (bundle : Bundle F P) (seed epochs : ℕ)
      (training_data params metrics manifest : Fields F)
      → get training_data "params" ≡ some (Json.obj params)
      → IsTable params
      → build_manifest ts commit bundle seed epochs training_data metrics ≡ ok manifest
      → (card : String) × (render_model_card fl show manifest ≡ ok card)
  unfolding build_manifest
  manifest_renders ts commit bundle seed epochs training_data params metrics manifest hp table h =
      let (features, _, h1) = bind_ok (or_raise bundle.features key_error) _ h in
      let (weights, _, h2) = bind_ok (or_raise bundle.weights key_error) _ h1 in
      let (kind, _, h3) = bind_ok (or_raise bundle.kind key_error) _ h2 in
      let (activation, _, h4) = bind_ok (or_raise bundle.activation key_error) _ h3 in
      let (card, e) =
        manifest_of-renders ts commit bundle.backend bundle.z_guard seed epochs training_data params
          metrics features weights kind activation hp table in
      (card, ap (render_model_card fl show) (sym (ok_inj h4)) ∙ e)
