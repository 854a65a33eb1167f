-- ===== src/Manifest/Card.antt =====
-- ml/manifest.py: `render_model_card` and the paths of the sidecars.
use edgesense_ai.Prelude.{
  ◌≡◌, refl, String, ◌<>◌, Option, none, some, List, [], ◌∷◌, ◌++◌, if◌then◌else◌, str_eq, or_else,
}
use edgesense_ai.Python.Error.{
  Result, ok, err, ◌>>=◌, or_raise, key_error, attribute_error, type_error,
}
use edgesense_ai.Python.Json.{
  Json, Items, Fields, nil, cons, end, field, get, as_object, truthy_json,
}
use edgesense_ai.Python.Number.{Float}
use edgesense_ai.Python.Files.{FilePath, with_name}

abbrev pub model_card_name : String
model_card_name = "MODEL_CARD.md"

-- the text before the last dot, once `here` has been read between `kept` and `rest`
next_stem : String → Option String → String → String → Option String
next_stem kept stem here rest =
    if str_eq here "."
    then (if str_eq kept "" then stem else if str_eq rest "" then none else some kept)
    else stem

-- `p.stem`: the name up to its last dot, which is neither its first nor its last character; `kept` is
-- what was read, and `stem` the text before the last dot so far.
stem_from : String → Option String → String → String
unfolding next_stem
stem_from kept stem String.[] = or_else stem kept
stem_from kept stem (String.◌∷◌ c rest) =
    let here = String.◌∷◌ c String.[] in
    stem_from (kept <> here) (next_stem kept stem here rest) rest

unfoldable pub stem_of : String → String
unfolding stem_from
stem_of name = stem_from "" none name

unfoldable pub manifest_path : FilePath → FilePath
unfolding stem_of
manifest_path p = with_name p (stem_of p.name <> ".manifest.json")

unfoldable pub card_path : FilePath → FilePath
card_path p = with_name p model_card_name

-- `sep.join(texts)`
abbrev pub join : String → List String → String
join sep [] = ""
join sep (t ∷ []) = t
join sep (t ∷ u ∷ ts) = t <> (sep <> join sep (u ∷ ts))

stem_example : stem_of "model.joblib" ≡ "model"
unfolding stem_of
stem_example = refl

-- `d.get(key, {})`, which is then used as a dict.
abbrev sub_dict : {F : Type 0} → Fields F → String → Result (Fields F)
sub_dict d k = elim (get d k) [ none ↦ ok end | some v ↦ or_raise (as_object v) attribute_error ]

-- `show` is Python's `str`.
module _ {F : Type 0} (fl : Float F) (show : Json F → String) where
  -- `{d.get(key)}` in an f-string
  abbrev shown : Option (Json F) → String
  shown none = "None"
  shown (some v) = show v

  abbrev pub item_texts : Items F → Result (List String)
  item_texts nil = ok []
  item_texts (cons (Json.str s) xs) = do ts ← item_texts xs; ok (s ∷ ts)
  item_texts (cons _ xs) = err type_error

  abbrev shown_items : Items F → List String
  shown_items nil = []
  shown_items (cons v xs) = show v ∷ shown_items xs

  -- The lists of the manifest: `d.get(key, [])`.
  abbrev sub_list : Fields F → String → Result (Items F)
  sub_list d k = elim (get d k) [
    | none ↦ ok nil
    | some v ↦ elim v [ Json.arr xs ↦ ok xs | _ ↦ err type_error ]
  ]

  -- `d.get(key) or {}`, and `if metrics:`
  abbrev pub dict_or_empty : Option (Json F) → Result (Fields F)
  dict_or_empty none = ok end
  dict_or_empty (some v) =
      if truthy_json fl v then or_raise (as_object v) attribute_error else ok end

  abbrev pairs : String → Fields F → List String
  pairs sep end = []
  pairs sep (field k v d) = (k <> (sep <> show v)) ∷ pairs sep d

  abbrev pub param_lines : Fields F → Result (List String)
  param_lines end = ok []
  param_lines (field feat params d) = do
    values ← or_raise (as_object params) attribute_error
    rest ← param_lines d
    ok (("- `" <> (feat <> ("`: " <> join ", " (pairs "=" values)))) ∷ rest)

  abbrev bullets : List String → List String
  bullets [] = []
  bullets (t ∷ ts) = ("- " <> t) ∷ bullets ts

  abbrev metric_lines : Fields F → List String
  metric_lines end = "- (none recorded)" ∷ []
  metric_lines (field k v d) = bullets (pairs ": " (field k v d))

  -- `manifest[key]`
  abbrev required_text : Fields F → String → Result String
  required_text d k = do v ← or_raise (get d k) key_error; ok (show v)

  unfoldable pub render_model_card : Fields F → Result String
  unfolding truthy_json
  render_model_card manifest = do
    tr ← sub_dict manifest "training"
    arch ← sub_dict tr "architecture"
    td ← sub_dict manifest "training_data"
    version ← required_text manifest "model_version"
    created ← required_text manifest "created_at"
    commit ← required_text manifest "git_commit"
    features ← sub_list manifest "features"
    feature_names ← item_texts features
    layers ← sub_list arch "layers"
    params ← dict_or_empty (get td "params")
    described ← param_lines params
    metrics ← dict_or_empty (get manifest "metrics")
    schema ← required_text manifest "schema_version"
    ok (
        join "\n" (
          ("# EdgeSense AI — model card"
            ∷ ""
            ∷ ("- **model version**: `" <> (version <> "`"))
            ∷ ("- **created**: " <> (created <> (" (git `" <> (commit <> "`)"))))
            ∷ ("- **kind / backend**: "
                <> (shown (get manifest "kind") <> (" / " <> shown (get manifest "backend"))))
            ∷ ("- **features**: " <> join ", " feature_names)
            ∷ ""
            ∷ "## Architecture & training"
            ∷ ""
            ∷ ("- layers: "
                <> (join " → " (shown_items layers)
                    <> (" (" <> (shown (get arch "activation") <> ")"))))
            ∷ ("- seed " <> (shown (get tr "seed") <> (", epochs " <> shown (get tr "epochs"))))
            ∷ ("- false-positive budget: "
                <> (shown (get tr "fp_budget")
                    <> (" · z-guard: " <> (shown (get tr "z_guard") <> "σ"))))
            ∷ ("- training / calibration samples: "
                <> (shown (get tr "n_train") <> (" / " <> shown (get tr "n_cal"))))
            ∷ ""
            ∷ "## Training data"
            ∷ ""
            ∷ ("- generator: `" <> (shown (get td "generator") <> "`"))
            ∷ ("- sha256: `" <> (shown (get td "sha256") <> "`"))
            ∷ [])
          ++ (described
              ++ (("" ∷ "## Metrics snapshot" ∷ "" ∷ [])
                  ++ (metric_lines metrics
                      ++ (""
                          ∷ "## Intended use & limits"
                          ∷ ""
                          ∷ "- Scores one reading at a time via `POST /score`; anomaly = reconstruction"
                          ∷ "  error above the calibrated threshold OR any feature beyond the z-guard."
                          ∷ "- Trained on synthetic healthy data only — see `docs/EVALUATION.md` for the"
                          ∷ "  offline quality bar and `docs/MLOPS.md` for the promotion gate that"
                          ∷ "  every new model must pass."
                          ∷ ""
                          ∷ ("*(generated by `ml/manifest.py`, manifest schema v"
                              <> (schema <> ")*"))
                          ∷ [])))))
        <> "\n")
