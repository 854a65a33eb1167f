-- ===== src/Promote/Judge.antt =====
-- ml/promote.py: what `run_gate` finds out before it writes a file. Training, the evaluation and the comparison
-- with the exported model are calls that the gate makes; what it prints is left out.
pub mod Evidence
use edgesense_ai.Prelude.{
  ◌+◌, String, ◌<>◌, Bool, true, false, Option, none, some, List, [], ◌∷◌, Dict, or_else,
}
use edgesense_ai.Python.Error.{
  Result, ok, err, ◌>>=◌, or_raise, os_error, value_error, attribute_error,
}
use edgesense_ai.Python.Number.{Float, pos}
use edgesense_ai.Python.Json.{Json, Fields, end, field, Content, get, put, as_object}
use edgesense_ai.Python.Format.{Format, show_nat}
use edgesense_ai.Python.Files.{FilePath, Fs}
use edgesense_ai.Scoring.{Bundle}
use edgesense_ai.Serving.Load.{version_of}
use edgesense_ai.Promote.{
  FaultResult, Results, QualityBar, Summary, Failure, Sources, summarize, load_shadow_report,
  gate_failures,
}
use edgesense_ai.Promote.Report.{messages, render_report}

-- What the gate calls: joblib, training, the evaluation, the parity check, and the shadow's report.
pub record Calls (F P : Type 0) : Type 0 where
  pub dump : Bundle F P → Content F
  pub load : Content F → Option (Bundle F P)
  pub train : Result (Bundle F P)
  pub evaluate : Bundle F P → Result (Results F)
  pub onnx_parity : Bundle F P → Result (F × F)
  pub sources : Sources F

pub record Arguments (F : Type 0) : Type 0 where
  pub champion_path : FilePath
  pub challenger_path : Option FilePath
  pub shadow_report : Option String
  pub out_dir : String
  pub bar : QualityBar F
  pub fp_tolerance : F

-- What the gate has found out before it writes a file.
pub record Judgement (F P : Type 0) : Type 0 where
  pub bundle : Bundle F P
  pub failures : List (Failure F)
  pub report : String

-- `not failures`
abbrev pub is_empty_list : {A : Type 0} → List A → Bool
is_empty_list [] = true
is_empty_list (x ∷ xs) = false

-- `d.get(key)` written into another dict, where `None` becomes `null`.
abbrev copied : {F : Type 0} → Option (Json F) → Json F
copied none = Json.null
copied (some v) = v

module _ {F : Type 0} (fl : Float F) where
  abbrev latencies : Dict (FaultResult F) → Fields F
  latencies [] = end
  latencies ((fault, r) ∷ rs) =
      field fault (elim r.median_latency [ none ↦ Json.null | some m ↦ Json.int (pos (m + 1)) ])
        (latencies rs)

  -- The snapshot of the evaluation.
  abbrev measured : Summary F → F × F → Fields F → Fields F
  measured challenger (rel_mae, agreement) metrics =
      put
        (put
          (put
            (put
              (put metrics "eval_episodes_detected" (
                Json.str (
                  show_nat challenger.episodes_detected
                  <> ("/" <> show_nat challenger.episodes_total))))
              "eval_fp_rate" (Json.float (fl.round challenger.fp_rate 5)))
            "eval_median_latency_readings" (Json.obj (latencies challenger.per_fault)))
          "onnx_rel_mae" (Json.float rel_mae))
        "onnx_label_agreement" (Json.float agreement)

  abbrev shadowed : Option (Fields F) → Fields F → Fields F
  shadowed none metrics = metrics
  shadowed (some shadow) metrics =
      put
        (put (put metrics "shadow_readings" (copied (get shadow "n"))) "shadow_agreement_rate"
          (copied (get shadow "agreement_rate")))
        "shadow_score_mae" (copied (get shadow "score_mae"))

  -- `manifest.setdefault("metrics", {})`
  abbrev metrics_in : Fields F → Result (Fields F)
  metrics_in manifest = elim (get manifest "metrics") [
    | none ↦ ok end
    | some v ↦ or_raise (as_object v) attribute_error
  ]

  unfoldable pub with_metrics :
      {P : Type 0} → Summary F → F × F → Option (Fields F) → Bundle F P → Result (Bundle F P)
  with_metrics challenger parity shadow bundle =
      let manifest = or_else bundle.manifest end in
      do
        metrics ← metrics_in manifest
        ok (record bundle {
          manifest = some (
              put manifest "metrics"
                (Json.obj (shadowed shadow (measured challenger parity metrics))));
        })

module _ {F P : Type 0} (fl : Float F) (fmt : Format F) (calls : Calls F P)
    (args : Arguments F) where
  -- `joblib.load(path)`
  abbrev load_bundle : Option (Content F) → Result (Bundle F P)
  load_bundle none = err os_error
  load_bundle (some content) = or_raise (calls.load content) value_error

  abbrev challenger_bundle : Fs (Content F) → Option FilePath → Result (Bundle F P)
  challenger_bundle fs none = calls.train
  challenger_bundle fs (some path) = load_bundle (fs path)

  -- The champion's version and summary, if there is a file at its path.
  abbrev champion_at : Option (Content F) → Result (Option (String × Summary F))
  champion_at none = ok none
  champion_at (some content) = do
    bundle ← load_bundle (some content)
    results ← calls.evaluate bundle
    ok (some (version_of bundle, summarize results))

  abbrev shadow_at : Option String → Result (Option (Fields F))
  shadow_at none = ok none
  shadow_at (some source) = do report ← load_shadow_report calls.sources source; ok (some report)

  abbrev errors_in : Option (Fields F) → Option (Json F)
  errors_in none = none
  errors_in (some shadow) = get shadow "errors"

  abbrev version_part : Option (String × Summary F) → Option String
  version_part none = none
  version_part (some (v, s)) = some v

  abbrev summary_part : Option (String × Summary F) → Option (Summary F)
  summary_part none = none
  summary_part (some (v, s)) = some s

  unfoldable pub judge : Fs (Content F) → Result (Judgement F P)
  judge fs = do
    bundle ← challenger_bundle fs args.challenger_path
    results ← calls.evaluate bundle
    let challenger = summarize results
    champion ← champion_at (fs args.champion_path)
    parity ← calls.onnx_parity bundle
    shadow ← shadow_at args.shadow_report
    failures ←
        gate_failures fl args.fp_tolerance args.bar challenger (summary_part champion) parity shadow
          (version_of bundle)
    texts ← messages fmt args.fp_tolerance args.bar (errors_in shadow) failures
    measured_bundle ← with_metrics fl challenger parity shadow bundle
    report ←
        render_report fmt args.bar (version_of bundle) (version_part champion) challenger
          (summary_part champion) parity texts (is_empty_list failures) shadow
    ok (record { bundle = measured_bundle; failures = failures; report = report })
