-- ===== src/Promote.antt =====
-- ml/promote.py: the criteria of the promotion gate. A failure is a constructor with the values that
-- its message shows. `shadow_min_n` is taken as a natural number.
pub mod Criteria
pub mod Report
pub mod Judge
pub mod Gate
use edgesense_ai.Prelude.{
  ℕ, ◌+◌, String, Bool, true, false, not, ◌&&◌, ◌||◌, Option, none, some, List, [], ◌∷◌, ◌++◌, Dict,
  lookup, sum, map, ltb, starts_with, if◌then◌else◌, is_none, or_else,
}
use edgesense_ai.Python.Error.{
  Result, ok, err, ◌>>=◌, ◌>>◌, raise_if, or_raise, runtime_error, type_error,
}
use edgesense_ai.Python.Number.{Float, gt, ℤ, pos, negsuc}
use edgesense_ai.Python.Json
use edgesense_ai.Python.Json.{Json, Fields, get, has, is_text, as_object, truthy_json}

-- What `evaluate` returns for one fault.
pub record FaultResult (F : Type 0) : Type 0 where
  pub episodes : ℕ
  pub detected : ℕ
  pub episode_rate : F
  pub median_latency : Option ℕ
  pub reading_recall : F

pub record Results (F : Type 0) : Type 0 where
  pub faults : Dict (FaultResult F)
  pub healthy_fp_rate : F

pub record QualityBar (F : Type 0) : Type 0 where
  pub episode_rate : F
  pub max_median_latency : ℕ
  pub max_fp_rate : F
  pub onnx_rel_mae : F
  pub onnx_agreement : F
  pub shadow_min_n : ℕ
  pub shadow_min_agreement : F

pub record Summary (F : Type 0) : Type 0 where
  pub episodes_total : ℕ
  pub episodes_detected : ℕ
  pub fp_rate : F
  pub per_fault : Dict (FaultResult F)

pub data Failure (F : Type 0) : Type 0 where
  episodes_missed : String → ℕ → ℕ → Failure F
  slow_detection : String → Option ℕ → Failure F
  false_positives : F → Failure F
  parity_lost : F → F → Failure F
  fewer_episodes : ℕ → ℕ → Failure F
  more_false_positives : F → F → Failure F
  slower_than_champion : String → Option ℕ → ℕ → Failure F
  other_model : Option (Json F) → String → Failure F
  thin_evidence : Json F → Failure F
  low_agreement : Option (Json F) → Failure F
  scoring_errors : Failure F

unfoldable pub summarize : {F : Type 0} → Results F → Summary F
summarize results = record {
  episodes_total = sum (map (λ r. r.1.episodes) results.faults);
  episodes_detected = sum (map (λ r. r.1.detected) results.faults);
  fp_rate = results.healthy_fp_rate;
  per_fault = results.faults;
}

-- `if b: failures.append(x)`
abbrev pub when : {A : Type 0} → Bool → A → List A
when true x = x ∷ []
when false x = []

-- `med is None or med > bar`
abbrev pub slower : Option ℕ → ℕ → Bool
slower none bar = true
slower (some m) bar = ltb bar m

-- `payload.get("active") is False`
abbrev is_false : {F : Type 0} → Option (Json F) → Bool
is_false (some (Json.bool false)) = true
is_false _ = false

-- What a shadow report is read with: the body behind a URL, and a file, each parsed; none where that
-- raises.
pub record Sources (F : Type 0) : Type 0 where
  pub fetch : String → Option (Json F)
  pub read_file : String → Option (Json F)

unfoldable pub load_shadow_report : {F : Type 0} → Sources F → String → Result (Fields F)
load_shadow_report sources source = do
  payload ←
      or_raise
        (if starts_with source "http://" || starts_with source "https://"
          then sources.fetch source
          else sources.read_file source)
        runtime_error
  d ← or_raise (as_object payload) runtime_error
  raise_if (is_false (get d "active") && not (has d "report")) runtime_error
  report ← or_raise (as_object (or_else (get d "report") (Json.obj d))) runtime_error
  raise_if (not (has report "n")) runtime_error
  ok report

-- `LATENCY_TOLERANCE`
abbrev pub latency_tolerance : ℕ
latency_tolerance = 1

module _ {F : Type 0} (fl : Float F) where
  abbrev pub fault_failures : QualityBar F → String × FaultResult F → List (Failure F)
  fault_failures bar (fault, r) =
      when (fl.lt r.episode_rate bar.episode_rate) (episodes_missed fault r.detected r.episodes)
      ++ when (slower r.median_latency bar.max_median_latency)
          (slow_detection fault r.median_latency)

  abbrev pub all_fault_failures : QualityBar F → Dict (FaultResult F) → List (Failure F)
  all_fault_failures bar [] = []
  all_fault_failures bar (r ∷ rs) = fault_failures bar r ++ all_fault_failures bar rs

  unfoldable pub check_bar : Summary F → QualityBar F → List (Failure F)
  check_bar summary bar =
      all_fault_failures bar summary.per_fault
      ++ when (gt fl summary.fp_rate bar.max_fp_rate) (false_positives summary.fp_rate)

  -- `value < n`, for an int or a float; other values than numbers raise.
  abbrev pub below_count : Json F → ℕ → Result Bool
  below_count (Json.int (pos k)) n = ok (ltb k n)
  below_count (Json.int (negsuc k)) n = ok true
  below_count (Json.bool true) n = ok (ltb 1 n)
  below_count (Json.bool false) n = ok (ltb 0 n)
  below_count (Json.float x) n = ok (fl.lt x (fl.of_nat n))
  below_count _ n = err type_error

  abbrev pub below : Json F → F → Result Bool
  below (Json.int (pos k)) x = ok (fl.lt (fl.of_nat k) x)
  below (Json.int (negsuc k)) x = ok (fl.lt (fl.neg (fl.of_nat (k + 1))) x)
  below (Json.bool true) x = ok (fl.lt fl.one x)
  below (Json.bool false) x = ok (fl.lt fl.zero x)
  below (Json.float y) x = ok (fl.lt y x)
  below _ x = err type_error

  -- `report.get("n") or 0`
  abbrev pub readings_of : Fields F → Json F
  readings_of report = elim (get report "n") [
    | none ↦ Json.int (pos 0)
    | some v ↦ if truthy_json fl v then v else Json.int (pos 0)
  ]

  -- `rate is None or rate < bar`
  abbrev pub agrees_too_little : Option (Json F) → F → Result Bool
  agrees_too_little none x = ok true
  agrees_too_little (some Json.null) x = ok true
  agrees_too_little (some v) x = below v x

  -- `bool(report.get("errors"))`
  abbrev pub has_errors : Fields F → Bool
  has_errors report = elim (get report "errors") [ none ↦ false | some v ↦ truthy_json fl v ]

  unfoldable pub check_shadow : Fields F → String → QualityBar F → Result (List (Failure F))
  check_shadow report challenger_version bar =
      if not (is_text (get report "shadow_version") challenger_version)
      then ok (other_model (get report "shadow_version") challenger_version ∷ [])
      else (do
        thin ← below_count (readings_of report) bar.shadow_min_n
        low ← agrees_too_little (get report "agreement_rate") bar.shadow_min_agreement
        ok (
            when thin (thin_evidence (readings_of report))
            ++ when low (low_agreement (get report "agreement_rate"))
            ++ when (has_errors report) scoring_errors))

  -- One fault of the challenger against the champion's entry, which may be missing or have no latency.
  abbrev pub regressions : Option (Option ℕ) → String → FaultResult F → List (Failure F)
  regressions (some (some m)) fault ch =
      when (slower ch.median_latency (m + latency_tolerance))
        (slower_than_champion fault ch.median_latency m)
  regressions _ fault ch = []

  abbrev latency_at : Dict (FaultResult F) → String → Option (Option ℕ)
  latency_at d fault = elim (lookup fault d) [ none ↦ none | some r ↦ some r.median_latency ]

  abbrev pub all_regressions : Dict (FaultResult F) → Dict (FaultResult F) → List (Failure F)
  all_regressions champion [] = []
  all_regressions champion ((fault, ch) ∷ rs) =
      regressions (latency_at champion fault) fault ch ++ all_regressions champion rs

  -- `fp_tolerance` is `FP_TOLERANCE`, 0.001.
  unfoldable pub compare_to_champion : F → Summary F → Summary F → List (Failure F)
  compare_to_champion fp_tolerance challenger champion =
      when (ltb challenger.episodes_detected champion.episodes_detected)
        (fewer_episodes challenger.episodes_detected champion.episodes_detected)
      ++ when (gt fl challenger.fp_rate (fl.add champion.fp_rate fp_tolerance))
          (more_false_positives challenger.fp_rate champion.fp_rate)
      ++ all_regressions champion.per_fault challenger.per_fault

  abbrev pub champion_failures : F → Summary F → Option (Summary F) → List (Failure F)
  champion_failures fp_tolerance challenger none = []
  champion_failures fp_tolerance challenger (some champion) =
      compare_to_champion fp_tolerance challenger champion

  abbrev pub shadow_failures : Option (Fields F) → String → QualityBar F → Result (List (Failure F))
  shadow_failures none version bar = ok []
  shadow_failures (some report) version bar = check_shadow report version bar

  -- The failures that `run_gate` collects; the challenger is promoted if there are none. `parity` is
  -- what `onnx_parity` returned.
  unfoldable pub gate_failures :
      F
      → QualityBar F
      → Summary F
      → Option (Summary F)
      → F × F
      → Option (Fields F)
      → String
      → Result (List (Failure F))
  gate_failures fp_tolerance bar challenger champion (rel_mae, agreement) shadow version = do
    online ← shadow_failures shadow version bar
    ok (
        check_bar challenger bar
        ++ when (fl.le bar.onnx_rel_mae rel_mae || fl.le agreement bar.onnx_agreement)
            (parity_lost rel_mae agreement)
        ++ champion_failures fp_tolerance challenger champion
        ++ online)
