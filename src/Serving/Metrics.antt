-- ===== src/Serving/Metrics.antt =====
-- inference/metrics.py: the counters and gauges of the sidecar, each as its value.
use edgesense_ai.Prelude.{ℕ, ◌+◌, String, Option, none, some, List, [], ◌∷◌, Dict, insert}
use edgesense_ai.Scoring.{Reason, model, limit, model_limit}
use edgesense_ai.Signing.{Status, verified, unsigned, unverifiable}
use edgesense_ai.Serving.Drift.{Signal}

-- The label values of the counter of signature checks.
pub record SignatureChecks : Type 0 where
  pub verified_total : ℕ
  pub unsigned_total : ℕ
  pub unverifiable_total : ℕ
  pub rejected_total : ℕ

pub record ModelInfo : Type 0 where
  pub model_version : String
  pub model_kind : String
  pub backend : Option String

-- A histogram is kept as its observations, newest first.
pub record Metrics (F : Type 0) : Type 0 where
  pub scored : ℕ
  pub anomalies_model : ℕ
  pub anomalies_limit : ℕ
  pub anomalies_both : ℕ
  pub scores : List F
  pub drift_zshift : Dict F
  pub drift_psi : Dict F
  pub drift_window : ℕ
  pub model_info : Option ModelInfo
  pub reloads_ok : ℕ
  pub reloads_rejected : ℕ
  pub pulls_ok : ℕ
  pub pulls_failed : ℕ
  pub signatures : SignatureChecks
  pub shadow_scored : ℕ
  pub shadow_only_total : ℕ
  pub champion_only_total : ℕ
  pub shadow_errors : ℕ
  pub shadow_score_diffs : List F
  pub shadow_info : Option String

abbrev pub count_status : Status → SignatureChecks → SignatureChecks
count_status verified s = record s { verified_total = s.verified_total + 1 }
count_status unsigned s = record s { unsigned_total = s.unsigned_total + 1 }
count_status unverifiable s = record s { unverifiable_total = s.unverifiable_total + 1 }

abbrev pub count_rejected : SignatureChecks → SignatureChecks
count_rejected s = record s { rejected_total = s.rejected_total + 1 }

module _ {F : Type 0} where
  -- `metrics.ANOMALIES.labels(reason=reason).inc()`
  abbrev pub count_anomaly : Reason → Metrics F → Metrics F
  count_anomaly model m = record m { anomalies_model = m.anomalies_model + 1 }
  count_anomaly limit m = record m { anomalies_limit = m.anomalies_limit + 1 }
  count_anomaly model_limit m = record m { anomalies_both = m.anomalies_both + 1 }

  abbrev set_zshifts : List (Signal F) → Dict F → Dict F
  set_zshifts [] d = d
  set_zshifts (s ∷ ss) d = set_zshifts ss (insert s.feature s.zshift d)

  abbrev set_psis : List (Signal F) → Dict F → Dict F
  set_psis [] d = d
  set_psis (s ∷ ss) d = set_psis ss (insert s.feature s.psi d)

  -- The loop over the drift signals in `score`.
  abbrev pub set_drift : List (Signal F) → Metrics F → Metrics F
  set_drift ss m = record m {
    drift_zshift = set_zshifts ss m.drift_zshift;
    drift_psi = set_psis ss m.drift_psi;
  }

  abbrev pub set_shadow_info : Option String → Metrics F → Metrics F
  set_shadow_info version m = record m { shadow_info = version }

  abbrev pub set_model_info : String → String → Option String → Metrics F → Metrics F
  set_model_info version kind backend m = record m {
    model_info = some (record { model_version = version; model_kind = kind; backend = backend });
  }

  abbrev pub clear_drift : Metrics F → Metrics F
  clear_drift m = record m { drift_zshift = []; drift_psi = [] }

  abbrev pub fresh_metrics : Metrics F
  fresh_metrics = record {
    scored = 0;
    anomalies_model = 0;
    anomalies_limit = 0;
    anomalies_both = 0;
    scores = [];
    drift_zshift = [];
    drift_psi = [];
    drift_window = 0;
    model_info = none;
    reloads_ok = 0;
    reloads_rejected = 0;
    pulls_ok = 0;
    pulls_failed = 0;
    signatures = record {
      verified_total = 0;
      unsigned_total = 0;
      unverifiable_total = 0;
      rejected_total = 0;
    };
    shadow_scored = 0;
    shadow_only_total = 0;
    champion_only_total = 0;
    shadow_errors = 0;
    shadow_score_diffs = [];
    shadow_info = none;
  }
