-- ===== src/Tests/Serving.antt =====
-- Scoring, the window and the requests at the concrete bundle.
use edgesense_ai.Prelude.{
  strip_lower, ℕ, ◌+◌, ◌<◌, ◌≤◌, ◌%◌, Bool, true, false, not, Option, none, some, List, [], ◌∷◌,
  ◌≡◌, refl, length, get_elem?, max, is_none, or_else, map, bool_eq,
}
use edgesense_ai.Python.Error.{ok, err, verification, unsigned_required}
use edgesense_ai.Python.Number.{gt}
use edgesense_ai.Python.Json.{Json, Content, nil}
use edgesense_ai.Python.Files.{Fs, update}
use edgesense_ai.Signing.{Status, verified}
use edgesense_ai.Signing.Verify.{verify_artifact}
use edgesense_ai.Scoring.{
  Reason, model_limit, score_sample, Verdict, model_verdict, standardize, max_of,
}
use edgesense_ai.Scoring.Reasons.{score_sample_reason, names_model, names_limit}
use edgesense_ai.Serving.Validate.{validate_bundle}
use edgesense_ai.Serving.Validate.Total.{validated_scores}
use edgesense_ai.Serving.Drift.{DriftTracker, new_tracker}
use edgesense_ai.Serving.Drift.Ring.{window_is_recent_history, observe_all}
use edgesense_ai.Serving.Shadow.{new_shadow_tracker, report}
use edgesense_ai.Serving.Shadow.Counts.{
  Event, scored, failed, after, count_events, count_failures, report_counts,
}
use edgesense_ai.Serving.Load.{
  Snapshots, ModelState, registry, check_artifact, initial_state, load_state, file, new_state, Site,
}
use edgesense_ai.Serving.Load.Admission.{boot_refuses}
use edgesense_ai.Serving.Handlers.{Sidecar, Reading, score}
use edgesense_ai.Serving.Handlers.Requests.{reload_model, requested_source}
use edgesense_ai.Serving.Handlers.Refusal.{SameService, reload_refused_keeps}
use edgesense_ai.Serving.Handlers.Reload.{
  Request, score_request, reload_request, shadow_load_request, shadow_unload_request,
}
use edgesense_ai.Serving.Handlers.Scores.{score_ignores_shadow}
use edgesense_ai.Tests.Signing.{signed}
use edgesense_ai.Tests.Instances.{
  floats, pipes, bundle, site, artifact, content, envelope, files, metrics, strict,
}

validated_scores_example :
    (r : ℕ × Bool × Option Reason) × (score_sample floats pipes 6 bundle (9 ∷ 1 ∷ []) ≡ ok r)
unfolding validate_bundle score_sample edgesense_ai.Serving.Validate.check_kind
    edgesense_ai.Serving.Validate.check_autoencoder edgesense_ai.Serving.Validate.check_values
    edgesense_ai.Serving.Validate.weight_chain model_verdict
    edgesense_ai.Scoring.reconstruction_error standardize edgesense_ai.Scoring.broadcast
    edgesense_ai.Scoring.ae_reconstruct edgesense_ai.Scoring.forward edgesense_ai.Scoring.matmul
    edgesense_ai.Scoring.limit_check
validated_scores_example =
    validated_scores floats pipes 6 bundle (some bundle) ("vibration" ∷ "current" ∷ []) (9 ∷ 1 ∷ [])
      refl refl refl refl

abbrev history : List (List ℕ)
history = (1 ∷ 2 ∷ []) ∷ (3 ∷ 4 ∷ []) ∷ (5 ∷ 6 ∷ []) ∷ []

window_is_recent_history_example :
    (t' : DriftTracker ℕ) × (observe_all floats
        (new_tracker floats ("vibration" ∷ "current" ∷ []) (1 ∷ 2 ∷ []) (1 ∷ 1 ∷ []) 2 1)
        history
      ≡ ok t')
    × (t'.window ≡ max 2 1)
    × (t'.n ≡ length history)
    × ((j : ℕ)
        → j < length history
        → length history ≤ j + t'.window
        → get_elem? t'.buf (j % t'.window) ≡ get_elem? history j)
window_is_recent_history_example =
    window_is_recent_history floats ("vibration" ∷ "current" ∷ []) (1 ∷ 2 ∷ []) (1 ∷ 1 ∷ []) 2 1
      history (refl, (refl, (refl, tt)))

abbrev events : List (Event ℕ)
events = scored 1 true 2 false ∷ failed ∷ scored 1 true 1 true ∷ scored 0 false 5 true ∷ []

report_counts_example :
    let r = report floats (after floats (new_shadow_tracker floats "now" "b" "a") events) in
    (r.n ≡ r.agree + r.champion_only + r.shadow_only)
    × (r.n ≡ count_events (λ _ _. true) events)
    × (r.agree ≡ count_events bool_eq events)
    × (r.errors ≡ count_failures events)
report_counts_example = report_counts floats "now" "b" "a" events

anomaly_runs : score_sample floats pipes 6 bundle (9 ∷ 1 ∷ []) ≡ ok (0, true, some Reason.limit)
unfolding score_sample model_verdict edgesense_ai.Scoring.reconstruction_error standardize
    edgesense_ai.Scoring.broadcast edgesense_ai.Scoring.ae_reconstruct edgesense_ai.Scoring.forward
    edgesense_ai.Scoring.matmul edgesense_ai.Scoring.limit_check edgesense_ai.Scoring.reason_of
anomaly_runs = refl

score_sample_reason_example :
    (v : Verdict ℕ) × (deviations : List ℕ) × (max_z : ℕ) × (model_verdict floats pipes bundle
        (9 ∷ 1 ∷ [])
      ≡ ok v)
    × (standardize floats (9 ∷ 1 ∷ []) v.2 v.3 ≡ ok deviations)
    × (max_of floats (map floats.abs deviations) ≡ ok max_z)
    × (0 ≡ v.0)
    × (true ≡ not (is_none (some Reason.limit)))
    × (names_model (some Reason.limit) ≡ v.1)
    × (names_limit (some Reason.limit) ≡ gt floats max_z (or_else bundle.z_guard 6))
score_sample_reason_example =
    score_sample_reason floats pipes 6 bundle (9 ∷ 1 ∷ []) 0 true (some Reason.limit) anomaly_runs

abbrev sidecar : Sidecar ℕ Bool
sidecar = record {
  state = new_state bundle artifact registry (some "4") verified;
  drift = new_tracker floats ("vibration" ∷ "current" ∷ []) (1 ∷ 2 ∷ []) (1 ∷ 1 ∷ []) 2 1;
  shadow =
      some (new_state bundle artifact file none verified, new_shadow_tracker floats "now" "b" "a");
  metrics = metrics;
}

abbrev no_files : Fs (Content ℕ)
no_files p = none

-- The same files at both reads.
abbrev still : Fs (Content ℕ) → Snapshots ℕ
still fs = record { at_check = fs; at_load = fs }

abbrev unsigned_files : Snapshots ℕ
unsigned_files = still (update no_files artifact (some content))

abbrev odd_files : Snapshots ℕ
odd_files = still (files (envelope "11111111111111111111" (Json.arr nil)))

abbrev signed_files : Snapshots ℕ
signed_files = still (files signed)

abbrev trusting : Site ℕ Bool Bool Bool
trusting = record site {
  env = record strict {
    trusted_keys = some "-----BEGIN PUBLIC KEY-----abc-----END PUBLIC KEY-----";
  };
}

reload_refused_keeps_example :
    SameService site sidecar (reload_model site (some "registry") unsigned_files sidecar).1
unfolding reload_model requested_source strip_lower edgesense_ai.Serving.Load.load_source_state
    edgesense_ai.Serving.Load.load_registry_state load_state check_artifact verify_artifact
    edgesense_ai.Signing.Keys.load_trusted_keys edgesense_ai.Signing.Verify.check_sidecar update
    edgesense_ai.Python.Files.path_eq edgesense_ai.Signing.signature_path
reload_refused_keeps_example =
    reload_refused_keeps site (some "registry") unsigned_files sidecar 400 refl

boot_refuses_example :
    let (result, m') = initial_state site unsigned_files unsigned_files metrics in
    (result ≡ err (verification unsigned_required))
    × (m'.pulls_failed ≡ metrics.pulls_failed + 1)
    × (m'.signatures.rejected_total ≡ metrics.signatures.rejected_total + 1)
    × (m'.pulls_ok ≡ metrics.pulls_ok)
unfolding check_artifact verify_artifact edgesense_ai.Signing.Keys.load_trusted_keys
    edgesense_ai.Signing.Verify.check_sidecar update edgesense_ai.Python.Files.path_eq
    edgesense_ai.Signing.signature_path
boot_refuses_example =
    boot_refuses site unsigned_files unsigned_files metrics
      (record { path = artifact; registry_version = "4" }) unsigned_required refl refl refl

abbrev reading : Reading ℕ
reading = record { vibration = 9; temperature = 1; current = 1 }

score_ignores_shadow_example :
    (score site reading sidecar).0 ≡ (score site reading (record sidecar { shadow = none })).0
score_ignores_shadow_example = score_ignores_shadow site reading sidecar none

abbrev signed_state : ModelState ℕ Bool
signed_state = new_state bundle artifact registry (some "4") verified

abbrev requests : List (Request trusting)
requests =
    score_request reading
    ∷ reload_request none signed_files
    ∷ reload_request none unsigned_files
    ∷ shadow_load_request odd_files
    ∷ shadow_unload_request
    ∷ []
