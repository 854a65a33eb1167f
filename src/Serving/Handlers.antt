-- ===== src/Serving/Handlers.antt =====
-- inference/server.py: the sidecar and the request /score. Each handler takes the sidecar's state and returns its answer and
-- the new state; what it wrote before an exception stays written.
pub mod Requests
pub mod Refusal
pub mod Reload
pub mod Scores
use edgesense_ai.Prelude.{
  ℕ, ◌+◌, String, Bool, true, false, not, Option, none, some, List, [], ◌∷◌, if◌then◌else◌, str_eq,
  bool_eq, codes_eq, codes, strip_lower, or_else,
}
use edgesense_ai.Python.Error.{Result, ok, err, Error, attribute_error, ◌>>=◌}
use edgesense_ai.Python.Number.{Float}
use edgesense_ai.Python.Json.{Content}
use edgesense_ai.Python.Files.{Fs, FilePath}
use edgesense_ai.Scoring.{Bundle, Reason, score_sample, kind_of}
use edgesense_ai.Serving.Drift.{Signal, DriftTracker, observe, reset, size, signals}
use edgesense_ai.Serving.Shadow.{
  ShadowTracker, ShadowReport, new_shadow_tracker, observe_shadow, shadow_error, report,
}
use edgesense_ai.Serving.Metrics.{
  Metrics, count_anomaly, set_drift, set_shadow_info, set_model_info, clear_drift,
}
use edgesense_ai.Serving.Load.{
  Site, ModelState, Source, file, registry, drift_stats, load_state, load_source_state,
}

pub record Sidecar (F P : Type 0) : Type 0 where
  pub state : ModelState F P
  pub drift : DriftTracker F
  pub shadow : Option (ModelState F P × ShadowTracker F)
  pub metrics : Metrics F

pub record Reading (F : Type 0) : Type 0 where
  pub vibration : F
  pub temperature : F
  pub current : F

pub record ScoreResponse (F : Type 0) : Type 0 where
  pub score : F
  pub is_anomaly : Bool
  pub reason : Option Reason

-- What a request ends in: an answer, an `HTTPException` with its status, or another exception.
pub data Outcome (A : Type 0) : Type 0 where
  answered : A → Outcome A
  refused : ℕ → Outcome A
  raised : Error → Outcome A

-- `getattr(reading, f)`, for the fields of `Reading`
abbrev pub field_of : {F : Type 0} → Reading F → String → Result F
field_of r f =
    if str_eq f "vibration"
    then ok r.vibration
    else if str_eq f "temperature"
    then ok r.temperature
    else if str_eq f "current"
    then ok r.current
    else err attribute_error

-- `[getattr(reading, f) for f in features]`
unfoldable pub vector_of : {F : Type 0} → Reading F → List String → Result (List F)
vector_of r [] = ok []
vector_of r (f ∷ fs) = do x ← field_of r f; xs ← vector_of r fs; ok (x ∷ xs)

module _ {F P Key PublicKey : Type 0} (site : Site F P Key PublicKey) where
  abbrev pub score_with : ModelState F P → Reading F → Result (F × Bool × Option Reason)
  score_with state reading = vector_of reading state.features >>= λ x.
      score_sample site.floats site.pipes site.default_guard state.bundle x

  abbrev pub count_disagreement : Bool → Bool → Metrics F → Metrics F
  count_disagreement anomaly shadow_anomaly m =
      if bool_eq shadow_anomaly anomaly
      then m
      else if shadow_anomaly
      then record m { shadow_only_total = m.shadow_only_total + 1 }
      else record m { champion_only_total = m.champion_only_total + 1 }

  -- The `try` around the shadow's scoring.
  abbrev pub shadow_outcome :
      F
      → Bool
      → ModelState F P
      → ShadowTracker F
      → Result (F × Bool × Option Reason)
      → Sidecar F P
      → Sidecar F P
  shadow_outcome s anomaly state tracker (err e) sc = record sc {
    shadow = some (state, shadow_error site.floats tracker);
    metrics = record sc.metrics { shadow_errors = sc.metrics.shadow_errors + 1 };
  }
  shadow_outcome s anomaly state tracker (ok (shadow_score, shadow_anomaly, _)) sc =
      let m = sc.metrics in
      let diff = site.floats.abs (site.floats.sub shadow_score s) in
      record sc {
        shadow =
            some (state, observe_shadow site.floats tracker s anomaly shadow_score shadow_anomaly);
        metrics = count_disagreement anomaly shadow_anomaly (record m {
          shadow_scored = m.shadow_scored + 1;
          shadow_score_diffs = diff ∷ m.shadow_score_diffs;
        });
      }

  abbrev pub shadow_with :
      Option (ModelState F P × ShadowTracker F) → Reading F → F → Bool → Sidecar F P → Sidecar F P
  shadow_with none reading s anomaly sc = sc
  shadow_with (some (state, tracker)) reading s anomaly sc =
      shadow_outcome s anomaly state tracker (score_with state reading) sc

  unfoldable pub shadow_step : Reading F → F → Bool → Sidecar F P → Sidecar F P
  shadow_step reading s anomaly sc = shadow_with sc.shadow reading s anomaly sc

  abbrev pub count_reason : Bool → Option Reason → Metrics F → Metrics F
  count_reason true (some r) m = count_anomaly r m
  count_reason _ _ m = m

  -- The counters that move before the drift signals are computed.
  unfoldable pub count_score : F → Bool → Option Reason → ℕ → Metrics F → Metrics F
  count_score s anomaly reason window m =
      let scored = record m { scored = m.scored + 1; scores = s ∷ m.scores } in
      let counted = count_reason anomaly reason scored in record counted { drift_window = window }

  abbrev pub finish_score :
      Reading F
      → F × Bool × Option Reason
      → Result (List (Signal F))
      → Sidecar F P
      → Outcome (ScoreResponse F) × Sidecar F P
  finish_score reading (s, anomaly, reason) (err e) sc = (raised e, sc)
  finish_score reading (s, anomaly, reason) (ok ss) sc = (
    answered (record { score = site.floats.round s 5; is_anomaly = anomaly; reason = reason }),
    shadow_step reading s anomaly (record sc { metrics = set_drift ss sc.metrics }),
  )

  abbrev pub observed :
      Reading F
      → F × Bool × Option Reason
      → Result (DriftTracker F)
      → Sidecar F P
      → Outcome (ScoreResponse F) × Sidecar F P
  observed reading scored (err e) sc = (raised e, sc)
  observed reading (s, anomaly, reason) (ok drift) sc =
      let m = count_score s anomaly reason (size site.floats drift) sc.metrics in
      finish_score reading (s, anomaly, reason) (signals site.floats site.edges site.eps drift)
        (record sc { drift = drift; metrics = m })

  abbrev pub scored_vector :
      Reading F
      → List F
      → Result (F × Bool × Option Reason)
      → Sidecar F P
      → Outcome (ScoreResponse F) × Sidecar F P
  scored_vector reading x (err e) sc = (raised e, sc)
  scored_vector reading x (ok scored) sc =
      observed reading scored (observe site.floats sc.drift x) sc

  abbrev pub score_vector :
      Reading F → Result (List F) → Sidecar F P → Outcome (ScoreResponse F) × Sidecar F P
  score_vector reading (err e) sc = (raised e, sc)
  score_vector reading (ok x) sc =
      scored_vector reading x
        (score_sample site.floats site.pipes site.default_guard sc.state.bundle x) sc

  -- POST /score
  unfoldable pub score : Reading F → Sidecar F P → Outcome (ScoreResponse F) × Sidecar F P
  score reading sc = score_vector reading (vector_of reading sc.state.features) sc
