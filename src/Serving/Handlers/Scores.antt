-- ===== src/Serving/Handlers/Scores.antt =====
-- The answer of `/score`, apart from the shadow.
use edgesense_ai.Prelude.{◌≡◌, refl, Bool, Option, List}
use edgesense_ai.Python.Error.{Result, ok, err}
use edgesense_ai.Scoring.{Reason, score_sample}
use edgesense_ai.Serving.Drift.{DriftTracker, Signal, observe, signals}
use edgesense_ai.Serving.Shadow.{ShadowTracker}
use edgesense_ai.Serving.Load.{Site, ModelState}
use edgesense_ai.Serving.Handlers.{
  Sidecar, Reading, score, score_vector, scored_vector, observed, finish_score, vector_of,
}

module _ {F P Key PublicKey : Type 0} (site : Site F P Key PublicKey) where
  finish_answer :
      (reading : Reading F) (scored : F × Bool × Option Reason) (r : Result (List (Signal F)))
      (sc sc' : Sidecar F P)
      → (finish_score site reading scored r sc).0 ≡ (finish_score site reading scored r sc').0
  finish_answer reading (s, anomaly, reason) (err e) sc sc' = refl
  finish_answer reading (s, anomaly, reason) (ok ss) sc sc' = refl

  observed_answer :
      (reading : Reading F) (scored : F × Bool × Option Reason) (r : Result (DriftTracker F))
      (sc sc' : Sidecar F P)
      → (observed site reading scored r sc).0 ≡ (observed site reading scored r sc').0
  observed_answer reading scored (err e) sc sc' = refl
  observed_answer reading (s, anomaly, reason) (ok drift) sc sc' =
      finish_answer reading (s, anomaly, reason) (signals site.floats site.edges site.eps drift) _ _

  scored_answer :
      (reading : Reading F) (x : List F) (r : Result (F × Bool × Option Reason)) (sc : Sidecar F P)
      (shadow : Option (ModelState F P × ShadowTracker F))
      → (scored_vector site reading x r sc).0
        ≡ (scored_vector site reading x r (record sc { shadow = shadow })).0
  scored_answer reading x (err e) sc shadow = refl
  scored_answer reading x (ok scored) sc shadow =
      observed_answer reading scored (observe site.floats sc.drift x) sc
        (record sc { shadow = shadow })

  vector_answer :
      (reading : Reading F) (r : Result (List F)) (sc : Sidecar F P)
      (shadow : Option (ModelState F P × ShadowTracker F))
      → (score_vector site reading r sc).0
        ≡ (score_vector site reading r (record sc { shadow = shadow })).0
  vector_answer reading (err e) sc shadow = refl
  vector_answer reading (ok x) sc shadow =
      scored_answer reading x
        (score_sample site.floats site.pipes site.default_guard sc.state.bundle x) sc shadow

  -- What `/score` answers, errors included, does not depend on the shadow: with another shadow, or none,
  -- the same sidecar gives the same answer to the same reading.
  pub score_ignores_shadow :
      (reading : Reading F) (sc : Sidecar F P) (shadow : Option (ModelState F P × ShadowTracker F))
      → (score site reading sc).0 ≡ (score site reading (record sc { shadow = shadow })).0
  unfolding score
  score_ignores_shadow reading sc shadow =
      vector_answer reading (vector_of reading sc.state.features) sc shadow
