-- ===== src/Scoring/Reasons.antt =====
-- The verdict of a score and the reason that is reported with it.
use edgesense_ai.Prelude.{
  ◌≡◌, refl, sym, ap, ◌∙◌, Bool, true, false, not, ◌||◌, Option, some, List, is_none, or_else, map,
}
use edgesense_ai.Python.Error.{Result, ok, bind_ok}
use edgesense_ai.Python.Number.{Float, gt}
use edgesense_ai.Scoring.{
  Bundle, Pipelines, Reason, model, limit, model_limit, Verdict, reason_of, limit_check,
  score_sample, standardize, max_of, model_verdict,
}

-- Whether the model takes part in a reason, and whether the limit check does.
abbrev pub names_model : Option Reason → Bool
names_model (some model) = true
names_model (some model_limit) = true
names_model _ = false

abbrev pub names_limit : Option Reason → Bool
names_limit (some limit) = true
names_limit (some model_limit) = true
names_limit _ = false

reason_of_lem :
    (m l : Bool)
    → (names_model (reason_of m l) ≡ m)
      × (names_limit (reason_of m l) ≡ l)
      × ((m || l) ≡ not (is_none (reason_of m l)))
unfolding reason_of
reason_of_lem true true = (refl, refl, refl)
reason_of_lem true false = (refl, refl, refl)
reason_of_lem false true = (refl, refl, refl)
reason_of_lem false false = (refl, refl, refl)

parts_of :
    {F : Type 0} (x : F) (b : Bool) (r : Option Reason) (y : F) (c : Bool) (t : Option Reason)
    → ◌≡◌ {A = Result (F × Bool × Option Reason)} (ok (x, b, r)) (ok (y, c, t))
    → (x ≡ y) × (b ≡ c) × (r ≡ t)
parts_of x b r y c t h = (cc, cc, cc)

module _ {F P : Type 0} (fl : Float F) (pipes : Pipelines F P) (default_guard : F)
    (bundle : Bundle F P) (arr : List F) where
  -- For either kind of bundle a scored reading is anomalous exactly if a reason is given; the reason
  -- names the model exactly if the model flagged the reading, and the limit exactly if the largest
  -- absolute deviation passes the guard, which is the bundle's or the default.
  pub score_sample_reason :
      (score : F) (anomaly : Bool) (reason : Option Reason)
      → score_sample fl pipes default_guard bundle arr ≡ ok (score, anomaly, reason)
      → (v : Verdict F) × (deviations : List F) × (max_z : F) × (model_verdict fl pipes bundle arr
          ≡ ok v)
        × (standardize fl arr v.2 v.3 ≡ ok deviations)
        × (max_of fl (map fl.abs deviations) ≡ ok max_z)
        × (score ≡ v.0)
        × (anomaly ≡ not (is_none reason))
        × (names_model reason ≡ v.1)
        × (names_limit reason ≡ gt fl max_z (or_else bundle.z_guard default_guard))
  unfolding score_sample limit_check
  score_sample_reason score anomaly reason h =
      let v = bind_ok (model_verdict fl pipes bundle arr) _ h in
      let d = bind_ok (standardize fl arr v.0.2 v.0.3) _ v.2 in
      let m = bind_ok (max_of fl (map fl.abs d.0)) _ d.2 in
      let facts = reason_of_lem v.0.1 (gt fl m.0 (or_else bundle.z_guard default_guard)) in
      let e = parts_of _ _ _ score anomaly reason m.2 in
      (
        v.0,
        d.0,
        m.0,
        v.1,
        d.1,
        m.1,
        sym e.0,
        sym e.1 ∙ facts.2 ∙ ap (λ r. not (is_none r)) e.2,
        ap names_model (sym e.2) ∙ facts.0,
        ap names_limit (sym e.2) ∙ facts.1,
      )
