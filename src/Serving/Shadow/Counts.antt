-- ===== src/Serving/Shadow/Counts.antt =====
-- The counters of a shadow tracker against the history of the readings that it saw.
use edgesense_ai.Prelude.{
  ℕ, suc, ◌+◌, ◌≡◌, refl, Bool, true, false, List, [], ◌∷◌, arith, bool_eq, if◌then◌else◌, String,
}
use edgesense_ai.Python.Number.{Float}
use edgesense_ai.Serving.Shadow.{
  ShadowTracker, new_shadow_tracker, observe_shadow, shadow_error, report,
}

-- What happens to a tracker: a reading that both models scored, with the two scores and verdicts, or
-- a failure of the shadow.
pub data Event (F : Type 0) : Type 0 where
  scored : F → Bool → F → Bool → Event F
  failed : Event F

abbrev pub count_events : {F : Type 0} → (Bool → Bool → Bool) → List (Event F) → ℕ
count_events p [] = 0
count_events p (failed ∷ es) = count_events p es
count_events p (scored _ c _ s ∷ es) = (if p c s then 1 else 0) + count_events p es

abbrev pub count_failures : {F : Type 0} → List (Event F) → ℕ
count_failures [] = 0
count_failures (failed ∷ es) = suc (count_failures es)
count_failures (scored _ _ _ _ ∷ es) = count_failures es

module _ {F : Type 0} (fl : Float F) where
  abbrev pub after : ShadowTracker F → List (Event F) → ShadowTracker F
  after t [] = t
  after t (failed ∷ es) = after (shadow_error fl t) es
  after t (scored cs c ss s ∷ es) = after (observe_shadow fl t cs c ss s) es

  -- The counters of the tracker grow by the counts of the history: all scored readings, those with one
  -- verdict, those that one model alone flagged, and the failures.
  pub after_counts :
      (t : ShadowTracker F) (es : List (Event F))
      → ((after t es).n ≡ t.n + count_events (λ _ _. true) es)
        × ((after t es).agree ≡ t.agree + count_events bool_eq es)
        × ((after t es).champion_only
            ≡ t.champion_only
              + count_events (λ c s. if c then (if s then false else true) else false) es)
        × ((after t es).shadow_only
            ≡ t.shadow_only + count_events (λ c s. if c then false else s) es)
        × ((after t es).errors ≡ t.errors + count_failures es)
  unfolding observe_shadow shadow_error
  after_counts t [] = omega arith
  after_counts t (failed ∷ es) = ground (arith, after_counts (shadow_error fl t) es)
  after_counts t (scored cs true ss true ∷ es) =
      ground (arith, after_counts (observe_shadow fl t cs true ss true) es)
  after_counts t (scored cs true ss false ∷ es) =
      ground (arith, after_counts (observe_shadow fl t cs true ss false) es)
  after_counts t (scored cs false ss true ∷ es) =
      ground (arith, after_counts (observe_shadow fl t cs false ss true) es)
  after_counts t (scored cs false ss false ∷ es) =
      ground (arith, after_counts (observe_shadow fl t cs false ss false) es)

  verdicts_split :
      (es : List (Event F))
      → count_events (λ _ _. true) es
        ≡ count_events bool_eq es
          + count_events (λ c s. if c then (if s then false else true) else false) es
          + count_events (λ c s. if c then false else s) es
  verdicts_split [] = refl
  verdicts_split (failed ∷ es) = verdicts_split es
  verdicts_split (scored _ true _ true ∷ es) = omega (arith, verdicts_split es)
  verdicts_split (scored _ true _ false ∷ es) = omega (arith, verdicts_split es)
  verdicts_split (scored _ false _ true ∷ es) = omega (arith, verdicts_split es)
  verdicts_split (scored _ false _ false ∷ es) = omega (arith, verdicts_split es)

  -- From a fresh tracker, whatever readings are scored and however often the shadow fails, the
  -- report's readings are the agreements and the two kinds of disagreement together, and its
  -- readings, its agreements and its errors are each as many as in the history.
  pub report_counts :
      (now shadow champion : String) (es : List (Event F))
      → let r = report fl (after (new_shadow_tracker fl now shadow champion) es) in
        (r.n ≡ r.agree + r.champion_only + r.shadow_only)
        × (r.n ≡ count_events (λ _ _. true) es)
        × (r.agree ≡ count_events bool_eq es)
        × (r.errors ≡ count_failures es)
  unfolding report new_shadow_tracker
  report_counts now shadow champion es =
      omega (arith, after_counts (new_shadow_tracker fl now shadow champion) es, verdicts_split es)
