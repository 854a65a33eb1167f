-- ===== src/Promote/Criteria.antt =====
-- What a challenger without failures has shown.
use edgesense_ai.Prelude.{
  ℕ, ◌+◌, ◌≤◌, ◌≡◌, refl, ap, ◌∙◌, ◌↔◌, String, Bool, true, false, ◌||◌, Option, none, some, List,
  [], ◌∷◌, ◌++◌, All, Dict, ltb, append-eq-nil, arith, not, if◌then◌else◌, ltb→ge, ge→ltb,
}
use edgesense_ai.Python.Error.{Result, ok, bind_ok, ok_inj}
use edgesense_ai.Python.Number.{Float, gt}
use edgesense_ai.Python.Json.{Json, Fields, get, is_text, is_text_iff}
use edgesense_ai.Promote.{
  FaultResult, QualityBar, Summary, Failure, when, slower, fault_failures, all_fault_failures,
  check_bar, below_count, readings_of, agrees_too_little, has_errors, check_shadow,
  compare_to_champion, champion_failures, shadow_failures, gate_failures, regressions,
  all_regressions, latency_at, latency_tolerance,
}

when-nil : {A : Type 0} (b : Bool) (x : A) → when b x ≡ [] → b ≡ false
when-nil true x h = cc
when-nil false x h = refl

nil-when : {A : Type 0} (b : Bool) (x : A) → b ≡ false → when b x ≡ []
nil-when true x h = cc
nil-when false x h = refl

slower_iff :
    (o : Option ℕ) (bar : ℕ) → (slower o bar ≡ false) ↔ ((m : ℕ) × (o ≡ some m) × (m ≤ bar))
slower_iff none bar = ((λ h. cc), (λ h. cc (h.1)))
slower_iff (some m) bar = (
  (λ h. (m, refl, ltb→ge bar m h)),
  (λ h. let e : m ≡ h.0 = cc (h.1) in ge→ltb bar m (omega (arith, e, h.2))),
)

module _ {F : Type 0} (fl : Float F) (bar : QualityBar F) where
  -- Enough episodes of the fault were detected, and a median latency is known and within the bar.
  abbrev pub Clears : String × FaultResult F → Type 0
  Clears (fault, r) =
      (fl.lt r.episode_rate bar.episode_rate ≡ false)
      × ((m : ℕ) × (r.median_latency ≡ some m) × (m ≤ bar.max_median_latency))

  fault_failures-Clears : (r : String × FaultResult F) → fault_failures fl bar r ≡ [] → Clears r
  fault_failures-Clears (fault, r) h =
      let parts = append-eq-nil (when (fl.lt r.episode_rate bar.episode_rate) _) _ h in
      (
        when-nil (fl.lt r.episode_rate bar.episode_rate) _ parts.0,
        (slower_iff r.median_latency bar.max_median_latency).0
            (when-nil (slower r.median_latency bar.max_median_latency) _ parts.1),
      )

  Clears-fault_failures : (r : String × FaultResult F) → Clears r → fault_failures fl bar r ≡ []
  Clears-fault_failures (fault, r) (enough, latency) = rw (
    nil-when {A = Failure F} (fl.lt r.episode_rate bar.episode_rate)
        (Failure.episodes_missed fault r.detected r.episodes) enough,
    nil-when {A = Failure F} (slower r.median_latency bar.max_median_latency)
        (Failure.slow_detection fault r.median_latency)
        ((slower_iff r.median_latency bar.max_median_latency).1 latency),
  )

  all_fault_failures-Clears :
      (rs : Dict (FaultResult F)) → all_fault_failures fl bar rs ≡ [] → All Clears rs
  all_fault_failures-Clears [] h = tt
  all_fault_failures-Clears (r ∷ rs) h =
      let parts = append-eq-nil (fault_failures fl bar r) (all_fault_failures fl bar rs) h in
      (fault_failures-Clears r parts.0, all_fault_failures-Clears rs parts.1)

  Clears-all_fault_failures :
      (rs : Dict (FaultResult F)) → All Clears rs → all_fault_failures fl bar rs ≡ []
  Clears-all_fault_failures [] h = refl
  Clears-all_fault_failures (r ∷ rs) h =
      rw (Clears-fault_failures r h.0, Clears-all_fault_failures rs h.1)

  -- A summary has no failure of the absolute bar exactly if every fault clears it and the rate of false
  -- positives on healthy data does not pass the bar's.
  pub check_bar_iff :
      (summary : Summary F)
      → (check_bar fl summary bar ≡ [])
        ↔ (All Clears summary.per_fault × (gt fl summary.fp_rate bar.max_fp_rate ≡ false))
  unfolding check_bar
  check_bar_iff summary = (
    (λ h.
        let parts = append-eq-nil (all_fault_failures fl bar summary.per_fault) _ h in
        (
          all_fault_failures-Clears summary.per_fault parts.0,
          when-nil (gt fl summary.fp_rate bar.max_fp_rate) (Failure.false_positives summary.fp_rate)
              parts.1,
        )),
    (λ h. rw (
      Clears-all_fault_failures summary.per_fault h.0,
      nil-when (gt fl summary.fp_rate bar.max_fp_rate) (Failure.false_positives summary.fp_rate)
          h.1,
    )),
  )

  -- The challenger is as fast as the champion on this fault, up to the tolerance.
  abbrev pub KeepsPace : Option (Option ℕ) → FaultResult F → Type 0
  KeepsPace (some (some m)) r = (k : ℕ) × (r.median_latency ≡ some k) × (k ≤ m + latency_tolerance)
  KeepsPace _ r = Unit

  abbrev pub AllKeepPace : Dict (FaultResult F) → Dict (FaultResult F) → Type 0
  AllKeepPace champion [] = Unit
  AllKeepPace champion ((fault, r) ∷ rs) =
      KeepsPace (latency_at fl champion fault) r × AllKeepPace champion rs

  -- No worse than the champion, where there is one.
  abbrev pub NoWorse : F → Summary F → Option (Summary F) → Type 0
  NoWorse fp_tolerance challenger none = Unit
  NoWorse fp_tolerance challenger (some champion) =
      (champion.episodes_detected ≤ challenger.episodes_detected)
      × (gt fl challenger.fp_rate (fl.add champion.fp_rate fp_tolerance) ≡ false)
      × AllKeepPace champion.per_fault challenger.per_fault

  -- The online evidence, where it is asked for, is about this model, thick enough, and in agreement.
  abbrev pub ShownOnline : String → Option (Fields F) → Type 0
  ShownOnline version none = Unit
  ShownOnline version (some report) =
      (get report "shadow_version" ≡ some (Json.str version))
      × (below_count fl (readings_of fl report) bar.shadow_min_n ≡ ok false)
      × (agrees_too_little fl (get report "agreement_rate") bar.shadow_min_agreement ≡ ok false)
      × (has_errors fl report ≡ false)

  keeps_pace :
      (o : Option (Option ℕ)) (fault : String) (r : FaultResult F)
      → regressions fl o fault r ≡ []
      → KeepsPace o r
  keeps_pace (some (some m)) fault r h =
      (slower_iff r.median_latency (m + latency_tolerance)).0
        (when-nil {A = Failure F} (slower r.median_latency (m + latency_tolerance)) _ h)
  keeps_pace (some none) fault r h = tt
  keeps_pace none fault r h = tt

  all_keep_pace :
      (champion rs : Dict (FaultResult F))
      → all_regressions fl champion rs ≡ []
      → AllKeepPace champion rs
  all_keep_pace champion [] h = tt
  all_keep_pace champion ((fault, r) ∷ rs) h =
      let parts =
        append-eq-nil (regressions fl (latency_at fl champion fault) fault r)
          (all_regressions fl champion rs) h in
      (keeps_pace (latency_at fl champion fault) fault r parts.0, all_keep_pace champion rs parts.1)

  champion_failures-nil :
      (fp_tolerance : F) (challenger : Summary F) (champion : Option (Summary F))
      → champion_failures fl fp_tolerance challenger champion ≡ []
      → NoWorse fp_tolerance challenger champion
  unfolding compare_to_champion
  champion_failures-nil fp_tolerance challenger none h = tt
  champion_failures-nil fp_tolerance challenger (some champion) h =
      let outer = append-eq-nil _ (all_regressions fl champion.per_fault challenger.per_fault) h in
      let inner =
        append-eq-nil
          (when {A = Failure F} (ltb challenger.episodes_detected champion.episodes_detected) _)
          (when {A = Failure F} (gt fl challenger.fp_rate (fl.add champion.fp_rate fp_tolerance)) _)
          outer.0 in
      (
        ltb→ge challenger.episodes_detected champion.episodes_detected (
            when-nil {A = Failure F} (ltb challenger.episodes_detected champion.episodes_detected) _
              inner.0),
        when-nil {A = Failure F} (gt fl challenger.fp_rate (fl.add champion.fp_rate fp_tolerance)) _
            inner.1,
        all_keep_pace champion.per_fault challenger.per_fault outer.1,
      )

  same_model :
      (b : Bool) (k : Result (List (Failure F))) (f : Failure F)
      → (if not b then ok (f ∷ []) else k) ≡ ok []
      → (b ≡ true) × (k ≡ ok [])
  same_model true k f h = (refl, h)
  same_model false k f h = cc

  no_online_failures :
      (thin low errors : Bool) (f g e : Failure F)
      → when thin f ++ when low g ++ when errors e ≡ []
      → (thin ≡ false) × (low ≡ false) × (errors ≡ false)
  no_online_failures thin low errors f g e h =
      let outer = append-eq-nil (when thin f ++ when low g) (when errors e) h in
      let inner = append-eq-nil (when thin f) (when low g) outer.0 in
      (when-nil thin f inner.0, when-nil low g inner.1, when-nil errors e outer.1)

  shadow_failures-nil :
      (shadow : Option (Fields F)) (version : String)
      → shadow_failures fl shadow version bar ≡ ok []
      → ShownOnline version shadow
  unfolding check_shadow
  shadow_failures-nil none version h = tt
  shadow_failures-nil (some report) version h =
      let same = same_model (is_text (get report "shadow_version") version) _ _ h in
      let thin = bind_ok (below_count fl (readings_of fl report) bar.shadow_min_n) _ same.1 in
      let low =
        bind_ok (agrees_too_little fl (get report "agreement_rate") bar.shadow_min_agreement) _
          thin.2 in
      let all = no_online_failures thin.0 low.0 (has_errors fl report) _ _ _ (ok_inj low.2) in
      (
        (is_text_iff (get report "shadow_version") version).0 same.0,
        thin.1 ∙ ap ok all.0,
        low.1 ∙ ap ok all.1,
        all.2,
      )

  -- Where the gate finds no failure, every fault clears the bar, the rate of false positives and the
  -- parity of the export are within it, the challenger is no worse than the champion, if there is one,
  -- in episodes, false positives and latency, and the shadow report, if one was asked for, is about the
  -- challenger's version and shows enough readings, enough agreement and no error.
  pub gate_passed :
      (fp_tolerance : F) (challenger : Summary F) (champion : Option (Summary F))
      (rel_mae agreement : F) (shadow : Option (Fields F)) (version : String)
      → gate_failures fl fp_tolerance bar challenger champion (rel_mae, agreement) shadow version
        ≡ ok []
      → All Clears challenger.per_fault
        × (gt fl challenger.fp_rate bar.max_fp_rate ≡ false)
        × (fl.le bar.onnx_rel_mae rel_mae || fl.le agreement bar.onnx_agreement ≡ false)
        × NoWorse fp_tolerance challenger champion
        × ShownOnline version shadow
  unfolding gate_failures
  gate_passed fp_tolerance challenger champion rel_mae agreement shadow version h =
      let online = bind_ok (shadow_failures fl shadow version bar) _ h in
      let outer = append-eq-nil _ online.0 (ok_inj online.2) in
      let middle =
        append-eq-nil _ (champion_failures fl fp_tolerance challenger champion) outer.0 in
      let inner =
        append-eq-nil (check_bar fl challenger bar)
          (when {A = Failure F}
            (fl.le bar.onnx_rel_mae rel_mae || fl.le agreement bar.onnx_agreement) _)
          middle.0 in
      let absolute = (check_bar_iff challenger).0 inner.0 in
      (
        absolute.0,
        absolute.1,
        when-nil {A = Failure F}
            (fl.le bar.onnx_rel_mae rel_mae || fl.le agreement bar.onnx_agreement) _ inner.1,
        champion_failures-nil fp_tolerance challenger champion middle.1,
        shadow_failures-nil shadow version (online.1 ∙ ap ok outer.1),
      )
