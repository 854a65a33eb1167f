-- ===== src/Promote/Judge/Evidence.antt =====
-- What stands behind a judgement without a failure: the criteria found none, and the bundle is the challenger with the
-- gate's measurements in its manifest.
use edgesense_ai.Prelude.{
  ◌≡◌, refl, sym, ◌∙◌, String, ◌<>◌, false, Option, none, some, List, [], ◌∷◌, str_eq, or_else,
}
use edgesense_ai.Python.Error.{ok, bind_ok, ok_inj}
use edgesense_ai.Python.Number.{Float}
use edgesense_ai.Python.Json.{Json, Fields, Content, end, get}
use edgesense_ai.Python.Json.Lookup.{get-put, get-put_all}
use edgesense_ai.Python.Format.{Format, show_nat}
use edgesense_ai.Python.Files.{Fs}
use edgesense_ai.Scoring.{Bundle}
use edgesense_ai.Serving.Load.{version_of}
use edgesense_ai.Promote.{Results, Summary, summarize, gate_failures}
use edgesense_ai.Promote.Report.{messages, render_report}
use edgesense_ai.Promote.Judge.{
  Calls, Arguments, Judgement, judge, challenger_bundle, champion_at, shadow_at, errors_in,
  version_part, summary_part, measured as measured_in, shadowed, latencies, metrics_in,
  with_metrics, copied, is_empty_list,
}

-- What a shadow's report adds to the metrics.
abbrev ShadowMeasured : {F : Type 0} → Option (Fields F) → Fields F → Type 0
ShadowMeasured none metrics = Unit
ShadowMeasured (some shadow) metrics =
    (get metrics "shadow_readings" ≡ some (copied (get shadow "n")))
    × (get metrics "shadow_agreement_rate" ≡ some (copied (get shadow "agreement_rate")))
    × (get metrics "shadow_score_mae" ≡ some (copied (get shadow "score_mae")))

-- The measurements in the metrics of a manifest, with those of the shadow's report if there is one.
pub record IsMeasured {F : Type 0} (fl : Float F) (challenger : Summary F) (parity : F × F)
    (shadow : Option (Fields F)) (manifest : Option (Fields F)) : Type 0 where
  pub fields : Fields F
  pub is_there : manifest ≡ some fields
  pub metrics : Fields F
  pub under_metrics : get fields "metrics" ≡ some (Json.obj metrics)
  pub detected :
      get metrics "eval_episodes_detected"
      ≡ some (
          Json.str
            (show_nat challenger.episodes_detected <> ("/" <> show_nat challenger.episodes_total)))
  pub fp_rate : get metrics "eval_fp_rate" ≡ some (Json.float (fl.round challenger.fp_rate 5))
  pub median :
      get metrics "eval_median_latency_readings"
      ≡ some (Json.obj (latencies fl challenger.per_fault))
  pub rel_mae : get metrics "onnx_rel_mae" ≡ some (Json.float parity.0)
  pub agreement : get metrics "onnx_label_agreement" ≡ some (Json.float parity.1)
  pub shadow_counts : ShadowMeasured shadow metrics

module _ {F : Type 0} (fl : Float F) where
  abbrev shadow_entries : Fields F → List (String × Json F)
  shadow_entries shadow =
      ("shadow_readings", copied (get shadow "n"))
      ∷ ("shadow_agreement_rate", copied (get shadow "agreement_rate"))
      ∷ ("shadow_score_mae", copied (get shadow "score_mae"))
      ∷ []

  abbrev measured_entries : Summary F → F → F → List (String × Json F)
  measured_entries challenger rel_mae agreement =
      (
        "eval_episodes_detected",
        Json.str
            (show_nat challenger.episodes_detected <> ("/" <> show_nat challenger.episodes_total)),
      )
      ∷ ("eval_fp_rate", Json.float (fl.round challenger.fp_rate 5))
      ∷ ("eval_median_latency_readings", Json.obj (latencies fl challenger.per_fault))
      ∷ ("onnx_rel_mae", Json.float rel_mae)
      ∷ ("onnx_label_agreement", Json.float agreement)
      ∷ []

  -- The keys that the shadow's report adds are others.
  unshadowed :
      (shadow : Option (Fields F)) (metrics : Fields F) (j : String) {x : Option (Json F)}
      → str_eq "shadow_readings" j ≡ false
      → str_eq "shadow_agreement_rate" j ≡ false
      → str_eq "shadow_score_mae" j ≡ false
      → get metrics j ≡ x
      → get (shadowed fl shadow metrics) j ≡ x
  unshadowed none metrics j a b c h = h
  unshadowed (some shadow) metrics j a b c h =
      get-put_all (shadow_entries shadow) metrics j ∙ rw (a, b, c) h

  shadowed-ShadowMeasured :
      (shadow : Option (Fields F)) (metrics : Fields F)
      → ShadowMeasured shadow (shadowed fl shadow metrics)
  shadowed-ShadowMeasured none metrics = tt
  shadowed-ShadowMeasured (some shadow) metrics =
      let at = get-put_all (shadow_entries shadow) metrics in
      (at "shadow_readings", at "shadow_agreement_rate", at "shadow_score_mae")

  with_metrics-IsMeasured :
      {P : Type 0} (challenger : Summary F) (parity : F × F) (shadow : Option (Fields F))
      (bundle b : Bundle F P)
      → with_metrics fl challenger parity shadow bundle ≡ ok b
      → IsMeasured fl challenger parity shadow b.manifest
        × (b ≡ record bundle { manifest = b.manifest })
  unfolding with_metrics
  with_metrics-IsMeasured challenger (rel_mae, agreement) shadow bundle b h =
      let (metrics, _, h1) = bind_ok (metrics_in fl (or_else bundle.manifest end)) _ h in
      let same = ok_inj h1 in
      let all = measured_in fl challenger (rel_mae, agreement) metrics in
      let at = get-put_all (measured_entries challenger rel_mae agreement) metrics in
      rw (sym same) (
        record {
          fields = _;
          is_there = refl;
          metrics = shadowed fl shadow all;
          under_metrics = get-put (or_else bundle.manifest end) "metrics" _;
          detected =
              unshadowed shadow all "eval_episodes_detected" refl refl refl
                (at "eval_episodes_detected");
          fp_rate = unshadowed shadow all "eval_fp_rate" refl refl refl (at "eval_fp_rate");
          median =
              unshadowed shadow all "eval_median_latency_readings" refl refl refl
                (at "eval_median_latency_readings");
          rel_mae = unshadowed shadow all "onnx_rel_mae" refl refl refl (at "onnx_rel_mae");
          agreement =
              unshadowed shadow all "onnx_label_agreement" refl refl refl
                (at "onnx_label_agreement");
          shadow_counts = shadowed-ShadowMeasured shadow all;
        },
        refl,
      )

-- What the gate found out: the challenger with its evaluation, the champion's, the parity and the shadow's report. The criteria
-- found `failures`, and the bundle is the challenger with the measurements in its manifest and otherwise unchanged.
pub record IsJudged {F P : Type 0} (fl : Float F) (fmt : Format F) (calls : Calls F P)
    (args : Arguments F) (fs : Fs (Content F)) (j : Judgement F P) : Type 0 where
  pub challenger : Bundle F P
  pub loaded : challenger_bundle fl fmt calls args fs args.challenger_path ≡ ok challenger
  pub results : Results F
  pub evaluated : calls.evaluate challenger ≡ ok results
  pub champion : Option (String × Summary F)
  pub champion_evaluated : champion_at fl fmt calls args (fs args.champion_path) ≡ ok champion
  pub parity : F × F
  pub compared : calls.onnx_parity challenger ≡ ok parity
  pub shadow : Option (Fields F)
  pub reported : shadow_at fl fmt calls args args.shadow_report ≡ ok shadow
  pub found :
      gate_failures fl args.fp_tolerance args.bar
        (summarize results)
        (summary_part fl fmt calls args champion)
        parity
        shadow
        (version_of challenger)
      ≡ ok j.failures
  pub measured : IsMeasured fl (summarize results) parity shadow j.bundle.manifest
  pub otherwise_unchanged : j.bundle ≡ record challenger { manifest = j.bundle.manifest }

module _ {F P : Type 0} (fl : Float F) (fmt : Format F) (calls : Calls F P)
    (args : Arguments F) where
  pub judge-IsJudged :
      (fs : Fs (Content F)) (j : Judgement F P)
      → judge fl fmt calls args fs ≡ ok j
      → IsJudged fl fmt calls args fs j
  unfolding judge
  judge-IsJudged fs j h =
      let (challenger, loaded, h1) =
        bind_ok (challenger_bundle fl fmt calls args fs args.challenger_path) _ h in
      let (results, evaluated, h2) = bind_ok (calls.evaluate challenger) _ h1 in
      let (champion, champion_evaluated, h3) =
        bind_ok (champion_at fl fmt calls args (fs args.champion_path)) _ h2 in
      let (parity, compared, h4) = bind_ok (calls.onnx_parity challenger) _ h3 in
      let (shadow, reported, h5) = bind_ok (shadow_at fl fmt calls args args.shadow_report) _ h4 in
      let (failures, found, h6) =
        bind_ok
          (gate_failures fl args.fp_tolerance args.bar (summarize results)
            (summary_part fl fmt calls args champion) parity shadow (version_of challenger))
          _ h5 in
      let (texts, _, h7) =
        bind_ok
          (messages fmt args.fp_tolerance args.bar (errors_in fl fmt calls args shadow) failures) _
          h6 in
      let (bundle, added, h8) =
        bind_ok (with_metrics fl (summarize results) parity shadow challenger) _ h7 in
      let (report, _, h9) =
        bind_ok
          (render_report fmt args.bar (version_of challenger)
            (version_part fl fmt calls args champion) (summarize results)
            (summary_part fl fmt calls args champion) parity texts (is_empty_list failures) shadow)
          _ h8 in
      let (measured, unchanged) =
        with_metrics-IsMeasured fl (summarize results) parity shadow challenger bundle added in
      rw (sym (ok_inj h9)) (record {
        challenger = challenger;
        loaded = loaded;
        results = results;
        evaluated = evaluated;
        champion = champion;
        champion_evaluated = champion_evaluated;
        parity = parity;
        compared = compared;
        shadow = shadow;
        reported = reported;
        found = found;
        measured = measured;
        otherwise_unchanged = unchanged;
      })
