-- ===== src/Promote/Report.antt =====
-- ml/promote.py: the messages of the failures and `render_report`.
use edgesense_ai.Prelude.{
  ℕ, ◌+◌, String, ◌<>◌, Bool, true, false, Option, none, some, List, [], ◌∷◌, ◌++◌, Dict, lookup,
  map, or_else, if◌then◌else◌, str_eq,
}
use edgesense_ai.Python.Error.{Result, ok, ◌>>=◌}
use edgesense_ai.Python.Number.{pos}
use edgesense_ai.Python.Json.{Json, Fields, get}
use edgesense_ai.Python.Format.{Format, show_nat}
use edgesense_ai.Manifest.Card.{join}
use edgesense_ai.Promote.{
  FaultResult, QualityBar, Summary, Failure, episodes_missed, slow_detection, false_positives,
  parity_lost, fewer_episodes, more_false_positives, slower_than_champion, other_model,
  thin_evidence, low_agreement, scoring_errors, latency_tolerance,
}

-- A value and the text of a missing one.
abbrev pub or_dash : Option String → String
or_dash o = or_else o "—"

-- `—`, or the latency counted from one.
abbrev pub fmt_med : Option ℕ → String
fmt_med none = "—"
fmt_med (some m) = show_nat (m + 1)

module _ {F : Type 0} (fmt : Format F) where
  -- `'—' if rate is None else f'{rate:.3%}'`
  abbrev rate_text : Option (Json F) → Result String
  rate_text none = ok "—"
  rate_text (some Json.null) = ok "—"
  rate_text (some v) = fmt.json_percent v 3

  -- `errors` is what the report gives under that key.
  abbrev pub message : F → QualityBar F → Option (Json F) → Failure F → Result String
  message tolerance bar errors (episodes_missed fault detected episodes) = ok (
      fault
      <> (": "
          <> (show_nat detected
              <> ("/"
                  <> (show_nat episodes
                      <> (" episodes detected (need "
                          <> (fmt.percent bar.episode_rate 0 <> ")")))))))
  message tolerance bar errors (slow_detection fault med) = ok (
      fault
      <> (": median time-to-detect "
          <> (fmt_med med
              <> (" readings (bar: ≤ " <> (show_nat (bar.max_median_latency + 1) <> ")")))))
  message tolerance bar errors (false_positives rate) = ok (
      "healthy FP rate "
      <> (fmt.percent rate 3 <> (" (bar: ≤ " <> (fmt.percent bar.max_fp_rate 3 <> ")"))))
  message tolerance bar errors (parity_lost rel_mae agreement) = ok (
      "ONNX parity: rel MAE "
      <> (fmt.scientific rel_mae 2
          <> (" / agreement "
              <> (fmt.percent agreement 2
                  <> (" (bar: < "
                      <> (fmt.scientific bar.onnx_rel_mae 0
                          <> (" / > " <> (fmt.percent bar.onnx_agreement 0 <> ")"))))))))
  message tolerance bar errors (fewer_episodes challenger champion) =
      ok ("episodes detected " <> (show_nat challenger <> (" < champion's " <> show_nat champion)))
  message tolerance bar errors (more_false_positives challenger champion) = ok (
      "healthy FP rate "
      <> (fmt.percent challenger 3
          <> (" > champion's "
              <> (fmt.percent champion 3 <> (" + " <> (fmt.percent tolerance 1 <> " tolerance"))))))
  message tolerance bar errors (slower_than_champion fault med champion) = ok (
      fault
      <> (": median time-to-detect "
          <> (fmt_med med
              <> (" readings > champion's "
                  <> (show_nat (champion + 1)
                      <> (" + " <> (show_nat latency_tolerance <> " tolerance")))))))
  message tolerance bar errors (other_model shadowed version) = ok (
      "shadow evidence is for model "
      <> (fmt.repr shadowed
          <> (", but the challenger is "
              <> (fmt.repr (some (Json.str version))
                  <> " (gate the shadowed bundle with --challenger, or re-shadow this one)"))))
  message tolerance bar errors (thin_evidence n) = do
    count ← fmt.json_grouped n
    ok (
        "shadow evidence too thin: "
        <> (count <> (" readings (need ≥ " <> (fmt.grouped bar.shadow_min_n <> ")"))))
  message tolerance bar errors (low_agreement rate) = do
    shown ← rate_text rate
    ok (
        "shadow agreement "
        <> (shown
            <> (" with the champion (bar: ≥ " <> (fmt.percent bar.shadow_min_agreement 1 <> ")"))))
  message tolerance bar errors scoring_errors =
      ok ("shadow raised " <> (fmt.repr errors <> " scoring error(s) on live traffic"))

  abbrev pub messages : F → QualityBar F → Option (Json F) → List (Failure F) → Result (List String)
  messages tolerance bar errors [] = ok []
  messages tolerance bar errors (f ∷ fs) = do
    t ← message tolerance bar errors f
    ts ← messages tolerance bar errors fs
    ok (t ∷ ts)

  -- `cell(champion, fn)`
  abbrev cell : Option (Summary F) → (Summary F → String) → String
  cell none fn = "—"
  cell (some s) fn = fn s

  abbrev episodes_cell : Summary F → String
  episodes_cell s = show_nat s.episodes_detected <> ("/" <> show_nat s.episodes_total)

  abbrev fp_cell : Summary F → String
  fp_cell s = fmt.percent s.fp_rate 3

  abbrev champion_entry : Option (Summary F) → String → Option (FaultResult F)
  champion_entry none fault = none
  champion_entry (some champion) fault = lookup fault champion.per_fault

  abbrev champion_med : Option (FaultResult F) → String
  champion_med none = "—"
  champion_med (some cp) = fmt_med cp.median_latency

  abbrev fault_rows : QualityBar F → Option (Summary F) → Dict (FaultResult F) → List String
  fault_rows bar champion [] = []
  fault_rows bar champion ((fault, ch) ∷ rs) =
      ("| "
        <> (fault
            <> (" median time-to-detect (readings) | "
                <> (champion_med (champion_entry champion fault)
                    <> (" | "
                        <> (fmt_med ch.median_latency
                            <> (" | ≤ " <> (show_nat (bar.max_median_latency + 1) <> " |"))))))))
      ∷ fault_rows bar champion rs

  -- The row of the shadow, if there is one.
  abbrev shadow_rows : QualityBar F → Option (Fields F) → Result (List String)
  shadow_rows bar none = ok []
  shadow_rows bar (some shadow) = do
    rate ← rate_text (get shadow "agreement_rate")
    n ← fmt.json_grouped (or_else (get shadow "n") (Json.int (pos 0)))
    ok (
        ("| shadow agreement on live traffic | — | "
          <> (rate
              <> (" ("
                  <> (n
                      <> (" readings) | ≥ "
                          <> (fmt.percent bar.shadow_min_agreement 1
                              <> (" over ≥ " <> (fmt.grouped bar.shadow_min_n <> " |"))))))))
        ∷ [])

  -- `f"…" if champion_version else "…"`, where an empty text is no version.
  abbrev champion_line : Option String → String
  champion_line none = "- champion:  *(none — absolute bar only)*"
  champion_line (some v) =
      if str_eq v ""
      then "- champion:  *(none — absolute bar only)*"
      else "- champion:  `" <> (v <> "`")

  abbrev promoted_tail : Option String → String
  promoted_tail none = " (no champion to beat)."
  promoted_tail (some v) =
      if str_eq v "" then " (no champion to beat)." else " and did not regress vs the champion."

  abbrev verdict_lines : Option String → List String → Bool → List String
  verdict_lines champion_version failures true =
      ("**PROMOTED** — the challenger cleared the quality bar" <> promoted_tail champion_version)
      ∷ []
  verdict_lines champion_version failures false =
      "**REFUSED** — the champion keeps serving:" ∷ "" ∷ map (λ f. "- " <> f) failures

  unfoldable pub render_report :
      QualityBar F
      → String
      → Option String
      → Summary F
      → Option (Summary F)
      → F × F
      → List String
      → Bool
      → Option (Fields F)
      → Result String
  unfolding show_nat
  render_report bar challenger_version champion_version challenger champion (rel_mae, agreement)
        failures promoted shadow =
      do
        online ← shadow_rows bar shadow
        ok (
            join "\n" (
              ("# EdgeSense AI — promotion gate report"
                ∷ ""
                ∷ ("- challenger: `" <> (challenger_version <> "`"))
                ∷ champion_line champion_version
                ∷ ("- generated: " <> (fmt.now <> " by `ml/promote.py`"))
                ∷ ""
                ∷ "| Metric | Champion | Challenger | Bar |"
                ∷ "|---|---|---|---|"
                ∷ ("| episodes detected | "
                    <> (cell champion episodes_cell
                        <> (" | "
                            <> (episodes_cell challenger
                                <> (" | " <> (fmt.percent bar.episode_rate 0 <> " per fault |"))))))
                ∷ [])
              ++ (fault_rows bar champion challenger.per_fault
                  ++ ((("| healthy FP rate | "
                          <> (cell champion fp_cell
                              <> (" | "
                                  <> (fp_cell challenger
                                      <> (" | ≤ " <> (fmt.percent bar.max_fp_rate 3 <> " |"))))))
                        ∷ ("| ONNX parity (rel MAE / label agreement) | — | "
                            <> (fmt.scientific rel_mae 2
                                <> (" / "
                                    <> (fmt.percent agreement 2
                                        <> (" | < "
                                            <> (fmt.scientific bar.onnx_rel_mae 0
                                                <> (" / > "
                                                    <> (fmt.percent bar.onnx_agreement 0
                                                        <> " |"))))))))
                        ∷ [])
                      ++ (online
                          ++ (("" ∷ "## Verdict" ∷ "" ∷ [])
                              ++ verdict_lines champion_version failures promoted)))))
            <> "\n")
