-- ===== src/Tests/Gate.antt =====
-- A gate that refuses, and a gate that promotes.
use edgesense_ai.Prelude.{ℕ, ◌<>◌, false, none, some, [], ◌∷◌, ◌≡◌, ◌≢◌, refl, All, Bool}
use edgesense_ai.Python.Error.{ok}
use edgesense_ai.Python.Json.{Content, Json, Fields, end, field}
use edgesense_ai.Python.Number.{pos}
use edgesense_ai.Python.Format.{Format}
use edgesense_ai.Python.Files.{FilePath, Fs, World, update, path_eq, path_eq_iff, with_name}
use edgesense_ai.Python.Files.Keeps.{Ignores}
use edgesense_ai.Signing.{signature_path}
use edgesense_ai.Manifest.Card.{manifest_path, card_path, stem_of}
use edgesense_ai.Manifest.Save.{Host}
use edgesense_ai.Manifest.Save.Pair.{Holds, Holds-update}
use edgesense_ai.Manifest.Save.Elsewhere.{IsApart}
use edgesense_ai.Promote.{Results, QualityBar, Sources}
use edgesense_ai.Promote.Judge.{Calls, Arguments, judge}
use edgesense_ai.Promote.Gate.{run_gate, exit_code, candidate_path, report_path}
use edgesense_ai.Promote.Gate.Refusal.{refused_keeps_champion}
use edgesense_ai.Promote.Gate.Outcome.{Ready}
use edgesense_ai.Tests.Instances.{crypto, floats, artifact, artifact_sig, bundle, strict, content}
use edgesense_ai.Tests.Promotion.{bar}

abbrev temp : FilePath → FilePath
temp p = with_name p (p.name <> ".tmp")

abbrev host : Host ℕ
host = record {
  env = strict;
  temp = temp;
  now = "now";
  show = λ j. "";
  encode = λ s. Content.raw [];
  floats = floats;
}

abbrev format : Format ℕ
format = record {
  percent = λ x n. "%";
  scientific = λ x n. "e";
  fixed = λ x n. "f";
  grouped = λ n. ",";
  json_percent = λ j n. ok "%";
  json_grouped = λ j. ok ",";
  repr = λ j. "repr";
  now = "now";
}

abbrev results : Results ℕ
results = record {
  faults =
      (
        "overheat",
        record {
          episodes = 25;
          detected = 25;
          episode_rate = 1;
          median_latency = some 1;
          reading_recall = 1;
        },
      )
      ∷ [];
  healthy_fp_rate = 5;
}

abbrev card_fields : Fields ℕ
card_fields = field "schema_version" (Json.int (pos 1)) (
    field "model_version" (Json.str "v2")
      (field "created_at" (Json.str "now") (field "git_commit" (Json.str "abc") end)))

abbrev calls : ℕ → Calls ℕ Bool
calls rate = record {
  dump = λ b. Content.raw (2 ∷ []);
  load = λ c. some bundle;
  train = ok (record bundle { manifest = some card_fields });
  evaluate = λ b. ok (record results { healthy_fp_rate = rate });
  onnx_parity = λ b. ok (1, 9);
  sources = record { fetch = λ s. none; read_file = λ s. none };
}

abbrev arguments : Arguments ℕ
arguments = record {
  champion_path = artifact;
  challenger_path = none;
  shadow_report = none;
  out_dir = "/gate";
  bar = bar;
  fp_tolerance = 1;
}

-- There is no champion yet, and a signature is left over.
abbrev world : World (Content ℕ)
world = record { files = update (λ p. none) artifact_sig (some content); faults = []; seen = [] }

apart : (p q : FilePath) → path_eq p q ≡ false → p ≢ q
apart p q h e = cc (h, (path_eq_iff p q).1 e)

abbrev Champion : Fs (Content ℕ) → Type 0
Champion = Holds artifact (world.files artifact) (world.files (signature_path artifact))

elsewhere :
    (p : FilePath)
    → path_eq p artifact ≡ false
    → path_eq p (signature_path artifact) ≡ false
    → Ignores Champion p
elsewhere p np ns fs x h =
    Holds-update artifact _ _ fs p x (apart p artifact np) (apart p (signature_path artifact) ns) h

abbrev candidate : FilePath
candidate = record { parent = "/gate"; name = "model.joblib" }

archive-IsApart : IsApart Champion temp candidate
unfolding path_eq signature_path manifest_path card_path stem_of
archive-IsApart = record {
  artifact = elsewhere candidate refl refl;
  artifact_temp = elsewhere (temp candidate) refl refl;
  signature = elsewhere (signature_path candidate) refl refl;
  signature_temp = elsewhere (temp (signature_path candidate)) refl refl;
  manifest = elsewhere (manifest_path candidate) refl refl;
  manifest_temp = elsewhere (temp (manifest_path candidate)) refl refl;
  card = elsewhere (card_path candidate) refl refl;
  card_temp = elsewhere (temp (card_path candidate)) refl refl;
}

-- Seven false positives are more than the bar's six.
refused_keeps_champion_example :
    let (r, w') = run_gate crypto host format (calls 7) arguments world in
    All Champion (w'.files ∷ w'.seen) × (exit_code r ≢ 0)
unfolding judge update path_eq edgesense_ai.Promote.gate_failures edgesense_ai.Promote.check_bar
    edgesense_ai.Promote.summarize edgesense_ai.Promote.Judge.with_metrics
    edgesense_ai.Promote.Report.render_report signature_path
refused_keeps_champion_example =
    refused_keeps_champion crypto host format (calls 7) arguments world refl (λ e. cc e)
      archive-IsApart (elsewhere (record { parent = "/gate"; name = "report.md" }) refl refl)

abbrev KeyReady : Fs (Content ℕ) → Type 0
KeyReady =
    Ready crypto host format (calls 5) arguments none (world.files artifact)
      (world.files (signature_path artifact))
