-- ===== src/Tests/Promotion.antt =====
-- A gate that passes, and a registry with three versions.
use edgesense_ai.Prelude.{
  ℕ, ◌≡◌, ◌≢◌, ◌↔◌, refl, ap, ◌∙◌, String, true, false, ◌||◌, none, some, List, [], ◌∷◌, All, Dict,
  lookup, insert, lookup-insert, eq_refl, str_eq, if◌then◌else◌,
}
use edgesense_ai.Python.Error.{ok, err, registry_error}
use edgesense_ai.Python.Number.{gt, pos}
use edgesense_ai.Python.Json.{Json, Fields, end, field}
use edgesense_ai.Promote.{FaultResult, QualityBar, Summary, check_bar, gate_failures}
use edgesense_ai.Promote.Criteria.{Clears, NoWorse, ShownOnline, check_bar_iff, gate_passed}
use edgesense_ai.Registry.{
  ModelVersion, Client, resolve_champion_version, tag_version, champions_of,
}
use edgesense_ai.Registry.Champion.{IsStore, IsNewest, resolve-tag, resolve-IsNewest}
use edgesense_ai.Tests.Instances.{floats}
use edgesense_ai.Tests.Signing.{false_ne}

abbrev pub bar : QualityBar ℕ
bar = record {
  episode_rate = 1;
  max_median_latency = 1;
  max_fp_rate = 6;
  onnx_rel_mae = 2;
  onnx_agreement = 8;
  shadow_min_n = 1000;
  shadow_min_agreement = 9;
}

abbrev summary : Summary ℕ
summary = record {
  episodes_total = 25;
  episodes_detected = 25;
  fp_rate = 5;
  per_fault =
      (
        "overheat",
        record {
          episodes = 25;
          detected = 25;
          episode_rate = 1;
          median_latency = some 1;
          reading_recall = 1;
        },
      )
      ∷ [];
}

abbrev evidence : Fields ℕ
evidence = field "shadow_version" (Json.str "v2") (
    field "n" (Json.int (pos 1200))
      (field "agreement_rate" (Json.float 9) (field "errors" (Json.int (pos 0)) end)))

check_bar_iff_example : (check_bar floats summary bar ≡ []) ↔ (
    All (Clears floats bar) summary.per_fault × (gt floats summary.fp_rate bar.max_fp_rate ≡ false))
check_bar_iff_example = check_bar_iff floats bar summary

gate_passed_example :
    All (Clears floats bar) summary.per_fault
    × (gt floats summary.fp_rate bar.max_fp_rate ≡ false)
    × (floats.le bar.onnx_rel_mae 1 || floats.le 9 bar.onnx_agreement ≡ false)
    × NoWorse floats bar 1 summary (some summary)
    × ShownOnline floats bar "v2" (some evidence)
unfolding gate_failures edgesense_ai.Promote.check_shadow edgesense_ai.Python.Json.truthy_json
    check_bar edgesense_ai.Promote.compare_to_champion
gate_passed_example = gate_passed floats bar 1 summary (some summary) 1 9 (some evidence) "v2" refl

abbrev versions : List ModelVersion
versions =
    record { version = "2"; tags = ("role", "champion") ∷ []; source = none }
    ∷ record { version = "10"; tags = ("role", "champion") ∷ []; source = none }
    ∷ record { version = "11"; tags = ("role", "challenger") ∷ []; source = none }
    ∷ []

-- A registry that keeps the tags of the registered model.
abbrev client : Client (Dict String)
client = record {
  get_registered_model = λ s. ok s;
  search_model_versions = λ s. ok versions;
  get_model_version = λ s v. err registry_error;
  set_model_version_tag = λ s version k v. s;
  set_registered_model_tag = λ s k v. insert k v s;
  download_artifacts = λ s source. err registry_error;
  exists = λ p. false;
  rglob = λ folder name. [];
}

store : IsStore client
store = record {
  tag_read = λ s k v. (
    insert k v s,
    refl,
    lookup-insert k k v s ∙ ap (λ b. if b then some v else lookup k s) (eq_refl k),
  );
}

abbrev three : String
three = "3"

three_ne : three ≢ ""
three_ne e = false_ne (ap (λ s. str_eq s "") e)

resolve-tag_example :
    resolve_champion_version client (tag_version client true three "v3" []) ≡ ok three
resolve-tag_example = resolve-tag client store three "v3" [] three_ne

resolve-IsNewest_example : IsNewest (champions_of versions) "10"
unfolding resolve_champion_version edgesense_ai.Registry.newest_champion
resolve-IsNewest_example = resolve-IsNewest client [] [] versions "10" refl refl refl refl
