-- ===== src/Tests/Rotating.antt =====
-- Concrete runs of ml/rotating.py: two recordings of a dataset, at two samples for each reading.
use edgesense_ai.Prelude.{◌≡◌, refl, ℕ, String, some, List, [], ◌∷◌, str_eq, if◌then◌else◌}
use edgesense_ai.Python.Error.{ok, err, runtime_error}
use edgesense_ai.Python.Number.{pos}
use edgesense_ai.Rotating.{Recording, DataFiles, parse_stem, stem, family, discover}
use edgesense_ai.Rotating.Windows.{Rates, concat}
use edgesense_ai.Rotating.Dataset.{Readings, load_dataset}
use edgesense_ai.Rotating.Groups.{
  readings_of, healthy_of, faulty_of, stacked, HasThreeColumns, load_dataset_groups,
}
use edgesense_ai.Tests.Instances.{floats}

abbrev inner_race : Recording
inner_race = record { load_nm = 2; condition = "BPFI_03" }

parse_stem_run : parse_stem "2Nm_BPFI_03" ≡ ok inner_race
unfolding parse_stem
parse_stem_run = refl

parse_stem_no_unit : parse_stem "2kg_BPFI_03" ≡ err runtime_error
unfolding parse_stem
parse_stem_no_unit = refl

stem_run : stem inner_race ≡ "2Nm_BPFI_03"
unfolding stem
stem_run = refl

family_run : family inner_race ≡ "bearing inner race fault"
unfolding family
family_run = refl

abbrev stems_in : String → List String
stems_in suffix =
    if str_eq suffix ".mat"
    then "2Nm_BPFI_03" ∷ "0Nm_Normal" ∷ "4Nm_Normal" ∷ []
    else "0Nm_Normal" ∷ "2Nm_BPFI_03" ∷ []

abbrev dataset_files : DataFiles ℕ
dataset_files = record {
  is_dir = λ d. str_eq d "";
  stems = λ d suffix. if str_eq d "" then stems_in suffix else [];
  read_mat_columns = λ d s. ok (
      ("x_direction_housing_A", 1 ∷ 1 ∷ 3 ∷ 3 ∷ [])
      ∷ ("y_direction_housing_A", 1 ∷ 1 ∷ 3 ∷ 3 ∷ [])
      ∷ ("x_direction_housing_B", 1 ∷ 1 ∷ 3 ∷ 3 ∷ [])
      ∷ ("y_direction_housing_B", 1 ∷ 1 ∷ 3 ∷ 3 ∷ [])
      ∷ []);
  read_tdms_columns = λ d s. ok (
      ("Temperature_housing_A", 45 ∷ 45 ∷ 47 ∷ 47 ∷ 50 ∷ [])
      ∷ ("Temperature_housing_B", 45 ∷ 45 ∷ 47 ∷ 47 ∷ 50 ∷ [])
      ∷ ("U-phase", 2 ∷ 2 ∷ 4 ∷ 4 ∷ 4 ∷ [])
      ∷ ("V-phase", [])
      ∷ ("W-phase", [])
      ∷ []);
}

abbrev rates : Rates ℕ
rates = record { sample_rate = 4; reading_rate = 2; int_round = λ x. ok (pos x) }

abbrev two_readings : Readings ℕ
two_readings = (1 ∷ 45 ∷ 4 ∷ []) ∷ (9 ∷ 47 ∷ 16 ∷ []) ∷ []

load_dataset_run :
    load_dataset floats rates dataset_files ≡ ok (two_readings, ("BPFI_03", two_readings) ∷ [])
unfolding load_dataset
load_dataset_run = refl

load_dataset_groups_example :
    (recs : List Recording) × (ps : List (Recording × Readings ℕ)) × (discover dataset_files
      ≡ ok recs)
    × (readings_of floats rates dataset_files recs ≡ ok ps)
    × (two_readings ≡ concat (healthy_of ps))
    × HasThreeColumns two_readings
    × (some two_readings ≡ stacked (faulty_of "BPFI_03" ps))
load_dataset_groups_example =
    load_dataset_groups floats rates dataset_files two_readings (("BPFI_03", two_readings) ∷ [])
      "BPFI_03" load_dataset_run
