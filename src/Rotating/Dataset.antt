-- ===== src/Rotating/Dataset.antt =====
-- ml/rotating.py: `load_recording` and `load_dataset`. What is printed on the way is left out.
use edgesense_ai.Prelude.{
  String, Bool, true, false, List, [], ◌∷◌, ◌++◌, Dict, lookup, insert, or_else,
}
use edgesense_ai.Python.Error.{Result, ok, ◌>>=◌, ◌>>◌, raise_if, runtime_error}
use edgesense_ai.Python.Number.{Float}
use edgesense_ai.Rotating.{
  Recording, DataFiles, is_healthy, stem, discover, resolve_dirs, text_lt, sorted_by,
}
use edgesense_ai.Rotating.Windows.{Rates, concat, reduce_to_readings}

-- The readings of one recording, a row each.
abbrev pub Readings : Type 0 → Type 0
Readings F = List (List F)

abbrev pub empty_list : {A : Type 0} → List A → Bool
empty_list [] = true
empty_list (x ∷ xs) = false

-- `faults.setdefault(condition, []).append(rows)`
abbrev pub add_rows : {A : Type 0} → String → A → Dict (List A) → Dict (List A)
add_rows condition rows faults =
    insert condition (or_else (lookup condition faults) [] ++ rows ∷ []) faults

-- The healthy rows and the rows of each fault.
abbrev pub file_under :
    {A : Type 0} → Bool → String → A → List A × Dict (List A) → List A × Dict (List A)
file_under true condition rows (healthy, faults) = (healthy ++ rows ∷ [], faults)
file_under false condition rows (healthy, faults) = (healthy, add_rows condition rows faults)

abbrev pub key_lt : {A : Type 0} → String × A → String × A → Bool
key_lt a b = text_lt a.0 b.0

abbrev pub stack_all : {A : Type 0} → Dict (List (List A)) → Dict (List A)
stack_all [] = []
stack_all ((k, v) ∷ d) = (k, concat v) ∷ stack_all d

module _ {F : Type 0} (fl : Float F) (rates : Rates F) (files : DataFiles F) where
  unfoldable pub load_recording : Recording → Result (Readings F)
  unfolding resolve_dirs reduce_to_readings stem
  load_recording rec = do
    (vib_dir, tc_dir) ← resolve_dirs files
    vibration ← files.read_mat_columns vib_dir (stem rec)
    temp_current ← files.read_tdms_columns tc_dir (stem rec)
    reduce_to_readings fl rates vibration temp_current

  -- The loop over the recordings.
  unfoldable pub load_all :
      List Recording
      → List (Readings F) × Dict (List (Readings F))
      → Result (List (Readings F) × Dict (List (Readings F)))
  unfolding load_recording
  load_all [] acc = ok acc
  load_all (rec ∷ recs) acc = do
    rows ← load_recording rec
    load_all recs (file_under (is_healthy rec) rec.condition rows acc)

  unfoldable pub load_dataset : Result (Readings F × Dict (Readings F))
  unfolding discover load_all
  load_dataset = do
    recordings ← discover files
    raise_if (empty_list recordings) runtime_error
    (healthy, faults) ← load_all recordings ([], [])
    raise_if (empty_list healthy) runtime_error
    ok (concat healthy, stack_all (sorted_by key_lt faults))
