-- ===== src/Rotating/Groups.antt =====
-- The readings that `load_dataset` gives, against the recordings they come from.
use edgesense_ai.Prelude.{
  ◌≡◌, refl, sym, ap, ◌∙◌, String, Bool, true, false, Option, none, some, List, [], ◌∷◌, ◌++◌, All,
  length, Dict, lookup, lookup-insert, or_else, str_eq, eq_iff, if◌then◌else◌, Bool-cases, inl, inr,
  All-append,
}
use edgesense_ai.Python.Error.{Result, ok, ◌>>=◌, bind_ok, raise_if_ok, ok_inj, runtime_error}
use edgesense_ai.Python.Number.{Float}
use edgesense_ai.Rotating.{
  Recording, DataFiles, is_healthy, stem, discover, resolve_dirs, sorted_by,
}
use edgesense_ai.Rotating.Windows.{
  Rates, concat, column_stack, reduce_to_readings, window_size, stack, vibration_channels,
  temperature_channels, current_channels,
}
use edgesense_ai.Rotating.Sorting.{lookup-sorted_by}
use edgesense_ai.Rotating.Dataset.{
  Readings, empty_list, add_rows, file_under, key_lt, stack_all, load_recording, load_all,
  load_dataset,
}

module _ {A : Type 0} where
  -- What the table holds under a key once more arrays have been filed under it.
  abbrev grown : Option (List A) → List A → Option (List A)
  grown o [] = o
  grown o (a ∷ as') = some (or_else o [] ++ a ∷ as')

  append_assoc_one : (xs : List A) (a : A) (ys : List A) → (xs ++ a ∷ []) ++ ys ≡ xs ++ a ∷ ys
  append_assoc_one [] a ys = refl
  append_assoc_one (x ∷ xs) a ys = ap (λ l. x ∷ l) (append_assoc_one xs a ys)

  append_nil : (xs : List A) → xs ++ [] ≡ xs
  append_nil [] = refl
  append_nil (x ∷ xs) = ap (λ l. x ∷ l) (append_nil xs)

  grown-one :
      (o : Option (List A)) (a : A) (rest : List A)
      → grown (some (or_else o [] ++ a ∷ [])) rest ≡ grown o (a ∷ rest)
  grown-one o a [] = refl
  grown-one o a (b ∷ rest) = ap some (append_assoc_one (or_else o []) a (b ∷ rest))

  -- What `load_dataset` should file where: the arrays of the healthy recordings, and those of the others with a
  -- condition.
  abbrev pub healthy_of : List (Recording × A) → List A
  healthy_of [] = []
  healthy_of ((r, rows) ∷ ps) = if is_healthy r then rows ∷ healthy_of ps else healthy_of ps

  abbrev pub faulty_of : String → List (Recording × A) → List A
  faulty_of k [] = []
  faulty_of k ((r, rows) ∷ ps) =
      if is_healthy r
      then faulty_of k ps
      else if str_eq r.condition k
      then rows ∷ faulty_of k ps
      else faulty_of k ps

  file_under_healthy :
      (r : Recording) (rows : A) (ps : List (Recording × A)) (healthy : List A)
      (faults : Dict (List A))
      → (file_under (is_healthy r) r.condition rows (healthy, faults)).0 ++ healthy_of ps
        ≡ healthy ++ healthy_of ((r, rows) ∷ ps)
  file_under_healthy r rows ps healthy faults = elim (Bool-cases (is_healthy r)) [
    | inl e ↦ rw e (append_assoc_one healthy rows (healthy_of ps))
    | inr e ↦ rw e refl
  ]

  grown-add_rows :
      (k c : String) (rows : A) (ps : List (Recording × A)) (faults : Dict (List A)) (b : Bool)
      → str_eq c k ≡ b
      → grown (lookup k (add_rows c rows faults)) (faulty_of k ps)
        ≡ grown (lookup k faults) (if b then rows ∷ faulty_of k ps else faulty_of k ps)
  grown-add_rows k c rows ps faults true e =
      let same : c ≡ k = (eq_iff c k).0 e in
      rw (lookup-insert c k (or_else (lookup c faults) [] ++ rows ∷ []) faults, e, same)
        (grown-one (lookup k faults) rows (faulty_of k ps))
  grown-add_rows k c rows ps faults false e =
      rw (lookup-insert c k (or_else (lookup c faults) [] ++ rows ∷ []) faults, e) refl

  file_under_faulty :
      (k : String) (r : Recording) (rows : A) (ps : List (Recording × A)) (healthy : List A)
      (faults : Dict (List A))
      → grown
          (lookup k (file_under (is_healthy r) r.condition rows (healthy, faults)).1)
          (faulty_of k ps)
        ≡ grown (lookup k faults) (faulty_of k ((r, rows) ∷ ps))
  file_under_faulty k r rows ps healthy faults = elim (Bool-cases (is_healthy r)) [
    | inl e ↦ rw e refl
    | inr e ↦ rw e (grown-add_rows k r.condition rows ps faults (str_eq r.condition k) refl)
  ]

-- All the rows in one array, if there is an array.
abbrev pub stacked : {A : Type 0} → List (List A) → Option (List A)
stacked [] = none
stacked (a ∷ as') = some (concat (a ∷ as'))

abbrev stacked_entry : {A : Type 0} → Option (List (List A)) → Option (List A)
stacked_entry none = none
stacked_entry (some v) = some (concat v)

lookup-stack_all :
    {A : Type 0} (k : String) (d : Dict (List (List A)))
    → lookup k (stack_all d) ≡ stacked_entry (lookup k d)
lookup-stack_all k [] = refl
lookup-stack_all k ((j, v) ∷ d) = elim (Bool-cases (str_eq j k)) [
  | inl e ↦ rw e refl
  | inr e ↦ rw (e, lookup-stack_all k d) refl
]

stacked_of_grown : {A : Type 0} (xs : List (List A)) → stacked_entry (grown none xs) ≡ stacked xs
stacked_of_grown [] = refl
stacked_of_grown (x ∷ xs) = refl

-- Rows of three values.
abbrev pub HasThreeColumns : {F : Type 0} → Readings F → Type 0
HasThreeColumns rows = All {0, 0} (λ row. length row ≡ 3) rows

column_stack-HasThreeColumns :
    {F : Type 0} (vs ts cs : List F) → HasThreeColumns (column_stack vs ts cs)
column_stack-HasThreeColumns [] ts cs = tt
column_stack-HasThreeColumns (v ∷ vs) [] cs = tt
column_stack-HasThreeColumns (v ∷ vs) (t ∷ ts) [] = tt
column_stack-HasThreeColumns (v ∷ vs) (t ∷ ts) (c ∷ cs) =
    (refl, column_stack-HasThreeColumns vs ts cs)

stacked_ok :
    {F : Type 0} (vs ts cs : List F) (rows : Readings F)
    → ok (column_stack vs ts cs) ≡ ok rows
    → HasThreeColumns rows
stacked_ok vs ts cs rows h = rw (sym (ok_inj h)) (column_stack-HasThreeColumns vs ts cs)

module _ {F : Type 0} (fl : Float F) (rates : Rates F) (files : DataFiles F) where
  -- Each recording with its readings.
  unfoldable pub readings_of : List Recording → Result (List (Recording × Readings F))
  readings_of [] = ok []
  readings_of (rec ∷ recs) = do
    rows ← load_recording fl rates files rec
    ps ← readings_of recs
    ok ((rec, rows) ∷ ps)

  load_all_groups :
      (k : String) (recs : List Recording) (healthy : List (Readings F))
      (faults : Dict (List (Readings F))) (after : List (Readings F) × Dict (List (Readings F)))
      → load_all fl rates files recs (healthy, faults) ≡ ok after
      → (ps : List (Recording × Readings F)) × (readings_of recs ≡ ok ps)
        × (after.0 ≡ healthy ++ healthy_of ps)
        × (lookup k after.1 ≡ grown (lookup k faults) (faulty_of k ps))
  unfolding load_all readings_of
  load_all_groups k [] healthy faults after h =
      let e = ok_inj h in
      ([], refl, ap (λ a. a.0) (sym e) ∙ sym (append_nil healthy), ap (λ a. lookup k a.1) (sym e))
  load_all_groups k (rec ∷ recs) healthy faults after h =
      let (rows, h1, h2) = bind_ok (load_recording fl rates files rec) _ h in
      let filed = file_under (is_healthy rec) rec.condition rows (healthy, faults) in
      let (ps, r, hh, hf) = load_all_groups k recs filed.0 filed.1 after h2 in
      (
        (rec, rows) ∷ ps,
        rw (h1, r) refl,
        hh ∙ file_under_healthy rec rows ps healthy faults,
        hf ∙ file_under_faulty k rec rows ps healthy faults,
      )

  reduce_to_readings-HasThreeColumns :
      (vibration temp_current : Dict (List F)) (rows : Readings F)
      → reduce_to_readings fl rates vibration temp_current ≡ ok rows
      → HasThreeColumns rows
  unfolding reduce_to_readings
  reduce_to_readings-HasThreeColumns vibration temp_current rows h =
      let (size, _, h1) = bind_ok (window_size fl rates) _ h in
      let (vib, _, h2) = bind_ok (stack vibration vibration_channels) _ h1 in
      let (temp, _, h3) = bind_ok (stack temp_current temperature_channels) _ h2 in
      let (cur, _, h4) = bind_ok (stack temp_current current_channels) _ h3 in
      stacked_ok _ _ _ rows (raise_if_ok _ runtime_error _ h4).1

  load_recording-HasThreeColumns :
      (rec : Recording) (rows : Readings F)
      → load_recording fl rates files rec ≡ ok rows
      → HasThreeColumns rows
  unfolding load_recording
  load_recording-HasThreeColumns rec rows h =
      let ((vib_dir, tc_dir), _, h1) = bind_ok (resolve_dirs files) _ h in
      let (vibration, _, h2) = bind_ok (files.read_mat_columns vib_dir (stem rec)) _ h1 in
      let (temp_current, _, h3) = bind_ok (files.read_tdms_columns tc_dir (stem rec)) _ h2 in
      reduce_to_readings-HasThreeColumns vibration temp_current rows h3

  -- The pooled rows of the healthy recordings have three values each.
  healthy_of-HasThreeColumns :
      (recs : List Recording) (ps : List (Recording × Readings F))
      → readings_of recs ≡ ok ps
      → HasThreeColumns (concat (healthy_of ps))
  unfolding readings_of
  healthy_of-HasThreeColumns [] ps h = rw (sym (ok_inj h)) tt
  healthy_of-HasThreeColumns (rec ∷ recs) ps h =
      let (rows, h1, h2) = bind_ok (load_recording fl rates files rec) _ h in
      let (qs, h3, h4) = bind_ok (readings_of recs) _ h2 in
      let rest = healthy_of-HasThreeColumns recs qs h3 in
      rw (sym (ok_inj h4)) (elim (Bool-cases (is_healthy rec)) [
        | inl e ↦ rw e (
            All-append (λ row. length row ≡ 3) rows (concat (healthy_of qs))
              (load_recording-HasThreeColumns rec rows h1) rest)
        | inr e ↦ rw e rest
      ])

  -- A dataset that loads gives, in the order in which its recordings are found, the readings of all the healthy ones as the
  -- training data, three values each, and under a condition those of all the other recordings with that condition,
  -- if there is one.
  pub load_dataset_groups :
      (healthy : Readings F) (faults : Dict (Readings F)) (k : String)
      → load_dataset fl rates files ≡ ok (healthy, faults)
      → (recs : List Recording) × (ps : List (Recording × Readings F)) × (discover files ≡ ok recs)
        × (readings_of recs ≡ ok ps)
        × (healthy ≡ concat (healthy_of ps))
        × HasThreeColumns healthy
        × (lookup k faults ≡ stacked (faulty_of k ps))
  unfolding load_dataset
  load_dataset_groups healthy faults k h =
      let (recs, found, h1) = bind_ok (discover files) _ h in
      let h2 = (raise_if_ok (empty_list recs) runtime_error _ h1).1 in
      let ((hs, fs), loaded, h3) = bind_ok (load_all fl rates files recs ([], [])) _ h2 in
      let h4 = (raise_if_ok (empty_list hs) runtime_error _ h3).1 in
      let (ps, r, hh, hf) = load_all_groups k recs [] [] (hs, fs) loaded in
      let pair = ok_inj h4 in
      let pooled : healthy ≡ concat (healthy_of ps) = sym (ap (λ a. a.0) pair) ∙ ap concat hh in
      (
        recs,
        ps,
        found,
        r,
        pooled,
        rw pooled (healthy_of-HasThreeColumns recs ps r),
        sym (ap (λ a. lookup k a.1) pair)
            ∙ lookup-stack_all k (sorted_by key_lt fs)
            ∙ ap stacked_entry (lookup-sorted_by k fs ∙ hf)
            ∙ stacked_of_grown (faulty_of k ps),
      )
