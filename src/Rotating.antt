-- ===== src/Rotating.antt =====
-- ml/rotating.py: the recordings of the rotating-machine dataset, and which of them are under a folder. The regular
-- expression of a stem reads ASCII digits.
pub mod Windows
pub mod Dataset
pub mod Sorting
pub mod Groups
use Prim.Native.Char.{Char, code}
use edgesense_ai.Prelude.{
  ℕ, ◌+◌, ◌*◌, ◌-◌, String, ◌<>◌, Bool, true, false, ◌&&◌, ◌||◌, Option, none, some, List, [], ◌∷◌,
  Dict, lookup, is_empty, or_else, codes, str_eq, str_in, ltb, leb, ◌==◌, if◌then◌else◌,
}
use edgesense_ai.Python.Error.{Result, ok, err, ◌>>=◌, or_raise, runtime_error}
use edgesense_ai.Python.Format.{show_nat}

pub record Recording : Type 0 where
  pub load_nm : ℕ
  pub condition : String

-- `s.split("_")[0]`
abbrev head_of : String → String
head_of String.[] = String.[]
head_of (String.◌∷◌ c s) =
    let rest = head_of s in if code c == b'_' then String.[] else String.◌∷◌ c rest

-- `FAULT_FAMILIES`
abbrev fault_families : Dict String
fault_families =
    ("Normal", "healthy")
    ∷ ("BPFI", "bearing inner race fault")
    ∷ ("BPFO", "bearing outer race fault")
    ∷ ("Misalign", "shaft misalignment")
    ∷ ("Unbalance", "rotor unbalance")
    ∷ []

unfoldable pub family : Recording → String
family r = or_else (lookup (head_of r.condition) fault_families) (head_of r.condition)

abbrev pub is_healthy : Recording → Bool
is_healthy r = str_eq r.condition "Normal"

unfoldable pub stem : Recording → String
unfolding show_nat
stem r = show_nat r.load_nm <> ("Nm_" <> r.condition)

-- `\d+` in front of a text that follows it: the number, and the rest.
abbrev take_digits : ℕ → Bool → String → Option (ℕ × String)
take_digits n seen String.[] = none
take_digits n seen (String.◌∷◌ c s) =
    let rest = take_digits (n * 10 + (code c - b'0')) true s in
    if leb b'0' (code c) && leb (code c) b'9'
    then rest
    else if seen
    then some (n, String.◌∷◌ c s)
    else none

abbrev after_unit : String → Option String
after_unit (String.◌∷◌ c (String.◌∷◌ d (String.◌∷◌ e s))) =
    if code c == b'N' && code d == b'm' && code e == b'_' then some s else none
after_unit _ = none

abbrev add_front : Char → Option String → Option String
add_front c none = none
add_front c (some s) = some (String.◌∷◌ c s)

-- `.+$`: one line that is not empty, with a line feed behind it or not.
abbrev line_of : String → Option String
line_of String.[] = some String.[]
line_of (String.◌∷◌ c s) =
    let rest = line_of s in
    if code c == 10 then (if str_eq s "" then some String.[] else none) else add_front c rest

abbrev condition_in : String → Option String
condition_in s = elim (line_of s) [
  | none ↦ none
  | some line ↦ if str_eq line "" then none else some line
]

unfoldable pub parse_stem : String → Result Recording
parse_stem s = do
  (load, unit) ← or_raise (take_digits 0 false s) runtime_error
  rest ← or_raise (after_unit unit) runtime_error
  condition ← or_raise (condition_in rest) runtime_error
  ok (record { load_nm = load; condition = condition })

-- `<` of texts, by their code points.
abbrev pub codes_lt : List ℕ → List ℕ → Bool
codes_lt [] [] = false
codes_lt [] (d ∷ t) = true
codes_lt (c ∷ s) [] = false
codes_lt (c ∷ s) (d ∷ t) = ltb c d || (c == d && codes_lt s t)

abbrev pub text_lt : String → String → Bool
text_lt a b = codes_lt (codes a) (codes b)

-- `(a.load_nm, a.condition) < (b.load_nm, b.condition)`
abbrev recording_lt : Recording → Recording → Bool
recording_lt a b =
    ltb a.load_nm b.load_nm || (a.load_nm == b.load_nm && text_lt a.condition b.condition)

-- `sorted` by a `<`, which keeps the order of equal items.
abbrev pub insert_by : {A : Type 0} → (A → A → Bool) → A → List A → List A
insert_by lt x [] = x ∷ []
insert_by lt x (y ∷ ys) = let rest = insert_by lt x ys in if lt y x then y ∷ rest else x ∷ y ∷ ys

abbrev pub sorted_by : {A : Type 0} → (A → A → Bool) → List A → List A
sorted_by lt [] = []
sorted_by lt (x ∷ xs) = insert_by lt x (sorted_by lt xs)

-- The dataset's folder, by the names of the folders in it, with "" for itself: the stems of a folder's files with a
-- suffix, and the columns that the readers of the two formats give for a folder and a stem.
pub record DataFiles (F : Type 0) : Type 0 where
  pub is_dir : String → Bool
  pub stems : String → String → List String
  pub read_mat_columns : String → String → Result (Dict (List F))
  pub read_tdms_columns : String → String → Result (Dict (List F))

module _ {F : Type 0} (files : DataFiles F) where
  abbrev first_with : List String → String → Option String
  first_with [] suffix = none
  first_with (d ∷ ds) suffix =
      let rest = first_with ds suffix in
      elim (files.stems d suffix) [ [] ↦ rest | _ ∷ _ ↦ if files.is_dir d then some d else rest ]

  unfoldable pub resolve_dirs : Result (String × String)
  resolve_dirs = do
    let tc =
        first_with ("current,temp" ∷ "current_temp" ∷ "current-temp" ∷ "temp,current" ∷ "" ∷ [])
          ".tdms"
    vib_dir ← or_raise (first_with ("vibration" ∷ "" ∷ []) ".mat") runtime_error
    tc_dir ← or_raise tc runtime_error
    ok (vib_dir, tc_dir)

  abbrev common : List String → List String → List String
  common [] others = []
  common (s ∷ ss) others = if str_in s others then s ∷ common ss others else common ss others

  abbrev parse_stems : List String → Result (List Recording)
  unfolding parse_stem
  parse_stems [] = ok []
  parse_stems (s ∷ ss) = do r ← parse_stem s; rs ← parse_stems ss; ok (r ∷ rs)

  -- The recordings with both files, in the order of load and condition.
  unfoldable pub discover : Result (List Recording)
  unfolding resolve_dirs parse_stem
  discover = do
    (vib_dir, tc_dir) ← resolve_dirs
    recordings ← parse_stems (common (files.stems vib_dir ".mat") (files.stems tc_dir ".tdms"))
    ok (sorted_by recording_lt recordings)
