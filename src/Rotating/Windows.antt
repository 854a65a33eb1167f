-- ===== src/Rotating/Windows.antt =====
-- ml/rotating.py: `reduce_to_readings`, from the channels of a recording to readings.
use edgesense_ai.Prelude.{
  ℕ, zero, suc, ◌/◌, min, String, Bool, true, false, List, [], ◌∷◌, ◌++◌, map, length, take, Dict,
  lookup, ltb, ◌==◌, not, if◌then◌else◌,
}
use edgesense_ai.Python.Error.{
  Result, ok, err, ◌>>=◌, ◌>>◌, or_raise, raise_if, key_error, value_error, runtime_error,
  zero_division,
}
use edgesense_ai.Python.Number.{Float, ℤ, to_nat}
use edgesense_ai.Scoring.{mean, square}

abbrev pub vibration_channels : List String
vibration_channels =
    "x_direction_housing_A" ∷ "y_direction_housing_A" ∷ "x_direction_housing_B"
    ∷ "y_direction_housing_B" ∷ []

abbrev pub temperature_channels : List String
temperature_channels = "Temperature_housing_A" ∷ "Temperature_housing_B" ∷ []

abbrev pub current_channels : List String
current_channels = "U-phase" ∷ "V-phase" ∷ "W-phase" ∷ []

-- The two rates, and `int(round(x))`.
pub record Rates (F : Type 0) : Type 0 where
  pub sample_rate : F
  pub reading_rate : F
  pub int_round : F → Result ℤ

abbrev pub concat : {A : Type 0} → List (List A) → List A
concat [] = []
concat (xs ∷ xss) = xs ++ concat xss

abbrev drop : {A : Type 0} → ℕ → List A → List A
drop zero xs = xs
drop (suc n) [] = []
drop (suc n) (x ∷ xs) = drop n xs

-- The `n` windows of `size` samples; a window holds its samples of each channel.
abbrev pub windows : {F : Type 0} → ℕ → ℕ → List (List F) → List (List (List F))
windows zero size channels = []
windows (suc n) size channels = map (take size) channels ∷ windows n size (map (drop size) channels)

abbrev pub window_count : ℕ → ℕ → ℕ → ℕ → ℕ
window_count a b c size = min a (min b c) / size

-- `arr.shape[1]`
abbrev pub samples : {F : Type 0} → List (List F) → ℕ
samples [] = 0
samples (c ∷ cs) = length c

abbrev same_lengths : {F : Type 0} → ℕ → List (List F) → Bool
same_lengths n [] = true
same_lengths n (c ∷ cs) = if length c == n then same_lengths n cs else false

abbrev pub column_stack : {F : Type 0} → List F → List F → List F → List (List F)
column_stack (v ∷ vs) (t ∷ ts) (c ∷ cs) = (v ∷ t ∷ c ∷ []) ∷ column_stack vs ts cs
column_stack _ _ _ = []

module _ {F : Type 0} where
  abbrev keep_channel : List F → List (List F) → List (List F)
  keep_channel [] rest = rest
  keep_channel (x ∷ xs) rest = (x ∷ xs) ∷ rest

  -- The channels that hold samples.
  unfoldable pub present : Dict (List F) → List String → Result (List (List F))
  present mapping [] = ok []
  present mapping (c ∷ cs) = do
    samples_of ← or_raise (lookup c mapping) key_error
    rest ← present mapping cs
    ok (keep_channel samples_of rest)

  abbrev vstack_of : List (List F) → Result (List (List F))
  vstack_of [] = err runtime_error
  vstack_of (a ∷ as') = raise_if (not (same_lengths (length a) as')) value_error >> ok (a ∷ as')

  unfoldable pub stack : Dict (List F) → List String → Result (List (List F))
  unfolding present
  stack mapping channels = present mapping channels >>= vstack_of

module _ {F : Type 0} (fl : Float F) where
  -- The root of the mean square.
  abbrev rms : List F → F
  rms xs = fl.sqrt (mean fl (map (square fl) xs))

  abbrev pub vibration_level : List (List F) → F
  vibration_level channels = rms (concat channels)

  abbrev pub temperature_level : List (List F) → F
  temperature_level channels = mean fl (concat channels)

  -- Each phase by itself, then their mean.
  abbrev pub current_level : List (List F) → F
  current_level channels = mean fl (map rms channels)

  -- `sample_rate / reading_rate`
  abbrev pub window_size : Rates F → Result ℕ
  window_size rates = do
    raise_if (fl.eq rates.reading_rate fl.zero) zero_division
    size ← rates.int_round (fl.div rates.sample_rate rates.reading_rate)
    raise_if (ltb (to_nat size) 1) value_error
    ok (to_nat size)

  unfoldable pub reduce_to_readings :
      Rates F → Dict (List F) → Dict (List F) → Result (List (List F))
  unfolding stack
  reduce_to_readings rates vibration temp_current = do
    size ← window_size rates
    vib ← stack vibration vibration_channels
    temp ← stack temp_current temperature_channels
    cur ← stack temp_current current_channels
    let n = window_count (samples vib) (samples temp) (samples cur) size
    raise_if (ltb n 1) runtime_error
    ok (
        column_stack (map vibration_level (windows n size vib))
          (map temperature_level (windows n size temp)) (map current_level (windows n size cur)))
