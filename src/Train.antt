-- ===== src/Train.antt =====
-- ml/train.py: the synthetic data and the legacy baseline. A data array is a matrix by columns; numpy's random generator
-- and its quantile are parameters, as are the two libraries that fit a model.
pub mod Fit
pub mod Layers
pub mod Bundles
pub mod Main
pub mod Steps
pub mod Publishable
pub mod Serves
use edgesense_ai.Prelude.{
  ℕ, ◌*◌, ◌-◌, ◌/◌, ◌+◌, zero, suc, String, List, [], ◌∷◌, ◌++◌, length, map,
}
use edgesense_ai.Python.Error.{Result}
use edgesense_ai.Python.Number.{Float}
use edgesense_ai.Scoring.{Matrix, zip_with}

-- The calls of numpy, with a generator in `R`: `normal(loc, scale, n)` and `uniform(low, high, n)` give the samples and the
-- generator after them. `digest` is the SHA-256 of an array's bytes.
pub record Numpy (F R : Type 0) : Type 0 where
  pub default_rng : ℕ → R
  pub normal : R → F → F → ℕ → List F × R
  pub uniform : R → F → F → ℕ → List F × R
  pub quantile : List F → F → Result F
  pub digest : Matrix F → String

-- The rows of a matrix with `n` rows, from its columns.
abbrev pub firsts : {F : Type 0} → List (List F) → List F
firsts [] = []
firsts ([] ∷ cs) = firsts cs
firsts ((x ∷ xs) ∷ cs) = x ∷ firsts cs

abbrev pub rests : {F : Type 0} → List (List F) → List (List F)
rests [] = []
rests ([] ∷ cs) = [] ∷ rests cs
rests ((x ∷ xs) ∷ cs) = xs ∷ rests cs

unfoldable pub rows_of : {F : Type 0} → ℕ → List (List F) → List (List F)
rows_of zero cs = []
rows_of (suc n) cs = firsts cs ∷ rows_of n (rests cs)

-- `w.T`
unfoldable pub transpose : {F : Type 0} → Matrix F → Matrix F
transpose m = record { rows = length m.columns; columns = rows_of m.rows m.columns }

-- `np.vstack` of two matrices with as many columns.
abbrev append_columns : {F : Type 0} → List (List F) → List (List F) → List (List F)
append_columns (c ∷ cs) (d ∷ ds) = (c ++ d) ∷ append_columns cs ds
append_columns _ _ = []

abbrev vstack : {F : Type 0} → Matrix F → Matrix F → Matrix F
vstack a b = record { rows = a.rows + b.rows; columns = append_columns a.columns b.columns }

module _ {F R : Type 0} (fl : Float F) (np : Numpy F R) where
  -- A decimal literal, correctly rounded.
  abbrev pub dec : ℕ → ℕ → F
  dec a b = fl.div (fl.of_nat a) (fl.of_nat b)

  -- `np.clip(xs, 0, None)`
  abbrev clip : List F → List F
  clip xs = map (λ x. fl.maximum x fl.zero) xs

  -- `base + rng.normal(0, std, n)`
  abbrev around : F → F → ℕ → R → List F × R
  around base std n rng =
      let (xs, rng') = np.normal rng fl.zero std n in (map (fl.add base) xs, rng')

  unfoldable pub normal_data : ℕ → R → Matrix F × R
  normal_data n rng =
      let (vib, r1) = around (dec 8 10) (dec 15 100) n rng in
      let (temp, r2) = around (dec 45 1) (dec 12 10) n r1 in
      let (cur, r3) = around (dec 12 1) (dec 6 10) n r2 in
      (record { rows = n; columns = clip vib ∷ temp ∷ clip cur ∷ [] }, r3)

  -- `(base + rng.normal(0, std, n)) * rng.uniform(low, high, n)`
  abbrev scaled : F → F → F → F → ℕ → R → List F × R
  scaled base std low high n rng =
      let (xs, r1) = around base std n rng in
      let (factors, r2) = np.uniform r1 low high n in (zip_with fl fl.mul xs factors, r2)

  -- `base + rng.normal(0, std, n) + rng.uniform(low, high, n)`
  abbrev shifted : F → F → F → F → ℕ → R → List F × R
  shifted base std low high n rng =
      let (xs, r1) = around base std n rng in
      let (offsets, r2) = np.uniform r1 low high n in (zip_with fl fl.add xs offsets, r2)

  abbrev bearing_data : ℕ → R → Matrix F × R
  bearing_data n rng =
      let (vib, r1) = scaled (dec 8 10) (dec 15 100) (dec 3 1) (dec 5 1) n rng in
      let (temp, r2) = around (dec 45 1) (dec 12 10) n r1 in
      let (cur, r3) = scaled (dec 12 1) (dec 6 10) (dec 11 10) (dec 125 100) n r2 in
      (record { rows = n; columns = vib ∷ temp ∷ cur ∷ [] }, r3)

  abbrev overheat_data : ℕ → R → Matrix F × R
  overheat_data n rng =
      let (vib, r1) = around (dec 8 10) (dec 15 100) n rng in
      let (temp, r2) = shifted (dec 45 1) (dec 12 10) (dec 15 1) (dec 30 1) n r1 in
      let (cur, r3) = around (dec 12 1) (dec 6 10) n r2 in
      (record { rows = n; columns = vib ∷ temp ∷ cur ∷ [] }, r3)

  abbrev overload_data : ℕ → R → Matrix F × R
  overload_data n rng =
      let (vib, r1) = scaled (dec 8 10) (dec 15 100) (dec 14 10) (dec 18 10) n rng in
      let (temp, r2) = around (dec 45 1) (dec 12 10) n r1 in
      let (cur, r3) = scaled (dec 12 1) (dec 6 10) (dec 16 10) (dec 20 10) n r2 in
      (record { rows = n; columns = vib ∷ temp ∷ cur ∷ [] }, r3)

  unfoldable pub fault_data : ℕ → R → Matrix F × R
  fault_data n rng =
      let third = n / 3 in
      let rest = n - 2 * third in
      let (bearing, r1) = bearing_data third rng in
      let (overheat, r2) = overheat_data third r1 in
      let (overload, r3) = overload_data rest r2 in (vstack bearing (vstack overheat overload), r3)
