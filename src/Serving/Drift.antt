-- ===== src/Serving/Drift.antt =====
-- inference/drift.py: the rolling window of the readings that were scored.
pub mod Ring
use edgesense_ai.Prelude.{
  ℕ, suc, ◌+◌, ◌%◌, min, max, String, Bool, true, false, ◌&&◌, not, Option, none, some, List, [],
  ◌∷◌, ◌++◌, length, map, set, take, replicate, ltb, ◌==◌, if◌then◌else◌, Dict,
}
use edgesense_ai.Python.Error.{Result, ok, err, value_error, ◌>>=◌}
use edgesense_ai.Python.Number.{Float}
use edgesense_ai.Scoring.{only, mean, standardize}

pub record DriftTracker (F : Type 0) : Type 0 where
  pub features : List String
  pub window : ℕ
  pub min_samples : ℕ
  pub train_mean : List F
  pub train_scale : List F
  pub buf : List (List F)
  pub n : ℕ

pub record Signal (F : Type 0) : Type 0 where
  pub feature : String
  pub zshift : F
  pub psi : F

-- `DEFAULT_WINDOW` and `MIN_SAMPLES`
abbrev pub default_window : ℕ
default_window = 500

abbrev pub default_min_samples : ℕ
default_min_samples = 50

module _ {F : Type 0} (fl : Float F) where
  -- `np.where(scale == 0, 1.0, scale)`
  abbrev pub nonzero_scale : List F → List F
  nonzero_scale = map (λ s. if fl.eq s fl.zero then fl.one else s)

  unfoldable pub new_tracker : List String → List F → List F → ℕ → ℕ → DriftTracker F
  new_tracker features train_mean train_scale window min_samples =
      let w = max window 1 in
      record {
        features = features;
        window = w;
        min_samples = min min_samples w;
        train_mean = train_mean;
        train_scale = nonzero_scale train_scale;
        buf = replicate w (replicate (length features) fl.zero);
        n = 0;
      }

  -- The row that an assignment stores: numpy repeats a vector of one item.
  abbrev pub row_for : ℕ → List F → Result (List F)
  row_for width arr =
      if length arr == width
      then ok arr
      else elim (only fl arr) [ some x ↦ ok (replicate width x) | none ↦ err value_error ]

  unfoldable pub observe : DriftTracker F → List F → Result (DriftTracker F)
  observe t x = do
    row ← row_for (length t.features) x
    ok (record t { buf = set t.buf (t.n % t.window) row; n = t.n + 1 })

  unfoldable pub reset : DriftTracker F → List F → List F → DriftTracker F
  reset t train_mean train_scale = record t {
    train_mean = train_mean;
    train_scale = nonzero_scale train_scale;
    n = 0;
  }

  abbrev pub size : DriftTracker F → ℕ
  size t = min t.n t.window

  -- `np.histogram` over bins that are closed on the left, with open tails.
  abbrev pub count_if : (F → Bool) → List F → ℕ
  count_if p [] = 0
  count_if p (z ∷ zs) = (if p z then 1 else 0) + count_if p zs

  abbrev inner_counts : F → List F → List F → List ℕ
  inner_counts low [] zs = count_if (λ z. fl.le low z) zs ∷ []
  inner_counts low (high ∷ edges) zs =
      count_if (λ z. fl.le low z && fl.lt z high) zs ∷ inner_counts high edges zs

  unfoldable pub histogram : List F → List F → List ℕ
  histogram [] zs = length zs ∷ []
  histogram (e ∷ edges) zs = count_if (λ z. fl.lt z e) zs ∷ inner_counts e edges zs

  abbrev normal_cdf : F → F
  normal_cdf x =
      fl.mul (fl.div fl.one (fl.of_nat 2))
        (fl.add fl.one (fl.erf (fl.div x (fl.sqrt (fl.of_nat 2)))))

  abbrev cdf_steps : F → List F → List F
  cdf_steps low [] = fl.sub fl.one (normal_cdf low) ∷ []
  cdf_steps low (high ∷ edges) = fl.sub (normal_cdf high) (normal_cdf low) ∷ cdf_steps high edges

  unfoldable pub expected_bin_probs : List F → List F
  expected_bin_probs [] = fl.one ∷ []
  expected_bin_probs (e ∷ edges) = normal_cdf e ∷ cdf_steps e edges

  abbrev psi_sum : F → ℕ → List ℕ → List F → F → F
  psi_sum eps size' (c ∷ counts) (p ∷ probs) acc =
      let actual = fl.maximum (fl.div (fl.of_nat c) (fl.of_nat (max size' 1))) eps in
      let expected = fl.maximum p eps in
      psi_sum eps size' counts probs
        (fl.add acc (fl.mul (fl.sub actual expected) (fl.ln (fl.div actual expected))))
  psi_sum eps size' _ _ acc = acc

  -- `edges` is `_EDGES` and `eps` is `_EPS`.
  unfoldable pub psi : List F → F → List F → F
  unfolding histogram expected_bin_probs
  psi edges eps zs = psi_sum eps (length zs) (histogram edges zs) (expected_bin_probs edges) fl.zero

  abbrev standardize_rows : List F → List F → List (List F) → Result (List (List F))
  standardize_rows m s [] = ok []
  standardize_rows m s (r ∷ rs) = do
    z ← standardize fl r m s
    zs ← standardize_rows m s rs
    ok (z ∷ zs)

  -- `z[:, 0]` and the columns behind it
  abbrev heads : List (List F) → List F
  heads [] = []
  heads ([] ∷ rows) = heads rows
  heads ((x ∷ _) ∷ rows) = x ∷ heads rows

  abbrev tails : List (List F) → List (List F)
  tails [] = []
  tails ([] ∷ rows) = [] ∷ tails rows
  tails ((_ ∷ xs) ∷ rows) = xs ∷ tails rows

  abbrev feature_signals : List F → F → List String → List (List F) → List (Signal F)
  feature_signals edges eps [] zs = []
  feature_signals edges eps (f ∷ fs) zs =
      record { feature = f; zshift = mean fl (heads zs); psi = psi edges eps (heads zs) }
      ∷ feature_signals edges eps fs (tails zs)

  unfoldable pub signals : List F → F → DriftTracker F → Result (List (Signal F))
  signals edges eps t = if ltb (size t) t.min_samples then ok [] else (do
    zs ← standardize_rows t.train_mean t.train_scale (take (size t) t.buf)
    ok (feature_signals edges eps t.features zs))
