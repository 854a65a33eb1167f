-- ===== src/Serving/Drift/Ring.antt =====
-- The ring buffer against the plain history of the readings since the last reset.
use edgesense_ai.Prelude.{
  ℕ, ◌+◌, ◌%◌, ◌≤◌, ◌<◌, ◌≡◌, ◌≢◌, ◌⊎◌, inl, inr, refl, sym, ◌∙◌, String, List, [], ◌∷◌, ◌++◌,
  length, get_elem?, get_elem?-append_left, get_elem?-append_last, get_elem?-set_self,
  get_elem?-set_ne, length-set, length-append, length-replicate, arith, max, set,
}
use mathlib.Core.List.{append-nil, append_assoc}
use native.Mathlib.Decide.{dec_lt}
use native.Mathlib.Nat.{mod-lt}
use edgesense_ai.Python.Error.{Result, ok, ◌>>=◌}
use edgesense_ai.Python.Number.{Float}
use edgesense_ai.Serving.Drift.{DriftTracker, new_tracker, observe, reset}

-- Two positions less than a window apart fall on different slots.
slots_differ : (w j n : ℕ) → 0 < w → j < n → n < j + w → j % w ≢ n % w
slots_differ w j n hw lt near e = grind arith

-- The last `window` readings of the history are in the buffer, each at its position modulo the window.
pub record IsRing {F : Type 0} (t : DriftTracker F) (history : List (List F)) : Type 0 where
  pub window_pos : 0 < t.window
  pub buf_length : length t.buf ≡ t.window
  pub counted : t.n ≡ length history
  pub recent :
      (j : ℕ) → j < t.n → t.n ≤ j + t.window → get_elem? t.buf (j % t.window) ≡ get_elem? history j

lt_or_eq : (j n : ℕ) → j < n + 1 → (j < n) ⊎ (j ≡ n)
lt_or_eq j n h = elim (dec_lt j n) [ yes p ↦ inl p | no p ↦ inr (omega arith) ]

-- A write at the next slot leaves the other recent readings where they are.
recent_after :
    {F : Type 0} (t : DriftTracker F) (row : List F) (history : List (List F))
    → IsRing t history
    → (j : ℕ) → (j < t.n) ⊎ (j ≡ t.n)
    → t.n + 1 ≤ j + t.window
    → get_elem? (set t.buf (t.n % t.window) row) (j % t.window) ≡ get_elem? (history ++ row ∷ []) j
recent_after t row history h j (inl lt) near =
    get_elem?-set_ne t.buf (t.n % t.window) (j % t.window) row
      (λ e. slots_differ t.window j t.n h.window_pos lt (omega arith) (sym e))
    ∙ h.recent j lt (omega arith)
    ∙ sym (get_elem?-append_left history (row ∷ []) j (omega (arith, h.counted)))
recent_after t row history h j (inr e) near =
    rw (e, h.counted)
      (get_elem?-set_self t.buf (length history % t.window) row
          (omega (arith, h.buf_length, mod-lt (length history) h.window_pos))
        ∙ sym (get_elem?-append_last history row))

module _ {F : Type 0} (fl : Float F) where
  pub new_tracker-IsRing :
      (features : List String) (m s : List F) (window min_samples : ℕ)
      → IsRing (new_tracker fl features m s window min_samples) []
  unfolding new_tracker
  new_tracker-IsRing features m s window min_samples = record {
    window_pos = omega arith;
    buf_length = length-replicate (max window 1) _;
    counted = refl;
    recent = λ j h _. elim h [ ];
  }

  pub reset-IsRing :
      (t : DriftTracker F) (m s : List F) (history : List (List F))
      → IsRing t history
      → IsRing (reset fl t m s) []
  unfolding reset
  reset-IsRing t m s history h = record {
    window_pos = h.window_pos;
    buf_length = h.buf_length;
    counted = refl;
    recent = λ j lt _. elim lt [ ];
  }

  -- What storing a row makes of the tracker.
  abbrev stored : DriftTracker F → List F → DriftTracker F
  stored t row = record t { buf = set t.buf (t.n % t.window) row; n = t.n + 1 }

  stored-IsRing :
      (t : DriftTracker F) (row : List F) (history : List (List F))
      → IsRing t history
      → IsRing (stored t row) (history ++ row ∷ [])
  stored-IsRing t row history h = record {
    window_pos = h.window_pos;
    buf_length = length-set t.buf (t.n % t.window) row ∙ h.buf_length;
    counted = omega (arith, h.counted, length-append history (row ∷ []));
    recent = λ j lt near. recent_after t row history h j (lt_or_eq j t.n lt) near;
  }

  observe_lem :
      (t : DriftTracker F) (x : List F)
      → length x ≡ length t.features
      → observe fl t x ≡ ok (stored t x)
  unfolding observe
  observe_lem t x h = ground arith

  abbrev pub observe_all : DriftTracker F → List (List F) → Result (DriftTracker F)
  observe_all t [] = ok t
  observe_all t (x ∷ xs) = observe fl t x >>= λ t'. observe_all t' xs

  -- Readings of the right length.
  abbrev pub Fit : ℕ → List (List F) → Type 0
  Fit width [] = Unit
  Fit width (x ∷ xs) = (length x ≡ width) × Fit width xs

  observe_all-IsRing :
      (t : DriftTracker F) (history xs : List (List F))
      → IsRing t history
      → Fit (length t.features) xs
      → (t' : DriftTracker F) × (observe_all t xs ≡ ok t')
        × IsRing t' (history ++ xs)
        × (t'.window ≡ t.window)
  observe_all-IsRing t history [] h fit = (t, refl, rw append-nil h, refl)
  observe_all-IsRing t history (x ∷ xs) h fit =
      let rest =
        observe_all-IsRing (stored t x) (history ++ x ∷ []) xs (stored-IsRing t x history h)
          fit.1 in
      (
        rest.0,
        rw (observe_lem t x fit.0) rest.1,
        rw (append_assoc history (x ∷ []) xs) at rest.2,
        rest.3,
      )

  -- From a fresh tracker, readings with one number for each feature are all stored, and the tracker
  -- then counts them all and holds, for each of the last `window` of them, the j-th reading at slot
  -- j modulo the window.
  pub window_is_recent_history :
      (features : List String) (m s : List F) (window min_samples : ℕ) (xs : List (List F))
      → Fit (length features) xs
      → (t' : DriftTracker F) × (observe_all (new_tracker fl features m s window min_samples) xs
          ≡ ok t')
        × (t'.window ≡ max window 1)
        × (t'.n ≡ length xs)
        × ((j : ℕ)
            → j < length xs
            → length xs ≤ j + t'.window
            → get_elem? t'.buf (j % t'.window) ≡ get_elem? xs j)
  unfolding new_tracker
  window_is_recent_history features m s window min_samples xs fit =
      let start = new_tracker-IsRing features m s window min_samples in
      let done =
        observe_all-IsRing (new_tracker fl features m s window min_samples) [] xs start fit in
      (
        done.0,
        done.1,
        done.3,
        done.2.counted,
        λ j lt near.
            done.2.recent j (omega (arith, done.2.counted)) (omega (arith, done.2.counted)),
      )
