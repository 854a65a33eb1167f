-- ===== src/Evaluate.antt =====
-- ml/evaluate.py: fault episodes from the simulator, and how a bundle scores on them. A generator of
-- random numbers is what its seed and the number of the step give.
pub mod Episodes
pub mod Sorting
pub mod Bounds
use edgesense_ai.Prelude.{
  ℕ, zero, suc, ◌+◌, ◌*◌, ◌/◌, String, Bool, true, false, Option, none, some, List, [], ◌∷◌, Dict,
  lookup, insert, length, get_elem?, or_else, str_eq, leb, ◌==◌, is_none, if◌then◌else◌,
}
use edgesense_ai.Python.Error.{
  Result, ok, err, ◌>>=◌, or_raise, key_error, index_error, zero_division,
}
use edgesense_ai.Python.Number.{Float}
use edgesense_ai.Scoring.{Bundle, Pipelines, Reason, model, limit, model_limit, score_sample}
use edgesense_ai.Simulator.{Machine, Draws, SensorReading, step, start_fault}
use edgesense_ai.Promote.{FaultResult, Results}

-- `FAULT_TYPES`
abbrev pub fault_types : List String
fault_types = "bearing_fault" ∷ "overheat" ∷ "overload" ∷ []

abbrev pub reason_text : Option Reason → String
reason_text none = "None"
reason_text (some model) = "model"
reason_text (some limit) = "limit"
reason_text (some model_limit) = "model+limit"

-- `latencies.sort()`
abbrev pub insort : ℕ → List ℕ → List ℕ
insort x [] = x ∷ []
insort x (y ∷ ys) = let rest = insort x ys in if leb x y then x ∷ y ∷ ys else y ∷ rest

abbrev pub sort : List ℕ → List ℕ
sort [] = []
sort (x ∷ xs) = insort x (sort xs)

abbrev pub increment : String → Dict ℕ → Dict ℕ
increment k d = insert k (or_else (lookup k d) 0 + 1) d

-- The counts of one fault type.
pub record Tally : Type 0 where
  pub latencies : List ℕ
  pub detected : ℕ
  pub hits : ℕ
  pub total : ℕ
  pub reasons : Dict ℕ

-- What `evaluate` returns for one fault type.
pub record FaultEval (F : Type 0) : Type 0 where
  pub result : FaultResult F
  pub p90_latency : Option ℕ
  pub reasons : Dict ℕ

pub record Evaluation (F : Type 0) : Type 0 where
  pub faults : Dict (FaultEval F)
  pub healthy : ℕ
  pub fp : ℕ
  pub fp_rate : F

-- The arguments of `evaluate`, the generators, and `int(n * 0.9)`.
pub record Settings (F : Type 0) : Type 0 where
  pub episodes : ℕ
  pub ticks : ℕ
  pub healthy : ℕ
  pub seed : ℕ
  pub draws : ℕ → ℕ → Draws F
  pub ninety_percent : ℕ → ℕ

-- One reading of an episode: the tally and the first hit.
abbrev pub count_reading : ℕ → Bool × Option Reason → Tally × Option ℕ → Tally × Option ℕ
count_reading i (true, reason) (t, first_hit) = (
  record t {
    hits = t.hits + 1;
    total = t.total + 1;
    reasons = increment (reason_text reason) t.reasons;
  },
  some (or_else first_hit i),
)
count_reading i (false, reason) (t, first_hit) = (record t { total = t.total + 1 }, first_hit)

abbrev pub close_episode : Tally × Option ℕ → Tally
close_episode (t, none) = t
close_episode (t, some i) = record t { detected = t.detected + 1; latencies = i ∷ t.latencies }

abbrev pub item_at : List ℕ → ℕ → Result (Option ℕ)
item_at [] i = ok none
item_at (x ∷ xs) i = do v ← or_raise (get_elem? (x ∷ xs) i) index_error; ok (some v)

abbrev pub empty_tally : Tally
empty_tally = record { latencies = []; detected = 0; hits = 0; total = 0; reasons = [] }

abbrev pub readings_or_none :
    {F : Type 0} → Option (List (SensorReading F)) → List (SensorReading F)
readings_or_none none = []
readings_or_none (some rs) = rs

module _ {F : Type 0} (fl : Float F) where
  abbrev pub new_machine : String → Machine F
  new_machine machine_id = record {
    machine_id = machine_id;
    temperature = fl.of_nat 45;
    vibration = fl.div (fl.of_nat 8) (fl.of_nat 10);
    current = fl.of_nat 12;
    fault = none;
    fault_ticks_left = 0;
  }

  -- Steps whose readings are discarded.
  abbrev warm_up : ℕ → (ℕ → Draws F) → ℕ → Machine F → Machine F
  warm_up zero draws i m = m
  warm_up (suc n) draws i m = warm_up n draws (i + 1) (step fl fl.zero (draws i) m).1

  abbrev pub out_of_fuel : Option String → Option (List (SensorReading F))
  out_of_fuel none = some []
  out_of_fuel (some fault) = none

  abbrev pub one_round :
      Option String
      → SensorReading F
      → Option (List (SensorReading F))
      → Option (List (SensorReading F))
  one_round none reading rest = some []
  one_round (some fault) reading none = none
  one_round (some fault) reading (some rs) = some (reading ∷ rs)

  -- `while machine.fault is not None`; `none` means that the fuel ran out.
  unfoldable pub while_faulty : ℕ → (ℕ → Draws F) → ℕ → Machine F → Option (List (SensorReading F))
  while_faulty zero draws i m = out_of_fuel m.fault
  while_faulty (suc fuel) draws i m =
      let (reading, m') = step fl fl.zero (draws i) m in
      let rest = while_faulty fuel draws (i + 1) m' in one_round m.fault reading rest

  -- The fuel is the number of ticks that the fault is given.
  unfoldable pub episode_readings : String → ℕ → (ℕ → Draws F) → Option (List (SensorReading F))
  episode_readings fault ticks draws =
      let m = start_fault fault ticks (warm_up 5 draws 0 (new_machine "eval")) in
      while_faulty m.fault_ticks_left draws 5 m

  -- `reading[f]`; the keys of a reading that are no signals count as missing.
  abbrev pub signal_at : SensorReading F → String → Result F
  signal_at r f =
      if str_eq f "vibration"
      then ok r.vibration
      else if str_eq f "temperature"
      then ok r.temperature
      else if str_eq f "current"
      then ok r.current
      else err key_error

  unfoldable pub signals_of : SensorReading F → List String → Result (List F)
  signals_of r [] = ok []
  signals_of r (f ∷ fs) = do x ← signal_at r f; xs ← signals_of r fs; ok (x ∷ xs)

  -- `a / b`
  abbrev pub ratio : ℕ → ℕ → Result F
  ratio a b = if b == 0 then err zero_division else ok (fl.div (fl.of_nat a) (fl.of_nat b))

  abbrev pub recall : ℕ → ℕ → F
  recall hits total = if total == 0 then fl.zero else fl.div (fl.of_nat hits) (fl.of_nat total)

  -- The summary of the tally of one fault.
  unfoldable pub close_fault : Settings F → Tally → Result (FaultEval F)
  close_fault s t = do
    let latencies = sort t.latencies
    rate ← ratio t.detected s.episodes
    median ← item_at latencies (length latencies / 2)
    p90 ← item_at latencies (s.ninety_percent (length latencies))
    ok (record {
      result = record {
        episodes = s.episodes;
        detected = t.detected;
        episode_rate = rate;
        median_latency = median;
        reading_recall = recall t.hits t.total;
      };
      p90_latency = p90;
      reasons = t.reasons;
    })

  module _ {P : Type 0} (pipes : Pipelines F P) (default_guard : F) (bundle : Bundle F P)
      (features : List String) where
    unfoldable pub flag : SensorReading F → Result (Bool × Option Reason)
    flag reading = do
      x ← signals_of reading features
      scored ← score_sample fl pipes default_guard bundle x
      ok (scored.1, scored.2)

    unfoldable pub count_readings :
        ℕ → List (SensorReading F) → Tally × Option ℕ → Result (Tally × Option ℕ)
    count_readings i [] acc = ok acc
    count_readings i (r ∷ rs) acc = do
      flagged ← flag r
      count_readings (i + 1) rs (count_reading i flagged acc)

    -- The loop over the episodes of a fault, of which `n` are left. The order of the latencies is lost
    -- when they are sorted.
    unfoldable pub run_episodes : Settings F → String → ℕ → ℕ → ℕ → Tally → Result Tally
    run_episodes s fault fi zero ep t = ok t
    run_episodes s fault fi (suc n) ep t = do
      counted ←
          count_readings 0
            (readings_or_none
              (episode_readings fault s.ticks (s.draws (s.seed * 1000 + fi * 101 + ep))))
            (t, none)
      run_episodes s fault fi n (ep + 1) (close_episode counted)

    unfoldable pub evaluate_faults : Settings F → ℕ → List String → Result (Dict (FaultEval F))
    evaluate_faults s fi [] = ok []
    evaluate_faults s fi (fault ∷ faults) = do
      t ← run_episodes s fault fi s.episodes 0 empty_tally
      e ← close_fault s t
      rest ← evaluate_faults s (fi + 1) faults
      ok ((fault, e) ∷ rest)

    -- The healthy run: the readings that are flagged.
    unfoldable pub count_false : (ℕ → Draws F) → ℕ → ℕ → Machine F → ℕ → Result ℕ
    count_false draws zero i m fp = ok fp
    count_false draws (suc n) i m fp = do
      let (reading, m') = step fl fl.zero (draws i) m
      flagged ← flag reading
      count_false draws n (i + 1) m' (if flagged.0 then fp + 1 else fp)

  unfoldable pub evaluate :
      {P : Type 0} → Pipelines F P → F → Settings F → Bundle F P → Result (Evaluation F)
  evaluate pipes default_guard s bundle = do
    features ← or_raise bundle.features key_error
    faults ← evaluate_faults pipes default_guard bundle features s 0 fault_types
    fp ←
        count_false pipes default_guard bundle features (s.draws s.seed) s.healthy 0
          (new_machine "eval-healthy") 0
    fp_rate ← ratio fp s.healthy
    ok (record { faults = faults; healthy = s.healthy; fp = fp; fp_rate = fp_rate })

-- What the promotion gate reads of an evaluation.
abbrev gate_faults : {F : Type 0} → Dict (FaultEval F) → Dict (FaultResult F)
gate_faults [] = []
gate_faults ((fault, e) ∷ es) = (fault, e.result) ∷ gate_faults es

unfoldable pub gate_results : {F : Type 0} → Evaluation F → Results F
gate_results e = record { faults = gate_faults e.faults; healthy_fp_rate = e.fp_rate }
