-- ===== src/Simulator/Faults.antt =====
-- How long an injected fault shapes the readings.
use edgesense_ai.Prelude.{
  ℕ, suc, ◌<◌, ◌≡◌, refl, sym, ap, ◌∙◌, max, String, none, some, List, [], ◌∷◌, length, arith, All,
  ◌-◌, Bool-cases, inl, inr, str_eq, eq_iff, if◌then◌else◌,
}
use edgesense_ai.Python.Number.{Float}
use edgesense_ai.Simulator.{
  Machine, Draws, SensorReading, start_fault, step, tick, shaped, at_least_zero,
}

pub tick_more : (fault : String) (n : ℕ) → tick (some fault) (suc (suc n)) ≡ (some fault, suc n)
tick_more fault n = ground arith

module _ {F : Type 0} (fl : Float F) (anomaly_prob : F) where
  -- The readings of the steps, and the machine after them.
  abbrev pub run : List (Draws F) → Machine F → List (SensorReading F) × Machine F
  run [] m = ([], m)
  run (d ∷ ds) m =
      let (reading, m') = step fl anomaly_prob d m in
      let (readings, last) = run ds m' in (reading ∷ readings, last)

  pub step_active :
      (d : Draws F) (m : Machine F) (fault : String)
      → m.fault ≡ some fault
      → let r = step fl anomaly_prob d m in
        (r.0.fault_injected ≡ some fault)
        × (r.1.fault ≡ (tick (some fault) m.fault_ticks_left).0)
        × (r.1.fault_ticks_left ≡ (tick (some fault) m.fault_ticks_left).1)
  unfolding step
  step_active d m fault h = rw h (refl, refl, refl)

  -- The values of a reading under a fault, signal by signal: a worn bearing scales vibration and current, an overheating
  -- machine is warmer by 15 degrees and up to 15 more as the fault goes on, an overload scales current and vibration.
  abbrev vibration_of : String → Draws F → F
  vibration_of fault d =
      let healthy = fl.add (fl.div (fl.of_nat 8) (fl.of_nat 10)) d.vibration_noise in
      if str_eq fault "bearing_fault"
      then fl.mul healthy d.first_factor
      else if str_eq fault "overload"
      then fl.mul healthy d.second_factor
      else healthy

  abbrev temperature_of : String → ℕ → Draws F → F
  temperature_of fault left d =
      let healthy = fl.add (fl.of_nat 45) d.temperature_noise in
      let progress = fl.sub fl.one (fl.div (fl.of_nat left) (fl.of_nat 40)) in
      if str_eq fault "overheat"
      then fl.add healthy (fl.add (fl.of_nat 15) (fl.mul (fl.of_nat 15) progress))
      else healthy

  abbrev current_of : String → Draws F → F
  current_of fault d =
      let healthy = fl.add (fl.of_nat 12) d.current_noise in
      if str_eq fault "bearing_fault"
      then fl.mul healthy d.second_factor
      else if str_eq fault "overload"
      then fl.mul healthy d.first_factor
      else healthy

  abbrev pub faulty_reading : String → ℕ → Draws F → SensorReading F
  faulty_reading fault left d = record {
    vibration = fl.round (at_least_zero fl (vibration_of fault d)) 4;
    temperature = fl.round (temperature_of fault left d) 2;
    current = fl.round (at_least_zero fl (current_of fault d)) 3;
    fault_injected = some fault;
  }

  -- One reading for each tick that is left.
  abbrev pub faulty_readings : String → ℕ → List (Draws F) → List (SensorReading F)
  faulty_readings fault left [] = []
  faulty_readings fault left (d ∷ ds) =
      faulty_reading fault left d ∷ faulty_readings fault (left - 1) ds

  shaped_lem :
      (fault : String) (left : ℕ) (d : Draws F)
      → shaped fl
          (some fault)
          left
          d
          (fl.add (fl.of_nat 45) d.temperature_noise)
          (fl.add (fl.div (fl.of_nat 8) (fl.of_nat 10)) d.vibration_noise)
          (fl.add (fl.of_nat 12) d.current_noise)
        ≡ (temperature_of fault left d, vibration_of fault d, current_of fault d)
  shaped_lem fault left d = elim (Bool-cases (str_eq fault "bearing_fault")) [
    | inl e ↦ rw ((eq_iff fault "bearing_fault").0 e) refl
    | inr e ↦ elim (Bool-cases (str_eq fault "overheat")) [
      | inl k ↦ rw ((eq_iff fault "overheat").0 k) refl
      | inr k ↦ elim (Bool-cases (str_eq fault "overload")) [
        | inl j ↦ rw (e, k, j) refl
        | inr j ↦ rw (e, k, j) refl
      ]
    ]
  ]

  step_reading :
      (d : Draws F) (m : Machine F) (fault : String)
      → m.fault ≡ some fault
      → (step fl anomaly_prob d m).0 ≡ faulty_reading fault m.fault_ticks_left d
  unfolding step
  step_reading d m fault h = rw (h, shaped_lem fault m.fault_ticks_left d) refl

  countdown :
      (ds : List (Draws F)) (m : Machine F) (fault : String) (left : ℕ)
      → m.fault ≡ some fault
      → m.fault_ticks_left ≡ left
      → left ≡ length ds
      → 0 < length ds
      → let r = run ds m in (r.0 ≡ faulty_readings fault left ds) × (r.1.fault ≡ none)
  countdown [] m fault left h e l lt = absurd (omega arith)
  countdown (d ∷ []) m fault left h e l lt =
      let s = step_active d m fault h in
      let reading = step_reading d m fault h ∙ ap (λ n. faulty_reading fault n d) e in
      (ap (λ r. r ∷ []) reading, s.1 ∙ ap (λ n. (tick (some fault) n).0) (e ∙ l))
  countdown (d ∷ c ∷ ds) m fault left h e l lt =
      let s = step_active d m fault h in
      let more = tick_more fault (length ds) in
      let reading = step_reading d m fault h ∙ ap (λ n. faulty_reading fault n d) e in
      let next : suc (length ds) ≡ left - 1 = omega (arith, l) in
      let rest =
        countdown (c ∷ ds) (step fl anomaly_prob d m).1 fault (left - 1)
          (s.1 ∙ ap (λ n. (tick (some fault) n).0) (e ∙ l) ∙ ap (λ p. p.0) more)
          (s.2 ∙ ap (λ n. (tick (some fault) n).1) (e ∙ l) ∙ ap (λ p. p.1) more ∙ next) (sym next)
          (omega arith) in
      (
        ap (λ r. r ∷ (run (c ∷ ds) (step fl anomaly_prob d m).1).0) reading
            ∙ ap (λ rs. faulty_reading fault left d ∷ rs) rest.0,
        rest.1,
      )

  -- A fault that is injected for some ticks, at least one, shapes exactly the next readings of that number, whatever is
  -- drawn: each is labelled with the fault and has the values that the fault gives it, and the fault is then over.
  pub injected_fault_lasts :
      (ds : List (Draws F)) (m : Machine F) (fault : String) (ticks : ℕ)
      → length ds ≡ max 1 ticks
      → let r = run ds (start_fault fault ticks m) in
        (r.0 ≡ faulty_readings fault (max 1 ticks) ds) × (r.1.fault ≡ none)
  unfolding start_fault
  injected_fault_lasts ds m fault ticks h =
      countdown ds (start_fault fault ticks m) fault (max 1 ticks) refl refl (sym h)
        (omega (arith, h))

  readings_labelled :
      (fault : String) (left : ℕ) (ds : List (Draws F))
      → All (λ reading. reading.fault_injected ≡ some fault) (faulty_readings fault left ds)
  readings_labelled fault left [] = tt
  readings_labelled fault left (d ∷ ds) = (refl, readings_labelled fault (left - 1) ds)

  -- The labels alone.
  pub injected_fault_labels :
      (ds : List (Draws F)) (m : Machine F) (fault : String) (ticks : ℕ)
      → length ds ≡ max 1 ticks
      → let r = run ds (start_fault fault ticks m) in
        All (λ reading. reading.fault_injected ≡ some fault) r.0 × (r.1.fault ≡ none)
  injected_fault_labels ds m fault ticks h =
      let (readings, over) = injected_fault_lasts ds m fault ticks h in
      (rw readings (readings_labelled fault (max 1 ticks) ds), over)
