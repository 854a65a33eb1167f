-- ===== src/Tests/Simulation.antt =====
-- A machine with an injected fault of two ticks.
use edgesense_ai.Prelude.{ℕ, ◌≡◌, refl, none, [], ◌∷◌}
use edgesense_ai.Simulator.{Machine, Draws, start_fault}
use edgesense_ai.Simulator.Faults.{run, faulty_readings, injected_fault_lasts}
use edgesense_ai.Tests.Instances.{floats}

abbrev pub draws : Draws ℕ
draws = record {
  random = 0;
  choice = "overload";
  ticks = 20;
  temperature_noise = 1;
  vibration_noise = 1;
  current_noise = 1;
  first_factor = 2;
  second_factor = 2;
}

abbrev pub machine : Machine ℕ
machine = record {
  machine_id = "machine-01";
  temperature = 45;
  vibration = 1;
  current = 12;
  fault = none;
  fault_ticks_left = 0;
}

injected_fault_lasts_example :
    let r = run floats 1 (draws ∷ draws ∷ []) (start_fault "overheat" 2 machine) in
    (r.0 ≡ faulty_readings floats 1 "overheat" 2 (draws ∷ draws ∷ [])) × (r.1.fault ≡ none)
injected_fault_lasts_example =
    injected_fault_lasts floats 1 (draws ∷ draws ∷ []) machine "overheat" 2 refl
