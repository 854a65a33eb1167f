-- ===== src/Tests/Control.antt =====
-- A command to one machine of two.
use edgesense_ai.Prelude.{
  ℕ, ◌≡◌, ◌≢◌, refl, ap, String, true, none, some, [], ◌∷◌, Dict, lookup, str_eq, All,
}
use edgesense_ai.Python.Error.{ok, err, value_error}
use edgesense_ai.Python.Number.{pos}
use edgesense_ai.Simulator.{Machine, sensor_topic}
use edgesense_ai.Simulator.Faults.{run}
use edgesense_ai.Simulator.Topics.{
  control_machine_id, machine_control_topic, is_reading_topic, sensor_topic-reading,
}
use edgesense_ai.Simulator.Control.{Conversions, apply_control, fault_command}
use edgesense_ai.Simulator.Control.Scope.{apply_control-scope, published_fault_arrives}
use edgesense_ai.Tests.Instances.{floats}
use edgesense_ai.Tests.Simulation.{draws, machine}
use edgesense_ai.Tests.Signing.{false_ne}

abbrev conversions : Conversions ℕ
conversions = record {
  int_of_float = λ x. ok (pos x);
  int_of_text = λ s. err value_error;
  repr = λ v. "?";
}

abbrev fleet : Dict (Machine ℕ)
fleet = ("m1", machine) ∷ ("m2", machine) ∷ []

abbrev first_name : String
first_name = "m1"

abbrev second_name : String
second_name = "m2"

names_differ : first_name ≢ second_name
names_differ e = false_ne (ap (λ s. str_eq s "m2") e)

abbrev overheated : Dict (Machine ℕ)
overheated =
    ("m1", record machine { fault = some "overheat"; fault_ticks_left = 2 }) ∷ ("m2", machine) ∷ []

-- The payload names the other machine.
apply_control-scope_example : lookup "m2" overheated ≡ lookup "m2" fleet
unfolding apply_control edgesense_ai.Simulator.Control.command_machine
    edgesense_ai.Simulator.start_fault
apply_control-scope_example =
    apply_control-scope conversions fleet overheated (some (fault_command "m2" "overheat" 2))
      first_name "control: machine-01 -> overheat" second_name refl refl names_differ

sensor_topic-reading_example : is_reading_topic (sensor_topic (some "acme") none "m1") ≡ true
sensor_topic-reading_example =
    sensor_topic-reading (some "acme") none "m1" (refl, (refl, (refl, (refl, tt)))) tt
      (refl, (refl, tt))

published_fault_arrives_example :
    (log : String) × (after : Dict (Machine ℕ)) × (apply_control conversions fleet
        (some (fault_command "m1" "overheat" 2))
        (control_machine_id (machine_control_topic (some "acme") none "m1"))
      ≡ ok (log, after))
    × ((started : Machine ℕ) × (lookup "m1" after ≡ some started)
        × All
            (λ reading. reading.fault_injected ≡ some "overheat")
            (run floats 1 (draws ∷ draws ∷ []) started).0
        × ((run floats 1 (draws ∷ draws ∷ []) started).1.fault ≡ none))
published_fault_arrives_example =
    published_fault_arrives conversions floats 1 (draws ∷ draws ∷ []) fleet (some "acme") none "m1"
      "overheat" 2 machine (refl, (refl, (refl, (refl, tt)))) tt (refl, (refl, tt)) refl refl refl
      refl
