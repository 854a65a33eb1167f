-- ===== src/Simulator.antt =====
-- simulator/simulate.py: the topics and one simulated machine. The random numbers that a step draws are
-- its argument.
pub mod Faults
pub mod Topics
pub mod Control
use edgesense_ai.Prelude.{
  ℕ, ◌+◌, ◌-◌, max, String, ◌<>◌, Bool, true, false, ◌&&◌, ◌||◌, not, Option, none, some, List, [],
  ◌∷◌, str_eq, leb, if◌then◌else◌, is_none, or_else,
}
use edgesense_ai.Python.Number.{Float}

abbrev non_empty : Option String → Bool
non_empty none = false
non_empty (some s) = not (str_eq s "")

-- `value or 'default'`
abbrev or_default : Option String → String
or_default o = if non_empty o then or_else o "default" else "default"

unfoldable pub sensor_topic : Option String → Option String → String → String
sensor_topic org site machine_id =
    if non_empty org || non_empty site
    then "es/" <> or_default org <> "/" <> or_default site <> "/" <> machine_id <> "/sensors"
    else "edgesense/sensors/" <> machine_id

-- `CONTROL_TOPIC`
abbrev control_topic : String
control_topic = "edgesense/control/fault"

unfoldable pub control_filter : Option String → Option String → String
control_filter org site =
    if non_empty org || non_empty site
    then "es/" <> or_default org <> "/" <> or_default site <> "/+/control"
    else control_topic

pub record Machine (F : Type 0) : Type 0 where
  pub machine_id : String
  pub temperature : F
  pub vibration : F
  pub current : F
  pub fault : Option String
  pub fault_ticks_left : ℕ

-- What one step draws, in the order of the calls: whether a fault starts, which and how long, the noise,
-- and the two factors of a fault.
pub record Draws (F : Type 0) : Type 0 where
  pub random : F
  pub choice : String
  pub ticks : ℕ
  pub temperature_noise : F
  pub vibration_noise : F
  pub current_noise : F
  pub first_factor : F
  pub second_factor : F

pub record SensorReading (F : Type 0) : Type 0 where
  pub vibration : F
  pub temperature : F
  pub current : F
  pub fault_injected : Option String

-- The count of an active fault goes down, and at the last one the fault ends.
abbrev pub tick : Option String → ℕ → Option String × ℕ
tick none left = (none, left)
tick (some fault) left = (if leb left 1 then none else some fault, left - 1)

module _ {F : Type 0} where
  unfoldable pub start_fault : String → ℕ → Machine F → Machine F
  start_fault fault ticks m = record m { fault = some fault; fault_ticks_left = max 1 ticks }

module _ {F : Type 0} (fl : Float F) where
  abbrev pub maybe_start_fault : F → Draws F → Machine F → Machine F
  maybe_start_fault anomaly_prob d m =
      if is_none m.fault && fl.lt d.random anomaly_prob then start_fault d.choice d.ticks m else m

  -- Temperature, vibration and current under the active fault.
  abbrev shaped : Option String → ℕ → Draws F → F → F → F → F × F × F
  shaped none left d temp vib cur = (temp, vib, cur)
  shaped (some fault) left d temp vib cur =
      if str_eq fault "bearing_fault"
      then (temp, fl.mul vib d.first_factor, fl.mul cur d.second_factor)
      else if str_eq fault "overheat"
      then (let progress = fl.sub fl.one (fl.div (fl.of_nat left) (fl.of_nat 40)) in
          (fl.add temp (fl.add (fl.of_nat 15) (fl.mul (fl.of_nat 15) progress)), vib, cur))
      else if str_eq fault "overload"
      then (temp, fl.mul vib d.second_factor, fl.mul cur d.first_factor)
      else (temp, vib, cur)

  -- `max(x, 0.0)`
  abbrev at_least_zero : F → F
  at_least_zero x = if fl.lt x fl.zero then fl.zero else x

  unfoldable pub step : F → Draws F → Machine F → SensorReading F × Machine F
  step anomaly_prob d m =
      let started = maybe_start_fault anomaly_prob d m in
      let values =
        shaped started.fault started.fault_ticks_left d (fl.add (fl.of_nat 45) d.temperature_noise)
          (fl.add (fl.div (fl.of_nat 8) (fl.of_nat 10)) d.vibration_noise)
          (fl.add (fl.of_nat 12) d.current_noise) in
      let next = tick started.fault started.fault_ticks_left in
      (
        record {
          vibration = fl.round (at_least_zero values.1) 4;
          temperature = fl.round values.0 2;
          current = fl.round (at_least_zero values.2) 3;
          fault_injected = started.fault;
        },
        record started {
          temperature = values.0;
          vibration = at_least_zero values.1;
          current = at_least_zero values.2;
          fault = next.0;
          fault_ticks_left = next.1;
        },
      )
