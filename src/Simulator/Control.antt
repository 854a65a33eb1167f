-- ===== src/Simulator/Control.antt =====
-- simulator/simulate.py: `apply_control`, and the command that scripts/demo.py and mcp_server/server.py publish.
pub mod Scope
use edgesense_ai.Prelude.{
  ℕ, String, ◌<>◌, Bool, true, false, Option, none, some, List, [], ◌∷◌, Dict, lookup, insert,
  str_eq, str_in, or_else, if◌then◌else◌,
}
use edgesense_ai.Python.Error.{Result, ok, err, ◌>>=◌, or_raise, type_error, value_error}
use edgesense_ai.Python.Number.{ℤ, pos, to_nat}
use edgesense_ai.Python.Json
use edgesense_ai.Python.Json.{Json, Fields, end, field, get, as_object, is_hashable, is_text}
use edgesense_ai.Simulator.{Machine, start_fault, non_empty}
use edgesense_ai.Evaluate.{fault_types}

-- `int` of a float and of a text, and `repr`.
pub record Conversions (F : Type 0) : Type 0 where
  pub int_of_float : F → Result ℤ
  pub int_of_text : String → Result ℤ
  pub repr : Option (Json F) → String

module _ {F : Type 0} (conv : Conversions F) where
  -- `int(value)`
  abbrev pub to_int : Json F → Result ℤ
  to_int (Json.int i) = ok i
  to_int (Json.bool true) = ok (pos 1)
  to_int (Json.bool false) = ok (pos 0)
  to_int (Json.float x) = conv.int_of_float x
  to_int (Json.str s) = conv.int_of_text s
  to_int _ = err type_error

  -- `machine_id or cmd.get("machine_id", "")`
  abbrev pub target_of : Option String → Fields F → Json F
  target_of machine_id cmd =
      if non_empty machine_id
      then Json.str (or_else machine_id "")
      else or_else (get cmd "machine_id") (Json.str "")

  -- `machines.get(target)`; a target without a hash raises.
  abbrev pub machine_at : Dict (Machine F) → Json F → Result (Option (String × Machine F))
  machine_at machines (Json.str s) =
      ok (elim (lookup s machines) [ none ↦ none | some m ↦ some (s, m) ])
  machine_at machines (Json.arr xs) = err type_error
  machine_at machines (Json.obj d) = err type_error
  machine_at machines _ = ok none

  abbrev pub fault_named : Option (Json F) → Option String
  fault_named (some (Json.str s)) = if str_in s fault_types then some s else none
  fault_named _ = none

  -- The fault to start, if it is a known one.
  abbrev pub start_named :
      Fields F
      → String
      → Machine F
      → Dict (Machine F)
      → Option String
      → Result (String × Dict (Machine F))
  start_named cmd key m machines none =
      ok ("control: ignored (unknown fault " <> (conv.repr (get cmd "fault") <> ")"), machines)
  start_named cmd key m machines (some fault) = do
    ticks ← to_int (or_else (get cmd "ticks") (Json.int (pos 30)))
    ok (
      "control: " <> (m.machine_id <> (" -> " <> fault)),
      insert key (start_fault fault (to_nat ticks) m) machines,
    )

  -- What a command does to the machine that stands under `key`.
  unfoldable pub command_machine :
      Fields F → String → Machine F → Dict (Machine F) → Result (String × Dict (Machine F))
  command_machine cmd key m machines =
      if is_text (get cmd "fault") "clear"
      then ok (
        "control: " <> (m.machine_id <> " cleared"),
        insert key (record m { fault = none; fault_ticks_left = 0 }) machines,
      )
      else start_named cmd key m machines (fault_named (get cmd "fault"))

  abbrev pub command_found :
      Fields F
      → Json F
      → Dict (Machine F)
      → Option (String × Machine F)
      → Result (String × Dict (Machine F))
  command_found cmd target machines none =
      ok ("control: ignored (unknown machine " <> (conv.repr (some target) <> ")"), machines)
  command_found cmd target machines (some (key, m)) = command_machine cmd key m machines

  abbrev pub command_parsed :
      Dict (Machine F) → Option String → Option (Fields F) → Result (String × Dict (Machine F))
  command_parsed machines machine_id none = ok ("control: ignored (bad JSON)", machines)
  command_parsed machines machine_id (some cmd) = do
    let target = target_of machine_id cmd
    found ← machine_at machines target
    command_found cmd target machines found

  abbrev pub parsed_command : Option (Json F) → Option (Fields F)
  parsed_command none = none
  parsed_command (some v) = as_object v

  -- The payload is what `json.loads` gives, or `none` where it raises. The log line and the fleet.
  unfoldable pub apply_control :
      Dict (Machine F) → Option (Json F) → Option String → Result (String × Dict (Machine F))
  apply_control machines payload machine_id =
      command_parsed machines machine_id (parsed_command payload)

module _ {F : Type 0} where
  -- The payload of a command, as the demo and the command server write it.
  abbrev pub fault_command : String → String → ℕ → Json F
  fault_command machine fault ticks = Json.obj (
      field "machine_id" (Json.str machine)
        (field "fault" (Json.str fault) (field "ticks" (Json.int (pos ticks)) end)))

  -- `inject_fault` of the command server: what it publishes, and where; the reply repeats it.
  unfoldable pub inject_fault : String → String → ℕ → Result (String × Json F)
  inject_fault machine fault ticks =
      if str_in fault ("bearing_fault" ∷ "overheat" ∷ "overload" ∷ "clear" ∷ [])
      then ok ("edgesense/control/fault", fault_command machine fault ticks)
      else err value_error
