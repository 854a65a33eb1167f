-- ===== src/Tests/Evaluation.antt =====
-- An evaluation of two episodes for each fault.
use edgesense_ai.Prelude.{ℕ, ◌*◌, ◌/◌, ◌≡◌, ◌≤◌, refl, true, some, List, All, map, length}
use edgesense_ai.Python.Error.{ok, is_ok, total_of}
use edgesense_ai.Scoring.{Bundle}
use edgesense_ai.Simulator.{SensorReading}
use edgesense_ai.Evaluate.{Settings, Evaluation, evaluate, episode_readings, fault_types}
use edgesense_ai.Evaluate.Episodes.{episode_readings_lem}
use edgesense_ai.Evaluate.Bounds.{FaultBounds, evaluate_bounds}
use edgesense_ai.Tests.Instances.{floats, bundle, pipes}
use edgesense_ai.Tests.Simulation.{draws}

abbrev settings : Settings ℕ
settings = record {
  episodes = 2;
  ticks = 3;
  healthy = 2;
  seed = 7;
  draws = λ seed i. draws;
  ninety_percent = λ n. n * 9 / 10;
}

evaluate_runs : is_ok (evaluate floats pipes 6 settings bundle) ≡ true
unfolding evaluate edgesense_ai.Evaluate.evaluate_faults edgesense_ai.Evaluate.run_episodes
    edgesense_ai.Evaluate.count_readings episode_readings edgesense_ai.Evaluate.while_faulty
    edgesense_ai.Simulator.start_fault edgesense_ai.Simulator.step edgesense_ai.Evaluate.flag
    edgesense_ai.Evaluate.signals_of edgesense_ai.Scoring.score_sample
    edgesense_ai.Scoring.model_verdict edgesense_ai.Scoring.reconstruction_error
    edgesense_ai.Scoring.standardize edgesense_ai.Scoring.broadcast
    edgesense_ai.Scoring.ae_reconstruct edgesense_ai.Scoring.forward
    edgesense_ai.Evaluate.close_fault edgesense_ai.Evaluate.count_false
    edgesense_ai.Scoring.limit_check edgesense_ai.Scoring.matmul edgesense_ai.Scoring.reason_of
evaluate_runs = refl

-- What the evaluation gives here.
evaluated : (e : Evaluation ℕ) × (evaluate floats pipes 6 settings bundle ≡ ok e)
evaluated = total_of (evaluate floats pipes 6 settings bundle) evaluate_runs

evaluate_bounds_example :
    (map (λ r. r.0) evaluated.0.faults ≡ fault_types)
    × All (λ r. FaultBounds floats settings r.1) evaluated.0.faults
    × (evaluated.0.healthy ≡ 2)
    × (evaluated.0.fp ≤ 2)
evaluate_bounds_example = evaluate_bounds floats pipes 6 bundle settings evaluated.0 evaluated.1

episode_readings_lem_example :
    (rs : List (SensorReading ℕ)) × (episode_readings floats "overheat" 3 (λ i. draws) ≡ some rs)
    × (length rs ≡ 3)
    × All (λ r. r.fault_injected ≡ some "overheat") rs
episode_readings_lem_example = episode_readings_lem floats "overheat" 3 (λ i. draws)
