-- ===== src/Lib.antt =====
-- EdgeSense AI scores machine sensor readings at the edge with an anomaly model. This library models the
-- Python code that decides which model may serve and what it answers.
--
-- The parts and their files:
--   ml/signing.py        Signing, Signing/Keys, Signing/Envelope and Signing/Verify: a signature
--                        sidecar beside each model, and `verify_artifact` before a model is opened.
--                        Signing/Cli and Signing/Verdict: the commands and their exit codes.
--   ml/manifest.py       Manifest/Build, Manifest/Card and Manifest/Save: `save_bundle` writes the model,
--                        its signature, its manifest and its model card, each by a temporary file and a
--                        rename.
--   ml/scoring.py        Scoring: the autoencoder and `score_sample` with its reasons.
--   inference/server.py  Serving/Validate (`_validate_bundle`), Serving/Load (`_ModelState`,
--                        `_verify_artifact`, `_load_state`, `_initial_state`), Serving/Handlers (the
--                        request /score) and Serving/Handlers/Requests (/reload and /shadow, with
--                        `_swap_state`).
--   inference/drift.py, inference/shadow.py, inference/metrics.py
--                        Serving/Drift, Serving/Shadow and Serving/Metrics: what a sidecar counts.
--   ml/train.py          Train (the data), Train/Fit (the backends), Train/Bundles (`build_bundle`, the
--                        training runs, `validate`) and Train/Main.
--   ml/evaluate.py       Evaluate: fault episodes from the simulator and what a bundle scores on them.
--   ml/promote.py        Promote (the criteria), Promote/Report (`render_report`), Promote/Judge (what
--                        `run_gate` finds out) and Promote/Gate (what it writes, and the exit code).
--   ml/export_onnx.py    Onnx: the graph that `build_onnx` composes; Onnx/Run says how a runtime runs it.
--   inference/registry.py and the tagging of ml/register_model.py
--                        Registry: the champion that the model registry names, and its download.
--   simulator/simulate.py  Simulator: the faults of one simulated machine; Simulator/Topics and
--                        Simulator/Control: the topics and `apply_control`, with the command that
--                        mcp_server/server.py and scripts/demo.py publish.
--   mcp_server/server.py, dashboard/app.py, scripts/demo.py
--                        Listeners: what each listener keeps of the messages.
--   ml/rotating.py       Rotating (the recordings), Rotating/Windows (`reduce_to_readings`) and
--                        Rotating/Dataset (`load_dataset`): the rotating-machine dataset.
--   edgesense-azure/ml/score.py  Azure: the scoring of the managed endpoint.
-- Saving a model calls signing; the sidecar verifies, opens and validates a model, and then scores with
-- it; a reload or a shadow takes the same way from an artifact to a state. Training makes the bundles
-- that are saved, exported, evaluated and served; the gate evaluates a challenger against the champion and
-- saves it in the champion's place when no criterion fails.
--
-- How it is modelled. Python holds what Python gives: JSON values, exceptions as `Error` in a `Result`,
-- and files. A `World` is a file system, a list that says which of the next writes raise, and the states
-- that another process could have seen; a writing call takes a world and returns a result with the next
-- world, so that a save can stop at any of its writes. A sidecar is a record (`Sidecar`), a handler
-- takes it to its answer and the next one, as one step: the server's lock serializes reloads and shadow
-- swaps, not scoring, and a score that runs while a reload swaps is not modelled. A load reads the artifact
-- twice, to verify it and to open it, and may find another file the second time (`Snapshots`). What was
-- assigned before an exception stays assigned. Functions by clauses stand for loops. They
-- recurse on a list or on a number of rounds, with three that take fuel: `while_faulty` of Evaluate, whose
-- fuel is the number of ticks of the fault, since each step takes one off; `batches` of Train/Fit, whose
-- fuel is the number of items, since each batch takes at least one; and `decimal` of Python/Format, whose
-- fuel is one more than the number that it prints, since each division makes it smaller.
--
-- Parameters: the floats (`Float`, with no law assumed), Ed25519, SHA-256, base64 and JSON parsing
-- (`Crypto`), joblib (`Pickle`, and `joblib_load` of `Site`), scikit-learn pipelines (`Pipelines`), the
-- registry (the call `fetch_champion` for the sidecar, MLflow's `Client` for that call itself), numpy's
-- generator and quantile (`Numpy`), the optimisers (`Regressor`, `Torch`, `Fitters`), the operators of ONNX
-- (`Operators`), the printing of floats (`Format`), `int` and `repr` (`Conversions`), git (`GitRun`) and the
-- calls of the gate (`Calls`). What is used of the cryptography is in `IsSound`: a signature verifies with
-- the public half of its key, and base64 decodes the signature that it encoded. What is used of the
-- operators is in `IsOnnx`, and of the fitting in `NumpyShapes` and `FitterShapes`: the shapes that numpy,
-- scikit-learn and PyTorch document.
--
-- Not modelled: argparse and what the programs print, `onnx_parity` of ml/promote.py (a call of the gate),
-- the report that ml/evaluate.py prints, the readers of MATLAB and TDMS files of ml/rotating.py
-- (parameters, `DataFiles`), the benchmarks, the page of the dashboard, the HTTP calls of the command
-- server, the scenario loop of the demo and the other scripts, and the Go services.
pub mod Prelude
pub mod Python
pub mod Signing
pub mod Manifest
pub mod Scoring
pub mod Serving
pub mod Registry
pub mod Promote
pub mod Simulator
pub mod Evaluate
pub mod Train
pub mod Onnx
pub mod Listeners
pub mod Azure
pub mod Rotating
pub mod Tests
