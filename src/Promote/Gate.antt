-- ===== src/Promote/Gate.antt =====
-- ml/promote.py: the files that `run_gate` writes, and the exit code of `main`. What is printed is left
-- out.
pub mod Refusal
pub mod Outcome
use edgesense_ai.Prelude.{ℕ, String, Bool, true, false, Option, none, some, List}
use edgesense_ai.Python.Error.{Result, ok, err}
use edgesense_ai.Python.Number.{Float}
use edgesense_ai.Python.Json.{Fields, Content}
use edgesense_ai.Python.Format.{Format}
use edgesense_ai.Python.Files.{FilePath, Fs, Io, ask, pure, change, ◌>>=◌, ◌>>◌}
use edgesense_ai.Python.Files.Atomic.{write}
use edgesense_ai.Signing.{Crypto}
use edgesense_ai.Manifest.Save.{Pickle, Host, save_bundle}
use edgesense_ai.Scoring.{Bundle}
use edgesense_ai.Promote.Judge.{Calls, Arguments, Judgement, judge, is_empty_list}

module _ {F P Key PublicKey : Type 0} (c : Crypto F Key PublicKey) (h : Host F) (fmt : Format F)
    (calls : Calls F P) (args : Arguments F) where
  -- joblib, for the saves
  abbrev pub pickle : Pickle F (Bundle F P)
  pickle = record { dump = calls.dump; load = calls.load; manifest = λ b. b.manifest }

  abbrev pub candidate_path : FilePath
  candidate_path = record { parent = args.out_dir; name = "model.joblib" }

  abbrev pub report_path : FilePath
  report_path = record { parent = args.out_dir; name = "report.md" }

  -- The candidate and the report are always archived.
  unfoldable pub archive : Judgement F P → Io (Content F) Unit
  archive j =
      save_bundle c pickle h j.bundle candidate_path >> write report_path (h.encode j.report)

  -- A promotion replaces the champion; the exit code goes with the report.
  unfoldable pub promote : Bool → Judgement F P → Io (Content F) (ℕ × String)
  promote true j = save_bundle c pickle h j.bundle args.champion_path >> pure (0, j.report)
  promote false j = pure (1, j.report)

  -- `out_dir.mkdir` changes no file.
  unfoldable pub run_gate : Io (Content F) (ℕ × String)
  run_gate = do
    change (λ fs. fs)
    j ← ask (judge h.floats fmt calls args)
    archive j
    promote (is_empty_list j.failures) j

-- `main`: any exception is exit code 2.
unfoldable pub exit_code : Result (ℕ × String) → ℕ
exit_code (ok (code, report)) = code
exit_code (err e) = 2
