-- ===== src/Serving/Load.antt =====
-- inference/server.py: from an artifact to a state that may serve.
pub mod Admission
use edgesense_ai.Prelude.{
  ℕ, ◌+◌, String, Bool, true, false, not, Option, none, some, List, [], or_else, str_eq,
  if◌then◌else◌,
}
use edgesense_ai.Python.Error.{
  Result, ok, err, Error, verification, value_error, key_error, ◌>>=◌, or_raise, Refusal,
}
use edgesense_ai.Python.Number.{Float}
use edgesense_ai.Python.Json
use edgesense_ai.Python.Json.{Json, Fields, Content, get}
use edgesense_ai.Python.Files.{Fs, FilePath}
use edgesense_ai.Signing.{Crypto, Environ, Status}
use edgesense_ai.Signing.Verify.{verify_artifact}
use edgesense_ai.Scoring.{Bundle, Pipelines, kind_of}
use edgesense_ai.Serving.Validate.{validate_bundle}
use edgesense_ai.Serving.Metrics.{Metrics, count_status, count_rejected}

pub data Source : Type 0 where
  file registry : Source

-- `ChampionRef` of inference/registry.py
pub record ChampionRef : Type 0 where
  pub path : FilePath
  pub registry_version : String

pub record ModelState (F P : Type 0) : Type 0 where
  pub bundle : Bundle F P
  pub path : FilePath
  pub source : Source
  pub registry_version : Option String
  pub signature : Status
  pub features : List String
  pub model_version : String
  pub created_at : Option (Json F)

-- The files as a load finds them: `verify_artifact` reads the artifact, and `joblib.load` reads it again, when it may
-- have been replaced.
pub record Snapshots (F : Type 0) : Type 0 where
  pub at_check : Fs (Content F)
  pub at_load : Fs (Content F)

-- The surroundings of the sidecar: the libraries, the environment, the configured paths, and the call
-- of the registry; `configured` is `MODEL_SOURCE`, which may be any text. `joblib.load` may raise, and gives `none` for an object that is no dict.
pub record Site (F P Key PublicKey : Type 0) : Type 0 where
  pub floats : Float F
  pub crypto : Crypto F Key PublicKey
  pub env : Environ
  pub pipes : Pipelines F P
  pub default_guard : F
  pub joblib_load : Content F → Result (Option (Bundle F P))
  pub fetch_champion : Fs (Content F) → Result ChampionRef
  pub model_path : FilePath
  pub shadow_path : FilePath
  pub configured : String
  pub edges : List F
  pub eps : F
  pub now : String

-- `manifest.get("model_version", "unknown")`, with `bundle.get("manifest") or {}`
abbrev text_or_unknown : {F : Type 0} → Option (Json F) → String
text_or_unknown (some (Json.str s)) = s
text_or_unknown _ = "unknown"

module _ {F P : Type 0} where
  abbrev pub version_of : Bundle F P → String
  version_of b = elim b.manifest [
    | none ↦ "unknown"
    | some m ↦ text_or_unknown (get m "model_version")
  ]

  abbrev created_of : Bundle F P → Option (Json F)
  created_of b = elim b.manifest [ none ↦ none | some m ↦ get m "created_at" ]

  abbrev pub new_state : Bundle F P → FilePath → Source → Option String → Status → ModelState F P
  new_state bundle path source version signature = record {
    bundle = bundle;
    path = path;
    source = source;
    registry_version = version;
    signature = signature;
    features = elim bundle.features [ none ↦ [] | some fs ↦ fs ];
    model_version = version_of bundle;
    created_at = created_of bundle;
  }

  -- `_ModelState.drift_stats`
  unfoldable pub drift_stats : Pipelines F P → ModelState F P → Result (List F × List F)
  drift_stats pipes state =
      if str_eq (kind_of state.bundle) "autoencoder"
      then (do
        m ← or_raise state.bundle.scaler_mean key_error
        s ← or_raise state.bundle.scaler_scale key_error
        ok (m, s))
      else (do pipeline ← or_raise state.bundle.pipeline key_error; pipes.scaler pipeline)

module _ {F P Key PublicKey : Type 0} (site : Site F P Key PublicKey) where
  abbrev Checked : Type 0
  Checked = Result (Status × Option (Fields F))

  -- Which counter moves: `rejected` for a `VerificationError`, none for another exception.
  abbrev count_check : Checked → Metrics F → Metrics F
  count_check (ok (status, _)) m = record m { signatures = count_status status m.signatures }
  count_check (err (verification _)) m = record m { signatures = count_rejected m.signatures }
  count_check (err _) m = m

  -- `signing.verify_artifact(path)`
  unfoldable pub check_artifact : Fs (Content F) → FilePath → Checked
  check_artifact fs path = verify_artifact site.crypto site.env fs path none none

  -- `joblib.load(path)`
  abbrev open_artifact : Option (Content F) → Result (Option (Bundle F P))
  open_artifact none = err Error.os_error
  open_artifact (some content) = site.joblib_load content

  abbrev load_checked :
      Snapshots F → FilePath → Source → Option String → Checked → Result (ModelState F P)
  load_checked fs path source version (err e) = err e
  load_checked fs path source version (ok (status, _)) = do
    object ← open_artifact (fs.at_load path)
    bundle ← validate_bundle site.floats site.pipes site.default_guard object
    ok (new_state bundle path source version status)

  -- `_load_state`, with `_verify_artifact`
  unfoldable pub load_state :
      Snapshots F
      → FilePath
      → Source
      → Option String
      → Metrics F
      → Result (ModelState F P) × Metrics F
  load_state fs path source version m =
      let checked = check_artifact fs.at_check path in
      (load_checked fs path source version checked, count_check checked m)

  abbrev load_fetched :
      Snapshots F → Result ChampionRef → Metrics F → Result (ModelState F P) × Metrics F
  load_fetched fs (err e) m = (err e, m)
  load_fetched fs (ok ref) m = load_state fs ref.path registry (some ref.registry_version) m

  unfoldable pub load_registry_state : Snapshots F → Metrics F → Result (ModelState F P) × Metrics F
  load_registry_state fs m = load_fetched fs (site.fetch_champion fs.at_check) m

  unfoldable pub load_source_state :
      Source → Snapshots F → Metrics F → Result (ModelState F P) × Metrics F
  load_source_state registry fs m = load_registry_state fs m
  load_source_state file fs m = load_state fs site.model_path file none m

  abbrev pull_failed : Metrics F → Metrics F
  pull_failed m = record m { pulls_failed = m.pulls_failed + 1 }

  -- The `try` of `_initial_state`: only a `VerificationError` is raised again. The local bundle is read later.
  abbrev boot_from_registry :
      Snapshots F → Result (ModelState F P) → Metrics F → Result (ModelState F P) × Metrics F
  boot_from_registry later (ok state) m = (ok state, record m { pulls_ok = m.pulls_ok + 1 })
  boot_from_registry later (err (verification r)) m = (err (verification r), pull_failed m)
  boot_from_registry later (err _) m = load_state later site.model_path file none (pull_failed m)

  abbrev boot : Bool → Snapshots F → Snapshots F → Metrics F → Result (ModelState F P) × Metrics F
  boot false fs later m = load_state fs site.model_path file none m
  boot true fs later m = let (r, m') = load_registry_state fs m in boot_from_registry later r m'

  unfoldable pub initial_state :
      Snapshots F → Snapshots F → Metrics F → Result (ModelState F P) × Metrics F
  initial_state fs later m = boot (str_eq site.configured "registry") fs later m
