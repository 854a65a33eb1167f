-- ===== src/Serving/Load/Admission.antt =====
-- What was checked of a state before it may serve.
use edgesense_ai.Prelude.{◌≡◌, refl, true, Option, none, some, ◌+◌, String}
use edgesense_ai.Python.Error.{Result, ok, err, verification, type_error, bind_ok, Refusal}
use edgesense_ai.Python.Json.{Fields}
use edgesense_ai.Python.Files.{FilePath}
use edgesense_ai.Signing.{Status, verified, truthy}
use edgesense_ai.Signing.Verify.Soundness.{required_verified}
use edgesense_ai.Scoring.{Bundle}
use edgesense_ai.Serving.Validate.{validate_bundle}
use edgesense_ai.Serving.Metrics.{Metrics}
use edgesense_ai.Serving.Load.{
  Site, Snapshots, ModelState, ChampionRef, Source, file, registry, check_artifact, open_artifact,
  new_state, load_checked, load_state, load_registry_state, load_source_state, load_fetched,
  initial_state,
}

module _ {F P Key PublicKey : Type 0} (site : Site F P Key PublicKey) where
  -- The file at a state's path was verified with the status that the state carries, and its bundle was then read from
  -- the file at that path and passed validation.
  pub record IsAdmitted (fs : Snapshots F) (state : ModelState F P) : Type 0 where
    pub envelope : Option (Fields F)
    pub checked : check_artifact site fs.at_check state.path ≡ ok (state.signature, envelope)
    pub object : Option (Bundle F P)
    pub opened : open_artifact site (fs.at_load state.path) ≡ ok object
    pub validated :
        validate_bundle site.floats site.pipes site.default_guard object ≡ ok state.bundle

  load_checked-IsAdmitted :
      (fs : Snapshots F) (path : FilePath) (source : Source) (version : Option String)
      (checked : Result (Status × Option (Fields F))) (state : ModelState F P)
      → check_artifact site fs.at_check path ≡ checked
      → load_checked site fs path source version checked ≡ ok state
      → IsAdmitted fs state
  load_checked-IsAdmitted fs path source version (err e) state hc h = cc
  load_checked-IsAdmitted fs path source version (ok (status, envelope)) state hc h =
      let object = bind_ok (open_artifact site (fs.at_load path)) _ h in
      let bundle =
        bind_ok (validate_bundle site.floats site.pipes site.default_guard object.0) _ object.2 in
      let same : new_state bundle.0 path source version status ≡ state = cc (bundle.2) in
      rw (← same) (record {
        envelope = envelope;
        checked = hc;
        object = object.0;
        opened = object.1;
        validated = bundle.1;
      })

  pub load_state-IsAdmitted :
      (fs : Snapshots F) (path : FilePath) (source : Source) (version : Option String)
      (m : Metrics F) (state : ModelState F P)
      → (load_state site fs path source version m).0 ≡ ok state
      → IsAdmitted fs state
  unfolding load_state
  load_state-IsAdmitted fs path source version m state h =
      load_checked-IsAdmitted fs path source version (check_artifact site fs.at_check path) state
        refl h

  load_fetched-IsAdmitted :
      (fs : Snapshots F) (fetched : Result ChampionRef) (m : Metrics F) (state : ModelState F P)
      → (load_fetched site fs fetched m).0 ≡ ok state
      → IsAdmitted fs state
  load_fetched-IsAdmitted fs (err e) m state h = cc
  load_fetched-IsAdmitted fs (ok ref) m state h =
      load_state-IsAdmitted fs ref.path registry (some ref.registry_version) m state h

  -- Whatever source a state is loaded from, the file at its path was verified with the status that the state
  -- reports, and its bundle is what was then read from that path and passed validation.
  pub load_source_state-IsAdmitted :
      (source : Source) (fs : Snapshots F) (m : Metrics F) (state : ModelState F P)
      → (load_source_state site source fs m).0 ≡ ok state
      → IsAdmitted fs state
  unfolding load_source_state load_registry_state
  load_source_state-IsAdmitted file fs m state h =
      load_state-IsAdmitted fs site.model_path file none m state h
  load_source_state-IsAdmitted registry fs m state h =
      load_fetched-IsAdmitted fs (site.fetch_champion fs.at_check) m state h

  -- With signatures required by the environment, an admitted state is a verified one.
  pub IsAdmitted-verified :
      (fs : Snapshots F) (state : ModelState F P)
      → truthy site.env.require_signature ≡ true
      → IsAdmitted fs state
      → state.signature ≡ verified
  unfolding check_artifact
  IsAdmitted-verified fs state hr a =
      required_verified site.crypto site.env fs.at_check state.path none none state.signature
        a.envelope hr a.checked

  -- At boot from the registry, a fetched artifact that fails verification stops the process with that
  -- refusal, counts a failed pull and a rejected check, and is never replaced by the local bundle.
  pub boot_refuses :
      (fs later : Snapshots F) (m : Metrics F) (ref : ChampionRef) (r : Refusal)
      → site.configured ≡ "registry"
      → site.fetch_champion fs.at_check ≡ ok ref
      → check_artifact site fs.at_check ref.path ≡ err (verification r)
      → let (result, m') = initial_state site fs later m in
        (result ≡ err (verification r))
        × (m'.pulls_failed ≡ m.pulls_failed + 1)
        × (m'.signatures.rejected_total ≡ m.signatures.rejected_total + 1)
        × (m'.pulls_ok ≡ m.pulls_ok)
  unfolding initial_state load_registry_state load_state check_artifact
  boot_refuses fs later m ref r hc hf hv = rw (hc, hf, hv) (refl, refl, refl, refl)

  -- A check that raises `TypeError` instead, as it does for a key id that is a list or an object, makes
  -- the process serve what the local bundle gives, as an unreachable registry would.
  pub boot_falls_back :
      (fs later : Snapshots F) (m : Metrics F) (ref : ChampionRef)
      → site.configured ≡ "registry"
      → site.fetch_champion fs.at_check ≡ ok ref
      → check_artifact site fs.at_check ref.path ≡ err type_error
      → (initial_state site fs later m).0 ≡ (load_state site later site.model_path file none m).0
  unfolding initial_state load_registry_state load_state check_artifact
  boot_falls_back fs later m ref hc hf hv = rw (hc, hf, hv)
