-- ===== src/Serving/Handlers/Reload.antt =====
-- What the requests keep: an invariant of every run of the sidecar.
use edgesense_ai.Prelude.{◌≡◌, Option, none, some, List, [], ◌∷◌, String}
use edgesense_ai.Signing.{verified}
use edgesense_ai.Serving.Shadow.{ShadowTracker}
use edgesense_ai.Serving.Metrics.{Metrics}
use edgesense_ai.Serving.Load.{Site, Snapshots, ModelState}
use edgesense_ai.Serving.Load.Admission.{IsAdmitted}
use edgesense_ai.Serving.Handlers.{Sidecar, Reading, score}
use edgesense_ai.Serving.Handlers.Requests.{reload_model, shadow_load, shadow_unload}

module _ {F P Key PublicKey : Type 0} (site : Site F P Key PublicKey) where
  -- A state that came from a verified artifact: at some load, the file at its path was verified, an envelope attesting it,
  -- and its bundle was then read from that path and passed validation.
  pub record IsAttested (state : ModelState F P) : Type 0 where
    pub files : Snapshots F
    pub admitted : IsAdmitted site files state
    pub reports : state.signature ≡ verified

  -- The models that a sidecar holds, its shadow's included, came from verified artifacts.
  abbrev ShadowVerified : Option (ModelState F P × ShadowTracker F) → Type 0
  ShadowVerified none = Unit
  ShadowVerified (some (state, _)) = IsAttested state

  pub record IsVerified (sc : Sidecar F P) : Type 0 where
    pub champion : IsAttested sc.state
    pub challenger : ShadowVerified sc.shadow

  -- A request to the sidecar, with the files as it finds them.
  pub data Request : Type 0 where
    score_request : Reading F → Request
    reload_request : Option String → Snapshots F → Request
    shadow_load_request : Snapshots F → Request
    shadow_unload_request : Request

  abbrev pub handle : Request → Sidecar F P → Sidecar F P
  handle (score_request reading) sc = (score site reading sc).1
  handle (reload_request source fs) sc = (reload_model site source fs sc).1
  handle (shadow_load_request fs) sc = (shadow_load site fs sc).1
  handle shadow_unload_request sc = (shadow_unload site sc).1

  abbrev pub serve : List Request → Sidecar F P → Sidecar F P
  serve [] sc = sc
  serve (r ∷ rs) sc = serve rs (handle r sc)
