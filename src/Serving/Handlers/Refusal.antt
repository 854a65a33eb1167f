-- ===== src/Serving/Handlers/Refusal.antt =====
-- What a refused reload leaves as it was.
use edgesense_ai.Prelude.{ℕ, ◌≡◌, ◌≢◌, refl, Option, none, some, String}
use edgesense_ai.Python.Error.{Result, ok, err}
use edgesense_ai.Serving.Metrics.{Metrics}
use edgesense_ai.Serving.Load.{Site, Snapshots, ModelState, Source, load_source_state}
use edgesense_ai.Serving.Handlers.{Sidecar, refused}
use edgesense_ai.Serving.Handlers.Requests.{
  reload_model, reload_from, loaded_for_reload, finish_reload, swap_state, requested_source,
}

module _ {F P Key PublicKey : Type 0} (site : Site F P Key PublicKey) where
  finish_reload-ne :
      (source : Source) (old new : ModelState F P) (p : Result (Unit {0}) × Sidecar F P)
      (status : ℕ)
      → (finish_reload site source old new p).0 ≢ refused status
  finish_reload-ne source old new (err e, sc) status h = cc
  finish_reload-ne source old new (ok _, sc) status h = cc

  -- Two sidecars serve alike: the same model, drift window and shadow.
  abbrev pub SameService : Sidecar F P → Sidecar F P → Type 0
  SameService sc sc' = (sc'.state ≡ sc.state) × (sc'.drift ≡ sc.drift) × (sc'.shadow ≡ sc.shadow)

  loaded_refused :
      (source : Source) (r : Result (ModelState F P)) (m : Metrics F) (sc : Sidecar F P)
      (status : ℕ)
      → (loaded_for_reload site source r m sc).0 ≡ refused status
      → SameService sc (loaded_for_reload site source r m sc).1
  loaded_refused source (err e) m sc status h = (refl, refl, refl)
  loaded_refused source (ok new) m sc status h = absurd (
      finish_reload-ne source sc.state new (swap_state site new (record sc { metrics = m })) status
        h)

  reload_from_refused :
      (o : Option Source) (fs : Snapshots F) (sc : Sidecar F P) (status : ℕ)
      → (reload_from site o fs sc).0 ≡ refused status
      → SameService sc (reload_from site o fs sc).1
  reload_from_refused none fs sc status h = (refl, refl, refl)
  reload_from_refused (some source) fs sc status h =
      let (r, m) = load_source_state site source fs sc.metrics in
      loaded_refused source r m sc status h

  -- A reload that is refused leaves the served model, the drift window and the shadow as they were.
  pub reload_refused_keeps :
      (source : Option String) (fs : Snapshots F) (sc : Sidecar F P) (status : ℕ)
      → (reload_model site source fs sc).0 ≡ refused status
      → SameService sc (reload_model site source fs sc).1
  unfolding reload_model
  reload_refused_keeps source fs sc status h =
      reload_from_refused (requested_source site source) fs sc status h
