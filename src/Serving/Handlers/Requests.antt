-- ===== src/Serving/Handlers/Requests.antt =====
-- inference/server.py: the requests that exchange a model, /reload and those of /shadow, with `_swap_state`.
use edgesense_ai.Prelude.{
  ◌+◌, String, Bool, true, false, Option, none, some, List, if◌then◌else◌, str_eq, codes_eq, codes,
  strip_lower,
}
use edgesense_ai.Python.Error.{Result, ok, err}
use edgesense_ai.Python.Files.{FilePath}
use edgesense_ai.Scoring.{kind_of}
use edgesense_ai.Serving.Drift.{reset}
use edgesense_ai.Serving.Shadow.{ShadowTracker, ShadowReport, new_shadow_tracker, report}
use edgesense_ai.Serving.Metrics.{Metrics, set_shadow_info, set_model_info, clear_drift}
use edgesense_ai.Serving.Load.{
  Site, Snapshots, ModelState, Source, file, registry, drift_stats, load_state, load_source_state,
}
use edgesense_ai.Serving.Handlers.{Sidecar, Outcome, answered, refused, raised}

pub record ReloadResponse : Type 0 where
  pub old_version : String
  pub new_version : String
  pub model : FilePath
  pub source : Source
  pub registry_version : Option String

module _ {F P Key PublicKey : Type 0} (site : Site F P Key PublicKey) where
  -- Shadow evidence is per champion: a new champion starts a fresh tracker.
  abbrev pub restart_shadow :
      ModelState F P
      → Option (ModelState F P × ShadowTracker F)
      → Option (ModelState F P × ShadowTracker F)
  restart_shadow new none = none
  restart_shadow new (some (shadow_state, _)) = some (
    shadow_state,
    new_shadow_tracker site.floats site.now shadow_state.model_version new.model_version,
  )

  abbrev pub swapped :
      ModelState F P → Result (List F × List F) → Sidecar F P → Result (Unit {0}) × Sidecar F P
  swapped new (err e) sc = (err e, record sc { state = new })
  swapped new (ok (m, s)) sc = (
    ok tt,
    record sc {
      state = new;
      drift = reset site.floats sc.drift m s;
      shadow = restart_shadow new sc.shadow;
      metrics =
          set_model_info new.model_version (kind_of new.bundle) new.bundle.backend
            (clear_drift sc.metrics);
    },
  )

  -- `_swap_state`: the reference is swapped first, so it stays swapped if what follows raises.
  unfoldable pub swap_state : ModelState F P → Sidecar F P → Result (Unit {0}) × Sidecar F P
  swap_state new sc = swapped new (drift_stats site.pipes new) sc

  -- `(source or MODEL_SOURCE).strip().lower()`
  abbrev pub given_or_configured : Option String → String
  given_or_configured none = site.configured
  given_or_configured (some s) = if str_eq s "" then site.configured else s

  unfoldable pub requested_source : Option String → Option Source
  requested_source source =
      let requested = strip_lower (given_or_configured source) in
      if codes_eq requested (codes "file")
      then some file
      else if codes_eq requested (codes "registry")
      then some registry
      else none

  abbrev pub count_pull : Source → Bool → Metrics F → Metrics F
  count_pull file _ m = m
  count_pull registry true m = record m { pulls_ok = m.pulls_ok + 1 }
  count_pull registry false m = record m { pulls_failed = m.pulls_failed + 1 }

  abbrev pub finish_reload :
      Source
      → ModelState F P
      → ModelState F P
      → Result (Unit {0}) × Sidecar F P
      → Outcome ReloadResponse × Sidecar F P
  finish_reload source old new (err e, sc) = (raised e, sc)
  finish_reload source old new (ok _, sc) = (
    answered (record {
      old_version = old.model_version;
      new_version = new.model_version;
      model = new.path;
      source = new.source;
      registry_version = new.registry_version;
    }),
    record sc {
      metrics =
          count_pull source true (record sc.metrics { reloads_ok = sc.metrics.reloads_ok + 1 });
    },
  )

  abbrev pub loaded_for_reload :
      Source
      → Result (ModelState F P)
      → Metrics F
      → Sidecar F P
      → Outcome ReloadResponse × Sidecar F P
  loaded_for_reload source (err e) m sc = (
    refused 400,
    record sc {
      metrics = count_pull source false (record m { reloads_rejected = m.reloads_rejected + 1 });
    },
  )
  loaded_for_reload source (ok new) m sc =
      finish_reload source sc.state new (swap_state new (record sc { metrics = m }))

  abbrev pub reload_from :
      Option Source → Snapshots F → Sidecar F P → Outcome ReloadResponse × Sidecar F P
  reload_from none fs sc = (refused 400, sc)
  reload_from (some source) fs sc =
      let (r, m) = load_source_state site source fs sc.metrics in loaded_for_reload source r m sc

  -- POST /reload
  unfoldable pub reload_model :
      Option String → Snapshots F → Sidecar F P → Outcome ReloadResponse × Sidecar F P
  reload_model source fs sc = reload_from (requested_source source) fs sc

  abbrev pub loaded_for_shadow :
      Result (ModelState F P) → Metrics F → Sidecar F P → Outcome (String × String) × Sidecar F P
  loaded_for_shadow (err e) m sc = (refused 400, record sc { metrics = m })
  loaded_for_shadow (ok state) m sc =
      let champion = sc.state.model_version in
      (
        answered (state.model_version, champion),
        record sc {
          shadow =
              some (state, new_shadow_tracker site.floats site.now state.model_version champion);
          metrics = set_shadow_info (some state.model_version) m;
        },
      )

  -- POST /shadow/load; the answer holds the shadow's version and the champion's.
  unfoldable pub shadow_load : Snapshots F → Sidecar F P → Outcome (String × String) × Sidecar F P
  shadow_load fs sc =
      let (r, m) = load_state site fs site.shadow_path file none sc.metrics in
      loaded_for_shadow r m sc

  -- GET /shadow
  unfoldable pub shadow_status : Sidecar F P → Option (FilePath × ShadowReport F)
  shadow_status sc = elim sc.shadow [
    | none ↦ none
    | some (state, tracker) ↦ some (state.path, report site.floats tracker)
  ]

  -- POST /shadow/unload
  abbrev pub unloaded :
      Option (ModelState F P × ShadowTracker F)
      → Sidecar F P
      → Outcome (ShadowReport F) × Sidecar F P
  unloaded none sc = (refused 404, sc)
  unloaded (some (state, tracker)) sc = (
    answered (report site.floats tracker),
    record sc { shadow = none; metrics = set_shadow_info none sc.metrics },
  )

  unfoldable pub shadow_unload : Sidecar F P → Outcome (ShadowReport F) × Sidecar F P
  shadow_unload sc = unloaded sc.shadow sc
