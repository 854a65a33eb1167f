-- ===== src/Registry.antt =====
-- inference/registry.py and ml/register_model.py: the champion that the model registry names. MLflow's
-- client is a parameter over a state `S` of the registry.
pub mod Champion
use edgesense_ai.Prelude.{
  ℕ, ◌+◌, ◌*◌, ◌-◌, String, Bool, true, false, ◌&&◌, not, Option, none, some, List, [], ◌∷◌, Dict,
  lookup, str_eq, ltb, leb, codes, if◌then◌else◌,
}
use edgesense_ai.Python.Error.{
  Result, ok, err, ◌>>=◌, ◌>>◌, raise_if, or_raise, registry_error, value_error,
}
use edgesense_ai.Python.Files.{FilePath}
use edgesense_ai.Serving.Load.{ChampionRef}

pub record ModelVersion : Type 0 where
  pub version : String
  pub tags : Dict String
  pub source : Option String

-- The calls of `MlflowClient`, each for one registered model, and `download_artifacts`. A missing `tags`
-- is read as an empty dict.
pub record Client (S : Type 0) : Type 0 where
  pub get_registered_model : S → Result (Dict String)
  pub search_model_versions : S → Result (List ModelVersion)
  pub get_model_version : S → String → Result ModelVersion
  pub set_model_version_tag : S → String → String → String → S
  pub set_registered_model_tag : S → String → String → S
  pub download_artifacts : S → String → Result String
  pub exists : FilePath → Bool
  pub rglob : String → String → List FilePath

-- `except Exception as exc: raise RegistryError`
abbrev pub as_registry_error : {A : Type 0} → Result A → Result A
as_registry_error (ok a) = ok a
as_registry_error (err e) = err registry_error

-- `int(text)` for digits; a sign, a space and an underscore are left out.
abbrev digits : List ℕ → ℕ → Option ℕ
digits [] acc = some acc
digits (c ∷ cs) acc = if leb 48 c && leb c 57 then digits cs (acc * 10 + (c - 48)) else none

abbrev digits_of : List ℕ → Option ℕ
digits_of [] = none
digits_of (c ∷ cs) = digits (c ∷ cs) 0

abbrev pub int_of : String → Option ℕ
int_of s = digits_of (codes s)

-- A text that is there and not empty.
abbrev pub non_empty : Option String → Option String
non_empty none = none
non_empty (some s) = if str_eq s "" then none else some s

abbrev pub is_champion : ModelVersion → Bool
is_champion v = elim (lookup "role" v.tags) [ none ↦ false | some role ↦ str_eq role "champion" ]

abbrev pub champions_of : List ModelVersion → List ModelVersion
champions_of [] = []
champions_of (v ∷ vs) = let rest = champions_of vs in if is_champion v then v ∷ rest else rest

-- The key of `max`: a version that is no number raises.
abbrev pub numbered : List ModelVersion → Result (List (ℕ × ModelVersion))
numbered [] = ok []
numbered (v ∷ vs) = do
  n ← or_raise (int_of v.version) value_error
  rest ← numbered vs
  ok ((n, v) ∷ rest)

-- `max`, which keeps the first of several.
abbrev pub best : ℕ × ModelVersion → List (ℕ × ModelVersion) → ℕ × ModelVersion
best b [] = b
best b (c ∷ cs) = best (if ltb b.0 c.0 then c else b) cs

abbrev pub best_of : List (ℕ × ModelVersion) → Result String
best_of [] = err registry_error
best_of (b ∷ bs) = ok (best b bs).1.version

-- No version that is tagged champion is refused; else the newest of them is taken.
unfoldable pub newest_champion : List ModelVersion → Result String
newest_champion versions = do candidates ← numbered (champions_of versions); best_of candidates

module _ {S : Type 0} (client : Client S) where
  abbrev pub by_role : Option String → S → Result String
  by_role (some pointer) s = ok pointer
  by_role none s = do
    versions ← as_registry_error (client.search_model_versions s)
    newest_champion versions

  unfoldable pub resolve_champion_version : S → Result String
  resolve_champion_version s = do
    tags ← as_registry_error (client.get_registered_model s)
    by_role (non_empty (lookup "champion_version" tags)) s

  abbrev first_of : List FilePath → Result FilePath
  first_of [] = err registry_error
  first_of (p ∷ ps) = ok p

  -- The bundle among the downloaded files, also in a flat layout.
  abbrev find_bundle : String → Result FilePath
  find_bundle folder =
      let direct : FilePath = record { parent = folder; name = "model.joblib" } in
      if client.exists direct then ok direct else first_of (client.rglob folder "model.joblib")

  -- `connected` is what `_client` returned or raised.
  unfoldable pub fetch_champion : Result (Unit {0}) → S → Result ChampionRef
  fetch_champion connected s = do
    connected
    version ← resolve_champion_version s
    found ← as_registry_error (client.get_model_version s version)
    source ← or_raise (non_empty found.source) registry_error
    folder ← as_registry_error (client.download_artifacts s source)
    path ← find_bundle folder
    ok (record { path = path; registry_version = version })

  -- The tags that `register_model.py` sets on the version that it registered.
  unfoldable pub tag_version : Bool → String → String → S → S
  tag_version promote version edgesense_version s =
      let named = client.set_model_version_tag s version "edgesense_version" edgesense_version in
      if promote
      then client.set_registered_model_tag
          (client.set_model_version_tag named version "role" "champion") "champion_version" version
      else client.set_model_version_tag named version "role" "challenger"
