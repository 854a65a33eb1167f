-- ===== src/Manifest/Save.antt =====
-- ml/manifest.py: `save_bundle`, with every write at which it may stop.
pub mod Pair
pub mod Publication
pub mod Readers
pub mod Elsewhere
use edgesense_ai.Prelude.{String, Option, none, some, []}
use edgesense_ai.Python.Error.{Result, ok}
use edgesense_ai.Python.Number.{Float}
use edgesense_ai.Python.Json
use edgesense_ai.Python.Json.{Json, Fields, end, field, Content, get}
use edgesense_ai.Python.Files
use edgesense_ai.Python.Files.{FilePath, Fs, Io, ask, pure, change, ◌>>=◌, ◌>>◌}
use edgesense_ai.Python.Files.Atomic.{publish, unlink}
use edgesense_ai.Signing.{Crypto, Environ, signature_path}
use edgesense_ai.Signing.Keys.{load_private_key}
use edgesense_ai.Signing.Envelope.{sign_artifact}
use edgesense_ai.Manifest.Card.{manifest_path, card_path, render_model_card}

-- `joblib.dump`, `joblib.load` and `bundle.get("manifest")`, for bundles in `B`.
pub record Pickle (F B : Type 0) : Type 0 where
  pub dump : B → Content F
  pub load : Content F → Option B
  pub manifest : B → Option (Fields F)

-- What a save takes from its surroundings: the environment, the names that `mkstemp` picks, the
-- formatted time, Python's `str`, and the bytes of a text.
pub record Host (F : Type 0) : Type 0 where
  pub env : Environ
  pub temp : FilePath → FilePath
  pub now : String
  pub show : Json F → String
  pub encode : String → Content F
  pub floats : Float F

-- `(bundle.get("manifest") or {}).get("model_version")`
abbrev pub manifest_version : {F : Type 0} → Option (Fields F) → Option (Json F)
manifest_version none = none
manifest_version (some m) = get m "model_version"

module _ {F Key PublicKey B : Type 0} (c : Crypto F Key PublicKey) (pickle : Pickle F B)
    (h : Host F) where
  abbrev pub empty_file : Content F
  empty_file = Content.raw []

  -- The hook that signs the temporary file, or no hook.
  unfoldable pub signing_hook : Option Key → B → FilePath → Io (Content F) Unit
  signing_hook none bundle path = pure tt
  signing_hook (some key) bundle path = do
    sign_artifact c h.env h.temp h.now (h.temp path) (some key)
        (manifest_version (pickle.manifest bundle)) (some (signature_path path)) (some path.name)
    pure tt

  -- `if sign is None: signature_path(path).unlink(missing_ok=True)`
  unfoldable pub drop_signature : Option Key → FilePath → Io (Content F) Unit
  drop_signature none path = unlink (signature_path path)
  drop_signature (some key) path = pure tt

  -- `_atomic_write_bytes`
  unfoldable pub atomic_write_bytes : FilePath → Content F → Io (Content F) Unit
  atomic_write_bytes path content = publish empty_file h.temp path content (pure tt)

  unfoldable pub write_sidecars : Option (Fields F) → FilePath → Io (Content F) Unit
  write_sidecars none path = pure tt
  write_sidecars (some end) path = pure tt
  write_sidecars (some (field k v d)) path = do
    atomic_write_bytes (manifest_path path) (Content.document (Json.obj (field k v d)))
    card ← ask (λ _. render_model_card h.floats h.show (field k v d))
    atomic_write_bytes (card_path path) (h.encode card)

  -- `path.parent.mkdir` changes no file.
  unfoldable pub save_bundle : B → FilePath → Io (Content F) Unit
  save_bundle bundle path = do
    change (λ fs. fs)
    key ← ask (λ fs. load_private_key c h.env fs none)
    publish empty_file h.temp path (pickle.dump bundle) (signing_hook key bundle path)
    drop_signature key path
    write_sidecars (pickle.manifest bundle) path
