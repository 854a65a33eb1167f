-- ===== src/Signing/Envelope.antt =====
-- ml/signing.py: building, writing and publishing a signature.
use edgesense_ai.Prelude.{String, Option, none, some, [], or_else, str_eq, if◌then◌else◌}
use edgesense_ai.Python.Number.{pos}
use edgesense_ai.Python.Json.{Json, Fields, end, field, Content}
use edgesense_ai.Python.Files.{FilePath, Io, ◌>>=◌, ◌>>◌, pure, ask, read}
use edgesense_ai.Python.Files.Atomic.{publish}
use edgesense_ai.Signing.{Crypto, Environ, algorithm, signature_path, signed_message, key_id}
use edgesense_ai.Signing.Keys.{load_private_key}

-- `None` becomes `null`.
abbrev or_null : {F : Type 0} → Option (Json F) → Json F
or_null none = Json.null
or_null (some v) = v

-- `artifact_name or Path(artifact).name`
abbrev pub name_or : Option String → String → String
name_or none s = s
name_or (some n) s = if str_eq n "" then s else n

module _ {F Key PublicKey : Type 0} (c : Crypto F Key PublicKey) where
  -- The envelope for an artifact with this content; `now` is the formatted time.
  unfoldable pub envelope_for : String → Content F → Key → Option (Json F) → String → Fields F
  unfolding signed_message
  envelope_for now content private_key model_version artifact =
      let sha256_hex = c.sha256 content in
      field "schema_version" (Json.int (pos 1)) (
        field "algorithm" (Json.str algorithm) (
          field "artifact" (Json.str artifact) (
            field "artifact_sha256" (Json.str sha256_hex) (
              field "key_id" (Json.str (key_id c (c.public_key private_key))) (
                field "signature"
                  (Json.str (c.b64encode (c.sign private_key (signed_message sha256_hex))))
                  (field "signed_at" (Json.str now)
                    (field "model_version" (or_null model_version) end)))))))

  unfoldable pub build_envelope :
      String → FilePath → Key → Option (Json F) → Option String → Io (Content F) (Fields F)
  build_envelope now artifact private_key model_version artifact_name = do
    content ← read artifact
    pure (envelope_for now content private_key model_version (name_or artifact_name artifact.name))

  -- `tempfile.mkstemp`, the write and `os.replace`, with the clean-up
  unfoldable pub write_envelope : (FilePath → FilePath) → Fields F → FilePath → Io (Content F) Unit
  write_envelope temp envelope path =
      publish (Content.raw []) temp path (Content.document (Json.obj envelope)) (pure tt)

  abbrev pub sign_with :
      (FilePath → FilePath)
      → String
      → FilePath
      → Option Key
      → Option (Json F)
      → Option FilePath
      → Option String
      → Io (Content F) (Option (Fields F))
  sign_with temp now artifact none model_version sig_path artifact_name = pure none
  sign_with temp now artifact (some private_key) model_version sig_path artifact_name = do
    envelope ← build_envelope now artifact private_key model_version artifact_name
    write_envelope temp envelope (or_else sig_path (signature_path artifact))
    pure (some envelope)

  -- `private_key or load_private_key()`
  abbrev key_or_load : Environ → Option Key → Io (Content F) (Option Key)
  key_or_load env (some k) = pure (some k)
  key_or_load env none = ask (λ fs. load_private_key c env fs none)

  unfoldable pub sign_artifact :
      Environ
      → (FilePath → FilePath)
      → String
      → FilePath
      → Option Key
      → Option (Json F)
      → Option FilePath
      → Option String
      → Io (Content F) (Option (Fields F))
  sign_artifact env temp now artifact private_key model_version sig_path artifact_name = do
    key ← key_or_load env private_key
    sign_with temp now artifact key model_version sig_path artifact_name
