-- ===== src/Signing/Verify.antt =====
-- ml/signing.py: `verify_artifact`.
pub mod Soundness
pub mod RoundTrip
use edgesense_ai.Prelude.{
  ℕ, String, Bool, true, false, not, Option, none, some, List, Dict, lookup, is_empty, or_else,
  if◌then◌else◌,
}
use edgesense_ai.Python.Error.{
  Result, ok, err, ◌>>=◌, ◌>>◌, raise_if, or_raise, Refusal, verification, type_error, os_error,
}
use edgesense_ai.Python.Error.{unsigned_required, unreadable, not_an_object, bad_algorithm}
use edgesense_ai.Python.Error.{
  digest_mismatch, no_trusted_keys, untrusted_key, bad_encoding, bad_signature,
}
use edgesense_ai.Python.Json
use edgesense_ai.Python.Json.{Json, Fields, Content, get, is_text, is_hashable, as_object}
use edgesense_ai.Python.Files.{Fs, FilePath}
use edgesense_ai.Signing.{
  Crypto, Environ, Status, verified, unsigned, unverifiable, algorithm, truthy, signature_path,
  signed_message,
}
use edgesense_ai.Signing.Keys.{load_trusted_keys}

module _ {F Key PublicKey : Type 0} (c : Crypto F Key PublicKey) where
  -- `json.loads(sig_file.read_text())`
  abbrev pub parse_json : Content F → Option (Json F)
  parse_json (Content.document j) = some j
  parse_json (Content.raw bytes) = c.json_loads bytes

  -- `trusted.get(envelope.get("key_id"))`: only a text can be a key of the dict, and what has no
  -- hash raises.
  abbrev trusted_at : Dict PublicKey → Option (Json F) → Option PublicKey
  trusted_at trusted (some (Json.str signer)) = lookup signer trusted
  trusted_at trusted _ = none

  unfoldable pub find_signer : Dict PublicKey → Option (Json F) → Result PublicKey
  find_signer trusted signer = do
    raise_if (not (is_hashable signer)) type_error
    or_raise (trusted_at trusted signer) (verification untrusted_key)

  -- `base64.b64decode(envelope.get("signature", ""), validate=True)`, any exception caught
  abbrev decode_signature : Option (Json F) → Option (List ℕ)
  decode_signature none = c.b64decode ""
  decode_signature (some (Json.str s)) = c.b64decode s
  decode_signature (some _) = none

  -- The check against the trust store.
  unfoldable pub check_key :
      Dict PublicKey → String → Fields F → Result (Status × Option (Fields F))
  check_key trusted actual envelope = do
    public_key ← find_signer trusted (get envelope "key_id")
    signature ← or_raise (decode_signature (get envelope "signature")) (verification bad_encoding)
    raise_if (not (c.verify public_key signature (signed_message actual)))
        (verification bad_signature)
    ok (verified, some envelope)

  -- Everything after the digest is known to match.
  unfoldable pub check_signature :
      Dict PublicKey → Bool → String → Fields F → Result (Status × Option (Fields F))
  check_signature trusted require actual envelope =
      if is_empty trusted
      then (do raise_if require (verification no_trusted_keys); ok (unverifiable, some envelope))
      else check_key trusted actual envelope

  unfoldable pub check_envelope :
      Dict PublicKey → Bool → Option (Content F) → Fields F → Result (Status × Option (Fields F))
  check_envelope trusted require artifact envelope = do
    raise_if (not (is_text (get envelope "algorithm") algorithm)) (verification bad_algorithm)
    content ← or_raise artifact os_error
    raise_if (not (is_text (get envelope "artifact_sha256") (c.sha256 content)))
        (verification digest_mismatch)
    check_signature trusted require (c.sha256 content) envelope

  unfoldable pub check_sidecar :
      Dict PublicKey
      → Bool
      → Option (Content F)
      → Option (Content F)
      → Result (Status × Option (Fields F))
  check_sidecar trusted require artifact none = do
    raise_if require (verification unsigned_required)
    ok (unsigned, none)
  check_sidecar trusted require artifact (some sidecar) = do
    value ← or_raise (parse_json sidecar) (verification unreadable)
    envelope ← or_raise (as_object value) (verification not_an_object)
    check_envelope trusted require artifact envelope

  -- `load_trusted_keys() if trusted is None else trusted`
  unfoldable pub trust_store :
      Environ → Fs (Content F) → Option (Dict PublicKey) → Result (Dict PublicKey)
  trust_store env fs none = load_trusted_keys c env fs none
  trust_store env fs (some trusted) = ok trusted

  unfoldable pub verify_artifact :
      Environ
      → Fs (Content F)
      → FilePath
      → Option (Dict PublicKey)
      → Option Bool
      → Result (Status × Option (Fields F))
  unfolding truthy trust_store
  verify_artifact env fs artifact trusted require = do
    store ← trust_store env fs trusted
    let required = or_else require (truthy env.require_signature)
    check_sidecar store required (fs artifact) (fs (signature_path artifact))
