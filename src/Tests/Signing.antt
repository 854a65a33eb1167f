-- ===== src/Tests/Signing.antt =====
-- Verification at a signed file, at a file that was changed, and at a key id that is a list.
use edgesense_ai.Prelude.{ℕ, String, Bool, true, false, none, some, ◌≡◌, ◌≢◌, ◌↔◌, refl}
use edgesense_ai.Python.Error.{ok, err, verification, digest_mismatch, type_error}
use edgesense_ai.Python.Json.{Json, Fields, Content, get, nil, is_text_iff}
use edgesense_ai.Signing.{Status, verified, signature_path, key_id}
use edgesense_ai.Signing.Envelope.{envelope_for}
use edgesense_ai.Signing.Verify.{verify_artifact, trust_store}
use edgesense_ai.Signing.Verify.Soundness.{
  Attests, IsSidecar, verified_iff, required_verified, tampered_refused, unhashable_key_id,
}
use edgesense_ai.Signing.Verify.RoundTrip.{IsSound, verify-sign}
use edgesense_ai.Tests.Instances.{crypto, artifact, content, store, envelope, files, lax, strict}

abbrev good : Fields ℕ
good = envelope "11111111111111111111" (Json.str "1111111111111111")

abbrev stale : Fields ℕ
stale = envelope "00000000000000000000" (Json.str "1111111111111111")

abbrev odd : Fields ℕ
odd = envelope "11111111111111111111" (Json.arr nil)

good_runs :
    verify_artifact crypto lax (files good) artifact (some store) none ≡ ok (verified, some good)
unfolding verify_artifact edgesense_ai.Signing.Verify.check_sidecar edgesense_ai.Python.Files.update
    edgesense_ai.Python.Files.path_eq signature_path edgesense_ai.Signing.Verify.check_envelope
    edgesense_ai.Signing.Verify.check_signature edgesense_ai.Signing.Verify.check_key
    edgesense_ai.Signing.Verify.find_signer
good_runs = refl

verified_iff_example :
    (verify_artifact crypto lax (files good) artifact (some store) none ≡ ok (verified, some good))
    ↔ (IsSidecar crypto (files good (signature_path artifact)) good
        × ((c : Content ℕ) × (files good artifact ≡ some c) × Attests crypto store c good))
unfolding trust_store
verified_iff_example =
    verified_iff crypto lax (files good) artifact (some store) none store good refl

required_verified_example : verified ≡ verified
unfolding verify_artifact edgesense_ai.Signing.Verify.check_sidecar edgesense_ai.Python.Files.update
    edgesense_ai.Python.Files.path_eq signature_path edgesense_ai.Signing.Verify.check_envelope
    edgesense_ai.Signing.Verify.check_signature edgesense_ai.Signing.Verify.check_key
    edgesense_ai.Signing.Verify.find_signer
required_verified_example =
    required_verified crypto strict (files good) artifact (some store) (some true) verified
      (some good) refl refl

pub false_ne : false ≢ true
false_ne e = cc

stale_ne : get stale "artifact_sha256" ≢ some (Json.str (crypto.sha256 content))
stale_ne e = false_ne ((is_text_iff (get stale "artifact_sha256") (crypto.sha256 content)).1 e)

stale_refused :
    verify_artifact crypto lax (files stale) artifact (some store) none
    ≡ err (verification digest_mismatch)
unfolding trust_store signature_path verify_artifact edgesense_ai.Signing.Verify.check_sidecar
    edgesense_ai.Python.Files.update edgesense_ai.Python.Files.path_eq
    edgesense_ai.Signing.Verify.check_envelope
stale_refused = refl

tampered_refused_example :
    verify_artifact crypto lax (files stale) artifact (some store) none
    ≡ err (verification digest_mismatch)
unfolding trust_store signature_path edgesense_ai.Python.Files.update
    edgesense_ai.Python.Files.path_eq
tampered_refused_example =
    tampered_refused crypto lax (files stale) artifact (some store) none store stale content refl
      (Content.document (Json.obj stale), refl, refl) refl refl stale_ne

unhashable_key_id_example :
    verify_artifact crypto lax (files odd) artifact (some store) none ≡ err type_error
unfolding trust_store signature_path edgesense_ai.Python.Files.update
    edgesense_ai.Python.Files.path_eq
unhashable_key_id_example =
    unhashable_key_id crypto lax (files odd) artifact (some store) none store odd content refl refl
      (Content.document (Json.obj odd), refl, refl) refl refl refl refl

pub decodes :
    (key : Bool) (message : String)
    → crypto.b64decode (crypto.b64encode (crypto.sign key message)) ≡ some (crypto.sign key message)
decodes true message = refl
decodes false message = refl

pub verifies :
    (key : Bool) (message : String)
    → crypto.verify (crypto.public_key key) (crypto.sign key message) message ≡ true
verifies true message = refl
verifies false message = refl

abbrev pub sound : IsSound crypto
sound = record { sign_verifies = verifies; base64_decodes = decodes }

abbrev pub signed : Fields ℕ
signed = envelope_for crypto "now" content true none "model.joblib"

verify-sign_example :
    verify_artifact crypto lax (files signed) artifact (some store) none
    ≡ ok (verified, some signed)
unfolding trust_store signature_path key_id edgesense_ai.Python.Files.update
    edgesense_ai.Python.Files.path_eq
verify-sign_example =
    verify-sign crypto sound lax (files signed) artifact (some store) none store "now" content true
      none "model.joblib" refl refl refl refl
