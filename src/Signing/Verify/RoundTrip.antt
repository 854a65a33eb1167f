-- ===== src/Signing/Verify/RoundTrip.antt =====
-- Signing, and then verifying.
use edgesense_ai.Prelude.{String, ◌≡◌, refl, Option, some, Bool, Dict, lookup, true}
use edgesense_ai.Python.Error.{ok}
use edgesense_ai.Python.Json.{Json, Content}
use edgesense_ai.Python.Files.{Fs, FilePath}
use edgesense_ai.Signing.{Crypto, Environ, verified, signature_path, signed_message, key_id}
use edgesense_ai.Signing.Envelope.{envelope_for}
use edgesense_ai.Signing.Verify.{verify_artifact, trust_store}
use edgesense_ai.Signing.Verify.Soundness.{Attests, verified_iff}

-- What the libraries document: a signature verifies against the key's public half, and base64
-- decodes to the signature that was encoded.
pub record IsSound {F Key PublicKey : Type 0} (c : Crypto F Key PublicKey) : Type 0 where
  pub sign_verifies :
      (key : Key) (message : String)
      → c.verify (c.public_key key) (c.sign key message) message ≡ true
  pub base64_decodes :
      (key : Key) (message : String)
      → c.b64decode (c.b64encode (c.sign key message)) ≡ some (c.sign key message)

module _ {F Key PublicKey : Type 0} (c : Crypto F Key PublicKey) (sound : IsSound c) where
  -- The store trusts the public half of the key.
  abbrev pub Trusts : Dict PublicKey → Key → Type 0
  Trusts store key = lookup (key_id c (c.public_key key)) store ≡ some (c.public_key key)

  envelope-Attests :
      (now : String) (content : Content F) (key : Key) (version : Option (Json F)) (name : String)
      (store : Dict PublicKey)
      → Trusts store key
      → Attests c store content (envelope_for c now content key version name)
  unfolding envelope_for
  envelope-Attests now content key version name store trusts = record {
    algorithm_known = refl;
    digest_matches = refl;
    signer = key_id c (c.public_key key);
    signer_named = refl;
    key = c.public_key key;
    key_trusted = trusts;
    signature = c.sign key (signed_message (c.sha256 content));
    signature_decodes = sound.base64_decodes key _;
    signature_verifies = sound.sign_verifies key _;
  }

  -- Where the sidecar is the envelope that signing made for the content on disk, by a key whose public
  -- half the store trusts under its own id, verification says `verified` and returns that envelope,
  -- whether or not a signature is required.
  pub verify-sign :
      (env : Environ) (fs : Fs (Content F)) (artifact : FilePath) (given : Option (Dict PublicKey))
      (require : Option Bool) (store : Dict PublicKey) (now : String) (content : Content F)
      (key : Key) (version : Option (Json F)) (name : String)
      → trust_store c env fs given ≡ ok store
      → Trusts store key
      → fs artifact ≡ some content
      → fs (signature_path artifact)
        ≡ some (Content.document (Json.obj (envelope_for c now content key version name)))
      → verify_artifact c env fs artifact given require
        ≡ ok (verified, some (envelope_for c now content key version name))
  verify-sign env fs artifact given require store now content key version name hs trusts ha hsig =
      (verified_iff c env fs artifact given require store _ hs).1 (
        (Content.document (Json.obj _), hsig, refl),
        (content, ha, envelope-Attests now content key version name store trusts),
      )
