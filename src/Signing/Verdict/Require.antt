-- ===== src/Signing/Verdict/Require.antt =====
-- What exit code 0 of `verify --require` means.
use edgesense_ai.Prelude.{String, true, ◌≡◌, refl, Option, none, some, Dict, arith}
use edgesense_ai.Python.Error.{Result, ok, err, bind_ok}
use edgesense_ai.Python.Json.{Fields, Content}
use edgesense_ai.Python.Files.{FilePath, Fs}
use edgesense_ai.Signing.{Crypto, Environ, Status, verified, unsigned, unverifiable, signature_path}
use edgesense_ai.Signing.Verify.{verify_artifact, trust_store}
use edgesense_ai.Signing.Verify.Soundness.{Attests, IsSidecar, verified_iff, required_verified}
use edgesense_ai.Signing.Verdict.{given_keys, verify_code, verdict_code, cmd_verify}

module _ {F Key PublicKey : Type 0} (c : Crypto F Key PublicKey) where
  verdict_zero :
      (env : Environ) (status : Status) (envelope : Option (Fields F))
      → status ≡ verified
      → verdict_code c env (status, envelope) ≡ ok 0
      → (d : Fields F) × (envelope ≡ some d)
  verdict_zero env verified none e h = cc
  verdict_zero env verified (some d) e h = (d, refl)
  verdict_zero env unsigned envelope e h = cc
  verdict_zero env unverifiable envelope e h = cc

  verify_code_zero :
      (env : Environ) (r : Result (Status × Option (Fields F)))
      → verify_code c env r ≡ ok 0
      → (status : Status) × (envelope : Option (Fields F)) × (r ≡ ok (status, envelope))
        × (verdict_code c env (status, envelope) ≡ ok 0)
  verify_code_zero env (ok (status, envelope)) h = (status, envelope, refl, h)
  verify_code_zero env (err e) h = ground arith

  -- The command `verify --require` has exit code 0 only for an artifact that is there and whose sidecar attests it:
  -- the digest is that of its bytes, and the signature verifies against a trusted key.
  pub verify_require-Attests :
      (env : Environ) (fs : Fs (Content F)) (artifact : FilePath) (source : Option String)
      → cmd_verify c env fs artifact source true ≡ ok 0
      → (given : Option (Dict PublicKey)) × (store : Dict PublicKey) × (given_keys c env fs source
          ≡ ok given)
        × (trust_store c env fs given ≡ ok store)
        × (envelope : Fields F) × (content : Content F) × IsSidecar c
            (fs (signature_path artifact))
            envelope
        × (fs artifact ≡ some content)
        × Attests c store content envelope
  unfolding cmd_verify verify_artifact
  verify_require-Attests env fs artifact source h =
      let (given, keys, coded) = bind_ok (given_keys c env fs source) _ h in
      let (status, envelope, found, zero) =
        verify_code_zero env (verify_artifact c env fs artifact given (some true)) coded in
      let good = required_verified c env fs artifact given (some true) status envelope refl found in
      let (d, some_d) = verdict_zero env status envelope good zero in
      let (store, known, _) = bind_ok (trust_store c env fs given) _ found in
      let found' : verify_artifact c env fs artifact given (some true) ≡ ok (verified, some d) =
        rw (good, some_d) at found in
      let (sidecar, (content, there, attests)) =
        (verified_iff c env fs artifact given (some true) store d known).0 found' in
      (given, store, keys, known, d, content, sidecar, there, attests)
