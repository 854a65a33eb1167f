-- ===== src/Signing/Verify/Soundness.antt =====
-- What each outcome of `verify_artifact` says of the files.
use edgesense_ai.Prelude.{
  ap, sym, ◌∙◌, ℕ, String, ◌≡◌, refl, ◌↔◌, ◌≢◌, Bool, true, false, Option, none, some, Dict, lookup,
  arith, is_empty, or_else, List, [], ◌∷◌,
}
use edgesense_ai.Python.Error.{
  ok, err, bind_ok, or_raise, or_raise_ok, verification, digest_mismatch, type_error,
}
use edgesense_ai.Python.Json.{
  is_text_ne, is_hashable, as_object, Json, Fields, Content, get, is_text_iff, is_text,
}
use edgesense_ai.Python.Files.{Fs, FilePath}
use edgesense_ai.Signing.{
  Crypto, Environ, Status, verified, algorithm, truthy, signature_path, signed_message,
}
use edgesense_ai.Signing.Verify.{
  parse_json, check_key, check_signature, check_envelope, check_sidecar, verify_artifact,
  trust_store, find_signer, decode_signature,
}

module _ {F Key PublicKey : Type 0} (c : Crypto F Key PublicKey) where
  -- The envelope covers the content, and a trusted key made its signature.
  pub record Attests (trusted : Dict PublicKey) (content : Content F) (envelope : Fields F)
      : Type 0 where
    pub algorithm_known : get envelope "algorithm" ≡ some (Json.str algorithm)
    pub digest_matches : get envelope "artifact_sha256" ≡ some (Json.str (c.sha256 content))
    pub signer : String
    pub signer_named : get envelope "key_id" ≡ some (Json.str signer)
    pub key : PublicKey
    pub key_trusted : lookup signer trusted ≡ some key
    pub signature : List ℕ
    pub signature_decodes : decode_signature c (get envelope "signature") ≡ some signature
    pub signature_verifies : c.verify key signature (signed_message (c.sha256 content)) ≡ true

  find_signer_ok :
      (trusted : Dict PublicKey) (v : Option (Json F)) (key : PublicKey)
      → find_signer c trusted v ≡ ok key
      → (signer : String) × (v ≡ some (Json.str signer)) × (lookup signer trusted ≡ some key)
  unfolding find_signer
  find_signer_ok trusted (some (Json.str s)) key h = (s, refl, ground arith)
  find_signer_ok trusted none key h = cc
  find_signer_ok trusted (some Json.null) key h = cc
  find_signer_ok trusted (some (Json.bool b)) key h = cc
  find_signer_ok trusted (some (Json.int i)) key h = cc
  find_signer_ok trusted (some (Json.float x)) key h = cc
  find_signer_ok trusted (some (Json.arr xs)) key h = cc
  find_signer_ok trusted (some (Json.obj d)) key h = cc

  check_key_sound :
      (trusted : Dict PublicKey) (content : Content F) (envelope : Fields F)
      → (e : Option (Fields F)) → get envelope "algorithm" ≡ some (Json.str algorithm)
      → get envelope "artifact_sha256" ≡ some (Json.str (c.sha256 content))
      → check_key c trusted (c.sha256 content) envelope ≡ ok (verified, e)
      → Attests trusted content envelope × (e ≡ some envelope)
  unfolding check_key
  check_key_sound trusted content envelope e ha hd h =
      let found = bind_ok (find_signer c trusted (get envelope "key_id")) _ h in
      let signer = find_signer_ok trusted (get envelope "key_id") found.0 found.1 in
      let decoded =
        bind_ok (or_raise (decode_signature c (get envelope "signature")) _) _ found.2 in
      (
        record {
          algorithm_known = ha;
          digest_matches = hd;
          signer = signer.0;
          signer_named = signer.1;
          key = found.0;
          key_trusted = signer.2;
          signature = decoded.0;
          signature_decodes = or_raise_ok _ _ decoded.1;
          signature_verifies = ground arith;
        },
        ground arith,
      )

  check_key_complete :
      (trusted : Dict PublicKey) (content : Content F) (envelope : Fields F)
      → Attests trusted content envelope
      → check_key c trusted (c.sha256 content) envelope ≡ ok (verified, some envelope)
  unfolding check_key find_signer
  check_key_complete trusted content envelope h =
      rw (h.signer_named, h.key_trusted, h.signature_decodes, h.signature_verifies) refl

  check_signature_iff :
      (trusted : Dict PublicKey) (require : Bool) (content : Content F) (envelope : Fields F)
      (e : Option (Fields F))
      → get envelope "algorithm" ≡ some (Json.str algorithm)
      → get envelope "artifact_sha256" ≡ some (Json.str (c.sha256 content))
      → (check_signature c trusted require (c.sha256 content) envelope ≡ ok (verified, e))
        ↔ (Attests trusted content envelope × (e ≡ some envelope))
  unfolding check_signature
  check_signature_iff [] require content envelope e ha hd =
      ((λ h. ground arith), (λ h. cc (h.0.key_trusted)))
  check_signature_iff (k ∷ ks) require content envelope e ha hd = (
    (λ h. check_key_sound (k ∷ ks) content envelope e ha hd h),
    (λ h. check_key_complete (k ∷ ks) content envelope h.0 ∙ ap (λ x. ok (verified, x)) (sym h.1)),
  )

  check_envelope_sound :
      (trusted : Dict PublicKey) (require : Bool) (artifact : Option (Content F))
      (envelope : Fields F) (e : Option (Fields F))
      → check_envelope c trusted require artifact envelope ≡ ok (verified, e)
      → (content : Content F) × (artifact ≡ some content)
        × Attests trusted content envelope
        × (e ≡ some envelope)
  unfolding check_envelope
  check_envelope_sound trusted require none envelope e h = absurd (ground arith)
  check_envelope_sound trusted require (some content) envelope e h =
      let alg : is_text (get envelope "algorithm") algorithm ≡ true = ground arith in
      let dig : is_text (get envelope "artifact_sha256") (c.sha256 content) ≡ true = ground arith in
      let rest : check_signature c trusted require (c.sha256 content) envelope ≡ ok (verified, e) =
        ground arith in
      let all =
        (check_signature_iff trusted require content envelope e ((is_text_iff _ _).0 alg)
            ((is_text_iff _ _).0 dig)).0
          rest in
      (content, refl, all.0, all.1)

  check_envelope_complete :
      (trusted : Dict PublicKey) (require : Bool) (content : Content F) (envelope : Fields F)
      → Attests trusted content envelope
      → check_envelope c trusted require (some content) envelope ≡ ok (verified, some envelope)
  unfolding check_envelope
  check_envelope_complete trusted require content envelope h =
      rw ((is_text_iff _ _).1 h.algorithm_known, (is_text_iff _ _).1 h.digest_matches)
        ((check_signature_iff trusted require content envelope (some envelope) h.algorithm_known
            h.digest_matches).1
          (h, refl))

  -- The sidecar is there, and is a JSON object.
  abbrev pub IsSidecar : Option (Content F) → Fields F → Type 0
  IsSidecar sidecar envelope =
      (s : Content F) × (sidecar ≡ some s) × (parse_json c s ≡ some (Json.obj envelope))

  as_object_inv : (j : Json F) (d : Fields F) → as_object j ≡ some d → j ≡ Json.obj d
  as_object_inv (Json.obj d) d' h = cc
  as_object_inv Json.null d h = cc
  as_object_inv (Json.bool b) d h = cc
  as_object_inv (Json.int i) d h = cc
  as_object_inv (Json.float x) d h = cc
  as_object_inv (Json.str s) d h = cc
  as_object_inv (Json.arr xs) d h = cc

  check_sidecar_sound :
      (trusted : Dict PublicKey) (require : Bool) (artifact sidecar : Option (Content F))
      (e : Option (Fields F))
      → check_sidecar c trusted require artifact sidecar ≡ ok (verified, e)
      → (envelope : Fields F) × (e ≡ some envelope)
        × IsSidecar sidecar envelope
        × ((content : Content F) × (artifact ≡ some content) × Attests trusted content envelope)
  unfolding check_sidecar
  check_sidecar_sound trusted require artifact none e h = absurd (ground arith)
  check_sidecar_sound trusted require artifact (some s) e h =
      let parsed = bind_ok (or_raise (parse_json c s) _) _ h in
      let object = bind_ok (or_raise (as_object parsed.0) _) _ parsed.2 in
      let done = check_envelope_sound trusted require artifact object.0 e object.2 in
      (
        object.0,
        done.3,
        (
          s,
          refl,
          or_raise_ok _ _ parsed.1
              ∙ ap some (as_object_inv parsed.0 object.0 (or_raise_ok _ _ object.1)),
        ),
        (done.0, done.1, done.2),
      )

  check_sidecar_complete :
      (trusted : Dict PublicKey) (require : Bool) (content : Content F)
      (sidecar : Option (Content F)) (envelope : Fields F)
      → IsSidecar sidecar envelope
      → Attests trusted content envelope
      → check_sidecar c trusted require (some content) sidecar ≡ ok (verified, some envelope)
  unfolding check_sidecar
  check_sidecar_complete trusted require content sidecar envelope (s, e, parsed) h =
      rw (e, parsed) (check_envelope_complete trusted require content envelope h)

  -- With the trust store read, `verify_artifact` says `verified` and returns an envelope exactly if
  -- the artifact is there, its sidecar parses to that envelope, and the envelope attests to the bytes
  -- on disk: known algorithm, matching digest, a signature by a key of the store that verifies.
  pub verified_iff :
      (env : Environ) (fs : Fs (Content F)) (artifact : FilePath) (given : Option (Dict PublicKey))
      (require : Option Bool) (store : Dict PublicKey) (envelope : Fields F)
      → trust_store c env fs given ≡ ok store
      → (verify_artifact c env fs artifact given require ≡ ok (verified, some envelope)) ↔ (
          IsSidecar (fs (signature_path artifact)) envelope
          × ((content : Content F) × (fs artifact ≡ some content) × Attests store content envelope))
  unfolding verify_artifact
  verified_iff env fs artifact given require store envelope hs = rw hs (
    (λ h.
        let done = check_sidecar_sound store _ (fs artifact) (fs (signature_path artifact)) _ h in
        let same : envelope ≡ done.0 = cc (done.1) in rw same (done.2, done.3)),
    (λ h. rw h.1.1 (check_sidecar_complete store _ h.1.0 _ envelope h.0 h.1.2)),
  )

  required_check :
      (trusted : Dict PublicKey) (artifact sidecar : Option (Content F))
      (r : Status × Option (Fields F))
      → check_sidecar c trusted true artifact sidecar ≡ ok r
      → r.0 ≡ verified
  unfolding check_sidecar check_envelope check_signature check_key
  required_check trusted artifact none r h = cc
  required_check trusted artifact (some s) r h = ground arith

  -- Where a signature is required, an artifact that may be loaded was positively verified.
  pub required_verified :
      (env : Environ) (fs : Fs (Content F)) (artifact : FilePath) (given : Option (Dict PublicKey))
      (require : Option Bool) (status : Status) (envelope : Option (Fields F))
      → or_else require (truthy env.require_signature) ≡ true
      → verify_artifact c env fs artifact given require ≡ ok (status, envelope)
      → status ≡ verified
  unfolding verify_artifact
  required_verified env fs artifact given require status envelope hr h =
      let store = bind_ok (trust_store c env fs given) _ h in
      required_check store.0 (fs artifact) (fs (signature_path artifact)) (status, envelope)
        (rw (← hr) store.2)

  -- With the trust store read, an artifact that is there and has another digest than the one in its
  -- sidecar, which parses and names the known algorithm, is refused with a digest mismatch, whatever
  -- the trust store holds and whether or not a signature is required.
  pub tampered_refused :
      (env : Environ) (fs : Fs (Content F)) (artifact : FilePath) (given : Option (Dict PublicKey))
      (require : Option Bool) (store : Dict PublicKey) (envelope : Fields F) (content : Content F)
      → trust_store c env fs given ≡ ok store
      → IsSidecar (fs (signature_path artifact)) envelope
      → fs artifact ≡ some content
      → get envelope "algorithm" ≡ some (Json.str algorithm)
      → get envelope "artifact_sha256" ≢ some (Json.str (c.sha256 content))
      → verify_artifact c env fs artifact given require ≡ err (verification digest_mismatch)
  unfolding verify_artifact check_sidecar check_envelope
  tampered_refused env fs artifact given require store envelope content hs (s, e, parsed) he ha hd =
      rw (hs, he, e, parsed, (is_text_iff _ _).1 ha, is_text_ne _ _ hd)

  -- A sidecar that is otherwise in order and names its key by a list or an object makes
  -- `verify_artifact` raise `TypeError`, and no `VerificationError`, if the trust store has a key.
  pub unhashable_key_id :
      (env : Environ) (fs : Fs (Content F)) (artifact : FilePath) (given : Option (Dict PublicKey))
      (require : Option Bool) (store : Dict PublicKey) (envelope : Fields F) (content : Content F)
      → trust_store c env fs given ≡ ok store
      → is_empty store ≡ false
      → IsSidecar (fs (signature_path artifact)) envelope
      → fs artifact ≡ some content
      → get envelope "algorithm" ≡ some (Json.str algorithm)
      → get envelope "artifact_sha256" ≡ some (Json.str (c.sha256 content))
      → is_hashable (get envelope "key_id") ≡ false
      → verify_artifact c env fs artifact given require ≡ err type_error
  unfolding verify_artifact check_sidecar check_envelope check_signature check_key find_signer
  unhashable_key_id env fs artifact given require store envelope content hs hn (s, e, parsed) he ha
        hd hk =
      rw (hs, he, e, parsed, (is_text_iff _ _).1 ha, (is_text_iff _ _).1 hd, hn, hk)
