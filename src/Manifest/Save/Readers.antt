-- ===== src/Manifest/Save/Readers.antt =====
-- `verify_artifact`, run by another process at any moment of a `save_bundle`.
use edgesense_ai.Prelude.{
  ◌≡◌, ◌≢◌, refl, sym, ◌∙◌, ◌⊎◌, inl, inr, Bool, Option, none, some, List, [], ◌∷◌, Dict, All,
  String,
}
use edgesense_ai.Python.Error.{Result, ok, err, verification, digest_mismatch}
use edgesense_ai.Python.Json.{Json, Fields, Content}
use edgesense_ai.Python.Files.{FilePath, Fs, World}
use edgesense_ai.Python.Files.Hoare.{Post}
use edgesense_ai.Signing.{Crypto, Environ, Status, verified, signature_path}
use edgesense_ai.Signing.Keys.{load_private_key}
use edgesense_ai.Signing.Envelope.{envelope_for}
use edgesense_ai.Signing.Verify.{verify_artifact, trust_store}
use edgesense_ai.Signing.Verify.Soundness.{tampered_refused}
use edgesense_ai.Signing.Verify.RoundTrip.{IsSound, Trusts, verify-sign}
use edgesense_ai.Manifest.Save.{Pickle, Host, save_bundle, manifest_version}
use edgesense_ai.Manifest.Save.Pair.{IsClear}
use edgesense_ai.Manifest.Save.Publication.{Visible, Saved, save_bundle-Visible}

module _ {F Key PublicKey B : Type 0} (c : Crypto F Key PublicKey) (sound : IsSound c)
    (pickle : Pickle F B) (h : Host F) (bundle : B) (path : FilePath) (env : Environ)
    (store : Dict PublicKey) (require : Option Bool) where
  -- What the reader concludes from a state of the files.
  abbrev pub reading : Fs (Content F) → Result (Status × Option (Fields F))
  reading fs = verify_artifact c env fs path (some store) require

  reading_of_pair :
      (fs fs' : Fs (Content F))
      → fs path ≡ fs' path
      → fs (signature_path path) ≡ fs' (signature_path path)
      → reading fs ≡ reading fs'
  unfolding verify_artifact
  reading_of_pair fs fs' ha hs = rw (ha, hs)

  -- The reader's answer is the old one, a refusal for the digest, or `verified` for the new artifact.
  abbrev pub Answer : Fs (Content F) → Fs (Content F) → Type 0
  Answer start fs =
      (reading fs ≡ reading start)
      ⊎ ((reading fs ≡ err (verification digest_mismatch))
          ⊎ ((fs path ≡ some (pickle.dump bundle))
              × ((envelope : Fields F) × (reading fs ≡ ok (verified, some envelope)))))

  digest_eq :
      {d e : String} → ◌≡◌ {A = Option (Json F)} (some (Json.str d)) (some (Json.str e)) → d ≡ e
  digest_eq p = cc

  Visible-Answer :
      (key : Key) (old : Content F) (start fs : Fs (Content F))
      → start path ≡ some old
      → c.sha256 old ≢ c.sha256 (pickle.dump bundle)
      → Trusts c sound store key
      → Visible c pickle h bundle path (start path) (start (signature_path path)) (some key) fs
      → Answer start fs
  unfolding envelope_for trust_store
  Visible-Answer key old start fs hold differ trusts (inl before) =
      inl (reading_of_pair fs start before.artifact_is before.signature_is)
  Visible-Answer key old start fs hold differ trusts (inr (inl between)) = inr (
      inl (
        tampered_refused c env fs path (some store) require store _ old refl
          (_, between.signature_is, refl) (between.artifact_is ∙ hold) refl
          (λ e. differ (sym (digest_eq e)))))
  Visible-Answer key old start fs hold differ trusts (inr (inr saved)) = inr (
      inr (
        saved.artifact_is,
        (
          _,
          verify-sign c sound env fs path (some store) require store h.now _ key
              (manifest_version (pickle.manifest bundle)) _ refl trusts saved.artifact_is
              saved.signature_is,
        ),
      ))

  All-Answer :
      (key : Key) (old : Content F) (start : Fs (Content F)) (seen : List (Fs (Content F)))
      → start path ≡ some old
      → c.sha256 old ≢ c.sha256 (pickle.dump bundle)
      → Trusts c sound store key
      → All
          (Visible c pickle h bundle path (start path) (start (signature_path path)) (some key))
          seen
      → All (Answer start) seen
  All-Answer key old start [] hold differ trusts all = tt
  All-Answer key old start (fs ∷ seen) hold differ trusts all = (
    Visible-Answer key old start fs hold differ trusts all.0,
    All-Answer key old start seen hold differ trusts all.1,
  )

  -- The last state is among those that a reader may see.
  last-Visible :
      (key : Option Key) (a s : Option (Content F)) (r : Result (Unit {0})) (fs : Fs (Content F))
      → Post
          (λ _. Saved c pickle h bundle path a s key)
          (Visible c pickle h bundle path a s key)
          r
          fs
      → Visible c pickle h bundle path a s key fs
  last-Visible key a s (ok _) fs saved = inr (inr saved)
  last-Visible key a s (err _) fs seen = seen

  -- Where the temporary names keep clear of the artifact and of its signature, and a save signs with
  -- a key that the reader trusts and replaces an artifact by one with another digest, a verification
  -- at any moment, whichever writes fail, and one after the save has ended, answers as before the
  -- save, or refuses with a digest mismatch, or finds the new artifact in place and verifies it.
  pub save_bundle_readers :
      (key : Key) (old : Content F) (w : World (Content F))
      → IsClear h.temp path
      → w.seen ≡ []
      → load_private_key c h.env w.files none ≡ ok (some key)
      → w.files path ≡ some old
      → c.sha256 old ≢ c.sha256 (pickle.dump bundle)
      → Trusts c sound store key
      → let w' = (save_bundle c pickle h bundle path w).1 in
        All (Answer w.files) (w'.files ∷ w'.seen)
  save_bundle_readers key old w clear fresh loads hold differ trusts =
      let w' = (save_bundle c pickle h bundle path w).1 in
      let a = w.files path in
      let s = w.files (signature_path path) in
      let done =
        (save_bundle-Visible c pickle h bundle path a s clear (some key)).at w
          (record { artifact_is = refl; signature_is = refl }, loads) (rw fresh tt) in
      All-Answer key old w.files (w'.files ∷ w'.seen) hold differ trusts
        (last-Visible (some key) a s _ _ done.1, done.0)
