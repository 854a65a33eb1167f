-- ===== src/Manifest/Save/Elsewhere.antt =====
-- A save at one path and what holds of the files elsewhere.
use edgesense_ai.Prelude.{Option, none, some}
use edgesense_ai.Python.Json.{Fields, end, field, Content}
use edgesense_ai.Python.Files.{FilePath, Fs, pure}
use edgesense_ai.Python.Files.Keeps.{
  Keeps, Ignores, Keeps-pure, Keeps-bind, Keeps-ask, Keeps-change, Keeps-read, Keeps-unlink,
  Keeps-publish,
}
use edgesense_ai.Signing.{Crypto, signature_path}
use edgesense_ai.Signing.Envelope.{sign_artifact, sign_with, build_envelope, write_envelope}
use edgesense_ai.Manifest.Card.{manifest_path, card_path}
use edgesense_ai.Manifest.Save.{
  Pickle, Host, save_bundle, signing_hook, drop_signature, write_sidecars, atomic_write_bytes,
  manifest_version,
}

-- The property ignores the paths that a save at `q` writes.
pub record IsApart {C : Type 0} (P : Fs C → Type 0) (temp : FilePath → FilePath) (q : FilePath)
    : Type 0 where
  pub artifact : Ignores P q
  pub artifact_temp : Ignores P (temp q)
  pub signature : Ignores P (signature_path q)
  pub signature_temp : Ignores P (temp (signature_path q))
  pub manifest : Ignores P (manifest_path q)
  pub manifest_temp : Ignores P (temp (manifest_path q))
  pub card : Ignores P (card_path q)
  pub card_temp : Ignores P (temp (card_path q))

module _ {F Key PublicKey B : Type 0} (c : Crypto F Key PublicKey) (pickle : Pickle F B)
    (h : Host F) (I P : Fs (Content F) → Type 0) (sub : (fs : Fs (Content F)) → P fs → I fs)
    (q : FilePath) (apart : IsApart P h.temp q) where
  write_envelope-Keeps :
      (envelope : Fields F) → Keeps I P (write_envelope c h.temp envelope (signature_path q))
  unfolding write_envelope
  write_envelope-Keeps envelope =
      Keeps-publish I P sub _ h.temp (signature_path q) _ (pure tt) apart.signature_temp
        apart.signature (Keeps-pure I P sub tt)

  signing_hook-Keeps :
      (key : Option Key) (bundle : B) → Keeps I P (signing_hook c pickle h key bundle q)
  unfolding signing_hook sign_artifact build_envelope
  signing_hook-Keeps none bundle = Keeps-pure I P sub tt
  signing_hook-Keeps (some key) bundle =
      Keeps-bind I P sub _ _
        (Keeps-bind I P sub _ _ (Keeps-pure I P sub (some key)) (λ k. signed k))
        (λ _. Keeps-pure I P sub tt)
    where
      signed :
          (k : Option Key)
          → Keeps I P (
              sign_with c h.temp h.now
                (h.temp q)
                k
                (manifest_version (pickle.manifest bundle))
                (some (signature_path q))
                (some q.name))
      signed none = Keeps-pure I P sub none
      signed (some k) =
          Keeps-bind I P sub _ _
            (Keeps-bind I P sub _ _ (Keeps-read I P sub (h.temp q)) (λ _. Keeps-pure I P sub _))
            (λ e. Keeps-bind I P sub _ _ (write_envelope-Keeps e) (λ _. Keeps-pure I P sub _))

  drop_signature-Keeps : (key : Option Key) → Keeps I P (drop_signature c pickle h key q)
  unfolding drop_signature
  drop_signature-Keeps none = Keeps-unlink I P sub (signature_path q) apart.signature
  drop_signature-Keeps (some key) = Keeps-pure I P sub tt

  write_sidecars-Keeps : (m : Option (Fields F)) → Keeps I P (write_sidecars c pickle h m q)
  unfolding write_sidecars atomic_write_bytes
  write_sidecars-Keeps none = Keeps-pure I P sub tt
  write_sidecars-Keeps (some end) = Keeps-pure I P sub tt
  write_sidecars-Keeps (some (field k v d)) =
      Keeps-bind I P sub _ _
        (Keeps-publish I P sub _ h.temp (manifest_path q) _ (pure tt) apart.manifest_temp
          apart.manifest (Keeps-pure I P sub tt))
        λ _. Keeps-bind I P sub _ _ (Keeps-ask I P sub _) λ text.
          Keeps-publish I P sub _ h.temp (card_path q) (h.encode text) (pure tt) apart.card_temp
            apart.card (Keeps-pure I P sub tt)

  -- A property of the files that ignores the eight paths which the save writes holds at every moment of
  -- the save and after it, whatever raises.
  pub save_bundle-Keeps : (bundle : B) → Keeps I P (save_bundle c pickle h bundle q)
  unfolding save_bundle
  save_bundle-Keeps bundle =
      Keeps-bind I P sub _ _ (Keeps-change I P sub (λ fs. fs) (λ _ s. s)) λ _.
        Keeps-bind I P sub _ _ (Keeps-ask I P sub _) λ key.
          Keeps-bind I P sub _ _
            (Keeps-publish I P sub _ h.temp q _ _ apart.artifact_temp apart.artifact
              (signing_hook-Keeps key bundle))
            λ _.
              Keeps-bind I P sub _ _ (drop_signature-Keeps key)
                (λ _. write_sidecars-Keeps (pickle.manifest bundle))
