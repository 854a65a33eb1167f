-- ===== src/Tests/Saving.antt =====
-- A signed save that replaces an artifact, with a fault at its third write.
use edgesense_ai.Prelude.{
  ℕ, ◌<>◌, Bool, true, false, none, some, [], ◌∷◌, ◌≡◌, ◌≢◌, refl, ap, All, str_eq,
}
use edgesense_ai.Python.Error.{ok}
use edgesense_ai.Python.Json.{Content}
use edgesense_ai.Python.Files.{FilePath, Fs, World, update, path_eq, path_eq_iff, with_name}
use edgesense_ai.Signing.{Environ, signature_path}
use edgesense_ai.Signing.Keys.{load_private_key}
use edgesense_ai.Manifest.Save.{Pickle, Host, save_bundle}
use edgesense_ai.Manifest.Save.Pair.{IsClear}
use edgesense_ai.Manifest.Save.Publication.{Before, Visible, Saved, save_bundle-Visible}
use edgesense_ai.Manifest.Save.Readers.{Answer, save_bundle_readers}
use edgesense_ai.Python.Files.Hoare.{Ensures}
use edgesense_ai.Tests.Instances.{crypto, floats, artifact, store, lax}
use edgesense_ai.Tests.Signing.{sound, false_ne}
use edgesense_ai.Manifest.Card.{manifest_path, card_path, stem_of}

-- Bundles are Booleans here.
abbrev pickle : Pickle ℕ Bool
pickle = record { dump = λ b. Content.raw (1 ∷ []); load = λ c. some true; manifest = λ b. none }

abbrev temp : FilePath → FilePath
temp p = with_name p (p.name <> ".tmp")

abbrev host : Host ℕ
host = record {
  env = lax;
  temp = temp;
  now = "now";
  show = λ j. "";
  encode = λ s. Content.raw [];
  floats = floats;
}

abbrev old : Content ℕ
old = Content.raw []

abbrev key_file : FilePath
key_file = record { parent = "/keys"; name = "/keys/sign" }

abbrev disk : Fs (Content ℕ)
disk = update (update (λ p. none) artifact (some old)) key_file (some (Content.raw (7 ∷ [])))

abbrev world : World (Content ℕ)
world = record { files = disk; faults = false ∷ false ∷ true ∷ []; seen = [] }

apart : (p q : FilePath) → path_eq p q ≡ false → p ≢ q
apart p q h e = cc (h, (path_eq_iff p q).1 e)

clear : IsClear temp artifact
unfolding path_eq signature_path manifest_path card_path stem_of
clear = record {
  signature = apart (signature_path artifact) artifact refl;
  temp_path = apart (temp artifact) artifact refl;
  temp_sig = apart (temp artifact) (signature_path artifact) refl;
  temp_of_sig = apart (temp (signature_path artifact)) artifact refl;
  temp_of_sig_sig = apart (temp (signature_path artifact)) (signature_path artifact) refl;
  temps = apart (temp (signature_path artifact)) (temp artifact) refl;
  sig_temp = apart (signature_path artifact) (temp artifact) refl;
  manifest = apart (manifest_path artifact) artifact refl;
  manifest_sig = apart (manifest_path artifact) (signature_path artifact) refl;
  temp_of_manifest = apart (temp (manifest_path artifact)) artifact refl;
  temp_of_manifest_sig = apart (temp (manifest_path artifact)) (signature_path artifact) refl;
  card = apart (card_path artifact) artifact refl;
  card_sig = apart (card_path artifact) (signature_path artifact) refl;
  temp_of_card = apart (temp (card_path artifact)) artifact refl;
  temp_of_card_sig = apart (temp (card_path artifact)) (signature_path artifact) refl;
}

digests_differ : crypto.sha256 old ≢ crypto.sha256 (pickle.dump true)
digests_differ e = false_ne (ap (λ s. str_eq s "11111111111111111111") e)

save_bundle_readers_example :
    let w' = (save_bundle crypto pickle host true artifact world).1 in
    All (Answer crypto sound pickle host true artifact lax store none disk) (w'.files ∷ w'.seen)
unfolding load_private_key update path_eq edgesense_ai.Signing.key_id
save_bundle_readers_example =
    save_bundle_readers crypto sound pickle host true artifact lax store none true old world clear
      refl refl refl digests_differ refl

save_bundle-Visible_example :
    Ensures
      (Visible crypto pickle host true artifact (some old) none (some true))
      (λ fs.
        Before crypto pickle host true artifact (some old) none fs
        × (load_private_key crypto host.env fs none ≡ ok (some true)))
      (save_bundle crypto pickle host true artifact)
      (λ _. Saved crypto pickle host true artifact (some old) none (some true))
      (Visible crypto pickle host true artifact (some old) none (some true))
save_bundle-Visible_example =
    save_bundle-Visible crypto pickle host true artifact (some old) none clear (some true)
