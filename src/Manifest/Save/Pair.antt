-- ===== src/Manifest/Save/Pair.antt =====
-- The artifact and its signature sidecar, as a reader of the two finds them.
use edgesense_ai.Prelude.{◌≡◌, ◌≢◌, ◌∙◌, Option}
use edgesense_ai.Python.Files.{FilePath, Fs, pure, update, update_ne, moved, moved_other}
use edgesense_ai.Python.Files.Hoare.{Ensures, Ensures-pure}
use edgesense_ai.Python.Files.Atomic.{publish, Ensures-publish}
use edgesense_ai.Signing.{signature_path}
use edgesense_ai.Manifest.Card.{manifest_path, card_path}

-- The names of the temporary files and of the sidecars keep clear of the artifact and of its
-- signature.
pub record IsClear (temp : FilePath → FilePath) (path : FilePath) : Type 0 where
  pub signature : signature_path path ≢ path
  pub temp_path : temp path ≢ path
  pub temp_sig : temp path ≢ signature_path path
  pub temp_of_sig : temp (signature_path path) ≢ path
  pub temp_of_sig_sig : temp (signature_path path) ≢ signature_path path
  pub temps : temp (signature_path path) ≢ temp path
  pub sig_temp : signature_path path ≢ temp path
  pub manifest : manifest_path path ≢ path
  pub manifest_sig : manifest_path path ≢ signature_path path
  pub temp_of_manifest : temp (manifest_path path) ≢ path
  pub temp_of_manifest_sig : temp (manifest_path path) ≢ signature_path path
  pub card : card_path path ≢ path
  pub card_sig : card_path path ≢ signature_path path
  pub temp_of_card : temp (card_path path) ≢ path
  pub temp_of_card_sig : temp (card_path path) ≢ signature_path path

-- The artifact and its signature, as a reader finds them.
pub record Holds {C : Type 0} (path : FilePath) (artifact signature : Option C) (fs : Fs C)
    : Type 0 where
  pub artifact_is : fs path ≡ artifact
  pub signature_is : fs (signature_path path) ≡ signature

module _ {C : Type 0} (path : FilePath) where
  pub Holds-update :
      (a s : Option C) (fs : Fs C) (p : FilePath) (x : Option C)
      → p ≢ path
      → p ≢ signature_path path
      → Holds path a s fs
      → Holds path a s (update fs p x)
  Holds-update a s fs p x np ns h = record {
    artifact_is = update_ne fs p path x np ∙ h.artifact_is;
    signature_is = update_ne fs p (signature_path path) x ns ∙ h.signature_is;
  }

  pub Holds-moved :
      (a s : Option C) (fs : Fs C) (src dst : FilePath)
      → src ≢ path
      → src ≢ signature_path path
      → dst ≢ path
      → dst ≢ signature_path path
      → Holds path a s fs
      → Holds path a s (moved src dst fs)
  Holds-moved a s fs src dst sp ss dp ds h = record {
    artifact_is = moved_other src dst path fs sp dp ∙ h.artifact_is;
    signature_is = moved_other src dst (signature_path path) fs ss ds ∙ h.signature_is;
  }

  -- A file other than the two is published: a reader of the two sees no change.
  pub publish_other :
      {I : Fs C → Type 0} (a s : Option C) (empty : C) (temp : FilePath → FilePath) (p : FilePath)
      (content : C)
      → ((fs : Fs C) → Holds path a s fs → I fs)
      → temp p ≢ path
      → temp p ≢ signature_path path
      → p ≢ path
      → p ≢ signature_path path
      → Ensures I
          (Holds path a s)
          (publish empty temp p content (pure tt))
          (λ _. Holds path a s)
          (Holds path a s)
  publish_other a s empty temp p content hi tp ts np ns =
      Ensures-publish {M = Holds path a s} empty temp p content (pure tt) hi hi hi (λ _ h. h)
        (λ _ h. h) (λ fs x h. Holds-update a s fs (temp p) x tp ts h)
        (λ fs x h. Holds-update a s fs (temp p) x tp ts h) (Ensures-pure tt)
        (λ fs h _. Holds-moved a s fs (temp p) p tp ts np ns h)
