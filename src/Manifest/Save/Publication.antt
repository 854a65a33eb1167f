-- ===== src/Manifest/Save/Publication.antt =====
-- What a reader of the artifact and of its signature can see while `save_bundle` runs.
use edgesense_ai.Prelude.{◌≡◌, sym, ◌∙◌, ◌⊎◌, inl, inr, Option, none, some}
use edgesense_ai.Python.Error.{ok}
use edgesense_ai.Python.Json.{Json, Fields, end, field, Content}
use edgesense_ai.Python.Files.{
  FilePath, Fs, pure, update, update_ne, update_self, moved_dst, moved_other,
}
use edgesense_ai.Python.Files.Hoare.{
  Ensures, Ensures-bind, Ensures-change, Ensures-weaken, Ensures-pure, Ensures-pure_then,
  Ensures-ask, Ensures-ask_any, Ensures-read,
}
use edgesense_ai.Python.Files.Atomic.{publish, unlink, Ensures-publish}
use edgesense_ai.Signing.{Crypto, signature_path}
use edgesense_ai.Signing.Keys.{load_private_key}
use edgesense_ai.Signing.Envelope.{
  sign_artifact, build_envelope, write_envelope, envelope_for, name_or,
}
use edgesense_ai.Manifest.Card.{manifest_path, card_path}
use edgesense_ai.Manifest.Save.{
  Pickle, Host, save_bundle, signing_hook, drop_signature, write_sidecars, atomic_write_bytes,
  manifest_version, empty_file,
}
use edgesense_ai.Manifest.Save.Pair.{IsClear, Holds, Holds-update, publish_other}

module _ {F Key PublicKey B : Type 0} (c : Crypto F Key PublicKey) (pickle : Pickle F B)
    (h : Host F) (bundle : B) (path : FilePath)
    (old_artifact old_signature : Option (Content F)) where
  abbrev pub new_artifact : Content F
  new_artifact = pickle.dump bundle

  abbrev pub new_signature : Key → Content F
  new_signature key = Content.document (
      Json.obj (
        envelope_for c h.now new_artifact key (manifest_version (pickle.manifest bundle))
          (name_or (some path.name) (h.temp path).name)))

  -- What a save leaves behind.
  abbrev pub signature_after : Option Key → Option (Content F)
  signature_after none = none
  signature_after (some key) = some (new_signature key)

  abbrev pub Saved : Option Key → Fs (Content F) → Type 0
  Saved key = Holds path (some new_artifact) (signature_after key)

  -- On the way: with a key the new signature comes first, without one the new artifact does.
  abbrev pub Between : Option Key → Fs (Content F) → Type 0
  Between none = Holds path (some new_artifact) old_signature
  Between (some key) = Holds path old_artifact (some (new_signature key))

  abbrev pub Before : Fs (Content F) → Type 0
  Before = Holds path old_artifact old_signature

  -- What the two files may hold at any time of a save.
  abbrev pub Visible : Option Key → Fs (Content F) → Type 0
  Visible key fs = Before fs ⊎ (Between key fs ⊎ Saved key fs)

  module _ (clear : IsClear h.temp path) where
    Before-temp :
        (fs : Fs (Content F)) (x : Option (Content F))
        → Before fs
        → Before (update fs (h.temp path) x)
    Before-temp fs x b = Holds-update path _ _ fs _ x clear.temp_path clear.temp_sig b

    Between-temp :
        (key : Option Key) (fs : Fs (Content F)) (x : Option (Content F))
        → Between key fs
        → Between key (update fs (h.temp path) x)
    Between-temp none fs x s = Holds-update path _ _ fs _ x clear.temp_path clear.temp_sig s
    Between-temp (some k) fs x s = Holds-update path _ _ fs _ x clear.temp_path clear.temp_sig s

    Visible-temp :
        (key : Option Key) (fs : Fs (Content F)) (x : Option (Content F))
        → Visible key fs
        → Visible key (update fs (h.temp path) x)
    Visible-temp key fs x (inl s) = inl (Before-temp fs x s)
    Visible-temp key fs x (inr (inl s)) = inr (inl (Between-temp key fs x s))
    Visible-temp key fs x (inr (inr s)) =
        inr (inr (Holds-update path _ _ fs _ x clear.temp_path clear.temp_sig s))

    -- The sidecars come last and keep clear of the two files.
    write_sidecars_keeps :
        (key : Option Key) (m : Option (Fields F))
        → Ensures
            (Visible key)
            (Saved key)
            (write_sidecars c pickle h m path)
            (λ _. Saved key)
            (Visible key)
    unfolding write_sidecars atomic_write_bytes
    write_sidecars_keeps key none = Ensures-pure tt
    write_sidecars_keeps key (some end) = Ensures-pure tt
    write_sidecars_keeps key (some (field k v d)) =
        let seen =
          λ (fs : Fs (Content F)) (s : Saved key fs). let r : Visible key fs = inr (inr s) in r in
        Ensures-bind {Q = λ _. Saved key} _ _
          (Ensures-weaken _
            (publish_other path _ _ _ h.temp (manifest_path path) _ seen clear.temp_of_manifest
              clear.temp_of_manifest_sig clear.manifest clear.manifest_sig)
            (λ _ s. s) (λ _ _ s. s) seen)
          λ _. Ensures-bind {Q = λ _. Saved key} _ _ (Ensures-ask_any _ seen) λ text.
            Ensures-weaken _
              (publish_other path _ _ _ h.temp (card_path path) (h.encode text) seen
                clear.temp_of_card clear.temp_of_card_sig clear.card clear.card_sig)
              (λ _ s. s) (λ _ _ s. s) seen

    abbrev Dumped : (Fs (Content F) → Type 0) → Fs (Content F) → Type 0
    Dumped P fs = P fs × (fs (h.temp path) ≡ some new_artifact)

    Dumped-temp_of_sig :
        (fs : Fs (Content F)) (x : Option (Content F))
        → Dumped Before fs
        → Dumped Before (update fs (h.temp (signature_path path)) x)
    Dumped-temp_of_sig fs x s = (
      Holds-update path _ _ fs _ x clear.temp_of_sig clear.temp_of_sig_sig s.0,
      update_ne fs _ (h.temp path) x clear.temps ∙ s.1,
    )

    -- The signature is published: the artifact is still the old one, and the dump stays.
    signature_published :
        (key : Key)
        → Ensures
            (Visible (some key))
            (Dumped Before)
            (write_envelope c h.temp
              (envelope_for c h.now new_artifact key
                (manifest_version (pickle.manifest bundle))
                (name_or (some path.name) (h.temp path).name))
              (signature_path path))
            (λ _. Dumped (Between (some key)))
            (Visible (some key))
    unfolding write_envelope
    signature_published key =
        Ensures-weaken _
          (Ensures-publish {M = Dumped Before} {E = Dumped Before} _ h.temp (signature_path path) _
            (pure tt) (λ fs s. inl s.0) (λ fs s. inl s.0) (λ fs s. inl s.0) (λ _ s. s) (λ _ s. s)
            Dumped-temp_of_sig Dumped-temp_of_sig (Ensures-pure tt)
            (λ fs s e. (
              record {
                artifact_is =
                    moved_other _ _ path fs clear.temp_of_sig clear.signature ∙ s.0.artifact_is;
                signature_is = moved_dst _ _ fs clear.temp_of_sig_sig ∙ e;
              },
              moved_other _ _ (h.temp path) fs clear.temps clear.sig_temp ∙ s.1,
            )))
          (λ _ s. s) (λ _ _ s. s) (λ fs s. inl s.0)

    -- The hook publishes the signature while the artifact is still the old one.
    signing_hook_signs :
        (key : Key)
        → Ensures
            (Visible (some key))
            (Dumped Before)
            (signing_hook c pickle h (some key) bundle path)
            (λ _. Dumped (Between (some key)))
            (Visible (some key))
    unfolding signing_hook sign_artifact build_envelope
    signing_hook_signs key =
        Ensures-bind {Q = λ _. Dumped (Between (some key))} _ _
          (Ensures-pure_then (some key) _ (
            Ensures-read (h.temp path) new_artifact _ _ (λ fs s. s.1)
              (Ensures-bind {Q = λ _. Dumped (Between (some key))} _ _ (signature_published key)
                (λ _. Ensures-pure _))))
          (λ _. Ensures-pure tt)

    -- What the publication of the artifact itself leaves.
    abbrev Published : Option Key → Fs (Content F) → Type 0
    Published none = Between none
    Published (some key) = Saved (some key)

    artifact_lem :
        (key : Option Key)
        → Ensures
            (Visible key)
            Before
            (publish
              (empty_file c pickle h)
              h.temp
              path
              new_artifact
              (signing_hook c pickle h key bundle path))
            (λ _. Published key)
            (Visible key)
    unfolding signing_hook
    artifact_lem none =
        Ensures-publish {M = Before} _ h.temp path new_artifact _ (λ _ s. inl s) (λ _ s. inl s)
          (λ _ s. s) (λ _ s. inl s) (λ _ s. inl s) Before-temp (Visible-temp none) (Ensures-pure tt)
          (λ fs s e. record {
            artifact_is = moved_dst _ _ fs clear.temp_path ∙ e;
            signature_is =
                moved_other _ _ (signature_path path) fs clear.temp_sig
                  (λ e'. clear.signature (sym e'))
                ∙ s.signature_is;
          })
    artifact_lem (some key) =
        Ensures-publish {M = Between (some key)} _ h.temp path new_artifact _ (λ _ s. inl s)
          (λ _ s. inr (inl s)) (λ _ s. s) (λ _ s. inl s) (λ _ s. inr (inl s)) Before-temp
          (Visible-temp (some key)) (signing_hook_signs key)
          (λ fs s e. record {
            artifact_is = moved_dst _ _ fs clear.temp_path ∙ e;
            signature_is =
                moved_other _ _ (signature_path path) fs clear.temp_sig
                  (λ e'. clear.signature (sym e'))
                ∙ s.signature_is;
          })

    signature_dropped :
        (key : Option Key)
        → Ensures
            (Visible key)
            (Published key)
            (drop_signature c pickle h key path)
            (λ _. Saved key)
            (Visible key)
    unfolding drop_signature unlink
    signature_dropped none =
        Ensures-change _ (λ _ s. inr (inl s))
          (λ fs s. record {
            artifact_is = update_ne fs _ path none clear.signature ∙ s.artifact_is;
            signature_is = update_self fs (signature_path path) none;
          })
          (λ _ s. inr (inl s))
    signature_dropped (some key) = Ensures-pure tt

    -- Where the temporary names keep clear of the artifact and of its signature, then whatever
    -- raises, and at every moment, a reader of the two finds the pair of before, the pair of after,
    -- or one pair between: with a signing key the old artifact beside the new signature, with none
    -- the new artifact beside the old signature. A save that returns leaves the new artifact with
    -- its own signature, or with none if there is no key.
    pub save_bundle-Visible :
        (key : Option Key)
        → Ensures
            (Visible key)
            (λ fs. Before fs × (load_private_key c h.env fs none ≡ ok key))
            (save_bundle c pickle h bundle path)
            (λ _. Saved key)
            (Visible key)
    unfolding save_bundle
    save_bundle-Visible key =
        Ensures-bind _ _ (Ensures-change _ (λ _ s. inl s.0) (λ _ s. s) (λ _ s. inl s.0)) λ _.
          Ensures-ask _ key _ (λ _ s. s.1) (λ _ s. s.0)
            (Ensures-bind _ _ (artifact_lem key) λ _.
              Ensures-bind _ _ (signature_dropped key)
                λ _. write_sidecars_keeps key (pickle.manifest bundle))
