-- ===== src/Signing/Cli/Outcome.antt =====
-- What the exit codes of the signing commands mean.
use edgesense_ai.Prelude.{
  ℕ, String, true, false, ◌≡◌, ◌≢◌, refl, sym, ap, ◌∙◌, Option, none, some, List, [], ◌∷◌, Dict,
  All, arith,
}
use edgesense_ai.Python.Error.{Result, ok, err, ok_inj}
use edgesense_ai.Python.Json.{Json, Content}
use edgesense_ai.Python.Files.{FilePath, Fs, World, pure, moved_other, moved_dst, update_ne}
use edgesense_ai.Python.Files.Hoare.{
  Ensures, Ensures-ask, Ensures-pure_then, Ensures-read, Ensures-bind, Ensures-pure, Ensures-change,
  Post,
}
use edgesense_ai.Python.Files.Atomic.{Ensures-publish}
use edgesense_ai.Signing.{Crypto, signature_path}
use edgesense_ai.Signing.Keys.{load_private_key}
use edgesense_ai.Signing.Envelope.{sign_artifact, build_envelope, write_envelope, envelope_for}
use edgesense_ai.Signing.Verify.{trust_store}
use edgesense_ai.Signing.Verify.RoundTrip.{IsSound, Trusts, verify-sign}
use edgesense_ai.Signing.Verdict.{given_keys, cmd_verify}
use edgesense_ai.Signing.Cli.{Terminal, keygen, sign, cmd_keygen, cmd_sign, sign_by, main, caught}

module _ {F Key PublicKey : Type 0} (c : Crypto F Key PublicKey) (t : Terminal) where
  caught_ok : (r : Result ℕ) (w : World (Content F)) → (caught c t (r, w)).0 ≡ ok 0 → r ≡ ok 0
  caught_ok (ok n) w h = h
  caught_ok (err e) w h = ground arith

  caught_files : (r : Result ℕ) (w : World (Content F)) → (caught c t (r, w)).1 ≡ w
  caught_files (ok n) w = refl
  caught_files (err e) w = ground arith

  unwatched : (seen : List (Fs (Content F))) → All {0, 0} (λ _. Unit) seen
  unwatched [] = tt
  unwatched (fs ∷ seen) = (tt, unwatched seen)

  -- The state of the files when a refused `keygen` ends.
  refused_keygen :
      (out : FilePath) (before : Fs (Content F)) (old : Content F)
      → before out ≡ some old
      → Ensures
          (λ _. Unit)
          (λ fs. fs ≡ before)
          (cmd_keygen c t out false)
          (λ n fs. (n ≡ 1) × (fs ≡ before))
          (λ fs. fs ≡ before)
  unfolding cmd_keygen
  refused_keygen out before old h =
      Ensures-bind {Q = λ _ fs. fs ≡ before} _ _
        (Ensures-change (λ fs. fs) (λ _ _. tt) (λ _ e. e) (λ _ e. e))
        λ _.
          Ensures-ask {Q = λ fs. fs ≡ before} _ true _ (λ fs e. rw (ap (λ f. f out) e ∙ h) refl)
            (λ _ e. e) (record { at = λ w e seen. (seen, (refl, e)) })

  refused_result :
      (before : Fs (Content F)) (r : Result ℕ) (fs : Fs (Content F))
      → Post (λ n fs. (n ≡ 1) × (fs ≡ before)) (λ fs. fs ≡ before) r fs
      → (fs ≡ before) × (r ≢ ok 0)
  refused_result before (ok n) fs h = (h.1, λ e. cc (h.0, ok_inj e))
  refused_result before (err e) fs h = (h, λ e. cc e)

  -- Without `--force`, `keygen` changes no file where its output is there already, and its exit code is not 0.
  pub keygen_keeps_files :
      (out : FilePath) (w : World (Content F)) (old : Content F)
      → w.files out ≡ some old
      → ((main c t (keygen out false) w).1.files ≡ w.files)
        × ((main c t (keygen out false) w).0 ≢ ok 0)
  unfolding main
  keygen_keeps_files out w old h =
      let (r, w') = cmd_keygen c t out false w in
      let done = (refused_keygen out w.files old h).at w refl (unwatched w.seen) in
      let (same, failed) = refused_result w.files r w'.files done.1 in
      (ap (λ w. w.files) (caught_files r w') ∙ same, λ e. failed (caught_ok r w' e))

-- The temporary file beside the sidecar, the sidecar and the artifact are three files.
pub record IsClearSign (temp : FilePath → FilePath) (artifact : FilePath) : Type 0 where
  pub temp_artifact : temp (signature_path artifact) ≢ artifact
  pub temp_sig : temp (signature_path artifact) ≢ signature_path artifact
  pub sig_artifact : signature_path artifact ≢ artifact

module _ {F Key PublicKey : Type 0} (c : Crypto F Key PublicKey) (t : Terminal) where
  -- The artifact and its sidecar after a signature by this key.
  abbrev pub Signed : Content F → Key → FilePath → Fs (Content F) → Type 0
  Signed content key artifact fs =
      (fs artifact ≡ some content)
      × (fs (signature_path artifact)
          ≡ some
              (Content.document (Json.obj (envelope_for c t.now content key none artifact.name))))

  sign_by-Signed :
      (artifact : FilePath) (content : Content F) (key : Key)
      → IsClearSign t.temp artifact
      → Ensures
          (λ _. Unit)
          (λ fs. fs artifact ≡ some content)
          (sign_by c t artifact (some key))
          (λ _. Signed content key artifact)
          (λ fs. fs artifact ≡ some content)
  unfolding sign_artifact build_envelope write_envelope
  sign_by-Signed artifact content key clear =
      Ensures-bind {Q = λ _. Signed content key artifact} _ _
        (Ensures-pure_then (some key) _ (
          Ensures-read artifact content (λ d. envelope_for c t.now d key none artifact.name) _
            (λ fs e. e)
            (Ensures-bind {Q = λ _. Signed content key artifact} _ _
              (Ensures-publish {M = λ fs. fs artifact ≡ some content}
                {E = λ fs. fs artifact ≡ some content} _ t.temp (signature_path artifact) _
                (pure tt) (λ _ _. tt) (λ _ _. tt) (λ _ _. tt) (λ _ e. e) (λ _ e. e)
                (λ fs x e. update_ne fs _ artifact x clear.temp_artifact ∙ e)
                (λ fs x e. update_ne fs _ artifact x clear.temp_artifact ∙ e) (Ensures-pure tt)
                (λ fs e d. (
                  moved_other _ _ artifact fs clear.temp_artifact clear.sig_artifact ∙ e,
                  moved_dst _ _ fs clear.temp_sig ∙ d,
                )))
              (λ _. Ensures-pure _))))
        (λ _. Ensures-pure 0)

  cmd_sign-Signed :
      (artifact : FilePath) (source : Option String) (content : Content F) (key : Key)
      → IsClearSign t.temp artifact
      → Ensures
          (λ _. Unit)
          (λ fs.
            (fs artifact ≡ some content) × (load_private_key c t.env fs source ≡ ok (some key)))
          (cmd_sign c t artifact source)
          (λ _. Signed content key artifact)
          (λ fs. fs artifact ≡ some content)
  unfolding cmd_sign
  cmd_sign-Signed artifact source content key clear =
      Ensures-ask _ (some key) _ (λ _ h. h.1) (λ _ h. h.0)
        (sign_by-Signed artifact content key clear)

  Signed-result :
      (artifact : FilePath) (content : Content F) (key : Key) (r : Result ℕ) (fs : Fs (Content F))
      → Post (λ _. Signed content key artifact) (λ fs. fs artifact ≡ some content) r fs
      → r ≡ ok 0
      → Signed content key artifact fs
  Signed-result artifact content key (ok n) fs h e = h
  Signed-result artifact content key (err x) fs h e = cc e

  Signed-at :
      (content : Content F) (key : Key) (artifact : FilePath) {w w' : World (Content F)}
      → w ≡ w'
      → Signed content key artifact w.files
      → Signed content key artifact w'.files
  Signed-at content key artifact e h = rw (sym e) h

  verify-Signed :
      (sound : IsSound c) (artifact : FilePath) (trusted : Option String) (content : Content F)
      (key : Key) (given : Option (Dict PublicKey)) (store : Dict PublicKey) (fs : Fs (Content F))
      → Signed content key artifact fs
      → given_keys c t.env fs trusted ≡ ok given
      → trust_store c t.env fs given ≡ ok store
      → Trusts c sound store key
      → cmd_verify c t.env fs artifact trusted true ≡ ok 0
  unfolding cmd_verify envelope_for
  verify-Signed sound artifact trusted content key given store fs (kept, signed) known stored
        trusts =
      let valid =
        verify-sign c sound t.env fs artifact given (some true) store t.now content key none
          artifact.name stored trusts kept signed in
      rw (known, valid) refl

  -- An artifact that the command `sign` signed with exit code 0 passes `verify --require`, which then has exit code 0,
  -- for every trust store in which the signer's public key stands under its own id.
  pub verify-sign_exit :
      (sound : IsSound c) (artifact : FilePath) (source trusted : Option String)
      (content : Content F) (key : Key) (given : Option (Dict PublicKey)) (store : Dict PublicKey)
      (w : World (Content F))
      → IsClearSign t.temp artifact
      → w.files artifact ≡ some content
      → load_private_key c t.env w.files source ≡ ok (some key)
      → (main c t (sign artifact source) w).0 ≡ ok 0
      → given_keys c t.env (main c t (sign artifact source) w).1.files trusted ≡ ok given
      → trust_store c t.env (main c t (sign artifact source) w).1.files given ≡ ok store
      → Trusts c sound store key
      → cmd_verify c t.env (main c t (sign artifact source) w).1.files artifact trusted true ≡ ok 0
  unfolding main
  verify-sign_exit sound artifact source trusted content key given store w clear there loaded done
        known stored trusts =
      let (r, w') = cmd_sign c t artifact source w in
      let (_, post) =
        (cmd_sign-Signed artifact source content key clear).at w (there, loaded)
          (unwatched c t w.seen) in
      let signed = Signed-result artifact content key r w'.files post (caught_ok c t r w' done) in
      verify-Signed sound artifact trusted content key given store _
        (Signed-at content key artifact (sym (caught_files c t r w')) signed) known stored trusts
