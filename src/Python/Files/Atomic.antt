-- ===== src/Python/Files/Atomic.antt =====
-- Publishing a file by a temporary file and `os.replace`. `temp p` is the name that
-- `tempfile.mkstemp` picks beside `p`.
use edgesense_ai.Prelude.{◌≡◌, Option, none, some}
use edgesense_ai.Python.Files.{FilePath, Fs, Io, ◌>>◌, change, on_error, update, moved, update_self}
use edgesense_ai.Python.Files.Hoare.{Ensures, Ensures-bind, Ensures-change, Ensures-on_error}

module _ {C : Type 0} where
  -- Write one file in place; a temporary file is seen half written by nobody who reads the others.
  unfoldable pub write : FilePath → C → Io C Unit
  write p content = change (λ fs. update fs p (some content))

  -- `path.unlink(missing_ok=True)`
  unfoldable pub unlink : FilePath → Io C Unit
  unlink p = change (λ fs. update fs p none)

  unfoldable pub replace : FilePath → FilePath → Io C Unit
  replace src dst = change (moved src dst)

  -- Create the temporary file, fill it, run the hook on it, and move it into place.
  unfoldable pub publish : C → (FilePath → FilePath) → FilePath → C → Io C Unit → Io C Unit
  unfolding write unlink replace
  publish empty temp p content hook =
      write (temp p) empty
      >> on_error (write (temp p) content >> hook >> replace (temp p) p) (unlink (temp p))

  -- The rule for `publish`: `P` before, `M` once the hook has run, `Q` once the file is in place, and
  -- `E` wherever it raises. The temporary file is nobody's concern.
  pub Ensures-publish :
      {I P M Q E : Fs C → Type 0} (empty : C) (temp : FilePath → FilePath) (p : FilePath)
      (content : C) (hook : Io C Unit)
      → ((fs : Fs C) → P fs → I fs)
      → ((fs : Fs C) → M fs → I fs)
      → ((fs : Fs C) → E fs → I fs)
      → ((fs : Fs C) → P fs → E fs)
      → ((fs : Fs C) → M fs → E fs)
      → ((fs : Fs C) (c : Option C) → P fs → P (update fs (temp p) c))
      → ((fs : Fs C) (c : Option C) → E fs → E (update fs (temp p) c))
      → Ensures I
          (λ fs. P fs × (fs (temp p) ≡ some content))
          hook
          (λ _ fs. M fs × (fs (temp p) ≡ some content))
          E
      → ((fs : Fs C) → M fs → fs (temp p) ≡ some content → Q (moved (temp p) p fs))
      → Ensures I P (publish empty temp p content hook) (λ _. Q) E
  unfolding publish write unlink replace
  Ensures-publish {P} {M} {Q} {E} empty temp p content hook pi mi ei pe me keepP keepE hooked
        placed =
      Ensures-bind {Q = λ _. P} _ _ (Ensures-change _ pi (λ fs h. keepP fs (some empty) h) pe) λ _.
        Ensures-on_error _ _
          (Ensures-bind {Q = λ _ fs. M fs × (fs (temp p) ≡ some content)} _ _
            (Ensures-bind {Q = λ _ fs. P fs × (fs (temp p) ≡ some content)} _ _
              (Ensures-change _ pi
                (λ fs h. (keepP fs (some content) h, update_self fs (temp p) (some content))) pe)
              (λ _. hooked))
            (λ _.
              Ensures-change _ (λ fs h. mi fs h.0) (λ fs h. placed fs h.0 h.1) (λ fs h. me fs h.0)))
          (Ensures-change _ ei (λ fs h. keepE fs none h) (λ fs h. h))
