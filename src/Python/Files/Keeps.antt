-- ===== src/Python/Files/Keeps.antt =====
-- Calls that leave a property of the files alone, at every moment and however they end.
use edgesense_ai.Prelude.{Option, none, some}
use edgesense_ai.Python.Error.{Result}
use edgesense_ai.Python.Files.{
  FilePath, Fs, Io, ◌>>=◌, pure, ask, read, read_content, change, update, moved,
}
use edgesense_ai.Python.Files.Hoare.{
  Ensures, Ensures-bind, Ensures-change, Ensures-on_error, Ensures-ask_any, Ensures-pure,
}
use edgesense_ai.Python.Files.Atomic.{publish, write, unlink, replace}

-- `I` holds at every moment, and `P` at the end.
abbrev pub Keeps : {C A : Type 0} → (I P : Fs C → Type 0) → Io C A → Type 0
Keeps I P m = Ensures I P m (λ _. P) P

-- What is written at this path does not matter to the property.
abbrev pub Ignores : {C : Type 0} → (Fs C → Type 0) → FilePath → Type 0
Ignores {C} P p = (fs : Fs C) (c : Option C) → P fs → P (update fs p c)

module _ {C : Type 0} (I P : Fs C → Type 0) (sub : (fs : Fs C) → P fs → I fs) where
  pub Keeps-pure : {A : Type 0} (a : A) → Keeps I P (pure a)
  Keeps-pure a = Ensures-pure a

  pub Keeps-bind :
      {A B : Type 0} (m : Io C A) (f : A → Io C B)
      → Keeps I P m
      → ((a : A) → Keeps I P (f a))
      → Keeps I P (m >>= f)
  Keeps-bind m f hm hf = Ensures-bind {Q = λ _. P} m f hm hf

  pub Keeps-ask : {A : Type 0} (f : Fs C → Result A) → Keeps I P (ask f)
  Keeps-ask f = Ensures-ask_any f (λ _ h. h)

  pub Keeps-change : (f : Fs C → Fs C) → ((fs : Fs C) → P fs → P (f fs)) → Keeps I P (change f)
  Keeps-change f hf = Ensures-change f sub hf (λ _ h. h)

  read_content_kept : (p : FilePath) (o : Option C) → Keeps I P (read_content p o)
  read_content_kept p none = record { at = λ w h seen. (seen, h) }
  read_content_kept p (some c) = Ensures-pure c

  pub Keeps-read : (p : FilePath) → Keeps I P (read p)
  unfolding read
  Keeps-read p = record { at = λ w h seen. (read_content_kept p (w.files p)).at w h seen }

  pub Keeps-write : (p : FilePath) (c : C) → Ignores P p → Keeps I P (write p c)
  unfolding write
  Keeps-write p c hp = Keeps-change _ (λ fs h. hp fs (some c) h)

  pub Keeps-unlink : (p : FilePath) → Ignores P p → Keeps I P (unlink p)
  unfolding unlink
  Keeps-unlink p hp = Keeps-change _ (λ fs h. hp fs none h)

  pub Keeps-replace :
      (src dst : FilePath) → Ignores P src → Ignores P dst → Keeps I P (replace src dst)
  unfolding replace moved
  Keeps-replace src dst hs hd = Keeps-change _ (λ fs h. hs _ none (hd fs (fs src) h))

  pub Keeps-publish :
      (empty : C) (temp : FilePath → FilePath) (p : FilePath) (content : C) (hook : Io C Unit)
      → Ignores P (temp p)
      → Ignores P p
      → Keeps I P hook
      → Keeps I P (publish empty temp p content hook)
  unfolding publish
  Keeps-publish empty temp p content hook ht hp hh =
      Keeps-bind _ _ (Keeps-write (temp p) empty ht) λ _.
        Ensures-on_error _ _
          (Keeps-bind _ _ (Keeps-bind _ _ (Keeps-write (temp p) content ht) (λ _. hh))
            (λ _. Keeps-replace (temp p) p ht hp))
          (Keeps-unlink (temp p) ht)
