-- ===== src/Python/Files.antt =====
-- Paths, a file system as a map from paths, and calls that write files. A call may raise at any of
-- its writes, and keeps the list of the file systems that another process could have seen.
pub mod Hoare
pub mod Atomic
pub mod Keeps
use edgesense_ai.Prelude.{
  ◌≡◌, ◌≢◌, refl, ◌∙◌, String, ◌<>◌, Bool, true, false, ◌&&◌, Option, none, some, List, [], ◌∷◌,
  arith, if◌then◌else◌, str_eq, eq_iff, eq_refl, ◌↔◌, ap,
}
use edgesense_ai.Python.Error.{Result, ok, err, Error, os_error}

-- A path by its parent folder and its last part.
pub record FilePath : Type 0 where
  pub parent : String
  pub name : String

-- `path.with_name(name)`
abbrev pub with_name : FilePath → String → FilePath
with_name p n = record p { name = n }

unfoldable pub path_eq : FilePath → FilePath → Bool
path_eq p q = str_eq p.parent q.parent && str_eq p.name q.name

pub path_eq_iff : (p q : FilePath) → (path_eq p q ≡ true) ↔ (p ≡ q)
unfolding path_eq
path_eq_iff p q = (
  (λ h. ground (arith, eq_iff p.parent q.parent, eq_iff p.name q.name)),
  (λ h. ground (arith, eq_iff p.parent q.parent, eq_iff p.name q.name)),
)

pub path_eq_refl : (p : FilePath) → path_eq p p ≡ true
path_eq_refl p = (path_eq_iff p p).1 refl

pub path_eq_ne : (p q : FilePath) → p ≢ q → path_eq p q ≡ false
path_eq_ne p q h = ground (arith, path_eq_iff p q)

-- The files of a machine, with contents in `C`.
abbrev pub Fs : Type 0 → Type 0
Fs C = FilePath → Option C

module _ {C : Type 0} where
  -- Write or remove one file.
  unfoldable pub update : Fs C → FilePath → Option C → Fs C
  update fs p c q = if path_eq p q then c else fs q

  pub update_self : (fs : Fs C) (p : FilePath) (c : Option C) → update fs p c p ≡ c
  unfolding update
  update_self fs p c = ground (arith, path_eq_refl p)

  pub update_ne : (fs : Fs C) (p q : FilePath) (c : Option C) → p ≢ q → update fs p c q ≡ fs q
  unfolding update
  update_ne fs p q c h = ground (arith, path_eq_ne p q h)

-- The files, whether each of the next writes raises, and the earlier states, newest first.
pub record World (C : Type 0) : Type 0 where
  pub files : Fs C
  pub faults : List Bool
  pub seen : List (Fs C)

abbrev pub Io : Type 0 → Type 0 → Type 0
Io C A = World C → Result A × World C

abbrev reraise : {A : Type 0} → Error → Result (Unit {0}) → Result A
reraise e (ok _) = err e
reraise _ (err e) = err e

module _ {C : Type 0} where
  abbrev pub pure : {A : Type 0} → A → Io C A
  pure a w = (ok a, w)

  abbrev pub raise : {A : Type 0} → Error → Io C A
  raise e w = (err e, w)

  abbrev continue : {A B : Type 0} → Result A → (A → Io C B) → Io C B
  continue (ok a) f w = f a w
  continue (err e) f w = (err e, w)

  infixl 5 ◌>>=◌ ◌>>◌
  unfoldable pub ◌>>=◌ : {A B : Type 0} → Io C A → (A → Io C B) → Io C B
  ◌>>=◌ m f w = let (r, w') = m w in continue r f w'

  abbrev pub ◌>>◌ : {A B : Type 0} → Io C A → Io C B → Io C B
  m >> k = m >>= λ _. k

  -- One atomic change of the file system, or `OSError` before it.
  abbrev change_on : List Bool → (Fs C → Fs C) → Io C Unit
  change_on [] f w = (ok tt, record w { files = f w.files; seen = w.files ∷ w.seen })
  change_on (true ∷ rest) f w = (err os_error, record w { faults = rest })
  change_on (false ∷ rest) f w =
      (ok tt, record { files = f w.files; faults = rest; seen = w.files ∷ w.seen })

  unfoldable pub change : (Fs C → Fs C) → Io C Unit
  change f w = change_on w.faults f w

  abbrev read_content : FilePath → Option C → Io C C
  read_content p none = raise os_error
  read_content p (some c) = pure c

  unfoldable pub read : FilePath → Io C C
  read p w = read_content p (w.files p) w

  -- `os.replace(src, dst)`: the destination takes the content of the source in one step.
  unfoldable pub moved : FilePath → FilePath → Fs C → Fs C
  moved src dst fs = update (update fs dst (fs src)) src none

  abbrev cleaned : {A : Type 0} → Io C Unit → Result A → Io C A
  cleaned clean (ok a) w = (ok a, w)
  cleaned clean (err e) w = let (r, w') = clean w in (reraise e r, w')

  -- `try: … except BaseException: clean; raise`, where a failing `clean` raises in its place
  unfoldable pub on_error : {A : Type 0} → Io C A → Io C Unit → Io C A
  on_error m clean w = let (r, w') = m w in cleaned clean r w'

-- A call that reads the files and may raise.
abbrev pub ask : {C A : Type 0} → (Fs C → Result A) → Io C A
ask f w = (f w.files, w)

module _ {C : Type 0} where
  pub moved_dst : (src dst : FilePath) (fs : Fs C) → src ≢ dst → moved src dst fs dst ≡ fs src
  unfolding moved
  moved_dst src dst fs h = update_ne _ src dst none h ∙ update_self fs dst (fs src)

  pub moved_other :
      (src dst p : FilePath) (fs : Fs C) → src ≢ p → dst ≢ p → moved src dst fs p ≡ fs p
  unfolding moved
  moved_other src dst p fs h k = update_ne _ src p none h ∙ update_ne fs dst p (fs src) k
