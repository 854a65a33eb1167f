-- ===== src/Prelude/Text.antt =====
-- Python's `str`, as the native texts. The methods that walk a text work on its code points;
-- `strip` and `lower` are those of ASCII text.
use Prim.Native.Nat.{ℕ, ◌+◌}
use Prim.Native.Char.{Char, code}
use Prim.Native.String.{String, ◌++◌ as ◌<>◌}
use mathlib.Core.Path.{◌≡◌, refl, ap, ◌∙◌}
use text.Mathlib.TextLemmas.{nil-append, cons-append}
use mathlib.Core.Bool.{Bool, true, false, ◌&&◌, ◌||◌}
use mathlib.Core.List.{List, [], ◌∷◌, map}
use edgesense_ai.Prelude.Tests.{◌==◌, leb, if◌then◌else◌}
pub use text.Mathlib.Text.{◌==◌ as str_eq, starts_with}
pub use text.Mathlib.TextEquality.{eq_iff}
pub use text.Mathlib.TextPositions.{eq_refl}

abbrev pub codes : String → List ℕ
codes String.[] = []
codes (String.◌∷◌ c s) = code c ∷ codes s

abbrev pub codes_eq : List ℕ → List ℕ → Bool
codes_eq [] [] = true
codes_eq (c ∷ s) (d ∷ t) = (c == d) && codes_eq s t
codes_eq _ _ = false

is_space : ℕ → Bool
is_space c = c == 32 || (leb 9 c && leb c 13) || (leb 28 c && leb c 31)

lstrip : List ℕ → List ℕ
lstrip [] = []
lstrip (c ∷ s) = let rest = lstrip s in if is_space c then rest else c ∷ s

-- keep a character, unless it is a space with nothing kept behind it
keep : ℕ → List ℕ → List ℕ
keep c [] = if is_space c then [] else c ∷ []
keep c (d ∷ s) = c ∷ d ∷ s

rstrip : List ℕ → List ℕ
rstrip [] = []
rstrip (c ∷ s) = keep c (rstrip s)

lstrip_text : String → String
lstrip_text String.[] = String.[]
lstrip_text (String.◌∷◌ c s) =
    let rest = lstrip_text s in if is_space (code c) then rest else String.◌∷◌ c s

keep_text : Char → String → String
keep_text c String.[] = if is_space (code c) then String.[] else String.◌∷◌ c String.[]
keep_text c (String.◌∷◌ d s) = String.◌∷◌ c (String.◌∷◌ d s)

rstrip_text : String → String
rstrip_text String.[] = String.[]
rstrip_text (String.◌∷◌ c s) = keep_text c (rstrip_text s)

-- `s.strip()`
unfoldable pub strip : String → String
unfolding lstrip_text rstrip_text is_space keep_text
strip s = rstrip_text (lstrip_text s)

lower_code : ℕ → ℕ
lower_code c = if leb b'A' c && leb c b'Z' then c + 32 else c

-- `s.strip().lower()`
unfoldable pub strip_lower : String → List ℕ
unfolding is_space lstrip keep rstrip lower_code
strip_lower s = map lower_code (rstrip (lstrip (codes s)))

-- `x in (a, b, …)`
abbrev pub codes_in : List ℕ → List String → Bool
codes_in x [] = false
codes_in x (a ∷ as') = codes_eq x (codes a) || codes_in x as'

abbrev pub str_in : String → List String → Bool
str_in x [] = false
str_in x (a ∷ as') = str_eq x a || str_in x as'

-- A character in front of the first piece.
abbrev pub cons_piece : Char → List String → List String
cons_piece c [] = String.◌∷◌ c String.[] ∷ []
cons_piece c (piece ∷ pieces) = String.◌∷◌ c piece ∷ pieces

-- `s.split("/")`
unfoldable pub split_slash : String → List String
split_slash String.[] = "" ∷ []
split_slash (String.◌∷◌ c s) =
    let rest = split_slash s in if code c == b'/' then "" ∷ rest else cons_piece c rest

-- A text without a slash.
abbrev pub NoSlash : String → Type 0
NoSlash String.[] = Unit
NoSlash (String.◌∷◌ c s) = (code c == b'/') ≡ false × NoSlash s

pub split_slash-append :
    (s t : String) → NoSlash s → split_slash (s <> ("/" <> t)) ≡ s ∷ split_slash t
unfolding split_slash
split_slash-append String.[] t h =
    ap split_slash (nil-append ("/" <> t) ∙ slash ∙ ap (String.◌∷◌ "/") (nil-append t))
  where
    slash : "/" <> t ≡ String.◌∷◌ "/" (String.[] <> t)
    slash = cons-append "/" String.[] t
split_slash-append (String.◌∷◌ c s) t (h, k) =
    ap split_slash (cons-append c s ("/" <> t)) ∙ rw (h, split_slash-append s t k) refl

pub split_slash-single : (s : String) → NoSlash s → split_slash s ≡ s ∷ []
unfolding split_slash
split_slash-single String.[] h = refl
split_slash-single (String.◌∷◌ c s) (h, k) = rw (h, split_slash-single s k) refl
