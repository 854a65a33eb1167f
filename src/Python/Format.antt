-- ===== src/Python/Format.antt =====
-- Python's text of numbers: `str` of an int, and the format specifications that the program uses, which
-- are a parameter for floats.
use edgesense_ai.Prelude.{
  ◌≡◌, refl, ℕ, zero, suc, ◌/◌, ◌%◌, String, ◌<>◌, Option, ltb, if◌then◌else◌,
}
use edgesense_ai.Python.Error.{Result}
use edgesense_ai.Python.Json.{Json}

-- One digit, for numbers below ten.
abbrev pub digit_text : ℕ → String
digit_text zero = "0"
digit_text (suc zero) = "1"
digit_text (suc (suc zero)) = "2"
digit_text (suc (suc (suc zero))) = "3"
digit_text (suc (suc (suc (suc zero)))) = "4"
digit_text (suc (suc (suc (suc (suc zero))))) = "5"
digit_text (suc (suc (suc (suc (suc (suc zero)))))) = "6"
digit_text (suc (suc (suc (suc (suc (suc (suc zero))))))) = "7"
digit_text (suc (suc (suc (suc (suc (suc (suc (suc zero)))))))) = "8"
digit_text _ = "9"

-- The decimal digits, highest first; a fuel above the number is enough, since each round divides it.
decimal : ℕ → ℕ → String
decimal zero n = ""
decimal (suc fuel) n =
    let high = decimal fuel (n / 10) in
    if ltb n 10 then digit_text n else high <> digit_text (n % 10)

-- `str(n)`
unfoldable pub show_nat : ℕ → String
unfolding decimal
show_nat n = decimal (suc n) n

show_1169 : show_nat 1169 ≡ "1169"
unfolding show_nat
show_1169 = refl

-- The format specifications, `repr` and the text of the clock. A specification for numbers raises
-- `ValueError` for another value.
pub record Format (F : Type 0) : Type 0 where
  -- `{x:.3%}`, `{x:.2e}`, `{x:.1f}`
  pub percent : F → ℕ → String
  pub scientific : F → ℕ → String
  pub fixed : F → ℕ → String
  -- `{n:,}`
  pub grouped : ℕ → String
  pub json_percent : Json F → ℕ → Result String
  pub json_grouped : Json F → Result String
  pub repr : Option (Json F) → String
  pub now : String
