-- ===== src/Signing/Verdict.antt =====
-- ml/signing.py: what the command `verify` reads and returns, and the key that `keygen` shows.
pub mod Require
use edgesense_ai.Prelude.{ℕ, String, Bool, Option, none, some, List, Dict, str_eq, if◌then◌else◌}
use edgesense_ai.Python.Error.{
  Result, ok, err, verification, value_error, type_error, key_error, or_raise, ◌>>=◌,
}
use edgesense_ai.Python.Json.{Fields, Content, get}
use edgesense_ai.Python.Files.{FilePath, Fs}
use edgesense_ai.Signing.{Crypto, Environ, Status, verified, unsigned, unverifiable, key_id}
use edgesense_ai.Signing.Keys.{load_trusted_keys}
use edgesense_ai.Signing.Verify.{verify_artifact}

module _ {F Key PublicKey : Type 0} (c : Crypto F Key PublicKey) (env : Environ) where
  -- `serialization.load_pem_public_key` and `key_id`, which are printed.
  unfoldable pub shown_key : List ℕ → Result String
  unfolding key_id
  shown_key pem = elim (c.load_pem_public_key pem) [
    | none ↦ err value_error
    | some key ↦ elim key [ none ↦ err type_error | some k ↦ ok (key_id c k) ]
  ]

  -- `load_trusted_keys(args.trusted) if args.trusted else None`
  abbrev pub given_keys : Fs (Content F) → Option String → Result (Option (Dict PublicKey))
  given_keys fs none = ok none
  given_keys fs (some s) =
      if str_eq s ""
      then ok none
      else (load_trusted_keys c env fs (some s) >>= λ trusted. ok (some trusted))

  -- What is printed of the envelope.
  abbrev pub verdict_code : Status × Option (Fields F) → Result ℕ
  verdict_code (verified, some envelope) = or_raise (get envelope "key_id") key_error >>= λ _.
      or_raise (get envelope "signed_at") key_error >>= λ _. ok 0
  verdict_code (verified, none) = err type_error
  verdict_code (unverifiable, some envelope) =
      or_raise (get envelope "key_id") key_error >>= λ _. ok 0
  verdict_code (unverifiable, none) = err type_error
  verdict_code (unsigned, envelope) = ok 0

  -- `except VerificationError`
  abbrev pub verify_code : Result (Status × Option (Fields F)) → Result ℕ
  verify_code (ok verdict) = verdict_code verdict
  verify_code (err (verification refusal)) = ok 1
  verify_code (err e) = err e

  -- The option `--require` is handed on as it is, also when it is off.
  unfoldable pub cmd_verify : Fs (Content F) → FilePath → Option String → Bool → Result ℕ
  cmd_verify fs artifact source require = given_keys fs source >>= λ trusted.
      verify_code (verify_artifact c env fs artifact trusted (some require))
