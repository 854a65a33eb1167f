-- ===== src/Signing.antt =====
-- ml/signing.py: what the functions of the module share. The cryptography library, the JSON parser,
-- base64 and the hash are parameters; so is the reading of a path from a text.
pub mod Keys
pub mod Envelope
pub mod Verify
pub mod Verdict
pub mod Cli
use edgesense_ai.Prelude.{
  ℕ, String, ◌<>◌, Bool, Option, none, some, List, strip_lower, codes_in, [], ◌∷◌, or_else,
}
use edgesense_ai.Python.Json.{Content, Json}
use edgesense_ai.Python.Files.{FilePath, with_name}
use Prim.Native.String.{slice}

-- What `cryptography`, `hashlib`, `base64`, `json` and `pathlib` give to the module. A key that
-- parses and is not Ed25519 is `some none`.
pub record Crypto (F Key PublicKey : Type 0) : Type 0 where
  pub sha256 : Content F → String
  pub sign : Key → String → List ℕ
  pub verify : PublicKey → List ℕ → String → Bool
  pub public_key : Key → PublicKey
  pub raw_public_bytes : PublicKey → Content F
  pub load_pem_private_key : List ℕ → Option (Option Key)
  pub load_pem_public_key : List ℕ → Option (Option PublicKey)
  pub b64encode : List ℕ → String
  pub b64decode : String → Option (List ℕ)
  pub bytes_of : Content F → List ℕ
  pub json_loads : List ℕ → Option (Json F)
  pub to_path : String → FilePath

-- The environment variables that the module reads.
pub record Environ : Type 0 where
  pub signing_key : Option String
  pub trusted_keys : Option String
  pub require_signature : Option String

abbrev pub domain : String
domain = "edgesense-model-signature-v1\n"

abbrev pub algorithm : String
algorithm = "ed25519"

abbrev pub signature_suffix : String
signature_suffix = ".sig"

-- The outcomes `VERIFIED`, `UNSIGNED` and `UNVERIFIABLE`.
pub data Status : Type 0 where
  verified unsigned unverifiable : Status

unfoldable pub truthy : Option String → Bool
unfolding strip_lower
truthy value = codes_in (strip_lower (or_else value "")) ("1" ∷ "true" ∷ "yes" ∷ "on" ∷ [])

unfoldable pub signature_path : FilePath → FilePath
signature_path p = with_name p (p.name <> signature_suffix)

unfoldable pub signed_message : String → String
signed_message sha256_hex = domain <> sha256_hex

module _ {F Key PublicKey : Type 0} (c : Crypto F Key PublicKey) where
  -- The first 16 digits of the hash of the raw key.
  unfoldable pub key_id : PublicKey → String
  key_id k = slice (c.sha256 (c.raw_public_bytes k)) 0 16
