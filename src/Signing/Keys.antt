-- ===== src/Signing/Keys.antt =====
-- ml/signing.py: the private key and the trust store, from a text, a file or the environment.
use edgesense_ai.Prelude.{
  ℕ, String, Option, none, some, List, [], ◌∷◌, ◌++◌, codes, str_eq, if◌then◌else◌, bytes_contain,
  bytes_split, Dict, insert,
}
use edgesense_ai.Python.Error.{Result, ok, err, signing, ◌>>=◌}
use edgesense_ai.Python.Json.{Content}
use edgesense_ai.Python.Files.{Fs}
use edgesense_ai.Signing.{Crypto, Environ, key_id}

-- `source or os.environ.get(name)`, and then `if not source`: an empty text counts as none.
abbrev non_empty : Option String → Option String
non_empty none = none
non_empty (some s) = if str_eq s "" then none else some s

unfoldable pub source_or : Option String → Option String → Option String
source_or source variable = elim (non_empty source) [ none ↦ non_empty variable | some s ↦ some s ]

abbrev begin_marker : List ℕ
begin_marker = codes "-----BEGIN"

abbrev end_marker : List ℕ
end_marker = codes "-----END PUBLIC KEY-----"

module _ {F Key PublicKey : Type 0} (c : Crypto F Key PublicKey) where
  abbrev read_bytes : Option (Content F) → Result (List ℕ)
  read_bytes none = err signing
  read_bytes (some content) = ok (c.bytes_of content)

  unfoldable pub pem_bytes : Fs (Content F) → String → Result (List ℕ)
  unfolding bytes_contain
  pem_bytes fs source =
      if bytes_contain (codes source) begin_marker
      then ok (codes source)
      else read_bytes (fs (c.to_path source))

  abbrev ed25519_private : Option (Option Key) → Result (Option Key)
  ed25519_private none = err signing
  ed25519_private (some none) = err signing
  ed25519_private (some (some key)) = ok (some key)

  abbrev private_from : Fs (Content F) → Option String → Result (Option Key)
  private_from fs none = ok none
  private_from fs (some s) = do pem ← pem_bytes fs s; ed25519_private (c.load_pem_private_key pem)

  unfoldable pub load_private_key : Environ → Fs (Content F) → Option String → Result (Option Key)
  unfolding pem_bytes source_or
  load_private_key env fs source = private_from fs (source_or source env.signing_key)

  -- Each piece up to an end marker that holds a begin marker, the end marker put back.
  abbrev key_blocks : List (List ℕ) → List (List ℕ)
  key_blocks [] = []
  key_blocks (piece ∷ pieces) =
      if bytes_contain piece begin_marker
      then (piece ++ end_marker) ∷ key_blocks pieces
      else key_blocks pieces

  abbrev ed25519_public : Option (Option PublicKey) → Result PublicKey
  ed25519_public none = err signing
  ed25519_public (some none) = err signing
  ed25519_public (some (some key)) = ok key

  -- The loop over the blocks: `trusted[key_id(key)] = key`.
  unfoldable pub trust_blocks : List (List ℕ) → Dict PublicKey → Result (Dict PublicKey)
  unfolding key_id
  trust_blocks [] trusted = ok trusted
  trust_blocks (block ∷ blocks) trusted = ed25519_public (c.load_pem_public_key block) >>= λ key.
      trust_blocks blocks (insert (key_id c key) key trusted)

  abbrev trust_all : List (List ℕ) → Result (Dict PublicKey)
  trust_all [] = err signing
  trust_all (b ∷ bs) = trust_blocks (b ∷ bs) []

  abbrev trusted_from : Fs (Content F) → Option String → Result (Dict PublicKey)
  trusted_from fs none = ok []
  trusted_from fs (some s) = do
    pem ← pem_bytes fs s
    trust_all (key_blocks (bytes_split end_marker pem))

  unfoldable pub load_trusted_keys :
      Environ → Fs (Content F) → Option String → Result (Dict PublicKey)
  unfolding pem_bytes source_or trust_blocks bytes_split bytes_contain
  load_trusted_keys env fs source = trusted_from fs (source_or source env.trusted_keys)
