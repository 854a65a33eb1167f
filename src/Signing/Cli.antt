-- ===== src/Signing/Cli.antt =====
-- ml/signing.py: the commands `keygen`, `sign` and `verify`, with their parsed arguments, and the exit code of `main`. What
-- they print is left out, but not the keys that printing reads.
pub mod Outcome
use edgesense_ai.Prelude.{
  ℕ, String, ◌<>◌, Bool, true, false, ◌&&◌, not, Option, none, some, List, [], Dict, is_none,
  str_eq, if◌then◌else◌,
}
use edgesense_ai.Python.Error.{
  Result, ok, err, signing, verification, value_error, type_error, key_error, or_raise,
}
use edgesense_ai.Python.Json.{Fields, Content, get}
use edgesense_ai.Python.Files.{FilePath, with_name, Fs, World, Io, pure, ask, change, ◌>>=◌, ◌>>◌}
use edgesense_ai.Python.Files.Atomic.{write}
use edgesense_ai.Signing.{Crypto, Environ, Status, verified, unsigned, unverifiable, key_id}
use edgesense_ai.Signing.Keys.{load_private_key, load_trusted_keys}
use edgesense_ai.Signing.Envelope.{sign_artifact}
use edgesense_ai.Signing.Verdict.{shown_key, cmd_verify}
use edgesense_ai.Manifest.Card.{stem_of}

pub data Command : Type 0 where
  keygen : FilePath → Bool → Command
  sign : FilePath → Option String → Command
  verify : FilePath → Option String → Bool → Command

-- What the commands take from their surroundings; `keypair` is what `generate_keypair` returns, and `temp` and
-- `now` are as for a save.
pub record Terminal : Type 0 where
  pub env : Environ
  pub temp : FilePath → FilePath
  pub now : String
  pub keypair : Result (List ℕ × List ℕ)

unfoldable pub public_out : FilePath → FilePath
unfolding stem_of
public_out out = with_name out (stem_of out.name <> ".pub.pem")

module _ {F Key PublicKey : Type 0} (c : Crypto F Key PublicKey) (t : Terminal) where
  -- The private key's file is created empty, with its mode, before the key is written.
  unfoldable pub write_keys : FilePath → Io (Content F) ℕ
  write_keys out = do
    pair ← ask (λ _. t.keypair)
    write out (Content.raw [])
    write out (Content.raw pair.0)
    write (public_out out) (Content.raw pair.1)
    ask (λ _. shown_key c t.env pair.1)
    pure 0

  abbrev pub keygen_on : Bool → FilePath → Io (Content F) ℕ
  keygen_on true out = pure 1
  keygen_on false out = write_keys out

  -- `out.parent.mkdir` changes no file.
  unfoldable pub cmd_keygen : FilePath → Bool → Io (Content F) ℕ
  cmd_keygen out force = do
    change (λ fs. fs)
    refused ← ask (λ fs. ok (not (is_none (fs out)) && not force))
    keygen_on refused out

  abbrev pub sign_by : FilePath → Option Key → Io (Content F) ℕ
  sign_by artifact none = pure 1
  sign_by artifact (some key) = do
    sign_artifact c t.env t.temp t.now artifact (some key) none none none
    pure 0

  unfoldable pub cmd_sign : FilePath → Option String → Io (Content F) ℕ
  cmd_sign artifact source = do
    key ← ask (λ fs. load_private_key c t.env fs source)
    sign_by artifact key

  abbrev pub run : Command → Io (Content F) ℕ
  run (keygen out force) = cmd_keygen out force
  run (sign artifact source) = cmd_sign artifact source
  run (verify artifact source require) = ask (λ fs. cmd_verify c t.env fs artifact source require)

  -- `except SigningError`
  abbrev pub caught : Result ℕ × World (Content F) → Result ℕ × World (Content F)
  caught (err signing, w) = (ok 2, w)
  caught (r, w) = (r, w)

  unfoldable pub main : Command → Io (Content F) ℕ
  main command w = caught (run command w)
