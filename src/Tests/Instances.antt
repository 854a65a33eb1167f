-- ===== src/Tests/Instances.antt =====
-- Concrete libraries: floats as natural numbers, keys as Booleans, and paths, bundles and files for
-- the theorems at concrete inputs.
use edgesense_ai.Prelude.{
  ℕ, ◌+◌, ◌*◌, ◌/◌, ◌-◌, max, String, Bool, true, false, Option, none, some, List, [], ◌∷◌, str_eq,
  if◌then◌else◌, leb, ltb, ◌==◌, Dict,
}
use edgesense_ai.Python.Error.{ok}
use edgesense_ai.Python.Number.{Float}
use edgesense_ai.Python.Json.{Json, Fields, Content, end, field}
use edgesense_ai.Python.Files.{FilePath, Fs, update}
use edgesense_ai.Signing.{Crypto, Environ}
use edgesense_ai.Scoring.{Bundle, Pipelines}
use edgesense_ai.Serving.Metrics.{Metrics, fresh_metrics}
use edgesense_ai.Serving.Load.{Site}

abbrev pub floats : Float ℕ
floats = record {
  zero = 0;
  one = 1;
  add = λ x y. x + y;
  sub = λ x y. x - y;
  mul = λ x y. x * y;
  div = λ x y. x / y;
  abs = λ x. x;
  lt = ltb;
  le = leb;
  eq = λ x y. x == y;
  of_nat = λ n. n;
  maximum = max;
  ln = λ x. x;
  erf = λ x. x;
  sqrt = λ x. x;
  tanh = λ x. x;
  neg = λ x. x;
  is_finite = λ x. true;
  round = λ x n. x;
}

abbrev digest_of : Content ℕ → String
digest_of (Content.raw []) = "00000000000000000000"
digest_of (Content.raw (b ∷ bs)) = if b == 1 then "11111111111111111111" else "22222222222222222222"
digest_of (Content.document j) = "33333333333333333333"

abbrev signature_of : Bool → String → List ℕ
signature_of true message = 1 ∷ []
signature_of false message = 2 ∷ []

abbrev accepts : Bool → List ℕ → String → Bool
accepts true (b ∷ []) message = b == 1
accepts false (b ∷ []) message = b == 2
accepts key _ message = false

abbrev encoded : List ℕ → String
encoded (b ∷ []) = if b == 1 then "AQ==" else "Ag=="
encoded _ = ""

abbrev decoded : String → Option (List ℕ)
decoded s =
    if str_eq s "AQ==" then some (1 ∷ []) else if str_eq s "Ag==" then some (2 ∷ []) else none

abbrev raw_key : Bool → Content ℕ
raw_key true = Content.raw (1 ∷ [])
raw_key false = Content.raw (2 ∷ [])

abbrev pub crypto : Crypto ℕ Bool Bool
crypto = record {
  sha256 = digest_of;
  sign = signature_of;
  verify = accepts;
  public_key = λ k. k;
  raw_public_bytes = raw_key;
  load_pem_private_key = λ bytes. some (some true);
  load_pem_public_key = λ bytes. some (some true);
  b64encode = encoded;
  b64decode = decoded;
  bytes_of = λ c. [];
  json_loads = λ bytes. none;
  to_path = λ s. record { parent = "/keys"; name = s };
}

-- One bundle that any path may hold: two features, no layer.
abbrev pub bundle : Bundle ℕ Bool
bundle = record {
  features = some ("vibration" ∷ "current" ∷ []);
  kind = some "autoencoder";
  scaler_mean = some (1 ∷ 2 ∷ []);
  scaler_scale = some (1 ∷ 1 ∷ []);
  weights =
      some ((record { rows = 2; columns = (1 ∷ 0 ∷ []) ∷ (0 ∷ 1 ∷ []) ∷ [] }, 0 ∷ 0 ∷ []) ∷ []);
  threshold = some 3;
  activation = some "tanh";
  pipeline = none;
  z_guard = some 6;
  manifest = none;
  backend = none;
  scaler_std = none;
  layers = none;
}

abbrev pub pipes : Pipelines ℕ Bool
pipes = record {
  decision_function = λ p x. ok 0;
  predicts_anomaly = λ p x. ok p;
  scaler = λ p. ok ([], []);
}

abbrev pub artifact : FilePath
artifact = record { parent = "/models"; name = "model.joblib" }

abbrev pub artifact_sig : FilePath
artifact_sig = record { parent = "/models"; name = "model.joblib.sig" }

abbrev pub content : Content ℕ
content = Content.raw (1 ∷ [])

abbrev pub store : Dict Bool
store = ("1111111111111111", true) ∷ []

-- An envelope with this digest and key id.
abbrev pub envelope : String → Json ℕ → Fields ℕ
envelope digest signer = field "algorithm" (Json.str "ed25519") (
    field "artifact_sha256" (Json.str digest)
      (field "key_id" signer (field "signature" (Json.str "AQ==") end)))

abbrev pub files : Fields ℕ → Fs (Content ℕ)
files e =
    update (update (λ p. none) artifact (some content)) artifact_sig
      (some (Content.document (Json.obj e)))

abbrev pub lax : Environ
lax = record { signing_key = some "/keys/sign"; trusted_keys = none; require_signature = none }

abbrev pub strict : Environ
strict = record { signing_key = none; trusted_keys = none; require_signature = some "yes" }

abbrev pub site : Site ℕ Bool Bool Bool
site = record {
  floats = floats;
  crypto = crypto;
  env = strict;
  pipes = pipes;
  default_guard = 6;
  joblib_load = λ c. ok (some bundle);
  fetch_champion = λ fs. ok (record { path = artifact; registry_version = "4" });
  model_path = artifact;
  shadow_path = artifact;
  configured = "registry";
  edges = 1 ∷ [];
  eps = 1;
  now = "now";
}

abbrev pub metrics : Metrics ℕ
metrics = fresh_metrics
