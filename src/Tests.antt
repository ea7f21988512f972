-- ===== src/Tests.antt =====
-- Runs of the model at concrete inputs: an environment that answers in a fixed way, and a database of
-- one tenant with a verified account (ann) that is signed in.
pub mod Runs
pub mod Flows
pub mod Provider
pub mod Pages
pub mod Tables
pub mod Settings
pub mod Jwt
use an.Prelude.{
  ◌=ℕ=◌, ◌≡◌, ◌≢◌, eq_true, arith, ℕ, zero, suc, ◌+◌, String, ◌==◌, ◌<>◌, len, Bool, true, false,
  Option, none, some, List, [], ◌∷◌, leb, if◌then◌else◌,
}
use an.Error.{Result, ok, err}
use an.Rows.{RefreshToken, AccountRow, Session, FailedAttempt, LogonCode, PasswordReset}
use an.World.{
  Db, World, Env, Config, Claims, Header, LoadedKeys, Comparison, same, mismatch, JwtOutcome,
  parsed, rejected,
}
use an.Utils.Secrets.{sha256_hex}

abbrev pub zeros : ℕ → List ℕ
zeros zero = []
zeros (suc n) = 0 ∷ zeros n

abbrev pub config : Config
config = record {
  password_cost = 4;
  reset_expiry = 50;
  code_expiry = 50;
  max_attempts = 3;
  lockout_duration = 1000;
  issuer = "an";
  audience = "app";
  access_expiry = 60;
  refresh_expiry = 600;
  auth_code_expiry = 60;
  oidc_access_expiry = 60;
  oidc_refresh_expiry = 600;
  bootstrap_key = "root";
}

-- The claims of every token that the parser of the tests accepts
abbrev pub ann_claims : Claims
ann_claims = record {
  tenant_id = "t";
  client_id = "web";
  id = "jti";
  subject = "ann@x.io";
  issuer = "an";
  audience = "app" ∷ [];
  expires_at = 900;
  issued_at = 100;
  not_before = 100;
}

abbrev pub env : Env
env = record {
  config = config;
  clock = λ n. 100 + n;
  fault = λ n. false;
  random_bytes = λ n k. some (zeros k);
  random_int = λ n k. some 7;
  uuid_v7 = λ n. some "fresh";
  uuid_parse = λ s. true;
  uuid_cast = λ s. true;
  sha256 = λ s. len s ∷ [];
  bcrypt_generate = λ n cost s. some ("h" <> s);
  bcrypt_compare = λ hash s. if hash == ("h" <> s) then same else mismatch;
  parse_public_key = λ s. ok s;
  parse_private_key = λ s. ok s;
  generate_rsa = λ n. some ("private", "public");
  jwt_sign = λ header claims key. ok claims.id;
  jwt_parse = λ time token key issuer audience. parsed ann_claims true;
  format_time = λ n. "then";
  driver_message = λ e. "driver";
}

-- The calls of the driver from the seventh step on fail.
abbrev pub failing : Env
failing = record env { fault = λ n. leb 6 n }

abbrev pub ann : AccountRow
ann = record {
  id = "id-ann";
  tenant_id = "t";
  email = "ann@x.io";
  name = none;
  verified = true;
  enabled = true;
  deleted = false;
  created = 1;
  modified = 1;
  password_hash = "hcorrect horse";
  verification_hash = none;
}

abbrev pub ann_session : Session
ann_session = record {
  id = "id-session";
  tenant_id = "t";
  email = "ann@x.io";
  client_id = "web";
  refresh_jti = "jti";
  expires = 900;
  created = 1;
  modified = 1;
}

abbrev pub db : Db
db = record {
  tenants = [];
  api_keys = [];
  signing_keys = [];
  accounts = ann ∷ [];
  social_logins = [];
  password_resets =
      (record {
        tenant_id = "t";
        email = "ann@x.io";
        token_hash = "05";
        expires = 900;
        created = 1;
      })
      ∷ [];
  sessions = ann_session ∷ [];
  failed_attempts = [];
  logon_codes =
      (record {
        tenant_id = "t";
        email = "ann@x.io";
        code_hash = "h123456";
        expires = 900;
        created = 1;
      })
      ∷ [];
  auth_requests = [];
  refresh_tokens = [];
  access_tokens = [];
  browser_sessions = [];
  clients = [];
}

abbrev pub keys : LoadedKeys
keys = record { signing_kid = "kid"; signing_key = "private"; public_keys = ("kid", "public") ∷ [] }

abbrev pub world_of : Db → World
world_of db = record { db = db; keys = keys; provider_keys = none; step = 0 }

abbrev pub world : World
world = world_of db

-- ann is locked until 500.
abbrev pub locked_row : FailedAttempt
locked_row = record {
  tenant_id = "t";
  email = "ann@x.io";
  count = 3;
  locked_until = some 500;
  modified = 1;
}

abbrev pub locked : World
locked = world_of (record db { failed_attempts = locked_row ∷ [] })

-- A database without accounts
abbrev pub empty : World
empty = world_of (record db { accounts = [] })

-- ann has no session.
abbrev pub signed_out : World
signed_out = world_of (record db { sessions = [] })

-- Texts that the test tells apart are different.
pub different : (s t : String) → (s == t) ≡ false → s ≢ t
different s t h e = let k = eq_true e in ground arith

-- A refresh token of the provider for ann
abbrev pub grant : RefreshToken
grant = record {
  id = "grant";
  token_hash = "05";
  tenant_id = "t";
  client_id = "web";
  subject = "id-ann";
  audience = "web" ∷ [];
  scopes = "openid" ∷ [];
  amr = [];
  auth_time = 1;
  expires = 900;
  created = 1;
}

abbrev pub granted : World
granted = world_of (record db { refresh_tokens = grant ∷ [] })
