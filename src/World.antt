-- ===== src/World.antt =====
-- What an operation reads and changes. `World` is the database and the keys that the process has
-- loaded; `Env` is the configuration and every piece of code outside the repository.
use an.Prelude.{ℕ, String, Bool, Option, List}
use an.Error.{Error, Result}
use an.Rows.{
  Tenant, AccountRow, PasswordReset, Session, FailedAttempt, LogonCode, ApiKey, SigningKey,
  SocialLogin, AuthRequest, RefreshToken, AccessToken, BrowserSession, RegisteredClient,
}

pub record Db : Type 0 where
  pub tenants : List Tenant
  pub api_keys : List ApiKey
  pub signing_keys : List SigningKey
  pub accounts : List AccountRow
  pub social_logins : List SocialLogin
  pub password_resets : List PasswordReset
  pub sessions : List Session
  pub failed_attempts : List FailedAttempt
  pub logon_codes : List LogonCode
  pub auth_requests : List AuthRequest
  pub refresh_tokens : List RefreshToken
  pub access_tokens : List AccessToken
  pub browser_sessions : List BrowserSession
  pub clients : List RegisteredClient

-- The keys of DefaultTokenizer: the private key and the kid that it signs with, and the public
-- keys by kid.
pub record LoadedKeys : Type 0 where
  pub signing_kid : String
  pub signing_key : String
  pub public_keys : List (String × String)

-- `provider_keys` is the cache of the OIDC provider, `none` until it is first filled. `step` counts the readings of the clock, the draws of randomness and the calls of the driver.
pub record World : Type 0 where
  pub db : Db
  pub keys : LoadedKeys
  pub provider_keys : Option LoadedKeys
  pub step : ℕ

-- The claims of AccessClaims and RefreshClaims, which have the same fields.
pub record Claims : Type 0 where
  pub tenant_id : String
  pub client_id : String
  pub id : String
  pub subject : String
  pub issuer : String
  pub audience : List String
  pub expires_at : ℕ
  pub issued_at : ℕ
  pub not_before : ℕ

-- The header of a JWT as the key function reads it. A missing `kid` or `use` reads as "".
pub record Header : Type 0 where
  pub rsa : Bool
  pub kid : String
  pub token_use : String

-- The outcome of bcrypt.CompareHashAndPassword.
pub data Comparison : Type 0 where
  same mismatch broken : Comparison

-- The outcome of jwt.ParseWithClaims: the text of its error, or the claims and token.Valid.
pub data JwtOutcome : Type 0 where
  rejected : String → JwtOutcome
  parsed : Claims → Bool → JwtOutcome

pub record Config : Type 0 where
  pub password_cost : ℕ
  pub reset_expiry : ℕ
  pub code_expiry : ℕ
  pub max_attempts : ℕ
  pub lockout_duration : ℕ
  pub issuer : String
  pub audience : String
  pub access_expiry : ℕ
  pub refresh_expiry : ℕ
  pub auth_code_expiry : ℕ
  pub oidc_access_expiry : ℕ
  pub oidc_refresh_expiry : ℕ
  pub bootstrap_key : String

-- The argument of each oracle that may answer differently at each call is the step.
pub record Env : Type 0 where
  pub config : Config
  -- time.Now and the clock of postgres
  pub clock : ℕ → ℕ
  -- does the call of the driver fail before it has an effect
  pub fault : ℕ → Bool
  -- crypto/rand: Read of n bytes, and Int below n
  pub random_bytes : ℕ → ℕ → Option (List ℕ)
  pub random_int : ℕ → ℕ → Option ℕ
  -- github.com/google/uuid: NewV7, and whether Parse accepts
  pub uuid_v7 : ℕ → Option String
  pub uuid_parse : String → Bool
  -- does a column of type uuid take the text
  pub uuid_cast : String → Bool
  -- crypto/sha256: Sum256 of the bytes of a text
  pub sha256 : String → List ℕ
  -- golang.org/x/crypto/bcrypt: GenerateFromPassword at a cost, and CompareHashAndPassword
  pub bcrypt_generate : ℕ → ℕ → String → Option String
  pub bcrypt_compare : String → String → Comparison
  -- crypto/x509 and encoding/pem: the key that a PEM text holds
  pub parse_public_key : String → Result String
  pub parse_private_key : String → Result String
  -- crypto/rsa: the PEM texts of a new key pair, the private one first
  pub generate_rsa : ℕ → Option (String × String)
  -- github.com/golang-jwt/jwt: SignedString, and ParseWithClaims at a time with a key function and
  -- the expected issuer and audience
  pub jwt_sign : Header → Claims → String → Result String
  pub jwt_parse : ℕ → String → (Header → Result String) → String → String → JwtOutcome
  -- time.Time.Format at RFC 3339, and the text of an error of the postgres driver
  pub format_time : ℕ → String
  pub driver_message : Error → String
