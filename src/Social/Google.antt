-- ===== src/Social/Google.antt =====
-- internal/social/google.go: GoogleValidator.
use an.Prelude.{ℕ, String, Bool}
use an.Error.{Result, ok, err, social_token_invalid}
use an.Exec.{draw}
use an.Social.{Identity, Validator}

-- A result of go-oidc, or the text of its error
pub data Outcome (A : Type 0) : Type 0 where
  succeeded : A → Outcome A
  failed : String → Outcome A

pub record GoogleClaims : Type 0 where
  pub email : String
  pub email_verified : Bool

-- oidc.IDToken: its subject, and what Claims makes of it
pub record IdToken : Type 0 where
  pub subject : String
  pub claims : Outcome GoogleClaims

abbrev pub google : String
google = "google"

identity_of : String → Outcome GoogleClaims → Result Identity
identity_of subject (failed text) = err (social_token_invalid text)
identity_of subject (succeeded claims) = ok (record {
  provider = google;
  subject = subject;
  email = claims.email;
  email_verified = claims.email_verified;
})

unfoldable pub accepted_identity : Outcome IdToken → Result Identity
unfolding identity_of
accepted_identity (failed text) = err (social_token_invalid text)
accepted_identity (succeeded token) = identity_of token.subject token.claims

-- `verify` is IDTokenVerifier.Verify of go-oidc for the client id of the configuration, which asks
-- Google for its keys: the number is the step.
unfoldable pub google_validator : (ℕ → String → Outcome IdToken) → Validator
unfolding accepted_identity
google_validator verify = record {
  name = google;
  validate = λ id_token. draw (λ env n. accepted_identity (verify n id_token));
}
