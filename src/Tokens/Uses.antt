-- ===== src/Tokens/Uses.antt =====
-- What a token is for (internal/tokens/tokenizer.go).
use an.Prelude.{ℕ, ◌≡◌, ◌≢◌, sym, ◌∙◌, eq_true, String, Bool, true, false, arith, true_eq, List}
use an.Error.{Result, ok}
use an.World.{World, Env, Claims, Header, JwtOutcome, parsed, rejected}
use an.Exec.{◌>>=◌}
use an.Tokens.{
  validate, validate_access_token, validate_refresh_token, key_func, accept_parsed, loaded,
  use_access, use_refresh,
}

different_uses : use_access ≢ use_refresh
different_uses e = let h = eq_true e in cc

-- The parser of the JWT library accepts a token only if the key function gives a key for its header.
abbrev pub AsksForKey : Env → (String → Header) → Type 0
AsksForKey env header_of =
    (time : ℕ) (token : String) (key_of : Header → Result String) (issuer audience : String)
    (claims : Claims) (valid : Bool)
    → env.jwt_parse time token key_of issuer audience ≡ parsed claims valid
    → (key : String) × (key_of (header_of token) ≡ ok key)

accepted-parsed :
    (outcome : JwtOutcome) {claims : Claims}
    → accept_parsed outcome ≡ ok claims
    → outcome ≡ parsed claims true
unfolding accept_parsed
accepted-parsed (rejected text) h = cc
accepted-parsed (parsed claims true) h = cc
accepted-parsed (parsed claims false) h = cc

key_func-ok :
    (keys : List (String × String)) (token_use : String) (header : Header) {key : String}
    → key_func keys token_use header ≡ ok key
    → (header.rsa ≡ true) × (header.token_use ≡ token_use)
unfolding key_func
key_func-ok keys token_use header h = ground (arith, true_eq header.token_use token_use)

module _ (token token_use : String) where
  validated :
      (env : Env) (w : World) {claims : Claims}
      → (validate token token_use env w).0 ≡ ok claims
      → accept_parsed (
          env.jwt_parse
            (env.clock w.step)
            token
            (key_func w.keys.public_keys token_use)
            env.config.issuer
            env.config.audience)
        ≡ ok claims
  unfolding validate loaded ◌>>=◌
  validated env w h = ground arith

  validate-use :
      (env : Env) (w : World) (header_of : String → Header) {claims : Claims}
      → AsksForKey env header_of
      → (validate token token_use env w).0 ≡ ok claims
      → (header_of token).token_use ≡ token_use
  validate-use env w header_of law h =
      let (key, found) =
        law (env.clock w.step) token (key_func w.keys.public_keys token_use) env.config.issuer
          env.config.audience _ true (accepted-parsed _ (validated env w h)) in
      (key_func-ok w.keys.public_keys token_use (header_of token) {key = key} found).1

-- A token that is accepted as an access token is never accepted as a refresh token, at any worlds, if the
-- parser asks for the key of the header of a token before it accepts the token.
pub one_use :
    (env : Env) (w w' : World) (header_of : String → Header) (token : String)
    {access refresh : Claims}
    → AsksForKey env header_of
    → (validate_access_token token env w).0 ≡ ok access
    → (validate_refresh_token token env w').0 ≢ ok refresh
unfolding validate_access_token validate_refresh_token
one_use env w w' header_of token law accepted again =
    let first = validate-use token use_access env w header_of law accepted in
    let second = validate-use token use_refresh env w' header_of law again in
    different_uses (sym first ∙ second)
