-- ===== src/Tokens/RoundTrip.antt =====
-- A token that is created, and its validation (internal/tokens/tokenizer.go).
use an.Prelude.{ℕ, ◌≡◌, ◌<◌, ◌≤◌, refl, String, Bool, true, List, [], ◌∷◌, arith, some}
use an.Error.{Result, ok}
use an.World.{World, Env, Claims, Header, parsed}
use an.Exec.{◌>>=◌}
use an.Tokens.{
  create_access_token, registered_claims, sign, loaded, validate, validate_access_token, key_func,
  lookup, accept_parsed, use_access,
}

-- The JWT library accepts a token that it signed: with the public key of the key that signed it, for the
-- issuer and the audience of its claims, while it is not expired and not before its time.
abbrev pub AcceptsSigned : Env → (String → String → Bool) → Type 0
AcceptsSigned env pairs =
    (header : Header) (claims : Claims) (private_key public_key token : String) (time : ℕ)
    (key_of : Header → Result String) (issuer audience : String)
    → env.jwt_sign header claims private_key ≡ ok token
    → pairs private_key public_key ≡ true
    → key_of header ≡ ok public_key
    → claims.issuer ≡ issuer
    → claims.audience ≡ audience ∷ []
    → claims.not_before ≤ time
    → time < claims.expires_at
    → env.jwt_parse time token key_of issuer audience ≡ parsed claims true

abbrev access_header : World → Header
access_header w = record { rsa = true; kid = w.keys.signing_kid; token_use = use_access }

module _ (tenant_id email client_id : String) (env : Env) (w : World) {token : String}
    {claims : Claims} where
  created :
      (create_access_token tenant_id email client_id env w).0 ≡ ok (token, claims)
      → (env.jwt_sign (access_header w) claims w.keys.signing_key ≡ ok token)
        × (claims.issuer ≡ env.config.issuer)
        × (claims.audience ≡ env.config.audience ∷ [])
        × (claims.tenant_id ≡ tenant_id)
        × (claims.subject ≡ email)
        × (claims.client_id ≡ client_id)
  unfolding create_access_token registered_claims sign loaded ◌>>=◌
  created h = ground arith

found_key :
    (keys : List (String × String)) (kid : String) {public_key : String}
    → lookup kid keys ≡ some public_key
    → key_func keys use_access (record { rsa = true; kid = kid; token_use = use_access })
      ≡ ok public_key
unfolding key_func ◌>>=◌
found_key keys kid h = rw h refl

validated :
    (token : String) (env : Env) (w : World) {claims : Claims}
    → env.jwt_parse
        (env.clock w.step)
        token
        (key_func w.keys.public_keys use_access)
        env.config.issuer
        env.config.audience
      ≡ parsed claims true
    → (validate_access_token token env w).0 ≡ ok claims
unfolding validate_access_token validate loaded accept_parsed ◌>>=◌
validated token env w h = rw h refl

-- The access token that CreateAccessToken returns validates to the claims that it returns, which are those
-- of the tenant, the account and the client, at any later world whose keys still have the public key of
-- the key that signed it, between the time before which it does not hold and its expiry, if the JWT
-- library accepts what it signed.
pub create-validate :
    (tenant_id email client_id : String) (env : Env) (w w' : World) (pairs : String → String → Bool)
    (public_key : String) {token : String} {claims : Claims}
    → AcceptsSigned env pairs
    → pairs w.keys.signing_key public_key ≡ true
    → lookup w.keys.signing_kid w'.keys.public_keys ≡ some public_key
    → claims.not_before ≤ env.clock w'.step
    → env.clock w'.step < claims.expires_at
    → (create_access_token tenant_id email client_id env w).0 ≡ ok (token, claims)
    → ((validate_access_token token env w').0 ≡ ok claims)
      × (claims.tenant_id ≡ tenant_id)
      × (claims.subject ≡ email)
      × (claims.client_id ≡ client_id)
create-validate tenant_id email client_id env w w' pairs public_key {token} {claims} law pair known
      begun in_time done =
    let (signed, issuer, audience, tenant, subject, client) =
      created tenant_id email client_id env w {token = token} {claims = claims} done in
    let accepted =
      law (access_header w) claims w.keys.signing_key public_key token (env.clock w'.step)
        (key_func w'.keys.public_keys use_access) env.config.issuer env.config.audience signed pair
        (found_key w'.keys.public_keys w.keys.signing_kid known) issuer audience begun in_time in
    (validated token env w' accepted, tenant, subject, client)
