-- ===== src/Tests/Jwt.antt =====
-- The theorems on tokens at concrete inputs, with a JWT library that signs the tokens of one account.
use an.Prelude.{
  String, ◌==◌, Bool, true, false, List, [], ◌∷◌, ◌≡◌, ◌≢◌, refl, sym, ap, ◌∙◌, arith, ◌=ℕ=◌, ◌&&◌,
  true_eq, some,
}
use an.Error.{Result, ok, err, untyped}
use an.World.{Env, Claims, Header, JwtOutcome, parsed, rejected}
use an.Exec.{new_uuid, ◌>>=◌}
use an.Tokens.{
  create_access_token, validate_access_token, validate_refresh_token, validate, registered_claims,
  sign, loaded, numeric_date, lookup, key_func, accept_parsed,
}
use an.Tokens.RoundTrip.{AcceptsSigned, create-validate}
use an.Tokens.Uses.{AsksForKey, one_use}
use an.Tests.{env, ann_claims, world}

-- The one header of a parser that asks for a key
abbrev header_of : String → Header
header_of token = record { rsa = true; kid = "kid"; token_use = "access" }

asked : Result String → JwtOutcome
asked (ok key) = parsed ann_claims true
asked (err e) = rejected "no key"

abbrev asking : Env
asking = record env {
  jwt_parse = λ time token key_of issuer audience. asked (key_of (header_of token));
}

asked-ok :
    (r : Result String) (claims : Claims) (valid : Bool)
    → asked r ≡ parsed claims valid
    → (key : String) × (r ≡ ok key)
unfolding asked
asked-ok (ok key) claims valid h = (key, refl)
asked-ok (err e) claims valid h = cc

asking_law : AsksForKey asking header_of
asking_law time token key_of issuer audience claims valid h =
    asked-ok (key_of (header_of token)) claims valid h

accepted : (validate_access_token "token" asking world).0 ≡ ok ann_claims
unfolding validate_access_token validate loaded key_func lookup accept_parsed asked ◌>>=◌
accepted = refl

one_use_example : (validate_refresh_token "token" asking world).0 ≢ ok ann_claims
one_use_example =
    one_use asking world world header_of "token" {access = ann_claims} {refresh = ann_claims}
      asking_law accepted

-- The claims of an access token for ann, without its issuer and audience
abbrev claims_for : String → List String → Claims
claims_for issuer audience = record {
  tenant_id = "t";
  client_id = "web";
  id = "fresh";
  subject = "ann@x.io";
  issuer = issuer;
  audience = audience;
  expires_at = 3000000000;
  issued_at = 1000000000;
  not_before = 1000000000;
}

is_ours : Claims → Bool
is_ours claims =
    (claims.tenant_id == "t")
    && ((claims.client_id == "web")
        && ((claims.id == "fresh")
            && ((claims.subject == "ann@x.io")
                && ((claims.expires_at =ℕ= 3000000000)
                    && ((claims.issued_at =ℕ= 1000000000) && (claims.not_before =ℕ= 1000000000))))))

signed : Bool → Result String
signed true = ok "signed"
signed false = err (untyped "unknown claims")

abbrev signing : Env
signing = record env {
  config = record env.config { access_expiry = 2000000000 };
  clock = λ n. 1000000000;
  jwt_sign = λ header claims key. signed (is_ours claims);
  jwt_parse = λ time token key_of issuer audience. parsed (claims_for issuer (audience ∷ [])) true;
}

signed-ours : (b : Bool) {token : String} → signed b ≡ ok token → b ≡ true
unfolding signed
signed-ours true h = refl
signed-ours false h = cc

our_fields :
    (claims : Claims)
    → is_ours claims ≡ true
    → (claims.tenant_id ≡ "t")
      × (claims.client_id ≡ "web")
      × (claims.id ≡ "fresh")
      × (claims.subject ≡ "ann@x.io")
      × (claims.expires_at ≡ 3000000000)
      × (claims.issued_at ≡ 1000000000)
      × (claims.not_before ≡ 1000000000)
unfolding is_ours
our_fields claims h = ground (
  arith,
  true_eq claims.tenant_id "t",
  true_eq claims.client_id "web",
  true_eq claims.id "fresh",
  true_eq claims.subject "ann@x.io",
)

ours : (claims : Claims) → is_ours claims ≡ true → claims ≡ claims_for claims.issuer claims.audience
unfolding is_ours
ours claims h =
    let (a, b, c, d, e, f, g) = our_fields claims h in
    λ i. record {
      tenant_id = a i;
      client_id = b i;
      id = c i;
      subject = d i;
      issuer = claims.issuer;
      audience = claims.audience;
      expires_at = e i;
      issued_at = f i;
      not_before = g i;
    }

any_pair : String → String → Bool
any_pair private_key public_key = true

signing_law : AcceptsSigned signing any_pair
signing_law header claims private_key public_key token time key_of issuer audience sign pair key
      same_issuer same_audience begun in_time =
    ap (λ c. parsed c true)
      (ap (λ i. claims_for i (audience ∷ [])) (sym same_issuer)
        ∙ ap (claims_for claims.issuer) (sym same_audience)
        ∙ sym (ours claims (signed-ours (is_ours claims) sign)))

issued :
    (create_access_token "t" "ann@x.io" "web" signing world).0
    ≡ ok ("signed", claims_for "an" ("app" ∷ []))
unfolding create_access_token registered_claims sign loaded numeric_date new_uuid is_ours signed
    ◌>>=◌
issued = refl

paired : any_pair "private" "public" ≡ true
unfolding any_pair
paired = refl

known : lookup "kid" world.keys.public_keys ≡ some "public"
unfolding lookup
known = refl

abbrev tenant : String
tenant = "t"

abbrev email : String
email = "ann@x.io"

abbrev client : String
client = "web"

create-validate_example :
    ((validate_access_token "signed" signing world).0 ≡ ok (claims_for "an" ("app" ∷ [])))
    × ("t" ≡ tenant)
    × ("ann@x.io" ≡ email)
    × ("web" ≡ client)
create-validate_example =
    create-validate "t" "ann@x.io" "web" signing world world any_pair "public" {token = "signed"}
      {claims = claims_for "an" ("app" ∷ [])} signing_law paired known (omega arith) (omega arith)
      issued
