-- ===== src/Api/Public.antt =====
-- api/jwks and api/health: the handlers that need no key.
use an.Prelude.{String, List}
use an.Error.{Error}
use an.World.{Env}
use an.Exec.{M}
use an.Tokens.Jwks
use an.Tokens.Jwks.{Jwk}
use an.Api.Problem.{Details, Response, json, reply, server_error}

-- Every error is answered with the same problem.
unfoldable pub key_problem : Env → Error → Details
unfolding server_error
key_problem env e = server_error

unfoldable pub keys : (String → String) → (String → String) → M (Response (List Jwk))
unfolding key_problem
keys modulus exponent = reply (json 200) key_problem (Jwks.jwks modulus exponent)

unfoldable pub health : Response String
health = json 200 "OK"
