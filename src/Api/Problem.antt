-- ===== src/Api/Problem.antt =====
-- api/problem/problem_details.go, and what every handler does with its request and the answer of its
-- service.
use an.Prelude.{ℕ, String}
use an.Error.{Error, Result, ok, err}
use an.World.{Env}
use an.Exec.{M, pure, asks, try, ◌>>=◌}
use an.Api.Message.{message}

-- RFC 7807; the type is the same in every answer, and an instance is never given.
pub record Details : Type 0 where
  pub title : String
  pub status : ℕ
  pub detail : String

-- It omits the text of the error.
unfoldable pub server_error : Details
server_error = record {
  title = "Internal Error";
  status = 500;
  detail = "an unexpected error occurred";
}

unfoldable pub bad_request : String → Details
bad_request text = record { title = "Bad Request"; status = 400; detail = text }

unfoldable pub unauthorized_problem : String → Details
unauthorized_problem text = record { title = "Unauthorized"; status = 401; detail = text }

unfoldable pub new_problem : String → ℕ → Env → Error → Details
unfolding message
new_problem title status env e = record { title = title; status = status; detail = message env e }

-- c.JSON of a value, c.NoContent, or c.JSON of a problem with its status
pub data Response (A : Type 0) : Type 0 where
  json : ℕ → A → Response A
  no_content : Response A
  problem : Details → Response A

-- What c.Bind makes of the body: the request, or the text of its error
pub data Bound (R : Type 0) : Type 0 where
  bound : R → Bound R
  malformed : String → Bound R

module _ {R A : Type 0} where
  -- A body that cannot be bound is answered 400.
  unfoldable pub bind_request : Bound R → (R → M (Response A)) → M (Response A)
  unfolding bad_request
  bind_request (bound request) serve = serve request
  bind_request (malformed text) serve = pure (problem (bad_request text))

module _ {A B : Type 0} where
  -- The answer for the outcome of a service
  unfoldable pub answer : (A → Response B) → (Env → Error → Details) → Env → Result A → Response B
  answer success problem_of env (ok a) = success a
  answer success problem_of env (err e) = problem (problem_of env e)

  unfoldable pub reply : (A → Response B) → (Env → Error → Details) → M A → M (Response B)
  unfolding answer
  reply success problem_of service = do
    outcome ← try service
    asks (λ env. answer success problem_of env outcome)
