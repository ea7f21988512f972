-- ===== src/Api/Clients.antt =====
-- api/oidc/client_handlers.go: the registration of clients with the provider.
pub mod Accepted
pub mod Stored
use an.Prelude.{
  String, ◌==◌, ◌<>◌, Bool, true, not, ◌&&◌, Option, none, some, List, [], ◌∷◌, if◌then◌else◌,
}
use an.Error.{Error, Result, ok, err, untyped}
use an.Rows.{RegisteredClient}
use an.World.{Env}
use an.Exec.{M, asks}
use an.Utils.Text.{trim_space, has_char}
use an.Gateway.{Context, effective_tenant}
use an.Store.Clients
use an.Api.Message.{message}
use an.Api.Problem.{
  Details, Response, json, problem, Bound, bind_request, bad_request, reply, new_problem,
  server_error,
}
use an.Api.Accounts.{done}
use an.Api.ApiKeys.{root_only}

pub record CreateClientRequest : Type 0 where
  pub tenant_id : String
  pub client_id : String
  pub name : String
  pub redirect_uris : List String
  pub post_logout_redirect_uris : List String

pub record DeleteClientRequest : Type 0 where
  pub tenant_id : String
  pub client_id : String

pub record CreateClientResponse : Type 0 where
  pub tenant_id : String
  pub client_id : String
  pub client_secret : String
  pub redirect_uris : List String

-- The parts of a URL that the check reads
pub record Url : Type 0 where
  pub scheme : String
  pub host : String
  pub hostname : String

-- errors.As(err, &duplicate) and errors.As(err, &notFound)
unfoldable pub client_problem : Env → Error → Details
unfolding new_problem server_error
client_problem env (Error.duplicate v) = new_problem "Duplicate client" 409 env (Error.duplicate v)
client_problem env (Error.client_not_found v) =
    new_problem "Client not found" 404 env (Error.client_not_found v)
client_problem env e = server_error

unfoldable pub client_forbidden : Env → Details
unfolding new_problem
client_forbidden env = new_problem "Forbidden" 403 env (untyped "bootstrap api key required")

-- `parse_url` is net/url's Parse, `none` for its errors; `ip_is_loopback` is net's ParseIP and
-- IsLoopback, false for a text that is no address.
module _ (parse_url : String → Option Url) (ip_is_loopback : String → Bool) where
  unfoldable pub is_loopback : String → Bool
  is_loopback host = if host == "localhost" then true else ip_is_loopback host

  unfoldable pub check_scheme : String → Url → Option String
  unfolding is_loopback
  check_scheme field url =
      if url.scheme == "https"
      then none
      else if url.scheme == "http"
      then (if is_loopback url.hostname
          then none
          else some (field <> " must be https except on loopback"))
      else some (field <> " must be https")

  abbrev no_host : String → Option String
  no_host field = some (field <> " must be absolute URLs with a host")

  abbrev pub check_url : String → String → Option Url → Option String
  check_url field uri none = no_host field
  check_url field uri (some url) =
      if url.host == ""
      then no_host field
      else if has_char b'#' uri
      then some (field <> " must not contain a fragment")
      else check_scheme field url

  -- The text of the error, if there is one
  unfoldable pub validate_redirect_uri : String → String → Option String
  unfolding check_scheme has_char
  validate_redirect_uri field uri = check_url field uri (parse_url uri)

  -- The first error of the list
  abbrev pub first_error : Option String → Option String → Option String
  first_error none rest = rest
  first_error (some e) rest = some e

  unfoldable pub validate_uris : String → List String → Option String
  unfolding validate_redirect_uri
  validate_uris field [] = none
  validate_uris field (uri ∷ uris) =
      first_error (validate_redirect_uri field uri) (validate_uris field uris)

  abbrev pub no_uris : List String → Bool
  no_uris [] = true
  no_uris (uri ∷ uris) = Bool.false

  abbrev pub accepted : String → Option String → Result String
  accepted client_id none = ok client_id
  accepted client_id (some e) = err (untyped e)

  -- The id to store, which is trimmed. `reserved` is the id of the configured client.
  unfoldable pub validate_client : String → CreateClientRequest → Result String
  unfolding trim_space validate_uris
  validate_client reserved request =
      let client_id = trim_space request.client_id in
      if client_id == ""
      then err (untyped "clientId is required")
      else if not (reserved == "") && (client_id == reserved)
      then err (untyped "clientId is reserved by the configured client")
      else if no_uris request.redirect_uris
      then err (untyped "at least one redirectUri is required")
      else accepted client_id (
          first_error (validate_uris "redirectUris" request.redirect_uris)
            (validate_uris "postLogoutRedirectUris" request.post_logout_redirect_uris))

  -- The secret is in this answer, and nowhere else.
  unfoldable pub created : RegisteredClient × String → Response CreateClientResponse
  created (client, secret) = json 201 (record {
    tenant_id = client.tenant_id;
    client_id = client.client_id;
    client_secret = secret;
    redirect_uris = client.redirect_uris;
  })

  -- Create fills the hash and the time.
  unfoldable pub registered : Context → CreateClientRequest → String → RegisteredClient
  registered context request client_id = record {
    tenant_id = effective_tenant context request.tenant_id;
    client_id = client_id;
    secret_hash = "";
    redirect_uris = request.redirect_uris;
    post_logout_redirect_uris = request.post_logout_redirect_uris;
    first_party = true;
    name = request.name;
    created_at = 0;
  }

  unfoldable pub store_client :
      Context → CreateClientRequest → Result String → M (Response CreateClientResponse)
  unfolding bad_request created registered message
  store_client context request (err e) = asks (λ env. problem (bad_request (message env e)))
  store_client context request (ok client_id) =
      reply created client_problem (Clients.create (registered context request client_id))

  unfoldable pub create :
      String → Context → Bound CreateClientRequest → M (Response CreateClientResponse)
  unfolding root_only client_forbidden store_client validate_client
  create reserved context body =
      root_only client_forbidden context (
        bind_request body
          λ request. store_client context request (validate_client reserved request))

unfoldable pub delete : Context → Bound DeleteClientRequest → M (Response (Unit {0}))
unfolding root_only client_forbidden
delete context body = root_only client_forbidden context (
    bind_request body λ request.
      reply done client_problem
        (Clients.delete (effective_tenant context request.tenant_id) request.client_id))
