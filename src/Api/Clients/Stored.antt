-- ===== src/Api/Clients/Stored.antt =====
-- What the registration of a client stores (Create of api/oidc/client_handlers.go).
use an.Prelude.{
  ◌≡◌, String, ◌==◌, Bool, true, false, not, ◌&&◌, Option, some, List, [], ◌∷◌, inl, inr, sym,
  subst, ap, ◌∙◌, arith, eq_iff, ◌≢◌, eq_refl,
}
use an.Error.{ok, Result-cases}
use an.Utils.Secrets.{random_token}
use an.Utils.Text.{trim_space}
use an.Exec.{M, ◌>>=◌}
use an.World.{World, Env}
use an.Rows.{RegisteredClient}
use an.Table
use an.Store.Clients
use an.Store.Clients.{is_client}
use an.Gateway.{Context, effective_tenant, is_root}
use an.Api.Problem.{reply, answer, json, bound, bind_request}
use an.Api.ApiKeys.{root_only}
use an.Api.Clients as Api
use an.Api.Clients.{
  CreateClientResponse, created, client_problem, store_client, registered, Url, CreateClientRequest,
  validate_client, validate_redirect_uri, validate_uris, check_scheme, is_loopback, check_url,
  first_error, accepted, no_uris,
}
use an.Api.Clients.Accepted.{AllAcceptable, validate_client-ok}

-- The stored client is the new one, but for its secret and its time.
stored-create :
    (client : RegisteredClient) (env : Env) (w : World) {stored : RegisteredClient}
    {secret : String}
    → (Clients.create client env w).0 ≡ ok (stored, secret)
    → (stored.tenant_id ≡ client.tenant_id)
      × (stored.client_id ≡ client.client_id)
      × (stored.redirect_uris ≡ client.redirect_uris)
      × (stored.post_logout_redirect_uris ≡ client.post_logout_redirect_uris)
      × (Table.find
            (is_client client.tenant_id client.client_id)
            (Clients.create client env w).1.db.clients
          ≡ some stored)
unfolding Clients.create Clients.insert Table.find ◌>>=◌
stored-create client env w {stored} {secret} h = elim (Result-cases (random_token env w).0) [
  | inl (text, drawn) ↦ ground (arith, eq_refl client.tenant_id, eq_refl client.client_id)
  | inr (e, failed) ↦ ground arith
]

module _ (parse_url : String → Option Url) (ip_is_loopback : String → Bool) (reserved : String)
    (request : CreateClientRequest) where
  abbrev storing : Context → String → M (RegisteredClient × String)
  storing context id = Clients.create (registered parse_url ip_is_loopback context request id)

  module _ (context : Context) (env : Env) (w : World) {id : String}
      (valid : validate_client parse_url ip_is_loopback reserved request ≡ ok id)
      {stored : RegisteredClient} {secret : String}
      (done : (storing context id env w).0 ≡ ok (stored, secret)) where
    create_run :
        is_root context ≡ true
        → Api.create parse_url ip_is_loopback reserved context (bound request) env w
          ≡ (ok (created parse_url ip_is_loopback (stored, secret)), (storing context id env w).1)
    unfolding Api.create root_only bind_request store_client reply answer created ◌>>=◌
    create_run root = rw (root, valid, done)

    response_id :
        {response : CreateClientResponse}
        → (Api.create parse_url ip_is_loopback reserved context (bound request) env w).0
          ≡ ok (json 201 response)
        → (is_root context ≡ true) × (response.client_id ≡ stored.client_id)
    unfolding Api.create root_only bind_request store_client reply answer created ◌>>=◌
    response_id {response} h = ground arith

    stored_row :
        (client_id : String)
        → client_id ≡ id
        → (row : RegisteredClient) × (Table.find
              (is_client (effective_tenant context request.tenant_id) client_id)
              (storing context id env w).1.db.clients
            ≡ some row)
          × (row.redirect_uris ≡ request.redirect_uris)
          × (row.post_logout_redirect_uris ≡ request.post_logout_redirect_uris)
    unfolding registered
    stored_row client_id same =
        let (of_tenant, of_id, uris, post, found) =
          stored-create (registered parse_url ip_is_loopback context request id) env w
            {stored = stored} {secret = secret} done in
        (
          stored,
          subst
              (λ x.
                Table.find (is_client (effective_tenant context request.tenant_id) x)
                  (storing context id env w).1.db.clients
                ≡ some stored)
              (sym same) found,
          uris,
          post,
        )

    stored_id : stored.client_id ≡ id
    unfolding registered
    stored_id =
        (stored-create (registered parse_url ip_is_loopback context request id) env w
          {stored = stored} {secret = secret} done).1

  not_empty : (id : String) → (id == "") ≡ false → id ≢ ""
  not_empty id h same = ground (arith, eq_iff id "")

  not_reserved :
      (id : String)
      → (not (reserved == "") && (id == reserved)) ≡ false
      → reserved ≢ ""
      → id ≢ reserved
  not_reserved id h some_reserved same = ground (arith, eq_iff reserved "", eq_iff id reserved)

  has_uris : (uris : List String) → no_uris parse_url ip_is_loopback uris ≡ false → uris ≢ []
  has_uris [] h = cc
  has_uris (uri ∷ uris) h = cc

  -- Whatever calls of the driver fail: when the handler that registers a client answers 201, the id in the
  -- answer is that of the request without the white space around it, and neither empty nor the reserved one;
  -- the client is stored under it for the tenant of the request, with the URIs of the request; there is at
  -- least one redirect URI; and every URI parses, has a host and no fragment, and is https, or http to
  -- localhost or a loopback address.
  pub create-AllAcceptable :
      (context : Context) (env : Env) (w : World) {response : CreateClientResponse}
      → (Api.create parse_url ip_is_loopback reserved context (bound request) env w).0
        ≡ ok (json 201 response)
      → (response.client_id ≡ trim_space request.client_id)
        × (response.client_id ≢ "")
        × (reserved ≢ "" → response.client_id ≢ reserved)
        × (request.redirect_uris ≢ [])
        × AllAcceptable parse_url ip_is_loopback request.redirect_uris
        × AllAcceptable parse_url ip_is_loopback request.post_logout_redirect_uris
        × ((row : RegisteredClient) × (Table.find
                (is_client (effective_tenant context request.tenant_id) response.client_id)
                (Api.create parse_url ip_is_loopback reserved context
                  (bound request)
                  env
                  w).1.db.clients
              ≡ some row)
            × (row.redirect_uris ≡ request.redirect_uris)
            × (row.post_logout_redirect_uris ≡ request.post_logout_redirect_uris))
  unfolding Api.create root_only bind_request store_client reply answer created ◌>>=◌
  create-AllAcceptable context env w {response} h =
      elim (Result-cases (validate_client parse_url ip_is_loopback reserved request)) [
        | inl (id, valid) ↦
            elim (Result-cases
              (Clients.create (registered parse_url ip_is_loopback context request id) env w).0) [
                | inl ((stored, secret), done) ↦
                    let (root, same) =
                      response_id context env w {id = id} valid {stored = stored} {secret = secret}
                        done {response = response} h in
                    let (trimmed, some_id, free, some_uri, first, second) =
                      validate_client-ok parse_url ip_is_loopback reserved request {id = id}
                        valid in
                    let is_id : response.client_id ≡ id =
                      same
                      ∙ stored_id context env w {id = id} valid {stored = stored} {secret = secret}
                          done in
                    (
                      is_id ∙ sym trimmed,
                      λ e.
                          not_empty (trim_space request.client_id) some_id
                            (trimmed ∙ sym is_id ∙ e),
                      λ some_reserved e.
                          not_reserved (trim_space request.client_id) free some_reserved
                            (trimmed ∙ sym is_id ∙ e),
                      has_uris request.redirect_uris some_uri,
                      first,
                      second,
                      subst
                          (λ (v : World).
                            (row : RegisteredClient) × (Table.find
                                (is_client (effective_tenant context request.tenant_id)
                                  response.client_id)
                                v.db.clients
                              ≡ some row)
                            × (row.redirect_uris ≡ request.redirect_uris)
                            × (row.post_logout_redirect_uris ≡ request.post_logout_redirect_uris))
                          (sym (
                            ap (λ r. r.1)
                              (create_run context env w {id = id} valid {stored = stored}
                                {secret = secret} done root)))
                          (stored_row context env w {id = id} valid {stored = stored}
                            {secret = secret} done response.client_id is_id),
                    )
                | inr (e, failed) ↦ ground arith
              ]
        | inr (e, invalid) ↦ ground arith
      ]
