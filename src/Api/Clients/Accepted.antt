-- ===== src/Api/Clients/Accepted.antt =====
-- The clients that Create lets through (validateClient and validateRedirectURI of
-- api/oidc/client_handlers.go).
use an.Prelude.{
  ◌≡◌, ◌⊎◌, refl, String, ◌==◌, Bool, true, false, not, ◌&&◌, Option, none, some, List, [], ◌∷◌,
  arith, true_eq,
}
use an.Error.{ok}
use an.Utils.Text.{trim_space, has_char}
use an.Api.Clients.{
  Url, CreateClientRequest, validate_client, validate_redirect_uri, validate_uris, check_scheme,
  is_loopback, check_url, first_error, accepted, no_uris,
}

module _ (parse_url : String → Option Url) (ip_is_loopback : String → Bool) where
  -- The scheme is https, or http to localhost or to a loopback address.
  abbrev GoodScheme : Url → Type 0
  GoodScheme url =
      (url.scheme ≡ "https")
      ⊎ ((url.scheme ≡ "http")
          × ((url.hostname ≡ "localhost") ⊎ (ip_is_loopback url.hostname ≡ true)))

  -- A URI to which a code may be sent
  pub record Acceptable (uri : String) : Type 0 where
    pub url : Url
    pub parsed : parse_url uri ≡ some url
    pub with_host : (url.host == "") ≡ false
    pub no_fragment : has_char b'#' uri ≡ false
    pub scheme : GoodScheme url

  abbrev pub AllAcceptable : List String → Type 0
  AllAcceptable [] = Unit
  AllAcceptable (uri ∷ uris) = Acceptable uri × AllAcceptable uris

  scheme-ok :
      (field : String) (url : Url)
      → check_scheme parse_url ip_is_loopback field url ≡ none
      → GoodScheme url
  unfolding check_scheme is_loopback
  scheme-ok field url h = ground (
    arith,
    true_eq url.scheme "https",
    true_eq url.scheme "http",
    true_eq url.hostname "localhost",
  )

  url-ok :
      (field uri : String) (url : Url)
      → check_url parse_url ip_is_loopback field uri (some url) ≡ none
      → ((url.host == "") ≡ false) × (has_char b'#' uri ≡ false) × GoodScheme url
  url-ok field uri url h =
      let (host, fragment, rest) = checks in (host, fragment, scheme-ok field url rest)
    where
      checks :
          ((url.host == "") ≡ false)
          × (has_char b'#' uri ≡ false)
          × (check_scheme parse_url ip_is_loopback field url ≡ none)
      checks = ground arith

  uri-ok :
      (field uri : String) (found : Option Url)
      → parse_url uri ≡ found
      → check_url parse_url ip_is_loopback field uri found ≡ none
      → Acceptable uri
  uri-ok field uri none e h = cc
  uri-ok field uri (some url) e h =
      let (host, fragment, scheme) = url-ok field uri url h in
      record { url = url; parsed = e; with_host = host; no_fragment = fragment; scheme = scheme }

  both_none :
      (e rest : Option String)
      → first_error parse_url ip_is_loopback e rest ≡ none
      → (e ≡ none) × (rest ≡ none)
  both_none none rest h = (refl, h)
  both_none (some text) rest h = cc

  validate_redirect_uri-ok :
      (field uri : String)
      → validate_redirect_uri parse_url ip_is_loopback field uri ≡ none
      → Acceptable uri
  unfolding validate_redirect_uri
  validate_redirect_uri-ok field uri h = uri-ok field uri (parse_url uri) refl h

  validate_uris-ok :
      (field : String) (uris : List String)
      → validate_uris parse_url ip_is_loopback field uris ≡ none
      → AllAcceptable uris
  unfolding validate_uris
  validate_uris-ok field [] h = tt
  validate_uris-ok field (uri ∷ uris) h =
      let (first, rest) =
        both_none (validate_redirect_uri parse_url ip_is_loopback field uri)
          (validate_uris parse_url ip_is_loopback field uris) h in
      (validate_redirect_uri-ok field uri first, validate_uris-ok field uris rest)

  accepted-ok :
      (client_id : String) (e : Option String) {id : String}
      → accepted parse_url ip_is_loopback client_id e ≡ ok id
      → (client_id ≡ id) × (e ≡ none)
  accepted-ok client_id none h = (cc, refl)
  accepted-ok client_id (some text) h = cc

  module _ (reserved : String) (request : CreateClientRequest) where
    client-parts :
        {id : String}
        → validate_client parse_url ip_is_loopback reserved request ≡ ok id
        → ((trim_space request.client_id == "") ≡ false)
          × ((not (reserved == "") && (trim_space request.client_id == reserved)) ≡ false)
          × (no_uris parse_url ip_is_loopback request.redirect_uris ≡ false)
          × (accepted parse_url ip_is_loopback (trim_space request.client_id) (
                first_error parse_url ip_is_loopback
                  (validate_uris parse_url ip_is_loopback "redirectUris" request.redirect_uris)
                  (validate_uris parse_url ip_is_loopback "postLogoutRedirectUris"
                    request.post_logout_redirect_uris))
              ≡ ok id)
    unfolding validate_client
    client-parts {id} h = ground arith

    pub validate_client-ok :
        {id : String}
        → validate_client parse_url ip_is_loopback reserved request ≡ ok id
        → (trim_space request.client_id ≡ id)
          × ((trim_space request.client_id == "") ≡ false)
          × ((not (reserved == "") && (trim_space request.client_id == reserved)) ≡ false)
          × (no_uris parse_url ip_is_loopback request.redirect_uris ≡ false)
          × AllAcceptable request.redirect_uris
          × AllAcceptable request.post_logout_redirect_uris
    validate_client-ok {id} h =
        let (some_id, free, some_uri, taken) = client-parts {id = id} h in
        let (same, clean) = accepted-ok (trim_space request.client_id) _ taken in
        let (first, second) =
          both_none (validate_uris parse_url ip_is_loopback "redirectUris" request.redirect_uris)
            (validate_uris parse_url ip_is_loopback "postLogoutRedirectUris"
              request.post_logout_redirect_uris)
            clean in
        (
          same,
          some_id,
          free,
          some_uri,
          validate_uris-ok "redirectUris" request.redirect_uris first,
          validate_uris-ok "postLogoutRedirectUris" request.post_logout_redirect_uris second,
        )
