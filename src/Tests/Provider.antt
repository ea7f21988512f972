-- ===== src/Tests/Provider.antt =====
-- The theorems on the provider at concrete inputs.
use an.Prelude.{String, ◌≡◌, ◌≢◌, refl, ap, Option, none, some}
use an.Error.{ok, Succeeds}
use an.Table
use an.Exec.{affect, new_uuid, ◌>>=◌}
use an.Utils.Secrets.{random_token, sha256_hex}
use an.Store.OidcTokens
use an.Oidc.{
  Minted, by_refresh, create_access_and_refresh_tokens, tenant_from, spend, spent_token,
  mint_refresh_token, mint_access_token,
}
use an.Oidc.Rotation.{rotation_once}
use an.Tests.{env, grant, granted, different}

abbrev plaintext : String
plaintext = "0000000000000000000000000000000000000000000000000000000000000000"

abbrev minted : Minted
minted = record { access_token_id = "fresh"; refresh_token = plaintext; expires = 166 }

grant_rotates :
    (create_access_and_refresh_tokens "t" (by_refresh grant) "token" env granted).0 ≡ ok minted
unfolding create_access_and_refresh_tokens tenant_from spend spent_token mint_refresh_token
    mint_access_token OidcTokens.delete_refresh_token OidcTokens.create_refresh_token
    OidcTokens.create_access_token OidcTokens.insert_refresh OidcTokens.insert_access
    OidcTokens.nullable_id OidcTokens.drop_refresh affect new_uuid random_token sha256_hex Table.any
    Table.count Table.delete ◌>>=◌
grant_rotates = refl

id_or : Option String → String
id_or none = ""
id_or (some id) = id

abbrev drawn : Option String
drawn = some "fresh"

abbrev id_of : Option String
id_of = some grant.id

drawn_differs : drawn ≢ id_of
unfolding id_or
drawn_differs e = different "fresh" "grant" refl (ap id_or e)

rotation_once_example :
    ¬ Succeeds
      (create_access_and_refresh_tokens "t"
        (by_refresh grant)
        "token"
        env
        (create_access_and_refresh_tokens "t" (by_refresh grant) "token" env granted).1).0
rotation_once_example =
    rotation_once env env granted
      (create_access_and_refresh_tokens "t" (by_refresh grant) "token" env granted).1 "t" "token"
      "token" grant {minted = minted} (different "token" "" refl) (different "token" "" refl)
      (λ n. drawn_differs) grant_rotates refl
