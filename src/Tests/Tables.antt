-- ===== src/Tests/Tables.antt =====
-- The theorems on the tables, the tokens and the codes at concrete inputs.
use an.Prelude.{
  ◌≤◌, String, ◌==◌, true, none, some, [], ◌∷◌, ◌≡◌, ◌≢◌, ◌↔◌, refl, arith, len, ltb, if◌then◌else◌,
  ◌&&◌,
}
use an.Error.{ok}
use an.Rows.{AuthRequest}
use an.World.{World, Env}
use an.Table
use an.Table.Unique.{unique}
use an.Exec.{affect, exec, exec_count, ◌>>=◌}
use an.Utils.Regex.{codes}
use an.Utils.Regex.Formats.{KeyText, EmailText, validate_key_lem, validate_email_lem}
use an.Exec.Rules.{reliable}
use an.Utils.Secrets.{sha256_hex, random_digits}
use an.Utils.Secrets.Digits.{Bounded, random_digits-valid}
use an.Utils.Hex.{hex_encode, hex_digit}
use an.Utils.Validation.{validate_code, validate_key, validate_email}
use an.Store.Attempts
use an.Store.Attempts.{same_attempt, lock, counted, first_attempt, increment}
use an.Store.Attempts.Refines.{increments, perform, recorded, effect, perform-effect}
use an.Store.AuthRequests
use an.Store.Sessions
use an.Store.Sessions.{same_session}
use an.Store.Sessions.Race.{rotates}
use an.Store.Sessions.Race
use an.Store.Sessions.Renewals.{renewals}
use an.Store.Sessions.Refines
use an.Store.Sessions.Refines.{answer, perform_lem}
use an.Store.OidcTokens
use an.Store.BrowserSessions
use an.Oidc.{
  delete_auth_request, auth_request_by_code, terminate_session, tenant_from, gone_is_done,
}
use an.Oidc.Grants.{code_once, terminate_nothing}
use an.Oidc.Isolation.{by_cookie, found_tenant, found_tenant_lem}
use an.Service.{sweep}
use an.Service.Swept.{reloaded, swept_all, sweep_lem}
use an.Tests.{env, failing, world, world_of, db, locked, granted, different}
use an.Tests.Pages.{browsing, pending}

validate_key_example : (validate_key "acme-1" ≡ none) ↔ KeyText (codes "acme-1")
validate_key_example = validate_key_lem "acme-1"

validate_email_example :
    (validate_email "ann@x.io" ≡ none) ↔ ((len "ann@x.io" ≤ 254) × EmailText (codes "ann@x.io"))
validate_email_example = validate_email_lem "ann@x.io"

sweep_lem_example :
    ((sweep true (reliable failing) world).1.db
      ≡ swept_all true failing (reloaded true (reliable failing) world).step world.db)
    × ((sweep true (reliable failing) world).1.keys ≡ (reloaded true (reliable failing) world).keys)
    × ((sweep true (reliable failing) world).1.provider_keys
        ≡ (reloaded true (reliable failing) world).provider_keys)
sweep_lem_example = sweep_lem failing world true

locked_unique : unique same_attempt locked.db.failed_attempts ≡ true
unfolding unique Table.any
locked_unique = refl

one_more_failure : (perform (increments "t" "ann@x.io" 3 1000) env locked).0 ≡ ok tt
unfolding perform Attempts.increment_and_lock increment Table.find ◌>>=◌
one_more_failure = refl

perform-effect_example :
    recorded
      (perform (increments "t" "ann@x.io" 3 1000) env locked).1.db.failed_attempts
      "t"
      "ann@x.io"
    ≡ effect
        (increments "t" "ann@x.io" 3 1000)
        (env.clock locked.step)
        (recorded locked.db.failed_attempts)
        "t"
        "ann@x.io"
perform-effect_example =
    perform-effect (increments "t" "ann@x.io" 3 1000) env locked "t" "ann@x.io" locked_unique
      one_more_failure

one_session : unique same_session db.sessions ≡ true
unfolding unique Table.any
one_session = refl

rotated : (Race.perform (rotates "t" "ann@x.io" "web" "jti" "next" 900) env world).0 ≡ ok true
unfolding Race.perform Sessions.rotate exec_count Table.count ◌>>=◌
rotated = refl

perform_lem_example :
    (true ≡ answer (rotates "t" "ann@x.io" "web" "jti" "next" 900) (renewals db.sessions))
    × (renewals
          (Race.perform (rotates "t" "ann@x.io" "web" "jti" "next" 900) env world).1.db.sessions
          "t"
          "ann@x.io"
          "web"
        ≡ Refines.effect
            (rotates "t" "ann@x.io" "web" "jti" "next" 900)
            (env.clock world.step)
            (renewals db.sessions)
            "t"
            "ann@x.io"
            "web")
perform_lem_example =
    perform_lem (rotates "t" "ann@x.io" "web" "jti" "next" 900) env world "t" "ann@x.io" "web"
      {b = true} one_session rotated

-- A second request, whose code is the text "code"
abbrev coded : AuthRequest
coded = record pending { id = "other"; code_hash = some "04" }

abbrev exchanging : World
exchanging = world_of (record db { auth_requests = pending ∷ coded ∷ [] })

abbrev exchanged : World
exchanged = (delete_auth_request "t" "req" env exchanging).1

request_deleted : (delete_auth_request "t" "req" env exchanging).0 ≡ ok tt
unfolding delete_auth_request tenant_from gone_is_done AuthRequests.delete affect Table.count ◌>>=◌
request_deleted = refl

other_found : (auth_request_by_code "t" "code" env exchanged).0 ≡ ok coded
unfolding delete_auth_request tenant_from gone_is_done AuthRequests.delete affect Table.count
    Table.delete Table.find auth_request_by_code AuthRequests.read_by_code AuthRequests.read_row
    sha256_hex hex_encode hex_digit ◌>>=◌
other_found = refl

code_once_example : coded.id ≢ "req"
code_once_example =
    code_once "t" "req" env env exchanging exchanged "code" {request = coded} refl request_deleted
      refl other_found

session_ended : (terminate_session "t" "id-ann" "" env granted).0 ≡ ok tt
unfolding terminate_session tenant_from OidcTokens.delete_grants exec ◌>>=◌
session_ended = refl

terminate_nothing_example :
    Table.find
      (λ row. row.id == "grant" && row.client_id == "web")
      (terminate_session "t" "id-ann" "" env granted).1.db.refresh_tokens
    ≡ Table.find (λ row. row.id == "grant" && row.client_id == "web") granted.db.refresh_tokens
terminate_nothing_example =
    terminate_nothing "t" "id-ann" env granted "grant" "web" (different "web" "" refl) session_ended

abbrev tenant : String
tenant = "t"

cookie_found : (found_tenant by_cookie tenant "cookie" env browsing).0 ≡ ok tenant
unfolding found_tenant BrowserSessions.read sha256_hex hex_encode hex_digit Table.find ◌>>=◌
cookie_found = refl

found_tenant_example : tenant ≡ tenant
found_tenant_example =
    found_tenant_lem by_cookie tenant "cookie" env browsing {found = tenant} cookie_found

-- crypto/rand.Int that gives 7 where that is below the bound
abbrev dice : Env
dice = record env { random_int = λ n bound. if ltb 7 bound then some 7 else none }

dice-Bounded : Bounded dice
dice-Bounded step bound d h = ground arith

sevens_drawn : (random_digits 6 dice world).0 ≡ ok "777777"
unfolding random_digits ◌>>=◌
sevens_drawn = refl

random_digits-valid_example : (len "777777" ≡ 6) × (validate_code "777777" 6 ≡ none)
random_digits-valid_example =
    random_digits-valid 6 dice world {s = "777777"} dice-Bounded sevens_drawn
