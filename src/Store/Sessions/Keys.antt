-- ===== src/Store/Sessions/Keys.antt =====
-- The tests that find the rows of the sessions (internal/authn/session_repository.go): when two of them
-- meet the same rows.
use an.Prelude.{String, ◌==◌, true, ◌&&◌, ◌≡◌, arith, eq_iff}
use an.Rows.{Session}
use an.Store.Sessions.{is_session, is_owned, is_current, same_session}

pub keys_agree :
    (t e c : String) (x y : Session)
    → is_session t e c x ≡ true
    → is_session t e c y ≡ true
    → same_session x y ≡ true
keys_agree t e c x y h k = ground (
  arith,
  eq_iff x.tenant_id t,
  eq_iff x.email e,
  eq_iff x.client_id c,
  eq_iff y.tenant_id t,
  eq_iff y.email e,
  eq_iff y.client_id c,
  eq_iff y.tenant_id x.tenant_id,
  eq_iff y.email x.email,
  eq_iff y.client_id x.client_id,
)

-- A row of one key meets the test of another exactly when the keys are the same.
pub at_key :
    (tenant_id email client_id t e c : String) (row : Session)
    → is_session t e c row ≡ true
    → is_session tenant_id email client_id row ≡ (tenant_id == t && email == e && client_id == c)
at_key tenant_id email client_id t e c row h = ground (
  arith,
  eq_iff row.tenant_id t,
  eq_iff row.email e,
  eq_iff row.client_id c,
  eq_iff row.tenant_id tenant_id,
  eq_iff row.email email,
  eq_iff row.client_id client_id,
  eq_iff tenant_id t,
  eq_iff email e,
  eq_iff client_id c,
)

pub same_rows :
    (tenant_id email client_id t e c : String)
    → (tenant_id == t && email == e && client_id == c) ≡ true
    → (row : Session) → is_session tenant_id email client_id row ≡ true
    → is_session t e c row ≡ true
same_rows tenant_id email client_id t e c same row h = ground (
  arith,
  eq_iff tenant_id t,
  eq_iff email e,
  eq_iff client_id c,
  eq_iff row.tenant_id tenant_id,
  eq_iff row.email email,
  eq_iff row.client_id client_id,
  eq_iff row.tenant_id t,
  eq_iff row.email e,
  eq_iff row.client_id c,
)

pub at_owner :
    (tenant_id email t e c : String) (row : Session)
    → is_session t e c row ≡ true
    → is_owned tenant_id email row ≡ (tenant_id == t && email == e)
at_owner tenant_id email t e c row h = ground (
  arith,
  eq_iff row.tenant_id t,
  eq_iff row.email e,
  eq_iff row.tenant_id tenant_id,
  eq_iff row.email email,
  eq_iff tenant_id t,
  eq_iff email e,
)

pub current_session :
    (tenant_id email client_id jti : String) (row : Session)
    → is_current tenant_id email client_id jti row ≡ true
    → is_session tenant_id email client_id row ≡ true
current_session tenant_id email client_id jti row h = ground arith
