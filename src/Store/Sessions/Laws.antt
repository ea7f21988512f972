-- ===== src/Store/Sessions/Laws.antt =====
-- What the statements on sessions do: rotation, and the current refresh token of a session.
use an.Prelude.{
  ℕ, ◌≡◌, ◌≢◌, refl, String, Bool, true, false, eq_iff, eq_refl, Option, none, some, List, [], ◌∷◌,
  arith, Bool-cases, inl, inr,
}
use an.Rows.{Session}
use an.Table.{find, any, update, delete, count}
use an.Store.Sessions.{is_session, is_current, refreshed, NewSession, put}

module _ (tenant_id email client_id jti : String) where
  -- No session of the client has `jti` as its current refresh token.
  abbrev pub Spent : List Session → Type 0
  Spent rows = any (is_current tenant_id email client_id jti) rows ≡ false

  -- A rotation to another refresh token spends the one that it is given.
  pub Spent-rotate :
      (next : String) (expires time : ℕ) (rows : List Session)
      → next ≢ jti
      → Spent (update (is_current tenant_id email client_id jti) (refreshed next expires time) rows)
  unfolding any update
  Spent-rotate next expires time [] fresh = refl
  Spent-rotate next expires time (row ∷ rows) fresh =
      ground (arith, Spent-rotate next expires time rows fresh, eq_iff next jti)

  -- A spent token rotates nothing.
  pub Spent-count :
      (rows : List Session) → Spent rows → count (is_current tenant_id email client_id jti) rows ≡ 0
  unfolding any count
  Spent-count [] h = refl
  Spent-count (row ∷ rows) h = ground (arith, Spent-count rows)

  -- It stays spent when another client's session, or the same one, moves on to other tokens.
  pub Spent-update :
      (p : Session → Bool) (next : String) (expires time : ℕ) (rows : List Session)
      → next ≢ jti
      → Spent rows
      → Spent (update p (refreshed next expires time) rows)
  unfolding any update
  Spent-update p next expires time [] fresh h = refl
  Spent-update p next expires time (row ∷ rows) fresh h =
      ground (arith, Spent-update p next expires time rows fresh, eq_iff next jti)

  pub Spent-delete : (p : Session → Bool) (rows : List Session) → Spent rows → Spent (delete p rows)
  unfolding any delete
  Spent-delete p [] h = refl
  Spent-delete p (row ∷ rows) h = ground (arith, Spent-delete p rows)

  pub Spent-put :
      (new : NewSession) (id : String) (time : ℕ) (rows : List Session)
      → new.refresh_jti ≢ jti
      → Spent rows
      → Spent (put new id time rows)
  unfolding put any
  Spent-put new id time rows fresh h =
      elim (Bool-cases (any (is_session new.tenant_id new.email new.client_id) rows)) [
        | inl old ↦ rw (old, put) (Spent-update _ new.refresh_jti new.expires time rows fresh h)
        | inr none_yet ↦ rw (none_yet, put) (ground (arith, eq_iff new.refresh_jti jti))
      ]

-- The current refresh token of the session that is found
abbrev pub jti_of : Option Session → Option String
jti_of none = none
jti_of (some row) = some row.refresh_jti

jti-update :
    (tenant_id email client_id next : String) (expires time : ℕ) (rows : List Session)
    → any (is_session tenant_id email client_id) rows ≡ true
    → jti_of (
        find
          (is_session tenant_id email client_id)
          (update (is_session tenant_id email client_id) (refreshed next expires time) rows))
      ≡ some next
unfolding any find update
jti-update tenant_id email client_id next expires time [] h = cc
jti-update tenant_id email client_id next expires time (row ∷ rows) h =
    ground (arith, jti-update tenant_id email client_id next expires time rows)

-- After an upsert the current token of the session is the one that was given.
pub jti-put :
    (new : NewSession) (id : String) (time : ℕ) (rows : List Session)
    → jti_of (find (is_session new.tenant_id new.email new.client_id) (put new id time rows))
      ≡ some new.refresh_jti
unfolding put find
jti-put new id time rows =
    elim (Bool-cases (any (is_session new.tenant_id new.email new.client_id) rows)) [
      | inl old ↦
          rw (old, put)
            (jti-update new.tenant_id new.email new.client_id new.refresh_jti new.expires time rows
              old)
      | inr none_yet ↦
          rw (none_yet, put)
            (ground (arith, eq_refl new.tenant_id, eq_refl new.email, eq_refl new.client_id))
    ]
