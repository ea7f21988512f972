-- ===== src/Store/Sessions/Renewals.antt =====
-- The table of sessions as a map from an account and a client to the refresh token that renews the
-- session, and the statements on its rows (internal/authn/session_repository.go).
use an.Prelude.{
  ℕ, ◌≡◌, refl, ap, ◌∙◌, String, ◌==◌, Bool, true, false, ◌&&◌, Option, none, some, List, ◌∷◌,
  arith, ltb, if◌then◌else◌, ◌=ℕ=◌,
}
use an.Rows.{Session}
use an.Table
use an.Table.Laws.{find_sound}
use an.Table.Unique.{
  unique, unless, meets, changed, find-delete-unique, find-update, count-find, any-none,
}
use an.Store.Sessions.Keys.{keys_agree, at_key, same_rows, at_owner, current_session}
use an.Store.Sessions.{
  NewSession, is_session, is_owned, is_current, is_expired, refreshed, same_session, put,
}

-- What renews a session
pub record Renewal : Type 0 where
  pub refresh_jti : String
  pub expires : ℕ

abbrev pub Renewals : Type 0
Renewals = String → String → String → Option Renewal

renewal : Option Session → Option Renewal
renewal none = none
renewal (some row) = some (record { refresh_jti = row.refresh_jti; expires = row.expires })

-- The map that the table stands for
unfoldable pub renewals : List Session → Renewals
unfolding renewal
renewals rows tenant_id email client_id =
    renewal (Table.find (is_session tenant_id email client_id) rows)

-- Does the renewal hold the token
unfoldable pub holds : String → Option Renewal → Bool
holds jti none = false
holds jti (some old) = old.refresh_jti == jti

unfoldable pub swapped : String → String → ℕ → Option Renewal → Option Renewal
swapped current next expires none = none
swapped current next expires (some old) =
    if old.refresh_jti == current
    then some (record { refresh_jti = next; expires = expires })
    else some old

unfoldable pub kept : ℕ → Option Renewal → Option Renewal
kept time none = none
kept time (some old) = if ltb old.expires time then none else some old

-- The statements on the rows
module _ (rows : List Session) (t e c : String) where
  abbrev here : Session → Bool
  here = is_session t e c

  swapped_lem :
      (tenant_id email client_id current next : String) (expires time : ℕ) (found : Option Session)
      → Table.find here rows ≡ found
      → renewal (
          changed
            (is_current tenant_id email client_id current)
            (refreshed next expires time)
            found)
        ≡ (if tenant_id == t && email == e && client_id == c
            then swapped current next expires (renewal found)
            else renewal found)
  unfolding changed renewal swapped
  swapped_lem tenant_id email client_id current next expires time none h = ground arith
  swapped_lem tenant_id email client_id current next expires time (some row) h =
      ground (arith, at_key tenant_id email client_id t e c row (find_sound here rows {x = row} h))

  pub renewals-update :
      (tenant_id email client_id current next : String) (expires time : ℕ)
      → renewals
          (Table.update
            (is_current tenant_id email client_id current)
            (refreshed next expires time)
            rows)
          t
          e
          c
        ≡ (if tenant_id == t && email == e && client_id == c
            then swapped current next expires (renewals rows t e c)
            else renewals rows t e c)
  unfolding renewals
  renewals-update tenant_id email client_id current next expires time =
      ap renewal (
        find-update (is_current tenant_id email client_id current) here
          (refreshed next expires time) (λ x. refl) rows)
      ∙ swapped_lem tenant_id email client_id current next expires time (Table.find here rows) refl

  no_row :
      (tenant_id email client_id : String)
      → Table.find here rows ≡ none
      → (tenant_id == t && email == e && client_id == c) ≡ true
      → Table.any (is_session tenant_id email client_id) rows ≡ false
  no_row tenant_id email client_id h same =
      any-none (is_session tenant_id email client_id) here
        (same_rows tenant_id email client_id t e c same) rows h

  put_old :
      (new : NewSession) (time : ℕ) (found : Option Session)
      → Table.find here rows ≡ found
      → Table.any (is_session new.tenant_id new.email new.client_id) rows ≡ true
      → renewal (
          changed
            (is_session new.tenant_id new.email new.client_id)
            (refreshed new.refresh_jti new.expires time)
            found)
        ≡ (if new.tenant_id == t && new.email == e && new.client_id == c
            then some (record { refresh_jti = new.refresh_jti; expires = new.expires })
            else renewal found)
  unfolding changed renewal
  put_old new time none h k = ground (arith, no_row new.tenant_id new.email new.client_id h)
  put_old new time (some row) h k = ground (
    arith,
    at_key new.tenant_id new.email new.client_id t e c row (find_sound here rows {x = row} h),
  )

  pub renewals-put :
      (new : NewSession) (id : String) (time : ℕ) (b : Bool)
      → Table.any (is_session new.tenant_id new.email new.client_id) rows ≡ b
      → renewals (put new id time rows) t e c ≡ (
          if new.tenant_id == t && new.email == e && new.client_id == c
          then some (record { refresh_jti = new.refresh_jti; expires = new.expires })
          else renewals rows t e c)
  unfolding renewals put Table.find renewal
  renewals-put new id time true h = rw h (
      ap renewal (
        find-update (is_session new.tenant_id new.email new.client_id) here
          (refreshed new.refresh_jti new.expires time) (λ x. refl) rows)
      ∙ put_old new time (Table.find here rows) refl h)
  renewals-put new id time false h = rw h fresh
    where
      fresh :
          renewal (
            Table.find here (
              (record {
                id = id;
                tenant_id = new.tenant_id;
                email = new.email;
                client_id = new.client_id;
                refresh_jti = new.refresh_jti;
                expires = new.expires;
                created = time;
                modified = time;
              })
              ∷ rows))
          ≡ (if new.tenant_id == t && new.email == e && new.client_id == c
              then some (record { refresh_jti = new.refresh_jti; expires = new.expires })
              else renewal (Table.find here rows))
      fresh = ground arith

  module _ (h : unique same_session rows ≡ true) where
    left :
        (p : Session → Bool)
        → renewals (Table.delete p rows) t e c ≡ renewal (unless p (Table.find here rows))
    unfolding renewals
    left p = ap renewal (find-delete-unique same_session p here (keys_agree t e c) rows h)

    unless_key :
        (tenant_id email client_id : String) (found : Option Session)
        → Table.find here rows ≡ found
        → renewal (unless (is_session tenant_id email client_id) found)
          ≡ (if tenant_id == t && email == e && client_id == c then none else renewal found)
    unfolding renewal unless
    unless_key tenant_id email client_id none k = ground arith
    unless_key tenant_id email client_id (some row) k =
        ground
          (arith, at_key tenant_id email client_id t e c row (find_sound here rows {x = row} k))

    unless_owner :
        (tenant_id email : String) (found : Option Session)
        → Table.find here rows ≡ found
        → renewal (unless (is_owned tenant_id email) found)
          ≡ (if tenant_id == t && email == e then none else renewal found)
    unfolding renewal unless
    unless_owner tenant_id email none k = ground arith
    unless_owner tenant_id email (some row) k =
        ground (arith, at_owner tenant_id email t e c row (find_sound here rows {x = row} k))

    unless_expired :
        (time : ℕ) (found : Option Session)
        → renewal (unless (is_expired time) found) ≡ kept time (renewal found)
    unfolding renewal unless kept
    unless_expired time none = refl
    unless_expired time (some row) = ground arith

    pub renewals-delete :
        (tenant_id email client_id : String)
        → renewals (Table.delete (is_session tenant_id email client_id) rows) t e c
          ≡ (if tenant_id == t && email == e && client_id == c then none else renewals rows t e c)
    unfolding renewals
    renewals-delete tenant_id email client_id =
        left (is_session tenant_id email client_id)
        ∙ unless_key tenant_id email client_id (Table.find here rows) refl

    pub renewals-delete_all :
        (tenant_id email : String)
        → renewals (Table.delete (is_owned tenant_id email) rows) t e c
          ≡ (if tenant_id == t && email == e then none else renewals rows t e c)
    unfolding renewals
    renewals-delete_all tenant_id email =
        left (is_owned tenant_id email) ∙ unless_owner tenant_id email (Table.find here rows) refl

    pub renewals-sweep :
        (time : ℕ)
        → renewals (Table.delete (is_expired time) rows) t e c ≡ kept time (renewals rows t e c)
    unfolding renewals
    renewals-sweep time = left (is_expired time) ∙ unless_expired time (Table.find here rows)

holds_lem :
    (tenant_id email client_id jti : String) (found : Option Session) (rows : List Session)
    → Table.find (is_session tenant_id email client_id) rows ≡ found
    → meets (is_current tenant_id email client_id jti) found ≡ holds jti (renewal found)
unfolding meets holds renewal
holds_lem tenant_id email client_id jti none rows h = refl
holds_lem tenant_id email client_id jti (some row) rows h =
    ground (arith, find_sound (is_session tenant_id email client_id) rows {x = row} h)

-- RowsAffected is 1 exactly when the map holds the token.
pub count_lem :
    (tenant_id email client_id jti : String) (rows : List Session)
    → unique same_session rows ≡ true
    → (Table.count (is_current tenant_id email client_id jti) rows =ℕ= 1)
      ≡ holds jti (renewals rows tenant_id email client_id)
unfolding renewals
count_lem tenant_id email client_id jti rows h =
    count-find same_session (is_current tenant_id email client_id jti)
      (is_session tenant_id email client_id) (keys_agree tenant_id email client_id)
      (current_session tenant_id email client_id jti) rows h
    ∙ holds_lem tenant_id email client_id jti
        (Table.find (is_session tenant_id email client_id) rows) rows refl
