-- ===== src/Auth/PgStore.antt =====
-- services/auth/internal/store_postgres.go and pkg/db/pgerr.go: the `Store` over PostgreSQL. A Database
-- has one operation for each SQL statement of the file.
pub mod Accounts
use pokecatch.Prelude.{String, Bool, false, Option, none, some, str_eq, if◌then◌else◌}
use pokecatch.Prelude.Int.{ℤ, pos}
use pokecatch.Prelude.Outcome.{Result, ok, err}
use pokecatch.Auth.Store.{
  Account, RefreshToken, AuthError, email_taken, not_found, store_failed, Store,
}

pub record AccountRow : Type 0 where
  pub id : String
  pub email : String
  pub display_name : String
  pub password_hash : String

pub record TokenRow : Type 0 where
  pub id : String
  pub account_id : String
  pub token_hash : String
  -- none if it is null
  pub device_id : Option String
  pub expires_at : ℤ
  pub revoked : Bool

-- An error of the driver, with the SQLSTATE if PostgreSQL sent it
pub data DbError : Type 0 where
  pg_error : String → DbError
  other : DbError

pub data QueryError : Type 0 where
  no_rows : QueryError
  failed : DbError → QueryError

unfoldable pub error_code : DbError → String
error_code (pg_error code) = code
error_code other = ""

unfoldable pub is_unique_violation : DbError → Bool
unfolding error_code
is_unique_violation e = str_eq (error_code e) "23505"

pub record Database : Type 1 where
  pub State : Type 0
  pub insert_account : State → AccountRow → Option DbError × State
  pub select_by_email : State → String → Result QueryError AccountRow
  pub select_by_id : State → String → Result QueryError AccountRow
  pub insert_token : State → TokenRow → Option DbError × State
  pub select_by_hash : State → String → Result QueryError TokenRow
  -- UPDATE auth_tokens SET revoked = true WHERE id
  pub update_revoked : State → String → Option DbError × State

abbrev pub device_of : Option String → String
device_of none = ""
device_of (some d) = d

module _ (db : Database) where
  open db use {State}

  abbrev failure : Option DbError × State → Option AuthError × State
  failure (none, s) = (none, s)
  failure (some e, s) = (some store_failed, s)

  abbrev pub created : Option DbError × State → Option AuthError × State
  created (none, s) = (none, s)
  created (some e, s) = ((if is_unique_violation e then some email_taken else some store_failed), s)

  abbrev pub account_row : Account → AccountRow
  account_row a = record {
    id = a.id;
    email = a.email;
    display_name = a.display_name;
    password_hash = a.password_hash;
  }

  unfoldable pub create_account : State → Account → Option AuthError × State
  create_account s a = created (db.insert_account s (account_row a))

  abbrev pub scan_account : Result QueryError AccountRow → Result AuthError Account
  scan_account (err no_rows) = err not_found
  scan_account (err (failed e)) = err store_failed
  scan_account (ok row) = ok (record {
    id = row.id;
    email = row.email;
    display_name = row.display_name;
    password_hash = row.password_hash;
    token_ver = pos 1;
  })

  unfoldable pub account_by_email : State → String → Result AuthError Account
  account_by_email s email = scan_account (db.select_by_email s email)

  unfoldable pub account_by_id : State → String → Result AuthError Account
  account_by_id s id = scan_account (db.select_by_id s id)

  abbrev pub token_row : RefreshToken → TokenRow
  token_row rt = record {
    id = rt.id;
    account_id = rt.account_id;
    token_hash = rt.hash;
    device_id = some rt.device_id;
    expires_at = rt.expires_at;
    revoked = false;
  }

  unfoldable pub save_refresh : State → RefreshToken → Option AuthError × State
  save_refresh s rt = failure (db.insert_token s (token_row rt))

  abbrev pub scan_token : Result QueryError TokenRow → Result AuthError RefreshToken
  scan_token (err no_rows) = err not_found
  scan_token (err (failed e)) = err store_failed
  scan_token (ok row) = ok (record {
    id = row.id;
    account_id = row.account_id;
    hash = row.token_hash;
    device_id = device_of row.device_id;
    expires_at = row.expires_at;
    revoked = row.revoked;
  })

  unfoldable pub refresh_by_hash : State → String → Result AuthError RefreshToken
  refresh_by_hash s hash = scan_token (db.select_by_hash s hash)

  unfoldable pub revoke_refresh : State → String → Option AuthError × State
  revoke_refresh s id = failure (db.update_revoked s id)

  abbrev pub pg_store : Store
  pg_store = record {
    State = State;
    create_account = create_account;
    account_by_email = account_by_email;
    account_by_id = account_by_id;
    save_refresh = save_refresh;
    refresh_by_hash = refresh_by_hash;
    revoke_refresh = revoke_refresh;
  }
