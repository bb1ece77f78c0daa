-- ===== src/Auth/Store.antt =====
-- services/auth/internal/service.go: the accounts, the refresh tokens and the Store that keeps them.
use pokecatch.Prelude.{String, ◌≡◌, ◌≢◌, Bool, true, Option, none, some}
use pokecatch.Prelude.Int.{ℤ}
use pokecatch.Prelude.Outcome.{Result, ok}

pub record Account : Type 0 where
  pub id : String
  pub email : String
  pub display_name : String
  pub password_hash : String
  pub token_ver : ℤ

pub record RefreshToken : Type 0 where
  pub id : String
  pub account_id : String
  pub hash : String
  pub device_id : String
  pub expires_at : ℤ
  pub revoked : Bool

-- The errors of the package; `store_failed` stands for one of a database.
pub data AuthError : Type 0 where
  email_taken bad_creds refresh_bad not_found store_failed : AuthError
  password_short hash_format random_failed sign_failed : AuthError

pub record Store : Type 1 where
  pub State : Type 0
  pub create_account : State → Account → Option AuthError × State
  pub account_by_email : State → String → Result AuthError Account
  pub account_by_id : State → String → Result AuthError Account
  pub save_refresh : State → RefreshToken → Option AuthError × State
  pub refresh_by_hash : State → String → Result AuthError RefreshToken
  pub revoke_refresh : State → String → Option AuthError × State

-- What the service relies on. `Valid` holds of the states that the operations reach.
pub record IsStore (S : Store) (Valid : S.State → Type 0) : Type 0 where
  pub create_valid : (s : S.State) (a : Account) → Valid s → Valid (S.create_account s a).1
  pub save_valid : (s : S.State) (rt : RefreshToken) → Valid s → Valid (S.save_refresh s rt).1
  pub revoke_valid : (s : S.State) (id : String) → Valid s → Valid (S.revoke_refresh s id).1
  -- an account that is created is found under its email
  pub create_found :
      (s : S.State) (a : Account)
      → (S.create_account s a).0 ≡ none
      → S.account_by_email (S.create_account s a).1 a.email ≡ ok a
  -- an email stays taken
  pub create_keeps :
      (s : S.State) (a : Account) (email : String) (held : Account)
      → S.account_by_email s email ≡ ok held
      → (kept : Account) × (S.account_by_email (S.create_account s a).1 email ≡ ok kept)
  pub create_taken :
      (s : S.State) (a held : Account)
      → Valid s
      → S.account_by_email s a.email ≡ ok held
      → S.create_account s a ≡ (some email_taken, s)
  pub create_tokens :
      (s : S.State) (a : Account) (h : String)
      → S.refresh_by_hash (S.create_account s a).1 h ≡ S.refresh_by_hash s h
  -- the tokens and the accounts do not meet
  pub save_accounts :
      (s : S.State) (rt : RefreshToken) (email : String)
      → S.account_by_email (S.save_refresh s rt).1 email ≡ S.account_by_email s email
  pub revoke_accounts :
      (s : S.State) (id email : String)
      → S.account_by_email (S.revoke_refresh s id).1 email ≡ S.account_by_email s email
  -- a token is kept until another takes its id or its hash
  pub save_found :
      (s : S.State) (rt : RefreshToken)
      → (S.save_refresh s rt).0 ≡ none
      → S.refresh_by_hash (S.save_refresh s rt).1 rt.hash ≡ ok rt
  pub save_other :
      (s : S.State) (rt held : RefreshToken) (h : String)
      → Valid s
      → S.refresh_by_hash s h ≡ ok held
      → held.id ≢ rt.id
      → h ≢ rt.hash
      → S.refresh_by_hash (S.save_refresh s rt).1 h ≡ ok held
  -- a token that is revoked stays, and is marked
  pub revoke_found :
      (s : S.State) (held : RefreshToken) (h : String)
      → Valid s
      → S.refresh_by_hash s h ≡ ok held
      → (S.revoke_refresh s held.id).0 ≡ none
      → S.refresh_by_hash (S.revoke_refresh s held.id).1 h ≡ ok (record held { revoked = true })
  -- no revocation brings a spent token back
  pub revoke_spent :
      (s : S.State) (held : RefreshToken) (id h : String)
      → Valid s
      → S.refresh_by_hash s h ≡ ok held
      → held.revoked ≡ true
      → S.refresh_by_hash (S.revoke_refresh s id).1 h ≡ ok held
