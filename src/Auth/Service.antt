-- ===== src/Auth/Service.antt =====
-- services/auth/internal/service.go and tokens.go: registration, login and the rotation of refresh
-- tokens, over any Store.
pub mod Steps
pub mod SingleUse
pub mod Registration
pub mod Race
use pokecatch.Prelude.{
  String, Bool, true, false, not, ◌||◌, Option, none, some, List, [], ◌∷◌, if◌then◌else◌,
}
use pokecatch.Prelude.Int.{ℤ, pos, ◌+ℤ◌, eq_ℤ, ltb_ℤ}
use pokecatch.Prelude.Outcome.{Result, ok, err}
use pokecatch.Prelude.Text.{◌++◌, trim_space}
use pokecatch.Token.{Codec, sign_access_token}
use pokecatch.Auth.Store.{
  Account, RefreshToken, AuthError, email_taken, bad_creds, refresh_bad, sign_failed, Store,
}
use pokecatch.Auth.Password.{Kdf, hash_password, verify_password}

pub record Config (Bytes : Type 0) : Type 0 where
  pub secret : Bytes
  pub access_ttl : ℤ
  pub refresh_ttl : ℤ

-- The defaults of NewService
abbrev or_default : ℤ → ℤ → ℤ
or_default default ttl = if eq_ℤ ttl (pos 0) then default else ttl

unfoldable pub new_service : {Bytes : Type 0} → Config Bytes → Config Bytes
new_service cfg = record cfg {
  access_ttl = or_default (pos 900000000000) cfg.access_ttl;
  refresh_ttl = or_default (pos 2592000000000000) cfg.refresh_ttl;
}

pub record TokenPair : Type 0 where
  pub access_token : String
  pub refresh_token : String
  pub expires_in : ℤ

-- The libraries: the tokens and the passwords, strings.ToLower, the hex SHA-256 of a text, and the
-- whole part of Duration.Seconds().
pub record Library (Bytes : Type 0) : Type 0 where
  pub codec : Codec Bytes
  pub kdf : Kdf Bytes
  pub to_lower : String → String
  pub sha256_hex : String → String
  pub seconds : ℤ → ℤ

-- What one call draws from the generators and the clock.
pub record Draws (Bytes : Type 0) : Type 0 where
  pub account_id : String
  pub salt : Option Bytes
  pub check_now : ℤ
  pub sign_now : ℤ
  pub random_first : String
  pub random_second : String
  pub refresh_id : String
  pub save_now : ℤ

module _ {Bytes : Type 0} (lib : Library Bytes) (cfg : Config Bytes) (S : Store) where
  abbrev pub Answer : Type 0
  Answer = Result AuthError TokenPair × S.State

  abbrev pub hash_token : String → String
  hash_token raw = lib.sha256_hex raw

  abbrev pub normalize_email : String → String
  normalize_email e = lib.to_lower (trim_space e)

  abbrev pub raw_refresh : Draws Bytes → String
  raw_refresh d = d.random_first ++ d.random_second

  abbrev pub new_refresh : Draws Bytes → Account → String → RefreshToken
  new_refresh d acc device_id = record {
    id = d.refresh_id;
    account_id = acc.id;
    hash = hash_token (raw_refresh d);
    device_id = device_id;
    expires_at = d.save_now +ℤ cfg.refresh_ttl;
    revoked = false;
  }

  abbrev pub saved : Draws Bytes → String → Option AuthError × S.State → Answer
  saved d access (some e, s) = (err e, s)
  saved d access (none, s) = (
    ok (record {
      access_token = access;
      refresh_token = raw_refresh d;
      expires_in = lib.seconds cfg.access_ttl;
    }),
    s,
  )

  abbrev pub signed_pair : S.State → Draws Bytes → Account → String → Option String → Answer
  signed_pair s d acc device_id none = (err sign_failed, s)
  signed_pair s d acc device_id (some access) =
      saved d access (S.save_refresh s (new_refresh d acc device_id))

  unfoldable pub issue_pair : S.State → Draws Bytes → Account → String → Answer
  issue_pair s d acc device_id =
      signed_pair s d acc device_id
        (sign_access_token lib.codec cfg.secret d.sign_now acc.id cfg.access_ttl acc.token_ver)

  abbrev pub new_account : Draws Bytes → String → String → String → Account
  new_account d email display_name hash = record {
    id = d.account_id;
    email = email;
    display_name = display_name;
    password_hash = hash;
    token_ver = pos 1;
  }

  abbrev pub registered : Draws Bytes → Account → Option AuthError × S.State → Answer
  registered d acc (some e, s) = (err e, s)
  registered d acc (none, s) = issue_pair s d acc ""

  abbrev pub create : S.State → Draws Bytes → String → String → Result AuthError String → Answer
  create s d email display_name (err e) = (err e, s)
  create s d email display_name (ok hash) =
      let acc = new_account d email display_name hash in registered d acc (S.create_account s acc)

  abbrev pub register_as :
      S.State → Draws Bytes → String → String → String → Result AuthError Account → Answer
  register_as s d email password display_name (ok acc) = (err email_taken, s)
  register_as s d email password display_name (err e) =
      create s d email display_name (hash_password lib.kdf d.salt password)

  -- Register
  unfoldable pub register : S.State → Draws Bytes → String → String → String → Answer
  register s d email password display_name =
      let e = normalize_email email in
      register_as s d e password display_name (S.account_by_email s e)

  abbrev pub logged_in : S.State → Draws Bytes → Account → String → Result AuthError Bool → Answer
  logged_in s d acc device_id (err e) = (err bad_creds, s)
  logged_in s d acc device_id (ok b) =
      if b then issue_pair s d acc device_id else (err bad_creds, s)

  abbrev pub login_as : S.State → Draws Bytes → String → String → Result AuthError Account → Answer
  login_as s d password device_id (err e) = (err bad_creds, s)
  login_as s d password device_id (ok acc) =
      logged_in s d acc device_id (verify_password lib.kdf password acc.password_hash)

  -- Login
  unfoldable pub login : S.State → Draws Bytes → String → String → String → Answer
  login s d email password device_id =
      login_as s d password device_id (S.account_by_email s (normalize_email email))

  abbrev pub reissued : S.State → Draws Bytes → String → Result AuthError Account → Answer
  reissued s d device_id (err e) = (err refresh_bad, s)
  reissued s d device_id (ok acc) = issue_pair s d acc device_id

  abbrev pub rotated : Draws Bytes → RefreshToken → Option AuthError × S.State → Answer
  rotated d rt (some e, s) = (err e, s)
  rotated d rt (none, s) = reissued s d rt.device_id (S.account_by_id s rt.account_id)

  abbrev pub refresh_as : S.State → Draws Bytes → Result AuthError RefreshToken → Answer
  refresh_as s d (err e) = (err refresh_bad, s)
  refresh_as s d (ok rt) =
      if rt.revoked || ltb_ℤ rt.expires_at d.check_now
      then (err refresh_bad, s)
      else rotated d rt (S.revoke_refresh s rt.id)

  -- Refresh
  unfoldable pub refresh : S.State → Draws Bytes → String → Answer
  refresh s d raw = refresh_as s d (S.refresh_by_hash s (hash_token raw))

-- The calls of the service, with what each draws.
pub data Call (Bytes : Type 0) : Type 0 where
  register_call : Draws Bytes → String → String → String → Call Bytes
  login_call : Draws Bytes → String → String → String → Call Bytes
  refresh_call : Draws Bytes → String → Call Bytes

module _ {Bytes : Type 0} (lib : Library Bytes) (cfg : Config Bytes) (S : Store) where
  unfoldable pub step : S.State → Call Bytes → Result AuthError TokenPair × S.State
  step s (register_call d email password display_name) =
      register lib cfg S s d email password display_name
  step s (login_call d email password device_id) = login lib cfg S s d email password device_id
  step s (refresh_call d raw) = refresh lib cfg S s d raw

  unfoldable pub run : S.State → List (Call Bytes) → S.State
  unfolding step
  run s [] = s
  run s (c ∷ cs) = run (step s c).1 cs
