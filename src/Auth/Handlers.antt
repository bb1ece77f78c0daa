-- ===== src/Auth/Handlers.antt =====
-- services/auth/internal/handlers.go: the HTTP adapter over the service. Decoding a body (of at most
-- 64 KiB) is a parameter.
pub mod Uniform
mod Tests
use pokecatch.Prelude.{ℕ, String, Option, none, some}
use pokecatch.Prelude.Int.{ℤ}
use pokecatch.Prelude.Outcome.{Result, ok, err}
use pokecatch.Auth.Store.{
  AuthError, email_taken, bad_creds, refresh_bad, not_found, store_failed, password_short,
  hash_format, random_failed, sign_failed, Store,
}
use pokecatch.Auth.Service.{Config, Library, Draws, TokenPair, Answer, register, login, refresh}

pub record RegisterReq : Type 0 where
  pub email : String
  pub password : String
  pub display_name : String

pub record LoginReq : Type 0 where
  pub email : String
  pub password : String
  pub device_id : String

-- What writeJSON encodes
pub data Body : Type 0 where
  code : String → Body
  tokens : TokenPair → Body

pub record Reply : Type 0 where
  pub status_code : ℕ
  pub body : Body

abbrev pub write_json : ℕ → Body → Reply
write_json n b = record { status_code = n; body = b }

unfoldable pub write_err : AuthError → Reply
write_err email_taken = write_json 409 (code "email_taken")
write_err bad_creds = write_json 401 (code "invalid_credentials")
write_err refresh_bad = write_json 401 (code "refresh_invalid")
write_err password_short = write_json 422 (code "password_too_short")
write_err not_found = write_json 500 (code "internal")
write_err store_failed = write_json 500 (code "internal")
write_err hash_format = write_json 500 (code "internal")
write_err random_failed = write_json 500 (code "internal")
write_err sign_failed = write_json 500 (code "internal")

abbrev pub bad_request : Reply
bad_request = write_json 400 (code "bad_request")

-- The decoders of the three shapes of bodies
pub record Decoder (Body : Type 0) : Type 0 where
  pub register_req : Body → Option RegisterReq
  pub login_req : Body → Option LoginReq
  pub refresh_token : Body → Option String

-- The routes of Routes
pub data Route (B : Type 0) : Type 0 where
  registers : B → Route B
  logs_in : B → Route B
  refreshes : B → Route B

module _ {Bytes : Type 0} (lib : Library Bytes) (cfg : Config Bytes) (S : Store) {B : Type 0}
    (json : Decoder B) where
  abbrev pub answered : ℕ → Answer lib cfg S → Reply × S.State
  answered success (err e, s) = (write_err e, s)
  answered success (ok pair, s) = (write_json success (tokens pair), s)

  abbrev pub register_handler : S.State → Draws Bytes → Option RegisterReq → Reply × S.State
  register_handler s d none = (bad_request, s)
  register_handler s d (some r) =
      answered 201 (register lib cfg S s d r.email r.password r.display_name)

  abbrev pub login_handler : S.State → Draws Bytes → Option LoginReq → Reply × S.State
  login_handler s d none = (bad_request, s)
  login_handler s d (some r) = answered 200 (login lib cfg S s d r.email r.password r.device_id)

  abbrev pub refresh_handler : S.State → Draws Bytes → Option String → Reply × S.State
  refresh_handler s d none = (bad_request, s)
  refresh_handler s d (some raw) = answered 200 (refresh lib cfg S s d raw)

  unfoldable pub handle : S.State → Draws Bytes → Route B → Reply × S.State
  handle s d (registers body) = register_handler s d (json.register_req body)
  handle s d (logs_in body) = login_handler s d (json.login_req body)
  handle s d (refreshes body) = refresh_handler s d (json.refresh_token body)
