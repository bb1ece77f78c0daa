-- ===== src/Auth/Handlers/Uniform.antt =====
-- What a login that fails at services/auth/internal/handlers.go tells its caller.
use pokecatch.Prelude.{◌≡◌, ◌≢◌, refl, subst, true, inl, inr, some, Bool-cases}
use pokecatch.Prelude.Outcome.{ok, err, Result-cases}
use pokecatch.Auth.Store.{Account, bad_creds, Store}
use pokecatch.Auth.Password.{verify_password}
use pokecatch.Auth.Service.{Config, Library, Draws, normalize_email, login}
use pokecatch.Auth.Handlers.{LoginReq, Decoder, code, write_json, write_err, logs_in, handle}

module _ {Bytes : Type 0} (lib : Library Bytes) (cfg : Config Bytes) (S : Store) {B : Type 0}
    (json : Decoder B) where
  -- There is no account with a password that the request's password fits.
  abbrev pub IsRefused : S.State → LoginReq → Type 0
  IsRefused s r =
      (acc : Account)
      → S.account_by_email s (normalize_email lib cfg S r.email) ≡ ok acc
      → verify_password lib.kdf r.password acc.password_hash ≢ ok true

  refused_login :
      (s : S.State) (d : Draws Bytes) (r : LoginReq)
      → IsRefused s r
      → login lib cfg S s d r.email r.password r.device_id ≡ (err bad_creds, s)
  unfolding login
  refused_login s d r unfit =
      elim (Result-cases (S.account_by_email s (normalize_email lib cfg S r.email))) [
        | inr (e, p) ↦ rw p refl
        | inl (acc, p) ↦
            elim (Result-cases (verify_password lib.kdf r.password acc.password_hash)) [
              | inr (e, q) ↦ rw (p, q) refl
              | inl (b, q) ↦ elim (Bool-cases b) [
                | inl yes_ ↦ absurd (
                    unfit acc p (
                      subst (λ x. verify_password lib.kdf r.password acc.password_hash ≡ ok x) yes_
                        q))
                | inr no_ ↦ rw (p, q, no_) refl
              ]
            ]
      ]

  -- A login whose body decodes gets one and the same answer, 401 invalid_credentials, and leaves
  -- the store as it was, whether there is no account under its email, or the store fails, or the
  -- password does not fit, or the stored hash does not read.
  pub login_uniform :
      (s : S.State) (d : Draws Bytes) (body : B) (r : LoginReq)
      → json.login_req body ≡ some r
      → IsRefused s r
      → handle lib cfg S json s d (logs_in body) ≡ (write_json 401 (code "invalid_credentials"), s)
  unfolding handle write_err
  login_uniform s d body r parsed unfit = rw (parsed, refused_login s d r unfit) refl
