-- ===== src/Auth/Tests.antt =====
-- A registration, a login and two refreshes with services/auth over the in-memory store.
use pokecatch.Prelude.{
  ℕ, String, ◌≡◌, refl, ◌≢◌, eq_iff, true, false, Option, none, some, ◌∷◌, [], str_eq, ◌==◌,
  if◌then◌else◌,
}
use pokecatch.Prelude.Int.{ℤ, pos, ◌+ℤ◌}
use pokecatch.Prelude.Outcome.{ok, err}
use pokecatch.Prelude.Text.{lacks, byte_length, trim_space}
use pokecatch.Prelude.Dict.{get, put, empty}
use pokecatch.Token.{sign_access_token}
use pokecatch.Token.Tests.{Slice, document, mac, codec, slice_eq, of_text, to_text, decode-encode}
use pokecatch.Auth.Store.{Account, RefreshToken, email_taken, bad_creds, refresh_bad}
use pokecatch.Auth.Password.{Params, default_params, Kdf, IsKdf, dollar, hash_password}
use pokecatch.Auth.Password.RoundTrip.{key_of}
use pokecatch.Auth.MemStore.{
  MemStore, new_mem_store, mem_store, create_account, save_refresh, refresh_by_hash, revoke_refresh,
  account_by_id, account_by_email,
}
use pokecatch.Auth.MemStore.Laws.{IsValid, mem_store-IsStore}
use pokecatch.Auth.Service.{
  Config, Library, Draws, login_call, TokenPair, register, login, refresh, run, issue_pair,
}
use pokecatch.Auth.Service.SingleUse.{refresh_once}
use pokecatch.Auth.Service.Race.{check, rotate, pair_of, refreshed_twice}
use pokecatch.Auth.Service.Registration.{register_once, login-register}

abbrev scan_19 : String → Option ℤ
scan_19 s = if str_eq s "v=19" then some (pos 19) else none

abbrev scan_default : String → Option Params
scan_default s = if str_eq s "m=65536,t=3,p=4" then some default_params else none

abbrev print : ℕ → String
print n = if n == 19 then "19" else if n == 65536 then "65536" else if n == 3 then "3" else "4"

abbrev kdf : Kdf Slice
kdf = record {
  text_bytes = λ s. if str_eq s "correct horse" then document else mac;
  len = λ b. 32;
  id_key = λ text salt p n. text;
  encode = to_text;
  decode = of_text;
  equal = slice_eq;
  decimal = print;
  scan_version = scan_19;
  scan_params = scan_default;
}

to_text_plain : (b : Slice) → lacks dollar (to_text b) ≡ true
unfolding lacks
to_text_plain document = refl
to_text_plain mac = refl

kdf-IsKdf : IsKdf kdf
unfolding lacks
kdf-IsKdf = record {
  len_key = λ text salt. refl;
  decodes = decode-encode;
  encode_plain = to_text_plain;
  scans_version = refl;
  scans_params = refl;
  version_plain = refl;
  params_plain = refl;
}

abbrev pub library : Library Slice
library = record {
  codec = record codec { marshal = λ m. some document };
  kdf = kdf;
  to_lower = λ s. s;
  sha256_hex = λ s. s;
  seconds = λ d. pos 900;
}

abbrev pub config : Config Slice
config = record { secret = mac; access_ttl = pos 900000000000; refresh_ttl = pos 1000 }

abbrev pub draws : String → String → Draws Slice
draws raw id = record {
  account_id = "a1";
  salt = some mac;
  check_now = pos 7;
  sign_now = pos 7;
  random_first = raw;
  random_second = "";
  refresh_id = id;
  save_now = pos 7;
}

abbrev pair : String → TokenPair
pair raw = record { access_token = "h.p.m"; refresh_token = raw; expires_in = pos 900 }

abbrev pub registered : MemStore
registered =
    (register library config mem_store new_mem_store (draws "r1" "t1") "ada@x" "correct horse"
      "Ada").1

register_once_example :
    register library config mem_store
      (run library config mem_store registered [])
      (draws "r2" "t2")
      " ada@x"
      "other words"
      "Eve"
    ≡ (err email_taken, run library config mem_store registered [])
unfolding register account_by_email get empty hash_password byte_length create_account issue_pair
    sign_access_token save_refresh trim_space
register_once_example =
    register_once library config mem_store mem_store-IsStore.1 new_mem_store (draws "r1" "t1")
      (draws "r2" "t2") "ada@x" "correct horse" "Ada" (pair "r1") [] " ada@x" "other words" "Eve"
      refl refl

login-register_example :
    (acc : Account) × (acc.id ≡ "a1")
    × (login library config mem_store registered (draws "r2" "t2") "ada@x" "battery staple" "d" ≡ (
        if kdf.equal (key_of kdf mac "correct horse") (key_of kdf mac "battery staple")
        then issue_pair library config mem_store registered (draws "r2" "t2") acc "d"
        else (err bad_creds, registered)))
unfolding register account_by_email get empty hash_password byte_length create_account issue_pair
    sign_access_token save_refresh
login-register_example =
    login-register library config mem_store mem_store-IsStore.1 new_mem_store (draws "r1" "t1")
      (draws "r2" "t2") "ada@x" "correct horse" "Ada" (pair "r1") "battery staple" "d" mac kdf-IsKdf
      refl refl

differ : (a b : String) → str_eq a b ≡ false → a ≢ b
differ a b h e = absurd (cc (h, (eq_iff a b).1 e))

abbrev account : Account
account = record {
  id = "a1";
  email = "ada@x";
  display_name = "Ada";
  password_hash = "";
  token_ver = pos 1;
}

abbrev first_token : RefreshToken
first_token = record {
  id = "t1";
  account_id = "a1";
  hash = "r1";
  device_id = "d";
  expires_at = pos 1000;
  revoked = false;
}

abbrev stocked : MemStore
stocked = (save_refresh (create_account new_mem_store account).1 first_token).1

stocked-IsValid : IsValid stocked
stocked-IsValid =
    mem_store-IsStore.1.save_valid (create_account new_mem_store account).1 first_token
      (mem_store-IsStore.1.create_valid new_mem_store account mem_store-IsStore.0)

abbrev after_refresh : MemStore
after_refresh =
    run library config mem_store (refresh library config mem_store stocked (draws "r2" "t2") "r1").1
      (login_call (draws "r3" "t3") "ada@x" "correct horse" "d" ∷ [])

refresh_once_example :
    refresh library config mem_store after_refresh (draws "r4" "t4") "r1"
    ≡ (err refresh_bad, after_refresh)
unfolding refresh_by_hash get save_refresh put create_account empty refresh revoke_refresh
    account_by_id issue_pair sign_access_token
refresh_once_example =
    refresh_once library config mem_store mem_store-IsStore.1 stocked (draws "r2" "t2")
      (draws "r4" "t4") "r1" first_token (pair "r2")
      (login_call (draws "r3" "t3") "ada@x" "correct horse" "d" ∷ []) stocked-IsValid refl refl
      (differ "t1" "t2" refl, differ "r1" "r2" refl)
      ((differ "t1" "t3" refl, differ "r1" "r3" refl), _)

abbrev initial_token : RefreshToken
initial_token = record {
  id = "t1";
  account_id = "a1";
  hash = "r1";
  device_id = "";
  expires_at = pos 1007;
  revoked = false;
}

abbrev hashed_account : Account
hashed_account = record {
  id = "a1";
  email = "ada@x";
  display_name = "Ada";
  password_hash = "$argon2id$v=19$m=65536,t=3,p=4$m$p";
  token_ver = pos 1;
}

refreshed_twice_example :
    let one =
      rotate library config mem_store registered
        (draws "r2" "t2")
        (check library config mem_store registered (draws "r2" "t2") "r1") in
    let two =
      rotate library config mem_store one.1
        (draws "r3" "t3")
        (check library config mem_store registered (draws "r3" "t3") "r1") in
    (one.0 ≡ ok (pair_of library config (draws "r2" "t2") "h.p.m"))
    × (two.0 ≡ ok (pair_of library config (draws "r3" "t3") "h.p.m"))
unfolding register account_by_email get empty hash_password byte_length create_account issue_pair
    sign_access_token save_refresh trim_space check refresh_by_hash account_by_id put ◌+ℤ◌
refreshed_twice_example =
    refreshed_twice library config registered (draws "r2" "t2") (draws "r3" "t3") "r1" "h.p.m"
      "h.p.m" initial_token initial_token hashed_account refl refl refl refl refl refl
