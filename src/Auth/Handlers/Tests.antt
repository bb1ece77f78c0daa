-- ===== src/Auth/Handlers/Tests.antt =====
-- A login at services/auth/internal/handlers.go with an email that nobody has registered.
use pokecatch.Prelude.{String, ◌≡◌, refl, some}
use pokecatch.Prelude.Dict.{get, empty}
use pokecatch.Auth.MemStore.{new_mem_store, mem_store, account_by_email}
use pokecatch.Auth.Tests.{library, config, draws}
use pokecatch.Auth.Handlers.{LoginReq, Decoder, code, write_json, logs_in, handle}
use pokecatch.Auth.Handlers.Uniform.{IsRefused, login_uniform}

abbrev request : LoginReq
request = record { email = "bob@x"; password = "correct horse"; device_id = "d" }

abbrev json : Decoder String
json = record {
  register_req = λ b. some (record { email = b; password = b; display_name = b });
  login_req = λ b. some request;
  refresh_token = some;
}

unknown-IsRefused : IsRefused library config mem_store json new_mem_store request
unfolding account_by_email get empty
unknown-IsRefused acc e = absurd (cc e)

login_uniform_example :
    handle library config mem_store json new_mem_store (draws "r1" "t1") (logs_in "{}")
    ≡ (write_json 401 (code "invalid_credentials"), new_mem_store)
login_uniform_example =
    login_uniform library config mem_store json new_mem_store (draws "r1" "t1") "{}" request refl
      unknown-IsRefused
