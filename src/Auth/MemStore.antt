-- ===== src/Auth/MemStore.antt =====
-- services/auth/internal/store_memory.go: the in-memory Store.
pub mod Laws
use pokecatch.Prelude.{String, Bool, true, false, Option, none, some}
use pokecatch.Prelude.Int.{pos}
use pokecatch.Prelude.Outcome.{Result, ok, err}
use pokecatch.Prelude.Dict.{Dict, empty, get, put}
use pokecatch.Auth.Store.{Account, RefreshToken, AuthError, email_taken, not_found, Store}

pub record MemStore : Type 0 where
  pub by_id : Dict Account
  pub by_email : Dict String
  pub refresh : Dict RefreshToken
  pub ref_by_hash : Dict String

abbrev pub new_mem_store : MemStore
new_mem_store = record { by_id = empty; by_email = empty; refresh = empty; ref_by_hash = empty }

-- What Go's map yields under a missing key.
abbrev pub zero_account : Account
zero_account = record {
  id = "";
  email = "";
  display_name = "";
  password_hash = "";
  token_ver = pos 0;
}

abbrev pub zero_refresh : RefreshToken
zero_refresh = record {
  id = "";
  account_id = "";
  hash = "";
  device_id = "";
  expires_at = pos 0;
  revoked = false;
}

abbrev pub or_zero : {A : Type 0} → A → Option A → A
or_zero z none = z
or_zero z (some a) = a

abbrev pub created : MemStore → Account → Option String → Option AuthError × MemStore
created m a (some _) = (some email_taken, m)
created m a none =
    (none, record m { by_id = put m.by_id a.id a; by_email = put m.by_email a.email a.id })

unfoldable pub create_account : MemStore → Account → Option AuthError × MemStore
create_account m a = created m a (get m.by_email a.email)

abbrev pub account_of : MemStore → Option String → Result AuthError Account
account_of m none = err not_found
account_of m (some id) = ok (or_zero zero_account (get m.by_id id))

unfoldable pub account_by_email : MemStore → String → Result AuthError Account
account_by_email m email = account_of m (get m.by_email email)

abbrev pub found : {A : Type 0} → Option A → Result AuthError A
found none = err not_found
found (some a) = ok a

unfoldable pub account_by_id : MemStore → String → Result AuthError Account
account_by_id m id = found (get m.by_id id)

unfoldable pub save_refresh : MemStore → RefreshToken → Option AuthError × MemStore
save_refresh m rt = (
  none,
  record m { refresh = put m.refresh rt.id rt; ref_by_hash = put m.ref_by_hash rt.hash rt.id },
)

abbrev pub refresh_of : MemStore → Option String → Result AuthError RefreshToken
refresh_of m none = err not_found
refresh_of m (some id) = ok (or_zero zero_refresh (get m.refresh id))

unfoldable pub refresh_by_hash : MemStore → String → Result AuthError RefreshToken
refresh_by_hash m hash = refresh_of m (get m.ref_by_hash hash)

abbrev pub revoked_at : MemStore → String → Option RefreshToken → Option AuthError × MemStore
revoked_at m id none = (some not_found, m)
revoked_at m id (some rt) =
    (none, record m { refresh = put m.refresh id (record rt { revoked = true }) })

unfoldable pub revoke_refresh : MemStore → String → Option AuthError × MemStore
revoke_refresh m id = revoked_at m id (get m.refresh id)

abbrev pub mem_store : Store
mem_store = record {
  State = MemStore;
  create_account = create_account;
  account_by_email = account_by_email;
  account_by_id = account_by_id;
  save_refresh = save_refresh;
  refresh_by_hash = refresh_by_hash;
  revoke_refresh = revoke_refresh;
}
