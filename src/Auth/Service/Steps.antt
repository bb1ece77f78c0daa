-- ===== src/Auth/Service/Steps.antt =====
-- An invariant of the Store under the calls of services/auth/internal/service.go: what the three
-- writes of a Store keep, every call keeps.
use pokecatch.Prelude.{String, Bool, ◌||◌, Option, none, some, List, [], ◌∷◌, All, if_holds}
use pokecatch.Prelude.Int.{ltb_ℤ}
use pokecatch.Prelude.Outcome.{Result, ok, err}
use pokecatch.Token.{sign_access_token}
use pokecatch.Auth.Store.{Account, RefreshToken, AuthError, Store}
use pokecatch.Auth.Password.{hash_password, verify_password}
use pokecatch.Auth.Service.{
  Config, Library, Draws, Call, register_call, login_call, refresh_call, new_refresh, saved,
  signed_pair, issue_pair, new_account, registered, create, register_as, register, logged_in,
  login_as, login, reissued, rotated, refresh_as, refresh, normalize_email, hash_token, step, run,
  Answer,
}

abbrev pub draws_of : {Bytes : Type 0} → Call Bytes → Draws Bytes
draws_of (register_call d email password display_name) = d
draws_of (login_call d email password device_id) = d
draws_of (refresh_call d raw) = d

module _ {Bytes : Type 0} (lib : Library Bytes) (cfg : Config Bytes) (S : Store) where
  -- `I` is kept by the writes; a new token of the draws `d` needs `F d`.
  pub record IsKept (I : S.State → Type 0) (F : Draws Bytes → Type 0) : Type 0 where
    pub by_create : (s : S.State) (a : Account) → I s → I (S.create_account s a).1
    pub by_save :
        (s : S.State) (d : Draws Bytes) (acc : Account) (device_id : String)
        → F d
        → I s
        → I (S.save_refresh s (new_refresh lib cfg S d acc device_id)).1
    pub by_revoke : (s : S.State) (id : String) → I s → I (S.revoke_refresh s id).1

  -- A new pair only writes a token.
  module _ (I : S.State → Type 0) (d : Draws Bytes)
      (by_save : (s : S.State) (acc : Account) (device_id : String)
        → I s
        → I (S.save_refresh s (new_refresh lib cfg S d acc device_id)).1) where
    saved_keeps :
        (access : String) (r : Option AuthError × S.State)
        → I r.1
        → I (saved lib cfg S d access r).1
    saved_keeps access (some e, s) h = h
    saved_keeps access (none, s) h = h

    signed_keeps :
        (s : S.State) (acc : Account) (device_id : String) (access : Option String)
        → I s
        → I (signed_pair lib cfg S s d acc device_id access).1
    signed_keeps s acc device_id none h = h
    signed_keeps s acc device_id (some access) h =
        saved_keeps access (S.save_refresh s (new_refresh lib cfg S d acc device_id))
          (by_save s acc device_id h)

    pub issue_keeps :
        (s : S.State) (acc : Account) (device_id : String)
        → I s
        → I (issue_pair lib cfg S s d acc device_id).1
    unfolding issue_pair
    issue_keeps s acc device_id h =
        signed_keeps s acc device_id
          (sign_access_token lib.codec cfg.secret d.sign_now acc.id cfg.access_ttl acc.token_ver) h

  module _ (I : S.State → Type 0) (F : Draws Bytes → Type 0) (kept : IsKept I F) (d : Draws Bytes)
      (fresh : F d) where
    issued_keeps :
        (s : S.State) (acc : Account) (device_id : String)
        → I s
        → I (issue_pair lib cfg S s d acc device_id).1
    issued_keeps s acc device_id h =
        issue_keeps I d (λ t a dev k. kept.by_save t d a dev fresh k) s acc device_id h

    pub registered_keeps :
        (acc : Account) (r : Option AuthError × S.State)
        → I r.1
        → I (registered lib cfg S d acc r).1
    registered_keeps acc (some e, s) h = h
    registered_keeps acc (none, s) h = issued_keeps s acc "" h

    create_keeps :
        (s : S.State) (email display_name : String) (hash : Result AuthError String)
        → I s
        → I (create lib cfg S s d email display_name hash).1
    create_keeps s email display_name (err e) h = h
    create_keeps s email display_name (ok hash) h =
        let acc = new_account lib cfg S d email display_name hash in
        registered_keeps acc (S.create_account s acc) (kept.by_create s acc h)

    register_as_keeps :
        (s : S.State) (email password display_name : String) (found : Result AuthError Account)
        → I s
        → I (register_as lib cfg S s d email password display_name found).1
    register_as_keeps s email password display_name (ok acc) h = h
    register_as_keeps s email password display_name (err e) h =
        create_keeps s email display_name (hash_password lib.kdf d.salt password) h

    logged_in_keeps :
        (s : S.State) (acc : Account) (device_id : String) (answer : Result AuthError Bool)
        → I s
        → I (logged_in lib cfg S s d acc device_id answer).1
    logged_in_keeps s acc device_id (err e) h = h
    logged_in_keeps s acc device_id (ok b) h =
        if_holds (λ (r : Answer lib cfg S). I r.1) b (λ _. issued_keeps s acc device_id h) (λ _. h)

    login_as_keeps :
        (s : S.State) (password device_id : String) (found : Result AuthError Account)
        → I s
        → I (login_as lib cfg S s d password device_id found).1
    login_as_keeps s password device_id (err e) h = h
    login_as_keeps s password device_id (ok acc) h =
        logged_in_keeps s acc device_id (verify_password lib.kdf password acc.password_hash) h

    reissued_keeps :
        (s : S.State) (device_id : String) (found : Result AuthError Account)
        → I s
        → I (reissued lib cfg S s d device_id found).1
    reissued_keeps s device_id (err e) h = h
    reissued_keeps s device_id (ok acc) h = issued_keeps s acc device_id h

    pub rotated_keeps :
        (rt : RefreshToken) (r : Option AuthError × S.State)
        → I r.1
        → I (rotated lib cfg S d rt r).1
    rotated_keeps rt (some e, s) h = h
    rotated_keeps rt (none, s) h = reissued_keeps s rt.device_id (S.account_by_id s rt.account_id) h

    refresh_as_keeps :
        (s : S.State) (found : Result AuthError RefreshToken)
        → I s
        → I (refresh_as lib cfg S s d found).1
    refresh_as_keeps s (err e) h = h
    refresh_as_keeps s (ok rt) h =
        if_holds (λ (r : Answer lib cfg S). I r.1) (rt.revoked || ltb_ℤ rt.expires_at d.check_now)
          (λ _. h) (λ _. rotated_keeps rt (S.revoke_refresh s rt.id) (kept.by_revoke s rt.id h))

  module _ (I : S.State → Type 0) (F : Draws Bytes → Type 0) (kept : IsKept I F) where
    pub step_keeps :
        (s : S.State) (c : Call Bytes) → F (draws_of c) → I s → I (step lib cfg S s c).1
    unfolding step register login refresh
    step_keeps s (register_call d email password display_name) fresh h =
        let e = normalize_email lib cfg S email in
        register_as_keeps I F kept d fresh s e password display_name (S.account_by_email s e) h
    step_keeps s (login_call d email password device_id) fresh h =
        login_as_keeps I F kept d fresh s password device_id
          (S.account_by_email s (normalize_email lib cfg S email)) h
    step_keeps s (refresh_call d raw) fresh h =
        refresh_as_keeps I F kept d fresh s (S.refresh_by_hash s (hash_token lib cfg S raw)) h

    pub run_keeps :
        (s : S.State) (cs : List (Call Bytes))
        → All (λ c. F (draws_of c)) cs
        → I s
        → I (run lib cfg S s cs)
    unfolding run
    run_keeps s [] fresh h = h
    run_keeps s (c ∷ cs) fresh h =
        run_keeps (step lib cfg S s c).1 cs fresh.1 (step_keeps s c fresh.0 h)
