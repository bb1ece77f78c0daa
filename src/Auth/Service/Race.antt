-- ===== src/Auth/Service/Race.antt =====
-- Two refreshes with one token at the same time, in services/auth/internal/service.go over the
-- in-memory store: its mutex is held for each operation, not for the whole of Refresh.
use pokecatch.Prelude.{
  String, ◌≡◌, refl, ap, true, ◌||◌, some, arith, inl, inr, str_eq, Bool-cases, if◌then◌else◌,
}
use pokecatch.Prelude.Int.{ltb_ℤ}
use pokecatch.Prelude.Dict.{get, put, get-put, get-put_self}
use pokecatch.Prelude.Outcome.{Result, ok, err, Result-cases}
use pokecatch.Token.{sign_access_token}
use pokecatch.Auth.Store.{Account, RefreshToken, AuthError, refresh_bad, Store}
use pokecatch.Auth.MemStore.{MemStore, mem_store, revoke_refresh, save_refresh, account_by_id}
use pokecatch.Auth.Service.{
  Config, Library, Draws, TokenPair, Answer, hash_token, raw_refresh, rotated, refresh, issue_pair,
  new_refresh,
}

module _ {Bytes : Type 0} (lib : Library Bytes) (cfg : Config Bytes) (S : Store) where
  -- Refresh up to the revocation, and from there on
  unfoldable pub check : S.State → Draws Bytes → String → Result AuthError RefreshToken
  check s d raw = checked (S.refresh_by_hash s (hash_token lib cfg S raw))
    where
      checked : Result AuthError RefreshToken → Result AuthError RefreshToken
      checked (err e) = err refresh_bad
      checked (ok rt) =
          if rt.revoked || ltb_ℤ rt.expires_at d.check_now then err refresh_bad else ok rt

  unfoldable pub rotate : S.State → Draws Bytes → Result AuthError RefreshToken → Answer lib cfg S
  rotate s d (err e) = (err e, s)
  rotate s d (ok rt) = rotated lib cfg S d rt (S.revoke_refresh s rt.id)

  -- With nothing in between they are Refresh.
  pub rotate-check :
      (s : S.State) (d : Draws Bytes) (raw : String)
      → rotate s d (check s d raw) ≡ refresh lib cfg S s d raw
  unfolding rotate check refresh
  rotate-check s d raw = elim (Result-cases (S.refresh_by_hash s (hash_token lib cfg S raw))) [
    | inr (e, p) ↦ ground (arith, p)
    | inl (rt, p) ↦ ground (arith, p)
  ]

revoke_still :
    (m : MemStore) (rt held new : RefreshToken) (new_id : String)
    → get m.refresh rt.id ≡ some held
    → (x : RefreshToken) × (get
          (put (put m.refresh rt.id (record held { revoked = true })) new_id new)
          rt.id
        ≡ some x)
revoke_still m rt held new new_id h = elim (Bool-cases (str_eq new_id rt.id)) [
  | inl e ↦ (
    new,
    rw (get-put (put m.refresh rt.id (record held { revoked = true })) new_id rt.id new, e) refl,
  )
  | inr e ↦ (
    record held { revoked = true },
    rw (get-put (put m.refresh rt.id (record held { revoked = true })) new_id rt.id new, e)
        (get-put_self m.refresh rt.id (record held { revoked = true })),
  )
]

module _ {Bytes : Type 0} (lib : Library Bytes) (cfg : Config Bytes) where
  abbrev pub pair_of : Draws Bytes → String → TokenPair
  pair_of d access = record {
    access_token = access;
    refresh_token = raw_refresh lib cfg mem_store d;
    expires_in = lib.seconds cfg.access_ttl;
  }

  rotate_ok :
      (m : MemStore) (d : Draws Bytes) (rt held : RefreshToken) (acc : Account) (access : String)
      → get m.refresh rt.id ≡ some held
      → account_by_id m rt.account_id ≡ ok acc
      → sign_access_token lib.codec cfg.secret d.sign_now acc.id cfg.access_ttl acc.token_ver
        ≡ some access
      → rotate lib cfg mem_store m d (ok rt) ≡ (
        ok (pair_of d access),
        record m {
          refresh =
              put
                (put m.refresh rt.id (record held { revoked = true }))
                d.refresh_id
                (new_refresh lib cfg mem_store d acc rt.device_id);
          ref_by_hash =
              put m.ref_by_hash
                (hash_token lib cfg mem_store (raw_refresh lib cfg mem_store d))
                d.refresh_id;
        },
      )
  unfolding rotate revoke_refresh save_refresh account_by_id issue_pair
  rotate_ok m d rt held acc access there known signed = rw (there, known, signed) refl

  -- Over the in-memory store, when two refreshes with one token both look it up before either
  -- revokes it, the account is there under its id and both access tokens sign, both yield a pair.
  pub refreshed_twice :
      (m : MemStore) (first second : Draws Bytes) (raw access_1 access_2 : String)
      (rt held : RefreshToken) (acc : Account)
      → check lib cfg mem_store m first raw ≡ ok rt
      → check lib cfg mem_store m second raw ≡ ok rt
      → get m.refresh rt.id ≡ some held
      → account_by_id m rt.account_id ≡ ok acc
      → sign_access_token lib.codec cfg.secret first.sign_now acc.id cfg.access_ttl acc.token_ver
        ≡ some access_1
      → sign_access_token lib.codec cfg.secret second.sign_now acc.id cfg.access_ttl acc.token_ver
        ≡ some access_2
      → let one = rotate lib cfg mem_store m first (check lib cfg mem_store m first raw) in
        let two = rotate lib cfg mem_store one.1 second (check lib cfg mem_store m second raw) in
        (one.0 ≡ ok (pair_of first access_1)) × (two.0 ≡ ok (pair_of second access_2))
  unfolding account_by_id
  refreshed_twice m first second raw access_1 access_2 rt held acc c1 c2 there known s1 s2 =
      let done = rotate_ok m first rt held acc access_1 there known s1 in
      let (x, still) =
        revoke_still m rt held (new_refresh lib cfg mem_store first acc rt.device_id)
          first.refresh_id there in
      rw (c1, c2, done)
        (
          refl,
          ap (λ (a : Answer lib cfg mem_store). a.0)
              (rotate_ok _ second rt x acc access_2 still known s2),
        )
