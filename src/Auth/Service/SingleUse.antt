-- ===== src/Auth/Service/SingleUse.antt =====
-- That a refresh token of services/auth/internal/service.go is spent by its first use.
use pokecatch.Prelude.{
  String, ◌≡◌, ◌≢◌, refl, ◌∙◌, true, ◌||◌, Option, none, some, List, arith, Bool-cases, inl, inr,
  All,
}
use pokecatch.Prelude.Int.{ltb_ℤ}
use pokecatch.Prelude.Outcome.{ok, err}
use pokecatch.Auth.Store.{RefreshToken, AuthError, refresh_bad, Store, IsStore}
use pokecatch.Auth.Service.{
  Config, Library, Draws, Call, TokenPair, new_refresh, raw_refresh, hash_token, rotated, refresh,
  run,
}
use pokecatch.Auth.Service.Steps.{draws_of, IsKept, rotated_keeps, run_keeps}

module _ {Bytes : Type 0} (lib : Library Bytes) (cfg : Config Bytes) (S : Store)
    {Valid : S.State → Type 0} (law : IsStore S Valid) where
  -- The draws of a call take neither the id nor the hash of the token.
  abbrev pub IsFresh : RefreshToken → String → Draws Bytes → Type 0
  IsFresh held h d = (held.id ≢ d.refresh_id) × (h ≢ hash_token lib cfg S (raw_refresh lib cfg S d))

  abbrev marked : RefreshToken → RefreshToken
  marked held = record held { revoked = true }

  abbrev IsSpent : RefreshToken → String → S.State → Type 0
  IsSpent held h s = Valid s × (S.refresh_by_hash s h ≡ ok (marked held))

  IsSpent-IsKept :
      (held : RefreshToken) (h : String) → IsKept lib cfg S (IsSpent held h) (IsFresh held h)
  IsSpent-IsKept held h = record {
    by_create = λ s a k. (law.create_valid s a k.0, law.create_tokens s a h ∙ k.1);
    by_save = λ s d acc device_id fresh k. (
      law.save_valid s (new_refresh lib cfg S d acc device_id) k.0,
      law.save_other s (new_refresh lib cfg S d acc device_id) (marked held) h k.0 k.1 fresh.0
          fresh.1,
    );
    by_revoke =
        λ s id k. (law.revoke_valid s id k.0, law.revoke_spent s (marked held) id h k.0 k.1 refl);
  }

  rotated_ok :
      (d : Draws Bytes) (rt : RefreshToken) (r : Option AuthError × S.State) (pair : TokenPair)
      → (rotated lib cfg S d rt r).0 ≡ ok pair
      → r.0 ≡ none
  rotated_ok d rt (none, s) pair h = refl
  rotated_ok d rt (some e, s) pair h = absurd (cc h)

  first_use :
      (s : S.State) (d : Draws Bytes) (raw : String) (held : RefreshToken) (pair : TokenPair)
      → Valid s
      → S.refresh_by_hash s (hash_token lib cfg S raw) ≡ ok held
      → (refresh lib cfg S s d raw).0 ≡ ok pair
      → IsFresh held (hash_token lib cfg S raw) d
      → IsSpent held (hash_token lib cfg S raw) (refresh lib cfg S s d raw).1
  unfolding refresh
  first_use s d raw held pair valid e h fresh =
      let key = hash_token lib cfg S raw in
      let r = S.revoke_refresh s held.id in
      elim (Bool-cases (held.revoked || ltb_ℤ held.expires_at d.check_now)) [
        | inl b ↦ absurd (ground (arith, h, e, b))
        | inr b ↦
            let done : (rotated lib cfg S d held r).0 ≡ ok pair = ground (arith, h, e, b) in
            let spent : IsSpent held key r.1 = (
              law.revoke_valid s held.id valid,
              law.revoke_found s held key valid e (rotated_ok d held r pair done),
            ) in
            rw (e, b)
              (rotated_keeps lib cfg S (IsSpent held key) (IsFresh held key)
                (IsSpent-IsKept held key) d fresh held r spent)
      ]

  -- Over a Store with the laws of IsStore, in a valid state, a refresh that yields a pair spends
  -- its token: after any further calls whose new tokens take neither its id nor its hash, a
  -- refresh with the same text is answered with ErrRefreshBad and changes nothing.
  pub refresh_once :
      (s : S.State) (d again : Draws Bytes) (raw : String) (held : RefreshToken) (pair : TokenPair)
      (calls : List (Call Bytes))
      → Valid s
      → S.refresh_by_hash s (hash_token lib cfg S raw) ≡ ok held
      → (refresh lib cfg S s d raw).0 ≡ ok pair
      → IsFresh held (hash_token lib cfg S raw) d
      → All (λ c. IsFresh held (hash_token lib cfg S raw) (draws_of c)) calls
      → refresh lib cfg S (run lib cfg S (refresh lib cfg S s d raw).1 calls) again raw
        ≡ (err refresh_bad, run lib cfg S (refresh lib cfg S s d raw).1 calls)
  unfolding refresh
  refresh_once s d again raw held pair calls valid e h fresh all_fresh =
      let key = hash_token lib cfg S raw in
      let spent = first_use s d raw held pair valid e h fresh in
      let later =
        run_keeps lib cfg S (IsSpent held key) (IsFresh held key) (IsSpent-IsKept held key)
          (refresh lib cfg S s d raw).1 calls all_fresh spent in
      rw later.1 refl
