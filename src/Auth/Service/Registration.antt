-- ===== src/Auth/Service/Registration.antt =====
-- What a registration with services/auth/internal/service.go leads to.
use pokecatch.Prelude.{
  String, ◌≡◌, refl, sym, ◌∙◌, ap, Option, none, some, List, [], ◌∷◌, All, if◌then◌else◌,
}
use pokecatch.Prelude.Outcome.{Result, ok, err}
use pokecatch.Auth.Store.{Account, AuthError, email_taken, bad_creds, Store, IsStore}
use pokecatch.Auth.Password.{IsKdf, hash_password}
use pokecatch.Auth.Password.RoundTrip.{key_of, verify_password-hash_password}
use pokecatch.Auth.Service.{
  Config, Library, Draws, Call, TokenPair, new_account, registered, register_as, register, login,
  issue_pair, normalize_email, new_refresh, run, create,
}
use pokecatch.Auth.Service.Steps.{IsKept, issue_keeps, run_keeps}

module _ {Bytes : Type 0} (lib : Library Bytes) (cfg : Config Bytes) (S : Store)
    {Valid : S.State → Type 0} (law : IsStore S Valid) where
  registered_ok :
      (d : Draws Bytes) (acc : Account) (r : Option AuthError × S.State) (pair : TokenPair)
      → (registered lib cfg S d acc r).0 ≡ ok pair
      → r.0 ≡ none
  registered_ok d acc (none, s) pair h = refl
  registered_ok d acc (some e, s) pair h = absurd (cc h)

  registered_account :
      (d : Draws Bytes) (acc : Account) (r : Option AuthError × S.State) (pair : TokenPair)
      → (registered lib cfg S d acc r).0 ≡ ok pair
      → S.account_by_email r.1 acc.email ≡ ok acc
      → S.account_by_email (registered lib cfg S d acc r).1 acc.email ≡ ok acc
  registered_account d acc (some e, s) pair h k = absurd (cc h)
  registered_account d acc (none, s) pair h k =
      issue_keeps lib cfg S (λ t. S.account_by_email t acc.email ≡ ok acc) d
        (λ t a dev p. law.save_accounts t (new_refresh lib cfg S d a dev) acc.email ∙ p) s acc "" k

  created_account :
      (s : S.State) (d : Draws Bytes) (email display_name : String) (pair : TokenPair)
      (hashed : Result AuthError String)
      → (create lib cfg S s d email display_name hashed).0 ≡ ok pair
      → (hash : String) × (hashed ≡ ok hash)
        × (S.account_by_email (create lib cfg S s d email display_name hashed).1 email
            ≡ ok (new_account lib cfg S d email display_name hash))
  created_account s d email display_name pair (err e) h = absurd (cc h)
  created_account s d email display_name pair (ok hash) h =
      let acc = new_account lib cfg S d email display_name hash in
      let r = S.create_account s acc in
      (
        hash,
        refl,
        registered_account d acc r pair h (law.create_found s acc (registered_ok d acc r pair h)),
      )

  registered_as :
      (s : S.State) (d : Draws Bytes) (email password display_name : String) (pair : TokenPair)
      (found : Result AuthError Account)
      → (register_as lib cfg S s d email password display_name found).0 ≡ ok pair
      → (hash : String) × (hash_password lib.kdf d.salt password ≡ ok hash)
        × (S.account_by_email (register_as lib cfg S s d email password display_name found).1 email
            ≡ ok (new_account lib cfg S d email display_name hash))
  registered_as s d email password display_name pair (ok acc) h = absurd (cc h)
  registered_as s d email password display_name pair (err e) h =
      created_account s d email display_name pair (hash_password lib.kdf d.salt password) h

  register_account :
      (s : S.State) (d : Draws Bytes) (email password display_name : String) (pair : TokenPair)
      → (register lib cfg S s d email password display_name).0 ≡ ok pair
      → (hash : String) × (hash_password lib.kdf d.salt password ≡ ok hash)
        × (S.account_by_email
              (register lib cfg S s d email password display_name).1
              (normalize_email lib cfg S email)
            ≡ ok (new_account lib cfg S d (normalize_email lib cfg S email) display_name hash))
  unfolding register
  register_account s d email password display_name pair h =
      let e = normalize_email lib cfg S email in
      registered_as s d e password display_name pair (S.account_by_email s e) h

  abbrev HasAccount : String → S.State → Type 0
  HasAccount email s = (held : Account) × (S.account_by_email s email ≡ ok held)

  HasAccount-IsKept : (email : String) → IsKept lib cfg S (HasAccount email) (λ d. Unit {0})
  HasAccount-IsKept email = record {
    by_create = λ s a k. law.create_keeps s a email k.0 k.1;
    by_save = λ s d acc device_id fresh k.
        (k.0, law.save_accounts s (new_refresh lib cfg S d acc device_id) email ∙ k.1);
    by_revoke = λ s id k. (k.0, law.revoke_accounts s id email ∙ k.1);
  }

  free_calls : (cs : List (Call Bytes)) → All (λ c. Unit {0}) cs
  free_calls [] = _
  free_calls (c ∷ cs) = (_, free_calls cs)

  -- Over a Store with the laws of IsStore, once a registration has yielded a pair, after any
  -- further calls a registration whose email normalizes to the same text is answered with
  -- ErrEmailTaken and changes nothing.
  pub register_once :
      (s : S.State) (d again : Draws Bytes) (email password display_name : String)
      (pair : TokenPair) (calls : List (Call Bytes)) (email2 password2 name2 : String)
      → (register lib cfg S s d email password display_name).0 ≡ ok pair
      → normalize_email lib cfg S email2 ≡ normalize_email lib cfg S email
      → register lib cfg S
          (run lib cfg S (register lib cfg S s d email password display_name).1 calls)
          again
          email2
          password2
          name2
        ≡ (
          err email_taken,
          run lib cfg S (register lib cfg S s d email password display_name).1 calls,
        )
  unfolding register
  register_once s d again email password display_name pair calls email2 password2 name2 h same =
      let e = normalize_email lib cfg S email in
      let (hash, k, found) = register_account s d email password display_name pair h in
      let later =
        run_keeps lib cfg S (HasAccount e) (λ _. Unit {0}) (HasAccount-IsKept e)
          (register lib cfg S s d email password display_name).1 calls (free_calls calls)
          (_, found) in
      rw (same, later.1) refl

  -- Over a Store with the laws of IsStore and a KDF with those of IsKdf, after a registration
  -- that yields a pair, a login with the same email issues a pair for the new account if the key
  -- of the attempt under the stored salt equals that of the password, and is otherwise answered
  -- with ErrBadCreds and changes nothing.
  pub login-register :
      (s : S.State) (d again : Draws Bytes) (email password display_name : String)
      (pair : TokenPair) (attempt device_id : String) (salt : Bytes)
      → IsKdf lib.kdf
      → d.salt ≡ some salt
      → (register lib cfg S s d email password display_name).0 ≡ ok pair
      → (acc : Account) × (acc.id ≡ d.account_id)
        × (login lib cfg S
              (register lib cfg S s d email password display_name).1
              again
              email
              attempt
              device_id
            ≡ (if lib.kdf.equal (key_of lib.kdf salt password) (key_of lib.kdf salt attempt)
                then issue_pair lib cfg S
                    (register lib cfg S s d email password display_name).1
                    again
                    acc
                    device_id
                else (err bad_creds, (register lib cfg S s d email password display_name).1)))
  unfolding login
  login-register s d again email password display_name pair attempt device_id salt kdf drawn h =
      let (hash, k, found) = register_account s d email password display_name pair h in
      let verified =
        verify_password-hash_password lib.kdf salt password attempt hash kdf
          (ap (λ z. hash_password lib.kdf z password) (sym drawn) ∙ k) in
      (
        new_account lib cfg S d (normalize_email lib cfg S email) display_name hash,
        refl,
        rw (found, verified) refl,
      )
