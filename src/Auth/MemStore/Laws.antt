-- ===== src/Auth/MemStore/Laws.antt =====
-- That the in-memory store of services/auth/internal/store_memory.go has the laws of a Store.
use pokecatch.Prelude.{
  String, ◌≡◌, ◌≢◌, refl, sym, ◌∙◌, ap, Bool, true, Option, none, some, arith, str_eq, eq_iff,
  Bool-cases, Option-cases, inl, inr,
}
use pokecatch.Prelude.Outcome.{Result, ok, ok_inj}
use pokecatch.Prelude.Dict.{get, put, get-empty, get-put, get-put_self}
use pokecatch.Auth.Store.{Account, RefreshToken, AuthError, email_taken, IsStore}
use pokecatch.Auth.MemStore.{
  MemStore, new_mem_store, create_account, account_by_email, save_refresh, refresh_by_hash,
  revoke_refresh, mem_store, created, revoked_at, or_zero, zero_account,
}

some_inj : {a b : RefreshToken} → some a ≡ some b → a ≡ b
some_inj h = cc h

abbrev spend : Bool → RefreshToken → RefreshToken
spend b rt = record rt { revoked = b }

-- Every hash leads to a token, which has the id that it is kept under.
abbrev pub IsValid : MemStore → Type 0
IsValid m =
    (h id : String)
    → get m.ref_by_hash h ≡ some id
    → (rt : RefreshToken) × (get m.refresh id ≡ some rt) × (rt.id ≡ id)

created-IsValid :
    (m : MemStore) (a : Account) (held : Option String) → IsValid m → IsValid (created m a held).1
created-IsValid m a none valid = valid
created-IsValid m a (some id) valid = valid

create-IsValid : (m : MemStore) (a : Account) → IsValid m → IsValid (create_account m a).1
unfolding create_account
create-IsValid m a valid = created-IsValid m a (get m.by_email a.email) valid

save-IsValid : (m : MemStore) (rt : RefreshToken) → IsValid m → IsValid (save_refresh m rt).1
unfolding save_refresh
save-IsValid m rt valid h id e = elim (Bool-cases (str_eq rt.id id)) [
  | inl same ↦ (rt, get-put m.refresh rt.id id rt ∙ rw same refl, (eq_iff rt.id id).0 same)
  | inr other ↦
      let (held, d, k) =
        valid h id
          (ground (arith, e, other, get-put m.ref_by_hash rt.hash h rt.id, eq_iff rt.id id)) in
      (held, get-put m.refresh rt.id id rt ∙ rw other d, k)
]

revoked-IsValid :
    (m : MemStore) (at_ : String) (old : Option RefreshToken)
    → IsValid m
    → get m.refresh at_ ≡ old
    → IsValid (revoked_at m at_ old).1
revoked-IsValid m at_ none valid e = valid
revoked-IsValid m at_ (some rt) valid e = λ h id d.
    let (held, f, k) = valid h id d in
    let marked : RefreshToken = record rt { revoked = true } in
    elim (Bool-cases (str_eq at_ id)) [
      | inl same ↦
          let one = some_inj (sym e ∙ ap (get m.refresh) ((eq_iff at_ id).0 same) ∙ f) in
          (marked, get-put m.refresh at_ id marked ∙ rw same refl, ap (λ z. z.id) one ∙ k)
      | inr other ↦ (held, get-put m.refresh at_ id marked ∙ rw other f, k)
    ]

revoke-IsValid : (m : MemStore) (id : String) → IsValid m → IsValid (revoke_refresh m id).1
unfolding revoke_refresh
revoke-IsValid m id valid = revoked-IsValid m id (get m.refresh id) valid refl

created_found :
    (m : MemStore) (a : Account) (held : Option String)
    → (created m a held).0 ≡ none
    → account_by_email (created m a held).1 a.email ≡ ok a
unfolding account_by_email
created_found m a (some id) h = absurd (cc h)
created_found m a none h =
    rw (get-put_self m.by_email a.email a.id, get-put_self m.by_id a.id a) refl

create_taken :
    (m : MemStore) (a held : Account)
    → account_by_email m a.email ≡ ok held
    → create_account m a ≡ (some email_taken, m)
unfolding account_by_email create_account
create_taken m a held h = elim (Option-cases (get m.by_email a.email)) [
  | inl e ↦ absurd (ground (arith, h, e))
  | inr (id, e) ↦ rw e refl
]

created_keeps :
    (m : MemStore) (a : Account) (old : Option String) (email : String) (held : Account)
    → account_by_email m email ≡ ok held
    → (kept : Account) × (account_by_email (created m a old).1 email ≡ ok kept)
unfolding account_by_email
created_keeps m a (some id) email held e = (held, e)
created_keeps m a none email held e = elim (Option-cases (get m.by_email email)) [
  | inl d ↦ absurd (ground (arith, e, d))
  | inr (id, d) ↦ elim (Bool-cases (str_eq a.email email)) [
    | inl same ↦ (
      or_zero zero_account (get (put m.by_id a.id a) a.id),
      rw (get-put m.by_email a.email email a.id, same) refl,
    )
    | inr other ↦ (
      or_zero zero_account (get (put m.by_id a.id a) id),
      rw (get-put m.by_email a.email email a.id, other, d) refl,
    )
  ]
]

created_tokens :
    (m : MemStore) (a : Account) (held : Option String) (h : String)
    → refresh_by_hash (created m a held).1 h ≡ refresh_by_hash m h
unfolding refresh_by_hash
created_tokens m a none h = refl
created_tokens m a (some id) h = refl

revoked_accounts :
    (m : MemStore) (id email : String) (old : Option RefreshToken)
    → account_by_email (revoked_at m id old).1 email ≡ account_by_email m email
unfolding account_by_email
revoked_accounts m id email none = refl
revoked_accounts m id email (some rt) = refl

save_found :
    (m : MemStore) (rt : RefreshToken) → refresh_by_hash (save_refresh m rt).1 rt.hash ≡ ok rt
unfolding save_refresh refresh_by_hash
save_found m rt =
    rw (get-put_self m.ref_by_hash rt.hash rt.id, get-put_self m.refresh rt.id rt) refl

-- What a valid store answers for a hash.
held_at :
    (m : MemStore) (h : String) (held : RefreshToken)
    → IsValid m
    → refresh_by_hash m h ≡ ok held
    → (get m.ref_by_hash h ≡ some held.id) × (get m.refresh held.id ≡ some held)
unfolding refresh_by_hash
held_at m h held valid e = elim (Option-cases (get m.ref_by_hash h)) [
  | inl d ↦ absurd (ground (arith, e, d))
  | inr (id, d) ↦
      let (rt, f, k) = valid h id d in
      let same : Path (Result AuthError RefreshToken) (ok rt) (ok held) = rw (← e, d, f) refl in
      let one = ok_inj same in
      let here = sym k ∙ ap (λ z. z.id) one in
      (d ∙ ap some here, ap (get m.refresh) (sym here) ∙ f ∙ ap some one)
]

found_at :
    (m : MemStore) (h id : String) (held : RefreshToken)
    → get m.ref_by_hash h ≡ some id
    → get m.refresh id ≡ some held
    → refresh_by_hash m h ≡ ok held
unfolding refresh_by_hash
found_at m h id held e d = rw (e, d) refl

save_other :
    (m : MemStore) (rt held : RefreshToken) (h : String)
    → IsValid m
    → refresh_by_hash m h ≡ ok held
    → held.id ≢ rt.id
    → h ≢ rt.hash
    → refresh_by_hash (save_refresh m rt).1 h ≡ ok held
unfolding save_refresh
save_other m rt held h valid e other_id other_hash =
    let (d, f) = held_at m h held valid e in
    found_at (save_refresh m rt).1 h held.id held
      (ground (arith, d, other_hash, get-put m.ref_by_hash rt.hash h rt.id, eq_iff rt.hash h))
      (ground (arith, f, other_id, get-put m.refresh rt.id held.id rt, eq_iff rt.id held.id))

revoke_found :
    (m : MemStore) (held : RefreshToken) (h : String)
    → IsValid m
    → refresh_by_hash m h ≡ ok held
    → refresh_by_hash (revoke_refresh m held.id).1 h ≡ ok (record held { revoked = true })
unfolding revoke_refresh
revoke_found m held h valid e =
    let (d, f) = held_at m h held valid e in
    let marked : RefreshToken = record held { revoked = true } in
    rw f (
      found_at (revoked_at m held.id (some held)).1 h held.id marked d
        (get-put_self m.refresh held.id marked))

revoked_spent :
    (m : MemStore) (held : RefreshToken) (id h : String) (old : Option RefreshToken)
    → IsValid m
    → get m.refresh id ≡ old
    → refresh_by_hash m h ≡ ok held
    → held.revoked ≡ true
    → refresh_by_hash (revoked_at m id old).1 h ≡ ok held
revoked_spent m held id h none valid k e spent = e
revoked_spent m held id h (some rt) valid k e spent =
    let (d, f) = held_at m h held valid e in
    let marked : RefreshToken = record rt { revoked = true } in
    found_at (revoked_at m id (some rt)).1 h held.id held d (elim (Bool-cases (str_eq id held.id)) [
      | inl same ↦
          let one = some_inj (sym k ∙ ap (get m.refresh) ((eq_iff id held.id).0 same) ∙ f) in
          get-put m.refresh id held.id marked
          ∙ rw same (ap some (ap (spend true) one ∙ ap (λ b. spend b held) (sym spent)))
      | inr other ↦ get-put m.refresh id held.id marked ∙ rw other f
    ])

new_mem_store-IsValid : IsValid new_mem_store
new_mem_store-IsValid h id e = absurd (ground (arith, e, get-empty {V = String} h))

-- The in-memory store starts valid and has the laws of IsStore: it keeps its validity, finds what
-- it saved or created, refuses a taken email, keeps a token until another takes its id or hash,
-- and never brings a spent token back.
pub mem_store-IsStore : IsValid new_mem_store × IsStore mem_store IsValid
unfolding create_account save_refresh revoke_refresh account_by_email
mem_store-IsStore = (
  new_mem_store-IsValid,
  record {
    create_valid = create-IsValid;
    save_valid = save-IsValid;
    revoke_valid = revoke-IsValid;
    create_found = λ m a h. created_found m a (get m.by_email a.email) h;
    create_keeps = λ m a email held h. created_keeps m a (get m.by_email a.email) email held h;
    create_taken = λ m a held valid h. create_taken m a held h;
    create_tokens = λ m a h. created_tokens m a (get m.by_email a.email) h;
    save_accounts = λ m rt email. refl;
    revoke_accounts = λ m id email. revoked_accounts m id email (get m.refresh id);
    save_found = λ m rt h. save_found m rt;
    save_other = save_other;
    revoke_found = λ m held h valid e d. revoke_found m held h valid e;
    revoke_spent = λ m held id h valid e spent.
        revoked_spent m held id h (get m.refresh id) valid refl e spent;
  },
)
